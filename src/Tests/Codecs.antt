-- ===== src/Tests/Codecs.antt =====
-- Message types with small encodings: they serialize the messages of one layer of one image, where each
-- number fits a byte.
use atc2025_poby.Base.{
  ltb, ℕ, ◌≡◌, Bool, true, false, ◌&&◌, Option, none, some, List, [], ◌∷◌, String, str_eq, eq_iff,
  ◌==◌, if◌then◌else◌, length, arith,
}
use atc2025_poby.Wire.Codec.{Codec}
use atc2025_poby.Rdma.Connection.{Verbs}
use atc2025_poby.Content.Messages.{GetLayerRequest, GetLayerResponse}

-- Send queues of two requests, and receive queues without a bound.
abbrev pub verbs : Verbs
verbs = record { send_accepted = λ q. ltb (length q) 2; recv_accepted = λ q. true }

abbrev pub listed_name : String → String → Bool
listed_name layer image = str_eq layer "a" && str_eq image "i"

abbrev pub request : ℕ → ℕ → GetLayerRequest
request index total = record {
  layer = "a";
  image_name_tag = "i";
  index = index;
  total_segments = total;
}

abbrev serialize_request : GetLayerRequest → Option (List ℕ)
serialize_request r =
    if listed_name r.layer r.image_name_tag && (ltb r.index 256 && ltb r.total_segments 256)
    then some (r.index ∷ r.total_segments ∷ [])
    else none

abbrev parse_request : List ℕ → Bool × GetLayerRequest
parse_request (i ∷ t ∷ []) = (true, request i t)
parse_request _ = (false, request 0 0)

pub request_length :
    (m : GetLayerRequest) (bs : List ℕ) → serialize_request m ≡ some bs → length bs ≡ 2
request_length m bs h = ground arith

pub request_parse :
    (m : GetLayerRequest) (bs : List ℕ)
    → serialize_request m ≡ some bs
    → parse_request bs ≡ (true, m)
request_parse m bs h = ground (arith, eq_iff m.layer "a", eq_iff m.image_name_tag "i")

abbrev pub requests : Codec GetLayerRequest
requests = record {
  blank = request 0 0;
  byte_size = λ m. 2;
  serialize = serialize_request;
  parse = parse_request;
  parse_negative = (false, request 0 0);
  length-serialize = request_length;
  parse-serialize = request_parse;
}

abbrev pub response : ℕ → ℕ → ℕ → Bool → GetLayerResponse
response index total size compressed = record {
  layer = "a";
  image_name_tag = "i";
  index = index;
  total_segments = total;
  segment_size = size;
  is_compressed = compressed;
}

abbrev flag : Bool → ℕ
flag true = 1
flag false = 0

abbrev serialize_response : GetLayerResponse → Option (List ℕ)
serialize_response r =
    if listed_name r.layer r.image_name_tag
      && (ltb r.index 256 && (ltb r.total_segments 256 && ltb r.segment_size 256))
    then some (r.index ∷ r.total_segments ∷ r.segment_size ∷ flag r.is_compressed ∷ [])
    else none

abbrev parse_response : List ℕ → Bool × GetLayerResponse
parse_response (i ∷ t ∷ n ∷ f ∷ []) = (true, response i t n (f == 1))
parse_response _ = (false, response 0 0 0 false)

pub response_length :
    (m : GetLayerResponse) (bs : List ℕ) → serialize_response m ≡ some bs → length bs ≡ 4
response_length m bs h = ground arith

pub response_parse :
    (m : GetLayerResponse) (bs : List ℕ)
    → serialize_response m ≡ some bs
    → parse_response bs ≡ (true, m)
response_parse m bs h = ground (arith, eq_iff m.layer "a", eq_iff m.image_name_tag "i")

abbrev pub responses : Codec GetLayerResponse
responses = record {
  blank = response 0 0 0 false;
  byte_size = λ m. 4;
  serialize = serialize_response;
  parse = parse_response;
  parse_negative = (false, response 0 0 0 false);
  length-serialize = response_length;
  parse-serialize = response_parse;
}

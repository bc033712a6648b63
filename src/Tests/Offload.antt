-- ===== src/Tests/Offload.antt =====
-- The servers of offloading and of decompression at concrete inputs.
use atc2025_poby.Base.{
  ℕ, ◌+◌, ◌≡◌, refl, ap, ap₂, sym, Bool, true, false, ◌&&◌, Option, none, some, List, [], ◌∷◌, ◌++◌,
  map, String, str_eq, eq_iff, if◌then◌else◌, arith, length, le32,
}
use atc2025_poby.Memory.{load, store, load-store_self}
use atc2025_poby.Wire.Codec.{Codec}
use atc2025_poby.Wire.RdmaFrame.Typed.{typed_frame}
use atc2025_poby.Rdma.Connection.{RdmaConnection, SendWr, construct, add_bufpairs, ids_from}
use atc2025_poby.Host.Offload.{
  OffloadRequest, OffloadResponse, DecompressConnectionRequest, DecompressConnectionResponse,
  offload_type,
}
use atc2025_poby.Dpu.OffloadServer.{OffloadServer, new_server}
use atc2025_poby.Dpu.OffloadServer as Server
use atc2025_poby.Dpu.OffloadServer.Answering.{on_recv_success-fetch}
use atc2025_poby.Dpu.Decompress.State.{
  DecompressFinishRequest, DecompressFinishResponse, decompress_finish,
}
use atc2025_poby.Host.Decompress.{
  DecompressServer, Mapping, untar_data, handle_decompress_finish_request,
}
use atc2025_poby.Host.Decompress.Handing.{handle_decompress_finish_request-untar}
use atc2025_poby.Tests.Codecs.{verbs}
use atc2025_poby.Tests.Jobs.{mute, finish_requests, mmap_requests, mmap_responses}

abbrev request_i : OffloadRequest
request_i = record { image_name_tag = "i"; layers = "a" ∷ "b" ∷ [] }

abbrev is_ab : List String → Bool
is_ab (x ∷ y ∷ []) = str_eq x "a" && str_eq y "b"
is_ab _ = false

abbrev serialize_i : OffloadRequest → Option (List ℕ)
serialize_i r = if str_eq r.image_name_tag "i" && is_ab r.layers then some (9 ∷ []) else none

abbrev parse_i : List ℕ → Bool × OffloadRequest
parse_i bs = (true, request_i)

i_length : (m : OffloadRequest) (bs : List ℕ) → serialize_i m ≡ some bs → length bs ≡ 1
i_length m bs h = ground arith

is_ab-eq : (l : List String) → is_ab l ≡ true → l ≡ "a" ∷ "b" ∷ []
is_ab-eq [] e = cc
is_ab-eq (x ∷ []) e = cc
is_ab-eq (x ∷ y ∷ []) e =
    ap₂ (λ a b. a ∷ b ∷ []) ((eq_iff x "a").0 (ground (arith, e)))
      ((eq_iff y "b").0 (ground (arith, e)))
is_ab-eq (x ∷ y ∷ z ∷ r) e = cc

named :
    (name : String) (l : List String) (bs : List ℕ)
    → serialize_i (record { image_name_tag = name; layers = l }) ≡ some bs
    → name ≡ "i"
named name l bs h = (eq_iff name "i").0 (ground (arith, h))

listed :
    (name : String) (l : List String) (bs : List ℕ)
    → serialize_i (record { image_name_tag = name; layers = l }) ≡ some bs
    → is_ab l ≡ true
listed name l bs h = ground (arith, h)

i_parse : (m : OffloadRequest) (bs : List ℕ) → serialize_i m ≡ some bs → parse_i bs ≡ (true, m)
i_parse m bs h =
    ap {A = String × List String} {B = Bool × OffloadRequest}
      (λ p. (true, record { image_name_tag = p.0; layers = p.1 }))
      (ap₂ {C = String × List String} (λ a b. (a, b)) (sym (named m.image_name_tag m.layers bs h))
        (sym (is_ab-eq m.layers (listed m.image_name_tag m.layers bs h))))

abbrev offload_requests : Codec OffloadRequest
offload_requests = record {
  blank = request_i;
  byte_size = λ m. 1;
  serialize = serialize_i;
  parse = parse_i;
  parse_negative = (false, request_i);
  length-serialize = i_length;
  parse-serialize = i_parse;
}

abbrev serialize_done : OffloadResponse → Option (List ℕ)
serialize_done r = if str_eq r.image_name_tag "i" && r.success then some (5 ∷ 6 ∷ []) else none

abbrev parse_done : List ℕ → Bool × OffloadResponse
parse_done bs = (true, record { image_name_tag = "i"; success = true })

done_length : (m : OffloadResponse) (bs : List ℕ) → serialize_done m ≡ some bs → length bs ≡ 2
done_length m bs h = ground arith

done_parse :
    (m : OffloadResponse) (bs : List ℕ) → serialize_done m ≡ some bs → parse_done bs ≡ (true, m)
done_parse m bs h = ground (arith, eq_iff m.image_name_tag "i")

abbrev offload_responses : Codec OffloadResponse
offload_responses = record {
  blank = record { image_name_tag = "i"; success = true };
  byte_size = λ m. 2;
  serialize = serialize_done;
  parse = parse_done;
  parse_negative = (false, record { image_name_tag = "i"; success = true });
  length-serialize = done_length;
  parse-serialize = done_parse;
}

abbrev connection_requests : Codec DecompressConnectionRequest
connection_requests = mute (record { connection = false })

abbrev connection_responses : Codec DecompressConnectionResponse
connection_responses = mute (record { connection = false })

-- The request is in the memory at 500.
abbrev conn : RdmaConnection
conn = construct (store (λ a. 0) 500 (typed_frame offload_type (9 ∷ []))) 0 128 2

arrived : load conn.mem 500 (4 + (4 + 1)) ≡ typed_frame offload_type (9 ∷ [])
unfolding construct le32
arrived = load-store_self (λ a. 0) 500 (typed_frame offload_type (9 ∷ []))

on_recv_success-fetch_example :
    (s' : OffloadServer) × (conn' : RdmaConnection) × (wr : SendWr) × (Server.on_recv_success verbs
        connection_requests connection_responses offload_requests offload_responses new_server conn
        500
        (4 + (4 + 1))
      ≡ some (s', conn'))
    × (s'.fetched ≡ [] ++ map (λ layer. (layer, "i")) ("a" ∷ "b" ∷ []))
    × (conn'.sq ≡ conn.sq ++ wr ∷ [])
    × (wr.payload ≡ typed_frame offload_type (5 ∷ 6 ∷ []))
    × (conn'.free_bufpairs ≡ (1 ∷ []) ++ 0 ∷ [])
unfolding construct add_bufpairs ids_from
on_recv_success-fetch_example =
    on_recv_success-fetch verbs connection_requests connection_responses offload_requests
      offload_responses new_server conn 500 request_i (9 ∷ []) (5 ∷ 6 ∷ []) 0 (1 ∷ [])
      (record { encoded = refl; small = omega arith }) arrived
      (record { encoded = refl; small = omega arith }) refl (omega arith) (omega arith) refl

-- An announcement of segment 3 of layer "a", with its data.
abbrev announcement : DecompressFinishRequest
announcement = record {
  layer_name = "a";
  image_name_tag = "i";
  segment_size = 2;
  segment_idx = 3;
  total_segments = 4;
  bufpair_id = 0;
  data_inline = true;
}

abbrev heard : DecompressFinishResponse
heard = record {
  success = true;
  layer_name = "a";
  segment_idx = 3;
  data_inline = true;
  bufpair_id = 0;
}

abbrev serialize_heard : DecompressFinishResponse → Option (List ℕ)
serialize_heard r =
    if r.success && str_eq r.layer_name "a" && r.data_inline
    then some (r.segment_idx ∷ r.bufpair_id ∷ [])
    else none

abbrev parse_heard : List ℕ → Bool × DecompressFinishResponse
parse_heard (i ∷ b ∷ []) = (
  true,
  record { success = true; layer_name = "a"; segment_idx = i; data_inline = true; bufpair_id = b },
)
parse_heard _ = (false, heard)

heard_length :
    (m : DecompressFinishResponse) (bs : List ℕ) → serialize_heard m ≡ some bs → length bs ≡ 2
heard_length m bs h = ground arith

heard_parse :
    (m : DecompressFinishResponse) (bs : List ℕ)
    → serialize_heard m ≡ some bs
    → parse_heard bs ≡ (true, m)
heard_parse m bs h = ground (arith, eq_iff m.layer_name "a")

abbrev finish_responses : Codec DecompressFinishResponse
finish_responses = record {
  blank = heard;
  byte_size = λ m. 2;
  serialize = serialize_heard;
  parse = parse_heard;
  parse_negative = (false, heard);
  length-serialize = heard_length;
  parse-serialize = heard_parse;
}

abbrev mapping : Mapping
mapping = record { max_file_size = 16; dst_started = true; exported = some [] }

abbrev server : DecompressServer
server = record { wr_id = 0; dst_mems = []; untarred = [] }

handle_decompress_finish_request-untar_example :
    (s' : DecompressServer) × (conn' : RdmaConnection) × (wr : SendWr)
    × (handle_decompress_finish_request verbs mapping finish_requests finish_responses mmap_requests
          mmap_responses server conn announcement 500 2
        ≡ some (true, s', conn'))
    × (s'.untarred
        ≡ []
          ++ untar_data verbs mapping finish_requests finish_responses mmap_requests mmap_responses
              announcement
              (load conn.mem 500 2)
            ∷ [])
    × (conn'.sq ≡ conn.sq ++ wr ∷ [])
    × (wr.payload ≡ typed_frame decompress_finish (3 ∷ 0 ∷ []))
    × (conn'.free_bufpairs ≡ (1 ∷ []) ++ 0 ∷ [])
unfolding construct add_bufpairs ids_from
handle_decompress_finish_request-untar_example =
    handle_decompress_finish_request-untar verbs mapping finish_requests finish_responses
      mmap_requests mmap_responses server conn announcement 500 2 (load conn.mem 500 2) (3 ∷ 0 ∷ [])
      0 (1 ∷ []) refl (record { encoded = refl; small = omega arith }) refl (omega arith)
      (omega arith) refl

-- ===== src/Tests/Jobs.antt =====
-- A run of the decompression client: one segment, submitted before the buffers of the host are known.
use atc2025_poby.Base.{
  ℕ, ◌≡◌, ◌⊎◌, ap, sym, refl, Bool, true, false, Option, none, some, List, [], ◌∷◌, ◌++◌, map,
  arith, length, none≢some, some_eq,
}
use atc2025_poby.Wire.Codec.{Codec}
use atc2025_poby.Wire.RdmaFrame.{serialize_rdma_pb_msg}
use atc2025_poby.Rdma.Connection.{
  RdmaConnection, construct, add_bufpairs, ids_from, acquire_free_send_buf,
}
use atc2025_poby.BlobPool.{BlobPool, new_pool}
use atc2025_poby.Content.Messages.{ContentElement}
use atc2025_poby.Doca.CompressEngine.{
  new_engine, bufpair_num, start_job, fill_source, acquire_free_bufpair,
}
use atc2025_poby.Dpu.Decompress.{
  on_connected, submit_decompress_task, handle_mmap_info_response, try_start_decompress_job,
  start_decompress_job,
}
use atc2025_poby.Dpu.Decompress.State.{
  DecompressClient, DecompressFinishRequest, DecompressFinishResponse, MmapInfoRequest,
  MmapInfoResponse, MmapInfoElement, Doca, new_client,
}
use atc2025_poby.Dpu.Decompress.Queueing.Invariant.{IsRefused, bytes_of, source_of}
use atc2025_poby.Dpu.Decompress.Queueing.Run.{Run, jobs_in_order}
use atc2025_poby.Tests.Codecs.{verbs}

-- A message type of which no message serializes.
abbrev pub mute : {A : Type 0} → A → Codec A
mute blank = record {
  blank = blank;
  byte_size = λ m. 0;
  serialize = λ m. none;
  parse = λ bs. (false, blank);
  parse_negative = (false, blank);
  length-serialize = λ m bs e. none≢some e;
  parse-serialize = λ m bs e. none≢some e;
}

abbrev parse_num : List ℕ → Bool × MmapInfoRequest
parse_num (n ∷ []) = (true, record { mmap_num = n })
parse_num _ = (false, record { mmap_num = 0 })

abbrev serialize_num : MmapInfoRequest → Option (List ℕ)
serialize_num m = some (m.mmap_num ∷ [])

pub num_length : (m : MmapInfoRequest) (bs : List ℕ) → serialize_num m ≡ some bs → length bs ≡ 1
num_length m bs e = ap {A = List ℕ} length (some_eq (sym e))

pub num_parse :
    (m : MmapInfoRequest) (bs : List ℕ) → serialize_num m ≡ some bs → parse_num bs ≡ (true, m)
num_parse m bs e = ap parse_num (some_eq (sym e))

abbrev pub mmap_requests : Codec MmapInfoRequest
mmap_requests = record {
  blank = record { mmap_num = 0 };
  byte_size = λ m. 1;
  serialize = serialize_num;
  parse = parse_num;
  parse_negative = (false, record { mmap_num = 0 });
  length-serialize = num_length;
  parse-serialize = num_parse;
}

abbrev pub finish_requests : Codec DecompressFinishRequest
finish_requests = mute (record {
  layer_name = "";
  image_name_tag = "";
  segment_size = 0;
  segment_idx = 0;
  total_segments = 0;
  bufpair_id = 0;
  data_inline = false;
})

abbrev finish_responses : Codec DecompressFinishResponse
finish_responses = mute (record {
  success = false;
  layer_name = "";
  segment_idx = 0;
  data_inline = false;
  bufpair_id = 0;
})

abbrev pub mmap_responses : Codec MmapInfoResponse
mmap_responses = mute (record { mmaps = [] })

abbrev doca : Doca
doca = record {
  data_set = λ bytes. true;
  src_started = true;
  dst_created = λ mmaps. true;
  moved_from = λ s. "";
}

abbrev pool : BlobPool
pool = new_pool 16 2

abbrev conn : RdmaConnection
conn = construct (λ a. 0) 0 128 2

abbrev start : DecompressClient
start = new_client (new_engine 16 2) pool

abbrev or_start : Option DecompressClient → DecompressClient
or_start none = start
or_start (some c) = c

abbrev segment : ContentElement
segment = record {
  segment = record { cap = 16; size = 2; bytes = 7 ∷ 8 ∷ [] };
  segment_idx = 0;
  total_segments = 1;
  layer = "a";
  image_name_tag = "i";
  is_compressed = true;
}

abbrev connected : DecompressClient
connected = or_start (
    on_connected verbs doca finish_requests finish_responses mmap_requests mmap_responses start
      conn)

abbrev waiting : DecompressClient
waiting = or_start (
    submit_decompress_task verbs doca finish_requests finish_responses mmap_requests mmap_responses
      connected segment)

abbrev buffer_at : ℕ → MmapInfoElement
buffer_at addr = record { addr = addr; len = 16; export_desc = [] }

abbrev exported : MmapInfoResponse
exported = record { mmaps = buffer_at 0 ∷ buffer_at 16 ∷ [] }

abbrev busy_client : DecompressClient
busy_client = or_start (
    handle_mmap_info_response verbs doca finish_requests finish_responses mmap_requests
      mmap_responses waiting exported)

busy_client-Run :
    Run verbs doca finish_requests finish_responses mmap_requests mmap_responses 16 2 pool
      busy_client
      ((7 ∷ 8 ∷ []) ∷ [])
unfolding on_connected submit_decompress_task handle_mmap_info_response try_start_decompress_job
    start_decompress_job construct add_bufpairs ids_from acquire_free_send_buf new_engine
    bufpair_num start_job fill_source acquire_free_bufpair serialize_rdma_pb_msg
busy_client-Run =
    Run.mapped waiting busy_client ((7 ∷ 8 ∷ []) ∷ []) exported
      (Run.submission connected waiting [] segment (Run.connection conn connected refl)
        (omega arith) refl)
      refl refl

jobs_in_order_example :
    (map source_of busy_client.compress_engine.jobs
        ++ map bytes_of busy_client.pending_compress_jobs
      ≡ (7 ∷ 8 ∷ []) ∷ [])
    × (busy_client.connected ≡ true
        → busy_client.decompress_busy ≡ false
        → (busy_client.pending_compress_jobs ≡ [])
          ⊎ ((busy_client.compress_engine.free_bufpairs ≡ [])
              ⊎ IsRefused doca busy_client.pending_compress_jobs))
jobs_in_order_example =
    jobs_in_order verbs doca finish_requests finish_responses mmap_requests mmap_responses 16 2 pool
      busy_client ((7 ∷ 8 ∷ []) ∷ []) busy_client-Run

-- ===== src/Host/Decompress.antt =====
-- src/host/client/decompress_server_epoll.cc: the host is told of each segment that is in its memory, or
-- gets it in the message, and hands it to the untar engine. `none` is a fault: a failed assertion, or a
-- buffer that is not there.
pub mod Handing
use atc2025_poby.Base.{
  ℕ, zero, suc, ◌+◌, ◌-◌, ◌*◌, ◌^◌, Bool, true, false, Option, none, some, List, [], ◌∷◌, ◌++◌,
  String, ltb, leb, ◌==◌, if◌then◌else◌, ◌>>=◌, assert, length, get_or, take, u32, u64, minus_one,
  le32, from_le32,
}
use atc2025_poby.Memory.{Memory, load, store}
use atc2025_poby.Wire.Codec.{Codec}
use atc2025_poby.Wire.RdmaFrame.{parse_rdma_pb_msg, serialize_rdma_pb_msg}
use atc2025_poby.Rdma.Connection.{
  RdmaConnection, SendBuf, Verbs, acquire_free_send_buf, release_send_buf, send,
}
use atc2025_poby.Dpu.Decompress.State.{
  DecompressFinishRequest, DecompressFinishResponse, MmapInfoRequest, MmapInfoResponse,
  MmapInfoElement, mmap_info, decompress_finish,
}

pub record UntarData : Type 0 where
  pub layer : String
  pub image_name_tag : String
  pub segment : List ℕ
  pub index : ℕ
  pub total_segments : ℕ

-- A destination buffer of the engine: its address, and the bytes that the DPU wrote there.
pub record DstMem : Type 0 where
  pub addr : ℕ
  pub bytes : List ℕ

-- `untarred` are those handed to `UntarEngine::untar`, in order.
pub record DecompressServer : Type 0 where
  pub wr_id : ℕ
  pub dst_mems : List DstMem
  pub untarred : List UntarData

-- `MAX_FILE_SIZE`, and what DOCA answers to the mapping of the destination buffers and to their export.
pub record Mapping : Type 0 where
  pub max_file_size : ℕ
  pub dst_started : Bool
  pub exported : Option (List (List ℕ))

abbrev pub no_mem : DstMem
no_mem = record { addr = 0; bytes = [] }

module _ (v : Verbs) (mapping : Mapping) (finish_requests : Codec DecompressFinishRequest)
    (finish_responses : Codec DecompressFinishResponse) (mmap_requests : Codec MmapInfoRequest)
    (mmap_responses : Codec MmapInfoResponse) where
  -- The send and the release of the buffer; where the frame could not be written, neither.
  abbrev pub post :
      DecompressServer
      → RdmaConnection
      → SendBuf
      → ℕ × Memory
      → Bool × DecompressServer × RdmaConnection
  post s conn buf (frame_len, mem) =
      let conn' = record conn { mem = mem } in
      if frame_len == minus_one then (false, s, conn') else (
        true,
        record s { wr_id = u64 (s.wr_id + 1) },
        release_send_buf (send v conn' buf.addr (u32 (4 + frame_len)) s.wr_id) buf.id,
      )

  abbrev pub answer :
      {A : Type 0}
      → Codec A
      → A
      → ℕ
      → DecompressServer
      → Option SendBuf × RdmaConnection
      → Option (Bool × DecompressServer × RdmaConnection)
  answer responses resp type s (none, conn) = none
  answer responses resp type s (some buf, conn) = some (
      post s conn buf (
        serialize_rdma_pb_msg responses (store conn.mem buf.addr (le32 type)) (buf.addr + 4)
          (u32 (buf.cap + 2 ^ 32 - 4)) resp))

  -- The loop over the export descriptors, from pair `i`.
  abbrev elements : List DstMem → ℕ → List (List ℕ) → List MmapInfoElement
  elements mems i [] = []
  elements mems i (desc ∷ descs) =
      record {
        addr = (get_or mems i no_mem).addr;
        len = length (get_or mems i no_mem).bytes;
        export_desc = desc;
      }
      ∷ elements mems (suc i) descs

  abbrev with_descs :
      DecompressServer
      → RdmaConnection
      → Option (List (List ℕ))
      → Option (Bool × DecompressServer × RdmaConnection)
  with_descs s conn none = none
  with_descs s conn (some descs) =
      answer mmap_responses (record { mmaps = elements s.dst_mems 0 descs }) mmap_info s
        (acquire_free_send_buf conn)

  -- A failed export is only logged, and then read: a fault.
  unfoldable pub handle_mmap_info_request :
      DecompressServer
      → RdmaConnection
      → MmapInfoRequest
      → Option (Bool × DecompressServer × RdmaConnection)
  unfolding acquire_free_send_buf release_send_buf send
  handle_mmap_info_request s conn req =
      assert (length (get_or s.dst_mems 0 no_mem).bytes == mapping.max_file_size) (
        assert (req.mmap_num == length s.dst_mems) (
          if mapping.dst_started
          then with_descs s conn mapping.exported
          else some (false, s, conn)))

  -- `data`: the rest of the message, or the front of a destination buffer.
  abbrev pub data_for :
      DecompressServer → RdmaConnection → DecompressFinishRequest → ℕ → ℕ → Option (List ℕ)
  data_for s conn req remain_buf remain_len =
      let dst = get_or s.dst_mems req.bufpair_id no_mem in
      if req.data_inline
      then some (load conn.mem remain_buf remain_len)
      else assert (leb req.segment_size (length dst.bytes)) (some (take req.segment_size dst.bytes))

  abbrev pub finish_response_of : DecompressFinishRequest → DecompressFinishResponse
  finish_response_of req = record {
    success = true;
    layer_name = req.layer_name;
    segment_idx = req.segment_idx;
    data_inline = req.data_inline;
    bufpair_id = req.bufpair_id;
  }

  abbrev pub untar_data : DecompressFinishRequest → List ℕ → UntarData
  untar_data req bytes = record {
    layer = req.layer_name;
    image_name_tag = req.image_name_tag;
    segment = bytes;
    index = req.segment_idx;
    total_segments = req.total_segments;
  }

  -- The segment is handed on after the answer, where that was written.
  abbrev pub hand_on :
      DecompressFinishRequest
      → List ℕ
      → Bool × DecompressServer × RdmaConnection
      → Bool × DecompressServer × RdmaConnection
  hand_on req bytes (true, s, conn) =
      (true, record s { untarred = s.untarred ++ untar_data req bytes ∷ [] }, conn)
  hand_on req bytes (false, s, conn) = (false, s, conn)

  unfoldable pub handle_decompress_finish_request :
      DecompressServer
      → RdmaConnection
      → DecompressFinishRequest
      → ℕ
      → ℕ
      → Option (Bool × DecompressServer × RdmaConnection)
  unfolding acquire_free_send_buf release_send_buf send
  handle_decompress_finish_request s conn req remain_buf remain_len =
      data_for s conn req remain_buf remain_len >>= λ bytes.
      answer finish_responses (finish_response_of req) decompress_finish s
        (acquire_free_send_buf conn)
      >>= λ r. some (hand_on req bytes r)

  -- The result of the parse is tested rightly for the one message type and as `!parse(...)` for the
  -- other.
  unfoldable pub on_recv_success :
      DecompressServer → RdmaConnection → ℕ → ℕ → Option (DecompressServer × RdmaConnection)
  unfolding handle_mmap_info_request handle_decompress_finish_request
  on_recv_success s conn recv_buf recv_len =
      let type = from_le32 (load conn.mem recv_buf 4) in
      let mmaps =
        parse_rdma_pb_msg mmap_requests conn.mem (recv_buf + 4) (recv_len - 4)
          mmap_requests.blank in
      let finish =
        parse_rdma_pb_msg finish_requests conn.mem (recv_buf + 4) (recv_len - 4)
          finish_requests.blank in
      let mapped = handle_mmap_info_request s conn mmaps.1 >>= λ r. some (r.1, r.2) in
      let finished =
        handle_decompress_finish_request s conn finish.1 (recv_buf + 4 + finish.0)
          (u32 (recv_len + 2 ^ 33 - finish.0 - 4))
        >>= λ r. some (r.1, r.2) in
      if ltb recv_len 4
      then some (s, conn)
      else if type == mmap_info
      then (if mmaps.0 == 0 then some (s, conn) else mapped)
      else if type == decompress_finish
      then (if finish.0 == minus_one then some (s, conn) else finished)
      else some (s, conn)

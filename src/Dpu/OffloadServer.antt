-- ===== src/Dpu/OffloadServer.antt =====
-- src/dpu/offload_server_epoll.cc: the DPU hands the layers of an image to the fetcher, and answers.
-- `none` is a buffer that is not there.
pub mod Answering
use atc2025_poby.Base.{
  ℕ, zero, suc, ◌+◌, ◌-◌, ◌^◌, Bool, true, false, Option, none, some, List, [], ◌∷◌, ◌++◌, map,
  String, ltb, ◌==◌, if◌then◌else◌, ◌>>=◌, u32, u64, minus_one, le32, from_le32,
}
use atc2025_poby.Memory.{Memory, load, store}
use atc2025_poby.Wire.Codec.{Codec}
use atc2025_poby.Wire.RdmaFrame.{parse_rdma_pb_msg, serialize_rdma_pb_msg}
use atc2025_poby.Rdma.Connection.{
  RdmaConnection, SendBuf, Verbs, acquire_free_send_buf, release_send_buf, send,
}
use atc2025_poby.Host.Offload.{
  OffloadRequest, OffloadResponse, DecompressConnectionRequest, DecompressConnectionResponse,
  decompress_connection, offload_type,
}

-- `fetched` are the layers handed to `ContentFetcher::fetch`, each with its image, in order; `connects`
-- counts the calls of `DecompressClientEpoll::connect`.
pub record OffloadServer : Type 0 where
  pub wr_id : ℕ
  pub fetched : List (String × String)
  pub connects : ℕ

abbrev pub new_server : OffloadServer
new_server = record { wr_id = 0; fetched = []; connects = 0 }

module _ (v : Verbs) (connection_requests : Codec DecompressConnectionRequest)
    (connection_responses : Codec DecompressConnectionResponse)
    (offload_requests : Codec OffloadRequest) (offload_responses : Codec OffloadResponse) where
  -- The send and the release of the buffer; where the frame could not be written, neither.
  abbrev pub post :
      OffloadServer → RdmaConnection → SendBuf → ℕ × Memory → Bool × OffloadServer × RdmaConnection
  post s conn buf (frame_len, mem) =
      let conn' = record conn { mem = mem } in
      if frame_len == minus_one then (false, s, conn') else (
        true,
        record s { wr_id = u64 (s.wr_id + 1) },
        release_send_buf (send v conn' buf.addr (u32 (frame_len + 4)) s.wr_id) buf.id,
      )

  abbrev pub answer :
      {A : Type 0}
      → Codec A
      → A
      → ℕ
      → OffloadServer
      → Option SendBuf × RdmaConnection
      → Option (Bool × OffloadServer × RdmaConnection)
  answer responses resp type s (none, conn) = none
  answer responses resp type s (some buf, conn) = some (
      post s conn buf (
        serialize_rdma_pb_msg responses (store conn.mem buf.addr (le32 type)) (buf.addr + 4)
          (u32 (buf.cap + 2 ^ 32 - 4)) resp))

  abbrev pub fetch_layers : OffloadServer → OffloadRequest → OffloadServer
  fetch_layers s req = record s {
    fetched = s.fetched ++ map (λ layer. (layer, req.image_name_tag)) req.layers;
  }

  unfoldable pub handle_offload_request :
      OffloadServer
      → RdmaConnection
      → OffloadRequest
      → Option (Bool × OffloadServer × RdmaConnection)
  unfolding acquire_free_send_buf release_send_buf send
  handle_offload_request s conn req =
      answer offload_responses (record { image_name_tag = req.image_name_tag; success = true })
        offload_type (fetch_layers s req) (acquire_free_send_buf conn)

  -- The client of the decompression is connected where the answer was written.
  abbrev connect_if : Bool × OffloadServer × RdmaConnection → Bool × OffloadServer × RdmaConnection
  connect_if (true, s, conn) = (true, record s { connects = s.connects + 1 }, conn)
  connect_if (false, s, conn) = (false, s, conn)

  unfoldable pub handle_decompress_connection_request :
      OffloadServer → RdmaConnection → Option (Bool × OffloadServer × RdmaConnection)
  unfolding acquire_free_send_buf release_send_buf send
  handle_decompress_connection_request s conn =
      answer connection_responses (record { connection = true }) decompress_connection s
        (acquire_free_send_buf conn)
      >>= λ r. some (connect_if r)

  -- `!parse(...)` holds only of a result 0.
  unfoldable pub on_recv_success :
      OffloadServer → RdmaConnection → ℕ → ℕ → Option (OffloadServer × RdmaConnection)
  unfolding handle_offload_request handle_decompress_connection_request
  on_recv_success s conn recv_buf recv_len =
      let type = from_le32 (load conn.mem recv_buf 4) in
      let connection =
        parse_rdma_pb_msg connection_requests conn.mem (recv_buf + 4) (recv_len - 4)
          connection_requests.blank in
      let request =
        parse_rdma_pb_msg offload_requests conn.mem (recv_buf + 4) (recv_len - 4)
          offload_requests.blank in
      let connected = handle_decompress_connection_request s conn >>= λ r. some (r.1, r.2) in
      let offloaded = handle_offload_request s conn request.1 >>= λ r. some (r.1, r.2) in
      if ltb recv_len 4
      then some (s, conn)
      else if type == decompress_connection
      then (if connection.0 == 0 then some (s, conn) else connected)
      else if type == offload_type
      then (if request.0 == 0 then some (s, conn) else offloaded)
      else some (s, conn)

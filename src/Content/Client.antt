-- ===== src/Content/Client.antt =====
-- `ContentClient` of src/dpu/content_fetcher.cc. `none` is a fault: a failed assertion, or undefined
-- behaviour. The clock, which only feeds log lines, is left out.
pub mod Sending
pub mod Receiving
use atc2025_poby.Base.{
  ℕ, zero, suc, ◌+◌, ◌-◌, ◌^◌, Bool, true, false, not, ◌&&◌, Option, none, some, List, [], ◌∷◌,
  ◌++◌, String, ltb, leb, ◌==◌, if◌then◌else◌, ◌>>=◌, assert, length, u32, u64, minus_one,
}
use atc2025_poby.Memory.{Memory, load}
use atc2025_poby.Wire.Codec.{Codec}
use atc2025_poby.Wire.RdmaFrame.{parse_rdma_pb_msg, serialize_rdma_pb_msg}
use atc2025_poby.Rdma.Connection.{
  RdmaConnection, SendBuf, Verbs, acquire_free_send_buf, release_send_buf, is_free_send_buf_empty,
  is_empty, send,
}
use atc2025_poby.BlobPool.{Blob, BlobPool, acquire_blob}
use atc2025_poby.Content.Messages.{GetLayerRequest, GetLayerResponse, ContentElement}

-- `submitted` holds the elements handed to `DecompressClientEpoll::submitDecompressTask`, in order.
pub record ContentClient : Type 0 where
  pub wr_id : ℕ
  pub unsend_reqs : List GetLayerRequest
  pub conn : Option RdmaConnection
  pub inflight_sends : List ℕ
  pub curr_image_tag : String
  pub submitted : List ContentElement

abbrev pub new_client : ContentClient
new_client = record {
  wr_id = 0;
  unsend_reqs = [];
  conn = none;
  inflight_sends = [];
  curr_image_tag = "";
  submitted = [];
}

unfoldable pub enqueue_request : ContentClient → GetLayerRequest → ContentClient
enqueue_request c req = record c { unsend_reqs = c.unsend_reqs ++ req ∷ [] }

-- The loop `for (i = n - 1; i > 0; --i)` that pushes to the front, with `i` rounds left.
unfoldable pub push_requests : GetLayerResponse → ℕ → List GetLayerRequest → List GetLayerRequest
push_requests resp zero unsend = unsend
push_requests resp (suc i) unsend = push_requests resp i (
    record {
      layer = resp.layer;
      image_name_tag = resp.image_name_tag;
      index = suc i;
      total_segments = resp.total_segments;
    }
    ∷ unsend)

-- `resp.index() == 0 && n > 1`, on the patterns of `int`s.
abbrev pub wants_more : GetLayerResponse → Bool
wants_more resp = resp.index == 0 && ltb 1 resp.total_segments && ltb resp.total_segments (2 ^ 31)

abbrev pub pred : ℕ → ℕ
pred zero = zero
pred (suc n) = n

unfoldable pub requests_after : GetLayerResponse → List GetLayerRequest → List GetLayerRequest
unfolding push_requests
requests_after resp unsend =
    if wants_more resp then push_requests resp (pred resp.total_segments) unsend else unsend

module _ (v : Verbs) (requests : Codec GetLayerRequest) (responses : Codec GetLayerResponse) where
  -- After a failed serialization the buffer is neither free nor in flight.
  abbrev send_written : ContentClient → RdmaConnection → SendBuf → ℕ × Memory → ContentClient
  send_written c conn buf (frame_len, mem) =
      let conn' = record conn { mem = mem } in
      if frame_len == minus_one then record c { conn = some conn' } else record c {
        conn = some (send v conn' buf.addr frame_len c.wr_id);
        wr_id = u64 (c.wr_id + 1);
        inflight_sends = c.inflight_sends ++ buf.id ∷ [];
      }

  -- `*free_buf` with no buffer, and `front()` of an empty queue, are faults.
  abbrev send_front :
      ContentClient → Option SendBuf × RdmaConnection → List GetLayerRequest → Option ContentClient
  send_front c (none, conn) reqs = none
  send_front c (some buf, conn) [] = none
  send_front c (some buf, conn) (req ∷ rest) = some (
      send_written (record c { unsend_reqs = rest }) conn buf
        (serialize_rdma_pb_msg requests conn.mem buf.addr buf.cap req))

  abbrev on_conn :
      ContentClient
      → Option RdmaConnection
      → (RdmaConnection → Option ContentClient)
      → Option ContentClient
  on_conn c none k = some c
  on_conn c (some conn) k = k conn

  unfoldable pub send_request : ContentClient → Option ContentClient
  unfolding acquire_free_send_buf
  send_request c = on_conn c c.conn λ conn. send_front c (acquire_free_send_buf conn) c.unsend_reqs

  -- The test of the `while` loop, which runs only where there is a connection.
  unfoldable pub can_send : ContentClient → Bool
  unfolding is_free_send_buf_empty
  can_send c = elim c.conn [
    | none ↦ false
    | some conn ↦ not (is_empty c.unsend_reqs) && not (is_free_send_buf_empty conn)
  ]

  unfoldable pub send_requests : ℕ → ContentClient → Option ContentClient
  send_requests zero c = some c
  send_requests (suc fuel) c = elim (can_send c) [
    | true ↦ send_request c >>= send_requests fuel
    | false ↦ some c
  ]

  -- Every round takes a request off the queue, so its length is enough.
  unfoldable pub try_send_requests : ContentClient → Option ContentClient
  try_send_requests c = send_requests (length c.unsend_reqs) c

  unfoldable pub on_connected : ContentClient → RdmaConnection → Option ContentClient
  on_connected c conn =
      assert (not (is_empty c.unsend_reqs) && not (is_free_send_buf_empty conn))
        (try_send_requests (record c { conn = some conn }))

  -- `memcpy` past the blob's capacity is a fault.
  abbrev fill : Blob → List ℕ → ℕ → Option Blob
  fill b bytes n = assert (leb n b.cap) (some (record b { size = n; bytes = bytes }))

  -- `inflight_sends_.front()` and `pop_front()`
  abbrev pop_inflight : List ℕ → Option (ℕ × List ℕ)
  pop_inflight [] = none
  pop_inflight (id ∷ rest) = some (id, rest)

  unfoldable pub deliver : ContentClient → GetLayerResponse → Blob → Option ContentClient
  unfolding requests_after
  deliver c resp segment = try_send_requests (record c {
    curr_image_tag = resp.image_name_tag;
    submitted =
        c.submitted
        ++ record {
          segment = segment;
          segment_idx = resp.index;
          total_segments = resp.total_segments;
          layer = resp.layer;
          image_name_tag = resp.image_name_tag;
          is_compressed = resp.is_compressed;
        }
          ∷ [];
    unsend_reqs = requests_after resp c.unsend_reqs;
  })

  -- A failed parse is only logged; what follows then runs on the frame length -1.
  unfoldable pub on_recv_success :
      ContentClient → BlobPool → RdmaConnection → ℕ → ℕ → Option (ContentClient × BlobPool)
  on_recv_success c pool conn recv_buf recv_len = do
    let (frame_len, resp) = parse_rdma_pb_msg responses conn.mem recv_buf recv_len responses.blank
    (id, rest) ← pop_inflight c.inflight_sends
    let segment_size = u32 (recv_len + 2 ^ 32 - frame_len)
    assert (resp.segment_size == segment_size) do
      let (blob, pool') = acquire_blob pool segment_size
      segment ← fill blob (load conn.mem (recv_buf + frame_len) segment_size) segment_size
      c' ←
          deliver (record c { conn = some (release_send_buf conn id); inflight_sends = rest }) resp
            segment
      some (c', pool')

-- ===== src/Content/Client/Receiving.antt =====
-- `onRecvSuccess` on a response that arrived whole.
use atc2025_poby.Base.{ℕ, ◌+◌, ◌^◌, ◌≤◌, ◌<◌, ◌≡◌, some, List, ◌∷◌, ◌++◌, arith, length, ◌>>=◌}
use atc2025_poby.Memory.{load}
use atc2025_poby.Wire.Codec.{Codec}
use atc2025_poby.Wire.RdmaFrame.RoundTrip.{Fits, frame, parse_rdma_pb_msg-frame, load-frame}
use atc2025_poby.Rdma.Connection.{RdmaConnection, Verbs, release_send_buf}
use atc2025_poby.BlobPool.{Blob, BlobPool, acquire_blob}
use atc2025_poby.Content.Messages.{GetLayerRequest, GetLayerResponse}
use atc2025_poby.Content.Client.{ContentClient, on_recv_success, deliver}

module _ (v : Verbs) (requests : Codec GetLayerRequest) (responses : Codec GetLayerResponse) where
  -- The blob that the segment goes into.
  abbrev pub segment_blob : BlobPool → List ℕ → Blob
  segment_blob pool content = record ((acquire_blob pool (length content)).0) {
    size = length content;
    bytes = content;
  }

  -- A whole response with its segment frees the oldest buffer in flight, and is delivered with the
  -- bytes that came behind the frame.
  pub on_recv_success-deliver :
      (c : ContentClient) (pool : BlobPool) (conn : RdmaConnection) (recv_buf : ℕ)
      (resp : GetLayerResponse) (bytes content : List ℕ) (id : ℕ) (rest : List ℕ)
      → Fits responses resp bytes
      → load conn.mem recv_buf (4 + length bytes + length content) ≡ frame bytes ++ content
      → resp.segment_size ≡ length content
      → 4 + length bytes + length content < 2 ^ 32
      → c.inflight_sends ≡ id ∷ rest
      → length content ≤ (acquire_blob pool (length content)).0.cap
      → on_recv_success v requests responses c pool conn recv_buf
          (4 + length bytes + length content)
        ≡ (deliver v requests responses
              (record c { conn = some (release_send_buf conn id); inflight_sends = rest })
              resp
              (segment_blob pool content)
            >>= λ c'. some (c', (acquire_blob pool (length content)).1))
  unfolding on_recv_success
  on_recv_success-deliver c pool conn recv_buf resp bytes content id rest fits e size small hi
        room =
      let (whole, tail) = load-frame conn.mem recv_buf bytes content e in
      let parsed =
        parse_rdma_pb_msg-frame responses conn.mem recv_buf (4 + length bytes + length content) resp
          responses.blank bytes fits (omega arith) whole in
      ground (arith, parsed, tail, fits.small)

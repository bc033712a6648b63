-- ===== src/Dpu/OffloadServer/Answering.antt =====
-- What the DPU does with a request that arrived whole.
use atc2025_poby.Base.{
  ℕ, ◌+◌, ◌-◌, le32, ◌^◌, ◌≤◌, ◌<◌, ◌≡◌, refl, true, some, List, [], ◌∷◌, ◌++◌, map, arith, length,
  u32, u64,
}
use atc2025_poby.Memory.{Memory, load, store}
use atc2025_poby.Wire.Codec.{Codec}
use atc2025_poby.Wire.RdmaFrame.{serialize_rdma_pb_msg}
use atc2025_poby.Wire.RdmaFrame.RoundTrip.{Fits}
use atc2025_poby.Wire.RdmaFrame.Typed.{
  typed_frame, serialize_rdma_pb_msg-typed, parse_rdma_pb_msg-typed,
}
use atc2025_poby.Rdma.Connection.{
  RdmaConnection, SendWr, Verbs, bufpair_at, release_send_buf, send, acquire_free_send_buf,
}
use atc2025_poby.Host.Offload.{
  OffloadRequest, OffloadResponse, DecompressConnectionRequest, DecompressConnectionResponse,
  offload_type,
}
use atc2025_poby.Dpu.OffloadServer.{
  OffloadServer, fetch_layers, handle_offload_request, on_recv_success,
}

abbrev pub response_to : OffloadRequest → OffloadResponse
response_to req = record { image_name_tag = req.image_name_tag; success = true }

module _ (v : Verbs) (connection_requests : Codec DecompressConnectionRequest)
    (connection_responses : Codec DecompressConnectionResponse)
    (offload_requests : Codec OffloadRequest) (offload_responses : Codec OffloadResponse) where
  -- A request to offload an image hands its layers to the fetcher, in order, and is answered by one
  -- send, the response behind its type. The buffer goes to the back of the free ones.
  pub on_recv_success-fetch :
      (s : OffloadServer) (conn : RdmaConnection) (recv_buf : ℕ) (req : OffloadRequest)
      (asked bytes : List ℕ) (id : ℕ) (ids : List ℕ)
      → Fits offload_requests req asked
      → load conn.mem recv_buf (4 + (4 + length asked)) ≡ typed_frame offload_type asked
      → Fits offload_responses (response_to req) bytes
      → conn.free_bufpairs ≡ id ∷ ids
      → 4 + (4 + length bytes) ≤ (bufpair_at conn id).send_cap
      → (bufpair_at conn id).send_cap < 2 ^ 32
      → v.send_accepted conn.sq ≡ true
      → (s' : OffloadServer) × (conn' : RdmaConnection) × (wr : SendWr) × (on_recv_success v
            connection_requests connection_responses offload_requests offload_responses s conn
            recv_buf
            (4 + (4 + length asked))
          ≡ some (s', conn'))
        × (s'.fetched ≡ s.fetched ++ map (λ layer. (layer, req.image_name_tag)) req.layers)
        × (conn'.sq ≡ conn.sq ++ wr ∷ [])
        × (wr.payload ≡ typed_frame offload_type bytes)
        × (conn'.free_bufpairs ≡ ids ++ id ∷ [])
  unfolding on_recv_success handle_offload_request send release_send_buf acquire_free_send_buf
  on_recv_success-fetch s conn recv_buf req asked bytes id ids qfits whole fits free room narrow
        accepted =
      let buf = bufpair_at conn id in
      let parsed =
        parse_rdma_pb_msg-typed offload_requests conn.mem recv_buf offload_type req
          offload_requests.blank asked qfits (omega arith) whole in
      let written =
        serialize_rdma_pb_msg-typed offload_responses conn.mem buf.send_header
          (u32 (buf.send_cap + 2 ^ 32 - 4)) offload_type (response_to req) bytes fits
          (omega (arith, room, narrow)) in
      let mem : Memory =
        (serialize_rdma_pb_msg offload_responses
          (store conn.mem buf.send_header (le32 offload_type)) (buf.send_header + 4)
          (u32 (buf.send_cap + 2 ^ 32 - 4)) (response_to req)).1 in
      let wr : SendWr = record {
        wr_id = s.wr_id;
        addr = buf.send_header;
        len = 4 + (4 + length bytes);
        payload = load mem buf.send_header (4 + (4 + length bytes));
      } in
      (
        record (fetch_layers v connection_requests connection_responses offload_requests
            offload_responses s req) { wr_id = u64 (s.wr_id + 1) },
        record conn { mem = mem; sq = conn.sq ++ wr ∷ []; free_bufpairs = ids ++ id ∷ [] },
        wr,
        ground (arith, parsed, written, fits.small, qfits.small),
        refl,
        refl,
        written.1,
        refl,
      )

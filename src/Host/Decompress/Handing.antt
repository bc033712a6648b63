-- ===== src/Host/Decompress/Handing.antt =====
-- What `handleDecompressFinishRequest` hands on and answers.
use atc2025_poby.Base.{
  ℕ, ◌+◌, ◌-◌, ◌^◌, ◌≤◌, ◌<◌, ◌≡◌, refl, true, some, List, [], ◌∷◌, ◌++◌, arith, length, u32, u64,
  le32,
}
use atc2025_poby.Memory.{Memory, load, store}
use atc2025_poby.Wire.Codec.{Codec}
use atc2025_poby.Wire.RdmaFrame.{serialize_rdma_pb_msg}
use atc2025_poby.Wire.RdmaFrame.RoundTrip.{Fits}
use atc2025_poby.Wire.RdmaFrame.Typed.{typed_frame, serialize_rdma_pb_msg-typed}
use atc2025_poby.Rdma.Connection.{
  RdmaConnection, SendWr, Verbs, bufpair_at, release_send_buf, send, acquire_free_send_buf,
}
use atc2025_poby.Dpu.Decompress.State.{
  DecompressFinishRequest, DecompressFinishResponse, MmapInfoRequest, MmapInfoResponse,
  decompress_finish,
}
use atc2025_poby.Host.Decompress.{
  DecompressServer, Mapping, data_for, finish_response_of, untar_data,
  handle_decompress_finish_request,
}

module _ (v : Verbs) (mapping : Mapping) (finish_requests : Codec DecompressFinishRequest)
    (finish_responses : Codec DecompressFinishResponse) (mmap_requests : Codec MmapInfoRequest)
    (mmap_responses : Codec MmapInfoResponse) where
  -- Where the data of the segment can be had and a buffer is free, the segment is handed to the untar
  -- engine with it, and the announcement is answered by one send, the response behind its type. The
  -- buffer goes to the back of the free ones.
  pub handle_decompress_finish_request-untar :
      (s : DecompressServer) (conn : RdmaConnection) (req : DecompressFinishRequest)
      (remain_buf remain_len : ℕ) (content bytes : List ℕ) (id : ℕ) (ids : List ℕ)
      → data_for v mapping finish_requests finish_responses mmap_requests mmap_responses s conn req
          remain_buf remain_len
        ≡ some content
      → Fits finish_responses
          (finish_response_of v mapping finish_requests finish_responses mmap_requests
            mmap_responses req)
          bytes
      → conn.free_bufpairs ≡ id ∷ ids
      → 4 + (4 + length bytes) ≤ (bufpair_at conn id).send_cap
      → (bufpair_at conn id).send_cap < 2 ^ 32
      → v.send_accepted conn.sq ≡ true
      → (s' : DecompressServer) × (conn' : RdmaConnection) × (wr : SendWr)
        × (handle_decompress_finish_request v mapping finish_requests finish_responses mmap_requests
              mmap_responses s conn req remain_buf remain_len
            ≡ some (true, s', conn'))
        × (s'.untarred
            ≡ s.untarred
              ++ untar_data v mapping finish_requests finish_responses mmap_requests mmap_responses
                  req content
                ∷ [])
        × (conn'.sq ≡ conn.sq ++ wr ∷ [])
        × (wr.payload ≡ typed_frame decompress_finish bytes)
        × (conn'.free_bufpairs ≡ ids ++ id ∷ [])
  unfolding handle_decompress_finish_request send release_send_buf acquire_free_send_buf
  handle_decompress_finish_request-untar s conn req remain_buf remain_len content bytes id ids had
        fits free room narrow accepted =
      let buf = bufpair_at conn id in
      let resp =
        finish_response_of v mapping finish_requests finish_responses mmap_requests mmap_responses
          req in
      let data_of_it =
        data_for v mapping finish_requests finish_responses mmap_requests mmap_responses s conn req
          remain_buf remain_len in
      let written =
        serialize_rdma_pb_msg-typed finish_responses conn.mem buf.send_header
          (u32 (buf.send_cap + 2 ^ 32 - 4)) decompress_finish resp bytes fits
          (omega (arith, room, narrow)) in
      let mem : Memory =
        (serialize_rdma_pb_msg finish_responses
          (store conn.mem buf.send_header (le32 decompress_finish)) (buf.send_header + 4)
          (u32 (buf.send_cap + 2 ^ 32 - 4)) resp).1 in
      let wr : SendWr = record {
        wr_id = s.wr_id;
        addr = buf.send_header;
        len = 4 + (4 + length bytes);
        payload = load mem buf.send_header (4 + (4 + length bytes));
      } in
      (
        record s {
          wr_id = u64 (s.wr_id + 1);
          untarred =
              s.untarred
              ++ untar_data v mapping finish_requests finish_responses mmap_requests mmap_responses
                  req content
                ∷ [];
        },
        record conn { mem = mem; sq = conn.sq ++ wr ∷ []; free_bufpairs = ids ++ id ∷ [] },
        wr,
        ground (arith, had, written, fits.small),
        refl,
        refl,
        written.1,
        refl,
      )

-- ===== src/Content/Server/Answering.antt =====
-- What the registry answers.
use atc2025_poby.Base.{
  length-append, ℕ, ◌+◌, ◌^◌, ◌≤◌, ◌<◌, ◌≡◌, refl, Bool, true, some, List, [], ◌∷◌, ◌++◌, String,
  arith, length,
}
use atc2025_poby.Memory.{Memory, load, store, load-store_behind}
use atc2025_poby.Wire.Codec.{Codec}
use atc2025_poby.Wire.RdmaFrame.{serialize_rdma_pb_msg}
use atc2025_poby.Wire.RdmaFrame.RoundTrip.{
  Fits, frame, parse_rdma_pb_msg-frame, serialize_rdma_pb_msg-frame,
}
use atc2025_poby.Rdma.Connection.{RdmaConnection, SendWr, Verbs, bufpair_at, release_send_buf, send}
use atc2025_poby.Content.Messages.{GetLayerRequest, GetLayerResponse}
use atc2025_poby.Content.Server.{FileSystem, index_path, layer_response, on_recv_success}

module _ (v : Verbs) (requests : Codec GetLayerRequest) (responses : Codec GetLayerResponse)
    (fs : FileSystem) (layer_is_compressed : Bool) (registry_path : String) where
  -- The registry holds the segment that `req` asks for, with these bytes. The read may end with a
  -- terminator.
  pub record Holds (req : GetLayerRequest) (content : List ℕ) : Type 0 where
    pub tail : List ℕ
    pub sized : fs.file_size (index_path registry_path req.layer req.index) ≡ some (length content)
    pub read :
        fs.file2str (index_path registry_path req.layer req.index) (length content + 1)
        ≡ some (content ++ tail)
    pub not_empty : 0 < length content
    pub terminated : length tail ≤ 1

  abbrev pub response_to : GetLayerRequest → ℕ → GetLayerResponse
  response_to = layer_response v requests responses fs layer_is_compressed registry_path

  -- A request for a segment that the registry holds is answered by one send: the response frame and
  -- behind it the segment. The buffer goes to the back of the free ones.
  pub on_recv_success-answer :
      (conn : RdmaConnection) (recv_buf : ℕ) (req : GetLayerRequest) (asked content bytes : List ℕ)
      (id : ℕ) (ids : List ℕ)
      → Fits requests req asked
      → load conn.mem recv_buf (4 + length asked) ≡ frame asked
      → Holds req content
      → Fits responses (response_to req (length content)) bytes
      → conn.free_bufpairs ≡ id ∷ ids
      → 4 + length bytes + length content + 1 ≤ (bufpair_at conn id).send_cap
      → 4 + length bytes + length content < 2 ^ 32
      → v.send_accepted conn.sq ≡ true
      → (conn' : RdmaConnection) × (wr : SendWr) × (on_recv_success v requests responses fs
            layer_is_compressed registry_path conn recv_buf
            (4 + length asked)
          ≡ some conn')
        × (conn'.sq ≡ conn.sq ++ wr ∷ [])
        × (wr.payload ≡ frame bytes ++ content)
        × (conn'.free_bufpairs ≡ ids ++ id ∷ [])
        × (conn'.bufpairs ≡ conn.bufpairs)
        × (load conn'.mem wr.addr wr.len ≡ wr.payload)
  unfolding on_recv_success send release_send_buf
  on_recv_success-answer conn recv_buf req asked content bytes id ids qfits whole held fits free
        room small accepted =
      let resp = response_to req (length content) in
      let buf = bufpair_at conn id in
      let parsed =
        parse_rdma_pb_msg-frame requests conn.mem recv_buf (4 + length asked) req requests.blank
          asked qfits (omega arith) whole in
      let written =
        serialize_rdma_pb_msg-frame responses conn.mem buf.send_header buf.send_cap resp bytes fits
          (omega (arith, room)) in
      let framed : Memory =
        (serialize_rdma_pb_msg responses conn.mem buf.send_header buf.send_cap resp).1 in
      let mem = store framed (buf.send_header + (4 + length bytes)) (content ++ held.tail) in
      let wr : SendWr = record {
        wr_id = 0;
        addr = buf.send_header;
        len = 4 + length bytes + length content;
        payload = load mem buf.send_header (4 + length bytes + length content);
      } in
      (
        record conn { mem = mem; sq = conn.sq ++ wr ∷ []; free_bufpairs = ids ++ id ∷ [] },
        wr,
        ground (
          arith,
          parsed,
          written,
          fits.small,
          qfits.small,
          held.sized,
          held.read,
          held.not_empty,
          held.terminated,
          room,
          length-append content held.tail,
        ),
        refl,
        load-store_behind framed buf.send_header (4 + length bytes) (frame bytes) content held.tail
            written.1,
        refl,
        refl,
        refl,
      )

-- ===== src/Wire/RdmaFrame/RoundTrip.antt =====
-- What `serializeRdmaPbMsg` writes, `parseRdmaPbMsg` reads.
use atc2025_poby.Base.{
  ℕ, ◌+◌, ◌^◌, ◌≤◌, ◌<◌, ◌≡◌, refl, sym, ap, ap₂, ◌∙◌, inr, some, List, [], ◌++◌, append-nil, arith,
  length, length-append, length-le32, le32, from_le32, from_le32-le32,
}
use atc2025_poby.Memory.{Memory, load, store, load-add, load-store_self, load-store_ne, load-split}
use atc2025_poby.Wire.Codec.{Codec}
use atc2025_poby.Wire.RdmaFrame.{parse_rdma_pb_msg, serialize_rdma_pb_msg}

-- The bytes of a frame, the first four in the order of the machine.
abbrev pub frame : List ℕ → List ℕ
frame bytes = le32 (length bytes) ++ bytes

module _ {A : Type 0} (c : Codec A) where
  -- The message has a serialization, and its frame length is an `int`.
  pub record Fits (msg : A) (bytes : List ℕ) : Type 0 where
    pub encoded : c.serialize msg ≡ some bytes
    pub small : 4 + length bytes < 2 ^ 31

written :
    (mem : Memory) (a : ℕ) (head bytes : List ℕ)
    → load (store (store mem a head) (a + length head) bytes) a (length head + length bytes)
      ≡ head ++ bytes
written mem a head bytes =
    load-add _ a (length head) (length bytes)
    ∙ ap₂ (◌++◌)
        (load-store_ne (store mem a head) (a + length head) a (length head) bytes
            (inr (omega arith))
          ∙ load-store_self mem a head)
        (load-store_self (store mem a head) (a + length head) bytes)

module _ {A : Type 0} (c : Codec A) where
  pub serialize_rdma_pb_msg-eq :
      (mem : Memory) (send_buf send_cap : ℕ) (msg : A) (bytes : List ℕ)
      → Fits c msg bytes
      → 4 + length bytes ≤ send_cap
      → serialize_rdma_pb_msg c mem send_buf send_cap msg
        ≡ (4 + length bytes, store (store mem send_buf (le32 (length bytes))) (send_buf + 4) bytes)
  unfolding serialize_rdma_pb_msg
  serialize_rdma_pb_msg-eq mem send_buf send_cap msg bytes f h =
      ground (arith, c.length-serialize msg bytes f.encoded, f.small)

  -- A message that fits is written as its frame, and the result is the frame's length.
  pub serialize_rdma_pb_msg-frame :
      (mem : Memory) (send_buf send_cap : ℕ) (msg : A) (bytes : List ℕ)
      → Fits c msg bytes
      → 4 + length bytes ≤ send_cap
      → ((serialize_rdma_pb_msg c mem send_buf send_cap msg).0 ≡ 4 + length bytes)
        × (load (serialize_rdma_pb_msg c mem send_buf send_cap msg).1 send_buf (4 + length bytes)
            ≡ frame bytes)
  unfolding le32
  serialize_rdma_pb_msg-frame mem send_buf send_cap msg bytes f h =
      rw (serialize_rdma_pb_msg-eq mem send_buf send_cap msg bytes f h)
        (refl, written mem send_buf (le32 (length bytes)) bytes)

  -- A frame that arrived whole is read as its message, and the result is the frame's length.
  pub parse_rdma_pb_msg-frame :
      (mem : Memory) (recv_buf recv_len : ℕ) (msg old : A) (bytes : List ℕ)
      → Fits c msg bytes
      → 4 + length bytes ≤ recv_len
      → load mem recv_buf (4 + length bytes) ≡ frame bytes
      → parse_rdma_pb_msg c mem recv_buf recv_len old ≡ (4 + length bytes, msg)
  unfolding parse_rdma_pb_msg le32
  parse_rdma_pb_msg-frame mem recv_buf recv_len msg old bytes f h e =
      let parts = load-split mem recv_buf (length bytes) (le32 (length bytes)) bytes e in
      let header : from_le32 (load mem recv_buf 4) ≡ length bytes =
        ap from_le32 (parts.0 ∙ sym (append-nil (le32 (length bytes))))
        ∙ from_le32-le32 (length bytes) [] (omega (arith, f.small)) in
      ground (arith, header, f.small, parts.1, c.parse-serialize msg bytes f.encoded)

-- A frame with bytes behind it is cut at the frame's end.
pub load-frame :
    (mem : Memory) (a : ℕ) (bytes content : List ℕ)
    → load mem a (4 + length bytes + length content) ≡ frame bytes ++ content
    → (load mem a (4 + length bytes) ≡ frame bytes)
      × (load mem (a + (4 + length bytes)) (length content) ≡ content)
load-frame mem a bytes content h =
    let n : length (frame bytes) ≡ 4 + length bytes =
      omega (arith, length-append (le32 (length bytes)) bytes, length-le32 (length bytes)) in
    let cut =
      load-split mem a (length content) (frame bytes) content
        (ap (λ k. load mem a (k + length content)) n ∙ h) in
    (ap (load mem a) (sym n) ∙ cut.0, ap (λ k. load mem (a + k) (length content)) (sym n) ∙ cut.1)

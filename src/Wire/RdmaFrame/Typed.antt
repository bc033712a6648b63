-- ===== src/Wire/RdmaFrame/Typed.antt =====
-- A frame behind the four bytes of its message type, as the clients and servers of offloading and of
-- decompression write it.
use atc2025_poby.Base.{
  ℕ, ◌+◌, ◌^◌, ◌≤◌, ◌<◌, ◌≡◌, sym, ap, ap₂, ◌∙◌, inr, List, [], ◌++◌, arith, length, length-le32,
  le32, from_le32, from_le32-le32, append-nil,
}
use atc2025_poby.Memory.{Memory, load, store, load-add, load-store_self, load-store_ne, load-split}
use atc2025_poby.Wire.Codec.{Codec}
use atc2025_poby.Wire.RdmaFrame.{serialize_rdma_pb_msg, parse_rdma_pb_msg}
use atc2025_poby.Wire.RdmaFrame.RoundTrip.{
  Fits, frame, serialize_rdma_pb_msg-eq, serialize_rdma_pb_msg-frame, parse_rdma_pb_msg-frame,
}

-- The bytes of a message with its type.
abbrev pub typed_frame : ℕ → List ℕ → List ℕ
typed_frame type bytes = le32 type ++ frame bytes

module _ {A : Type 0} (c : Codec A) where
  -- What the message is written as behind its type.
  pub serialize_rdma_pb_msg-typed :
      (mem : Memory) (addr send_cap type : ℕ) (msg : A) (bytes : List ℕ)
      → Fits c msg bytes
      → 4 + length bytes ≤ send_cap
      → ((serialize_rdma_pb_msg c (store mem addr (le32 type)) (addr + 4) send_cap msg).0
          ≡ 4 + length bytes)
        × (load
              (serialize_rdma_pb_msg c (store mem addr (le32 type)) (addr + 4) send_cap msg).1
              addr
              (4 + (4 + length bytes))
            ≡ typed_frame type bytes)
  serialize_rdma_pb_msg-typed mem addr send_cap type msg bytes f h =
      let typed : Memory = store mem addr (le32 type) in
      let whole = serialize_rdma_pb_msg-frame c typed (addr + 4) send_cap msg bytes f h in
      let e = serialize_rdma_pb_msg-eq c typed (addr + 4) send_cap msg bytes f h in
      let front : load (serialize_rdma_pb_msg c typed (addr + 4) send_cap msg).1 addr 4
          ≡ le32 type =
        ap {A = ℕ × Memory} (λ w. load w.1 addr 4) e
        ∙ load-store_ne (store typed (addr + 4) (le32 (length bytes))) (addr + 4 + 4) addr 4 bytes
            (inr (omega arith))
        ∙ load-store_ne typed (addr + 4) addr 4 (le32 (length bytes)) (inr (omega arith))
        ∙ ap (load typed addr) (sym (length-le32 type))
        ∙ load-store_self mem addr (le32 type) in
      (
        whole.0,
        load-add (serialize_rdma_pb_msg c typed (addr + 4) send_cap msg).1 addr 4 (4 + length bytes)
            ∙ ap₂ (◌++◌) front whole.1,
      )

  -- A message that arrived with its type, read behind the type.
  pub parse_rdma_pb_msg-typed :
      (mem : Memory) (recv_buf type : ℕ) (msg old : A) (bytes : List ℕ)
      → Fits c msg bytes
      → type < 2 ^ 32
      → load mem recv_buf (4 + (4 + length bytes)) ≡ typed_frame type bytes
      → (from_le32 (load mem recv_buf 4) ≡ type)
        × (parse_rdma_pb_msg c mem (recv_buf + 4) (4 + length bytes) old ≡ (4 + length bytes, msg))
  unfolding le32
  parse_rdma_pb_msg-typed mem recv_buf type msg old bytes f small h =
      let parts = load-split mem recv_buf (4 + length bytes) (le32 type) (frame bytes) h in
      (
        ap from_le32 (parts.0 ∙ sym (append-nil (le32 type))) ∙ from_le32-le32 type [] small,
        parse_rdma_pb_msg-frame c mem (recv_buf + 4) (4 + length bytes) msg old bytes f
            (omega arith) parts.1,
      )

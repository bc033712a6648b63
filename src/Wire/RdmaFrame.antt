-- ===== src/Wire/RdmaFrame.antt =====
-- `parseRdmaPbMsg` and `serializeRdmaPbMsg`. An `int` is its 32-bit pattern, so -1 is `minus_one`;
-- a pointer is an address of `Memory`.
pub mod RoundTrip
pub mod Typed
use atc2025_poby.Base.{
  ℕ, ◌+◌, Bool, Option, none, some, List, ltb, if◌then◌else◌, u32, minus_one, le32, from_le32,
}
use atc2025_poby.Memory.{Memory, load, store}
use atc2025_poby.Wire.Codec.{Codec, parse_from_array}

-- `kFrameHeaderLen`
abbrev pub frame_header_len : ℕ
frame_header_len = 4

module _ {A : Type 0} (c : Codec A) where
  abbrev parsed : ℕ → Bool × A → ℕ × A
  parsed msg_len (ok, msg) = (if ok then u32 (msg_len + frame_header_len) else minus_one, msg)

  -- The result, and the message that the reference parameter `msg` ends as.
  unfoldable pub parse_rdma_pb_msg : Memory → ℕ → ℕ → A → ℕ × A
  parse_rdma_pb_msg mem recv_buf recv_len msg =
      if ltb recv_len frame_header_len
      then (minus_one, msg)
      else let msg_len = from_le32 (load mem recv_buf 4) in
        if ltb recv_len (u32 (msg_len + frame_header_len))
        then (minus_one, msg)
        else parsed msg_len (parse_from_array c mem (recv_buf + frame_header_len) msg_len)

  abbrev serialized : Memory → ℕ → ℕ → Option (List ℕ) → ℕ × Memory
  serialized mem send_buf msg_len none = (minus_one, mem)
  serialized mem send_buf msg_len (some bytes) =
      (u32 (msg_len + frame_header_len), store mem (send_buf + frame_header_len) bytes)

  unfoldable pub serialize_rdma_pb_msg : Memory → ℕ → ℕ → A → ℕ × Memory
  serialize_rdma_pb_msg mem send_buf send_cap msg =
      let msg_len = u32 (c.byte_size msg) in
      if ltb send_cap (u32 (frame_header_len + msg_len))
      then (minus_one, mem)
      else serialized (store mem send_buf (le32 msg_len)) send_buf msg_len (c.serialize msg)

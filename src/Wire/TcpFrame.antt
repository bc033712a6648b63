-- ===== src/Wire/TcpFrame.antt =====
-- `sendTcpPbMsg` and `receiveTcpPbMsg` of utils/MsgFrame.h, over the byte buffer. `none` is a fault, a
-- failed assertion or an `int` that overflows.
pub mod Delivery
use atc2025_poby.Base.{
  ℕ, ◌+◌, ◌-◌, ◌^◌, Bool, true, false, not, ◌&&◌, Option, none, some, List, [], ◌∷◌, ◌++◌, drop,
  ltb, leb, ◌==◌, if◌then◌else◌, ◌>>=◌, assert, u32,
}
use atc2025_poby.Wire.Codec.{Codec}
use atc2025_poby.Tcp.Buffer.{
  Buffer, readable_bytes, peek, peek_int, read_int, retrieve, host_to_network, network_to_host,
}

-- An `int`, by its pattern, as a `size_t`.
abbrev pub as_size : ℕ → ℕ
as_size n = if ltb n (2 ^ 31) then n else n + 2 ^ 64 - 2 ^ 32

-- Whether 4 more is beyond the largest `int`.
abbrev overflows : ℕ → Bool
overflows n = leb (2 ^ 31 - 4) n && ltb n (2 ^ 31)

module _ {A : Type 0} (c : Codec A) where
  -- `SerializeAsString`, which gives the empty text where it fails.
  abbrev pub serialize_as_string : A → List ℕ
  serialize_as_string msg = elim (c.serialize msg) [ none ↦ [] | some bytes ↦ bytes ]

  -- What is handed to `TcpConnection::send`, in order.
  unfoldable pub send_tcp_pb_msg : A → List (List ℕ)
  unfolding host_to_network
  send_tcp_pb_msg msg = host_to_network 4 (u32 (c.byte_size msg)) ∷ serialize_as_string msg ∷ []

  -- The same with a type before the length.
  unfoldable pub send_typed_tcp_pb_msg : A → ℕ → List (List ℕ)
  unfolding host_to_network
  send_typed_tcp_pb_msg msg msg_type =
      (host_to_network 4 msg_type ++ host_to_network 4 (u32 (c.byte_size msg)))
      ∷ serialize_as_string msg
      ∷ []

  -- `ParseFromArray(buffer->peek(), len)`
  abbrev parse_front : Buffer → ℕ → Bool × A
  parse_front b len = if ltb len (2 ^ 31) then c.parse (peek b len) else c.parse_negative

  -- The body after the tests: the bytes are retrieved whether or not they parse.
  abbrev take_message : Buffer → ℕ → Option ((Bool × A) × Buffer)
  take_message b len = retrieve b (as_size len) >>= λ b'. some (parse_front b len, b')

  -- The result, with what the reference parameter `msg` ends as.
  unfoldable pub receive_tcp_pb_msg : Buffer → A → Option ((Bool × A) × Buffer)
  unfolding peek_int read_int retrieve
  receive_tcp_pb_msg b msg = if ltb (readable_bytes b) 4 then some ((false, msg), b) else do
    n ← peek_int 4 b
    assert (not (overflows n)) (
        if ltb (readable_bytes b) (as_size (u32 (4 + n)))
        then some ((false, msg), b)
        else do read ← read_int 4 b; take_message read.1 read.0)

  -- `8 + len` is of `uint32_t`, and so is `len` as a size.
  unfoldable pub receive_typed_tcp_pb_msg : Buffer → A → ℕ → Option ((Bool × A) × Buffer)
  unfolding network_to_host retrieve
  receive_typed_tcp_pb_msg b msg msg_type =
      if ltb (readable_bytes b) 8
      then some ((false, msg), b)
      else let type = network_to_host 0 (peek b 4) in
        let len = network_to_host 0 (drop 4 (peek b 8)) in
        assert (msg_type == type) (
          if ltb (readable_bytes b) (u32 (8 + len))
          then some ((false, msg), b)
          else do b1 ← retrieve b 8; b2 ← retrieve b1 len; some (parse_front b1 len, b2))

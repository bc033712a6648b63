-- ===== src/Wire/TcpFrame/Delivery.antt =====
-- `receiveTcpPbMsg` on a whole frame, and on a part of one.
use atc2025_poby.Base.{
  ℕ, ◌+◌, ◌^◌, ◌≤◌, ◌<◌, ◌≡◌, refl, sym, ap, ap₂, subst, ◌∙◌, true, false, some, List, [], ◌∷◌,
  ◌++◌, append-nil, arith, length, take, length-append, take-append, drop-append, take-append-le,
  u32,
}
use atc2025_poby.Wire.Codec.{Codec}
use atc2025_poby.Tcp.Buffer.{Buffer, peek, peek_int, read_int, host_to_network, network_to_host}
use atc2025_poby.Tcp.Buffer.Queue.{Holds, readable_bytes-eq, peek-eq, retrieve-Holds}
use atc2025_poby.Wire.TcpFrame.{send_tcp_pb_msg, serialize_as_string, receive_tcp_pb_msg}

network_to_host-host_to_network : (n : ℕ) → n < 2 ^ 32 → network_to_host 0 (host_to_network 4 n) ≡ n
unfolding network_to_host host_to_network
network_to_host-host_to_network n h = omega arith

length-host_to_network : (n : ℕ) → length (host_to_network 4 n) ≡ 4
unfolding host_to_network
length-host_to_network n = refl

abbrev pub concat : List (List ℕ) → List ℕ
concat [] = []
concat (x ∷ xs) = x ++ concat xs

-- The frame of a message, the length in network order.
abbrev pub tcp_frame : List ℕ → List ℕ
tcp_frame bytes = host_to_network 4 (length bytes) ++ bytes

pub length-tcp_frame : (bytes : List ℕ) → length (tcp_frame bytes) ≡ 4 + length bytes
length-tcp_frame bytes = omega (
  arith,
  length-append (host_to_network 4 (length bytes)) bytes,
  length-host_to_network (length bytes),
)

module _ {A : Type 0} (c : Codec A) where
  text_of :
      (msg : A) (bytes : List ℕ) → c.serialize msg ≡ some bytes → serialize_as_string c msg ≡ bytes
  text_of msg bytes e = rw (serialize_as_string, e) refl

  -- What is handed to the connection is the frame.
  pub send_tcp_pb_msg-frame :
      (msg : A) (bytes : List ℕ)
      → c.serialize msg ≡ some bytes
      → length bytes < 2 ^ 32
      → concat (send_tcp_pb_msg c msg) ≡ tcp_frame bytes
  unfolding send_tcp_pb_msg
  send_tcp_pb_msg-frame msg bytes e small =
      let size : u32 (c.byte_size msg) ≡ length bytes =
        omega (arith, c.length-serialize msg bytes e) in
      ap₂ (λ n l. host_to_network 4 n ++ (l ++ [])) size (text_of msg bytes e)
      ∙ ap (◌++◌ (host_to_network 4 (length bytes))) (append-nil bytes)

  header :
      (b : Buffer) (bytes rest : List ℕ)
      → Holds b (tcp_frame bytes ++ rest)
      → length bytes < 2 ^ 32
      → network_to_host 0 (peek b 4) ≡ length bytes
  unfolding host_to_network
  header b bytes rest h small =
      ap (network_to_host 0) (
        peek-eq b _ 4 h
          (omega (arith, length-tcp_frame bytes, length-append (tcp_frame bytes) rest))
        ∙ refl)
      ∙ network_to_host-host_to_network (length bytes) small

  part_header :
      (b : Buffer) (bytes part more : List ℕ)
      → Holds b part
      → part ++ more ≡ tcp_frame bytes
      → length bytes < 2 ^ 32
      → (h : 4 ≤ length part) → network_to_host 0 (peek b 4) ≡ length bytes
  unfolding host_to_network
  part_header b bytes part more h e small le =
      ap (network_to_host 0)
        (peek-eq b part 4 h le ∙ sym (take-append-le 4 part more le) ∙ ap (take 4) e)
      ∙ network_to_host-host_to_network (length bytes) small

  -- A whole frame at the front is received as its message, and the rest stays in the queue.
  pub receive_tcp_pb_msg-frame :
      (b : Buffer) (msg old : A) (bytes rest : List ℕ)
      → Holds b (tcp_frame bytes ++ rest)
      → c.serialize msg ≡ some bytes
      → 4 + length bytes < 2 ^ 31
      → (b' : Buffer) × (receive_tcp_pb_msg c b old ≡ some ((true, msg), b')) × Holds b' rest
  unfolding receive_tcp_pb_msg read_int peek_int host_to_network
  receive_tcp_pb_msg-frame b msg old bytes rest h e small =
      let total = length-append (tcp_frame bytes) rest in
      let count = length-tcp_frame bytes in
      let (b1, r1, h1) = retrieve-Holds b _ 4 h (omega (arith, total, count)) in
      let (b2, r2, h2) =
        retrieve-Holds b1 (bytes ++ rest) (length bytes) (subst (Holds b1) refl h1)
          (omega (arith, length-append bytes rest)) in
      (
        b2,
        ground (
          arith,
          total,
          count,
          header b bytes rest h (omega arith),
          readable_bytes-eq b _ h,
          r1,
          r2,
          peek-eq b1 (bytes ++ rest) (length bytes) h1 (omega (arith, length-append bytes rest)),
          take-append bytes rest,
          c.parse-serialize msg bytes e,
          small,
        ),
        subst (Holds b2) (drop-append bytes rest) h2,
      )

  -- As long as a part of the frame is missing, nothing is retrieved.
  pub receive_tcp_pb_msg-part :
      (b : Buffer) (old : A) (bytes part more : List ℕ)
      → Holds b part
      → part ++ more ≡ tcp_frame bytes
      → 0 < length more
      → 4 + length bytes < 2 ^ 31
      → receive_tcp_pb_msg c b old ≡ some ((false, old), b)
  unfolding receive_tcp_pb_msg peek_int
  receive_tcp_pb_msg-part b old bytes part more h e missing small =
      let total : length part + length more ≡ 4 + length bytes =
        omega (arith, ap length e, length-append part more, length-tcp_frame bytes) in
      ground
        (arith, total, readable_bytes-eq b part h, part_header b bytes part more h e (omega arith))

-- ===== src/Tests/Buffers.antt =====
-- The TCP buffer, frames and connection at concrete inputs.
use atc2025_poby.Base.{
  ℕ, ◌+◌, ◌≤◌, ◌≡◌, refl, Bool, true, false, Option, none, some, List, [], ◌∷◌, ◌++◌, str_eq,
  eq_iff, arith, length, if◌then◌else◌,
}
use atc2025_poby.Wire.Codec.{Codec}
use atc2025_poby.Tcp.Buffer.{Buffer, new_buffer, append, prepend, shrink, read_fd, host_to_network}
use atc2025_poby.Tcp.Buffer.Queue.{Holds, new_buffer-Holds}
use atc2025_poby.Tcp.Buffer.Queue.Growth.{append-Holds, prepend-Holds, shrink-Holds, read_fd-Holds}
use atc2025_poby.Tcp.Connection.{TcpConnection, Written, new_connection, connect_established, send}
use atc2025_poby.Tcp.Connection.Run.{Run, written_in_order}
use atc2025_poby.Host.Command.{CreateContainerRequest, pull_image, read_chunks}
use atc2025_poby.Host.Command.Delivery.{read_chunks-request}

abbrev empty : Buffer
empty = new_buffer 2

empty-Holds : Holds empty []
empty-Holds = new_buffer-Holds 2 (omega arith)

-- Five bytes where there is room for two.
append-Holds_example :
    (b' : Buffer) × (append empty (1 ∷ 2 ∷ 3 ∷ 4 ∷ 5 ∷ []) ≡ some b')
    × Holds b' ([] ++ (1 ∷ 2 ∷ 3 ∷ 4 ∷ 5 ∷ []))
    × (length b'.bytes ≤ length empty.bytes + 5)
unfolding new_buffer
append-Holds_example = append-Holds empty [] (1 ∷ 2 ∷ 3 ∷ 4 ∷ 5 ∷ []) empty-Holds (omega arith)

read_fd-Holds_example :
    (b' : Buffer) × (read_fd empty (some (1 ∷ 2 ∷ 3 ∷ [])) ≡ some b')
    × Holds b' ([] ++ (1 ∷ 2 ∷ 3 ∷ []))
    × (length b'.bytes ≤ length empty.bytes + 3)
unfolding new_buffer
read_fd-Holds_example = read_fd-Holds empty [] (1 ∷ 2 ∷ 3 ∷ []) empty-Holds (omega arith)

prepend-Holds_example :
    (b' : Buffer) × (prepend empty (1 ∷ 2 ∷ []) ≡ some b') × Holds b' ((1 ∷ 2 ∷ []) ++ [])
unfolding new_buffer
prepend-Holds_example = prepend-Holds empty [] (1 ∷ 2 ∷ []) empty-Holds (omega arith)

shrink-Holds_example : (b' : Buffer) × (shrink empty 3 ≡ some b') × Holds b' []
shrink-Holds_example = shrink-Holds empty [] 3 empty-Holds (omega arith) (omega arith)

-- Requests for the one image "i".
abbrev request_i : CreateContainerRequest
request_i = record { image_name_tag = "i" }

abbrev serialize_i : CreateContainerRequest → Option (List ℕ)
serialize_i r = if str_eq r.image_name_tag "i" then some (7 ∷ []) else none

abbrev parse_i : List ℕ → Bool × CreateContainerRequest
parse_i bs = (true, request_i)

container_length :
    (m : CreateContainerRequest) (bs : List ℕ) → serialize_i m ≡ some bs → length bs ≡ 1
container_length m bs h = ground arith

container_parse :
    (m : CreateContainerRequest) (bs : List ℕ) → serialize_i m ≡ some bs → parse_i bs ≡ (true, m)
container_parse m bs h = ground (arith, eq_iff m.image_name_tag "i")

abbrev containers : Codec CreateContainerRequest
containers = record {
  blank = request_i;
  byte_size = λ m. 1;
  serialize = serialize_i;
  parse = parse_i;
  parse_negative = (false, request_i);
  length-serialize = container_length;
  parse-serialize = container_parse;
}

-- The frame in two chunks, the first of three bytes.
read_chunks-request_example :
    (b' : Buffer) × (read_chunks containers 3 ((0 ∷ 0 ∷ 0 ∷ []) ∷ (1 ∷ 7 ∷ []) ∷ []) empty []
      ≡ some (pull_image [] "i" 3, b'))
    × Holds b' []
unfolding new_buffer host_to_network
read_chunks-request_example =
    read_chunks-request containers 3 ((0 ∷ 0 ∷ 0 ∷ []) ∷ (1 ∷ 7 ∷ []) ∷ []) empty [] request_i
      (7 ∷ []) [] refl (omega arith) (omega arith) empty-Holds (omega arith)
      (omega arith, (omega arith, tt)) refl

abbrev or_new : Option TcpConnection → TcpConnection
or_new none = new_connection false false 0
or_new (some t) = t

abbrev up : TcpConnection
up = or_new (connect_established (new_connection false false 0))

abbrev sent_3 : TcpConnection
sent_3 = or_new (send up (1 ∷ 2 ∷ 3 ∷ []) (Written.wrote 1))

sent_3-Run : Run false false 0 sent_3 (1 ∷ 2 ∷ 3 ∷ [])
unfolding connect_established new_connection send new_buffer
sent_3-Run =
    Run.sending up sent_3 [] (1 ∷ 2 ∷ 3 ∷ []) (Written.wrote 1) (Run.established up refl)
      (omega arith) refl (omega arith) refl

-- One byte of three was taken at once.
written_in_order_example :
    (rest : List ℕ) × (sent_3.written ++ rest ≡ 1 ∷ 2 ∷ 3 ∷ [])
    × (sent_3.write_shut ≡ true → rest ≡ [])
written_in_order_example = written_in_order false false 0 sent_3 (1 ∷ 2 ∷ 3 ∷ []) sent_3-Run

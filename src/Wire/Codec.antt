-- ===== src/Wire/Codec.antt =====
-- What the frames use of a protobuf message type: a parameter, since its code is generated.
use atc2025_poby.Base.{ℕ, ◌^◌, ◌≡◌, Bool, true, Option, some, List, ltb, if◌then◌else◌, length}
use atc2025_poby.Memory.{Memory, load}

-- `blank` is a message just constructed. `serialize` is `SerializeToArray`, with `none` for false.
-- `parse` is `ParseFromArray`: its result, and the message that it leaves. Nothing is assumed of a
-- negative size.
pub record Codec (A : Type 0) : Type 0 where
  pub blank : A
  pub byte_size : A → ℕ
  pub serialize : A → Option (List ℕ)
  pub parse : List ℕ → Bool × A
  pub parse_negative : Bool × A
  pub length-serialize : (m : A) (bs : List ℕ) → serialize m ≡ some bs → length bs ≡ byte_size m
  pub parse-serialize : (m : A) (bs : List ℕ) → serialize m ≡ some bs → parse bs ≡ (true, m)

-- `msg.ParseFromArray(addr, size)`, where `size` is the pattern of an `int`.
abbrev pub parse_from_array : {A : Type 0} → Codec A → Memory → ℕ → ℕ → Bool × A
parse_from_array c mem addr size =
    if ltb size (2 ^ 31) then c.parse (load mem addr size) else c.parse_negative

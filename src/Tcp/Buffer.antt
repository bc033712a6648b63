-- ===== src/Tcp/Buffer.antt =====
-- src/network/tcp/Buffer.h and Buffer.cc: bytes appended at one index and retrieved at another, in one
-- vector. `none` is a fault: a failed assertion, or `std::length_error`. Sizes are of 64 bits.
pub mod Queue
use atc2025_poby.Base.{
  u32, ℕ, zero, suc, ◌+◌, ◌-◌, ◌*◌, ◌/◌, ◌%◌, ◌^◌, Bool, true, false, Option, none, some, List, [],
  ◌∷◌, ◌++◌, ltb, leb, ◌==◌, ◌&&◌, if◌then◌else◌, ◌>>=◌, assert, length, take, drop, replicate, u64,
}

pub record Buffer : Type 0 where
  pub bytes : List ℕ
  pub reader_index : ℕ
  pub writer_index : ℕ

abbrev pub cheap_prepend : ℕ
cheap_prepend = 8

abbrev pub initial_size : ℕ
initial_size = 1024

-- `sizeof extrabuf`
abbrev pub extra_size : ℕ
extra_size = 65536

-- A difference of two `size_t`.
abbrev pub difference : ℕ → ℕ → ℕ
difference a b = u64 (a + 2 ^ 64 - b)

-- `std::copy` of `bs` over the bytes at `at`.
abbrev pub overwrite : List ℕ → ℕ → List ℕ → List ℕ
overwrite bytes at bs = take at bytes ++ (bs ++ drop (at + length bs) bytes)

-- `vector::resize`, whose `max_size` is that of a vector of `char`s.
abbrev pub resize : List ℕ → ℕ → Option (List ℕ)
resize bytes n =
    if leb (2 ^ 63) n
    then none
    else if leb n (length bytes)
    then some (take n bytes)
    else some (bytes ++ replicate (n - length bytes) 0)

unfoldable pub new_buffer : ℕ → Buffer
new_buffer size = record {
  bytes = replicate (cheap_prepend + size) 0;
  reader_index = cheap_prepend;
  writer_index = cheap_prepend;
}

abbrev pub readable_bytes : Buffer → ℕ
readable_bytes b = difference b.writer_index b.reader_index

abbrev pub writable_bytes : Buffer → ℕ
writable_bytes b = difference (length b.bytes) b.writer_index

abbrev pub prependable_bytes : Buffer → ℕ
prependable_bytes b = b.reader_index

-- The `len` bytes at `peek()`.
abbrev pub peek : Buffer → ℕ → List ℕ
peek b len = take len (drop b.reader_index b.bytes)

abbrev pub retrieve_all : Buffer → Buffer
retrieve_all b = record b { reader_index = cheap_prepend; writer_index = cheap_prepend }

unfoldable pub retrieve : Buffer → ℕ → Option Buffer
retrieve b len = assert (leb len (readable_bytes b)) (
    some (
      if ltb len (readable_bytes b)
      then record b { reader_index = u64 (b.reader_index + len) }
      else retrieve_all b))

unfoldable pub retrieve_as_string : Buffer → ℕ → Option (List ℕ × Buffer)
unfolding retrieve
retrieve_as_string b len = do
  assert (leb len (readable_bytes b)) do b' ← retrieve b len; some (peek b len, b')

unfoldable pub retrieve_all_as_string : Buffer → Option (List ℕ × Buffer)
unfolding retrieve_as_string
retrieve_all_as_string b = retrieve_as_string b (readable_bytes b)

unfoldable pub has_written : Buffer → ℕ → Option Buffer
has_written b len =
    assert (leb len (writable_bytes b))
      (some (record b { writer_index = u64 (b.writer_index + len) }))

unfoldable pub unwrite : Buffer → ℕ → Option Buffer
unwrite b len =
    assert (leb len (readable_bytes b))
      (some (record b { writer_index = difference b.writer_index len }))

-- The readable bytes go to the front of the vector.
abbrev moved_front : Buffer → Buffer
moved_front b = record {
  bytes = overwrite b.bytes cheap_prepend (peek b (readable_bytes b));
  reader_index = cheap_prepend;
  writer_index = u64 (cheap_prepend + readable_bytes b);
}

unfoldable pub make_space : Buffer → ℕ → Option Buffer
make_space b len =
    if ltb (u64 (writable_bytes b + prependable_bytes b)) (u64 (len + cheap_prepend))
    then (resize b.bytes (u64 (b.writer_index + len)) >>= λ bytes.
        some (record b { bytes = bytes }))
    else assert (ltb cheap_prepend b.reader_index)
        (assert (readable_bytes b == readable_bytes (moved_front b)) (some (moved_front b)))

unfoldable pub ensure_writable_bytes : Buffer → ℕ → Option Buffer
unfolding make_space
ensure_writable_bytes b len = do
  b' ← if ltb (writable_bytes b) len then make_space b len else some b
  assert (leb len (writable_bytes b')) (some b')

unfoldable pub append : Buffer → List ℕ → Option Buffer
unfolding ensure_writable_bytes has_written
append b bs = do
  b' ← ensure_writable_bytes b (length bs)
  has_written (record b' { bytes = overwrite b'.bytes b'.writer_index bs }) (length bs)

unfoldable pub prepend : Buffer → List ℕ → Option Buffer
prepend b bs = assert (leb (length bs) (prependable_bytes b)) (
    let at = difference b.reader_index (length bs) in
    some (record b { bytes = overwrite b.bytes at bs; reader_index = at }))

-- The size is cast to `int`: a negative one is that of a view past any memory, whose use is a fault.
abbrev pub to_string_piece : Buffer → Option (List ℕ)
to_string_piece b =
    let size = u32 (readable_bytes b) in if ltb size (2 ^ 31) then some (peek b size) else none

unfoldable pub shrink : Buffer → ℕ → Option Buffer
unfolding new_buffer ensure_writable_bytes append
shrink b reserve = do
  other ← ensure_writable_bytes (new_buffer initial_size) (u64 (readable_bytes b + reserve))
  piece ← to_string_piece b
  append other piece

-- `readFd`, with the bytes that `readv` stored, or `none` where it failed: first in the room of the
-- vector, then, if that is less than `extrabuf`, in `extrabuf`.
unfoldable pub read_fd : Buffer → Option (List ℕ) → Option Buffer
unfolding append
read_fd b none = some b
read_fd b (some bs) =
    let writable = writable_bytes b in
    let filled = record b { bytes = overwrite b.bytes b.writer_index (take writable bs) } in
    if leb (length bs) writable
    then some (record filled { writer_index = u64 (b.writer_index + length bs) })
    else append (record filled { writer_index = length b.bytes }) (drop writable bs)

-- A number in network order, and back: `width` is `sizeof`.
unfoldable pub host_to_network : ℕ → ℕ → List ℕ
host_to_network zero n = []
host_to_network (suc width) n = host_to_network width (n / 256) ++ n % 256 ∷ []

unfoldable pub network_to_host : ℕ → List ℕ → ℕ
network_to_host acc [] = acc
network_to_host acc (byte ∷ rest) = network_to_host (acc * 256 + byte) rest

-- `appendInt64` to `appendInt8`, by their width in bytes; the same for the others.
unfoldable pub append_int : ℕ → Buffer → ℕ → Option Buffer
unfolding append host_to_network
append_int width b n = append b (host_to_network width n)

unfoldable pub peek_int : ℕ → Buffer → Option ℕ
unfolding network_to_host
peek_int width b = assert (leb width (readable_bytes b)) (some (network_to_host 0 (peek b width)))

unfoldable pub read_int : ℕ → Buffer → Option (ℕ × Buffer)
unfolding peek_int retrieve
read_int width b = do n ← peek_int width b; b' ← retrieve b width; some (n, b')

unfoldable pub prepend_int : ℕ → Buffer → ℕ → Option Buffer
unfolding prepend host_to_network
prepend_int width b n = prepend b (host_to_network width n)

-- `std::search` for the two bytes of `kCRLF`, as an offset.
search_crlf : ℕ → List ℕ → Option ℕ
search_crlf at [] = none
search_crlf at (x ∷ []) = none
search_crlf at (x ∷ y ∷ rest) =
    if x == 13 && y == 10 then some at else search_crlf (suc at) (y ∷ rest)

-- The offset from `peek()`.
unfoldable pub find_crlf : Buffer → Option ℕ
unfolding search_crlf
find_crlf b = search_crlf 0 (peek b (readable_bytes b))

-- `memchr`
mem_chr : ℕ → ℕ → List ℕ → Option ℕ
mem_chr c at [] = none
mem_chr c at (x ∷ rest) = if x == c then some at else mem_chr c (suc at) rest

unfoldable pub find_eol : Buffer → Option ℕ
unfolding mem_chr
find_eol b = mem_chr 10 0 (peek b (readable_bytes b))

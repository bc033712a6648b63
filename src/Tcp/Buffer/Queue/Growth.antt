-- ===== src/Tcp/Buffer/Queue/Growth.antt =====
-- `append`, `readFd`, `prepend` and `shrink` of the buffer on the queue.
use atc2025_poby.Base.{
  u32, ltb, none, if_true, if◌then◌else◌, ℕ, ◌+◌, ◌*◌, ◌-◌, ◌^◌, ◌≤◌, ◌<◌, ◌≡◌, refl, sym, ap, ap₂,
  ◌∙◌, subst, inl, inr, some, List, [], ◌++◌, append_assoc, arith, Bool-cases, leb, leb→le, leb→lt,
  length, take, drop, length-append, length-take, length-drop, take-append-drop, take_all, u64,
  ◌>>=◌,
}
use atc2025_poby.Tcp.Buffer.{
  Buffer, overwrite, readable_bytes, writable_bytes, new_buffer, initial_size, retrieve_as_string,
  has_written, ensure_writable_bytes, append, prepend, shrink, to_string_piece, peek, read_fd,
}
use atc2025_poby.Tcp.Buffer.Queue.{
  Holds, length-shape, readable_bytes-eq, writable_bytes-eq, peek-eq, peek_all, overwrite-append,
  length-overwrite, new_buffer-Holds, retrieve-Holds,
}
use atc2025_poby.Tcp.Buffer.Queue.Space.{filled, ensure_writable_bytes-Made}

-- Appending puts bytes at the back, whatever room the vector has.
pub append-Holds :
    (b : Buffer) (queue bs : List ℕ)
    → Holds b queue
    → length b.bytes + length bs < 2 ^ 63
    → (b' : Buffer) × (append b bs ≡ some b')
      × Holds b' (queue ++ bs)
      × (length b'.bytes ≤ length b.bytes + length bs)
unfolding append has_written
append-Holds b queue bs h room =
    let m = ensure_writable_bytes-Made b queue (length bs) h room in
    let len = length-shape m.made queue m.holds in
    let size =
      length-overwrite m.made.bytes bs m.made.writer_index
        (omega (arith, len, m.room, m.holds.writer)) in
    (
      _,
      ground (
        arith,
        m.returned,
        size,
        writable_bytes-eq m.made queue m.holds,
        m.room,
        m.holds.writer,
        m.holds.small,
        len,
      ),
      filled m.made queue bs m.holds m.room,
      omega (arith, size, m.growth),
    )

pub stored :
    (b : Buffer) (queue bs : List ℕ)
    → Holds b queue
    → writable_bytes b ≤ length bs
    → Holds
        (record b {
          bytes = overwrite b.bytes b.writer_index (take (writable_bytes b) bs);
          writer_index = length b.bytes;
        })
        (queue ++ take (writable_bytes b) bs)
stored b queue bs h le =
    let w = writable_bytes-eq b queue h in
    let count = length-take (writable_bytes b) bs in
    let end : b.writer_index + length (take (writable_bytes b) bs) ≡ length b.bytes =
      omega (arith, count, w, h.writer, length-shape b queue h, le) in
    subst
      (λ i.
        Holds
          (record b {
            bytes = overwrite b.bytes b.writer_index (take (writable_bytes b) bs);
            writer_index = i;
          })
          (queue ++ take (writable_bytes b) bs))
      end (filled b queue (take (writable_bytes b) bs) h (omega (arith, count, w)))

-- What `readv` stored goes to the back, through `extrabuf` where the vector has no room.
pub read_fd-Holds :
    (b : Buffer) (queue bs : List ℕ)
    → Holds b queue
    → length b.bytes + length bs < 2 ^ 63
    → (b' : Buffer) × (read_fd b (some bs) ≡ some b')
      × Holds b' (queue ++ bs)
      × (length b'.bytes ≤ length b.bytes + length bs)
unfolding read_fd
read_fd-Holds b queue bs h room = elim (Bool-cases (leb (length bs) (writable_bytes b))) [
  | inl e ↦ (
    record b {
      bytes = overwrite b.bytes b.writer_index bs;
      writer_index = b.writer_index + length bs;
    },
    ground (
      arith,
      e,
      take_all (writable_bytes b) bs (leb→le (length bs) (writable_bytes b) e),
      h.small,
      h.writer,
      length-shape b queue h,
      writable_bytes-eq b queue h,
    ),
    filled b queue bs h
        (omega (arith, writable_bytes-eq b queue h, leb→le (length bs) (writable_bytes b) e)),
    omega (
      arith,
      writable_bytes-eq b queue h,
      leb→le (length bs) (writable_bytes b) e,
      h.writer,
      length-shape b queue h,
      length-overwrite b.bytes bs b.writer_index,
    ),
  )
  | inr e ↦
      let w = writable_bytes-eq b queue h in
      let gt = leb→lt (length bs) (writable_bytes b) e in
      let size =
        length-overwrite b.bytes (take (writable_bytes b) bs) b.writer_index
          (omega (arith, w, length-take (writable_bytes b) bs, h.writer, length-shape b queue h)) in
      let (b', r, h', g) =
        append-Holds _ _ (drop (writable_bytes b) bs) (stored b queue bs h (omega arith))
          (omega (arith, size, length-drop (writable_bytes b) bs)) in
      (
        b',
        rw e r,
        subst (Holds b')
            (append_assoc queue (take (writable_bytes b) bs) (drop (writable_bytes b) bs)
              ∙ ap (◌++◌ queue) (take-append-drop (writable_bytes b) bs))
            h',
        omega (arith, g, size, length-drop (writable_bytes b) bs),
      )
]

-- Retrieving as a text gives the bytes at the front.
pub retrieve_as_string-Holds :
    (b : Buffer) (queue : List ℕ) (n : ℕ)
    → Holds b queue
    → n ≤ length queue
    → (b' : Buffer) × (retrieve_as_string b n ≡ some (take n queue, b')) × Holds b' (drop n queue)
unfolding retrieve_as_string
retrieve_as_string-Holds b queue n h le =
    let (b', e, h') = retrieve-Holds b queue n h le in
    (b', ground (arith, e, readable_bytes-eq b queue h, peek-eq b queue n h le), h')

-- Prepending puts bytes before the front, where there is room for them.
pub prepend-Holds :
    (b : Buffer) (queue bs : List ℕ)
    → Holds b queue
    → length bs ≤ b.reader_index
    → (b' : Buffer) × (prepend b bs ≡ some b') × Holds b' (bs ++ queue)
unfolding prepend
prepend-Holds b queue bs h le =
    let k = length h.before - length bs in
    let front = length-take k h.before in
    let old = length-drop k h.before in
    let at : u64 (b.reader_index + 2 ^ 64 - length bs) ≡ length (take k h.before) =
      omega (arith, front, h.reader, h.small, length-shape b queue h) in
    (
      record b {
        bytes = overwrite b.bytes (length (take k h.before)) bs;
        reader_index = length (take k h.before);
      },
      ground (arith, at),
      record {
        before = take k h.before;
        behind = h.behind;
        shape =
            ap (λ l. overwrite l (length (take k h.before)) bs)
              (h.shape
                ∙ ap (λ r. r ++ (queue ++ h.behind)) (sym (take-append-drop k h.before))
                ∙ append_assoc (take k h.before) (drop k h.before) (queue ++ h.behind))
            ∙ overwrite-append (take k h.before) (drop k h.before) bs (queue ++ h.behind)
                (omega (arith, old, h.reader))
            ∙ ap (◌++◌ (take k h.before)) (sym (append_assoc bs queue h.behind));
        reader = refl;
        writer = omega (arith, front, h.writer, h.reader, length-append bs queue);
        cheap = omega (
          arith,
          h.cheap,
          h.reader,
          front,
          length-shape b queue h,
          length-overwrite b.bytes bs (length (take k h.before)),
        );
        small = omega (
          arith,
          h.small,
          h.reader,
          front,
          length-shape b queue h,
          length-overwrite b.bytes bs (length (take k h.before)),
        );
      },
    )

to_string_piece-eq :
    (b : Buffer) (queue : List ℕ)
    → Holds b queue
    → length queue < 2 ^ 31
    → to_string_piece b ≡ some queue
to_string_piece-eq b queue h short =
    let size : u32 (readable_bytes b) ≡ readable_bytes b =
      omega (arith, readable_bytes-eq b queue h, short) in
    ap (λ n. if ltb n (2 ^ 31) then some (peek b n) else none) size
    ∙ if_true (ltb (readable_bytes b) (2 ^ 31)) _ _
        (ground (arith, readable_bytes-eq b queue h, short))
    ∙ ap some (peek_all b queue h)

-- Shrinking keeps a queue of less than 2 GiB.
pub shrink-Holds :
    (b : Buffer) (queue : List ℕ) (reserve : ℕ)
    → Holds b queue
    → length queue < 2 ^ 31
    → 2 * length queue + reserve + 2048 < 2 ^ 63
    → (b' : Buffer) × (shrink b reserve ≡ some b') × Holds b' queue
unfolding shrink
shrink-Holds b queue reserve h short small =
    let m =
      ensure_writable_bytes-Made (new_buffer initial_size) [] (length queue + reserve)
        (new_buffer-Holds initial_size (omega arith)) (omega arith) in
    let (b', r, h', g) = append-Holds m.made [] queue m.holds (omega (arith, m.growth)) in
    let amount : u64 (readable_bytes b + reserve) ≡ length queue + reserve =
      omega (arith, readable_bytes-eq b queue h) in
    (
      b',
      ap₂
            (λ n piece.
              ensure_writable_bytes (new_buffer initial_size) n >>= λ other. piece >>= append other)
            amount (to_string_piece-eq b queue h short)
          ∙ ap (λ o. o >>= λ other. append other queue) m.returned
          ∙ r,
      h',
    )

-- ===== src/Tcp/Buffer/Queue/Space.antt =====
-- `makeSpace` and `ensureWritableBytes` of Buffer.h on the queue.
use atc2025_poby.Base.{
  ℕ, ◌+◌, ◌-◌, ◌^◌, ◌≤◌, ◌<◌, ◌≡◌, refl, sym, ap, ap₂, ◌∙◌, inl, inr, Option, some, List, ◌++◌,
  append_assoc, arith, Bool-cases, ltb, ltb→le, ltb→lt, length, take, drop, replicate,
  length-append, length-take, length-drop, length-replicate, take-append-drop,
}
use atc2025_poby.Tcp.Buffer.{Buffer, overwrite, make_space, ensure_writable_bytes}
use atc2025_poby.Tcp.Buffer.Queue.{
  Holds, length-shape, readable_bytes-eq, writable_bytes-eq, peek_all, overwrite-append,
  length-overwrite,
}

pub grown :
    (b : Buffer) (queue zeros : List ℕ)
    → Holds b queue
    → length b.bytes + length zeros < 2 ^ 63
    → Holds (record b { bytes = b.bytes ++ zeros }) queue
grown b queue zeros h room = record {
  before = h.before;
  behind = h.behind ++ zeros;
  shape =
      ap (λ l. l ++ zeros) h.shape
      ∙ append_assoc h.before (queue ++ h.behind) zeros
      ∙ ap (◌++◌ h.before) (append_assoc queue h.behind zeros);
  reader = h.reader;
  writer = h.writer;
  cheap = omega (arith, h.cheap, length-append b.bytes zeros);
  small = omega (arith, length-append b.bytes zeros);
}

pub moved :
    (b : Buffer) (queue : List ℕ)
    → Holds b queue
    → 8 < b.reader_index
    → Holds
        (record {
          bytes = overwrite b.bytes 8 queue;
          reader_index = 8;
          writer_index = 8 + length queue;
        })
        queue
moved b queue h lt = record {
  before = take 8 b.bytes;
  behind = drop (8 + length queue) b.bytes;
  shape = refl;
  reader = omega (arith, length-take 8 b.bytes, h.cheap);
  writer = omega (arith, length-take 8 b.bytes, h.cheap);
  cheap =
      omega (arith, h.cheap, h.reader, length-shape b queue h, length-overwrite b.bytes queue 8);
  small =
      omega (arith, h.small, h.reader, length-shape b queue h, length-overwrite b.bytes queue 8);
}

pub filled :
    (b : Buffer) (queue bs : List ℕ) (h : Holds b queue)
    → length bs ≤ length h.behind
    → Holds
        (record b {
          bytes = overwrite b.bytes b.writer_index bs;
          writer_index = b.writer_index + length bs;
        })
        (queue ++ bs)
filled b queue bs h le = record {
  before = h.before;
  behind = drop (length bs) h.behind;
  shape =
      ap₂ (λ l at. overwrite l at bs)
        (h.shape
          ∙ ap (λ r. h.before ++ (queue ++ r)) (sym (take-append-drop (length bs) h.behind))
          ∙ sym (append_assoc h.before queue _))
        (h.writer ∙ sym (length-append h.before queue))
      ∙ overwrite-append (h.before ++ queue) (take (length bs) h.behind) bs
          (drop (length bs) h.behind) (omega (arith, length-take (length bs) h.behind))
      ∙ append_assoc h.before queue _
      ∙ ap (◌++◌ h.before) (sym (append_assoc queue bs _));
  reader = h.reader;
  writer = omega (arith, h.writer, length-append queue bs);
  cheap = omega (
    arith,
    h.cheap,
    h.writer,
    length-shape b queue h,
    length-overwrite b.bytes bs b.writer_index,
  );
  small = omega (
    arith,
    h.small,
    h.writer,
    length-shape b queue h,
    length-overwrite b.bytes bs b.writer_index,
  );
}

-- A result with room for `n` more bytes.
pub record Made (b : Buffer) (queue : List ℕ) (n : ℕ) (o : Option Buffer) : Type 0 where
  pub made : Buffer
  pub returned : o ≡ some made
  pub holds : Holds made queue
  pub room : n ≤ length holds.behind
  pub growth : length made.bytes ≤ length b.bytes + n

-- Room made leaves the queue as it is.
pub make_space-Made :
    (b : Buffer) (queue : List ℕ) (n : ℕ) (h : Holds b queue)
    → length h.behind < n
    → length b.bytes + n < 2 ^ 63
    → Made b queue n (make_space b n)
unfolding make_space grown moved
make_space-Made b queue n h lt room =
    elim (Bool-cases (ltb (length h.behind + length h.before) (n + 8))) [
      | inl e ↦
          let len = length-shape b queue h in
          let zeros : List ℕ = replicate (b.writer_index + n - length b.bytes) 0 in
          let count : length zeros ≡ b.writer_index + n - length b.bytes =
            length-replicate (b.writer_index + n - length b.bytes) 0 in
          record {
            made = record b { bytes = b.bytes ++ zeros };
            returned =
                ground (arith, writable_bytes-eq b queue h, h.reader, h.writer, h.small, len);
            holds = grown b queue zeros h (omega (arith, count, len, h.writer));
            room = omega (arith, count, len, h.writer, length-append h.behind zeros);
            growth = omega (arith, count, len, h.writer, length-append b.bytes zeros);
          }
      | inr e ↦
          let len = length-shape b queue h in
          let le = ltb→le (length h.behind + length h.before) (n + 8) e in
          let shown = peek_all b queue h in
          record {
            made = record {
              bytes = overwrite b.bytes 8 queue;
              reader_index = 8;
              writer_index = 8 + length queue;
            };
            returned = ground (
              arith,
              writable_bytes-eq b queue h,
              readable_bytes-eq b queue h,
              shown,
              h.reader,
              h.writer,
              h.small,
              len,
            );
            holds = moved b queue h (omega (arith, h.reader));
            room = omega (arith, len, h.reader, length-drop (8 + length queue) b.bytes);
            growth = omega (arith, len, h.reader, length-overwrite b.bytes queue 8);
          }
    ]

pub ensure_writable_bytes-Made :
    (b : Buffer) (queue : List ℕ) (n : ℕ)
    → Holds b queue
    → length b.bytes + n < 2 ^ 63
    → Made b queue n (ensure_writable_bytes b n)
unfolding ensure_writable_bytes
ensure_writable_bytes-Made b queue n h room = elim (Bool-cases (ltb (length h.behind) n)) [
  | inl e ↦
      let m = make_space-Made b queue n h (ltb→lt (length h.behind) n e) room in
      record {
        made = m.made;
        returned = ground (
          arith,
          writable_bytes-eq b queue h,
          m.returned,
          writable_bytes-eq m.made queue m.holds,
          m.room,
        );
        holds = m.holds;
        room = m.room;
        growth = m.growth;
      }
  | inr e ↦ record {
    made = b;
    returned = ground (arith, writable_bytes-eq b queue h);
    holds = h;
    room = ltb→le (length h.behind) n e;
    growth = omega arith;
  }
]

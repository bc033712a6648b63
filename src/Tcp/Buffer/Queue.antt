-- ===== src/Tcp/Buffer/Queue.antt =====
-- The buffer as a queue of bytes.
pub mod Space
pub mod Growth
use atc2025_poby.Base.{
  ℕ, zero, suc, ◌+◌, ◌*◌, ◌-◌, ◌^◌, ◌≤◌, ◌<◌, ◌≡◌, refl, sym, ap, ap₂, ◌∙◌, subst, inl, inr, Option,
  some, List, [], ◌∷◌, ◌++◌, append_assoc, arith, Bool-cases, ltb, leb, ltb→le, ltb→lt, leb→le,
  leb→lt, length, take, drop, replicate, length-append, length-take, length-drop, length-replicate,
  take-append, drop-append, take-append-drop, take-append-le, take_all, drop_all, drop-drop, u64,
  ◌>>=◌,
}
use atc2025_poby.Tcp.Buffer.{
  Buffer, overwrite, peek, readable_bytes, writable_bytes, new_buffer, initial_size, retrieve,
  retrieve_as_string, has_written, make_space, ensure_writable_bytes, append, prepend, shrink,
  read_fd,
}

-- The readable bytes are `queue`; the vector keeps room for a prefix and fits its `max_size`.
pub record Holds (b : Buffer) (queue : List ℕ) : Type 0 where
  pub before : List ℕ
  pub behind : List ℕ
  pub shape : b.bytes ≡ before ++ (queue ++ behind)
  pub reader : b.reader_index ≡ length before
  pub writer : b.writer_index ≡ length before + length queue
  pub cheap : 8 ≤ length b.bytes
  pub small : length b.bytes < 2 ^ 63

length-shape :
    (b : Buffer) (queue : List ℕ) (h : Holds b queue)
    → length b.bytes ≡ length h.before + length queue + length h.behind
length-shape b queue h = omega (
  arith,
  ap length h.shape,
  length-append h.before (queue ++ h.behind),
  length-append queue h.behind,
)

pub readable_bytes-eq :
    (b : Buffer) (queue : List ℕ) → Holds b queue → readable_bytes b ≡ length queue
readable_bytes-eq b queue h = omega (arith, h.reader, h.writer, h.small, length-shape b queue h)

pub writable_bytes-eq :
    (b : Buffer) (queue : List ℕ) (h : Holds b queue) → writable_bytes b ≡ length h.behind
writable_bytes-eq b queue h = omega (arith, h.reader, h.writer, h.small, length-shape b queue h)

pub peek-eq :
    (b : Buffer) (queue : List ℕ) (n : ℕ)
    → Holds b queue
    → n ≤ length queue
    → peek b n ≡ take n queue
peek-eq b queue n h le =
    ap₂ (λ i bs. take n (drop i bs)) h.reader h.shape
    ∙ ap (take n) (drop-append h.before (queue ++ h.behind))
    ∙ take-append-le n queue h.behind le

pub peek_all : (b : Buffer) (queue : List ℕ) → Holds b queue → peek b (readable_bytes b) ≡ queue
peek_all b queue h =
    let n = readable_bytes-eq b queue h in
    peek-eq b queue (readable_bytes b) h (omega (arith, n))
    ∙ take_all (readable_bytes b) queue (omega (arith, n))

overwrite-append :
    (front old bs back : List ℕ)
    → length old ≡ length bs
    → overwrite (front ++ (old ++ back)) (length front) bs ≡ front ++ (bs ++ back)
overwrite-append front old bs back e =
    ap₂ (λ l r. l ++ (bs ++ r)) (take-append front (old ++ back))
      (ap (λ n. drop (length front + n) (front ++ (old ++ back))) (sym e)
        ∙ sym (drop-drop (length old) (length front) (front ++ (old ++ back)))
        ∙ ap (drop (length old)) (drop-append front (old ++ back))
        ∙ drop-append old back)

replicate_add : (m n : ℕ) → replicate (m + n) 0 ≡ replicate {A = ℕ} m 0 ++ replicate n 0
replicate_add zero n = ap (λ k. replicate k 0) (omega arith)
replicate_add (suc m) n =
    let e : suc m + n ≡ suc (m + n) = omega arith in rw e (ap (◌∷◌ 0) (replicate_add m n))

length-overwrite :
    (bytes bs : List ℕ) (at : ℕ)
    → at + length bs ≤ length bytes
    → length (overwrite bytes at bs) ≡ length bytes
length-overwrite bytes bs at le = omega (
  arith,
  length-append (take at bytes) (bs ++ drop (at + length bs) bytes),
  length-append bs (drop (at + length bs) bytes),
  length-take at bytes,
  length-drop (at + length bs) bytes,
)

-- A new buffer is empty.
pub new_buffer-Holds : (size : ℕ) → size + 8 < 2 ^ 63 → Holds (new_buffer size) []
unfolding new_buffer
new_buffer-Holds size h = record {
  before = replicate 8 0;
  behind = replicate size 0;
  shape = replicate_add 8 size;
  reader = refl;
  writer = refl;
  cheap = omega (arith, length-replicate {A = ℕ} (8 + size) 0);
  small = omega (arith, length-replicate {A = ℕ} (8 + size) 0);
}

-- The indices at `cheap_prepend` again.
emptied :
    (b : Buffer) (queue : List ℕ)
    → Holds b queue
    → Holds (record b { reader_index = 8; writer_index = 8 }) []
emptied b queue h = record {
  before = take 8 b.bytes;
  behind = drop 8 b.bytes;
  shape = sym (take-append-drop 8 b.bytes);
  reader = omega (arith, length-take 8 b.bytes, h.cheap);
  writer = omega (arith, length-take 8 b.bytes, h.cheap);
  cheap = h.cheap;
  small = h.small;
}

advanced :
    (b : Buffer) (queue : List ℕ) (n : ℕ)
    → Holds b queue
    → n ≤ length queue
    → Holds (record b { reader_index = u64 (b.reader_index + n) }) (drop n queue)
advanced b queue n h le = record {
  before = h.before ++ take n queue;
  behind = h.behind;
  shape =
      h.shape
      ∙ ap (λ q. h.before ++ (q ++ h.behind)) (sym (take-append-drop n queue))
      ∙ ap (◌++◌ h.before) (append_assoc (take n queue) (drop n queue) h.behind)
      ∙ sym (append_assoc h.before (take n queue) (drop n queue ++ h.behind));
  reader = omega (
    arith,
    h.reader,
    h.small,
    length-shape b queue h,
    length-append h.before (take n queue),
    length-take n queue,
  );
  writer = omega (
    arith,
    h.writer,
    length-append h.before (take n queue),
    length-take n queue,
    length-drop n queue,
  );
  cheap = h.cheap;
  small = h.small;
}

-- Retrieving takes bytes off the front.
pub retrieve-Holds :
    (b : Buffer) (queue : List ℕ) (n : ℕ)
    → Holds b queue
    → n ≤ length queue
    → (b' : Buffer) × (retrieve b n ≡ some b') × Holds b' (drop n queue)
unfolding retrieve
retrieve-Holds b queue n h le = elim (Bool-cases (ltb n (length queue))) [
  | inl e ↦ (_, ground (arith, readable_bytes-eq b queue h), advanced b queue n h le)
  | inr e ↦ (
    _,
    ground (arith, readable_bytes-eq b queue h),
    subst (Holds (record b { reader_index = 8; writer_index = 8 }))
        (sym (drop_all n queue (ltb→le n (length queue) e))) (emptied b queue h),
  )
]

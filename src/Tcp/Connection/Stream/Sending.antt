-- ===== src/Tcp/Connection/Stream/Sending.antt =====
-- The stream under `send` and `sendInLoop`.
use atc2025_poby.Base.{
  ℕ, ◌+◌, ◌^◌, ◌≤◌, ◌<◌, ◌≡◌, refl, sym, ap, subst₂, ◌∙◌, Bool, true, false, ◌||◌, some, List, [],
  ◌∷◌, ◌++◌, append_assoc, append-nil, arith, length, take, drop, ltb, ltb→lt, ltb→le, lt→ltb,
  Bool-cases, inl, inr, if◌then◌else◌, length-append, length-drop, take-append-drop, drop_all, ◌&&◌,
}
use atc2025_poby.Tcp.Buffer.Queue.{Holds, readable_bytes-eq}
use atc2025_poby.Tcp.Connection.{
  State, TcpConnection, Written, is_connected, is_disconnected, is_fault, count_of, waits,
  try_write, after_write, send_in_loop, send,
}
use atc2025_poby.Tcp.Connection.Stream.{Streams, call-Same, after_write-Enqueued, Open, true≢false}

pub after_write-Streams :
    (t : TcpConnection) (queue bs sent : List ℕ) (n : ℕ)
    → Open t queue (drop n bs) sent
    → length t.output_buffer.bytes + length bs < 2 ^ 63
    → n ≤ length bs
    → (t' : TcpConnection) × (after_write t bs false n ≡ some t') × Streams t' sent
after_write-Streams t queue bs sent n o room le = elim (Bool-cases (ltb n (length bs))) [
  | inl e ↦
      let q = after_write-Enqueued t queue bs n o.holds room (ltb→lt n (length bs) e) in
      (
        q.made,
        q.returned,
        record {
          queue = queue ++ drop n bs;
          holds = q.holds;
          whole = ap (λ l. l ++ (queue ++ drop n bs)) q.written ∙ o.whole;
          watched = λ d.
              q.writing
              ∙ sym (
                  lt→ltb 0 (length (queue ++ drop n bs)) (
                    omega (
                      arith,
                      length-append queue (drop n bs),
                      length-drop n bs,
                      ltb→lt n (length bs) e,
                    )));
          shut = λ d. true≢false (sym d ∙ q.shut ∙ o.not_shut);
        },
      )
  | inr e ↦ (
    t,
    ground (arith, e),
    record {
      queue = queue;
      holds = o.holds;
      whole =
          ap (◌++◌ t.written) (
            sym (append-nil queue) ∙ ap (◌++◌ queue) (sym (drop_all n bs (ltb→le n (length bs) e))))
          ∙ o.whole;
      watched = λ d. o.watched;
      shut = λ d. true≢false (sym d ∙ o.not_shut);
    },
  )
]

pub record Tried (t : TcpConnection) (bs : List ℕ) (w : Written) (t' : TcpConnection) : Type 0 where
  pub state : t'.state ≡ t.state
  pub written : t'.written ≡ t.written ++ take (count_of w) bs
  pub output : t'.output_buffer ≡ t.output_buffer
  pub writing : t'.channel_writing ≡ t.channel_writing
  pub shut : t'.write_shut ≡ t.write_shut

pub untouched : (t : TcpConnection) (bs : List ℕ) (w : Written) → count_of w ≡ 0 → Tried t bs w t
untouched t bs w e = record {
  state = refl;
  written = sym (append-nil t.written) ∙ ap (λ n. t.written ++ take n bs) (sym e);
  output = refl;
  writing = refl;
  shut = refl;
}

pub try_write-Tried :
    (t : TcpConnection) (bs : List ℕ) (w : Written) → Tried t bs w (try_write t bs w)
try_write-Tried t bs (Written.wrote n) =
    let s = call-Same (record t { written = t.written ++ take n bs }) _ _ in
    record {
      state = s.state;
      written = s.written;
      output = s.output;
      writing = s.writing;
      shut = s.shut;
    }
try_write-Tried t bs Written.would_block = untouched t bs Written.would_block refl
try_write-Tried t bs Written.broken_pipe = untouched t bs Written.broken_pipe refl
try_write-Tried t bs Written.connection_reset = untouched t bs Written.connection_reset refl
try_write-Tried t bs Written.other_error = untouched t bs Written.other_error refl

pub up-not-disconnected : (s : State) → is_connected s ≡ true → is_disconnected s ≡ false
up-not-disconnected State.connected e = refl
up-not-disconnected State.disconnected e = cc
up-not-disconnected State.connecting e = refl
up-not-disconnected State.disconnecting e = refl

pub no_bytes : (q : List ℕ) → ltb 0 (length q) ≡ false → q ≡ []
no_bytes [] e = refl
no_bytes (x ∷ q) e = absurd (omega (arith, ltb→le 0 (length (x ∷ q)) e))

pub left_false : (a b : Bool) → (a || b) ≡ false → a ≡ false
left_false true b e = e
left_false false b e = refl

pub left_true : (a b : Bool) → (a && b) ≡ true → a ≡ true
left_true true b e = refl
left_true false b e = e

pub not_shut-Streams :
    (t : TcpConnection) (sent : List ℕ)
    → Streams t sent
    → is_connected t.state ≡ true
    → t.write_shut ≡ false
not_shut-Streams t sent s up = elim (Bool-cases t.write_shut) [
  | inr e ↦ e
  | inl e ↦ true≢false (sym up ∙ (s.shut e).1)
]

pub send_in_loop-Streams :
    (t : TcpConnection) (sent bs : List ℕ) (w : Written)
    → Streams t sent
    → is_connected t.state ≡ true
    → length t.output_buffer.bytes + length bs < 2 ^ 63
    → is_fault w ≡ false
    → count_of w ≤ length bs
    → (t' : TcpConnection) × (send_in_loop t bs w ≡ some t') × Streams t' (sent ++ bs)
unfolding send_in_loop
send_in_loop-Streams t sent bs w s up room fine le =
    let live = up-not-disconnected t.state up in
    let not_shut = not_shut-Streams t sent s up in
    let n = readable_bytes-eq t.output_buffer s.queue s.holds in
    elim (Bool-cases (waits t)) [
      | inl e ↦
          let (t', r, s') =
            after_write-Streams t s.queue bs (sent ++ bs) 0
              (record {
                holds = s.holds;
                whole = sym (append_assoc t.written s.queue bs) ∙ ap (λ l. l ++ bs) s.whole;
                watched = s.watched live;
                up = up;
                not_shut = not_shut;
              })
              room (omega arith) in
          (t', rw (live, e) r, s')
      | inr e ↦
          let tried = try_write-Tried t bs w in
          let t1 = try_write t bs w in
          let empty : s.queue ≡ [] =
            no_bytes s.queue (sym (s.watched live) ∙ left_false t.channel_writing _ e) in
          let (t', r, s') =
            after_write-Streams t1 [] bs (sent ++ bs) (count_of w)
              (record {
                holds = subst₂ (λ b q. Holds b q) (sym tried.output) empty s.holds;
                whole =
                    ap (λ l. l ++ drop (count_of w) bs) tried.written
                    ∙ append_assoc t.written (take (count_of w) bs) (drop (count_of w) bs)
                    ∙ ap (◌++◌ t.written) (take-append-drop (count_of w) bs)
                    ∙ ap (λ l. l ++ bs)
                        (sym (append-nil t.written) ∙ ap (◌++◌ t.written) (sym empty) ∙ s.whole);
                watched = tried.writing ∙ s.watched live ∙ ap (λ q. ltb 0 (length q)) empty;
                up = ap is_connected tried.state ∙ up;
                not_shut = tried.shut ∙ not_shut;
              })
              (omega (arith, ap (λ b. length b.bytes) tried.output)) le in
          (t', rw (live, e, fine) r, s')
    ]

-- Sending over a connection loses no byte and reorders none, unless the socket is broken.
pub send-Streams :
    (t : TcpConnection) (sent bs : List ℕ) (w : Written)
    → Streams t sent
    → length t.output_buffer.bytes + length bs < 2 ^ 63
    → is_fault w ≡ false
    → count_of w ≤ length bs
    → (t' : TcpConnection) × (send t bs w ≡ some t')
      × Streams t' (if is_connected t.state then sent ++ bs else sent)
unfolding send send_in_loop
send-Streams t sent bs w s room fine le = elim (Bool-cases (is_connected t.state)) [
  | inr e ↦ (t, rw e refl, rw e s)
  | inl e ↦ rw e (send_in_loop-Streams t sent bs w s e room fine le)
]

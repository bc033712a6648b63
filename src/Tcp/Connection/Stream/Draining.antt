-- ===== src/Tcp/Connection/Stream/Draining.antt =====
-- The stream under `shutdown` and `handleWrite`.
use atc2025_poby.Base.{
  ℕ, ◌≤◌, ◌≡◌, refl, sym, ap, subst, ◌∙◌, true, false, some, List, [], ◌++◌, append_assoc,
  append-nil, arith, length, take, drop, ltb, lt→ltb, Bool-cases, inl, inr, ◌>>=◌, if◌then◌else◌,
  ◌==◌, take-append-drop, drop-nil, ◌&&◌,
}
use atc2025_poby.Tcp.Buffer.{readable_bytes, peek}
use atc2025_poby.Tcp.Buffer.Queue.{Holds, readable_bytes-eq, peek-eq, retrieve-Holds}
use atc2025_poby.Tcp.Connection.{
  State, TcpConnection, Callback, Written, is_connected, is_disconnected, is_disconnecting,
  count_of, call, shutdown_in_loop, shutdown, handle_write, drained, write_more,
}
use atc2025_poby.Tcp.Connection.Stream.{Streams, call-Same}
use atc2025_poby.Tcp.Connection.Stream.Sending.{up-not-disconnected, no_bytes, left_true}

-- `shutdown` waits for the bytes that wait.
pub shutdown-Streams :
    (t : TcpConnection) (sent : List ℕ) → Streams t sent → Streams (shutdown t) sent
unfolding shutdown shutdown_in_loop
shutdown-Streams t sent s = elim (Bool-cases (is_connected t.state)) [
  | inr e ↦ rw e s
  | inl e ↦ elim (Bool-cases t.channel_writing) [
    | inl f ↦
        simp (e, f)
          (record {
            queue = s.queue;
            holds = s.holds;
            whole = s.whole;
            watched = λ d. sym f ∙ s.watched (up-not-disconnected t.state e);
            shut = λ d. ((s.shut d).0, refl);
          })
    | inr f ↦
        simp (e, f)
          (record {
            queue = s.queue;
            holds = s.holds;
            whole = s.whole;
            watched = λ d. sym f ∙ s.watched (up-not-disconnected t.state e);
            shut =
                λ d. (no_bytes s.queue (sym (s.watched (up-not-disconnected t.state e)) ∙ f), refl);
          })
  ]
]

-- Nothing waits, and the socket is no longer watched.
pub record Idle (t : TcpConnection) (sent : List ℕ) : Type 0 where
  pub holds : Holds t.output_buffer []
  pub written : t.written ≡ sent
  pub unwatched : t.channel_writing ≡ false
  pub shut : t.write_shut ≡ true → is_connected t.state ≡ false

pub down : (s : State) → is_disconnecting s ≡ true → is_connected s ≡ false
down State.connected e = cc
down State.disconnected e = refl
down State.connecting e = refl
down State.disconnecting e = refl

pub Idle-Streams :
    (t : TcpConnection) (sent : List ℕ)
    → Idle t sent
    → Streams (if is_disconnecting t.state then shutdown_in_loop t else t) sent
unfolding shutdown_in_loop
Idle-Streams t sent i = elim (Bool-cases (is_disconnecting t.state)) [
  | inr e ↦ simp e (record {
    queue = [];
    holds = i.holds;
    whole = append-nil t.written ∙ i.written;
    watched = λ d. i.unwatched;
    shut = λ d. (refl, i.shut d);
  })
  | inl e ↦
      simp (e, i.unwatched)
        (record {
          queue = [];
          holds = i.holds;
          whole = append-nil t.written ∙ i.written;
          watched = λ d. refl;
          shut = λ d. (refl, down t.state e);
        })
]

pub drained-Streams :
    (t : TcpConnection) (sent : List ℕ)
    → Holds t.output_buffer []
    → t.written ≡ sent
    → (t.write_shut ≡ true → is_connected t.state ≡ false)
    → Streams (drained t) sent
unfolding shutdown_in_loop
drained-Streams t sent h e quiet =
    let same =
      call-Same (record t { channel_writing = false }) t.has_write_complete_callback
        Callback.write_complete in
    Idle-Streams
      (call (record t { channel_writing = false }) t.has_write_complete_callback
        Callback.write_complete)
      sent
      (record {
        holds = subst (λ b. Holds b []) (sym same.output) h;
        written = same.written ∙ e;
        unwatched = same.writing;
        shut = λ d. ap is_connected same.state ∙ quiet (sym same.shut ∙ d);
      })

pub write_more-Streams :
    (t : TcpConnection) (sent : List ℕ) (n : ℕ) (s : Streams t sent)
    → t.channel_writing ≡ true
    → n ≤ length s.queue
    → (t' : TcpConnection) × (write_more t n ≡ some t') × Streams t' sent
unfolding shutdown_in_loop
write_more-Streams t sent n s on le =
    let (b, r, h) = retrieve-Holds t.output_buffer s.queue n s.holds le in
    let left = readable_bytes-eq b (drop n s.queue) h in
    let taken : TcpConnection = record t {
      output_buffer = b;
      written = t.written ++ peek t.output_buffer n;
    } in
    let whole : taken.written ++ drop n s.queue ≡ sent =
      ap (λ l. (t.written ++ l) ++ drop n s.queue) (peek-eq t.output_buffer s.queue n s.holds le)
      ∙ append_assoc t.written (take n s.queue) (drop n s.queue)
      ∙ ap (◌++◌ t.written) (take-append-drop n s.queue)
      ∙ s.whole in
    (
      if readable_bytes b == 0 then drained taken else taken,
      ap
          (λ o. o >>= λ c.
            let moved : TcpConnection = record t {
              output_buffer = c;
              written = t.written ++ peek t.output_buffer n;
            } in
            some (if readable_bytes c == 0 then drained moved else moved))
          r,
      elim (Bool-cases (readable_bytes b == 0)) [
        | inl e ↦
            let none_left : drop n s.queue ≡ [] =
              no_bytes (drop n s.queue) (ground (arith, e, left)) in
            subst (λ u. Streams u sent) (ap (λ c. if c then drained taken else taken) (sym e))
              (drained-Streams taken sent (subst (Holds b) none_left h)
                (sym (append-nil taken.written) ∙ ap (◌++◌ taken.written) (sym none_left) ∙ whole)
                (λ d. (s.shut d).1))
        | inr e ↦
            subst (λ u. Streams u sent) (ap (λ c. if c then drained taken else taken) (sym e))
              (record {
                queue = drop n s.queue;
                holds = h;
                whole = whole;
                watched =
                    λ d. on ∙ sym (lt→ltb 0 (length (drop n s.queue)) (ground (arith, e, left)));
                shut = λ d. (ap (drop n) (s.shut d).0 ∙ drop-nil n, (s.shut d).1);
              })
      ],
    )

-- Taking up where `write` left off; the socket is shut when a waiting `shutdown` may take effect.
pub handle_write-Streams :
    (t : TcpConnection) (sent : List ℕ) (w : Written) (s : Streams t sent)
    → is_disconnected t.state ≡ false
    → count_of w ≤ length s.queue
    → (t' : TcpConnection) × (handle_write t w ≡ some t') × Streams t' sent
unfolding handle_write
handle_write-Streams t sent w s live le =
    elim (Bool-cases (t.channel_writing && ltb 0 (count_of w))) [
      | inr e ↦ (t, rw e refl, s)
      | inl e ↦ rw e (write_more-Streams t sent (count_of w) s (left_true t.channel_writing _ e) le)
    ]

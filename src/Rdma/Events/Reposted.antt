-- ===== src/Rdma/Events/Reposted.antt =====
-- The receives that `handleRead` posts.
use atc2025_poby.Base.{
  none≢some, ℕ, ◌+◌, ◌==◌, none≢some, ◌≡◌, refl, sym, ap, ap₂, subst, ◌∙◌, get_or, Bool, true,
  false, Option, none, some, List, [], ◌∷◌, ◌++◌, append_assoc, append-nil, map, ◌>>=◌,
  if◌then◌else◌, Bool-cases, Option-cases, inl, inr, some_eq,
}
use atc2025_poby.Rdma.Connection.{
  RdmaConnection, RecvWr, Verbs, null_bufpair, bufpair_at, post_recv,
}
use atc2025_poby.Rdma.Setup.Filled.{recv_of}
use atc2025_poby.Rdma.Events.{
  Opcode, send, recv, other, Wc, Callbacks, complete, complete_all, poll_loop, count_event,
  handle_read,
}

-- The buffers of the messages among completions.
abbrev pub received : List Wc → List ℕ
received [] = []
received (wc ∷ wcs) = elim wc.opcode [
  | send ↦ received wcs
  | recv ↦ wc.wr_id ∷ received wcs
  | other ↦ received wcs
]

-- The same up to the empty poll.
abbrev pub received_in : List (Option (List Wc)) → List ℕ
received_in [] = []
received_in (none ∷ polls) = []
received_in (some [] ∷ polls) = []
received_in (some (wc ∷ wcs) ∷ polls) = received (wc ∷ wcs) ++ received_in polls

-- `b` has the buffers of `a`, and the receives `ids` posted after those of `a`.
pub record Reposts (ids : List ℕ) (a b : RdmaConnection) : Type 0 where
  pub bufpairs : b.bufpairs ≡ a.bufpairs
  pub posted : b.rq ≡ a.rq ++ map (recv_of a) ids

-- The callbacks neither post receives nor move buffers.
pub record Keeps {S : Type 0} (callbacks : Callbacks S) : Type 0 where
  pub after_recv :
      (s : S) (conn : RdmaConnection) (addr len : ℕ)
      → Reposts [] conn (callbacks.recv_success s conn addr len).1
  pub after_send :
      (s : S) (conn : RdmaConnection) (wr_id : ℕ)
      → Reposts [] conn (callbacks.send_complete_success s conn wr_id).1

recv_of-same : (a b : RdmaConnection) → b.bufpairs ≡ a.bufpairs → recv_of b ≡ recv_of a
recv_of-same a b e =
    ap {B = ℕ → RecvWr}
      (λ ps. λ i. record {
        wr_id = i;
        addr = (get_or ps i null_bufpair).recv_header;
        len = (get_or ps i null_bufpair).recv_cap;
      })
      e

map-append : (f : ℕ → RecvWr) (xs ys : List ℕ) → map f (xs ++ ys) ≡ map f xs ++ map f ys
map-append f [] ys = refl
map-append f (x ∷ xs) ys = ap (◌∷◌ (f x)) (map-append f xs ys)

Reposts-append :
    (ids ids' : List ℕ) (a b c : RdmaConnection)
    → Reposts ids a b
    → Reposts ids' b c
    → Reposts (ids ++ ids') a c
Reposts-append ids ids' a b c r r' = record {
  bufpairs = r'.bufpairs ∙ r.bufpairs;
  posted =
      r'.posted
      ∙ ap₂ (λ q f. q ++ map f ids') r.posted (recv_of-same a b r.bufpairs)
      ∙ append_assoc a.rq (map (recv_of a) ids) (map (recv_of a) ids')
      ∙ ap (◌++◌ a.rq) (sym (map-append (recv_of a) ids ids'));
}

Reposts-refl : (a : RdmaConnection) → Reposts [] a a
Reposts-refl a = record { bufpairs = refl; posted = sym (append-nil a.rq) }

count_event-Reposts : (conn : RdmaConnection) → Reposts [] conn (count_event conn)
count_event-Reposts conn = elim (Bool-cases (conn.unack_cq_events + 1 == 10)) [
  | inl e ↦ rw e (record { bufpairs = refl; posted = sym (append-nil conn.rq) })
  | inr e ↦ rw e (record { bufpairs = refl; posted = sym (append-nil conn.rq) })
]

module _ {S : Type 0} (v : Verbs) (callbacks : Callbacks S) (keeps : Keeps callbacks)
    (accepts : (q : List RecvWr) → v.recv_accepted q ≡ true) where
  post_recv-Reposts : (conn : RdmaConnection) (i : ℕ) → Reposts (i ∷ []) conn (post_recv v conn i).1
  unfolding post_recv
  post_recv-Reposts conn i = rw (accepts conn.rq) (record { bufpairs = refl; posted = refl })

  -- By the opcode.
  complete-Reposts :
      (ok : Bool) (opcode : Opcode) (wr_id byte_len : ℕ) (wcs : List Wc) (s : S)
      (conn c : RdmaConnection)
      → (let wc : Wc = record { ok = ok; opcode = opcode; wr_id = wr_id; byte_len = byte_len } in
          Reposts (received wcs) (complete v callbacks wc (s, conn)).1 c
          → Reposts (received (wc ∷ wcs)) conn c)
  complete-Reposts ok send wr_id byte_len wcs s conn c r =
      Reposts-append [] (received wcs) conn _ c (keeps.after_send s conn wr_id) r
  complete-Reposts ok recv wr_id byte_len wcs s conn c r =
      let posted = (post_recv v conn wr_id).1 in
      Reposts-append (wr_id ∷ []) (received wcs) conn posted c (post_recv-Reposts conn wr_id) (
        Reposts-append [] (received wcs) posted _ c
          (keeps.after_recv s posted (bufpair_at conn wr_id).recv_header byte_len) r)
  complete-Reposts ok other wr_id byte_len wcs s conn c r = r

  complete_all-Reposts :
      (wcs : List Wc) (s t : S) (conn c : RdmaConnection)
      → complete_all v callbacks wcs (s, conn) ≡ some (t, c)
      → Reposts (received wcs) conn c
  unfolding complete_all
  complete_all-Reposts [] s t conn c e =
      subst (Reposts [] conn) (ap (λ p. p.1) (some_eq e)) (Reposts-refl conn)
  complete_all-Reposts (wc ∷ wcs) s t conn c e = elim (Bool-cases wc.ok) [
    | inr bad ↦ none≢some (
        ap
          (λ b.
            if b then complete_all v callbacks wcs (complete v callbacks wc (s, conn)) else none)
          (sym bad)
        ∙ e)
    | inl good ↦ complete-Reposts wc.ok wc.opcode wc.wr_id wc.byte_len wcs s conn c (
        complete_all-Reposts wcs _ t _ c (
          ap
            (λ b.
              if b then complete_all v callbacks wcs (complete v callbacks wc (s, conn)) else none)
            (sym good)
          ∙ e))
  ]

  poll_loop-Reposts :
      (polls : List (Option (List Wc))) (s t : S) (conn c : RdmaConnection)
      → poll_loop v callbacks polls (s, conn) ≡ some (t, c)
      → Reposts (received_in polls) conn c
  unfolding poll_loop
  poll_loop-Reposts [] s t conn c e =
      subst (Reposts [] conn) (ap (λ p. p.1) (some_eq e)) (Reposts-refl conn)
  poll_loop-Reposts (none ∷ polls) s t conn c e = cc
  poll_loop-Reposts (some [] ∷ polls) s t conn c e =
      subst (Reposts [] conn) (ap (λ p. p.1) (some_eq e)) (Reposts-refl conn)
  poll_loop-Reposts (some (wc ∷ wcs) ∷ polls) s t conn c e =
      elim (Option-cases (complete_all v callbacks (wc ∷ wcs) (s, conn))) [
        | inl gone ↦ none≢some (ap (λ o. o >>= poll_loop v callbacks polls) (sym gone) ∙ e)
        | inr (st, done) ↦
            Reposts-append (received (wc ∷ wcs)) (received_in polls) conn st.1 c
              (complete_all-Reposts (wc ∷ wcs) s st.0 conn st.1 done)
              (poll_loop-Reposts polls st.0 t st.1 c
                (ap (λ o. o >>= poll_loop v callbacks polls) (sym done) ∙ e))
      ]

  -- However `handleRead` ends, short of the end of the program, there is one more receive posted for
  -- each message that the polls brought, in order, into the buffer that it came in.
  pub handle_read-Reposts :
      (same_cq event_ok notify_ok : Bool) (polls : List (Option (List Wc))) (s t : S)
      (conn c : RdmaConnection)
      → handle_read v callbacks same_cq event_ok notify_ok polls (s, conn) ≡ some (t, c)
      → Reposts (if event_ok then (if notify_ok then received_in polls else []) else []) conn c
  unfolding handle_read
  handle_read-Reposts false event_ok notify_ok polls s t conn c e = none≢some e
  handle_read-Reposts true false notify_ok polls s t conn c e =
      subst (Reposts [] conn) (ap (λ p. p.1) (some_eq e)) (Reposts-refl conn)
  handle_read-Reposts true true false polls s t conn c e =
      subst (Reposts [] conn) (ap (λ p. p.1) (some_eq e)) (count_event-Reposts conn)
  handle_read-Reposts true true true polls s t conn c e =
      Reposts-append [] (received_in polls) conn (count_event conn) c (count_event-Reposts conn)
        (poll_loop-Reposts polls s t (count_event conn) c e)

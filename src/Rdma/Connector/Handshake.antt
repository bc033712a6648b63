-- ===== src/Rdma/Connector/Handshake.antt =====
-- Both sides of the handshake of src/network/rdma/RdmaConnector.cc, over a TCP connection that delivers in
-- order, in pieces of any size.
use atc2025_poby.Base.{
  ℕ, ◌≤◌, ◌<◌, ◌≡◌, refl, sym, ap, subst, subst₂, ◌∙◌, ◌⊎◌, inl, inr, Bool, true, false, Option,
  none, some, List, [], ◌∷◌, ◌++◌, append-nil, append_assoc, arith, Bool-cases, length,
  length-append, some_eq,
}
use atc2025_poby.Rdma.Connector.{
  ConnectorState, not_init, init, rts, connected, RdmaConnector, new_connector,
  initial_rdma_resource, on_tcp_message, handshake_complete_msg,
}
use atc2025_poby.Rdma.Connector.Halves.{
  is_init, has_qp, stream, stream_at, got, Hungry, Half, Half-sender,
}
use atc2025_poby.Rdma.Connector.Receiving.{receive}
use atc2025_poby.Rdma.Connector.Sides.{
  Handshake, new_handshake, swapped, SizedInfo, Step, Reach, InStep,
}

module _ (size : ℕ) (pos : 0 < size) where
  swapped-InStep : (h : Handshake) → InStep size h → InStep size (swapped h)
  swapped-InStep h i = record { of_left = i.of_right; of_right = i.of_left }

  started-Half :
      (a b : RdmaConnector) (chan : List ℕ) (created : Option (List ℕ))
      → a.state ≡ not_init
      → a.tcp_open ≡ true
      → SizedInfo size created
      → Half size a b chan
      → Half size (initial_rdma_resource created a).0 b chan
  unfolding initial_rdma_resource
  started-Half a b chan none st live sized h = record {
    reads = λ l. cc;
    hungry = λ l. cc;
    sized = h.sized;
    agreed = h.agreed;
    final = h.final;
    told_late = h.told_late;
  }
  started-Half a b chan (some info) st live sized h = record {
    reads = λ l. ap (λ s. got s b.local_info ++ (a.buffer ++ chan)) (sym st) ∙ h.reads l;
    hungry =
        λ l. omega (arith, pos, ap length (subst (λ s. Hungry s size a.buffer) st (h.hungry l)));
    sized = λ i. sized;
    agreed = λ q. cc q;
    final = λ done. cc done;
    told_late = λ told. cc (h.told_late told, st);
  }

  got-none : (s : ConnectorState) (info : List ℕ) → has_qp s ≡ false → got s info ≡ []
  got-none not_init info h = refl
  got-none init info h = refl
  got-none rts info h = cc h
  got-none connected info h = cc h

  started-sender :
      (a b : RdmaConnector) (chan : List ℕ) (created : Option (List ℕ))
      → a.state ≡ not_init
      → Half size b a chan
      → Half size b
          (initial_rdma_resource created a).0
          (chan ++ (initial_rdma_resource created a).1)
  unfolding initial_rdma_resource
  started-sender a b chan none st h =
      Half-sender size b a (record a { tcp_open = false }) chan [] h refl
        (sym (append-nil (stream a))) (λ i. i) (λ q. q)
  started-sender a b chan (some info) st h =
      let waits : has_qp b.state ≡ false = elim (Bool-cases (has_qp b.state)) [
        | inr no_qp ↦ no_qp
        | inl qp ↦ cc ((h.agreed qp).1, st)
      ] in
      let nothing = λ (i : List ℕ). got-none b.state i waits in
      record {
        reads = λ l.
            let empty : b.buffer ++ chan ≡ [] =
              ap (λ g. g ++ (b.buffer ++ chan)) (sym (nothing a.local_info))
              ∙ h.reads l
              ∙ ap (λ s. stream_at s a.local_info) st in
            ap (λ g. g ++ (b.buffer ++ (chan ++ info))) (nothing info)
            ∙ sym (append_assoc b.buffer chan info)
            ∙ ap (λ g. g ++ info) empty;
        hungry = h.hungry;
        sized = h.sized;
        agreed = λ q. cc (q, waits);
        final = λ done. cc (waits, done);
        told_late = h.told_late;
      }

  Step-InStep : (h g : Handshake) → Step size h g → InStep size h → InStep size g
  Step-InStep h g (Step.starting h' created st live sized) i = record {
    of_left = started-Half h.left h.right h.to_left created st live sized i.of_left;
    of_right = started-sender h.left h.right h.to_right created st i.of_right;
  }
  Step-InStep h g (Step.receiving h' connects front rest c sent started front_of e) i =
      let r =
        receive size connects h.left h.right front rest pos started i.of_right.sized
          (subst (Half size h.left h.right) front_of i.of_left) in
      let same = some_eq (sym r.runs ∙ e) in
      let left : r.after ≡ c = ap (λ q. q.0) same in
      let out : r.sent ≡ sent = ap (λ q. q.1) same in
      record {
        of_left = subst (λ u. Half size u h.right rest) left r.half;
        of_right =
            subst₂ (λ u l. Half size h.right u (h.to_right ++ l)) left out
              (Half-sender size h.right h.left r.after h.to_right r.sent i.of_right r.same r.more
                r.inits r.qps);
      }
  Step-InStep h g (Step.mirrored h' g' st) i =
      swapped-InStep g' (Step-InStep (swapped h) g' st (swapped-InStep h i))

  pub Reach-InStep : (h : Handshake) → Reach size h → InStep size h
  unfolding new_handshake new_connector
  Reach-InStep h (Reach.new h' is) =
      let half : Half size new_connector new_connector [] = record {
        reads = λ l. refl;
        hungry = λ l. refl;
        sized = λ i. cc i;
        agreed = λ q. cc q;
        final = λ done. cc done;
        told_late = λ told. cc told;
      } in
      subst (InStep size) (sym is) (record { of_left = half; of_right = half })
  Reach-InStep g (Reach.then_step h g' r st) = Step-InStep h g st (Reach-InStep h r)

  -- Where the left side is told that it is connected, both queue pairs are connected, each with what the other
  -- side sent of itself, and the other side has made its connection.
  pub connected_agrees :
      (h : Handshake)
      → Reach size h
      → h.left.told ≡ true
      → (h.left.remote ≡ some h.right.local_info)
        × (h.right.remote ≡ some h.left.local_info)
        × (h.right.made ≡ true)
  connected_agrees h r told =
      let i = Reach-InStep h r in
      let done = i.of_left.told_late told in
      let other = i.of_right.agreed (i.of_left.final done).0 in
      ((i.of_left.agreed (ap has_qp done)).0, other.0, other.2)

  -- Whatever bytes arrive, of those that are on their way, they are taken in without a fault.
  pub receiving_possible :
      (h : Handshake) (connects : Bool) (front rest : List ℕ)
      → Reach size h
      → is_init h.left.state ≡ true
      → h.to_left ≡ front ++ rest
      → (c : RdmaConnector) × (sent : List ℕ) × (on_tcp_message size connects front h.left
          ≡ some (c, sent))
  receiving_possible h connects front rest r started front_of =
      let i = Reach-InStep h r in
      let received =
        receive size connects h.left h.right front rest pos started i.of_right.sized
          (subst (Half size h.left h.right) front_of i.of_left) in
      (received.after, received.sent, received.runs)

  stream_long :
      (t : ConnectorState) (info : List ℕ)
      → is_init t ≡ true
      → (length info ≤ length (stream_at t info))
        × (has_qp t ≡ true → length info < length (stream_at t info))
  stream_long not_init info i = cc i
  stream_long init info i = (omega arith, λ q. cc q)
  stream_long rts info i =
      let l = length-append info (handshake_complete_msg ∷ []) in
      (omega (arith, l), λ q. omega (arith, l))
  stream_long connected info i =
      let l = length-append info (handshake_complete_msg ∷ []) in
      (omega (arith, l), λ q. omega (arith, l))

  -- A side does not wait for an info that came.
  not_waiting :
      (a b : RdmaConnector)
      → a.state ≡ init
      → a.tcp_open ≡ true
      → is_init b.state ≡ true
      → length b.local_info ≡ size
      → Half size a b []
      → ⊥
  not_waiting a b st live started sized h =
      let came : a.buffer ++ [] ≡ stream b =
        ap (λ s. got s b.local_info ++ (a.buffer ++ [])) (sym st) ∙ h.reads live in
      let short : length a.buffer < size = subst (λ s. Hungry s size a.buffer) st (h.hungry live) in
      omega (
        arith,
        short,
        sized,
        ap length came,
        length-append a.buffer [],
        (stream_long b.state b.local_info started).0,
      )

  -- Nor for the message of a side that has its queue pair.
  only_info :
      (a b : RdmaConnector)
      → a.state ≡ rts
      → a.tcp_open ≡ true
      → is_init b.state ≡ true
      → Half size a b []
      → has_qp b.state ≡ false
  only_info a b st live started h = elim (Bool-cases (has_qp b.state)) [
    | inr no_qp ↦ no_qp
    | inl qp ↦
        let empty : a.buffer ≡ [] = subst (λ s. Hungry s size a.buffer) st (h.hungry live) in
        let came : b.local_info ++ (a.buffer ++ []) ≡ stream b =
          ap (λ s. got s b.local_info ++ (a.buffer ++ [])) (sym st) ∙ h.reads live in
        absurd (
          omega (
            arith,
            ap length came,
            length-append b.local_info (a.buffer ++ []),
            length-append a.buffer [],
            ap length empty,
            (stream_long b.state b.local_info started).1 qp,
          ))
  ]

  init_only : (s : ConnectorState) → is_init s ≡ true → has_qp s ≡ false → s ≡ init
  init_only not_init i q = cc i
  init_only init i q = refl
  init_only rts i q = cc q
  init_only connected i q = cc q

  -- A side that was started and did not fail.
  abbrev pub IsWell : RdmaConnector → Type 0
  IsWell c = (is_init c.state ≡ true) × ((c.tcp_open ≡ true) ⊎ (c.state ≡ connected))

  settled :
      (s : ConnectorState) (a b : RdmaConnector)
      → a.state ≡ s
      → IsWell a
      → IsWell b
      → Half size a b []
      → Half size b a []
      → a.told ≡ true
  settled not_init a b st wa wb ha hb = cc (wa.0, st)
  settled connected a b st wa wb ha hb = (ha.final st).1
  settled init a b st (ia, inr done) wb ha hb = cc (done, st)
  settled init a b st (ia, inl live) wb ha hb =
      absurd (not_waiting a b st live wb.0 (hb.sized wb.0) ha)
  settled rts a b st (ia, inr done) wb ha hb = cc (done, st)
  settled rts a b st (ia, inl live) (ib, lb) ha hb =
      let waits = init_only b.state ib (only_info a b st live ib ha) in
      elim lb [
        | inr done ↦ cc (done, waits)
        | inl live_b ↦ absurd (not_waiting b a waits live_b ia (ha.sized ia) hb)
      ]

  -- Once both sides were started, neither failed and nothing is on its way, both are told that they are
  -- connected.
  pub settled_told :
      (h : Handshake)
      → Reach size h
      → IsWell h.left
      → IsWell h.right
      → h.to_left ≡ []
      → h.to_right ≡ []
      → (h.left.told ≡ true) × (h.right.told ≡ true)
  settled_told h r wl wr none_left none_right =
      let i = Reach-InStep h r in
      let left = subst (Half size h.left h.right) none_left i.of_left in
      let right = subst (Half size h.right h.left) none_right i.of_right in
      (
        settled h.left.state h.left h.right refl wl wr left right,
        settled h.right.state h.right h.left refl wr wl right left,
      )

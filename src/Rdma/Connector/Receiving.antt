-- ===== src/Rdma/Connector/Receiving.antt =====
-- One side of the handshake of src/network/rdma/RdmaConnector.cc takes in what arrives.
use atc2025_poby.Base.{
  ℕ, ◌<◌, ◌≡◌, ◌≢◌, refl, sym, ap, ap₂, subst, ◌∙◌, inl, inr, Bool, true, false, some, List, [],
  ◌∷◌, ◌++◌, append_assoc, append-nil, arith, ltb, ◌==◌, if_true, if_false, ◌>>=◌, assert,
  Bool-cases, length, length-append, take, drop, ltb→lt, ltb→le, append-injective,
}
use atc2025_poby.Rdma.Connector.{
  ConnectorState, not_init, init, rts, connected, RdmaConnector, handshake_complete_msg, complete,
  with_sent, handshake_at, handshake_long, handshake_qp, on_tcp_message,
}
use atc2025_poby.Rdma.Connector.Halves.{
  Received, kept, Half, info_first, is_init, has_qp, stream_at, stream, got, Hungry,
}

module _ (size : ℕ) where
  -- What follows the info is the message that the handshake is complete.
  message_next :
      (s : ConnectorState) (info : List ℕ) (x : ℕ) (r chan : List ℕ)
      → info ++ ((x ∷ r) ++ chan) ≡ stream_at s info
      → (has_qp s ≡ true) × (x ≡ handshake_complete_msg) × (r ++ chan ≡ [])
  message_next not_init info x r chan e =
      absurd (omega (arith, length-append info (x ∷ r ++ chan), ap length e))
  message_next init info x r chan e =
      absurd (omega (arith, length-append info (x ∷ r ++ chan), ap length e))
  message_next rts info x r chan e =
      let parts = append-injective info info (x ∷ r ++ chan) (handshake_complete_msg ∷ []) refl e in
      (refl, cc parts.1, cc parts.1)
  message_next connected info x r chan e =
      let parts = append-injective info info (x ∷ r ++ chan) (handshake_complete_msg ∷ []) refl e in
      (refl, cc parts.1, cc parts.1)

  -- The second half of `handshakeQp`.
  record Completed (c b : RdmaConnector) (chan : List ℕ) : Type 0 where
    after : RdmaConnector
    runs : complete c c.buffer ≡ some after
    half : Half size after b chan
    same : after.local_info ≡ c.local_info
    more : stream after ≡ c.local_info ++ handshake_complete_msg ∷ []
    inits : is_init after.state ≡ true
    qps : has_qp after.state ≡ true

  completes :
      (c b : RdmaConnector) (chan buf : List ℕ)
      → c.buffer ≡ buf
      → c.state ≡ rts
      → c.told ≡ false
      → length c.local_info ≡ size
      → (c.remote ≡ some b.local_info) × (is_init b.state ≡ true) × (c.made ≡ true)
      → b.local_info ++ (buf ++ chan) ≡ stream b
      → Completed c b chan
  completes c b chan [] empty st untold sized agreed reads = record {
    after = c;
    runs = ap (complete c) empty;
    half = record {
      reads = λ live. ap₂ (λ s l. got s b.local_info ++ (l ++ chan)) st empty ∙ reads;
      hungry = λ live. subst (λ s. Hungry s size c.buffer) (sym st) empty;
      sized = λ i. sized;
      agreed = λ q. agreed;
      final = λ done. cc (done, st);
      told_late = λ told. cc (told, untold);
    };
    same = refl;
    more = ap (λ s. stream_at s c.local_info) st;
    inits = ap is_init st;
    qps = ap has_qp st;
  }
  completes c b chan (x ∷ r) front st untold sized agreed reads =
      let (qp, message, none_left) = message_next b.state b.local_info x r chan reads in
      record {
        after = record c { buffer = r; state = connected; told = true; tcp_open = false };
        runs =
            ap (complete c) front
            ∙ ap
                (λ k. assert (k == handshake_complete_msg) (
                  some (record c { buffer = r; state = connected; told = true; tcp_open = false })))
                message;
        half = record {
          reads = λ live. cc;
          hungry = λ live. cc;
          sized = λ i. sized;
          agreed = λ q. agreed;
          final = λ done. (qp, refl);
          told_late = λ told. refl;
        };
        same = refl;
        more = refl;
        inits = refl;
        qps = refl;
      }

  untold :
      (a b : RdmaConnector) (chan : List ℕ) (s : ConnectorState)
      → Half size a b chan
      → a.state ≡ s
      → s ≢ connected
      → a.told ≡ false
  untold a b chan s h st other = elim (Bool-cases a.told) [
    | inr no_call ↦ no_call
    | inl call ↦ absurd (other (sym st ∙ h.told_late call))
  ]

  -- The info has come whole.
  info_read :
      (connects : Bool) (a b : RdmaConnector) (front chan : List ℕ)
      → a.state ≡ init
      → a.tcp_open ≡ true
      → Half size a b (front ++ chan)
      → (is_init b.state ≡ true)
        × (take size (a.buffer ++ front) ≡ b.local_info)
        × (b.local_info ++ (drop size (a.buffer ++ front) ++ chan) ≡ stream b)
      → on_tcp_message size connects front a
        ≡ handshake_long size connects (record a { buffer = a.buffer ++ front })
      → Received size connects a b front chan
  info_read false a b front chan st live h first runs = record {
    after = record a { buffer = drop size (a.buffer ++ front); tcp_open = false };
    sent = [];
    runs = runs;
    half = record {
      reads = λ l. cc;
      hungry = λ l. cc;
      sized = h.sized;
      agreed = h.agreed;
      final = h.final;
      told_late = h.told_late;
    };
    same = refl;
    more = sym (append-nil (stream a));
    inits = λ i. i;
    qps = λ q. q;
  }
  info_read true a b front chan st live h first runs =
      let buf = a.buffer ++ front in
      let c : RdmaConnector = record a {
        buffer = drop size buf;
        remote = some (take size buf);
        state = rts;
        made = true;
      } in
      let done =
        completes c b chan (drop size buf) refl refl
          (untold a b (front ++ chan) init h st (λ e. cc e)) (h.sized (ap is_init st))
          (ap some first.1, first.0, refl) first.2 in
      record {
        after = done.after;
        sent = handshake_complete_msg ∷ [];
        runs = runs ∙ ap (λ o. o >>= with_sent (handshake_complete_msg ∷ [])) done.runs;
        half = done.half;
        same = done.same;
        more =
            done.more ∙ ap (λ s. stream_at s a.local_info ++ handshake_complete_msg ∷ []) (sym st);
        inits = λ i. done.inits;
        qps = λ q. done.qps;
      }

  receive_init :
      (connects : Bool) (a b : RdmaConnector) (front chan : List ℕ)
      → 0 < size
      → a.state ≡ init
      → a.tcp_open ≡ true
      → (is_init b.state ≡ true → length b.local_info ≡ size)
      → on_tcp_message size connects front a
        ≡ handshake_at init size connects (record a { buffer = a.buffer ++ front })
      → Half size a b (front ++ chan)
      → Received size connects a b front chan
  receive_init connects a b front chan pos st live sized_b runs h =
      let buf = a.buffer ++ front in
      let reads : buf ++ chan ≡ stream b =
        append_assoc a.buffer front chan
        ∙ ap (λ s. got s b.local_info ++ (a.buffer ++ (front ++ chan))) (sym st)
        ∙ h.reads live in
      elim (Bool-cases (ltb (length buf) size)) [
        | inl short ↦
            kept size connects a b front chan (runs ∙ if_true _ _ _ short) h
              (λ l. subst (λ s. Hungry s size buf) (sym st) (ltb→lt _ _ short))
        | inr long ↦
            info_read connects a b front chan st live h
              (info_first size b.state b.local_info buf chan pos (ltb→le _ _ long) sized_b reads)
              (runs ∙ if_false _ _ _ long)
      ]

  receive_open :
      (connects : Bool) (a b : RdmaConnector) (front chan : List ℕ) (s : ConnectorState)
      → 0 < size
      → a.state ≡ s
      → is_init s ≡ true
      → a.tcp_open ≡ true
      → (is_init b.state ≡ true → length b.local_info ≡ size)
      → on_tcp_message size connects front a
        ≡ handshake_at s size connects (record a { buffer = a.buffer ++ front })
      → Half size a b (front ++ chan)
      → Received size connects a b front chan
  receive_open connects a b front chan not_init pos st started live sized_b runs h = cc
  receive_open connects a b front chan init pos st started live sized_b runs h =
      receive_init connects a b front chan pos st live sized_b runs h
  receive_open connects a b front chan connected pos st started live sized_b runs h =
      kept size connects a b front chan runs h
        (λ l. subst (λ s. Hungry s size (a.buffer ++ front)) (sym st) tt)
  receive_open connects a b front chan rts pos st started live sized_b runs h =
      let c = record a { buffer = a.buffer ++ front } in
      let reads : b.local_info ++ ((a.buffer ++ front) ++ chan) ≡ stream b =
        ap (λ l. b.local_info ++ l) (append_assoc a.buffer front chan)
        ∙ ap (λ s. got s b.local_info ++ (a.buffer ++ (front ++ chan))) (sym st)
        ∙ h.reads live in
      let done =
        completes c b chan (a.buffer ++ front) refl st
          (untold a b (front ++ chan) rts h st (λ e. cc e)) (h.sized (ap is_init st))
          (h.agreed (ap has_qp st)) reads in
      record {
        after = done.after;
        sent = [];
        runs = runs ∙ ap (λ o. o >>= with_sent []) done.runs;
        half = done.half;
        same = done.same;
        more =
            done.more ∙ ap (λ s. stream_at s a.local_info) (sym st) ∙ sym (append-nil (stream a));
        inits = λ i. done.inits;
        qps = λ q. done.qps;
      }

  -- Bytes are taken in without a fault, and both sides stay in step.
  pub receive :
      (connects : Bool) (a b : RdmaConnector) (front chan : List ℕ)
      → 0 < size
      → is_init a.state ≡ true
      → (is_init b.state ≡ true → length b.local_info ≡ size)
      → Half size a b (front ++ chan)
      → Received size connects a b front chan
  unfolding on_tcp_message handshake_qp
  receive connects a b front chan pos started sized_b h = elim (Bool-cases a.tcp_open) [
    | inl live ↦
        receive_open connects a b front chan a.state pos refl started live sized_b
          (if_true a.tcp_open _ _ live) h
    | inr shut ↦
        kept size connects a b front chan (if_false a.tcp_open _ _ shut) h (λ l. cc (l, shut))
  ]

-- ===== src/Rdma/Connector/Halves.antt =====
-- What one side of the handshake of src/network/rdma/RdmaConnector.cc has read of what the other sent.
use atc2025_poby.Base.{
  ℕ, ◌≤◌, ◌<◌, ◌≡◌, refl, sym, ap, ◌∙◌, Bool, true, false, some, List, [], ◌∷◌, ◌++◌, append_assoc,
  append-nil, arith, length, length-append, take, drop, take-append-drop, length-take,
  append-injective,
}
use atc2025_poby.Rdma.Connector.{
  ConnectorState, not_init, init, rts, connected, RdmaConnector, handshake_complete_msg,
  on_tcp_message,
}

abbrev pub is_init : ConnectorState → Bool
is_init not_init = false
is_init _ = true

-- The queue pair is connected.
abbrev pub has_qp : ConnectorState → Bool
has_qp rts = true
has_qp connected = true
has_qp _ = false

-- What a side has sent, with its info.
abbrev pub stream_at : ConnectorState → List ℕ → List ℕ
stream_at not_init info = []
stream_at init info = info
stream_at _ info = info ++ handshake_complete_msg ∷ []

abbrev pub stream : RdmaConnector → List ℕ
stream c = stream_at c.state c.local_info

-- What it has taken from its buffer, with the info of the other side.
abbrev pub got : ConnectorState → List ℕ → List ℕ
got rts info = info
got connected info = info ++ handshake_complete_msg ∷ []
got _ info = []

-- It does not leave in its buffer what it waits for.
abbrev pub Hungry : ConnectorState → ℕ → List ℕ → Type 0
Hungry init size buffer = length buffer < size
Hungry rts size buffer = buffer ≡ []
Hungry not_init size buffer = buffer ≡ []
Hungry connected size buffer = Unit {0}

module _ (size : ℕ) where
  -- The side `a`, of which `b` is the other, and which `chan` is on its way to.
  pub record Half (a b : RdmaConnector) (chan : List ℕ) : Type 0 where
    pub reads : a.tcp_open ≡ true → got a.state b.local_info ++ (a.buffer ++ chan) ≡ stream b
    pub hungry : a.tcp_open ≡ true → Hungry a.state size a.buffer
    pub sized : is_init a.state ≡ true → length a.local_info ≡ size
    pub agreed :
        has_qp a.state ≡ true
        → (a.remote ≡ some b.local_info) × (is_init b.state ≡ true) × (a.made ≡ true)
    pub final : a.state ≡ connected → (has_qp b.state ≡ true) × (a.told ≡ true)
    pub told_late : a.told ≡ true → a.state ≡ connected

  -- The other side goes on, and sends.
  pub Half-sender :
      (a b b' : RdmaConnector) (chan sent : List ℕ)
      → Half a b chan
      → b'.local_info ≡ b.local_info
      → stream b' ≡ stream b ++ sent
      → (is_init b.state ≡ true → is_init b'.state ≡ true)
      → (has_qp b.state ≡ true → has_qp b'.state ≡ true)
      → Half a b' (chan ++ sent)
  Half-sender a b b' chan sent h same more inits qps = record {
    reads = λ live.
        ap (λ i. got a.state i ++ (a.buffer ++ (chan ++ sent))) same
        ∙ ap (λ l. got a.state b.local_info ++ l) (sym (append_assoc a.buffer chan sent))
        ∙ sym (append_assoc (got a.state b.local_info) (a.buffer ++ chan) sent)
        ∙ ap (λ l. l ++ sent) (h.reads live)
        ∙ sym more;
    hungry = h.hungry;
    sized = h.sized;
    agreed = λ qp.
        let (remote, started, made) = h.agreed qp in
        (remote ∙ ap some (sym same), inits started, made);
    final = λ done. let (qp, told) = h.final done in (qps qp, told);
    told_late = h.told_late;
  }

  -- What a side does with bytes that arrive.
  pub record Received (connects : Bool) (a b : RdmaConnector) (front chan : List ℕ) : Type 0 where
    pub after : RdmaConnector
    pub sent : List ℕ
    pub runs : on_tcp_message size connects front a ≡ some (after, sent)
    pub half : Half after b chan
    pub same : after.local_info ≡ a.local_info
    pub more : stream after ≡ stream a ++ sent
    pub inits : is_init a.state ≡ true → is_init after.state ≡ true
    pub qps : has_qp a.state ≡ true → has_qp after.state ≡ true

  -- Where the state is not looked at, bytes are only kept.
  pub kept :
      (connects : Bool) (a b : RdmaConnector) (front chan : List ℕ)
      → on_tcp_message size connects front a ≡ some (record a { buffer = a.buffer ++ front }, [])
      → Half a b (front ++ chan)
      → (a.tcp_open ≡ true → Hungry a.state size (a.buffer ++ front))
      → Received connects a b front chan
  kept connects a b front chan runs h hungry = record {
    after = record a { buffer = a.buffer ++ front };
    sent = [];
    runs = runs;
    half = record {
      reads = λ live.
          ap (λ l. got a.state b.local_info ++ l) (append_assoc a.buffer front chan) ∙ h.reads live;
      hungry = hungry;
      sized = h.sized;
      agreed = h.agreed;
      final = h.final;
      told_late = h.told_late;
    };
    same = refl;
    more = sym (append-nil (stream a));
    inits = λ i. i;
    qps = λ q. q;
  }

  info_at :
      (s : ConnectorState) (info buf chan tail : List ℕ)
      → size ≤ length buf
      → length info ≡ size
      → stream_at s info ≡ info ++ tail
      → buf ++ chan ≡ stream_at s info
      → (◌≡◌ {A = Bool} true true)
        × (take size buf ≡ info)
        × (info ++ (drop size buf ++ chan) ≡ stream_at s info)
  info_at s info buf chan tail long sized shape e =
      let cut = take-append-drop size buf in
      let whole : take size buf ++ (drop size buf ++ chan) ≡ stream_at s info =
        sym (append_assoc (take size buf) (drop size buf) chan) ∙ ap (λ l. l ++ chan) cut ∙ e in
      let parts =
        append-injective (take size buf) info (drop size buf ++ chan) tail
          (omega (arith, length-take size buf, long, sized)) (whole ∙ shape) in
      (refl, parts.0, ap (λ l. l ++ (drop size buf ++ chan)) (sym parts.0) ∙ whole)

  -- The front of what the other side sent is its info.
  pub info_first :
      (s : ConnectorState) (info buf chan : List ℕ)
      → 0 < size
      → size ≤ length buf
      → (is_init s ≡ true → length info ≡ size)
      → buf ++ chan ≡ stream_at s info
      → (is_init s ≡ true)
        × (take size buf ≡ info)
        × (info ++ (drop size buf ++ chan) ≡ stream_at s info)
  info_first not_init info buf chan pos long sized e =
      absurd (omega (arith, pos, long, length-append buf chan, ap length e))
  info_first init info buf chan pos long sized e =
      info_at init info buf chan [] long (sized refl) (sym (append-nil info)) e
  info_first rts info buf chan pos long sized e =
      info_at rts info buf chan (handshake_complete_msg ∷ []) long (sized refl) refl e
  info_first connected info buf chan pos long sized e =
      info_at connected info buf chan (handshake_complete_msg ∷ []) long (sized refl) refl e

-- ===== src/Content/Session/Delivery.antt =====
-- What a session delivers.
use atc2025_poby.Base.{
  ap₂, ℕ, ◌+◌, ◌<◌, ◌≡◌, ◌≢◌, refl, sym, ap, subst, subst₂, ◌∙◌, inl, inr, Bool, true, some, List,
  [], ◌∷◌, ◌++◌, String, arith, length, length-append, append-injective, some_eq, List-cases,
}
use atc2025_poby.Memory.{Memory, load, store, load-store_self}
use atc2025_poby.Wire.Codec.{Codec}
use atc2025_poby.Rdma.Connection.{RdmaConnection, SendWr, Verbs}
use atc2025_poby.BlobPool.{BlobPool, acquire_blob}
use atc2025_poby.Content.Messages.{GetLayerRequest, GetLayerResponse}
use atc2025_poby.Content.Client.{ContentClient}
use atc2025_poby.Content.Client
use atc2025_poby.Content.Client.Sending.{Carry}
use atc2025_poby.Content.Server.{FileSystem}
use atc2025_poby.Content.Server
use atc2025_poby.Content.Session.{Session, Step, fetch, answer, Reach, here, next, bytes_of}
use atc2025_poby.Content.Session.Invariant.Registry.{Setting, Listed}
use atc2025_poby.Content.Session.Invariant.{Inv}
use atc2025_poby.Content.Session.Invariant.Fetch.{queued, fetch-Inv}
use atc2025_poby.Content.Session.Invariant.Answer.{server-Reply, take_in}

head_eq : (x y : SendWr) → x ∷ [] ≡ y ∷ [] → x ≡ y
head_eq x y h = cc

module _ (v : Verbs) (requests : Codec GetLayerRequest) (responses : Codec GetLayerResponse)
    (fs : FileSystem) (layer_is_compressed : Bool) (registry_path : String) (g : Setting)
    (accepting : (q : List SendWr) → length q < g.bufs → v.send_accepted q ≡ true)
    (catalog : String → String → Bool)
    (listed : (layer image : String)
      → catalog layer image ≡ true
      → Listed v requests responses fs layer_is_compressed registry_path g layer image) where
  -- The session has a connection, and is in order with some requests in flight.
  abbrev pub Running : Session → Type 0
  Running s =
      (conn : RdmaConnection) × (flight : List GetLayerRequest) × Inv v requests responses fs
        layer_is_compressed registry_path g s conn flight

  answered :
      (s : Session) (conn served : RdmaConnection) (wr reply : SendWr) (rest : List SendWr)
      (server_mem mem : Memory) (server_buf buf : ℕ) (c : ContentClient) (p : BlobPool)
      (flight : List GetLayerRequest)
      → Inv v requests responses fs layer_is_compressed registry_path g s conn flight
      → conn.sq ≡ wr ∷ rest
      → load server_mem server_buf (length wr.payload) ≡ wr.payload
      → Server.on_recv_success v requests responses fs layer_is_compressed registry_path
          (record s.server { mem = server_mem })
          server_buf
          (length wr.payload)
        ≡ some served
      → served.sq ≡ s.server.sq ++ reply ∷ []
      → load mem buf (length (bytes_of served reply)) ≡ bytes_of served reply
      → Client.on_recv_success v requests responses
          (record s.client { conn = some (record conn { mem = mem; sq = rest }) })
          s.pool
          (record conn { mem = mem; sq = rest })
          buf
          (length (bytes_of served reply))
        ≡ some (c, p)
      → Running (record {
        client = c;
        pool = p;
        server = record served { sq = s.server.sq };
        fetched = s.fetched;
      })
  answered s conn served wr reply rest server_mem mem server_buf buf c p [] i sq arrived ran posted
        landed took =
      absurd (subst (λ q. Carry v requests responses q []) sq i.steady.carried)
  answered s conn served wr reply rest server_mem mem server_buf buf c p (r ∷ fl) i sq arrived ran
        posted landed took =
      let y =
        server-Reply v requests responses fs layer_is_compressed registry_path g accepting s conn r
          fl wr rest server_mem server_buf i.steady sq arrived in
      let e1 : y.served ≡ served = some_eq (sym y.ran ∙ ran) in
      let e2 : y.reply ≡ reply =
        head_eq _ _
          (append-injective s.server.sq s.server.sq (y.reply ∷ []) (reply ∷ []) refl
            (sym y.posted ∙ ap (λ (d : RdmaConnection). d.sq) e1 ∙ posted)).1 in
      let sent : bytes_of served reply ≡ y.reply.payload = sym (ap₂ bytes_of e1 e2) ∙ y.kept in
      let (c', conn', fl', run, j, _) =
        take_in v requests responses fs layer_is_compressed registry_path g accepting s conn r fl wr
          rest server_mem mem server_buf buf i.steady sq y
          (subst (λ (l : List ℕ). load mem buf (length l) ≡ l) sent landed) in
      let e3 = some_eq (
        sym run
        ∙ subst
            (λ (l : List ℕ).
              Client.on_recv_success v requests responses
                (record s.client { conn = some (record conn { mem = mem; sq = rest }) }) s.pool
                (record conn { mem = mem; sq = rest }) buf (length l)
              ≡ some (c, p))
            sent took) in
      (
        conn',
        fl',
        subst₂
            (λ (d : RdmaConnection) (x : ContentClient × BlobPool).
              Inv v requests responses fs layer_is_compressed registry_path g
                (record {
                  client = x.0;
                  pool = x.1;
                  server = record d { sq = s.server.sq };
                  fetched = s.fetched;
                })
                conn' fl')
            e1 e3 j,
      )

  Step-Running :
      {s t : Session}
      → Step v requests responses fs layer_is_compressed registry_path g.size g.server_size catalog
          s t
      → Running s
      → Running t
  Step-Running (fetch s layer image c allowed new e) (conn, fl, i) =
      let (c', conn', fl', e', j) =
        fetch-Inv v requests responses fs layer_is_compressed registry_path g accepting s conn fl
          layer image i (listed layer image allowed) new in
      (
        conn',
        fl',
        subst
            (λ d.
              Inv v requests responses fs layer_is_compressed registry_path g
                (record (queued s layer image) { client = d }) conn' fl')
            (some_eq (sym e' ∙ e)) j,
      )
  Step-Running
        (answer s conn served wr reply rest server_mem mem server_buf buf c p hc sq asked_fits
          arrived ran posted answer_fits landed took)
        (conn', fl, i) =
      let same : conn' ≡ conn = some_eq (sym i.steady.connected ∙ hc) in
      answered s conn served wr reply rest server_mem mem server_buf buf c p fl
        (subst (λ d. Inv v requests responses fs layer_is_compressed registry_path g s d fl) same i)
        sq arrived ran posted landed took

  pub Reach-Running :
      {s t : Session}
      → Running s
      → Reach v requests responses fs layer_is_compressed registry_path g.size g.server_size catalog
          s t
      → Running t
  Reach-Running h here = h
  Reach-Running h (next r st) = Step-Running st (Reach-Running h r)

  answer_next :
      (t : Session) (conn : RdmaConnection) (fl : List GetLayerRequest)
      → Inv v requests responses fs layer_is_compressed registry_path g t conn fl
      → conn.sq ≢ []
      → (u : Session) × Step v requests responses fs layer_is_compressed registry_path g.size
          g.server_size catalog t u
        × (length u.client.submitted ≡ length t.client.submitted + 1)
  answer_next t conn [] i busy = elim (List-cases conn.sq) [
    | inl e ↦ absurd (busy e)
    | inr (wr, rest, e) ↦ absurd (subst (λ q. Carry v requests responses q []) e i.steady.carried)
  ]
  answer_next t conn (r ∷ fl) i busy = elim (List-cases conn.sq) [
    | inl e ↦ absurd (busy e)
    | inr (wr, rest, e) ↦
        let server_mem = store (λ a. 0) 0 wr.payload in
        let y =
          server-Reply v requests responses fs layer_is_compressed registry_path g accepting t conn
            r fl wr rest server_mem 0 i.steady e (load-store_self (λ a. 0) 0 wr.payload) in
        let sent = bytes_of y.served y.reply in
        let pool : BlobPool = (acquire_blob t.pool (length (g.content r.layer r.index))).1 in
        let mem = store (λ a. 0) 0 sent in
        let landed = load-store_self (λ a. 0) 0 sent in
        let (c', conn', fl', run, j, kept) =
          take_in v requests responses fs layer_is_compressed registry_path g accepting t conn r fl
            wr rest server_mem mem 0 0 i.steady e y
            (subst (λ (l : List ℕ). load mem 0 (length l) ≡ l) y.kept landed) in
        (
          _,
          answer t conn y.served wr y.reply rest server_mem mem 0 0 c' _ i.steady.connected e
              y.request_fits (load-store_self (λ a. 0) 0 wr.payload) y.ran y.posted
              (omega (arith, y.answer_fits, ap length y.kept)) landed
              (subst
                (λ (l : List ℕ).
                  Client.on_recv_success v requests responses
                    (record t.client { conn = some (record conn { mem = mem; sq = rest }) }) t.pool
                    (record conn { mem = mem; sq = rest }) 0 (length l)
                  ≡ some (c', pool))
                (sym y.kept) run),
          omega (arith, ap length kept, length-append t.client.submitted (_ ∷ [])),
        )
  ]

  -- Where the registry has the layers that are fetched, each message fits the send and receive
  -- buffers, the send queues take as many sends as the client has send buffers, and each answer
  -- leaves the registry before its next request is handled: while a request is in flight in a
  -- session that a running one reaches, the registry can answer it and the client can take the
  -- answer in.
  pub answer_possible :
      (s t : Session) (conn : RdmaConnection)
      → Running s
      → Reach v requests responses fs layer_is_compressed registry_path g.size g.server_size catalog
          s t
      → t.client.conn ≡ some conn
      → conn.sq ≢ []
      → (u : Session) × Step v requests responses fs layer_is_compressed registry_path g.size
          g.server_size catalog t u
        × (length u.client.submitted ≡ length t.client.submitted + 1)
  answer_possible s t conn h r hc busy =
      let (conn', fl, i) = Reach-Running h r in
      answer_next t conn fl
        (subst (λ d. Inv v requests responses fs layer_is_compressed registry_path g t d fl)
          (some_eq (sym i.steady.connected ∙ hc)) i)
        busy

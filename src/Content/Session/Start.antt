-- ===== src/Content/Session/Start.antt =====
-- How a session begins: layers are fetched, and then the connection comes up.
use atc2025_poby.Base.{
  ◌≤◌, ◌<◌, ◌≡◌, ◌≢◌, refl, sym, ap, subst, Bool, true, false, some, List, [], ◌∷◌, String, arith,
  length, length-append, All,
}
use atc2025_poby.Wire.Codec.{Codec}
use atc2025_poby.Rdma.Connection.{RdmaConnection, SendWr, Verbs, bufpair_at, is_free_send_buf_empty}
use atc2025_poby.BlobPool.{BlobPool}
use atc2025_poby.BlobPool.Supply.{Suffices}
use atc2025_poby.Content.Messages.{GetLayerRequest, GetLayerResponse}
use atc2025_poby.Content.Client.{
  ContentClient, new_client, enqueue_request, try_send_requests, on_connected,
}
use atc2025_poby.Content.Client.Sending.{HasRoom, Carry}
use atc2025_poby.Content.Order.{Key, asked, got}
use atc2025_poby.Content.Order.Whole.{InOrder}
use atc2025_poby.Content.Server.{FileSystem}
use atc2025_poby.Content.Session.{Session, known, first_request}
use atc2025_poby.Content.Session.Invariant.Registry.{Setting, Listed}
use atc2025_poby.Content.Session.Invariant.{Steady}
use atc2025_poby.Content.Session.Invariant.Settle.{settle}
use atc2025_poby.Content.Session.Invariant.Fetch.{queued, queued-Steady}
use atc2025_poby.Content.Session.Delivery.{Running}

abbrev pub fetch_all : Session → List Key → Session
fetch_all s [] = s
fetch_all s (k ∷ ks) = fetch_all (queued s k.layer k.image) ks

-- The keys are in the catalog, and each is new when its turn comes.
abbrev pub AreNew : (String → String → Bool) → List Key → List Key → Type 0
AreNew catalog fetched [] = Unit {0}
AreNew catalog fetched (k ∷ ks) =
    (catalog k.layer k.image ≡ true) × (known k fetched ≡ false) × AreNew catalog (k ∷ fetched) ks

abbrev with_conn : Session → RdmaConnection → Session
with_conn s conn = record s { client = record s.client { conn = some conn } }

fetch_all-with_conn :
    (s : Session) (conn : RdmaConnection) (ks : List Key)
    → fetch_all (with_conn s conn) ks ≡ with_conn (fetch_all s ks) conn
unfolding enqueue_request
fetch_all-with_conn s conn [] = refl
fetch_all-with_conn s conn (k ∷ ks) = fetch_all-with_conn (queued s k.layer k.image) conn ks

fetch_all-not-nil :
    (s : Session) (ks : List Key)
    → s.client.unsend_reqs ≢ []
    → (fetch_all s ks).client.unsend_reqs ≢ []
unfolding enqueue_request
fetch_all-not-nil s [] h = h
fetch_all-not-nil s (k ∷ ks) h = fetch_all-not-nil (queued s k.layer k.image) ks (λ e. absurd (
    omega (
      arith,
      ap length e,
      length-append s.client.unsend_reqs (first_request k.layer k.image ∷ []),
    )))

module _ (v : Verbs) (requests : Codec GetLayerRequest) (responses : Codec GetLayerResponse)
    (fs : FileSystem) (layer_is_compressed : Bool) (registry_path : String) (g : Setting)
    (accepting : (q : List SendWr) → length q < g.bufs → v.send_accepted q ≡ true)
    (catalog : String → String → Bool)
    (listed : (layer image : String)
      → catalog layer image ≡ true
      → Listed v requests responses fs layer_is_compressed registry_path g layer image) where
  fetch_all-Steady :
      (s : Session) (conn : RdmaConnection) (ks : List Key)
      → AreNew catalog s.fetched ks
      → Steady v requests responses fs layer_is_compressed registry_path g s conn []
      → Steady v requests responses fs layer_is_compressed registry_path g (fetch_all s ks) conn []
  unfolding enqueue_request
  fetch_all-Steady s conn [] n i = i
  fetch_all-Steady s conn (k ∷ ks) n i = fetch_all-Steady (queued s k.layer k.image) conn ks n.2 (
      queued-Steady v requests responses fs layer_is_compressed registry_path g accepting s conn []
        k.layer k.image i (listed k.layer k.image n.0) n.1)

  -- The two ends before anything is sent.
  pub record Fresh (conn server : RdmaConnection) (pool : BlobPool) : Type 0 where
    pub unused : conn.sq ≡ []
    pub room : HasRoom v requests responses g.size conn
    pub bufs : length conn.free_bufpairs ≡ g.bufs
    pub some_buf : 0 < g.bufs
    pub blobs : Suffices g.limit pool
    pub server_room :
        All (λ id. g.server_size ≤ (bufpair_at server id).send_cap) server.free_bufpairs
    pub server_unused : server.sq ≡ []
    pub server_free : 0 < length server.free_bufpairs

  abbrev pub blank : BlobPool → RdmaConnection → Session
  blank pool server = record { client = new_client; pool = pool; server = server; fetched = [] }

  blank-Steady :
      (conn server : RdmaConnection) (pool : BlobPool)
      → Fresh conn server pool
      → Steady v requests responses fs layer_is_compressed registry_path g
          (with_conn (blank pool server) conn)
          conn
          []
  unfolding asked got InOrder
  blank-Steady conn server pool f = record {
    connected = refl;
    carried = subst (λ q. Carry v requests responses q []) (sym f.unused) tt;
    counted = refl;
    room = f.room;
    room_back = tt;
    bufs = omega (arith, f.bufs);
    listed = tt;
    ordered = λ k. (refl, refl);
    genuine = tt;
    blobs = f.blobs;
    server_room = f.server_room;
    server_idle = f.server_unused;
    server_free = f.server_free;
  }

  not_asserted :
      (s : Session) (conn : RdmaConnection) (c' : ContentClient)
      → s.client.unsend_reqs ≢ []
      → conn.free_bufpairs ≢ []
      → try_send_requests v requests responses (with_conn s conn).client ≡ some c'
      → on_connected v requests responses s.client conn ≡ some c'
  unfolding on_connected is_free_send_buf_empty
  not_asserted s conn c' busy free e = ground (arith, e)

  pub on_connected-Running :
      (conn server : RdmaConnection) (pool : BlobPool) (k : Key) (ks : List Key)
      → Fresh conn server pool
      → AreNew catalog [] (k ∷ ks)
      → let s = fetch_all (blank pool server) (k ∷ ks) in
        (c' : ContentClient) × (on_connected v requests responses s.client conn ≡ some c')
        × Running v requests responses fs layer_is_compressed registry_path g accepting catalog
            listed
            (record s { client = c' })
  unfolding enqueue_request
  on_connected-Running conn server pool k ks f new =
      let s = fetch_all (blank pool server) (k ∷ ks) in
      let steady =
        subst (λ t. Steady v requests responses fs layer_is_compressed registry_path g t conn [])
          (fetch_all-with_conn (blank pool server) conn (k ∷ ks))
          (fetch_all-Steady (with_conn (blank pool server) conn) conn (k ∷ ks) new
            (blank-Steady conn server pool f)) in
      let (c', conn', fl, e, i, _) =
        settle v requests responses fs layer_is_compressed registry_path g accepting
          (with_conn s conn) conn [] steady in
      let busy = fetch_all-not-nil (queued (blank pool server) k.layer k.image) ks (λ h. cc h) in
      (
        c',
        not_asserted s conn c' busy (λ h. absurd (omega (arith, ap length h, f.bufs, f.some_buf)))
            e,
        (conn', fl, i),
      )

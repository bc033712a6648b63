-- ===== src/Content/Session/Invariant/Fetch.antt =====
-- A new layer within a session.
use atc2025_poby.Base.{
  ◌<◌, length, ℕ, ◌≡◌, sym, ap, subst, subst₂, ◌∙◌, inl, inr, Bool, true, false, some, List, [],
  ◌∷◌, ◌++◌, append_assoc, append-nil, String, arith, All, All-append, eq_iff, Bool-cases,
}
use atc2025_poby.Wire.Codec.{Codec}
use atc2025_poby.Rdma.Connection.{RdmaConnection, SendWr, Verbs}
use atc2025_poby.Content.Messages.{GetLayerRequest, GetLayerResponse}
use atc2025_poby.Content.Client.{ContentClient, enqueue_request, try_send_requests}
use atc2025_poby.Content.Order.{Key, names, asked, got, asked-append}
use atc2025_poby.Content.Order.Whole.{InOrder, fetched-InOrder}
use atc2025_poby.Content.Server.{FileSystem}
use atc2025_poby.Content.Session.{Session, known, first_request}
use atc2025_poby.Content.Session.Invariant.Registry.{Setting, Listed}
use atc2025_poby.Content.Session.Invariant.{Steady, Inv}
use atc2025_poby.Content.Session.Invariant.Settle.{settle}

abbrev pub key : String → String → Key
key layer image = record { layer = layer; image = image }

-- The session with the first request of a layer put at the end of the queue.
abbrev pub queued : Session → String → String → Session
queued s layer image = record s {
  client = enqueue_request s.client (first_request layer image);
  fetched = key layer image ∷ s.fetched;
}

names-eq : (k : Key) (layer image : String) → names k layer image ≡ true → key layer image ≡ k
names-eq k layer image h = ground (arith, eq_iff layer k.layer, eq_iff image k.image)

queue-InOrder :
    (k : Key) (layer image : String) (fetched : List Key) (n : ℕ) (ds : List ℕ)
    (q : List GetLayerRequest)
    → known (key layer image) fetched ≡ false
    → InOrder (known k fetched) n ds (asked k q)
    → InOrder
        (known k (key layer image ∷ fetched))
        n
        ds
        (asked k (q ++ first_request layer image ∷ []))
unfolding asked
queue-InOrder k layer image fetched n ds q new h = elim (Bool-cases (names k layer image)) [
  | inl same ↦
      let e : known k fetched ≡ false =
        subst (λ j. known j fetched ≡ false) (names-eq k layer image same) new in
      let a : asked k (q ++ first_request layer image ∷ []) ≡ asked k q ++ 0 ∷ [] =
        asked-append k q (first_request layer image ∷ []) ∙ ap (◌++◌ (asked k q)) (ground arith) in
      let b : known k (key layer image ∷ fetched) ≡ true = ground arith in
      subst₂ (λ f l. InOrder f n ds l) (sym b) (sym a)
        (fetched-InOrder n ds (asked k q) (subst (λ f. InOrder f n ds (asked k q)) e h))
  | inr other ↦
      let a : asked k (q ++ first_request layer image ∷ []) ≡ asked k q =
        asked-append k q (first_request layer image ∷ [])
        ∙ ap (◌++◌ (asked k q)) {y = []} (ground arith)
        ∙ append-nil (asked k q) in
      let b : known k (key layer image ∷ fetched) ≡ known k fetched = ground arith in
      subst₂ (λ f l. InOrder f n ds l) (sym b) (sym a) h
]

module _ (v : Verbs) (requests : Codec GetLayerRequest) (responses : Codec GetLayerResponse)
    (fs : FileSystem) (layer_is_compressed : Bool) (registry_path : String) (g : Setting)
    (accepting : (q : List SendWr) → length q < g.bufs → v.send_accepted q ≡ true) where
  pub queued-Steady :
      (s : Session) (conn : RdmaConnection) (flight : List GetLayerRequest) (layer image : String)
      → Steady v requests responses fs layer_is_compressed registry_path g s conn flight
      → Listed v requests responses fs layer_is_compressed registry_path g layer image
      → known (key layer image) s.fetched ≡ false
      → Steady v requests responses fs layer_is_compressed registry_path g
          (queued s layer image)
          conn
          flight
  unfolding enqueue_request
  queued-Steady s conn flight layer image i l new =
      let first = first_request layer image in
      let queue : (flight ++ s.client.unsend_reqs) ++ first ∷ []
          ≡ flight ++ (s.client.unsend_reqs ++ first ∷ []) =
        append_assoc flight s.client.unsend_reqs (first ∷ []) in
      record {
        connected = i.connected;
        carried = i.carried;
        counted = i.counted;
        room = i.room;
        room_back = i.room_back;
        bufs = i.bufs;
        listed = subst (All _) queue (
            All-append _ (flight ++ s.client.unsend_reqs) (first ∷ []) i.listed
              ((l, l.some_segment, omega arith), tt));
        ordered = λ k.
            subst
              (λ q.
                InOrder (known k (key layer image ∷ s.fetched)) (g.segments k.layer)
                  (got k s.client.submitted) (asked k q))
              queue
              (queue-InOrder k layer image s.fetched (g.segments k.layer) (got k s.client.submitted)
                (flight ++ s.client.unsend_reqs) new (i.ordered k));
        genuine = i.genuine;
        blobs = i.blobs;
        server_room = i.server_room;
        server_idle = i.server_idle;
        server_free = i.server_free;
      }

  -- A layer can be fetched at any time.
  pub fetch-Inv :
      (s : Session) (conn : RdmaConnection) (flight : List GetLayerRequest) (layer image : String)
      → Inv v requests responses fs layer_is_compressed registry_path g s conn flight
      → Listed v requests responses fs layer_is_compressed registry_path g layer image
      → known (key layer image) s.fetched ≡ false
      → (c' : ContentClient) × (conn' : RdmaConnection) × (flight' : List GetLayerRequest)
        × (try_send_requests v requests responses
              (enqueue_request s.client (first_request layer image))
            ≡ some c')
        × Inv v requests responses fs layer_is_compressed registry_path g
            (record (queued s layer image) { client = c' })
            conn'
            flight'
  fetch-Inv s conn flight layer image i l new =
      let (c', conn', flight', e, j, _) =
        settle v requests responses fs layer_is_compressed registry_path g accepting
          (queued s layer image) conn flight
          (queued-Steady s conn flight layer image i.steady l new) in
      (c', conn', flight', e, j)

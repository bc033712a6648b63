-- ===== src/Content/Session/Invariant/Settle.antt =====
-- `trySendRequests` within a session.
use atc2025_poby.Base.{
  ◌<◌, ℕ, ◌≤◌, ◌≡◌, sym, ap, subst, subst₂, ◌∙◌, Bool, true, some, List, ◌++◌, append_assoc, String,
  arith, length, length-append, get_or, All, All-append, All-suffix, All-prefix, All-map,
}
use atc2025_poby.Wire.Codec.{Codec}
use atc2025_poby.Rdma.Connection.{RdmaConnection, SendWr, Verbs, bufpair_at, null_bufpair}
use atc2025_poby.Content.Messages.{GetLayerRequest, GetLayerResponse}
use atc2025_poby.Content.Client.{ContentClient, try_send_requests}
use atc2025_poby.Content.Client.Sending.{
  Carry-length, Moved, Carry, Carry-append, Sendable, HasRoom-Moved, try_send_requests-Moved,
}
use atc2025_poby.Content.Order.{asked, got}
use atc2025_poby.Content.Order.Whole.{InOrder}
use atc2025_poby.Content.Server.{FileSystem}
use atc2025_poby.Content.Session.{Session, known}
use atc2025_poby.Content.Session.Invariant.Registry.{Setting}
use atc2025_poby.Content.Session.Invariant.{Steady, Inv}

module _ (v : Verbs) (requests : Codec GetLayerRequest) (responses : Codec GetLayerResponse)
    (fs : FileSystem) (layer_is_compressed : Bool) (registry_path : String) (g : Setting)
    (accepting : (q : List SendWr) → length q < g.bufs → v.send_accepted q ≡ true) where
  abbrev Held : RdmaConnection → ℕ → Type 0
  Held conn id = g.size ≤ (bufpair_at conn id).send_cap

  Held-same : (c d : RdmaConnection) → d.bufpairs ≡ c.bufpairs → (id : ℕ) → Held c id → Held d id
  Held-same c d e id h = subst (λ b. g.size ≤ (get_or b id null_bufpair).send_cap) (sym e) h

  Moved-Steady :
      (s : Session) (conn : RdmaConnection) (flight : List GetLayerRequest) (c' : ContentClient)
      (conn' : RdmaConnection)
      → Steady v requests responses fs layer_is_compressed registry_path g s conn flight
      → (m : Moved v requests responses s.client conn c' conn')
      → Steady v requests responses fs layer_is_compressed registry_path g
          (record s { client = c' })
          conn'
          (flight ++ m.ms)
  Moved-Steady s conn flight c' conn' i m =
      let queue : flight ++ s.client.unsend_reqs ≡ (flight ++ m.ms) ++ c'.unsend_reqs =
        ap (◌++◌ flight) m.queue ∙ sym (append_assoc flight m.ms c'.unsend_reqs) in
      record {
        connected = m.connected;
        carried =
            subst (λ q. Carry v requests responses q (flight ++ m.ms)) (sym m.posted)
              (Carry-append v requests responses conn.sq m.wrs flight m.ms i.carried m.carried);
        counted = omega (
          arith,
          i.counted,
          m.counted,
          ap length m.inflight,
          length-append s.client.inflight_sends m.ids,
          length-append flight m.ms,
        );
        room = HasRoom-Moved v requests responses g.bufs accepting g.size m i.room;
        room_back = subst (All (Held conn')) (sym m.inflight) (
            All-append (Held conn') s.client.inflight_sends m.ids
              (All-map (Held conn) (Held conn') (Held-same conn conn' m.bufpairs)
                s.client.inflight_sends i.room_back)
              (All-map (Held conn) (Held conn') (Held-same conn conn' m.bufpairs) m.ids (
                All-prefix (Held conn) m.ids conn'.free_bufpairs
                  (subst (All (Held conn)) m.free i.room))));
        bufs = omega (
          arith,
          i.bufs,
          ap length m.inflight,
          length-append s.client.inflight_sends m.ids,
          ap length m.free,
          length-append m.ids conn'.free_bufpairs,
        );
        listed = subst (All _) queue i.listed;
        ordered = λ k.
            subst₂ (λ d q. InOrder (known k s.fetched) (g.segments k.layer) (got k d) (asked k q))
              (sym m.submitted) queue (i.ordered k);
        genuine = subst (All _) (sym m.submitted) i.genuine;
        blobs = i.blobs;
        server_room = i.server_room;
        server_idle = i.server_idle;
        server_free = i.server_free;
      }

  -- The client settles, and nothing that was in order gets out of it.
  pub settle :
      (s : Session) (conn : RdmaConnection) (flight : List GetLayerRequest)
      → Steady v requests responses fs layer_is_compressed registry_path g s conn flight
      → (c' : ContentClient) × (conn' : RdmaConnection) × (flight' : List GetLayerRequest)
        × (try_send_requests v requests responses s.client ≡ some c')
        × Inv v requests responses fs layer_is_compressed registry_path g
            (record s { client = c' })
            conn'
            flight'
        × (c'.submitted ≡ s.client.submitted)
  settle s conn flight i =
      let listed = All-suffix _ flight s.client.unsend_reqs i.listed in
      let sendable =
        All-map _ (Sendable v requests responses g.size)
          (λ r l. l.0.sendable r.index r.total_segments l.1 l.2) s.client.unsend_reqs listed in
      let (c', conn', e, m, stop) =
        try_send_requests-Moved v requests responses g.bufs accepting g.size s.client conn
          i.connected i.room sendable
          (omega (
            arith,
            i.counted,
            i.bufs,
            Carry-length v requests responses conn.sq flight i.carried,
          )) in
      (
        c',
        conn',
        flight ++ m.ms,
        e,
        record { steady = Moved-Steady s conn flight c' conn' i m; settled = stop },
        m.submitted,
      )

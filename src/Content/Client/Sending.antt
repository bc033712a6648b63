-- ===== src/Content/Client/Sending.antt =====
-- `sendRequest` and the loop of `trySendRequests`: what they take from the queue, and what they post.
use atc2025_poby.Base.{
  ◌<◌, ℕ, zero, suc, ◌+◌, ◌≤◌, ◌≡◌, refl, sym, ap, subst, ◌∙◌, ◌⊎◌, inl, inr, true, some, List, [],
  ◌∷◌, ◌++◌, append_assoc, append-nil, arith, length, All, All-suffix, All-map, get_or, List-cases,
  u64, length-append,
}
use atc2025_poby.Memory.{Memory, load}
use atc2025_poby.Wire.Codec.{Codec}
use atc2025_poby.Wire.RdmaFrame.{serialize_rdma_pb_msg}
use atc2025_poby.Wire.RdmaFrame.RoundTrip.{Fits, frame, serialize_rdma_pb_msg-frame}
use atc2025_poby.Rdma.Connection.{RdmaConnection, SendWr, Verbs, null_bufpair, bufpair_at, send}
use atc2025_poby.Content.Messages.{GetLayerRequest, GetLayerResponse}
use atc2025_poby.Content.Client.{
  ContentClient, send_request, can_send, send_requests, try_send_requests,
}

module _ (v : Verbs) (requests : Codec GetLayerRequest) (responses : Codec GetLayerResponse) where
  -- The request has a frame that fits the buffers of `size` bytes.
  abbrev pub Sendable : ℕ → GetLayerRequest → Type 0
  Sendable size r = (bytes : List ℕ) × Fits requests r bytes × (4 + length bytes ≤ size)

  -- The posted bytes are the frame of the request.
  abbrev pub Carries : SendWr → GetLayerRequest → Type 0
  Carries wr r = (bytes : List ℕ) × Fits requests r bytes × (wr.payload ≡ frame bytes)

  abbrev pub Carry : List SendWr → List GetLayerRequest → Type 0
  Carry [] [] = Unit {0}
  Carry (w ∷ ws) (r ∷ rs) = Carries w r × Carry ws rs
  Carry [] (r ∷ rs) = ⊥
  Carry (w ∷ ws) [] = ⊥

  pub Carry-append :
      (ws ws' : List SendWr) (rs rs' : List GetLayerRequest)
      → Carry ws rs
      → Carry ws' rs'
      → Carry (ws ++ ws') (rs ++ rs')
  Carry-append [] ws' [] rs' h k = k
  Carry-append [] ws' (r ∷ rs) rs' h k = elim h [ ]
  Carry-append (w ∷ ws) ws' [] rs' h k = elim h [ ]
  Carry-append (w ∷ ws) ws' (r ∷ rs) rs' h k = (h.0, Carry-append ws ws' rs rs' h.1 k)

  -- The free buffers of a connection hold `size` bytes.
  abbrev pub HasRoom : ℕ → RdmaConnection → Type 0
  HasRoom size conn = All (λ id. size ≤ (bufpair_at conn id).send_cap) conn.free_bufpairs

  -- From `c` to `c'` the requests `ms` went out, in the buffers `ids`.
  pub record Moved (c : ContentClient) (conn : RdmaConnection) (c' : ContentClient)
      (conn' : RdmaConnection) : Type 0 where
    pub ms : List GetLayerRequest
    pub ids : List ℕ
    pub wrs : List SendWr
    pub connected : c'.conn ≡ some conn'
    pub queue : c.unsend_reqs ≡ ms ++ c'.unsend_reqs
    pub inflight : c'.inflight_sends ≡ c.inflight_sends ++ ids
    pub free : conn.free_bufpairs ≡ ids ++ conn'.free_bufpairs
    pub posted : conn'.sq ≡ conn.sq ++ wrs
    pub carried : Carry wrs ms
    pub counted : length ids ≡ length ms
    pub bufpairs : conn'.bufpairs ≡ conn.bufpairs
    pub submitted : c'.submitted ≡ c.submitted

  pub Carry-length :
      (ws : List SendWr) (rs : List GetLayerRequest) → Carry ws rs → length ws ≡ length rs
  Carry-length [] [] h = refl
  Carry-length (w ∷ ws) (r ∷ rs) h = ap suc (Carry-length ws rs h.1)
  Carry-length [] (r ∷ rs) h = elim h [ ]
  Carry-length (w ∷ ws) [] h = elim h [ ]

  module _ (bufs : ℕ) (accepting : (q : List SendWr) → length q < bufs → v.send_accepted q ≡ true)
      (size : ℕ) where
    send_request-Moved :
        (c : ContentClient) (conn : RdmaConnection) (id : ℕ) (ids : List ℕ) (r : GetLayerRequest)
        (rest : List GetLayerRequest)
        → c.conn ≡ some conn
        → conn.free_bufpairs ≡ id ∷ ids
        → c.unsend_reqs ≡ r ∷ rest
        → Sendable size r
        → size ≤ (bufpair_at conn id).send_cap
        → length conn.sq < bufs
        → (c' : ContentClient) × (conn' : RdmaConnection) × (send_request v requests responses c
            ≡ some c')
          × Moved c conn c' conn'
          × (c'.unsend_reqs ≡ rest)
          × (conn'.free_bufpairs ≡ ids)
    unfolding send_request send
    send_request-Moved c conn id ids r rest hc hf hu (bytes, fits, fit) room slot =
        let buf = bufpair_at conn id in
        let written =
          serialize_rdma_pb_msg-frame requests conn.mem buf.send_header buf.send_cap r bytes fits
            (omega arith) in
        let mem : Memory =
          (serialize_rdma_pb_msg requests conn.mem buf.send_header buf.send_cap r).1 in
        let wr : SendWr = record {
          wr_id = c.wr_id;
          addr = buf.send_header;
          len = 4 + length bytes;
          payload = load mem buf.send_header (4 + length bytes);
        } in
        let conn' : RdmaConnection = record conn {
          mem = mem;
          free_bufpairs = ids;
          sq = conn.sq ++ wr ∷ [];
        } in
        let c' : ContentClient = record c {
          conn = some conn';
          unsend_reqs = rest;
          wr_id = u64 (c.wr_id + 1);
          inflight_sends = c.inflight_sends ++ id ∷ [];
        } in
        (
          c',
          conn',
          ground (arith, accepting conn.sq slot, written, fits.small),
          record {
            ms = r ∷ [];
            ids = id ∷ [];
            wrs = wr ∷ [];
            connected = refl;
            queue = hu;
            inflight = refl;
            free = hf;
            posted = refl;
            carried = ((bytes, fits, written.1), tt);
            counted = refl;
            bufpairs = refl;
            submitted = refl;
          },
          refl,
          refl,
        )

    Moved-none :
        (c : ContentClient) (conn : RdmaConnection) → c.conn ≡ some conn → Moved c conn c conn
    Moved-none c conn h = record {
      ms = [];
      ids = [];
      wrs = [];
      connected = h;
      queue = refl;
      inflight = sym (append-nil c.inflight_sends);
      free = refl;
      posted = sym (append-nil conn.sq);
      carried = tt;
      counted = refl;
      bufpairs = refl;
      submitted = refl;
    }

    Moved-trans :
        {c d e : ContentClient} {cc dc ec : RdmaConnection}
        → Moved c cc d dc
        → Moved d dc e ec
        → Moved c cc e ec
    Moved-trans {c} {d} {e} {cc} {dc} {ec} m k = record {
      ms = m.ms ++ k.ms;
      ids = m.ids ++ k.ids;
      wrs = m.wrs ++ k.wrs;
      connected = k.connected;
      queue = m.queue ∙ ap (◌++◌ m.ms) k.queue ∙ sym (append_assoc m.ms k.ms e.unsend_reqs);
      inflight =
          k.inflight ∙ ap (λ l. l ++ k.ids) m.inflight ∙ append_assoc c.inflight_sends m.ids k.ids;
      free = m.free ∙ ap (◌++◌ m.ids) k.free ∙ sym (append_assoc m.ids k.ids ec.free_bufpairs);
      posted = k.posted ∙ ap (λ l. l ++ k.wrs) m.posted ∙ append_assoc cc.sq m.wrs k.wrs;
      carried = Carry-append m.wrs k.wrs m.ms k.ms m.carried k.carried;
      counted =
          omega (arith, length-append m.ids k.ids, length-append m.ms k.ms, m.counted, k.counted);
      bufpairs = k.bufpairs ∙ m.bufpairs;
      submitted = k.submitted ∙ m.submitted;
    }

    pub HasRoom-Moved :
        {c c' : ContentClient} {conn conn' : RdmaConnection}
        → Moved c conn c' conn'
        → HasRoom size conn
        → HasRoom size conn'
    HasRoom-Moved {c} {c'} {conn} {conn'} m room =
        All-map (λ i. size ≤ (bufpair_at conn i).send_cap)
          (λ i. size ≤ (bufpair_at conn' i).send_cap)
          (λ i h. subst (λ b. size ≤ (get_or b i null_bufpair).send_cap) (sym m.bufpairs) h)
          conn'.free_bufpairs
          (All-suffix _ m.ids conn'.free_bufpairs
            (subst (All (λ i. size ≤ (bufpair_at conn i).send_cap)) m.free room))

    -- The loop ends because its test fails: nothing is left to send, or no buffer is free.
    send_requests-Moved :
        (fuel : ℕ) (c : ContentClient) (conn : RdmaConnection)
        → c.conn ≡ some conn
        → HasRoom size conn
        → All (Sendable size) c.unsend_reqs
        → length conn.sq + length conn.free_bufpairs ≤ bufs
        → length c.unsend_reqs ≤ fuel
        → (c' : ContentClient) × (conn' : RdmaConnection) × (send_requests v requests responses fuel
              c
            ≡ some c')
          × Moved c conn c' conn'
          × ((c'.unsend_reqs ≡ []) ⊎ (conn'.free_bufpairs ≡ []))
    unfolding send_requests can_send
    send_requests-Moved zero c conn hc room good slots h = elim (List-cases c.unsend_reqs) [
      | inl e ↦ (c, conn, refl, Moved-none c conn hc, inl e)
      | inr (r, rest, e) ↦ absurd (omega (arith, ap length e))
    ]
    send_requests-Moved (suc fuel) c conn hc room good slots h = elim (List-cases c.unsend_reqs) [
      | inl e ↦ (c, conn, ground arith, Moved-none c conn hc, inl e)
      | inr (r, rest, e) ↦ elim (List-cases conn.free_bufpairs) [
        | inl f ↦ (c, conn, ground arith, Moved-none c conn hc, inr f)
        | inr (id, ids, f) ↦
            let rooms = subst (All (λ i. size ≤ (bufpair_at conn i).send_cap)) f room in
            let goods = subst (All (Sendable size)) e good in
            let (c1, conn1, e1, m1, u1, f1) =
              send_request-Moved c conn id ids r rest hc f e goods.0 rooms.0
                (omega (arith, slots, ap length f)) in
            let room1 : HasRoom size conn1 = HasRoom-Moved m1 room in
            let (c2, conn2, e2, m2, stop) =
              send_requests-Moved fuel c1 conn1 m1.connected room1
                (subst (All (Sendable size)) (sym u1) goods.1)
                (omega (
                  arith,
                  slots,
                  ap length m1.posted,
                  length-append conn.sq m1.wrs,
                  Carry-length m1.wrs m1.ms m1.carried,
                  m1.counted,
                  ap length m1.free,
                  length-append m1.ids conn1.free_bufpairs,
                ))
                (omega (arith, ap length e, ap length u1)) in
            (c2, conn2, ground (arith, e1, e2), Moved-trans m1 m2, stop)
      ]
    ]

    -- `trySendRequests` always returns, having sent a prefix of the queue that exhausts the queue or
    -- the free buffers.
    pub try_send_requests-Moved :
        (c : ContentClient) (conn : RdmaConnection)
        → c.conn ≡ some conn
        → HasRoom size conn
        → All (Sendable size) c.unsend_reqs
        → length conn.sq + length conn.free_bufpairs ≤ bufs
        → (c' : ContentClient) × (conn' : RdmaConnection) × (try_send_requests v requests responses
              c
            ≡ some c')
          × Moved c conn c' conn'
          × ((c'.unsend_reqs ≡ []) ⊎ (conn'.free_bufpairs ≡ []))
    unfolding try_send_requests
    try_send_requests-Moved c conn hc room good slots =
        send_requests-Moved (length c.unsend_reqs) c conn hc room good slots (omega arith)

-- ===== src/Rdma/Setup/Filled.antt =====
-- The receive queue after `connectQp` and `fillRq`.
use atc2025_poby.Base.{
  ℕ, zero, suc, ◌+◌, ◌≡◌, refl, sym, ap, ◌∙◌, Bool, true, false, [], ◌∷◌, ◌++◌, append_assoc,
  append-nil, map, length, Bool-cases, inl, inr, if◌then◌else◌,
}
use atc2025_poby.Rdma.Connection.{
  RdmaConnection, RdmaError, success, find_device_error, open_device_error, device_info_error,
  comp_channel_error, pd_error, qp_error, cq_error, mr_error, tcp_listen_error,
  tcp_connection_error, unexpected_error, again, RecvWr, Verbs, bufpair_at, post_recv, ids_from,
}
use atc2025_poby.Rdma.Setup.{RdmaExchangeInfo, fill_from, fill_rq, connect_qp, next, with_remote}

-- The receive request of buffer `i`.
abbrev pub recv_of : RdmaConnection → ℕ → RecvWr
recv_of conn i = record {
  wr_id = i;
  addr = (bufpair_at conn i).recv_header;
  len = (bufpair_at conn i).recv_cap;
}

error≢success : {P : Type 0} → qp_error ≡ success → P
error≢success e = cc

module _ (v : Verbs) where
  fill_from-rq :
      (count i : ℕ) (conn : RdmaConnection)
      → (fill_from v count i conn).0 ≡ success
      → (fill_from v count i conn).1
        ≡ record conn { rq = conn.rq ++ map (recv_of conn) (ids_from i count) }
  unfolding fill_from post_recv ids_from
  fill_from-rq zero i conn e = ap (λ q. record conn { rq = q }) (sym (append-nil conn.rq))
  fill_from-rq (suc count) i conn e = elim (Bool-cases (v.recv_accepted conn.rq)) [
    | inr a ↦
        let refused : post_recv v conn i ≡ (qp_error, conn) = rw a refl in
        error≢success (ap (λ p. (next v (fill_from v count (i + 1)) p).0) (sym refused) ∙ e)
    | inl a ↦
        let conn' : RdmaConnection = record conn { rq = conn.rq ++ recv_of conn i ∷ [] } in
        let posted : post_recv v conn i ≡ (success, conn') =
          ap (λ b. if b then (success, conn') else (qp_error, conn)) a in
        ap (λ p. (next v (fill_from v count (i + 1)) p).1) posted
        ∙ fill_from-rq count (i + 1) conn'
            (ap (λ p. (next v (fill_from v count (i + 1)) p).0) (sym posted) ∙ e)
        ∙ ap (λ q. record conn { rq = q })
            (append_assoc conn.rq (recv_of conn i ∷ [])
              (map (recv_of conn) (ids_from (i + 1) count)))
  ]

  with_remote-eq :
      (remote : RdmaExchangeInfo) (to_rts : Bool) (conn : RdmaConnection)
      → (with_remote v remote to_rts conn).0 ≡ success
      → (with_remote v remote to_rts conn).1 ≡ record conn {
        remote_mem = remote.recv_addr;
        remote_len = remote.recv_len;
        remote_rkey = remote.recv_rkey;
      }
  with_remote-eq remote true conn e = refl
  with_remote-eq remote false conn e = error≢success e

  -- What a chain that succeeded did.
  next-success :
      (k : RdmaConnection → RdmaError × RdmaConnection) (p : RdmaError × RdmaConnection)
      → (next v k p).0 ≡ success
      → (p.0 ≡ success) × ((k p.1).0 ≡ success) × ((next v k p).1 ≡ (k p.1).1)
  next-success k (success, c) e = (refl, e, refl)
  next-success k (find_device_error, c) e = cc
  next-success k (open_device_error, c) e = cc
  next-success k (device_info_error, c) e = cc
  next-success k (comp_channel_error, c) e = cc
  next-success k (pd_error, c) e = cc
  next-success k (qp_error, c) e = cc
  next-success k (cq_error, c) e = cc
  next-success k (mr_error, c) e = cc
  next-success k (tcp_listen_error, c) e = cc
  next-success k (tcp_connection_error, c) e = cc
  next-success k (unexpected_error, c) e = cc
  next-success k (again, c) e = cc

  -- Where the queue pair is connected, a receive is posted for each buffer, in order, and the rest of
  -- the connection is as before but for what is known of the other side.
  pub connect_qp-rq :
      (to_rtr to_rts : Bool) (remote : RdmaExchangeInfo) (conn : RdmaConnection)
      → (connect_qp v to_rtr to_rts remote conn).0 ≡ success
      → (connect_qp v to_rtr to_rts remote conn).1 ≡ record conn {
        rq = conn.rq ++ map (recv_of conn) (ids_from 0 (length conn.bufpairs));
        remote_mem = remote.recv_addr;
        remote_len = remote.recv_len;
        remote_rkey = remote.recv_rkey;
      }
  unfolding connect_qp fill_rq
  connect_qp-rq false to_rts remote conn e = error≢success e
  connect_qp-rq true to_rts remote conn e =
      let (filled, finished, same) =
        next-success (with_remote v remote to_rts) (fill_rq v conn) e in
      same
      ∙ ap (λ c. (with_remote v remote to_rts c).1)
          (fill_from-rq (length conn.bufpairs) 0 conn filled)
      ∙ with_remote-eq remote to_rts _ (
          ap (λ c. (with_remote v remote to_rts c).0)
            (sym (fill_from-rq (length conn.bufpairs) 0 conn filled))
          ∙ finished)

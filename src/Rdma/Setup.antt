-- ===== src/Rdma/Setup.antt =====
-- `connectQp` and what follows it: the queue pair is connected, its receive queue filled, and the
-- connection established and destroyed. `none` is a failed assertion.
pub mod Filled
use atc2025_poby.Base.{
  ℕ, zero, suc, ◌+◌, Bool, true, false, Option, none, some, List, [], ◌∷◌, ◌++◌, ltb, if◌then◌else◌,
  length,
}
use atc2025_poby.Rdma.Connection.{
  RdmaConnection, RdmaError, success, qp_error, State, disconnected, connected, connecting, Verbs,
  post_recv,
}

-- `RdmaExchangeInfo`, less the addresses that only verbs reads.
pub record RdmaExchangeInfo : Type 0 where
  pub recv_addr : ℕ
  pub recv_len : ℕ
  pub recv_rkey : ℕ

module _ (v : Verbs) where
  abbrev pub next :
      (RdmaConnection → RdmaError × RdmaConnection)
      → RdmaError × RdmaConnection
      → RdmaError × RdmaConnection
  next rest (success, conn) = rest conn
  next rest (error, conn) = (error, conn)

  -- The loop of `fillRq`, with `count` buffers left, from buffer `i`.
  unfoldable pub fill_from : ℕ → ℕ → RdmaConnection → RdmaError × RdmaConnection
  unfolding post_recv
  fill_from zero i conn = (success, conn)
  fill_from (suc count) i conn = next (fill_from count (i + 1)) (post_recv v conn i)

  unfoldable pub fill_rq : RdmaConnection → RdmaError × RdmaConnection
  unfolding fill_from
  fill_rq conn = fill_from (length conn.bufpairs) 0 conn

  abbrev pub with_remote : RdmaExchangeInfo → Bool → RdmaConnection → RdmaError × RdmaConnection
  with_remote remote true conn = (
    success,
    record conn {
      remote_mem = remote.recv_addr;
      remote_len = remote.recv_len;
      remote_rkey = remote.recv_rkey;
    },
  )
  with_remote remote false conn = (qp_error, conn)

  -- `to_rtr` and `to_rts`: whether `ibv_modify_qp` brings the queue pair to that state.
  unfoldable pub connect_qp :
      Bool → Bool → RdmaExchangeInfo → RdmaConnection → RdmaError × RdmaConnection
  unfolding fill_rq
  connect_qp to_rtr to_rts remote conn =
      if to_rtr then next (with_remote remote to_rts) (fill_rq conn) else (qp_error, conn)

unfoldable pub connect_established : RdmaConnection → Option RdmaConnection
connect_established conn = elim conn.state [
  | connecting ↦ some (record conn { state = connected; channel_reading = true })
  | connected ↦ none
  | disconnected ↦ none
]

-- Whether the disconnected callback is called, and the connection after it.
unfoldable pub connect_destroyed : RdmaConnection → Bool × RdmaConnection
connect_destroyed conn = elim conn.state [
  | connected ↦ (true, record conn { state = disconnected; channel_reading = false })
  | connecting ↦ (false, conn)
  | disconnected ↦ (false, conn)
]

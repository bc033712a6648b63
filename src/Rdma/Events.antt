-- ===== src/Rdma/Events.antt =====
-- `RdmaConnection::handleRead`: the completions of a connection, handed to its callbacks. `none` is
-- `std::terminate`.
pub mod Reposted
use atc2025_poby.Base.{
  assert, ℕ, zero, suc, ◌+◌, Bool, true, false, Option, none, some, List, [], ◌∷◌, ◌++◌, ◌==◌,
  if◌then◌else◌, ◌>>=◌,
}
use atc2025_poby.Rdma.Connection.{RdmaConnection, Verbs, bufpair_at, post_recv}

pub data Opcode : Type 0 where
  send recv other : Opcode

-- `ibv_wc`; `ok` is `IBV_WC_SUCCESS`.
pub record Wc : Type 0 where
  pub ok : Bool
  pub opcode : Opcode
  pub wr_id : ℕ
  pub byte_len : ℕ

-- The callbacks for completions that succeeded, on the state of the owner. Those for failures only log,
-- and the program ends after them.
pub record Callbacks (S : Type 0) : Type 0 where
  pub recv_success : S → RdmaConnection → ℕ → ℕ → S × RdmaConnection
  pub send_complete_success : S → RdmaConnection → ℕ → S × RdmaConnection

-- `kUnackCqEventThreshold`
abbrev pub unack_cq_event_threshold : ℕ
unack_cq_event_threshold = 10

abbrev pub count_event : RdmaConnection → RdmaConnection
count_event conn =
    if conn.unack_cq_events + 1 == unack_cq_event_threshold
    then record conn { unack_cq_events = 0 }
    else record conn { unack_cq_events = conn.unack_cq_events + 1 }

module _ {S : Type 0} (v : Verbs) (callbacks : Callbacks S) where
  -- An error of `postRecv` is only logged. The receive is posted before the callback reads the buffer.
  abbrev pub complete : Wc → S × RdmaConnection → S × RdmaConnection
  complete wc (s, conn) = elim wc.opcode [
    | send ↦ callbacks.send_complete_success s conn wc.wr_id
    | recv ↦
        callbacks.recv_success s (post_recv v conn wc.wr_id).1
          (bufpair_at conn wc.wr_id).recv_header wc.byte_len
    | other ↦ (s, conn)
  ]

  unfoldable pub complete_all : List Wc → S × RdmaConnection → Option (S × RdmaConnection)
  unfolding post_recv
  complete_all [] st = some st
  complete_all (wc ∷ wcs) st = if wc.ok then complete_all wcs (complete wc st) else none

  -- The loop over the results of `ibv_poll_cq`, `none` for a negative one; it ends with an empty one.
  unfoldable pub poll_loop :
      List (Option (List Wc)) → S × RdmaConnection → Option (S × RdmaConnection)
  unfolding complete_all
  poll_loop [] st = some st
  poll_loop (none ∷ polls) st = none
  poll_loop (some [] ∷ polls) st = some st
  poll_loop (some (wc ∷ wcs) ∷ polls) st = complete_all (wc ∷ wcs) st >>= poll_loop polls

  -- Whether the event is of the queue `cq_`, which is asserted first, whether `ibv_get_cq_event` and
  -- `ibv_req_notify_cq` succeed, and what the polls give.
  unfoldable pub handle_read :
      Bool
      → Bool
      → Bool
      → List (Option (List Wc))
      → S × RdmaConnection
      → Option (S × RdmaConnection)
  unfolding poll_loop
  handle_read same_cq event_ok notify_ok polls (s, conn) = assert same_cq (
      if event_ok
      then (if notify_ok then poll_loop polls (s, count_event conn) else some (s, count_event conn))
      else some (s, conn))

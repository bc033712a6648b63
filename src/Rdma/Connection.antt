-- ===== src/Rdma/Connection.antt =====
-- RdmaConnection.h and RdmaConnection.cc of src/network/rdma: the buffers of a connection and its work queues.
use atc2025_poby.Base.{
  ℕ, zero, suc, ◌+◌, ◌*◌, ◌/◌, Bool, true, false, Option, none, some, List, [], ◌∷◌, ◌++◌,
  if◌then◌else◌, get_or, u32,
}
use atc2025_poby.Memory.{Memory, load}

pub record BufPair : Type 0 where
  pub send_header : ℕ
  pub send_cap : ℕ
  pub recv_header : ℕ
  pub recv_cap : ℕ

pub record SendBuf : Type 0 where
  pub id : ℕ
  pub addr : ℕ
  pub cap : ℕ

-- A posted send, with the bytes that its scatter entry names.
pub record SendWr : Type 0 where
  pub wr_id : ℕ
  pub addr : ℕ
  pub len : ℕ
  pub payload : List ℕ

pub record RecvWr : Type 0 where
  pub wr_id : ℕ
  pub addr : ℕ
  pub len : ℕ

pub data State : Type 0 where
  disconnected connected connecting : State

pub data RdmaError : Type 0 where
  success find_device_error open_device_error device_info_error comp_channel_error pd_error qp_error
        cq_error mr_error tcp_listen_error tcp_connection_error unexpected_error again :
      RdmaError

-- The fields `remote_` are set when the queue pair is connected, and not read before.
-- `sq` and `rq` hold what was posted to the queue pair, oldest first; `mem` is the registered memory.
pub record RdmaConnection : Type 0 where
  pub state : State
  pub mem : Memory
  pub bufpairs : List BufPair
  pub free_bufpairs : List ℕ
  pub sq : List SendWr
  pub rq : List RecvWr
  pub unack_cq_events : ℕ
  pub channel_reading : Bool
  pub remote_mem : ℕ
  pub remote_len : ℕ
  pub remote_rkey : ℕ

-- Whether `ibv_post_send` and `ibv_post_recv` take one more request.
pub record Verbs : Type 0 where
  pub send_accepted : List SendWr → Bool
  pub recv_accepted : List RecvWr → Bool

abbrev pub null_bufpair : BufPair
null_bufpair = record { send_header = 0; send_cap = 0; recv_header = 0; recv_cap = 0 }

-- `bufpairs_[id]`
abbrev pub bufpair_at : RdmaConnection → ℕ → BufPair
bufpair_at conn id = get_or conn.bufpairs id null_bufpair

-- The loop of the constructor. `mem_len * 2` is a product of `uint32_t`.
unfoldable pub add_bufpairs : ℕ → ℕ → ℕ → ℕ → List BufPair
add_bufpairs mem_len zero send_header recv_header = []
add_bufpairs mem_len (suc n) send_header recv_header =
    record {
      send_header = send_header;
      send_cap = mem_len;
      recv_header = recv_header;
      recv_cap = mem_len;
    }
    ∷ add_bufpairs mem_len n (send_header + u32 (mem_len * 2)) (recv_header + u32 (mem_len * 2))

unfoldable pub ids_from : ℕ → ℕ → List ℕ
ids_from i zero = []
ids_from i (suc n) = i ∷ ids_from (i + 1) n

-- The constructor, over memory of `size` bytes at `base`.
unfoldable pub construct : Memory → ℕ → ℕ → ℕ → RdmaConnection
construct mem base size mem_num =
    let mem_len = u32 (size / (2 * mem_num)) in
    record {
      state = connecting;
      mem = mem;
      bufpairs = add_bufpairs mem_len mem_num base (base + mem_len);
      free_bufpairs = ids_from 0 mem_num;
      sq = [];
      rq = [];
      unack_cq_events = 0;
      channel_reading = false;
      remote_mem = 0;
      remote_len = 0;
      remote_rkey = 0;
    }

acquire_from : RdmaConnection → List ℕ → Option SendBuf × RdmaConnection
acquire_from conn [] = (none, conn)
acquire_from conn (id ∷ rest) = (
  some (record {
    id = id;
    addr = (bufpair_at conn id).send_header;
    cap = (bufpair_at conn id).send_cap;
  }),
  record conn { free_bufpairs = rest },
)

unfoldable pub acquire_free_send_buf : RdmaConnection → Option SendBuf × RdmaConnection
unfolding acquire_from
acquire_free_send_buf conn = acquire_from conn conn.free_bufpairs

unfoldable pub release_send_buf : RdmaConnection → ℕ → RdmaConnection
release_send_buf conn id = record conn { free_bufpairs = conn.free_bufpairs ++ id ∷ [] }

abbrev pub is_empty {ℓ} : {A : Type ℓ} → List A → Bool
is_empty [] = true
is_empty (x ∷ xs) = false

unfoldable pub is_free_send_buf_empty : RdmaConnection → Bool
is_free_send_buf_empty conn = is_empty conn.free_bufpairs

module _ (v : Verbs) where
  unfoldable pub post_send : RdmaConnection → ℕ → ℕ → ℕ → RdmaError × RdmaConnection
  post_send conn addr len wr_id =
      let wr : SendWr = record {
        wr_id = wr_id;
        addr = addr;
        len = len;
        payload = load conn.mem addr len;
      } in
      if v.send_accepted conn.sq
      then (success, record conn { sq = conn.sq ++ wr ∷ [] })
      else (qp_error, conn)

  unfoldable pub post_recv : RdmaConnection → ℕ → RdmaError × RdmaConnection
  post_recv conn id =
      let wr : RecvWr = record {
        wr_id = id;
        addr = (bufpair_at conn id).recv_header;
        len = (bufpair_at conn id).recv_cap;
      } in
      if v.recv_accepted conn.rq
      then (success, record conn { rq = conn.rq ++ wr ∷ [] })
      else (qp_error, conn)

  -- A connection that is down is only logged: the send is posted all the same.
  unfoldable pub send_in_loop : RdmaConnection → ℕ → ℕ → ℕ → RdmaError × RdmaConnection
  unfolding post_send
  send_in_loop conn addr len wr_id = post_send conn addr len wr_id

  -- An error is only logged. A call from another thread runs the same in the loop.
  unfoldable pub send : RdmaConnection → ℕ → ℕ → ℕ → RdmaConnection
  unfolding send_in_loop
  send conn addr len wr_id = (send_in_loop conn addr len wr_id).1

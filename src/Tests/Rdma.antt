-- ===== src/Tests/Rdma.antt =====
-- RDMA connections and their frames at concrete inputs.
use atc2025_poby.Base.{
  ℕ, ◌+◌, ◌≡◌, refl, sym, append-nil, true, false, Option, none, some, List, [], ◌∷◌, ◌++◌, map,
  arith, length,
}
use atc2025_poby.Memory.{Memory, load}
use atc2025_poby.Wire.RdmaFrame.{parse_rdma_pb_msg, serialize_rdma_pb_msg}
use atc2025_poby.Wire.RdmaFrame.RoundTrip.{
  Fits, frame, parse_rdma_pb_msg-frame, serialize_rdma_pb_msg-frame,
}
use atc2025_poby.Rdma.Connection.{
  RdmaConnection, construct, bufpair_at, add_bufpairs, ids_from, post_recv,
}
use atc2025_poby.Rdma.Create.{System, create_objects}
use atc2025_poby.Rdma.Create.Cleanup.{live_after, all_objects, create_objects-clean}
use atc2025_poby.Rdma.Layout.{Apart, construct-Apart}
use atc2025_poby.Rdma.Setup.{RdmaExchangeInfo, connect_qp, fill_rq, fill_from}
use atc2025_poby.Rdma.Setup.Filled.{recv_of, connect_qp-rq}
use atc2025_poby.Rdma.Events.{Wc, recv, send, Callbacks, handle_read, poll_loop, complete_all}
use atc2025_poby.Rdma.Events.Reposted.{Reposts, Keeps, received_in, handle_read-Reposts}
use atc2025_poby.Tests.Codecs.{verbs, requests, request}

abbrev zeros : Memory
zeros = λ a. 0

request_3 : Fits requests (request 3 4) (3 ∷ 4 ∷ [])
request_3 = record { encoded = refl; small = omega arith }

serialize_rdma_pb_msg-frame_example :
    ((serialize_rdma_pb_msg requests zeros 100 64 (request 3 4)).0 ≡ 4 + 2)
    × (load (serialize_rdma_pb_msg requests zeros 100 64 (request 3 4)).1 100 (4 + 2)
        ≡ frame (3 ∷ 4 ∷ []))
serialize_rdma_pb_msg-frame_example =
    serialize_rdma_pb_msg-frame requests zeros 100 64 (request 3 4) (3 ∷ 4 ∷ []) request_3
      (omega arith)

abbrev written : Memory
written = (serialize_rdma_pb_msg requests zeros 100 64 (request 3 4)).1

parse_rdma_pb_msg-frame_example :
    parse_rdma_pb_msg requests written 100 10 (request 0 0) ≡ (4 + 2, request 3 4)
parse_rdma_pb_msg-frame_example =
    parse_rdma_pb_msg-frame requests written 100 10 (request 3 4) (request 0 0) (3 ∷ 4 ∷ [])
      request_3 (omega arith)
      (serialize_rdma_pb_msg-frame requests zeros 100 64 (request 3 4) (3 ∷ 4 ∷ []) request_3
        (omega arith)).1

-- The queue pair cannot be made.
abbrev system : System
system = record {
  page_size = 4096;
  dev_context = none;
  comp_channel_made = true;
  nonblocking_set = true;
  pd_made = true;
  device_queried = true;
  port_queried = true;
  max_qp_wr = 1024;
  cq_made = true;
  notify_requested = true;
  mr_made = true;
  qp_made = false;
  qp_initialised = true;
  base = 4096;
  zeroed = zeros;
}

create_objects-clean_example :
    live_after (create_objects system 4).1 []
    ≡ some (elim (create_objects system 4).0 [ none ↦ all_objects | some error ↦ [] ])
create_objects-clean_example = create_objects-clean system 4 refl

abbrev conn : RdmaConnection
conn = construct zeros 4096 64 4

construct-Apart_example : Apart 4096 64 (bufpair_at conn 1) (bufpair_at conn 3)
construct-Apart_example =
    construct-Apart zeros 4096 64 4 1 3 (omega arith) (omega arith) (omega arith)

abbrev remote : RdmaExchangeInfo
remote = record { recv_addr = 8192; recv_len = 64; recv_rkey = 5 }

connect_qp-rq_example : (connect_qp verbs true true remote conn).1 ≡ record conn {
  rq = conn.rq ++ map (recv_of conn) (ids_from 0 (length conn.bufpairs));
  remote_mem = 8192;
  remote_len = 64;
  remote_rkey = 5;
}
unfolding connect_qp fill_rq fill_from post_recv construct add_bufpairs
connect_qp-rq_example = connect_qp-rq verbs true true remote conn refl

-- The callbacks count.
abbrev counters : Callbacks ℕ
counters = record {
  recv_success = λ n c addr len. (n + len, c);
  send_complete_success = λ n c wr_id. (n, c);
}

counters-Keeps : Keeps counters
counters-Keeps = record {
  after_recv = λ s c addr len. record { bufpairs = refl; posted = sym (append-nil c.rq) };
  after_send = λ s c wr_id. record { bufpairs = refl; posted = sym (append-nil c.rq) };
}

abbrev polls : List (Option (List Wc))
polls =
    some (
      record { ok = true; opcode = recv; wr_id = 2; byte_len = 10 }
      ∷ record { ok = true; opcode = send; wr_id = 7; byte_len = 0 }
      ∷ [])
    ∷ some (record { ok = true; opcode = recv; wr_id = 0; byte_len = 5 } ∷ [])
    ∷ some []
    ∷ []

abbrev read : Option (ℕ × RdmaConnection)
read = handle_read verbs counters true true true polls (0, conn)

abbrev or_conn : Option (ℕ × RdmaConnection) → ℕ × RdmaConnection
or_conn none = (0, conn)
or_conn (some st) = st

read_lem : read ≡ some ((or_conn read).0, (or_conn read).1)
unfolding handle_read poll_loop complete_all post_recv construct add_bufpairs
read_lem = refl

handle_read-Reposts_example : Reposts (received_in polls) conn (or_conn read).1
handle_read-Reposts_example =
    handle_read-Reposts verbs counters counters-Keeps (λ q. refl) true true true polls 0
      (or_conn read).0 conn (or_conn read).1 read_lem

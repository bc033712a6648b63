-- ===== src/Tests/Delivery.antt =====
-- A session over a registry with one layer of two segments.
use atc2025_poby.Base.{
  ◌<◌, ℕ, ◌+◌, ◌≡◌, refl, ap, sym, ◌∙◌, le32, subst, subst₂, some_eq, true, Option, none, some,
  List, [], ◌∷◌, String, eq_iff, length, arith,
}
use atc2025_poby.Rdma.Connection.{RdmaConnection, SendWr, construct, add_bufpairs, ids_from, send}
use atc2025_poby.Wire.RdmaFrame.{serialize_rdma_pb_msg}
use atc2025_poby.BlobPool.{BlobPool, new_pool}
use atc2025_poby.Content.Messages.{ContentElement}
use atc2025_poby.Content.Client
use atc2025_poby.Content.Client.{ContentClient}
use atc2025_poby.Content.Server.{FileSystem, get_int_from_file, layer_response}
use atc2025_poby.Content.Order.{Key}
use atc2025_poby.Content.Session.{Session, Step, here}
use atc2025_poby.Content.Session.Invariant.Registry.{Setting, Listed}
use atc2025_poby.Content.Session.Delivery.{Running, answer_possible}
use atc2025_poby.Content.Session.Start.{Fresh, blank, fetch_all, on_connected-Running}
use atc2025_poby.Tests.Codecs.{verbs, requests, responses, listed_name}

abbrev files : FileSystem
files = record {
  file_size = λ path. some 2;
  file2str = λ path n. some (7 ∷ 8 ∷ 0 ∷ []);
  open_int = λ path. some (some 2);
}

abbrev setting : Setting
setting = record {
  segments = λ layer. 2;
  content = λ layer index. 7 ∷ 8 ∷ [];
  size = 1024;
  server_size = 1024;
  bufs = 2;
  limit = 16;
}

listed_a : Listed verbs requests responses files true "r" setting "a" "i"
unfolding get_int_from_file layer_response
listed_a = record {
  sendable = λ index total lt le. (
    index ∷ total ∷ [],
    record { encoded = ground (arith, lt, le); small = omega arith },
    omega arith,
  );
  counts = refl;
  some_segment = omega arith;
  few_segments = omega arith;
  holds = λ index total lt. record {
    tail = 0 ∷ [];
    sized = refl;
    read = refl;
    not_empty = omega arith;
    terminated = omega arith;
  };
  answerable = λ index total lt. (
    index ∷ 2 ∷ 2 ∷ 1 ∷ [],
    record { encoded = ground (arith, lt); small = omega arith },
    omega arith,
    omega arith,
  );
  small = λ index. omega arith;
}

listed :
    (layer image : String)
    → listed_name layer image ≡ true
    → Listed verbs requests responses files true "r" setting layer image
listed layer image h =
    let el : "a" ≡ layer = ground (arith, eq_iff layer "a") in
    let ei : "i" ≡ image = ground (arith, eq_iff image "i") in
    subst₂ (Listed verbs requests responses files true "r" setting) el ei listed_a

accepting : (q : List SendWr) → length q < setting.bufs → verbs.send_accepted q ≡ true
accepting q lt = ground (arith, lt)

abbrev conn : RdmaConnection
conn = construct (λ a. 0) 0 4096 2

abbrev pool : BlobPool
pool = new_pool 16 1

abbrev layer_a : Key
layer_a = record { layer = "a"; image = "i" }

fresh :
    Fresh verbs requests responses files true "r" setting accepting listed_name listed conn conn
      pool
unfolding construct add_bufpairs ids_from new_pool
fresh = record {
  unused = refl;
  room = omega arith;
  bufs = refl;
  some_buf = omega arith;
  blobs = record { uniform = record { each = (refl, tt) }; large = omega arith };
  server_room = omega arith;
  server_unused = refl;
  server_free = omega arith;
}

abbrev or_new : Option ContentClient → ContentClient
or_new none = Client.new_client
or_new (some c) = c

abbrev fetched_a : Session
fetched_a =
    fetch_all
      (blank verbs requests responses files true "r" setting accepting listed_name listed pool conn)
      (layer_a ∷ [])

-- The first request is on its way.
abbrev client_1 : ContentClient
client_1 = or_new (Client.on_connected verbs requests responses fetched_a.client conn)

abbrev session_1 : Session
session_1 = record fetched_a { client = client_1 }

abbrev or_conn : Option RdmaConnection → RdmaConnection
or_conn none = conn
or_conn (some c) = c

connected_1 : Client.on_connected verbs requests responses fetched_a.client conn ≡ some client_1
unfolding Client.on_connected Client.try_send_requests Client.send_requests Client.can_send
    Client.send_request Client.enqueue_request construct add_bufpairs ids_from
connected_1 = refl

session_1-Running :
    Running verbs requests responses files true "r" setting accepting listed_name listed session_1
session_1-Running =
    let (c, e, r) =
      on_connected-Running verbs requests responses files true "r" setting accepting listed_name
        listed conn conn pool layer_a [] fresh (refl, refl, tt) in
    subst
      (λ d.
        Running verbs requests responses files true "r" setting accepting listed_name listed
          (record fetched_a { client = d }))
      (some_eq (sym e ∙ connected_1)) r

abbrev conn_1 : RdmaConnection
conn_1 = or_conn client_1.conn

conn_1_lem : session_1.client.conn ≡ some conn_1
unfolding Client.on_connected Client.try_send_requests Client.send_requests Client.can_send
    Client.send_request Client.enqueue_request construct add_bufpairs ids_from serialize_rdma_pb_msg
    le32
conn_1_lem = refl

busy_1 : length conn_1.sq ≡ 1
unfolding Client.on_connected Client.try_send_requests Client.send_requests Client.can_send
    Client.send_request Client.enqueue_request construct add_bufpairs ids_from serialize_rdma_pb_msg
    le32 send
busy_1 = refl

answer_possible_example :
    (u : Session) × Step verbs requests responses files true "r" 1024 1024 listed_name session_1 u
    × (length u.client.submitted ≡ length session_1.client.submitted + 1)
answer_possible_example =
    answer_possible verbs requests responses files true "r" setting accepting listed_name listed
      session_1 session_1 conn_1 session_1-Running here conn_1_lem
      (λ e. absurd (omega (arith, busy_1, ap length e)))

segment : ℕ → ContentElement
segment i = record {
  segment = record { cap = 16; size = 2; bytes = 7 ∷ 8 ∷ [] };
  segment_idx = i;
  total_segments = 2;
  layer = "a";
  image_name_tag = "i";
  is_compressed = true;
}

-- Both segments came, and nothing is in flight.
abbrev session_end : Session
session_end = record fetched_a {
  client = record Client.new_client { conn = some conn; submitted = segment 0 ∷ segment 1 ∷ [] };
}

-- ===== src/Host/Offload.antt =====
-- src/host/client/offload_client_epoll.cc: images are offloaded to the DPU, and a client is answered when
-- the last layer of its image is there. `none` is a fault: a failed assertion, or a buffer that is not
-- there.
pub mod Intact
pub mod Answers
use atc2025_poby.Base.{
  ℕ, zero, suc, ◌+◌, ◌-◌, ◌^◌, Bool, true, false, Option, none, some, List, [], ◌∷◌, ◌++◌, map,
  String, str_eq, ltb, ◌==◌, if◌then◌else◌, ◌>>=◌, length, u32, u64, minus_one, le32, from_le32,
  cat, before_colon,
}
use atc2025_poby.Memory.{Memory, load, store}
use atc2025_poby.Wire.Codec.{Codec}
use atc2025_poby.Wire.RdmaFrame.{parse_rdma_pb_msg, serialize_rdma_pb_msg}
use atc2025_poby.Rdma.Connection.{
  RdmaConnection, SendBuf, Verbs, acquire_free_send_buf, release_send_buf, send,
}
use atc2025_poby.Host.Command.{CreateContainerResponse, OffloadElement}

pub record OffloadRequest : Type 0 where
  pub image_name_tag : String
  pub layers : List String

pub record OffloadResponse : Type 0 where
  pub image_name_tag : String
  pub success : Bool

pub record DecompressConnectionRequest : Type 0 where
  pub connection : Bool

pub record DecompressConnectionResponse : Type 0 where
  pub connection : Bool

-- `MsgType`, as it is written.
abbrev pub decompress_connection : ℕ
decompress_connection = 0

abbrev pub offload_type : ℕ
offload_type = 1

pub record TaskInfo : Type 0 where
  pub total_layers : ℕ
  pub untar_layers : ℕ
  pub conn : ℕ

pub record UntarResult : Type 0 where
  pub layer : String
  pub image_name_tag : String
  pub success : Bool

-- The files: the digests of the layers of a manifest, and whether there is a configuration, where they
-- can be read and parsed.
pub record Files : Type 0 where
  pub manifest_from_file : String → Option (List String)
  pub config_from_file : String → Bool

-- `responses` are those handed to `sendTcpPbMsg`, each with its TCP connection, in order.
pub record OffloadClient : Type 0 where
  pub metadata_path : String
  pub metadatas : List (String × List String)
  pub tasks : List (String × TaskInfo)
  pub pending_tasks : List OffloadElement
  pub inflight_sends : List ℕ
  pub connected : Bool
  pub conn : Option RdmaConnection
  pub wr_id : ℕ
  pub responses : List (ℕ × CreateContainerResponse)

-- A map, with each key once.
module _ {V : Type 0} where
  abbrev pub find : String → List (String × V) → Option V
  find k [] = none
  find k (entry ∷ entries) = if str_eq entry.0 k then some entry.1 else find k entries

  -- `emplace` leaves an entry that is there.
  abbrev pub emplace_in : Option V → String → V → List (String × V) → List (String × V)
  emplace_in none k x entries = (k, x) ∷ entries
  emplace_in (some y) k x entries = entries

  abbrev pub emplace : String → V → List (String × V) → List (String × V)
  emplace k x entries = emplace_in (find k entries) k x entries

  abbrev pub erase : String → List (String × V) → List (String × V)
  erase k [] = []
  erase k (entry ∷ entries) =
      let rest = erase k entries in if str_eq entry.0 k then rest else entry ∷ rest

  -- A write through the iterator of an entry.
  abbrev pub update : String → V → List (String × V) → List (String × V)
  update k x [] = []
  update k x (entry ∷ entries) =
      let rest = update k x entries in if str_eq entry.0 k then (k, x) ∷ rest else entry ∷ rest

abbrev pub response_for : String → CreateContainerResponse
response_for image = record { success = true; duration = 0; path = cat "untar/" image }

-- The task is erased before its connection is read. `erased` is what the read then gives, `none` a fault.
module _ (erased : TaskInfo → Option ℕ) where
  abbrev pub completed : OffloadClient → String → TaskInfo → Option OffloadClient
  completed c image task =
      let counted = record task { untar_layers = u32 (task.untar_layers + 1) } in
      if counted.untar_layers == counted.total_layers
      then (erased counted >>= λ conn. some (record c {
        tasks = erase image c.tasks;
        responses = c.responses ++ (conn, response_for image) ∷ [];
      }))
      else some (record c { tasks = update image counted c.tasks })

  -- `completeTask`, in the event loop. Whether the layer was unpacked is not looked at.
  unfoldable pub complete_task : OffloadClient → UntarResult → Option OffloadClient
  complete_task c res =
      find res.image_name_tag c.tasks >>= λ task. completed c res.image_name_tag task

  -- In the order in which the unpacking threads hand them to the loop.
  unfoldable pub complete_tasks : List UntarResult → OffloadClient → Option OffloadClient
  unfolding complete_task
  complete_tasks [] c = some c
  complete_tasks (res ∷ rest) c = complete_task c res >>= complete_tasks rest

module _ (v : Verbs) (files : Files) (connection_requests : Codec DecompressConnectionRequest)
    (connection_responses : Codec DecompressConnectionResponse)
    (offload_requests : Codec OffloadRequest) (offload_responses : Codec OffloadResponse) where
  abbrev metadata_of : String → String → String
  metadata_of path image = cat path (cat "/" (cat (before_colon image) ":latest/"))

  abbrev load_from : OffloadClient → String → Option (List String) → Bool → Bool × OffloadClient
  load_from c image none config = (false, c)
  load_from c image (some layers) false = (false, c)
  load_from c image (some layers) true =
      (true, record c { metadatas = (image, layers) ∷ c.metadatas })

  abbrev load_unless : OffloadClient → String → Option (List String) → Bool × OffloadClient
  load_unless c image (some layers) = (true, c)
  load_unless c image none =
      let base = metadata_of c.metadata_path image in
      load_from c image (files.manifest_from_file (cat base "manifest.json"))
        (files.config_from_file (cat base "config"))

  unfoldable pub load_metadata : OffloadClient → String → Bool × OffloadClient
  unfolding before_colon
  load_metadata c image = load_unless c image (find image c.metadatas)

  -- The send of a frame behind its type; false where it could not be written.
  abbrev post : OffloadClient → RdmaConnection → SendBuf → ℕ × Memory → Bool × OffloadClient
  post c conn buf (frame_len, mem) =
      let conn' = record conn { mem = mem } in
      if frame_len == minus_one then (false, record c { conn = some conn' }) else (
        true,
        record c {
          conn = some (send v conn' buf.addr (u32 (frame_len + 4)) c.wr_id);
          wr_id = u64 (c.wr_id + 1);
        },
      )

  abbrev layers_or_none : Option (List String) → List String
  layers_or_none none = []
  layers_or_none (some layers) = layers

  abbrev offload_loaded :
      OffloadClient → RdmaConnection → OffloadElement → SendBuf → Bool × OffloadClient
  offload_loaded c conn task buf =
      let image = task.image_name_tag in
      let layers = layers_or_none (find image c.metadatas) in
      let noted = record c {
        tasks =
            emplace image
              (record { total_layers = u32 (length layers); untar_layers = 0; conn = task.conn })
              c.tasks;
        inflight_sends = c.inflight_sends ++ buf.id ∷ [];
      } in
      post noted conn buf (
        serialize_rdma_pb_msg offload_requests (store conn.mem buf.addr (le32 offload_type))
          (buf.addr + 4) (u32 (buf.cap + 2 ^ 32 - 4))
          (record { image_name_tag = image; layers = layers }))

  -- Where the metadata cannot be loaded, the buffer is not given back.
  abbrev offload_if :
      Bool × OffloadClient → RdmaConnection → OffloadElement → SendBuf → Bool × OffloadClient
  offload_if (true, c) conn task buf = offload_loaded c conn task buf
  offload_if (false, c) conn task buf = (false, record c { conn = some conn })

  unfoldable pub offload_task_to_dpu :
      OffloadClient → RdmaConnection → OffloadElement → SendBuf → Bool × OffloadClient
  unfolding load_metadata send
  offload_task_to_dpu c conn task buf =
      offload_if (load_metadata c task.image_name_tag) conn task buf

  abbrev try_with :
      OffloadClient → List OffloadElement → Option SendBuf × RdmaConnection → Bool × OffloadClient
  try_with c [] acquired = (true, c)
  try_with c (task ∷ rest) (none, conn) = (true, record c { conn = some conn })
  try_with c (task ∷ rest) (some buf, conn) =
      offload_task_to_dpu (record c { pending_tasks = rest }) conn task buf

  -- Whatever becomes of the first task, it leaves the queue.
  unfoldable pub try_offload_task : OffloadClient → RdmaConnection → Bool × OffloadClient
  unfolding offload_task_to_dpu acquire_free_send_buf
  try_offload_task c conn = try_with c c.pending_tasks (acquire_free_send_buf conn)

  -- A task that comes before the connection is up only waits.
  unfoldable pub offload : OffloadClient → OffloadElement → Option OffloadClient
  unfolding try_offload_task
  offload c task =
      let queued = record c { pending_tasks = c.pending_tasks ++ task ∷ [] } in
      let tried = queued.conn >>= λ conn. some (try_offload_task queued conn).1 in
      if c.connected then tried else some queued

  unfoldable pub handle_offload_response : OffloadClient → RdmaConnection → Bool × OffloadClient
  unfolding try_offload_task
  handle_offload_response c conn = try_offload_task c conn

  unfoldable pub handle_decompress_connection_response :
      OffloadClient → RdmaConnection → Bool × OffloadClient
  unfolding try_offload_task
  handle_decompress_connection_response c conn =
      try_offload_task (record c { connected = true }) conn

  abbrev request_connection : OffloadClient → Option SendBuf × RdmaConnection → Option OffloadClient
  request_connection c (none, conn) = none
  request_connection c (some buf, conn) =
      some
        (post (record c { inflight_sends = c.inflight_sends ++ buf.id ∷ [] }) conn buf
          (serialize_rdma_pb_msg connection_requests
            (store conn.mem buf.addr (le32 decompress_connection)) (buf.addr + 4)
            (u32 (buf.cap + 2 ^ 32 - 4)) (record { connection = true }))).1

  unfoldable pub on_connected : OffloadClient → RdmaConnection → Option OffloadClient
  unfolding acquire_free_send_buf send
  on_connected c conn = request_connection c (acquire_free_send_buf conn)

  -- `!parse(...)` holds only of a result 0. Nothing of the messages is used but their type.
  abbrev dispatch : OffloadClient → RdmaConnection → ℕ → ℕ → ℕ → OffloadClient
  dispatch c conn recv_buf recv_len type =
      if type == decompress_connection
      then (if (parse_rdma_pb_msg connection_responses conn.mem (recv_buf + 4) (recv_len - 4)
              connection_responses.blank).0
            == 0
          then c
          else (handle_decompress_connection_response c conn).1)
      else if type == offload_type
      then (if (parse_rdma_pb_msg offload_responses conn.mem (recv_buf + 4) (recv_len - 4)
              offload_responses.blank).0
            == 0
          then c
          else (handle_offload_response c conn).1)
      else c

  abbrev pop_inflight : List ℕ → Option (ℕ × List ℕ)
  pop_inflight [] = none
  pop_inflight (id ∷ rest) = some (id, rest)

  unfoldable pub on_recv_success : OffloadClient → RdmaConnection → ℕ → ℕ → Option OffloadClient
  unfolding release_send_buf handle_offload_response handle_decompress_connection_response
  on_recv_success c conn recv_buf recv_len =
      if ltb recv_len 4
      then some c
      else pop_inflight c.inflight_sends >>= λ popped.
          let released = release_send_buf conn popped.0 in
          some (
            dispatch (record c { conn = some released; inflight_sends = popped.1 }) released
              recv_buf recv_len (from_le32 (load conn.mem recv_buf 4)))

-- ===== src/Content/Server.antt =====
-- src/host/server/content_server.cc: the registry, which answers a request for a segment with the
-- segment's bytes behind a response frame.
pub mod Answering
use atc2025_poby.Base.{
  assert, ℕ, zero, suc, ◌+◌, ◌-◌, ◌^◌, Bool, true, false, not, ◌&&◌, Option, none, some, List, [],
  ◌∷◌, ◌++◌, String, ltb, leb, ◌==◌, if◌then◌else◌, ◌>>=◌, length, u32, u64, minus_one, cat,
  to_string,
}
use atc2025_poby.Memory.{Memory, load, store}
use atc2025_poby.Wire.Codec.{Codec}
use atc2025_poby.Wire.RdmaFrame.{parse_rdma_pb_msg, serialize_rdma_pb_msg}
use atc2025_poby.Rdma.Connection.{
  RdmaConnection, SendBuf, Verbs, acquire_free_send_buf, release_send_buf, send,
}
use atc2025_poby.Content.Messages.{GetLayerRequest, GetLayerResponse}

-- The file system, by iSulad's `util_file_size` (`none` for a negative result), `util_file2str` (the
-- bytes that it writes, `none` for a negative result), and `ifstream`: `none` where the file cannot be
-- opened, and else the `int` read from it, if one can be.
pub record FileSystem : Type 0 where
  pub file_size : String → Option ℕ
  pub file2str : String → ℕ → Option (List ℕ)
  pub open_int : String → Option (Option ℕ)

unfoldable pub get_int_from_file : FileSystem → String → ℕ
get_int_from_file fs path = elim (fs.open_int path) [
  | none ↦ minus_one
  | some none ↦ minus_one
  | some (some value) ↦ value
]

unfoldable pub index_path : String → String → ℕ → String
index_path registry layer index =
    cat registry (cat "/" (cat layer (cat "/" (cat (to_string index) ".tar.gz"))))

unfoldable pub total_segments_path : String → String → String
total_segments_path registry layer = cat registry (cat "/" (cat layer "/total_segment.txt"))

module _ (v : Verbs) (requests : Codec GetLayerRequest) (responses : Codec GetLayerResponse)
    (fs : FileSystem) (layer_is_compressed : Bool) (registry_path : String) where
  unfoldable pub layer_response : GetLayerRequest → ℕ → GetLayerResponse
  layer_response req segment_size = record {
    layer = req.layer;
    image_name_tag = req.image_name_tag;
    index = req.index;
    total_segments = get_int_from_file fs (total_segments_path registry_path req.layer);
    segment_size = u32 segment_size;
    is_compressed = layer_is_compressed;
  }

  -- `send_buf + frame_len`, where -1 steps back.
  abbrev after_frame : ℕ → ℕ → ℕ
  after_frame addr frame_len = if frame_len == minus_one then addr - 1 else addr + frame_len

  -- Where the file cannot be read the buffer is not given back. A file that is read past the end of the
  -- buffer is a fault. The buffer is given back at once, while the send is only posted.
  abbrev send_segment : RdmaConnection → SendBuf → ℕ → ℕ → Option (List ℕ) → Option RdmaConnection
  send_segment conn buf frame_len segment_size none = some conn
  send_segment conn buf frame_len segment_size (some bytes) =
      let start = after_frame buf.addr frame_len in
      let filled = record conn { mem = store conn.mem start bytes } in
      assert (leb (start + length bytes) (buf.addr + buf.cap))
        (some (release_send_buf (send v filled buf.addr (u32 (frame_len + segment_size)) 0) buf.id))

  -- The result of the serialization is not tested.
  abbrev respond_in :
      GetLayerRequest → String → ℕ → Option SendBuf × RdmaConnection → Option RdmaConnection
  respond_in req path segment_size (none, conn) = none
  respond_in req path segment_size (some buf, conn) =
      let (frame_len, mem) =
        serialize_rdma_pb_msg responses conn.mem buf.addr buf.cap
          (layer_response req segment_size) in
      send_segment (record conn { mem = mem }) buf frame_len segment_size
        (fs.file2str path (segment_size + 1))

  abbrev respond : RdmaConnection → GetLayerRequest → String → Option ℕ → Option RdmaConnection
  respond conn req path none = some conn
  respond conn req path (some size) =
      if size == 0 then some conn else respond_in req path size (acquire_free_send_buf conn)

  -- A bad digest and a missing file are only logged. `!parse(...)` holds only of a result 0.
  unfoldable pub on_recv_success : RdmaConnection → ℕ → ℕ → Option RdmaConnection
  unfolding acquire_free_send_buf layer_response
  on_recv_success conn recv_buf recv_len =
      let (frame_len, req) = parse_rdma_pb_msg requests conn.mem recv_buf recv_len requests.blank in
      if frame_len == 0
      then some conn
      else let path = index_path registry_path req.layer req.index in
        respond conn req path (fs.file_size path)

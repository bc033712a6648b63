-- ===== src/Dpu/Decompress.antt =====
-- src/dpu/decompress_client_epoll.h and .cc: segments are decompressed by DOCA into the memory of the
-- host, one at a time, and each is announced to the host. `none` is a fault: a failed assertion, or a
-- buffer that is not there. The clock, which only feeds log lines, is left out.
pub mod Queueing
pub mod State
use atc2025_poby.Base.{
  ℕ, zero, suc, ◌+◌, ◌-◌, ◌^◌, Bool, true, false, not, ◌&&◌, Option, none, some, List, [], ◌∷◌,
  ◌++◌, String, ltb, leb, ◌==◌, if◌then◌else◌, ◌>>=◌, assert, length, take, u32, u64, minus_one,
  le32, from_le32,
}
use atc2025_poby.Memory.{Memory, load, store}
use atc2025_poby.Wire.Codec.{Codec}
use atc2025_poby.Wire.RdmaFrame.{parse_rdma_pb_msg, serialize_rdma_pb_msg}
use atc2025_poby.Rdma.Connection.{
  RdmaConnection, SendBuf, Verbs, acquire_free_send_buf, release_send_buf, send,
}
use atc2025_poby.BlobPool.{Blob, BlobPool, release_blob}
use atc2025_poby.Content.Messages.{ContentElement}
use atc2025_poby.Doca.CompressEngine.{
  CompressEngine, acquire_free_bufpair, release_free_bufpair, fill_source, start_job, bufpair_num,
}
use atc2025_poby.Dpu.Decompress.State.{
  DecompressFinishRequest, DecompressFinishResponse, MmapInfoRequest, MmapInfoResponse, mmap_info,
  decompress_finish, JobInfo, RdmaInfo, DecompressClient, data_of, Doca,
}

abbrev no_blob : Blob
no_blob = record { cap = 0; size = 0; bytes = [] }

module _ (v : Verbs) (doca : Doca) (finish_requests : Codec DecompressFinishRequest)
    (finish_responses : Codec DecompressFinishResponse) (mmap_requests : Codec MmapInfoRequest)
    (mmap_responses : Codec MmapInfoResponse) where
  abbrev pub finish_request_of : RdmaInfo → DecompressFinishRequest
  finish_request_of info = record {
    layer_name = info.layer;
    image_name_tag = info.image_name_tag;
    segment_size = u32 info.dst_len;
    segment_idx = info.segment_idx;
    total_segments = info.total_segments;
    bufpair_id = info.mmap_id;
    data_inline = info.data_inline;
  }

  -- The send, behind a frame of `frame_len` bytes and the type.
  abbrev pub post_finish :
      DecompressClient → RdmaConnection → SendBuf → RdmaInfo → ℕ × Memory → DecompressClient
  post_finish c conn buf info (frame_len, mem) =
      let conn' = record conn { mem = mem } in
      if frame_len == minus_one
      then record c { conn = some conn' }
      else if info.data_inline
      then record c {
        conn = some (
            send v
              (record conn' {
                mem =
                    store mem (buf.addr + frame_len + 4)
                      (take (u32 info.dst_len) info.segment.bytes);
              })
              buf.addr (u32 (frame_len + 4 + u32 info.dst_len)) c.wr_id);
        wr_id = u64 (c.wr_id + 1);
        blob_pool = release_blob c.blob_pool info.segment;
      }
      else record c {
        conn = some (send v conn' buf.addr (u32 (frame_len + 4)) c.wr_id);
        wr_id = u64 (c.wr_id + 1);
      }

  unfoldable pub send_decompress_finish_request :
      DecompressClient → RdmaConnection → RdmaInfo → SendBuf → DecompressClient
  unfolding send release_blob
  send_decompress_finish_request c conn info buf =
      post_finish (record c { inflight_sends = c.inflight_sends ++ buf.id ∷ [] }) conn buf info
        (serialize_rdma_pb_msg finish_requests (store conn.mem buf.addr (le32 decompress_finish))
          (buf.addr + 4) (u32 (buf.cap + 2 ^ 32 - 4)) (finish_request_of info))

  -- Send, or wait for a buffer.
  abbrev pub send_or_wait :
      DecompressClient → RdmaInfo → Option SendBuf × RdmaConnection → DecompressClient
  send_or_wait c info (some buf, conn) = send_decompress_finish_request c conn info buf
  send_or_wait c info (none, conn) = record c {
    conn = some conn;
    pending_rdma_jobs = c.pending_rdma_jobs ++ info ∷ [];
  }

  unfoldable pub announce : DecompressClient → RdmaInfo → Option DecompressClient
  unfolding acquire_free_send_buf send_decompress_finish_request
  announce c info = c.conn >>= λ conn. some (send_or_wait c info (acquire_free_send_buf conn))

  -- After the copy of the segment, where DOCA takes the data.
  abbrev launch : DecompressClient → ContentElement → ℕ → Option (Bool × DecompressClient)
  launch c task bufpair_id = start_job c.compress_engine c.job_id bufpair_id >>= λ engine. some (
    true,
    record c {
      compress_engine = engine;
      blob_pool = release_blob c.blob_pool task.segment;
      job_id = u64 (c.job_id + 1);
      decompress_busy = true;
    },
  )

  unfoldable pub start_decompress_job :
      DecompressClient → ContentElement → ℕ → Option (Bool × DecompressClient)
  unfolding fill_source start_job release_blob
  start_decompress_job c task bufpair_id =
      let filled = record c {
        compress_job = record {
          image_name_tag = task.image_name_tag;
          layer = task.layer;
          bufpair_id = bufpair_id;
          total_segments = task.total_segments;
          segment_idx = task.segment_idx;
        };
        compress_engine = fill_source c.compress_engine bufpair_id (data_of task.segment);
      } in
      assert (leb task.segment.size c.compress_engine.src_mem_size) (
        if doca.data_set (data_of task.segment)
        then launch filled task bufpair_id
        else some (false, filled))

  -- The job leaves the queue where it was started. Where it was not, it stays, and its names have been moved
  -- from.
  abbrev pub popped :
      ContentElement → List ContentElement → Bool × DecompressClient → Bool × DecompressClient
  popped task rest (true, c) = (true, record c { pending_compress_jobs = rest })
  popped task rest (false, c) = (
    false,
    record c {
      pending_compress_jobs =
          record task {
            layer = doca.moved_from task.layer;
            image_name_tag = doca.moved_from task.image_name_tag;
          }
          ∷ rest;
    },
  )

  abbrev pub try_with :
      DecompressClient
      → List ContentElement
      → Option ℕ × CompressEngine
      → Option (Bool × DecompressClient)
  try_with c [] acquired = some (true, c)
  try_with c (task ∷ rest) (none, engine) = some (true, record c { compress_engine = engine })
  try_with c (task ∷ rest) (some id, engine) =
      start_decompress_job (record c { compress_engine = engine }) task id >>= λ r.
      some (popped task rest r)

  unfoldable pub try_start_decompress_job : DecompressClient → Option (Bool × DecompressClient)
  unfolding start_decompress_job acquire_free_bufpair
  try_start_decompress_job c =
      assert (c.connected && not c.decompress_busy)
        (try_with c c.pending_compress_jobs (acquire_free_bufpair c.compress_engine))

  -- The result is only logged by the callers.
  abbrev pub try_start : DecompressClient → Option DecompressClient
  try_start c = try_start_decompress_job c >>= λ r. some r.1

  abbrev pub enqueue_job : DecompressClient → ContentElement → Option DecompressClient
  enqueue_job c content =
      let queued = record c { pending_compress_jobs = c.pending_compress_jobs ++ content ∷ [] } in
      let started = try_start queued in
      if c.connected && not c.decompress_busy then started else some queued

  -- `submitDecompressTask`, in the event loop.
  unfoldable pub submit_decompress_task :
      DecompressClient → ContentElement → Option DecompressClient
  unfolding try_start_decompress_job announce
  submit_decompress_task c content =
      if content.is_compressed
      then enqueue_job c content
      else announce c (record {
        image_name_tag = content.image_name_tag;
        layer = content.layer;
        total_segments = content.total_segments;
        segment_idx = content.segment_idx;
        dst_len = content.segment.size;
        mmap_id = 0;
        data_inline = true;
        segment = content.segment;
      })

  abbrev pub info_of : JobInfo → ℕ → RdmaInfo
  info_of job dst_len = record {
    image_name_tag = job.image_name_tag;
    layer = job.layer;
    total_segments = job.total_segments;
    segment_idx = job.segment_idx;
    dst_len = dst_len;
    mmap_id = job.bufpair_id;
    data_inline = false;
    segment = no_blob;
  }

  -- `dst_len` is the number of bytes that DOCA wrote.
  unfoldable pub on_decompress_task_success : DecompressClient → ℕ → Option DecompressClient
  unfolding try_start_decompress_job announce
  on_decompress_task_success c dst_len = announce c (info_of c.compress_job dst_len) >>= λ told.
      try_start (record told { decompress_busy = false })

  -- The oldest of the announcements that wait, in a buffer that must be there.
  abbrev pub announce_next :
      DecompressClient → List RdmaInfo → Option SendBuf × RdmaConnection → Option DecompressClient
  announce_next c [] acquired = some c
  announce_next c (info ∷ rest) (none, conn) = none
  announce_next c (info ∷ rest) (some buf, conn) =
      some (send_decompress_finish_request (record c { pending_rdma_jobs = rest }) conn info buf)

  abbrev pub give_back : DecompressClient → ℕ → Option DecompressClient
  give_back c bufpair_id = release_free_bufpair c.compress_engine bufpair_id >>= λ engine.
      let freed = record c { compress_engine = engine } in
      let started = try_start freed in if c.decompress_busy then some freed else started

  -- What follows the announcement.
  abbrev pub finish : DecompressClient → DecompressFinishResponse → Option DecompressClient
  finish c resp =
      let given = give_back c resp.bufpair_id in
      if resp.data_inline then some (record c { dma_busy = false }) else given

  unfoldable pub handle_decompress_finish_response :
      DecompressClient → DecompressFinishResponse → Option DecompressClient
  unfolding try_start_decompress_job release_free_bufpair acquire_free_send_buf
      send_decompress_finish_request
  handle_decompress_finish_response c resp = do
    conn ← c.conn
    c' ← announce_next c c.pending_rdma_jobs (acquire_free_send_buf conn)
    finish c' resp

  unfoldable pub handle_mmap_info_response :
      DecompressClient → MmapInfoResponse → Option DecompressClient
  unfolding try_start_decompress_job
  handle_mmap_info_response c resp =
      let started = try_start (record c { connected = true }) in
      if doca.src_started
      then assert (bufpair_num c.compress_engine == length resp.mmaps)
          (if doca.dst_created resp.mmaps then started else some c)
      else some c

  abbrev pub post_mmap : DecompressClient → RdmaConnection → SendBuf → ℕ × Memory → DecompressClient
  post_mmap c conn buf (frame_len, mem) =
      let conn' = record conn { mem = mem } in
      if frame_len == minus_one then record c { conn = some conn' } else record c {
        conn = some (send v conn' buf.addr (u32 (frame_len + 4)) c.wr_id);
        wr_id = u64 (c.wr_id + 1);
      }

  abbrev pub request_mmaps :
      DecompressClient → Option SendBuf × RdmaConnection → Option DecompressClient
  request_mmaps c (none, conn) = none
  request_mmaps c (some buf, conn) = some (
      post_mmap (record c { inflight_sends = c.inflight_sends ++ buf.id ∷ [] }) conn buf
        (serialize_rdma_pb_msg mmap_requests (store conn.mem buf.addr (le32 mmap_info))
          (buf.addr + 4) (u32 (buf.cap + 2 ^ 32 - 4))
          (record { mmap_num = bufpair_num c.compress_engine })))

  unfoldable pub on_connected : DecompressClient → RdmaConnection → Option DecompressClient
  unfolding acquire_free_send_buf send bufpair_num
  on_connected c conn = request_mmaps c (acquire_free_send_buf conn)

  abbrev pop_inflight : List ℕ → Option (ℕ × List ℕ)
  pop_inflight [] = none
  pop_inflight (id ∷ rest) = some (id, rest)

  -- `!parse(...)` holds only of a result 0, so a message that does not parse is handled as it was left.
  abbrev dispatch : DecompressClient → Memory → ℕ → ℕ → ℕ → Option DecompressClient
  dispatch c mem recv_buf recv_len type =
      let mmaps =
        parse_rdma_pb_msg mmap_responses mem (recv_buf + 4) (recv_len - 4) mmap_responses.blank in
      let finished =
        parse_rdma_pb_msg finish_responses mem (recv_buf + 4) (recv_len - 4)
          finish_responses.blank in
      let handled_mmaps = handle_mmap_info_response c mmaps.1 in
      let handled_finish = handle_decompress_finish_response c finished.1 in
      if type == mmap_info
      then (if mmaps.0 == 0 then some c else handled_mmaps)
      else if type == decompress_finish
      then (if finished.0 == 0 then some c else handled_finish)
      else some c

  unfoldable pub on_recv_success :
      DecompressClient → RdmaConnection → ℕ → ℕ → Option DecompressClient
  unfolding release_send_buf handle_mmap_info_response handle_decompress_finish_response
  on_recv_success c conn recv_buf recv_len =
      if ltb recv_len 4
      then some c
      else pop_inflight c.inflight_sends >>= λ popped_id.
          dispatch
            (record c {
              conn = some (release_send_buf conn popped_id.0);
              inflight_sends = popped_id.1;
            })
            conn.mem recv_buf recv_len (from_le32 (load conn.mem recv_buf 4))

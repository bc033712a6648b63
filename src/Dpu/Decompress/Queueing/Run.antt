-- ===== src/Dpu/Decompress/Queueing/Run.antt =====
-- A run of the client: its events from the connection on.
use atc2025_poby.Base.{
  ℕ, zero, suc, ◌+◌, ◌≤◌, ◌<◌, ◌≡◌, ◌≢◌, ◌⊎◌, refl, sym, ap, ap₂, subst, ◌∙◌, inl, inr, Bool, true,
  false, Option, none, some, List, [], ◌∷◌, ◌++◌, arith, map, length, All, All-map,
  length-replicate, Bool-cases, ◌==◌, some_eq, none≢some, minus_one,
}
use atc2025_poby.Memory.{Memory}
use atc2025_poby.Wire.Codec.{Codec}
use atc2025_poby.Rdma.Connection.{RdmaConnection, SendBuf, Verbs, acquire_free_send_buf, ids_from}
use atc2025_poby.BlobPool.{BlobPool}
use atc2025_poby.Content.Messages.{ContentElement}
use atc2025_poby.Doca.CompressEngine.{CompressEngine, new_engine, job_done}
use atc2025_poby.Dpu.Decompress.{
  submit_decompress_task, on_decompress_task_success, handle_decompress_finish_response,
  handle_mmap_info_response, on_connected, request_mmaps, post_mmap,
}
use atc2025_poby.Dpu.Decompress.State.{
  DecompressClient, DecompressFinishRequest, DecompressFinishResponse, MmapInfoRequest,
  MmapInfoResponse, Doca, new_client,
}
use atc2025_poby.Dpu.Decompress.Queueing.Invariant.{IsRefused, Orderly, bytes_of, source_of}
use atc2025_poby.Dpu.Decompress.Queueing.Events.{
  with_element, submit_decompress_task-Orderly, on_decompress_task_success-Orderly,
}
use atc2025_poby.Dpu.Decompress.Queueing.Answers.{
  handle_decompress_finish_response-Orderly, handle_mmap_info_response-Orderly,
}

module _ (v : Verbs) (doca : Doca) (finish_requests : Codec DecompressFinishRequest)
    (finish_responses : Codec DecompressFinishResponse) (mmap_requests : Codec MmapInfoRequest)
    (mmap_responses : Codec MmapInfoResponse) where
  -- From the connection of a new client with `mem_num` buffers of `size` bytes. A segment fits a buffer,
  -- a job ends while the engine is busy, and the host answers about a buffer that there is, when a send
  -- buffer was just released.
  pub data Run (size mem_num : ℕ) (pool : BlobPool)
      : DecompressClient → List (List ℕ) → Type 0 where
    connection :
        (conn : RdmaConnection) (c : DecompressClient)
        → on_connected v doca finish_requests finish_responses mmap_requests mmap_responses
            (new_client (new_engine size mem_num) pool)
            conn
          ≡ some c
        → Run size mem_num pool c []
    submission :
        (c c' : DecompressClient) (submitted : List (List ℕ)) (content : ContentElement)
        → Run size mem_num pool c submitted
        → content.segment.size ≤ c.compress_engine.src_mem_size
        → submit_decompress_task v doca finish_requests finish_responses mmap_requests
            mmap_responses c content
          ≡ some c'
        → Run size mem_num pool c' (with_element submitted content)
    job_end :
        (c c' : DecompressClient) (submitted : List (List ℕ)) (engine : CompressEngine)
        (dst_len : ℕ)
        → Run size mem_num pool c submitted
        → c.decompress_busy ≡ true
        → job_done true true c.compress_engine ≡ some (true, engine)
        → on_decompress_task_success v doca finish_requests finish_responses mmap_requests
            mmap_responses
            (record c { compress_engine = engine })
            dst_len
          ≡ some c'
        → Run size mem_num pool c' submitted
    mapped :
        (c c' : DecompressClient) (submitted : List (List ℕ)) (resp : MmapInfoResponse)
        → Run size mem_num pool c submitted
        → c.connected ≡ false
        → handle_mmap_info_response v doca finish_requests finish_responses mmap_requests
            mmap_responses c resp
          ≡ some c'
        → Run size mem_num pool c' submitted
    answered :
        (c c' : DecompressClient) (submitted : List (List ℕ)) (resp : DecompressFinishResponse)
        (conn : RdmaConnection)
        → Run size mem_num pool c submitted
        → c.connected ≡ true
        → c.conn ≡ some conn
        → conn.free_bufpairs ≢ []
        → resp.bufpair_id < length c.compress_engine.sources
        → handle_decompress_finish_response v doca finish_requests finish_responses mmap_requests
            mmap_responses c resp
          ≡ some c'
        → Run size mem_num pool c' submitted

ids_from-bounded : (i n : ℕ) → All (λ id. id < i + n) (ids_from i n)
unfolding ids_from
ids_from-bounded i zero = tt
ids_from-bounded i (suc n) = (
  omega arith,
  All-map (λ id. id < (i + 1) + n) (λ id. id < i + suc n) (λ id h. omega arith) (ids_from (i + 1) n)
      (ids_from-bounded (i + 1) n),
)

-- A client that has only asked for the mappings.
record Fresh (size mem_num : ℕ) (c : DecompressClient) : Type 0 where
  engine : c.compress_engine ≡ new_engine size mem_num
  pending : c.pending_compress_jobs ≡ []
  busy : c.decompress_busy ≡ false
  down : c.connected ≡ false
  joined : (conn : RdmaConnection) × (c.conn ≡ some conn)

Fresh-Orderly :
    (doca : Doca) (size mem_num : ℕ) (c : DecompressClient)
    → Fresh size mem_num c
    → Orderly doca c []
unfolding new_engine
Fresh-Orderly doca size mem_num c f = record {
  queued = record {
    fifo = ap₂ (λ e p. map source_of e.jobs ++ map bytes_of p) f.engine f.pending;
    busy = ap (λ e. e.engine_busy) f.engine ∙ sym f.busy;
    idle = λ d. f.busy;
    bounded =
        subst (λ e. All (λ id. id < length e.sources) e.free_bufpairs) (sym f.engine)
          (subst (λ n. All (λ id. id < n) (ids_from 0 mem_num)) (sym (length-replicate mem_num []))
            (All-map (λ id. id < 0 + mem_num) (λ id. id < mem_num) (λ id h. omega arith)
              (ids_from 0 mem_num) (ids_from-bounded 0 mem_num)));
    sized =
        subst (λ p. All (λ x. x.segment.size ≤ c.compress_engine.src_mem_size) p) (sym f.pending)
          tt;
    joined = f.joined;
  };
  eager = λ u b. inl f.pending;
}

module _ (v : Verbs) (doca : Doca) (finish_requests : Codec DecompressFinishRequest)
    (finish_responses : Codec DecompressFinishResponse) (mmap_requests : Codec MmapInfoRequest)
    (mmap_responses : Codec MmapInfoResponse) where
  post_mmap-Fresh :
      (size mem_num : ℕ) (c : DecompressClient) (conn : RdmaConnection) (buf : SendBuf)
      (w : ℕ × Memory)
      → c.compress_engine ≡ new_engine size mem_num
      → c.pending_compress_jobs ≡ []
      → c.decompress_busy ≡ false
      → c.connected ≡ false
      → Fresh size mem_num (
          post_mmap v doca finish_requests finish_responses mmap_requests mmap_responses c conn buf
            w)
  post_mmap-Fresh size mem_num c conn buf w e p b d = elim (Bool-cases (w.0 == minus_one)) [
    | inl f ↦ rw f (record { engine = e; pending = p; busy = b; down = d; joined = (_, refl) })
    | inr f ↦ rw f (record { engine = e; pending = p; busy = b; down = d; joined = (_, refl) })
  ]

  request_mmaps-Fresh :
      (size mem_num : ℕ) (pool : BlobPool) (got : Option SendBuf × RdmaConnection)
      (c : DecompressClient)
      → request_mmaps v doca finish_requests finish_responses mmap_requests mmap_responses
          (new_client (new_engine size mem_num) pool)
          got
        ≡ some c
      → Fresh size mem_num c
  request_mmaps-Fresh size mem_num pool (none, conn) c e = none≢some e
  request_mmaps-Fresh size mem_num pool (some buf, conn) c e =
      subst (Fresh size mem_num) (some_eq e) (
        post_mmap-Fresh size mem_num
          (record (new_client (new_engine size mem_num) pool) { inflight_sends = buf.id ∷ [] }) conn
          buf _ refl refl refl refl)

  Run-Orderly :
      (size mem_num : ℕ) (pool : BlobPool) (c : DecompressClient) (submitted : List (List ℕ))
      → Run v doca finish_requests finish_responses mmap_requests mmap_responses size mem_num pool c
          submitted
      → Orderly doca c submitted
  unfolding on_connected
  Run-Orderly size mem_num pool c submitted (Run.connection conn c' e) =
      Fresh-Orderly doca size mem_num c
        (request_mmaps-Fresh size mem_num pool (acquire_free_send_buf conn) c e)
  Run-Orderly size mem_num pool c' submitted (Run.submission c d before content r fits e) =
      let (x, e', o) =
        submit_decompress_task-Orderly v doca finish_requests finish_responses mmap_requests
          mmap_responses c before content (Run-Orderly size mem_num pool c before r) fits in
      subst (λ y. Orderly doca y (with_element before content)) (some_eq (sym e' ∙ e)) o
  Run-Orderly size mem_num pool c' submitted (Run.job_end c d before engine dst_len r busy done e) =
      let (engine', x, done', e', o) =
        on_decompress_task_success-Orderly v doca finish_requests finish_responses mmap_requests
          mmap_responses c submitted dst_len (Run-Orderly size mem_num pool c submitted r) busy in
      let same : engine' ≡ engine =
        ap {A = Bool × CompressEngine} (λ p. p.1) (some_eq (sym done' ∙ done)) in
      subst (λ y. Orderly doca y submitted)
        (some_eq (
          sym e'
          ∙ ap
              (λ g.
                on_decompress_task_success v doca finish_requests finish_responses mmap_requests
                  mmap_responses (record c { compress_engine = g }) dst_len)
              same
          ∙ e))
        o
  Run-Orderly size mem_num pool c' submitted (Run.mapped c d before resp r down e) =
      handle_mmap_info_response-Orderly v doca finish_requests finish_responses mmap_requests
        mmap_responses c c' submitted resp (Run-Orderly size mem_num pool c submitted r) down e
  Run-Orderly size mem_num pool c' submitted
        (Run.answered c d before resp conn r up joined room below e) =
      let (x, e', o) =
        handle_decompress_finish_response-Orderly v doca finish_requests finish_responses
          mmap_requests mmap_responses c submitted resp conn
          (Run-Orderly size mem_num pool c submitted r) up joined room below in
      subst (λ y. Orderly doca y submitted) (some_eq (sym e' ∙ e)) o

  -- In every run, the jobs of the engine have the compressed segments in the order they were
  -- submitted in, none left out; and while the connected engine is idle, no segment waits that a
  -- free buffer could take, unless DOCA does not take the data of the first.
  pub jobs_in_order :
      (size mem_num : ℕ) (pool : BlobPool) (c : DecompressClient) (submitted : List (List ℕ))
      → Run v doca finish_requests finish_responses mmap_requests mmap_responses size mem_num pool c
          submitted
      → (map source_of c.compress_engine.jobs ++ map bytes_of c.pending_compress_jobs ≡ submitted)
        × (c.connected ≡ true
            → c.decompress_busy ≡ false
            → (c.pending_compress_jobs ≡ [])
              ⊎ ((c.compress_engine.free_bufpairs ≡ []) ⊎ IsRefused doca c.pending_compress_jobs))
  jobs_in_order size mem_num pool c submitted r =
      let o = Run-Orderly size mem_num pool c submitted r in (o.queued.fifo, o.eager)

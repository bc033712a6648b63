-- ===== src/Dpu/Decompress/Queueing.antt =====
-- The order of the decompression jobs of decompress_client_epoll.cc, and when the engine idles.
pub mod Events
pub mod Answers
pub mod Invariant
pub mod Run
use atc2025_poby.Base.{
  ℕ, zero, suc, ◌+◌, ◌≤◌, ◌<◌, ◌≡◌, ◌⊎◌, refl, sym, ap, ap₂, subst, subst₂, ◌∙◌, inl, inr, Bool,
  true, false, not, ◌&&◌, Option, none, some, List, [], ◌∷◌, ◌++◌, append_assoc, append-nil, arith,
  map, length, All, All-append, All-map, get_or, set, get_or-set, length-set, leb, Bool-cases,
  Option-cases, ◌>>=◌, assert, le→leb, u64, if◌then◌else◌, none≢some, some_eq, minus_one, ◌==◌,
  List-cases,
}
use atc2025_poby.Memory.{Memory}
use atc2025_poby.Wire.Codec.{Codec}
use atc2025_poby.Rdma.Connection.{RdmaConnection, SendBuf, Verbs, acquire_free_send_buf}
use atc2025_poby.BlobPool.{release_blob}
use atc2025_poby.Content.Messages.{ContentElement}
use atc2025_poby.Doca.CompressEngine.{
  CompressEngine, Job, back_of, acquired, acquire_free_bufpair, release_free_bufpair, fill_source,
  start_job,
}
use atc2025_poby.Dpu.Decompress.{
  send_decompress_finish_request, post_finish, finish_request_of, send_or_wait, announce,
  enqueue_job, start_decompress_job, try_with, popped, try_start_decompress_job, try_start,
}
use atc2025_poby.Dpu.Decompress.State.{
  DecompressClient, DecompressFinishRequest, DecompressFinishResponse, MmapInfoRequest,
  MmapInfoResponse, Doca, RdmaInfo, data_of,
}
use atc2025_poby.Dpu.Decompress.Queueing.Invariant.{
  bytes_of, source_of, Queued, Orderly, true≢false, both_left, both_right, back_of-All, map_snoc,
}

module _ (v : Verbs) (doca : Doca) (finish_requests : Codec DecompressFinishRequest)
    (finish_responses : Codec DecompressFinishResponse) (mmap_requests : Codec MmapInfoRequest)
    (mmap_responses : Codec MmapInfoResponse) where
  abbrev tried : DecompressClient → Option DecompressClient
  tried = try_start v doca finish_requests finish_responses mmap_requests mmap_responses

  -- The first of the queue is started.
  started :
      (c : DecompressClient) (submitted : List (List ℕ)) (task : ContentElement)
      (rest : List ContentElement) (id : ℕ) (ids : List ℕ)
      → Queued c submitted
      → c.pending_compress_jobs ≡ task ∷ rest
      → id < length c.compress_engine.sources
      → All (λ i. i < length c.compress_engine.sources) ids
      → c.connected ≡ true
      → c.decompress_busy ≡ false
      → doca.data_set (bytes_of task) ≡ true
      → (c' : DecompressClient) × (start_decompress_job v doca finish_requests finish_responses
            mmap_requests mmap_responses
            (record c { compress_engine = record c.compress_engine { free_bufpairs = ids } })
            task
            id
          ≡ some (true, c'))
        × Orderly doca (record c' { pending_compress_jobs = rest }) submitted
  unfolding start_decompress_job start_job fill_source
  started c submitted task rest id ids q e lt below up free takes =
      let engine = c.compress_engine in
      let sized = subst (All (λ x. x.segment.size ≤ engine.src_mem_size)) e q.sized in
      let sources = set engine.sources id (bytes_of task) in
      let job : Job = record {
        job_id = c.job_id;
        bufpair_id = id;
        source = get_or sources id [];
      } in
      let engine' : CompressEngine = record {
        src_mem_size = engine.src_mem_size;
        sources = sources;
        free_bufpairs = ids;
        engine_busy = true;
        ongoing_bufpair_id = id;
        jobs = engine.jobs ++ job ∷ [];
      } in
      let same_length = length-set engine.sources id (bytes_of task) in
      (
        record c {
          compress_engine = engine';
          blob_pool = release_blob c.blob_pool task.segment;
          job_id = u64 (c.job_id + 1);
          decompress_busy = true;
          compress_job = record {
            image_name_tag = task.image_name_tag;
            layer = task.layer;
            bufpair_id = id;
            total_segments = task.total_segments;
            segment_idx = task.segment_idx;
          };
        },
        rw (le→leb task.segment.size engine.src_mem_size sized.0, takes, q.busy ∙ free) refl,
        record {
          queued = record {
            fifo =
                ap (λ l. l ++ map bytes_of rest)
                  (map_snoc source_of engine.jobs job
                    ∙ ap (λ b. map source_of engine.jobs ++ b ∷ [])
                        (get_or-set engine.sources id (bytes_of task) [] (omega arith)))
                ∙ append_assoc (map source_of engine.jobs) (bytes_of task ∷ []) (map bytes_of rest)
                ∙ ap (λ l. map source_of engine.jobs ++ map bytes_of l) (sym e)
                ∙ q.fifo;
            busy = refl;
            idle = λ down. true≢false (sym up ∙ down);
            bounded = subst (λ n. All (λ i. i < n) ids) (sym same_length) below;
            sized = sized.1;
            joined = q.joined;
          };
          eager = λ u f. true≢false f;
        },
      )

  -- DOCA does not take the first of the queue, which stays.
  refused :
      (c : DecompressClient) (submitted : List (List ℕ)) (task : ContentElement)
      (rest : List ContentElement) (id : ℕ) (ids : List ℕ)
      → Queued c submitted
      → c.pending_compress_jobs ≡ task ∷ rest
      → All (λ i. i < length c.compress_engine.sources) ids
      → doca.data_set (bytes_of task) ≡ false
      → (r : Bool × DecompressClient) × (start_decompress_job v doca finish_requests
            finish_responses mmap_requests mmap_responses
            (record c { compress_engine = record c.compress_engine { free_bufpairs = ids } })
            task
            id
          ≡ some r)
        × Orderly doca
            (popped v doca finish_requests finish_responses mmap_requests mmap_responses task rest
              r).1
            submitted
  unfolding start_decompress_job fill_source
  refused c submitted task rest id ids q e below refuses =
      let engine = c.compress_engine in
      let sized = subst (All (λ x. x.segment.size ≤ engine.src_mem_size)) e q.sized in
      let sources = set engine.sources id (bytes_of task) in
      let same_length = length-set engine.sources id (bytes_of task) in
      (
        (
          false,
          record c {
            compress_engine = record engine { free_bufpairs = ids; sources = sources };
            compress_job = record {
              image_name_tag = task.image_name_tag;
              layer = task.layer;
              bufpair_id = id;
              total_segments = task.total_segments;
              segment_idx = task.segment_idx;
            };
          },
        ),
        rw (le→leb task.segment.size engine.src_mem_size sized.0, refuses) refl,
        record {
          queued = record {
            fifo = ap (λ l. map source_of engine.jobs ++ map bytes_of l) (sym e) ∙ q.fifo;
            busy = q.busy;
            idle = q.idle;
            bounded = subst (λ n. All (λ i. i < n) ids) (sym same_length) below;
            sized = sized;
            joined = q.joined;
          };
          eager = λ u f. inr (inr (_, rest, refl, refuses));
        },
      )

  allowed :
      (c : DecompressClient) (k : Option (Bool × DecompressClient))
      → c.connected ≡ true
      → c.decompress_busy ≡ false
      → assert (c.connected && not c.decompress_busy) k ≡ k
  allowed c k up free = rw (up, free) refl

  tried_with : DecompressClient → List ContentElement → List ℕ → Option DecompressClient
  tried_with c pending ids =
      try_with v doca finish_requests finish_responses mmap_requests mmap_responses c pending
        (acquired c.compress_engine ids)
      >>= λ r. some r.1

  tried-eq :
      (c : DecompressClient) (pending : List ContentElement) (ids : List ℕ)
      → c.connected ≡ true
      → c.decompress_busy ≡ false
      → c.pending_compress_jobs ≡ pending
      → c.compress_engine.free_bufpairs ≡ ids
      → tried c ≡ tried_with c pending ids
  unfolding try_start_decompress_job acquire_free_bufpair tried_with
  tried-eq c pending ids up free e f =
      ap (λ o. o >>= λ r. some r.1) (allowed c _ up free) ∙ ap₂ (tried_with c) e f

  abbrev result_of :
      ContentElement
      → List ContentElement
      → Option (Bool × DecompressClient)
      → Option DecompressClient
  result_of task rest o =
      o
      >>= (λ r.
          some (
            popped v doca finish_requests finish_responses mmap_requests mmap_responses task rest
              r))
      >>= λ r. some r.1

  -- Trying to start a job never fails, and leaves no job waiting but for a buffer or for one that is
  -- refused.
  pub try_start-Orderly :
      (c : DecompressClient) (submitted : List (List ℕ))
      → Queued c submitted
      → c.connected ≡ true
      → c.decompress_busy ≡ false
      → (c' : DecompressClient) × (tried c ≡ some c') × Orderly doca c' submitted
  unfolding tried_with
  try_start-Orderly c submitted q up free = elim (List-cases c.pending_compress_jobs) [
    | inl e ↦ (
      c,
      tried-eq c [] c.compress_engine.free_bufpairs up free e refl,
      record { queued = q; eager = λ u f. inl e },
    )
    | inr (task, rest, e) ↦ elim (List-cases c.compress_engine.free_bufpairs) [
      | inl f ↦ (
        c,
        tried-eq c (task ∷ rest) [] up free e f,
        record { queued = q; eager = λ u b. inr (inl f) },
      )
      | inr (id, ids, f) ↦
          let bounds =
            back_of-All (λ i. i < length c.compress_engine.sources) id ids
              (subst (All (λ i. i < length c.compress_engine.sources)) f q.bounded) in
          elim (Bool-cases (doca.data_set (bytes_of task))) [
            | inl takes ↦
                let (c', r, o) =
                  started c submitted task rest (back_of id ids).0 (back_of id ids).1 q e bounds.0
                    bounds.1 up free takes in
                (
                  record c' { pending_compress_jobs = rest },
                  tried-eq c (task ∷ rest) (id ∷ ids) up free e f ∙ ap (result_of task rest) r,
                  o,
                )
            | inr refuses ↦
                let (r, run, o) =
                  refused c submitted task rest (back_of id ids).0 (back_of id ids).1 q e bounds.1
                    refuses in
                (
                  (popped v doca finish_requests finish_responses mmap_requests mmap_responses task
                      rest r).1,
                  tried-eq c (task ∷ rest) (id ∷ ids) up free e f ∙ ap (result_of task rest) run,
                  o,
                )
          ]
    ]
  ]

  -- The client but for what it has of RDMA.
  pub record Same (c c' : DecompressClient) : Type 0 where
    pub engine : c'.compress_engine ≡ c.compress_engine
    pub pending : c'.pending_compress_jobs ≡ c.pending_compress_jobs
    pub busy : c'.decompress_busy ≡ c.decompress_busy
    pub up : c'.connected ≡ c.connected
    pub joined : (conn : RdmaConnection) × (c'.conn ≡ some conn)

  pub Same-Queued :
      (c c' : DecompressClient) (submitted : List (List ℕ))
      → Same c c'
      → Queued c submitted
      → Queued c' submitted
  Same-Queued c c' submitted s q = record {
    fifo = ap₂ (λ e p. map source_of e.jobs ++ map bytes_of p) s.engine s.pending ∙ q.fifo;
    busy = ap (λ e. e.engine_busy) s.engine ∙ q.busy ∙ sym s.busy;
    idle = λ d. s.busy ∙ q.idle (sym s.up ∙ d);
    bounded =
        subst (λ e. All (λ id. id < length e.sources) e.free_bufpairs) (sym s.engine) q.bounded;
    sized =
        subst₂ (λ e p. All (λ x. x.segment.size ≤ e.src_mem_size) p) (sym s.engine) (sym s.pending)
          q.sized;
    joined = s.joined;
  }

  pub post_finish-Same :
      (c : DecompressClient) (conn : RdmaConnection) (buf : SendBuf) (info : RdmaInfo)
      (w : ℕ × Memory)
      → Same c (
          post_finish v doca finish_requests finish_responses mmap_requests mmap_responses c conn
            buf info w)
  post_finish-Same c conn buf info w = elim (Bool-cases (w.0 == minus_one)) [
    | inl e ↦
        rw e (record { engine = refl; pending = refl; busy = refl; up = refl; joined = (_, refl) })
    | inr e ↦ elim (Bool-cases info.data_inline) [
      | inl f ↦
          rw (e, f)
            (record { engine = refl; pending = refl; busy = refl; up = refl; joined = (_, refl) })
      | inr f ↦
          rw (e, f)
            (record { engine = refl; pending = refl; busy = refl; up = refl; joined = (_, refl) })
    ]
  ]

  pub send_or_wait-Same :
      (c : DecompressClient) (info : RdmaInfo) (got : Option SendBuf × RdmaConnection)
      → Same c (
          send_or_wait v doca finish_requests finish_responses mmap_requests mmap_responses c info
            got)
  unfolding send_decompress_finish_request
  send_or_wait-Same c info (none, conn) = record {
    engine = refl;
    pending = refl;
    busy = refl;
    up = refl;
    joined = (conn, refl);
  }
  send_or_wait-Same c info (some buf, conn) =
      let s =
        post_finish-Same (record c { inflight_sends = c.inflight_sends ++ buf.id ∷ [] }) conn buf
          info _ in
      record { engine = s.engine; pending = s.pending; busy = s.busy; up = s.up; joined = s.joined }

  pub announce-Same :
      (c : DecompressClient) (info : RdmaInfo) (conn : RdmaConnection)
      → c.conn ≡ some conn
      → (c' : DecompressClient) × (announce v doca finish_requests finish_responses mmap_requests
            mmap_responses c info
          ≡ some c')
        × Same c c'
  unfolding announce
  announce-Same c info conn e = (
    send_or_wait v doca finish_requests finish_responses mmap_requests mmap_responses c info
        (acquire_free_send_buf conn),
    ap
        (λ o. o >>= λ k. some (
          send_or_wait v doca finish_requests finish_responses mmap_requests mmap_responses c info
            (acquire_free_send_buf k)))
        e,
    send_or_wait-Same c info (acquire_free_send_buf conn),
  )

  -- A compressed segment goes to the end of the queue, and is started at once where the engine is idle.
  pub enqueue_job-Orderly :
      (c : DecompressClient) (submitted : List (List ℕ)) (content : ContentElement)
      → Orderly doca c submitted
      → content.segment.size ≤ c.compress_engine.src_mem_size
      → (c' : DecompressClient) × (enqueue_job v doca finish_requests finish_responses mmap_requests
            mmap_responses c content
          ≡ some c')
        × Orderly doca c' (submitted ++ bytes_of content ∷ [])
  enqueue_job-Orderly c submitted content o fits =
      let queued : DecompressClient = record c {
        pending_compress_jobs = c.pending_compress_jobs ++ content ∷ [];
      } in
      let q : Queued queued (submitted ++ bytes_of content ∷ []) = record {
        fifo =
            ap (◌++◌ (map source_of c.compress_engine.jobs))
              (map_snoc bytes_of c.pending_compress_jobs content)
            ∙ sym (
                append_assoc (map source_of c.compress_engine.jobs)
                  (map bytes_of c.pending_compress_jobs) _)
            ∙ ap (λ l. l ++ bytes_of content ∷ []) o.queued.fifo;
        busy = o.queued.busy;
        idle = o.queued.idle;
        bounded = o.queued.bounded;
        sized =
            All-append (λ e. e.segment.size ≤ c.compress_engine.src_mem_size)
              c.pending_compress_jobs (content ∷ []) o.queued.sized (fits, tt);
        joined = o.queued.joined;
      } in
      elim (Bool-cases (c.connected && not c.decompress_busy)) [
        | inl e ↦
            let (c', r, o') =
              try_start-Orderly queued (submitted ++ bytes_of content ∷ []) q
                (both_left c.connected _ e) (both_right c.connected c.decompress_busy e) in
            (c', rw e r, o')
        | inr e ↦ (
          queued,
          rw e refl,
          record { queued = q; eager = λ u f. true≢false (sym (ap₂ (λ a b. a && not b) u f) ∙ e) },
        )
      ]

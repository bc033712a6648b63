-- ===== src/Dpu/Decompress/Queueing/Events.antt =====
-- The events of the client's loop, and the order of the jobs.
use atc2025_poby.Base.{
  ℕ, ◌≤◌, ◌<◌, ◌≡◌, ◌⊎◌, ◌≢◌, if_true, if_false, refl, sym, ap, ap₂, subst, subst₂, ◌∙◌, inl, inr,
  true, false, some, List, [], ◌∷◌, ◌++◌, map, length, All, Bool-cases, List-cases, ◌>>=◌,
  if◌then◌else◌,
}
use atc2025_poby.Wire.Codec.{Codec}
use atc2025_poby.Rdma.Connection.{RdmaConnection, SendBuf, Verbs, bufpair_at, acquire_free_send_buf}
use atc2025_poby.Content.Messages.{ContentElement}
use atc2025_poby.Doca.CompressEngine.{CompressEngine, job_done}
use atc2025_poby.Dpu.Decompress.{
  submit_decompress_task, on_decompress_task_success, info_of, try_start,
}
use atc2025_poby.Dpu.Decompress.State.{
  DecompressClient, DecompressFinishRequest, DecompressFinishResponse, MmapInfoRequest,
  MmapInfoResponse, Doca,
}
use atc2025_poby.Dpu.Decompress.Queueing.{
  Same, Same-Queued, announce-Same, enqueue_job-Orderly, try_start-Orderly,
}
use atc2025_poby.Dpu.Decompress.Queueing.Invariant.{
  IsRefused, Queued, Orderly, bytes_of, true≢false, source_of,
}

-- What `submitted` becomes with one more element: only compressed ones are decompressed.
abbrev pub with_element : List (List ℕ) → ContentElement → List (List ℕ)
with_element submitted content =
    if content.is_compressed then submitted ++ bytes_of content ∷ [] else submitted

pub acquire_free_send_buf-some :
    (conn : RdmaConnection)
    → conn.free_bufpairs ≢ []
    → (buf : SendBuf) × (conn' : RdmaConnection) × (acquire_free_send_buf conn ≡ (some buf, conn'))
unfolding acquire_free_send_buf
acquire_free_send_buf-some conn room = elim (List-cases conn.free_bufpairs) [
  | inl e ↦ absurd (room e)
  | inr (id, ids, e) ↦ (
    record {
      id = id;
      addr = (bufpair_at conn id).send_header;
      cap = (bufpair_at conn id).send_cap;
    },
    record conn { free_bufpairs = ids },
    rw e refl,
  )
]

connected_when_busy :
    (c : DecompressClient) (submitted : List (List ℕ))
    → Queued c submitted
    → c.decompress_busy ≡ true
    → c.connected ≡ true
connected_when_busy c submitted q busy = elim (Bool-cases c.connected) [
  | inl e ↦ e
  | inr e ↦ true≢false (sym busy ∙ q.idle e)
]

module _ (v : Verbs) (doca : Doca) (finish_requests : Codec DecompressFinishRequest)
    (finish_responses : Codec DecompressFinishResponse) (mmap_requests : Codec MmapInfoRequest)
    (mmap_responses : Codec MmapInfoResponse) where
  pub Same-Orderly :
      (c c' : DecompressClient) (submitted : List (List ℕ))
      → Same v doca finish_requests finish_responses mmap_requests mmap_responses c c'
      → Orderly doca c submitted
      → Orderly doca c' submitted
  Same-Orderly c c' submitted s o = record {
    queued =
        Same-Queued v doca finish_requests finish_responses mmap_requests mmap_responses c c'
          submitted s o.queued;
    eager = λ u f.
        subst₂ (λ p e. (p ≡ []) ⊎ ((e.free_bufpairs ≡ []) ⊎ IsRefused doca p)) (sym s.pending)
          (sym s.engine) (o.eager (sym s.up ∙ u) (sym s.busy ∙ f));
  }

  -- A submitted segment never makes the client fail, and joins the queue where it is compressed.
  pub submit_decompress_task-Orderly :
      (c : DecompressClient) (submitted : List (List ℕ)) (content : ContentElement)
      → Orderly doca c submitted
      → content.segment.size ≤ c.compress_engine.src_mem_size
      → (c' : DecompressClient) × (submit_decompress_task v doca finish_requests finish_responses
            mmap_requests mmap_responses c content
          ≡ some c')
        × Orderly doca c' (with_element submitted content)
  unfolding submit_decompress_task
  submit_decompress_task-Orderly c submitted content o fits =
      elim (Bool-cases content.is_compressed) [
        | inl e ↦
            let (c', r, o') =
              enqueue_job-Orderly v doca finish_requests finish_responses mmap_requests
                mmap_responses c submitted content o fits in
            (
              c',
              if_true content.is_compressed _ _ e ∙ r,
              subst (Orderly doca c') (sym (if_true content.is_compressed _ _ e)) o',
            )
        | inr e ↦
            let (k, joined) = o.queued.joined in
            let (c', r, s) =
              announce-Same v doca finish_requests finish_responses mmap_requests mmap_responses c _
                k joined in
            (
              c',
              if_false content.is_compressed _ _ e ∙ r,
              subst (Orderly doca c') (sym (if_false content.is_compressed _ _ e))
                  (Same-Orderly c c' submitted s o),
            )
      ]

  -- The job of a busy client is done: its segment is announced, or waits for a buffer, and the next job
  -- is started.
  pub on_decompress_task_success-Orderly :
      (c : DecompressClient) (submitted : List (List ℕ)) (dst_len : ℕ)
      → Orderly doca c submitted
      → c.decompress_busy ≡ true
      → (engine : CompressEngine) × (c' : DecompressClient) × (job_done true true c.compress_engine
          ≡ some (true, engine))
        × (on_decompress_task_success v doca finish_requests finish_responses mmap_requests
              mmap_responses
              (record c { compress_engine = engine })
              dst_len
            ≡ some c')
        × Orderly doca c' submitted
  unfolding on_decompress_task_success job_done
  on_decompress_task_success-Orderly c submitted dst_len o busy =
      let engine : CompressEngine = record c.compress_engine { engine_busy = false } in
      let c1 : DecompressClient = record c { compress_engine = engine } in
      let (k, joined) = o.queued.joined in
      let (c2, r, s) =
        announce-Same v doca finish_requests finish_responses mmap_requests mmap_responses c1
          (info_of v doca finish_requests finish_responses mmap_requests mmap_responses
            c1.compress_job dst_len)
          k joined in
      let freed : DecompressClient = record c2 { decompress_busy = false } in
      let up : c.connected ≡ true = connected_when_busy c submitted o.queued busy in
      let q : Queued freed submitted = record {
        fifo =
            ap₂ (λ e p. map source_of e.jobs ++ map bytes_of p) s.engine s.pending ∙ o.queued.fifo;
        busy = ap (λ e. e.engine_busy) s.engine;
        idle = λ d. refl;
        bounded =
            subst (λ e. All (λ id. id < length e.sources) e.free_bufpairs) (sym s.engine)
              o.queued.bounded;
        sized =
            subst₂ (λ e p. All (λ x. x.segment.size ≤ e.src_mem_size) p) (sym s.engine)
              (sym s.pending) o.queued.sized;
        joined = s.joined;
      } in
      let (c', r', o') =
        try_start-Orderly v doca finish_requests finish_responses mmap_requests mmap_responses freed
          submitted q (s.up ∙ up) refl in
      (
        engine,
        c',
        refl,
        ap
              (λ x. x >>= λ told.
                try_start v doca finish_requests finish_responses mmap_requests mmap_responses
                  (record told { decompress_busy = false }))
              r
            ∙ r',
        o',
      )

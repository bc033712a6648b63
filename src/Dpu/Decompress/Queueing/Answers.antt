-- ===== src/Dpu/Decompress/Queueing/Answers.antt =====
-- The order of the jobs of decompress_client_epoll.cc, when the host answers.
use atc2025_poby.Doca.CompressEngine.{bufpair_num}
use atc2025_poby.Base.{
  arith, none, none≢some, some_eq, ◌==◌, ℕ, ◌<◌, ◌≡◌, ◌≢◌, if_true, if_false, refl, sym, ap, ap₂,
  subst, ◌∙◌, inl, inr, true, false, ◌&&◌, some, List, [], ◌∷◌, ◌++◌, length, All-append, lt→ltb,
  Bool-cases, List-cases, ◌>>=◌, assert, if◌then◌else◌,
}
use atc2025_poby.Wire.Codec.{Codec}
use atc2025_poby.Rdma.Connection.{RdmaConnection, Verbs, acquire_free_send_buf}
use atc2025_poby.Doca.CompressEngine.{CompressEngine, release_free_bufpair}
use atc2025_poby.Dpu.Decompress.{
  announce_next, give_back, finish, handle_decompress_finish_response, handle_mmap_info_response,
  try_start, send_decompress_finish_request,
}
use atc2025_poby.Dpu.Decompress.State.{
  DecompressClient, DecompressFinishRequest, DecompressFinishResponse, MmapInfoRequest,
  MmapInfoResponse, Doca, RdmaInfo,
}
use atc2025_poby.Dpu.Decompress.Queueing.{Same, try_start-Orderly, send_or_wait-Same}
use atc2025_poby.Dpu.Decompress.Queueing.Invariant.{Queued, Orderly, true≢false}
use atc2025_poby.Dpu.Decompress.Queueing.Events.{Same-Orderly, acquire_free_send_buf-some}

module _ (v : Verbs) (doca : Doca) (finish_requests : Codec DecompressFinishRequest)
    (finish_responses : Codec DecompressFinishResponse) (mmap_requests : Codec MmapInfoRequest)
    (mmap_responses : Codec MmapInfoResponse) where
  -- The oldest announcement that waits goes out in the buffer that is free.
  announce_next-Same :
      (c : DecompressClient) (infos : List RdmaInfo) (conn : RdmaConnection)
      → c.conn ≡ some conn
      → conn.free_bufpairs ≢ []
      → (c' : DecompressClient) × (announce_next v doca finish_requests finish_responses
            mmap_requests mmap_responses c infos
            (acquire_free_send_buf conn)
          ≡ some c')
        × Same v doca finish_requests finish_responses mmap_requests mmap_responses c c'
  unfolding acquire_free_send_buf send_decompress_finish_request
  announce_next-Same c infos conn joined room = elim (List-cases infos) [
    | inl e ↦ (
      c,
      ap
          (λ l.
            announce_next v doca finish_requests finish_responses mmap_requests mmap_responses c l
              (acquire_free_send_buf conn))
          e,
      record { engine = refl; pending = refl; busy = refl; up = refl; joined = (conn, joined) },
    )
    | inr (info, rest, e) ↦
        let (buf, conn', got) = acquire_free_send_buf-some conn room in
        (
          _,
          ap₂ (announce_next v doca finish_requests finish_responses mmap_requests mmap_responses c)
              e got,
          (let s =
                send_or_wait-Same v doca finish_requests finish_responses mmap_requests
                  mmap_responses (record c { pending_rdma_jobs = rest }) info (some buf, conn') in
              record {
                engine = s.engine;
                pending = s.pending;
                busy = s.busy;
                up = s.up;
                joined = s.joined;
              }),
        )
  ]

  unmarked :
      (c : DecompressClient) (submitted : List (List ℕ))
      → Queued c submitted
      → Queued (record c { dma_busy = false }) submitted
  unmarked c submitted q = record {
    fifo = q.fifo;
    busy = q.busy;
    idle = q.idle;
    bounded = q.bounded;
    sized = q.sized;
    joined = q.joined;
  }

  give_back-Orderly :
      (c : DecompressClient) (submitted : List (List ℕ)) (id : ℕ)
      → Orderly doca c submitted
      → c.connected ≡ true
      → id < length c.compress_engine.sources
      → (c' : DecompressClient) × (give_back v doca finish_requests finish_responses mmap_requests
            mmap_responses c id
          ≡ some c')
        × Orderly doca c' submitted
  unfolding release_free_bufpair
  give_back-Orderly c submitted id o up below =
      let engine : CompressEngine = record c.compress_engine {
        free_bufpairs = c.compress_engine.free_bufpairs ++ id ∷ [];
      } in
      let freed : DecompressClient = record c { compress_engine = engine } in
      let given : release_free_bufpair c.compress_engine id ≡ some engine =
        ap (λ b. assert b (some engine)) (lt→ltb id (length c.compress_engine.sources) below) in
      let q : Queued freed submitted = record {
        fifo = o.queued.fifo;
        busy = o.queued.busy;
        idle = o.queued.idle;
        bounded =
            All-append (λ i. i < length c.compress_engine.sources) c.compress_engine.free_bufpairs
              (id ∷ []) o.queued.bounded (below, tt);
        sized = o.queued.sized;
        joined = o.queued.joined;
      } in
      let after =
        ap
          (λ x. x >>= λ e.
            let f = record c { compress_engine = e } in
            let started =
              try_start v doca finish_requests finish_responses mmap_requests mmap_responses f in
            if c.decompress_busy then some f else started)
          given in
      elim (Bool-cases c.decompress_busy) [
        | inl e ↦ (
          freed,
          after ∙ if_true c.decompress_busy _ _ e,
          record { queued = q; eager = λ u f. true≢false (sym e ∙ f) },
        )
        | inr e ↦
            let (c', r, o') =
              try_start-Orderly v doca finish_requests finish_responses mmap_requests mmap_responses
                freed submitted q up e in
            (c', after ∙ if_false c.decompress_busy _ _ e ∙ r, o')
      ]

  -- A response from the host gives the buffer back, and the next job is started where the engine is idle.
  pub handle_decompress_finish_response-Orderly :
      (c : DecompressClient) (submitted : List (List ℕ)) (resp : DecompressFinishResponse)
      (conn : RdmaConnection)
      → Orderly doca c submitted
      → c.connected ≡ true
      → c.conn ≡ some conn
      → conn.free_bufpairs ≢ []
      → resp.bufpair_id < length c.compress_engine.sources
      → (c' : DecompressClient) × (handle_decompress_finish_response v doca finish_requests
            finish_responses mmap_requests mmap_responses c resp
          ≡ some c')
        × Orderly doca c' submitted
  unfolding handle_decompress_finish_response
  handle_decompress_finish_response-Orderly c submitted resp conn o up joined room below =
      let (c1, r, s) = announce_next-Same c c.pending_rdma_jobs conn joined room in
      let o1 =
        Same-Orderly v doca finish_requests finish_responses mmap_requests mmap_responses c c1
          submitted s o in
      let heard =
        ap
          (λ k. k >>= λ conn.
            announce_next v doca finish_requests finish_responses mmap_requests mmap_responses c
              c.pending_rdma_jobs (acquire_free_send_buf conn)
            >>= λ c'.
                finish v doca finish_requests finish_responses mmap_requests mmap_responses c' resp)
          joined
        ∙ ap
            (λ x. x >>= λ c'.
              finish v doca finish_requests finish_responses mmap_requests mmap_responses c' resp)
            r in
      elim (Bool-cases resp.data_inline) [
        | inl e ↦ (
          record c1 { dma_busy = false },
          heard ∙ if_true resp.data_inline _ _ e,
          record { queued = unmarked c1 submitted o1.queued; eager = o1.eager },
        )
        | inr e ↦
            let (c', r', o') =
              give_back-Orderly c1 submitted resp.bufpair_id o1 (s.up ∙ up)
                (subst (λ g. resp.bufpair_id < length g.sources) (sym s.engine) below) in
            (c', heard ∙ if_false resp.data_inline _ _ e ∙ r', o')
      ]

  -- Once the buffers of the host are mapped, the first job is started.
  mapped-Orderly :
      (c : DecompressClient) (submitted : List (List ℕ)) (resp : MmapInfoResponse)
      → Orderly doca c submitted
      → c.connected ≡ false
      → bufpair_num c.compress_engine ≡ length resp.mmaps
      → (c' : DecompressClient) × (handle_mmap_info_response v doca finish_requests finish_responses
            mmap_requests mmap_responses c resp
          ≡ some c')
        × Orderly doca c' submitted
  unfolding handle_mmap_info_response
  mapped-Orderly c submitted resp o down one_each =
      elim (Bool-cases (doca.src_started && doca.dst_created resp.mmaps)) [
        | inr e ↦ (c, ground (arith, e, one_each), o)
        | inl e ↦
            let up : DecompressClient = record c { connected = true } in
            let q = o.queued in
            let (c', r, o') =
              try_start-Orderly v doca finish_requests finish_responses mmap_requests mmap_responses
                up submitted
                (record {
                  fifo = q.fifo;
                  busy = q.busy;
                  idle = λ d. true≢false d;
                  bounded = q.bounded;
                  sized = q.sized;
                  joined = q.joined;
                })
                refl (q.idle down) in
            (c', ground (arith, e, one_each, r), o')
      ]

  pub handle_mmap_info_response-Orderly :
      (c c' : DecompressClient) (submitted : List (List ℕ)) (resp : MmapInfoResponse)
      → Orderly doca c submitted
      → c.connected ≡ false
      → handle_mmap_info_response v doca finish_requests finish_responses mmap_requests
          mmap_responses c resp
        ≡ some c'
      → Orderly doca c' submitted
  unfolding handle_mmap_info_response
  handle_mmap_info_response-Orderly c c' submitted resp o down e =
      elim (Bool-cases (bufpair_num c.compress_engine == length resp.mmaps)) [
        | inl one_each ↦
            let (x, e', o') = mapped-Orderly c submitted resp o down (ground (arith, one_each)) in
            subst (λ y. Orderly doca y submitted) (some_eq (sym e' ∙ e)) o'
        | inr other ↦ elim (Bool-cases doca.src_started) [
          | inl on ↦ none≢some (
              (let n : none
                    ≡ handle_mmap_info_response v doca finish_requests finish_responses
                        mmap_requests mmap_responses c resp =
                  ground (arith, on, other) in
                n)
              ∙ e)
          | inr off ↦
              subst (λ y. Orderly doca y submitted)
                (some_eq (
                  (let n : some c
                        ≡ handle_mmap_info_response v doca finish_requests finish_responses
                            mmap_requests mmap_responses c resp =
                      ground (arith, off) in
                    n)
                  ∙ e))
                o
        ]
      ]

-- ===== src/Dpu/Decompress/Queueing/Invariant.antt =====
-- When the jobs of decompress_client_epoll.cc are in order, and its engine does not idle.
use atc2025_poby.Base.{
  ℕ, ◌≤◌, ◌<◌, ◌≡◌, ◌⊎◌, refl, sym, ap, Bool, true, false, not, ◌&&◌, some, List, [], ◌∷◌, ◌++◌,
  map, length, All,
}
use atc2025_poby.Rdma.Connection.{RdmaConnection}
use atc2025_poby.Content.Messages.{ContentElement}
use atc2025_poby.Doca.CompressEngine.{Job, back_of}
use atc2025_poby.Dpu.Decompress.State.{Doca, DecompressClient, data_of}

-- The bytes that an element has to be decompressed from.
abbrev pub bytes_of : ContentElement → List ℕ
bytes_of e = data_of e.segment

abbrev pub source_of : Job → List ℕ
source_of job = job.source

-- `submitted` are the compressed segments in the order they were submitted in: the jobs so far have
-- their bytes, and then the queue. The engine is busy just where the client says so.
pub record Queued (c : DecompressClient) (submitted : List (List ℕ)) : Type 0 where
  pub fifo :
      map source_of c.compress_engine.jobs ++ map bytes_of c.pending_compress_jobs ≡ submitted
  pub busy : c.compress_engine.engine_busy ≡ c.decompress_busy
  pub idle : c.connected ≡ false → c.decompress_busy ≡ false
  pub bounded : All (λ id. id < length c.compress_engine.sources) c.compress_engine.free_bufpairs
  pub sized : All (λ e. e.segment.size ≤ c.compress_engine.src_mem_size) c.pending_compress_jobs
  pub joined : (conn : RdmaConnection) × (c.conn ≡ some conn)

-- The first of the segments that wait is one whose data DOCA does not take.
abbrev pub IsRefused : Doca → List ContentElement → Type 0
IsRefused doca pending =
    (task : ContentElement) × (rest : List ContentElement) × (pending ≡ task ∷ rest)
    × (doca.data_set (bytes_of task) ≡ false)

-- Moreover, no job waits while the engine is idle and has a buffer, unless its data is refused.
pub record Orderly (doca : Doca) (c : DecompressClient) (submitted : List (List ℕ)) : Type 0 where
  pub queued : Queued c submitted
  pub eager :
      c.connected ≡ true
      → c.decompress_busy ≡ false
      → (c.pending_compress_jobs ≡ [])
        ⊎ ((c.compress_engine.free_bufpairs ≡ []) ⊎ IsRefused doca c.pending_compress_jobs)

pub true≢false {ℓ} : {P : Type ℓ} → true ≡ false → P
true≢false e = cc

pub both_left : (a b : Bool) → (a && b) ≡ true → a ≡ true
both_left true b e = refl
both_left false b e = e

pub both_right : (a b : Bool) → (a && not b) ≡ true → b ≡ false
both_right true true e = sym e
both_right true false e = refl
both_right false b e = true≢false (sym e)

pub back_of-All :
    (P : ℕ → Type 0) (id : ℕ) (rest : List ℕ)
    → All P (id ∷ rest)
    → P (back_of id rest).0 × All P (back_of id rest).1
back_of-All P id [] h = h
back_of-All P id (next ∷ rest) h = let ih = back_of-All P next rest h.1 in (ih.0, (h.0, ih.1))

pub map_snoc :
    {A B : Type 0} (f : A → B) (xs : List A) (x : A) → map f (xs ++ x ∷ []) ≡ map f xs ++ f x ∷ []
map_snoc f [] x = refl
map_snoc f (y ∷ xs) x = ap (◌∷◌ (f y)) (map_snoc f xs x)

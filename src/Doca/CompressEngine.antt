-- ===== src/Doca/CompressEngine.antt =====
-- src/doca/compress.h: the buffers of the compression engine, and its one job at a time. `none` is a
-- failed assertion.
use atc2025_poby.Base.{
  ℕ, Bool, true, false, not, Option, none, some, List, [], ◌∷◌, ◌++◌, ltb, if◌then◌else◌, assert,
  length, get_or, set, replicate,
}
use atc2025_poby.Rdma.Connection.{ids_from}

-- A job handed to DOCA, with the bytes of its source buffer.
pub record Job : Type 0 where
  pub job_id : ℕ
  pub bufpair_id : ℕ
  pub source : List ℕ

-- `sources` has, for each buffer pair, the data that its source buffer is set to. The last of
-- `free_bufpairs` is the back of the vector. `jobs` are those submitted, oldest first.
pub record CompressEngine : Type 0 where
  pub src_mem_size : ℕ
  pub sources : List (List ℕ)
  pub free_bufpairs : List ℕ
  pub engine_busy : Bool
  pub ongoing_bufpair_id : ℕ
  pub jobs : List Job

-- The constructor, for `mem_num` pairs of buffers.
unfoldable pub new_engine : ℕ → ℕ → CompressEngine
unfolding ids_from
new_engine src_mem_size mem_num = record {
  src_mem_size = src_mem_size;
  sources = replicate mem_num [];
  free_bufpairs = ids_from 0 mem_num;
  engine_busy = false;
  ongoing_bufpair_id = 0;
  jobs = [];
}

unfoldable pub bufpair_num : CompressEngine → ℕ
bufpair_num e = length e.sources

unfoldable pub release_free_bufpair : CompressEngine → ℕ → Option CompressEngine
release_free_bufpair e id =
    assert (ltb id (length e.sources))
      (some (record e { free_bufpairs = e.free_bufpairs ++ id ∷ [] }))

-- `back()` and `pop_back()`
abbrev pub back_of : ℕ → List ℕ → ℕ × List ℕ
back_of id [] = (id, [])
back_of id (next ∷ rest) = let (last, front) = back_of next rest in (last, id ∷ front)

abbrev pub acquired : CompressEngine → List ℕ → Option ℕ × CompressEngine
acquired e [] = (none, e)
acquired e (id ∷ rest) =
    (some (back_of id rest).0, record e { free_bufpairs = (back_of id rest).1 })

unfoldable pub acquire_free_bufpair : CompressEngine → Option ℕ × CompressEngine
acquire_free_bufpair e = acquired e e.free_bufpairs

-- `memcpy` to the source buffer, whose size the caller asserts.
unfoldable pub fill_source : CompressEngine → ℕ → List ℕ → CompressEngine
fill_source e id bytes = record e { sources = set e.sources id bytes }

-- The result of the submission is not looked at.
unfoldable pub start_job : CompressEngine → ℕ → ℕ → Option CompressEngine
start_job e job_id bufpair_id = assert (not e.engine_busy) (
    some (record e {
      ongoing_bufpair_id = bufpair_id;
      engine_busy = true;
      jobs =
          e.jobs
          ++ record {
            job_id = job_id;
            bufpair_id = bufpair_id;
            source = get_or e.sources bufpair_id [];
          }
            ∷ [];
    }))

-- `handleRead` up to the success callback: whether the event could be cleared, and whether a job was
-- retrieved; the program ends where none was.
unfoldable pub job_done : Bool → Bool → CompressEngine → Option (Bool × CompressEngine)
job_done cleared retrieved e =
    if cleared
    then (if retrieved then some (true, record e { engine_busy = false }) else none)
    else some (false, e)

-- ===== src/Tests/Images.antt =====
-- Blobs, decompression jobs and answers at concrete inputs.
use atc2025_poby.Base.{ℕ, Option, ◌≡◌, refl, true, none, some, List, [], ◌∷◌, if◌then◌else◌}
use atc2025_poby.BlobPool.{Blob, BlobPool, new_pool, acquire_blob, release_blob, emplace, new_blob}
use atc2025_poby.BlobPool.Supply.{IsUniform, acquire_blob-cap, acquire_blob-release_blob}
use atc2025_poby.Host.Offload.{OffloadClient, TaskInfo, UntarResult, complete_tasks}

abbrev pool : BlobPool
pool = new_pool 16 2

pool-IsUniform : IsUniform pool
unfolding new_pool emplace new_blob
pool-IsUniform = record { each = (refl, (refl, tt)) }

acquire_blob-cap_example :
    ((acquire_blob pool 9).0.cap ≡ (if pool.is_use then pool.blob_cap else 9))
    × IsUniform (acquire_blob pool 9).1
acquire_blob-cap_example = acquire_blob-cap pool 9 pool-IsUniform

abbrev blob : Blob
blob = record { cap = 16; size = 2; bytes = 1 ∷ 2 ∷ [] }

acquire_blob-release_blob_example : acquire_blob (release_blob pool blob) 4 ≡ (blob, pool)
unfolding new_pool
acquire_blob-release_blob_example = acquire_blob-release_blob pool blob 4 refl

-- Image "i" of two layers, asked for over connection 3, waits.
abbrev client : OffloadClient
client = record {
  metadata_path = "m";
  metadatas = [];
  tasks = ("i", record { total_layers = 2; untar_layers = 0; conn = 3 }) ∷ [];
  pending_tasks = [];
  inflight_sends = [];
  connected = true;
  conn = none;
  wr_id = 0;
  responses = [];
}

abbrev results : List UntarResult
results =
    record { layer = "a"; image_name_tag = "i"; success = true }
    ∷ record { layer = "b"; image_name_tag = "i"; success = true }
    ∷ []

-- The memory of an erased task is not used again at once.
abbrev still_there : TaskInfo → Option ℕ
still_there t = some t.conn

-- Where it is, the read faults.
read_after_erase : complete_tasks (λ t. none) results client ≡ none
unfolding complete_tasks
read_after_erase = refl

-- ===== src/BlobPool.antt =====
-- src/utils/blob_pool.h: blobs of one capacity, taken and given back.
pub mod Supply
use atc2025_poby.Base.{ℕ, zero, suc, Bool, true, false, List, [], ◌∷◌, ◌++◌, ◌==◌, if◌then◌else◌}

-- A blob with its bytes. Copies of a blob share the bytes; the program moves blobs, and never writes
-- one after it has given it away.
pub record Blob : Type 0 where
  pub cap : ℕ
  pub size : ℕ
  pub bytes : List ℕ

-- `Blob(cap)`. The contents are not read before they are written.
unfoldable pub new_blob : ℕ → Blob
new_blob cap = record { cap = cap; size = 0; bytes = [] }

-- The last of the list is the back of the vector.
pub record BlobPool : Type 0 where
  pub blob_cap : ℕ
  pub blobs : List Blob
  pub is_use : Bool

unfoldable pub emplace : ℕ → ℕ → List Blob → List Blob
unfolding new_blob
emplace zero cap blobs = blobs
emplace (suc n) cap blobs = emplace n cap (blobs ++ new_blob cap ∷ [])

unfoldable pub new_pool : ℕ → ℕ → BlobPool
unfolding emplace
new_pool blob_cap n =
    if blob_cap == 0
    then record { blob_cap = blob_cap; blobs = []; is_use = false }
    else record { blob_cap = blob_cap; blobs = emplace n blob_cap []; is_use = true }

-- `kInc`
abbrev inc : ℕ
inc = 4

-- `blobs.back()` and `blobs.pop_back()`.
unfoldable pub split_back : Blob → List Blob → Blob × List Blob
split_back b [] = (b, [])
split_back b (c ∷ rest) = let (last, front) = split_back c rest in (last, b ∷ front)

refilled : ℕ → List Blob → List Blob
unfolding emplace
refilled cap [] = emplace inc cap []
refilled cap (b ∷ rest) = b ∷ rest

abbrev pub take_back : BlobPool → List Blob → Blob × BlobPool
take_back pool [] = (record { cap = 0; size = 0; bytes = [] }, pool)
take_back pool (b ∷ rest) = ((split_back b rest).0, record pool { blobs = (split_back b rest).1 })

unfoldable pub acquire_blob : BlobPool → ℕ → Blob × BlobPool
unfolding new_blob refilled split_back
acquire_blob pool cap =
    if pool.is_use then take_back pool (refilled pool.blob_cap pool.blobs) else (new_blob cap, pool)

unfoldable pub release_blob : BlobPool → Blob → BlobPool
release_blob pool b = if pool.is_use then record pool { blobs = pool.blobs ++ b ∷ [] } else pool

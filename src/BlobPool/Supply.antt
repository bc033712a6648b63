-- ===== src/BlobPool/Supply.antt =====
-- What a caller of the pool may rely on.
use atc2025_poby.Base.{
  ℕ, zero, suc, ◌+◌, ◌≤◌, ◌≡◌, refl, ap, sym, true, List, [], ◌∷◌, ◌++◌, arith, if◌then◌else◌,
  length, length-append, All, All-append, Bool-cases, inl, inr,
}
use atc2025_poby.BlobPool.{
  Blob, BlobPool, new_blob, emplace, refilled, split_back, take_back, acquire_blob, release_blob,
}

-- Every blob that waits in the pool has the pool's capacity.
pub record IsUniform (pool : BlobPool) : Type 0 where
  pub each : All (λ b. b.cap ≡ pool.blob_cap) pool.blobs

emplace-All :
    (n size : ℕ) (blobs : List Blob)
    → All (λ b. b.cap ≡ size) blobs
    → All (λ b. b.cap ≡ size) (emplace n size blobs)
unfolding emplace new_blob
emplace-All zero size blobs h = h
emplace-All (suc n) size blobs h =
    emplace-All n size _ (All-append (λ b. b.cap ≡ size) blobs _ h (refl, tt))

emplace-length : (n size : ℕ) (blobs : List Blob) → length (emplace n size blobs) ≡ n + length blobs
unfolding emplace
emplace-length zero size blobs = omega arith
emplace-length (suc n) size blobs = omega (
  arith,
  emplace-length n size (blobs ++ new_blob size ∷ []),
  length-append blobs (new_blob size ∷ []),
)

split_back-eq :
    (b : Blob) (rest : List Blob) → (split_back b rest).1 ++ (split_back b rest).0 ∷ [] ≡ b ∷ rest
unfolding split_back
split_back-eq b [] = refl
split_back-eq b (c ∷ rest) = ap (◌∷◌ b) (split_back-eq c rest)

split_back-All :
    (P : Blob → Type 0) (b : Blob) (rest : List Blob)
    → All P (b ∷ rest)
    → P (split_back b rest).0 × All P (split_back b rest).1
unfolding split_back
split_back-All P b [] h = h
split_back-All P b (c ∷ rest) h = let ih = split_back-All P c rest h.1 in (ih.0, (h.0, ih.1))

refilled-cons :
    (size : ℕ) (blobs : List Blob)
    → (b : Blob) × (rest : List Blob) × (refilled size blobs ≡ b ∷ rest)
unfolding refilled emplace
refilled-cons size [] = (_, _, refl)
refilled-cons size (b ∷ rest) = (b, rest, refl)

refilled-All :
    (size : ℕ) (blobs : List Blob)
    → All (λ b. b.cap ≡ size) blobs
    → All (λ b. b.cap ≡ size) (refilled size blobs)
unfolding refilled
refilled-All size [] h = emplace-All 4 size [] h
refilled-All size (b ∷ rest) h = h

taken :
    (pool : BlobPool) (l : List Blob)
    → (b : Blob) × (rest : List Blob) × (l ≡ b ∷ rest)
    → All (λ b. b.cap ≡ pool.blob_cap) l
    → ((take_back pool l).0.cap ≡ pool.blob_cap) × IsUniform (take_back pool l).1
taken pool [] (b, rest, e) h = cc
taken pool (b ∷ rest) _ h =
    let parts = split_back-All (λ c. c.cap ≡ pool.blob_cap) b rest h in
    (parts.0, record { each = parts.1 })

-- The capacity of an acquired blob: the pool's where the pool is in use, whatever was asked for, and
-- the one asked for where it is not. The pool stays uniform.
pub acquire_blob-cap :
    (pool : BlobPool) (asked : ℕ)
    → IsUniform pool
    → ((acquire_blob pool asked).0.cap ≡ (if pool.is_use then pool.blob_cap else asked))
      × IsUniform (acquire_blob pool asked).1
unfolding acquire_blob new_blob
acquire_blob-cap pool asked h = elim (Bool-cases pool.is_use) [
  | inr off ↦ simp off (refl, h)
  | inl on ↦ simp on (
      taken pool (refilled pool.blob_cap pool.blobs) (refilled-cons pool.blob_cap pool.blobs)
        (refilled-All pool.blob_cap pool.blobs h.each))
]

split_back_snoc :
    (a : Blob) (rest : List Blob) (b : Blob) → split_back a (rest ++ b ∷ []) ≡ (b, a ∷ rest)
unfolding split_back
split_back_snoc a [] b = refl
split_back_snoc a (c ∷ rest) b =
    ap {A = Blob × List Blob} (λ p. (p.0, a ∷ p.1)) (split_back_snoc c rest b)

refilled_snoc :
    (size : ℕ) (blobs : List Blob) (b : Blob) → refilled size (blobs ++ b ∷ []) ≡ blobs ++ b ∷ []
unfolding refilled
refilled_snoc size [] b = refl
refilled_snoc size (a ∷ rest) b = refl

take_back_snoc :
    (pool : BlobPool) (l : List Blob) (b : Blob)
    → take_back pool (l ++ b ∷ []) ≡ (b, record pool { blobs = l })
unfolding split_back
take_back_snoc pool [] b = refl
take_back_snoc pool (a ∷ rest) b =
    ap {A = Blob × List Blob} {B = Blob × BlobPool} (λ p. (p.0, record pool { blobs = p.1 }))
      (split_back_snoc a rest b)

-- A blob given back to a pool in use is the next one handed out, and the pool is as before.
pub acquire_blob-release_blob :
    (pool : BlobPool) (b : Blob) (asked : ℕ)
    → pool.is_use ≡ true
    → acquire_blob (release_blob pool b) asked ≡ (b, pool)
unfolding acquire_blob release_blob refilled
acquire_blob-release_blob pool b asked on =
    simp (on, refilled_snoc, take_back_snoc)
      (ap {B = Blob × BlobPool} (λ u. (b, record pool { is_use = u })) (sym on))

-- No blob handed out is smaller than `limit`.
pub record Suffices (limit : ℕ) (pool : BlobPool) : Type 0 where
  pub uniform : IsUniform pool
  pub large : limit ≤ (if pool.is_use then pool.blob_cap else limit)

take_back-same :
    (pool : BlobPool) (l : List Blob)
    → ((take_back pool l).1.blob_cap ≡ pool.blob_cap) × ((take_back pool l).1.is_use ≡ pool.is_use)
take_back-same pool [] = (refl, refl)
take_back-same pool (b ∷ rest) = (refl, refl)

pub acquire_blob-Suffices :
    (limit asked : ℕ) (pool : BlobPool)
    → Suffices limit pool
    → asked ≤ limit
    → (asked ≤ (acquire_blob pool asked).0.cap) × Suffices limit (acquire_blob pool asked).1
unfolding acquire_blob
acquire_blob-Suffices limit asked pool s h =
    let caps = acquire_blob-cap pool asked s.uniform in
    let same = take_back-same pool (refilled pool.blob_cap pool.blobs) in
    (
      ground (arith, caps.0, s.large),
      record { uniform = caps.1; large = ground (arith, s.large, same) },
    )

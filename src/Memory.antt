-- ===== src/Memory.antt =====
-- The bytes of a process's memory, which `reinterpret_cast` and `memcpy` read and write.
use atc2025_poby.Base.{
  ℕ, zero, suc, ◌+◌, ◌≤◌, ◌<◌, ◌≡◌, refl, sym, ap, ap₂, ◌∙◌, ◌⊎◌, inr, List, [], ◌∷◌, ◌++◌, arith,
  ◌==◌, if◌then◌else◌, length, length-append, append-injective,
}

abbrev pub Memory : Type 0
Memory = ℕ → ℕ

abbrev pub update : Memory → ℕ → ℕ → Memory
update m a b = λ x. if x == a then b else m x

pub load : Memory → ℕ → ℕ → List ℕ
load m a zero = []
load m a (suc n) = m a ∷ load m (suc a) n

pub store : Memory → ℕ → List ℕ → Memory
store m a [] = m
store m a (b ∷ bs) = update (store m (suc a) bs) a b

pub length-load : (m : Memory) (a n : ℕ) → length (load m a n) ≡ n
unfolding load
length-load m a zero = refl
length-load m a (suc n) = ap suc (length-load m (suc a) n)

load-update :
    (m : Memory) (a b c n : ℕ) → (a < c) ⊎ (c + n ≤ a) → load (update m a b) c n ≡ load m c n
unfolding load
load-update m a b c zero h = refl
load-update m a b c (suc n) h = ground (arith, load-update m a b (suc c) n)

-- A block that does not meet the written one reads as before.
pub load-store_ne :
    (m : Memory) (a c n : ℕ) (bs : List ℕ)
    → (a + length bs ≤ c) ⊎ (c + n ≤ a)
    → load (store m a bs) c n ≡ load m c n
unfolding store
load-store_ne m a c n [] h = refl
load-store_ne m a c n (b ∷ bs) h =
    load-update (store m (suc a) bs) a b c n (ground arith)
    ∙ load-store_ne m (suc a) c n bs (omega arith)

-- What was written is read back.
pub load-store_self : (m : Memory) (a : ℕ) (bs : List ℕ) → load (store m a bs) a (length bs) ≡ bs
unfolding load store
load-store_self m a [] = refl
load-store_self m a (b ∷ bs) =
    ground (
      arith,
      load-update (store m (suc a) bs) a b (suc a) (length bs),
      load-store_self m (suc a) bs,
    )

-- Neighbouring blocks join.
pub load-add : (m : Memory) (a n k : ℕ) → load m a (n + k) ≡ load m a n ++ load m (a + n) k
unfolding load
load-add m a zero k =
    let e : a + 0 ≡ a = omega arith in let z : 0 + k ≡ k = omega arith in rw (e, z)
load-add m a (suc n) k =
    let e : suc n + k ≡ suc (n + k) = omega arith in
    let z : a + suc n ≡ suc a + n = omega arith in
    rw (e, z) (ap (◌∷◌ (m a)) (load-add m (suc a) n k))

-- A block that reads as two lists is two blocks.
pub load-split :
    (m : Memory) (a k : ℕ) (xs ys : List ℕ)
    → load m a (length xs + k) ≡ xs ++ ys
    → (load m a (length xs) ≡ xs) × (load m (a + length xs) k ≡ ys)
load-split m a k xs ys h =
    append-injective (load m a (length xs)) xs (load m (a + length xs) k) ys
      (length-load m a (length xs)) (sym (load-add m a (length xs) k) ∙ h)

-- The first bytes of what was written.
pub load-store_prefix :
    (m : Memory) (a : ℕ) (xs ys : List ℕ) → load (store m a (xs ++ ys)) a (length xs) ≡ xs
load-store_prefix m a xs ys =
    (load-split (store m a (xs ++ ys)) a (length ys) xs ys (
      ap (load (store m a (xs ++ ys)) a) (sym (length-append xs ys))
      ∙ load-store_self m a (xs ++ ys))).0

-- A block written behind another leaves both to be read as one.
pub load-store_behind :
    (m : Memory) (a n : ℕ) (front xs ys : List ℕ)
    → load m a n ≡ front
    → load (store m (a + n) (xs ++ ys)) a (n + length xs) ≡ front ++ xs
load-store_behind m a n front xs ys h =
    load-add _ a n (length xs)
    ∙ ap₂ (◌++◌) (load-store_ne m (a + n) a n (xs ++ ys) (inr (omega arith)) ∙ h)
        (load-store_prefix m (a + n) xs ys)

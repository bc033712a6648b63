-- ===== src/Doca/Objects.antt =====
-- The objects of DOCA that src/doca makes and releases, as the calls that do.
use atc2025_poby.Base.{ℕ, ◌+◌, ◌≡◌, Bool, List, [], ◌∷◌, ◌++◌, arith, if◌then◌else◌}

-- `ctx_dev` is the registration of the device with the context, `ctx_run` the started context, and
-- `ctx_workq` the registration of the work queue. Memory maps and buffers are numbered as they are made.
pub data Object : Type 0 where
  device compress ctx_dev ctx_run inventory workq ctx_workq : Object
  mmap doca_buf : ℕ → Object

pub data Action : Type 0 where
  made freed : Object → Action

-- How many of the objects that `p` tells are made, and released.
abbrev pub count_made : (Object → Bool) → List Action → ℕ
count_made p [] = 0
count_made p (made o ∷ actions) = (if p o then 1 else 0) + count_made p actions
count_made p (freed o ∷ actions) = count_made p actions

abbrev pub count_freed : (Object → Bool) → List Action → ℕ
count_freed p [] = 0
count_freed p (made o ∷ actions) = count_freed p actions
count_freed p (freed o ∷ actions) = (if p o then 1 else 0) + count_freed p actions

module _ (p : Object → Bool) where
  pub count_made-append :
      (xs ys : List Action) → count_made p (xs ++ ys) ≡ count_made p xs + count_made p ys
  count_made-append [] ys = omega arith
  count_made-append (made o ∷ xs) ys = omega (arith, count_made-append xs ys)
  count_made-append (freed o ∷ xs) ys = count_made-append xs ys

  pub count_freed-append :
      (xs ys : List Action) → count_freed p (xs ++ ys) ≡ count_freed p xs + count_freed p ys
  count_freed-append [] ys = omega arith
  count_freed-append (made o ∷ xs) ys = count_freed-append xs ys
  count_freed-append (freed o ∷ xs) ys = omega (arith, count_freed-append xs ys)

-- ===== src/Base/Bytes.antt =====
-- 32-bit words as bit patterns, and their bytes in either order.
use Prim.Native.Nat.{ℕ, ◌+◌, ◌-◌, ◌*◌, ◌/◌, ◌%◌, ◌^◌, ◌<◌}
use mathlib.Core.Path.{◌≡◌, refl}
use mathlib.Core.List.{List, [], ◌∷◌, ◌++◌}
use atc2025_poby.Base.Lists.{length}
use native.Mathlib.Omega.{arith}

abbrev pub u32 : ℕ → ℕ
u32 n = n % 2 ^ 32

abbrev pub u64 : ℕ → ℕ
u64 n = n % 2 ^ 64

-- The `int` -1 as a pattern.
abbrev pub minus_one : ℕ
minus_one = 2 ^ 32 - 1

-- An `int` in memory, on the little-endian machines that the program runs on.
unfoldable pub le32 : ℕ → List ℕ
le32 n = n % 256 ∷ n / 256 % 256 ∷ n / 65536 % 256 ∷ n / 16777216 % 256 ∷ []

-- The same in network order, which `htonl` makes.
unfoldable pub be32 : ℕ → List ℕ
be32 n = n / 16777216 % 256 ∷ n / 65536 % 256 ∷ n / 256 % 256 ∷ n % 256 ∷ []

-- What a read of four bytes gives; fewer bytes are no read of the program's.
unfoldable pub from_le32 : List ℕ → ℕ
from_le32 (a ∷ b ∷ c ∷ d ∷ r) = a + 256 * b + 65536 * c + 16777216 * d
from_le32 _ = 0

unfoldable pub from_be32 : List ℕ → ℕ
from_be32 (a ∷ b ∷ c ∷ d ∷ r) = d + 256 * c + 65536 * b + 16777216 * a
from_be32 _ = 0

pub from_le32-le32 : (n : ℕ) (r : List ℕ) → n < 2 ^ 32 → from_le32 (le32 n ++ r) ≡ n
unfolding le32 from_le32
from_le32-le32 n r h = omega arith

pub from_be32-be32 : (n : ℕ) (r : List ℕ) → n < 2 ^ 32 → from_be32 (be32 n ++ r) ≡ n
unfolding be32 from_be32
from_be32-be32 n r h = omega arith

pub length-le32 : (n : ℕ) → length (le32 n) ≡ 4
unfolding le32
length-le32 n = refl

pub length-be32 : (n : ℕ) → length (be32 n) ≡ 4
unfolding be32
length-be32 n = refl

-- ===== src/Base/Text.antt =====
-- Texts: joining, and `std::to_string` of a number.
use Prim.Native.Nat.{ℕ, zero, suc, ◌/◌, ◌%◌}
use Prim.Native.String.{String, ◌++◌}
use Prim.Native.Char.{code}
use mathlib.Core.Path.{◌≡◌, refl}
use atc2025_poby.Base.Tests.{ltb, ◌==◌, if◌then◌else◌}

unfoldable pub cat : String → String → String
cat s t = s ++ t

digit : ℕ → String
digit d =
    if d == 0
    then "0"
    else if d == 1
    then "1"
    else if d == 2
    then "2"
    else if d == 3
    then "3"
    else if d == 4
    then "4"
    else if d == 5
    then "5"
    else if d == 6
    then "6"
    else if d == 7
    then "7"
    else if d == 8
    then "8"
    else "9"

to_string_fuel : ℕ → ℕ → String
unfolding digit
to_string_fuel zero n = ""
to_string_fuel (suc fuel) n =
    let front = to_string_fuel fuel (n / 10) in
    if ltb n 10 then digit n else front ++ digit (n % 10)

-- A number has no more digits than its successor.
unfoldable pub to_string : ℕ → String
unfolding to_string_fuel
to_string n = to_string_fuel (suc n) n

to_string_example : to_string 1207 ≡ "1207"
unfolding to_string
to_string_example = refl

-- `id.substr(0, id.find(":"))`, the whole text where there is no colon.
unfoldable pub before_colon : String → String
before_colon String.[] = ""
before_colon (String.◌∷◌ c s) =
    let rest = before_colon s in if code c == 58 then "" else String.◌∷◌ c rest

-- ===== src/Doca/Pci.antt =====
-- src/doca/common.cc and common.h: a PCI address is parsed, and the device that has it is opened.
pub mod Addresses
use atc2025_poby.Base.{
  ℕ, suc, ◌+◌, ◌-◌, ◌*◌, ◌/◌, ◌%◌, ◌^◌, Bool, true, false, ◌&&◌, Option, none, some, List, [], ◌∷◌,
  leb, ◌==◌, if◌then◌else◌, ◌>>=◌, u32,
}

-- `isspace`, of the C locale.
is_space : ℕ → Bool
is_space c = if leb 9 c && leb c 13 then true else c == 32

-- The value of a hexadecimal digit.
hex_value : ℕ → Option ℕ
hex_value c =
    if leb b'0' c && leb c b'9'
    then some (c - 48)
    else if leb b'a' c && leb c b'f'
    then some (c - 87)
    else if leb b'A' c && leb c b'F'
    then some (c - 55)
    else none

-- The digits up to the first character that is none.
hex_digits : ℕ → List ℕ → ℕ
unfolding hex_value
hex_digits acc [] = acc
hex_digits acc (c ∷ cs) = elim (hex_value c) [ none ↦ acc | some v ↦ hex_digits (16 * acc + v) cs ]

hex_signed : List ℕ → ℕ
unfolding hex_digits
hex_signed [] = 0
hex_signed (c ∷ cs) =
    if c == b'-'
    then u32 (2 ^ 32 - hex_digits 0 cs)
    else if c == b'+'
    then hex_digits 0 cs
    else hex_digits 0 (c ∷ cs)

-- `strtoul` to the base 16, as a `uint32_t`. The prefix 0x makes no difference to two characters.
strtoul : List ℕ → ℕ
unfolding hex_signed is_space
strtoul [] = 0
strtoul (c ∷ cs) = let rest = strtoul cs in if is_space c then rest else hex_signed (c ∷ cs)

pub record PciBdf : Type 0 where
  pub bus : ℕ
  pub device : ℕ
  pub function : ℕ

-- A value has no bit but the last `bound` ones can have: `(tmpu & mask) == 0`.
abbrev in_range : ℕ → ℕ → Bool
in_range tmpu bound = tmpu / bound == 0

abbrev bdf_of : ℕ → ℕ → ℕ → Option PciBdf
bdf_of bus device function =
    if in_range bus 256 && in_range device 32 && in_range function 8
    then some (record { bus = bus; device = device; function = function })
    else none

-- `none` is DOCA_ERROR_INVALID_VALUE.
unfoldable pub parse_pci_addr : List ℕ → Option PciBdf
unfolding strtoul
parse_pci_addr (a ∷ b ∷ c ∷ d ∷ e ∷ f ∷ g ∷ []) =
    if c == b':' && f == b'.'
    then bdf_of (strtoul (a ∷ b ∷ [])) (strtoul (d ∷ e ∷ [])) (strtoul (g ∷ []))
    else none
parse_pci_addr _ = none

-- What DOCA tells of a device: its address where it can be read, the answers of the checks, and whether it
-- can be opened.
pub record DevInfo : Type 0 where
  pub pci_addr : Option ℕ
  pub checks : List Bool
  pub opens : Bool

abbrev pub all_true : List Bool → Bool
all_true [] = true
all_true (b ∷ bs) = if b then all_true bs else false

abbrev pub has_address : Option ℕ → ℕ → Bool
has_address none raw = false
has_address (some addr) raw = addr == raw

-- `open_doca_device_with_pci` once DOCA has listed the devices: the place of the one that is opened, from
-- place `i` on; `none` is DOCA_ERROR_NOT_FOUND.
unfoldable pub open_doca_device_with_pci : ℕ → List DevInfo → ℕ → Option ℕ
open_doca_device_with_pci raw [] i = none
open_doca_device_with_pci raw (d ∷ devs) i =
    let rest = open_doca_device_with_pci raw devs (i + 1) in
    if has_address d.pci_addr raw
    then (if all_true d.checks then (if d.opens then some i else rest) else rest)
    else rest

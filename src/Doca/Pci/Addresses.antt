-- ===== src/Doca/Pci/Addresses.antt =====
-- PCI addresses as texts, and the choice of a device, in src/doca/common.cc and common.h.
use atc2025_poby.Base.{
  ℕ, ◌+◌, ◌*◌, ◌/◌, ◌%◌, ◌<◌, ◌≡◌, refl, ap, ap₂, subst, ◌∙◌, inl, inr, Bool, true, false, ◌&&◌,
  Option, none, some, List, [], ◌∷◌, ◌++◌, arith, ltb, if◌then◌else◌, Bool-cases, length, All,
}
use atc2025_poby.Doca.Pci.{
  PciBdf, parse_pci_addr, bdf_of, strtoul, hex_signed, hex_digits, hex_value, is_space, DevInfo,
  all_true, has_address, open_doca_device_with_pci,
}

-- A hexadecimal digit, in small letters.
abbrev pub hex_digit : ℕ → ℕ
hex_digit v = if ltb v 10 then v + 48 else v + 87

-- bb:dd.f
abbrev pub pci_text : PciBdf → List ℕ
pci_text p =
    hex_digit (p.bus / 16)
    ∷ hex_digit (p.bus % 16)
    ∷ b':'
    ∷ hex_digit (p.device / 16)
    ∷ hex_digit (p.device % 16)
    ∷ b'.'
    ∷ hex_digit p.function
    ∷ []

hex_value-digit : (v : ℕ) → v < 16 → hex_value (hex_digit v) ≡ some v
unfolding hex_value
hex_value-digit v h = ground arith

strtoul-two : (v w : ℕ) → v < 16 → w < 16 → strtoul (hex_digit v ∷ hex_digit w ∷ []) ≡ 16 * v + w
unfolding strtoul hex_signed is_space hex_digits
strtoul-two v w hv hw = ground (arith, hex_value-digit v, hex_value-digit w)

strtoul-one : (v : ℕ) → v < 16 → strtoul (hex_digit v ∷ []) ≡ v
unfolding strtoul hex_signed is_space hex_digits
strtoul-one v h = ground (arith, hex_value-digit v)

bdf_of-fits :
    (bus device function : ℕ)
    → bus < 256
    → device < 32
    → function < 8
    → bdf_of bus device function ≡ some (record { bus = bus; device = device; function = function })
bdf_of-fits bus device function hb hd hf = ground arith

-- An address in range is parsed from its text, bb:dd.f in hexadecimal.
pub parse_pci_addr-text :
    (p : PciBdf)
    → p.bus < 256
    → p.device < 32
    → p.function < 8
    → parse_pci_addr (pci_text p) ≡ some p
unfolding parse_pci_addr
parse_pci_addr-text p hb hd hf =
    let bus : strtoul (hex_digit (p.bus / 16) ∷ hex_digit (p.bus % 16) ∷ []) ≡ p.bus =
      strtoul-two (p.bus / 16) (p.bus % 16) (omega arith) (omega arith) ∙ omega arith in
    let device : strtoul (hex_digit (p.device / 16) ∷ hex_digit (p.device % 16) ∷ []) ≡ p.device =
      strtoul-two (p.device / 16) (p.device % 16) (omega arith) (omega arith) ∙ omega arith in
    ap₂ (λ b d. bdf_of b d (strtoul (hex_digit p.function ∷ []))) bus device
    ∙ ap (bdf_of p.bus p.device) (strtoul-one p.function (omega arith))
    ∙ bdf_of-fits p.bus p.device p.function hb hd hf

-- The device has the address, passes the checks, and can be opened.
abbrev pub suits : ℕ → DevInfo → Bool
suits raw d = has_address d.pci_addr raw && all_true d.checks && d.opens

-- The result of a search from place `i`: nothing suits, or the device at the place does, and none before.
abbrev pub Found : ℕ → List DevInfo → ℕ → Option ℕ → Type 0
Found raw devs i none = All (λ d. suits raw d ≡ false) devs
Found raw devs i (some k) =
    (before : List DevInfo) × (d : DevInfo) × (after : List DevInfo) × (devs ≡ before ++ d ∷ after)
    × (k ≡ i + length before)
    × (suits raw d ≡ true)
    × All (λ e. suits raw e ≡ false) before

later-Found :
    (raw : ℕ) (d : DevInfo) (devs : List DevInfo) (i : ℕ) (o : Option ℕ)
    → suits raw d ≡ false
    → Found raw devs (i + 1) o
    → Found raw (d ∷ devs) i o
later-Found raw d devs i none no_match found = (no_match, found)
later-Found raw d devs i (some k) no_match (before, e, after, split, place, match, others) =
    (d ∷ before, e, after, ap (λ l. d ∷ l) split, omega (arith, place), match, (no_match, others))

-- The first device that suits is opened, and an error is given where none does.
pub open_doca_device_with_pci-Found :
    (raw : ℕ) (devs : List DevInfo) (i : ℕ)
    → Found raw devs i (open_doca_device_with_pci raw devs i)
unfolding open_doca_device_with_pci
open_doca_device_with_pci-Found raw [] i = tt
open_doca_device_with_pci-Found raw (d ∷ devs) i =
    let later = open_doca_device_with_pci-Found raw devs (i + 1) in
    elim (Bool-cases (suits raw d)) [
      | inl match ↦
          subst (Found raw (d ∷ devs) i)
            (let e : some i ≡ open_doca_device_with_pci raw (d ∷ devs) i = ground (arith, match) in
              e)
            ([], d, devs, refl, omega arith, match, tt)
      | inr no_match ↦
          subst (Found raw (d ∷ devs) i)
            (let e : open_doca_device_with_pci raw devs (i + 1)
                  ≡ open_doca_device_with_pci raw (d ∷ devs) i =
                ground (arith, no_match) in
              e)
            (later-Found raw d devs i (open_doca_device_with_pci raw devs (i + 1)) no_match later)
    ]

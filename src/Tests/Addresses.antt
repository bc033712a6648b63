-- ===== src/Tests/Addresses.antt =====
-- PCI addresses and devices at concrete inputs.
use atc2025_poby.Base.{ℕ, ◌≡◌, refl, Bool, true, false, Option, none, some, List, [], ◌∷◌, arith}
use atc2025_poby.Doca.Pci.{PciBdf, parse_pci_addr, DevInfo, open_doca_device_with_pci}
use atc2025_poby.Doca.Pci.Addresses.{
  pci_text, parse_pci_addr-text, Found, open_doca_device_with_pci-Found,
}

abbrev bluefield : PciBdf
bluefield = record { bus = 3; device = 28; function = 1 }

-- 03:1c.1
bluefield_text : pci_text bluefield ≡ b'0' ∷ b'3' ∷ b':' ∷ b'1' ∷ b'c' ∷ b'.' ∷ b'1' ∷ []
bluefield_text = refl

parse_pci_addr-text_example : parse_pci_addr (pci_text bluefield) ≡ some bluefield
parse_pci_addr-text_example =
    parse_pci_addr-text bluefield (omega arith) (omega arith) (omega arith)

-- Letters that are no digits read as zero.
no_digits :
    parse_pci_addr (b'z' ∷ b'z' ∷ b':' ∷ b'z' ∷ b'z' ∷ b'.' ∷ b'z' ∷ [])
    ≡ some (record { bus = 0; device = 0; function = 0 })
unfolding parse_pci_addr
no_digits = refl

-- Device 32 is out of range.
no_such_device : parse_pci_addr (b'0' ∷ b'3' ∷ b':' ∷ b'2' ∷ b'0' ∷ b'.' ∷ b'0' ∷ []) ≡ none
unfolding parse_pci_addr
no_such_device = refl

abbrev device_at : Option ℕ → List Bool → Bool → DevInfo
device_at addr checks opens = record { pci_addr = addr; checks = checks; opens = opens }

-- The second has the address and fails a check, the third cannot be opened.
abbrev listed : List DevInfo
listed =
    device_at none [] true
    ∷ device_at (some 4) (true ∷ false ∷ []) true
    ∷ device_at (some 4) [] false
    ∷ device_at (some 4) (true ∷ []) true
    ∷ []

fourth_opened : open_doca_device_with_pci 4 listed 0 ≡ some 3
unfolding open_doca_device_with_pci
fourth_opened = refl

open_doca_device_with_pci-Found_example : Found 4 listed 0 (open_doca_device_with_pci 4 listed 0)
open_doca_device_with_pci-Found_example = open_doca_device_with_pci-Found 4 listed 0

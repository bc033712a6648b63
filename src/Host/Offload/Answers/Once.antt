-- ===== src/Host/Offload/Answers/Once.antt =====
-- The answers after any sequence of calls of `completeTask`.
use atc2025_poby.Base.{◌+◌, ◌≤◌, ◌≡◌, false, List, String, str_eq}
use atc2025_poby.Host.Offload.{OffloadClient, UntarResult}
use atc2025_poby.Host.Offload.Answers.{count_for, left_of, IsSane}

-- After a layer of an image, it is one nearer its end, and the others are where they were.
record Nearer (name : String) (c c' : OffloadClient) : Type 0 where
  own : left_of name c' + 1 ≡ left_of name c
  others : (image : String) → str_eq name image ≡ false → left_of image c' ≡ left_of image c
  sane : IsSane c'

-- No image has more layers unpacked than it waits for.
abbrev pub Enough : List UntarResult → OffloadClient → Type 0
Enough results c = (image : String) → count_for image results ≤ left_of image c

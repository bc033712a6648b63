-- ===== src/ImageCompress/Folder.antt =====
-- The whole run of tool/image_compress.cc over a folder.
use atc2025_poby.Base.{
  ℕ, ◌^◌, ◌<◌, ◌≡◌, true, false, Option, some, List, [], ◌++◌, String, ◌>>=◌, length,
}
use atc2025_poby.ImageCompress.{Entry, ImageCompress, Setup, rounds}
use atc2025_poby.ImageCompress.Cutting.{Compressed}

-- A regular file can be opened, and has less than 2 ^ 63 bytes.
abbrev pub IsReadable : Entry → Type 0
IsReadable entry =
    entry.is_regular_file ≡ true
    → (bytes : List ℕ) × (entry.content ≡ some bytes) × (length bytes < 2 ^ 63)

module _ (u : Setup) where
  -- A run to where the folder is done.
  record IsDone (s : ImageCompress) (entries : List Entry) (start : Option ImageCompress)
      : Type 0 where
    count : ℕ
    last : ImageCompress
    outputs : List (String × List ℕ)
    totals : List (String × ℕ)
    runs : (start >>= rounds u count) ≡ some last
    free : last.engine.engine_busy ≡ false
    through : last.entries ≡ []
    wrote : last.outputs ≡ s.outputs ++ outputs
    counted : last.totals ≡ s.totals ++ totals
    compressed : Compressed u entries outputs totals

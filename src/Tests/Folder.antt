-- ===== src/Tests/Folder.antt =====
-- tool/image_compress.cc on a folder with a directory, a layer of three bytes and an empty one.
use atc2025_poby.Base.{
  ℕ, ◌≡◌, refl, ◌>>=◌, true, false, Option, none, some, List, [], ◌∷◌, String, cat, to_string,
}
use atc2025_poby.Doca.CompressEngine.{new_engine}
use atc2025_poby.ImageCompress.{Entry, ImageCompress, Setup, begin, rounds}

abbrev setup : Setup
setup = record {
  segment_size = 2;
  output_folder = "out";
  directory_made = λ name. true;
  opened = λ path. true;
  takes = λ bytes. true;
  succeeds = λ bytes. true;
  deflate = λ bytes. 31 ∷ bytes;
}

abbrev folder : List Entry
folder =
    record { filename = "d"; is_regular_file = false; content = none }
    ∷ record { filename = "a"; is_regular_file = true; content = some (1 ∷ 2 ∷ 3 ∷ []) }
    ∷ record { filename = "b"; is_regular_file = true; content = some [] }
    ∷ []

abbrev stored_of : Option ImageCompress → List (String × List ℕ) × List (String × ℕ)
stored_of none = ([], [])
stored_of (some s) = (s.outputs, s.totals)

folder_files : stored_of (begin setup (new_engine 4 1) folder >>= rounds setup 3) ≡ (
  ("out/a/0.tar.gz", 31 ∷ 1 ∷ 2 ∷ [])
      ∷ ("out/a/1.tar.gz", 31 ∷ 3 ∷ [])
      ∷ ("out/b/0.tar.gz", 31 ∷ [])
      ∷ [],
  ("out/a/total_segment.txt", 2) ∷ ("out/b/total_segment.txt", 1) ∷ [],
)
unfolding begin rounds new_engine cat to_string
folder_files = refl

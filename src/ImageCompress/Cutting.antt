-- ===== src/ImageCompress/Cutting.antt =====
-- What tool/image_compress.cc stores of the layers of a folder.
use atc2025_poby.Base.{
  ℕ, suc, ◌+◌, ◌-◌, ◌^◌, ◌≤◌, ◌<◌, ◌≡◌, refl, ap, ap₂, ◌∙◌, not, assert, le→ltb, Bool, true, false,
  some, List, [], ◌∷◌, ◌++◌, String, arith, ltb, if_true, if_false, ◌>>=◌, length, get_or, set,
  take, drop, min, All, take-append-drop, length-drop, length-take, u64,
}
use atc2025_poby.Doca.CompressEngine.{CompressEngine, fill_source}
use atc2025_poby.Content.Server.{index_path, total_segments_path}
use atc2025_poby.ImageCompress.{Entry, ImageCompress, Setup, start_segment}

abbrev pub joined : List (List ℕ) → List ℕ
joined [] = []
joined (x ∷ xs) = x ++ joined xs

module _ (u : Setup) where
  -- The files of the segments of a layer, from number `i` on.
  abbrev pub files_of : String → ℕ → List (List ℕ) → List (String × List ℕ)
  files_of name i [] = []
  files_of name i (x ∷ xs) =
      (index_path u.output_folder name i, u.deflate x) ∷ files_of name (suc i) xs

  -- Each regular file of the folder is stored as segments of at most `segment_size` bytes which make it
  -- up, at least one, with their number.
  pub data Compressed : List Entry → List (String × List ℕ) → List (String × ℕ) → Type 0 where
    done : Compressed [] [] []
    skipped :
        (entry : Entry) (rest : List Entry) (outputs : List (String × List ℕ))
        (totals : List (String × ℕ))
        → entry.is_regular_file ≡ false
        → Compressed rest outputs totals
        → Compressed (entry ∷ rest) outputs totals
    stored :
        (entry : Entry) (rest : List Entry) (bytes : List ℕ) (first : List ℕ) (more : List (List ℕ))
        (outputs : List (String × List ℕ)) (totals : List (String × ℕ))
        → entry.is_regular_file ≡ true
        → entry.content ≡ some bytes
        → joined (first ∷ more) ≡ bytes
        → All (λ x. length x ≤ u.segment_size) (first ∷ more)
        → Compressed rest outputs totals
        → Compressed
            (entry ∷ rest)
            (files_of entry.filename 0 (first ∷ more) ++ outputs)
            ((total_segments_path u.output_folder entry.filename, suc (length more)) ∷ totals)

  -- The engine is free, and its one source buffer holds a segment.
  pub record IsIdle (s : ImageCompress) : Type 0 where
    pub free : s.engine.engine_busy ≡ false
    pub source : List ℕ
    pub sources : s.engine.sources ≡ source ∷ []
    pub wide : u.segment_size ≤ s.engine.src_mem_size

  -- The engine has `piece` of the current file, of which `tail` is left.
  pub record IsBusy (s : ImageCompress) (entry : Entry) (rest : List Entry) (piece tail : List ℕ)
      : Type 0 where
    pub entries : s.entries ≡ entry ∷ rest
    pub busy : s.engine.engine_busy ≡ true
    pub ongoing : s.engine.ongoing_bufpair_id ≡ 0
    pub sources : s.engine.sources ≡ piece ∷ []
    pub wide : u.segment_size ≤ s.engine.src_mem_size
    pub left : s.input_file ≡ tail
    pub size : s.input_size ≡ s.head + length tail
    pub small : s.input_size < 2 ^ 63
    pub counted : 1 ≤ s.idx
    pub bounded : 0 < length tail → s.idx ≤ s.head

  -- What `start_segment` does when the engine is free.
  pub record Started (s : ImageCompress) (entry : Entry) (rest : List Entry) : Type 0 where
    pub next : ImageCompress
    pub piece : List ℕ
    pub tail : List ℕ
    pub starts : start_segment u s ≡ some next
    pub is_busy : IsBusy next entry rest piece tail
    pub whole : piece ++ tail ≡ s.input_file
    pub short : length piece ≤ u.segment_size
    pub shrinks : 0 < length s.input_file → length tail < length s.input_file
    pub outputs : next.outputs ≡ s.outputs
    pub totals : next.totals ≡ s.totals
    pub idx : next.idx ≡ s.idx + 1

  pub start_segment-Started :
      (s : ImageCompress) (entry : Entry) (rest : List Entry)
      → 0 < u.segment_size
      → s.entries ≡ entry ∷ rest
      → IsIdle s
      → s.input_size ≡ s.head + length s.input_file
      → s.input_size < 2 ^ 63
      → s.idx ≤ s.head
      → ((bytes : List ℕ) → u.takes bytes ≡ true)
      → Started s entry rest
  unfolding start_segment
  start_segment-Started s entry rest pos at idle size small bounded takes =
      let k = min (s.input_size - s.head) u.segment_size in
      let piece = take k s.input_file in
      let tail = drop k s.input_file in
      let cut = take-append-drop k s.input_file in
      let e = fill_source s.engine 0 piece in
      let job : CompressEngine = record e {
        ongoing_bufpair_id = 0;
        engine_busy = true;
        jobs =
            e.jobs
            ++ record { job_id = s.job_id; bufpair_id = 0; source = get_or e.sources 0 [] } ∷ [];
      } in
      let lt = length-take k s.input_file in
      let ld = length-drop k s.input_file in
      record {
        next = record s {
          engine = job;
          input_file = tail;
          job_id = u64 (s.job_id + 1);
          head = s.head + k;
          idx = s.idx + 1;
        };
        piece = piece;
        tail = tail;
        starts =
            if_false (ltb s.engine.src_mem_size k) _ _ (le→ltb _ _ (omega (arith, idle.wide)))
            ∙ if_true (u.takes piece) _ _ (takes piece)
            ∙ ap
                (λ (b : Bool). assert (not b) (some job) >>= λ (e' : CompressEngine).
                  some (record s {
                    engine = e';
                    input_file = tail;
                    job_id = u64 (s.job_id + 1);
                    head = u64 (s.head + k);
                    idx = u64 (s.idx + 1);
                  }))
                idle.free
            ∙ ap₂
                (λ (h i : ℕ). some (record s {
                  engine = job;
                  input_file = tail;
                  job_id = u64 (s.job_id + 1);
                  head = h;
                  idx = i;
                }))
                (let r : u64 (s.head + k) ≡ s.head + k = omega (arith, size, small) in r)
                (let r : u64 (s.idx + 1) ≡ s.idx + 1 = omega (arith, size, small, bounded) in r);
        is_busy = record {
          entries = at;
          busy = refl;
          ongoing = refl;
          sources = ap (λ l. set l 0 piece) idle.sources;
          wide = idle.wide;
          left = refl;
          size = omega (arith, lt, ld, size);
          small = small;
          counted = omega arith;
          bounded = λ more. omega (arith, lt, ld, size, more);
        };
        whole = cut;
        short = omega (arith, lt);
        shrinks = λ more. omega (arith, lt, ld, size, more);
        outputs = refl;
        totals = refl;
        idx = refl;
      }

  -- Every directory can be made, and every file opened for writing; DOCA takes every segment, and every
  -- job is done.
  pub record IsOpen : Type 0 where
    pub directories : (name : String) → u.directory_made name ≡ true
    pub files : (path : String) → u.opened path ≡ true
    pub takes : (bytes : List ℕ) → u.takes bytes ≡ true
    pub succeeds : (bytes : List ℕ) → u.succeeds bytes ≡ true

-- ===== src/ImageCompress/Rounds.antt =====
-- The rounds of the engine over one file of the folder, in tool/image_compress.cc.
use atc2025_poby.Base.{
  Bool, true, ℕ, zero, suc, ◌+◌, ◌-◌, ◌≤◌, ◌<◌, ◌≡◌, refl, sym, ap, ap₂, ◌∙◌, false, Option, none,
  some, List, [], ◌∷◌, ◌++◌, append_assoc, arith, leb, if◌then◌else◌, if_true, if_false, ◌>>=◌,
  length, get_or, All,
}
use atc2025_poby.Doca.CompressEngine.{CompressEngine, job_done}
use atc2025_poby.Content.Server.{index_path, total_segments_path}
use atc2025_poby.ImageCompress.{
  Entry, ImageCompress, Setup, start_segment, next_file, success_at, on_task_success, round, rounds,
  job_source,
}
use atc2025_poby.ImageCompress.Cutting.{
  IsOpen, IsBusy, IsIdle, files_of, start_segment-Started, joined,
}

module _ (u : Setup) where
  abbrev freed : ImageCompress → ImageCompress
  freed s = record s { engine = record s.engine { engine_busy = false } }

  abbrev with_segment : ImageCompress → Entry → List ℕ → ImageCompress
  with_segment s entry piece = record (freed s) {
    outputs =
        s.outputs ++ (index_path u.output_folder entry.filename (s.idx - 1), u.deflate piece) ∷ [];
  }

  abbrev with_total : ImageCompress → Entry → ImageCompress
  with_total s entry = record s {
    totals = s.totals ++ (total_segments_path u.output_folder entry.filename, s.idx) ∷ [];
  }

  round_lem :
      (s : ImageCompress) (entry : Entry) (rest : List Entry) (piece tail : List ℕ)
      → IsOpen u
      → IsBusy u s entry rest piece tail
      → round u s ≡ (
          if leb s.input_size s.head
          then next_file u (with_total (with_segment s entry piece) entry) rest
          else start_segment u (with_segment s entry piece))
  unfolding round on_task_success job_done
  round_lem s entry rest piece tail is_open b =
      ap
        (λ (t : Bool). job_done true t s.engine >>= λ (d : Bool × CompressEngine).
          on_task_success u (record s { engine = d.1 }) (u.deflate (job_source d.1)))
        (is_open.succeeds (job_source s.engine))
      ∙ ap₂ (λ l i. on_task_success u (freed s) (u.deflate (get_or l i []))) b.sources b.ongoing
      ∙ ap (λ es. success_at u es (freed s) (u.deflate piece)) b.entries
      ∙ if_true (u.directory_made entry.filename) _ _ (is_open.directories entry.filename)
      ∙ if_true (u.opened (index_path u.output_folder entry.filename (s.idx - 1))) _ _
          (is_open.files _)
      ∙ ap
          (λ (o : Option ImageCompress).
            if leb s.input_size s.head then o else start_segment u (with_segment s entry piece))
          (if_true (u.opened (total_segments_path u.output_folder entry.filename)) _ _
            (is_open.files _))

  round_last :
      (s : ImageCompress) (entry : Entry) (rest : List Entry) (piece tail : List ℕ)
      → IsOpen u
      → IsBusy u s entry rest piece tail
      → length tail ≡ 0
      → round u s ≡ next_file u (with_total (with_segment s entry piece) entry) rest
  round_last s entry rest piece tail is_open b none_left =
      round_lem s entry rest piece tail is_open b
      ∙ if_true (leb s.input_size s.head) _ _ (ground (arith, b.size, none_left))

  round_more :
      (s : ImageCompress) (entry : Entry) (rest : List Entry) (piece tail : List ℕ)
      → IsOpen u
      → IsBusy u s entry rest piece tail
      → 0 < length tail
      → round u s ≡ start_segment u (with_segment s entry piece)
  round_more s entry rest piece tail is_open b more =
      round_lem s entry rest piece tail is_open b
      ∙ if_false (leb s.input_size s.head) _ _ (ground (arith, b.size, more))

  with_segment-IsIdle :
      (s : ImageCompress) (entry : Entry) (rest : List Entry) (piece tail : List ℕ)
      → IsBusy u s entry rest piece tail
      → IsIdle u (with_segment s entry piece)
  with_segment-IsIdle s entry rest piece tail b = record {
    free = refl;
    source = piece;
    sources = b.sources;
    wide = b.wide;
  }

  -- After the last segment of a file the next one is looked for.
  pub record Finished (s : ImageCompress) (entry : Entry) (rest : List Entry) (piece tail : List ℕ)
      : Type 0 where
    pub count : ℕ
    pub last : ImageCompress
    pub more : List (List ℕ)
    pub runs : rounds u count s ≡ next_file u last rest
    pub idle : IsIdle u last
    pub whole : joined more ≡ tail
    pub short : All (λ x. length x ≤ u.segment_size) more
    pub outputs : last.outputs ≡ s.outputs ++ files_of u entry.filename (s.idx - 1) (piece ∷ more)
    pub totals :
        last.totals
        ≡ s.totals ++ (total_segments_path u.output_folder entry.filename, s.idx + length more) ∷ []

  abbrev runs_on : (o o' : Option ImageCompress) → o ≡ o' → (o >>= some) ≡ o'
  runs_on none o' h = h
  runs_on (some s) o' h = h

  pub file-Finished :
      (fuel : ℕ) (s : ImageCompress) (entry : Entry) (rest : List Entry) (piece tail : List ℕ)
      → 0 < u.segment_size
      → IsOpen u
      → IsBusy u s entry rest piece tail
      → length tail < fuel
      → Finished s entry rest piece tail
  unfolding rounds
  file-Finished zero s entry rest piece tail pos is_open b lt = absurd (omega arith)
  file-Finished (suc fuel) s entry rest piece [] pos is_open b lt = record {
    count = suc zero;
    last = with_total (with_segment s entry piece) entry;
    more = [];
    runs = runs_on _ _ (round_last s entry rest piece [] is_open b refl);
    idle = record { free = refl; source = piece; sources = b.sources; wide = b.wide };
    whole = refl;
    short = tt;
    outputs = refl;
    totals =
        ap (λ (i : ℕ). s.totals ++ (total_segments_path u.output_folder entry.filename, i) ∷ [])
          (omega arith);
  }
  file-Finished (suc fuel) s entry rest piece (x ∷ xs) pos is_open b lt =
      let w = with_segment s entry piece in
      let n =
        start_segment-Started u w entry rest pos b.entries
          (with_segment-IsIdle s entry rest piece (x ∷ xs) b)
          (b.size ∙ ap (λ l. s.head + length l) (sym b.left)) b.small (b.bounded (omega arith))
          is_open.takes in
      let f =
        file-Finished fuel n.next entry rest n.piece n.tail pos is_open n.is_busy
          (omega (arith, lt, n.shrinks (ground (arith, b.left)), ap length b.left)) in
      record {
        count = suc f.count;
        last = f.last;
        more = n.piece ∷ f.more;
        runs =
            ap (λ o. o >>= rounds u f.count)
              (round_more s entry rest piece (x ∷ xs) is_open b (omega arith) ∙ n.starts)
            ∙ f.runs;
        idle = f.idle;
        whole = ap (λ l. n.piece ++ l) f.whole ∙ n.whole ∙ b.left;
        short = (n.short, f.short);
        outputs =
            f.outputs
            ∙ ap₂ (λ o i. o ++ files_of u entry.filename i (n.piece ∷ f.more)) n.outputs
                (let e : n.next.idx - 1 ≡ suc (s.idx - 1) = omega (arith, n.idx, b.counted) in e)
            ∙ append_assoc s.outputs _ _;
        totals =
            f.totals
            ∙ ap₂ (λ t i. t ++ (total_segments_path u.output_folder entry.filename, i) ∷ [])
                n.totals
                (let e : n.next.idx + length f.more ≡ s.idx + suc (length f.more) =
                    omega (arith, n.idx) in
                  e);
      }

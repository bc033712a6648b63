-- ===== src/ImageCompress.antt =====
-- tool/image_compress.cc: the layers in a folder are cut into segments, which the engine compresses one
-- at a time, and stored where the registry looks for them. `none` is a fault: a read past the end of the
-- source buffer, or a job while there is one.
pub mod Cutting
pub mod Rounds
pub mod Folder
use atc2025_poby.Base.{
  ℕ, zero, suc, ◌+◌, ◌-◌, ◌^◌, Bool, true, false, Option, none, some, List, [], ◌∷◌, ◌++◌, String,
  ltb, leb, if◌then◌else◌, ◌>>=◌, length, get_or, take, drop, min, u64, cat,
}
use atc2025_poby.Doca.CompressEngine.{CompressEngine, fill_source, start_job, job_done}
use atc2025_poby.Content.Server.{index_path, total_segments_path}

-- An entry of the input folder; `content` is `none` where the file cannot be opened.
pub record Entry : Type 0 where
  pub filename : String
  pub is_regular_file : Bool
  pub content : Option (List ℕ)

-- `entries` are those from the current one of `input_it_` on, and `input_file` what is left to read of
-- its file. `outputs` and `totals` are the files written, by their paths, in order.
pub record ImageCompress : Type 0 where
  pub engine : CompressEngine
  pub entries : List Entry
  pub input_file : List ℕ
  pub input_size : ℕ
  pub job_id : ℕ
  pub idx : ℕ
  pub head : ℕ
  pub outputs : List (String × List ℕ)
  pub totals : List (String × ℕ)

-- What is constant, and what the system and DOCA answer: whether the directory of a layer is there or can
-- be made, and a file opened for writing; whether the buffer takes a source, whether the job on it is
-- retrieved as done, as it is not where the result has no room, and what the source is compressed to.
pub record Setup : Type 0 where
  pub segment_size : ℕ
  pub output_folder : String
  pub directory_made : String → Bool
  pub opened : String → Bool
  pub takes : List ℕ → Bool
  pub succeeds : List ℕ → Bool
  pub deflate : List ℕ → List ℕ

-- What the buffer of the job has.
abbrev pub job_source : CompressEngine → List ℕ
job_source e = get_or e.sources e.ongoing_bufpair_id []

module _ (u : Setup) where
  -- The next segment of the file is read and handed to the engine. Where the buffer does not take it,
  -- nothing more is done.
  unfoldable pub start_segment : ImageCompress → Option ImageCompress
  unfolding start_job fill_source
  start_segment s =
      let read_size = min (s.input_size - s.head) u.segment_size in
      let filled = record s {
        engine = fill_source s.engine 0 (take read_size s.input_file);
        input_file = drop read_size s.input_file;
      } in
      if ltb s.engine.src_mem_size read_size
      then none
      else if u.takes (take read_size s.input_file)
      then (start_job filled.engine s.job_id 0 >>= λ e. some (record filled {
        engine = e;
        job_id = u64 (s.job_id + 1);
        head = u64 (s.head + read_size);
        idx = u64 (s.idx + 1);
      }))
      else some filled

  -- Where the file cannot be opened, nothing more is done.
  abbrev pub open_file : Option (List ℕ) → ImageCompress → Entry → List Entry → Option ImageCompress
  open_file none s entry rest = some (record s { entries = entry ∷ rest })
  open_file (some bytes) s entry rest = start_segment (record s {
    entries = entry ∷ rest;
    input_file = bytes;
    input_size = length bytes;
    head = 0;
    idx = 0;
  })

  -- What the constructor does with the folder, and a callback with what is left of it.
  unfoldable pub next_file : ImageCompress → List Entry → Option ImageCompress
  unfolding start_segment
  next_file s [] = some (record s { entries = [] })
  next_file s (entry ∷ rest) =
      if entry.is_regular_file then open_file entry.content s entry rest else next_file s rest

  -- The constructor. What it leaves of the size is not read before a file is opened.
  unfoldable pub begin : CompressEngine → List Entry → Option ImageCompress
  unfolding next_file
  begin engine entries =
      next_file
        (record {
          engine = engine;
          entries = [];
          input_file = [];
          input_size = 0;
          job_id = 0;
          idx = 0;
          head = 0;
          outputs = [];
          totals = [];
        })
        entries

  abbrev pub finish_file : ImageCompress → Entry → List Entry → Option ImageCompress
  finish_file s entry rest =
      let path = total_segments_path u.output_folder entry.filename in
      if u.opened path
      then next_file (record s { totals = s.totals ++ (path, s.idx) ∷ [] }) rest
      else some s

  abbrev pub store_segment : ImageCompress → Entry → List Entry → List ℕ → Option ImageCompress
  store_segment s entry rest dst =
      let path = index_path u.output_folder entry.filename (s.idx - 1) in
      let written = record s { outputs = s.outputs ++ (path, dst) ∷ [] } in
      if u.directory_made entry.filename
      then (if u.opened path
          then (if leb s.input_size s.head
              then finish_file written entry rest
              else start_segment written)
          else some s)
      else some s

  abbrev pub success_at : List Entry → ImageCompress → List ℕ → Option ImageCompress
  success_at [] s dst = none
  success_at (entry ∷ rest) s dst = store_segment s entry rest dst

  unfoldable pub on_task_success : ImageCompress → List ℕ → Option ImageCompress
  unfolding index_path total_segments_path next_file
  on_task_success s dst = success_at s.entries s dst

  -- An event of the engine: a job is retrieved, and the destination has what its source is compressed to.
  -- The program ends where the job failed.
  unfoldable pub round : ImageCompress → Option ImageCompress
  unfolding on_task_success job_done
  round s = job_done true (u.succeeds (job_source s.engine)) s.engine >>= λ done.
      on_task_success (record s { engine = done.1 }) (u.deflate (job_source done.1))

  unfoldable pub rounds : ℕ → ImageCompress → Option ImageCompress
  unfolding round
  rounds zero s = some s
  rounds (suc n) s = round s >>= rounds n

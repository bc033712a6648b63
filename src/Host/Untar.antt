-- ===== src/Host/Untar.antt =====
-- src/host/client/untar_engine.cc: the segments of each layer are queued for a `tar` that one thread of
-- the pool feeds. `none` is a step that cannot be taken: there is no such task, or it waits for another.
pub mod Layer
pub mod Keyed
pub mod Cases
pub mod Follows
pub mod Run
pub mod Stale
use atc2025_poby.Base.{
  ℕ, ◌+◌, ◌-◌, ◌^◌, Bool, true, false, not, Option, none, some, List, [], ◌∷◌, ◌++◌, String, str_eq,
  ◌==◌, if◌then◌else◌, ◌>>=◌, length, get_elem?, set, take, u32, cat,
}
use atc2025_poby.Host.Offload.{UntarResult, find, emplace, erase}
use atc2025_poby.Host.Decompress.{UntarData}

-- Where the thread of a task is: before `popen`, in the loop, before `pclose`, or done.
pub data Stage : Type 0 where
  waiting unpacking closing ended : Stage

-- A task of the executor with its queue, which the map shares. `written` is what the `tar` got.
pub record UntarTask : Type 0 where
  pub layer : String
  pub image_name_tag : String
  pub cmd : String
  pub queue : List UntarData
  pub stage : Stage
  pub written : List ℕ

-- `tasks` are those added to the executor, in order; the map has the place of a task for its queue.
-- `unregistered` is the entry that the call of `untar` in progress has still to emplace. `results` are
-- those handed to `completeTask`, and `directories` those that there are.
pub record UntarEngine : Type 0 where
  pub untar_file_path : String
  pub directories : List String
  pub untar_map : List (String × ℕ)
  pub tasks : List UntarTask
  pub unregistered : Option (String × ℕ)
  pub results : List UntarResult

unfoldable pub new_untar_engine : String → List String → UntarEngine
new_untar_engine untar_file_path directories = record {
  untar_file_path = untar_file_path;
  directories = directories;
  untar_map = [];
  tasks = [];
  unregistered = none;
  results = [];
}

-- `std::filesystem::exists`
abbrev exists : String → List String → Bool
exists path [] = false
exists path (d ∷ ds) = if str_eq d path then true else exists path ds

abbrev file_path_of : UntarEngine → UntarData → String
file_path_of e d = cat e.untar_file_path (cat "/" (cat d.image_name_tag (cat "/" d.layer)))

abbrev task_of : UntarEngine → UntarData → UntarTask
task_of e d = record {
  layer = d.layer;
  image_name_tag = d.image_name_tag;
  cmd = cat "tar xf - -C " (file_path_of e d);
  queue = d ∷ [];
  stage = waiting;
  written = [];
}

abbrev put : UntarEngine → ℕ → UntarTask → UntarEngine
put e i t = record e { tasks = set e.tasks i t }

-- A new task, whose entry in the map is still to come.
abbrev with_task : UntarEngine → UntarData → UntarEngine
with_task e d =
    let path = file_path_of e d in
    record e {
      directories = if exists path e.directories then e.directories else path ∷ e.directories;
      tasks = e.tasks ++ task_of e d ∷ [];
      unregistered = some (d.layer, length e.tasks);
    }

abbrev queue_in : Option ℕ → UntarEngine → UntarData → Option UntarEngine
queue_in none e d = some (with_task e d)
queue_in (some i) e d =
    get_elem? e.tasks i >>= λ t. some (put e i (record t { queue = t.queue ++ d ∷ [] }))

-- `UntarEngine::untar`, up to the entry in the map. One thread calls it, so no other call is in progress.
unfoldable pub untar : UntarEngine → UntarData → Option UntarEngine
untar e d = elim e.unregistered [
  | none ↦ queue_in (find d.layer e.untar_map) e d
  | some entry ↦ none
]

-- The end of a call that added a task: `untar_map_.emplace`.
unfoldable pub register : UntarEngine → Option UntarEngine
register e = e.unregistered >>= λ entry.
    some (record e { untar_map = emplace entry.0 entry.1 e.untar_map; unregistered = none })

abbrev report : UntarEngine → UntarTask → Bool → UntarEngine
report e t success = record e {
  results =
      e.results
      ++ record { layer = t.layer; image_name_tag = t.image_name_tag; success = success } ∷ [];
}

abbrev open_at : Stage → UntarEngine → ℕ → UntarTask → Bool → Option UntarEngine
open_at waiting e i t opened =
    if opened
    then some (put e i (record t { stage = unpacking }))
    else some (report (put e i (record t { stage = ended })) t false)
open_at _ e i t opened = none

-- `untar_task` up to its loop: whether the command could be opened.
unfoldable pub open_tar : UntarEngine → ℕ → Bool → Option UntarEngine
open_tar e i opened = get_elem? e.tasks i >>= λ t. open_at t.stage e i t opened

-- The last segment is told by its index alone.
abbrev write_at : Stage → List UntarData → UntarEngine → ℕ → UntarTask → ℕ → Option UntarEngine
write_at unpacking (d ∷ rest) e i t res =
    let fed = record t { queue = rest; written = t.written ++ take res d.segment } in
    if res == 0
    then some (report (put e i (record fed { stage = ended })) t false)
    else if d.index == u32 (d.total_segments + 2 ^ 32 - 1)
    then some (put e i (record fed { stage = closing }))
    else some (put e i fed)
write_at _ _ e i t res = none

-- A round of the loop: a segment is dequeued, and `fwrite` takes `res` bytes of it.
unfoldable pub write_segment : UntarEngine → ℕ → ℕ → Option UntarEngine
write_segment e i res = get_elem? e.tasks i >>= λ t. write_at t.stage t.queue e i t res

abbrev close_at : Stage → UntarEngine → ℕ → UntarTask → ℕ → Option UntarEngine
close_at closing e i t status = some (
    report (record (put e i (record t { stage = ended })) { untar_map = erase t.layer e.untar_map })
      t (status == 0))
close_at _ e i t status = none

-- What follows the loop, with the status of `pclose`.
unfoldable pub close_tar : UntarEngine → ℕ → ℕ → Option UntarEngine
close_tar e i status = get_elem? e.tasks i >>= λ t. close_at t.stage e i t status

-- What the calling thread or the thread of task `i` does next.
pub data Event : Type 0 where
  calling : UntarData → Event
  registering : Event
  opening : ℕ → Bool → Event
  writing : ℕ → ℕ → Event
  ending : ℕ → ℕ → Event

unfoldable pub step : UntarEngine → Event → Option UntarEngine
unfolding untar register open_tar write_segment close_tar
step e (calling d) = untar e d
step e registering = register e
step e (opening i opened) = open_tar e i opened
step e (writing i res) = write_segment e i res
step e (ending i status) = close_tar e i status

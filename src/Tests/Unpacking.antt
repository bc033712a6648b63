-- ===== src/Tests/Unpacking.antt =====
-- The untar engine at concrete inputs: a layer of two segments that is unpacked, one that fails, and one of
-- a single segment whose task is done before it is registered.
use atc2025_poby.Base.{
  ℕ, ◌≡◌, refl, ◌⊎◌, Bool, true, false, Option, none, some, List, [], ◌∷◌, arith, length,
}
use atc2025_poby.Host.Decompress.{UntarData}
use atc2025_poby.Host.Untar.{
  UntarEngine, Event, calling, registering, opening, writing, ending, new_untar_engine, step,
}
use atc2025_poby.Host.Untar.Layer.{for_layer, reported, unpacked, Fronts}
use atc2025_poby.Host.Untar.Run.{Run, begin, next, reported_once}
use atc2025_poby.Host.Untar.Stale.{steps, stale_silent, failed_never_again}

abbrev segment_of : ℕ → ℕ → List ℕ → UntarData
segment_of index total bytes = record {
  layer = "a";
  image_name_tag = "i";
  segment = bytes;
  index = index;
  total_segments = total;
}

abbrev first : UntarData
first = segment_of 0 2 (1 ∷ [])

abbrev second : UntarData
second = segment_of 1 2 (2 ∷ 3 ∷ [])

abbrev start : UntarEngine
start = record {
  untar_file_path = "u";
  directories = [];
  untar_map = [];
  tasks = [];
  unregistered = none;
  results = [];
}

-- The engine after a step that can be taken.
abbrev or_start : Option UntarEngine → UntarEngine
or_start none = start
or_start (some e) = e

abbrev after : UntarEngine → Event → UntarEngine
unfolding step
after e ev = or_start (step e ev)

abbrev queued : UntarEngine
queued = after (after start (calling first)) registering

abbrev opened : UntarEngine
opened = after queued (opening 0 true)

abbrev wrote : UntarEngine
wrote = after (after opened (writing 0 1)) (calling second)

abbrev wrote_all : UntarEngine
wrote_all = after wrote (writing 0 2)

abbrev unpacked_all : UntarEngine
unpacked_all = after wrote_all (ending 0 0)

Run-opened : Run "u" [] opened (first ∷ [])
unfolding new_untar_engine step
Run-opened =
    next queued opened (first ∷ []) (opening 0 true)
      (next (after start (calling first)) queued (first ∷ []) registering
        (next start (after start (calling first)) [] (calling first) (begin start refl) refl) refl)
      refl

Run-unpacked_all : Run "u" [] unpacked_all (first ∷ second ∷ [])
unfolding step
Run-unpacked_all =
    next wrote_all unpacked_all (first ∷ second ∷ []) (ending 0 0)
      (next wrote wrote_all (first ∷ second ∷ []) (writing 0 2)
        (next (after opened (writing 0 1)) wrote (first ∷ []) (calling second)
          (next opened (after opened (writing 0 1)) (first ∷ []) (writing 0 1) Run-opened refl)
          refl)
        refl)
      refl

reported_once_example :
    (reported "a" unpacked_all.results ≡ [])
    ⊎ ((success : Bool) × (reported "a" unpacked_all.results ≡ success ∷ [])
        × (success ≡ true
            → (length (for_layer "a" (first ∷ second ∷ [])) ≡ 2)
              × Fronts (for_layer "a" (first ∷ second ∷ [])) (unpacked "a" unpacked_all.tasks)))
reported_once_example =
    reported_once "u" [] "a" 2 unpacked_all (first ∷ second ∷ []) (omega arith) (omega arith)
      Run-unpacked_all
      (refl, refl, omega arith, omega arith, (refl, refl, omega arith, omega arith, tt))

unpacked_all_results :
    (reported "a" unpacked_all.results ≡ true ∷ [])
    × (unpacked "a" unpacked_all.tasks ≡ 1 ∷ 2 ∷ 3 ∷ [])
unfolding step
unpacked_all_results = (refl, refl)

-- The first write fails, and the layer is handed in anew.
abbrev failed : UntarEngine
failed = after opened (writing 0 0)

Run-failed : Run "u" [] failed (first ∷ [])
unfolding step
Run-failed = next opened failed (first ∷ []) (writing 0 0) Run-opened refl

abbrev anew : UntarEngine
anew = after (after failed (calling first)) (calling second)

failed_never_again_example : reported "a" anew.results ≡ false ∷ []
unfolding steps
failed_never_again_example =
    failed_never_again "u" [] "a" 2 failed anew (first ∷ []) (calling first ∷ calling second ∷ [])
      (omega arith) (omega arith) Run-failed (refl, refl, omega arith, omega arith, tt) refl
      (omega arith) refl refl

-- The thread is through with the only segment before `untar` registers the queue.
abbrev only_segment : UntarData
only_segment = segment_of 0 1 (7 ∷ [])

abbrev raced : UntarEngine
raced =
    after
      (after (after (after (after start (calling only_segment)) (opening 0 true)) (writing 0 1))
        (ending 0 0))
      registering

abbrev fetched_again : UntarEngine
fetched_again = after raced (calling only_segment)

stale_silent_example : reported "a" fetched_again.results ≡ reported "a" raced.results
unfolding steps
stale_silent_example =
    stale_silent "a" (calling only_segment ∷ []) raced fetched_again
      (record { place = 0; mapped = refl; unawaited = refl; over = (λ own. refl, tt) }) refl

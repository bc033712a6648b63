-- ===== src/Tests/Engines.antt =====
-- DOCA engines at concrete inputs.
use atc2025_poby.Base.{
  ◌+◌, ◌≡◌, refl, Bool, true, false, Option, none, some, List, [], ◌∷◌, ◌++◌, replicate,
}
use atc2025_poby.Doca.Objects.{Object, Action, mmap, count_made, count_freed}
use atc2025_poby.Doca.Core.{
  CoreCalls, create_core, Errors, again, event, retrieve_job, retrieve_job_once,
}
use atc2025_poby.Doca.Core.Retrieval.{retrieve_job-once}
use atc2025_poby.Doca.Core.Cleanup.{create_core-clean}
use atc2025_poby.Doca.Mmaps.{
  SlotCalls, empty_slot, mmaps_start, import_slots, mmaps_create_from_export,
}
use atc2025_poby.Doca.Mmaps.Held.{imports}
use atc2025_poby.Doca.Engine.{EngineCalls, Engine, create_engine}
use atc2025_poby.Doca.Engine.Released.{
  life, life-released, life-imports, create_engine-device, is_device,
}

abbrev codes : Errors
codes = record { success = 0; error_again = 5; error_unexpected = 9 }

retrieve_job-once_example :
    retrieve_job codes (replicate 2 again ++ event 0 7 ∷ again ∷ [])
    ≡ some (retrieve_job_once codes (event 0 7), again ∷ [])
retrieve_job-once_example = retrieve_job-once codes 2 (event 0 7) (again ∷ []) (λ h. cc)

abbrev all_succeed : CoreCalls
all_succeed = record {
  dev_added = true;
  ctx_started = true;
  inventory_made = true;
  inventory_started = true;
  workq_made = true;
  events_enabled = true;
  handle_got = true;
  workq_added = true;
  armed = true;
}

-- The work queue cannot be added to the context.
abbrev not_added : CoreCalls
not_added = record all_succeed { workq_added = false }

abbrev actions_of : Option (Bool × List Action) → List Action
actions_of none = []
actions_of (some (ok, actions)) = actions

create_core-clean_example :
    count_made is_device (actions_of (create_core not_added))
    ≡ count_freed is_device (actions_of (create_core not_added))
unfolding create_core
create_core-clean_example =
    create_core-clean is_device not_added (actions_of (create_core not_added)) refl refl refl refl

abbrev engine_calls : CoreCalls → EngineCalls
engine_calls core = record {
  workq_depth = 32;
  pci_parsed = true;
  device_opened = true;
  compress_made = true;
  ctx_given = true;
  core = core;
}

abbrev slot_calls : SlotCalls
slot_calls = record {
  created = true;
  added = true;
  ranged = true;
  permitted = true;
  imported = true;
  buf_made = true;
}

-- The second map cannot be added to the device.
abbrev of_two : List SlotCalls
of_two = slot_calls ∷ record slot_calls { added = false } ∷ []

abbrev no_engine : Engine
no_engine = record { holds = false; core = record { holds = false }; srcs = []; dsts = [] }

abbrev engine_in : Option (Option Engine × List Action) → Engine × List Action
engine_in none = (no_engine, [])
engine_in (some (none, actions)) = (no_engine, actions)
engine_in (some (some e, actions)) = (e, actions)

abbrev created : Engine × List Action
created = engine_in (create_engine (engine_calls all_succeed) 2)

abbrev is_map : Object → Bool
is_map (mmap id) = true
is_map _ = false

life-released_example :
    count_made is_map (
      life created.0 created.1
        (mmaps_start of_two created.0.srcs 0)
        (mmaps_start of_two created.0.dsts 4))
    ≡ count_freed is_map (
        life created.0 created.1
          (mmaps_start of_two created.0.srcs 0)
          (mmaps_start of_two created.0.dsts 4))
unfolding create_engine
life-released_example =
    life-released is_map (engine_calls all_succeed) 2 created.0 created.1 of_two of_two 0 4 refl

life-imports_example :
    count_made is_map (
      life created.0 created.1
        (mmaps_start of_two created.0.srcs 0)
        (import_slots of_two created.0.dsts 4))
    ≡ count_freed is_map (
        life created.0 created.1
          (mmaps_start of_two created.0.srcs 0)
          (import_slots of_two created.0.dsts 4))
      + imports is_map of_two created.0.dsts 4
unfolding create_engine mmaps_create_from_export
life-imports_example =
    life-imports is_map (engine_calls all_succeed) 2 created.0 created.1 of_two of_two 0 4 refl
      (import_slots of_two created.0.dsts 4) refl

one_import : imports is_map of_two (replicate 2 empty_slot) 4 ≡ 1
unfolding atc2025_poby.Doca.Mmaps.create_mmap atc2025_poby.Doca.Mmaps.mmap_create_from_export
one_import = refl

abbrev failing : Engine × List Action
failing = engine_in (create_engine (engine_calls not_added) 2)

create_engine-device_example : count_made is_device failing.1 ≡ count_freed is_device failing.1 + 1
unfolding create_engine
create_engine-device_example = create_engine-device (engine_calls not_added) 2 failing.1 refl

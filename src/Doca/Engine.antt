-- ===== src/Doca/Engine.antt =====
-- src/doca/compress.cc: how an engine is made, moved and destroyed. `none` is a fault: a pointer that is not
-- set is released, or an assertion fails.
pub mod Released
use atc2025_poby.Base.{
  ℕ, Bool, true, false, Option, none, some, List, [], ◌∷◌, ◌++◌, if◌then◌else◌, ◌>>=◌, replicate,
  assert, leb,
}
use atc2025_poby.Doca.Objects.{Action, made, freed, device, compress}
use atc2025_poby.Doca.Core.{CoreCalls, DocaCore, create_core, move_core, destroy_core}
use atc2025_poby.Doca.Mmaps.{Slot, empty_slot, release_mmaps, release_bufs}

-- The depth of the work queue, and which calls of `CompressEngine::create` succeed.
pub record EngineCalls : Type 0 where
  pub workq_depth : ℕ
  pub pci_parsed : Bool
  pub device_opened : Bool
  pub compress_made : Bool
  pub ctx_given : Bool
  pub core : CoreCalls

-- `compress_` is set where `holds` is. The slots are the two sides of the buffer pairs.
pub record Engine : Type 0 where
  pub holds : Bool
  pub core : DocaCore
  pub srcs : List Slot
  pub dsts : List Slot

-- The core goes into the parameter of the constructor, and from there into the engine.
abbrev pub engine_of : ℕ → List Action → Option Engine × List Action
engine_of mem_num actions =
    let (parameter, temporary) = move_core (record { holds = true }) in
    let (member, left) = move_core parameter in
    (
      some (record {
        holds = true;
        core = member;
        srcs = replicate mem_num empty_slot;
        dsts = replicate mem_num empty_slot;
      }),
      made device ∷ made compress ∷ (actions ++ (destroy_core left ++ destroy_core temporary)),
    )

abbrev with_core : ℕ → Bool × List Action → Option Engine × List Action
with_core mem_num (true, actions) = engine_of mem_num actions
with_core mem_num (false, actions) =
    (none, made device ∷ made compress ∷ (actions ++ freed compress ∷ []))

-- `CompressEngine::create`: the engine, if there is one, and the calls.
unfoldable pub create_engine : EngineCalls → ℕ → Option (Option Engine × List Action)
unfolding create_core move_core destroy_core
create_engine calls mem_num = assert (leb mem_num calls.workq_depth) (
    if calls.pci_parsed
    then (if calls.device_opened
        then (if calls.compress_made
            then (if calls.ctx_given
                then (create_core calls.core >>= λ core. some (with_core mem_num core))
                else some (none, made device ∷ made compress ∷ []))
            else some (none, made device ∷ []))
        else none)
    else some (none, []))

-- The move constructor.
unfoldable pub move_engine : Engine → Engine × Engine
unfolding move_core
move_engine e =
    let (core, left) = move_core e.core in
    (record e { core = core }, record { holds = false; core = left; srcs = []; dsts = [] })

-- The destructor: its body swaps the core out first, and the members follow, the buffers of the pairs and
-- the core that is left.
unfoldable pub destroy_engine : Engine → List Action
unfolding release_mmaps release_bufs destroy_core
destroy_engine e =
    if e.holds
    then release_mmaps e.srcs e.dsts
      ++ (destroy_core e.core ++ freed compress ∷ release_bufs e.srcs e.dsts)
    else release_bufs e.srcs e.dsts ++ destroy_core e.core

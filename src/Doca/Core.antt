-- ===== src/Doca/Core.antt =====
-- src/doca/core.cc: the context, buffer inventory and work queue of an engine, and the jobs that the
-- queue is polled for. `none` is a fault: a pointer that is not set, or a poll past the last answer.
pub mod Retrieval
pub mod Cleanup
use atc2025_poby.Base.{
  ℕ, Bool, true, false, ◌&&◌, Option, none, some, List, [], ◌∷◌, ◌++◌, ◌==◌, if◌then◌else◌,
}
use atc2025_poby.Doca.Objects.{
  Object, Action, made, freed, ctx_dev, ctx_run, inventory, workq, ctx_workq, device,
}

-- Which calls of `DocaCore::create` succeed.
pub record CoreCalls : Type 0 where
  pub dev_added : Bool
  pub ctx_started : Bool
  pub inventory_made : Bool
  pub inventory_started : Bool
  pub workq_made : Bool
  pub events_enabled : Bool
  pub handle_got : Bool
  pub workq_added : Bool
  pub armed : Bool

-- The labels, by what is released from there on. The stop of the inventory releases nothing that its
-- destruction does not.
abbrev fail_buf_inv : List Action
fail_buf_inv = []

abbrev fail_buf_inventory_start : List Action
fail_buf_inventory_start = freed inventory ∷ fail_buf_inv

abbrev fail_ctx_dev_add : List Action
fail_ctx_dev_add = fail_buf_inventory_start

abbrev fail_ctx_start : List Action
fail_ctx_start = freed ctx_dev ∷ fail_ctx_dev_add

abbrev fail_workq_create : List Action
fail_workq_create = freed ctx_run ∷ fail_ctx_start

abbrev fail_ctx_workq_add : List Action
fail_ctx_workq_add = freed workq ∷ fail_workq_create

abbrev ctx_made : List Action
ctx_made = made ctx_dev ∷ made ctx_run ∷ []

abbrev inventory_up : List Action
inventory_up = ctx_made ++ made inventory ∷ []

abbrev workq_up : List Action
workq_up = inventory_up ++ made workq ∷ []

abbrev pub core_up : List Action
core_up = workq_up ++ made ctx_workq ∷ []

-- From the work queue on.
abbrev create_workq : CoreCalls → Bool × List Action
create_workq calls =
    if calls.workq_made
    then (if calls.events_enabled && calls.handle_got && calls.workq_added
        then (if calls.armed then (true, core_up) else (false, core_up ++ fail_ctx_workq_add))
        else (false, workq_up ++ fail_ctx_workq_add))
    else (false, inventory_up ++ fail_workq_create)

-- `DocaCore::create`: whether there is a core, and the calls. Where the device cannot be added or the
-- context started, the jump is past the inventory, whose pointer is not set and is released.
unfoldable pub create_core : CoreCalls → Option (Bool × List Action)
create_core calls =
    if calls.dev_added && calls.ctx_started
    then some (
        if calls.inventory_made
        then (if calls.inventory_started
            then create_workq calls
            else (false, inventory_up ++ fail_buf_inventory_start))
        else (false, ctx_made ++ fail_buf_inv))
    else none

-- Whether a core holds its five pointers: none of them is null, or all are.
pub record DocaCore : Type 0 where
  pub holds : Bool

-- The move constructor: the new core, and what is left of the old one.
unfoldable pub move_core : DocaCore → DocaCore × DocaCore
move_core core = (core, record { holds = false })

-- The destructor, which closes the device also.
unfoldable pub destroy_core : DocaCore → List Action
destroy_core core =
    if core.holds
    then freed ctx_workq
      ∷ freed workq
      ∷ freed ctx_run
      ∷ freed ctx_dev
      ∷ freed device
      ∷ freed inventory
      ∷ []
    else []

-- Assignment: the core on the right is swapped in, and what was there is destroyed with it.
unfoldable pub assign_core : DocaCore → DocaCore → DocaCore × List Action
unfolding destroy_core
assign_core core rhs = (rhs, destroy_core core)

-- An answer of `doca_workq_progress_retrieve`: there is nothing yet, an error, or an event with the status
-- of its job and the job's number.
pub data Poll : Type 0 where
  again : Poll
  failed : ℕ → Poll
  event : ℕ → ℕ → Poll

pub data Retrieved : Type 0 where
  job : ℕ → Retrieved
  unexpected : ℕ → Retrieved

-- `DOCA_SUCCESS`, `DOCA_ERROR_AGAIN` and `DOCA_ERROR_UNEXPECTED`
pub record Errors : Type 0 where
  pub success : ℕ
  pub error_again : ℕ
  pub error_unexpected : ℕ

module _ (codes : Errors) where
  unfoldable pub retrieve_job_once : Poll → Retrieved
  retrieve_job_once again = unexpected codes.error_again
  retrieve_job_once (failed error) = unexpected error
  retrieve_job_once (event status job_id) =
      if status == codes.success then job job_id else unexpected codes.error_unexpected

  -- The loop of `retrieve_job`, over the answers that the queue gives; with the answers that are left.
  unfoldable pub retrieve_job : List Poll → Option (Retrieved × List Poll)
  retrieve_job [] = none
  retrieve_job (again ∷ rest) = retrieve_job rest
  retrieve_job (failed error ∷ rest) = some (unexpected error, rest)
  retrieve_job (event status job_id ∷ rest) =
      some (if status == codes.success then job job_id else unexpected codes.error_unexpected, rest)

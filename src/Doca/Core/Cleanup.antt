-- ===== src/Doca/Core/Cleanup.antt =====
-- What `DocaCore::create` in src/doca/core.cc leaves where it fails.
use atc2025_poby.Base.{
  ◌≡◌, sym, subst, ◌⊎◌, inl, inr, Bool, true, false, some, List, ◌++◌, arith, Bool-cases,
}
use atc2025_poby.Doca.Objects.{Object, Action, count_made, count_freed}
use atc2025_poby.Doca.Core.{
  CoreCalls, create_core, workq_up, inventory_up, fail_ctx_workq_add, fail_workq_create,
}

create_core-fails :
    (calls : CoreCalls) (actions : List Action)
    → create_core calls ≡ some (false, actions)
    → calls.inventory_made ≡ true
    → calls.inventory_started ≡ true
    → calls.armed ≡ true
    → (actions ≡ workq_up ++ fail_ctx_workq_add) ⊎ (actions ≡ inventory_up ++ fail_workq_create)
unfolding create_core
create_core-fails calls actions h inventory_made inventory_started armed =
    elim (Bool-cases calls.workq_made) [
      | inl queue ↦ inl (ground (arith, h, queue))
      | inr no_queue ↦ inr (ground (arith, h, no_queue))
    ]

-- Where the inventory is made and started, and a work queue that is added can be armed, a core that cannot be
-- made leaves no object behind.
pub create_core-clean :
    (p : Object → Bool) (calls : CoreCalls) (actions : List Action)
    → create_core calls ≡ some (false, actions)
    → calls.inventory_made ≡ true
    → calls.inventory_started ≡ true
    → calls.armed ≡ true
    → count_made p actions ≡ count_freed p actions
create_core-clean p calls actions h inventory_made inventory_started armed =
    elim (create_core-fails calls actions h inventory_made inventory_started armed) [
      | inl late ↦ subst (λ l. count_made p l ≡ count_freed p l) (sym late) (omega arith)
      | inr early ↦ subst (λ l. count_made p l ≡ count_freed p l) (sym early) (omega arith)
    ]

-- ===== src/Host/Untar/Follows.antt =====
-- Where one layer is in the untar engine of src/host/client/untar_engine.cc, whose segments are handed in
-- once and in order.
pub mod Moves
pub mod Registering
pub mod Threads
pub mod Writing
use atc2025_poby.Base.{
  ℕ, zero, suc, ◌+◌, ◌-◌, ◌^◌, ◌≤◌, ◌<◌, ◌≡◌, refl, sym, ap, ap₂, subst, ◌∙◌, ◌⊎◌, inl, inr, Bool,
  true, false, Option, none, some, List, [], ◌∷◌, ◌++◌, append_assoc, append-nil, String, str_eq,
  eq_iff, eq_refl, arith, ◌==◌, if◌then◌else◌, if_true, if_false, ◌>>=◌, none≢some, some_eq,
  Bool-cases, Option-cases, List-cases, length, length-append, get_elem?, set, take, take_all, u32,
}
use atc2025_poby.Host.Offload.{UntarResult, find, emplace, erase}
use atc2025_poby.Host.Offload.Answers.{find-erase, find-erase_ne}
use atc2025_poby.Host.Decompress.{UntarData}
use atc2025_poby.Host.Untar.{
  UntarEngine, UntarTask, Event, calling, registering, opening, writing, ending, Stage, waiting,
  unpacking, closing, ended, step,
}
use atc2025_poby.Host.Untar.Layer.{
  NumberedFrom, NumberedFrom-suffix, for_layer, Fronts, reported, Absent, Only, Only-set_other,
  Absent-set, reported-append,
}

-- The place of the task whose entry is to come, if it is the layer's.
abbrev pub pending : String → Option (String × ℕ) → Option ℕ
pending layer none = none
pending layer (some entry) = if str_eq entry.0 layer then some entry.1 else none

-- Nothing was handed in for the layer.
pub record IsFresh (layer : String) (e : UntarEngine) : Type 0 where
  pub absent : Absent layer e.tasks
  pub unmapped : find layer e.untar_map ≡ none
  pub unawaited : pending layer e.unregistered ≡ none
  pub unreported : reported layer e.results ≡ []

-- The queue of the task at `i` is the one that the next segment of the layer goes to.
abbrev pub Located : String → ℕ → UntarEngine → Type 0
Located layer i e =
    (find layer e.untar_map ≡ some i)
    ⊎ ((find layer e.untar_map ≡ none) × (pending layer e.unregistered ≡ some i))

-- Of the `n` segments, `ds` were handed in. What was reported is `rs`.
abbrev pub Stands : Stage → List UntarData → List ℕ → ℕ → List UntarData → List Bool → Type 0
Stands waiting queue written n ds rs = (queue ≡ ds) × (written ≡ []) × (rs ≡ [])
Stands unpacking queue written n ds rs =
    (fed : List UntarData) × (ds ≡ fed ++ queue) × Fronts fed written × (length fed < n) × (rs ≡ [])
Stands closing queue written n ds rs = Fronts ds written × (length ds ≡ n) × (rs ≡ [])
Stands ended queue written n ds rs =
    (success : Bool) × (rs ≡ success ∷ []) × (success ≡ true → (length ds ≡ n) × Fronts ds written)

pub record IsBegun (layer : String) (n : ℕ) (e : UntarEngine) (ds : List UntarData) : Type 0 where
  pub place : ℕ
  pub task : UntarTask
  pub only : Only layer place task e.tasks
  pub located : Located layer place e ⊎ (length ds ≡ n)
  pub stands : Stands task.stage task.queue task.written n ds (reported layer e.results)

abbrev pub Follows : String → ℕ → UntarEngine → List UntarData → Type 0
Follows layer n e ds = (IsFresh layer e × (ds ≡ [])) ⊎ IsBegun layer n e ds

-- A step of another layer.
pub record Other (layer : String) (e e' : UntarEngine) : Type 0 where
  pub absent : Absent layer e.tasks → Absent layer e'.tasks
  pub only : (i : ℕ) (t : UntarTask) → Only layer i t e.tasks → Only layer i t e'.tasks
  pub mapped : find layer e'.untar_map ≡ find layer e.untar_map
  pub awaited : pending layer e'.unregistered ≡ pending layer e.unregistered
  pub told : reported layer e'.results ≡ reported layer e.results

pub Other-Located :
    (layer : String) (i : ℕ) (e e' : UntarEngine)
    → Other layer e e'
    → Located layer i e
    → Located layer i e'
Other-Located layer i e e' o (inl h) = inl (o.mapped ∙ h)
Other-Located layer i e e' o (inr h) = inr (o.mapped ∙ h.0, o.awaited ∙ h.1)

pub Other-Follows :
    (layer : String) (n : ℕ) (e e' : UntarEngine) (ds : List UntarData)
    → Other layer e e'
    → Follows layer n e ds
    → Follows layer n e' ds
Other-Follows layer n e e' ds o (inl (f, none_yet)) = inl (
  record {
    absent = o.absent f.absent;
    unmapped = o.mapped ∙ f.unmapped;
    unawaited = o.awaited ∙ f.unawaited;
    unreported = o.told ∙ f.unreported;
  },
  none_yet,
)
Other-Follows layer n e e' ds o (inr b) = inr (record {
  place = b.place;
  task = b.task;
  only = o.only b.place b.task b.only;
  located = elim b.located [
    | inl at ↦ inl (Other-Located layer b.place e e' o at)
    | inr all ↦ inr all
  ];
  stands = subst (Stands b.task.stage b.task.queue b.task.written n ds) (sym o.told) b.stands;
})

-- A step of the task at `j`, of another layer.
pub put-Other :
    (layer : String) (e e' : UntarEngine) (j : ℕ) (y x : UntarTask) (told : List UntarResult)
    → get_elem? e.tasks j ≡ some y
    → str_eq y.layer layer ≡ false
    → str_eq x.layer layer ≡ false
    → e'.tasks ≡ set e.tasks j x
    → find layer e'.untar_map ≡ find layer e.untar_map
    → e'.unregistered ≡ e.unregistered
    → e'.results ≡ e.results ++ told
    → reported layer told ≡ []
    → Other layer e e'
put-Other layer e e' j y x told at ney nex tasks mapped same results nothing = record {
  absent = λ a. subst (Absent layer) (sym tasks) (Absent-set layer e.tasks j x a nex);
  only = λ i t o.
      subst (Only layer i t) (sym tasks) (Only-set_other layer i t e.tasks j y x o at ney nex);
  mapped = mapped;
  awaited = ap (pending layer) same;
  told =
      ap (reported layer) results
      ∙ reported-append layer e.results told
      ∙ ap (λ l. reported layer e.results ++ l) nothing
      ∙ append-nil (reported layer e.results);
}

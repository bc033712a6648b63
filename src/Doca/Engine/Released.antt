-- ===== src/Doca/Engine/Released.antt =====
-- The objects of an engine of src/doca/compress.cc over its whole life.
use atc2025_poby.Base.{
  assert, none≢some, subst, Bool-cases, ◌==◌, ℕ, zero, suc, ◌+◌, ◌≡◌, refl, ap, subst₂, ◌∙◌, sym,
  Bool, true, false, ◌&&◌, none, some, List, ◌∷◌, ◌++◌, arith, if◌then◌else◌, length, All,
  replicate, Option-cases, inl, inr, some_eq,
}
use atc2025_poby.Doca.Objects.{
  Object, Action, made, freed, device, compress, ctx_dev, ctx_run, inventory, workq, ctx_workq,
  count_made, count_freed, count_made-append, count_freed-append,
}
use atc2025_poby.Doca.Core.{CoreCalls, create_core, core_up, move_core, destroy_core}
use atc2025_poby.Doca.Mmaps.{
  Slot, SlotCalls, Mapped, empty_slot, mmaps_start, import_slots, mmaps_create_from_export,
  release_mmaps, release_bufs,
}
use atc2025_poby.Doca.Mmaps.Held.{
  IsEmptySlot, held, imports, release-held, release-made, mmaps_start-held, import_slots-held,
  length-mmaps_start, length-import_slots,
}
use atc2025_poby.Doca.Engine.{
  Engine, EngineCalls, create_engine, engine_of, move_engine, destroy_engine,
}

create_core-up :
    (calls : CoreCalls) (actions : List Action)
    → create_core calls ≡ some (true, actions)
    → actions ≡ core_up
unfolding create_core
create_core-up calls actions h = ground arith

create_engine-up :
    (calls : EngineCalls) (mem_num : ℕ) (e : Engine) (actions : List Action)
    → create_engine calls mem_num ≡ some (some e, actions)
    → (some e, actions) ≡ engine_of mem_num core_up
unfolding create_engine
create_engine-up calls mem_num e actions h = elim (Option-cases (create_core calls.core)) [
  | inl fault ↦ ground (arith, h, fault)
  | inr ((false, made_core), core) ↦ ground (arith, h, core)
  | inr ((true, made_core), core) ↦
      let up = create_core-up calls.core made_core core in ground (arith, h, core, up)
]

replicate-IsEmptySlot : (n : ℕ) → All IsEmptySlot (replicate n empty_slot)
replicate-IsEmptySlot zero = tt
replicate-IsEmptySlot (suc n) = ((refl, refl), replicate-IsEmptySlot n)

-- The calls from the creation of an engine to its end: the buffers of either side are mapped, the engine is
-- moved, and what is left of the old one is destroyed as well as the new one.
abbrev pub life : Engine → List Action → Mapped → Mapped → List Action
life e created src dst =
    let (moved, left) = move_engine (record e { srcs = src.slots; dsts = dst.slots }) in
    created ++ (src.actions ++ (dst.actions ++ (destroy_engine left ++ destroy_engine moved)))

module _ (p : Object → Bool) where
  abbrev whole_engine : ℕ → Engine
  whole_engine mem_num = record {
    holds = true;
    core = record { holds = true };
    srcs = replicate mem_num empty_slot;
    dsts = replicate mem_num empty_slot;
  }

  life-counted :
      (mem_num : ℕ) (src dst : Mapped) (k l : ℕ)
      → length src.slots ≡ length dst.slots
      → count_made p src.actions ≡ count_freed p src.actions + held p src.slots + k
      → count_made p dst.actions ≡ count_freed p dst.actions + held p dst.slots + l
      → count_made p (life (whole_engine mem_num) (made device ∷ made compress ∷ core_up) src dst)
        ≡ count_freed p
            (life (whole_engine mem_num) (made device ∷ made compress ∷ core_up) src dst)
          + (k + l)
  unfolding move_engine destroy_engine move_core destroy_core release_mmaps release_bufs
  life-counted mem_num src dst k l same s d =
      let maps = release_mmaps src.slots dst.slots in
      let bufs = release_bufs src.slots dst.slots in
      let ends : List Action =
        freed ctx_workq
        ∷ freed workq
        ∷ freed ctx_run
        ∷ freed ctx_dev
        ∷ freed device
        ∷ freed inventory
        ∷ freed compress
        ∷ bufs in
      omega (
        arith,
        s,
        d,
        release-held p src.slots dst.slots same,
        release-made p src.slots dst.slots,
        count_made-append p src.actions (dst.actions ++ (maps ++ ends)),
        count_made-append p dst.actions (maps ++ ends),
        count_made-append p maps ends,
        count_freed-append p src.actions (dst.actions ++ (maps ++ ends)),
        count_freed-append p dst.actions (maps ++ ends),
        count_freed-append p maps ends,
      )

  -- An engine releases what it makes, if the loops over its slots leave `k` and `l` behind.
  engine-counted :
      (calls : EngineCalls) (mem_num : ℕ) (e : Engine) (actions : List Action)
      (src dst : List Slot → Mapped) (k l : List Slot → ℕ)
      → create_engine calls mem_num ≡ some (some e, actions)
      → ((slots : List Slot) → length (src slots).slots ≡ length slots)
      → ((slots : List Slot) → length (dst slots).slots ≡ length slots)
      → ((slots : List Slot)
          → All IsEmptySlot slots
          → count_made p (src slots).actions
            ≡ count_freed p (src slots).actions + held p (src slots).slots + k slots)
      → ((slots : List Slot)
          → All IsEmptySlot slots
          → count_made p (dst slots).actions
            ≡ count_freed p (dst slots).actions + held p (dst slots).slots + l slots)
      → count_made p (life e actions (src e.srcs) (dst e.dsts))
        ≡ count_freed p (life e actions (src e.srcs) (dst e.dsts)) + (k e.srcs + l e.dsts)
  unfolding destroy_core move_core
  engine-counted calls mem_num e actions src dst k l h len_src len_dst s d =
      let up = create_engine-up calls mem_num e actions h in
      let slots = replicate mem_num empty_slot in
      let empty = replicate-IsEmptySlot mem_num in
      subst₂
        (λ e' actions'.
          count_made p (life e' actions' (src e'.srcs) (dst e'.dsts))
          ≡ count_freed p (life e' actions' (src e'.srcs) (dst e'.dsts)) + (k e'.srcs + l e'.dsts))
        (sym (some_eq (ap (λ q. q.0) up))) (sym (ap (λ q. q.1) up))
        (life-counted mem_num (src slots) (dst slots) (k slots) (l slots)
          (len_src slots ∙ sym (len_dst slots)) (s slots empty) (d slots empty))

  -- Whatever calls succeed, an engine whose buffers are mapped releases each object as often as it was
  -- made, by its end, also where it was moved.
  pub life-released :
      (calls : EngineCalls) (mem_num : ℕ) (e : Engine) (actions : List Action)
      (src_calls dst_calls : List SlotCalls) (i j : ℕ)
      → create_engine calls mem_num ≡ some (some e, actions)
      → count_made p
          (life e actions (mmaps_start src_calls e.srcs i) (mmaps_start dst_calls e.dsts j))
        ≡ count_freed p
            (life e actions (mmaps_start src_calls e.srcs i) (mmaps_start dst_calls e.dsts j))
  life-released calls mem_num e actions src_calls dst_calls i j h = omega (
    arith,
    engine-counted calls mem_num e actions (λ slots. mmaps_start src_calls slots i)
        (λ slots. mmaps_start dst_calls slots j) (λ slots. 0) (λ slots. 0) h
        (λ slots. length-mmaps_start src_calls slots i)
        (λ slots. length-mmaps_start dst_calls slots j)
        (λ slots empty. omega (arith, mmaps_start-held p src_calls slots i empty))
        (λ slots empty. omega (arith, mmaps_start-held p dst_calls slots j empty)),
  )

  -- Where the sources are mapped and the destinations imported, from one description for each pair,
  -- the maps that the imports made are left over when the engine is gone.
  pub life-imports :
      (calls : EngineCalls) (mem_num : ℕ) (e : Engine) (actions : List Action)
      (src_calls dst_calls : List SlotCalls) (i j : ℕ)
      → create_engine calls mem_num ≡ some (some e, actions)
      → (mapped : Mapped) → mmaps_create_from_export dst_calls e.dsts j ≡ some mapped
      → count_made p (life e actions (mmaps_start src_calls e.srcs i) mapped)
        ≡ count_freed p (life e actions (mmaps_start src_calls e.srcs i) mapped)
          + imports p dst_calls e.dsts j
  unfolding mmaps_create_from_export
  life-imports calls mem_num e actions src_calls dst_calls i j h mapped imported =
      let same : import_slots dst_calls e.dsts j ≡ mapped =
        elim (Bool-cases (length e.dsts == length dst_calls)) [
          | inl b ↦
              some_eq
                (sym (ap (λ t. assert t (some (import_slots dst_calls e.dsts j))) b) ∙ imported)
          | inr b ↦
              none≢some
                (sym (ap (λ t. assert t (some (import_slots dst_calls e.dsts j))) b) ∙ imported)
        ] in
      subst
        (λ m.
          count_made p (life e actions (mmaps_start src_calls e.srcs i) m)
          ≡ count_freed p (life e actions (mmaps_start src_calls e.srcs i) m)
            + imports p dst_calls e.dsts j)
        same
        (engine-counted calls mem_num e actions (λ slots. mmaps_start src_calls slots i)
            (λ slots. import_slots dst_calls slots j) (λ slots. 0)
            (λ slots. imports p dst_calls slots j) h (λ slots. length-mmaps_start src_calls slots i)
            (λ slots. length-import_slots dst_calls slots j)
            (λ slots empty. omega (arith, mmaps_start-held p src_calls slots i empty))
            (λ slots empty. import_slots-held p dst_calls slots j empty)
          ∙ omega arith)

abbrev pub is_device : Object → Bool
is_device device = true
is_device _ = false

-- A creation that fails leaves the device open, if it opened it.
pub create_engine-device :
    (calls : EngineCalls) (mem_num : ℕ) (actions : List Action)
    → create_engine calls mem_num ≡ some (none, actions)
    → count_made is_device actions
      ≡ count_freed is_device actions + (if calls.pci_parsed && calls.device_opened then 1 else 0)
unfolding create_engine create_core
create_engine-device calls mem_num actions h = ground (arith, h)

-- ===== src/Doca/Mmaps/Held.antt =====
-- What the slots of src/doca/compress.h hold after the loops over them, and what is released of it.
use atc2025_poby.Base.{
  ℕ, suc, ◌+◌, ◌≡◌, refl, ap, ◌∙◌, sym, subst, Bool, true, false, ◌&&◌, Option, none, some, List,
  [], ◌∷◌, ◌++◌, arith, if◌then◌else◌, All, length,
}
use atc2025_poby.Doca.Objects.{
  Object, Action, mmap, doca_buf, count_made, count_freed, count_made-append, count_freed-append,
}
use atc2025_poby.Doca.Mmaps.{
  Slot, SlotCalls, Mapped, create_mmap, mmap_start, mmap_create_from_export, map_slot, mmaps_start,
  import_slots, release_mmap, release_buf, release_mmaps, release_bufs,
}

-- How many of the objects that `p` tells a slot holds.
abbrev mmap_held : (Object → Bool) → Option ℕ → ℕ
mmap_held p none = 0
mmap_held p (some id) = if p (mmap id) then 1 else 0

abbrev buf_held : (Object → Bool) → Option ℕ → ℕ
buf_held p none = 0
buf_held p (some id) = if p (doca_buf id) then 1 else 0

abbrev pub held : (Object → Bool) → List Slot → ℕ
held p [] = 0
held p (s ∷ slots) = mmap_held p s.mmap_of + buf_held p s.buf_of + held p slots

abbrev pub IsEmptySlot : Slot → Type 0
IsEmptySlot s = (s.mmap_of ≡ none) × (s.buf_of ≡ none)

-- What a loop leaves behind: `k` of a slot that it came to, and `r` of the rest.
abbrev left_behind : Option ℕ → Bool → ℕ → ℕ → ℕ
left_behind none well k r = 0
left_behind (some id) true k r = k + r
left_behind (some id) false k r = k

-- How many of the maps that are imported `p` tells, of the slots that the loop comes to.
abbrev pub imports : (Object → Bool) → List SlotCalls → List Slot → ℕ → ℕ
imports p [] slots id = 0
imports p (c ∷ calls) [] id = 0
imports p (c ∷ calls) (s ∷ slots) id =
    left_behind (create_mmap c id).0 (mmap_create_from_export c id).0
      (if c.imported && p (mmap (suc id)) then 1 else 0) (imports p calls slots (id + 2))

module _ (p : Object → Bool) where
  release_mmap-freed :
      (o : Option ℕ) (actions : List Action)
      → count_freed p (release_mmap o ++ actions) ≡ mmap_held p o + count_freed p actions
  release_mmap-freed none actions = omega arith
  release_mmap-freed (some id) actions = ground arith

  release_buf-freed :
      (o : Option ℕ) (actions : List Action)
      → count_freed p (release_buf o ++ actions) ≡ buf_held p o + count_freed p actions
  release_buf-freed none actions = omega arith
  release_buf-freed (some id) actions = ground arith

  mmap_made :
      (o : Option ℕ) (actions : List Action)
      → count_made p (release_mmap o ++ actions) ≡ count_made p actions
  mmap_made none actions = refl
  mmap_made (some id) actions = refl

  buf_made :
      (o : Option ℕ) (actions : List Action)
      → count_made p (release_buf o ++ actions) ≡ count_made p actions
  buf_made none actions = refl
  buf_made (some id) actions = refl

  pub release-made :
      (srcs dsts : List Slot)
      → (count_made p (release_mmaps srcs dsts) ≡ 0) × (count_made p (release_bufs srcs dsts) ≡ 0)
  unfolding release_mmaps release_bufs
  release-made [] dsts = (refl, refl)
  release-made (s ∷ srcs) [] = (refl, refl)
  release-made (s ∷ srcs) (d ∷ dsts) =
      let rest = release-made srcs dsts in
      (
        mmap_made s.mmap_of _ ∙ mmap_made d.mmap_of _ ∙ rest.0,
        buf_made s.buf_of _ ∙ buf_made d.buf_of _ ∙ rest.1,
      )

  -- What the two parts of the destruction release is what the slots hold.
  pub release-held :
      (srcs dsts : List Slot)
      → length srcs ≡ length dsts
      → count_freed p (release_mmaps srcs dsts) + count_freed p (release_bufs srcs dsts)
        ≡ held p srcs + held p dsts
  unfolding release_mmaps release_bufs
  release-held [] [] h = refl
  release-held [] (d ∷ dsts) h = absurd (omega arith)
  release-held (s ∷ srcs) [] h = absurd (omega arith)
  release-held (s ∷ srcs) (d ∷ dsts) h = omega (
    arith,
    release-held srcs dsts (omega arith),
    release_mmap-freed s.mmap_of (release_mmap d.mmap_of ++ release_mmaps srcs dsts),
    release_mmap-freed d.mmap_of (release_mmaps srcs dsts),
    release_buf-freed s.buf_of (release_buf d.buf_of ++ release_bufs srcs dsts),
    release_buf-freed d.buf_of (release_bufs srcs dsts),
  )

  empty-held : (slots : List Slot) → All IsEmptySlot slots → held p slots ≡ 0
  empty-held [] empty = refl
  empty-held (s ∷ slots) empty =
      omega (arith, empty-held slots empty.1, ap (mmap_held p) empty.0.0, ap (buf_held p) empty.0.1)

  -- A round of a loop.
  slot-held :
      (starting : Bool) (s : Slot) (o : Option ℕ) (tried used : List Action) (well : Bool)
      (slots : List Slot) (rest : Mapped) (k r : ℕ)
      → IsEmptySlot s
      → All IsEmptySlot slots
      → count_made p tried ≡ count_freed p tried + mmap_held p o
      → ((id : ℕ)
          → o ≡ some id
          → count_made p used ≡ count_freed p used + (if well then buf_held p (some id) else 0) + k)
      → count_made p rest.actions ≡ count_freed p rest.actions + held p rest.slots + r
      → count_made p (map_slot starting s (o, tried) (well, used) slots rest).actions
        ≡ count_freed p (map_slot starting s (o, tried) (well, used) slots rest).actions
          + held p (map_slot starting s (o, tried) (well, used) slots rest).slots
          + left_behind o well k r
  slot-held starting s none tried used well slots rest k r empty empties first second third =
      omega
        (arith, empty-held slots empties, ap (mmap_held p) empty.0, ap (buf_held p) empty.1, first)
  slot-held starting s (some id) tried used true slots rest k r empty empties first second third =
      omega (
        arith,
        first,
        second id refl,
        third,
        count_made-append p tried used,
        count_freed-append p tried used,
        count_made-append p (tried ++ used) rest.actions,
        count_freed-append p (tried ++ used) rest.actions,
      )
  slot-held starting s (some id) tried used false slots rest k r empty empties first second third =
      omega (
        arith,
        empty-held slots empties,
        ap (buf_held p) empty.1,
        first,
        second id refl,
        count_made-append p tried used,
        count_freed-append p tried used,
      )

  create_mmap-held :
      (c : SlotCalls) (id : ℕ)
      → count_made p (create_mmap c id).1
        ≡ count_freed p (create_mmap c id).1 + mmap_held p (create_mmap c id).0
  unfolding create_mmap
  create_mmap-held c id = ground arith

  create_mmap-id : (c : SlotCalls) (id j : ℕ) → (create_mmap c id).0 ≡ some j → j ≡ id
  unfolding create_mmap
  create_mmap-id c id j h = ground arith

  mmap_start-held :
      (c : SlotCalls) (id : ℕ)
      → count_made p (mmap_start c id).1
        ≡ count_freed p (mmap_start c id).1
          + (if (mmap_start c id).0 then buf_held p (some id) else 0)
          + 0
  unfolding mmap_start
  mmap_start-held c id = ground arith

  import-held :
      (c : SlotCalls) (id : ℕ)
      → count_made p (mmap_create_from_export c id).1
        ≡ count_freed p (mmap_create_from_export c id).1
          + (if (mmap_create_from_export c id).0 then buf_held p (some id) else 0)
          + (if c.imported && p (mmap (suc id)) then 1 else 0)
  unfolding mmap_create_from_export
  import-held c id = ground arith

  left_behind-zero : (o : Option ℕ) (well : Bool) → left_behind o well 0 0 ≡ 0
  left_behind-zero none well = refl
  left_behind-zero (some id) true = refl
  left_behind-zero (some id) false = refl

  -- The loop makes what it releases and what the slots then hold.
  pub mmaps_start-held :
      (calls : List SlotCalls) (slots : List Slot) (id : ℕ)
      → All IsEmptySlot slots
      → count_made p (mmaps_start calls slots id).actions
        ≡ count_freed p (mmaps_start calls slots id).actions
          + held p (mmaps_start calls slots id).slots
  unfolding mmaps_start
  mmaps_start-held [] slots id empty = omega (arith, empty-held slots empty)
  mmaps_start-held (c ∷ calls) [] id empty = refl
  mmaps_start-held (c ∷ calls) (s ∷ slots) id empty = omega (
    arith,
    slot-held true s (create_mmap c id).0 (create_mmap c id).1 (mmap_start c id).1
        (mmap_start c id).0 slots (mmaps_start calls slots (id + 2)) 0 0 empty.0 empty.1
        (create_mmap-held c id)
        (λ j at.
          subst
            (λ i.
              count_made p (mmap_start c id).1
              ≡ count_freed p (mmap_start c id).1
                + (if (mmap_start c id).0 then buf_held p (some i) else 0)
                + 0)
            (sym (create_mmap-id c id j at)) (mmap_start-held c id))
        (omega (arith, mmaps_start-held calls slots (id + 2) empty.1)),
    left_behind-zero (create_mmap c id).0 (mmap_start c id).0,
  )

  -- The loop over imports makes, besides, the maps that are imported, which no slot holds.
  pub import_slots-held :
      (calls : List SlotCalls) (slots : List Slot) (id : ℕ)
      → All IsEmptySlot slots
      → count_made p (import_slots calls slots id).actions
        ≡ count_freed p (import_slots calls slots id).actions
          + held p (import_slots calls slots id).slots
          + imports p calls slots id
  unfolding import_slots
  import_slots-held [] slots id empty = omega (arith, empty-held slots empty)
  import_slots-held (c ∷ calls) [] id empty = refl
  import_slots-held (c ∷ calls) (s ∷ slots) id empty =
      slot-held false s (create_mmap c id).0 (create_mmap c id).1 (mmap_create_from_export c id).1
        (mmap_create_from_export c id).0 slots (import_slots calls slots (id + 2))
        (if c.imported && p (mmap (suc id)) then 1 else 0) (imports p calls slots (id + 2)) empty.0
        empty.1 (create_mmap-held c id)
        (λ j at.
          subst
            (λ i.
              count_made p (mmap_create_from_export c id).1
              ≡ count_freed p (mmap_create_from_export c id).1
                + (if (mmap_create_from_export c id).0 then buf_held p (some i) else 0)
                + (if c.imported && p (mmap (suc id)) then 1 else 0))
            (sym (create_mmap-id c id j at)) (import-held c id))
        (import_slots-held calls slots (id + 2) empty.1)

length-map_slot :
    (starting : Bool) (s : Slot) (created : Option ℕ × List Action) (used : Bool × List Action)
    (slots : List Slot) (rest : Mapped)
    → length rest.slots ≡ length slots
    → length (map_slot starting s created used slots rest).slots ≡ suc (length slots)
length-map_slot starting s (none, tried) (well, used) slots rest h = refl
length-map_slot starting s (some id, tried) (true, used) slots rest h = ap suc h
length-map_slot starting s (some id, tried) (false, used) slots rest h = refl

pub length-mmaps_start :
    (calls : List SlotCalls) (slots : List Slot) (id : ℕ)
    → length (mmaps_start calls slots id).slots ≡ length slots
unfolding mmaps_start
length-mmaps_start [] slots id = refl
length-mmaps_start (c ∷ calls) [] id = refl
length-mmaps_start (c ∷ calls) (s ∷ slots) id =
    length-map_slot true s (create_mmap c id) (mmap_start c id) slots _
      (length-mmaps_start calls slots (id + 2))

pub length-import_slots :
    (calls : List SlotCalls) (slots : List Slot) (id : ℕ)
    → length (import_slots calls slots id).slots ≡ length slots
unfolding import_slots
length-import_slots [] slots id = refl
length-import_slots (c ∷ calls) [] id = refl
length-import_slots (c ∷ calls) (s ∷ slots) id =
    length-map_slot false s (create_mmap c id) (mmap_create_from_export c id) slots _
      (length-import_slots calls slots (id + 2))

-- ===== src/Doca/Mmaps.antt =====
-- src/doca/compress.h and compress.cc: the memory maps and DOCA buffers of the buffer pairs.
pub mod Held
use atc2025_poby.Base.{
  ℕ, suc, ◌+◌, Bool, true, false, ◌&&◌, Option, none, some, List, [], ◌∷◌, ◌++◌, if◌then◌else◌,
  assert, length, ◌==◌,
}
use atc2025_poby.Doca.Objects.{Action, made, freed, mmap, doca_buf}

-- The source or the destination side of a `DocaBufPair`.
pub record Slot : Type 0 where
  pub mmap_of : Option ℕ
  pub mmap_start : Bool
  pub buf_of : Option ℕ

abbrev pub empty_slot : Slot
empty_slot = record { mmap_of = none; mmap_start = false; buf_of = none }

-- Which calls succeed for a slot: `doca_mmap_create`, `doca_mmap_dev_add`, and those that give the buffer.
-- `imported` is the result of `doca_mmap_create_from_export`.
pub record SlotCalls : Type 0 where
  pub created : Bool
  pub added : Bool
  pub ranged : Bool
  pub permitted : Bool
  pub imported : Bool
  pub buf_made : Bool

-- `create_mmap`, with the number that a new map would have.
unfoldable pub create_mmap : SlotCalls → ℕ → Option ℕ × List Action
create_mmap calls id =
    if calls.created
    then (if calls.added
        then (some id, made (mmap id) ∷ [])
        else (none, made (mmap id) ∷ freed (mmap id) ∷ []))
    else (none, [])

-- `CompressEngine::mmap_start`: the result of `doca_mmap_start` is not looked at.
unfoldable pub mmap_start : SlotCalls → ℕ → Bool × List Action
mmap_start calls id =
    if calls.ranged && calls.permitted && calls.buf_made
    then (true, made (doca_buf id) ∷ [])
    else (false, [])

-- `CompressEngine::mmap_create_from_export`: the map is made anew, and only the local pointer has it.
unfoldable pub mmap_create_from_export : SlotCalls → ℕ → Bool × List Action
mmap_create_from_export calls id =
    if calls.imported
    then (if calls.buf_made
        then (true, made (mmap (suc id)) ∷ made (doca_buf id) ∷ [])
        else (false, made (mmap (suc id)) ∷ []))
    else (false, [])

-- A slot after `mmap_start` or `mmap_create_from_export`; an import does not set the flag.
abbrev pub mapped_slot : Bool → Slot → ℕ → Bool → Slot
mapped_slot starting slot id true = record {
  mmap_of = some id;
  mmap_start = if starting then true else slot.mmap_start;
  buf_of = some id;
}
mapped_slot starting slot id false = record slot { mmap_of = some id }

-- What a loop over the pairs leaves: whether all went well, the slots, and the calls.
pub record Mapped : Type 0 where
  pub all_well : Bool
  pub slots : List Slot
  pub actions : List Action

-- The rest of the loop after a slot, which ends at the first error.
abbrev pub after_slot : Slot → List Action → List Slot → Bool → Mapped → Mapped
after_slot slot actions untouched true rest = record {
  all_well = rest.all_well;
  slots = slot ∷ rest.slots;
  actions = actions ++ rest.actions;
}
after_slot slot actions untouched false rest = record {
  all_well = false;
  slots = slot ∷ untouched;
  actions = actions;
}

abbrev pub map_slot :
    Bool → Slot → Option ℕ × List Action → Bool × List Action → List Slot → Mapped → Mapped
map_slot starting slot (none, tried) (well, done) untouched rest =
    after_slot slot tried untouched false rest
map_slot starting slot (some id, tried) (well, done) untouched rest =
    after_slot (mapped_slot starting slot id well) (tried ++ done) untouched well rest

-- `src_mmaps_start` and `dst_mmaps_start`. Maps are numbered from `id` on, by twos.
unfoldable pub mmaps_start : List SlotCalls → List Slot → ℕ → Mapped
unfolding create_mmap mmap_start
mmaps_start [] slots id = record { all_well = true; slots = slots; actions = [] }
mmaps_start (c ∷ calls) [] id = record { all_well = true; slots = []; actions = [] }
mmaps_start (c ∷ calls) (slot ∷ slots) id =
    map_slot true slot (create_mmap c id) (mmap_start c id) slots (mmaps_start calls slots (id + 2))

-- The loop of `src_mmaps_create_from_export` and of `dst_mmaps_create_from_export`.
unfoldable pub import_slots : List SlotCalls → List Slot → ℕ → Mapped
unfolding create_mmap mmap_create_from_export
import_slots [] slots id = record { all_well = true; slots = slots; actions = [] }
import_slots (c ∷ calls) [] id = record { all_well = true; slots = []; actions = [] }
import_slots (c ∷ calls) (slot ∷ slots) id =
    map_slot false slot (create_mmap c id) (mmap_create_from_export c id) slots
      (import_slots calls slots (id + 2))

-- There must be a description for each pair.
unfoldable pub mmaps_create_from_export : List SlotCalls → List Slot → ℕ → Option Mapped
unfolding import_slots
mmaps_create_from_export calls slots id =
    assert (length slots == length calls) (some (import_slots calls slots id))

-- What the destructor of the engine releases of a slot, and what the slot's own destructor does.
abbrev pub release_mmap : Option ℕ → List Action
release_mmap none = []
release_mmap (some id) = freed (mmap id) ∷ []

abbrev pub release_buf : Option ℕ → List Action
release_buf none = []
release_buf (some id) = freed (doca_buf id) ∷ []

-- Of the pairs, the source side and then the destination side of each.
unfoldable pub release_mmaps : List Slot → List Slot → List Action
release_mmaps (s ∷ srcs) (d ∷ dsts) =
    release_mmap s.mmap_of ++ (release_mmap d.mmap_of ++ release_mmaps srcs dsts)
release_mmaps [] _ = []
release_mmaps _ [] = []

unfoldable pub release_bufs : List Slot → List Slot → List Action
release_bufs (s ∷ srcs) (d ∷ dsts) =
    release_buf s.buf_of ++ (release_buf d.buf_of ++ release_bufs srcs dsts)
release_bufs [] _ = []
release_bufs _ [] = []

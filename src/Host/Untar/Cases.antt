-- ===== src/Host/Untar/Cases.antt =====
-- What a thread of the executor may have done in a step, in `untar_task` of src/host/client/untar_engine.cc.
use atc2025_poby.Base.{
  ℕ, ◌+◌, ◌-◌, ◌^◌, ◌≡◌, ◌≢◌, refl, sym, ap, ◌∙◌, ◌⊎◌, inl, inr, Bool, true, false, Option, some,
  List, [], ◌∷◌, ◌++◌, arith, ◌==◌, if_true, if_false, ◌>>=◌, none≢some, some_eq, Bool-cases,
  Option-cases, get_elem?, take, u32,
}
use atc2025_poby.Host.Offload.{erase}
use atc2025_poby.Host.Decompress.{UntarData}
use atc2025_poby.Host.Untar.{
  UntarEngine, UntarTask, Stage, waiting, unpacking, closing, ended, open_at, write_at, close_at,
  put, report,
}

-- The task that a step is about.
pub task_at :
    (e e' : UntarEngine) (i : ℕ) (k : UntarTask → Option UntarEngine)
    → (get_elem? e.tasks i >>= k) ≡ some e'
    → (y : UntarTask) × (get_elem? e.tasks i ≡ some y) × (k y ≡ some e')
task_at e e' i k h = elim (Option-cases (get_elem? e.tasks i)) [
  | inl no_task ↦ none≢some (sym (ap (λ o. o >>= k) no_task) ∙ h)
  | inr (y, at) ↦ (y, at, sym (ap (λ o. o >>= k) at) ∙ h)
]

pub open-cases :
    (stage : Stage) (e e' : UntarEngine) (i : ℕ) (y : UntarTask) (opened : Bool)
    → open_at stage e i y opened ≡ some e'
    → (stage ≡ waiting)
      × (((e' ≡ put e i (record y { stage = unpacking })))
          ⊎ (e' ≡ report (put e i (record y { stage = ended })) y false))
open-cases waiting e e' i y true h = (refl, inl (sym (some_eq h)))
open-cases waiting e e' i y false h = (refl, inr (sym (some_eq h)))
open-cases unpacking e e' i y opened h = none≢some h
open-cases closing e e' i y opened h = none≢some h
open-cases ended e e' i y opened h = none≢some h

pub close-cases :
    (stage : Stage) (e e' : UntarEngine) (i : ℕ) (y : UntarTask) (status : ℕ)
    → close_at stage e i y status ≡ some e'
    → (stage ≡ closing)
      × (e'
          ≡ report
              (record (put e i (record y { stage = ended })) {
                untar_map = erase y.layer e.untar_map;
              })
              y
              (status == 0))
close-cases closing e e' i y status h = (refl, sym (some_eq h))
close-cases waiting e e' i y status h = none≢some h
close-cases unpacking e e' i y status h = none≢some h
close-cases ended e e' i y status h = none≢some h

abbrev pub fed_task : UntarTask → UntarData → List UntarData → ℕ → UntarTask
fed_task y d rest res = record y { queue = rest; written = y.written ++ take res d.segment }

abbrev pub is_last : UntarData → Bool
is_last d = d.index == u32 (d.total_segments + 2 ^ 32 - 1)

-- The write failed, or it was the last, or there are more.
pub write-cases :
    (stage : Stage) (queue : List UntarData) (e e' : UntarEngine) (i : ℕ) (y : UntarTask) (res : ℕ)
    → write_at stage queue e i y res ≡ some e'
    → (stage ≡ unpacking)
      × (d : UntarData) × (rest : List UntarData) × (queue ≡ d ∷ rest)
      × (((res ≡ 0)
            × (e' ≡ report (put e i (record (fed_task y d rest res) { stage = ended })) y false))
          ⊎ ((res ≢ 0)
              × (((is_last d ≡ true)
                    × (e' ≡ put e i (record (fed_task y d rest res) { stage = closing })))
                  ⊎ ((is_last d ≡ false) × (e' ≡ put e i (fed_task y d rest res))))))
write-cases unpacking (d ∷ rest) e e' i y res h = elim (Bool-cases (res == 0)) [
  | inl zero_written ↦ (
    refl,
    d,
    rest,
    refl,
    inl (ground (arith, zero_written), sym (some_eq (sym (if_true _ _ _ zero_written) ∙ h))),
  )
  | inr some_written ↦
      let g = sym (if_false _ _ _ some_written) ∙ h in
      elim (Bool-cases (is_last d)) [
        | inl last ↦ (
          refl,
          d,
          rest,
          refl,
          inr (
            ground (arith, some_written),
            inl (last, sym (some_eq (sym (if_true _ _ _ last) ∙ g))),
          ),
        )
        | inr more ↦ (
          refl,
          d,
          rest,
          refl,
          inr (
            ground (arith, some_written),
            inr (more, sym (some_eq (sym (if_false _ _ _ more) ∙ g))),
          ),
        )
      ]
]
write-cases unpacking [] e e' i y res h = none≢some h
write-cases waiting queue e e' i y res h = none≢some h
write-cases closing queue e e' i y res h = none≢some h
write-cases ended queue e e' i y res h = none≢some h

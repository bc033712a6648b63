-- ===== src/Host/Untar/Follows/Moves.antt =====
-- The calls of `untar` and what they leave to be registered, of src/host/client/untar_engine.cc, as one
-- layer sees them.
use atc2025_poby.Base.{
  ℕ, ◌<◌, ◌≡◌, refl, sym, ap, ap₂, subst, subst₂, ◌∙◌, ◌⊎◌, inl, inr, Bool, true, false, Option,
  none, some, List, [], ◌∷◌, ◌++◌, append_assoc, append-nil, String, str_eq, eq_iff, arith, if_true,
  if_false, ◌>>=◌, none≢some, some_eq, Bool-cases, Option-cases, length, get_elem?,
}
use atc2025_poby.Host.Offload.{find}
use atc2025_poby.Host.Decompress.{UntarData}
use atc2025_poby.Host.Untar.{
  UntarEngine, UntarTask, Stage, waiting, unpacking, closing, ended, untar, with_task, task_of,
  queue_in, put,
}
use atc2025_poby.Host.Untar.Layer.{
  NumberedFrom, NumberedFrom-suffix, for_layer, Absent-append, Absent-get, Only-append,
  Only-append_new, Only-hit, Only-set, Only-layer,
}
use atc2025_poby.Host.Untar.Keyed.{Keyed, names-get}
use atc2025_poby.Host.Untar.Follows.{
  Stands, Follows, IsFresh, IsBegun, Other, Other-Follows, put-Other, pending,
}

-- One more segment is handed in for the layer.
Stands-grown :
    (stage : Stage) (queue : List UntarData) (written : List ℕ) (n : ℕ) (ds : List UntarData)
    (d : UntarData) (rs : List Bool)
    → length ds < n
    → Stands stage queue written n ds rs
    → Stands stage (queue ++ d ∷ []) written n (ds ++ d ∷ []) rs
Stands-grown waiting queue written n ds d rs lt s = (ap (λ l. l ++ d ∷ []) s.0, s.1, s.2)
Stands-grown unpacking queue written n ds d rs lt (fed, whole, got, more, told) =
    (fed, ap (λ l. l ++ d ∷ []) whole ∙ append_assoc fed queue (d ∷ []), got, more, told)
Stands-grown closing queue written n ds d rs lt s = absurd (omega (arith, s.1))
Stands-grown ended queue written n ds d rs lt (success, told, good) =
    (success, told, λ is. absurd (omega (arith, lt, (good is).0)))

-- A segment that is handed in is not past the last.
room :
    (n : ℕ) (ds : List UntarData) (d : UntarData) → NumberedFrom 0 n (ds ++ d ∷ []) → length ds < n
room n ds d h = let s = NumberedFrom-suffix 0 n ds (d ∷ []) h in omega (arith, s.2)

module _ (layer : String) (n : ℕ) (e : UntarEngine) (d : UntarData) (ds : List UntarData) where
  own_data : str_eq d.layer layer ≡ true → ds ++ for_layer layer (d ∷ []) ≡ ds ++ d ∷ []
  own_data own = ap (λ l. ds ++ l) (if_true _ _ _ own)

  other_data : str_eq d.layer layer ≡ false → ds ++ for_layer layer (d ∷ []) ≡ ds
  other_data other = ap (λ l. ds ++ l) (if_false _ _ _ other) ∙ append-nil ds

  with_task-Other :
      e.unregistered ≡ none → str_eq d.layer layer ≡ false → Other layer e (with_task e d)
  with_task-Other free other = record {
    absent = λ a. Absent-append layer e.tasks (task_of e d) a other;
    only = λ i t o. Only-append layer i t e.tasks (task_of e d) o other;
    mapped = refl;
    awaited = if_false _ _ _ other ∙ sym (ap (pending layer) free);
    told = refl;
  }

  with_task-IsBegun :
      IsFresh layer e → str_eq d.layer layer ≡ true → IsBegun layer n (with_task e d) (d ∷ [])
  with_task-IsBegun f own = record {
    place = length e.tasks;
    task = task_of e d;
    only = Only-append_new layer e.tasks (task_of e d) f.absent own;
    located = inl (inr (f.unmapped, if_true _ _ _ own));
    stands = (refl, refl, f.unreported);
  }

  with_task-Follows :
      NumberedFrom 0 n (ds ++ for_layer layer (d ∷ []))
      → e.unregistered ≡ none
      → find d.layer e.untar_map ≡ none
      → Follows layer n e ds
      → Follows layer n (with_task e d) (ds ++ for_layer layer (d ∷ []))
  with_task-Follows numbered free gone follows = elim (Bool-cases (str_eq d.layer layer)) [
    | inr other ↦
        subst (Follows layer n (with_task e d)) (sym (other_data other))
          (Other-Follows layer n e (with_task e d) ds (with_task-Other free other) follows)
    | inl own ↦ elim follows [
      | inl (f, none_yet) ↦
          subst (Follows layer n (with_task e d))
            (sym (own_data own ∙ ap (λ l. l ++ d ∷ []) none_yet)) (inr (with_task-IsBegun f own))
      | inr b ↦ elim b.located [
        | inl (inl at) ↦
            none≢some (sym gone ∙ ap (λ k. find k e.untar_map) ((eq_iff d.layer layer).0 own) ∙ at)
        | inl (inr at) ↦ none≢some (sym (ap (pending layer) free) ∙ at.1)
        | inr all ↦
            absurd
              (omega (arith, all, room n ds d (subst (NumberedFrom 0 n) (own_data own) numbered)))
      ]
    ]
  ]

  abbrev grown : UntarTask → UntarTask
  grown t = record t { queue = t.queue ++ d ∷ [] }

  grown-IsBegun :
      (b : IsBegun layer n e ds)
      → length ds < n
      → IsBegun layer n (put e b.place (grown b.task)) (ds ++ d ∷ [])
  grown-IsBegun b more =
      let t = b.task in
      record {
        place = b.place;
        task = grown t;
        only =
            Only-set layer b.place t e.tasks (grown t) b.only
              (Only-layer layer b.place t e.tasks b.only);
        located = elim b.located [ inl at ↦ inl at | inr all ↦ absurd (omega (arith, more, all)) ];
        stands = Stands-grown t.stage t.queue t.written n ds d _ more b.stands;
      }

  grown-Follows :
      (i : ℕ) (y : UntarTask)
      → NumberedFrom 0 n (ds ++ for_layer layer (d ∷ []))
      → get_elem? e.tasks i ≡ some y
      → y.layer ≡ d.layer
      → Follows layer n e ds
      → Follows layer n (put e i (grown y)) (ds ++ for_layer layer (d ∷ []))
  grown-Follows i y numbered at same follows = elim (Bool-cases (str_eq d.layer layer)) [
    | inr other ↦
        let not_own = ap (λ k. str_eq k layer) same ∙ other in
        subst (Follows layer n (put e i (grown y))) (sym (other_data other)) (
          Other-Follows layer n e (put e i (grown y)) ds
            (put-Other layer e (put e i (grown y)) i y (grown y) [] at not_own not_own refl refl
              refl (sym (append-nil e.results)) refl)
            follows)
    | inl own ↦
        let its = ap (λ k. str_eq k layer) same ∙ own in
        elim follows [
          | inl (f, none_yet) ↦ cc (Absent-get layer i y e.tasks f.absent at)
          | inr b ↦
              let hit = Only-hit layer b.place b.task e.tasks i y b.only at its in
              let more = room n ds d (subst (NumberedFrom 0 n) (own_data own) numbered) in
              subst₂ (Follows layer n) (ap₂ (λ j t. put e j (grown t)) (sym hit.0) (sym hit.1))
                (sym (own_data own)) (inr (grown-IsBegun b more))
        ]
  ]

untar_cases :
    (e e' : UntarEngine) (d : UntarData)
    → untar e d ≡ some e'
    → (e.unregistered ≡ none) × (queue_in (find d.layer e.untar_map) e d ≡ some e')
unfolding untar
untar_cases e e' d h =
    let F : Option (String × ℕ) → Option UntarEngine =
      λ o. elim o [ none ↦ queue_in (find d.layer e.untar_map) e d | some entry ↦ none ] in
    elim (Option-cases e.unregistered) [
      | inl free ↦ (free, sym (ap F free) ∙ h)
      | inr (entry, busy) ↦ none≢some (sym (ap F busy) ∙ h)
    ]

-- What a call does: a new task, or one more segment for a task.
pub untar-cases :
    (e e' : UntarEngine) (d : UntarData)
    → untar e d ≡ some e'
    → (e.unregistered ≡ none)
      × (((find d.layer e.untar_map ≡ none) × (e' ≡ with_task e d))
          ⊎ ((i : ℕ) × (y : UntarTask) × (find d.layer e.untar_map ≡ some i)
              × (get_elem? e.tasks i ≡ some y)
              × (e' ≡ put e i (record y { queue = y.queue ++ d ∷ [] }))))
untar-cases e e' d h =
    let (free, q) = untar_cases e e' d h in
    elim (Option-cases (find d.layer e.untar_map)) [
      | inl gone ↦ (free, inl (gone, sym (some_eq (sym (ap (λ o. queue_in o e d) gone) ∙ q))))
      | inr (i, found) ↦
          let r : (get_elem? e.tasks i >>= λ t.
          some (put e i (record t { queue = t.queue ++ d ∷ [] })))
              ≡ some e' =
            sym (ap (λ o. queue_in o e d) found) ∙ q in
          elim (Option-cases (get_elem? e.tasks i)) [
            | inl no_task ↦ none≢some (
                sym (
                  ap (λ o. o >>= λ t. some (put e i (record t { queue = t.queue ++ d ∷ [] })))
                    no_task)
                ∙ r)
            | inr (y, at) ↦ (
              free,
              inr (
                i,
                y,
                found,
                at,
                sym (
                    some_eq (
                      sym (
                        ap (λ o. o >>= λ t. some (put e i (record t { queue = t.queue ++ d ∷ [] })))
                          at)
                      ∙ r)),
              ),
            )
          ]
    ]

pub untar-Follows :
    (layer : String) (n : ℕ) (e e' : UntarEngine) (d : UntarData) (ds : List UntarData)
    → Keyed e
    → NumberedFrom 0 n (ds ++ for_layer layer (d ∷ []))
    → untar e d ≡ some e'
    → Follows layer n e ds
    → Follows layer n e' (ds ++ for_layer layer (d ∷ []))
untar-Follows layer n e e' d ds keyed numbered h follows =
    let (free, cases) = untar-cases e e' d h in
    elim cases [
      | inl (gone, is) ↦
          subst (λ u. Follows layer n u (ds ++ for_layer layer (d ∷ []))) (sym is)
            (with_task-Follows layer n e d ds numbered free gone follows)
      | inr (i, y, found, at, is) ↦
          subst (λ u. Follows layer n u (ds ++ for_layer layer (d ∷ []))) (sym is)
            (grown-Follows layer n e d ds i y numbered at
              (some_eq (sym (names-get e.tasks i y at) ∙ keyed.entry d.layer i found)) follows)
    ]

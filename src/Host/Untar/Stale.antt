-- ===== src/Host/Untar/Stale.antt =====
-- The entry that a task of src/host/client/untar_engine.cc leaves in the map where it fails, or where it
-- is done before it is registered.
use atc2025_poby.Base.{
  ℕ, zero, suc, ◌^◌, ◌<◌, ◌≡◌, ◌≢◌, refl, sym, ap, subst, ◌∙◌, inl, inr, Bool, true, false, Option,
  none, some, List, [], ◌∷◌, ◌++◌, append-nil, String, str_eq, eq_iff, arith, if_true, if_false,
  ◌>>=◌, none≢some, some_eq, Bool-cases, Option-cases, length, get_elem?, set, All, All-append,
}
use atc2025_poby.Host.Offload.{UntarResult, find}
use atc2025_poby.Host.Offload.Answers.{find-erase_ne}
use atc2025_poby.Host.Decompress.{UntarData}
use atc2025_poby.Host.Untar.{
  UntarEngine, UntarTask, Stage, waiting, unpacking, closing, ended, Event, calling, registering,
  opening, writing, ending, step, untar, register, open_tar, write_segment, close_tar, task_of,
}
use atc2025_poby.Host.Untar.Layer.{
  NumberedFrom, for_layer, reported, reported-append, Absent, Only, find-emplace_ne,
}
use atc2025_poby.Host.Untar.Follows.{Stands, pending}
use atc2025_poby.Host.Untar.Follows.Moves.{untar-cases}
use atc2025_poby.Host.Untar.Follows.Registering.{register-cases}
use atc2025_poby.Host.Untar.Cases.{task_at, open-cases, close-cases, write-cases}
use atc2025_poby.Host.Untar.Run.{Run, Run-Follows}

-- A sequence of steps; `none` where one of them cannot be taken.
unfoldable pub steps : List Event → UntarEngine → Option UntarEngine
unfolding step
steps [] e = some e
steps (ev ∷ evs) e = step e ev >>= steps evs

abbrev EndedIf : String → UntarTask → Type 0
EndedIf layer t = str_eq t.layer layer ≡ true → t.stage ≡ ended

-- The map has the layer, and each of the layer's tasks is done.
pub record IsStale (layer : String) (e : UntarEngine) : Type 0 where
  pub place : ℕ
  pub mapped : find layer e.untar_map ≡ some place
  pub unawaited : pending layer e.unregistered ≡ none
  pub over : All (EndedIf layer) e.tasks

All-get {ℓ κ} :
    {A : Type ℓ} (P : A → Type κ) (xs : List A) (j : ℕ) (y : A)
    → All P xs
    → get_elem? xs j ≡ some y
    → P y
All-get P [] j y a h = none≢some h
All-get P (x ∷ xs) zero y a h = subst P (some_eq h) a.0
All-get P (x ∷ xs) (suc j) y a h = All-get P xs j y a.1 h

All-set {ℓ κ} :
    {A : Type ℓ} (P : A → Type κ) (xs : List A) (j : ℕ) (y : A)
    → All P xs
    → P y
    → All P (set xs j y)
All-set P [] j y a h = tt
All-set P (x ∷ xs) zero y a h = (h, a.1)
All-set P (x ∷ xs) (suc j) y a h = (a.0, All-set P xs j y a.1 h)

-- What a step keeps.
abbrev Kept : String → UntarEngine → UntarEngine → Type 0
Kept layer e e' = IsStale layer e' × (reported layer e'.results ≡ reported layer e.results)

module _ (layer : String) (e : UntarEngine) (s : IsStale layer e) where
  -- A task that is not done is of another layer.
  other_layer :
      (i : ℕ) (y : UntarTask)
      → get_elem? e.tasks i ≡ some y
      → y.stage ≢ ended
      → str_eq y.layer layer ≡ false
  other_layer i y at live = elim (Bool-cases (str_eq y.layer layer)) [
    | inr other ↦ other
    | inl own ↦ absurd (live (All-get (EndedIf layer) e.tasks i y s.over at own))
  ]

  -- A step of a task of another layer.
  put-Kept :
      (e' : UntarEngine) (i : ℕ) (y x : UntarTask) (told : List UntarResult)
      → str_eq y.layer layer ≡ false
      → x.layer ≡ y.layer
      → e'.tasks ≡ set e.tasks i x
      → find layer e'.untar_map ≡ find layer e.untar_map
      → e'.unregistered ≡ e.unregistered
      → e'.results ≡ e.results ++ told
      → reported layer told ≡ []
      → Kept layer e e'
  put-Kept e' i y x told other same tasks mapped pended results nothing = (
    record {
      place = s.place;
      mapped = mapped ∙ s.mapped;
      unawaited = ap (pending layer) pended ∙ s.unawaited;
      over = subst (All (EndedIf layer)) (sym tasks) (
          All-set (EndedIf layer) e.tasks i x s.over
            (λ own. cc (other, own, ap (λ k. str_eq k layer) same)));
    },
    ap (reported layer) results
        ∙ reported-append layer e.results told
        ∙ ap (λ l. reported layer e.results ++ l) nothing
        ∙ append-nil (reported layer e.results),
  )

  called-Kept : (e' : UntarEngine) (d : UntarData) → untar e d ≡ some e' → Kept layer e e'
  called-Kept e' d h =
      let (free, cases) = untar-cases e e' d h in
      elim cases [
        | inl (gone, is) ↦
            let other : str_eq d.layer layer ≡ false = elim (Bool-cases (str_eq d.layer layer)) [
              | inr o ↦ o
              | inl own ↦ none≢some (
                  sym gone ∙ ap (λ k. find k e.untar_map) ((eq_iff d.layer layer).0 own) ∙ s.mapped)
            ] in
            subst (Kept layer e) (sym is) (
              record {
                place = s.place;
                mapped = s.mapped;
                unawaited = if_false _ _ _ other;
                over =
                    All-append (EndedIf layer) e.tasks (task_of e d ∷ []) s.over
                      (λ own. cc (other, own), tt);
              },
              refl,
            )
        | inr (i, y, found, at, is) ↦ subst (Kept layer e) (sym is) (
          record {
            place = s.place;
            mapped = s.mapped;
            unawaited = s.unawaited;
            over =
                All-set (EndedIf layer) e.tasks i _ s.over
                  (All-get (EndedIf layer) e.tasks i y s.over at);
          },
          refl,
        )
      ]

  registered-Kept : (e' : UntarEngine) → register e ≡ some e' → Kept layer e e'
  registered-Kept e' h =
      let (k, j, busy, is) = register-cases e e' h in
      elim (Bool-cases (str_eq k layer)) [
        | inl own ↦ none≢some (sym s.unawaited ∙ ap (pending layer) busy ∙ if_true _ _ _ own)
        | inr other ↦ subst (Kept layer e) (sym is) (
          record {
            place = s.place;
            mapped = find-emplace_ne layer k j e.untar_map other ∙ s.mapped;
            unawaited = refl;
            over = s.over;
          },
          refl,
        )
      ]

  step-Kept : (e' : UntarEngine) (ev : Event) → step e ev ≡ some e' → Kept layer e e'
  unfolding step open_tar write_segment close_tar
  step-Kept e' (calling d) h = called-Kept e' d h
  step-Kept e' registering h = registered-Kept e' h
  step-Kept e' (opening i opened) h =
      let (y, at, k) = task_at e e' i _ h in
      let (stage, cases) = open-cases y.stage e e' i y opened k in
      let other = other_layer i y at (λ is. cc (is, stage)) in
      elim cases [
        | inl is ↦
            subst (Kept layer e) (sym is)
              (put-Kept _ i y _ [] other refl refl refl refl (sym (append-nil e.results)) refl)
        | inr is ↦
            subst (Kept layer e) (sym is)
              (put-Kept _ i y _ _ other refl refl refl refl refl (if_false _ _ _ other))
      ]
  step-Kept e' (writing i res) h =
      let (y, at, k) = task_at e e' i _ h in
      let (stage, d, rest, queued, cases) = write-cases y.stage y.queue e e' i y res k in
      let other = other_layer i y at (λ is. cc (is, stage)) in
      elim cases [
        | inl (nothing, is) ↦
            subst (Kept layer e) (sym is)
              (put-Kept _ i y _ _ other refl refl refl refl refl (if_false _ _ _ other))
        | inr (nonzero, inl (last, is)) ↦
            subst (Kept layer e) (sym is)
              (put-Kept _ i y _ [] other refl refl refl refl (sym (append-nil e.results)) refl)
        | inr (nonzero, inr (more, is)) ↦
            subst (Kept layer e) (sym is)
              (put-Kept _ i y _ [] other refl refl refl refl (sym (append-nil e.results)) refl)
      ]
  step-Kept e' (ending i status) h =
      let (y, at, k) = task_at e e' i _ h in
      let (stage, is) = close-cases y.stage e e' i y status k in
      let other = other_layer i y at (λ is'. cc (is', stage)) in
      subst (Kept layer e) (sym is) (
        put-Kept _ i y _ _ other refl refl (find-erase_ne y.layer layer e.untar_map other) refl refl
          (if_false _ _ _ other))

-- Where the map has a layer of which each task is done, the layer is never reported again, whatever is
-- handed in and whatever the threads do.
pub stale_silent :
    (layer : String) (evs : List Event) (e e' : UntarEngine)
    → IsStale layer e
    → steps evs e ≡ some e'
    → reported layer e'.results ≡ reported layer e.results
unfolding steps
stale_silent layer [] e e' s h = ap (λ u. reported layer u.results) (sym (some_eq h))
stale_silent layer (ev ∷ evs) e e' s h = elim (Option-cases (step e ev)) [
  | inl stuck ↦ none≢some (sym (ap (λ o. o >>= steps evs) stuck) ∙ h)
  | inr (u, stepped) ↦
      let (s', same) = step-Kept layer e s u ev stepped in
      stale_silent layer evs u e' s' (sym (ap (λ o. o >>= steps evs) stepped) ∙ h) ∙ same
]

Absent-EndedIf : (layer : String) (ts : List UntarTask) → Absent layer ts → All (EndedIf layer) ts
Absent-EndedIf layer [] a = tt
Absent-EndedIf layer (t ∷ ts) a = (λ own. cc (own, a.0), Absent-EndedIf layer ts a.1)

Only-EndedIf :
    (layer : String) (i : ℕ) (t : UntarTask) (ts : List UntarTask)
    → Only layer i t ts
    → t.stage ≡ ended
    → All (EndedIf layer) ts
Only-EndedIf layer i t [] o h = absurd o
Only-EndedIf layer zero t (y ∷ ys) o h =
    (λ own. ap (λ u. u.stage) o.0 ∙ h, Absent-EndedIf layer ys o.2)
Only-EndedIf layer (suc i) t (y ∷ ys) o h = (λ own. cc (own, o.0), Only-EndedIf layer i t ys o.1 h)

reported-ended :
    (stage : Stage) (queue : List UntarData) (written : List ℕ) (n : ℕ) (ds : List UntarData)
    (rs : List Bool) (success : Bool)
    → Stands stage queue written n ds rs
    → rs ≡ success ∷ []
    → stage ≡ ended
reported-ended waiting queue written n ds rs success s h = cc (s.2, h)
reported-ended unpacking queue written n ds rs success s h = cc (s.4, h)
reported-ended closing queue written n ds rs success s h = cc (s.2, h)
reported-ended ended queue written n ds rs success s h = refl

-- Where no call of untar is in progress, a layer whose segments were handed in once, in order, and
-- that failed before all of them were, is never reported again, whatever is handed in and whatever
-- the threads do from then on.
pub failed_never_again :
    (path : String) (directories : List String) (layer : String) (n : ℕ) (e e' : UntarEngine)
    (ds : List UntarData) (evs : List Event)
    → 0 < n
    → n < 2 ^ 31
    → Run path directories e ds
    → NumberedFrom 0 n (for_layer layer ds)
    → reported layer e.results ≡ false ∷ []
    → length (for_layer layer ds) < n
    → e.unregistered ≡ none
    → steps evs e ≡ some e'
    → reported layer e'.results ≡ false ∷ []
failed_never_again path directories layer n e e' ds evs pos small run numbered failed more free h =
    elim (Run-Follows path directories layer n e ds pos small run numbered) [
      | inl (f, nothing) ↦ cc (f.unreported, failed)
      | inr b ↦
          let over =
            reported-ended b.task.stage b.task.queue b.task.written n (for_layer layer ds) _ false
              b.stands failed in
          elim b.located [
            | inr all ↦ absurd (omega (arith, all, more))
            | inl (inr at) ↦ none≢some (sym (ap (pending layer) free) ∙ at.1)
            | inl (inl at) ↦
                stale_silent layer evs e e'
                  (record {
                    place = b.place;
                    mapped = at;
                    unawaited = ap (pending layer) free;
                    over = Only-EndedIf layer b.place b.task e.tasks b.only over;
                  })
                  h
                ∙ failed
          ]
    ]

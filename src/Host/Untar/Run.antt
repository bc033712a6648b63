-- ===== src/Host/Untar/Run.antt =====
-- Every interleaving of the calls of `untar` with the threads of the executor, in
-- src/host/client/untar_engine.cc.
use atc2025_poby.Base.{
  ℕ, ◌^◌, ◌<◌, ◌≡◌, refl, sym, subst, subst₂, append-nil, ◌⊎◌, inl, inr, Bool, true, some, List, [],
  ◌∷◌, ◌++◌, String, none≢some, length,
}
use atc2025_poby.Host.Decompress.{UntarData}
use atc2025_poby.Host.Untar.{
  UntarEngine, Stage, waiting, unpacking, closing, ended, Event, calling, registering, opening,
  writing, ending, new_untar_engine, step, with_task, task_of,
}
use atc2025_poby.Host.Untar.Layer.{
  NumberedFrom, NumberedFrom-prefix, for_layer, for_layer-append, Fronts, reported, unpacked,
  Only-unpacked,
}
use atc2025_poby.Host.Untar.Keyed.{Keyed, Keyed-put, Keyed-append, Keyed-register, find-erase_back}
use atc2025_poby.Host.Untar.Follows.{Follows, Stands, IsFresh}
use atc2025_poby.Host.Untar.Follows.Moves.{untar-cases, untar-Follows}
use atc2025_poby.Host.Untar.Follows.Registering.{registered-Follows, register-cases}
use atc2025_poby.Host.Untar.Follows.Writing.{write_segment-Follows}
use atc2025_poby.Host.Untar.Follows.Threads.{open_tar-Follows, close_tar-Follows}
use atc2025_poby.Host.Untar.Cases.{task_at, open-cases, close-cases, write-cases}

abbrev pub handed : Event → List UntarData
handed (calling d) = d ∷ []
handed registering = []
handed (opening i opened) = []
handed (writing i res) = []
handed (ending i status) = []

-- From a new engine, with the segments that were handed in, in order.
pub data Run (path : String) (directories : List String)
    : UntarEngine → List UntarData → Type 0 where
  begin : (e : UntarEngine) → e ≡ new_untar_engine path directories → Run path directories e []
  next :
      (e e' : UntarEngine) (ds : List UntarData) (ev : Event)
      → Run path directories e ds
      → step e ev ≡ some e'
      → Run path directories e' (ds ++ handed ev)

step-Keyed : (e e' : UntarEngine) (ev : Event) → step e ev ≡ some e' → Keyed e → Keyed e'
unfolding step
step-Keyed e e' (calling d) h keyed =
    let (free, cases) = untar-cases e e' d h in
    elim cases [
      | inl (gone, is) ↦
          subst Keyed (sym is) (Keyed-append e (with_task e d) (task_of e d) keyed refl refl refl)
      | inr (i, y, found, at, is) ↦ subst Keyed (sym is) (
          Keyed-put e _ i y (record y { queue = y.queue ++ d ∷ [] }) keyed at refl refl refl
            (λ k j h'. h'))
    ]
step-Keyed e e' registering h keyed =
    let (k, j, busy, is) = register-cases e e' h in Keyed-register e e' k j keyed busy is
step-Keyed e e' (opening i opened) h keyed =
    let (y, at, k) = task_at e e' i _ h in
    let (stage, cases) = open-cases y.stage e e' i y opened k in
    elim cases [
      | inl is ↦ subst Keyed (sym is) (
          Keyed-put e _ i y (record y { stage = unpacking }) keyed at refl refl refl (λ l j h'. h'))
      | inr is ↦
          subst Keyed (sym is)
            (Keyed-put e _ i y (record y { stage = ended }) keyed at refl refl refl (λ l j h'. h'))
    ]
step-Keyed e e' (writing i res) h keyed =
    let (y, at, k) = task_at e e' i _ h in
    let (stage, d, rest, queued, cases) = write-cases y.stage y.queue e e' i y res k in
    elim cases [
      | inl (nothing, is) ↦
          subst Keyed (sym is) (Keyed-put e _ i y _ keyed at refl refl refl (λ l j h'. h'))
      | inr (nonzero, inl (last, is)) ↦
          subst Keyed (sym is) (Keyed-put e _ i y _ keyed at refl refl refl (λ l j h'. h'))
      | inr (nonzero, inr (more, is)) ↦
          subst Keyed (sym is) (Keyed-put e _ i y _ keyed at refl refl refl (λ l j h'. h'))
    ]
step-Keyed e e' (ending i status) h keyed =
    let (y, at, k) = task_at e e' i _ h in
    let (stage, is) = close-cases y.stage e e' i y status k in
    subst Keyed (sym is) (
      Keyed-put e _ i y (record y { stage = ended }) keyed at refl refl refl
        (λ l j h'. find-erase_back l y.layer j e.untar_map h'))

module _ (path : String) (directories : List String) where
  Run-Keyed : (e : UntarEngine) (ds : List UntarData) → Run path directories e ds → Keyed e
  unfolding new_untar_engine
  Run-Keyed e ds (Run.begin e' is) =
      subst Keyed (sym is) (record { entry = λ k j h. none≢some h; coming = λ k j h. none≢some h })
  Run-Keyed e' ds (Run.next e u ds' ev r h) = step-Keyed e e' ev h (Run-Keyed e ds' r)

  module _ (layer : String) (n : ℕ) where
    step-Follows :
        (e e' : UntarEngine) (ds : List UntarData) (ev : Event)
        → 0 < n
        → n < 2 ^ 31
        → Keyed e
        → NumberedFrom 0 n (for_layer layer ds ++ for_layer layer (handed ev))
        → step e ev ≡ some e'
        → Follows layer n e (for_layer layer ds)
        → Follows layer n e' (for_layer layer ds ++ for_layer layer (handed ev))
    unfolding step
    step-Follows e e' ds (calling d) pos small keyed numbered h f =
        untar-Follows layer n e e' d (for_layer layer ds) keyed numbered h f
    step-Follows e e' ds registering pos small keyed numbered h f =
        let (k, j, busy, is) = register-cases e e' h in
        subst₂ (Follows layer n) (sym is) (sym (append-nil (for_layer layer ds)))
          (registered-Follows layer n e k j (for_layer layer ds) busy f)
    step-Follows e e' ds (opening i opened) pos small keyed numbered h f =
        subst (Follows layer n e') (sym (append-nil (for_layer layer ds)))
          (open_tar-Follows layer n e (for_layer layer ds) e' i opened pos h f)
    step-Follows e e' ds (writing i res) pos small keyed numbered h f =
        subst (Follows layer n e') (sym (append-nil (for_layer layer ds))) (
          write_segment-Follows layer n e (for_layer layer ds) e' i res small
            (subst (NumberedFrom 0 n) (append-nil (for_layer layer ds)) numbered) h f)
    step-Follows e e' ds (ending i status) pos small keyed numbered h f =
        subst (Follows layer n e') (sym (append-nil (for_layer layer ds)))
          (close_tar-Follows layer n e (for_layer layer ds) e' i status h f)

    pub Run-Follows :
        (e : UntarEngine) (ds : List UntarData)
        → 0 < n
        → n < 2 ^ 31
        → Run path directories e ds
        → NumberedFrom 0 n (for_layer layer ds)
        → Follows layer n e (for_layer layer ds)
    unfolding new_untar_engine
    Run-Follows e ds pos small (Run.begin e' is) numbered = inl (
      subst (IsFresh layer) (sym is)
          (record { absent = tt; unmapped = refl; unawaited = refl; unreported = refl }),
      refl,
    )
    Run-Follows e' ds pos small (Run.next e u ds' ev r h) numbered =
        let split = for_layer-append layer ds' (handed ev) in
        let numbered' = subst (NumberedFrom 0 n) split numbered in
        subst (Follows layer n e') (sym split) (
          step-Follows e e' ds' ev pos small (Run-Keyed e ds' r) numbered' h (
            Run-Follows e ds' pos small r (
              NumberedFrom-prefix 0 n (for_layer layer ds') (for_layer layer (handed ev))
                numbered')))

    by_stage :
        (e : UntarEngine) (ds : List UntarData) (stage : Stage) (queue : List UntarData)
        (written : List ℕ)
        → unpacked layer e.tasks ≡ written
        → Stands stage queue written n (for_layer layer ds) (reported layer e.results)
        → (reported layer e.results ≡ [])
          ⊎ ((success : Bool) × (reported layer e.results ≡ success ∷ [])
              × (success ≡ true
                  → (length (for_layer layer ds) ≡ n)
                    × Fronts (for_layer layer ds) (unpacked layer e.tasks)))
    by_stage e ds waiting queue written got s = inl s.2
    by_stage e ds unpacking queue written got s = inl s.4
    by_stage e ds closing queue written got s = inl s.2
    by_stage e ds ended queue written got (success, told, good) = inr (
      success,
      told,
      λ is. ((good is).0, subst (Fronts (for_layer layer ds)) (sym got) (good is).1),
    )

    -- In every interleaving of the calls of untar with the threads, a layer of which the segments
    -- are handed in once, in order, is reported once at most, and reported as unpacked only where
    -- all of them were handed in and its tar got, of each in order, the front that one fwrite took,
    -- one byte at least.
    pub reported_once :
        (e : UntarEngine) (ds : List UntarData)
        → 0 < n
        → n < 2 ^ 31
        → Run path directories e ds
        → NumberedFrom 0 n (for_layer layer ds)
        → (reported layer e.results ≡ [])
          ⊎ ((success : Bool) × (reported layer e.results ≡ success ∷ [])
              × (success ≡ true
                  → (length (for_layer layer ds) ≡ n)
                    × Fronts (for_layer layer ds) (unpacked layer e.tasks)))
    reported_once e ds pos small run numbered = elim (Run-Follows e ds pos small run numbered) [
      | inl (f, nothing) ↦ inl f.unreported
      | inr b ↦
          by_stage e ds b.task.stage b.task.queue b.task.written
            (Only-unpacked layer b.place b.task e.tasks b.only) b.stands
    ]

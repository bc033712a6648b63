-- ===== src/Host/Untar/Follows/Threads.antt =====
-- What the threads of the executor do in `untar_task` of src/host/client/untar_engine.cc, as one layer
-- sees it.
use atc2025_poby.Base.{
  ℕ, ◌<◌, ◌≡◌, refl, sym, ap, subst, subst₂, ◌∙◌, ◌⊎◌, inl, inr, Bool, true, false, some, List, [],
  ◌∷◌, ◌++◌, append-nil, String, str_eq, ◌==◌, if_true, if_false, Bool-cases, length, get_elem?,
  set,
}
use atc2025_poby.Host.Offload.{UntarResult, find, erase}
use atc2025_poby.Host.Offload.Answers.{find-erase_ne}
use atc2025_poby.Host.Decompress.{UntarData}
use atc2025_poby.Host.Untar.{
  UntarEngine, UntarTask, Stage, waiting, unpacking, closing, ended, open_tar, close_tar, open_at,
  close_at, put, report,
}
use atc2025_poby.Host.Untar.Layer.{
  reported, reported-append, Absent-get, Only, Only-hit, Only-set, Only-layer,
}
use atc2025_poby.Host.Untar.Follows.{Stands, Follows, IsBegun, Other-Follows, put-Other, Located}
use atc2025_poby.Host.Untar.Cases.{task_at, open-cases, close-cases}

module _ (layer : String) (n : ℕ) (e : UntarEngine) (ds : List UntarData) where
  -- A step of the layer's own task.
  pub own_step :
      (e' : UntarEngine) (i : ℕ) (t x : UntarTask)
      → Only layer i t e.tasks
      → Located layer i e' ⊎ (length ds ≡ n)
      → x.layer ≡ t.layer
      → e'.tasks ≡ set e.tasks i x
      → Stands x.stage x.queue x.written n ds (reported layer e'.results)
      → IsBegun layer n e' ds
  own_step e' i t x only located same tasks stands = record {
    place = i;
    task = x;
    only = subst (Only layer i x) (sym tasks) (
        Only-set layer i t e.tasks x only
          (ap (λ k. str_eq k layer) same ∙ Only-layer layer i t e.tasks only));
    located = located;
    stands = stands;
  }

  -- What is reported for the layer's task, after nothing was.
  reported_own :
      (y : UntarTask) (success : Bool)
      → str_eq y.layer layer ≡ true
      → reported layer e.results ≡ []
      → reported layer (report e y success).results ≡ success ∷ []
  reported_own y success own nothing =
      let r : UntarResult = record {
        layer = y.layer;
        image_name_tag = y.image_name_tag;
        success = success;
      } in
      reported-append layer e.results (r ∷ [])
      ∙ ap (λ l. l ++ reported layer (r ∷ [])) nothing
      ∙ if_true (str_eq y.layer layer) (success ∷ []) [] own

  pub failed :
      (i : ℕ) (t x : UntarTask)
      → Only layer i t e.tasks
      → Located layer i e ⊎ (length ds ≡ n)
      → x.layer ≡ t.layer
      → x.stage ≡ ended
      → reported layer e.results ≡ []
      → IsBegun layer n (report (put e i x) t false) ds
  failed i t x only located same stage nothing =
      own_step (report (put e i x) t false) i t x only
        (elim located [ inl at ↦ inl at | inr all ↦ inr all ]) same refl
        (subst (λ s. Stands s x.queue x.written n ds (reported layer (report e t false).results))
          (sym stage)
          (
            false,
            reported_own t false (Only-layer layer i t e.tasks only) nothing,
            λ no_success. cc,
          ))

  -- A step of any task: of the layer's, by `own`; of another layer's, by what it leaves alone.
  pub by_layer :
      (e' : UntarEngine) (i : ℕ) (y x : UntarTask) (told : List UntarResult)
      → get_elem? e.tasks i ≡ some y
      → x.layer ≡ y.layer
      → e'.tasks ≡ set e.tasks i x
      → (str_eq y.layer layer ≡ false → find layer e'.untar_map ≡ find layer e.untar_map)
      → e'.unregistered ≡ e.unregistered
      → e'.results ≡ e.results ++ told
      → (str_eq y.layer layer ≡ false → reported layer told ≡ [])
      → ((b : IsBegun layer n e ds) → b.place ≡ i → b.task ≡ y → IsBegun layer n e' ds)
      → Follows layer n e ds
      → Follows layer n e' ds
  by_layer e' i y x told at same tasks mapped pended results nothing own follows =
      elim (Bool-cases (str_eq y.layer layer)) [
        | inr other ↦
            Other-Follows layer n e e' ds
              (put-Other layer e e' i y x told at other (ap (λ k. str_eq k layer) same ∙ other)
                tasks (mapped other) pended results (nothing other))
              follows
        | inl its ↦ elim follows [
          | inl (f, none_yet) ↦ cc (Absent-get layer i y e.tasks f.absent at)
          | inr b ↦
              let hit = Only-hit layer b.place b.task e.tasks i y b.only at its in
              inr (own b (sym hit.0) (sym hit.1))
        ]
      ]

  pub kept : (b : IsBegun layer n e ds) (i : ℕ) → b.place ≡ i → Located layer i e ⊎ (length ds ≡ n)
  kept b i here = subst (λ j. Located layer j e ⊎ (length ds ≡ n)) here b.located

  pub owned :
      (b : IsBegun layer n e ds) (i : ℕ) (y : UntarTask)
      → b.place ≡ i
      → b.task ≡ y
      → Only layer i y e.tasks
  owned b i y here is = subst₂ (λ j t. Only layer j t e.tasks) here is b.only

  pub stood :
      (b : IsBegun layer n e ds) (y : UntarTask) (stage : Stage)
      → b.task ≡ y
      → y.stage ≡ stage
      → Stands stage y.queue y.written n ds (reported layer e.results)
  stood b y stage is at =
      subst (λ s. Stands s y.queue y.written n ds (reported layer e.results)) at
        (subst (λ t. Stands t.stage t.queue t.written n ds (reported layer e.results)) is b.stands)

  pub open_tar-Follows :
      (e' : UntarEngine) (i : ℕ) (opened : Bool)
      → 0 < n
      → open_tar e i opened ≡ some e'
      → Follows layer n e ds
      → Follows layer n e' ds
  unfolding open_tar
  open_tar-Follows e' i opened pos h follows =
      let (y, at, k) = task_at e e' i (λ t. open_at t.stage e i t opened) h in
      let (stage, cases) = open-cases y.stage e e' i y opened k in
      elim cases [
        | inl is ↦
            subst (λ u. Follows layer n u ds) (sym is)
              (by_layer (put e i (record y { stage = unpacking })) i y
                (record y { stage = unpacking }) [] at refl refl (λ o. refl) refl
                (sym (append-nil e.results)) (λ o. refl)
                (λ b here its.
                  let (whole, got, nothing) = stood b y waiting its stage in
                  own_step (put e i (record y { stage = unpacking })) i y
                    (record y { stage = unpacking }) (owned b i y here its) (kept b i here) refl
                    refl ([], sym whole, got, pos, nothing))
                follows)
        | inr is ↦
            subst (λ u. Follows layer n u ds) (sym is)
              (by_layer (report (put e i (record y { stage = ended })) y false) i y
                (record y { stage = ended }) _ at refl refl (λ o. refl) refl refl
                (λ o. if_false _ _ _ o)
                (λ b here its.
                  failed i y (record y { stage = ended }) (owned b i y here its) (kept b i here)
                    refl refl (stood b y waiting its stage).2)
                follows)
      ]

  pub close_tar-Follows :
      (e' : UntarEngine) (i status : ℕ)
      → close_tar e i status ≡ some e'
      → Follows layer n e ds
      → Follows layer n e' ds
  unfolding close_tar
  close_tar-Follows e' i status h follows =
      let (y, at, k) = task_at e e' i (λ t. close_at t.stage e i t status) h in
      let (stage, is) = close-cases y.stage e e' i y status k in
      let closed =
        report
          (record (put e i (record y { stage = ended })) { untar_map = erase y.layer e.untar_map })
          y (status == 0) in
      subst (λ u. Follows layer n u ds) (sym is)
        (by_layer closed i y (record y { stage = ended }) _ at refl refl
          (λ o. find-erase_ne y.layer layer e.untar_map o) refl refl (λ o. if_false _ _ _ o)
          (λ b here its.
            let (got, all, nothing) = stood b y closing its stage in
            let only = owned b i y here its in
            own_step closed i y (record y { stage = ended }) only (inr all) refl refl
              (
                status == 0,
                reported_own y (status == 0) (Only-layer layer i y e.tasks only) nothing,
                λ good. (all, got),
              ))
          follows)

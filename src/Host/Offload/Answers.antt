-- ===== src/Host/Offload/Answers.antt =====
-- The answers about one image, whatever else is unpacked meanwhile.
pub mod Once
use text.Mathlib.TextLemmas.{append_cancel_left}
use atc2025_poby.Base.{
  ℕ, zero, suc, ◌+◌, ◌^◌, ◌≤◌, ◌<◌, ◌≡◌, ◌≢◌, ◌⊎◌, refl, sym, ap, ap₂, subst, subst₂, ◌-◌, ◌∙◌, inl,
  inr, Bool, true, false, Option, none, some, List, [], ◌∷◌, ◌++◌, append_assoc, append-nil, String,
  str_eq, eq_iff, eq_refl, arith, ltb, leb, ◌==◌, if◌then◌else◌, if_true, if_false, ◌>>=◌,
  none≢some, some_eq, Bool-cases, Option-cases, length, u32, cat, lt→ltb, ltb→lt, ltb→le,
}
use atc2025_poby.Host.Command.{CreateContainerResponse}
use atc2025_poby.Host.Offload.{
  OffloadClient, TaskInfo, UntarResult, find, erase, update, response_for,
}
use atc2025_poby.Host.Offload.Intact.{completed_intact, complete_task_intact, complete_tasks_intact}

-- The answers about an image.
abbrev pub answers_for : String → List (ℕ × CreateContainerResponse) → List ℕ
answers_for image [] = []
answers_for image (r ∷ rs) =
    let rest = answers_for image rs in
    if str_eq r.1.path (cat "untar/" image) then r.0 ∷ rest else rest

-- The number of layers of an image that were unpacked.
abbrev pub count_for : String → List UntarResult → ℕ
count_for image [] = 0
count_for image (r ∷ rs) =
    let rest = count_for image rs in if str_eq r.image_name_tag image then suc rest else rest

pub true≢false {ℓ} : {P : Type ℓ} → true ≡ false → P
true≢false e = cc

other_path : (a b : String) → str_eq a b ≡ false → str_eq (cat "untar/" a) (cat "untar/" b) ≡ false
unfolding cat
other_path a b h = elim (Bool-cases (str_eq (cat "untar/" a) (cat "untar/" b))) [
  | inr e ↦ e
  | inl e ↦ true≢false (
      sym (
        (eq_iff a b).1
          (append_cancel_left "untar/" a b ((eq_iff (cat "untar/" a) (cat "untar/" b)).0 e)))
      ∙ h)
]

answers_for-append :
    (image : String) (rs ss : List (ℕ × CreateContainerResponse))
    → answers_for image (rs ++ ss) ≡ answers_for image rs ++ answers_for image ss
answers_for-append image [] ss = refl
answers_for-append image (r ∷ rs) ss = elim (Bool-cases (str_eq r.1.path (cat "untar/" image))) [
  | inl e ↦ rw e (ap (◌∷◌ r.0) (answers_for-append image rs ss))
  | inr e ↦ rw e (answers_for-append image rs ss)
]

pub find-erase : {V : Type 0} (k : String) (m : List (String × V)) → find k (erase k m) ≡ none
find-erase k [] = refl
find-erase k (entry ∷ m) = elim (Bool-cases (str_eq entry.0 k)) [
  | inl e ↦ rw e (find-erase k m)
  | inr e ↦ rw (e, e) (find-erase k m)
]

pub find-erase_ne :
    {V : Type 0} (k k' : String) (m : List (String × V))
    → str_eq k k' ≡ false
    → find k' (erase k m) ≡ find k' m
find-erase_ne k k' [] h = refl
find-erase_ne k k' (entry ∷ m) h = elim (Bool-cases (str_eq entry.0 k)) [
  | inl e ↦ rw e (
      find-erase_ne k k' m h
      ∙ sym (if_false (str_eq entry.0 k') _ _ (ap (λ x. str_eq x k') ((eq_iff entry.0 k).0 e) ∙ h)))
  | inr e ↦ rw e (ap (λ o. if str_eq entry.0 k' then some entry.1 else o) (find-erase_ne k k' m h))
]

pub find-update :
    {V : Type 0} (k : String) (x y : V) (m : List (String × V))
    → find k m ≡ some y
    → find k (update k x m) ≡ some x
find-update k x y [] h = none≢some h
find-update k x y (entry ∷ m) h = elim (Bool-cases (str_eq entry.0 k)) [
  | inl e ↦ rw (e, eq_refl k) refl
  | inr e ↦ rw (e, e) (find-update k x y m (sym (if_false (str_eq entry.0 k) _ _ e) ∙ h))
]

pub find-update_ne :
    {V : Type 0} (k k' : String) (x : V) (m : List (String × V))
    → str_eq k k' ≡ false
    → find k' (update k x m) ≡ find k' m
find-update_ne k k' x [] h = refl
find-update_ne k k' x (entry ∷ m) h = elim (Bool-cases (str_eq entry.0 k)) [
  | inl e ↦
      rw (e, h)
        (find-update_ne k k' x m h
          ∙ sym (
              if_false (str_eq entry.0 k') _ _
                (ap (λ z. str_eq z k') ((eq_iff entry.0 k).0 e) ∙ h)))
  | inr e ↦
      rw e (ap (λ o. if str_eq entry.0 k' then some entry.1 else o) (find-update_ne k k' x m h))
]

-- Where an image of `total` layers is after `done` of them, with the answers `before` given already.
abbrev pub Progress : String → ℕ → ℕ → List ℕ → ℕ → OffloadClient → Type 0
Progress image total conn before done c =
    ((done < total)
      × (find image c.tasks
          ≡ some (record { total_layers = total; untar_layers = done; conn = conn }))
      × (answers_for image c.responses ≡ before))
    ⊎ ((done ≡ total)
        × (find image c.tasks ≡ none)
        × (answers_for image c.responses ≡ before ++ conn ∷ []))

module _ (image : String) (total conn : ℕ) (before : List ℕ) (small : total < 2 ^ 32) where
  -- The task of another image.
  other-Progress :
      (done : ℕ) (c : OffloadClient) (name : String) (task : TaskInfo)
      → str_eq name image ≡ false
      → Progress image total conn before done c
      → Progress image total conn before done (completed_intact c name task)
  other-Progress done c name task ne p =
      elim (Bool-cases (u32 (task.untar_layers + 1) == task.total_layers)) [
        | inr e ↦
            rw
              (
                e,
                find-update_ne name image
                    (record task { untar_layers = u32 (task.untar_layers + 1) }) c.tasks ne,
              )
              p
        | inl e ↦
            rw
              (
                e,
                find-erase_ne name image c.tasks ne,
                answers_for-append image c.responses ((task.conn, response_for name) ∷ []),
                other_path name image ne,
                append-nil (answers_for image c.responses),
              )
              p
      ]

  own-Progress :
      (done : ℕ) (c : OffloadClient)
      → done < total
      → find image c.tasks
        ≡ some (record { total_layers = total; untar_layers = done; conn = conn })
      → answers_for image c.responses ≡ before
      → Progress image total conn before (suc done) (
          completed_intact c image
            (record { total_layers = total; untar_layers = done; conn = conn }))
  own-Progress done c lt found told =
      let count : u32 (done + 1) ≡ suc done = omega arith in
      elim (Bool-cases (u32 (done + 1) == total)) [
        | inl e ↦ rw e (
            inr (
              ground (arith, e),
              find-erase image c.tasks,
              answers_for-append image c.responses ((conn, response_for image) ∷ [])
                  ∙ ap₂ (◌++◌) told (if_true _ _ _ (eq_refl (cat "untar/" image))),
            ))
        | inr e ↦ rw e (
            inl (
              ground (arith, e),
              find-update image _ _ c.tasks found
                  ∙ ap {B = Option TaskInfo}
                      (λ n. some (record { total_layers = total; untar_layers = n; conn = conn }))
                      count,
              told,
            ))
      ]

  own_task :
      (done : ℕ) (c : OffloadClient) (task : TaskInfo)
      → find image c.tasks ≡ some task
      → Progress image total conn before done c
      → Progress image total conn before (suc done) (completed_intact c image task)
  own_task done c task found (inl (lt, at, told)) =
      subst (λ t. Progress image total conn before (suc done) (completed_intact c image t))
        (some_eq (sym at ∙ found)) (own-Progress done c lt at told)
  own_task done c task found (inr (all, gone, told)) = none≢some (sym gone ∙ found)

  complete_task-Progress :
      (done : ℕ) (c c' : OffloadClient) (res : UntarResult)
      → complete_task_intact c res ≡ some c'
      → Progress image total conn before done c
      → Progress image total conn before
          (if str_eq res.image_name_tag image then suc done else done)
          c'
  complete_task-Progress done c c' res e p = elim (Option-cases (find res.image_name_tag c.tasks)) [
    | inl gone ↦
        none≢some
          (ap (λ o. o >>= λ task. some (completed_intact c res.image_name_tag task)) (sym gone) ∙ e)
    | inr (task, found) ↦
        let same : completed_intact c res.image_name_tag task ≡ c' = some_eq (
          ap (λ o. o >>= λ task. some (completed_intact c res.image_name_tag task)) (sym found)
          ∙ e) in
        subst
          (Progress image total conn before
            (if str_eq res.image_name_tag image then suc done else done))
          same
          (elim (Bool-cases (str_eq res.image_name_tag image)) [
            | inr ne ↦ rw ne (other-Progress done c res.image_name_tag task ne p)
            | inl eq ↦
                let name = (eq_iff res.image_name_tag image).0 eq in
                rw eq (
                  subst
                    (λ n. Progress image total conn before (suc done) (completed_intact c n task))
                    (sym name)
                    (own_task done c task (ap (λ n. find n c.tasks) (sym name) ∙ found) p))
          ])
  ]

  pub complete_tasks-Progress :
      (results : List UntarResult) (done : ℕ) (c c' : OffloadClient)
      → complete_tasks_intact results c ≡ some c'
      → Progress image total conn before done c
      → Progress image total conn before (done + count_for image results) c'
  complete_tasks-Progress [] done c c' e p =
      subst₂ (Progress image total conn before) (omega arith) (some_eq e) p
  complete_tasks-Progress (res ∷ rest) done c c' e p =
      elim (Option-cases (complete_task_intact c res)) [
        | inl gone ↦ none≢some (ap (λ o. o >>= complete_tasks_intact rest) (sym gone) ∙ e)
        | inr (c1, first) ↦
            let step = complete_task-Progress done c c1 res first p in
            let e' = ap (λ o. o >>= complete_tasks_intact rest) (sym first) ∙ e in
            elim (Bool-cases (str_eq res.image_name_tag image)) [
              | inl eq ↦
                  let p' = complete_tasks-Progress rest (suc done) c1 c' e' (
                    subst (λ b. Progress image total conn before (if b then suc done else done) c1)
                      eq step) in
                  let moved : suc done + count_for image rest ≡ done + suc (count_for image rest) =
                    omega arith in
                  subst (λ n. Progress image total conn before n c')
                    (moved ∙ ap (λ n. done + n) (sym (if_true _ _ _ eq))) p'
              | inr ne ↦
                  let p' = complete_tasks-Progress rest done c1 c' e' (
                    subst (λ b. Progress image total conn before (if b then suc done else done) c1)
                      ne step) in
                  subst (λ n. Progress image total conn before n c')
                    (ap (λ n. done + n) (sym (if_false _ _ _ ne))) p'
            ]
      ]

-- The layers of an image that are not unpacked yet.
abbrev pub left_in : Option TaskInfo → ℕ
left_in none = 0
left_in (some task) = task.total_layers - task.untar_layers

abbrev pub left_of : String → OffloadClient → ℕ
left_of image c = left_in (find image c.tasks)

-- Each task waits for a layer, and its counts are `int`s.
abbrev pub IsSane : OffloadClient → Type 0
IsSane c =
    (image : String) (task : TaskInfo)
    → find image c.tasks ≡ some task
    → (task.untar_layers < task.total_layers) × (task.total_layers < 2 ^ 31)

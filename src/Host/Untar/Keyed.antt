-- ===== src/Host/Untar/Keyed.antt =====
-- The map of src/host/client/untar_engine.cc has the queue of a layer under the layer's name.
use atc2025_poby.Base.{
  ℕ, zero, suc, ◌≡◌, refl, sym, ap, ap₂, subst, ◌∙◌, ◌⊎◌, inl, inr, none, some, List, [], ◌∷◌, ◌++◌,
  String, str_eq, eq_iff, arith, none≢some, some_eq, Bool-cases, Option-cases, length, get_elem?,
  set,
}
use atc2025_poby.Host.Offload.{find, emplace, emplace_in, erase}
use atc2025_poby.Host.Offload.Answers.{find-erase, find-erase_ne}
use atc2025_poby.Host.Untar.{UntarEngine, UntarTask}

abbrev pub names : List UntarTask → List String
names [] = []
names (t ∷ ts) = t.layer ∷ names ts

pub names-set :
    (ts : List UntarTask) (j : ℕ) (y x : UntarTask)
    → get_elem? ts j ≡ some y
    → x.layer ≡ y.layer
    → names (set ts j x) ≡ names ts
names-set [] j y x at same = none≢some at
names-set (t ∷ ts) zero y x at same =
    ap (λ k. k ∷ names ts) (same ∙ ap (λ u. u.layer) (sym (some_eq at)))
names-set (t ∷ ts) (suc j) y x at same = ap (λ l. t.layer ∷ l) (names-set ts j y x at same)

names-append :
    (ts : List UntarTask) (x : UntarTask) → names (ts ++ x ∷ []) ≡ names ts ++ x.layer ∷ []
names-append [] x = refl
names-append (t ∷ ts) x = ap (λ l. t.layer ∷ l) (names-append ts x)

pub names-get :
    (ts : List UntarTask) (j : ℕ) (y : UntarTask)
    → get_elem? ts j ≡ some y
    → get_elem? (names ts) j ≡ some y.layer
names-get [] j y h = none≢some h
names-get (t ∷ ts) zero y h = ap (λ u. some u.layer) (some_eq h)
names-get (t ∷ ts) (suc j) y h = names-get ts j y h

get_elem?-append :
    (ks : List String) (k x : String) (j : ℕ)
    → get_elem? ks j ≡ some k
    → get_elem? (ks ++ x ∷ []) j ≡ some k
get_elem?-append [] k x j h = none≢some h
get_elem?-append (y ∷ ks) k x zero h = h
get_elem?-append (y ∷ ks) k x (suc j) h = get_elem?-append ks k x j h

get_elem?-append_last :
    (ts : List UntarTask) (x : UntarTask)
    → get_elem? (names (ts ++ x ∷ [])) (length ts) ≡ some x.layer
get_elem?-append_last [] x = refl
get_elem?-append_last (t ∷ ts) x = get_elem?-append_last ts x

-- Each entry, and the one that is to come, names the layer of its task.
pub record Keyed (e : UntarEngine) : Type 0 where
  pub entry :
      (k : String) (j : ℕ) → find k e.untar_map ≡ some j → get_elem? (names e.tasks) j ≡ some k
  pub coming :
      (k : String) (j : ℕ) → e.unregistered ≡ some (k, j) → get_elem? (names e.tasks) j ≡ some k

-- A task keeps its layer, and the map loses entries at most.
pub Keyed-put :
    (e e' : UntarEngine) (j : ℕ) (y x : UntarTask)
    → Keyed e
    → get_elem? e.tasks j ≡ some y
    → x.layer ≡ y.layer
    → e'.tasks ≡ set e.tasks j x
    → e'.unregistered ≡ e.unregistered
    → ((k : String) (i : ℕ) → find k e'.untar_map ≡ some i → find k e.untar_map ≡ some i)
    → Keyed e'
Keyed-put e e' j y x keyed at same tasks pending fewer =
    let same_names : names e'.tasks ≡ names e.tasks =
      ap names tasks ∙ names-set e.tasks j y x at same in
    record {
      entry = λ k i h. ap (λ l. get_elem? l i) same_names ∙ keyed.entry k i (fewer k i h);
      coming = λ k i h. ap (λ l. get_elem? l i) same_names ∙ keyed.coming k i (sym pending ∙ h);
    }

pub Keyed-append :
    (e e' : UntarEngine) (x : UntarTask)
    → Keyed e
    → e'.tasks ≡ e.tasks ++ x ∷ []
    → e'.untar_map ≡ e.untar_map
    → e'.unregistered ≡ some (x.layer, length e.tasks)
    → Keyed e'
Keyed-append e e' x keyed tasks entries pending = record {
  entry = λ k i h.
      ap (λ l. get_elem? l i) (ap names tasks ∙ names-append e.tasks x)
      ∙ get_elem?-append (names e.tasks) k x.layer i
          (keyed.entry k i (ap (find k) (sym entries) ∙ h));
  coming = λ k i h.
      let p = some_eq (sym pending ∙ h) in
      ap₂ (λ l j. get_elem? (names l) j) tasks (sym (ap (λ q. q.1) p))
      ∙ get_elem?-append_last e.tasks x
      ∙ ap (λ q. some q.0) p;
}

find-emplace_back :
    (k k' : String) (v i : ℕ) (m : List (String × ℕ))
    → find k (emplace k' v m) ≡ some i
    → (find k m ≡ some i) ⊎ ((k ≡ k') × (v ≡ i))
find-emplace_back k k' v i m h = elim (Option-cases (find k' m)) [
  | inr (w, there) ↦ inl (sym (ap (λ o. find k (emplace_in o k' v m)) there) ∙ h)
  | inl gone ↦ elim (Bool-cases (str_eq k' k)) [
    | inl e ↦ inr (sym ((eq_iff k' k).0 e), ground (arith, h, gone, e))
    | inr e ↦ inl (ground (arith, h, gone, e))
  ]
]

pub Keyed-register :
    (e e' : UntarEngine) (k : String) (j : ℕ)
    → Keyed e
    → e.unregistered ≡ some (k, j)
    → e' ≡ record e { untar_map = emplace k j e.untar_map; unregistered = none }
    → Keyed e'
Keyed-register e e' k j keyed pending is = subst Keyed (sym is) (record {
  entry = λ l i h. elim (find-emplace_back l k j i e.untar_map h) [
    | inl before ↦ keyed.entry l i before
    | inr (same, at) ↦
        ap (get_elem? (names e.tasks)) (sym at) ∙ keyed.coming k j pending ∙ ap some (sym same)
  ];
  coming = λ l i h. none≢some h;
})

pub find-erase_back :
    (k l : String) (i : ℕ) (m : List (String × ℕ)) → find k (erase l m) ≡ some i → find k m ≡ some i
find-erase_back k l i m h = elim (Bool-cases (str_eq l k)) [
  | inr ne ↦ sym (find-erase_ne l k m ne) ∙ h
  | inl e ↦ none≢some (sym (find-erase l m) ∙ ap (λ n. find n (erase l m)) ((eq_iff l k).0 e) ∙ h)
]

-- ===== src/Host/Untar/Layer.antt =====
-- The tasks, entries and results of one layer, in src/host/client/untar_engine.cc.
use atc2025_poby.Base.{
  take, ℕ, zero, suc, ◌+◌, ◌<◌, ◌≡◌, refl, sym, ap, subst, eq_iff, eq_refl, append_assoc,
  append-nil, ◌∙◌, Bool, true, false, none, some, List, [], ◌∷◌, ◌++◌, String, str_eq, arith,
  if◌then◌else◌, if_true, if_false, none≢some, some_eq, length, get_elem?, set,
}
use atc2025_poby.Host.Offload.{UntarResult, find, emplace}
use atc2025_poby.Host.Decompress.{UntarData}
use atc2025_poby.Host.Untar.{UntarTask}

-- The data that were handed in for a layer, in order, and their bytes.
abbrev pub for_layer : String → List UntarData → List UntarData
for_layer layer [] = []
for_layer layer (d ∷ ds) =
    let rest = for_layer layer ds in if str_eq d.layer layer then d ∷ rest else rest

-- The bytes are, of each segment in order, the front that one write took, one byte at least.
abbrev pub Fronts : List UntarData → List ℕ → Type 0
Fronts [] bytes = bytes ≡ []
Fronts (d ∷ ds) bytes =
    (res : ℕ) × (0 < res) × (rest : List ℕ) × (bytes ≡ take res d.segment ++ rest) × Fronts ds rest

-- What was reported for a layer.
abbrev pub reported : String → List UntarResult → List Bool
reported layer [] = []
reported layer (r ∷ rs) =
    let rest = reported layer rs in if str_eq r.layer layer then r.success ∷ rest else rest

-- What the `tar`s of a layer got.
abbrev pub unpacked : String → List UntarTask → List ℕ
unpacked layer [] = []
unpacked layer (t ∷ ts) =
    let rest = unpacked layer ts in if str_eq t.layer layer then t.written ++ rest else rest

-- Segments `k`, `k + 1` and so on, of `n`, which are not empty.
abbrev pub NumberedFrom : ℕ → ℕ → List UntarData → Type 0
NumberedFrom k n [] = Unit {0}
NumberedFrom k n (d ∷ ds) =
    (d.index ≡ k)
    × (d.total_segments ≡ n)
    × (k < n)
    × (0 < length d.segment)
    × NumberedFrom (suc k) n ds

pub NumberedFrom-prefix :
    (k n : ℕ) (xs ys : List UntarData) → NumberedFrom k n (xs ++ ys) → NumberedFrom k n xs
NumberedFrom-prefix k n [] ys h = tt
NumberedFrom-prefix k n (x ∷ xs) ys h =
    (h.0, h.1, h.2, h.3, NumberedFrom-prefix (suc k) n xs ys h.4)

pub NumberedFrom-suffix :
    (k n : ℕ) (xs ys : List UntarData)
    → NumberedFrom k n (xs ++ ys)
    → NumberedFrom (k + length xs) n ys
NumberedFrom-suffix k n [] ys h =
    let e : k ≡ k + 0 = omega arith in subst (λ j. NumberedFrom j n ys) e h
NumberedFrom-suffix k n (x ∷ xs) ys h =
    let e : suc k + length xs ≡ k + suc (length xs) = omega arith in
    subst (λ j. NumberedFrom j n ys) e (NumberedFrom-suffix (suc k) n xs ys h.4)

pub for_layer-append :
    (layer : String) (xs ys : List UntarData)
    → for_layer layer (xs ++ ys) ≡ for_layer layer xs ++ for_layer layer ys
for_layer-append layer [] ys = refl
for_layer-append layer (x ∷ xs) ys = ground (arith, for_layer-append layer xs ys)

pub reported-append :
    (layer : String) (xs ys : List UntarResult)
    → reported layer (xs ++ ys) ≡ reported layer xs ++ reported layer ys
reported-append layer [] ys = refl
reported-append layer (x ∷ xs) ys = ground (arith, reported-append layer xs ys)

pub Fronts-snoc :
    (ds : List UntarData) (bytes : List ℕ) (d : UntarData) (res : ℕ)
    → 0 < res
    → Fronts ds bytes
    → Fronts (ds ++ d ∷ []) (bytes ++ take res d.segment)
Fronts-snoc [] bytes d res pos none_yet = (
  res,
  pos,
  [],
  ap (λ l. l ++ take res d.segment) none_yet ∙ sym (append-nil (take res d.segment)),
  refl,
)
Fronts-snoc (x ∷ xs) bytes d res pos (first, some_byte, rest, split, fronts) = (
  first,
  some_byte,
  rest ++ take res d.segment,
  ap (λ l. l ++ take res d.segment) split
      ∙ append_assoc (take first x.segment) rest (take res d.segment),
  Fronts-snoc xs rest d res pos fronts,
)

-- No task is for the layer.
abbrev pub Absent : String → List UntarTask → Type 0
Absent layer [] = Unit {0}
Absent layer (t ∷ ts) = (str_eq t.layer layer ≡ false) × Absent layer ts

-- The one task for the layer is `t`, at place `i`.
abbrev pub Only : String → ℕ → UntarTask → List UntarTask → Type 0
Only layer i t [] = ⊥
Only layer zero t (x ∷ xs) = (x ≡ t) × (str_eq t.layer layer ≡ true) × Absent layer xs
Only layer (suc i) t (x ∷ xs) = (str_eq x.layer layer ≡ false) × Only layer i t xs

module _ (layer : String) where
  pub Absent-append :
      (ts : List UntarTask) (x : UntarTask)
      → Absent layer ts
      → str_eq x.layer layer ≡ false
      → Absent layer (ts ++ x ∷ [])
  Absent-append [] x a h = (h, tt)
  Absent-append (t ∷ ts) x a h = (a.0, Absent-append ts x a.1 h)

  pub Only-append_new :
      (ts : List UntarTask) (x : UntarTask)
      → Absent layer ts
      → str_eq x.layer layer ≡ true
      → Only layer (length ts) x (ts ++ x ∷ [])
  Only-append_new [] x a h = (refl, h, tt)
  Only-append_new (t ∷ ts) x a h = (a.0, Only-append_new ts x a.1 h)

  pub Only-append :
      (i : ℕ) (t : UntarTask) (ts : List UntarTask) (x : UntarTask)
      → Only layer i t ts
      → str_eq x.layer layer ≡ false
      → Only layer i t (ts ++ x ∷ [])
  Only-append i t [] x o h = absurd o
  Only-append zero t (y ∷ ys) x o h = (o.0, o.1, Absent-append ys x o.2 h)
  Only-append (suc i) t (y ∷ ys) x o h = (o.0, Only-append i t ys x o.1 h)

  pub Only-get :
      (i : ℕ) (t : UntarTask) (ts : List UntarTask) → Only layer i t ts → get_elem? ts i ≡ some t
  Only-get i t [] o = absurd o
  Only-get zero t (y ∷ ys) o = ap some o.0
  Only-get (suc i) t (y ∷ ys) o = Only-get i t ys o.1

  pub Only-layer :
      (i : ℕ) (t : UntarTask) (ts : List UntarTask)
      → Only layer i t ts
      → str_eq t.layer layer ≡ true
  Only-layer i t [] o = absurd o
  Only-layer zero t (y ∷ ys) o = o.1
  Only-layer (suc i) t (y ∷ ys) o = Only-layer i t ys o.1

  pub Absent-get :
      (j : ℕ) (x : UntarTask) (ts : List UntarTask)
      → Absent layer ts
      → get_elem? ts j ≡ some x
      → str_eq x.layer layer ≡ false
  Absent-get j x [] a h = none≢some h
  Absent-get zero x (y ∷ ys) a h = subst (λ t. str_eq t.layer layer ≡ false) (some_eq h) a.0
  Absent-get (suc j) x (y ∷ ys) a h = Absent-get j x ys a.1 h

  -- A task of the layer is that one.
  pub Only-hit :
      (i : ℕ) (t : UntarTask) (ts : List UntarTask) (j : ℕ) (x : UntarTask)
      → Only layer i t ts
      → get_elem? ts j ≡ some x
      → str_eq x.layer layer ≡ true
      → (j ≡ i) × (x ≡ t)
  Only-hit i t [] j x o h e = absurd o
  Only-hit zero t (y ∷ ys) zero x o h e = (refl, sym (some_eq h) ∙ o.0)
  Only-hit zero t (y ∷ ys) (suc j) x o h e = cc (Absent-get j x ys o.2 h)
  Only-hit (suc i) t (y ∷ ys) zero x o h e =
      cc (subst (λ u. str_eq u.layer layer ≡ false) (some_eq h) o.0)
  Only-hit (suc i) t (y ∷ ys) (suc j) x o h e =
      let r = Only-hit i t ys j x o.1 h e in (ap suc r.0, r.1)

  pub Absent-set :
      (ts : List UntarTask) (j : ℕ) (x : UntarTask)
      → Absent layer ts
      → str_eq x.layer layer ≡ false
      → Absent layer (set ts j x)
  Absent-set [] j x a h = tt
  Absent-set (y ∷ ys) zero x a h = (h, a.1)
  Absent-set (y ∷ ys) (suc j) x a h = (a.0, Absent-set ys j x a.1 h)

  pub Only-set :
      (i : ℕ) (t : UntarTask) (ts : List UntarTask) (x : UntarTask)
      → Only layer i t ts
      → str_eq x.layer layer ≡ true
      → Only layer i x (set ts i x)
  Only-set i t [] x o h = absurd o
  Only-set zero t (y ∷ ys) x o h = (refl, h, o.2)
  Only-set (suc i) t (y ∷ ys) x o h = (o.0, Only-set i t ys x o.1 h)

  -- A write to a task of another layer.
  pub Only-set_other :
      (i : ℕ) (t : UntarTask) (ts : List UntarTask) (j : ℕ) (y x : UntarTask)
      → Only layer i t ts
      → get_elem? ts j ≡ some y
      → str_eq y.layer layer ≡ false
      → str_eq x.layer layer ≡ false
      → Only layer i t (set ts j x)
  Only-set_other i t [] j y x o at e h = absurd o
  Only-set_other zero t (z ∷ zs) zero y x o at e h =
      cc (o.1, ap (λ u. str_eq u.layer layer) (sym o.0 ∙ some_eq at))
  Only-set_other zero t (z ∷ zs) (suc j) y x o at e h = (o.0, o.1, Absent-set zs j x o.2 h)
  Only-set_other (suc i) t (z ∷ zs) zero y x o at e h = (h, o.1)
  Only-set_other (suc i) t (z ∷ zs) (suc j) y x o at e h =
      (o.0, Only-set_other i t zs j y x o.1 at e h)

  Absent-unpacked : (ts : List UntarTask) → Absent layer ts → unpacked layer ts ≡ []
  Absent-unpacked [] a = refl
  Absent-unpacked (t ∷ ts) a = if_false _ _ _ a.0 ∙ Absent-unpacked ts a.1

  pub Only-unpacked :
      (i : ℕ) (t : UntarTask) (ts : List UntarTask)
      → Only layer i t ts
      → unpacked layer ts ≡ t.written
  Only-unpacked i t [] o = absurd o
  Only-unpacked zero t (y ∷ ys) o =
      if_true _ _ _ (ap (λ u. str_eq u.layer layer) o.0 ∙ o.1)
      ∙ ap (λ l. y.written ++ l) (Absent-unpacked ys o.2)
      ∙ append-nil y.written
      ∙ ap (λ u. u.written) o.0
  Only-unpacked (suc i) t (y ∷ ys) o = if_false _ _ _ o.0 ∙ Only-unpacked i t ys o.1

  pub find-emplace_ne :
      (k : String) (v : ℕ) (m : List (String × ℕ))
      → str_eq k layer ≡ false
      → find layer (emplace k v m) ≡ find layer m
  find-emplace_ne k v m h = ground (arith, h)

pub find-emplace :
    (layer k : String) (v : ℕ) (m : List (String × ℕ))
    → str_eq k layer ≡ true
    → find layer m ≡ none
    → find layer (emplace k v m) ≡ some v
find-emplace layer k v m h gone = rw ((eq_iff k layer).0 h) (rw gone (rw (eq_refl layer) refl))

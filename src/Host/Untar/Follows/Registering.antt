-- ===== src/Host/Untar/Follows/Registering.antt =====
-- The end of a call of `untar` in src/host/client/untar_engine.cc, as one layer sees it.
use atc2025_poby.Base.{
  ℕ, ◌≡◌, refl, sym, ap, ◌∙◌, inl, inr, true, Option, none, some, List, String, str_eq, eq_iff,
  if_true, if_false, ◌>>=◌, none≢some, some_eq, Bool-cases, Option-cases,
}
use atc2025_poby.Host.Offload.{find, emplace, emplace_in}
use atc2025_poby.Host.Decompress.{UntarData}
use atc2025_poby.Host.Untar.{UntarEngine, register}
use atc2025_poby.Host.Untar.Layer.{find-emplace, find-emplace_ne}
use atc2025_poby.Host.Untar.Follows.{Follows, IsBegun, Other-Follows, pending}

pub register-cases :
    (e e' : UntarEngine)
    → register e ≡ some e'
    → (k : String) × (j : ℕ) × (e.unregistered ≡ some (k, j))
      × (e' ≡ record e { untar_map = emplace k j e.untar_map; unregistered = none })
unfolding register
register-cases e e' h =
    let F : Option (String × ℕ) → Option UntarEngine = λ o. o >>= λ entry.
    some (record e { untar_map = emplace entry.0 entry.1 e.untar_map; unregistered = none }) in
    elim (Option-cases e.unregistered) [
      | inl free ↦ none≢some (sym (ap F free) ∙ h)
      | inr (entry, busy) ↦ (entry.0, entry.1, busy, sym (some_eq (sym (ap F busy) ∙ h)))
    ]

module _ (layer : String) (n : ℕ) (e : UntarEngine) (k : String) (j : ℕ) where
  abbrev registered : UntarEngine
  registered = record e { untar_map = emplace k j e.untar_map; unregistered = none }

  registered-IsBegun :
      (ds : List UntarData)
      → e.unregistered ≡ some (k, j)
      → str_eq k layer ≡ true
      → IsBegun layer n e ds
      → IsBegun layer n registered ds
  registered-IsBegun ds busy own b = record {
    place = b.place;
    task = b.task;
    only = b.only;
    located = elim b.located [
      | inl (inl at) ↦ inl (
          inl (
            ap (λ o. find layer (emplace_in o k j e.untar_map))
              (ap (λ l. find l e.untar_map) ((eq_iff k layer).0 own) ∙ at)
            ∙ at))
      | inl (inr at) ↦
          let same : j ≡ b.place =
            some_eq (sym (ap (pending layer) busy ∙ if_true _ _ _ own) ∙ at.1) in
          inl (inl (find-emplace layer k j e.untar_map own at.0 ∙ ap some same))
      | inr all ↦ inr all
    ];
    stands = b.stands;
  }

  pub registered-Follows :
      (ds : List UntarData)
      → e.unregistered ≡ some (k, j)
      → Follows layer n e ds
      → Follows layer n registered ds
  registered-Follows ds busy follows = elim (Bool-cases (str_eq k layer)) [
    | inr other ↦
        Other-Follows layer n e registered ds
          (record {
            absent = λ a. a;
            only = λ i t o. o;
            mapped = find-emplace_ne layer k j e.untar_map other;
            awaited = sym (ap (pending layer) busy ∙ if_false _ _ _ other);
            told = refl;
          })
          follows
    | inl own ↦ elim follows [
      | inl (f, none_yet) ↦
          none≢some (sym f.unawaited ∙ ap (pending layer) busy ∙ if_true _ _ _ own)
      | inr b ↦ inr (registered-IsBegun ds busy own b)
    ]
  ]

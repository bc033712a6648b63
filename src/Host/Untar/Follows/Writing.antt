-- ===== src/Host/Untar/Follows/Writing.antt =====
-- The loop of `untar_task` in src/host/client/untar_engine.cc, as one layer sees it.
use atc2025_poby.Base.{
  zero, ℕ, suc, ◌+◌, ◌^◌, ◌<◌, ◌≡◌, ◌≢◌, refl, sym, ap, subst, ◌∙◌, inl, inr, Bool, true, false,
  some, List, [], ◌∷◌, ◌++◌, append_assoc, append-nil, String, arith, if_false, List-cases, length,
  length-append, take,
}
use atc2025_poby.Host.Decompress.{UntarData}
use atc2025_poby.Host.Untar.{UntarEngine, unpacking, closing, ended, write_segment, write_at}
use atc2025_poby.Host.Untar.Layer.{NumberedFrom, NumberedFrom-suffix, Fronts, Fronts-snoc, reported}
use atc2025_poby.Host.Untar.Follows.{Stands, Follows, IsBegun}
use atc2025_poby.Host.Untar.Cases.{task_at, fed_task, is_last, write-cases}
use atc2025_poby.Host.Untar.Follows.Threads.{own_step, failed, by_layer, kept, owned, stood}

positive : (res : ℕ) → res ≢ 0 → 0 < res
positive zero h = absurd (h refl)
positive (suc res) h = omega arith

module _ (layer : String) (n : ℕ) (e : UntarEngine) (ds : List UntarData) where
  -- Where the write took something of the segment.
  fed-Stands :
      (d : UntarData) (rest : List UntarData) (written : List ℕ) (rs : List Bool) (res : ℕ)
      → 0 < res
      → n < 2 ^ 31
      → NumberedFrom 0 n ds
      → Stands unpacking (d ∷ rest) written n ds rs
      → (is_last d ≡ true → Stands closing rest (written ++ take res d.segment) n ds rs)
        × (is_last d ≡ false → Stands unpacking rest (written ++ take res d.segment) n ds rs)
  fed-Stands d rest written rs res pos small numbered (fed, whole, got, more, nothing) =
      let at = NumberedFrom-suffix 0 n fed (d ∷ rest) (subst (NumberedFrom 0 n) whole numbered) in
      let total : Fronts (fed ++ d ∷ []) (written ++ take res d.segment) =
        Fronts-snoc fed written d res pos got in
      let regrouped : ds ≡ (fed ++ d ∷ []) ++ rest = whole ∙ sym (append_assoc fed (d ∷ []) rest) in
      (
        λ last.
            let reached : length fed + 1 ≡ n = ground (arith, last, at.0, at.1, small, more) in
            elim (List-cases rest) [
              | inr (x, r, more_data) ↦
                  let next = subst (NumberedFrom (suc (0 + length fed)) n) more_data at.4 in
                  absurd (omega (arith, next.2, reached))
              | inl no_more ↦
                  let ended_at : ds ≡ fed ++ d ∷ [] =
                    regrouped
                    ∙ ap (λ l. (fed ++ d ∷ []) ++ l) no_more
                    ∙ append-nil (fed ++ d ∷ []) in
                  (
                    subst (λ l. Fronts l (written ++ take res d.segment)) (sym ended_at) total,
                    ap length ended_at
                        ∙ length-append fed (d ∷ [])
                        ∙ (let e1 : length fed + 1 ≡ n = reached in e1),
                    nothing,
                  )
            ],
        λ not_last.
            let before : length fed + 1 ≢ n = λ reached. cc (
              not_last,
              (let last : is_last d ≡ true = ground (arith, reached, at.0, at.1, small, more) in
                  last),
            ) in
            (
              fed ++ d ∷ [],
              regrouped,
              total,
              omega (arith, before, more, length-append fed (d ∷ [])),
              nothing,
            ),
      )

  pub write_segment-Follows :
      (e' : UntarEngine) (i res : ℕ)
      → n < 2 ^ 31
      → NumberedFrom 0 n ds
      → write_segment e i res ≡ some e'
      → Follows layer n e ds
      → Follows layer n e' ds
  unfolding write_segment
  write_segment-Follows e' i res small numbered h follows =
      let (y, at, k) = task_at e e' i (λ t. write_at t.stage t.queue e i t res) h in
      let (stage, d, rest, queued, cases) = write-cases y.stage y.queue e e' i y res k in
      let unpacked_so_far : (b : IsBegun layer n e ds)
          → b.task ≡ y
          → Stands unpacking (d ∷ rest) y.written n ds (reported layer e.results) =
        λ b its.
          subst (λ q. Stands unpacking q y.written n ds (reported layer e.results)) queued
            (stood layer n e ds b y unpacking its stage) in
      elim cases [
        | inl (nothing_written, is) ↦
            subst (λ u. Follows layer n u ds) (sym is)
              (by_layer layer n e ds _ i y (record (fed_task y d rest res) { stage = ended }) _ at
                refl refl (λ o. refl) refl refl (λ o. if_false _ _ _ o)
                (λ b here its.
                  failed layer n e ds i y (record (fed_task y d rest res) { stage = ended })
                    (owned layer n e ds b i y here its) (kept layer n e ds b i here) refl refl
                    (unpacked_so_far b its).4)
                follows)
        | inr (nonzero, taken) ↦
            let some_byte = positive res nonzero in
            elim taken [
              | inl (last, is) ↦
                  subst (λ u. Follows layer n u ds) (sym is)
                    (by_layer layer n e ds _ i y
                      (record (fed_task y d rest res) { stage = closing }) [] at refl refl
                      (λ o. refl) refl (sym (append-nil e.results)) (λ o. refl)
                      (λ b here its.
                        own_step layer n e ds _ i y
                          (record (fed_task y d rest res) { stage = closing })
                          (owned layer n e ds b i y here its) (kept layer n e ds b i here) refl refl
                          ((fed-Stands d rest y.written _ res some_byte small numbered
                              (unpacked_so_far b its)).0
                            last))
                      follows)
              | inr (more, is) ↦
                  subst (λ u. Follows layer n u ds) (sym is)
                    (by_layer layer n e ds _ i y (fed_task y d rest res) [] at refl refl (λ o. refl)
                      refl (sym (append-nil e.results)) (λ o. refl)
                      (λ b here its.
                        own_step layer n e ds _ i y (fed_task y d rest res)
                          (owned layer n e ds b i y here its) (kept layer n e ds b i here) refl refl
                          (subst
                            (λ s.
                              Stands s rest (fed_task y d rest res).written n ds
                                (reported layer e.results))
                            (sym stage)
                            ((fed-Stands d rest y.written _ res some_byte small numbered
                                (unpacked_so_far b its)).1
                              more)))
                      follows)
            ]
      ]

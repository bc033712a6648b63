-- ===== src/Content/Order/Whole.antt =====
-- When the segments of a layer that came and those that are still asked for make it up, in order.
use atc2025_poby.Base.{
  ℕ, ◌^◌, ◌<◌, ◌≡◌, refl, sym, ap, ap₂, subst₃, ◌∙◌, inl, inr, Bool, true, false, List, [], ◌∷◌,
  ◌++◌, append_assoc, append-nil, String, eq_iff, arith, length, length-append, Bool-cases,
  if◌then◌else◌,
}
use atc2025_poby.Rdma.Connection.{ids_from}
use atc2025_poby.BlobPool.{Blob}
use atc2025_poby.Content.Messages.{GetLayerRequest, GetLayerResponse, ContentElement}
use atc2025_poby.Content.Client.{requests_after}
use atc2025_poby.Content.Order.{
  Key, names, asked, got, asked-append, got-append, length-ids_from, at_position,
  asked-requests_after_ne, asked-requests_after_first, requests_after_later,
}

-- The state of one layer: it was never fetched; or its first segment is asked for; or what came and
-- what is still asked for make up all `n` segments in order.
unfoldable pub InOrder : Bool → ℕ → List ℕ → List ℕ → Type 0
InOrder false n ds q = (ds ≡ []) × (q ≡ [])
InOrder true n [] q = q ≡ 0 ∷ []
InOrder true n (x ∷ xs) q = (x ∷ xs) ++ q ≡ ids_from 0 n

append-eq-nil : (xs ys : List ℕ) → xs ++ ys ≡ [] → (xs ≡ []) × (ys ≡ [])
append-eq-nil [] ys h = (refl, h)
append-eq-nil (x ∷ xs) ys h = cc

-- One more segment came: the head of the requests is answered.
took_one :
    (k : Key) (resp : GetLayerResponse) (fetched : Bool) (ds fl : List ℕ) (u : List GetLayerRequest)
    → names k resp.layer resp.image_name_tag ≡ true
    → 0 < resp.total_segments
    → resp.total_segments < 2 ^ 31
    → InOrder fetched resp.total_segments ds (resp.index ∷ (fl ++ asked k u))
    → InOrder fetched resp.total_segments
        (ds ++ resp.index ∷ [])
        (fl ++ asked k (requests_after resp u))
unfolding InOrder
took_one k resp false ds fl u h pos small e = cc (e.1)
took_one k resp true [] fl u h pos small e =
    let first : resp.index ≡ 0 = ground arith in
    let (none_fl, none_u) = append-eq-nil fl (asked k u) (ground arith) in
    ap₂ (λ i l. i ∷ (l ++ asked k (requests_after resp u))) first none_fl
    ∙ asked-requests_after_first k resp u h first pos small
    ∙ ap (◌++◌ (ids_from 0 resp.total_segments)) none_u
    ∙ append-nil _
took_one k resp true (x ∷ xs) fl u h pos small e =
    let place = at_position 0 resp.total_segments resp.index (x ∷ xs) (fl ++ asked k u) e in
    let later = requests_after_later resp u (omega arith) in
    rw later (append_assoc (x ∷ xs) (resp.index ∷ []) (fl ++ asked k u) ∙ e)

-- The element that a response makes, but for its bytes.
abbrev pub element : GetLayerResponse → Blob → ContentElement
element resp segment = record {
  segment = segment;
  segment_idx = resp.index;
  total_segments = resp.total_segments;
  layer = resp.layer;
  image_name_tag = resp.image_name_tag;
  is_compressed = resp.is_compressed;
}

-- Every layer stays in order when the oldest request is answered.
pub answered-InOrder :
    (segments : String → ℕ) (fetched : Bool) (k : Key) (r : GetLayerRequest)
    (resp : GetLayerResponse) (b : Blob) (es : List ContentElement) (fl u : List GetLayerRequest)
    → resp.layer ≡ r.layer
    → resp.image_name_tag ≡ r.image_name_tag
    → resp.index ≡ r.index
    → resp.total_segments ≡ segments r.layer
    → 0 < resp.total_segments
    → resp.total_segments < 2 ^ 31
    → InOrder fetched (segments k.layer) (got k es) (asked k ((r ∷ fl) ++ u))
    → InOrder fetched
        (segments k.layer)
        (got k (es ++ element resp b ∷ []))
        (asked k (fl ++ requests_after resp u))
unfolding asked got
answered-InOrder segments fetched k r resp b es fl u el ei ex en pos small h =
    elim (Bool-cases (names k r.layer r.image_name_tag)) [
      | inl same ↦
          let sk : segments k.layer ≡ resp.total_segments =
            ground (arith, eq_iff r.layer k.layer) in
          let name : names k resp.layer resp.image_name_tag ≡ true = ground arith in
          let g : got k (es ++ element resp b ∷ []) ≡ got k es ++ resp.index ∷ [] =
            got-append k es (element resp b ∷ []) ∙ ap (◌++◌ (got k es)) (ground arith) in
          let a : asked k ((r ∷ fl) ++ u) ≡ resp.index ∷ (asked k fl ++ asked k u) =
            ground (arith, asked-append k fl u) in
          subst₃ (InOrder fetched) (sym sk) (sym g)
            (sym (asked-append k fl (requests_after resp u)))
            (took_one k resp fetched (got k es) (asked k fl) u name pos small
              (subst₃ (InOrder fetched) sk refl a h))
      | inr other ↦
          let name : names k resp.layer resp.image_name_tag ≡ false = ground arith in
          let g : got k (es ++ element resp b ∷ []) ≡ got k es =
            got-append k es (element resp b ∷ [])
            ∙ ap (◌++◌ (got k es)) {y = []} (ground arith)
            ∙ append-nil (got k es) in
          let a : asked k ((r ∷ fl) ++ u) ≡ asked k (fl ++ requests_after resp u) = ground (
            arith,
            asked-append k fl u,
            asked-append k fl (requests_after resp u),
            asked-requests_after_ne k resp u name,
          ) in
          subst₃ (InOrder fetched) refl (sym g) a h
    ]

-- A request that stands first asks for a segment that the layer has.
pub InOrder-lt :
    (fetched : Bool) (n y : ℕ) (ds q : List ℕ) → 0 < n → InOrder fetched n ds (y ∷ q) → y < n
unfolding InOrder
InOrder-lt false n y ds q pos h = cc (h.1)
InOrder-lt true n y [] q pos h = ground arith
InOrder-lt true n y (x ∷ xs) q pos h = omega (
  arith,
  at_position 0 n y (x ∷ xs) q h,
  ap length h,
  length-append (x ∷ xs) (y ∷ q),
  length-ids_from 0 n,
)

-- With nothing left to ask for, a layer that was fetched is complete.
pub InOrder-complete : (n : ℕ) (ds : List ℕ) → InOrder true n ds [] → ds ≡ ids_from 0 n
unfolding InOrder
InOrder-complete n [] h = cc
InOrder-complete n (x ∷ xs) h = sym (append-nil (x ∷ xs)) ∙ h

-- A new layer begins with its first request at the end of the queue.
pub fetched-InOrder :
    (n : ℕ) (ds q : List ℕ) → InOrder false n ds q → InOrder true n ds (q ++ 0 ∷ [])
unfolding InOrder
fetched-InOrder n [] q h = ap (λ l. l ++ 0 ∷ []) h.1
fetched-InOrder n (x ∷ xs) q h = cc (h.0)

-- What came is a prefix of what was fetched; of a layer never fetched nothing came.
pub InOrder-prefix :
    (fetched : Bool) (n : ℕ) (ds q : List ℕ)
    → InOrder fetched n ds q
    → (rest : List ℕ) × (ds ++ rest ≡ (if fetched then ids_from 0 n else []))
unfolding InOrder
InOrder-prefix false n ds q h = ([], append-nil ds ∙ h.0)
InOrder-prefix true n [] q h = (ids_from 0 n, refl)
InOrder-prefix true n (x ∷ xs) q h = (q, h)

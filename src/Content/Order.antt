-- ===== src/Content/Order.antt =====
-- The segments of one layer of one image, in the order in which a queue or a log holds them.
pub mod Whole
use atc2025_poby.Base.{
  ℕ, zero, suc, ◌+◌, ◌^◌, ◌<◌, ◌≡◌, ◌≢◌, refl, sym, ap, ap₂, subst₃, ◌∙◌, inl, inr, Bool, true,
  false, ◌&&◌, List, [], ◌∷◌, ◌++◌, append_assoc, append-nil, String, str_eq, eq_iff, arith, All,
  length, length-append, Bool-cases, if◌then◌else◌,
}
use atc2025_poby.Rdma.Connection.{ids_from}
use atc2025_poby.BlobPool.{Blob}
use atc2025_poby.Content.Messages.{GetLayerRequest, GetLayerResponse, ContentElement}
use atc2025_poby.Content.Client.{push_requests, requests_after, wants_more, pred}

-- A layer of an image.
pub record Key : Type 0 where
  pub layer : String
  pub image : String

abbrev pub names : Key → String → String → Bool
names k layer image = str_eq layer k.layer && str_eq image k.image

-- The indices of the requests for `k`.
unfoldable pub asked : Key → List GetLayerRequest → List ℕ
asked k [] = []
asked k (r ∷ rs) = if names k r.layer r.image_name_tag then r.index ∷ asked k rs else asked k rs

-- The indices of the elements of `k`.
unfoldable pub got : Key → List ContentElement → List ℕ
got k [] = []
got k (e ∷ es) = if names k e.layer e.image_name_tag then e.segment_idx ∷ got k es else got k es

pub asked-append :
    (k : Key) (rs qs : List GetLayerRequest) → asked k (rs ++ qs) ≡ asked k rs ++ asked k qs
unfolding asked
asked-append k [] qs = refl
asked-append k (r ∷ rs) qs = ground (arith, asked-append k rs qs)

pub got-append : (k : Key) (es fs : List ContentElement) → got k (es ++ fs) ≡ got k es ++ got k fs
unfolding got
got-append k [] fs = refl
got-append k (e ∷ es) fs = ground (arith, got-append k es fs)

ids_from-snoc : (i n : ℕ) → ids_from i (suc n) ≡ ids_from i n ++ (i + n) ∷ []
unfolding ids_from
ids_from-snoc i zero = ap (λ j. j ∷ []) (omega arith)
ids_from-snoc i (suc n) =
    ap (◌∷◌ i) (
      ids_from-snoc (i + 1) n
      ∙ ap (λ j. ids_from (i + 1) n ++ j ∷ []) {y = i + suc n} (omega arith))

-- Follow-up requests for another layer leave a layer's queue alone.
asked-push_ne :
    (k : Key) (resp : GetLayerResponse) (i : ℕ) (q : List GetLayerRequest)
    → names k resp.layer resp.image_name_tag ≡ false
    → asked k (push_requests resp i q) ≡ asked k q
unfolding push_requests asked
asked-push_ne k resp zero q h = refl
asked-push_ne k resp (suc i) q h = asked-push_ne k resp i _ h ∙ ground arith

-- The follow-up requests stand in front, in ascending order.
asked-push_self :
    (k : Key) (resp : GetLayerResponse) (i : ℕ) (q : List GetLayerRequest)
    → names k resp.layer resp.image_name_tag ≡ true
    → asked k (push_requests resp i q) ≡ ids_from 1 i ++ asked k q
unfolding push_requests asked
asked-push_self k resp zero q h = unfold ids_from in refl
asked-push_self k resp (suc i) q h =
    asked-push_self k resp i _ h
    ∙ ap (◌++◌ (ids_from 1 i)) {y = (1 + i) ∷ asked k q} (ground arith)
    ∙ sym (append_assoc (ids_from 1 i) ((1 + i) ∷ []) (asked k q))
    ∙ ap (λ l. l ++ asked k q) (sym (ids_from-snoc 1 i))

pub length-ids_from : (i n : ℕ) → length (ids_from i n) ≡ n
unfolding ids_from
length-ids_from i zero = refl
length-ids_from i (suc n) = ap suc (length-ids_from (i + 1) n)

-- Where the indices run on from `i`, the one behind `xs` is `i + length xs`.
pub at_position : (i n y : ℕ) (xs ys : List ℕ) → xs ++ y ∷ ys ≡ ids_from i n → y ≡ i + length xs
unfolding ids_from
at_position i zero y [] ys h = cc
at_position i zero y (x ∷ xs) ys h = cc
at_position i (suc n) y [] ys h = ground arith
at_position i (suc n) y (x ∷ xs) ys h =
    let rest : xs ++ y ∷ ys ≡ ids_from (i + 1) n = cc in
    omega (arith, at_position (i + 1) n y xs ys rest)

-- What is asked for once a response has been dealt with.
pub asked-requests_after_ne :
    (k : Key) (resp : GetLayerResponse) (q : List GetLayerRequest)
    → names k resp.layer resp.image_name_tag ≡ false
    → asked k (requests_after resp q) ≡ asked k q
unfolding requests_after
asked-requests_after_ne k resp q h =
    ground (arith, asked-push_ne k resp (pred resp.total_segments) q h)

first_of_many :
    (k : Key) (resp : GetLayerResponse) (q : List GetLayerRequest) (n : ℕ)
    → names k resp.layer resp.image_name_tag ≡ true
    → resp.index ≡ 0
    → resp.total_segments ≡ n
    → 0 < n
    → n < 2 ^ 31
    → 0 ∷ asked k (requests_after resp q) ≡ ids_from 0 n ++ asked k q
unfolding requests_after ids_from
first_of_many k resp q zero h first e some_seg small = absurd (omega arith)
first_of_many k resp q (suc zero) h first e some_seg small = ground arith
first_of_many k resp q (suc (suc m)) h first e some_seg small =
    let all : requests_after resp q ≡ push_requests resp (suc m) q = ground arith in
    ap (λ l. 0 ∷ asked k l) all ∙ ap (◌∷◌ 0) (asked-push_self k resp (suc m) q h)

pub asked-requests_after_first :
    (k : Key) (resp : GetLayerResponse) (q : List GetLayerRequest)
    → names k resp.layer resp.image_name_tag ≡ true
    → resp.index ≡ 0
    → 0 < resp.total_segments
    → resp.total_segments < 2 ^ 31
    → 0 ∷ asked k (requests_after resp q) ≡ ids_from 0 resp.total_segments ++ asked k q
asked-requests_after_first k resp q h first some_seg small =
    first_of_many k resp q resp.total_segments h first refl some_seg small

pub requests_after_later :
    (resp : GetLayerResponse) (q : List GetLayerRequest)
    → resp.index ≢ 0
    → requests_after resp q ≡ q
unfolding requests_after
requests_after_later resp q h = ground arith

push_requests-All {ℓ} :
    (P : GetLayerRequest → Type ℓ) (resp : GetLayerResponse) (i : ℕ) (u : List GetLayerRequest)
    → ((index : ℕ)
        → index < resp.total_segments
        → P (record {
          layer = resp.layer;
          image_name_tag = resp.image_name_tag;
          index = index;
          total_segments = resp.total_segments;
        }))
    → i < resp.total_segments
    → All P u
    → All P (push_requests resp i u)
unfolding push_requests
push_requests-All P resp zero u f lt h = h
push_requests-All P resp (suc i) u f lt h =
    push_requests-All P resp i _ f (omega (arith, lt)) (f (suc i) lt, h)

pred_lt : (n : ℕ) → 0 < n → pred n < n
pred_lt zero h = absurd (omega (arith, h))
pred_lt (suc n) h = omega arith

-- What holds of every request for the response's layer, and of the queue, holds afterwards.
pub requests_after-All {ℓ} :
    (P : GetLayerRequest → Type ℓ) (resp : GetLayerResponse) (u : List GetLayerRequest)
    → ((index : ℕ)
        → index < resp.total_segments
        → P (record {
          layer = resp.layer;
          image_name_tag = resp.image_name_tag;
          index = index;
          total_segments = resp.total_segments;
        }))
    → All P u
    → All P (requests_after resp u)
unfolding requests_after
requests_after-All P resp u f h = elim (Bool-cases (wants_more resp)) [
  | inl more ↦ rw more (
      push_requests-All P resp (pred resp.total_segments) u f
        (pred_lt resp.total_segments (ground (arith, more))) h)
  | inr done ↦ rw done h
]

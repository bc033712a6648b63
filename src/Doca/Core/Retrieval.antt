-- ===== src/Doca/Core/Retrieval.antt =====
-- The loop of `retrieve_job` in src/doca/core.cc, beside `retrieve_job_once`.
use atc2025_poby.Base.{ℕ, zero, suc, ◌≡◌, ◌≢◌, refl, some, List, ◌∷◌, ◌++◌, replicate}
use atc2025_poby.Doca.Core.{Errors, Poll, again, failed, event, retrieve_job_once, retrieve_job}

-- The loop of retrieve_job, however often the queue answers AGAIN, ends at the first other answer,
-- with what the separate body of retrieve_job_once gives for it.
pub retrieve_job-once :
    (codes : Errors) (n : ℕ) (p : Poll) (rest : List Poll)
    → p ≢ again
    → retrieve_job codes (replicate n again ++ p ∷ rest) ≡ some (retrieve_job_once codes p, rest)
unfolding retrieve_job retrieve_job_once
retrieve_job-once codes zero again rest other = absurd (other refl)
retrieve_job-once codes zero (failed error) rest other = refl
retrieve_job-once codes zero (event status job_id) rest other = refl
retrieve_job-once codes (suc n) p rest other = retrieve_job-once codes n p rest other

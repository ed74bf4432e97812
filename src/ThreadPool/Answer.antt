-- ===== src/ThreadPool/Answer.antt =====
-- What the main thread knows of the codes that it has taken.

use pcat.Common.{ℕ, ◌≡◌, ◌≢◌, refl, ap, List, [], ◌∷◌, ◌++◌, Option, some, none, arith, sym, ◌∙◌}
use pcat.ThreadPool.{
  Main, starting, queueing, notifying, clearing, stopping, waking_all, joining, draining, returned,
  keep_first, return_value,
}

-- The first code that is not zero, if there is one, behind the code that is kept.
unfoldable pub first_error : ℕ → List ℕ → ℕ
first_error result [] = result
first_error result (code ∷ codes) = first_error (keep_first result code) codes

pub first_error-last :
    (result code : ℕ) (codes : List ℕ)
    → first_error result (codes ++ (code ∷ [])) ≡ keep_first (first_error result codes) code
unfolding first_error
first_error-last result code [] = refl
first_error-last result code (first ∷ codes) = first_error-last (keep_first result first) code codes

module _ {Job : Type 0} where
  -- the jobs that the main thread has not queued
  abbrev pub left : Main Job → List Job
  left (starting jobs) = jobs
  left (queueing jobs) = jobs
  left (notifying jobs) = jobs
  left (clearing result jobs) = jobs
  left (stopping error jobs) = jobs
  left (waking_all error jobs) = jobs
  left (joining error jobs) = jobs
  left (draining error result jobs) = jobs
  left (returned value jobs) = jobs

  -- What the main thread took the loop's end for: every job is queued, or a code that is not zero.
  abbrev pub Ended : List ℕ → Option ℕ → List Job → Type 0
  Ended seen none jobs = (first_error 0 seen ≡ 0) × (jobs ≡ [])
  Ended seen (some error) jobs = (error ≡ first_error 0 seen) × (error ≢ 0)

  abbrev pub Answer : List ℕ → Main Job → Type 0
  Answer seen (clearing result jobs) = result ≡ first_error 0 seen
  Answer seen (stopping error jobs) = Ended seen error jobs
  Answer seen (waking_all error jobs) = Ended seen error jobs
  Answer seen (joining error jobs) = Ended seen error jobs
  Answer seen (draining none result jobs) = (result ≡ first_error 0 seen) × (jobs ≡ [])
  Answer seen (draining (some error) result jobs) = (error ≡ first_error 0 seen) × (error ≢ 0)
  Answer seen (returned value jobs) = (value ≡ first_error 0 seen) × (value ≡ 0 → jobs ≡ [])
  Answer seen _ = first_error 0 seen ≡ 0

  pub take-Answer :
      (seen : List ℕ) (error : Option ℕ) (result code : ℕ) (jobs : List Job)
      → Answer seen (draining error result jobs)
      → Answer (seen ++ (code ∷ [])) (draining error (keep_first result code) jobs)
  take-Answer seen none result code jobs (e, all) =
      (ap (λ r. keep_first r code) e ∙ sym (first_error-last 0 code seen), all)
  take-Answer seen (some error) result code jobs (e, fails) =
      (ground (arith, first_error-last 0 code seen), fails)

  pub drain-Answer :
      (seen : List ℕ) (error : Option ℕ) (jobs : List Job)
      → Ended seen error jobs
      → Answer seen (draining error 0 jobs)
  drain-Answer seen none jobs (e, all) = (sym e, all)
  drain-Answer seen (some error) jobs h = h

  pub return-Answer :
      (seen : List ℕ) (error : Option ℕ) (result : ℕ) (jobs : List Job)
      → Answer seen (draining error result jobs)
      → Answer seen (returned (return_value error result) jobs)
  unfolding return_value
  return-Answer seen none result jobs (e, all) = (e, λ z. all)
  return-Answer seen (some error) result jobs (e, fails) = (e, λ z. absurd (fails z))

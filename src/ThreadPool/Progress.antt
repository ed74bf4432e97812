-- ===== src/ThreadPool/Progress.antt =====
-- A pool can always go on to its return.
use pcat.Common.{
  ℕ, zero, suc, ◌<◌, ◌≡◌, ◌⊎◌, inl, inr, refl, List, [], ◌∷◌, map, some, Result, arith, ◌==◌,
  if◌then◌else◌,
}
use pcat.ThreadPool.{
  Main, starting, queueing, notifying, clearing, stopping, waking_all, joining, draining, returned,
  main_step, return_value, wake,
}
use pcat.ThreadPool.Relation.{Pool, notify_all, Reach, here, later, new_pool}
use pcat.ThreadPool.Steps.{Reach-keeps}
use pcat.ThreadPool.Safe.{Safe-IsKept, Reach-Safe}
use pcat.ThreadPool.Measure.{measure}
use pcat.ThreadPool.Bound.{unprompted}
use pcat.ThreadPool.Enabled.{IsTotal, RunsAt}
use pcat.ThreadPool.Nearer.{
  Good, Goes, prompted-Goes, main-Goes, starting-Goes, joining-Goes, notifying-Goes, taking-Goes,
  stopping-Goes,
}

module _ {Job Out : Type 0} (unset : Job) (invoke : Job → Out → Result (Out × ℕ)) where
  -- a state in which chunkedCopy has returned, and the way there
  abbrev pub Returns : Pool Job Out → Type 0
  Returns s =
      (t : Pool Job Out) × (value : ℕ) × (rest : List Job) × Reach unset invoke s t
      × (t.main ≡ returned value rest)

  pub Reach-trans :
      {s t u : Pool Job Out}
      → Reach unset invoke s t
      → Reach unset invoke t u
      → Reach unset invoke s u
  Reach-trans r here = r
  Reach-trans r (later r' step) = later (Reach-trans r r') step

  module _ (first : Pool Job Out)
      (total : (s : Pool Job Out) → Reach unset invoke first s → RunsAt unset invoke s) where
    -- by where the main thread stands
    place-Goes :
        (s : Pool Job Out) (place : Main Job)
        → Good unset invoke first total s
        → s.main ≡ place
        → ((value : ℕ) × (rest : List Job) × (s.main ≡ returned value rest)) ⊎ Goes unset invoke s
    unfolding main_step unprompted
    place-Goes s (starting jobs) safe at =
        inr (starting-Goes unset invoke first total s jobs safe at)
    place-Goes s (queueing []) safe at =
        inr (main-Goes unset invoke first total s (queueing []) safe at _ _ refl)
    place-Goes s (queueing (job ∷ jobs)) safe at =
        inr (main-Goes unset invoke first total s (queueing (job ∷ jobs)) safe at _ _ refl)
    place-Goes s (notifying jobs) safe at =
        inr (notifying-Goes unset invoke first total s jobs safe at)
    place-Goes s (clearing result jobs) safe at = inr (
        taking-Goes unset invoke first total s (clearing result jobs)
          (if result == 0 then queueing jobs else stopping (some result) jobs)
          (λ next. clearing next jobs) result safe at refl)
    place-Goes s (stopping error jobs) safe at =
        inr (stopping-Goes unset invoke first total s error jobs s.workers refl safe at)
    place-Goes s (waking_all error jobs) safe at = inr (
        prompted-Goes unset invoke first total s
          (record { shared = s.shared; workers = map wake s.workers; main = joining error jobs })
          (notify_all error jobs at refl) safe refl)
    place-Goes s (joining error jobs) safe at =
        inr (joining-Goes unset invoke first total s error jobs safe at)
    place-Goes s (draining error result jobs) safe at = inr (
        taking-Goes unset invoke first total s (draining error result jobs)
          (returned (return_value error result) jobs) (λ next. draining error next jobs) result safe
          at refl)
    place-Goes s (returned value jobs) safe at = inl (value, jobs, at)

    pub Reach-Returns :
        (fuel : ℕ) (s t : Pool Job Out)
        → Good unset invoke first total s
        → Reach unset invoke s t
        → measure t < fuel
        → Returns s
    Reach-Returns zero s t good r low = absurd (omega arith)
    Reach-Returns (suc fuel) s t good r low =
        let safe = Reach-keeps unset invoke (Safe-IsKept unset invoke) r (λ u r'. tt) good.0 in
        elim (place-Goes t t.main (safe, Reach-trans good.1 r) refl) [
          | inl (value, rest, e) ↦ (t, value, rest, r, e)
          | inr (u, step, falls, why) ↦ Reach-Returns fuel s u good (later r step) (omega arith)
        ]

  module _ (total : IsTotal unset invoke) where
    -- A pool with a worker at least, with a worker function that does not fault: in every state it
    -- reaches, it has returned, or there is a step that lowers its measure. This step is no wake-up of a
    -- thread that was not notified, unless the main thread joins the workers.
    pub new_pool-Goes :
        (count : ℕ) (jobs : List Job) (out : Out) (s : Pool Job Out)
        → 0 < count
        → Reach unset invoke (new_pool count jobs out) s
        → ((value : ℕ) × (rest : List Job) × (s.main ≡ returned value rest)) ⊎ Goes unset invoke s
    new_pool-Goes count jobs out s pos r =
        place-Goes (new_pool count jobs out) (λ t r' before behind job at. total job t.shared.out) s
          s.main (Reach-Safe unset invoke count jobs out s pos r, r) refl

    -- A pool with a worker at least, with a worker function that does not fault: from every state it
    -- reaches, it can go on to a state in which chunkedCopy has returned.
    pub new_pool-Returns :
        (count : ℕ) (jobs : List Job) (out : Out) (s : Pool Job Out)
        → 0 < count
        → Reach unset invoke (new_pool count jobs out) s
        → Returns s
    new_pool-Returns count jobs out s pos r =
        Reach-Returns (new_pool count jobs out)
          (λ t r' before behind job at. total job t.shared.out) (suc (measure s)) s s
          (Reach-Safe unset invoke count jobs out s pos r, r) here (omega arith)

-- ===== src/ThreadPool/Bound.antt =====
-- The number of the steps of a pool.
use pcat.Common.{
  ℕ, zero, suc, ◌+◌, ◌-◌, ◌*◌, ◌≤◌, ◌<◌, ◌≡◌, refl, ap, ap₂, sym, replicate, length-replicate, List,
  [], ◌∷◌, ◌++◌, map, Bool, true, false, Option, some, none, Result, ok, err, arith, ◌==◌, ◌&&◌,
  if◌then◌else◌, length-append, subst,
}
use pcat.Common
use pcat.ThreadPool.{
  Pc, testing_loop, sleeping, waking, notifying, clearing, waking_all, joining, wake,
}
use pcat.ThreadPool.Relation.{
  Pool, Step, worker, main, notify_one, notify_nobody, notify_all, spurious, Reach, here, later,
  new_pool,
}
use pcat.ThreadPool.Answer.{left}
use pcat.ThreadPool.Steps.{OnSome, At}
use pcat.ThreadPool.Safe.{Safe, Safe-Before, Reach-Safe}
use pcat.ThreadPool.Measure.{weight, rank, queued, measure_at, measure, Lower, worker_step-Lower}
use pcat.ThreadPool.Falls.{
  Falls, worker-Falls, main_step-Falls, waking-Rises, notified-Falls, woken-Falls, replicate-tally,
}

module _ {Job Out : Type 0} where
  module _ (unset : Job) (invoke : Job → Out → Result (Out × ℕ)) where
    -- the wake-ups among a step's and a run's steps that no notification has caused
    unfoldable pub unprompted : {s t : Pool Job Out} → Step unset invoke s t → ℕ
    unprompted (spurious before behind at left) = 1
    unprompted _ = 0

    unfoldable pub wake_ups : {s t : Pool Job Out} → Reach unset invoke s t → ℕ
    wake_ups here = 0
    wake_ups (later r step) = wake_ups r + unprompted step

    unfoldable pub steps : {s t : Pool Job Out} → Reach unset invoke s t → ℕ
    steps here = 0
    steps (later r step) = suc (steps r)

    pub Step-Falls :
        (s t : Pool Job Out) (step : Step unset invoke s t)
        → At Safe s
        → measure t < measure s + 7 * unprompted step
    unfolding measure unprompted
    Step-Falls s t (worker before behind pc pc' m' at moved left) safe =
        let from : measure s ≡ measure_at s.shared (before ++ (pc ∷ behind)) s.main =
          ap (λ ws. measure_at s.shared ws s.main) at in
        let to : measure t ≡ measure_at m' (before ++ (pc' ∷ behind)) s.main = ap measure left in
        let known = subst (λ ws. Safe s.shared ws s.main) at safe in
        let low : Lower s.shared pc m' pc' = subst (OnSome (Lower s.shared pc)) moved (
          worker_step-Lower unset invoke s.shared pc
            (Safe-Before s.shared before behind pc s.main known)) in
        omega (arith, from, to, worker-Falls s.shared m' before behind pc pc' s.main low)
    Step-Falls s t (main m' main' moved left) safe =
        let to : measure t ≡ measure_at m' s.workers main' = ap measure left in
        let fell : Falls s.shared s.workers s.main m' main' =
          subst (OnSome (Falls s.shared s.workers s.main)) moved
            (main_step-Falls s.shared s.workers s.main safe) in
        omega (arith, to, fell)
    Step-Falls s t (notify_one before behind jobs place at left) safe =
        let from : measure s
            ≡ measure_at s.shared (before ++ (sleeping ∷ behind)) (notifying jobs) =
          ap₂ (measure_at s.shared) at place in
        let to : measure t ≡ measure_at s.shared (before ++ (waking ∷ behind)) (clearing 0 jobs) =
          ap measure left in
        omega (
          arith,
          from,
          to,
          waking-Rises s.shared before behind (clearing 0 jobs),
          notified-Falls s.shared (before ++ (sleeping ∷ behind)) jobs,
        )
    Step-Falls s t (notify_nobody jobs place none_sleeps left) safe =
        let from : measure s ≡ measure_at s.shared s.workers (notifying jobs) =
          ap (measure_at s.shared s.workers) place in
        let to : measure t ≡ measure_at s.shared s.workers (clearing 0 jobs) = ap measure left in
        omega (arith, from, to, notified-Falls s.shared s.workers jobs)
    Step-Falls s t (notify_all error jobs place left) safe =
        let from : measure s ≡ measure_at s.shared s.workers (waking_all error jobs) =
          ap (measure_at s.shared s.workers) place in
        let to : measure t ≡ measure_at s.shared (map wake s.workers) (joining error jobs) =
          ap measure left in
        let known : Safe s.shared s.workers (waking_all error jobs) =
          subst (Safe s.shared s.workers) place safe in
        omega (arith, from, to, woken-Falls s.shared s.workers error jobs known.phase)
    Step-Falls s t (spurious before behind at left) safe =
        let from : measure s ≡ measure_at s.shared (before ++ (sleeping ∷ behind)) s.main =
          ap (λ ws. measure_at s.shared ws s.main) at in
        let to : measure t ≡ measure_at s.shared (before ++ (waking ∷ behind)) s.main =
          ap measure left in
        omega (arith, from, to, waking-Rises s.shared before behind s.main)

    steps-measure :
        (count : ℕ) (jobs : List Job) (out : Out) (s : Pool Job Out)
        → 0 < count
        → (r : Reach unset invoke (new_pool count jobs out) s)
        → steps r + measure s ≤ measure (new_pool count jobs out) + 7 * wake_ups r
    unfolding steps wake_ups
    steps-measure count jobs out s pos here = omega arith
    steps-measure count jobs out s pos (later {t} r step) = omega (
      arith,
      steps-measure count jobs out t pos r,
      Step-Falls t s step (Reach-Safe unset invoke count jobs out t pos r),
    )

    -- A run of a pool of `count` workers, one at least, takes at most 18 steps for each job, 13 for each
    -- worker, 6 more, and 7 for each wake-up of a thread that was not notified.
    pub steps-new_pool :
        (count : ℕ) (jobs : List Job) (out : Out) (s : Pool Job Out)
        → 0 < count
        → (r : Reach unset invoke (new_pool count jobs out) s)
        → steps r ≤ 18 * Common.length jobs + 13 * count + 6 + 7 * wake_ups r
    unfolding measure measure_at new_pool rank queued weight
    steps-new_pool count jobs out s pos r =
        let first : Pc Job = testing_loop in
        omega (
          arith,
          steps-measure count jobs out s pos r,
          length-replicate count first,
          replicate-tally Job count,
        )

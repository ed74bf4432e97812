-- ===== src/ThreadPool/Measure.antt =====
-- A measure of the pool that every step lowers, but for a wake-up without a notification.
use pcat.Common.{
  ℕ, suc, ◌+◌, ◌-◌, ◌*◌, ◌≤◌, ◌<◌, ◌≡◌, ◌⊎◌, inl, inr, refl, ap, sym, List, [], ◌∷◌, ◌++◌, map,
  Bool, true, false, Option, some, none, Result, ok, err, arith, ◌==◌, ◌&&◌, if◌then◌else◌,
  length-append, subst,
}
use pcat.Common
use pcat.ThreadedQueue.{push, empty}
use pcat.ThreadPool.{
  Pc, testing_loop, testing_loop_work, entering, testing_wait, testing_wait_work, blocking,
  sleeping, waking, leaving, popping, empty_handed, working, reporting, stopped, Main, starting,
  queueing, notifying, clearing, stopping, waking_all, joining, draining, returned, Shared,
  take_job, worker_step, take_result, keep_first, wake,
}
use pcat.ThreadPool.Relation.{Pool}
use pcat.ThreadPool.Answer.{left}
use pcat.ThreadPool.Tally.{tally}
use pcat.ThreadPool.Steps.{OnSome, if-OnSome, place-OnSome, some-OnSome}
use pcat.ThreadPool.Taking.{pop-Front, take_job-some, take_result-some, run_job-OnSome}
use pcat.ThreadPool.Lock.{Before}
use pcat.ThreadPool.Safe.{Safe}

module _ {Job : Type 0} where
  -- What a worker has before it. With `finished` set it does not go back to sleep.
  unfoldable pub weight : Bool → Pc Job → ℕ
  weight finished testing_loop = 7
  weight finished testing_loop_work = 6
  weight finished entering = if finished then 5 else 6
  weight finished testing_wait = if finished then 4 else 5
  weight finished testing_wait_work = if finished then 8 else 4
  weight finished blocking = if finished then 7 else 1
  weight finished sleeping = if finished then 6 else 0
  weight finished waking = if finished then 5 else 6
  weight finished leaving = 3
  weight finished popping = 2
  weight finished empty_handed = 1
  weight finished (working job) = 10
  weight finished (reporting code) = 9
  weight finished stopped = 0

  -- what the main thread has before it, with `count` workers
  unfoldable pub rank : ℕ → Main Job → ℕ
  rank count (starting jobs) = 6 * count + 6
  rank count (queueing jobs) = 6 * count + 5
  rank count (notifying jobs) = 6 * count + 13
  rank count (clearing result jobs) = 6 * count + 6
  rank count (stopping error jobs) = 6 * count + 4
  rank count (waking_all error jobs) = 3
  rank count (joining error jobs) = 2
  rank count (draining error result jobs) = 1
  rank count (returned value jobs) = 0

  finish-weight : (finished : Bool) (pc : Pc Job) → weight true pc ≤ 6 + weight finished pc
  unfolding weight
  finish-weight finished _ = ground arith

  pub finish-tally :
      (finished : Bool) (workers : List (Pc Job))
      → tally (weight true) workers ≤ 6 * Common.length workers + tally (weight finished) workers
  unfolding tally
  finish-tally finished [] = omega arith
  finish-tally finished (pc ∷ workers) =
      omega (arith, finish-tally finished workers, finish-weight finished pc)

  wake-weight : (pc : Pc Job) → weight true (wake pc) ≤ weight true pc
  unfolding wake weight
  wake-weight sleeping = omega arith
  wake-weight _ = omega arith

  pub wake-tally :
      (workers : List (Pc Job))
      → tally (weight true) (map wake workers) ≤ tally (weight true) workers
  unfolding tally
  wake-tally [] = omega arith
  wake-tally (pc ∷ workers) = omega (arith, wake-tally workers, wake-weight pc)

module _ {Job Out : Type 0} where
  unfoldable pub queued : Shared Job Out → ℕ
  queued m = 9 * m.work.queue_length + m.results.queue_length

  unfoldable pub measure_at : Shared Job Out → List (Pc Job) → Main Job → ℕ
  measure_at m workers place =
      18 * Common.length (left place)
      + rank (Common.length workers) place
      + queued m
      + tally (weight m.finished) workers

  unfoldable pub measure : Pool Job Out → ℕ
  measure s = measure_at s.shared s.workers s.main

  -- A step of one worker lowers what there is for it.
  abbrev pub Lower : Shared Job Out → Pc Job → Shared Job Out → Pc Job → Type 0
  Lower m pc m' pc' =
      (m'.finished ≡ m.finished)
      × (queued m' + weight m'.finished pc' < queued m + weight m.finished pc)

  module _ (unset : Job) (invoke : Job → Out → Result (Out × ℕ)) where
    pub worker_step-Lower :
        (m : Shared Job Out) (pc : Pc Job)
        → Before m pc
        → OnSome (Lower m pc) (worker_step unset invoke m pc)
    unfolding worker_step weight queued push empty
    worker_step-Lower m testing_loop b =
        place-OnSome (Lower m testing_loop) m.finished m testing_loop_work entering
          (λ e. (refl, omega arith)) (λ e. (refl, ground arith))
    worker_step-Lower m testing_loop_work b =
        place-OnSome (Lower m testing_loop_work) (empty m.work) m stopped entering
          (λ e. (refl, omega arith)) (λ e. let sure = b.own in (refl, ground arith))
    worker_step-Lower m entering b =
        if-OnSome (Lower m entering) m.locked none
          (some (record m { locked = true; waiting_threads = m.waiting_threads + 1 }, testing_wait))
          (λ e. tt) (λ e. (refl, ground arith))
    worker_step-Lower m testing_wait b =
        place-OnSome (Lower m testing_wait) m.finished m leaving testing_wait_work
          (λ e. (refl, ground arith)) (λ e. (refl, ground arith))
    worker_step-Lower m testing_wait_work b =
        place-OnSome (Lower m testing_wait_work) (empty m.work) m blocking leaving
          (λ e. (refl, ground arith)) (λ e. (refl, ground arith))
    worker_step-Lower m blocking b = (refl, ground arith)
    worker_step-Lower m sleeping b = tt
    worker_step-Lower m waking b =
        if-OnSome (Lower m waking) m.locked none (some (record m { locked = true }, testing_wait))
          (λ e. tt) (λ e. (refl, ground arith))
    worker_step-Lower m leaving b = (refl, omega arith)
    worker_step-Lower m popping b =
        if-OnSome (Lower m popping) (empty m.work)
          (some (record m { locked = false }, empty_handed)) (take_job unset invoke m)
          (λ e. (refl, omega arith))
          (λ e.
            let (job, rest, at, popped, some_job, counted) = pop-Front m.work b.counted e in
            some-OnSome (Lower m popping) (take_job unset invoke m)
              (record m {
                work = record { queue = rest; queue_length = m.work.queue_length - 1 };
                locked = false;
              })
              (working job)
              (take_job-some unset invoke m job
                (record { queue = rest; queue_length = m.work.queue_length - 1 }) popped)
              (refl, omega arith))
    worker_step-Lower m empty_handed b =
        place-OnSome (Lower m empty_handed) m.finished m stopped (working unset)
          (λ e. (refl, omega arith)) (λ e. let sure = b.own.0 in absurd (ground arith))
    worker_step-Lower m (working job) b =
        run_job-OnSome unset invoke (Lower m (working job)) m job λ out code e. (refl, omega arith)
    worker_step-Lower m (reporting code) b = (refl, omega arith)
    worker_step-Lower m stopped b = tt

  pub take-Lower :
      (m : Shared Job Out) (workers : List (Pc Job)) (place : Main Job) (go_on : ℕ → Main Job)
      (result : ℕ)
      → Safe m workers place
      → empty m.results ≡ false
      → ((next : ℕ)
          → 18 * Common.length (left (go_on next)) + rank (Common.length workers) (go_on next)
            ≡ 18 * Common.length (left place) + rank (Common.length workers) place)
      → OnSome
          (λ m' place'. measure_at m' workers place' < measure_at m workers place)
          (take_result m go_on result)
  unfolding measure_at queued
  take-Lower m workers place go_on result s full same =
      let (code, rest, at, popped, some_code, counted) = pop-Front m.results s.reported full in
      some-OnSome (λ m' place'. measure_at m' workers place' < measure_at m workers place)
        (take_result m go_on result)
        (record m {
          results = record { queue = rest; queue_length = m.results.queue_length - 1 };
          seen = m.seen ++ (code ∷ []);
        })
        (go_on (keep_first result code))
        (take_result-some m go_on result code
          (record { queue = rest; queue_length = m.results.queue_length - 1 }) popped)
        (omega (arith, same (keep_first result code)))

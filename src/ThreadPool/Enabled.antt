-- ===== src/ThreadPool/Enabled.antt =====
-- The workers that can step.
use pcat.Common.{
  ℕ, zero, suc, ◌+◌, ◌-◌, ◌*◌, ◌≤◌, ◌<◌, ◌≡◌, ◌≢◌, ◌⊎◌, inl, inr, refl, ap, sym, ◌∙◌, subst, List,
  [], ◌∷◌, ◌++◌, map, Bool, true, false, Bool-cases, Option, some, none, Result, ok, err, arith,
  ◌==◌, ◌&&◌, if◌then◌else◌, All,
}
use pcat.Common
use pcat.ThreadedQueue.{empty}
use pcat.ThreadPool.{
  Pc, testing_loop, testing_loop_work, entering, testing_wait, testing_wait_work, blocking,
  sleeping, waking, leaving, popping, empty_handed, working, reporting, stopped, Shared, take_job,
  worker_step, wake, all_stopped, is_stopped,
}
use pcat.ThreadPool.Relation.{Pool}
use pcat.ThreadPool.Tally.{tally, hold, waits}
use pcat.ThreadPool.Taking.{pop-Front, take_job-some, run_job-some}
use pcat.ThreadPool.Lock.{Before}

-- Either all members have the one property, or there is a first one that has the other.
pub All-or :
    {A : Type 0} (P Q : A → Type 0)
    → ((x : A) → P x ⊎ Q x)
    → (xs : List A)
    → All P xs
      ⊎ ((before : List A) × (x : A) × (behind : List A) × (xs ≡ before ++ (x ∷ behind)) × Q x)
All-or P Q test [] = inl tt
All-or P Q test (x ∷ xs) = elim (test x) [
  | inr q ↦ inr ([], x, xs, refl, q)
  | inl p ↦ elim (All-or P Q test xs) [
    | inl all ↦ inl (p, all)
    | inr (before, y, behind, e, q) ↦ inr (x ∷ before, y, behind, ap (◌∷◌ x) e, q)
  ]
]

module _ {Job : Type 0} where
  pub hold-cases : (pc : Pc Job) → (hold pc ≡ 0) ⊎ (hold pc ≡ 1)
  unfolding hold
  hold-cases testing_wait = inr refl
  hold-cases testing_wait_work = inr refl
  hold-cases blocking = inr refl
  hold-cases leaving = inr refl
  hold-cases popping = inr refl
  hold-cases _ = inl refl

  pub waits-cases : (pc : Pc Job) → (waits pc ≡ 1) ⊎ (waits pc ≡ 0)
  unfolding waits
  waits-cases testing_wait = inl refl
  waits-cases testing_wait_work = inl refl
  waits-cases blocking = inl refl
  waits-cases sleeping = inl refl
  waits-cases waking = inl refl
  waits-cases leaving = inl refl
  waits-cases _ = inr refl

  pub wake-cases : (pc : Pc Job) → (wake pc ≡ pc) ⊎ (pc ≡ sleeping)
  unfolding wake
  wake-cases sleeping = inr refl
  wake-cases _ = inl refl

  pub sleeping-cases : (pc : Pc Job) → (pc ≢ sleeping) ⊎ (pc ≡ sleeping)
  sleeping-cases sleeping = inr refl
  sleeping-cases _ = inl (λ e. ground arith)

  pub stopped-cases : (pc : Pc Job) → (is_stopped pc ≡ true) ⊎ (pc ≢ stopped)
  unfolding is_stopped
  stopped-cases stopped = inl refl
  stopped-cases _ = inr (λ e. ground arith)

  pub tally-each :
      (f : Pc Job → ℕ) (n : ℕ) (workers : List (Pc Job))
      → All (λ pc. f pc ≡ n) workers
      → tally f workers ≡ n * Common.length workers
  unfolding tally
  tally-each f n [] all = omega arith
  tally-each f n (pc ∷ workers) all = grind (arith, tally-each f n workers all.1, all.0)

  pub all_stopped-all :
      (workers : List (Pc Job))
      → All (λ pc. is_stopped pc ≡ true) workers
      → all_stopped workers ≡ true
  unfolding all_stopped
  all_stopped-all [] all = refl
  all_stopped-all (pc ∷ workers) all =
      let rest = all_stopped-all workers all.1 in let first = all.0 in ground arith

module _ {Job Out : Type 0} (unset : Job) (invoke : Job → Out → Result (Out × ℕ)) where
  -- no call of the worker function faults
  abbrev pub IsTotal : Type 0
  IsTotal = (job : Job) (out : Out) → (out' : Out) × (code : ℕ) × (invoke job out ≡ ok (out', code))

  abbrev CanMove : Shared Job Out → Pc Job → Type 0
  CanMove m pc =
      (m' : Shared Job Out) × (pc' : Pc Job) × (worker_step unset invoke m pc ≡ some (m', pc'))

  -- The job of a worker that has one does not fault.
  abbrev pub Runs : Out → Job → Type 0
  Runs out job = (out' : Out) × (code : ℕ) × (invoke job out ≡ ok (out', code))

  -- the same for all workers of a pool
  abbrev pub RunsAt : Pool Job Out → Type 0
  RunsAt s =
      (before behind : List (Pc Job)) (job : Job)
      → s.workers ≡ before ++ (working job ∷ behind)
      → Runs s.shared.out job

  -- A worker that does not sleep and has not ended can step, but where another has the mutex.
  pub worker_step-CanMove :
      (m : Shared Job Out) (pc : Pc Job)
      → Before m pc
      → pc ≢ sleeping
      → pc ≢ stopped
      → (m.locked ≡ false) ⊎ (hold pc ≡ 1)
      → ((job : Job) → pc ≡ working job → Runs m.out job)
      → CanMove m pc
  unfolding worker_step hold
  worker_step-CanMove m testing_loop b awake alive free run = (_, _, refl)
  worker_step-CanMove m testing_loop_work b awake alive free run = (_, _, refl)
  worker_step-CanMove m entering b awake alive (inl free) run = (
    record m { locked = true; waiting_threads = m.waiting_threads + 1 },
    testing_wait,
    ap
        (λ t.
          if t
          then none
          else some
              (record m { locked = true; waiting_threads = m.waiting_threads + 1 }, testing_wait))
        free,
  )
  worker_step-CanMove m entering b awake alive (inr holds) run = absurd (omega arith)
  worker_step-CanMove m testing_wait b awake alive free run = (_, _, refl)
  worker_step-CanMove m testing_wait_work b awake alive free run = (_, _, refl)
  worker_step-CanMove m blocking b awake alive free run = (_, _, refl)
  worker_step-CanMove m sleeping b awake alive free run = absurd (awake refl)
  worker_step-CanMove m waking b awake alive (inl free) run = (
    record m { locked = true },
    testing_wait,
    ap (λ t. if t then none else some (record m { locked = true }, testing_wait)) free,
  )
  worker_step-CanMove m waking b awake alive (inr holds) run = absurd (omega arith)
  worker_step-CanMove m leaving b awake alive free run = (_, _, refl)
  worker_step-CanMove m popping b awake alive free run = elim (Bool-cases (empty m.work)) [
    | inl e ↦ (
      record m { locked = false },
      empty_handed,
      ap
          (λ t.
            if t then some (record m { locked = false }, empty_handed) else take_job unset invoke m)
          e,
    )
    | inr e ↦
        let (job, rest, at, popped, some_job, counted) = pop-Front m.work b.counted e in
        (
          _,
          _,
          ap
                (λ t.
                  if t
                  then some (record m { locked = false }, empty_handed)
                  else take_job unset invoke m)
                e
              ∙ take_job-some unset invoke m job
                  (record { queue = rest; queue_length = m.work.queue_length - 1 }) popped,
        )
  ]
  worker_step-CanMove m empty_handed b awake alive free run = (_, _, refl)
  worker_step-CanMove m (working job) b awake alive free run =
      let (out, code, e) = run job refl in (_, _, run_job-some unset invoke m job out code e)
  worker_step-CanMove m (reporting code) b awake alive free run = (_, _, refl)
  worker_step-CanMove m stopped b awake alive free run = absurd (alive refl)

-- ===== src/ThreadPool/Schedule.antt =====
-- Runs of a pool whose interleaving is given.
use pcat.Common.{
  replicate, ℕ, zero, suc, ◌≡◌, refl, subst, ap, List, [], ◌∷◌, ◌++◌, map, Option, none, some,
  Result, All,
}
use pcat.ThreadPool.{
  Pc, testing_loop, testing_loop_work, entering, testing_wait, testing_wait_work, blocking,
  sleeping, waking, leaving, popping, empty_handed, working, reporting, stopped, Main, notifying,
  clearing, waking_all, joining, wake, main_step, worker_step,
}
use pcat.ThreadPool.Relation.{
  Pool, at_worker, Step, worker, main, notify_one, notify_nobody, notify_all, Reach, later,
}

-- The thread that steps, or what its notification does.
pub data Turn : Type 0 where
  worker_turn : ℕ → Turn
  main_turn : Turn
  wake_one : ℕ → Turn
  wake_nobody : Turn
  wake_all : Turn

-- a result with the equation that says where it is from
abbrev Found : {A : Type 0} → Option A → Type 0
Found {A} o = Option ((a : A) × (o ≡ some a))

abbrev find : {A : Type 0} (o : Option A) → Found o
find none = none
find (some a) = some (a, refl)

-- the member at a place, with those before and behind it
abbrev Cut : {A : Type 0} → List A → Type 0
Cut {A} xs = (before : List A) × (x : A) × (behind : List A) × (xs ≡ before ++ (x ∷ behind))

unfoldable pub cut : {A : Type 0} (i : ℕ) (xs : List A) → Option (Cut xs)
cut i [] = none
cut zero (x ∷ xs) = some ([], x, xs, refl)
cut (suc i) (x ∷ xs) = elim (cut i xs) [
  | none ↦ none
  | some (before, y, behind, e) ↦ some (x ∷ before, y, behind, ap (◌∷◌ x) e)
]

module _ {Job : Type 0} where
  abbrev notifies : (place : Main Job) → Option ((jobs : List Job) × (place ≡ notifying jobs))
  notifies (notifying jobs) = some (jobs, refl)
  notifies _ = none

  abbrev wakes_all :
      (place : Main Job)
      → Option ((error : Option ℕ) × (jobs : List Job) × (place ≡ waking_all error jobs))
  wakes_all (waking_all error jobs) = some (error, jobs, refl)
  wakes_all _ = none

  abbrev sleeps : (pc : Pc Job) → Option (pc ≡ sleeping)
  sleeps sleeping = some refl
  sleeps _ = none

  unfoldable pub awake : (pc : Pc Job) → Option (wake pc ≡ pc)
  unfolding wake
  awake sleeping = none
  awake testing_loop = some refl
  awake testing_loop_work = some refl
  awake entering = some refl
  awake testing_wait = some refl
  awake testing_wait_work = some refl
  awake blocking = some refl
  awake waking = some refl
  awake leaving = some refl
  awake popping = some refl
  awake empty_handed = some refl
  awake (working job) = some refl
  awake (reporting code) = some refl
  awake stopped = some refl

  unfoldable pub all_awake : (workers : List (Pc Job)) → Option (All (λ pc. wake pc ≡ pc) workers)
  all_awake [] = some tt
  all_awake (pc ∷ workers) = elim (awake pc) [
    | none ↦ none
    | some one ↦ elim (all_awake workers) [ none ↦ none | some rest ↦ some (one, rest) ]
  ]

module _ {Job Out : Type 0} (unset : Job) (invoke : Job → Out → Result (Out × ℕ)) where
  -- the state that a step leads to
  abbrev Next : Pool Job Out → Type 0
  Next s = Option ((t : Pool Job Out) × Step unset invoke s t)

  abbrev step_worker : (s : Pool Job Out) → Cut s.workers → Next s
  step_worker s (before, pc, behind, e) = elim (find (worker_step unset invoke s.shared pc)) [
    | none ↦ none
    | some ((m', pc'), moved) ↦
        some (at_worker m' before pc' behind s.main, worker before behind pc pc' m' e moved refl)
  ]

  unfoldable pub turn : Turn → (s : Pool Job Out) → Next s
  turn (worker_turn i) s = elim (cut i s.workers) [ none ↦ none | some at ↦ step_worker s at ]
  turn main_turn s = elim (find (main_step s.shared s.workers s.main)) [
    | none ↦ none
    | some ((m', place), moved) ↦
        some (record { shared = m'; workers = s.workers; main = place }, main m' place moved refl)
  ]
  turn (wake_one i) s = elim (notifies s.main) [
    | none ↦ none
    | some (jobs, place) ↦ elim (cut i s.workers) [
      | none ↦ none
      | some (before, pc, behind, e) ↦ elim (sleeps pc) [
        | none ↦ none
        | some asleep ↦ some (
          at_worker s.shared before waking behind (clearing 0 jobs),
          notify_one before behind jobs place
              (subst (λ p. s.workers ≡ before ++ (p ∷ behind)) asleep e) refl,
        )
      ]
    ]
  ]
  turn wake_nobody s = elim (notifies s.main) [
    | none ↦ none
    | some (jobs, place) ↦ elim (all_awake s.workers) [
      | none ↦ none
      | some all ↦ some (record s { main = clearing 0 jobs }, notify_nobody jobs place all refl)
    ]
  ]
  turn wake_all s = elim (wakes_all s.main) [
    | none ↦ none
    | some (error, jobs, place) ↦ some (
      record { shared = s.shared; workers = map wake s.workers; main = joining error jobs },
      notify_all error jobs place refl,
    )
  ]

  -- the state behind the turns; one that cannot be taken is passed over
  unfoldable pub walk : List Turn → Pool Job Out → Pool Job Out
  walk [] s = s
  walk (next ∷ turns) s = elim (turn next s) [ none ↦ walk turns s | some (t, step) ↦ walk turns t ]

  pub walk-Reach :
      (turns : List Turn) (s t : Pool Job Out)
      → Reach unset invoke s t
      → Reach unset invoke s (walk turns t)
  unfolding walk
  walk-Reach [] s t r = r
  walk-Reach (next ∷ turns) s t r = go (turn next t) (walk-Reach turns s)
    where
      go :
          (found : Next t)
          → ((u : Pool Job Out) → Reach unset invoke s u → Reach unset invoke s (walk turns u))
          → Reach unset invoke s
              (elim found [ none ↦ walk turns t | some (u, step) ↦ walk turns u ])
      go none rest = rest t r
      go (some (u, step)) rest = rest u (later r step)

-- One job and one worker, that goes to sleep, is woken for the job, and ends.
abbrev pub one_job : List Turn
one_job =
    replicate 5 (worker_turn 0)
    ++ (replicate 2 main_turn
        ++ (wake_one 0
            ∷ (replicate 8 (worker_turn 0)
                ++ (replicate 5 main_turn
                    ++ (wake_all ∷ (replicate 8 (worker_turn 0) ++ replicate 4 main_turn))))))

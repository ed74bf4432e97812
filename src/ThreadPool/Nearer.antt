-- ===== src/ThreadPool/Nearer.antt =====
-- The steps that bring a pool nearer to its return.
use pcat.Common.{
  ℕ, zero, suc, ◌+◌, ◌-◌, ◌*◌, ◌≤◌, ◌<◌, ◌≡◌, ◌≢◌, ◌⊎◌, inl, inr, refl, ap, sym, ◌∙◌, subst, List,
  [], ◌∷◌, ◌++◌, map, Bool, true, false, Bool-cases, Option, some, none, Result, ok, err, arith,
  ◌==◌, ◌&&◌, if◌then◌else◌, All,
}
use pcat.Common
use pcat.ThreadedQueue.{empty}
use pcat.ThreadPool.{
  Pc, sleeping, waking, stopped, Main, starting, queueing, notifying, clearing, stopping,
  waking_all, joining, draining, returned, Shared, take_result, main_step, return_value, wake,
  all_stopped, is_stopped,
}
use pcat.ThreadPool.Relation.{
  Reach, Pool, at_worker, Step, worker, main, notify_one, notify_nobody, spurious,
}
use pcat.ThreadPool.Tally.{tally, hold, waits, bit}
use pcat.ThreadPool.Steps.{At}
use pcat.ThreadPool.Taking.{pop-Front, take_result-some}
use pcat.ThreadPool.Lock.{Sure}
use pcat.ThreadPool.Safe.{Safe, Safe-Before}
use pcat.ThreadPool.Measure.{measure, measure_at}
use pcat.ThreadPool.Bound.{unprompted, Step-Falls}
use pcat.ThreadPool.Falls.{waking-Falls}
use pcat.ThreadPool.Enabled.{
  All-or, hold-cases, waits-cases, wake-cases, sleeping-cases, stopped-cases, tally-each,
  all_stopped-all, RunsAt, worker_step-CanMove,
}

module _ {Job Out : Type 0} (unset : Job) (invoke : Job → Out → Result (Out × ℕ)) where
  -- A step that lowers the measure, and where it takes a wake-up without a notification.
  abbrev pub Goes : Pool Job Out → Type 0
  Goes s =
      (t : Pool Job Out) × (step : Step unset invoke s t) × (measure t < measure s)
      × ((unprompted unset invoke step ≡ 0)
          ⊎ ((error : Option ℕ) × (jobs : List Job) × (s.main ≡ joining error jobs)))

  -- `first` is the state that the runs start from.
  module _ (first : Pool Job Out)
      (total : (s : Pool Job Out) → Reach unset invoke first s → RunsAt unset invoke s) where
    abbrev pub Good : Pool Job Out → Type 0
    Good s = At Safe s × Reach unset invoke first s

    pub prompted-Goes :
        (s t : Pool Job Out) (step : Step unset invoke s t)
        → Good s
        → unprompted unset invoke step ≡ 0
        → Goes s
    prompted-Goes s t step safe none_there = (
      t,
      step,
      omega (arith, Step-Falls unset invoke s t step safe.0, none_there),
      inl none_there,
    )

    worker-Goes :
        (s : Pool Job Out) (before behind : List (Pc Job)) (pc : Pc Job)
        → Good s
        → s.workers ≡ before ++ (pc ∷ behind)
        → pc ≢ sleeping
        → pc ≢ stopped
        → (s.shared.locked ≡ false) ⊎ (hold pc ≡ 1)
        → Goes s
    unfolding unprompted
    worker-Goes s before behind pc safe at awake alive free =
        let known = subst (λ ws. Safe s.shared ws s.main) at safe.0 in
        let (m', pc', moved) =
          worker_step-CanMove unset invoke s.shared pc
            (Safe-Before s.shared before behind pc s.main known) awake alive free
            (λ job e. total s safe.1 before behind job (at ∙ ap (λ p. before ++ (p ∷ behind)) e)) in
        prompted-Goes s (at_worker m' before pc' behind s.main)
          (worker before behind pc pc' m' at moved refl) safe refl

    pub main-Goes :
        (s : Pool Job Out) (place : Main Job)
        → Good s
        → s.main ≡ place
        → (m' : Shared Job Out) (place' : Main Job)
        → main_step s.shared s.workers place ≡ some (m', place')
        → Goes s
    unfolding unprompted
    main-Goes s place safe at m' place' moved =
        prompted-Goes s (record { shared = m'; workers = s.workers; main = place' })
          (main m' place' (ap (main_step s.shared s.workers) at ∙ moved) refl) safe refl

    -- where the mutex is held, by the holder
    holder-Goes : (s : Pool Job Out) → Good s → s.shared.locked ≡ true → Goes s
    unfolding hold
    holder-Goes s safe locked =
        elim (All-or (λ pc. hold pc ≡ 0) (λ pc. hold pc ≡ 1) hold-cases s.workers) [
          | inl all ↦
              let nobody = tally-each hold 0 s.workers all in
              let held : tally hold s.workers ≡ 1 = safe.0.lock ∙ ap bit locked in
              absurd (omega arith)
          | inr (before, pc, behind, at, holds) ↦
              worker-Goes s before behind pc safe at (λ e. absurd (omega (arith, ap hold e)))
                (λ e. absurd (omega (arith, ap hold e))) (inr holds)
        ]

    -- Before `finished` is set no worker has ended.
    unfinished-alive :
        (s : Pool Job Out) (before behind : List (Pc Job)) (pc : Pc Job)
        → Good s
        → s.workers ≡ before ++ (pc ∷ behind)
        → s.shared.finished ≡ false
        → pc ≢ stopped
    unfinished-alive s before behind pc safe at unfinished e =
        let known = subst (λ ws. Safe s.shared ws s.main) at safe.0 in
        let own : (s.shared.finished ≡ true) × (s.shared.work.queue_length ≡ 0) =
          subst (Sure s.shared.finished s.shared.work.queue_length) e
            (Safe-Before s.shared before behind pc s.main known).own in
        let ended = own.0 in ground arith

    sleeper-Goes :
        (s : Pool Job Out) (error : Option ℕ) (jobs : List Job) (before behind : List (Pc Job))
        → Good s
        → s.main ≡ joining error jobs
        → s.workers ≡ before ++ (sleeping ∷ behind)
        → Goes s
    unfolding measure
    sleeper-Goes s error jobs before behind safe at place =
        let finished : s.shared.finished ≡ true =
          (subst (Safe s.shared s.workers) at safe.0).phase in
        (
          at_worker s.shared before waking behind s.main,
          spurious before behind place refl,
          subst
              (λ ws.
                measure_at s.shared (before ++ (waking ∷ behind)) s.main
                < measure_at s.shared ws s.main)
              (sym place) (waking-Falls s.shared before behind s.main finished),
          inr (error, jobs, at),
        )

    pub stopping-Goes :
        (s : Pool Job Out) (error : Option ℕ) (jobs : List Job) (workers : List (Pc Job))
        → s.workers ≡ workers
        → Good s
        → s.main ≡ stopping error jobs
        → Goes s
    unfolding main_step
    stopping-Goes s error jobs [] none_there safe at =
        main-Goes s (stopping error jobs) safe at s.shared (returned (return_value error 0) jobs)
          (ap (λ ws. main_step s.shared ws (stopping error jobs)) none_there)
    stopping-Goes s error jobs (pc ∷ workers) some_there safe at =
        main-Goes s (stopping error jobs) safe at (record s.shared { finished = true })
          (waking_all error jobs)
          (ap (λ ws. main_step s.shared ws (stopping error jobs)) some_there)

    pub starting-Goes :
        (s : Pool Job Out) (jobs : List Job) → Good s → s.main ≡ starting jobs → Goes s
    unfolding waits main_step
    starting-Goes s jobs safe at =
        elim (Bool-cases (s.shared.waiting_threads == Common.length s.workers)) [
          | inl e ↦
              main-Goes s (starting jobs) safe at s.shared (queueing jobs)
                (ap (λ t. if t then some (s.shared, queueing jobs) else none) e)
          | inr e ↦ elim (Bool-cases s.shared.locked) [
            | inl locked ↦ holder-Goes s safe locked
            | inr free ↦
                elim (All-or (λ pc. waits pc ≡ 1) (λ pc. waits pc ≡ 0) waits-cases s.workers) [
                  | inl all ↦
                      let everybody = tally-each waits 1 s.workers all in
                      let counted = safe.0.waiting in absurd (ground arith)
                  | inr (before, pc, behind, place, out) ↦
                      worker-Goes s before behind pc safe place
                        (λ e. absurd (omega (arith, ap waits e)))
                        (unfinished-alive s before behind pc safe place
                          (subst (Safe s.shared s.workers) at safe.0).phase)
                        (inl free)
                ]
          ]
        ]

    pub joining-Goes :
        (s : Pool Job Out) (error : Option ℕ) (jobs : List Job)
        → Good s
        → s.main ≡ joining error jobs
        → Goes s
    unfolding main_step
    joining-Goes s error jobs safe at = elim (Bool-cases (all_stopped s.workers)) [
      | inl e ↦
          main-Goes s (joining error jobs) safe at s.shared (draining error 0 jobs)
            (ap (λ t. if t then some (s.shared, draining error 0 jobs) else none) e)
      | inr e ↦ elim (Bool-cases s.shared.locked) [
        | inl locked ↦ holder-Goes s safe locked
        | inr free ↦
            elim (All-or (λ pc. is_stopped pc ≡ true) (λ pc. pc ≢ stopped) stopped-cases
              s.workers) [
                | inl all ↦ let ended = all_stopped-all s.workers all in absurd (ground arith)
                | inr (before, pc, behind, place, alive) ↦ elim (sleeping-cases pc) [
                  | inl awake ↦ worker-Goes s before behind pc safe place awake alive (inl free)
                  | inr asleep ↦
                      sleeper-Goes s error jobs before behind safe at
                        (subst (λ p. s.workers ≡ before ++ (p ∷ behind)) asleep place)
                ]
              ]
      ]
    ]

    pub notifying-Goes :
        (s : Pool Job Out) (jobs : List Job) → Good s → s.main ≡ notifying jobs → Goes s
    unfolding unprompted
    notifying-Goes s jobs safe at =
        elim (All-or (λ pc. wake pc ≡ pc) (λ pc. pc ≡ sleeping) wake-cases s.workers) [
          | inl all ↦
              prompted-Goes s (record s { main = clearing 0 jobs }) (notify_nobody jobs at all refl)
                safe refl
          | inr (before, pc, behind, place, asleep) ↦
              prompted-Goes s (at_worker s.shared before waking behind (clearing 0 jobs))
                (notify_one before behind jobs at
                  (subst (λ p. s.workers ≡ before ++ (p ∷ behind)) asleep place) refl)
                safe refl
        ]

    pub taking-Goes :
        (s : Pool Job Out) (place after : Main Job) (go_on : ℕ → Main Job) (result : ℕ)
        → Good s
        → s.main ≡ place
        → main_step s.shared s.workers place ≡ (
            if empty s.shared.results
            then some (s.shared, after)
            else take_result s.shared go_on result)
        → Goes s
    taking-Goes s place after go_on result safe at step =
        elim (Bool-cases (empty s.shared.results)) [
          | inl e ↦ main-Goes s place safe at s.shared after (
              step
              ∙ ap (λ t. if t then some (s.shared, after) else take_result s.shared go_on result) e)
          | inr e ↦
              let (code, rest, front, popped, some_code, counted) =
                pop-Front s.shared.results safe.0.reported e in
              main-Goes s place safe at _ _ (
                step
                ∙ (ap (λ t. if t then some (s.shared, after) else take_result s.shared go_on result)
                      e
                    ∙ take_result-some s.shared go_on result code
                        (record { queue = rest; queue_length = s.shared.results.queue_length - 1 })
                        popped))
        ]

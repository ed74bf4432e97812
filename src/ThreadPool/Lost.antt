-- ===== src/ThreadPool/Lost.antt =====
-- Runs of a pool in which no job is done: with one worker that misses the notifications, and with none.
use pcat.Common.{
  ℕ, ◌≡◌, refl, ap, sym, ◌∙◌, subst, List, [], ◌∷◌, ◌++◌, append_assoc, append-nil, true, some,
  none, Result, All, arith, if◌then◌else◌,
}
use pcat.ThreadedQueue.{ThreadedQueue, push, empty}
use pcat.ThreadPool.{
  Pc, testing_loop, entering, testing_wait, testing_wait_work, blocking, sleeping, Main, starting,
  queueing, notifying, clearing, stopping, waking_all, joining, returned, Shared, new_shared,
  new_queue, return_value, wake, main_step, worker_step, all_stopped, is_stopped, take_result,
}
use pcat.ThreadPool.Relation.{
  Pool, Step, worker, main, notify_one, notify_nobody, notify_all, spurious, Reach, here, later,
  new_pool,
}
use pcat.ThreadPool.Bound.{unprompted}
use pcat.ThreadPool.Phase.{All-one}

module _ {Job : Type 0} where
  unfoldable pub push_all : ThreadedQueue Job → List Job → ThreadedQueue Job
  push_all work [] = work
  push_all work (job ∷ jobs) = push_all (push work job) jobs

  queue-push_all :
      (work : ThreadedQueue Job) (jobs : List Job) → (push_all work jobs).queue ≡ work.queue ++ jobs
  unfolding push_all push
  queue-push_all work [] = sym (append-nil work.queue)
  queue-push_all work (job ∷ jobs) =
      queue-push_all (push work job) jobs ∙ append_assoc work.queue (job ∷ []) jobs

module _ {Job Out : Type 0} (unset : Job) (invoke : Job → Out → Result (Out × ℕ)) where
  abbrev at_place : Shared Job Out → List (Pc Job) → Main Job → Pool Job Out
  at_place m workers place = record { shared = m; workers = workers; main = place }

  -- one step of the main thread, of the first worker
  main-later :
      (s : Pool Job Out) (m m' : Shared Job Out) (workers : List (Pc Job)) (place place' : Main Job)
      → main_step m workers place ≡ some (m', place')
      → Reach unset invoke s (at_place m workers place)
      → Reach unset invoke s (at_place m' workers place')
  main-later s m m' workers place place' moved r = later r (main m' place' moved refl)

  worker-later :
      (s : Pool Job Out) (m m' : Shared Job Out) (pc pc' : Pc Job) (place : Main Job)
      → worker_step unset invoke m pc ≡ some (m', pc')
      → Reach unset invoke s (at_place m (pc ∷ []) place)
      → Reach unset invoke s (at_place m' (pc' ∷ []) place)
  worker-later s m m' pc pc' place moved r = later r (worker [] [] pc pc' m' refl moved refl)

  -- The jobs are queued while no thread sleeps and there are no results.
  queue-later :
      (s : Pool Job Out) (m : Shared Job Out) (workers : List (Pc Job)) (jobs : List Job)
      → All (λ pc. wake pc ≡ pc) workers
      → empty m.results ≡ true
      → Reach unset invoke s (at_place m workers (queueing jobs))
      → Reach unset invoke s
          (at_place (record m { work = push_all m.work jobs }) workers (queueing []))
  unfolding push_all main_step
  queue-later s m workers [] awake clear r = r
  queue-later s m workers (job ∷ jobs) awake clear r =
      let m' : Shared Job Out = record m { work = push m.work job } in
      let pushed = main-later s m m' workers (queueing (job ∷ jobs)) (notifying jobs) refl r in
      let notified : Reach unset invoke s (at_place m' workers (clearing 0 jobs)) =
        later pushed (notify_nobody jobs refl awake refl) in
      queue-later s m' workers jobs awake clear (
        main-later s m' m' workers (clearing 0 jobs) (queueing jobs)
          (ap
            (λ t.
              if t then some (m', queueing jobs) else take_result m' (λ next. clearing next jobs) 0)
            clear)
          notified)

  -- The worker has found nothing to do, and still has the mutex.
  about_to_block :
      (jobs : List Job) (out : Out)
      → Reach unset invoke (new_pool 1 jobs out) (
          at_place
            (record (new_shared out) { locked = true; waiting_threads = 1 })
            (blocking ∷ [])
            (queueing jobs))
  unfolding new_pool worker_step main_step empty
  about_to_block jobs out =
      let s = new_pool {Job = Job} 1 jobs out in
      let m = new_shared {Job = Job} out in
      let m' : Shared Job Out = record m { locked = true; waiting_threads = 1 } in
      let a = worker-later s m m testing_loop entering (starting jobs) refl here in
      let b = worker-later s m m' entering testing_wait (starting jobs) refl a in
      let c = worker-later s m' m' testing_wait testing_wait_work (starting jobs) refl b in
      let d = worker-later s m' m' testing_wait_work blocking (starting jobs) refl c in
      main-later s m' m' (blocking ∷ []) (starting jobs) (queueing jobs) refl d

  abbrev asleep : List Job → Out → Shared Job Out
  asleep jobs out = record (new_shared out) {
    work = push_all new_queue jobs;
    finished = true;
    waiting_threads = 1;
  }

  asleep-Reach :
      (jobs : List Job) (out : Out)
      → Reach unset invoke
          (new_pool 1 jobs out)
          (at_place (asleep jobs out) (sleeping ∷ []) (joining none []))
  unfolding worker_step main_step empty wake
  asleep-Reach jobs out =
      let s = new_pool {Job = Job} 1 jobs out in
      let m : Shared Job Out = record (new_shared out) { locked = true; waiting_threads = 1 } in
      let q : Shared Job Out = record m { work = push_all new_queue jobs } in
      let f : Shared Job Out = record q { finished = true } in
      let a = queue-later s m (blocking ∷ []) jobs (refl, tt) refl (about_to_block jobs out) in
      let b = main-later s q q (blocking ∷ []) (queueing []) (stopping none []) refl a in
      let c = main-later s q f (blocking ∷ []) (stopping none []) (waking_all none []) refl b in
      let d : Reach unset invoke s (at_place f (blocking ∷ []) (joining none [])) =
        later c (notify_all none [] refl refl) in
      worker-later s f (asleep jobs out) blocking sleeping (joining none []) refl d

  only_sleeping :
      (before behind : List (Pc Job)) (pc : Pc Job)
      → sleeping ∷ [] ≡ before ++ (pc ∷ behind)
      → pc ≡ sleeping
  only_sleeping before behind pc e =
      All-one (λ p. p ≡ sleeping) before behind pc (subst (All (λ p. p ≡ sleeping)) e (refl, tt))

  asleep-stays :
      (jobs : List Job) (out : Out) (t : Pool Job Out)
      (step : Step unset invoke (at_place (asleep jobs out) (sleeping ∷ []) (joining none [])) t)
      → unprompted unset invoke step ≡ 1
  unfolding unprompted worker_step main_step all_stopped is_stopped
  asleep-stays jobs out t (worker before behind pc pc' m' at moved left) =
      let moves : worker_step unset invoke (asleep jobs out) sleeping ≡ some (m', pc') =
        subst (λ p. worker_step unset invoke (asleep jobs out) p ≡ some (m', pc'))
          (only_sleeping before behind pc at) moved in
      absurd (ground arith)
  asleep-stays jobs out t (main m' main' moved left) = absurd (ground arith)
  asleep-stays jobs out t (notify_one before behind left_jobs place at left) = absurd (ground arith)
  asleep-stays jobs out t (notify_nobody left_jobs place none_sleeps left) = absurd (ground arith)
  asleep-stays jobs out t (notify_all error left_jobs place left) = absurd (ground arith)
  asleep-stays jobs out t (spurious before behind at left) = refl

  -- A pool with one worker can miss every notification: for any jobs it reaches a state in which all of
  -- them are queued and none has been run, the main thread joins the worker, and no step is left but
  -- that the worker wakes without a notification.
  pub new_pool-unprompted :
      (jobs : List Job) (out : Out)
      → (s : Pool Job Out) × Reach unset invoke (new_pool 1 jobs out) s
        × (s.main ≡ joining none [])
        × (s.shared.work.queue ≡ jobs)
        × (s.shared.ran ≡ [])
        × ((t : Pool Job Out) (step : Step unset invoke s t) → unprompted unset invoke step ≡ 1)
  new_pool-unprompted jobs out = (
    at_place (asleep jobs out) (sleeping ∷ []) (joining none []),
    asleep-Reach jobs out,
    refl,
    queue-push_all new_queue jobs,
    refl,
    asleep-stays jobs out,
  )

  -- A pool without workers returns 0 for any jobs and runs none of them.
  pub new_pool_nobody :
      (jobs : List Job) (out : Out)
      → (s : Pool Job Out) × Reach unset invoke (new_pool 0 jobs out) s
        × (s.main ≡ returned 0 [])
        × (s.shared.ran ≡ [])
        × (s.shared.out ≡ out)
  unfolding new_pool main_step return_value empty
  new_pool_nobody jobs out =
      let s = new_pool {Job = Job} 0 jobs out in
      let m = new_shared {Job = Job} out in
      let q : Shared Job Out = record m { work = push_all new_queue jobs } in
      let a = main-later s m m [] (starting jobs) (queueing jobs) refl here in
      let b = queue-later s m [] jobs tt refl a in
      let c = main-later s q q [] (queueing []) (stopping none []) refl b in
      let d = main-later s q q [] (stopping none []) (returned 0 []) refl c in
      (at_place q [] (returned 0 []), d, refl, refl, refl)

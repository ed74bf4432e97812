-- ===== src/ThreadPool/Relation.antt =====
-- The interleavings of the threads of a pool.
use pcat.Common.{ℕ, ◌≡◌, List, ◌∷◌, ◌++◌, map, some, Option, Result, All, replicate}
use pcat.ThreadPool.{
  Pc, testing_loop, sleeping, waking, Main, starting, notifying, clearing, waking_all, joining,
  Shared, new_shared, wake, main_step, worker_step,
}

pub record Pool (Job Out : Type 0) : Type 0 where
  pub shared : Shared Job Out
  pub workers : List (Pc Job)
  pub main : Main Job

module _ {Job Out : Type 0} where
  -- the constructor with `count` processors, and the client's jobs
  unfoldable pub new_pool : ℕ → List Job → Out → Pool Job Out
  new_pool count jobs out = record {
    shared = new_shared out;
    workers = replicate count testing_loop;
    main = starting jobs;
  }

  -- the pool with one worker changed
  abbrev pub at_worker :
      Shared Job Out → List (Pc Job) → Pc Job → List (Pc Job) → Main Job → Pool Job Out
  at_worker m before pc behind main = record {
    shared = m;
    workers = before ++ (pc ∷ behind);
    main = main;
  }

  -- A step of some thread. `notify_one` wakes one thread that sleeps, if there is one, and a thread may
  -- wake without a notification.
  pub data Step (unset : Job) (invoke : Job → Out → Result (Out × ℕ)) (s t : Pool Job Out)
      : Type 0 where
    worker :
        (before behind : List (Pc Job)) (pc pc' : Pc Job) (m' : Shared Job Out)
        → s.workers ≡ before ++ (pc ∷ behind)
        → worker_step unset invoke s.shared pc ≡ some (m', pc')
        → t ≡ at_worker m' before pc' behind s.main
        → Step unset invoke s t
    main :
        (m' : Shared Job Out) (main' : Main Job)
        → main_step s.shared s.workers s.main ≡ some (m', main')
        → t ≡ record { shared = m'; workers = s.workers; main = main' }
        → Step unset invoke s t
    notify_one :
        (before behind : List (Pc Job)) (jobs : List Job)
        → s.main ≡ notifying jobs
        → s.workers ≡ before ++ (sleeping ∷ behind)
        → t ≡ at_worker s.shared before waking behind (clearing 0 jobs)
        → Step unset invoke s t
    notify_nobody :
        (jobs : List Job)
        → s.main ≡ notifying jobs
        → All (λ pc. wake pc ≡ pc) s.workers
        → t ≡ record s { main = clearing 0 jobs }
        → Step unset invoke s t
    notify_all :
        (error : Option ℕ) (jobs : List Job)
        → s.main ≡ waking_all error jobs
        → t ≡ record { shared = s.shared; workers = map wake s.workers; main = joining error jobs }
        → Step unset invoke s t
    spurious :
        (before behind : List (Pc Job))
        → s.workers ≡ before ++ (sleeping ∷ behind)
        → t ≡ at_worker s.shared before waking behind s.main
        → Step unset invoke s t

  pub data Reach (unset : Job) (invoke : Job → Out → Result (Out × ℕ)) (s : Pool Job Out)
      : Pool Job Out → Type 0 where
    here : Reach unset invoke s s
    later :
        {t u : Pool Job Out}
        → Reach unset invoke s t
        → Step unset invoke t u
        → Reach unset invoke s u

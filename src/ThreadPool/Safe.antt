-- ===== src/ThreadPool/Safe.antt =====
-- The invariant of a pool: its mutex, its count of waiting threads, its queues and its phases.
use pcat.Common.{
  ℕ, suc, ◌+◌, ◌-◌, ◌≤◌, ◌<◌, ◌≡◌, refl, ap, List, [], ◌∷◌, ◌++◌, Bool, true, false, Option, some,
  none, Result, arith, ◌==◌, ◌&&◌, if◌then◌else◌, length-append, length-replicate, replicate, zero,
  inl, All, sym, ◌∙◌, subst,
}
use pcat.Common
use pcat.ThreadedQueue.{push, empty}
use pcat.ThreadedQueue.Order.{IsCounted, push-IsCounted}
use pcat.ThreadPool.{
  Pc, testing_loop, sleeping, waking, Main, starting, queueing, notifying, clearing, stopping,
  waking_all, joining, draining, returned, Shared, is_stopped, all_stopped, worker_step, main_step,
  take_result, return_value, keep_first, new_shared,
}
use pcat.ThreadPool.Tally.{hold, waits, bit, tally, tally-middle}
use pcat.ThreadPool.Steps.{
  OnSome, OnSome-each, if-OnSome, place-OnSome, some-OnSome, IsKept, Reach-keeps, At,
}
use pcat.ThreadPool.Relation.{Pool, Reach, new_pool}
use pcat.ThreadPool.Taking.{pop-Front, take_result-some}
use pcat.ThreadPool.Lock.{Sure, Before, Local, worker_step-Local}
use pcat.ThreadPool.Phase.{
  Phase, Phase-alive, All-change, All-one, All-each, Sure-push, Sure-finish, tally-replicate,
  All-replicate,
}

bit-le : (locked : Bool) → bit locked ≤ 1
bit-le true = omega arith
bit-le false = omega arith

module _ {Job Out : Type 0} where
  pub record Safe (m : Shared Job Out) (workers : List (Pc Job)) (place : Main Job) : Type 0 where
    pub counted : IsCounted m.work
    pub reported : IsCounted m.results
    pub lock : tally hold workers ≡ bit m.locked
    pub waiting : m.waiting_threads ≡ tally waits workers
    pub sure : All (Sure m.finished m.work.queue_length) workers
    pub some_worker : 0 < Common.length workers
    pub phase : Phase m.finished m.results.queue_length workers place

  Safe-place :
      (m : Shared Job Out) (workers : List (Pc Job)) (place place' : Main Job)
      → Safe m workers place
      → Phase m.finished m.results.queue_length workers place'
      → Safe m workers place'
  Safe-place m workers place place' s phase = record {
    counted = s.counted;
    reported = s.reported;
    lock = s.lock;
    waiting = s.waiting;
    sure = s.sure;
    some_worker = s.some_worker;
    phase = phase;
  }

  Safe-step :
      (m m' : Shared Job Out) (before behind : List (Pc Job)) (pc pc' : Pc Job) (place : Main Job)
      → Safe m (before ++ (pc ∷ behind)) place
      → Local m pc m' pc'
      → Safe m' (before ++ (pc' ∷ behind)) place
  Safe-step m m' before behind pc pc' place s l =
      let holds = tally-middle hold before behind in
      let waiters = tally-middle waits before behind in
      let others : hold pc + tally hold (before ++ behind) ≤ 1 =
        omega (arith, holds pc, bit-le m.locked) in
      record {
        counted = l.counted;
        reported = l.reported s.reported;
        lock = omega (arith, holds pc, holds pc');
        waiting = omega (arith, waiters pc, waiters pc');
        sure =
            All-change (Sure m.finished m.work.queue_length) (Sure m'.finished m'.work.queue_length)
              (hold pc) l.others before behind pc pc' others l.own s.sure;
        some_worker = omega (arith, length-append before (pc' ∷ behind));
        phase =
            subst (λ f. Phase f m'.results.queue_length (before ++ (pc' ∷ behind)) place)
              (sym l.finished)
              (Phase-alive m.finished m.results.queue_length m'.results.queue_length before behind
                (before ++ (pc' ∷ behind)) pc place l.alive s.phase);
      }

  pub Safe-Before :
      (m : Shared Job Out) (before behind : List (Pc Job)) (pc : Pc Job) (place : Main Job)
      → Safe m (before ++ (pc ∷ behind)) place
      → Before m pc
  Safe-Before m before behind pc place s = record {
    counted = s.counted;
    holder = omega (arith, tally-middle hold before behind pc);
    waiter = omega (arith, tally-middle waits before behind pc);
    own = All-one (Sure m.finished m.work.queue_length) before behind pc s.sure;
  }

  -- The main thread takes a result.
  take-Safe :
      (m : Shared Job Out) (workers : List (Pc Job)) (place : Main Job) (go_on : ℕ → Main Job)
      (result : ℕ)
      → Safe m workers place
      → empty m.results ≡ false
      → ((n next : ℕ) → Phase m.finished n workers (go_on next))
      → OnSome (λ m' place'. Safe m' workers place') (take_result m go_on result)
  take-Safe m workers place go_on result s full phase =
      let (code, rest, at, popped, some_code, counted) = pop-Front m.results s.reported full in
      some-OnSome (λ m' place'. Safe m' workers place') (take_result m go_on result) _ _
        (take_result-some m go_on result code
          (record { queue = rest; queue_length = m.results.queue_length - 1 }) popped)
        (record {
          counted = s.counted;
          reported = counted;
          lock = s.lock;
          waiting = s.waiting;
          sure = s.sure;
          some_worker = s.some_worker;
          phase = phase (m.results.queue_length - 1) (keep_first result code);
        })

  main_step-Safe :
      (m : Shared Job Out) (workers : List (Pc Job)) (place : Main Job)
      → Safe m workers place
      → OnSome (λ m' place'. Safe m' workers place') (main_step m workers place)
  unfolding main_step push empty
  main_step-Safe m workers (starting jobs) s =
      if-OnSome (λ m' place'. Safe m' workers place') (m.waiting_threads == Common.length workers) _
        _ (λ e. Safe-place m workers (starting jobs) (queueing jobs) s s.phase) (λ e. tt)
  main_step-Safe m workers (queueing []) s =
      Safe-place m workers (queueing []) (stopping none []) s s.phase
  main_step-Safe m workers (queueing (job ∷ jobs)) s = record {
    counted = push-IsCounted m.work job s.counted;
    reported = s.reported;
    lock = s.lock;
    waiting = s.waiting;
    sure =
        subst (λ f. All (Sure f (m.work.queue_length + 1)) workers) (sym s.phase)
          (All-each (Sure false m.work.queue_length) (Sure false (m.work.queue_length + 1))
            (Sure-push m.work.queue_length) workers
            (subst (λ f. All (Sure f m.work.queue_length) workers) s.phase s.sure));
    some_worker = s.some_worker;
    phase = s.phase;
  }
  main_step-Safe m workers (notifying jobs) s = tt
  main_step-Safe m workers (clearing result jobs) s =
      if-OnSome (λ m' place'. Safe m' workers place') (empty m.results) _ _
        (λ e.
          place-OnSome (λ m' place'. Safe m' workers place') (result == 0) _ _ _
            (λ e. Safe-place m workers (clearing result jobs) (queueing jobs) s s.phase)
            (λ e.
              Safe-place m workers (clearing result jobs) (stopping (some result) jobs) s s.phase))
        (λ e.
          take-Safe m workers (clearing result jobs) (λ next. clearing next jobs) result s e
            λ n next. s.phase)
  main_step-Safe m [] (stopping error jobs) s = let none_there = s.some_worker in ground arith
  main_step-Safe m (pc ∷ workers) (stopping error jobs) s = record {
    counted = s.counted;
    reported = s.reported;
    lock = s.lock;
    waiting = s.waiting;
    sure =
        All-each (Sure m.finished m.work.queue_length) (Sure true m.work.queue_length)
          (Sure-finish m.finished m.work.queue_length) (pc ∷ workers) s.sure;
    some_worker = s.some_worker;
    phase = refl;
  }
  main_step-Safe m workers (waking_all error jobs) s = tt
  main_step-Safe m workers (joining error jobs) s =
      if-OnSome (λ m' place'. Safe m' workers place') (all_stopped workers) _ _
        (λ e. Safe-place m workers (joining error jobs) (draining error 0 jobs) s (s.phase, e))
        (λ e. tt)
  main_step-Safe m workers (draining error result jobs) s =
      if-OnSome (λ m' place'. Safe m' workers place') (empty m.results) _ _
        (λ e.
          Safe-place m workers (draining error result jobs)
            (returned (return_value error result) jobs) s (s.phase.0, s.phase.1, ground arith))
        (λ e.
          take-Safe m workers (draining error result jobs) (λ next. draining error next jobs) result
            s e λ n next. s.phase)
  main_step-Safe m workers (returned value jobs) s = tt

  waking-Local : (m : Shared Job Out) → IsCounted m.work → Local m sleeping m waking
  unfolding hold waits is_stopped
  waking-Local m counted = record {
    held = refl;
    waiting = refl;
    counted = counted;
    reported = λ h. h;
    finished = refl;
    own = tt;
    others = λ pc2 free sure. sure;
    alive = refl;
  }

  module _ (unset : Job) (invoke : Job → Out → Result (Out × ℕ)) where
    pub Safe-IsKept : IsKept unset invoke (λ m workers place. Unit) Safe
    Safe-IsKept = record {
      by_worker = λ m before behind pc place k s.
          OnSome-each (λ m' pc' l. Safe-step m m' before behind pc pc' place s l)
            (worker_step unset invoke m pc)
            (worker_step-Local unset invoke m pc (Safe-Before m before behind pc place s));
      by_main = λ m workers place k s. main_step-Safe m workers place s;
      by_waking = λ m before behind place s.
          Safe-step m m before behind sleeping waking place s (waking-Local m s.counted);
      by_notifying =
          λ m workers jobs s. Safe-place m workers (notifying jobs) (clearing 0 jobs) s s.phase;
      by_waking_all = λ m workers error jobs s.
          Safe-place m workers (waking_all error jobs) (joining error jobs) s s.phase;
    }

    -- every worker at the start
    replicate-Safe :
        (count : ℕ) (jobs : List Job) (out : Out)
        → 0 < count
        → Safe (new_shared out) (replicate count testing_loop) (starting jobs)
    unfolding hold waits
    replicate-Safe count jobs out pos = record {
      counted = refl;
      reported = refl;
      lock = tally-replicate hold count refl;
      waiting = sym (tally-replicate waits count refl);
      sure = All-replicate (Sure false 0) count testing_loop tt;
      some_worker =
          let first : Pc Job = testing_loop in omega (arith, length-replicate count first);
      phase = refl;
    }

    -- In every state that a pool with a worker at least reaches: the queues are counted, workMutex is
    -- held by one worker where it is locked and by none where it is not, waitingThreads is the number
    -- of the workers in the wait, a worker behind the wait finds a job or `finished`, one that goes on
    -- without a job or has ended finds `finished` and no job, `finished` is set as the main thread
    -- stands, and where it has joined the workers they have ended.
    pub Reach-Safe :
        (count : ℕ) (jobs : List Job) (out : Out) (s : Pool Job Out)
        → 0 < count
        → Reach unset invoke (new_pool count jobs out) s
        → At Safe s
    unfolding new_pool
    Reach-Safe count jobs out s pos r =
        Reach-keeps unset invoke Safe-IsKept r (λ u r'. tt) (replicate-Safe count jobs out pos)

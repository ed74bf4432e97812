-- ===== src/ThreadPool/Lock.antt =====
-- workMutex, waitingThreads and the queue of the work: what holds of them in every state of a pool.
use pcat.Common.{
  ℕ, ◌+◌, ◌-◌, ◌≤◌, ◌<◌, ◌≡◌, ◌⊎◌, inl, inr, refl, ap, Bool, true, false, Result, arith,
}
use pcat.ThreadedQueue.{empty}
use pcat.ThreadedQueue.Order.{IsCounted, push-IsCounted}
use pcat.ThreadPool.{
  Pc, testing_loop, testing_loop_work, entering, testing_wait, testing_wait_work, blocking,
  sleeping, waking, leaving, popping, empty_handed, working, reporting, stopped, Shared, is_stopped,
  take_job, worker_step,
}
use pcat.ThreadPool.Tally.{hold, waits, bit}
use pcat.ThreadPool.Steps.{OnSome, if-OnSome, place-OnSome, some-OnSome}
use pcat.ThreadPool.Taking.{pop-Front, take_job-some, run_job-OnSome}

-- What a worker knows of `finished` and of the number of the jobs in the queue where it stands.
abbrev pub Sure : {Job : Type 0} → Bool → ℕ → Pc Job → Type 0
Sure finished n testing_loop_work = finished ≡ true
Sure finished n leaving = (finished ≡ true) ⊎ (0 < n)
Sure finished n popping = (finished ≡ true) ⊎ (0 < n)
Sure finished n empty_handed = (finished ≡ true) × (n ≡ 0)
Sure finished n stopped = (finished ≡ true) × (n ≡ 0)
Sure finished n _ = Unit

-- The holder has the mutex.
bit-one : (locked : Bool) → 1 ≤ bit locked → bit locked ≡ 1
bit-one true h = refl
bit-one false h = ground arith

Sure-finished : (finished : Bool) (n : ℕ) → ((finished ≡ true) ⊎ (0 < n)) → n ≡ 0 → finished ≡ true
Sure-finished finished n (inl e) h = e
Sure-finished finished n (inr pos) h = ground arith

-- Another thread takes a job from under a worker that has not the mutex.
Sure-pop :
    {Job : Type 0} (finished : Bool) (n : ℕ) (pc : Pc Job)
    → hold pc ≡ 0
    → 0 < n
    → Sure finished n pc
    → Sure finished (n - 1) pc
unfolding hold
Sure-pop finished n leaving free some_job sure = ground arith
Sure-pop finished n popping free some_job sure = ground arith
Sure-pop finished n empty_handed free some_job sure = ground arith
Sure-pop finished n stopped free some_job sure = ground arith
Sure-pop finished n testing_loop_work free some_job sure = sure
Sure-pop finished n _ free some_job sure = tt

module _ {Job Out : Type 0} where
  -- What a step of one worker keeps, for itself and for a worker that stands at `pc2`.
  pub record Local (m : Shared Job Out) (pc : Pc Job) (m' : Shared Job Out) (pc' : Pc Job)
      : Type 0 where
    pub held : hold pc' + bit m.locked ≡ hold pc + bit m'.locked
    pub waiting : m'.waiting_threads + waits pc ≡ m.waiting_threads + waits pc'
    pub counted : IsCounted m'.work
    pub reported : IsCounted m.results → IsCounted m'.results
    pub finished : m'.finished ≡ m.finished
    pub own : Sure m'.finished m'.work.queue_length pc'
    pub others :
        (pc2 : Pc Job)
        → hold pc + hold pc2 ≤ 1
        → Sure m.finished m.work.queue_length pc2
        → Sure m'.finished m'.work.queue_length pc2
    pub alive : is_stopped pc ≡ false

  -- what it has to know
  pub record Before (m : Shared Job Out) (pc : Pc Job) : Type 0 where
    pub counted : IsCounted m.work
    pub holder : hold pc ≤ bit m.locked
    pub waiter : waits pc ≤ m.waiting_threads
    pub own : Sure m.finished m.work.queue_length pc

  quiet :
      (m : Shared Job Out) (pc pc' : Pc Job)
      → IsCounted m.work
      → hold pc' ≡ hold pc
      → waits pc' ≡ waits pc
      → Sure m.finished m.work.queue_length pc'
      → is_stopped pc ≡ false
      → Local m pc m pc'
  quiet m pc pc' counted h w own alive = record {
    held = omega arith;
    waiting = omega arith;
    counted = counted;
    reported = λ h. h;
    finished = refl;
    own = own;
    others = λ pc2 free sure. sure;
    alive = alive;
  }

  module _ (unset : Job) (invoke : Job → Out → Result (Out × ℕ)) where
    pub worker_step-Local :
        (m : Shared Job Out) (pc : Pc Job)
        → Before m pc
        → OnSome (Local m pc) (worker_step unset invoke m pc)
    unfolding worker_step hold waits is_stopped empty
    worker_step-Local m testing_loop b =
        place-OnSome (Local m testing_loop) m.finished _ _ _
          (λ e. quiet m testing_loop testing_loop_work b.counted refl refl e refl)
          (λ e. quiet m testing_loop entering b.counted refl refl tt refl)
    worker_step-Local m testing_loop_work b =
        place-OnSome (Local m testing_loop_work) (empty m.work) _ _ _
          (λ e. quiet m testing_loop_work stopped b.counted refl refl (b.own, ground arith) refl)
          (λ e. quiet m testing_loop_work entering b.counted refl refl tt refl)
    worker_step-Local m entering b =
        if-OnSome (Local m entering) m.locked _ _ (λ e. tt)
          (λ e. record {
            held = ap (λ t. 1 + bit t) e;
            waiting = omega arith;
            counted = b.counted;
            reported = λ h. h;
            finished = refl;
            own = tt;
            others = λ pc2 free sure. sure;
            alive = refl;
          })
    worker_step-Local m testing_wait b =
        place-OnSome (Local m testing_wait) m.finished _ _ _
          (λ e. quiet m testing_wait leaving b.counted refl refl (inl e) refl)
          (λ e. quiet m testing_wait testing_wait_work b.counted refl refl tt refl)
    worker_step-Local m testing_wait_work b =
        place-OnSome (Local m testing_wait_work) (empty m.work) _ _ _
          (λ e. quiet m testing_wait_work blocking b.counted refl refl tt refl)
          (λ e. quiet m testing_wait_work leaving b.counted refl refl (inr (ground arith)) refl)
    worker_step-Local m blocking b = record {
      held = omega (arith, bit-one m.locked b.holder);
      waiting = refl;
      counted = b.counted;
      reported = λ h. h;
      finished = refl;
      own = tt;
      others = λ pc2 free sure. sure;
      alive = refl;
    }
    worker_step-Local m sleeping b = tt
    worker_step-Local m waking b =
        if-OnSome (Local m waking) m.locked _ _ (λ e. tt)
          (λ e. record {
            held = ap (λ t. 1 + bit t) e;
            waiting = refl;
            counted = b.counted;
            reported = λ h. h;
            finished = refl;
            own = tt;
            others = λ pc2 free sure. sure;
            alive = refl;
          })
    worker_step-Local m leaving b =
        let waiter = b.waiter in
        record {
          held = refl;
          waiting = omega arith;
          counted = b.counted;
          reported = λ h. h;
          finished = refl;
          own = b.own;
          others = λ pc2 free sure. sure;
          alive = refl;
        }
    worker_step-Local m popping b =
        if-OnSome (Local m popping) (empty m.work) _ _
          (λ e. record {
            held = omega (arith, bit-one m.locked b.holder);
            waiting = refl;
            counted = b.counted;
            reported = λ h. h;
            finished = refl;
            own = (Sure-finished m.finished m.work.queue_length b.own (ground arith), ground arith);
            others = λ pc2 free sure. sure;
            alive = refl;
          })
          (λ e.
            let (job, rest, at, popped, some_job, counted) = pop-Front m.work b.counted e in
            some-OnSome (Local m popping) (take_job unset invoke m) _ _
              (take_job-some unset invoke m job
                (record { queue = rest; queue_length = m.work.queue_length - 1 }) popped)
              (record {
                held = omega (arith, bit-one m.locked b.holder);
                waiting = refl;
                counted = counted;
                reported = λ h. h;
                finished = refl;
                own = tt;
                others = λ pc2 free sure.
                    Sure-pop m.finished m.work.queue_length pc2 (omega arith) some_job sure;
                alive = refl;
              }))
    worker_step-Local m empty_handed b =
        place-OnSome (Local m empty_handed) m.finished _ _ _
          (λ e. quiet m empty_handed stopped b.counted refl refl b.own refl)
          (λ e. quiet m empty_handed (working unset) b.counted refl refl tt refl)
    worker_step-Local m (working job) b =
        run_job-OnSome unset invoke (Local m (working job)) m job λ out code e. record {
          held = refl;
          waiting = refl;
          counted = b.counted;
          reported = λ h. h;
          finished = refl;
          own = tt;
          others = λ pc2 free sure. sure;
          alive = refl;
        }
    worker_step-Local m (reporting code) b = record {
      held = refl;
      waiting = refl;
      counted = b.counted;
      reported = push-IsCounted m.results code;
      finished = refl;
      own = tt;
      others = λ pc2 free sure. sure;
      alive = refl;
    }
    worker_step-Local m stopped b = tt

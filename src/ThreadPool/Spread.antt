-- ===== src/ThreadPool/Spread.antt =====
-- The jobs and the codes of a pool: where they are, and what a step moves.
use mathlib.Core.List.{Permᴰ}
use mathlib.Core.List.Permᴰ
use pcat.Common.{
  ℕ, ◌+◌, ◌-◌, ◌≡◌, refl, ap, List, [], ◌∷◌, ◌++◌, Bool, true, false, Result, ok, arith, sym, ◌∙◌,
  subst, append_assoc,
}
use pcat.ThreadedQueue.{push, empty}
use pcat.ThreadPool.{
  Pc, testing_loop, testing_loop_work, entering, testing_wait, testing_wait_work, blocking,
  sleeping, waking, leaving, popping, empty_handed, working, reporting, stopped, Shared, take_job,
  worker_step,
}
use pcat.ThreadPool.Tally.{hand, report, gather, gather-middle, append-swap}
use pcat.ThreadPool.Steps.{OnSome, if-OnSome, place-OnSome, some-OnSome}
use pcat.ThreadPool.Sequential.{run_all, run_all-last}
use pcat.ThreadPool.Taking.{pop-Front, take_job-some, run_job-OnSome}
use pcat.ThreadPool.Lock.{Before}

regroup :
    {B : Type 0} (left queued own others done : List B)
    → Permᴰ
        (left ++ (queued ++ ((own ++ others) ++ done)))
        ((left ++ others) ++ (queued ++ (own ++ done)))
regroup left queued own others done =
    subst (Permᴰ (left ++ (queued ++ ((own ++ others) ++ done))))
      (sym (append_assoc left others (queued ++ (own ++ done))))
      (Permᴰ.append_left left (
        Permᴰ.trans
          (Permᴰ.append_left queued (
            subst (λ l. Permᴰ l (others ++ (own ++ done))) (sym (append_assoc own others done))
              (append-swap own others done)))
          (append-swap queued others (own ++ done))))

module _ {A B : Type 0} where
  -- The members of `all` are in the three lists and with the workers.
  abbrev pub Spread : List B → List B → List B → (A → List B) → List A → List B → Type 0
  Spread all left queued of workers done =
      Permᴰ all (left ++ (queued ++ (gather of workers ++ done)))

  -- A step of one worker that moves what it has moves what all have.
  pub Spread-step :
      (all all' left queued queued' done done' : List B) (of : A → List B) (before behind : List A)
      (pc pc' : A)
      → ((others : List B)
          → Permᴰ all (others ++ (queued ++ (of pc ++ done)))
          → Permᴰ all' (others ++ (queued' ++ (of pc' ++ done'))))
      → Spread all left queued of (before ++ (pc ∷ behind)) done
      → Spread all' left queued' of (before ++ (pc' ∷ behind)) done'
  Spread-step all all' left queued queued' done done' of before behind pc pc' move h =
      let rest = gather of (before ++ behind) in
      Permᴰ.trans
        (move (left ++ rest) (
          Permᴰ.trans h (
            Permᴰ.trans
              (Permᴰ.append_left left (
                Permᴰ.append_left queued
                  (Permᴰ.append_right done (gather-middle of before behind pc))))
              (regroup left queued (of pc) rest done))))
        (Permᴰ.symm (
          Permᴰ.trans
            (Permᴰ.append_left left (
              Permᴰ.append_left queued'
                (Permᴰ.append_right done' (gather-middle of before behind pc'))))
            (regroup left queued' (of pc') rest done')))

module _ {Job Out : Type 0} where
  -- What a step of a worker does to its job, its code and what is shared.
  pub record Moves (invoke : Job → Out → Result (Out × ℕ)) (m : Shared Job Out) (pc : Pc Job)
      (m' : Shared Job Out) (pc' : Pc Job) : Type 0 where
    pub jobs :
        (all others : List Job)
        → Permᴰ all (others ++ (m.work.queue ++ (hand pc ++ m.ran)))
        → Permᴰ all (others ++ (m'.work.queue ++ (hand pc' ++ m'.ran)))
    pub run :
        (out : Out)
        → run_all invoke m.ran out ≡ ok (m.out, m.codes)
        → run_all invoke m'.ran out ≡ ok (m'.out, m'.codes)
    pub codes :
        (others : List ℕ)
        → Permᴰ m.codes (others ++ (m.results.queue ++ (report pc ++ [])))
        → Permᴰ m'.codes (others ++ (m'.results.queue ++ (report pc' ++ [])))
    pub seen : m'.seen ≡ m.seen

  module _ (unset : Job) (invoke : Job → Out → Result (Out × ℕ)) where
    still :
        (m : Shared Job Out) (locked : Bool) (waiting : ℕ) (pc pc' : Pc Job)
        → hand pc' ≡ hand pc
        → report pc' ≡ report pc
        → Moves invoke m pc (record m { locked = locked; waiting_threads = waiting }) pc'
    still m locked waiting pc pc' e e' = record {
      jobs = λ all others h.
          subst (λ own. Permᴰ all (others ++ (m.work.queue ++ (own ++ m.ran)))) (sym e) h;
      run = λ out h. h;
      codes = λ others h.
          subst (λ own. Permᴰ m.codes (others ++ (m.results.queue ++ (own ++ [])))) (sym e') h;
      seen = refl;
    }

    take-Moves :
        (m : Shared Job Out) (job : Job) (rest : List Job) (n : ℕ)
        → m.work.queue ≡ job ∷ rest
        → Moves invoke m popping
            (record m { work = record { queue = rest; queue_length = n }; locked = false })
            (working job)
    unfolding hand report
    take-Moves m job rest n at = record {
      jobs = λ all others h.
          Permᴰ.trans (subst (λ queue. Permᴰ all (others ++ (queue ++ m.ran))) at h)
            (Permᴰ.append_left others (Permᴰ.symm (Permᴰ.middle job rest m.ran)));
      run = λ out h. h;
      codes = λ others h. h;
      seen = refl;
    }

    run-Moves :
        (m : Shared Job Out) (job : Job) (out : Out) (code : ℕ)
        → invoke job m.out ≡ ok (out, code)
        → Moves invoke m
            (working job)
            (record m { out = out; ran = m.ran ++ (job ∷ []); codes = m.codes ++ (code ∷ []) })
            (reporting code)
    unfolding hand report
    run-Moves m job out code e = record {
      jobs = λ all others h. Permᴰ.trans h (
          Permᴰ.append_left others
            (Permᴰ.append_left m.work.queue (Permᴰ.append_comm (job ∷ []) m.ran)));
      run = λ first h. run_all-last invoke m.ran job first m.out out m.codes code h e;
      codes = λ others h.
          subst (Permᴰ (m.codes ++ (code ∷ [])))
            (append_assoc others (m.results.queue ++ []) (code ∷ [])
              ∙ ap (λ l. others ++ l) (append_assoc m.results.queue [] (code ∷ [])))
            (Permᴰ.append_right (code ∷ []) h);
      seen = refl;
    }

    report-Moves :
        (m : Shared Job Out) (code : ℕ)
        → Moves invoke m (reporting code) (record m { results = push m.results code }) testing_loop
    unfolding hand report push
    report-Moves m code = record {
      jobs = λ all others h. h;
      run = λ out h. h;
      codes = λ others h.
          subst (λ l. Permᴰ m.codes (others ++ l))
            (sym (append_assoc m.results.queue (code ∷ []) [])) h;
      seen = refl;
    }

    pub worker_step-Moves :
        (m : Shared Job Out) (pc : Pc Job)
        → Before m pc
        → OnSome (Moves invoke m pc) (worker_step unset invoke m pc)
    unfolding worker_step hand report
    worker_step-Moves m testing_loop b =
        place-OnSome (Moves invoke m testing_loop) m.finished _ _ _
          (λ e. still m m.locked m.waiting_threads testing_loop testing_loop_work refl refl)
          (λ e. still m m.locked m.waiting_threads testing_loop entering refl refl)
    worker_step-Moves m testing_loop_work b =
        place-OnSome (Moves invoke m testing_loop_work) (empty m.work) _ _ _
          (λ e. still m m.locked m.waiting_threads testing_loop_work stopped refl refl)
          (λ e. still m m.locked m.waiting_threads testing_loop_work entering refl refl)
    worker_step-Moves m entering b =
        if-OnSome (Moves invoke m entering) m.locked _ _ (λ e. tt)
          (λ e. still m true (m.waiting_threads + 1) entering testing_wait refl refl)
    worker_step-Moves m testing_wait b =
        place-OnSome (Moves invoke m testing_wait) m.finished _ _ _
          (λ e. still m m.locked m.waiting_threads testing_wait leaving refl refl)
          (λ e. still m m.locked m.waiting_threads testing_wait testing_wait_work refl refl)
    worker_step-Moves m testing_wait_work b =
        place-OnSome (Moves invoke m testing_wait_work) (empty m.work) _ _ _
          (λ e. still m m.locked m.waiting_threads testing_wait_work blocking refl refl)
          (λ e. still m m.locked m.waiting_threads testing_wait_work leaving refl refl)
    worker_step-Moves m blocking b = still m false m.waiting_threads blocking sleeping refl refl
    worker_step-Moves m sleeping b = tt
    worker_step-Moves m waking b =
        if-OnSome (Moves invoke m waking) m.locked _ _ (λ e. tt)
          (λ e. still m true m.waiting_threads waking testing_wait refl refl)
    worker_step-Moves m leaving b =
        still m m.locked (m.waiting_threads - 1) leaving popping refl refl
    worker_step-Moves m popping b =
        if-OnSome (Moves invoke m popping) (empty m.work) _ _
          (λ e. still m false m.waiting_threads popping empty_handed refl refl)
          (λ e.
            let (job, rest, at, popped, some_job, counted) = pop-Front m.work b.counted e in
            some-OnSome (Moves invoke m popping) (take_job unset invoke m) _ _
              (take_job-some unset invoke m job
                (record { queue = rest; queue_length = m.work.queue_length - 1 }) popped)
              (take-Moves m job rest (m.work.queue_length - 1) at))
    worker_step-Moves m empty_handed b =
        place-OnSome (Moves invoke m empty_handed) m.finished _ _ _
          (λ e. still m m.locked m.waiting_threads empty_handed stopped refl refl)
          (λ e. let sure = b.own.0 in ground arith)
    worker_step-Moves m (working job) b =
        run_job-OnSome unset invoke (Moves invoke m (working job)) m job (run-Moves m job)
    worker_step-Moves m (reporting code) b = report-Moves m code
    worker_step-Moves m stopped b = tt

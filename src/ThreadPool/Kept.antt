-- ===== src/ThreadPool/Kept.antt =====
-- No step of a pool loses a job or a code.
use mathlib.Core.List.{Permᴰ}
use mathlib.Core.List.Permᴰ
use pcat.Common.{
  ℕ, zero, suc, ◌+◌, ◌-◌, ◌≤◌, ◌<◌, ◌≡◌, ◌≢◌, refl, ap, ap₂, List, [], ◌∷◌, ◌++◌, Bool, true, false,
  Option, some, none, Result, ok, arith, ◌==◌, if◌then◌else◌, sym, ◌∙◌, subst, append_assoc,
  append-nil, replicate,
}
use pcat.Common
use pcat.ThreadedQueue.{push, empty}
use pcat.ThreadPool.{
  Pc, testing_loop, sleeping, waking, Main, starting, queueing, notifying, clearing, stopping,
  waking_all, joining, draining, returned, Shared, keep_first, return_value, new_shared,
  take_result, main_step, worker_step, all_stopped,
}
use pcat.ThreadPool.Relation.{Pool, new_pool, Reach}
use pcat.ThreadPool.Tally.{hand, report, gather, append-swap}
use pcat.ThreadPool.Sequential.{run_all}
use pcat.ThreadPool.Spread.{Spread, Spread-step, Moves, worker_step-Moves}
use pcat.ThreadPool.Steps.{
  OnSome, OnSome-each, if-OnSome, place-OnSome, some-OnSome, At, IsKept, Reach-keeps,
}
use pcat.ThreadPool.Taking.{pop-Front, take_result-some}
use pcat.ThreadPool.Safe.{Safe, Safe-Before, Reach-Safe}
use pcat.ThreadPool.Answer.{
  first_error, first_error-last, left, Answer, take-Answer, drain-Answer, return-Answer,
}

gather-replicate :
    {Job B : Type 0} (of : Pc Job → List B) (count : ℕ)
    → of testing_loop ≡ []
    → gather of (replicate count testing_loop) ≡ []
unfolding gather
gather-replicate of zero h = refl
gather-replicate of (suc count) h = ap₂ (λ a b. a ++ b) h (gather-replicate of count h)

module _ {Job Out : Type 0} (invoke : Job → Out → Result (Out × ℕ)) (all : List Job)
    (first : Out) where
  -- Where the jobs and their codes are in a state of the pool.
  pub record Kept (m : Shared Job Out) (workers : List (Pc Job)) (place : Main Job) : Type 0 where
    pub jobs : Spread all (left place) m.work.queue hand workers m.ran
    pub run : run_all invoke m.ran first ≡ ok (m.out, m.codes)
    pub codes : Spread m.codes m.seen m.results.queue report workers []
    pub answer : Answer m.seen place

  Kept-place :
      (m : Shared Job Out) (workers : List (Pc Job)) (place place' : Main Job)
      → Kept m workers place
      → left place' ≡ left place
      → Answer m.seen place'
      → Kept m workers place'
  Kept-place m workers place place' k same answer = record {
    jobs = subst (λ l. Spread all l m.work.queue hand workers m.ran) (sym same) k.jobs;
    run = k.run;
    codes = k.codes;
    answer = answer;
  }

  Kept-step :
      (m m' : Shared Job Out) (before behind : List (Pc Job)) (pc pc' : Pc Job) (place : Main Job)
      → Kept m (before ++ (pc ∷ behind)) place
      → Moves invoke m pc m' pc'
      → Kept m' (before ++ (pc' ∷ behind)) place
  Kept-step m m' before behind pc pc' place k v = record {
    jobs =
        Spread-step all all (left place) m.work.queue m'.work.queue m.ran m'.ran hand before behind
          pc pc' (v.jobs all) k.jobs;
    run = v.run first k.run;
    codes =
        subst (λ seen. Spread m'.codes seen m'.results.queue report (before ++ (pc' ∷ behind)) [])
          (sym v.seen)
          (Spread-step m.codes m'.codes m.seen m.results.queue m'.results.queue [] [] report before
            behind pc pc' v.codes k.codes);
    answer = subst (λ seen. Answer seen place) (sym v.seen) k.answer;
  }

  queue-Kept :
      (m : Shared Job Out) (workers : List (Pc Job)) (job : Job) (jobs : List Job)
      → Kept m workers (queueing (job ∷ jobs))
      → Kept (record m { work = push m.work job }) workers (notifying jobs)
  unfolding push
  queue-Kept m workers job jobs k =
      let rest = gather hand workers ++ m.ran in
      record {
        jobs = Permᴰ.trans k.jobs (
            Permᴰ.trans (append-swap (job ∷ []) jobs (m.work.queue ++ rest)) (
              Permᴰ.append_left jobs (
                subst (Permᴰ (job ∷ (m.work.queue ++ rest)))
                  (sym (append_assoc m.work.queue (job ∷ []) rest))
                  (Permᴰ.symm (Permᴰ.middle job m.work.queue rest)))));
        run = k.run;
        codes = k.codes;
        answer = k.answer;
      }

  take-Kept :
      (m : Shared Job Out) (workers : List (Pc Job)) (place : Main Job) (go_on : ℕ → Main Job)
      (result : ℕ)
      → Kept m workers place
      → Safe m workers place
      → empty m.results ≡ false
      → ((next : ℕ) → left (go_on next) ≡ left place)
      → ((code : ℕ) → Answer (m.seen ++ (code ∷ [])) (go_on (keep_first result code)))
      → OnSome (λ m' place'. Kept m' workers place') (take_result m go_on result)
  take-Kept m workers place go_on result k s full same answer =
      let (code, rest, at, popped, some_code, counted) = pop-Front m.results s.reported full in
      some-OnSome (λ m' place'. Kept m' workers place') (take_result m go_on result) _ _
        (take_result-some m go_on result code
          (record { queue = rest; queue_length = m.results.queue_length - 1 }) popped)
        (record {
          jobs =
              subst (λ l. Spread all l m.work.queue hand workers m.ran)
                (sym (same (keep_first result code))) k.jobs;
          run = k.run;
          codes =
              subst (Permᴰ m.codes)
                (sym (append_assoc m.seen (code ∷ []) (rest ++ (gather report workers ++ []))))
                (subst (λ queue. Spread m.codes m.seen queue report workers []) at k.codes);
          answer = answer code;
        })

  main_step-Kept :
      (m : Shared Job Out) (workers : List (Pc Job)) (place : Main Job)
      → Safe m workers place
      → Kept m workers place
      → OnSome (λ m' place'. Kept m' workers place') (main_step m workers place)
  unfolding main_step
  main_step-Kept m workers (starting jobs) s k =
      if-OnSome (λ m' place'. Kept m' workers place') (m.waiting_threads == Common.length workers) _
        _ (λ e. Kept-place m workers (starting jobs) (queueing jobs) k refl k.answer) (λ e. tt)
  main_step-Kept m workers (queueing []) s k =
      Kept-place m workers (queueing []) (stopping none []) k refl (k.answer, refl)
  main_step-Kept m workers (queueing (job ∷ jobs)) s k = queue-Kept m workers job jobs k
  main_step-Kept m workers (notifying jobs) s k = tt
  main_step-Kept m workers (clearing result jobs) s k =
      if-OnSome (λ m' place'. Kept m' workers place') (empty m.results) _ _
        (λ e.
          place-OnSome (λ m' place'. Kept m' workers place') (result == 0) _ _ _
            (λ z.
              let answer = k.answer in
              Kept-place m workers (clearing result jobs) (queueing jobs) k refl (ground arith))
            (λ z.
              Kept-place m workers (clearing result jobs) (stopping (some result) jobs) k refl
                (k.answer, λ zero_code. ground arith)))
        (λ e.
          take-Kept m workers (clearing result jobs) (λ next. clearing next jobs) result k s e
            (λ next. refl)
            (λ code. ap (λ r. keep_first r code) k.answer ∙ sym (first_error-last 0 code m.seen)))
  main_step-Kept m [] (stopping error jobs) s k = let none_there = s.some_worker in ground arith
  main_step-Kept m (pc ∷ workers) (stopping error jobs) s k = record {
    jobs = k.jobs;
    run = k.run;
    codes = k.codes;
    answer = k.answer;
  }
  main_step-Kept m workers (waking_all error jobs) s k = tt
  main_step-Kept m workers (joining error jobs) s k =
      if-OnSome (λ m' place'. Kept m' workers place') (all_stopped workers) _ _
        (λ e.
          Kept-place m workers (joining error jobs) (draining error 0 jobs) k refl
            (drain-Answer m.seen error jobs k.answer))
        (λ e. tt)
  main_step-Kept m workers (draining error result jobs) s k =
      if-OnSome (λ m' place'. Kept m' workers place') (empty m.results) _ _
        (λ e.
          Kept-place m workers (draining error result jobs)
            (returned (return_value error result) jobs) k refl
            (return-Answer m.seen error result jobs k.answer))
        (λ e.
          take-Kept m workers (draining error result jobs) (λ next. draining error next jobs) result
            k s e (λ next. refl) (λ code. take-Answer m.seen error result code jobs k.answer))
  main_step-Kept m workers (returned value jobs) s k = tt

  module _ (unset : Job) where
    Kept-IsKept : IsKept unset invoke Safe Kept
    unfolding hand report
    Kept-IsKept = record {
      by_worker = λ m before behind pc place s k.
          OnSome-each (λ m' pc' v. Kept-step m m' before behind pc pc' place k v)
            (worker_step unset invoke m pc)
            (worker_step-Moves unset invoke m pc (Safe-Before m before behind pc place s));
      by_main = λ m workers place s k. main_step-Kept m workers place s k;
      by_waking = λ m before behind place k.
          Kept-step m m before behind sleeping waking place k (record {
            jobs = λ all others h. h;
            run = λ out h. h;
            codes = λ others h. h;
            seen = refl;
          });
      by_notifying = λ m workers jobs k.
          Kept-place m workers (notifying jobs) (clearing 0 jobs) k refl (sym k.answer);
      by_waking_all = λ m workers error jobs k.
          Kept-place m workers (waking_all error jobs) (joining error jobs) k refl k.answer;
    }

    replicate-Kept :
        (count : ℕ) → Kept (new_shared first) (replicate count testing_loop) (starting all)
    unfolding run_all hand report first_error
    replicate-Kept count = record {
      jobs =
          subst (λ hands. Permᴰ all (all ++ (hands ++ []))) (sym (gather-replicate hand count refl))
            (Permᴰ.symm (Permᴰ.append-nil all));
      run = refl;
      codes =
          subst (λ reports. Permᴰ [] (reports ++ [])) (sym (gather-replicate report count refl))
            Permᴰ.nil;
      answer = refl;
    }

    pub Reach-Kept :
        (count : ℕ) (s : Pool Job Out)
        → 0 < count
        → Reach unset invoke (new_pool count all first) s
        → At Kept s
    unfolding new_pool
    Reach-Kept count s pos r =
        Reach-keeps unset invoke Kept-IsKept r
          (λ u r'. Reach-Safe unset invoke count all first u pos r') (replicate-Kept count)

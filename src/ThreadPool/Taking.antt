-- ===== src/ThreadPool/Taking.antt =====
-- The steps that take a job or a result, where there is one.
use pcat.Common.{
  ℕ, ◌-◌, ◌<◌, ◌≡◌, ◌==◌, refl, List, [], ◌∷◌, ◌++◌, Bool, true, false, Option, some, none, Result,
  ok, err, arith, if◌then◌else◌,
}
use pcat.Common
use pcat.ThreadedQueue.{ThreadedQueue, pop, empty}
use pcat.ThreadedQueue.Order.{IsCounted}
use pcat.ThreadPool.{
  Pc, working, reporting, Main, Shared, keep_first, take_result, take_job, run_job,
}
use pcat.ThreadPool.Steps.{OnSome}

-- What `pop` gives of a queue that is counted and not empty.
abbrev pub Front : {A : Type 0} → ThreadedQueue A → Type 0
Front {A} q =
    (front : A) × (rest : List A) × (q.queue ≡ front ∷ rest)
    × (pop q ≡ ok (some (front, record { queue = rest; queue_length = q.queue_length - 1 })))
    × (0 < q.queue_length)
    × (q.queue_length - 1 ≡ Common.length rest)

pop-Front-parts :
    {A : Type 0} (queue : List A) (n : ℕ)
    → n ≡ Common.length queue
    → (n == 0) ≡ false
    → Front (record { queue = queue; queue_length = n })
unfolding pop
pop-Front-parts [] n counted full = ground arith
pop-Front-parts (x ∷ rest) n counted full = (x, rest, refl, rw full refl, omega arith, omega arith)

pub pop-Front : {A : Type 0} (q : ThreadedQueue A) → IsCounted q → empty q ≡ false → Front q
unfolding empty
pop-Front q counted full = pop-Front-parts q.queue q.queue_length counted full

module _ {Job Out : Type 0} where
  pub take_result-some :
      (m : Shared Job Out) (go_on : ℕ → Main Job) (result code : ℕ) (rest : ThreadedQueue ℕ)
      → pop m.results ≡ ok (some (code, rest))
      → take_result m go_on result
        ≡ some (
          record m { results = rest; seen = m.seen ++ (code ∷ []) },
          go_on (keep_first result code),
        )
  unfolding take_result
  take_result-some m go_on result code rest e = rw (e, take_result) refl

  module _ (unset : Job) (invoke : Job → Out → Result (Out × ℕ)) where
    pub take_job-some :
        (m : Shared Job Out) (job : Job) (rest : ThreadedQueue Job)
        → pop m.work ≡ ok (some (job, rest))
        → take_job unset invoke m ≡ some (record m { work = rest; locked = false }, working job)
    unfolding take_job
    take_job-some m job rest e = rw (e, take_job) refl

    pub run_job-some :
        (m : Shared Job Out) (job : Job) (out : Out) (code : ℕ)
        → invoke job m.out ≡ ok (out, code)
        → run_job unset invoke m job
          ≡ some (
            record m { out = out; ran = m.ran ++ (job ∷ []); codes = m.codes ++ (code ∷ []) },
            reporting code,
          )
    unfolding run_job
    run_job-some m job out code e = rw (e, run_job) refl

    -- A run of a job ends the pool, or leaves what the worker function gives.
    pub run_job-OnSome :
        (P : Shared Job Out → Pc Job → Type 0) (m : Shared Job Out) (job : Job)
        → ((out : Out) (code : ℕ)
            → invoke job m.out ≡ ok (out, code)
            → P
                (record m { out = out; ran = m.ran ++ (job ∷ []); codes = m.codes ++ (code ∷ []) })
                (reporting code))
        → OnSome P (run_job unset invoke m job)
    unfolding run_job
    run_job-OnSome P m job h = run (invoke job m.out) h
      where
        run :
            (r : Result (Out × ℕ))
            → ((out : Out) (code : ℕ)
                → r ≡ ok (out, code)
                → P
                    (record m {
                      out = out;
                      ran = m.ran ++ (job ∷ []);
                      codes = m.codes ++ (code ∷ []);
                    })
                    (reporting code))
            → OnSome P (elim r [
              | err fault ↦ none
              | ok (out, code) ↦ some (
                record m { out = out; ran = m.ran ++ (job ∷ []); codes = m.codes ++ (code ∷ []) },
                reporting code,
              )
            ])
        run (err fault) h = tt
        run (ok (out, code)) h = h out code refl

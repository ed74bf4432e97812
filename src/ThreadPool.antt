-- ===== src/ThreadPool.antt =====
-- src/threadPool.hxx, with the `for` loop of chunkedCopy as its client: worker threads over two queues,
-- interleaved in any order, each access to what they share a step of its own, but for a test of a queue
-- and the pop behind it, which no other thread can come between. A call of the worker function is one
-- step. What `queue` and `finish` do stands in `main_step`, what a worker does in `worker_step`.
pub mod Relation
pub mod Answer
pub mod Bound
pub mod Enabled
pub mod Falls
pub mod Finish
pub mod Kept
pub mod Lock
pub mod Lost
pub mod Measure
pub mod Nearer
pub mod Phase
pub mod Progress
pub mod Safe
pub mod Sequential
pub mod Spread
pub mod Schedule
pub mod Steps
pub mod Taking
pub mod Tally
mod Tests
use pcat.Common.{
  ℕ, suc, ◌+◌, ◌-◌, ◌==◌, if◌then◌else◌, ◌&&◌, List, [], ◌∷◌, ◌++◌, map, Bool, true, false, Option,
  none, some, Result, ok, err,
}
use pcat.Common
use pcat.ThreadedQueue.{ThreadedQueue, push, pop, empty}

-- Where a worker stands, with the local variables that are live there.
pub data Pc (Job : Type 0) : Type 0 where
  testing_loop : Pc Job  -- `while (!(finished && ...`
  testing_loop_work : Pc Job  -- `... work.empty()))`
  entering : Pc Job  -- waitWork, before it has the mutex
  testing_wait : Pc Job  -- the predicate of `haveWork.wait`: `finished || ...`
  testing_wait_work : Pc Job  -- `... !work.empty()`
  blocking : Pc Job  -- the predicate was false, the thread still has the mutex
  sleeping : Pc Job  -- blocked in `haveWork`
  waking : Pc Job  -- woken, without the mutex
  leaving : Pc Job  -- behind the wait
  popping : Pc Job  -- `if (!work.empty()) return {true, work.pop()}`
  empty_handed : Pc Job  -- `return {false, {}}`
  working : Job → Pc Job
  reporting : ℕ → Pc Job  -- before `results.push`
  stopped : Pc Job

-- Where the thread of chunkedCopy stands. The jobs are those that the loop has not queued; the error
-- is the one that it stopped at.
pub data Main (Job : Type 0) : Type 0 where
  starting : List Job → Main Job  -- `while (!ready())`
  queueing : List Job → Main Job
  notifying : List Job → Main Job  -- `queue`, behind `work.emplace`
  clearing : ℕ → List Job → Main Job  -- clearResultQueue of `queue`, with its `result`
  stopping : Option ℕ → List Job → Main Job  -- the start of `finish`
  waking_all : Option ℕ → List Job → Main Job  -- before `haveWork.notify_all`
  joining : Option ℕ → List Job → Main Job
  draining : Option ℕ → ℕ → List Job → Main Job  -- clearResultQueue of `finish`
  returned : ℕ → List Job → Main Job

-- What the threads share: the members of threadPool_t, with `locked` for the state of workMutex, and
-- what the jobs write. The last three are no part of the program: the jobs that were run and their
-- codes, and the codes that the main thread has taken, in their order.
pub record Shared (Job Out : Type 0) : Type 0 where
  pub work : ThreadedQueue Job
  pub results : ThreadedQueue ℕ
  pub finished : Bool
  pub locked : Bool
  pub waiting_threads : ℕ
  pub out : Out
  pub ran : List Job
  pub codes : List ℕ
  pub seen : List ℕ

abbrev pub new_queue : {A : Type 0} → ThreadedQueue A
new_queue = record { queue = []; queue_length = 0 }

-- the members as they are initialised
abbrev pub new_shared : {Job Out : Type 0} → Out → Shared Job Out
new_shared out = record {
  work = new_queue;
  results = new_queue;
  finished = false;
  locked = false;
  waiting_threads = 0;
  out = out;
  ran = [];
  codes = [];
  seen = [];
}

-- `if (!result) result = thisResult`
abbrev pub keep_first : ℕ → ℕ → ℕ
keep_first result this_result = if result == 0 then this_result else result

-- the value that chunkedCopy returns: the error that it stopped at, or the result of `finish`
unfoldable pub return_value : Option ℕ → ℕ → ℕ
return_value none result = result
return_value (some error) result = error

module _ {Job : Type 0} where
  -- what a notification does to a thread
  unfoldable pub wake : Pc Job → Pc Job
  wake sleeping = waking
  wake testing_loop = testing_loop
  wake testing_loop_work = testing_loop_work
  wake entering = entering
  wake testing_wait = testing_wait
  wake testing_wait_work = testing_wait_work
  wake blocking = blocking
  wake waking = waking
  wake leaving = leaving
  wake popping = popping
  wake empty_handed = empty_handed
  wake (working job) = working job
  wake (reporting code) = reporting code
  wake stopped = stopped

  unfoldable pub is_stopped : Pc Job → Bool
  is_stopped stopped = true
  is_stopped testing_loop = false
  is_stopped testing_loop_work = false
  is_stopped entering = false
  is_stopped testing_wait = false
  is_stopped testing_wait_work = false
  is_stopped blocking = false
  is_stopped sleeping = false
  is_stopped waking = false
  is_stopped leaving = false
  is_stopped popping = false
  is_stopped empty_handed = false
  is_stopped (working job) = false
  is_stopped (reporting code) = false

  unfoldable pub all_stopped : List (Pc Job) → Bool
  all_stopped [] = true
  all_stopped (pc ∷ pcs) = is_stopped pc && all_stopped pcs

module _ {Job Out : Type 0} where
  -- `results.pop()`, as the main thread calls it
  unfoldable pub take_result :
      Shared Job Out → (ℕ → Main Job) → ℕ → Option (Shared Job Out × Main Job)
  take_result m go_on result = elim (pop m.results) [
    | err fault ↦ none
    | ok none ↦ none
    | ok (some (this_result, results)) ↦ some (
      record m { results = results; seen = m.seen ++ (this_result ∷ []) },
      go_on (keep_first result this_result),
    )
  ]

  -- A step of the main thread, but for `notify_one` and `notify_all`; `none` where it waits or has
  -- returned.
  unfoldable pub main_step :
      Shared Job Out → List (Pc Job) → Main Job → Option (Shared Job Out × Main Job)
  main_step m workers (starting jobs) =
      if m.waiting_threads == Common.length workers then some (m, queueing jobs) else none
  main_step m workers (queueing []) = some (m, stopping none [])
  main_step m workers (queueing (job ∷ jobs)) =
      some (record m { work = push m.work job }, notifying jobs)
  main_step m workers (notifying jobs) = none
  main_step m workers (clearing result jobs) =
      if empty m.results
      then some (m, if result == 0 then queueing jobs else stopping (some result) jobs)
      else take_result m (λ next. clearing next jobs) result
  main_step m [] (stopping error jobs) = some (m, returned (return_value error 0) jobs)
  main_step m (pc ∷ workers) (stopping error jobs) =
      some (record m { finished = true }, waking_all error jobs)
  main_step m workers (waking_all error jobs) = none
  main_step m workers (joining error jobs) =
      if all_stopped workers then some (m, draining error 0 jobs) else none
  main_step m workers (draining error result jobs) =
      if empty m.results
      then some (m, returned (return_value error result) jobs)
      else take_result m (λ next. draining error next jobs) result
  main_step m workers (returned value jobs) = none

  -- `unset` is the value-initialised argument of `return {false, {}}`, `invoke` the worker function.
  module _ (unset : Job) (invoke : Job → Out → Result (Out × ℕ)) where
    -- `work.pop()` behind the test; the mutex is released at the return.
    unfoldable pub take_job : Shared Job Out → Option (Shared Job Out × Pc Job)
    take_job m = elim (pop m.work) [
      | err fault ↦ none
      | ok none ↦ none
      | ok (some (job, work)) ↦ some (record m { work = work; locked = false }, working job)
    ]

    unfoldable pub run_job : Shared Job Out → Job → Option (Shared Job Out × Pc Job)
    run_job m job = elim (invoke job m.out) [
      | err fault ↦ none
      | ok (out, code) ↦ some (
        record m { out = out; ran = m.ran ++ (job ∷ []); codes = m.codes ++ (code ∷ []) },
        reporting code,
      )
    ]

    -- A step of a worker; `none` where it waits, faults or has ended.
    unfoldable pub worker_step : Shared Job Out → Pc Job → Option (Shared Job Out × Pc Job)
    worker_step m testing_loop = some (m, if m.finished then testing_loop_work else entering)
    worker_step m testing_loop_work = some (m, if empty m.work then stopped else entering)
    worker_step m entering =
        if m.locked
        then none
        else some
            (record m { locked = true; waiting_threads = m.waiting_threads + 1 }, testing_wait)
    worker_step m testing_wait = some (m, if m.finished then leaving else testing_wait_work)
    worker_step m testing_wait_work = some (m, if empty m.work then blocking else leaving)
    worker_step m blocking = some (record m { locked = false }, sleeping)
    worker_step m sleeping = none
    worker_step m waking =
        if m.locked then none else some (record m { locked = true }, testing_wait)
    worker_step m leaving = some (record m { waiting_threads = m.waiting_threads - 1 }, popping)
    worker_step m popping =
        if empty m.work then some (record m { locked = false }, empty_handed) else take_job m
    worker_step m empty_handed = some (m, if m.finished then stopped else working unset)
    worker_step m (working job) = run_job m job
    worker_step m (reporting code) = some (record m { results = push m.results code }, testing_loop)
    worker_step m stopped = none

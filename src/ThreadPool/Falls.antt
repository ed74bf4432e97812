-- ===== src/ThreadPool/Falls.antt =====
-- What the steps of a pool do to its measure.
use pcat.Common.{
  ℕ, zero, suc, ◌+◌, ◌-◌, ◌*◌, ◌≤◌, ◌<◌, ◌≡◌, refl, ap, ap₂, sym, replicate, length-replicate, List,
  [], ◌∷◌, ◌++◌, map, Bool, true, false, Option, some, none, Result, ok, err, arith, ◌==◌, ◌&&◌,
  if◌then◌else◌, length-append, subst,
}
use pcat.Common
use pcat.ThreadedQueue.{push, empty}
use pcat.ThreadPool.{
  Pc, testing_loop, sleeping, waking, Main, starting, queueing, notifying, clearing, stopping,
  waking_all, joining, draining, returned, Shared, take_result, main_step, return_value, wake,
  all_stopped,
}
use pcat.ThreadPool.Answer.{left}
use pcat.ThreadPool.Tally.{tally, tally-middle}
use pcat.ThreadPool.Steps.{OnSome, if-OnSome, place-OnSome}
use pcat.ThreadPool.Safe.{Safe}
use pcat.ThreadPool.Measure.{
  weight, rank, queued, measure_at, Lower, finish-tally, wake-tally, take-Lower,
}

same_length :
    {A : Type 0} (before behind : List A) (x y : A)
    → Common.length (before ++ (y ∷ behind)) ≡ Common.length (before ++ (x ∷ behind))
same_length before behind x y =
    omega (arith, length-append before (x ∷ behind), length-append before (y ∷ behind))

length-map : {A B : Type 0} (f : A → B) (xs : List A) → Common.length (map f xs) ≡ Common.length xs
length-map f [] = refl
length-map f (x ∷ xs) = ap suc (length-map f xs)

waking-weight :
    (Job : Type 0) (finished : Bool)
    → weight {Job = Job} finished waking ≤ 6 + weight {Job = Job} finished sleeping
unfolding weight
waking-weight Job finished = ground arith

pub replicate-tally :
    (Job : Type 0) (count : ℕ)
    → tally (weight {Job = Job} false) (replicate count testing_loop) ≡ 7 * count
unfolding tally weight
replicate-tally Job zero = refl
replicate-tally Job (suc count) = omega (arith, replicate-tally Job count)

module _ {Job Out : Type 0} where
  abbrev pub Falls : Shared Job Out → List (Pc Job) → Main Job → Shared Job Out → Main Job → Type 0
  Falls m workers place m' place' = measure_at m' workers place' < measure_at m workers place

  pub main_step-Falls :
      (m : Shared Job Out) (workers : List (Pc Job)) (place : Main Job)
      → Safe m workers place
      → OnSome (Falls m workers place) (main_step m workers place)
  unfolding main_step measure_at rank queued push
  main_step-Falls m workers (starting jobs) s =
      if-OnSome (Falls m workers (starting jobs)) (m.waiting_threads == Common.length workers)
        (some (m, queueing jobs)) none (λ e. omega arith) (λ e. tt)
  main_step-Falls m workers (queueing []) s = omega arith
  main_step-Falls m workers (queueing (job ∷ jobs)) s = omega arith
  main_step-Falls m workers (notifying jobs) s = tt
  main_step-Falls m workers (clearing result jobs) s =
      if-OnSome (Falls m workers (clearing result jobs)) (empty m.results)
        (some (m, if result == 0 then queueing jobs else stopping (some result) jobs))
        (take_result m (λ next. clearing next jobs) result)
        (λ e.
          place-OnSome (Falls m workers (clearing result jobs)) (result == 0) m (queueing jobs)
            (stopping (some result) jobs) (λ z. omega arith) (λ z. omega arith))
        (λ e.
          take-Lower m workers (clearing result jobs) (λ next. clearing next jobs) result s e
            λ next. refl)
  main_step-Falls m [] (stopping error jobs) s = omega arith
  main_step-Falls m (pc ∷ workers) (stopping error jobs) s =
      omega (arith, finish-tally m.finished (pc ∷ workers))
  main_step-Falls m workers (waking_all error jobs) s = tt
  main_step-Falls m workers (joining error jobs) s =
      if-OnSome (Falls m workers (joining error jobs)) (all_stopped workers)
        (some (m, draining error 0 jobs)) none (λ e. omega arith) (λ e. tt)
  main_step-Falls m workers (draining error result jobs) s =
      if-OnSome (Falls m workers (draining error result jobs)) (empty m.results)
        (some (m, returned (return_value error result) jobs))
        (take_result m (λ next. draining error next jobs) result) (λ e. omega arith)
        (λ e.
          take-Lower m workers (draining error result jobs) (λ next. draining error next jobs)
            result s e λ next. refl)
  main_step-Falls m workers (returned value jobs) s = tt

  -- one worker goes from `pc` to `pc'`
  pub worker-Falls :
      (m m' : Shared Job Out) (before behind : List (Pc Job)) (pc pc' : Pc Job) (place : Main Job)
      → Lower m pc m' pc'
      → measure_at m' (before ++ (pc' ∷ behind)) place
        < measure_at m (before ++ (pc ∷ behind)) place
  unfolding measure_at
  worker-Falls m m' before behind pc pc' place (same, low) =
      let fell : queued m' + weight m.finished pc' < queued m + weight m.finished pc =
        subst (λ f. queued m' + weight f pc' < queued m + weight m.finished pc) same low in
      subst
        (λ f.
          18 * Common.length (left place)
            + rank (Common.length (before ++ (pc' ∷ behind))) place
            + queued m'
            + tally (weight f) (before ++ (pc' ∷ behind))
          < measure_at m (before ++ (pc ∷ behind)) place)
        (sym same)
        (rw (same_length before behind pc pc') (
          omega (
            arith,
            tally-middle (weight m.finished) before behind pc,
            tally-middle (weight m.finished) before behind pc',
          )))

  -- A worker that sleeps is woken, by a notification or not.
  pub waking-Rises :
      (m : Shared Job Out) (before behind : List (Pc Job)) (place : Main Job)
      → measure_at m (before ++ (waking ∷ behind)) place
        ≤ 6 + measure_at m (before ++ (sleeping ∷ behind)) place
  unfolding measure_at
  waking-Rises m before behind place = rw (same_length before behind sleeping waking) (
      omega (
        arith,
        tally-middle (weight m.finished) before behind sleeping,
        tally-middle (weight m.finished) before behind waking,
        waking-weight Job m.finished,
      ))

  pub waking-Falls :
      (m : Shared Job Out) (before behind : List (Pc Job)) (place : Main Job)
      → m.finished ≡ true
      → measure_at m (before ++ (waking ∷ behind)) place
        < measure_at m (before ++ (sleeping ∷ behind)) place
  unfolding measure_at weight
  waking-Falls m before behind place finished = rw (same_length before behind sleeping waking) (
      rw finished (
        omega (
          arith,
          tally-middle (weight true) before behind sleeping,
          tally-middle (weight true) before behind waking,
        )))

  pub notified-Falls :
      (m : Shared Job Out) (workers : List (Pc Job)) (jobs : List Job)
      → measure_at m workers (clearing 0 jobs) + 7 ≤ measure_at m workers (notifying jobs)
  unfolding measure_at rank
  notified-Falls m workers jobs = omega arith

  pub woken-Falls :
      (m : Shared Job Out) (workers : List (Pc Job)) (error : Option ℕ) (jobs : List Job)
      → m.finished ≡ true
      → measure_at m (map wake workers) (joining error jobs)
        < measure_at m workers (waking_all error jobs)
  unfolding measure_at rank
  woken-Falls m workers error jobs finished =
      rw finished (omega (arith, wake-tally workers, length-map wake workers))

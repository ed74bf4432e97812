-- ===== src/ThreadPool/Tests.antt =====
-- A pool of one worker that appends numbers to a list.
use pcat.Common.{
  ℕ, ◌+◌, ◌*◌, ◌≤◌, ◌≡◌, ◌⊎◌, refl, List, [], ◌∷◌, ◌++◌, Result, ok, arith, ◌==◌, if◌then◌else◌,
}
use pcat.ThreadedQueue.{push, pop, empty}
use pcat.ThreadPool.{
  returned, worker_step, main_step, take_job, run_job, take_result, all_stopped, is_stopped, wake,
  return_value,
}
use pcat.ThreadPool.Relation.{Pool, new_pool, Reach, here}
use pcat.ThreadPool.Safe.{Safe, Reach-Safe}
use pcat.ThreadPool.Schedule.{one_job, walk, walk-Reach, turn, cut}
use pcat.ThreadPool.Finish.{Done, new_pool-Done}
use pcat.ThreadPool.Bound.{steps, wake_ups, steps-new_pool}
use pcat.ThreadPool.Lost.{new_pool-unprompted, new_pool_nobody}
use pcat.ThreadPool.Relation.{Step}
use pcat.ThreadPool.{joining}
use pcat.Common.{none}
use pcat.ThreadPool.Bound.{unprompted}
use pcat.ThreadPool.Enabled.{IsTotal}
use pcat.ThreadPool.Nearer.{Goes}
use pcat.ThreadPool.Progress.{Returns, new_pool-Goes, new_pool-Returns}

-- The job appends itself; 5 fails with its own number.
abbrev append_job : ℕ → List ℕ → Result (List ℕ × ℕ)
append_job job out = ok (out ++ (job ∷ []), if job == 5 then 5 else 0)

append_job-IsTotal : IsTotal 0 append_job
append_job-IsTotal job out = (out ++ (job ∷ []), if job == 5 then 5 else 0, refl)

-- two jobs, the first of which fails: the second is not queued
abbrev failing : Pool ℕ (List ℕ)
failing = new_pool 1 (5 ∷ 6 ∷ []) []

abbrev failed : Pool ℕ (List ℕ)
failed = walk 0 append_job one_job failing

failed-Reach : Reach 0 append_job failing failed
failed-Reach = walk-Reach 0 append_job one_job failing failing here

failed_value : failed.main ≡ returned 5 (6 ∷ [])
unfolding walk new_pool turn cut worker_step empty main_step push take_job pop run_job take_result
    all_stopped is_stopped wake return_value
failed_value = refl

new_pool-Done_example : Done 0 append_job (5 ∷ 6 ∷ []) [] failed.shared.out 5 (6 ∷ [])
new_pool-Done_example =
    new_pool-Done 0 append_job 1 (5 ∷ 6 ∷ []) [] failed 5 (6 ∷ []) (omega arith) failed-Reach
      failed_value

Reach-Safe_example : Safe failed.shared failed.workers failed.main
Reach-Safe_example = Reach-Safe 0 append_job 1 (5 ∷ 6 ∷ []) [] failed (omega arith) failed-Reach

steps-new_pool_example :
    steps 0 append_job failed-Reach ≤ 18 * 2 + 13 * 1 + 6 + 7 * wake_ups 0 append_job failed-Reach
steps-new_pool_example =
    steps-new_pool 0 append_job 1 (5 ∷ 6 ∷ []) [] failed (omega arith) failed-Reach

new_pool-Goes_example :
    ((value : ℕ) × (rest : List ℕ) × (failed.main ≡ returned value rest)) ⊎ Goes 0 append_job failed
new_pool-Goes_example =
    new_pool-Goes 0 append_job append_job-IsTotal 1 (5 ∷ 6 ∷ []) [] failed (omega arith)
      failed-Reach

new_pool-Returns_example : Returns 0 append_job failed
new_pool-Returns_example =
    new_pool-Returns 0 append_job append_job-IsTotal 1 (5 ∷ 6 ∷ []) [] failed (omega arith)
      failed-Reach

new_pool-unprompted_example :
    (s : Pool ℕ (List ℕ)) × Reach 0 append_job (new_pool 1 (5 ∷ 6 ∷ []) []) s
    × (s.main ≡ joining none [])
    × (s.shared.work.queue ≡ 5 ∷ 6 ∷ [])
    × (s.shared.ran ≡ [])
    × ((t : Pool ℕ (List ℕ)) (step : Step 0 append_job s t) → unprompted 0 append_job step ≡ 1)
new_pool-unprompted_example = new_pool-unprompted 0 append_job (5 ∷ 6 ∷ []) []

new_pool_nobody_example :
    (s : Pool ℕ (List ℕ)) × Reach 0 append_job (new_pool 0 (5 ∷ 6 ∷ []) []) s
    × (s.main ≡ returned 0 [])
    × (s.shared.ran ≡ [])
    × (s.shared.out ≡ [])
new_pool_nobody_example = new_pool_nobody 0 append_job (5 ∷ 6 ∷ []) []

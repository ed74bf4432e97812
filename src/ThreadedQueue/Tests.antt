-- ===== src/ThreadedQueue/Tests.antt =====
-- Two threads that use one queue of numbers.
use pcat.Common.{ℕ, ◌≡◌, ◌++◌, refl, List, [], ◌∷◌, ok}
use pcat.ThreadedQueue.{ThreadedQueue, Operation, pushes, pops, push, pop, run}
use pcat.ThreadedQueue.Order.{IsCounted, pushed, run-Ordered}

-- A pop that waits, two pushes and a pop.
abbrev traffic : List (Operation ℕ)
traffic = pops ∷ pushes 4 ∷ pushes 5 ∷ pops ∷ []

run_traffic :
    run traffic (record { queue = []; queue_length = 0 })
    ≡ ok (record { queue = 5 ∷ []; queue_length = 1 }, 4 ∷ [])
unfolding run push pop
run_traffic = refl

run-Ordered_example :
    (q' : ThreadedQueue ℕ) × (values : List ℕ) × (run traffic
        (record { queue = 3 ∷ []; queue_length = 1 })
      ≡ ok (q', values))
    × IsCounted q'
    × (values ++ q'.queue ≡ (3 ∷ []) ++ pushed traffic)
run-Ordered_example = run-Ordered traffic (3 ∷ []) 1 refl

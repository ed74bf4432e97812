-- ===== src/ThreadedQueue.antt =====
-- src/threadedQueue.hxx. Every operation holds the mutex from its start to its end, so a run of several
-- threads is a sequence of operations. A `pop` of an empty queue waits, and changes nothing: where it
-- goes on, it is an operation of its own.
pub mod Order
mod Tests
use pcat.Common.{
  ℕ, ◌+◌, ◌-◌, ◌==◌, if◌then◌else◌, List, [], ◌∷◌, ◌++◌, Bool, Option, none, some, Result, ok, err,
  bad_access, ◌>>=◌,
}

-- threadedQueue_t
pub record ThreadedQueue {ℓ} (A : Type ℓ) : Type ℓ where
  pub queue : List A
  pub queue_length : ℕ

-- an operation of some thread
pub data Operation {ℓ} (A : Type ℓ) : Type ℓ where
  pushes : A → Operation A
  pops : Operation A

module _ {ℓ} {A : Type ℓ} where
  -- `push`, also `emplace`
  unfoldable pub push : ThreadedQueue A → A → ThreadedQueue A
  push q value = record { queue = q.queue ++ (value ∷ []); queue_length = q.queue_length + 1 }

  -- `pop`, with `none` where it waits; `front()` of an empty `std::queue` is not defined.
  unfoldable pub pop : ThreadedQueue A → Result (Option (A × ThreadedQueue A))
  pop q = if q.queue_length == 0 then ok none else elim q.queue [
    | [] ↦ err bad_access
    | front ∷ rest ↦ ok (some (front, record { queue = rest; queue_length = q.queue_length - 1 }))
  ]

  unfoldable pub empty : ThreadedQueue A → Bool
  empty q = q.queue_length == 0

  unfoldable pub size : ThreadedQueue A → ℕ
  size q = q.queue_length

  -- a value before those that are popped later
  abbrev pub popped :
      (ThreadedQueue A → Result (ThreadedQueue A × List A))
      → ThreadedQueue A
      → Option (A × ThreadedQueue A)
      → Result (ThreadedQueue A × List A)
  popped rest q none = rest q
  popped rest q (some (front, q')) = do (last, values) ← rest q'; ok (last, front ∷ values)

  -- the queue that a sequence of operations leaves, and the values that its pops give
  unfoldable pub run : List (Operation A) → ThreadedQueue A → Result (ThreadedQueue A × List A)
  run [] q = ok (q, [])
  run (pushes value ∷ rest) q = run rest (push q value)
  run (pops ∷ rest) q = do result ← pop q; popped (run rest) q result

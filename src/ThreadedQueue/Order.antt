-- ===== src/ThreadedQueue/Order.antt =====
-- The queue is first in, first out.
use pcat.Common.{
  ℕ, ◌+◌, ◌-◌, ◌<◌, ◌≡◌, ◌==◌, ◌∙◌, ap, refl, sym, if◌then◌else◌, List, [], ◌∷◌, ◌++◌, append-nil,
  append_assoc, length-append, Option, none, some, Result, ok, arith, ◌>>=◌, true, false,
}
use pcat.Common
use pcat.ThreadedQueue.{ThreadedQueue, Operation, pushes, pops, push, pop, run}

module _ {ℓ} {A : Type ℓ} where
  -- The count is the number of the values.
  abbrev pub IsCounted : ThreadedQueue A → Type 0
  IsCounted q = q.queue_length ≡ Common.length q.queue

  -- the values that the operations push, in their order
  unfoldable pub pushed : List (Operation A) → List A
  pushed [] = []
  pushed (pushes value ∷ rest) = value ∷ pushed rest
  pushed (pops ∷ rest) = pushed rest

  abbrev pub Ordered : List (Operation A) → ThreadedQueue A → Type ℓ
  Ordered ops q =
      (q' : ThreadedQueue A) × (values : List A) × (run ops q ≡ ok (q', values))
      × IsCounted q'
      × (values ++ q'.queue ≡ q.queue ++ pushed ops)

  pub push-IsCounted : (q : ThreadedQueue A) (value : A) → IsCounted q → IsCounted (push q value)
  unfolding push
  push-IsCounted q value h = omega (arith, length-append q.queue (value ∷ []))

  Ordered-push :
      (rest : List (Operation A)) (q : ThreadedQueue A) (value : A)
      → Ordered rest (push q value)
      → Ordered (pushes value ∷ rest) q
  unfolding run push pushed
  Ordered-push rest q value (q', values, e, counted, order) =
      (q', values, e, counted, order ∙ append_assoc q.queue (value ∷ []) (pushed rest))

  Ordered-wait :
      (rest : List (Operation A))
      → Ordered rest (record { queue = []; queue_length = 0 })
      → Ordered (pops ∷ rest) (record { queue = []; queue_length = 0 })
  unfolding run pop pushed
  Ordered-wait rest (q', values, e, counted, order) = (q', values, e, counted, order)

  Ordered-pop :
      (rest : List (Operation A)) (front : A) (behind : List A) (n : ℕ)
      → 0 < n
      → Ordered rest (record { queue = behind; queue_length = n - 1 })
      → Ordered (pops ∷ rest) (record { queue = front ∷ behind; queue_length = n })
  unfolding run pop pushed
  Ordered-pop rest front behind n pos (q', values, e, counted, order) =
      let full : (n == 0) ≡ false = ground arith in
      (q', front ∷ values, rw (full, e) refl, counted, ap (◌∷◌ front) order)

  pushed-Ordered :
      (queue : List A) (n : ℕ) (value : A) (rest : List (Operation A))
      → n ≡ Common.length queue
      → Ordered rest (record { queue = queue ++ (value ∷ []); queue_length = n + 1 })
      → Ordered rest (push (record { queue = queue; queue_length = n }) value)
  unfolding push
  pushed-Ordered queue n value rest h ordered = ordered

  Ordered-end :
      (queue : List A) (n : ℕ)
      → n ≡ Common.length queue
      → Ordered [] (record { queue = queue; queue_length = n })
  unfolding run pushed
  Ordered-end queue n h =
      (record { queue = queue; queue_length = n }, [], refl, h, sym (append-nil queue))

  -- Operations on a queue whose count is right, in any sequence: none of them fails, the count stays
  -- right, and the values popped, followed by those left, are the values that were there, followed by
  -- those pushed, in their order.
  pub run-Ordered :
      (ops : List (Operation A)) (queue : List A) (n : ℕ)
      → n ≡ Common.length queue
      → Ordered ops (record { queue = queue; queue_length = n })
  run-Ordered [] queue n h = Ordered-end queue n h
  run-Ordered (pushes value ∷ rest) queue n h =
      Ordered-push rest (record { queue = queue; queue_length = n }) value
        (pushed-Ordered queue n value rest h (
          run-Ordered rest (queue ++ (value ∷ [])) (n + 1)
            (omega (arith, length-append queue (value ∷ [])))))
  run-Ordered (pops ∷ rest) [] n h = rw h (Ordered-wait rest (run-Ordered rest [] 0 refl))
  run-Ordered (pops ∷ rest) (front ∷ behind) n h =
      Ordered-pop rest front behind n (omega arith) (run-Ordered rest behind (n - 1) (omega arith))

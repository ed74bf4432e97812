-- ===== src/Affinity/Threads.antt =====
-- Every worker thread has a processor.
use pcat.Common.{
  ℕ, zero, suc, ◌+◌, ◌%◌, ◌^◌, ap, ◌∙◌, ◌≤◌, ◌<◌, ◌≡◌, ◌==◌, refl, if◌then◌else◌, List, [], ◌∷◌,
  Bool, true, false, Option, some, get_elem?, arith, All, Bool-cases, inl, inr,
}
use pcat.Common
use pcat.Affinity.{before, pin_to, next_index, indices_from, indices, index_sequence}

get_elem?-some : (xs : List ℕ) (i : ℕ) → i < Common.length xs → (x : ℕ) × (get_elem? xs i ≡ some x)
get_elem?-some [] i h = absurd (omega arith)
get_elem?-some (x ∷ xs) zero h = (x, refl)
get_elem?-some (x ∷ xs) (suc i) h = get_elem?-some xs i (omega arith)

module _ (processors : List ℕ) where
  -- The thread of that index is pinned to a processor.
  abbrev pub IsPinned : ℕ → Type 0
  IsPinned i = (processor : ℕ) × (pin_to processors i ≡ some processor)

  -- The loop has been given the indices of the last `n` threads, from `begin` on, in their order.
  record Counted (n begin : ℕ) (is : List ℕ) : Type 0 where
    pub pins : All IsPinned is
    pub count : Common.length is ≡ n
    pub each : (i : ℕ) → i < n → get_elem? is i ≡ some (begin + i)

  count_on :
      (n begin : ℕ) (is : List ℕ)
      → IsPinned begin
      → Counted n (begin + 1) is
      → Counted (suc n) begin (begin ∷ is)
  count_on n begin is pin c = record {
    pins = (pin, c.pins);
    count = omega (arith, c.count);
    each = each_on;
  }
    where
      each_on : (i : ℕ) → i < suc n → get_elem? (begin ∷ is) i ≡ some (begin + i)
      each_on zero h = ap some (omega arith)
      each_on (suc i) h = c.each i (omega arith) ∙ ap some (omega arith)

  indices_from-Counted :
      (fuel n begin : ℕ)
      → n < fuel
      → begin + n ≡ Common.length processors
      → Common.length processors < 2 ^ 64
      → (is : List ℕ) × (indices_from fuel begin (Common.length processors) ≡ some is)
        × Counted n begin is
  unfolding indices_from pin_to next_index before
  indices_from-Counted zero n begin low h small = absurd (omega arith)
  indices_from-Counted (suc fuel) zero begin low h small =
      let done : (begin == Common.length processors) ≡ true = ground arith in
      ([], rw done refl, record { pins = tt; count = refl; each = λ i none. absurd (omega arith) })
  indices_from-Counted (suc fuel) (suc n) begin low h small =
      let (is, run, c) =
        indices_from-Counted fuel n (begin + 1) (omega arith) (omega arith) small in
      let more : (begin == Common.length processors) ≡ false = ground arith in
      let next : (begin + 1) % 2 ^ 64 ≡ begin + 1 = omega arith in
      (
        begin ∷ is,
        rw (more, next, run) refl,
        count_on n begin is (get_elem?-some processors begin (omega arith)) c,
      )

  -- With less than 2^64 processors, the loop over the indices of the threads ends, within any fuel
  -- above the number of the processors: it is given the numbers below it, one for each processor,
  -- in their order, and the pool pins each of these threads without an exception.
  pub index_sequence-IsPinned :
      (fuel : ℕ)
      → Common.length processors < fuel
      → Common.length processors < 2 ^ 64
      → (is : List ℕ) × (indices fuel (index_sequence processors) ≡ some is)
        × All IsPinned is
        × (Common.length is ≡ Common.length processors)
        × ((i : ℕ) → i < Common.length processors → get_elem? is i ≡ some i)
  unfolding indices index_sequence
  index_sequence-IsPinned fuel low small =
      let (is, run, c) =
        indices_from-Counted fuel (Common.length processors) 0 low (omega arith) small in
      (is, run, c.pins, c.count, λ i h. c.each i h ∙ ap some (omega arith))

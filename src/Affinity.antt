-- ===== src/Affinity.antt =====
-- src/linux/affinity.hxx: the processors that the worker threads are pinned to, and
-- src/indexSequence.hxx, the indices of the threads. What `sched_getaffinity` answers is a parameter.
pub mod Choice
pub mod Threads
pub mod Windows
mod Tests
use pcat.Common.{
  ℕ, zero, suc, ◌+◌, ◌-◌, ◌%◌, ◌^◌, ◌==◌, ◌&&◌, ◌||◌, not, ltb, if◌then◌else◌, List, [], ◌∷◌, ◌++◌,
  Bool, true, false, Option, none, some, get_elem?,
}
use pcat.Common

-- `CPU_COUNT(&affinity) == 0`, for the bits that are not cleared yet
unfoldable pub is_empty_set : List Bool → Bool
is_empty_set [] = true
is_empty_set (true ∷ bits) = false
is_empty_set (false ∷ bits) = is_empty_set bits

-- `std::find(pinning->begin(), pinning->end(), i) != pinning->end()`
unfoldable pub is_member : ℕ → List ℕ → Bool
is_member i [] = false
is_member i (core ∷ cores) = if core == i then true else is_member i cores

-- `!pinning || ...`
unfoldable pub is_pinned : Option (List ℕ) → ℕ → Bool
is_pinned none i = true
is_pinned (some cores) i = is_member i cores

-- `!threadCount || processors.size() < threadCount->threads()`
unfoldable pub has_room : {A : Type 0} → Option ℕ → List A → Bool
has_room none processors = true
has_room (some threads) processors = ltb (Common.length processors) threads

module _ (threads : Option ℕ) (pinning : Option (List ℕ)) where
  -- The loop of the constructor at the processor `i`. The list has the bits of `affinity` from `i` to
  -- CPU_SETSIZE; the loop has cleared those in front of them.
  unfoldable pub choose : ℕ → List Bool → List ℕ → List ℕ
  choose i [] processors = processors
  choose i (true ∷ bits) processors = choose (i + 1) bits (
      if has_room threads processors && is_pinned pinning i
      then processors ++ (i ∷ [])
      else processors)
  choose i (false ∷ bits) processors =
      let others = choose (i + 1) bits processors in
      if is_empty_set bits then processors else others

  -- the constructor of affinity_t, for the bits that the system answers
  unfoldable pub make_affinity : List Bool → List ℕ
  make_affinity bits = choose 0 bits []

-- `pinTo`: the processor of a thread's index; `none` is the exception.
unfoldable pub pin_to : List ℕ → ℕ → Option ℕ
pin_to processors index = get_elem? processors index

-- indexSequence_t
pub record IndexSequence : Type 0 where
  pub begin_ : ℕ
  pub end_ : ℕ

-- `operator ++` of indexIterator_t, on a `std::size_t`
unfoldable pub next_index : ℕ → ℕ
next_index index = (index + 1) % 2 ^ 64

-- an index, before those of the rest of the loop
unfoldable pub before : ℕ → Option (List ℕ) → Option (List ℕ)
before index none = none
before index (some others) = some (index ∷ others)

-- The range-based `for` from the index `begin` on, up to an iterator that is equal to `end`: the indices
-- that its body is given. `none` is a loop that has not come to its end within the fuel.
unfoldable pub indices_from : ℕ → ℕ → ℕ → Option (List ℕ)
indices_from zero begin end = none
indices_from (suc fuel) begin end =
    let others = indices_from fuel (next_index begin) end in
    if begin == end then some [] else before begin others

unfoldable pub indices : ℕ → IndexSequence → Option (List ℕ)
indices fuel sequence = indices_from fuel sequence.begin_ sequence.end_

-- `indexSequence()`, one index for each processor
unfoldable pub index_sequence : List ℕ → IndexSequence
index_sequence processors = record { begin_ = 0; end_ = Common.length processors }

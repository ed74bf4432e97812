-- ===== src/Utils.antt =====
-- src/utils/span.hxx and src/utils/iterator.hxx: a view of an array, as the range-based `for` of
-- parseArgument walks it. A pointer is an index into the array that it points into.
pub mod Each
mod Tests
use pcat.Common.{
  ℕ, zero, suc, ◌+◌, ◌-◌, ◌^◌, ◌==◌, not, ltb, if◌then◌else◌, List, [], ◌∷◌, Bool, Option, none,
  some, Result, ok, err, out_of_fuel, bad_access, ◌>>=◌, get_elem?,
}
use pcat.Common

-- normalIterator_t over a pointer
pub record NormalIterator : Type 0 where
  pub current : ℕ

-- span_t of dynamic extent
pub record Span {ℓ} (A : Type ℓ) : Type ℓ where
  pub array : List A
  pub ptr_ : ℕ
  pub extent_ : ℕ

-- `operator ++`
unfoldable pub increment : NormalIterator → NormalIterator
increment iter = record { current = iter.current + 1 }

unfoldable pub base : NormalIterator → ℕ
base iter = iter.current

-- `operator ==` and `operator !=`
unfoldable pub is_same : NormalIterator → NormalIterator → Bool
is_same lhs rhs = base lhs == base rhs

unfoldable pub differs : NormalIterator → NormalIterator → Bool
differs lhs rhs = not (is_same lhs rhs)

module _ {ℓ} {A : Type ℓ} where
  -- The constructors from a pointer and a count, from two pointers, and from an array. The difference of
  -- the pointers becomes a `size_t`.
  unfoldable pub of_count : List A → ℕ → ℕ → Span A
  of_count array ptr count = record { array = array; ptr_ = ptr; extent_ = count }

  unfoldable pub of_range : List A → ℕ → ℕ → Span A
  of_range array first last =
      of_count array first (if ltb last first then 2 ^ 64 + last - first else last - first)

  unfoldable pub of_array : List A → Span A
  of_array array = of_count array 0 (Common.length array)

  unfoldable pub size : Span A → ℕ
  size span = span.extent_

  unfoldable pub is_empty : Span A → Bool
  is_empty span = size span == 0

  unfoldable pub begin : Span A → NormalIterator
  begin span = record { current = span.ptr_ }

  unfoldable pub end : Span A → NormalIterator
  end span = record { current = span.ptr_ + size span }

  -- `operator *`; a pointer past the array points at nothing.
  unfoldable pub dereference : Span A → NormalIterator → Option A
  dereference span iter = get_elem? span.array iter.current

  -- `for (auto &value : span)`, from an iterator on: the values that its body is given
  unfoldable pub each_from : ℕ → Span A → NormalIterator → Result (List A)
  each_from zero span iter = err out_of_fuel
  each_from (suc fuel) span iter =
      let others = each_from fuel span (increment iter) in
      if differs iter (end span)
      then elim (dereference span iter) [
        | none ↦ err bad_access
        | some value ↦ (do values ← others; ok (value ∷ values))
      ]
      else ok []

  -- one round more than there are values
  unfoldable pub each : Span A → Result (List A)
  each span = each_from (suc (size span)) span (begin span)

-- ===== src/Utils/Each.antt =====
-- The loop over a span.
use pcat.Common.{
  ℕ, zero, suc, ◌+◌, ◌-◌, ◌≤◌, ◌<◌, ◌≡◌, ◌==◌, not, refl, ap, sym, ◌∙◌, List, [], ◌∷◌, true, false,
  Option, none, some, Result, ok, ◌>>=◌, arith, ltb, ◌^◌, if◌then◌else◌, take, drop, get_elem?,
}
use pcat.Common
use pcat.Utils.{
  Span, increment, base, is_same, differs, of_range, of_count, of_array, size, begin, end,
  dereference, each_from, each,
}

module _ {A : Type 0} where
  -- a value inside, and those behind it
  drop-get_elem? :
      (n : ℕ) (xs : List A)
      → n < Common.length xs
      → (x : A) × (get_elem? xs n ≡ some x) × (drop n xs ≡ x ∷ drop (suc n) xs)
  drop-get_elem? n [] h = absurd (omega arith)
  drop-get_elem? zero (x ∷ xs) h = (x, refl, refl)
  drop-get_elem? (suc n) (x ∷ xs) h = drop-get_elem? n xs (omega arith)

  take-whole : (xs : List A) → take (Common.length xs) xs ≡ xs
  take-whole [] = refl
  take-whole (x ∷ xs) = ap (◌∷◌ x) (take-whole xs)

  each_from-rest :
      (left : ℕ) (span : Span A) (at : ℕ)
      → at + left ≡ span.ptr_ + span.extent_
      → at + left ≤ Common.length span.array
      → each_from (suc left) span (record { current = at }) ≡ ok (take left (drop at span.array))
  unfolding each_from differs is_same base end size increment dereference
  each_from-rest zero span at e fits =
      let here : (at == (span.ptr_ + span.extent_)) ≡ true = ground arith in rw here refl
  each_from-rest (suc left) span at e fits =
      let before : (at == (span.ptr_ + span.extent_)) ≡ false = ground arith in
      let (x, here, behind) = drop-get_elem? at span.array (omega arith) in
      let next : at + 1 ≡ suc at = omega arith in
      rw (before, here, each_from-rest left span (at + 1) (omega arith) (omega arith), behind)
        (ap (λ n. ok (x ∷ take left (drop n span.array))) next)

  -- The loop over a span that lies in its array ends, and gives its body the values from its first
  -- pointer up to its last, in their order, however the span is made; over a span made of an array, all
  -- values of the array.
  pub each-of_range :
      (array : List A) (first last : ℕ)
      → first ≤ last
      → last ≤ Common.length array
      → (each (of_range array first last) ≡ ok (take (last - first) (drop first array)))
        × (each (of_count array first (last - first)) ≡ ok (take (last - first) (drop first array)))
        × (each (of_array array) ≡ ok array)
  unfolding each of_array of_range of_count size begin
  each-of_range array first last le fits =
      let ordered : ltb last first ≡ false = ground arith in
      let counted =
        each_from-rest (last - first) (of_count array first (last - first)) first (omega arith)
          (omega arith) in
      (
        rw ordered counted,
        counted,
        each_from-rest (Common.length array) (of_count array 0 (Common.length array)) 0
              (omega arith) (omega arith)
            ∙ ap ok (take-whole array),
      )

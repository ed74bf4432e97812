-- ===== src/Utils/Tests.antt =====
-- Spans of four numbers.
use pcat.Common.{ℕ, ◌-◌, ◌≡◌, List, [], ◌∷◌, ok, err, bad_access, refl, take, drop, arith}
use pcat.Utils.{
  increment, base, is_same, differs, of_count, of_range, of_array, size, begin, end, dereference,
  each_from, each,
}
use pcat.Utils.Each.{each-of_range}

abbrev four_numbers : List ℕ
four_numbers = 4 ∷ 5 ∷ 6 ∷ 7 ∷ []

-- a span that reaches past its array
each_past : each (of_count four_numbers 3 2) ≡ err bad_access
unfolding each each_from of_count size begin end dereference increment differs is_same base
each_past = refl

each-of_range_example :
    (each (of_range four_numbers 1 3) ≡ ok (take (3 - 1) (drop 1 four_numbers)))
    × (each (of_count four_numbers 1 (3 - 1)) ≡ ok (take (3 - 1) (drop 1 four_numbers)))
    × (each (of_array four_numbers) ≡ ok four_numbers)
each-of_range_example = each-of_range four_numbers 1 3 (omega arith) (omega arith)

-- ===== src/Mmap/Tests.antt =====
-- A mapping of four bytes at the second byte of a file of eight.
use pcat.Common.{ℕ, ◌+◌, ◌<◌, ◌≤◌, ◌≡◌, ◌⊎◌, List, [], ◌∷◌, some, ok, true, arith, get_elem?, refl}
use pcat.Common
use pcat.Mmap.{Mmap, map_shared, output, copy_to, copy_from, swap}
use pcat.Mmap.Roundtrip.{copy_from-copy_to}

abbrev window : Mmap
window = record {
  target = output;
  position = 1;
  len_ = 4;
  prot = record { readable = true; writable = true };
  sharing = map_shared;
  addr_ = true;
}

abbrev eight_bytes : List ℕ
eight_bytes = 0 ∷ 1 ∷ 2 ∷ 3 ∷ 4 ∷ 5 ∷ 6 ∷ 7 ∷ []

copy_from-copy_to_example :
    (file' : List ℕ) × (copy_to window 2 (8 ∷ 9 ∷ []) 2 eight_bytes ≡ ok (some file'))
    × (copy_from window file' 2 2 ≡ ok (some (8 ∷ 9 ∷ [])))
    × (Common.length file' ≡ 8)
    × ((i : ℕ) → (i < 1 + 2) ⊎ (1 + 2 + 2 ≤ i) → get_elem? file' i ≡ get_elem? eight_bytes i)
copy_from-copy_to_example =
    copy_from-copy_to window 2 (8 ∷ 9 ∷ []) eight_bytes (refl, refl, refl) refl (omega arith)
      (omega arith) (omega arith)

-- Swapping twice leaves both.
swap_twice : (a b : Mmap) → swap (swap (a, b)) ≡ (a, b)
unfolding swap
swap_twice a b = refl

-- ===== src/MappingOffset/Laws.antt =====
-- What the operations of mappingOffset_t do to the position and to the page that it is mapped at.
use pcat.Common.{ℕ, ◌+◌, ◌%◌, ◌≤◌, ◌<◌, ◌≡◌, arith}
use pcat.MappingOffset.{
  MappingOffset, page_size, empty, at_offset, at_block, offset, adjustment, length, adjusted_offset,
  adjusted_length, set_length, add,
}

-- The mapped offset is a multiple of the page size, and the rest is less than a page.
pub record IsPaged (m : MappingOffset) : Type 0 where
  pub aligned : m.offset_ % page_size ≡ 0
  pub rest : m.adjust_ < page_size

pub offset-at_block : (o l : ℕ) → offset (at_block o l) ≡ o
unfolding offset at_block
offset-at_block o l = omega arith

pub length-at_block : (o l : ℕ) → length (at_block o l) ≡ l
unfolding length at_block
length-at_block o l = omega arith

pub offset-at_offset : (o : ℕ) → offset (at_offset o) ≡ o
unfolding offset at_offset
offset-at_offset o = omega arith

pub length-at_offset : (o : ℕ) → length (at_offset o) ≡ 0
unfolding length at_offset
length-at_offset o = omega arith

pub offset-set_length : (m : MappingOffset) (l : ℕ) → offset (set_length m l) ≡ offset m
unfolding offset set_length
offset-set_length m l = omega arith

pub length-set_length : (m : MappingOffset) (l : ℕ) → length (set_length m l) ≡ l
unfolding length set_length
length-set_length m l = omega arith

pub offset-add : (m : MappingOffset) (n : ℕ) → offset (add m n) ≡ offset m + n
unfolding offset add
offset-add m n = omega arith

pub length-add : (m : MappingOffset) (n : ℕ) → length (add m n) ≡ length m
unfolding length add
length-add m n = omega arith

pub offset-empty : offset empty ≡ 0
unfolding offset
offset-empty = omega arith

pub length-empty : length empty ≡ 0
unfolding length
length-empty = omega arith

pub empty-IsPaged : IsPaged empty
empty-IsPaged = omega arith

pub at_block-IsPaged : (o l : ℕ) → IsPaged (at_block o l)
unfolding at_block
at_block-IsPaged o l = omega arith

pub at_offset-IsPaged : (o : ℕ) → IsPaged (at_offset o)
unfolding at_offset
at_offset-IsPaged o = omega arith

pub set_length-IsPaged : {m : MappingOffset} (l : ℕ) → IsPaged m → IsPaged (set_length m l)
unfolding set_length
set_length-IsPaged l h = omega arith

pub add-IsPaged : (m : MappingOffset) (n : ℕ) → IsPaged (add m n)
unfolding add
add-IsPaged m n = omega arith

pub ruleset offsets = (
  arith, offset-at_block, length-at_block, offset-at_offset, length-at_offset, offset-set_length,
  length-set_length, offset-add, length-add, offset-empty, length-empty,
)

-- Moving a position by `n`, then giving it the length `l`, moves it by exactly `n`, and maps it
-- from a multiple of the page size on, less than a page in front of it, up to where the block
-- ends.
pub add-maps_block :
    (m : MappingOffset) (n l : ℕ)
    → let m' = set_length (add m n) l in
      (offset m' ≡ offset m + n)
      × (length m' ≡ l)
      × (adjusted_offset m' % page_size ≡ 0)
      × (adjustment m' < page_size)
      × (adjusted_offset m' + adjustment m' ≡ offset m')
      × (adjusted_offset m' + adjusted_length m' ≡ offset m' + l)
unfolding offset length adjusted_offset adjusted_length adjustment set_length add
add-maps_block m n l =
    (omega arith, omega arith, omega arith, omega arith, omega arith, omega arith)

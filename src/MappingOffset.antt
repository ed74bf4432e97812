-- ===== src/MappingOffset.antt =====
-- src/mappingOffset.hxx and the sizes of src/chunking.hxx: a file position, split into a multiple of
-- the page size and the rest, with the length of the block that starts there. All values are
-- non-negative `off_t`.
pub mod Laws
mod Tests
use pcat.Common.{ℕ, ◌+◌, ◌-◌, ◌%◌, ◌*◌, min}

-- 4_KiB, the value on every platform but Windows
abbrev pub page_size : ℕ
page_size = 4096

-- 1_MiB
abbrev pub transfer_block_size : ℕ
transfer_block_size = 1048576

unfoldable pub block_length : ℕ → ℕ
block_length length = min transfer_block_size length

pub record MappingOffset : Type 0 where
  pub offset_ : ℕ
  pub adjust_ : ℕ
  pub length_ : ℕ

unfoldable pub recalc_adjustment : MappingOffset → MappingOffset
recalc_adjustment m = record m {
  adjust_ = m.offset_ % page_size;
  offset_ = m.offset_ - m.offset_ % page_size;
}

-- `mappingOffset_t{}`, the default constructor
abbrev pub empty : MappingOffset
empty = record { offset_ = 0; adjust_ = 0; length_ = 0 }

-- the constructors from an offset, and from an offset and a length
unfoldable pub at_offset : ℕ → MappingOffset
unfolding recalc_adjustment
at_offset offset = recalc_adjustment (record { offset_ = offset; adjust_ = 0; length_ = 0 })

unfoldable pub at_block : ℕ → ℕ → MappingOffset
unfolding recalc_adjustment
at_block offset length =
    recalc_adjustment (record { offset_ = offset; adjust_ = 0; length_ = length })

-- `offset()`, also the conversion to `off_t`
unfoldable pub offset : MappingOffset → ℕ
offset m = m.offset_ + m.adjust_

unfoldable pub adjustment : MappingOffset → ℕ
adjustment m = m.adjust_

unfoldable pub length : MappingOffset → ℕ
length m = m.length_

unfoldable pub adjusted_offset : MappingOffset → ℕ
adjusted_offset m = m.offset_

unfoldable pub adjusted_length : MappingOffset → ℕ
adjusted_length m = m.length_ + m.adjust_

-- `length(off_t)`, the setter
unfoldable pub set_length : MappingOffset → ℕ → MappingOffset
set_length m length = record m { length_ = length }

-- `operator +=`
unfoldable pub add : MappingOffset → ℕ → MappingOffset
unfolding recalc_adjustment
add m amount = recalc_adjustment (record m { offset_ = m.offset_ + (amount + m.adjust_) })

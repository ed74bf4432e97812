-- ===== src/ChunkSpans/Known.antt =====
-- What holds of the blocks of chunkSpans besides `IsSync`, for input files whose lengths, the last
-- one's aside, are multiples of `transferBlockSize`. The length rule of this chunkState_t does not
-- look at the place in the file: without that condition it may leave the file.
use pcat.Common.{
  ℕ, zero, suc, ◌+◌, ◌-◌, ◌%◌, ◌≤◌, ◌<◌, ◌≡◌, ◌⊎◌, inl, inr, List, [], ◌∷◌, sum, ok, arith, dec_lt,
  get_elem?, none, some,
}
use pcat.Common
use pcat.MappingOffset.{transfer_block_size, length, offset}
use pcat.InputFiles.{IsPositive, start, start-end, length_at_next, before_end}
use pcat.ChunkState.{ChunkState}
use pcat.ChunkState.Walk.{IsSync, IsBlockRule}
use pcat.ChunkState.End.{IsKept}
use pcat.ChunkSpans.{block_rule}

-- Every file but the last is a whole number of blocks.
abbrev pub IsAligned : List ℕ → Type 0
IsAligned [] = Unit
IsAligned (l ∷ []) = Unit
IsAligned (l ∷ m ∷ files) = (l % transfer_block_size ≡ 0) × IsAligned (m ∷ files)

pub start-aligned :
    (files : List ℕ) (i : ℕ)
    → IsAligned files
    → i < Common.length files
    → start files i % transfer_block_size ≡ 0
start-aligned [] i a h = elim h [ ]
start-aligned (l ∷ files) zero a h = omega arith
start-aligned (l ∷ []) (suc i) a h = absurd (omega arith)
start-aligned (l ∷ m ∷ files) (suc i) a h =
    omega (arith, start-aligned (m ∷ files) i a.1 (omega arith), a.0)

block_rule-IsBlockRule : IsBlockRule block_rule
unfolding block_rule
block_rule-IsBlockRule = record {
  within_remainder = λ r l. omega arith;
  within_length = λ r l. omega arith;
  progress = λ r l p q. omega arith;
}

abbrev pub Known : ChunkState → Type 0
Known s =
    (length s.input_offset ≡ length s.output_offset)
    ⊎ ((offset s.input_offset % transfer_block_size ≡ 0)
        × ((offset s.input_offset + length s.input_offset ≡ s.input_length)
            ⊎ (length s.input_offset ≡ transfer_block_size)))

module _ (files : List ℕ) (positive : IsPositive files) (aligned : IsAligned files) where
  -- A file ends at a block, or with the input.
  pub file_end :
      (s : ChunkState)
      → IsSync files s
      → s.file < Common.length files
      → (s.input_length % transfer_block_size ≡ 0)
        ⊎ (start files s.file + s.input_length ≡ sum files)
  file_end s v before =
      let next = length_at_next files s.file s.input_length before positive v.current in
      elim (dec_lt (s.file + 1) (Common.length files)) [
        | yes inner ↦ inl (
            omega (
              arith,
              start-aligned files s.file aligned before,
              start-aligned files (s.file + 1) aligned inner,
            ))
        | no outer ↦
            let last : s.file + 1 ≡ Common.length files = omega arith in
            let whole : start files (s.file + 1) ≡ sum files = rw last (start-end files) in
            inr (omega arith)
      ]

  pub Known-IsKept : IsKept files block_rule Known
  unfolding block_rule
  Known-IsKept = record {
    law = block_rule-IsBlockRule;
    room = λ s v p k h.
        let before = before_end files s.file s.input_length v.file_le v.current (omega arith) in
        ground (arith, file_end s v before, v.place, v.bounded, v.fits);
    keep = λ s s' v p k st.
        ground (arith, st.length_in, st.length_out, st.moved, st.sync.inside, v.fits, v.live);
  }

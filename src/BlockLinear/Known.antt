-- ===== src/BlockLinear/Known.antt =====
-- What holds of the blocks of blockLinear besides `IsSync`: an input block that does not fill the
-- output block ends its file. So the length rule of its chunkState_t never leaves the file.
use pcat.Common.{ℕ, ◌+◌, ◌≡◌, ◌⊎◌, List, arith}
use pcat.MappingOffset.{length, offset}
use pcat.ChunkState.{ChunkState}
use pcat.ChunkState.Walk.{IsBlockRule}
use pcat.ChunkState.End.{IsKept}
use pcat.BlockLinear.{block_rule}

abbrev pub Known : ChunkState → Type 0
Known s =
    (length s.input_offset ≡ length s.output_offset)
    ⊎ (offset s.input_offset + length s.input_offset ≡ s.input_length)

block_rule-IsBlockRule : IsBlockRule block_rule
unfolding block_rule
block_rule-IsBlockRule = record {
  within_remainder = λ r l. omega arith;
  within_length = λ r l. omega arith;
  progress = λ r l p q. omega arith;
}

pub Known-IsKept : (files : List ℕ) → IsKept files block_rule Known
unfolding block_rule
Known-IsKept files = record {
  law = block_rule-IsBlockRule;
  room = λ s v p k h. omega (arith, k);
  keep = λ s s' v p k st. ground (arith, st.length_in, st.length_out, st.moved, v.fits);
}

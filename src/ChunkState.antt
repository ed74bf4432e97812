-- ===== src/ChunkState.antt =====
-- chunkState_t of src/algorithm/blockLinear/chunkState.hxx and src/algorithm/chunkSpans/chunkState.hxx:
-- a walk through the input blocks that fill one block of the output. The two classes are the same but
-- for the length that `nextInputBlock` gives to the next input block: it is the parameter `rule`.
pub mod Walk
pub mod End
pub mod Skip
pub mod CatchUp
mod Tests
use pcat.Common.{
  ℕ, zero, suc, ◌+◌, ◌==◌, if◌then◌else◌, not, List, Bool, true, false, Result, ok, err, ◌>>=◌,
  past_end, out_of_fuel,
}
use pcat.Common
use pcat.MappingOffset.{MappingOffset, empty, length, offset, set_length, add}
use pcat.InputFiles.{length_at, sub_off}

pub record ChunkState : Type 0 where
  pub file : ℕ
  pub input_length : ℕ
  pub input_offset : MappingOffset
  pub output_offset : MappingOffset

unfoldable pub at_end : ChunkState → Bool
at_end s = length s.output_offset == 0

module _ (files : List ℕ) where
  -- The part of `nextInputBlock` that the chunkers share: skip the present block, and go to the next
  -- file if this one is used up.
  unfoldable pub skip_block : ChunkState → Result ChunkState
  skip_block s =
      let moved = add s.input_offset (length s.input_offset) in
      if offset moved == s.input_length
      then (if s.file == Common.length files then err past_end else (do
        input_length ← length_at files (s.file + 1)
        ok (record s { file = s.file + 1; input_length = input_length; input_offset = empty })))
      else ok (record s { input_offset = moved })

  module _ (rule : ℕ → ℕ → ℕ) where
    unfoldable pub next_input_block : ℕ → ChunkState → Result ChunkState
    next_input_block remainder s = do
      s' ← skip_block s
      ok (record s' { input_offset = set_length s'.input_offset (rule remainder s'.input_length) })

    -- `operator ++`
    unfoldable pub advance : ChunkState → Result ChunkState
    advance s = if at_end s then ok s else (do
      remainder ← sub_off (length s.output_offset) (length s.input_offset)
      next_input_block remainder (record s {
        output_offset = set_length (add s.output_offset (length s.input_offset)) remainder;
      }))

    -- `end()`, at most as many rounds as the fuel
    unfoldable pub end : ℕ → ChunkState → Result ChunkState
    end zero s = err out_of_fuel
    end (suc fuel) s = elim (at_end s) [ true ↦ ok s | false ↦ do s' ← advance s; end fuel s' ]

    -- The test of `chunking_t::operator ++`: the walk to the end of the output block, where it does
    -- not end with the input block. A block of `n` bytes takes `n` rounds at most.
    unfoldable pub catch_up : ChunkState → Result ChunkState
    catch_up s =
        if not (length s.output_offset == length s.input_offset)
        then end (suc (length s.output_offset)) s
        else ok s

-- ===== src/BlockLinear.antt =====
-- src/algorithm/blockLinear: chunkState.hxx and fileChunker.hxx, which cut the output into blocks of
-- `transferBlockSize` bytes.
pub mod Known
pub mod CatchUp
pub mod Next
pub mod Last
pub mod Chunks
pub mod Copies
pub mod Threads
mod Tests
use pcat.Common.{
  ℕ, zero, suc, ◌+◌, ◌-◌, ◌==◌, ◌&&◌, not, if◌then◌else◌, List, [], ◌∷◌, Bool, true, false, Result,
  ok, err, ◌>>=◌, out_of_fuel, min,
}
use pcat.Common
use pcat.MappingOffset.{
  MappingOffset, block_length, empty, at_offset, at_block, length, offset, set_length, add,
}
use pcat.InputFiles.{length_at, sub_off}
use pcat.ChunkState.{ChunkState, skip_block}
use pcat.ChunkState

-- the length that `chunkState_t::nextInputBlock` sets: `std::min(remainder, inputLength_)`
unfoldable pub block_rule : ℕ → ℕ → ℕ
block_rule remainder input_length = min remainder input_length

-- chunking_t
pub record Chunking : Type 0 where
  pub file : ℕ
  pub input_length : ℕ
  pub input_offset : MappingOffset
  pub output_length : ℕ
  pub output_offset : MappingOffset

-- `subchunkState()`, also `operator *`
abbrev pub subchunk_state : Chunking → ChunkState
subchunk_state c = record {
  file = c.file;
  input_length = c.input_length;
  input_offset = c.input_offset;
  output_offset = c.output_offset;
}

-- `operator ==`: the offsets are compared as `off_t`.
unfoldable pub is_equal : Chunking → Chunking → Bool
is_equal c d =
    c.file == d.file
    && offset c.input_offset == offset d.input_offset
    && offset c.output_offset == offset d.output_offset

module _ (files : List ℕ) where
  -- chunkState_t's `operator ++` and `end()` of this algorithm. A block of `n` bytes takes `n` rounds at most.
  unfoldable pub advance : ChunkState → Result ChunkState
  advance = ChunkState.advance files block_rule

  unfoldable pub end_state : ChunkState → Result ChunkState
  end_state s = ChunkState.end files block_rule (suc (length s.output_offset)) s

  unfoldable pub next_input_block : Chunking → Result Chunking
  next_input_block c = do
    s ← skip_block files (subchunk_state c)
    left ← sub_off s.input_length (offset s.input_offset)
    ok (record c {
      file = s.file;
      input_length = s.input_length;
      input_offset = set_length s.input_offset (block_length left);
    })

  -- The walk to the end of the output block is copied back without the place in the output.
  unfoldable pub catch_up : Chunking → Result Chunking
  catch_up c = do
    state ← ChunkState.catch_up files block_rule (subchunk_state c)
    ok (record c {
      file = state.file;
      input_length = state.input_length;
      input_offset = state.input_offset;
    })

  unfoldable pub next_output_block : Chunking → Result Chunking
  next_output_block c = do
    let moved = add c.output_offset (length c.output_offset)
    left ← sub_off c.output_length (offset moved)
    ok (record c { output_offset = set_length moved (block_length left) })

  -- `operator ++`
  unfoldable pub next : Chunking → Result Chunking
  next c =
      if offset c.output_offset == c.output_length
      then ok c
      else (do c1 ← catch_up c; c2 ← next_input_block c1; next_output_block c2)

  module _ (output_length : ℕ) where
    -- fileChunker_t's `begin()`: the member initialisers and the default constructor
    unfoldable pub begin : Result Chunking
    begin = do
      input_length ← length_at files 0
      left ← sub_off output_length (offset empty)
      ok (record {
        file = 0;
        input_length = input_length;
        input_offset = at_block 0 (block_length input_length);
        output_length = output_length;
        output_offset = set_length empty (block_length left);
      })

    -- fileChunker_t's `end()`: the constructor from an iterator
    unfoldable pub end : Result Chunking
    end = do
      input_length ← length_at files (Common.length files)
      ok (record {
        file = Common.length files;
        input_length = input_length;
        input_offset = at_block 0 (block_length input_length);
        output_length = output_length;
        output_offset = at_offset output_length;
      })

  -- the range-based `for` over a fileChunker_t, as the list of the blocks that its body is given
  unfoldable pub chunks_from : ℕ → Chunking → Chunking → Result (List ChunkState)
  chunks_from zero stop c = err out_of_fuel
  chunks_from (suc fuel) stop c = elim (is_equal c stop) [
    | true ↦ ok []
    | false ↦ do c' ← next c; rest ← chunks_from fuel stop c'; ok (subchunk_state c ∷ rest)
  ]

  -- one round for each byte of the output, and one for the test that ends the loop
  unfoldable pub chunks : ℕ → Result (List ChunkState)
  chunks output_length = do
    stop ← end output_length
    start ← begin output_length
    chunks_from (suc output_length) stop start

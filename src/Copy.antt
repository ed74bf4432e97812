-- ===== src/Copy.antt =====
-- copyChunk of src/copyChunk.hxx, for a chunkState_t whose length rule is `rule`: one block of the
-- output is mapped, and the input blocks that fill it are mapped and copied in turn.
pub mod Block
pub mod Granted
pub mod Loop
pub mod Order
pub mod Outcome
pub mod Returns
pub mod Threads
mod Tests
use pcat.Common.{
  ℕ, zero, suc, ◌+◌, ltb, if◌then◌else◌, ◌&&◌, not, List, [], ◌∷◌, Bool, true, false, Option, none,
  some, Result, ok, err, ◌>>=◌, past_end, assertion, out_of_fuel, get_elem?,
}
use pcat.MappingOffset.{length, adjustment, adjusted_offset, adjusted_length}
use pcat.Bytes.{lengths}
use pcat.ChunkState.{ChunkState, at_end, advance}
use pcat.Mmap.{
  Os, Mmap, prot_read, prot_write, map_shared, map_private, Target, output, input, Advice,
  madv_sequential, madv_willneed, madv_dontdump, map_file, valid, index, advise, sync, read_block,
  copy_to,
}

-- EINVAL of <cerrno>
abbrev pub einval : ℕ
einval = 22

-- the output as it is left, and the error code: 0 for success
abbrev pub Copied : Type 0
Copied = List ℕ × ℕ

module _ (os : Os) (contents : List (List ℕ)) (rule : ℕ → ℕ → ℕ) where
  -- The `try` block: copy the mapped input block to `offset` in the output map.
  unfoldable pub copy_block :
      Mmap → Mmap → ChunkState → List ℕ → ℕ → List ℕ → Result (Option (List ℕ))
  copy_block output_chunk input_chunk chunk file offset out =
      elim (index input_chunk (adjustment chunk.input_offset)) [
        | none ↦ ok none
        | some src ↦ (do
          bytes ← read_block input_chunk file src (length chunk.input_offset)
          copy_to output_chunk offset bytes (length chunk.input_offset) out)
      ]

  -- One round of the `while` loop up to `++chunk`: `none` is an early return of the error code.
  unfoldable pub copy_input : Mmap → ChunkState → ℕ → List ℕ → Result (Option (List ℕ) × ℕ)
  copy_input output_chunk chunk offset out = elim (get_elem? contents chunk.file) [
    | none ↦ err past_end
    | some file ↦
        let input_chunk =
          map_file os (input chunk.file) (adjusted_offset chunk.input_offset)
            (adjusted_length chunk.input_offset) prot_read map_private in
        if not (valid input_chunk)
        then ok (none, os.errno)
        else (if not (advise os input_chunk (madv_sequential ∷ madv_willneed ∷ madv_dontdump ∷ []))
            then ok (none, os.errno)
            else (do
              copied ← copy_block output_chunk input_chunk chunk file offset out
              ok (copied, einval)))
  ]

  module _ (is_sync : Bool) (output_chunk : Mmap) (output_length : ℕ) where
    -- after the loop: `sync && !outputChunk.sync()`
    unfoldable pub finish_copy : List ℕ → Result Copied
    finish_copy out =
        if is_sync && not (sync os output_chunk) then ok (out, os.errno) else ok (out, 0)

    unfoldable pub copy_loop : ℕ → ChunkState → ℕ → List ℕ → Result Copied
    copy_loop zero chunk offset out = err out_of_fuel
    copy_loop (suc fuel) chunk offset out = elim (at_end chunk) [
      | true ↦ finish_copy out
      | false ↦ (do
        (copied, code) ← copy_input output_chunk chunk offset out
        elim copied [
          | none ↦ ok (out, code)
          | some out' ↦
              (let moved = offset + length chunk.input_offset in
                if ltb output_length moved then err assertion else (do
                  chunk' ← advance (lengths contents) rule chunk
                  copy_loop fuel chunk' moved out'))
        ])
    ]

  -- A block of `n` bytes takes `n` rounds at most.
  unfoldable pub copy_chunk : Bool → ChunkState → List ℕ → Result Copied
  copy_chunk is_sync chunk out =
      let output_chunk =
        map_file os output (adjusted_offset chunk.output_offset)
          (adjusted_length chunk.output_offset) prot_write map_shared in
      if not (valid output_chunk)
      then ok (out, os.errno)
      else (if not (advise os output_chunk (madv_sequential ∷ madv_dontdump ∷ []))
          then ok (out, os.errno)
          else copy_loop is_sync output_chunk (length chunk.output_offset)
              (suc (length chunk.output_offset)) chunk (adjustment chunk.output_offset) out)

  -- The jobs of the worker threads, each run whole, in the order of the list: the output that they
  -- leave, and their error codes.
  unfoldable pub run_chunks : Bool → List ChunkState → List ℕ → Result (List ℕ × List ℕ)
  run_chunks is_sync [] out = ok (out, [])
  run_chunks is_sync (chunk ∷ chunks) out = do
    (out1, code) ← copy_chunk is_sync chunk out
    (out2, codes) ← run_chunks is_sync chunks out1
    ok (out2, code ∷ codes)

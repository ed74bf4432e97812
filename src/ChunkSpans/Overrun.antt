-- ===== src/ChunkSpans/Overrun.antt =====
-- Where the length rule of chunkSpans' chunkState_t leaves the file.

use pcat.Common.{
  [], ◌∷◌, ℕ, ◌+◌, ◌-◌, ◌≤◌, ◌<◌, ◌≡◌, List, ok, err, bad_access, arith, min, get_elem?, some, refl,
  Result,
}
use pcat.Common
use pcat.MappingOffset.{
  transfer_block_size, length, offset, adjustment, adjusted_offset, adjusted_length, set_length,
  add,
}
use pcat.MappingOffset.Laws.{offsets}
use pcat.Bytes.{lengths, length_at-lengths}
use pcat.InputFiles.{before_end}
use pcat.ChunkState.{ChunkState, at_end, next_input_block}
use pcat.ChunkState
use pcat.ChunkState.Walk.{IsSync, skip_block-inside}
use pcat.Mmap.{
  Os, Mmap, Address, prot_read, map_private, input, map_file, index, read_block, madv_sequential,
  madv_willneed, madv_dontdump,
}
use pcat.Mmap.Laws.{IsReliable, map_file-valid, advise-reliable, index-inside}
use pcat.Copy.{copy_block, copy_input}
use pcat.ChunkSpans.{block_rule, advance}

-- The present block ends inside its file, the span goes on, and the next block, as long as
-- `transferBlockSize` and the span allow, is longer than what is left of the file.
pub record Overruns (s : ChunkState) : Type 0 where
  pub fits : length s.input_offset < length s.output_offset
  pub inside : offset s.input_offset + length s.input_offset < s.input_length
  pub beyond :
      s.input_length
      < offset s.input_offset
        + length s.input_offset
        + min transfer_block_size
            (min (length s.output_offset - length s.input_offset) s.input_length)

module _ (files : List ℕ) (s : ChunkState) (o : Overruns s) where
  abbrev remainder : ℕ
  remainder = length s.output_offset - length s.input_offset

  abbrev overrun : ChunkState
  overrun = record {
    file = s.file;
    input_length = s.input_length;
    input_offset =
        set_length (add s.input_offset (length s.input_offset))
          (block_rule remainder s.input_length);
    output_offset = set_length (add s.output_offset (length s.input_offset)) remainder;
  }

  advance-overrun : advance files s ≡ ok overrun
  unfolding advance ChunkState.advance next_input_block at_end
  advance-overrun =
      let skip =
        skip_block-inside files (record s { output_offset = overrun.output_offset }) o.inside in
      ground (arith, skip, o.fits)

  overrun_behind : s.input_length < offset overrun.input_offset + length overrun.input_offset
  unfolding block_rule
  overrun_behind = omega (offsets, o.beyond)

  overrun_pos : 0 < length overrun.input_offset
  unfolding block_rule
  overrun_pos = omega (offsets, o.beyond, o.inside)

module _ (os : Os) (reliable : IsReliable os) (contents : List (List ℕ)) (chunk : ChunkState)
    (file : List ℕ) (here : get_elem? contents chunk.file ≡ some file)
    (pos : 0 < length chunk.input_offset)
    (beyond : Common.length file < offset chunk.input_offset + length chunk.input_offset) where
  abbrev input_map : Mmap
  input_map =
      map_file os (input chunk.file) (adjusted_offset chunk.input_offset)
        (adjusted_length chunk.input_offset) prot_read map_private

  abbrev source : Address
  source = record { mapped = input_map.addr_; place = offset chunk.input_offset }

  beyond-index : index input_map (adjustment chunk.input_offset) ≡ some source
  unfolding map_file offset length adjustment adjusted_offset adjusted_length
  beyond-index = index-inside input_map (adjustment chunk.input_offset) (omega arith)

  beyond-read : read_block input_map file source (length chunk.input_offset) ≡ err bad_access
  unfolding read_block
  beyond-read = ground arith

  -- A block that ends behind its file is copied from bytes that are not there.
  pub copy_input-bad_access :
      (m : Mmap) (off : ℕ) (out : List ℕ)
      → copy_input os contents block_rule m chunk off out ≡ err bad_access
  unfolding copy_input copy_block
  copy_input-bad_access m off out = rw (
    here,
    copy_input,
    map_file-valid reliable (input chunk.file) _ _ _ _,
    advise-reliable reliable input_map (madv_sequential ∷ madv_willneed ∷ madv_dontdump ∷ []),
    beyond-index,
    copy_block,
    beyond-read,
  )

-- From a block in step with the input that overruns, the walk of chunkSpans goes on to a block that
-- ends behind the end of its file; the copy of that block reads bytes that are not there.
pub advance-bad_access :
    (os : Os) (contents : List (List ℕ)) (s : ChunkState) (m : Mmap) (off : ℕ) (out : List ℕ)
    → IsReliable os
    → IsSync (lengths contents) s
    → Overruns s
    → (s' : ChunkState) × (advance (lengths contents) s ≡ ok s')
      × (s'.input_length < offset s'.input_offset + length s'.input_offset)
      × (copy_input os contents block_rule m s' off out ≡ err bad_access)
advance-bad_access os contents s m off out reliable v o =
    let files = lengths contents in
    let before =
      before_end files s.file s.input_length v.file_le v.current (omega (arith, o.inside)) in
    let (file, here, size) = length_at-lengths contents s.file s.input_length v.current before in
    let behind = overrun_behind files s o in
    (
      overrun files s o,
      advance-overrun files s o,
      behind,
      copy_input-bad_access os reliable contents (overrun files s o) file here
          (overrun_pos files s o) (omega arith) m off out,
    )

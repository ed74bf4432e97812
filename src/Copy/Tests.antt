-- ===== src/Copy/Tests.antt =====
-- copyChunk at concrete blocks.
use pcat.Common.{◌≤◌, ◌<◌, ◌+◌, ℕ, ◌≡◌, ◌⊎◌, refl, inr, List, [], ◌∷◌, true, false, ok, arith}
use pcat.MappingOffset.{
  at_block, length, offset, adjustment, adjusted_offset, adjusted_length, set_length, add,
}
use pcat.InputFiles.{length_at}
use pcat.Bytes.{concat, lengths, splice}
use pcat.ChunkState.{ChunkState, at_end, skip_block, next_input_block, advance}
use pcat.ChunkState.Walk.{IsSync}
use pcat.Samples.{willing}
use pcat.Mmap.{
  map_file, valid, index, advise, sync, read_block, can_read, can_write, store, copy_to,
}
use pcat.Copy.{copy_block, copy_input, finish_copy, copy_loop, copy_chunk}
use pcat.Copy.Block.{IsCopied}
use pcat.Copy.Granted.{Granted}
use pcat.Copy.Outcome.{KeepsOutside}
use pcat.Copy.Loop.{copy_chunk-KeepsOutside}
use pcat.BlockLinear.{block_rule}
use pcat.BlockLinear.Known.{Known-IsKept, Known}

abbrev small_files : List (List ℕ)
small_files = (1 ∷ 2 ∷ []) ∷ (3 ∷ 4 ∷ 5 ∷ []) ∷ []

-- one block over both files
abbrev both : ChunkState
both = record {
  file = 0;
  input_length = 2;
  input_offset = at_block 0 2;
  output_offset = at_block 0 5;
}

copy_both :
    copy_chunk willing small_files block_rule true both (0 ∷ 0 ∷ 0 ∷ 0 ∷ 0 ∷ [])
    ≡ ok (1 ∷ 2 ∷ 3 ∷ 4 ∷ 5 ∷ [], 0)
unfolding copy_chunk copy_loop copy_input copy_block finish_copy map_file valid index advise sync
    read_block can_read can_write store copy_to splice at_end skip_block next_input_block advance
    block_rule length_at at_block length offset adjustment adjusted_offset adjusted_length
    set_length add
copy_both = refl

-- `msync` fails: the bytes are there, and the error is returned.
copy_unsynced :
    copy_chunk
      (record willing { msync_ok = λ t o l. false })
      small_files
      block_rule
      true
      both
      (0 ∷ 0 ∷ 0 ∷ 0 ∷ 0 ∷ [])
    ≡ ok (1 ∷ 2 ∷ 3 ∷ 4 ∷ 5 ∷ [], 5)
unfolding copy_chunk copy_loop copy_input copy_block finish_copy map_file valid index advise sync
    read_block can_read can_write store copy_to splice at_end skip_block next_input_block advance
    block_rule length_at at_block length offset adjustment adjusted_offset adjusted_length
    set_length add
copy_unsynced = refl

both-IsSync : IsSync (lengths small_files) both
unfolding offset length at_block length_at
both-IsSync = record {
  file_le = omega arith;
  current = refl;
  place = omega arith;
  inside = omega arith;
  fits = omega arith;
  live = λ h. omega arith;
  inner = λ h. omega arith;
  bounded = omega arith;
  paged = (omega arith, omega arith);
}

both-Known : Known both
unfolding offset length at_block
both-Known = inr refl

both_aligned : adjustment both.output_offset ≡ 0
unfolding adjustment at_block
both_aligned = refl

copy_chunk-KeepsOutside_example :
    (out' : List ℕ) × (code : ℕ) × (copy_chunk willing small_files block_rule true both
        (0 ∷ 0 ∷ 0 ∷ 0 ∷ 0 ∷ [])
      ≡ ok (out', code))
    × KeepsOutside
        (0 ∷ 0 ∷ 0 ∷ 0 ∷ 0 ∷ [])
        out'
        (offset both.output_offset)
        (length both.output_offset)
    × ((code ≡ 5)
        ⊎ ((code ≡ 0)
            × IsCopied
                (concat small_files)
                (0 ∷ 0 ∷ 0 ∷ 0 ∷ 0 ∷ [])
                out'
                (offset both.output_offset)
                (length both.output_offset)
            × ((i : ℕ)
                → offset both.output_offset ≤ i
                → i < offset both.output_offset + length both.output_offset
                → Granted willing small_files true i)))
copy_chunk-KeepsOutside_example =
    copy_chunk-KeepsOutside willing (omega arith) small_files block_rule Known
      (Known-IsKept (lengths small_files)) (omega arith) true both (0 ∷ 0 ∷ 0 ∷ 0 ∷ 0 ∷ [])
      both-IsSync both-Known both_aligned refl

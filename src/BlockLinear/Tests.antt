-- ===== src/BlockLinear/Tests.antt =====
-- The blockLinear chunker at concrete input files, those of test/algorithm/blockLinear among them.
use mathlib.Core.List.Permᴰ
use pcat.InputFiles.{IsPositive}
use pcat.Bytes.{concat, lengths}
use pcat.Samples.{willing, refusing, willing-IsReliable, block_of_zeros, two_files, resized}
use pcat.Copy.{run_chunks}
use pcat.Copy.Order.{IsZero}
use pcat.BlockLinear.Last.{LastBlockIsSingle}
use pcat.BlockLinear.Copies.{copies-concat, copies-report}
use pcat.Bytes.{splice}
use pcat.Mmap.{
  map_file, valid, index, advise, sync, read_block, can_read, can_write, store, copy_to,
}
use pcat.Mmap.Laws.{IsReliable}
use pcat.Copy.{copy_chunk, copy_loop, copy_input, copy_block, finish_copy}
use pcat.ThreadedQueue.{push, pop, empty}
use pcat.ThreadPool.{
  returned, worker_step, main_step, take_job, run_job, take_result, all_stopped, is_stopped, wake,
  return_value,
}
use pcat.ThreadPool.Relation.{Pool, new_pool, here}
use pcat.ThreadPool.Schedule.{walk, walk-Reach, turn, cut, one_job}
use pcat.BlockLinear.Threads.{start_copy, start_copy-concat, start_copy-Returns}
use pcat.Copy.Granted.{IsWhole}
use pcat.Copy.Threads.{Reports}
use pcat.MappingOffset.{adjustment, adjusted_offset, adjusted_length}
use pcat.Common.{
  Result, length-append, ℕ, ◌+◌, ◌≡◌, ◌⊎◌, refl, List, [], ◌∷◌, true, ok, err, past_end, sum, arith,
}
use pcat.MappingOffset.{
  transfer_block_size, block_length, at_block, at_offset, length, offset, set_length, add,
}
use pcat.InputFiles.{length_at}
use pcat.ChunkState.{ChunkState, at_end, skip_block}
use pcat.ChunkState
use pcat.BlockLinear.{
  block_rule, is_equal, end_state, next_input_block, catch_up, next_output_block, next, begin, end,
  chunks_from, chunks,
}
use pcat.BlockLinear.Chunks.{Tiles, chunks-Tiles, chunks-past_end}

-- 1024, 3072 and 1 MiB bytes: the second block is 4096 bytes of the third file.
abbrev unaligned_files : List ℕ
unaligned_files = 1024 ∷ 3072 ∷ transfer_block_size ∷ []

chunks_unaligned :
    chunks unaligned_files (transfer_block_size + 4096)
    ≡ ok (
        record {
          file = 0;
          input_length = 1024;
          input_offset = at_block 0 1024;
          output_offset = at_block 0 transfer_block_size;
        }
        ∷ record {
          file = 2;
          input_length = transfer_block_size;
          input_offset = at_block 1044480 4096;
          output_offset = at_block transfer_block_size 4096;
        }
        ∷ [])
unfolding chunks begin end chunks_from next catch_up next_output_block next_input_block is_equal
    ChunkState.catch_up ChunkState.end ChunkState.advance ChunkState.next_input_block at_end
    skip_block block_rule length_at block_length at_block at_offset length offset set_length add
chunks_unaligned = refl

-- `end()` of the first block, as the unit test has it
end_state_unaligned :
    end_state unaligned_files (record {
      file = 0;
      input_length = 1024;
      input_offset = at_block 0 1024;
      output_offset = at_block 0 transfer_block_size;
    })
    ≡ ok (record {
      file = 2;
      input_length = transfer_block_size;
      input_offset = at_block 1044480 0;
      output_offset = at_block transfer_block_size 0;
    })
unfolding end_state ChunkState.end ChunkState.advance ChunkState.next_input_block at_end skip_block
    block_rule length_at block_length at_block at_offset length offset set_length add
end_state_unaligned = refl

-- Two small files: the only block spans both.
chunks_two_small : chunks (3 ∷ 4 ∷ []) 7 ≡ err past_end
unfolding chunks begin end chunks_from next catch_up next_output_block next_input_block is_equal
    ChunkState.catch_up ChunkState.end ChunkState.advance ChunkState.next_input_block at_end
    skip_block block_rule length_at block_length at_block at_offset length offset set_length add
chunks_two_small = refl

chunks-Tiles_example :
    (cs : List ChunkState) × (chunks unaligned_files (sum unaligned_files) ≡ ok cs)
    × Tiles unaligned_files 0 cs
chunks-Tiles_example = chunks-Tiles unaligned_files (omega arith) (omega arith)

chunks-past_end_example : chunks (3 ∷ 4 ∷ []) 7 ≡ err past_end
chunks-past_end_example = chunks-past_end (3 ∷ 4 ∷ []) (omega arith) (omega arith)

two_files-IsPositive : IsPositive (lengths two_files)
two_files-IsPositive = omega (arith, block_of_zeros.1)

two_files-single : LastBlockIsSingle (lengths two_files)
two_files-single = omega (arith, block_of_zeros.1)

two_blocks :
    (cs : List ChunkState) × (chunks (lengths two_files) (sum (lengths two_files)) ≡ ok cs)
    × Tiles (lengths two_files) 0 cs
two_blocks = chunks-Tiles (lengths two_files) two_files-IsPositive two_files-single

copies-concat_example :
    (out' : List ℕ) × (codes : List ℕ) × (run_chunks willing two_files block_rule true two_blocks.0
        resized
      ≡ ok (out', codes))
    × IsZero codes
    × (out' ≡ concat two_files)
copies-concat_example =
    copies-concat willing two_files true two_blocks.0 two_blocks.0 resized (omega arith)
      two_files-IsPositive two_blocks.1 (Permᴰ.refl two_blocks.0)
      (omega (arith, length-append block_of_zeros.0 (0 ∷ 0 ∷ 0 ∷ []), block_of_zeros.1))
      willing-IsReliable

copies-report_example :
    (out' : List ℕ) × (codes : List ℕ) × (run_chunks refusing two_files block_rule true two_blocks.0
        resized
      ≡ ok (out', codes))
    × ((¬ IsZero codes) ⊎ (IsZero codes × IsWhole refusing two_files true out'))
copies-report_example =
    copies-report refusing two_files true two_blocks.0 two_blocks.0 resized (omega arith)
      two_files-IsPositive two_blocks.1 (Permᴰ.refl two_blocks.0)
      (omega (arith, length-append block_of_zeros.0 (0 ∷ 0 ∷ 0 ∷ []), block_of_zeros.1))

-- One file of three bytes, copied by one worker.
abbrev three_bytes : List (List ℕ)
three_bytes = (1 ∷ 2 ∷ 3 ∷ []) ∷ []

abbrev only_block : ChunkState
only_block = record {
  file = 0;
  input_length = 3;
  input_offset = at_block 0 3;
  output_offset = at_block 0 3;
}

abbrev copy_three : ChunkState → List ℕ → Result (List ℕ × ℕ)
copy_three = copy_chunk willing three_bytes block_rule true

abbrev started : Pool ChunkState (List ℕ)
started = new_pool 1 (only_block ∷ []) (0 ∷ 0 ∷ 0 ∷ [])

start_copy_three : start_copy three_bytes 1 (0 ∷ 0 ∷ 0 ∷ []) ≡ ok started
unfolding start_copy chunks begin end chunks_from next catch_up next_output_block next_input_block
    is_equal ChunkState.catch_up ChunkState.end ChunkState.advance ChunkState.next_input_block
    at_end skip_block block_rule length_at block_length at_block at_offset length offset set_length
    add
start_copy_three = refl

abbrev copied : Pool ChunkState (List ℕ)
copied = walk only_block copy_three one_job started

copied_value : copied.main ≡ returned 0 []
unfolding walk new_pool turn cut worker_step empty main_step push take_job pop run_job take_result
    all_stopped is_stopped wake return_value copy_chunk copy_loop copy_input copy_block finish_copy
    map_file valid index advise sync read_block can_read can_write store copy_to splice at_end
    skip_block ChunkState.next_input_block ChunkState.advance block_rule length_at at_block length
    offset adjustment adjusted_offset adjusted_length set_length add
copied_value = refl

start_copy-concat_example :
    (◌≡◌ {A = ℕ} 0 0 → IsWhole willing three_bytes true copied.shared.out)
    × (IsReliable willing → ◌≡◌ {A = ℕ} 0 0)
start_copy-concat_example =
    start_copy-concat willing three_bytes true only_block 1 (0 ∷ 0 ∷ 0 ∷ []) started copied 0 []
      (omega arith) (omega arith) refl (omega arith) start_copy_three
      (walk-Reach only_block copy_three one_job started started here) copied_value

start_copy-Returns_example : Reports willing three_bytes true only_block copy_three copied
start_copy-Returns_example =
    start_copy-Returns willing three_bytes true only_block 1 (0 ∷ 0 ∷ 0 ∷ []) started copied
      (omega arith) (omega arith) refl (omega arith) start_copy_three
      (walk-Reach only_block copy_three one_job started started here)

-- ===== src/Program/Tests.antt =====
-- A system with the files `x` and `y`, and an output `z` of one byte.
use pcat.Samples.{willing}
use pcat.MappingOffset.{
  block_length, at_block, at_offset, length, offset, set_length, add, adjustment, adjusted_offset,
  adjusted_length,
}
use pcat.InputFiles.{length_at}
use pcat.Bytes.{splice, concat}
use pcat.ChunkState.{ChunkState, at_end, skip_block}
use pcat.ChunkState
use pcat.Mmap.{
  map_file, valid, index, advise, sync, read_block, can_read, can_write, store, copy_to,
}
use pcat.Mmap.Laws.{IsReliable}
use pcat.Copy.{copy_chunk, copy_loop, copy_input, copy_block, finish_copy}
use pcat.ThreadedQueue.{push, pop, empty}
use pcat.ThreadPool.{
  returned, worker_step, main_step, take_job, run_job, take_result, all_stopped, is_stopped, wake,
  return_value,
}
use pcat.ThreadPool.Relation.{Pool, new_pool, here}
use pcat.ThreadPool.Schedule.{walk, walk-Reach, turn, cut, one_job}
use pcat.BlockLinear
use pcat.BlockLinear.{
  block_rule, is_equal, next_input_block, catch_up, next_output_block, begin, end, chunks_from,
  chunks,
}
use pcat.BlockLinear.Threads.{start_copy}
use pcat.Program.Exit.{exit_code, Ends, main-concat}
use pcat.Common.{
  ℕ, List, true, Result, ◌≡◌, refl, [], ◌∷◌, false, none, some, ok, arith, if◌then◌else◌, sum,
}
use mathlib.Core.List.{cons≢nil}
use pcat.Args.{Conversions, block_linear, is_same}
use pcat.Args.Tokenizer.{is_equals}
use pcat.Args.Parser.Words.{IsPlain}
use pcat.Args.Parser.Files.{AreFiles}
use pcat.Bytes.{lengths}
use pcat.Program.{System, options, resize, copies, main}
use pcat.Program.Run.{Opened, output_option, main-copies}

abbrev shelf : System
shelf = record {
  open_file = λ name.
      if is_same name (120 ∷ [])
      then some (1 ∷ 2 ∷ [])
      else (if is_same name (121 ∷ []) then some (3 ∷ []) else none);
  lock_file = λ name. true;
  open_output = λ name. some (9 ∷ []);
  resize_output = λ name length. true;
}

abbrev hexless : Conversions
hexless = record { is_dec = λ text. false; from_dec = λ text. 0 }

output-IsPlain : IsPlain (122 ∷ [])
unfolding is_equals
output-IsPlain = (λ e. cons≢nil e, (refl, tt))

shelf-AreFiles : AreFiles options ((120 ∷ []) ∷ (121 ∷ []) ∷ [])
unfolding is_equals is_same
shelf-AreFiles = (
  (
    ((λ e. cons≢nil e), (refl, tt)),
    (
      refl,
      (refl, (refl, (refl, (refl, (refl, (refl, (refl, (refl, (refl, (refl, (refl, tt))))))))))),
    ),
  ),
  (
    (
      ((λ e. cons≢nil e), (refl, tt)),
      (
        refl,
        (refl, (refl, (refl, (refl, (refl, (refl, (refl, (refl, (refl, (refl, (refl, tt))))))))))),
      ),
    ),
    tt,
  ),
)

shelf-Opened : Opened shelf ((120 ∷ []) ∷ (121 ∷ []) ∷ []) ((1 ∷ 2 ∷ []) ∷ (3 ∷ []) ∷ [])
unfolding is_same
shelf-Opened = (refl, omega arith, refl, (refl, omega arith, refl, tt))

main-copies_example :
    main shelf hexless ((112 ∷ []) ∷ output_option ∷ (122 ∷ []) ∷ (120 ∷ []) ∷ (121 ∷ []) ∷ [])
    ≡ ok (
        copies block_linear true
          ((1 ∷ 2 ∷ []) ∷ (3 ∷ []) ∷ [])
          (resize (sum (lengths ((1 ∷ 2 ∷ []) ∷ (3 ∷ []) ∷ []))) (9 ∷ [])))
main-copies_example =
    main-copies shelf hexless (112 ∷ []) (122 ∷ []) (9 ∷ []) ((120 ∷ []) ∷ (121 ∷ []) ∷ [])
      ((1 ∷ 2 ∷ []) ∷ (3 ∷ []) ∷ []) output-IsPlain shelf-AreFiles shelf-Opened refl refl
      (omega arith)

-- `p -o z y` with one processor: the file `y` has one byte.
abbrev one_file : List (List ℕ)
one_file = (3 ∷ []) ∷ []

abbrev only_byte : ChunkState
only_byte = record {
  file = 0;
  input_length = 1;
  input_offset = at_block 0 1;
  output_offset = at_block 0 1;
}

abbrev copy_byte : ChunkState → List ℕ → Result (List ℕ × ℕ)
copy_byte = copy_chunk willing one_file block_rule true

abbrev started : Pool ChunkState (List ℕ)
started = new_pool 1 (only_byte ∷ []) (resize 1 (9 ∷ []))

abbrev copied : Pool ChunkState (List ℕ)
copied = walk only_byte copy_byte one_job started

start_copy_byte : start_copy one_file 1 (resize 1 (9 ∷ [])) ≡ ok started
unfolding start_copy chunks begin end chunks_from BlockLinear.next catch_up next_output_block
    next_input_block is_equal ChunkState.catch_up ChunkState.end ChunkState.advance
    ChunkState.next_input_block at_end skip_block block_rule length_at block_length at_block
    at_offset length offset set_length add resize
start_copy_byte = refl

copied_value : copied.main ≡ returned 0 []
unfolding walk new_pool turn cut worker_step empty main_step push take_job pop run_job take_result
    all_stopped is_stopped wake return_value copy_chunk copy_loop copy_input copy_block finish_copy
    map_file valid index advise sync read_block can_read can_write store copy_to splice at_end
    skip_block ChunkState.next_input_block ChunkState.advance block_rule length_at at_block length
    offset adjustment adjusted_offset adjusted_length set_length add resize
copied_value = refl

copied-Ends :
    Ends willing 1 only_byte
      (copies block_linear true one_file (resize 1 (9 ∷ [])))
      0
      copied.shared.out
unfolding exit_code
copied-Ends = (
  started,
  start_copy_byte,
  (
    copied,
    0,
    [],
    walk-Reach only_byte copy_byte one_job started started here,
    copied_value,
    refl,
    refl,
  ),
)

file-AreFiles : AreFiles options ((121 ∷ []) ∷ [])
file-AreFiles = (shelf-AreFiles.1.0, tt)

main_one :
    main shelf hexless ((112 ∷ []) ∷ output_option ∷ (122 ∷ []) ∷ (121 ∷ []) ∷ [])
    ≡ ok (copies block_linear true one_file (resize 1 (9 ∷ [])))
main_one =
    main-copies shelf hexless (112 ∷ []) (122 ∷ []) (9 ∷ []) ((121 ∷ []) ∷ []) one_file
      output-IsPlain file-AreFiles (shelf-Opened.3) refl refl (omega arith)

main-concat_example :
    (◌≡◌ {A = ℕ} 0 0 → copied.shared.out ≡ concat one_file) × (IsReliable willing → ◌≡◌ {A = ℕ} 0 0)
main-concat_example =
    main-concat shelf hexless ((112 ∷ []) ∷ output_option ∷ (122 ∷ []) ∷ (121 ∷ []) ∷ []) willing 1
      only_byte true one_file (resize 1 (9 ∷ [])) copied.shared.out 0 (omega arith) (omega arith)
      main_one (omega arith) copied-Ends

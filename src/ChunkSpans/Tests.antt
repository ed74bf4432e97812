-- ===== src/ChunkSpans/Tests.antt =====
-- The chunkSpans chunker at concrete input files.
use mathlib.Core.List.Permᴰ
use pcat.Mmap.{prot_write, map_shared, map_file}
use pcat.Mmap.Laws.{IsReliable}
use pcat.Copy.{copy_chunk}
use pcat.ThreadPool.Relation.{Pool, new_pool, here}
use pcat.Copy.Granted.{IsWhole}
use pcat.Copy.Threads.{Reports}
use pcat.ChunkSpans.Threads.{start_loop, start_spans, start_spans-concat, start_spans-Returns}
use pcat.Common.{
  Result, ◌>>=◌, ◌∙◌, subst, ap, ℕ, ◌+◌, ◌-◌, ◌*◌, ◌/◌, ◌≡◌, ◌<◌, ◌≢◌, ◌++◌, length-append, refl,
  List, [], ◌∷◌, true, Result, ok, err, bad_access, sum, arith,
}
use pcat.Common
use pcat.MappingOffset.{
  transfer_block_size, block_length, at_block, at_offset, length, offset, set_length, add,
}
use pcat.MappingOffset.Laws.{offsets, at_block-IsPaged}
use pcat.InputFiles.{length_at}
use pcat.Bytes.{concat, lengths}
use pcat.ChunkState.{ChunkState, at_end, skip_block}
use pcat.ChunkState
use pcat.ChunkState.Walk.{IsSync}
use pcat.Mmap.{prot_write, map_shared, map_file, output}
use pcat.Copy.{run_chunks, copy_input}
use pcat.Copy.Order.{IsZero}
use pcat.Samples.{willing, willing-IsReliable, zeros_of, block_of_zeros, two_files, resized}
use pcat.ChunkSpans.{
  block_rule, is_equal, span_of, next_length, advance, next_input_block, catch_up, next_span, next,
  begin, end, chunks_from, chunks,
}
use pcat.ChunkSpans.Span.{IsSpan, next_length-span_at}
use pcat.ChunkSpans.Chunks.{Tiles, spans-Tiles}
use pcat.ChunkSpans.Count.{Sized, length-chunks}
use pcat.ChunkSpans.Copies.{spans-concat}
use pcat.ChunkSpans.Plan.{span_plan, chunks-span_plan}
use pcat.Common.{some, none, division_by_zero, ◌≤◌}
use pcat.ChunkSpans.Overrun.{Overruns, advance-bad_access}

abbrev mebibytes : ℕ → ℕ
mebibytes n = n * transfer_block_size

abbrev uneven_tail : List ℕ
uneven_tail = mebibytes 1 ∷ (mebibytes 4 + 3) ∷ []

-- Five blocks and three bytes in spans of two blocks: the second span takes what is left.
chunks_five :
    chunks uneven_tail (mebibytes 2) (mebibytes 5 + 3)
    ≡ ok (
        record {
          file = 0;
          input_length = mebibytes 1;
          input_offset = at_block 0 (mebibytes 1);
          output_offset = at_block 0 (mebibytes 2);
        }
        ∷ record {
          file = 1;
          input_length = mebibytes 4 + 3;
          input_offset = at_block (mebibytes 1) (mebibytes 1);
          output_offset = at_block (mebibytes 2) (mebibytes 3 + 3);
        }
        ∷ [])
unfolding chunks begin end chunks_from next catch_up next_span next_length span_of next_input_block
    is_equal ChunkState.catch_up ChunkState.end ChunkState.advance ChunkState.next_input_block
    at_end skip_block block_rule length_at block_length at_block at_offset length offset set_length
    add
chunks_five = refl

two_blocks-IsSpan : IsSpan (mebibytes 2)
two_blocks-IsSpan = omega arith

next_length-span_at_example : next_length (mebibytes 2) 5 ≡ 5
next_length-span_at_example = next_length-span_at (mebibytes 2) 5 two_blocks-IsSpan (omega arith)

spans-Tiles_example :
    (cs : List ChunkState) × (chunks uneven_tail (mebibytes 2) (sum uneven_tail) ≡ ok cs)
    × Tiles uneven_tail (mebibytes 2) 0 cs
spans-Tiles_example =
    spans-Tiles uneven_tail (omega arith) (omega arith) (mebibytes 2) two_blocks-IsSpan
      (omega arith)

abbrev two_spans : List ChunkState
two_spans =
    record {
      file = 0;
      input_length = mebibytes 1;
      input_offset = at_block 0 (mebibytes 1);
      output_offset = at_block 0 (mebibytes 2);
    }
    ∷ record {
      file = 1;
      input_length = mebibytes 4 + 3;
      input_offset = at_block (mebibytes 1) (mebibytes 1);
      output_offset = at_block (mebibytes 2) (mebibytes 3 + 3);
    }
    ∷ []

length-chunks_example :
    (2 ≡ (mebibytes 5 + 3) / mebibytes 2) × Sized (mebibytes 2) (mebibytes 5 + 3) two_spans
length-chunks_example =
    length-chunks uneven_tail (mebibytes 2) two_spans (omega arith) (omega arith) two_blocks-IsSpan
      (omega arith) (omega arith) chunks_five

one_block-IsSpan : IsSpan (mebibytes 1)
one_block-IsSpan = omega arith

spans_of_two :
    (cs : List ChunkState) × (chunks (lengths two_files) (mebibytes 1) (sum (lengths two_files))
      ≡ ok cs)
    × Tiles (lengths two_files) (mebibytes 1) 0 cs
spans_of_two =
    spans-Tiles (lengths two_files) (omega (arith, block_of_zeros.1))
      (omega (arith, block_of_zeros.1)) (mebibytes 1) one_block-IsSpan
      (omega (arith, block_of_zeros.1))

spans-concat_example :
    (out' : List ℕ) × (codes : List ℕ) × (run_chunks willing two_files block_rule true
        spans_of_two.0 resized
      ≡ ok (out', codes))
    × IsZero codes
    × (out' ≡ concat two_files)
spans-concat_example =
    spans-concat willing two_files true (mebibytes 1) spans_of_two.0 spans_of_two.0 resized
      (omega arith) (omega (arith, block_of_zeros.1)) (omega (arith, block_of_zeros.1))
      one_block-IsSpan (omega (arith, block_of_zeros.1)) spans_of_two.1 (Permᴰ.refl spans_of_two.0)
      (omega (arith, length-append block_of_zeros.0 (0 ∷ 0 ∷ 0 ∷ []), block_of_zeros.1))
      willing-IsReliable

-- A file of a block and a half, and one of a block.
abbrev uneven : List (List ℕ)
uneven = (zeros_of (mebibytes 1 + 524288)).0 ∷ block_of_zeros.0 ∷ []

abbrev first_block : ChunkState
first_block = record {
  file = 0;
  input_length = mebibytes 1 + 524288;
  input_offset = at_block 0 (mebibytes 1);
  output_offset = at_block 0 (mebibytes 2);
}

uneven-length : Common.length (zeros_of (mebibytes 1 + 524288)).0 ≡ mebibytes 1 + 524288
uneven-length = (zeros_of (mebibytes 1 + 524288)).1

uneven-IsSync : IsSync (lengths uneven) first_block
unfolding length_at
uneven-IsSync = record {
  file_le = omega arith;
  current = rw uneven-length;
  place = omega offsets;
  inside = omega offsets;
  fits = omega offsets;
  live = λ h. omega offsets;
  inner = λ h. omega offsets;
  bounded = omega (offsets, uneven-length, block_of_zeros.1);
  paged = (at_block-IsPaged 0 (mebibytes 1), at_block-IsPaged 0 (mebibytes 2));
}

uneven-Overruns : Overruns first_block
uneven-Overruns = record { fits = omega offsets; inside = omega offsets; beyond = omega offsets }

advance-bad_access_example :
    (s' : ChunkState) × (advance (lengths uneven) first_block ≡ ok s')
    × (s'.input_length < offset s'.input_offset + length s'.input_offset)
    × (copy_input willing uneven block_rule
          (map_file willing output 0 (mebibytes 2) prot_write map_shared)
          s'
          0
          []
        ≡ err bad_access)
advance-bad_access_example =
    advance-bad_access willing uneven first_block
      (map_file willing output 0 (mebibytes 2) prot_write map_shared) 0 [] willing-IsReliable
      uneven-IsSync uneven-Overruns

-- An output of at most a block for each processor is not copied.
span_plan_short : span_plan 4 (mebibytes 4) ≡ ok none
unfolding span_plan
span_plan_short = refl

-- Seven blocks and four processors: seven spans of a block.
span_plan_seven : span_plan 4 (mebibytes 7) ≡ ok (some (mebibytes 1))
unfolding span_plan
span_plan_seven = refl

-- Without a processor the code divides by zero.
span_plan_unpinned : span_plan 0 5 ≡ err division_by_zero
unfolding span_plan
span_plan_unpinned = refl

chunks-span_plan_example :
    (span : ℕ) × (cs : List ChunkState) × (span_plan 2 (sum uneven_tail) ≡ ok (some span))
    × (chunks uneven_tail span (sum uneven_tail) ≡ ok cs)
    × (2 ≤ Common.length cs)
    × (Common.length cs < 2 * 2)
chunks-span_plan_example =
    chunks-span_plan uneven_tail 2 (omega arith) (omega arith) (omega arith) (omega arith)
      (omega arith) (omega arith)

-- Two files, one processor: two spans of a block each, on a system whose calls succeed.
length-resized : Common.length resized ≡ mebibytes 1 + 3
length-resized = omega (arith, length-append block_of_zeros.0 (0 ∷ 0 ∷ 0 ∷ []), block_of_zeros.1)

span_plan_two : span_plan 1 (mebibytes 1 + 3) ≡ ok (some (mebibytes 1))
unfolding span_plan
span_plan_two = refl

abbrev started : Pool ChunkState (List ℕ)
started = new_pool 1 spans_of_two.0 resized

start_spans_two : start_spans two_files 1 resized ≡ ok (some started)
unfolding start_spans
start_spans_two =
    let total : sum (lengths two_files) ≡ Common.length resized =
      omega (arith, length-resized, block_of_zeros.1) in
    ap (λ plan. plan >>= start_loop two_files 1 resized)
      (ap (span_plan 1) length-resized ∙ span_plan_two)
    ∙ ap (λ r. r >>= λ queued. ok (some (new_pool 1 queued resized)))
        (subst (λ n. chunks (lengths two_files) (mebibytes 1) n ≡ ok spans_of_two.0) total
          spans_of_two.1)

abbrev copy_willing : ChunkState → List ℕ → Result (List ℕ × ℕ)
copy_willing = copy_chunk willing two_files block_rule true

start_spans-Returns_example : Reports willing two_files true first_block copy_willing started
start_spans-Returns_example =
    start_spans-Returns willing two_files true first_block 1 resized started started (omega arith)
      (omega (arith, block_of_zeros.1)) (omega (arith, block_of_zeros.1))
      (omega (arith, block_of_zeros.1)) (omega (arith, length-resized, block_of_zeros.1))
      (omega arith) start_spans_two here

-- a state in which chunkedCopy has returned
two_spans_done : Reports willing two_files true first_block copy_willing started
two_spans_done =
    start_spans-Returns willing two_files true first_block 1 resized started started (omega arith)
      (omega (arith, block_of_zeros.1)) (omega (arith, block_of_zeros.1))
      (omega (arith, block_of_zeros.1)) (omega (arith, length-resized, block_of_zeros.1))
      (omega arith) start_spans_two here

start_spans-concat_example :
    (two_spans_done.1 ≡ 0 → IsWhole willing two_files true two_spans_done.0.shared.out)
    × (IsReliable willing → two_spans_done.1 ≡ 0)
start_spans-concat_example =
    start_spans-concat willing two_files true first_block 1 resized started two_spans_done.0
      two_spans_done.1 two_spans_done.2 (omega arith) (omega (arith, block_of_zeros.1))
      (omega (arith, block_of_zeros.1)) (omega (arith, block_of_zeros.1))
      (omega (arith, length-resized, block_of_zeros.1)) (omega arith) start_spans_two
      two_spans_done.3 two_spans_done.4

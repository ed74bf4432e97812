-- ===== src/ChunkSpans/Plan.antt =====
-- src/algorithm/chunkSpans/chunking.cxx: the span length that chunkedCopy chooses.
use pcat.InputFiles.{IsPositive}
use pcat.ChunkState.{ChunkState}
use pcat.ChunkSpans.{chunks}
use pcat.ChunkSpans.Known.{IsAligned}
use pcat.ChunkSpans.Chunks.{spans-Tiles}
use pcat.ChunkSpans.Count.{length-chunks}
use pcat.Common
use pcat.Common.{
  List, sum, ℕ, ◌+◌, ◌-◌, ◌*◌, ◌/◌, ◌%◌, ◌^◌, ◌≤◌, ◌<◌, ◌≡◌, ◌==◌, ltb, not, if◌then◌else◌, Option,
  none, some, Result, ok, err, division_by_zero, arith, refl,
}
use pcat.MappingOffset.{transfer_block_size}
use pcat.ChunkSpans.Span.{IsSpan}

-- The lengths are `size_t`. `none` is the short form of the algorithm, which copies nothing and
-- returns 0.
unfoldable pub span_plan : ℕ → ℕ → Result (Option ℕ)
span_plan processors length =
    let per_round = transfer_block_size * processors % 2 ^ 64 in
    if not (ltb per_round length)
    then ok none
    else (if per_round == 0
        then err division_by_zero
        else ok (some (length / per_round * transfer_block_size % 2 ^ 64)))

div_lt : (a m b : ℕ) → 0 < b → a < m * b → a / b < m
div_lt a m b pos h = grind arith

module _ (processors length : ℕ) (some_processor : 0 < processors) (few : processors ≤ 1024)
    (long : transfer_block_size * processors < length) (small : length < 2 ^ 63) where
  abbrev per_round : ℕ
  per_round = transfer_block_size * processors

  abbrev rounds : ℕ
  rounds = length / per_round

  rounds_low : rounds * per_round ≤ length
  rounds_low = grind arith

  rounds_high : length < (rounds + 1) * per_round
  rounds_high = grind arith

  rounds_pos : 0 < rounds
  rounds_pos = grind arith

  abbrev span : ℕ
  span = rounds * transfer_block_size

  span-rounds : span * processors ≡ rounds * per_round
  span-rounds = grind arith

  span_low : processors * span ≤ length
  span_low = grind (arith, span-rounds, rounds_low)

  span_twice : 2 ≤ processors → 2 * span ≤ length
  span_twice two = grind (arith, span_low)

  span_high : length < 2 * processors * span
  span_high = grind (arith, span-rounds, rounds_high, rounds_pos)

  span_pos : 0 < span
  span_pos = omega (arith, rounds_pos)

  span_small : span ≤ length
  span_small = grind (arith, span_low, some_processor)

  per_round-exact : transfer_block_size * processors % 2 ^ 64 ≡ per_round
  per_round-exact = omega arith

  pub span-exact : span % 2 ^ 64 ≡ span
  span-exact = omega (arith, span_small)

  pub span-IsSpan : IsSpan span
  span-IsSpan = record {
    one_block = grind (arith, rounds_pos);
    whole_blocks = grind arith;
    small = omega (arith, span_small);
  }

  pub span_plan-span : span_plan processors length ≡ ok (some span)
  unfolding span_plan
  span_plan-span = ground (arith, per_round-exact, span-exact)

  plan_low : processors ≤ length / span
  plan_low = grind (arith, span_low, rounds_pos)

  plan_high : length / span < 2 * processors
  plan_high = div_lt length (2 * processors) span (omega (arith, span_pos)) span_high

-- With two processors at least and 1024 at most, and an output longer than a block for each of them,
-- of files of less than 2^63 bytes in all that are not empty and, the last one aside, whole numbers of
-- blocks long: chunkedCopy chooses a span length, the loop over the chunker ends without a fault, and
-- it makes at least as many spans as there are processors, and less than twice as many.
pub chunks-span_plan :
    (files : List ℕ) (processors : ℕ)
    → IsPositive files
    → IsAligned files
    → 2 ≤ processors
    → processors ≤ 1024
    → transfer_block_size * processors < sum files
    → sum files < 2 ^ 63
    → (span : ℕ) × (cs : List ChunkState) × (span_plan processors (sum files) ≡ ok (some span))
      × (chunks files span (sum files) ≡ ok cs)
      × (processors ≤ Common.length cs)
      × (Common.length cs < 2 * processors)
chunks-span_plan files processors positive aligned two few long small =
    let length = sum files in
    let is_span = span-IsSpan processors length (omega arith) few long small in
    let span = span processors length (omega arith) few long small in
    let (cs, run, tiles) = spans-Tiles files positive aligned span is_span small in
    let low = span_low processors length (omega arith) few long small in
    let (count, sized) =
      length-chunks files span cs positive aligned is_span small
        (span_twice processors length (omega arith) few long small two) run in
    (
      span,
      cs,
      span_plan-span processors length (omega arith) few long small,
      run,
      omega (arith, count, plan_low processors length (omega arith) few long small),
      omega (arith, count, plan_high processors length (omega arith) few long small),
    )

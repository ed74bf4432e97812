-- ===== src/ChunkSpans/Span.antt =====
-- The lengths of the spans of chunkSpans.
use pcat.Common.{
  min, ◌-◌, ◌==◌, ℕ, ◌-◌, ◌*◌, ◌%◌, ◌^◌, ◌≤◌, ◌<◌, ◌≡◌, ltb, if◌then◌else◌, arith, min,
}
use pcat.MappingOffset.{transfer_block_size}
use pcat.ChunkSpans.{span_of, next_length}

-- A span length that chunkedCopy can ask for: whole blocks, and far from the end of `size_t`.
pub record IsSpan (span : ℕ) : Type 0 where
  pub one_block : transfer_block_size ≤ span
  pub whole_blocks : span % transfer_block_size ≡ 0
  pub small : span < 2 ^ 63

-- The last span takes what would be left behind it, if that is less than a span.
abbrev pub span_at : ℕ → ℕ → ℕ
span_at span left = if ltb left (2 * span) then left else span

-- The length of the span that begins at the byte `p`. The first one does not look ahead.
abbrev pub span_from : ℕ → ℕ → ℕ → ℕ
span_from span total p = if p == 0 then min span total else span_at span (total - p)

-- For a span of whole blocks and less than 2^63 bytes left, the comparison in `size_t`, with
-- its wrap-around, gives all that is left as the next span if that is less than two spans, and
-- one span otherwise.
pub next_length-span_at :
    (span left : ℕ) → IsSpan span → left < 2 ^ 63 → next_length span left ≡ span_at span left
unfolding next_length span_of
next_length-span_at span left v h = ground arith

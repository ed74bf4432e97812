-- ===== src/ChunkSpans/Count.antt =====
-- How many spans chunkSpans cuts the output into.
use pcat.Common.{
  ℕ, ◌+◌, ◌-◌, ◌*◌, ◌/◌, ◌≤◌, ◌<◌, ◌≡◌, ◌⊎◌, inl, inr, List, [], ◌∷◌, sum, arith, ◌^◌, ok,
  ok-injective, subst, sym, ◌∙◌, dec_lt,
}
use pcat.Common
use pcat.MappingOffset.{length}
use pcat.InputFiles.{IsPositive}
use pcat.ChunkState.{ChunkState}
use pcat.ChunkSpans.{chunks}
use pcat.ChunkSpans.Known.{IsAligned}
use pcat.ChunkSpans.Span.{IsSpan}
use pcat.ChunkSpans.Chunks.{Tiles, spans-Tiles}

-- `n` spans of at least `span` bytes fill `left` bytes, with less than a span to spare.
abbrev pub Counts : ℕ → ℕ → ℕ → Type 0
Counts span left n = (n * span ≤ left) × (left < (n + 1) * span)

Tiles-Counts :
    (files : List ℕ) (span p : ℕ) (cs : List ChunkState)
    → Tiles files span p cs
    → 0 < p
    → 0 < span
    → p ≤ sum files
    → (p ≡ sum files) ⊎ (span ≤ sum files - p)
    → Counts span (sum files - p) (Common.length cs)
Tiles-Counts files span p [] t pos pos' le h = (omega arith, omega arith)
Tiles-Counts files span p (s ∷ cs) (at, size, whole, more, v, known, rest) pos pos' le h =
    elim (dec_lt (sum files - p) (2 * span)) [
      | yes last ↦
          let r : p + length s.output_offset ≡ sum files = ground arith in
          let ih =
            Tiles-Counts files span (p + length s.output_offset) cs rest (omega arith) pos'
              (omega arith) (inl r) in
          (ground arith, omega arith)
      | no inner ↦
          let r : length s.output_offset ≡ span = ground arith in
          let ih =
            Tiles-Counts files span (p + length s.output_offset) cs rest (omega arith) pos'
              (omega arith) (inr (omega arith)) in
          (omega arith, omega arith)
    ]

pub ok-Tiles :
    (files : List ℕ) (span : ℕ) (cs : List ChunkState)
    → IsPositive files
    → IsAligned files
    → IsSpan span
    → sum files < 2 ^ 63
    → chunks files span (sum files) ≡ ok cs
    → Tiles files span 0 cs
ok-Tiles files span cs positive aligned is_span small run =
    let (cs', run', tiles) = spans-Tiles files positive aligned span is_span small in
    subst (Tiles files span 0) (ok-injective (sym run' ∙ run)) tiles

first-Counts :
    (files : List ℕ) (span : ℕ) (cs : List ChunkState)
    → IsSpan span
    → 2 * span ≤ sum files
    → Tiles files span 0 cs
    → Counts span (sum files) (Common.length cs)
first-Counts files span [] is_span long t = absurd (omega (arith, is_span.one_block))
first-Counts files span (s ∷ cs) is_span long (at, size, whole, more, v, known, rest) =
    let r : length s.output_offset ≡ span = ground arith in
    let ih =
      Tiles-Counts files span (0 + length s.output_offset) cs rest (omega arith) (omega arith)
        (omega arith) (inr (omega arith)) in
    (omega arith, omega arith)

-- Chunks that fill `left` bytes, each a span long but for the last one, which takes what is left: a span
-- at least and less than two.
abbrev pub Sized : ℕ → ℕ → List ChunkState → Type 0
Sized span left [] = left ≡ 0
Sized span left (s ∷ []) = (length s.output_offset ≡ left) × (span ≤ left) × (left < 2 * span)
Sized span left (s ∷ t ∷ cs) = (length s.output_offset ≡ span) × Sized span (left - span) (t ∷ cs)

Tiles-Sized :
    (files : List ℕ) (span p : ℕ) (cs : List ChunkState)
    → Tiles files span p cs
    → 0 < p
    → 0 < span
    → p < sum files
    → span ≤ sum files - p
    → Sized span (sum files - p) cs
Tiles-Sized files span p [] t pos pos' le h = absurd (omega arith)
Tiles-Sized files span p (s ∷ []) (at, size, whole, more, v, known, rest) pos pos' le h =
    (omega (arith, rest), h, ground arith)
Tiles-Sized files span p (s ∷ t ∷ cs) (at, size, whole, more, v, known, rest) pos pos' le h =
    let next : p + length s.output_offset < sum files =
      omega (arith, rest.0, rest.3, rest.4.bounded) in
    let long : 2 * span ≤ sum files - p = ground arith in
    let r : length s.output_offset ≡ span = ground arith in
    (
      r,
      subst (λ left. Sized span left (t ∷ cs)) (omega arith)
          (Tiles-Sized files span (p + length s.output_offset) (t ∷ cs) rest (omega arith) pos' next
            (omega arith)),
    )

first-Sized :
    (files : List ℕ) (span : ℕ) (cs : List ChunkState)
    → IsSpan span
    → 2 * span ≤ sum files
    → Tiles files span 0 cs
    → Sized span (sum files) cs
first-Sized files span [] is_span long t = absurd (omega (arith, is_span.one_block))
first-Sized files span (s ∷ []) is_span long (at, size, whole, more, v, known, rest) =
    let r : length s.output_offset ≡ span = ground arith in
    absurd (omega (arith, rest, is_span.one_block))
first-Sized files span (s ∷ t ∷ cs) is_span long (at, size, whole, more, v, known, rest) =
    let r : length s.output_offset ≡ span = ground arith in
    (
      r,
      subst (λ left. Sized span left (t ∷ cs)) (omega arith)
          (Tiles-Sized files span (0 + length s.output_offset) (t ∷ cs) rest (omega arith)
            (omega (arith, is_span.one_block)) (omega (arith, is_span.one_block)) (omega arith)),
    )

-- For files that are not empty, of less than 2^63 bytes in all, that are, the last one aside,
-- whole numbers of blocks long, and a span of whole blocks: if the output has at least two spans,
-- and the loop over the chunker ends without a fault, it makes as many chunks as spans fit into
-- the output. Each is a span long but the last one, which takes what is left.
pub length-chunks :
    (files : List ℕ) (span : ℕ) (cs : List ChunkState)
    → IsPositive files
    → IsAligned files
    → IsSpan span
    → sum files < 2 ^ 63
    → 2 * span ≤ sum files
    → chunks files span (sum files) ≡ ok cs
    → (Common.length cs ≡ sum files / span) × Sized span (sum files) cs
length-chunks files span cs positive aligned is_span small long run =
    let tiles = ok-Tiles files span cs positive aligned is_span small run in
    let (low, high) = first-Counts files span cs is_span long tiles in
    (grind (arith, is_span.one_block), first-Sized files span cs is_span long tiles)

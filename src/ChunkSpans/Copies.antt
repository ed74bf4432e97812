-- ===== src/ChunkSpans/Copies.antt =====
-- The spans of chunkSpans, copied by copyChunk in any order.
use mathlib.Core.List.{Permᴰ}
use pcat.Common.{
  ℕ, ◌+◌, ◌-◌, ◌%◌, ◌^◌, ◌≤◌, ◌<◌, ◌≡◌, ◌≢◌, ◌⊎◌, inl, inr, List, [], ◌∷◌, Bool, ok, sum, arith,
  All, dec_lt,
}
use pcat.Common
use pcat.MappingOffset.{transfer_block_size, length, offset, adjustment}
use pcat.InputFiles.{IsPositive}
use pcat.Bytes.{concat, lengths}
use pcat.ChunkState.{ChunkState}
use pcat.ChunkState.Walk.{IsSync}
use pcat.Mmap.{Os}
use pcat.Mmap.Laws.{IsReliable}
use pcat.Copy.{run_chunks}
use pcat.Copy.Order.{Covers, IsZero, IsJob, run_chunks-concat}
use pcat.ChunkSpans.{block_rule, chunks}
use pcat.ChunkSpans.Known.{Known, Known-IsKept, IsAligned}
use pcat.ChunkSpans.Span.{IsSpan}
use pcat.ChunkSpans.Chunks.{Tiles}
use pcat.ChunkSpans.Count.{ok-Tiles}

pub Tiles-Covers :
    (files : List ℕ) (span p : ℕ) (cs : List ChunkState)
    → Tiles files span p cs
    → (i : ℕ) → p ≤ i
    → i < sum files
    → Covers i cs
Tiles-Covers files span p [] t i lo hi = absurd (omega arith)
Tiles-Covers files span p (s ∷ cs) t i lo hi = elim (dec_lt i (p + length s.output_offset)) [
  | yes now ↦ inl (omega (arith, t.0), omega (arith, t.0))
  | no later ↦ inr (Tiles-Covers files span (p + length s.output_offset) cs t.6 i (omega arith) hi)
]

span_start :
    (files : List ℕ) (s : ChunkState) (p : ℕ)
    → IsSync files s
    → offset s.output_offset ≡ p
    → p % transfer_block_size ≡ 0
    → adjustment s.output_offset ≡ 0
unfolding offset adjustment
span_start files s p v at aligned = omega (arith, v.paged.1)

pub Tiles-IsJob :
    (files : List ℕ) (span p : ℕ) (cs : List ChunkState)
    → Tiles files span p cs
    → All (IsJob files Known) cs
Tiles-IsJob files span p [] t = tt
Tiles-IsJob files span p (s ∷ cs) (at, size, whole, pos, v, known, rest) = (
  (v, known, span_start files s p v at whole),
  Tiles-IsJob files span (p + length s.output_offset) cs rest,
)

-- For input files that are not empty, of less than 2^63 bytes in all, that are, the last one
-- aside, whole numbers of blocks long, a span of whole blocks, and a system that sets `errno`
-- where a call fails: the spans that the loop over the chunker gives may be copied in any order,
-- into an output that has been resized to the total length. If the calls of the system succeed
-- every copy returns 0, and the output is then the concatenation of the input files.
pub spans-concat :
    (os : Os) (contents : List (List ℕ)) (is_sync : Bool) (span : ℕ) (cs order : List ChunkState)
    (out : List ℕ)
    → os.errno ≢ 0
    → IsPositive (lengths contents)
    → IsAligned (lengths contents)
    → IsSpan span
    → sum (lengths contents) < 2 ^ 63
    → chunks (lengths contents) span (sum (lengths contents)) ≡ ok cs
    → Permᴰ cs order
    → Common.length out ≡ sum (lengths contents)
    → IsReliable os
    → (out' : List ℕ) × (codes : List ℕ) × (run_chunks os contents block_rule is_sync order out
        ≡ ok (out', codes))
      × IsZero codes
      × (out' ≡ concat contents)
spans-concat os contents is_sync span cs order out fails positive aligned is_span small run perm
      whole reliable =
    let files = lengths contents in
    let tiles = ok-Tiles files span cs positive aligned is_span small run in
    let (out', codes, e, same, zero_if) =
      run_chunks-concat os fails contents block_rule Known (Known-IsKept files positive aligned)
        positive is_sync cs order out (Tiles-IsJob files span 0 cs tiles)
        (λ i h. Tiles-Covers files span 0 cs tiles i (omega arith) h) perm whole in
    (out', codes, e, zero_if reliable, (same (zero_if reliable)).0)

-- ===== src/ChunkSpans/Chunks.antt =====
-- The whole iteration over a chunkSpans fileChunker_t.
use pcat.Common.{
  subst, ℕ, zero, suc, ◌+◌, ◌-◌, ◌*◌, ◌/◌, ◌%◌, ◌^◌, ◌≤◌, ◌<◌, ◌≡◌, ◌==◌, ◌&&◌, true, false, List,
  [], ◌∷◌, sum, arith, dec_lt, refl, ok, min,
}
use pcat.Common
use pcat.MappingOffset.{
  block_length, transfer_block_size, length, offset, at_block, at_offset, set_length, empty,
}
use pcat.MappingOffset.Laws.{
  offsets, at_block-IsPaged, set_length-IsPaged, empty-IsPaged, offset-empty, offset-at_block,
  offset-at_offset, offset-set_length, length-set_length,
}
use pcat.InputFiles.{IsPositive, length_at, length_at_total, length_at-end}
use pcat.ChunkState.{ChunkState}
use pcat.ChunkState.Walk.{IsSync}
use pcat.ChunkState.Skip.{IsAt, IsSync-IsAt, IsAt-end, IsAt-left}
use pcat.ChunkSpans.{Chunking, subchunk_state, is_equal, span_of, begin, end, chunks_from, chunks}
use pcat.ChunkSpans.Known.{Known, IsAligned}
use pcat.ChunkSpans.Span.{IsSpan, span_from}
use pcat.ChunkSpans.Next.{IsChunking, has_span, chunking-Known, next-IsChunking}

-- The spans follow one another from the byte `p` of the output to its end, each as long as
-- `span_from` says, and each starts in step with the input.
abbrev pub Tiles : List ℕ → ℕ → ℕ → List ChunkState → Type 0
Tiles files span p [] = p ≡ sum files
Tiles files span p (s ∷ rest) =
    (offset s.output_offset ≡ p)
    × (length s.output_offset ≡ span_from span (sum files) p)
    × (p % transfer_block_size ≡ 0)
    × (0 < length s.output_offset)
    × IsSync files s
    × Known s
    × Tiles files span (p + length s.output_offset) rest

-- the chunker that the loop stops at
abbrev stop_at : List ℕ → ℕ → Chunking
stop_at files span = record {
  span_length = span;
  file = Common.length files;
  input_length = 0;
  input_offset = at_block 0 (block_length 0);
  output_length = sum files;
  output_offset = at_offset (sum files);
}

module _ (files : List ℕ) (positive : IsPositive files) (aligned : IsAligned files) (span : ℕ)
    (is_span : IsSpan span) (small : sum files < 2 ^ 63) where
  end-stop_at : end files span (sum files) ≡ ok (stop_at files span)
  unfolding end
  end-stop_at = rw (length_at-end files)

  module _ (c : Chunking) (v : IsChunking files span c) where
    running : offset c.output_offset < sum files → is_equal c (stop_at files span) ≡ false
    unfolding is_equal
    running more = ground (arith, offset-at_offset (sum files))

    finished : offset c.output_offset ≡ sum files → is_equal c (stop_at files span) ≡ true
    unfolding is_equal
    finished done =
        let at =
          IsAt-end files positive (subchunk_state c)
            (subst (IsAt files (subchunk_state c)) done (IsSync-IsAt v.sync)) in
        ground (arith, at, offset-at_offset (sum files), offset-at_block 0 (block_length 0))

  -- With enough fuel the loop ends, and its spans tile what is left of the output.
  chunks_from-Tiles :
      (fuel : ℕ) (c : Chunking)
      → IsChunking files span c
      → sum files - offset c.output_offset < fuel
      → (cs : List ChunkState) × (chunks_from files fuel (stop_at files span) c ≡ ok cs)
        × Tiles files span (offset c.output_offset) cs
  unfolding chunks_from
  chunks_from-Tiles zero c v h = elim h [ ]
  chunks_from-Tiles (suc fuel) c v h = elim (dec_lt (offset c.output_offset) (sum files)) [
    | yes more ↦
        let (c', step, v', at) =
          next-IsChunking files positive aligned span is_span small c v more in
        let pos = has_span files positive aligned span is_span small c v more in
        let (cs, run, tiles) = chunks_from-Tiles fuel c' v' (omega arith) in
        (
          subchunk_state c ∷ cs,
          rw (running c v more, chunks_from, step, run),
          (
            refl,
            v.out_span,
            v.whole_blocks more,
            pos,
            v.sync,
            chunking-Known files positive aligned span is_span small c v more,
            subst (λ q. Tiles files span q cs) at tiles,
          ),
        )
    | no done ↦
        let full : offset c.output_offset ≡ sum files = omega (arith, v.sync.bounded) in
        ([], rw (finished c v full, chunks_from), full)
  ]

  abbrev first : ℕ → Chunking
  first l = record {
    span_length = span;
    file = 0;
    input_length = l;
    input_offset = at_block 0 (block_length l);
    output_length = sum files;
    output_offset = set_length empty (span_of span (sum files - offset empty));
  }

  first-IsAt :
      (l : ℕ)
      → length_at files 0 ≡ ok l
      → (0 < Common.length files → 0 < l)
      → IsAt files (subchunk_state (first l)) 0
  first-IsAt l e pos = record {
    file_le = omega arith;
    current = e;
    place = omega offsets;
    inner = λ h. omega (offsets, pos h);
    within = omega offsets;
    paged = at_block-IsPaged 0 _;
  }

  first-IsChunking :
      (l : ℕ) → IsAt files (subchunk_state (first l)) 0 → IsChunking files span (first l)
  unfolding block_length span_of
  first-IsChunking l a =
      let left = IsAt-left files positive (subchunk_state (first l)) 0 a in
      record {
        sync = record {
          file_le = a.file_le;
          current = a.current;
          place = omega (offsets, a.place);
          inside = omega offsets;
          fits = omega (offsets, left, is_span.one_block);
          live = λ h. omega (offsets, left.2);
          inner = a.inner;
          bounded = omega offsets;
          paged = (a.paged, set_length-IsPaged _ empty-IsPaged);
        };
        whole = refl;
        same_span = refl;
        in_block = omega offsets;
        out_span = ground (
          arith,
          offset-set_length empty (min span (sum files - offset empty)),
          length-set_length empty (min span (sum files - offset empty)),
          offset-empty,
        );
        whole_blocks = λ h. omega offsets;
      }

  begin-IsChunking :
      (c : Chunking) × (begin files span (sum files) ≡ ok c)
      × IsChunking files span c
      × (offset c.output_offset ≡ 0)
  unfolding begin
  begin-IsChunking =
      let (l, e, pos) = length_at_total files 0 (omega arith) positive in
      (
        first l,
        ground (arith, e, offset-empty),
        first-IsChunking l (first-IsAt l e pos),
        omega offsets,
      )

  -- The loop over the chunkSpans chunker, with files that are not empty, of less than 2^63
  -- bytes in all, and, the last one aside, whole numbers of blocks long, and with a span of
  -- whole blocks: it ends without a fault, and the spans tile the output.
  pub spans-Tiles :
      (cs : List ChunkState) × (chunks files span (sum files) ≡ ok cs) × Tiles files span 0 cs
  unfolding chunks
  spans-Tiles =
      let (c, e, v, at) = begin-IsChunking in
      let (cs, run, tiles) = chunks_from-Tiles (suc (sum files)) c v (omega arith) in
      (cs, rw (end-stop_at, e, run), subst (λ q. Tiles files span q cs) at tiles)

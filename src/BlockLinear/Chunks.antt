-- ===== src/BlockLinear/Chunks.antt =====
-- The whole iteration over a blockLinear fileChunker_t.
use pcat.Common.{
  subst, ◌≢◌, ℕ, zero, suc, ◌+◌, ◌-◌, ◌*◌, ◌/◌, ◌%◌, ◌≤◌, ◌<◌, ◌≡◌, ◌⊎◌, ◌&&◌, ◌==◌, true, false,
  List, [], ◌∷◌, sum, arith, dec_lt, refl, ok, err, past_end, inl, inr,
}
use pcat.Common
use pcat.MappingOffset.{
  block_length, transfer_block_size, length, offset, at_block, at_offset, set_length, empty,
}
use pcat.MappingOffset.Laws.{
  offsets, at_block-IsPaged, set_length-IsPaged, empty-IsPaged, offset-empty, offset-at_block,
  offset-at_offset,
}
use pcat.InputFiles.{IsPositive, length_at, length_at_total, length_at-end, start-le}
use pcat.ChunkState.{ChunkState}
use pcat.ChunkState.Walk.{IsSync}
use pcat.ChunkState.Skip.{IsAt, IsSync-IsAt, IsAt-end, IsAt-left}
use pcat.BlockLinear.{Chunking, subchunk_state, is_equal, begin, end, chunks_from, chunks}
use pcat.BlockLinear.Known.{Known}
use pcat.BlockLinear.CatchUp.{IsChunking, chunking-Known}
use pcat.BlockLinear.Next.{next-IsChunking, next-past_end}
use pcat.BlockLinear.Last.{LastBlockIsSingle, single-same, not_single-differs}

-- The blocks follow one another from the byte `p` of the output to its end, each as long as
-- `transferBlockSize` and the output allow, and each starts in step with the input.
abbrev pub Tiles : List ℕ → ℕ → List ChunkState → Type 0
Tiles files p [] = p ≡ sum files
Tiles files p (s ∷ rest) =
    (offset s.output_offset ≡ p)
    × (length s.output_offset ≡ block_length (sum files - p))
    × (0 < length s.output_offset)
    × IsSync files s
    × Known s
    × Tiles files (p + length s.output_offset) rest

-- the chunker that the loop stops at
abbrev stop_at : List ℕ → Chunking
stop_at files = record {
  file = Common.length files;
  input_length = 0;
  input_offset = at_block 0 (block_length 0);
  output_length = sum files;
  output_offset = at_offset (sum files);
}

module _ (files : List ℕ) (positive : IsPositive files) where
  end-stop_at : end files (sum files) ≡ ok (stop_at files)
  unfolding end
  end-stop_at = rw (length_at-end files)

  module _ (c : Chunking) (v : IsChunking files c) where
    running : offset c.output_offset < sum files → is_equal c (stop_at files) ≡ false
    unfolding is_equal
    running more = ground (arith, offset-at_offset (sum files))

    finished : offset c.output_offset ≡ sum files → is_equal c (stop_at files) ≡ true
    unfolding is_equal
    finished done =
        let at =
          IsAt-end files positive (subchunk_state c)
            (subst (IsAt files (subchunk_state c)) done (IsSync-IsAt v.sync)) in
        ground (arith, at, offset-at_offset (sum files), offset-at_block 0 (block_length 0))

    Chunking-IsSync : IsSync files (subchunk_state c)
    Chunking-IsSync = v.sync

    step_within :
        offset c.output_offset < sum files
        → (0 < length c.output_offset)
          × (offset c.output_offset + length c.output_offset ≤ sum files)
          × (offset c.output_offset % transfer_block_size ≡ 0
              → offset c.output_offset + length c.output_offset < sum files
              → (offset c.output_offset + length c.output_offset) % transfer_block_size ≡ 0)
    unfolding block_length
    step_within more =
        (omega (arith, v.out_block), v.sync.bounded, λ a h. omega (arith, v.out_block))

  -- With enough fuel the loop ends, and its blocks tile what is left of the output.
  chunks_from-Tiles :
      LastBlockIsSingle files
      → (fuel : ℕ) (c : Chunking) → IsChunking files c
      → (offset c.output_offset < sum files → offset c.output_offset % transfer_block_size ≡ 0)
      → sum files - offset c.output_offset < fuel
      → (cs : List ChunkState) × (chunks_from files fuel (stop_at files) c ≡ ok cs)
        × Tiles files (offset c.output_offset) cs
  unfolding chunks_from
  chunks_from-Tiles single zero c v al h = elim h [ ]
  chunks_from-Tiles single (suc fuel) c v al h =
      elim (dec_lt (offset c.output_offset) (sum files)) [
        | yes more ↦
            let same = λ (full : offset c.output_offset + length c.output_offset ≡ sum files).
              single-same files positive c v (al more) more full single in
            let (c', step, v', at) = next-IsChunking files positive c v more same in
            let (pos, within, aligned) = step_within c v more in
            let (cs, run, tiles) =
              chunks_from-Tiles single fuel c' v' (λ q. rw at (aligned (al more) (omega arith)))
                (omega arith) in
            (
              subchunk_state c ∷ cs,
              rw (running c v more, chunks_from, step, run),
              (
                refl,
                v.out_block,
                pos,
                v.sync,
                chunking-Known files positive c v,
                subst (λ q. Tiles files q cs) at tiles,
              ),
            )
        | no done ↦
            let full : offset c.output_offset ≡ sum files = omega (arith, v.sync.bounded) in
            ([], rw (finished c v full, chunks_from), full)
      ]

  -- Otherwise it runs past the end of the input, after its last block.
  chunks_from-past_end :
      ¬ LastBlockIsSingle files
      → (fuel : ℕ) (c : Chunking) → IsChunking files c
      → offset c.output_offset < sum files
      → offset c.output_offset % transfer_block_size ≡ 0
      → sum files - offset c.output_offset < fuel
      → chunks_from files fuel (stop_at files) c ≡ err past_end
  unfolding chunks_from
  chunks_from-past_end many zero c v more al h = elim h [ ]
  chunks_from-past_end many (suc fuel) c v more al h =
      let (pos, within, aligned) = step_within c v more in
      elim (dec_lt (offset c.output_offset + length c.output_offset) (sum files)) [
        | yes rest ↦
            let (c', step, v', at) =
              next-IsChunking files positive c v more (λ full. absurd (omega arith)) in
            rw (running c v more, chunks_from, step)
              (rw (
                chunks_from-past_end many fuel c' v' (omega arith) (rw at (aligned al rest))
                  (omega arith)))
        | no last ↦
            let full : offset c.output_offset + length c.output_offset ≡ sum files = omega arith in
            let differs = not_single-differs files positive c v al more full many in
            rw (
              running c v more,
              chunks_from,
              next-past_end files positive c v more full (omega arith),
            )
      ]

  abbrev first : ℕ → Chunking
  first l = record {
    file = 0;
    input_length = l;
    input_offset = at_block 0 (block_length l);
    output_length = sum files;
    output_offset = set_length empty (block_length (sum files - offset empty));
  }

  first-IsAt :
      (l : ℕ)
      → length_at files 0 ≡ ok l
      → (0 < Common.length files → 0 < l)
      → IsAt files (subchunk_state (first l)) 0
  first-IsAt l e pos = record {
    file_le = omega arith;
    current = e;
    place = omega offsets;
    inner = λ h. omega (offsets, pos h);
    within = omega offsets;
    paged = at_block-IsPaged 0 _;
  }

  first-IsChunking : (l : ℕ) → IsAt files (subchunk_state (first l)) 0 → IsChunking files (first l)
  unfolding block_length
  first-IsChunking l a =
      let left = IsAt-left files positive (subchunk_state (first l)) 0 a in
      record {
        sync = record {
          file_le = a.file_le;
          current = a.current;
          place = omega (offsets, a.place);
          inside = omega offsets;
          fits = omega (offsets, left);
          live = λ h. omega (offsets, left.2);
          inner = a.inner;
          bounded = omega offsets;
          paged = (a.paged, set_length-IsPaged _ empty-IsPaged);
        };
        whole = refl;
        in_block = omega offsets;
        out_block = omega offsets;
      }

  begin-IsChunking :
      (c : Chunking) × (begin files (sum files) ≡ ok c)
      × IsChunking files c
      × (offset c.output_offset ≡ 0)
  unfolding begin
  begin-IsChunking =
      let (l, e, pos) = length_at_total files 0 (omega arith) positive in
      (
        first l,
        ground (arith, e, offset-empty),
        first-IsChunking l (first-IsAt l e pos),
        omega offsets,
      )

  not_single-pos : ¬ LastBlockIsSingle files → 0 < sum files
  not_single-pos many = elim (dec_lt 0 (sum files)) [
    | yes h ↦ h
    | no h ↦ let bound = start-le files (Common.length files - 1) in absurd (many (omega arith))
  ]

  -- The loop over the blockLinear chunker, with files that are not empty and a last block that lies in
  -- the last file: it ends without a fault, and the blocks tile the output.
  pub chunks-Tiles :
      LastBlockIsSingle files
      → (cs : List ChunkState) × (chunks files (sum files) ≡ ok cs) × Tiles files 0 cs
  unfolding chunks
  chunks-Tiles single =
      let (c, e, v, at) = begin-IsChunking in
      let (cs, run, tiles) =
        chunks_from-Tiles single (suc (sum files)) c v (λ _. rw at) (omega arith) in
      (cs, rw (end-stop_at, e, run), subst (λ q. Tiles files q cs) at tiles)

  -- For files that are not empty, with a last block that begins before the last file, the loop
  -- moves its iterator past the end of `inputFiles`.
  pub chunks-past_end : ¬ LastBlockIsSingle files → chunks files (sum files) ≡ err past_end
  unfolding chunks
  chunks-past_end many =
      let (c, e, v, at) = begin-IsChunking in
      rw (end-stop_at, e)
        (chunks_from-past_end many (suc (sum files)) c v (omega (arith, not_single-pos many))
          (rw at) (omega arith))

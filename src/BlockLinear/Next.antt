-- ===== src/BlockLinear/Next.antt =====
-- `chunking_t::operator ++` of blockLinear: where it goes, and where it leaves the input.
use pcat.Common.{
  refl, ◌==◌, false, ℕ, ◌+◌, ◌-◌, ◌≤◌, ◌<◌, ◌≡◌, ◌≢◌, refl, List, ok, err, past_end, sum, arith,
  subst, ap, sym, ◌∙◌,
}
use pcat.Common
use pcat.MappingOffset.{block_length, length, offset, set_length, add}
use pcat.MappingOffset.Laws.{offsets, offset-add, set_length-IsPaged, add-IsPaged}
use pcat.InputFiles.{IsPositive}
use pcat.ChunkState.{ChunkState, skip_block}
use pcat.ChunkState.Skip.{IsAt, IsAt-left, skip_block-IsAt, skip_block-past_end}
use pcat.BlockLinear.{Chunking, subchunk_state, next_input_block, next_output_block, next}
use pcat.BlockLinear.CatchUp.{IsChunking, resumed, catch_up-resumed}

module _ (files : List ℕ) (positive : IsPositive files) where
  -- the chunker that stands at the place of `s`, its output block from `q` on
  abbrev rebuilt : Chunking → ChunkState → Chunking
  rebuilt c s = record {
    file = s.file;
    input_length = s.input_length;
    input_offset =
        set_length s.input_offset (block_length (s.input_length - offset s.input_offset));
    output_length = c.output_length;
    output_offset =
        (let moved = add c.output_offset (length c.output_offset) in
          set_length moved (block_length (c.output_length - offset moved)));
  }

  rebuilt-IsChunking :
      (c : Chunking) (s : ChunkState)
      → c.output_length ≡ sum files
      → IsAt files s (offset c.output_offset + length c.output_offset)
      → IsChunking files (rebuilt c s)
  unfolding block_length
  rebuilt-IsChunking c s whole a =
      let left = IsAt-left files positive s _ a in
      record {
        sync = record {
          file_le = a.file_le;
          current = a.current;
          place = omega (offsets, a.place);
          inside = omega (offsets, a.within);
          fits = omega (offsets, left);
          live = λ h. omega (offsets, left.2);
          inner = λ h. omega (offsets, a.inner);
          bounded = omega (offsets, left);
          paged =
              (set_length-IsPaged _ a.paged, set_length-IsPaged _ (add-IsPaged c.output_offset _));
        };
        whole = whole;
        in_block = omega offsets;
        out_block = omega offsets;
      }

  abbrev placed : Chunking → ChunkState → Chunking
  placed c s = record c {
    file = s.file;
    input_length = s.input_length;
    input_offset =
        set_length s.input_offset (block_length (s.input_length - offset s.input_offset));
  }

  next_input_block-placed :
      (c : Chunking) (s : ChunkState)
      → skip_block files (subchunk_state c) ≡ ok s
      → offset s.input_offset ≤ s.input_length
      → next_input_block files c ≡ ok (placed c s)
  unfolding next_input_block
  next_input_block-placed c s e h = ground (arith, e)

  next_output_block-rebuilt :
      (c d : Chunking) (s : ChunkState)
      → d.output_offset ≡ c.output_offset
      → d.output_length ≡ c.output_length
      → offset c.output_offset + length c.output_offset ≤ c.output_length
      → next_output_block files (placed d s) ≡ ok (rebuilt c s)
  unfolding next_output_block
  next_output_block-rebuilt c d s e l h =
      ground (arith, offset-add c.output_offset (length c.output_offset))

  module _ (c : Chunking) (v : IsChunking files c) (more : offset c.output_offset < sum files) where
    not_done : (offset c.output_offset == c.output_length) ≡ false
    not_done = ground (arith, v.whole)

    -- Unless the last output block spans several files, the chunker goes on to the byte after its
    -- output block, in step with the input.
    pub next-IsChunking :
        (offset c.output_offset + length c.output_offset ≡ sum files
          → length c.input_offset ≡ length c.output_offset)
        → (c' : Chunking) × (next files c ≡ ok c')
          × IsChunking files c'
          × (offset c'.output_offset ≡ offset c.output_offset + length c.output_offset)
    unfolding next
    next-IsChunking single =
        let (s1, caught, u) = catch_up-resumed files positive c v more in
        let c1 : Chunking = resumed files positive c v s1 in
        let before : s1.file < Common.length files =
          grind (arith, v.sync.bounded, u.before, single) in
        let (s, skip, at) =
          skip_block-IsAt files positive (subchunk_state c1) before u.current u.inside in
        let at' : IsAt files s (offset c.output_offset + length c.output_offset) =
          subst (IsAt files s) u.place at in
        (
          rebuilt c s,
          rw (not_done, caught, next_input_block-placed c1 s skip at.within)
              (next_output_block-rebuilt c c1 s refl refl (omega (arith, v.sync.bounded, v.whole))),
          rebuilt-IsChunking c s v.whole at',
          omega offsets,
        )

    -- If it does, the iterator is moved past the end of the input.
    pub next-past_end :
        offset c.output_offset + length c.output_offset ≡ sum files
        → length c.input_offset ≢ length c.output_offset
        → next files c ≡ err past_end
    unfolding next next_input_block
    next-past_end full ne =
        let (s1, caught, u) = catch_up-resumed files positive c v more in
        let c1 : Chunking = resumed files positive c v s1 in
        rw (
          not_done,
          caught,
          skip_block-past_end files positive (subchunk_state c1) (u.last ne full) u.current
              u.inside,
        )

-- ===== src/ChunkSpans/Next.antt =====
-- `chunking_t::operator ++` of chunkSpans.
use pcat.Common.{
  ℕ, ◌+◌, ◌-◌, ◌*◌, ◌%◌, ◌^◌, ◌≤◌, ◌<◌, ◌≡◌, ◌≢◌, ◌⊎◌, ◌==◌, inl, inr, refl, List, ok, err, true,
  false, sum, arith, subst, ap, sym, ◌∙◌, min, dec_lt, ℕ_discrete, ltb, if◌then◌else◌,
}
use pcat.Common
use pcat.MappingOffset.{
  MappingOffset, block_length, transfer_block_size, length, offset, set_length, add,
}
use pcat.MappingOffset.Laws.{
  IsPaged, offsets, length-set_length, offset-set_length, offset-add, set_length-IsPaged,
  add-IsPaged,
}
use pcat.InputFiles.{IsPositive, before_end}
use pcat.ChunkState.{ChunkState, skip_block}
use pcat.ChunkState.Walk.{IsSync}
use pcat.ChunkState.Skip.{IsAt, IsAt-left, skip_block-IsAt}
use pcat.ChunkState.CatchUp.{IsCaughtUp, catch_up-IsCaughtUp}
use pcat.ChunkSpans.{
  Chunking, subchunk_state, block_rule, catch_up, next_input_block, next_span, next_length, next,
}
use pcat.ChunkSpans.Known.{Known, Known-IsKept, IsAligned, start-aligned}
use pcat.ChunkSpans.Span.{IsSpan, span_at, span_from, next_length-span_at}

-- The chunker stands in step with the input, at a whole number of blocks, with a span of the length
-- `span` or of what is left.
pub record IsChunking (files : List ℕ) (span : ℕ) (c : Chunking) : Type 0 where
  pub sync : IsSync files (subchunk_state c)
  pub whole : c.output_length ≡ sum files
  pub same_span : c.span_length ≡ span
  pub in_block : length c.input_offset ≡ block_length (c.input_length - offset c.input_offset)
  pub out_span : length c.output_offset ≡ span_from span (sum files) (offset c.output_offset)
  pub whole_blocks :
      offset c.output_offset < sum files → offset c.output_offset % transfer_block_size ≡ 0

empty_block : (k l o : ℕ) → l ≡ 0 → k ≤ l → k ≡ block_length (l - o)
unfolding block_length
empty_block k l o e h = omega arith

abbrev placed : Chunking → ChunkState → Chunking
placed d s = record d {
  file = s.file;
  input_length = s.input_length;
  input_offset = set_length s.input_offset (block_length (s.input_length - offset s.input_offset));
}

module _ (files : List ℕ) (positive : IsPositive files) (aligned : IsAligned files) (span : ℕ)
    (is_span : IsSpan span) (small : sum files < 2 ^ 63) where
  module _ (c : Chunking) (v : IsChunking files span c) where
    open v use {sync, in_block, out_span, whole_blocks}

    module _ (more : offset c.output_offset < sum files) where
      pub has_span : 0 < length c.output_offset
      has_span = ground (arith, is_span.one_block)

      pub chunking-Known : Known (subchunk_state c)
      unfolding block_length
      chunking-Known =
          let before =
            before_end files c.file c.input_length sync.file_le sync.current
              (omega (arith, sync.inside, sync.live has_span)) in
          ground (arith, start-aligned files c.file aligned before, sync.place, whole_blocks)

      -- A span that is not the last is `span` bytes long.
      pub inner_span :
          offset c.output_offset + length c.output_offset < sum files
          → length c.output_offset ≡ span
      inner_span h = ground (arith, is_span.one_block)

      abbrev pub resumed : ChunkState → Chunking
      resumed s = record c {
        file = s.file;
        input_length = s.input_length;
        input_offset = s.input_offset;
      }

      pub catch_up-resumed :
          (s : ChunkState) × (catch_up files c ≡ ok (resumed s))
          × IsCaughtUp files block_rule (subchunk_state c) s
      unfolding catch_up
      catch_up-resumed =
          let (s, u) =
            catch_up-IsCaughtUp files positive block_rule Known
              (Known-IsKept files positive aligned) (subchunk_state c) sync has_span
              chunking-Known in
          (s, ground (arith, u.caught), u)

      -- the chunker at the place of `s`, with the input block `m` and the next span
      abbrev rebuilt : ChunkState → MappingOffset → Chunking
      rebuilt s m = record {
        span_length = c.span_length;
        file = s.file;
        input_length = s.input_length;
        input_offset = m;
        output_length = c.output_length;
        output_offset =
            (let moved = add c.output_offset (length c.output_offset) in
              set_length moved (next_length c.span_length (c.output_length - offset moved)));
      }

      new_length-span_at :
          next_length c.span_length
            (c.output_length - offset (add c.output_offset (length c.output_offset)))
          ≡ span_at span (sum files - (offset c.output_offset + length c.output_offset))
      new_length-span_at =
          rw (v.same_span, v.whole, offset-add c.output_offset (length c.output_offset))
            (next_length-span_at span _ is_span (omega arith))

      rebuilt-IsChunking :
          (s : ChunkState) (m : MappingOffset)
          → IsAt files s (offset c.output_offset + length c.output_offset)
          → offset m ≡ offset s.input_offset
          → length m ≡ block_length (s.input_length - offset s.input_offset)
          → IsPaged m
          → IsChunking files span (rebuilt s m)
      unfolding block_length
      rebuilt-IsChunking s m a e l paged =
          let left = IsAt-left files positive s _ a in
          let size : length (rebuilt s m).output_offset
              ≡ span_at span (sum files - (offset c.output_offset + length c.output_offset)) =
            length-set_length _ _ ∙ new_length-span_at in
          let at : offset (rebuilt s m).output_offset
              ≡ offset c.output_offset + length c.output_offset =
            omega offsets in
          record {
            sync = record {
              file_le = a.file_le;
              current = a.current;
              place = omega (arith, a.place);
              inside = omega (arith, a.within);
              fits = ground (arith, left, is_span.one_block);
              live = λ h. ground (arith, left);
              inner = λ h. omega (arith, a.inner h);
              bounded = ground (arith, left);
              paged = (paged, set_length-IsPaged _ (add-IsPaged c.output_offset _));
            };
            whole = v.whole;
            same_span = v.same_span;
            in_block = rw e l;
            out_span = ground (arith, at, size, has_span);
            whole_blocks = λ h. ground (arith, inner_span, whole_blocks more, is_span.whole_blocks);
          }

      not_done : (offset c.output_offset == c.output_length) ≡ false
      not_done = ground (arith, v.whole)

      next_span-rebuilt :
          (d : Chunking)
          → d.span_length ≡ c.span_length
          → d.output_length ≡ c.output_length
          → d.output_offset ≡ c.output_offset
          → next_span files d ≡ ok (rebuilt (subchunk_state d) d.input_offset)
      unfolding next_span
      next_span-rebuilt d es el eo =
          ground (arith, offset-add c.output_offset (length c.output_offset), sync.bounded, v.whole)

      next_input_block-placed :
          (d : Chunking) (s : ChunkState)
          → skip_block files (subchunk_state d) ≡ ok s
          → offset s.input_offset ≤ s.input_length
          → next_input_block files d ≡ ok (placed d s)
      unfolding next_input_block
      next_input_block-placed d s e h = ground (arith, e)

      -- `operator ++` goes to the byte after the span, in step with the input, without a fault.
      pub next-IsChunking :
          (c' : Chunking) × (next files c ≡ ok c')
          × IsChunking files span c'
          × (offset c'.output_offset ≡ offset c.output_offset + length c.output_offset)
      unfolding next
      next-IsChunking =
          let (s1, caught, u) = catch_up-resumed in
          elim (ℕ_discrete s1.file (Common.length files)) [
            | yes last ↦
                let a : IsAt files s1 (offset c.output_offset + length c.output_offset) = record {
                  file_le = u.file_le;
                  current = u.current;
                  place = omega (arith, u.place, u.inside, u.at_end last);
                  inner = λ h. absurd (omega arith);
                  within = omega (arith, u.inside);
                  paged = u.paged;
                } in
                (
                  rebuilt s1 s1.input_offset,
                  (let stop : (s1.file == Common.length files) ≡ true = ground arith in
                      rw (not_done, caught, stop) (next_span-rebuilt (resumed s1) refl refl refl)),
                  rebuilt-IsChunking s1 s1.input_offset a refl
                      (empty_block (length s1.input_offset) s1.input_length (offset s1.input_offset)
                        (u.at_end last) (omega (arith, u.inside)))
                      u.paged,
                  omega offsets,
                )
            | no inner ↦
                let before : s1.file < Common.length files = omega (arith, u.file_le) in
                let (s, skip, at) =
                  skip_block-IsAt files positive (subchunk_state (resumed s1)) before u.current
                    u.inside in
                let a : IsAt files s (offset c.output_offset + length c.output_offset) =
                  subst (IsAt files s) u.place at in
                (
                  rebuilt s (
                      set_length s.input_offset
                        (block_length (s.input_length - offset s.input_offset))),
                  (let go : (s1.file == Common.length files) ≡ false = ground arith in
                      rw
                        (not_done, caught, go, next_input_block-placed (resumed s1) s skip a.within)
                        (next_span-rebuilt (placed (resumed s1) s) refl refl refl)),
                  rebuilt-IsChunking s _ a (offset-set_length _ _) (length-set_length _ _)
                      (set_length-IsPaged _ a.paged),
                  omega offsets,
                )
          ]

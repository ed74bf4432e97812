-- ===== src/ChunkState/Walk.antt =====
-- The walk of chunkState_t in step with the concatenation of the input files.
use pcat.Common.{
  sym, ap, ◌∙◌, inl, inr, refl, dec_lt, ◌⊎◌, ℕ, zero, suc, ◌+◌, ◌-◌, ◌≤◌, ◌<◌, ◌≡◌, List, Bool,
  true, false, Result, ok, sum, arith,
}
use pcat.Common
use pcat.MappingOffset.{MappingOffset, empty, length, offset, set_length, add}
use pcat.MappingOffset.Laws.{
  IsPaged, offsets, offset-add, length-set_length, add-IsPaged, empty-IsPaged, set_length-IsPaged,
}
use pcat.InputFiles.{
  length_at, start, IsPositive, length_at_total, length_at_next, before_end, start-end,
}
use pcat.ChunkState.{ChunkState, at_end, skip_block, next_input_block, advance}

-- The input block stands where the output block stands, inside its file, and is not empty while
-- there is output left to fill.
pub record IsSync (files : List ℕ) (s : ChunkState) : Type 0 where
  pub file_le : s.file ≤ Common.length files
  pub current : length_at files s.file ≡ ok s.input_length
  pub place : offset s.output_offset ≡ start files s.file + offset s.input_offset
  pub inside : offset s.input_offset + length s.input_offset ≤ s.input_length
  pub fits : length s.input_offset ≤ length s.output_offset
  pub live : 0 < length s.output_offset → 0 < length s.input_offset
  pub inner : s.file < Common.length files → offset s.input_offset < s.input_length
  pub bounded : offset s.output_offset + length s.output_offset ≤ sum files
  pub paged : IsPaged s.input_offset × IsPaged s.output_offset

-- What `nextInputBlock` asks of the length that it sets.
pub record IsBlockRule (rule : ℕ → ℕ → ℕ) : Type 0 where
  pub within_remainder : (r l : ℕ) → rule r l ≤ r
  pub within_length : (r l : ℕ) → rule r l ≤ l
  pub progress : (r l : ℕ) → 0 < r → 0 < l → 0 < rule r l

module _ (files : List ℕ) where
  -- A block that ends inside its file: the position moves on.
  pub skip_block-inside :
      (s : ChunkState)
      → offset s.input_offset + length s.input_offset < s.input_length
      → skip_block files s
        ≡ ok (record s { input_offset = add s.input_offset (length s.input_offset) })
  unfolding skip_block
  skip_block-inside s h = ground (arith, offset-add s.input_offset (length s.input_offset))

  -- A block that ends its file: the next file is entered.
  pub skip_block-file :
      (s : ChunkState)
      → s.file < Common.length files
      → (l : ℕ) → length_at files (s.file + 1) ≡ ok l
      → offset s.input_offset + length s.input_offset ≡ s.input_length
      → skip_block files s
        ≡ ok (record s { file = s.file + 1; input_length = l; input_offset = empty })
  unfolding skip_block
  skip_block-file s h l e h' = ground (arith, offset-add s.input_offset (length s.input_offset))

  module _ (rule : ℕ → ℕ → ℕ) where
    -- What one step of the walk gives.
    pub record Stepped (s s' : ChunkState) : Type 0 where
      pub step : advance files rule s ≡ ok s'
      pub sync : IsSync files s'
      pub place_out : offset s'.output_offset ≡ offset s.output_offset + length s.input_offset
      pub length_out : length s'.output_offset + length s.input_offset ≡ length s.output_offset
      pub length_in : length s'.input_offset ≡ rule (length s'.output_offset) s'.input_length
      pub moved :
          ((s'.file ≡ s.file)
            × (s'.input_length ≡ s.input_length)
            × (offset s'.input_offset ≡ offset s.input_offset + length s.input_offset)
            × (offset s'.input_offset < s'.input_length))
          ⊎ ((s'.file ≡ s.file + 1)
              × (offset s'.input_offset ≡ 0)
              × (offset s.input_offset + length s.input_offset ≡ s.input_length))

    module _ (law : IsBlockRule rule) (s : ChunkState) (v : IsSync files s)
        (more : 0 < length s.output_offset) where
      abbrev remainder : ℕ
      remainder = length s.output_offset - length s.input_offset

      abbrev written : MappingOffset
      written = set_length (add s.output_offset (length s.input_offset)) remainder

      abbrev target : ℕ → ℕ → MappingOffset → ChunkState
      target i l m = record {
        file = i;
        input_length = l;
        input_offset = set_length m (rule remainder l);
        output_offset = written;
      }

      -- `advance` is `skip_block`, with the output moved on and the new length set.
      advance-skip_block :
          (i l : ℕ) (m : MappingOffset)
          → skip_block files (record s { output_offset = written })
            ≡ ok (record { file = i; input_length = l; input_offset = m; output_offset = written })
          → advance files rule s ≡ ok (target i l m)
      unfolding advance next_input_block at_end
      advance-skip_block i l m e = ground (arith, e)

      IsSync-inside :
          offset s.input_offset + length s.input_offset < s.input_length
          → offset s.input_offset + length s.input_offset + rule remainder s.input_length
            ≤ s.input_length
          → IsSync files (target s.file s.input_length (add s.input_offset (length s.input_offset)))
      IsSync-inside h room = record {
        file_le = v.file_le;
        current = v.current;
        place = omega (offsets, v.place);
        inside = omega (
          offsets,
          law.within_length remainder s.input_length,
          law.within_remainder remainder s.input_length,
        );
        fits = omega (offsets, law.within_remainder remainder s.input_length);
        live = λ p. omega (offsets, law.progress remainder s.input_length);
        inner = λ p. omega offsets;
        bounded = omega offsets;
        paged = (
          set_length-IsPaged _ (add-IsPaged s.input_offset _),
          set_length-IsPaged _ (add-IsPaged s.output_offset _),
        );
      }

      -- The next file, of length `l`: 0 past the last one.
      IsSync-next :
          (l : ℕ)
          → s.file < Common.length files
          → length_at files (s.file + 1) ≡ ok l
          → (s.file + 1 < Common.length files → 0 < l)
          → (s.file + 1 ≡ Common.length files → length s.output_offset ≡ length s.input_offset)
          → start files (s.file + 1) ≡ start files s.file + s.input_length
          → offset s.input_offset + length s.input_offset ≡ s.input_length
          → IsSync files (target (s.file + 1) l empty)
      IsSync-next l h e pos last from full = record {
        file_le = omega arith;
        current = e;
        place = omega (offsets, v.place);
        inside = omega (offsets, law.within_length remainder l);
        fits = omega (offsets, law.within_remainder remainder l);
        live = λ p. grind (offsets, law.progress remainder l);
        inner = λ p. omega offsets;
        bounded = omega offsets;
        paged = (
          set_length-IsPaged _ empty-IsPaged,
          set_length-IsPaged _ (add-IsPaged s.output_offset _),
        );
      }

      -- One step of the walk, from a state in step with the input: it never faults, and stays in step.
      pub advance-Stepped :
          IsPositive files
          → (offset s.input_offset + length s.input_offset < s.input_length
              → offset s.input_offset + length s.input_offset + rule remainder s.input_length
                ≤ s.input_length)
          → (s' : ChunkState) × Stepped s s'
      advance-Stepped positive room =
          elim (dec_lt (offset s.input_offset + length s.input_offset) s.input_length) [
            | yes h ↦ (
              target s.file s.input_length (add s.input_offset (length s.input_offset)),
              record {
                step =
                    advance-skip_block _ _ _
                      (skip_block-inside (record s { output_offset = written }) h);
                sync = IsSync-inside h (room h);
                place_out = omega offsets;
                length_out = omega (offsets, v.fits);
                length_in =
                    length-set_length _ _
                    ∙ ap (λ r. rule r s.input_length) (sym (length-set_length _ _));
                moved = inl (refl, refl, omega offsets, omega offsets);
              },
            )
            | no h ↦
                let full : offset s.input_offset + length s.input_offset ≡ s.input_length =
                  omega (arith, v.inside) in
                let before : s.file < Common.length files =
                  before_end files s.file s.input_length v.file_le v.current
                    (omega (arith, v.live)) in
                let from : start files (s.file + 1) ≡ start files s.file + s.input_length =
                  length_at_next files s.file s.input_length before positive v.current in
                let (l, e, pos) = length_at_total files (s.file + 1) (omega arith) positive in
                (
                  target (s.file + 1) l empty,
                  record {
                    step =
                        advance-skip_block _ _ _
                          (skip_block-file (record s { output_offset = written }) before l e full);
                    sync =
                        IsSync-next l before e pos
                          (λ q.
                            let whole : start files (s.file + 1) ≡ sum files =
                              rw q (start-end files) in
                            omega (arith, v.place, v.fits))
                          from full;
                    place_out = omega offsets;
                    length_out = omega (offsets, v.fits);
                    length_in =
                        length-set_length _ _ ∙ ap (λ r. rule r l) (sym (length-set_length _ _));
                    moved = inr (refl, omega offsets, full);
                  },
                )
          ]

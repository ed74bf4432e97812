-- ===== src/ChunkState/Skip.antt =====
-- `nextInputBlock` of chunking_t: the place in the input where the next output block begins.
use pcat.Common.{ℕ, ◌+◌, ◌-◌, ◌≤◌, ◌<◌, ◌≡◌, List, ok, err, past_end, arith, dec_lt, sum}
use pcat.Common
use pcat.MappingOffset.{length, offset, empty, add}
use pcat.MappingOffset.Laws.{IsPaged, offsets, add-IsPaged, empty-IsPaged, offset-add}
use pcat.InputFiles.{
  IsPositive, length_at, length_at_total, length_at_next, start, start-le, start-end, length_at-end,
}
use pcat.ChunkState.{ChunkState, skip_block}
use pcat.ChunkState.Walk.{IsSync, skip_block-inside, skip_block-file}

-- The state stands at the byte `q` of the concatenation.
pub record IsAt (files : List ℕ) (s : ChunkState) (q : ℕ) : Type 0 where
  pub file_le : s.file ≤ Common.length files
  pub current : length_at files s.file ≡ ok s.input_length
  pub place : q ≡ start files s.file + offset s.input_offset
  pub inner : s.file < Common.length files → offset s.input_offset < s.input_length
  pub within : offset s.input_offset ≤ s.input_length
  pub paged : IsPaged s.input_offset

pub IsSync-IsAt :
    {files : List ℕ} {s : ChunkState} → IsSync files s → IsAt files s (offset s.output_offset)
IsSync-IsAt v = record {
  file_le = v.file_le;
  current = v.current;
  place = v.place;
  inner = v.inner;
  within = omega (arith, v.inside);
  paged = v.paged.0;
}

module _ (files : List ℕ) (positive : IsPositive files) where
  -- What is left of the file is no more than what is left of all of them; it is empty only at the
  -- end of the input.
  pub IsAt-left :
      (s : ChunkState) (q : ℕ)
      → IsAt files s q
      → (s.input_length - offset s.input_offset ≤ sum files - q)
        × (q ≤ sum files)
        × (q < sum files → offset s.input_offset < s.input_length)
  IsAt-left s q a = elim (dec_lt s.file (Common.length files)) [
    | yes before ↦
        let next : start files (s.file + 1) ≡ start files s.file + s.input_length =
          length_at_next files s.file s.input_length before positive a.current in
        let bound = start-le files (s.file + 1) in
        (omega (arith, a.place), omega (arith, a.place, a.within), λ _. a.inner before)
    | no after ↦
        let last : s.file ≡ Common.length files = omega (arith, a.file_le) in
        let whole : start files s.file ≡ sum files = rw last (start-end files) in
        let read : length_at files s.file ≡ ok 0 = rw last (length_at-end files) in
        let none_left : s.input_length ≡ 0 = ground (arith, a.current) in
        (
          omega (arith, a.within),
          omega (arith, a.place, a.within),
          λ h. omega (arith, a.place, a.within),
        )
  ]

  -- At the end of the input the iterator is at its end.
  pub IsAt-end :
      (s : ChunkState)
      → IsAt files s (sum files)
      → (s.file ≡ Common.length files) × (s.input_length ≡ 0) × (offset s.input_offset ≡ 0)
  IsAt-end s a = elim (dec_lt s.file (Common.length files)) [
    | yes before ↦
        let next = length_at_next files s.file s.input_length before positive a.current in
        let bound = start-le files (s.file + 1) in absurd (omega (arith, a.place, a.inner before))
    | no after ↦
        let last : s.file ≡ Common.length files = omega (arith, a.file_le) in
        let read : length_at files s.file ≡ ok 0 = rw last (length_at-end files) in
        let none_left : s.input_length ≡ 0 = ground (arith, a.current) in
        (last, none_left, omega (arith, a.within))
  ]

  -- Before the end of the input the block is skipped without a fault.
  pub skip_block-IsAt :
      (s : ChunkState)
      → s.file < Common.length files
      → length_at files s.file ≡ ok s.input_length
      → offset s.input_offset + length s.input_offset ≤ s.input_length
      → (s' : ChunkState) × (skip_block files s ≡ ok s')
        × IsAt files s' (start files s.file + offset s.input_offset + length s.input_offset)
  skip_block-IsAt s before read inside =
      elim (dec_lt (offset s.input_offset + length s.input_offset) s.input_length) [
        | yes h ↦ (
          record s { input_offset = add s.input_offset (length s.input_offset) },
          skip_block-inside files s h,
          record {
            file_le = omega arith;
            current = read;
            place = omega offsets;
            inner = λ _. omega offsets;
            within = omega offsets;
            paged = add-IsPaged s.input_offset _;
          },
        )
        | no h ↦
            let (l, e, pos) = length_at_total files (s.file + 1) (omega arith) positive in
            let next : start files (s.file + 1) ≡ start files s.file + s.input_length =
              length_at_next files s.file s.input_length before positive read in
            (
              record s { file = s.file + 1; input_length = l; input_offset = empty },
              skip_block-file files s before l e (omega arith),
              record {
                file_le = omega arith;
                current = e;
                place = omega offsets;
                inner = λ p. omega (offsets, pos p);
                within = omega offsets;
                paged = empty-IsPaged;
              },
            )
      ]

  -- At the end of the input it is not.
  pub skip_block-past_end :
      (s : ChunkState)
      → s.file ≡ Common.length files
      → length_at files s.file ≡ ok s.input_length
      → offset s.input_offset + length s.input_offset ≤ s.input_length
      → skip_block files s ≡ err past_end
  unfolding skip_block
  skip_block-past_end s last read inside =
      let none_left : length_at files s.file ≡ ok 0 = rw last (length_at-end files) in
      ground (arith, offset-add s.input_offset (length s.input_offset))

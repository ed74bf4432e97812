-- ===== src/ChunkState/CatchUp.antt =====
-- The first half of `chunking_t::operator ++`: the input is brought to the end of the output block.
use pcat.Common.{ℕ, suc, ◌+◌, ◌≤◌, ◌<◌, ◌≡◌, ◌≢◌, List, ok, sum, arith, dec_lt, ℕ_discrete}
use pcat.Common
use pcat.MappingOffset.{length, offset}
use pcat.MappingOffset.Laws.{IsPaged}
use pcat.InputFiles.{
  IsPositive, length_at, start, start-end, length_at-end, before_end, length_at_next, start-le,
}
use pcat.ChunkState.{ChunkState, end, catch_up}
use pcat.ChunkState.Walk.{IsSync}
use pcat.ChunkState.End.{IsKept, Ended, end-Ended}

pub record IsCaughtUp (files : List ℕ) (rule : ℕ → ℕ → ℕ) (s s' : ChunkState) : Type 0 where
  pub caught : catch_up files rule s ≡ ok s'
  pub file_le : s'.file ≤ Common.length files
  pub current : length_at files s'.file ≡ ok s'.input_length
  pub inside : offset s'.input_offset + length s'.input_offset ≤ s'.input_length
  pub place :
      start files s'.file + offset s'.input_offset + length s'.input_offset
      ≡ offset s.output_offset + length s.output_offset
  pub before :
      (length s.input_offset ≡ length s.output_offset → s'.file < Common.length files)
      × (offset s.output_offset + length s.output_offset < sum files
          → s'.file < Common.length files)
  pub last :
      length s.input_offset ≢ length s.output_offset
      → offset s.output_offset + length s.output_offset ≡ sum files
      → s'.file ≡ Common.length files
  pub paged : IsPaged s'.input_offset
  -- Only the end of the input leaves nothing to read.
  pub at_end : s'.file ≡ Common.length files → (s'.input_length ≡ 0)

module _ (files : List ℕ) (positive : IsPositive files) (rule : ℕ → ℕ → ℕ)
    (Known : ChunkState → Type 0) (kept : IsKept files rule Known) (s : ChunkState)
    (v : IsSync files s) (more : 0 < length s.output_offset) where
  has_file : s.file < Common.length files
  has_file =
      before_end files s.file s.input_length v.file_le v.current
        (omega (arith, v.inside, v.live more))

  -- A block that ends with the input block: nothing is left to catch up with.
  catch_up-same : length s.output_offset ≡ length s.input_offset → IsCaughtUp files rule s s
  unfolding catch_up
  catch_up-same e = record {
    caught = ground arith;
    file_le = v.file_le;
    current = v.current;
    inside = v.inside;
    place = omega (arith, v.place);
    before = (λ _. has_file, λ _. has_file);
    last = λ h. absurd (omega (arith, h));
    paged = v.paged.0;
    at_end = λ h. absurd (omega (arith, has_file));
  }

  -- Where the walk stops before the end of the input, a file is left, and only there.
  Ended-file :
      (s' : ChunkState)
      → Ended files s s'
      → (offset s.output_offset + length s.output_offset < sum files
          → s'.file < Common.length files)
        × (offset s.output_offset + length s.output_offset ≡ sum files
            → s'.file ≡ Common.length files)
        × (s'.file ≡ Common.length files → s'.input_length ≡ 0)
  Ended-file s' e = elim (dec_lt s'.file (Common.length files)) [
    | yes before ↦
        let next = length_at_next files s'.file s'.input_length before positive e.sync.current in
        let bound = start-le files (s'.file + 1) in
        (
          λ _. before,
          λ h. absurd (omega (arith, e.sync.place, e.place_out, e.sync.inner before)),
          λ h. absurd (omega arith),
        )
    | no after ↦
        let last : s'.file ≡ Common.length files = omega (arith, e.sync.file_le) in
        let whole : start files s'.file ≡ sum files = rw last (start-end files) in
        let read : length_at files s'.file ≡ ok 0 = rw last (length_at-end files) in
        (
          λ h. absurd (omega (arith, e.sync.place, e.place_out)),
          λ _. last,
          λ _. ground (arith, e.sync.current),
        )
  ]

  catch_up-walk :
      length s.output_offset ≢ length s.input_offset
      → (s' : ChunkState) → end files rule (suc (length s.output_offset)) s ≡ ok s'
      → Ended files s s'
      → IsCaughtUp files rule s s'
  unfolding catch_up
  catch_up-walk ne s' run e = record {
    caught = ground (arith, run);
    file_le = e.sync.file_le;
    current = e.sync.current;
    inside = e.sync.inside;
    place = omega (arith, e.sync.place, e.sync.fits, e.filled, e.place_out);
    before = (λ h. absurd (omega (arith, ne)), (Ended-file s' e).0);
    last = λ _. (Ended-file s' e).1;
    paged = e.sync.paged.0;
    at_end = (Ended-file s' e).2;
  }

  pub catch_up-IsCaughtUp : Known s → (s' : ChunkState) × IsCaughtUp files rule s s'
  catch_up-IsCaughtUp known = elim (ℕ_discrete (length s.output_offset) (length s.input_offset)) [
    | yes e ↦ (s, catch_up-same e)
    | no ne ↦
        let (s', run, e) =
          end-Ended files rule Known kept positive (suc (length s.output_offset)) s (omega arith) v
            known in
        (s', catch_up-walk ne s' run e)
  ]

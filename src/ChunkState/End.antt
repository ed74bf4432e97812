-- ===== src/ChunkState/End.antt =====
-- `chunkState_t::end()`: the whole walk over one output block.
use pcat.Common.{
  ℕ, zero, suc, ◌+◌, ◌-◌, ◌≤◌, ◌<◌, ◌≡◌, List, true, false, ok, arith, Bool-cases, inl, inr,
}
use pcat.MappingOffset.{length, offset}
use pcat.InputFiles.{IsPositive}
use pcat.ChunkState.{ChunkState, at_end, end}
use pcat.ChunkState.Walk.{IsSync, IsBlockRule, Stepped, advance-Stepped}

pub at_end-length : (s : ChunkState) → at_end s ≡ true → length s.output_offset ≡ 0
unfolding at_end
at_end-length s h = ground arith

pub not_at_end-length : (s : ChunkState) → at_end s ≡ false → 0 < length s.output_offset
unfolding at_end
not_at_end-length s h = ground arith

-- The next block of the same file, if the walk stays in it, ends inside the file.
abbrev pub HasRoom : (ℕ → ℕ → ℕ) → ChunkState → Type 0
HasRoom rule s =
    offset s.input_offset + length s.input_offset < s.input_length
    → offset s.input_offset
        + length s.input_offset
        + rule (length s.output_offset - length s.input_offset) s.input_length
      ≤ s.input_length

-- What a chunker knows of its blocks beyond `IsSync`, and keeps along the walk.
pub record IsKept (files : List ℕ) (rule : ℕ → ℕ → ℕ) (Known : ChunkState → Type 0) : Type 0 where
  pub law : IsBlockRule rule
  pub room :
      (s : ChunkState) → IsSync files s → 0 < length s.output_offset → Known s → HasRoom rule s
  pub keep :
      (s s' : ChunkState)
      → IsSync files s
      → 0 < length s.output_offset
      → Known s
      → Stepped files rule s s'
      → Known s'

-- Where a walk over a whole output block stops.
pub record Ended (files : List ℕ) (s s' : ChunkState) : Type 0 where
  pub sync : IsSync files s'
  pub filled : length s'.output_offset ≡ 0
  pub place_out : offset s'.output_offset ≡ offset s.output_offset + length s.output_offset

module _ (files : List ℕ) (rule : ℕ → ℕ → ℕ) (Known : ChunkState → Type 0)
    (kept : IsKept files rule Known) (positive : IsPositive files) where
  -- For input files that are not empty and a length rule that keeps its blocks in their files:
  -- from a state in step with the input, `end` stops by its own test after at most as many
  -- rounds as the output block has bytes, without a fault, in step with the input and with the
  -- output block filled.
  pub end-Ended :
      (fuel : ℕ) (s : ChunkState)
      → length s.output_offset < fuel
      → IsSync files s
      → Known s
      → (s' : ChunkState) × (end files rule fuel s ≡ ok s') × Ended files s s'
  unfolding end
  end-Ended zero s h v k = elim h [ ]
  end-Ended (suc fuel) s h v k = elim (Bool-cases (at_end s)) [
    | inl done ↦ (
      s,
      rw (done, end),
      record {
        sync = v;
        filled = at_end-length s done;
        place_out = omega (arith, at_end-length s done);
      },
    )
    | inr more ↦
        let left = not_at_end-length s more in
        let (s1, one) =
          advance-Stepped files rule kept.law s v left positive (kept.room s v left k) in
        let (s', run, ended) =
          end-Ended fuel s1 (omega (arith, one.length_out, v.live)) one.sync
            (kept.keep s s1 v left k one) in
        (
          s',
          rw (more, end, one.step) run,
          record {
            sync = ended.sync;
            filled = ended.filled;
            place_out = omega (arith, one.place_out, one.length_out, ended.place_out);
          },
        )
  ]

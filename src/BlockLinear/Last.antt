-- ===== src/BlockLinear/Last.antt =====
-- The last output block of blockLinear, and the files that it covers.
use pcat.Common.{
  suc, ℕ, ◌+◌, ◌-◌, ◌*◌, ◌/◌, ◌%◌, ◌≤◌, ◌<◌, ◌≡◌, ◌&&◌, ◌==◌, true, false, List, sum, arith, dec_lt,
  refl,
}
use pcat.Common
use pcat.MappingOffset.{block_length, transfer_block_size, length, offset}
use pcat.InputFiles.{
  IsPositive, start, start-end, start_mono, length_at_next, length_at_inside, before_end, start-le,
}
use pcat.Common.{ok}
use pcat.BlockLinear.{Chunking}
use pcat.BlockLinear.CatchUp.{IsChunking}

-- The last file begins at or before the last block of the output.
abbrev pub LastBlockIsSingle : List ℕ → Type 0
LastBlockIsSingle files =
    start files (Common.length files - 1)
    ≤ (sum files - 1) / transfer_block_size * transfer_block_size

module _ (files : List ℕ) (positive : IsPositive files) (c : Chunking)
    (v : IsChunking files c) where
  open v use {sync, in_block, out_block}

  module _ (aligned : offset c.output_offset % transfer_block_size ≡ 0)
      (more : offset c.output_offset < sum files) where
    block_pos : 0 < length c.output_offset
    unfolding block_length
    block_pos = omega (arith, out_block)

    has_file : c.file < Common.length files
    has_file =
        before_end files c.file c.input_length sync.file_le sync.current
          (omega (arith, sync.inside, sync.live block_pos))

    file_end : start files (c.file + 1) ≡ start files c.file + c.input_length
    file_end = length_at_next files c.file c.input_length has_file positive sync.current

    -- Such a block is read from one file.
    pub single-same :
        offset c.output_offset + length c.output_offset ≡ sum files
        → LastBlockIsSingle files
        → length c.input_offset ≡ length c.output_offset
    unfolding block_length
    single-same full single = elim (dec_lt (c.file + 1) (Common.length files)) [
      | yes earlier ↦
          let mono = start_mono files (c.file + 1) (Common.length files - 1) (omega arith) in
          absurd (omega (arith, file_end, sync.place, sync.inner has_file, out_block))
      | no final ↦
          let last : c.file + 1 ≡ Common.length files = omega (arith, has_file) in
          let whole : start files (c.file + 1) ≡ sum files = rw last (start-end files) in
          omega (arith, file_end, sync.place, in_block, out_block, sync.inner has_file)
    ]

    -- Any other last block is not.
    pub not_single-differs :
        offset c.output_offset + length c.output_offset ≡ sum files
        → ¬ LastBlockIsSingle files
        → length c.input_offset < length c.output_offset
    unfolding block_length
    not_single-differs full many = elim (dec_lt (c.file + 1) (Common.length files)) [
      | yes earlier ↦
          let (l, e, pos, next) = length_at_inside files (c.file + 1) earlier positive in
          let bound = start-le files (suc (c.file + 1)) in
          omega (arith, file_end, sync.place, in_block, out_block)
      | no final ↦
          let last : c.file ≡ Common.length files - 1 = omega (arith, has_file) in
          absurd (many (rw (← last) (omega (arith, sync.place, out_block))))
    ]

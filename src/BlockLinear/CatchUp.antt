-- ===== src/BlockLinear/CatchUp.antt =====
-- The first half of `chunking_t::operator ++`: the input is brought to the end of the output block.
use pcat.Common.{ℕ, ◌-◌, ◌<◌, ◌≡◌, List, ok, sum, arith}
use pcat.MappingOffset.{block_length, length, offset}
use pcat.InputFiles.{IsPositive}
use pcat.ChunkState.{ChunkState}
use pcat.ChunkState.Walk.{IsSync}
use pcat.ChunkState.Skip.{IsSync-IsAt, IsAt-left}
use pcat.ChunkState.CatchUp.{IsCaughtUp, catch_up-IsCaughtUp}
use pcat.BlockLinear.{Chunking, subchunk_state, block_rule, catch_up}
use pcat.BlockLinear.Known.{Known, Known-IsKept}

-- The chunker stands in step with the input, and each of its blocks is as long as
-- `transferBlockSize`, the file and the output allow.
pub record IsChunking (files : List ℕ) (c : Chunking) : Type 0 where
  pub sync : IsSync files (subchunk_state c)
  pub whole : c.output_length ≡ sum files
  pub in_block : length c.input_offset ≡ block_length (c.input_length - offset c.input_offset)
  pub out_block : length c.output_offset ≡ block_length (sum files - offset c.output_offset)

module _ (files : List ℕ) (positive : IsPositive files) (c : Chunking)
    (v : IsChunking files c) where
  open v use {sync, in_block, out_block}

  pub chunking-Known : Known (subchunk_state c)
  unfolding block_length
  chunking-Known = ground (arith, IsAt-left files positive (subchunk_state c) _ (IsSync-IsAt sync))

  abbrev pub resumed : ChunkState → Chunking
  resumed s = record c {
    file = s.file;
    input_length = s.input_length;
    input_offset = s.input_offset;
  }

  module _ (more : offset c.output_offset < sum files) where
    has_block : 0 < length c.output_offset
    unfolding block_length
    has_block = omega (arith, out_block)

    pub catch_up-resumed :
        (s : ChunkState) × (catch_up files c ≡ ok (resumed s))
        × IsCaughtUp files block_rule (subchunk_state c) s
    unfolding catch_up
    catch_up-resumed =
        let (s, u) =
          catch_up-IsCaughtUp files positive block_rule Known (Known-IsKept files)
            (subchunk_state c) sync has_block chunking-Known in
        (s, ground (arith, u.caught), u)

-- ===== src/ChunkState/Tests.antt =====
-- The walk over one output block that spans two files.
use pcat.Common.{ℕ, ◌≡◌, refl, List, [], ◌∷◌, ok, inr, arith}
use pcat.MappingOffset.{at_block}
use pcat.MappingOffset.Laws.{offsets, at_block-IsPaged}
use pcat.InputFiles.{length_at}
use pcat.ChunkState.{ChunkState, end}
use pcat.ChunkState.Walk.{IsSync}
use pcat.ChunkState.End.{Ended, end-Ended}
use pcat.BlockLinear.{block_rule}
use pcat.BlockLinear.Known.{Known, Known-IsKept}

abbrev pair_of_files : List ℕ
pair_of_files = 2 ∷ 3 ∷ []

abbrev over_both : ChunkState
over_both = record {
  file = 0;
  input_length = 2;
  input_offset = at_block 0 2;
  output_offset = at_block 0 5;
}

over_both-IsSync : IsSync pair_of_files over_both
unfolding length_at
over_both-IsSync = record {
  file_le = omega arith;
  current = refl;
  place = omega offsets;
  inside = omega offsets;
  fits = omega offsets;
  live = λ h. omega offsets;
  inner = λ h. omega offsets;
  bounded = omega offsets;
  paged = (at_block-IsPaged 0 2, at_block-IsPaged 0 5);
}

over_both-Known : Known over_both
over_both-Known = inr (omega offsets)

end-Ended_example :
    (s' : ChunkState) × (end pair_of_files block_rule 6 over_both ≡ ok s')
    × Ended pair_of_files over_both s'
end-Ended_example =
    end-Ended pair_of_files block_rule Known (Known-IsKept pair_of_files) (omega arith) 6 over_both
      (omega offsets) over_both-IsSync over_both-Known

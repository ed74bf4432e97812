-- ===== src/MappingOffset/Tests.antt =====
-- A position of test/mappingOffset.cxx's kind, moved.
use pcat.Common.{◌+◌, ◌%◌, ◌<◌, ◌≡◌, refl}
use pcat.MappingOffset.{
  page_size, at_block, offset, adjustment, length, adjusted_offset, adjusted_length, set_length,
  add,
}
use pcat.MappingOffset.Laws.{add-maps_block}

at_block-4097 : at_block 4097 10 ≡ record { offset_ = 4096; adjust_ = 1; length_ = 10 }
unfolding at_block
at_block-4097 = refl

add-4097 : add (at_block 4097 10) 8190 ≡ record { offset_ = 8192; adjust_ = 4095; length_ = 10 }
unfolding at_block add
add-4097 = refl

add-maps_block_example :
    let m' = set_length (add (at_block 4097 10) 8190) 20 in
    (offset m' ≡ offset (at_block 4097 10) + 8190)
    × (length m' ≡ 20)
    × (adjusted_offset m' % page_size ≡ 0)
    × (adjustment m' < page_size)
    × (adjusted_offset m' + adjustment m' ≡ offset m')
    × (adjusted_offset m' + adjusted_length m' ≡ offset m' + 20)
add-maps_block_example = add-maps_block (at_block 4097 10) 8190 20

-- ===== src/Affinity/Windows/Tests.antt =====
-- A machine with two groups: the processors 0 and 2 of the first, and 63 of the second.
use pcat.Common.{
  ℕ, ◌*◌, ◌+◌, ◌<◌, ◌≤◌, ◌^◌, ◌≡◌, refl, List, [], ◌∷◌, true, false, none, some, arith,
}
use pcat.Affinity.{is_pinned, is_member, has_room}
use pcat.Affinity.Choice.{at_most}
use pcat.Affinity.Windows.{
  ProcessorInfo, found, scan, scan_groups, scan_infos, make_affinity, pin_to, insufficient_buffer,
  succeeds, retrieve_processor_info,
}
use pcat.Affinity.Windows.Room.{retrieve_processor_info-struct_count}
use pcat.Common.{inl}
use pcat.Affinity.Windows.Slots.{slots, wanted, make_affinity-slots}

abbrev two_groups : List ProcessorInfo
two_groups =
    record { is_group = false; masks = 1 ∷ [] }
    ∷ record { is_group = true; masks = 5 ∷ 2 ^ 63 ∷ [] }
    ∷ []

pinned_slots : make_affinity none (some (1 ∷ 2 ∷ [])) two_groups ≡ (0, 2) ∷ (1, 63) ∷ []
unfolding make_affinity scan_infos scan_groups scan found has_room is_pinned is_member
pinned_slots = refl

pin_to_last : pin_to ((0, 2) ∷ (1, 63) ∷ []) 1 ≡ some (1, 2 ^ 63)
unfolding pin_to
pin_to_last = refl

make_affinity-slots_example :
    make_affinity (some 2) (some (1 ∷ 2 ∷ [])) two_groups
    ≡ at_most (some 2) 0 (wanted (some (1 ∷ 2 ∷ [])) 0 (slots two_groups))
make_affinity-slots_example = make_affinity-slots (some 2) (some (1 ∷ 2 ∷ [])) two_groups

-- Structs of 48 bytes: the system asks for 96 bytes, then for 100.
retrieve_processor_info-struct_count_example :
    (n : ℕ) × (retrieve_processor_info 48 0
        (insufficient_buffer 96 ∷ insufficient_buffer 100 ∷ succeeds ∷ [])
      ≡ some (inl n))
    × (100 ≤ n * 48)
    × (n * 48 < 100 + 48)
retrieve_processor_info-struct_count_example =
    retrieve_processor_info-struct_count 48 0 100 (96 ∷ []) (omega arith)

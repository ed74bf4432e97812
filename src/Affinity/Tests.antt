-- ===== src/Affinity/Tests.antt =====
-- A machine with the processors 0, 1, 2 and 5.
use pcat.Common.{
  ◌<◌, get_elem?, arith, ℕ, ◌≡◌, refl, List, [], ◌∷◌, Bool, true, false, Option, none, some, All,
}
use pcat.Common
use pcat.Affinity.{
  before, is_empty_set, is_member, is_pinned, has_room, choose, make_affinity, index_sequence,
  indices, indices_from, next_index,
}
use pcat.Affinity.Choice.{members, pinned, at_most, make_affinity-members}
use pcat.Affinity.Threads.{IsPinned, index_sequence-IsPinned}

abbrev four_processors : List Bool
four_processors = true ∷ true ∷ true ∷ false ∷ false ∷ true ∷ false ∷ false ∷ []

three_threads : make_affinity (some 3) (some (5 ∷ 1 ∷ 9 ∷ [])) four_processors ≡ 1 ∷ 5 ∷ []
unfolding make_affinity choose is_empty_set is_member is_pinned has_room
three_threads = refl

-- `--core-pins 999`: no processor is left, and the pool has no thread.
no_processor : make_affinity none (some (999 ∷ [])) four_processors ≡ []
unfolding make_affinity choose is_empty_set is_member is_pinned has_room
no_processor = refl

make_affinity-members_example :
    make_affinity (some 2) none four_processors
    ≡ at_most (some 2) 0 (pinned none (members 0 four_processors))
make_affinity-members_example = make_affinity-members (some 2) none four_processors

index_sequence-IsPinned_example :
    (is : List ℕ) × (indices 3 (index_sequence (1 ∷ 5 ∷ [])) ≡ some is)
    × All (IsPinned (1 ∷ 5 ∷ [])) is
    × (Common.length is ≡ 2)
    × ((i : ℕ) → i < 2 → get_elem? is i ≡ some i)
index_sequence-IsPinned_example = index_sequence-IsPinned (1 ∷ 5 ∷ []) 3 (omega arith) (omega arith)

-- The loop over two threads.
two_indices : indices 3 (index_sequence (1 ∷ 5 ∷ [])) ≡ some (0 ∷ 1 ∷ [])
unfolding indices before indices_from next_index index_sequence
two_indices = refl

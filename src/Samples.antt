-- ===== src/Samples.antt =====
-- Systems and files that the tests share.
use pcat.Common.{ℕ, ◌≡◌, ◌++◌, refl, List, [], ◌∷◌, true, false, replicate, length-replicate}
use pcat.Common
use pcat.MappingOffset.{transfer_block_size}
use pcat.Mmap.{Os}
use pcat.Mmap.Laws.{IsReliable}

-- a system on which every call succeeds
abbrev pub willing : Os
willing = record {
  mmap_ok = λ t p s o l. true;
  madvise_ok = λ t o l a. true;
  msync_ok = λ t o l. true;
  errno = 5;
}

-- a system that maps nothing
abbrev pub refusing : Os
refusing = record willing { mmap_ok = λ t p s o l. false; errno = 12 }

pub willing-IsReliable : IsReliable willing
willing-IsReliable = record {
  maps = λ t p s o l. refl;
  advises = λ t o l a. refl;
  syncs = λ t o l. refl;
}

pub zeros_of : (n : ℕ) → (bytes : List ℕ) × (Common.length bytes ≡ n)
zeros_of n = (replicate n 0, length-replicate n 0)

pub block_of_zeros : (bytes : List ℕ) × (Common.length bytes ≡ transfer_block_size)
block_of_zeros = zeros_of transfer_block_size

-- two files: one block of zeros, and three bytes
abbrev pub two_files : List (List ℕ)
two_files = block_of_zeros.0 ∷ (1 ∷ 2 ∷ 3 ∷ []) ∷ []

-- an output, resized to the length of both
abbrev pub resized : List ℕ
resized = block_of_zeros.0 ++ (0 ∷ 0 ∷ 0 ∷ [])

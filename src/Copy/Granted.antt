-- ===== src/Copy/Granted.antt =====
-- What the calls of the system have answered where a byte of the concatenation has been copied.
use pcat.Common.{
  ℕ, ◌+◌, ◌≤◌, ◌<◌, ◌≡◌, refl, List, [], ◌∷◌, Bool, true, false, sum, All, if◌then◌else◌,
}
use mathlib.Core.Bool.{false≢true}
use pcat.InputFiles.{start}
use pcat.Bytes.{concat, lengths}
use pcat.Mmap.{
  Os, Mmap, output, input, Advice, madv_sequential, madv_willneed, madv_dontdump, prot_read,
  prot_write, map_shared, map_private, advise,
}

-- The byte `i` of the concatenation stands in a mapping of its input file that the system has made, and
-- that it has taken the advice on.
pub record Loaded (os : Os) (contents : List (List ℕ)) (i : ℕ) : Type 0 where
  pub file : ℕ
  pub place : ℕ
  pub low : ℕ
  pub size : ℕ
  pub here : start (lengths contents) file + place ≡ i
  pub inside : (low ≤ place) × (place < low + size)
  pub mapped : os.mmap_ok (input file) prot_read map_private low size ≡ true
  pub advised :
      All
        (λ a. os.madvise_ok (input file) low size a ≡ true)
        (madv_sequential ∷ madv_willneed ∷ madv_dontdump ∷ [])

-- The byte `i` of the output stands in a mapping of it that the system has made, that it has taken the
-- advice on, and that it has written back where the copy is with `sync`.
pub record Stored (os : Os) (is_sync : Bool) (i : ℕ) : Type 0 where
  pub low : ℕ
  pub size : ℕ
  pub inside : (low ≤ i) × (i < low + size)
  pub mapped : os.mmap_ok output prot_write map_shared low size ≡ true
  pub advised :
      All (λ a. os.madvise_ok output low size a ≡ true) (madv_sequential ∷ madv_dontdump ∷ [])
  pub synced : is_sync ≡ true → os.msync_ok output low size ≡ true

-- Every call behind the copy of the byte has succeeded.
abbrev pub Granted : Os → List (List ℕ) → Bool → ℕ → Type 0
Granted os contents is_sync i = Loaded os contents i × Stored os is_sync i

-- The output is the concatenation of the files, and every call behind it has succeeded.
abbrev pub IsWhole : Os → List (List ℕ) → Bool → List ℕ → Type 0
IsWhole os contents is_sync out =
    (out ≡ concat contents) × ((i : ℕ) → i < sum (lengths contents) → Granted os contents is_sync i)

both_true :
    (taken others : Bool)
    → (if taken then others else false) ≡ true
    → (taken ≡ true) × (others ≡ true)
both_true true others h = (refl, h)
both_true false others h = absurd (false≢true h)

pub advise-All :
    (os : Os) (m : Mmap) (flags : List Advice)
    → advise os m flags ≡ true
    → All (λ a. os.madvise_ok m.target m.position m.len_ a ≡ true) flags
unfolding advise
advise-All os m [] h = tt
advise-All os m (flag ∷ flags) h =
    let (taken, others) =
      both_true (os.madvise_ok m.target m.position m.len_ flag) (advise os m flags) h in
    (taken, advise-All os m flags others)

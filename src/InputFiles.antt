-- ===== src/InputFiles.antt =====
-- The input files of src/chunking.hxx as the chunking code sees them: a vector that is walked by an
-- iterator. The vector is the list of the files' lengths, the iterator an index into it.
use native.Mathlib.Numerals.{add-one}
use pcat.Common.{
  dec_lt, ℕ, zero, suc, ◌+◌, ◌-◌, ◌≤◌, ◌<◌, ◌==◌, ◌≡◌, ap, refl, if◌then◌else◌, List, [], ◌∷◌, none,
  some, Result, ok, err, past_end, negative, get_elem?, length, take, sum, All, ltb, arith,
}

-- `file == inputFiles.end() ? 0 : file->length()`, with the read past the end as a fault
unfoldable pub length_at : List ℕ → ℕ → Result ℕ
length_at files i =
    if i == length files
    then ok 0
    else elim (get_elem? files i) [ none ↦ err past_end | some l ↦ ok l ]

-- a difference of two `off_t`
abbrev pub sub_off : ℕ → ℕ → Result ℕ
sub_off a b = if ltb a b then err negative else ok (a - b)

-- the position in the concatenation at which the file begins
abbrev pub start : List ℕ → ℕ → ℕ
start files i = sum (take i files)

-- `checkFile` accepts no empty file.
abbrev pub IsPositive : List ℕ → Type 0
IsPositive = All (λ l. 0 < l)

pub start-end : (files : List ℕ) → start files (length files) ≡ sum files
start-end [] = refl
start-end (l ∷ files) = ap (◌+◌ l) (start-end files)

pub length_at-end : (files : List ℕ) → length_at files (length files) ≡ ok 0
unfolding length_at
length_at-end files = ground arith

get_elem?-start :
    (files : List ℕ) (i : ℕ)
    → i < length files
    → IsPositive files
    → (l : ℕ) × (get_elem? files i ≡ some l) × (0 < l) × (start files (suc i) ≡ start files i + l)
get_elem?-start [] i h p = elim h [ ]
get_elem?-start (l ∷ files) zero h p = (l, refl, p.0, omega arith)
get_elem?-start (l ∷ files) (suc i) h p =
    let (m, e, q, s) = get_elem?-start files i (omega arith) p.1 in (m, e, q, omega arith)

-- A file before the end has a length above zero, and the next one begins where it ends.
pub length_at_inside :
    (files : List ℕ) (i : ℕ)
    → i < length files
    → IsPositive files
    → (l : ℕ) × (length_at files i ≡ ok l) × (0 < l) × (start files (suc i) ≡ start files i + l)
unfolding length_at
length_at_inside files i h p =
    let (l, e, q, s) = get_elem?-start files i h p in (l, ground arith, q, s)

pub start-le : (files : List ℕ) (i : ℕ) → start files i ≤ sum files
start-le [] zero = omega arith
start-le [] (suc i) = omega arith
start-le (l ∷ files) zero = omega arith
start-le (l ∷ files) (suc i) = omega (arith, start-le files i)

-- A valid iterator has a length to read: 0 at the end, and above zero before it.
pub length_at_total :
    (files : List ℕ) (i : ℕ)
    → i ≤ length files
    → IsPositive files
    → (l : ℕ) × (length_at files i ≡ ok l) × (i < length files → 0 < l)
length_at_total files i h p = elim (dec_lt i (length files)) [
  | yes before ↦ let (l, e, q, s) = length_at_inside files i before p in (l, e, λ _. q)
  | no after ↦
      let at_end : length files ≡ i = omega arith in
      (0, rw (← at_end) (length_at-end files), λ q. absurd (after q))
]

-- The file that the iterator names, and the next one, begin where the one before ends.
pub length_at_next :
    (files : List ℕ) (i l : ℕ)
    → i < length files
    → IsPositive files
    → length_at files i ≡ ok l
    → start files (i + 1) ≡ start files i + l
length_at_next files i l h p e =
    let (l', e', q, s) = length_at_inside files i h p in
    let same : l' ≡ l = ground arith in rw add-one (omega arith)

-- Only a file that is there has bytes.
pub before_end :
    (files : List ℕ) (i l : ℕ)
    → i ≤ length files
    → length_at files i ≡ ok l
    → 0 < l
    → i < length files
before_end files i l h e q = elim (dec_lt i (length files)) [
  | yes before ↦ before
  | no after ↦
      let at_end : i ≡ length files = omega arith in
      let read : length_at files i ≡ ok 0 = rw at_end (length_at-end files) in absurd (ground arith)
]

pub start_mono : (files : List ℕ) (i j : ℕ) → i ≤ j → start files i ≤ start files j
start_mono [] zero j h = omega arith
start_mono [] (suc i) zero h = omega arith
start_mono [] (suc i) (suc j) h = omega arith
start_mono (l ∷ files) zero j h = omega arith
start_mono (l ∷ files) (suc i) zero h = absurd (omega arith)
start_mono (l ∷ files) (suc i) (suc j) h = omega (arith, start_mono files i j (omega arith))

-- ===== src/Bytes.antt =====
-- The contents of files as lists of bytes: the parts that `memcpy` reads and writes.
use Prim.Native.Nat.add
use native.Mathlib.Nat.{add_assoc, zero-add}
use pcat.InputFiles.{start, length_at}
use pcat.Common.{
  sum, ok, ◌⊎◌, inr, ap₂, ℕ, zero, suc, ◌+◌, ◌≤◌, ◌<◌, ◌≡◌, refl, ap, List, [], ◌∷◌, ◌++◌, map,
  some, length, get_elem?, take, drop, length-append, arith,
}

-- Writing `bytes` over `out` from the position `p` on: the bytes outside are kept.
unfoldable pub splice : ℕ → List ℕ → List ℕ → List ℕ
splice p bytes [] = []
splice zero [] (x ∷ out) = x ∷ out
splice zero (b ∷ bytes) (x ∷ out) = b ∷ splice zero bytes out
splice (suc p) bytes (x ∷ out) = x ∷ splice p bytes out

-- the concatenation of the files' contents, what `cat` prints
unfoldable pub concat : List (List ℕ) → List ℕ
concat [] = []
concat (file ∷ files) = file ++ concat files

abbrev pub lengths : List (List ℕ) → List ℕ
lengths = map length

pub length-splice : (p : ℕ) (bytes out : List ℕ) → length (splice p bytes out) ≡ length out
unfolding splice
length-splice zero bytes [] = refl
length-splice (suc p) bytes [] = refl
length-splice zero [] (x ∷ out) = refl
length-splice zero (b ∷ bytes) (x ∷ out) = ap suc (length-splice zero bytes out)
length-splice (suc p) bytes (x ∷ out) = ap suc (length-splice p bytes out)

splice-zero :
    (k : ℕ) (bytes out : List ℕ)
    → k < length bytes
    → length bytes ≤ length out
    → get_elem? (splice 0 bytes out) k ≡ get_elem? bytes k
unfolding splice
splice-zero k [] out h le = elim h [ ]
splice-zero k (b ∷ bytes) [] h le = absurd (omega arith)
splice-zero zero (b ∷ bytes) (x ∷ out) h le = refl
splice-zero (suc k) (b ∷ bytes) (x ∷ out) h le = splice-zero k bytes out (omega arith) (omega arith)

-- Inside the written part stand the bytes written.
pub get_elem?-splice_inside :
    (p i k : ℕ) (bytes out : List ℕ)
    → i ≡ p + k
    → k < length bytes
    → p + length bytes ≤ length out
    → get_elem? (splice p bytes out) i ≡ get_elem? bytes k
unfolding splice
get_elem?-splice_inside zero i k bytes out e h le =
    let e' : i ≡ k = omega arith in rw e' (splice-zero k bytes out h (omega arith))
get_elem?-splice_inside (suc p) i k bytes [] e h le = absurd (omega arith)
get_elem?-splice_inside (suc p) zero k bytes (x ∷ out) e h le = absurd (omega arith)
get_elem?-splice_inside (suc p) (suc i) k bytes (x ∷ out) e h le =
    get_elem?-splice_inside p i k bytes out (omega arith) h (omega arith)

-- Outside it nothing changes.
pub get_elem?-splice_outside :
    (p i : ℕ) (bytes out : List ℕ)
    → (i < p) ⊎ (p + length bytes ≤ i)
    → get_elem? (splice p bytes out) i ≡ get_elem? out i
unfolding splice
get_elem?-splice_outside zero i bytes [] h = refl
get_elem?-splice_outside (suc p) i bytes [] h = refl
get_elem?-splice_outside zero i [] (x ∷ out) h = refl
get_elem?-splice_outside zero zero (b ∷ bytes) (x ∷ out) h = absurd (omega arith)
get_elem?-splice_outside zero (suc i) (b ∷ bytes) (x ∷ out) h =
    get_elem?-splice_outside zero i bytes out (inr (omega arith))
get_elem?-splice_outside (suc p) zero bytes (x ∷ out) h = refl
get_elem?-splice_outside (suc p) (suc i) bytes (x ∷ out) h =
    get_elem?-splice_outside p i bytes out (ground arith)

pub get_elem?-drop : (a k : ℕ) (xs : List ℕ) → get_elem? (drop a xs) k ≡ get_elem? xs (a + k)
get_elem?-drop zero k xs = ground arith
get_elem?-drop (suc a) k [] = refl
get_elem?-drop (suc a) k (x ∷ xs) = rw (add.suc a k) (get_elem?-drop a k xs)

pub get_elem?-take : (n k : ℕ) (xs : List ℕ) → k < n → get_elem? (take n xs) k ≡ get_elem? xs k
get_elem?-take zero k xs h = elim h [ ]
get_elem?-take (suc n) k [] h = refl
get_elem?-take (suc n) zero (x ∷ xs) h = refl
get_elem?-take (suc n) (suc k) (x ∷ xs) h = get_elem?-take n k xs (omega arith)

get_elem?-append_left :
    (i : ℕ) (xs ys : List ℕ) → i < length xs → get_elem? (xs ++ ys) i ≡ get_elem? xs i
get_elem?-append_left i [] ys h = elim h [ ]
get_elem?-append_left zero (x ∷ xs) ys h = refl
get_elem?-append_left (suc i) (x ∷ xs) ys h = get_elem?-append_left i xs ys (omega arith)

get_elem?-append_right :
    (i : ℕ) (xs ys : List ℕ) → get_elem? (xs ++ ys) (length xs + i) ≡ get_elem? ys i
get_elem?-append_right i [] ys = ground arith
get_elem?-append_right i (x ∷ xs) ys = rw (add.suc (length xs) i) (get_elem?-append_right i xs ys)

some-eq : (x y : ℕ) → some x ≡ some y → x ≡ y
some-eq x y h = ground arith

-- Two lists are equal if they are as long, and agree at every position.
pub List-ext :
    (xs ys : List ℕ)
    → length xs ≡ length ys
    → ((i : ℕ) → i < length xs → get_elem? xs i ≡ get_elem? ys i)
    → xs ≡ ys
List-ext [] [] e h = refl
List-ext [] (y ∷ ys) e h = absurd (omega arith)
List-ext (x ∷ xs) [] e h = absurd (omega arith)
List-ext (x ∷ xs) (y ∷ ys) e h =
    ap₂ ◌∷◌ (some-eq x y (h 0 (omega arith)))
      (List-ext xs ys (omega arith) (λ i q. h (suc i) (omega arith)))

-- The byte `k` of the file `i` stands `k` bytes behind the start of the file in the concatenation.
pub get_elem?-concat :
    (files : List (List ℕ)) (i k : ℕ) (file : List ℕ)
    → get_elem? files i ≡ some file
    → k < length file
    → get_elem? (concat files) (start (lengths files) i + k) ≡ get_elem? file k
unfolding concat
get_elem?-concat [] i k file e h = cc
get_elem?-concat (f ∷ files) zero k file e h =
    let same : f ≡ file = ground arith in
    rw (same, zero-add) (get_elem?-append_left k file (concat files) h)
get_elem?-concat (f ∷ files) (suc i) k file e h =
    rw (add_assoc, get_elem?-append_right (start (lengths files) i + k) f (concat files))
      (get_elem?-concat files i k file e h)

pub length-concat : (files : List (List ℕ)) → length (concat files) ≡ sum (lengths files)
unfolding concat
length-concat [] = refl
length-concat (f ∷ files) = omega (arith, length-append f (concat files), length-concat files)

get_elem?-lengths :
    (files : List (List ℕ)) (i : ℕ)
    → i < length (lengths files)
    → (file : List ℕ) × (get_elem? files i ≡ some file)
      × (get_elem? (lengths files) i ≡ some (length file))
get_elem?-lengths [] i h = elim h [ ]
get_elem?-lengths (f ∷ files) zero h = (f, refl, refl)
get_elem?-lengths (f ∷ files) (suc i) h = get_elem?-lengths files i (omega arith)

-- The length that the chunking code reads is that of a file's contents.
pub length_at-lengths :
    (files : List (List ℕ)) (i l : ℕ)
    → length_at (lengths files) i ≡ ok l
    → i < length (lengths files)
    → (file : List ℕ) × (get_elem? files i ≡ some file) × (length file ≡ l)
unfolding length_at
length_at-lengths files i l e h =
    let (file, e1, e2) = get_elem?-lengths files i h in (file, e1, ground arith)

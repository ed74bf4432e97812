-- ===== src/Mmap/Roundtrip.antt =====
-- Reading what was written through a mapping.
use pcat.Common.{
  [], ◌∷◌, refl, ℕ, zero, suc, ◌+◌, ◌-◌, ◌≤◌, ◌<◌, ◌≡◌, ◌⊎◌, inl, inr, List, Option, none, some,
  Result, ok, err, take, drop, arith, sym, ap, ◌∙◌, true, false, Bool, length-append, length-take,
  get_elem?,
}
use pcat.Common
use pcat.Bytes.{splice, length-splice, get_elem?-splice_outside}
use pcat.Mmap.{Mmap, copy_to, copy_from, can_read}
use pcat.Mmap.Laws.{IsStorable, index-inside, not_below, copy_to-inside}

copy_from-inside :
    (m : Mmap) (file : List ℕ) (idx n : ℕ)
    → idx < m.len_
    → idx + n ≤ m.len_
    → m.position + idx + n ≤ Common.length file
    → m.addr_ ≡ true
    → m.prot.readable ≡ true
    → copy_from m file idx n ≡ ok (some (take n (drop (m.position + idx) file)))
unfolding copy_from can_read
copy_from-inside m file idx n h k l addr reads =
    rw
      (
        index-inside m idx h,
        copy_from,
        addr,
        reads,
        not_below (m.len_ - idx) n (omega arith),
        not_below _ _ l,
      )
      refl

take-drop-splice :
    (p : ℕ) (bytes out : List ℕ)
    → p + Common.length bytes ≤ Common.length out
    → take (Common.length bytes) (drop p (splice p bytes out)) ≡ bytes
unfolding splice
take-drop-splice zero [] [] h = refl
take-drop-splice zero (b ∷ bytes) [] h = absurd (omega arith)
take-drop-splice (suc p) bytes [] h = absurd (omega arith)
take-drop-splice zero [] (x ∷ out) h = refl
take-drop-splice zero (b ∷ bytes) (x ∷ out) h =
    ap (◌∷◌ b) (take-drop-splice zero bytes out (omega arith))
take-drop-splice (suc p) bytes (x ∷ out) h = take-drop-splice p bytes out (omega arith)

take-all : (xs : List ℕ) → take (Common.length xs) xs ≡ xs
take-all [] = refl
take-all (x ∷ xs) = ap (◌∷◌ x) (take-all xs)

-- Bytes written into a mapping that was made, for reading and writing, and shared, not empty, that
-- end inside it and inside the file: `copyTo` changes the bytes of the file that they take and no
-- other, and `copyFrom` reads them back.
pub copy_from-copy_to :
    (m : Mmap) (idx : ℕ) (bytes file : List ℕ)
    → IsStorable m
    → m.prot.readable ≡ true
    → 0 < Common.length bytes
    → idx + Common.length bytes ≤ m.len_
    → m.position + idx + Common.length bytes ≤ Common.length file
    → (file' : List ℕ) × (copy_to m idx bytes (Common.length bytes) file ≡ ok (some file'))
      × (copy_from m file' idx (Common.length bytes) ≡ ok (some bytes))
      × (Common.length file' ≡ Common.length file)
      × ((i : ℕ)
          → (i < m.position + idx) ⊎ (m.position + idx + Common.length bytes ≤ i)
          → get_elem? file' i ≡ get_elem? file i)
copy_from-copy_to m idx bytes file storable reads pos inside fits =
    let at = m.position + idx in
    let same = length-splice at bytes file in
    (
      splice at bytes file,
      copy_to-inside m idx (Common.length bytes) bytes file (omega arith) inside fits storable
          ∙ ap (λ b. ok (some (splice at b file))) (take-all bytes),
      copy_from-inside m (splice at bytes file) idx (Common.length bytes) (omega arith) inside
            (omega (arith, same)) storable.0 reads
          ∙ ap (λ b. ok (some b)) (take-drop-splice at bytes file fits),
      same,
      λ i out. get_elem?-splice_outside at i bytes file out,
    )

-- ===== src/Copy/Block.antt =====
-- One round of the loop of copyChunk: the input block is copied to its place in the output.
use mathlib.Core.Bool.{false≢true}
use pcat.Common.{
  ℕ, ◌+◌, ◌-◌, ◌≤◌, ◌<◌, ◌≡◌, ◌≢◌, ◌⊎◌, inl, inr, refl, sym, ap, ◌∙◌, subst, List, [], ◌∷◌, Bool,
  true, false, Option, none, some, Result, ok, sum, get_elem?, take, drop, arith, min, length-take,
  length-drop, Bool-cases, not,
}
use pcat.Common
use pcat.MappingOffset.{length, offset, adjustment, adjusted_offset, adjusted_length}
use pcat.InputFiles.{start, before_end}
use pcat.Bytes.{
  concat, lengths, splice, length-splice, get_elem?-splice_inside, get_elem?-splice_outside,
  get_elem?-take, get_elem?-drop, get_elem?-concat, length_at-lengths,
}
use pcat.ChunkState.{ChunkState}
use pcat.ChunkState.Walk.{IsSync}
use pcat.Mmap.{
  Os, Mmap, input, map_file, valid, index, advise, read_block, madv_sequential, madv_willneed,
  madv_dontdump, prot_read, map_private, Address, can_read,
}
use pcat.Copy.Granted.{Loaded, advise-All}
use pcat.Mmap.Laws.{
  IsStorable, index-inside, read_block-inside, copy_to-inside, IsReliable, map_file-valid,
  advise-reliable,
}
use pcat.Copy.{copy_block, copy_input, einval}

-- The `r` bytes from `p` on are those of `flat`; the others are those of `out`.
pub record IsCopied (flat out out' : List ℕ) (p r : ℕ) : Type 0 where
  pub same_length : Common.length out' ≡ Common.length out
  pub inside : (i : ℕ) → p ≤ i → i < p + r → get_elem? out' i ≡ get_elem? flat i
  pub outside : (i : ℕ) → (i < p) ⊎ (p + r ≤ i) → get_elem? out' i ≡ get_elem? out i

-- A block of a file that is written at its place in the concatenation.
splice-IsCopied :
    (contents : List (List ℕ)) (file out : List ℕ) (i o p n : ℕ)
    → get_elem? contents i ≡ some file
    → o + n ≤ Common.length file
    → p ≡ start (lengths contents) i + o
    → p + n ≤ Common.length out
    → IsCopied (concat contents) out (splice p (take n (take n (drop o file))) out) p n
splice-IsCopied contents file out i o p n e h at le = record {
  same_length = length-splice p bytes out;
  inside = λ j lo hi.
      let k : ℕ = j - p in
      get_elem?-splice_inside p j k bytes out (omega arith) (omega (arith, size))
        (omega (arith, size))
      ∙ (get_elem?-take n k (take n (drop o file)) (omega arith)
          ∙ (get_elem?-take n k (drop o file) (omega arith)
              ∙ (get_elem?-drop o k file
                  ∙ sym (
                      subst (λ t. get_elem? (concat contents) t ≡ get_elem? file (o + k))
                        (placed k j (omega arith))
                        (get_elem?-concat contents i (o + k) file e (omega arith))))));
  outside = λ j q. get_elem?-splice_outside p j bytes out (ground (arith, size));
}
  where
    bytes : List ℕ
    bytes = take n (take n (drop o file))

    size : Common.length bytes ≡ n
    size = omega (
      arith,
      length-take n (take n (drop o file)),
      length-take n (drop o file),
      length-drop o file,
    )

    placed : (k j : ℕ) → j ≡ p + k → start (lengths contents) i + (o + k) ≡ j
    placed k j q = omega arith

module _ (os : Os) (contents : List (List ℕ)) (rule : ℕ → ℕ → ℕ) (chunk : ChunkState) where
  abbrev input_map : Mmap
  input_map =
      map_file os (input chunk.file) (adjusted_offset chunk.input_offset)
        (adjusted_length chunk.input_offset) prot_read map_private

  -- the address of the input block
  abbrev source : Address
  source = record { mapped = input_map.addr_; place = offset chunk.input_offset }

  -- What `copyTo` leaves, where every access is in bounds.
  abbrev written : List ℕ → ℕ → List ℕ → List ℕ
  written file at out =
      splice at
        (take (length chunk.input_offset)
          (take (length chunk.input_offset) (drop (offset chunk.input_offset) file)))
        out

  input_map-index :
      0 < length chunk.input_offset → index input_map (adjustment chunk.input_offset) ≡ some source
  unfolding map_file offset length adjustment adjusted_offset adjusted_length
  input_map-index h = index-inside input_map (adjustment chunk.input_offset) (omega arith)

  input_map-read :
      (file : List ℕ)
      → valid input_map ≡ true
      → offset chunk.input_offset + length chunk.input_offset ≤ Common.length file
      → read_block input_map file source (length chunk.input_offset)
        ≡ ok (take (length chunk.input_offset) (drop (offset chunk.input_offset) file))
  unfolding map_file offset length adjustment adjusted_offset adjusted_length valid can_read
  input_map-read file is_valid h =
      read_block-inside input_map file _ _ (rw is_valid refl) (omega arith) h

  -- The bytes of the block stand in the mapping.
  input_map-Loaded :
      IsSync (lengths contents) chunk
      → valid input_map ≡ true
      → advise os input_map (madv_sequential ∷ madv_willneed ∷ madv_dontdump ∷ []) ≡ true
      → (i : ℕ) → offset chunk.output_offset ≤ i
      → i < offset chunk.output_offset + length chunk.input_offset
      → Loaded os contents i
  unfolding map_file valid offset length adjustment adjusted_offset adjusted_length
  input_map-Loaded v is_valid advised i lo hi = record {
    file = chunk.file;
    place = i - start (lengths contents) chunk.file;
    low = adjusted_offset chunk.input_offset;
    size = adjusted_length chunk.input_offset;
    here = omega (arith, v.place);
    inside = (omega (arith, v.place), omega (arith, v.place));
    mapped = is_valid;
    advised = advise-All os input_map _ advised;
  }

  copy_block-written :
      (output_chunk : Mmap) (file out : List ℕ) (off : ℕ)
      → IsStorable output_chunk
      → valid input_map ≡ true
      → 0 < length chunk.input_offset
      → offset chunk.input_offset + length chunk.input_offset ≤ Common.length file
      → off + length chunk.input_offset ≤ output_chunk.len_
      → output_chunk.position + off + length chunk.input_offset ≤ Common.length out
      → copy_block os contents rule output_chunk input_map chunk file off out
        ≡ ok (some (written file (output_chunk.position + off) out))
  unfolding copy_block
  copy_block-written m file out off storable is_valid pos inside fits room =
      rw (input_map-index pos, copy_block, input_map-read file is_valid inside)
        (copy_to-inside m off (length chunk.input_offset) _ out (omega arith) fits room storable)

  -- Where the calls of the system succeed, the input block is copied to its place; where one fails,
  -- its error code is returned and nothing is written.
  pub copy_input-cases :
      (output_chunk : Mmap) (out : List ℕ) (off : ℕ)
      → IsStorable output_chunk
      → IsSync (lengths contents) chunk
      → 0 < length chunk.output_offset
      → output_chunk.position + off ≡ offset chunk.output_offset
      → off + length chunk.output_offset ≤ output_chunk.len_
      → Common.length out ≡ sum (lengths contents)
      → ((copy_input os contents rule output_chunk chunk off out ≡ ok (none, os.errno))
          × ¬ IsReliable os)
        ⊎ ((out' : List ℕ) × (copy_input os contents rule output_chunk chunk off out
              ≡ ok (some out', einval))
            × IsCopied
                (concat contents)
                out
                out'
                (offset chunk.output_offset)
                (length chunk.input_offset)
            × ((i : ℕ)
                → offset chunk.output_offset ≤ i
                → i < offset chunk.output_offset + length chunk.input_offset
                → Loaded os contents i))
  unfolding copy_input
  copy_input-cases m out off storable v more place fits whole =
      let pos = v.live more in
      let before =
        before_end (lengths contents) chunk.file chunk.input_length v.file_le v.current
          (omega (arith, v.inside)) in
      let (file, e, size) =
        length_at-lengths contents chunk.file chunk.input_length v.current before in
      let block = λ (is_valid : valid input_map ≡ true).
        copy_block-written m file out off storable is_valid pos (omega (arith, v.inside))
          (omega (arith, v.fits)) (omega (arith, v.fits, v.bounded)) in
      elim (Bool-cases (valid input_map)) [
        | inr invalid ↦ inl (
          rw (e, copy_input, invalid),
          λ r. false≢true (sym invalid ∙ map_file-valid r _ _ _ _ _),
        )
        | inl is_valid ↦
            elim (Bool-cases
              (advise os input_map (madv_sequential ∷ madv_willneed ∷ madv_dontdump ∷ []))) [
                | inr refused ↦ inl (
                  rw (e, copy_input, is_valid, refused),
                  λ r. false≢true (sym refused ∙ advise-reliable r _ _),
                )
                | inl advised ↦ inr (
                  written file (m.position + off) out,
                  rw (e, copy_input, is_valid, advised, block is_valid),
                  rw place (
                      splice-IsCopied contents file out chunk.file (offset chunk.input_offset)
                        (offset chunk.output_offset) (length chunk.input_offset) e
                        (omega (arith, v.inside)) v.place (omega (arith, v.fits, v.bounded))),
                  input_map-Loaded v is_valid advised,
                )
              ]
      ]

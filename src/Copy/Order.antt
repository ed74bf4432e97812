-- ===== src/Copy/Order.antt =====
-- The blocks copied in any order: what their order does not change.
use mathlib.Core.List.{Permᴰ}
use pcat.Common.{
  ℕ, zero, suc, ◌+◌, ◌-◌, ◌≤◌, ◌<◌, ◌≡◌, ◌≢◌, ◌⊎◌, inl, inr, refl, sym, ap, ◌∙◌, subst, List, [],
  ◌∷◌, Bool, ok, sum, get_elem?, arith, All, dec_lt, dec_le,
}
use pcat.Common
use pcat.MappingOffset.{length, offset, adjustment}
use pcat.InputFiles.{IsPositive}
use pcat.Bytes.{concat, lengths, length-concat, List-ext}
use pcat.ChunkState.{ChunkState}
use pcat.ChunkState.Walk.{IsSync}
use pcat.ChunkState.End.{IsKept}
use pcat.Mmap.{Os}
use pcat.Mmap.Laws.{IsReliable}
use pcat.Copy.{run_chunks}
use pcat.Copy.Granted.{Granted, IsWhole}
use pcat.Copy.Outcome.{Outcome}
use pcat.Copy.Loop.{copy_chunk-Outcome}

-- The block of the output that the state fills holds the byte `i`.
abbrev pub Fills : ℕ → ChunkState → Type 0
Fills i s = (offset s.output_offset ≤ i) × (i < offset s.output_offset + length s.output_offset)

abbrev pub Covers : ℕ → List ChunkState → Type 0
Covers i [] = ⊥
Covers i (s ∷ chunks) = Fills i s ⊎ Covers i chunks

abbrev pub IsZero : List ℕ → Type 0
IsZero = All (λ code. code ≡ 0)

pub All-perm {ℓ κ} :
    {A : Type ℓ} (P : A → Type κ) {xs ys : List A} → Permᴰ xs ys → All P xs → All P ys
All-perm P Permᴰ.nil h = tt
All-perm P (Permᴰ.cons e d) h = (subst P e h.0, All-perm P d h.1)
All-perm P (Permᴰ.swap e e') h = (subst P e' h.1.0, (subst P e h.0, h.1.1))
All-perm P (Permᴰ.trans d d') h = All-perm P d' (All-perm P d h)

pub Covers-perm : (i : ℕ) {xs ys : List ChunkState} → Permᴰ xs ys → Covers i xs → Covers i ys
Covers-perm i Permᴰ.nil h = h
Covers-perm i (Permᴰ.cons e d) (inl h) = inl (subst (Fills i) e h)
Covers-perm i (Permᴰ.cons e d) (inr h) = inr (Covers-perm i d h)
Covers-perm i (Permᴰ.swap e e') (inl h) = inr (inl (subst (Fills i) e h))
Covers-perm i (Permᴰ.swap e e') (inr (inl h)) = inl (subst (Fills i) e' h)
Covers-perm i (Permᴰ.swap e e') (inr (inr h)) = inr (inr h)
Covers-perm i (Permᴰ.trans d d') h = Covers-perm i d' (Covers-perm i d h)

-- What copyChunk needs to know of a block.
abbrev pub IsJob : List ℕ → (ChunkState → Type 0) → ChunkState → Type 0
IsJob files Known s = IsSync files s × Known s × (adjustment s.output_offset ≡ 0)

module _ (os : Os) (fails : os.errno ≢ 0) (contents : List (List ℕ)) (rule : ℕ → ℕ → ℕ)
    (Known : ChunkState → Type 0) (kept : IsKept (lengths contents) rule Known)
    (positive : IsPositive (lengths contents)) (is_sync : Bool) where
  pub record Ran (chunks : List ChunkState) (out out' codes : List ℕ) : Type 0 where
    pub run : run_chunks os contents rule is_sync chunks out ≡ ok (out', codes)
    pub same_length : Common.length out' ≡ Common.length out
    pub copied :
        IsZero codes
        → (i : ℕ) → (Covers i chunks ⊎ (get_elem? out i ≡ get_elem? (concat contents) i))
        → get_elem? out' i ≡ get_elem? (concat contents) i
    pub granted : IsZero codes → (i : ℕ) → Covers i chunks → Granted os contents is_sync i
    pub succeeds : IsReliable os → IsZero codes

  -- A byte that a later block fills, or that is right, still is so after the first block.
  after_block :
      (s : ChunkState) (chunks : List ChunkState) (out out1 : List ℕ) (code : ℕ)
      → Outcome os
          (Granted os contents is_sync)
          (concat contents)
          out
          out1
          (offset s.output_offset)
          (length s.output_offset)
          code
      → code ≡ 0
      → (i : ℕ) → (Covers i (s ∷ chunks) ⊎ (get_elem? out i ≡ get_elem? (concat contents) i))
      → (Covers i chunks ⊎ (get_elem? out1 i ≡ get_elem? (concat contents) i))
  after_block s chunks out out1 code o z i (inl (inl now)) = inr (o.copied z i now.0 now.1)
  after_block s chunks out out1 code o z i (inl (inr later)) = inl later
  after_block s chunks out out1 code o z i (inr same) = elim (dec_lt i (offset s.output_offset)) [
    | yes before ↦ inr (o.outside i (inl before) ∙ same)
    | no from ↦ elim (dec_lt i (offset s.output_offset + length s.output_offset)) [
      | yes now ↦ inr (o.copied z i (omega arith) now)
      | no after ↦ inr (o.outside i (inr (omega arith)) ∙ same)
    ]
  ]

  pub run_chunks-Ran :
      (chunks : List ChunkState) (out : List ℕ)
      → All (IsJob (lengths contents) Known) chunks
      → Common.length out ≡ sum (lengths contents)
      → (out' : List ℕ) × (codes : List ℕ) × Ran chunks out out' codes
  unfolding run_chunks
  run_chunks-Ran [] out jobs whole = (
    out,
    [],
    record {
      run = refl;
      same_length = refl;
      copied = λ z i h. elim h [ inl none ↦ absurd none | inr same ↦ same ];
      granted = λ z i h. absurd h;
      succeeds = λ r. tt;
    },
  )
  run_chunks-Ran (s ∷ chunks) out jobs whole =
      let (v, k, aligned) = jobs.0 in
      let (out1, code, run1, o) =
        copy_chunk-Outcome os fails contents rule Known kept positive is_sync s out v k aligned
          whole in
      let (out2, codes, r) = run_chunks-Ran chunks out1 jobs.1 (o.same_length ∙ whole) in
      (
        out2,
        code ∷ codes,
        record {
          run = rw (run1, r.run);
          same_length = r.same_length ∙ o.same_length;
          copied = λ z i h. r.copied z.1 i (after_block s chunks out out1 code o z.0 i h);
          granted = λ z i h. elim h [
            | inl now ↦ o.granted z.0 i now.0 now.1
            | inr later ↦ r.granted z.1 i later
          ];
          succeeds = λ t. (o.succeeds t, r.succeeds t);
        },
      )

  -- Blocks in step with the input that fill the whole output, copied in any order: the run ends
  -- without a fault. If every code is 0 the output is the concatenation of the input files, with every
  -- call behind it granted, and every code is 0 if the calls of the system succeed.
  pub run_chunks-concat :
      (chunks order : List ChunkState) (out : List ℕ)
      → All (IsJob (lengths contents) Known) chunks
      → ((i : ℕ) → i < sum (lengths contents) → Covers i chunks)
      → Permᴰ chunks order
      → Common.length out ≡ sum (lengths contents)
      → (out' : List ℕ) × (codes : List ℕ) × (run_chunks os contents rule is_sync order out
          ≡ ok (out', codes))
        × (IsZero codes → IsWhole os contents is_sync out')
        × (IsReliable os → IsZero codes)
  run_chunks-concat chunks order out jobs covers perm whole =
      let (out', codes, r) =
        run_chunks-Ran order out (All-perm (IsJob (lengths contents) Known) perm jobs) whole in
      (
        out',
        codes,
        r.run,
        (λ z. (
          List-ext out' (concat contents) (r.same_length ∙ (whole ∙ sym (length-concat contents)))
              (λ i h.
                r.copied z i (inl (Covers-perm i perm (covers i (omega (arith, r.same_length)))))),
          λ i h. r.granted z i (Covers-perm i perm (covers i h)),
        )),
        r.succeeds,
      )

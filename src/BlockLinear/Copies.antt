-- ===== src/BlockLinear/Copies.antt =====
-- The blocks of blockLinear, copied by copyChunk in any order.
use mathlib.Core.List.{Permᴰ}
use pcat.Common.{
  ◌*◌, ◌/◌, sym, subst, ◌∙◌, dec_le, ℕ_discrete, ok-injective, ℕ, ◌+◌, ◌-◌, ◌%◌, ◌≤◌, ◌<◌, ◌≡◌, ◌≢◌,
  ◌⊎◌, inl, inr, List, [], ◌∷◌, Bool, ok, sum, arith, All, dec_lt,
}
use pcat.Common
use pcat.MappingOffset.{block_length, transfer_block_size, length, offset, adjustment}
use pcat.InputFiles.{IsPositive, start}
use pcat.Bytes.{concat, lengths}
use pcat.ChunkState.{ChunkState}
use pcat.ChunkState.Walk.{IsSync}
use pcat.Mmap.{Os}
use pcat.Mmap.Laws.{IsReliable}
use pcat.Copy.{run_chunks}
use pcat.Copy.Granted.{IsWhole}
use pcat.Copy.Order.{Covers, IsZero, IsJob, run_chunks-concat}
use pcat.BlockLinear.{block_rule, chunks}
use pcat.BlockLinear.Known.{Known, Known-IsKept}
use pcat.BlockLinear.Chunks.{Tiles, chunks-Tiles, chunks-past_end}

pub Tiles-Covers :
    (files : List ℕ) (p : ℕ) (cs : List ChunkState)
    → Tiles files p cs
    → (i : ℕ) → p ≤ i
    → i < sum files
    → Covers i cs
Tiles-Covers files p [] t i lo hi = absurd (omega arith)
Tiles-Covers files p (s ∷ cs) t i lo hi = elim (dec_lt i (p + length s.output_offset)) [
  | yes now ↦ inl (omega (arith, t.0), omega (arith, t.0))
  | no later ↦ inr (Tiles-Covers files (p + length s.output_offset) cs t.5 i (omega arith) hi)
]

block_start :
    (files : List ℕ) (s : ChunkState) (p : ℕ)
    → IsSync files s
    → offset s.output_offset ≡ p
    → p % transfer_block_size ≡ 0
    → adjustment s.output_offset ≡ 0
unfolding offset adjustment
block_start files s p v at aligned = omega (arith, v.paged.1)

next_start :
    (n p r : ℕ)
    → r ≡ block_length (n - p)
    → p % transfer_block_size ≡ 0
    → p + r < n
    → (p + r) % transfer_block_size ≡ 0
unfolding block_length
next_start n p r e aligned more = omega arith

pub Tiles-IsJob :
    (files : List ℕ) (p : ℕ) (cs : List ChunkState)
    → Tiles files p cs
    → (p < sum files → p % transfer_block_size ≡ 0)
    → All (IsJob files Known) cs
Tiles-IsJob files p [] t aligned = tt
Tiles-IsJob files p (s ∷ cs) (at, size, pos, v, known, rest) aligned =
    let start = aligned (omega (arith, v.bounded)) in
    (
      (v, known, block_start files s p v at start),
      Tiles-IsJob files (p + length s.output_offset) cs rest
          (next_start (sum files) p (length s.output_offset) size start),
    )

report :
    (codes : List ℕ) (Goal : Type 0)
    → (IsZero codes → Goal)
    → ((¬ IsZero codes) ⊎ (IsZero codes × Goal))
report [] Goal f = inr (tt, f tt)
report (code ∷ codes) Goal f = elim (ℕ_discrete code 0) [
  | no failed ↦ inl (λ z. failed z.0)
  | yes fine ↦ elim (report codes Goal (λ z. f (fine, z))) [
    | inl later ↦ inl (λ z. later z.1)
    | inr (z, g) ↦ inr ((fine, z), g)
  ]
]

module _ (os : Os) (contents : List (List ℕ)) (is_sync : Bool) (cs order : List ChunkState)
    (out : List ℕ) where
  -- What the loop gives, if it does not fault, tiles the output.
  pub chunks-ok-Tiles :
      (files : List ℕ) → IsPositive files → chunks files (sum files) ≡ ok cs → Tiles files 0 cs
  chunks-ok-Tiles files positive run =
      elim (dec_le (start files (Common.length files - 1))
        ((sum files - 1) / transfer_block_size * transfer_block_size)) [
          | yes single ↦
              let (cs', run', tiles) = chunks-Tiles files positive single in
              subst (Tiles files 0) (ok-injective (sym run' ∙ run)) tiles
          | no many ↦ cc (chunks-past_end files positive many)
        ]

  copies-run :
      os.errno ≢ 0
      → IsPositive (lengths contents)
      → chunks (lengths contents) (sum (lengths contents)) ≡ ok cs
      → Permᴰ cs order
      → Common.length out ≡ sum (lengths contents)
      → (out' : List ℕ) × (codes : List ℕ) × (run_chunks os contents block_rule is_sync order out
          ≡ ok (out', codes))
        × (IsZero codes → IsWhole os contents is_sync out')
        × (IsReliable os → IsZero codes)
  copies-run fails positive run perm whole =
      let files = lengths contents in
      let tiles = chunks-ok-Tiles files positive run in
      run_chunks-concat os fails contents block_rule Known (Known-IsKept files) positive is_sync cs
        order out (Tiles-IsJob files 0 cs tiles (λ _. omega arith))
        (λ i h. Tiles-Covers files 0 cs tiles i (omega arith) h) perm whole

  -- For input files that are not empty, on a system that sets `errno` where a call fails: if
  -- the loop over the blockLinear chunker ends without a fault, its blocks may be copied in any
  -- order, into an output that has been resized to the total length. If the calls of the system
  -- succeed every copy returns 0, and the output is then the concatenation of the input files.
  pub copies-concat :
      os.errno ≢ 0
      → IsPositive (lengths contents)
      → chunks (lengths contents) (sum (lengths contents)) ≡ ok cs
      → Permᴰ cs order
      → Common.length out ≡ sum (lengths contents)
      → IsReliable os
      → (out' : List ℕ) × (codes : List ℕ) × (run_chunks os contents block_rule is_sync order out
          ≡ ok (out', codes))
        × IsZero codes
        × (out' ≡ concat contents)
  copies-concat fails positive run perm whole reliable =
      let (out', codes, e, same, zero_if) = copies-run fails positive run perm whole in
      (out', codes, e, zero_if reliable, (same (zero_if reliable)).0)

  -- For input files that are not empty, on a system that sets `errno` where a call fails: if the
  -- loop over the blockLinear chunker ends without a fault, then whatever the calls of the system
  -- answer, the copies of its blocks in any order, into an output of the total length, end without
  -- a fault, and either one of them returns an error code or the output is the concatenation of
  -- the input files, and each byte of it then stands in a mapping of its file and in one of the
  -- output that the system has made, taken the advice on and, with `sync`, written back.
  pub copies-report :
      os.errno ≢ 0
      → IsPositive (lengths contents)
      → chunks (lengths contents) (sum (lengths contents)) ≡ ok cs
      → Permᴰ cs order
      → Common.length out ≡ sum (lengths contents)
      → (out' : List ℕ) × (codes : List ℕ) × (run_chunks os contents block_rule is_sync order out
          ≡ ok (out', codes))
        × ((¬ IsZero codes) ⊎ (IsZero codes × IsWhole os contents is_sync out'))
  copies-report fails positive run perm whole =
      let (out', codes, e, same, zero_if) = copies-run fails positive run perm whole in
      (out', codes, e, report codes (IsWhole os contents is_sync out') same)

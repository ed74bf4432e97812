-- ===== src/Copy/Outcome.antt =====
-- What copyChunk may leave of the output, and how the outcomes of its rounds add up.

use pcat.Common.{
  ℕ, zero, suc, ◌+◌, ◌-◌, ◌≤◌, ◌<◌, ◌≡◌, ◌≢◌, ◌⊎◌, ◌&&◌, inl, inr, refl, sym, ap, ◌∙◌, subst, List,
  [], ◌∷◌, Bool, true, false, Option, none, some, Result, ok, sum, get_elem?, arith, Bool-cases,
  not, ltb, dec_lt, ℕ_discrete,
}
use pcat.Common
use pcat.Mmap.{Os}
use pcat.Mmap.Laws.{IsReliable}
use pcat.Copy.Block.{IsCopied}

-- What a copy of the `r` bytes from `p` on leaves, with the error code that it returns, 0 or the
-- system's: the bytes outside are kept whatever happens, the block is copied if the code is 0, and its
-- bytes are then granted; on a system whose calls succeed the code is 0.
pub record Outcome (os : Os) (Grants : ℕ → Type 0) (flat out out' : List ℕ) (p r code : ℕ)
    : Type 0 where
  pub same_length : Common.length out' ≡ Common.length out
  pub outside : (i : ℕ) → (i < p) ⊎ (p + r ≤ i) → get_elem? out' i ≡ get_elem? out i
  pub copied : code ≡ 0 → (i : ℕ) → p ≤ i → i < p + r → get_elem? out' i ≡ get_elem? flat i
  pub granted : code ≡ 0 → (i : ℕ) → p ≤ i → i < p + r → Grants i
  pub known_code : (code ≡ 0) ⊎ (code ≡ os.errno)
  pub succeeds : IsReliable os → code ≡ 0

pub with_output :
    (os : Os) (Loads Grants : ℕ → Type 0) (flat out out' : List ℕ) (p r code : ℕ)
    → (code ≡ 0 → (i : ℕ) → p ≤ i → i < p + r → Loads i → Grants i)
    → Outcome os Loads flat out out' p r code
    → Outcome os Grants flat out out' p r code
with_output os Loads Grants flat out out' p r code grant o = record {
  same_length = o.same_length;
  outside = o.outside;
  copied = o.copied;
  granted = λ z i lo hi. grant z i lo hi (o.granted z i lo hi);
  known_code = o.known_code;
  succeeds = o.succeeds;
}

-- Every byte outside the block is as it was.
pub record KeepsOutside (out out' : List ℕ) (p r : ℕ) : Type 0 where
  pub same_length : Common.length out' ≡ Common.length out
  pub outside : (i : ℕ) → (i < p) ⊎ (p + r ≤ i) → get_elem? out' i ≡ get_elem? out i

module _ (os : Os) (fails : os.errno ≢ 0) (Grants : ℕ → Type 0) (flat : List ℕ) where
  pub failed :
      (out : List ℕ) (p r : ℕ) → ¬ IsReliable os → Outcome os Grants flat out out p r os.errno
  failed out p r unreliable = record {
    same_length = refl;
    outside = λ i h. refl;
    copied = λ z. absurd (fails z);
    granted = λ z. absurd (fails z);
    known_code = inr refl;
    succeeds = λ s. absurd (unreliable s);
  }

  pub nothing_left : (out : List ℕ) (p r : ℕ) → r ≡ 0 → Outcome os Grants flat out out p r 0
  nothing_left out p r e = record {
    same_length = refl;
    outside = λ i h. refl;
    copied = λ z i lo hi. absurd (omega arith);
    granted = λ z i lo hi. absurd (omega arith);
    known_code = inl refl;
    succeeds = λ s. refl;
  }

  pub then_rest :
      (out out1 out2 : List ℕ) (p l q r k code : ℕ)
      → IsCopied flat out out1 p l
      → q ≡ p + l
      → r + l ≡ k
      → ((i : ℕ) → p ≤ i → i < p + l → Grants i)
      → Outcome os Grants flat out1 out2 q r code
      → Outcome os Grants flat out out2 p k code
  then_rest out out1 out2 p l q r k code a e e' loads b = record {
    same_length = b.same_length ∙ a.same_length;
    outside = λ i h. b.outside i (ground arith) ∙ a.outside i (ground arith);
    copied = λ z i lo hi. elim (dec_lt i q) [
      | yes early ↦ b.outside i (inl early) ∙ a.inside i lo (omega arith)
      | no late ↦ b.copied z i (omega arith) (omega arith)
    ];
    granted = λ z i lo hi. elim (dec_lt i q) [
      | yes early ↦ loads i lo (omega arith)
      | no late ↦ b.granted z i (omega arith) (omega arith)
    ];
    known_code = b.known_code;
    succeeds = b.succeeds;
  }

-- ===== src/Copy/Threads.antt =====
-- copyChunk as the worker function of a threadPool_t.
use mathlib.Core.List.{Permᴰ}
use pcat.Common.{
  ℕ, zero, suc, ◌+◌, ◌-◌, ◌≤◌, ◌<◌, ◌≡◌, ◌≢◌, ◌⊎◌, inl, inr, refl, sym, ap, ◌∙◌, subst, List, [],
  ◌∷◌, ◌++◌, Bool, Result, ok, err, ◌>>=◌, sum, get_elem?, arith, All, ok-injective, ℕ_discrete,
}
use pcat.Common
use pcat.InputFiles.{IsPositive}
use pcat.Bytes.{concat, lengths, length-concat, List-ext}
use pcat.ChunkState.{ChunkState}
use pcat.ChunkState.End.{IsKept}
use pcat.Mmap.{Os}
use pcat.Mmap.Laws.{IsReliable}
use pcat.Copy.{copy_chunk, run_chunks}
use pcat.Copy.Granted.{IsWhole}
use pcat.Copy.Order.{All-perm, Covers, Covers-perm, IsZero, IsJob, run_chunks-Ran}
use pcat.ThreadPool.{returned}
use pcat.ThreadPool.Relation.{Pool, new_pool, Reach}
use pcat.ThreadPool.Sequential.{run_all}
use pcat.ThreadPool.Finish.{Done, new_pool-Done}
use mathlib.Core.List.{Memᴰ}
use mathlib.Core.Path.{fun_ext}
use mathlib.Core.Logic.{∥∥₁_elim}
use mathlib.Core.HLevel.{⊥_prop}

pub run_all-run_chunks :
    (os : Os) (contents : List (List ℕ)) (rule : ℕ → ℕ → ℕ) (is_sync : Bool)
    (chunks : List ChunkState) (out : List ℕ)
    → run_all (copy_chunk os contents rule is_sync) chunks out
      ≡ run_chunks os contents rule is_sync chunks out
unfolding run_all run_chunks
run_all-run_chunks os contents rule is_sync [] out = refl
run_all-run_chunks os contents rule is_sync (s ∷ chunks) out =
    ap (λ f. copy_chunk os contents rule is_sync s out >>= f)
      (fun_ext λ first.
        ap (λ r. r >>= λ others. ok (others.0, first.1 ∷ others.1))
          (run_all-run_chunks os contents rule is_sync chunks first.0))

pub All-behind : {A : Type 0} (P : A → Type 0) (rest xs : List A) → All P (rest ++ xs) → All P xs
All-behind P [] xs h = h
All-behind P (x ∷ rest) xs h = All-behind P rest xs h.1

Memᴰ-zero : (code : ℕ) (codes : List ℕ) → IsZero codes → Memᴰ code codes → code ≡ 0
Memᴰ-zero code [] h m = elim m [ ]
Memᴰ-zero code (_ ∷ codes) h (Memᴰ.head e) = e ∙ h.0
Memᴰ-zero code (_ ∷ codes) h (Memᴰ.tail d) = Memᴰ-zero code codes h.1 d

module _ (os : Os) (fails : os.errno ≢ 0) (contents : List (List ℕ)) (rule : ℕ → ℕ → ℕ)
    (Known : ChunkState → Type 0) (kept : IsKept (lengths contents) rule Known)
    (positive : IsPositive (lengths contents)) (is_sync : Bool) (unset : ChunkState) where
  -- What the output and the value are where a pool has run the blocks.
  pub new_pool-concat :
      (count : ℕ) (chunks : List ChunkState) (out : List ℕ) (s : Pool ChunkState (List ℕ))
      (value : ℕ) (rest : List ChunkState)
      → All (IsJob (lengths contents) Known) chunks
      → ((i : ℕ) → i < sum (lengths contents) → Covers i chunks)
      → Common.length out ≡ sum (lengths contents)
      → 0 < count
      → Reach unset (copy_chunk os contents rule is_sync) (new_pool count chunks out) s
      → s.main ≡ returned value rest
      → (value ≡ 0 → IsWhole os contents is_sync s.shared.out) × (IsReliable os → value ≡ 0)
  new_pool-concat count chunks out s value rest jobs covers whole pos r e =
      let copy = copy_chunk os contents rule is_sync in
      let d : Done unset copy chunks out s.shared.out value rest =
        new_pool-Done unset copy count chunks out s value rest pos r e in
      let (out', codes, ran) =
        run_chunks-Ran os fails contents rule Known kept positive is_sync d.ran out
          (All-behind (IsJob (lengths contents) Known) rest d.ran
            (All-perm (IsJob (lengths contents) Known) d.jobs jobs))
          whole in
      let same =
        ok-injective
          (sym d.run ∙ (run_all-run_chunks os contents rule is_sync d.ran out ∙ ran.run)) in
      let out-same : s.shared.out ≡ out' = ap (λ p. p.0) same in
      let codes-same : d.codes ≡ codes = ap (λ p. p.1) same in
      (
        (λ z.
            let (queued, zeros) = d.succeeded z in
            let perm : Permᴰ chunks d.ran = subst (λ l. Permᴰ chunks (l ++ d.ran)) queued d.jobs in
            let whole' = ran.same_length ∙ whole in
            let all = subst IsZero codes-same zeros in
            (
              out-same
                  ∙ List-ext out' (concat contents) (whole' ∙ sym (length-concat contents)) (λ i h.
                    ran.copied all i (inl (Covers-perm i perm (covers i (omega (arith, whole')))))),
              λ i h. ran.granted all i (Covers-perm i perm (covers i h)),
            )),
        (λ reliable. elim (ℕ_discrete value 0) [
          | yes z ↦ z
          | no nz ↦ absurd (
              ∥∥₁_elim (d.failed nz) ⊥_prop λ m.
                nz (
                  Memᴰ-zero value d.codes (subst IsZero (sym codes-same) (ran.succeeds reliable))
                    m))
        ]),
      )

-- From that state there is a way on to one in which chunkedCopy has returned. The value is 0 only if the
-- output is the concatenation of the files with every call behind it granted, and it is 0 if the calls of
-- the system succeed.
abbrev pub Reports :
    Os
    → List (List ℕ)
    → Bool
    → ChunkState
    → (ChunkState → List ℕ → Result (List ℕ × ℕ))
    → Pool ChunkState (List ℕ)
    → Type 0
Reports os contents is_sync unset copy s =
    (t : Pool ChunkState (List ℕ)) × (value : ℕ) × (rest : List ChunkState) × Reach unset copy s t
    × (t.main ≡ returned value rest)
    × (value ≡ 0 → IsWhole os contents is_sync t.shared.out)
    × (IsReliable os → value ≡ 0)

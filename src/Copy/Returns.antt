-- ===== src/Copy/Returns.antt =====
-- A pool that runs copyChunk on blocks in step with the input can always go on to its return.

use pcat.Common.{
  ℕ, suc, ◌+◌, ◌≤◌, ◌<◌, ◌≡◌, ◌≢◌, refl, sym, ap, ◌∙◌, subst, List, [], ◌∷◌, ◌++◌, Bool, Result, ok,
  sum, arith, All, ok-injective,
}
use pcat.Common
use pcat.InputFiles.{IsPositive}
use pcat.Bytes.{lengths}
use pcat.ChunkState.{ChunkState}
use pcat.ChunkState.End.{IsKept}
use pcat.Mmap.{Os}
use pcat.Copy.{copy_chunk}
use pcat.Copy.Loop.{copy_chunk-Outcome}
use pcat.Copy.Order.{All-perm, IsJob, run_chunks-Ran}
use pcat.Copy.Threads.{All-behind, run_all-run_chunks}
use pcat.ThreadPool.{working}
use pcat.ThreadPool.Relation.{Pool, new_pool, Reach, here}
use pcat.ThreadPool.Tally.{hand, gather, gather-middle}
use pcat.ThreadPool.Answer.{left}
use pcat.ThreadPool.Kept.{Kept, Reach-Kept}
use pcat.ThreadPool.Safe.{Reach-Safe}
use pcat.ThreadPool.Measure.{measure}
use pcat.ThreadPool.Enabled.{RunsAt}
use pcat.ThreadPool.Progress.{Returns, Reach-Returns}

All-front : {A : Type 0} (P : A → Type 0) (xs rest : List A) → All P (xs ++ rest) → All P xs
All-front P [] rest h = tt
All-front P (x ∷ xs) rest h = (h.0, All-front P xs rest h.1)

hand-first :
    (P : ChunkState → Type 0) (job : ChunkState) (others : List ChunkState)
    → All P (hand (working job) ++ others)
    → P job
unfolding hand
hand-first P job others h = h.0

module _ (os : Os) (fails : os.errno ≢ 0) (contents : List (List ℕ)) (rule : ℕ → ℕ → ℕ)
    (Known : ChunkState → Type 0) (kept : IsKept (lengths contents) rule Known)
    (positive : IsPositive (lengths contents)) (is_sync : Bool) (unset : ChunkState) where
  abbrev copy : ChunkState → List ℕ → Result (List ℕ × ℕ)
  copy = copy_chunk os contents rule is_sync

  module _ (count : ℕ) (chunks : List ChunkState) (out : List ℕ)
      (jobs : All (IsJob (lengths contents) Known) chunks)
      (whole : Common.length out ≡ sum (lengths contents)) (pos : 0 < count) where
    -- Every job in hand is one of the blocks, and the output has its length.
    new_pool-RunsAt :
        (s : Pool ChunkState (List ℕ))
        → Reach unset copy (new_pool count chunks out) s
        → RunsAt unset copy s
    new_pool-RunsAt s r before behind job at =
        let Job = IsJob (lengths contents) Known in
        let k : Kept copy chunks out s.shared s.workers s.main =
          Reach-Kept copy chunks out unset count s pos r in
        let all = All-behind Job s.shared.work.queue (gather hand s.workers ++ s.shared.ran) (
          All-behind Job (left s.main)
            (s.shared.work.queue ++ (gather hand s.workers ++ s.shared.ran))
            (All-perm Job k.jobs jobs)) in
        let hands =
          subst (λ ws. All Job (gather hand ws)) at
            (All-front Job (gather hand s.workers) s.shared.ran all) in
        let (v, known, aligned) =
          hand-first Job job (gather hand (before ++ behind))
            (All-perm Job (gather-middle hand before behind (working job)) hands) in
        let (out', codes, ran) =
          run_chunks-Ran os fails contents rule Known kept positive is_sync s.shared.ran out
            (All-behind Job (gather hand s.workers) s.shared.ran all) whole in
        let same =
          ok-injective (
            sym k.run ∙ (run_all-run_chunks os contents rule is_sync s.shared.ran out ∙ ran.run)) in
        let (out1, code, run1, o) =
          copy_chunk-Outcome os fails contents rule Known kept positive is_sync job s.shared.out v
            known aligned (ap (λ p. Common.length p.0) same ∙ (ran.same_length ∙ whole)) in
        (out1, code, run1)

    pub new_pool-copy_chunk_Returns :
        (s : Pool ChunkState (List ℕ))
        → Reach unset copy (new_pool count chunks out) s
        → Returns unset copy s
    new_pool-copy_chunk_Returns s r =
        Reach-Returns unset copy (new_pool count chunks out) new_pool-RunsAt (suc (measure s)) s s
          (Reach-Safe unset copy count chunks out s pos r, r) here (omega arith)

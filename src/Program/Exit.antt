-- ===== src/Program/Exit.antt =====
-- The copy and the exit of `main`: what the exit code says of the output.
use pcat.Common.{
  ℕ, ◌^◌, ◌<◌, ◌≡◌, ◌≢◌, ◌⊎◌, ◌∙◌, List, Bool, none, some, Result, ok, sum, arith, ◌==◌,
  if◌then◌else◌,
}
use pcat.Bytes.{lengths, concat}
use pcat.ChunkState.{ChunkState}
use pcat.Mmap.{Os}
use pcat.Mmap.Laws.{IsReliable}
use pcat.Copy.{copy_chunk}
use pcat.ThreadPool.{returned}
use pcat.ThreadPool.Relation.{Pool, Reach}
use pcat.BlockLinear
use pcat.BlockLinear.Threads.{start_copy, start_copy-concat}
use pcat.ChunkSpans
use pcat.ChunkSpans.Threads.{start_spans}
use pcat.Args.{Conversions, block_linear, chunk_spans, invalid}
use pcat.Program.{System, total_size, Plan, exits, copies, main}
use pcat.Program.Run.{accumulate-sum}
use pcat.Program.Ready.{main-IsReady}

-- the value that `main` returns behind chunkedCopy
unfoldable pub exit_code : ℕ → ℕ
exit_code error = if error == 0 then 0 else 1

-- A run of a pool, from its start to the value that chunkedCopy returns.
abbrev pub Ran :
    (ChunkState → List ℕ → Result (List ℕ × ℕ))
    → ChunkState
    → Pool ChunkState (List ℕ)
    → ℕ
    → List ℕ
    → Type 0
Ran copy unset start code out' =
    (s : Pool ChunkState (List ℕ)) × (value : ℕ) × (rest : List ChunkState) × Reach unset copy start
      s
    × (s.main ≡ returned value rest)
    × (code ≡ exit_code value)
    × (out' ≡ s.shared.out)

-- What `main` does with its decision, on `count` processors: the exit code, and the output that is left.
-- The short form of chunkSpans copies nothing.
abbrev pub Ends : Os → ℕ → ChunkState → Plan → ℕ → List ℕ → Type 0
Ends os count unset (exits exit) code out' = code ≡ exit
Ends os count unset (copies block_linear is_sync contents out) code out' =
    (start : Pool ChunkState (List ℕ)) × (start_copy contents count out ≡ ok start)
    × Ran (copy_chunk os contents BlockLinear.block_rule is_sync) unset start code out'
Ends os count unset (copies chunk_spans is_sync contents out) code out' =
    ((start_spans contents count out ≡ ok none) × (code ≡ exit_code 0) × (out' ≡ out))
    ⊎ ((start : Pool ChunkState (List ℕ)) × (start_spans contents count out ≡ ok (some start))
        × Ran (copy_chunk os contents ChunkSpans.block_rule is_sync) unset start code out')
Ends os count unset (copies invalid is_sync contents out) code out' = ⊥

module _ (system : System) where
  -- On every command line on which `main` decides to copy by blockLinear files of less than 2^64
  -- bytes in all, with one processor at least and a system that sets `errno` where a call fails:
  -- if the loop over the chunker does not fault, and `main` has returned, however the threads are
  -- interleaved, then its code is 0 only if the output is the concatenation of the files, and it
  -- is 0 if the calls of the system succeed.
  pub main-concat :
      (conv : Conversions) (args : List (List ℕ)) (os : Os) (count : ℕ) (unset : ChunkState)
      (is_sync : Bool) (contents : List (List ℕ)) (out out' : List ℕ) (code : ℕ)
      → os.errno ≢ 0
      → 0 < count
      → main system conv args ≡ ok (copies block_linear is_sync contents out)
      → sum (lengths contents) < 2 ^ 64
      → Ends os count unset (copies block_linear is_sync contents out) code out'
      → (code ≡ 0 → out' ≡ concat contents) × (IsReliable os → code ≡ 0)
  unfolding exit_code total_size
  main-concat conv args os count unset is_sync contents out out' code fails pos decided small
        (start, started, (s, value, rest, r, at, exit, left)) =
      let (positive, whole) =
        main-IsReady system conv args (copies block_linear is_sync contents out) decided in
      let (same, succeeds) =
        start_copy-concat os contents is_sync unset count out start s value rest fails positive
          (omega (arith, accumulate-sum 0 contents (omega arith), whole)) pos started r at in
      (
        (λ z. left ∙ (same (ground arith)).0),
        (λ reliable. let z = succeeds reliable in ground arith),
      )

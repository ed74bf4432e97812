-- ===== src/BlockLinear/Threads.antt =====
-- chunkedCopy of src/algorithm/blockLinear/chunking.cxx: the loop over the chunker, as the client of the
-- worker threads.
use pcat.Common.{
  ℕ, ◌<◌, ◌≤◌, ◌+◌, ◌≡◌, ◌≢◌, refl, sym, subst, ◌∙◌, List, Bool, Result, ok, ◌>>=◌, sum, arith,
  ok-injective, bind-ok,
}
use pcat.Common
use pcat.InputFiles.{IsPositive}
use pcat.Bytes.{lengths}
use pcat.ChunkState.{ChunkState}
use pcat.Mmap.{Os}
use pcat.Mmap.Laws.{IsReliable}
use pcat.Copy.{copy_chunk}
use pcat.Copy.Threads.{new_pool-concat, Reports}
use pcat.Copy.Returns.{new_pool-copy_chunk_Returns}
use pcat.ThreadPool.Progress.{Reach-trans}
use pcat.Copy.Granted.{IsWhole}
use pcat.ThreadPool.{returned}
use pcat.ThreadPool.Relation.{Pool, new_pool, Reach}
use pcat.BlockLinear.{block_rule, chunks}
use pcat.BlockLinear.Known.{Known, Known-IsKept}
use pcat.BlockLinear.Copies.{Tiles-Covers, Tiles-IsJob, chunks-ok-Tiles}

-- The pool and what the loop queues on it, for `count` processors.
unfoldable pub start_copy : List (List ℕ) → ℕ → List ℕ → Result (Pool ChunkState (List ℕ))
start_copy contents count out = do
  queued ← chunks (lengths contents) (Common.length out)
  ok (new_pool count queued out)

module _ (os : Os) (contents : List (List ℕ)) (is_sync : Bool) (unset : ChunkState) where
  -- For input files that are not empty, an output that has been resized to the total length, one
  -- processor at least, and a system that sets `errno` where a call fails: if the loop over the
  -- blockLinear chunker ends without a fault, then in a state in which chunkedCopy has returned,
  -- however the threads are interleaved: if the value is 0 the output is the concatenation of the
  -- input files, and each byte of it then stands in a mapping of its file and in one of the output
  -- that the system has made, taken the advice on and, with `sync`, written back; and the value is
  -- 0 if the calls of the system succeed.
  pub start_copy-concat :
      (count : ℕ) (out : List ℕ) (start s : Pool ChunkState (List ℕ)) (value : ℕ)
      (rest : List ChunkState)
      → os.errno ≢ 0
      → IsPositive (lengths contents)
      → Common.length out ≡ sum (lengths contents)
      → 0 < count
      → start_copy contents count out ≡ ok start
      → Reach unset (copy_chunk os contents block_rule is_sync) start s
      → s.main ≡ returned value rest
      → (value ≡ 0 → IsWhole os contents is_sync s.shared.out) × (IsReliable os → value ≡ 0)
  unfolding start_copy
  start_copy-concat count out start s value rest fails positive whole pos started r e =
      let files = lengths contents in
      let (queued, run, here) = bind-ok (chunks files (Common.length out)) _ start started in
      let tiles =
        chunks-ok-Tiles os contents is_sync queued queued out files positive
          (subst (λ n. chunks files n ≡ ok queued) whole run) in
      new_pool-concat os fails contents block_rule Known (Known-IsKept files) positive is_sync unset
        count queued out s value rest (Tiles-IsJob files 0 queued tiles (λ _. omega arith))
        (λ i h. Tiles-Covers files 0 queued tiles i (omega arith) h) whole pos
        (subst (λ first. Reach unset (copy_chunk os contents block_rule is_sync) first s)
          (sym (ok-injective here)) r)
        e

  -- For input files that are not empty, an output that has been resized to the total length, one
  -- processor at least, and a system that sets `errno` where a call fails: if the loop over the
  -- blockLinear chunker ends without a fault, then from every state that the threads reach there
  -- is a way on to a state in which chunkedCopy has returned, whatever the calls of the system
  -- answer. If the value is 0 there, the output is the concatenation of the input files, and each
  -- byte of it then stands in a mapping of its file and in one of the output that the system has
  -- made, taken the advice on and, with `sync`, written back; and the value is 0 if the calls of
  -- the system succeed.
  pub start_copy-Returns :
      (count : ℕ) (out : List ℕ) (start s : Pool ChunkState (List ℕ))
      → os.errno ≢ 0
      → IsPositive (lengths contents)
      → Common.length out ≡ sum (lengths contents)
      → 0 < count
      → start_copy contents count out ≡ ok start
      → Reach unset (copy_chunk os contents block_rule is_sync) start s
      → Reports os contents is_sync unset (copy_chunk os contents block_rule is_sync) s
  unfolding start_copy
  start_copy-Returns count out start s fails positive whole pos started r =
      let files = lengths contents in
      let (queued, run, here) = bind-ok (chunks files (Common.length out)) _ start started in
      let tiles =
        chunks-ok-Tiles os contents is_sync queued queued out files positive
          (subst (λ n. chunks files n ≡ ok queued) whole run) in
      let (t, value, rest, way, at) =
        new_pool-copy_chunk_Returns os fails contents block_rule Known (Known-IsKept files) positive
          is_sync unset count queued out (Tiles-IsJob files 0 queued tiles (λ _. omega arith)) whole
          pos s
          (subst (λ first. Reach unset (copy_chunk os contents block_rule is_sync) first s)
            (sym (ok-injective here)) r) in
      let (same, zero) =
        start_copy-concat count out start t value rest fails positive whole pos started
          (Reach-trans unset (copy_chunk os contents block_rule is_sync) r way) at in
      (t, value, rest, way, at, same, zero)

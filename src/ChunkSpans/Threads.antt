-- ===== src/ChunkSpans/Threads.antt =====
-- chunkedCopy of src/algorithm/chunkSpans/chunking.cxx: the loop over the chunker, as the client of the
-- worker threads.
use mathlib.Core.Option.{some-injective}
use pcat.Common.{
  dec_lt, ap, ℕ, ◌<◌, ◌≤◌, ◌+◌, ◌*◌, ◌/◌, ◌%◌, ◌^◌, ◌==◌, ltb, not, true, false, inl, inr,
  Bool-cases, ◌≡◌, ◌≢◌, refl, sym, subst, ◌∙◌, List, Bool, Option, none, some, Result, ok, err,
  ◌>>=◌, sum, arith, ok-injective, bind-ok, if◌then◌else◌, division_by_zero,
}
use pcat.Common
use pcat.InputFiles.{IsPositive}
use pcat.Bytes.{lengths}
use pcat.MappingOffset.{transfer_block_size}
use pcat.ChunkState.{ChunkState}
use pcat.Mmap.{Os}
use pcat.Mmap.Laws.{IsReliable}
use pcat.Copy.{copy_chunk}
use pcat.Copy.Threads.{new_pool-concat, Reports}
use pcat.Copy.Returns.{new_pool-copy_chunk_Returns}
use pcat.ThreadPool.Progress.{Reach-trans}
use pcat.Copy.Granted.{IsWhole}
use pcat.ThreadPool.{returned}
use pcat.ThreadPool.Relation.{Pool, new_pool, Reach}
use pcat.ChunkSpans.{block_rule, chunks}
use pcat.ChunkSpans.Known.{Known, Known-IsKept, IsAligned}
use pcat.ChunkSpans.Span.{IsSpan}
use pcat.ChunkSpans.Plan.{span_plan, span-IsSpan, span_plan-span}
use pcat.ChunkSpans.Count.{ok-Tiles}
use pcat.ChunkSpans.Copies.{Tiles-Covers, Tiles-IsJob}

-- The loop on the pool of `count` processors, for a span length; there is none for the short form.
abbrev pub start_loop :
    List (List ℕ) → ℕ → List ℕ → Option ℕ → Result (Option (Pool ChunkState (List ℕ)))
start_loop contents count out none = ok none
start_loop contents count out (some span) = do
  queued ← chunks (lengths contents) span (Common.length out)
  ok (some (new_pool count queued out))

-- The pool and what the loop queues on it, for `count` processors; `none` where the short form returns 0
-- at once.
unfoldable pub start_spans : List (List ℕ) → ℕ → List ℕ → Result (Option (Pool ChunkState (List ℕ)))
start_spans contents count out = do
  plan ← span_plan count (Common.length out)
  start_loop contents count out plan

start_loop-parts :
    (contents : List (List ℕ)) (count : ℕ) (out : List ℕ) (plan : Option ℕ)
    (start : Pool ChunkState (List ℕ))
    → start_loop contents count out plan ≡ ok (some start)
    → (span : ℕ) × (queued : List ChunkState) × (plan ≡ some span)
      × (chunks (lengths contents) span (Common.length out) ≡ ok queued)
      × (new_pool count queued out ≡ start)
start_loop-parts contents count out none start e = ground arith
start_loop-parts contents count out (some span) start e =
    let (queued, run, here) =
      bind-ok (chunks (lengths contents) span (Common.length out)) _ (some start) e in
    (span, queued, refl, run, some-injective _ _ (ok-injective here))

span_plan-IsSpan :
    (count n span : ℕ)
    → count ≤ 1024
    → n < 2 ^ 63
    → span_plan count n ≡ ok (some span)
    → (0 < count) × IsSpan span
unfolding span_plan
span_plan-IsSpan count n span few small e = elim (dec_lt 0 count) [
  | no none_there ↦ absurd (ground arith)
  | yes pos ↦ elim (dec_lt (transfer_block_size * count) n) [
    | no short ↦ absurd (ground arith)
    | yes long ↦ (
      pos,
      subst IsSpan
          (some-injective _ _ (ok-injective (sym (span_plan-span count n pos few long small) ∙ e)))
          (span-IsSpan count n pos few long small),
    )
  ]
]

module _ (os : Os) (contents : List (List ℕ)) (is_sync : Bool) (unset : ChunkState) where
  -- For input files that are not empty, of less than 2^63 bytes in all, that are, the last one
  -- aside, whole numbers of blocks long, an output that has been resized to the total length, at
  -- most 1024 processors, and a system that sets `errno` where a call fails: if the short form is
  -- not chosen and the loop over the chunkSpans chunker ends without a fault, then in a state in
  -- which chunkedCopy has returned, however the threads are interleaved: if the value is 0 the
  -- output is the concatenation of the input files, and each byte of it then stands in a mapping
  -- of its file and in one of the output that the system has made, taken the advice on and, with
  -- `sync`, written back; and the value is 0 if the calls of the system succeed.
  pub start_spans-concat :
      (count : ℕ) (out : List ℕ) (start s : Pool ChunkState (List ℕ)) (value : ℕ)
      (rest : List ChunkState)
      → os.errno ≢ 0
      → IsPositive (lengths contents)
      → IsAligned (lengths contents)
      → sum (lengths contents) < 2 ^ 63
      → Common.length out ≡ sum (lengths contents)
      → count ≤ 1024
      → start_spans contents count out ≡ ok (some start)
      → Reach unset (copy_chunk os contents block_rule is_sync) start s
      → s.main ≡ returned value rest
      → (value ≡ 0 → IsWhole os contents is_sync s.shared.out) × (IsReliable os → value ≡ 0)
  unfolding start_spans
  start_spans-concat count out start s value rest fails positive aligned small whole few started r
        e =
      let files = lengths contents in
      let (plan, planned, loop) =
        bind-ok (span_plan count (Common.length out)) _ (some start) started in
      let (span, queued, plan-span, run, here) =
        start_loop-parts contents count out plan start loop in
      let (pos, is_span) =
        span_plan-IsSpan count (Common.length out) span few (omega arith)
          (planned ∙ ap ok plan-span) in
      let tiles =
        ok-Tiles files span queued positive aligned is_span small
          (subst (λ n. chunks files span n ≡ ok queued) whole run) in
      new_pool-concat os fails contents block_rule Known (Known-IsKept files positive aligned)
        positive is_sync unset count queued out s value rest (Tiles-IsJob files span 0 queued tiles)
        (λ i h. Tiles-Covers files span 0 queued tiles i (omega arith) h) whole pos
        (subst (λ first. Reach unset (copy_chunk os contents block_rule is_sync) first s) (sym here)
          r)
        e

  -- For input files that are not empty, of less than 2^63 bytes in all, that are, the last one
  -- aside, whole numbers of blocks long, an output that has been resized to the total length, at
  -- most 1024 processors, and a system that sets `errno` where a call fails: if the short form is
  -- not chosen and the loop over the chunkSpans chunker ends without a fault, then from every
  -- state that the threads reach there is a way on to a state in which chunkedCopy has returned,
  -- whatever the calls of the system answer. If the value is 0 there, the output is the
  -- concatenation of the input files, and each byte of it then stands in a mapping of its file and
  -- in one of the output that the system has made, taken the advice on and, with `sync`, written
  -- back; and the value is 0 if the calls of the system succeed.
  pub start_spans-Returns :
      (count : ℕ) (out : List ℕ) (start s : Pool ChunkState (List ℕ))
      → os.errno ≢ 0
      → IsPositive (lengths contents)
      → IsAligned (lengths contents)
      → sum (lengths contents) < 2 ^ 63
      → Common.length out ≡ sum (lengths contents)
      → count ≤ 1024
      → start_spans contents count out ≡ ok (some start)
      → Reach unset (copy_chunk os contents block_rule is_sync) start s
      → Reports os contents is_sync unset (copy_chunk os contents block_rule is_sync) s
  unfolding start_spans
  start_spans-Returns count out start s fails positive aligned small whole few started r =
      let files = lengths contents in
      let (plan, planned, loop) =
        bind-ok (span_plan count (Common.length out)) _ (some start) started in
      let (span, queued, plan-span, run, here) =
        start_loop-parts contents count out plan start loop in
      let (pos, is_span) =
        span_plan-IsSpan count (Common.length out) span few (omega arith)
          (planned ∙ ap ok plan-span) in
      let tiles =
        ok-Tiles files span queued positive aligned is_span small
          (subst (λ n. chunks files span n ≡ ok queued) whole run) in
      let (t, value, rest, way, at) =
        new_pool-copy_chunk_Returns os fails contents block_rule Known
          (Known-IsKept files positive aligned) positive is_sync unset count queued out
          (Tiles-IsJob files span 0 queued tiles) whole pos s
          (subst (λ first. Reach unset (copy_chunk os contents block_rule is_sync) first s)
            (sym here) r) in
      let (same, zero) =
        start_spans-concat count out start t value rest fails positive aligned small whole few
          started (Reach-trans unset (copy_chunk os contents block_rule is_sync) r way) at in
      (t, value, rest, way, at, same, zero)

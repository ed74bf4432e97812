-- ===== src/Copy/Loop.antt =====
-- The loop of copyChunk, and the whole of it.
use mathlib.Core.Bool.{false≢true}
use pcat.Common.{
  ℕ, zero, suc, ◌+◌, ◌-◌, ◌≤◌, ◌<◌, ◌≡◌, ◌≢◌, ◌⊎◌, ◌&&◌, inl, inr, refl, sym, ap, ◌∙◌, subst, List,
  [], ◌∷◌, Bool, true, false, Option, none, some, Result, ok, sum, get_elem?, arith, Bool-cases,
  not, ltb, dec_lt, ℕ_discrete,
}
use pcat.Common
use pcat.MappingOffset.{length, offset, adjustment, adjusted_offset, adjusted_length}
use pcat.InputFiles.{IsPositive}
use pcat.Bytes.{concat, lengths}
use pcat.ChunkState.{ChunkState, at_end}
use pcat.ChunkState.Walk.{IsSync, advance-Stepped}
use pcat.ChunkState.End.{IsKept, at_end-length, not_at_end-length}
use pcat.Mmap.{
  Os, Mmap, output, Advice, map_file, valid, advise, sync, madv_sequential, madv_dontdump,
  prot_write, map_shared,
}
use pcat.Copy.Granted.{Loaded, Stored, Granted, advise-All}
use pcat.Mmap.Laws.{IsStorable, not_below, map_file-valid, advise-reliable, sync-reliable}
use pcat.Copy.{finish_copy, copy_loop, copy_chunk}
use pcat.Copy.Outcome.{Outcome, KeepsOutside, failed, nothing_left, then_rest, with_output}
use pcat.Copy.Block.{IsCopied, copy_input-cases}

module _ (os : Os) (fails : os.errno ≢ 0) (contents : List (List ℕ)) (rule : ℕ → ℕ → ℕ)
    (Known : ChunkState → Type 0) (kept : IsKept (lengths contents) rule Known)
    (positive : IsPositive (lengths contents)) (is_sync : Bool) where
  abbrev output_map_of : ChunkState → Mmap
  output_map_of chunk =
      map_file os output (adjusted_offset chunk.output_offset) (adjusted_length chunk.output_offset)
        prot_write map_shared

  -- What the loop grants, a block of its own apart: the calls for the input, and the last one.
  abbrev Loads : ℕ → Type 0
  Loads = Loaded os contents

  abbrev Syncs : Mmap → ℕ → Type 0
  Syncs m code = code ≡ 0 → is_sync ≡ true → os.msync_ok m.target m.position m.len_ ≡ true

  output_map-place :
      (chunk : ChunkState)
      → (output_map_of chunk).position + adjustment chunk.output_offset ≡ offset chunk.output_offset
  unfolding map_file offset adjustment adjusted_offset
  output_map-place chunk = refl

  output_map-size :
      (chunk : ChunkState)
      → adjustment chunk.output_offset + length chunk.output_offset ≤ (output_map_of chunk).len_
  unfolding map_file length adjustment adjusted_length
  output_map-size chunk = omega arith

  output_map-IsStorable :
      (chunk : ChunkState) → valid (output_map_of chunk) ≡ true → IsStorable (output_map_of chunk)
  unfolding valid map_file
  output_map-IsStorable chunk is_valid = (is_valid, refl, refl)

  -- The bytes of the block stand in the mapping of the output.
  output_map-Stored :
      (chunk : ChunkState)
      → valid (output_map_of chunk) ≡ true
      → advise os (output_map_of chunk) (madv_sequential ∷ madv_dontdump ∷ []) ≡ true
      → (i : ℕ) → offset chunk.output_offset ≤ i
      → i < offset chunk.output_offset + length chunk.output_offset
      → (is_sync ≡ true
          → os.msync_ok
              (output_map_of chunk).target
              (output_map_of chunk).position
              (output_map_of chunk).len_
            ≡ true)
      → Stored os is_sync i
  unfolding valid map_file offset length adjustment adjusted_offset adjusted_length
  output_map-Stored chunk is_valid advised i lo hi synced = record {
    low = adjusted_offset chunk.output_offset;
    size = adjusted_length chunk.output_offset;
    inside = (omega arith, omega arith);
    mapped = is_valid;
    advised = advise-All os (output_map_of chunk) _ advised;
    synced = synced;
  }

  finish_copy-Outcome :
      (m : Mmap) (n : ℕ) (out : List ℕ) (p r : ℕ)
      → r ≡ 0
      → (code : ℕ) × (finish_copy os contents rule is_sync m n out ≡ ok (out, code))
        × Outcome os Loads (concat contents) out out p r code
        × Syncs m code
  unfolding finish_copy sync
  finish_copy-Outcome m n out p r e = elim (Bool-cases (is_sync && not (sync os m))) [
    | inl unsynced ↦ (
      os.errno,
      rw (unsynced, finish_copy),
      failed os fails Loads (concat contents) out p r (λ s. ground (arith, sync-reliable s m)),
      (λ z. absurd (fails z)),
    )
    | inr done ↦ (
      0,
      rw (done, finish_copy),
      nothing_left os fails Loads (concat contents) out p r e,
      λ z asked. ground (arith, done, asked),
    )
  ]

  -- From a block in step with the input, the loop ends, and each access of it is in bounds.
  copy_loop-Outcome :
      (m : Mmap) (n fuel : ℕ) (chunk : ChunkState) (off : ℕ) (out : List ℕ)
      → length chunk.output_offset < fuel
      → IsStorable m
      → IsSync (lengths contents) chunk
      → Known chunk
      → m.position + off ≡ offset chunk.output_offset
      → off + length chunk.output_offset ≤ m.len_
      → off + length chunk.output_offset ≤ n
      → Common.length out ≡ sum (lengths contents)
      → (out' : List ℕ) × (code : ℕ) × (copy_loop os contents rule is_sync m n fuel chunk off out
          ≡ ok (out', code))
        × Outcome os Loads
            (concat contents)
            out
            out'
            (offset chunk.output_offset)
            (length chunk.output_offset)
            code
        × Syncs m code
  unfolding copy_loop
  copy_loop-Outcome m n zero chunk off out h storable v k place fits le whole = elim h [ ]
  copy_loop-Outcome m n (suc fuel) chunk off out h storable v k place fits le whole =
      elim (Bool-cases (at_end chunk)) [
        | inl done ↦
            let (code, e, o, synced) =
              finish_copy-Outcome m n out (offset chunk.output_offset) (length chunk.output_offset)
                (at_end-length chunk done) in
            (out, code, rw (done, copy_loop, e), o, synced)
        | inr more ↦
            let left = not_at_end-length chunk more in
            elim (copy_input-cases os contents rule chunk m out off storable v left place fits
              whole) [
                | inl (e, unreliable) ↦ (
                  out,
                  os.errno,
                  rw (more, copy_loop, e),
                  failed os fails Loads (concat contents) out _ _ unreliable,
                  (λ z. absurd (fails z)),
                )
                | inr (out1, e, a, loads) ↦
                    let (s1, one) =
                      advance-Stepped (lengths contents) rule kept.law chunk v left positive
                        (kept.room chunk v left k) in
                    let in_bounds : ltb n (off + length chunk.input_offset) ≡ false =
                      not_below n (off + length chunk.input_offset) (omega (arith, v.fits)) in
                    let (out2, code, run, b, synced) =
                      copy_loop-Outcome m n fuel s1 (off + length chunk.input_offset) out1
                        (omega (arith, one.length_out, v.live)) storable one.sync
                        (kept.keep chunk s1 v left k one) (omega (arith, one.place_out))
                        (omega (arith, one.length_out)) (omega (arith, one.length_out))
                        (a.same_length ∙ whole) in
                    (
                      out2,
                      code,
                      rw (more, copy_loop, e, in_bounds, one.step) run,
                      then_rest os fails Loads (concat contents) out out1 out2 _ _ _ _ _ code a
                          one.place_out one.length_out loads b,
                      synced,
                    )
              ]
      ]

  -- For input files that are not empty, on a system that sets `errno` where a call fails:
  -- copyChunk on a block in step with the input, whose output begins at a page, with what the
  -- chunker knows of its blocks, and an output of the total length, ends without a fault,
  -- whatever the calls of the system answer. It changes no byte outside its block, and it
  -- returns an error code, or 0 with the block filled by the bytes of the concatenation.
  pub copy_chunk-Outcome :
      (chunk : ChunkState) (out : List ℕ)
      → IsSync (lengths contents) chunk
      → Known chunk
      → adjustment chunk.output_offset ≡ 0
      → Common.length out ≡ sum (lengths contents)
      → (out' : List ℕ) × (code : ℕ) × (copy_chunk os contents rule is_sync chunk out
          ≡ ok (out', code))
        × Outcome os
            (Granted os contents is_sync)
            (concat contents)
            out
            out'
            (offset chunk.output_offset)
            (length chunk.output_offset)
            code
  unfolding copy_chunk
  copy_chunk-Outcome chunk out v k aligned whole = elim (Bool-cases (valid output_map)) [
    | inr invalid ↦ (
      out,
      os.errno,
      rw (invalid, copy_chunk),
      failed os fails _ _ out _ _ (λ r. false≢true (sym invalid ∙ map_file-valid r _ _ _ _ _)),
    )
    | inl is_valid ↦ elim (Bool-cases (advise os output_map flags)) [
      | inr refused ↦ (
        out,
        os.errno,
        rw (is_valid, copy_chunk, refused),
        failed os fails _ _ out _ _ (λ r. false≢true (sym refused ∙ advise-reliable r _ _)),
      )
      | inl advised ↦
          let (out', code, run, o, synced) =
            copy_loop-Outcome output_map (length chunk.output_offset)
              (suc (length chunk.output_offset)) chunk (adjustment chunk.output_offset) out
              (omega arith) (output_map-IsStorable chunk is_valid) v k (output_map-place chunk)
              (output_map-size chunk) (omega arith) whole in
          (
            out',
            code,
            rw (is_valid, copy_chunk, advised) run,
            with_output os _ _ (concat contents) out out' _ _ code
                (λ z i lo hi load.
                  (load, output_map-Stored chunk is_valid advised i lo hi (synced z)))
                o,
          )
    ]
  ]
    where
      output_map : Mmap
      output_map = output_map_of chunk

      flags : List Advice
      flags = madv_sequential ∷ madv_dontdump ∷ []

  -- For input files that are not empty, on a system that sets `errno` where a call fails:
  -- copyChunk on a block in step with the input, whose output begins at a page, with what the
  -- chunker knows of its blocks, and an output of the total length, ends without a fault, whatever
  -- the calls of the system answer. It changes no byte outside its block. It returns `errno`, or 0
  -- with the block filled by the bytes of the concatenation, and then each byte of the block
  -- stands in a mapping of its input file and in one of the output that the system has made, taken
  -- the advice on and, with `sync`, written back.
  pub copy_chunk-KeepsOutside :
      (chunk : ChunkState) (out : List ℕ)
      → IsSync (lengths contents) chunk
      → Known chunk
      → adjustment chunk.output_offset ≡ 0
      → Common.length out ≡ sum (lengths contents)
      → (out' : List ℕ) × (code : ℕ) × (copy_chunk os contents rule is_sync chunk out
          ≡ ok (out', code))
        × KeepsOutside out out' (offset chunk.output_offset) (length chunk.output_offset)
        × ((code ≡ os.errno)
            ⊎ ((code ≡ 0)
                × IsCopied
                    (concat contents)
                    out
                    out'
                    (offset chunk.output_offset)
                    (length chunk.output_offset)
                × ((i : ℕ)
                    → offset chunk.output_offset ≤ i
                    → i < offset chunk.output_offset + length chunk.output_offset
                    → Granted os contents is_sync i)))
  copy_chunk-KeepsOutside chunk out v k aligned whole =
      let (out', code, run, o) = copy_chunk-Outcome chunk out v k aligned whole in
      (
        out',
        code,
        run,
        record { same_length = o.same_length; outside = o.outside },
        elim o.known_code [
          | inl z ↦ inr (
            z,
            record { same_length = o.same_length; inside = o.copied z; outside = o.outside },
            o.granted z,
          )
          | inr failed ↦ inl failed
        ],
      )

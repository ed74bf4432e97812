-- ===== src/Mmap/Laws.antt =====
-- Reads and writes through a mapping, inside its bounds.
use pcat.Common.{
  [], ◌∷◌, refl, ℕ, ◌+◌, ◌-◌, ◌≤◌, ◌<◌, ◌≡◌, List, some, ok, not, if◌then◌else◌, ltb, ◌&&◌, take,
  drop, arith, sym, ap, ◌∙◌, true, false, Bool,
}
use pcat.Common
use pcat.Bytes.{splice}
use pcat.Mmap.{
  Target, Prot, Sharing, map_shared, Advice, advise, sync, Mmap, Os, index, read_block, copy_to,
  valid, map_file, can_read, can_write, store,
}

below : (i n : ℕ) → i < n → ltb i n ≡ true
below i n h = ground arith

pub not_below : (n k : ℕ) → k ≤ n → ltb n k ≡ false
not_below n k h = ground arith

pub index-inside :
    (m : Mmap) (i : ℕ)
    → i < m.len_
    → index m i ≡ some (record { mapped = m.addr_; place = m.position + i })
unfolding index
index-inside m i h = rw (below i m.len_ h) refl

pub read_block-inside :
    (m : Mmap) (file : List ℕ) (at n : ℕ)
    → can_read m (record { mapped = m.addr_; place = at }) ≡ true
    → at + n ≤ m.position + m.len_
    → at + n ≤ Common.length file
    → read_block m file (record { mapped = m.addr_; place = at }) n ≡ ok (take n (drop at file))
unfolding read_block
read_block-inside m file at n may h k = rw (may, not_below _ _ h, not_below _ _ k) refl

-- A mapping that was made, and that shares with the file what is written.
abbrev pub IsStorable : Mmap → Type 0
IsStorable m = (m.addr_ ≡ true) × (m.prot.writable ≡ true) × (m.sharing ≡ map_shared)

pub copy_to-inside :
    (m : Mmap) (idx n : ℕ) (bytes file : List ℕ)
    → idx < m.len_
    → idx + n ≤ m.len_
    → m.position + idx + n ≤ Common.length file
    → IsStorable m
    → copy_to m idx bytes n file ≡ ok (some (splice (m.position + idx) (take n bytes) file))
unfolding copy_to can_write store
copy_to-inside m idx n bytes file h k l (addr, writes, shares) =
    rw
      (
        index-inside m idx h,
        copy_to,
        addr,
        writes,
        shares,
        not_below (m.len_ - idx) n (omega arith),
        not_below _ _ l,
      )
      refl

-- A system on which every call succeeds.
pub record IsReliable (os : Os) : Type 0 where
  pub maps : (t : Target) (p : Prot) (s : Sharing) (o l : ℕ) → os.mmap_ok t p s o l ≡ true
  pub advises : (t : Target) (o l : ℕ) (a : Advice) → os.madvise_ok t o l a ≡ true
  pub syncs : (t : Target) (o l : ℕ) → os.msync_ok t o l ≡ true

module _ {os : Os} (r : IsReliable os) where
  pub map_file-valid :
      (t : Target) (o l : ℕ) (p : Prot) (s : Sharing) → valid (map_file os t o l p s) ≡ true
  unfolding valid map_file
  map_file-valid t o l p s = r.maps t p s o l

  pub advise-reliable : (m : Mmap) (flags : List Advice) → advise os m flags ≡ true
  unfolding advise
  advise-reliable m [] = refl
  advise-reliable m (flag ∷ flags) =
      rw (r.advises m.target m.position m.len_ flag) (advise-reliable m flags)

  pub sync-reliable : (m : Mmap) → sync os m ≡ true
  unfolding sync
  sync-reliable m = r.syncs m.target m.position m.len_

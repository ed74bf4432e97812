-- ===== src/Mmap.antt =====
-- mmap_t of src/mmap.hxx, as it is built where `_WINDOWS` is not defined. A mapping is a window into a file: an
-- address inside it is the position in the file that it stands for. The system calls are parameters.
pub mod Laws
pub mod Roundtrip
mod Tests
use pcat.Common.{
  ℕ, ◌+◌, ◌-◌, ◌==◌, ltb, not, if◌then◌else◌, ◌&&◌, List, [], ◌∷◌, Bool, true, false, Option, none,
  some, Result, ok, err, bad_access, take, drop,
}
use pcat.Common
use pcat.Bytes.{splice}

-- the file that a mapping shows: the output, or an input by its index
pub data Target : Type 0 where
  output : Target
  input : ℕ → Target

pub data Advice : Type 0 where
  madv_sequential madv_willneed madv_dontdump : Advice

-- the protection of the pages, of which the flags PROT_READ and PROT_WRITE are used
pub record Prot : Type 0 where
  pub readable : Bool
  pub writable : Bool

abbrev pub prot_read : Prot
prot_read = record { readable = true; writable = false }

abbrev pub prot_write : Prot
prot_write = record { readable = false; writable = true }

-- the flags of `::mmap`
pub data Sharing : Type 0 where
  map_shared map_private : Sharing

-- What `::mmap`, `madvise` and `msync` answer, for a file, an offset and a length, and the value
-- that they leave in `errno` when they fail.
pub record Os : Type 0 where
  pub mmap_ok : Target → Prot → Sharing → ℕ → ℕ → Bool
  pub madvise_ok : Target → ℕ → ℕ → Advice → Bool
  pub msync_ok : Target → ℕ → ℕ → Bool
  pub errno : ℕ

pub record Mmap : Type 0 where
  pub target : Target
  pub position : ℕ
  pub len_ : ℕ
  pub prot : Prot
  pub sharing : Sharing
  pub addr_ : Bool

-- An address in a mapping: whether `_addr` is not null, and the position in the file that it stands for.
pub record Address : Type 0 where
  pub mapped : Bool
  pub place : ℕ

-- the constructor from a file, an offset and a length
unfoldable pub map_file : Os → Target → ℕ → ℕ → Prot → Sharing → Mmap
map_file os target offset length prot sharing = record {
  target = target;
  position = offset;
  len_ = length;
  prot = prot;
  sharing = sharing;
  addr_ = os.mmap_ok target prot sharing offset length;
}

-- the constructor from a file and a length
unfoldable pub map_whole : Os → Target → ℕ → Prot → Sharing → Mmap
map_whole os target len prot sharing = record {
  target = target;
  position = 0;
  len_ = len;
  prot = prot;
  sharing = sharing;
  addr_ = os.mmap_ok target prot sharing 0 len;
}

unfoldable pub valid : Mmap → Bool
valid m = m.addr_

-- `index`, also `address`; `none` is the exception `std::out_of_range`.
unfoldable pub index : Mmap → ℕ → Option Address
index m idx =
    if ltb idx m.len_ then some (record { mapped = m.addr_; place = m.position + idx }) else none

-- `advise<adviceFlag, adviceFlags...>()`
unfoldable pub advise : Os → Mmap → List Advice → Bool
advise os m [] = true
advise os m (flag ∷ flags) =
    if os.madvise_ok m.target m.position m.len_ flag then advise os m flags else false

-- `sync(length, flags)`
abbrev pub sync_length : Os → Mmap → ℕ → Bool
sync_length os m length = os.msync_ok m.target m.position length

unfoldable pub sync : Os → Mmap → Bool
sync os m = sync_length os m m.len_

-- The pages at the address may be read, or written: there are some, and their protection lets it.
unfoldable pub can_read : Mmap → Address → Bool
can_read m at = at.mapped && m.prot.readable

unfoldable pub can_write : Mmap → Address → Bool
can_write m at = at.mapped && m.prot.writable

-- What `memcpy` reads behind `address(idx)` of a mapping of `file`: the bytes have to be there.
unfoldable pub read_block : Mmap → List ℕ → Address → ℕ → Result (List ℕ)
read_block m file at length =
    if not (can_read m at)
    then err bad_access
    else (if ltb (m.position + m.len_) (at.place + length)
        then err bad_access
        else (if ltb (Common.length file) (at.place + length)
            then err bad_access
            else ok (take length (drop at.place file))))

-- What a write of `value` at that position leaves of the mapped file: a private mapping keeps it to itself.
unfoldable pub store : Sharing → ℕ → List ℕ → List ℕ → List ℕ
store map_shared place value file = splice place value file
store map_private place value file = file

-- `copyTo` of a block of `length` bytes, over the contents of the mapped file. The `none` of the
-- result is the exception; `assert(length <= _len - idx)` names the writes past the mapping. A null
-- address, a page that may not be written and a place past the end of the file fault.
unfoldable pub copy_to : Mmap → ℕ → List ℕ → ℕ → List ℕ → Result (Option (List ℕ))
copy_to m idx value length file = elim (index m idx) [
  | none ↦ ok none
  | some dest ↦
      (if ltb (m.len_ - idx) length
        then err bad_access
        else (if not (can_write m dest)
            then err bad_access
            else (if ltb (Common.length file) (dest.place + length)
                then err bad_access
                else ok (some (store m.sharing dest.place (take length value) file)))))
]

-- `copyFrom` of a block of `length` bytes: what it leaves in `value`, through a mapping that shows the
-- file as it is. The `none` of the result is the exception; `assert(length <= _len - idx)` names the
-- reads past the mapping. The faults are those of a read.
unfoldable pub copy_from : Mmap → List ℕ → ℕ → ℕ → Result (Option (List ℕ))
copy_from m file idx length = elim (index m idx) [
  | none ↦ ok none
  | some src ↦
      (if ltb (m.len_ - idx) length
        then err bad_access
        else (if not (can_read m src)
            then err bad_access
            else (if ltb (Common.length file) (src.place + length)
                then err bad_access
                else ok (some (take length (drop src.place file))))))
]

-- `swap`: the address is the file, the place in it, what may be done there, and whether there is one.
unfoldable pub swap : Mmap × Mmap → Mmap × Mmap
swap (a, b) = (
  record {
    target = b.target;
    position = b.position;
    len_ = b.len_;
    prot = b.prot;
    sharing = b.sharing;
    addr_ = b.addr_;
  },
  record {
    target = a.target;
    position = a.position;
    len_ = a.len_;
    prot = a.prot;
    sharing = a.sharing;
    addr_ = a.addr_;
  },
)

-- ===== src/Affinity/Windows.antt =====
-- src/windows/affinity.hxx: the processors that the worker threads are pinned to, as groups and their
-- members. What GetLogicalProcessorInformationEx answers is a parameter.
pub mod Room
pub mod Slots
mod Tests
use pcat.Common.{
  ℕ, zero, suc, ◌+◌, ◌-◌, ◌*◌, ◌/◌, ◌%◌, ◌^◌, ◌==◌, ◌&&◌, not, ltb, if◌then◌else◌, List, [], ◌∷◌,
  ◌++◌, Bool, true, false, Option, none, some, get_elem?, ◌⊎◌, inl, inr,
}
use pcat.Common
use pcat.Affinity.{is_pinned, has_room}

-- a processor: its group, and its place in the group's mask
abbrev pub Slot : Type 0
Slot = ℕ × ℕ

-- SYSTEM_LOGICAL_PROCESSOR_INFORMATION_EX: whether `Relationship` is RelationGroup, and
-- `ActiveProcessorMask` of each active group
pub record ProcessorInfo : Type 0 where
  pub is_group : Bool
  pub masks : List ℕ

-- `processors` and `count` of the constructor
pub record Choosing : Type 0 where
  pub processors : List Slot
  pub count : ℕ

module _ (threads : Option ℕ) (pinning : Option (List ℕ)) where
  -- the body of `if (mask & 1)`
  unfoldable pub found : ℕ → ℕ → Choosing → Choosing
  found group i c = record {
    processors =
        if has_room threads c.processors && is_pinned pinning c.count
        then c.processors ++ ((group, i) ∷ [])
        else c.processors;
    count = c.count + 1;
  }

  -- The loop over the bits of a mask from `i` on, of which `bits` are left, with its early end.
  unfoldable pub scan : ℕ → ℕ → ℕ → ℕ → Choosing → Choosing
  scan group zero i mask c = c
  scan group (suc bits) i mask c =
      let c' = if mask % 2 == 1 then found group i c else c in
      let rest = scan group bits (i + 1) (mask / 2) c' in if mask / 2 == 0 then c' else rest

  -- the loop over the groups from `group` on; KAFFINITY has 64 bits
  unfoldable pub scan_groups : ℕ → List ℕ → Choosing → Choosing
  scan_groups group [] c = c
  scan_groups group (mask ∷ masks) c = scan_groups (group + 1) masks (scan group 64 0 mask c)

  unfoldable pub scan_infos : List ProcessorInfo → Choosing → Choosing
  scan_infos [] c = c
  scan_infos (info ∷ infos) c =
      scan_infos infos (if not info.is_group then c else scan_groups 0 info.masks c)

  -- the constructor of affinity_t
  unfoldable pub make_affinity : List ProcessorInfo → List Slot
  make_affinity infos = (scan_infos infos (record { processors = []; count = 0 })).processors

-- the structs that `length` bytes take, of `struct_length` bytes each
unfoldable pub struct_count : ℕ → ℕ → ℕ
struct_count struct_length length =
    let count = length / struct_length in
    count + (if length - count * struct_length == 0 then 0 else 1)

-- what GetLogicalProcessorInformationEx answers: it succeeds, it asks for a length, or it fails
pub data Answer : Type 0 where
  succeeds : Answer
  insufficient_buffer : ℕ → Answer
  fails : ℕ → Answer

-- retrieveProcessorInfo, for what the system answers in turn: the structs that there is room for when a
-- call succeeds, or the error; `none` where it is still asking.
unfoldable pub retrieve_processor_info : ℕ → ℕ → List Answer → Option (ℕ ⊎ ℕ)
retrieve_processor_info struct_length room [] = none
retrieve_processor_info struct_length room (succeeds ∷ answers) = some (inl room)
retrieve_processor_info struct_length room (insufficient_buffer length ∷ answers) =
    retrieve_processor_info struct_length (struct_count struct_length length) answers
retrieve_processor_info struct_length room (fails error ∷ answers) = some (inr error)

-- `pinTo`: the group and the mask that the thread is bound to; `none` is the exception. The mask is
-- 64 bits wide.
unfoldable pub pin_to : List Slot → ℕ → Option (ℕ × ℕ)
pin_to processors index = elim (get_elem? processors index) [
  | none ↦ none
  | some (group, processor) ↦ some (group, 2 ^ processor % 2 ^ 64)
]

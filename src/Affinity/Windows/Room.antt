-- ===== src/Affinity/Windows/Room.antt =====
-- The memory that retrieveProcessorInfo has for the answer.
use pcat.Common.{
  ℕ, ◌+◌, ◌-◌, ◌*◌, ◌/◌, ◌==◌, ◌≤◌, ◌<◌, ◌≡◌, refl, List, [], ◌∷◌, ◌++◌, map, Bool-cases, inl, inr,
  some, arith,
}
use pcat.Affinity.Windows.{succeeds, insufficient_buffer, struct_count, retrieve_processor_info}

struct_count-fits :
    (struct_length length : ℕ)
    → 0 < struct_length
    → (length ≤ struct_count struct_length length * struct_length)
      × (struct_count struct_length length * struct_length < length + struct_length)
unfolding struct_count
struct_count-fits struct_length length pos =
    elim (Bool-cases (length - length / struct_length * struct_length == 0)) [
      | inl e ↦ rw e (grind arith, grind arith)
      | inr e ↦ rw e (grind arith, grind arith)
    ]

-- However often the system asks for more memory first: when it succeeds behind the last length that it
-- asked for, there is room for that length, and for less than one struct more.
pub retrieve_processor_info-struct_count :
    (struct_length room length : ℕ) (asked : List ℕ)
    → 0 < struct_length
    → (n : ℕ) × (retrieve_processor_info struct_length room
          (map insufficient_buffer asked ++ (insufficient_buffer length ∷ succeeds ∷ []))
        ≡ some (inl n))
      × (length ≤ n * struct_length)
      × (n * struct_length < length + struct_length)
unfolding retrieve_processor_info
retrieve_processor_info-struct_count struct_length room length [] pos =
    let (low, high) = struct_count-fits struct_length length pos in
    (struct_count struct_length length, refl, low, high)
retrieve_processor_info-struct_count struct_length room length (first ∷ asked) pos =
    retrieve_processor_info-struct_count struct_length (struct_count struct_length first) length
      asked pos

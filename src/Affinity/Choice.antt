-- ===== src/Affinity/Choice.antt =====
-- Which processors are chosen.
use mathlib.Core.Bool.{false≢true}
use pcat.Common.{
  ℕ, zero, suc, ◌+◌, ◌-◌, ◌<◌, ◌≡◌, ◌∙◌, sym, ap, refl, ◌&&◌, if◌then◌else◌, List, [], ◌∷◌, ◌++◌,
  append-nil, append_assoc, Bool, true, false, Option, none, some, take, arith, Bool-cases, inl,
  inr, length-append,
}
use pcat.Common
use pcat.Affinity.{is_empty_set, is_pinned, has_room, choose, make_affinity}

-- the processors of a set, in their order
unfoldable pub members : ℕ → List Bool → List ℕ
members i [] = []
members i (true ∷ bits) = i ∷ members (i + 1) bits
members i (false ∷ bits) = members (i + 1) bits

-- those that are pinned
unfoldable pub pinned : Option (List ℕ) → List ℕ → List ℕ
pinned pinning [] = []
pinned pinning (i ∷ rest) =
    if is_pinned pinning i then i ∷ pinned pinning rest else pinned pinning rest

-- as many of them as there are threads
unfoldable pub at_most : {A : Type 0} → Option ℕ → ℕ → List A → List A
at_most none used rest = rest
at_most (some threads) used rest = take (threads - used) rest

members-empty : (i : ℕ) (bits : List Bool) → is_empty_set bits ≡ true → members i bits ≡ []
unfolding is_empty_set members
members-empty i [] h = refl
members-empty i (true ∷ bits) h = absurd (false≢true h)
members-empty i (false ∷ bits) h = members-empty (i + 1) bits h

take_none : {A : Type 0} (n : ℕ) → take {A = A} n [] ≡ []
take_none zero = refl
take_none (suc n) = refl

take_one :
    {A : Type 0} (n m : ℕ) (i : A) (rest : List A) → n ≡ suc m → take n (i ∷ rest) ≡ i ∷ take m rest
take_one n m i rest e = rw e refl

take_full : {A : Type 0} (n : ℕ) (rest : List A) → n ≡ 0 → take n rest ≡ []
take_full n rest e = rw e refl

pub at_most-nil :
    {A : Type 0} (threads : Option ℕ) (used : ℕ) → at_most {A = A} threads used [] ≡ []
unfolding at_most
at_most-nil none used = refl
at_most-nil (some threads) used = take_none (threads - used)

pub at_most-room :
    {A : Type 0} (threads : Option ℕ) (processors : List A) (i : A) (rest : List A)
    → has_room threads processors ≡ true
    → at_most threads (Common.length processors) (i ∷ rest)
      ≡ i ∷ at_most threads (Common.length (processors ++ (i ∷ []))) rest
unfolding at_most has_room
at_most-room none processors i rest h = refl
at_most-room (some threads) processors i rest h =
    take_one (threads - Common.length processors) (threads - Common.length (processors ++ (i ∷ [])))
      i rest (ground (arith, length-append processors (i ∷ [])))

pub at_most-full :
    {A : Type 0} (threads : Option ℕ) (processors rest : List A)
    → has_room threads processors ≡ false
    → at_most threads (Common.length processors) rest ≡ []
unfolding at_most has_room
at_most-full none processors rest h = absurd (false≢true (sym h))
at_most-full (some threads) processors rest h =
    take_full (threads - Common.length processors) rest (ground arith)

module _ (threads : Option ℕ) (pinning : Option (List ℕ)) where
  choose-members :
      (i : ℕ) (bits : List Bool) (processors : List ℕ)
      → choose threads pinning i bits processors
        ≡ processors ++ at_most threads (Common.length processors) (pinned pinning (members i bits))
  unfolding choose members pinned
  choose-members i [] processors =
      sym (append-nil processors)
      ∙ ap (◌++◌ processors) (sym (at_most-nil threads (Common.length processors)))
  choose-members i (false ∷ bits) processors = elim (Bool-cases (is_empty_set bits)) [
    | inl e ↦
        rw (e, members-empty (i + 1) bits e, at_most-nil threads (Common.length processors))
          (sym (append-nil processors))
    | inr e ↦ rw e (choose-members (i + 1) bits processors)
  ]
  choose-members i (true ∷ bits) processors = elim (Bool-cases (has_room threads processors)) [
    | inr full ↦ rw full (
        choose-members (i + 1) bits processors
        ∙ ap (◌++◌ processors) (
            at_most-full threads processors (pinned pinning (members (i + 1) bits)) full
            ∙ sym
                (at_most-full threads processors (pinned pinning (members i (true ∷ bits))) full)))
    | inl room ↦ elim (Bool-cases (is_pinned pinning i)) [
      | inr other ↦ rw (room, other) (choose-members (i + 1) bits processors)
      | inl wanted ↦
          rw (room, wanted)
            (choose-members (i + 1) bits (processors ++ (i ∷ []))
              ∙ (append_assoc processors (i ∷ []) (
                    at_most threads (Common.length (processors ++ (i ∷ [])))
                      (pinned pinning (members (i + 1) bits)))
                  ∙ ap (◌++◌ processors) (
                      sym (
                        at_most-room threads processors i (pinned pinning (members (i + 1) bits))
                          room))))
    ]
  ]

  -- The processors are those of the set that the system answers, in their order, that are pinned if
  -- cores are named, and as many of them as threads are asked for.
  pub make_affinity-members :
      (bits : List Bool)
      → make_affinity threads pinning bits ≡ at_most threads 0 (pinned pinning (members 0 bits))
  unfolding make_affinity
  make_affinity-members bits = choose-members 0 bits []

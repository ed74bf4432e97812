-- ===== src/Affinity/Windows/Slots.antt =====
-- Which processors are chosen on Windows.
use pcat.Common.{
  ℕ, zero, suc, ◌+◌, ◌-◌, ◌*◌, ◌/◌, ◌%◌, ◌^◌, ◌<◌, ◌≡◌, ◌==◌, ◌&&◌, not, ltb, refl, sym, ap, ◌∙◌,
  if◌then◌else◌, List, [], ◌∷◌, ◌++◌, append-nil, append_assoc, Bool, true, false, Bool-cases, inl,
  inr, Option, none, some, arith, length-append,
}
use pcat.Common
use pcat.Affinity.{is_pinned, has_room}
use pcat.Affinity.Choice.{at_most, at_most-nil, at_most-room, at_most-full}
use pcat.Affinity.Windows.{
  Slot, ProcessorInfo, Choosing, found, scan, scan_groups, scan_infos, make_affinity,
}

-- the processors of a mask, of which the first `bits` bits count
unfoldable pub slots_of : ℕ → ℕ → ℕ → ℕ → List Slot
slots_of group zero i mask = []
slots_of group (suc bits) i mask =
    let others = slots_of group bits (i + 1) (mask / 2) in
    if mask % 2 == 1 then (group, i) ∷ others else others

unfoldable pub group_slots : ℕ → List ℕ → List Slot
group_slots group [] = []
group_slots group (mask ∷ masks) = slots_of group 64 0 mask ++ group_slots (group + 1) masks

-- the processors of the machine, in the order of what the system answers
unfoldable pub slots : List ProcessorInfo → List Slot
slots [] = []
slots (info ∷ infos) = (if not info.is_group then [] else group_slots 0 info.masks) ++ slots infos

-- those whose number is pinned, the first of which has the number `n`
unfoldable pub wanted : Option (List ℕ) → ℕ → List Slot → List Slot
wanted pinning n [] = []
wanted pinning n (slot ∷ rest) =
    let others = wanted pinning (n + 1) rest in
    if is_pinned pinning n then slot ∷ others else others

module _ (threads : Option ℕ) (pinning : Option (List ℕ)) where
  -- the processors one after the other
  unfoldable pub feed : List Slot → Choosing → Choosing
  feed [] c = c
  feed ((group, i) ∷ slots) c = feed slots (found threads pinning group i c)

  feed-append : (xs ys : List Slot) (c : Choosing) → feed (xs ++ ys) c ≡ feed ys (feed xs c)
  unfolding feed
  feed-append [] ys c = refl
  feed-append ((group, i) ∷ xs) ys c = feed-append xs ys (found threads pinning group i c)

  slots_of-zero : (group bits i : ℕ) → slots_of group bits i 0 ≡ []
  unfolding slots_of
  slots_of-zero group zero i = refl
  slots_of-zero group (suc bits) i = slots_of-zero group bits (i + 1)

  scan-feed :
      (group bits i mask : ℕ) (c : Choosing)
      → scan threads pinning group bits i mask c ≡ feed (slots_of group bits i mask) c
  unfolding scan slots_of feed
  scan-feed group zero i mask c = refl
  scan-feed group (suc bits) i mask c = elim (Bool-cases (mask % 2 == 1)) [
    | inl odd ↦ elim (Bool-cases (mask / 2 == 0)) [
      | inl last ↦
          let none_left : mask / 2 ≡ 0 = ground arith in
          rw (odd, last, none_left, slots_of-zero group bits (i + 1)) refl
      | inr more ↦
          rw (odd, more) (scan-feed group bits (i + 1) (mask / 2) (found threads pinning group i c))
    ]
    | inr even ↦ elim (Bool-cases (mask / 2 == 0)) [
      | inl last ↦
          let none_left : mask / 2 ≡ 0 = ground arith in
          rw (even, last, none_left, slots_of-zero group bits (i + 1)) refl
      | inr more ↦ rw (even, more) (scan-feed group bits (i + 1) (mask / 2) c)
    ]
  ]

  scan_groups-feed :
      (group : ℕ) (masks : List ℕ) (c : Choosing)
      → scan_groups threads pinning group masks c ≡ feed (group_slots group masks) c
  unfolding scan_groups group_slots feed
  scan_groups-feed group [] c = refl
  scan_groups-feed group (mask ∷ masks) c =
      scan_groups-feed (group + 1) masks (scan threads pinning group 64 0 mask c)
      ∙ (ap (feed (group_slots (group + 1) masks)) (scan-feed group 64 0 mask c)
          ∙ sym (feed-append (slots_of group 64 0 mask) (group_slots (group + 1) masks) c))

  scan_infos-feed :
      (infos : List ProcessorInfo) (c : Choosing)
      → scan_infos threads pinning infos c ≡ feed (slots infos) c
  unfolding scan_infos slots feed
  scan_infos-feed [] c = refl
  scan_infos-feed (info ∷ infos) c = elim (Bool-cases info.is_group) [
    | inl group ↦
        ap
          (λ t.
            scan_infos threads pinning infos
              (if not t then c else scan_groups threads pinning 0 info.masks c))
          group
        ∙ (scan_infos-feed infos (scan_groups threads pinning 0 info.masks c)
            ∙ (ap (feed (slots infos)) (scan_groups-feed 0 info.masks c)
                ∙ (sym (feed-append (group_slots 0 info.masks) (slots infos) c)
                    ∙ ap
                        (λ t.
                          feed ((if not t then [] else group_slots 0 info.masks) ++ slots infos) c)
                        (sym group))))
    | inr other ↦
        ap
          (λ t.
            scan_infos threads pinning infos
              (if not t then c else scan_groups threads pinning 0 info.masks c))
          other
        ∙ (scan_infos-feed infos c
            ∙ ap (λ t. feed ((if not t then [] else group_slots 0 info.masks) ++ slots infos) c)
                (sym other))
  ]

  feed-wanted :
      (xs : List Slot) (processors : List Slot) (n : ℕ)
      → (feed xs (record { processors = processors; count = n })).processors
        ≡ processors ++ at_most threads (Common.length processors) (wanted pinning n xs)
  unfolding feed wanted found
  feed-wanted [] processors n =
      sym (append-nil processors)
      ∙ ap (◌++◌ processors) (sym (at_most-nil threads (Common.length processors)))
  feed-wanted ((group, i) ∷ xs) processors n =
      let others = wanted pinning (n + 1) xs in
      let fed : Bool → List Slot = λ t.
        (feed xs (record {
          processors = if t then processors ++ ((group, i) ∷ []) else processors;
          count = n + 1;
        })).processors in
      let next : Bool → List Slot = λ t.
        processors
        ++ at_most threads (Common.length processors) (if t then (group, i) ∷ others else others) in
      elim (Bool-cases (has_room threads processors)) [
        | inr full ↦
            ap (λ t. fed (t && is_pinned pinning n)) full
            ∙ (feed-wanted xs processors (n + 1)
                ∙ ap (◌++◌ processors) (
                    at_most-full threads processors others full
                    ∙ sym (
                        at_most-full threads processors (wanted pinning n ((group, i) ∷ xs)) full)))
        | inl room ↦
            ap (λ t. fed (t && is_pinned pinning n)) room
            ∙ elim (Bool-cases (is_pinned pinning n)) [
              | inr other ↦ ap fed other ∙ (feed-wanted xs processors (n + 1) ∙ ap next (sym other))
              | inl pin ↦
                  ap fed pin
                  ∙ (feed-wanted xs (processors ++ ((group, i) ∷ [])) (n + 1)
                      ∙ (append_assoc processors ((group, i) ∷ []) (
                            at_most threads (Common.length (processors ++ ((group, i) ∷ [])))
                              others)
                          ∙ (ap (◌++◌ processors)
                                (sym (at_most-room threads processors (group, i) others room))
                              ∙ ap next (sym pin))))
            ]
      ]

  -- On Windows the processors are the set bits of the groups' masks, in the order of what the system
  -- answers, whose numbers in this order are pinned if cores are named, and as many of them as threads
  -- are asked for.
  pub make_affinity-slots :
      (infos : List ProcessorInfo)
      → make_affinity threads pinning infos ≡ at_most threads 0 (wanted pinning 0 (slots infos))
  unfolding make_affinity
  make_affinity-slots infos =
      ap (λ c. c.processors) (scan_infos-feed infos (record { processors = []; count = 0 }))
      ∙ feed-wanted (slots infos) [] 0

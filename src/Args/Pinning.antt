-- ===== src/Args/Pinning.antt =====
-- The list of processor cores of the option `--core-pins`.
use pcat.Common.{
  ℕ, zero, suc, ◌+◌, ◌≤◌, ◌≡◌, ◌≢◌, ap, ◌∙◌, refl, if◌then◌else◌, List, [], ◌∷◌, ◌++◌, map, Bool,
  true, false, Option, none, some, arith, All, length-append, Bool-cases, inl, inr,
}
use pcat.Common
use pcat.Args.{Conversions, is_comma, until_comma, behind_comma, cons_core, pins, make_pinning}

-- A number as the option takes it: not empty, without a comma, and decimal.
pub record IsCore (conv : Conversions) (core : List ℕ) : Type 0 where
  pub some_text : core ≢ []
  pub no_comma : All (λ c. is_comma c ≡ false) core
  pub decimal : conv.is_dec core ≡ true

-- the cores with a comma between each two
unfoldable pub join : List (List ℕ) → List ℕ
join [] = []
join (core ∷ []) = core
join (core ∷ next ∷ cores) = core ++ (44 ∷ join (next ∷ cores))

until_comma-comma :
    (text behind : List ℕ)
    → All (λ c. is_comma c ≡ false) text
    → until_comma (text ++ (44 ∷ behind)) ≡ text
unfolding until_comma is_comma
until_comma-comma [] behind h = refl
until_comma-comma (c ∷ text) behind h = rw h.0 (ap (◌∷◌ c) (until_comma-comma text behind h.1))

behind_comma-comma :
    (text behind : List ℕ)
    → All (λ c. is_comma c ≡ false) text
    → behind_comma (text ++ (44 ∷ behind)) ≡ some behind
unfolding behind_comma is_comma
behind_comma-comma [] behind h = refl
behind_comma-comma (c ∷ text) behind h = rw h.0 (behind_comma-comma text behind h.1)

until_comma_whole : (text : List ℕ) → All (λ c. is_comma c ≡ false) text → until_comma text ≡ text
unfolding until_comma
until_comma_whole [] h = refl
until_comma_whole (c ∷ text) h = rw h.0 (ap (◌∷◌ c) (until_comma_whole text h.1))

behind_comma_whole : (text : List ℕ) → All (λ c. is_comma c ≡ false) text → behind_comma text ≡ none
unfolding behind_comma
behind_comma_whole [] h = refl
behind_comma_whole (c ∷ text) h = rw h.0 (behind_comma_whole text h.1)

module _ (conv : Conversions) where
  -- a round on a text that has a comma, and more text behind it
  pins_comma :
      (fuel d : ℕ) (core rest : List ℕ)
      → IsCore conv core
      → pins conv (suc fuel) (core ++ (44 ∷ d ∷ rest))
        ≡ cons_core (conv.from_dec core) (pins conv fuel (d ∷ rest))
  unfolding pins
  pins_comma fuel d [] rest v = absurd (v.some_text refl)
  pins_comma fuel d (c ∷ core) rest v = rw (
    behind_comma-comma (c ∷ core) (d ∷ rest) v.no_comma,
    pins,
    until_comma-comma (c ∷ core) (d ∷ rest) v.no_comma,
    v.decimal,
  )

  -- the round on the last core
  pins_last :
      (fuel : ℕ) (core : List ℕ)
      → IsCore conv core
      → pins conv (suc fuel) core ≡ some (conv.from_dec core ∷ [])
  unfolding pins
  pins_last fuel [] v = absurd (v.some_text refl)
  pins_last fuel (c ∷ core) v = rw (
    behind_comma_whole (c ∷ core) v.no_comma,
    pins,
    until_comma_whole (c ∷ core) v.no_comma,
    v.decimal,
  )

  -- a comma at the end of the text
  pins_trailing :
      (fuel : ℕ) (core : List ℕ)
      → IsCore conv core
      → pins conv (suc fuel) (core ++ (44 ∷ [])) ≡ none
  unfolding pins
  pins_trailing fuel [] v = absurd (v.some_text refl)
  pins_trailing fuel (c ∷ core) v = rw (behind_comma-comma (c ∷ core) [] v.no_comma, pins)

  -- cores joined by commas, with enough fuel
  pins-join :
      (fuel : ℕ) (core : List ℕ) (cores : List (List ℕ))
      → IsCore conv core
      → All (IsCore conv) cores
      → Common.length (join (core ∷ cores)) ≤ fuel
      → pins conv fuel (join (core ∷ cores)) ≡ some (map conv.from_dec (core ∷ cores))
  unfolding join
  pins-join zero [] cores v vs le = absurd (v.some_text refl)
  pins-join zero (c ∷ core) [] v vs le = absurd (omega arith)
  pins-join zero (c ∷ core) (next ∷ cores) v vs le = absurd (omega arith)
  pins-join (suc fuel) core [] v vs le = pins_last fuel core v
  pins-join (suc fuel) core ((d ∷ next) ∷ []) v vs le =
      pins_comma fuel d core next v
      ∙ ap (cons_core (conv.from_dec core)) (
          pins-join fuel (d ∷ next) [] vs.0 vs.1
            (omega (arith, length-append core (44 ∷ d ∷ next))))
  pins-join (suc fuel) core ((d ∷ next) ∷ third ∷ cores) v vs le =
      let rest = next ++ (44 ∷ join (third ∷ cores)) in
      pins_comma fuel d core rest v
      ∙ ap (cons_core (conv.from_dec core)) (
          pins-join fuel (d ∷ next) (third ∷ cores) vs.0 vs.1
            (omega (arith, length-append core (44 ∷ d ∷ rest))))
  pins-join (suc fuel) core ([] ∷ cores) v vs le = absurd (vs.0.some_text refl)

  -- Numbers joined by commas, none empty or with a comma and all decimal, are read back in their order.
  pub make_pinning-join :
      (core : List ℕ) (cores : List (List ℕ))
      → IsCore conv core
      → All (IsCore conv) cores
      → make_pinning conv (join (core ∷ cores)) ≡ map conv.from_dec (core ∷ cores)
  unfolding make_pinning
  make_pinning-join core cores v vs =
      rw (
        pins-join (Common.length (join (core ∷ cores))) core cores v vs (omega arith),
        make_pinning,
      )

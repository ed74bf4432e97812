-- ===== src/Common/Results.antt =====
-- Results of code that may leave its defined behaviour.
use mathlib.Core.Path.{◌≡◌, refl}
use native.Mathlib.Omega.{arith}

-- Where the C++ has no defined result, or the model stops:
-- `past_end`: an iterator is moved or read past the end of its container (an `assert` of the debug
--   build names the same condition);
-- `negative`: an `off_t` difference that would be below zero, which the model does not follow;
-- `bad_access`: a read or a write outside the bytes of a file or a mapping;
-- `division_by_zero`: a division of integers by zero;
-- `assertion`: an `assert` fails that guards none of these;
-- `out_of_fuel`: the rounds given to a loop ran out.
pub data Fault : Type 0 where
  past_end negative bad_access division_by_zero assertion out_of_fuel : Fault

pub data Result {ℓ} (Value : Type ℓ) : Type ℓ where
  ok : Value → Result Value
  err : Fault → Result Value

-- The first fault is the result.
infixl 5 ◌>>=◌
abbrev pub ◌>>=◌ {ℓ ℓ'} :
    {Value : Type ℓ} {Next : Type ℓ'} → Result Value → (Value → Result Next) → Result Next
err fault >>= continue_with = err fault
ok value >>= continue_with = continue_with value

pub ok-injective {ℓ} : {A : Type ℓ} {a b : A} → ◌≡◌ {A = Result A} (ok a) (ok b) → a ≡ b
ok-injective h = ground arith

-- What a result that is followed by another was.
pub bind-ok {ℓ κ} :
    {A : Type ℓ} {B : Type κ} (r : Result A) (f : A → Result B) (b : B)
    → (r >>= f) ≡ ok b
    → (a : A) × (r ≡ ok a) × (f a ≡ ok b)
bind-ok (ok a) f b h = (a, refl, h)
bind-ok (err fault) f b h = ground arith

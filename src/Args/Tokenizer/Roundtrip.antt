-- ===== src/Args/Tokenizer/Roundtrip.antt =====
-- No character of the command line is lost by the tokenizer.
use pcat.Common.{
  ℕ, zero, suc, ◌+◌, ◌≤◌, ◌<◌, ◌≡◌, ◌⊎◌, ◌==◌, if◌then◌else◌, List, [], ◌∷◌, ◌++◌, Bool, true,
  false, Option, none, some, arith, Result, ok, err, out_of_fuel, ◌>>=◌, refl, ap, subst,
  Bool-cases, inl, inr,
}
use pcat.Common
use pcat.Args.Tokenizer.{
  unknown, arg, space, equals, Token, is_valid, no_token, Tokenizer, next_arg, is_equals, word,
  behind_word, read_space, read_text, next, tokenize,
}
use pcat.Args.Tokenizer.Stream.{letters, unread, reader, length-behind_word}

-- the tokens up to the first that is not valid
unfoldable pub tokens : ℕ → Tokenizer → Result (List Token)
tokens zero t = err out_of_fuel
tokens (suc fuel) t = elim (is_valid t.token) [
  | false ↦ ok []
  | true ↦ (do rest ← tokens fuel (next t); ok (t.token ∷ rest))
]

-- the text put before the first of the arguments
unfoldable pub prepend : List ℕ → List (List ℕ) → List (List ℕ)
prepend text [] = text ∷ []
prepend text (head ∷ rest) = (text ++ head) ∷ rest

-- The arguments that a list of tokens stands for: a space ends an argument.
unfoldable pub spell : List Token → List (List ℕ)
spell [] = [] ∷ []
spell (t ∷ ts) = elim t.type_ [
  | space ↦ [] ∷ spell ts
  | arg ↦ prepend t.value_ (spell ts)
  | equals ↦ prepend t.value_ (spell ts)
  | unknown ↦ spell ts
]

word-append : (text : List ℕ) → word text ++ behind_word text ≡ text
unfolding word behind_word
word-append [] = refl
word-append (c ∷ text) = elim (Bool-cases (is_equals c)) [
  | inl yes_equals ↦ rw yes_equals
  | inr no_equals ↦ rw no_equals (ap (◌∷◌ c) (word-append text))
]

is_equals-61 : (c : ℕ) → is_equals c ≡ true → c ≡ 61
unfolding is_equals
is_equals-61 c h = ground arith

abbrev Spelled : ℕ → Tokenizer → List (List ℕ) → Type 0
Spelled fuel t args = (ts : List Token) × (tokens fuel t ≡ ok ts) × (spell ts ≡ args)

abbrev arg_token : List ℕ → Token
arg_token value = record { type_ = arg; value_ = value }

abbrev equals_token : Token
equals_token = record { type_ = equals; value_ = 61 ∷ [] }

abbrev space_token : Token
space_token = record { type_ = space; value_ = [] }

module _ (fuel : ℕ) (current : Option (List ℕ)) (remaining : List (List ℕ)) (text : List ℕ)
    (rest : List (List ℕ)) where
  Spelled-arg :
      (value : List ℕ)
      → Spelled fuel (next (reader current remaining (arg_token value))) (text ∷ rest)
      → Spelled (suc fuel) (reader current remaining (arg_token value)) ((value ++ text) ∷ rest)
  unfolding tokens spell prepend is_valid
  Spelled-arg value (ts, run, spelled) = (arg_token value ∷ ts, rw run, rw spelled)

  Spelled-equals :
      Spelled fuel (next (reader current remaining equals_token)) (text ∷ rest)
      → Spelled (suc fuel) (reader current remaining equals_token) ((61 ∷ text) ∷ rest)
  unfolding tokens spell prepend is_valid
  Spelled-equals (ts, run, spelled) = (equals_token ∷ ts, rw run, rw spelled)

  Spelled-space :
      Spelled fuel (next (reader current remaining space_token)) (text ∷ rest)
      → Spelled (suc fuel) (reader current remaining space_token) ([] ∷ text ∷ rest)
  unfolding tokens spell prepend is_valid
  Spelled-space (ts, run, spelled) = (space_token ∷ ts, rw run, rw spelled)

Spelled-end :
    (fuel : ℕ) (token : Token) → Spelled (suc fuel) (next (reader (some []) [] token)) ([] ∷ [])
unfolding tokens spell is_valid next read_space next_arg
Spelled-end fuel token = ([], refl, refl)

next-space :
    (head : List ℕ) (rest : List (List ℕ)) (token : Token)
    → next (reader (some []) (head ∷ rest) token) ≡ reader (some head) rest space_token
unfolding next read_space next_arg
next-space head rest token = refl

length-behind :
    (c : ℕ) (text : List ℕ)
    → is_equals c ≡ false
    → Common.length (behind_word (c ∷ text)) ≤ Common.length text
unfolding behind_word
length-behind c text h = rw h (length-behind_word text)

Spelled-text :
    (fuel : ℕ)
    → ((text : List ℕ) (rest : List (List ℕ)) (token : Token)
        → unread (some text) rest ≤ fuel
        → Spelled fuel (next (reader (some text) rest token)) (text ∷ rest))
    → (c : ℕ) (text : List ℕ) (rest : List (List ℕ)) (token : Token)
    → unread (some (c ∷ text)) rest ≤ suc fuel
    → Spelled
        (suc fuel)
        (read_text c text (reader (some (c ∷ text)) rest token))
        ((c ∷ text) ∷ rest)
unfolding read_text unread
Spelled-text fuel shorter c text rest token le = elim (Bool-cases (is_equals c)) [
  | inl yes_equals ↦
      rw (yes_equals, is_equals-61 c yes_equals)
        (Spelled-equals fuel (some text) rest text rest
          (shorter text rest equals_token (omega arith)))
  | inr no_equals ↦ rw no_equals (
      subst
        (λ w.
          Spelled (suc fuel)
            (reader (some (behind_word (c ∷ text))) rest (arg_token (word (c ∷ text)))) (w ∷ rest))
        (word-append (c ∷ text))
        (Spelled-arg fuel (some (behind_word (c ∷ text))) rest (behind_word (c ∷ text)) rest
          (word (c ∷ text))
          (shorter (behind_word (c ∷ text)) rest (arg_token (word (c ∷ text)))
            (omega (arith, length-behind c text no_equals)))))
]

next-text-Spelled :
    (fuel c : ℕ) (text : List ℕ) (rest : List (List ℕ)) (token : Token)
    → Spelled
        (suc fuel)
        (read_text c text (reader (some (c ∷ text)) rest token))
        ((c ∷ text) ∷ rest)
    → Spelled (suc fuel) (next (reader (some (c ∷ text)) rest token)) ((c ∷ text) ∷ rest)
unfolding next
next-text-Spelled fuel c text rest token h = h

-- Reading the text of an argument, and the arguments behind it, gives tokens that spell them.
Spelled-reader :
    (fuel : ℕ) (text : List ℕ) (rest : List (List ℕ)) (token : Token)
    → unread (some text) rest ≤ fuel
    → Spelled fuel (next (reader (some text) rest token)) (text ∷ rest)
unfolding unread letters
Spelled-reader zero text rest token le = absurd (omega arith)
Spelled-reader (suc fuel) [] [] token le = Spelled-end fuel token
Spelled-reader (suc fuel) [] (head ∷ rest) token le = rw (next-space head rest token) (
    Spelled-space fuel (some head) rest head rest
      (Spelled-reader fuel head rest space_token (omega arith)))
Spelled-reader (suc fuel) (c ∷ text) rest token le =
    next-text-Spelled fuel c text rest token
      (Spelled-text fuel (Spelled-reader fuel) c text rest token le)

-- The tokens of a command line that has an argument spell its arguments.
pub tokenize-spell :
    (head : List ℕ) (rest : List (List ℕ))
    → (ts : List Token) × (tokens (letters (head ∷ rest)) (tokenize (head ∷ rest)) ≡ ok ts)
      × (spell ts ≡ head ∷ rest)
unfolding tokenize next_arg unread letters
tokenize-spell head rest = Spelled-reader (letters (head ∷ rest)) head rest no_token (omega arith)

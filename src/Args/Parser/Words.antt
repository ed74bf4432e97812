-- ===== src/Args/Parser/Words.antt =====
-- The tokens of arguments that are plain words, or an option's name and value.

use pcat.Common.{ℕ, ◌≡◌, ◌≢◌, ap, refl, List, [], ◌∷◌, ◌++◌, false, Bool-cases, inl, inr, some, All}
use pcat.Args.Tokenizer.{
  arg, space, equals, Token, next, next_arg, read_text, read_space, no_token, tokenize, word,
  behind_word, is_equals,
}
use pcat.Args.Tokenizer.Stream.{reader}

-- A text that is one token: not empty, without an equals sign.
abbrev pub IsPlain : List ℕ → Type 0
IsPlain text = (text ≢ []) × All (λ c. is_equals c ≡ false) text

abbrev pub word_token : List ℕ → Token
word_token value = record { type_ = arg; value_ = value }

abbrev pub equals_sign : Token
equals_sign = record { type_ = equals; value_ = 61 ∷ [] }

abbrev pub gap : Token
gap = record { type_ = space; value_ = [] }

word-plain :
    (text behind : List ℕ)
    → All (λ c. is_equals c ≡ false) text
    → word (text ++ (61 ∷ behind)) ≡ text
unfolding word is_equals
word-plain [] behind plain = refl
word-plain (c ∷ text) behind plain = rw plain.0 (ap (◌∷◌ c) (word-plain text behind plain.1))

behind_word-plain :
    (text behind : List ℕ)
    → All (λ c. is_equals c ≡ false) text
    → behind_word (text ++ (61 ∷ behind)) ≡ 61 ∷ behind
unfolding behind_word is_equals
behind_word-plain [] behind plain = refl
behind_word-plain (c ∷ text) behind plain = rw plain.0 (behind_word-plain text behind plain.1)

word_whole : (text : List ℕ) → All (λ c. is_equals c ≡ false) text → word text ≡ text
unfolding word
word_whole [] plain = refl
word_whole (c ∷ text) plain = rw plain.0 (ap (◌∷◌ c) (word_whole text plain.1))

behind_word_whole : (text : List ℕ) → All (λ c. is_equals c ≡ false) text → behind_word text ≡ []
unfolding behind_word
behind_word_whole [] plain = refl
behind_word_whole (c ∷ text) plain = rw plain.0 (behind_word_whole text plain.1)

-- what `next` reads does not depend on the present token
pub next-same :
    (text : List ℕ) (rest : List (List ℕ)) (t u : Token)
    → next (reader (some text) rest t) ≡ next (reader (some text) rest u)
unfolding next read_space next_arg read_text
next-same [] [] t u = refl
next-same [] (head ∷ rest) t u = refl
next-same (c ∷ text) rest t u = elim (Bool-cases (is_equals c)) [
  | inl e ↦ rw e refl
  | inr e ↦ rw e refl
]

-- a plain argument is read whole
pub next-plain :
    (text : List ℕ) (rest : List (List ℕ)) (t : Token)
    → IsPlain text
    → next (reader (some text) rest t) ≡ reader (some []) rest (word_token text)
unfolding next read_text
next-plain [] rest t plain = absurd (plain.0 refl)
next-plain (c ∷ text) rest t plain =
    rw (plain.1.0, word_whole (c ∷ text) plain.1, behind_word_whole (c ∷ text) plain.1) refl

-- and up to the equals sign, if there is one
next-name :
    (text behind : List ℕ) (rest : List (List ℕ)) (t : Token)
    → IsPlain text
    → next (reader (some (text ++ (61 ∷ behind))) rest t)
      ≡ reader (some (61 ∷ behind)) rest (word_token text)
unfolding next read_text
next-name [] behind rest t plain = absurd (plain.0 refl)
next-name (c ∷ text) behind rest t plain =
    rw
      (plain.1.0, word-plain (c ∷ text) behind plain.1, behind_word-plain (c ∷ text) behind plain.1)
      refl

pub tokenize-plain :
    (name : List ℕ) (rest : List (List ℕ))
    → IsPlain name
    → tokenize (name ∷ rest) ≡ reader (some []) rest (word_token name)
unfolding tokenize next_arg
tokenize-plain name rest plain = next-plain name rest no_token plain

pub tokenize-name :
    (name text : List ℕ) (rest : List (List ℕ))
    → IsPlain name
    → tokenize ((name ++ (61 ∷ text)) ∷ rest) ≡ reader (some (61 ∷ text)) rest (word_token name)
unfolding tokenize next_arg
tokenize-name name text rest plain = next-name name text rest no_token plain

pub next-gap :
    (head : List ℕ) (rest : List (List ℕ)) (t : Token)
    → next (reader (some []) (head ∷ rest) t) ≡ reader (some head) rest gap
unfolding next read_space next_arg
next-gap head rest t = refl

pub next-sign :
    (text : List ℕ) (rest : List (List ℕ)) (t : Token)
    → next (reader (some (61 ∷ text)) rest t) ≡ reader (some text) rest equals_sign
unfolding next read_text is_equals
next-sign text rest t = refl

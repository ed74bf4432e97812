-- ===== src/Args/Tokenizer/Stream.antt =====
-- How much a tokenizer has still to read, and the whole of what it reads.
use pcat.Common.{
  ℕ, zero, suc, ◌+◌, ◌≤◌, ◌<◌, ◌≡◌, ◌==◌, if◌then◌else◌, List, [], ◌∷◌, ◌++◌, Bool, true, false,
  Option, none, some, arith, Result, ok, err, out_of_fuel, ◌>>=◌, refl,
}
use pcat.Common
use pcat.Args.Tokenizer.{
  Token, is_valid, Tokenizer, next_arg, behind_word, read_space, read_text, next,
}

-- the characters of the arguments, and one for each argument
unfoldable pub letters : List (List ℕ) → ℕ
letters [] = 0
letters (text ∷ rest) = suc (Common.length text + letters rest)

unfoldable pub unread : Option (List ℕ) → List (List ℕ) → ℕ
unread none rest = 0
unread (some text) rest = suc (Common.length text + letters rest)

-- what is left to read, the present token included
unfoldable pub size : Tokenizer → ℕ
size t = (if is_valid t.token then 1 else 0) + unread t.current t.remaining

pub length-behind_word : (text : List ℕ) → Common.length (behind_word text) ≤ Common.length text
unfolding behind_word
length-behind_word [] = omega arith
length-behind_word (c ∷ text) = ground (arith, length-behind_word text)

abbrev pub reader : Option (List ℕ) → List (List ℕ) → Token → Tokenizer
reader text rest token = record { current = text; remaining = rest; token = token }

size-read_text :
    (c : ℕ) (text : List ℕ) (rest : List (List ℕ)) (token : Token)
    → size (read_text c text (reader (some (c ∷ text)) rest token)) ≤ unread (some (c ∷ text)) rest
unfolding read_text size unread is_valid behind_word
size-read_text c text rest token = ground (arith, length-behind_word text)

size-no_more : (rest : List (List ℕ)) (token : Token) → size (next (reader none rest token)) ≡ 0
unfolding next size unread is_valid
size-no_more rest token = refl

size-read_space :
    (rest : List (List ℕ)) (token : Token)
    → size (read_space (reader (some []) rest token)) ≤ unread (some []) rest
unfolding read_space next_arg size unread is_valid letters
size-read_space [] token = omega arith
size-read_space (head ∷ rest) token = omega arith

size-reader :
    (text : Option (List ℕ)) (rest : List (List ℕ)) (token : Token)
    → size (next (reader text rest token)) ≤ unread text rest
unfolding next
size-reader none rest token = omega (arith, size-no_more rest token)
size-reader (some []) rest token = size-read_space rest token
size-reader (some (c ∷ text)) rest token = size-read_text c text rest token

-- Reading a token uses up a character or an argument, while there is one left.
pub size-next-unread : (t : Tokenizer) → size (next t) ≤ unread t.current t.remaining
size-next-unread t = size-reader t.current t.remaining t.token

-- and so it makes less of what is left, the present token included
pub size-next_valid : (t : Tokenizer) → is_valid t.token ≡ true → size (next t) < size t
unfolding size
size-next_valid t h = ground (arith, size-next-unread t)

pub size-next_le : (t : Tokenizer) → size (next t) ≤ size t
unfolding size
size-next_le t = ground (arith, size-next-unread t)

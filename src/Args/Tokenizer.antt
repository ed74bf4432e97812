-- ===== src/Args/Tokenizer.antt =====
-- src/args/tokenizer.hxx and src/args/tokenizer.cxx: the command line as a stream of tokens. A string
-- is the list of its characters.
pub mod Stream
pub mod Roundtrip
use pcat.Common.{ℕ, ◌+◌, ◌==◌, if◌then◌else◌, List, [], ◌∷◌, Bool, true, false, Option, none, some}
use pcat.Common

pub data TokenType : Type 0 where
  unknown arg space equals : TokenType

-- token_t
pub record Token : Type 0 where
  pub type_ : TokenType
  pub value_ : List ℕ

-- `token_t::valid()`
unfoldable pub is_valid : Token → Bool
is_valid t = elim t.type_ [ unknown ↦ false | arg ↦ true | space ↦ true | equals ↦ true ]

-- the default constructor
abbrev pub no_token : Token
no_token = record { type_ = unknown; value_ = [] }

-- tokenizer_t. `current` is what stands behind `offset` in the argument that is read, `none` where
-- `arg` is null; `remaining` is the part of `args` from `currentArg` on.
pub record Tokenizer : Type 0 where
  pub current : Option (List ℕ)
  pub remaining : List (List ℕ)
  pub token : Token

unfoldable pub next_arg : Tokenizer → Tokenizer
next_arg t = elim t.remaining [
  | [] ↦ record t { current = none }
  | head ∷ rest ↦ record t { current = some head; remaining = rest }
]

-- '='
unfoldable pub is_equals : ℕ → Bool
is_equals c = c == 61

-- The loop of `readToken`: the characters up to the first equals sign, and those from it on.
unfoldable pub word : List ℕ → List ℕ
word [] = []
word (c ∷ text) = if is_equals c then [] else c ∷ word text

unfoldable pub behind_word : List ℕ → List ℕ
behind_word [] = []
behind_word (c ∷ text) = if is_equals c then c ∷ text else behind_word text

-- the end of an argument: the space between two arguments, or the end of the line
unfoldable pub read_space : Tokenizer → Tokenizer
read_space t =
    let moved = next_arg t in
    elim moved.current [
      | none ↦ record moved { token = no_token }
      | some text ↦ record moved { token = record { type_ = space; value_ = [] } }
    ]

unfoldable pub read_text : ℕ → List ℕ → Tokenizer → Tokenizer
read_text c text t =
    if is_equals c
    then record t { current = some text; token = record { type_ = equals; value_ = 61 ∷ [] } }
    else record t {
      current = some (behind_word (c ∷ text));
      token = record { type_ = arg; value_ = word (c ∷ text) };
    }

-- `readToken()`, also `next()`
unfoldable pub next : Tokenizer → Tokenizer
next t = elim t.current [
  | none ↦ record t { token = no_token }
  | some [] ↦ read_space t
  | some (c ∷ text) ↦ read_text c text t
]

-- the constructor
unfoldable pub tokenize : List (List ℕ) → Tokenizer
tokenize args = next (next_arg (record { current = none; remaining = args; token = no_token }))

-- typeToName, with the names as the cases of a type
pub data TypeName : Type 0 where
  name_unknown name_argument name_implicit_space name_equals_sign : TypeName

unfoldable pub type_to_name : TokenType → TypeName
type_to_name unknown = name_unknown
type_to_name arg = name_argument
type_to_name space = name_implicit_space
type_to_name equals = name_equals_sign

-- ===== src/Args.antt =====
-- src/args.hxx and src/args/types.cxx: the nodes of the parsed command line. `toInt_t` of the
-- substrate library is a parameter.
pub mod Tokenizer
pub mod Pinning
pub mod Parser
mod Tests
use pcat.Common.{
  ℕ, zero, suc, ◌+◌, ◌==◌, ◌&&◌, if◌then◌else◌, not, List, [], ◌∷◌, ◌++◌, Bool, true, false, Option,
  none, some,
}
use pcat.Common

-- `toInt_t<size_t>` on a string: `isDec()` and `fromDec()`
pub record Conversions : Type 0 where
  pub is_dec : List ℕ → Bool
  pub from_dec : List ℕ → ℕ

-- argType_t
pub data ArgType : Type 0 where
  tree unrecognised help version output_file async threads pinning algorithm : ArgType

-- algorithm_t
pub data Algorithm : Type 0 where
  block_linear chunk_spans invalid : Algorithm

-- the classes derived from argNode_t that a tree has as children, with their members
pub data ArgNode : Type 0 where
  arg_unrecognised : List ℕ → List ℕ → ArgNode
  arg_output_file : List ℕ → ArgNode
  arg_threads : ℕ → ArgNode
  arg_pinning : List ℕ → ArgNode
  arg_algorithm : Algorithm → ArgNode
  arg_help arg_version arg_async : ArgNode

-- `argNode_t::type()`
unfoldable pub node_type : ArgNode → ArgType
node_type (arg_unrecognised argument parameter) = unrecognised
node_type (arg_output_file file_name) = output_file
node_type (arg_threads count) = threads
node_type (arg_pinning cores) = pinning
node_type (arg_algorithm selected) = algorithm
node_type arg_help = help
node_type arg_version = version
node_type arg_async = async

abbrev pub type_index : ArgType → ℕ
type_index tree = 0
type_index unrecognised = 1
type_index help = 2
type_index version = 3
type_index output_file = 4
type_index async = 5
type_index threads = 6
type_index pinning = 7
type_index algorithm = 8

-- `==` of two enumerators
abbrev pub is_type : ArgType → ArgType → Bool
is_type a b = type_index a == type_index b

-- `==` of two `std::string_view`s
unfoldable pub is_same : List ℕ → List ℕ → Bool
is_same [] [] = true
is_same [] (d ∷ right) = false
is_same (c ∷ left) [] = false
is_same (c ∷ left) (d ∷ right) = c == d && is_same left right

-- argsTree_t: `find` and `add`. `add` is false only where memory runs out, which is not modelled.
unfoldable pub find : List ArgNode → ArgType → Option ArgNode
find [] wanted = none
find (node ∷ children) wanted =
    if is_type (node_type node) wanted then some node else find children wanted

unfoldable pub add_node : List ArgNode → ArgNode → List ArgNode
add_node children node = children ++ (node ∷ [])

-- option_t
pub record OptionName : Type 0 where
  pub name : List ℕ
  pub option_type : ArgType

-- the characters of "blockLinear" and "chunkSpans"
abbrev pub block_linear_name : List ℕ
block_linear_name = 98 ∷ 108 ∷ 111 ∷ 99 ∷ 107 ∷ 76 ∷ 105 ∷ 110 ∷ 101 ∷ 97 ∷ 114 ∷ []

abbrev pub chunk_spans_name : List ℕ
chunk_spans_name = 99 ∷ 104 ∷ 117 ∷ 110 ∷ 107 ∷ 83 ∷ 112 ∷ 97 ∷ 110 ∷ 115 ∷ []

-- the constructor of argAlgorithm_t
unfoldable pub make_algorithm : List ℕ → Algorithm
make_algorithm name =
    if is_same name block_linear_name
    then block_linear
    else (if is_same name chunk_spans_name then chunk_spans else invalid)

unfoldable pub is_valid_algorithm : Algorithm → Bool
is_valid_algorithm block_linear = true
is_valid_algorithm chunk_spans = true
is_valid_algorithm invalid = false

-- ','
unfoldable pub is_comma : ℕ → Bool
is_comma c = c == 44

-- `threads.find(',', begin)`, as the text in front of the comma, and the text behind it if there is
-- a comma
unfoldable pub until_comma : List ℕ → List ℕ
until_comma [] = []
until_comma (c ∷ text) = if is_comma c then [] else c ∷ until_comma text

unfoldable pub behind_comma : List ℕ → Option (List ℕ)
behind_comma [] = none
behind_comma (c ∷ text) = if is_comma c then some text else behind_comma text

abbrev pub cons_core : ℕ → Option (List ℕ) → Option (List ℕ)
cons_core core none = none
cons_core core (some cores) = some (core ∷ cores)

module _ (conv : Conversions) where
  -- the constructor of argThreads_t
  unfoldable pub make_threads : List ℕ → ℕ
  make_threads = conv.from_dec

  -- The loop of argPinning_t's constructor, from `begin` on; `none` is the exception. Each round takes
  -- a character at least.
  unfoldable pub pins : ℕ → List ℕ → Option (List ℕ)
  pins fuel [] = some []
  pins zero (c ∷ text) = none
  pins (suc fuel) (c ∷ text) =
      let core = until_comma (c ∷ text) in
      elim (behind_comma (c ∷ text)) [
        | none ↦ if conv.is_dec core then some (conv.from_dec core ∷ []) else none
        | some [] ↦ none
        | some (d ∷ rest) ↦
            let others = pins fuel (d ∷ rest) in
            if conv.is_dec core then cons_core (conv.from_dec core) others else none
      ]

  -- the constructor of argPinning_t: an exception clears the cores
  unfoldable pub make_pinning : List ℕ → List ℕ
  make_pinning text = elim (pins (Common.length text) text) [ none ↦ [] | some cores ↦ cores ]

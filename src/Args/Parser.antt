-- ===== src/Args/Parser.antt =====
-- src/args.cxx: the recursive descent parser. `none` is an exception that is thrown.
pub mod Total
pub mod Words
pub mod Values
pub mod Files
use pcat.Common.{
  ℕ, zero, suc, ◌+◌, ◌==◌, if◌then◌else◌, not, List, [], ◌∷◌, ◌++◌, Bool, true, false, Option, none,
  some, Result, ok, err, ◌>>=◌, out_of_fuel,
}
use pcat.Common
use pcat.Args.{
  Conversions, ArgType, tree, unrecognised, help, version, output_file, async, threads, pinning,
  algorithm, ArgNode, arg_unrecognised, arg_output_file, arg_threads, arg_pinning, arg_algorithm,
  arg_help, arg_version, arg_async, is_same, add_node, OptionName, make_threads, make_pinning,
  make_algorithm, is_valid_algorithm,
}
use pcat.Args.Tokenizer.{
  TokenType, unknown, arg, space, equals, Token, is_valid, Tokenizer, next, tokenize,
}
use pcat.Args.Tokenizer.Stream.{letters}

-- A node with the lexer behind it. The token that a parser reads is a reference to the lexer's own,
-- which `next` changes.
abbrev pub Made : Type 0
Made = Option (ArgNode × Tokenizer)

unfoldable pub is_unknown : TokenType → Bool
is_unknown unknown = true
is_unknown arg = false
is_unknown space = false
is_unknown equals = false

unfoldable pub is_space : TokenType → Bool
is_space unknown = false
is_space arg = false
is_space space = true
is_space equals = false

unfoldable pub is_arg : TokenType → Bool
is_arg unknown = false
is_arg arg = true
is_arg space = false
is_arg equals = false

unfoldable pub is_equals_sign : TokenType → Bool
is_equals_sign unknown = false
is_equals_sign arg = false
is_equals_sign space = false
is_equals_sign equals = true

-- the value behind the present token, a space or an equals sign
abbrev pub value_of : Tokenizer → List ℕ
value_of lexer = (next lexer).token.value_

unfoldable pub parse_output_file : Tokenizer → Made
parse_output_file lexer =
    if is_unknown lexer.token.type_
    then none
    else some (arg_output_file (value_of lexer), next (next lexer))

unfoldable pub parse_algorithm : Tokenizer → Made
parse_algorithm lexer =
    if is_unknown lexer.token.type_
    then none
    else (let selected = make_algorithm (value_of lexer) in
        if is_valid_algorithm selected
        then some (arg_algorithm selected, next (next lexer))
        else none)

-- What parseArgument returns: false with the lexer, or true with the lexer and the tree.
pub data Parsed : Type 0 where
  refused : Tokenizer → Parsed
  parsed : Tokenizer → List ArgNode → Parsed

-- `ast.add(makeNode(lexer, option))`
abbrev pub add_made : List ArgNode → Made → Option Parsed
add_made ast none = none
add_made ast (some (node, lexer)) = some (parsed lexer (add_node ast node))

-- The loop returns false, or goes on.
abbrev pub after_argument :
    (Tokenizer → List ArgNode → Result (Option (List ArgNode)))
    → Option Parsed
    → Result (Option (List ArgNode))
after_argument loop none = ok none
after_argument loop (some (refused lexer)) = ok none
after_argument loop (some (parsed lexer ast)) = loop lexer ast

module _ (conv : Conversions) where
  unfoldable pub parse_threads : Tokenizer → Made
  parse_threads lexer =
      if is_unknown lexer.token.type_
      then none
      else (let count = make_threads conv (value_of lexer) in
          if count == 0 then none else some (arg_threads count, next (next lexer)))

  unfoldable pub parse_pinning : Tokenizer → Made
  parse_pinning lexer =
      if is_unknown lexer.token.type_ then none else elim (make_pinning conv (value_of lexer)) [
        | [] ↦ none
        | core ∷ cores ↦ some (arg_pinning (core ∷ cores), next (next lexer))
      ]

  -- the `switch` of makeNode, behind its `lexer.next()`
  unfoldable pub switch_node : ArgType → Tokenizer → Made
  switch_node help lexer = some (arg_help, lexer)
  switch_node version lexer = some (arg_version, lexer)
  switch_node output_file lexer = parse_output_file lexer
  switch_node async lexer = some (arg_async, lexer)
  switch_node threads lexer = parse_threads lexer
  switch_node pinning lexer = parse_pinning lexer
  switch_node algorithm lexer = parse_algorithm lexer
  switch_node tree lexer = none
  switch_node unrecognised lexer = none

  unfoldable pub make_node : Tokenizer → ArgType → Made
  make_node lexer wanted = switch_node wanted (next lexer)

  module _ (ast : List ArgNode) where
    -- the argument with the text behind its equals sign, unless the argument ends there
    unfoldable pub parse_parameter : List ℕ → Tokenizer → Parsed
    parse_parameter argument lexer =
        if is_space lexer.token.type_
        then parsed lexer (add_node ast (arg_unrecognised argument []))
        else parsed (next lexer) (add_node ast (arg_unrecognised argument lexer.token.value_))

    -- the end of parseArgument: an argument that is no option
    unfoldable pub parse_unrecognised : List ℕ → Tokenizer → Parsed
    parse_unrecognised argument lexer =
        if is_equals_sign lexer.token.type_
        then parse_parameter argument (next lexer)
        else parsed lexer (add_node ast (arg_unrecognised argument []))

    -- `for (const auto &option : options)`: the first option of that name
    unfoldable pub parse_options : List OptionName → List ℕ → Tokenizer → Option Parsed
    parse_options [] argument lexer = some (parse_unrecognised argument (next lexer))
    parse_options (option ∷ options) argument lexer =
        if is_same argument option.name
        then add_made ast (make_node lexer option.option_type)
        else parse_options options argument lexer

    unfoldable pub parse_argument : List OptionName → Tokenizer → Option Parsed
    parse_argument options lexer =
        if is_space lexer.token.type_
        then parse_options options (value_of lexer) (next lexer)
        else (if not (is_arg lexer.token.type_)
            then some (refused lexer)
            else parse_options options lexer.token.value_ lexer)

  -- The `while` loop of parseArguments, `none` where it returns false.
  unfoldable pub parse_loop :
      List OptionName → ℕ → Tokenizer → List ArgNode → Result (Option (List ArgNode))
  parse_loop options zero lexer ast = err out_of_fuel
  parse_loop options (suc fuel) lexer ast = elim (is_valid lexer.token) [
    | false ↦ ok (some ast)
    | true ↦ after_argument (parse_loop options fuel) (parse_argument ast options lexer)
  ]

  -- The name of the program is skipped. There is one round for each character and each argument.
  unfoldable pub parse_arguments : List OptionName → List (List ℕ) → Result (Option (List ArgNode))
  parse_arguments options [] = ok none
  parse_arguments options (program ∷ []) = ok none
  parse_arguments options (program ∷ head ∷ rest) =
      parse_loop options (suc (letters (head ∷ rest))) (tokenize (head ∷ rest)) []

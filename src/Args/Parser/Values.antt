-- ===== src/Args/Parser/Values.antt =====
-- The two spellings of an option's value.
use mathlib.Core.Bool.{false≢true}
use pcat.Common.{
  ℕ, zero, suc, ◌+◌, ◌<◌, ◌==◌, ◌≡◌, ◌≢◌, ap, ap₂, ◌∙◌, sym, refl, if◌then◌else◌, List, [], ◌∷◌,
  ◌++◌, map, append_assoc, Bool, true, false, Bool-cases, inl, inr, Option, none, some, Result, ok,
  arith, All, length-append,
}
use pcat.Common
use pcat.Args.{
  Conversions, ArgType, tree, unrecognised, help, version, output_file, async, threads, pinning,
  algorithm, ArgNode, is_same, OptionName, arg_output_file, arg_threads, arg_pinning, arg_algorithm,
  make_threads, make_pinning, make_algorithm, is_valid_algorithm,
}
use pcat.Args.Tokenizer.{is_valid, Tokenizer, next, tokenize}
use pcat.Args.Tokenizer.Stream.{letters, reader}
use pcat.Args.Parser.{
  is_unknown, is_space, is_arg, parse_output_file, parse_algorithm, parse_threads, parse_pinning,
  switch_node, make_node, parse_options, parse_argument, parse_loop, parse_arguments, add_made,
  after_argument,
}
use pcat.Args.Parser.Total.{loop_round}
use pcat.Args.Parser.Words.{
  IsPlain, word_token, equals_sign, gap, next-same, next-gap, next-sign, tokenize-plain,
  tokenize-name,
}

-- the options that take a value
unfoldable pub is_valued : ArgType → Bool
is_valued tree = false
is_valued unrecognised = false
is_valued help = false
is_valued version = false
is_valued output_file = true
is_valued async = false
is_valued threads = true
is_valued pinning = true
is_valued algorithm = true

-- The first option of that name takes a value.
unfoldable pub takes_value : List OptionName → List ℕ → Bool
takes_value [] name = false
takes_value (option ∷ options) name =
    if is_same name option.name then is_valued option.option_type else takes_value options name

module _ (conv : Conversions) where
  same_node :
      (wanted : ArgType) (text : List ℕ) (rest : List (List ℕ))
      → is_valued wanted ≡ true
      → switch_node conv wanted (reader (some text) rest gap)
        ≡ switch_node conv wanted (reader (some text) rest equals_sign)
  unfolding switch_node is_valued parse_output_file parse_threads parse_pinning parse_algorithm
      is_unknown
  same_node output_file text rest v =
      ap (λ l. some (arg_output_file l.token.value_, next l)) (next-same text rest gap equals_sign)
  same_node threads text rest v =
      ap
        (λ l.
          if make_threads conv l.token.value_ == 0
          then none
          else some (arg_threads (make_threads conv l.token.value_), next l))
        (next-same text rest gap equals_sign)
  same_node pinning text rest v =
      ap
        (λ l. elim (make_pinning conv l.token.value_) [
          | [] ↦ none
          | core ∷ cores ↦ some (arg_pinning (core ∷ cores), next l)
        ])
        (next-same text rest gap equals_sign)
  same_node algorithm text rest v =
      ap
        (λ l.
          if is_valid_algorithm (make_algorithm l.token.value_)
          then some (arg_algorithm (make_algorithm l.token.value_), next l)
          else none)
        (next-same text rest gap equals_sign)
  same_node tree text rest v = absurd (false≢true v)
  same_node unrecognised text rest v = absurd (false≢true v)
  same_node help text rest v = absurd (false≢true v)
  same_node version text rest v = absurd (false≢true v)
  same_node async text rest v = absurd (false≢true v)

  same_options :
      (ast : List ArgNode) (options : List OptionName) (name text : List ℕ) (l m : Tokenizer)
      (rest : List (List ℕ))
      → takes_value options name ≡ true
      → next l ≡ reader (some text) rest gap
      → next m ≡ reader (some text) rest equals_sign
      → parse_options conv ast options name l ≡ parse_options conv ast options name m
  unfolding takes_value parse_options make_node
  same_options ast [] name text l m rest v el em = absurd (false≢true v)
  same_options ast (option ∷ options) name text l m rest v el em =
      elim (Bool-cases (is_same name option.name)) [
        | inl e ↦
            rw (e, el, em) (ap (add_made ast) (same_node option.option_type text rest (rw e at v)))
        | inr e ↦ rw e (same_options ast options name text l m rest (rw e at v) el em)
      ]

  pub arg_round :
      (ast : List ArgNode) (options : List OptionName) (fuel : ℕ) (l : Tokenizer)
      → is_arg l.token.type_ ≡ true
      → is_space l.token.type_ ≡ false
      → is_valid l.token ≡ true
      → parse_loop conv options (suc fuel) l ast
        ≡ after_argument
            (parse_loop conv options fuel)
            (parse_options conv ast options l.token.value_ l)
  unfolding parse_argument
  arg_round ast options fuel l e f v = loop_round conv options fuel l ast v ∙ rw (f, e) refl

  -- The two spellings of an option's value, `--output file` and `--output=file`, are parsed alike,
  -- whatever stands behind them: for the name of an option that takes a value, a name that is not empty
  -- and has no equals sign.
  pub parse_arguments-value :
      (options : List OptionName) (program name text : List ℕ) (rest : List (List ℕ))
      → IsPlain name
      → takes_value options name ≡ true
      → parse_arguments conv options (program ∷ name ∷ text ∷ rest)
        ≡ parse_arguments conv options (program ∷ (name ++ (61 ∷ text)) ∷ rest)
  unfolding parse_arguments letters is_arg is_space is_valid
  parse_arguments-value options program name text rest plain valued =
      first_spelling ∙ (middle ∙ sym second_spelling)
    where
      fuel : ℕ
      fuel = suc (Common.length name + suc (Common.length text + letters rest))

      run : ℕ → Tokenizer → Result (Option (List ArgNode))
      run n l = parse_loop conv options (suc n) l []

      middle :
          run fuel (reader (some []) (text ∷ rest) (word_token name))
          ≡ run fuel (reader (some (61 ∷ text)) rest (word_token name))
      middle =
          arg_round [] options fuel (reader (some []) (text ∷ rest) (word_token name)) refl refl
            refl
          ∙ (ap (after_argument (parse_loop conv options fuel)) (
                same_options [] options name text (reader (some []) (text ∷ rest) (word_token name))
                  (reader (some (61 ∷ text)) rest (word_token name)) rest valued
                  (next-gap text rest (word_token name)) (next-sign text rest (word_token name)))
              ∙ sym (
                  arg_round [] options fuel (reader (some (61 ∷ text)) rest (word_token name)) refl
                    refl refl))

      first_spelling :
          run fuel (tokenize (name ∷ text ∷ rest))
          ≡ run fuel (reader (some []) (text ∷ rest) (word_token name))
      first_spelling = ap (run fuel) (tokenize-plain name (text ∷ rest) plain)

      second_spelling :
          run (letters ((name ++ (61 ∷ text)) ∷ rest)) (tokenize ((name ++ (61 ∷ text)) ∷ rest))
          ≡ run fuel (reader (some (61 ∷ text)) rest (word_token name))
      second_spelling =
          ap₂ run (omega (arith, length-append name (61 ∷ text)))
            (tokenize-name name text rest plain)

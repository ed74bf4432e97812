-- ===== src/Args/Parser/Files.antt =====
-- The names of the input files on the command line.
use pcat.Common.{
  ℕ, zero, suc, ◌+◌, ◌<◌, ◌≡◌, ap, ◌∙◌, sym, refl, List, [], ◌∷◌, ◌++◌, map, append_assoc,
  append-nil, Bool, true, false, Option, none, some, Result, ok, arith, All,
}
use pcat.Common
use pcat.Args.{Conversions, ArgNode, arg_unrecognised, is_same, OptionName, add_node}
use pcat.Args.Tokenizer.{is_valid, Tokenizer, next, read_space, next_arg, no_token}
use pcat.Args.Tokenizer.Stream.{letters, reader}
use pcat.Args.Parser.{
  is_space, is_arg, is_equals_sign, parsed, parse_unrecognised, parse_options, parse_argument,
  parse_loop, parse_arguments, after_argument,
}
use pcat.Args.Parser.Total.{loop_round}
use pcat.Args.Parser.Words.{IsPlain, word_token, gap, next-plain, tokenize-plain}

-- No option has that name.
abbrev pub IsNoOption : List OptionName → List ℕ → Type 0
IsNoOption options text = All (λ option. is_same text option.name ≡ false) options

-- a file's name as the parser keeps it
abbrev pub file_node : List ℕ → ArgNode
file_node name = arg_unrecognised name []

abbrev pub AreFiles : List OptionName → List (List ℕ) → Type 0
AreFiles options = All (λ name. IsPlain name × IsNoOption options name)

-- the token behind a word that ends its argument
unfoldable pub end_of_word : List (List ℕ) → Tokenizer
end_of_word [] = reader none [] no_token
end_of_word (head ∷ rest) = reader (some head) rest gap

pub next-end_of_word :
    (name : List ℕ) (rest : List (List ℕ))
    → next (reader (some []) rest (word_token name)) ≡ end_of_word rest
unfolding next read_space next_arg end_of_word
next-end_of_word name [] = refl
next-end_of_word name (head ∷ rest) = refl

module _ (conv : Conversions) (options : List OptionName) where
  unrecognised_word :
      (ast : List ArgNode) (name : List ℕ) (rest : List (List ℕ))
      → parse_unrecognised conv ast name (end_of_word rest)
        ≡ parsed (end_of_word rest) (add_node ast (file_node name))
  unfolding parse_unrecognised is_equals_sign end_of_word
  unrecognised_word ast name [] = refl
  unrecognised_word ast name (head ∷ rest) = refl

  -- a word that is no option becomes a node
  options-file :
      (ast : List ArgNode) (others : List OptionName) (name : List ℕ) (rest : List (List ℕ))
      → IsNoOption others name
      → parse_options conv ast others name (reader (some []) rest (word_token name))
        ≡ some (parsed (end_of_word rest) (add_node ast (file_node name)))
  unfolding parse_options
  options-file ast [] name rest h = ap some (
      ap (parse_unrecognised conv ast name) (next-end_of_word name rest)
      ∙ unrecognised_word ast name rest)
  options-file ast (option ∷ others) name rest h = rw h.0 (options-file ast others name rest h.1)

  module _ (fuel : ℕ) (ast : List ArgNode) (name : List ℕ) (rest : List (List ℕ))
      (h : IsNoOption options name) where
    word_round :
        parse_loop conv options (suc fuel) (reader (some []) rest (word_token name)) ast
        ≡ parse_loop conv options fuel (end_of_word rest) (add_node ast (file_node name))
    unfolding parse_argument is_space is_arg is_valid
    word_round =
        loop_round conv options fuel (reader (some []) rest (word_token name)) ast refl
        ∙ ap (after_argument (parse_loop conv options fuel)) (options-file ast options name rest h)

    parse_gap :
        IsPlain name
        → parse_options conv ast options
            (next (reader (some name) rest gap)).token.value_
            (next (reader (some name) rest gap))
          ≡ some (parsed (end_of_word rest) (add_node ast (file_node name)))
    parse_gap plain = rw (next-plain name rest gap plain) (options-file ast options name rest h)

    gap_round :
        IsPlain name
        → parse_loop conv options (suc fuel) (reader (some name) rest gap) ast
          ≡ parse_loop conv options fuel (end_of_word rest) (add_node ast (file_node name))
    unfolding parse_argument is_space is_arg is_valid
    gap_round plain =
        loop_round conv options fuel (reader (some name) rest gap) ast refl
        ∙ ap (after_argument (parse_loop conv options fuel)) (parse_gap plain)

  loop_end :
      (fuel : ℕ) (ast : List ArgNode)
      → parse_loop conv options (suc fuel) (end_of_word []) ast ≡ ok (some (ast ++ []))
  unfolding parse_loop is_valid end_of_word
  loop_end fuel ast = ap (λ tree. ok (some tree)) (sym (append-nil ast))

  one_more :
      (ast : List ArgNode) (head : List ℕ) (rest : List (List ℕ))
      → ◌≡◌ {A = Result (Option (List ArgNode))}
          (ok (some (add_node ast (file_node head) ++ map file_node rest)))
          (ok (some (ast ++ map file_node (head ∷ rest))))
  unfolding add_node
  one_more ast head rest =
      ap (λ tree. ok (some tree)) (append_assoc ast (file_node head ∷ []) (map file_node rest))

  pub letters-length :
      (first : List ℕ) (rest : List (List ℕ)) → Common.length rest < letters (first ∷ rest)
  unfolding letters
  letters-length first [] = omega arith
  letters-length first (head ∷ rest) = omega (arith, letters-length head rest)

  -- The loop behind a word: the words that are left become nodes, in their order.
  pub loop-files :
      (fuel : ℕ) (ast : List ArgNode) (rest : List (List ℕ))
      → AreFiles options rest
      → Common.length rest < fuel
      → parse_loop conv options fuel (end_of_word rest) ast ≡ ok (some (ast ++ map file_node rest))
  unfolding end_of_word
  loop-files zero ast rest h le = elim le [ ]
  loop-files (suc fuel) ast [] h le = loop_end fuel ast
  loop-files (suc fuel) ast (head ∷ rest) h le =
      gap_round fuel ast head rest h.0.1 h.0.0
      ∙ (loop-files fuel (add_node ast (file_node head)) rest h.1 (omega arith)
          ∙ one_more ast head rest)

  -- A command line of words that are no options, none empty or with an equals sign: the tree has the
  -- files in their order.
  pub parse_arguments-files :
      (program first : List ℕ) (rest : List (List ℕ))
      → AreFiles options (first ∷ rest)
      → parse_arguments conv options (program ∷ first ∷ rest)
        ≡ ok (some (map file_node (first ∷ rest)))
  unfolding parse_arguments add_node
  parse_arguments-files program first rest h = rw (tokenize-plain first rest h.0.0) (
      word_round (letters (first ∷ rest)) [] first rest h.0.1
      ∙ loop-files (letters (first ∷ rest)) (file_node first ∷ []) rest h.1
          (letters-length first rest))

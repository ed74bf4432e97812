-- ===== src/Args/Parser/Total.antt =====
-- The parser ends: every argument that it parses uses up a token at least.
use pcat.Common.{
  ℕ, zero, suc, ◌-◌, ◌≤◌, ◌<◌, ◌≡◌, ◌==◌, inl, inr, List, [], ◌∷◌, true, Option, none, some, Result,
  ok, arith, Bool-cases, refl, ◌∙◌,
}
use pcat.Args.{
  Conversions, ArgType, tree, unrecognised, help, version, output_file, async, threads, pinning,
  algorithm, ArgNode, is_same, OptionName, make_threads, make_pinning, make_algorithm,
  is_valid_algorithm, arg_pinning,
}
use pcat.Args.Tokenizer.{is_valid, Tokenizer, next, next_arg, no_token, tokenize}
use pcat.Args.Tokenizer.Stream.{
  letters, unread, size, size-next_le, size-next_valid, size-next-unread,
}
use pcat.Args.Parser.{
  Made, is_unknown, is_arg, after_argument, is_space, is_equals_sign, parse_parameter, value_of,
  parse_output_file, parse_algorithm, Parsed, refused, parsed, parse_threads, parse_pinning,
  switch_node, make_node, parse_unrecognised, parse_options, parse_argument, parse_loop,
  parse_arguments, add_made,
}

-- A node is made with at most `n` left to read.
abbrev MadeIn : ℕ → Made → Type 0
MadeIn n none = Unit
MadeIn n (some (node, lexer)) = size lexer ≤ n

abbrev ParsedIn : ℕ → Option Parsed → Type 0
ParsedIn n none = Unit
ParsedIn n (some (refused lexer)) = Unit
ParsedIn n (some (parsed lexer ast)) = size lexer ≤ n

twice : (lexer : Tokenizer) → size (next (next lexer)) ≤ size lexer
twice lexer = omega (arith, size-next_le lexer, size-next_le (next lexer))

output_file-MadeIn : (lexer : Tokenizer) → MadeIn (size lexer) (parse_output_file lexer)
unfolding parse_output_file
output_file-MadeIn lexer = elim (Bool-cases (is_unknown lexer.token.type_)) [
  | inl e ↦ rw e tt
  | inr e ↦ rw e (twice lexer)
]

algorithm-MadeIn : (lexer : Tokenizer) → MadeIn (size lexer) (parse_algorithm lexer)
unfolding parse_algorithm
algorithm-MadeIn lexer = elim (Bool-cases (is_unknown lexer.token.type_)) [
  | inl e ↦ rw e tt
  | inr e ↦ elim (Bool-cases (is_valid_algorithm (make_algorithm (value_of lexer)))) [
    | inl v ↦ rw (e, v) (twice lexer)
    | inr v ↦ rw (e, v) tt
  ]
]

module _ (conv : Conversions) where
  threads-MadeIn : (lexer : Tokenizer) → MadeIn (size lexer) (parse_threads conv lexer)
  unfolding parse_threads
  threads-MadeIn lexer = elim (Bool-cases (is_unknown lexer.token.type_)) [
    | inl e ↦ rw e tt
    | inr e ↦ elim (Bool-cases (make_threads conv (value_of lexer) == 0)) [
      | inl z ↦ rw (e, z) tt
      | inr z ↦ rw (e, z) (twice lexer)
    ]
  ]

  cores-MadeIn :
      (cores : List ℕ) (lexer : Tokenizer)
      → MadeIn (size lexer) (elim cores [
        | [] ↦ none
        | core ∷ others ↦ some (arg_pinning (core ∷ others), next (next lexer))
      ])
  cores-MadeIn [] lexer = tt
  cores-MadeIn (core ∷ others) lexer = twice lexer

  pinning-MadeIn : (lexer : Tokenizer) → MadeIn (size lexer) (parse_pinning conv lexer)
  unfolding parse_pinning
  pinning-MadeIn lexer = elim (Bool-cases (is_unknown lexer.token.type_)) [
    | inl e ↦ rw e tt
    | inr e ↦ rw e (cores-MadeIn (make_pinning conv (value_of lexer)) lexer)
  ]

  node-MadeIn :
      (wanted : ArgType) (lexer : Tokenizer) → MadeIn (size lexer) (switch_node conv wanted lexer)
  unfolding switch_node
  node-MadeIn help lexer = omega arith
  node-MadeIn version lexer = omega arith
  node-MadeIn output_file lexer = output_file-MadeIn lexer
  node-MadeIn async lexer = omega arith
  node-MadeIn threads lexer = threads-MadeIn lexer
  node-MadeIn pinning lexer = pinning-MadeIn lexer
  node-MadeIn algorithm lexer = algorithm-MadeIn lexer
  node-MadeIn tree lexer = tt
  node-MadeIn unrecognised lexer = tt

  add_made-ParsedIn :
      (ast : List ArgNode) (n : ℕ) (made : Made) → MadeIn n made → ParsedIn n (add_made ast made)
  add_made-ParsedIn ast n none h = tt
  add_made-ParsedIn ast n (some (node, lexer)) h = h

  module _ (ast : List ArgNode) where
    parameter-ParsedIn :
        (argument : List ℕ) (lexer : Tokenizer)
        → ParsedIn (size lexer) (some (parse_parameter conv ast argument lexer))
    unfolding parse_parameter
    parameter-ParsedIn argument lexer = elim (Bool-cases (is_space lexer.token.type_)) [
      | inl e ↦ rw e (omega arith)
      | inr e ↦ rw e (size-next_le lexer)
    ]

    later-ParsedIn :
        (m n : ℕ) (result : Option Parsed) → m ≤ n → ParsedIn m result → ParsedIn n result
    later-ParsedIn m n none le h = tt
    later-ParsedIn m n (some (refused lexer)) le h = tt
    later-ParsedIn m n (some (parsed lexer ast')) le h = omega arith

    unrecognised-ParsedIn :
        (argument : List ℕ) (lexer : Tokenizer)
        → ParsedIn (size lexer) (some (parse_unrecognised conv ast argument lexer))
    unfolding parse_unrecognised
    unrecognised-ParsedIn argument lexer = elim (Bool-cases (is_equals_sign lexer.token.type_)) [
      | inl e ↦ rw e (
          later-ParsedIn (size (next lexer)) (size lexer)
            (some (parse_parameter conv ast argument (next lexer))) (size-next_le lexer)
            (parameter-ParsedIn argument (next lexer)))
      | inr e ↦ rw e (omega arith)
    ]

    options-ParsedIn :
        (options : List OptionName) (argument : List ℕ) (lexer : Tokenizer)
        → ParsedIn (size (next lexer)) (parse_options conv ast options argument lexer)
    unfolding parse_options make_node
    options-ParsedIn [] argument lexer = unrecognised-ParsedIn argument (next lexer)
    options-ParsedIn (option ∷ options) argument lexer =
        elim (Bool-cases (is_same argument option.name)) [
          | inl e ↦ rw e (
              add_made-ParsedIn ast (size (next lexer))
                (switch_node conv option.option_type (next lexer))
                (node-MadeIn option.option_type (next lexer)))
          | inr e ↦ rw e (options-ParsedIn options argument lexer)
        ]

    -- Parsing an argument leaves less to read.
    argument-ParsedIn :
        (options : List OptionName) (lexer : Tokenizer) (n : ℕ)
        → is_valid lexer.token ≡ true
        → size lexer ≤ suc n
        → ParsedIn n (parse_argument conv ast options lexer)
    unfolding parse_argument
    argument-ParsedIn options lexer n valid le = elim (Bool-cases (is_space lexer.token.type_)) [
      | inl e ↦ rw e (
          later-ParsedIn (size (next (next lexer))) n
            (parse_options conv ast options (value_of lexer) (next lexer))
            (omega (arith, size-next_valid lexer valid, size-next_le (next lexer)))
            (options-ParsedIn options (value_of lexer) (next lexer)))
      | inr e ↦ elim (Bool-cases (is_arg lexer.token.type_)) [
        | inl f ↦
            rw (e, f)
              (later-ParsedIn (size (next lexer)) n
                (parse_options conv ast options lexer.token.value_ lexer)
                (omega (arith, size-next_valid lexer valid))
                (options-ParsedIn options lexer.token.value_ lexer))
        | inr f ↦ rw (e, f) tt
      ]
    ]

  tokenize-size :
      (head : List ℕ) (rest : List (List ℕ)) → size (tokenize (head ∷ rest)) ≤ letters (head ∷ rest)
  unfolding tokenize next_arg letters unread
  tokenize-size head rest =
      size-next-unread (record { current = some head; remaining = rest; token = no_token })

  after-total :
      (n : ℕ) (loop : Tokenizer → List ArgNode → Result (Option (List ArgNode)))
      (result : Option Parsed)
      → ParsedIn n result
      → ((lexer : Tokenizer) (ast : List ArgNode)
          → size lexer ≤ n
          → (tree : Option (List ArgNode)) × (loop lexer ast ≡ ok tree))
      → (tree : Option (List ArgNode)) × (after_argument loop result ≡ ok tree)
  after-total n loop none h total = (none, refl)
  after-total n loop (some (refused lexer)) h total = (none, refl)
  after-total n loop (some (parsed lexer ast)) h total = total lexer ast h

  pub loop_round :
      (options : List OptionName) (fuel : ℕ) (lexer : Tokenizer) (ast : List ArgNode)
      → is_valid lexer.token ≡ true
      → parse_loop conv options (suc fuel) lexer ast
        ≡ after_argument (parse_loop conv options fuel) (parse_argument conv ast options lexer)
  unfolding parse_loop
  loop_round options fuel lexer ast valid = rw (valid, parse_loop)

  -- With as much fuel as there is to read the loop ends.
  loop-total :
      (options : List OptionName) (fuel : ℕ) (lexer : Tokenizer) (ast : List ArgNode)
      → size lexer < fuel
      → (tree : Option (List ArgNode)) × (parse_loop conv options fuel lexer ast ≡ ok tree)
  unfolding parse_loop
  loop-total options zero lexer ast h = elim h [ ]
  loop-total options (suc fuel) lexer ast h = elim (Bool-cases (is_valid lexer.token)) [
    | inr done ↦ (some ast, rw (done, parse_loop))
    | inl valid ↦
        let (result, run) =
          after-total (fuel - 1) (parse_loop conv options fuel)
            (parse_argument conv ast options lexer)
            (argument-ParsedIn ast options lexer (fuel - 1) valid (omega arith))
            (λ lexer' ast' le.
              loop-total options fuel lexer' ast' (omega (arith, size-next_valid lexer valid))) in
        (result, loop_round options fuel lexer ast valid ∙ run)
  ]

  -- The parser ends on every command line: it returns a tree, or that there is none.
  pub parse_arguments-total :
      (options : List OptionName) (args : List (List ℕ))
      → (result : Option (List ArgNode)) × (parse_arguments conv options args ≡ ok result)
  unfolding parse_arguments
  parse_arguments-total options [] = (none, refl)
  parse_arguments-total options (program ∷ []) = (none, refl)
  parse_arguments-total options (program ∷ head ∷ rest) =
      loop-total options (suc (letters (head ∷ rest))) (tokenize (head ∷ rest)) []
        (omega (arith, tokenize-size head rest))

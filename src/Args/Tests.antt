-- ===== src/Args/Tests.antt =====
-- Command lines: the program `p`, the options `-o` and `-t`, and files with short names.
use mathlib.Core.List.{cons≢nil}
use pcat.Common.{ℕ, ◌+◌, ◌-◌, ◌*◌, ◌≡◌, refl, List, [], ◌∷◌, true, Option, none, some, ok}
use pcat.Args.{
  Conversions, ArgNode, arg_unrecognised, arg_output_file, arg_threads, output_file, threads,
  OptionName, is_same, make_pinning, add_node, make_threads, is_comma,
}
use pcat.Args.Tokenizer.{
  Token, is_valid, next_arg, is_equals, word, behind_word, read_space, read_text, next, tokenize,
}
use pcat.Args.Tokenizer.Stream.{letters}
use pcat.Args.Tokenizer.Roundtrip.{tokens, spell, tokenize-spell}
use pcat.Args.Parser.{
  is_unknown, is_space, is_arg, is_equals_sign, parse_output_file, parse_threads, switch_node,
  make_node, parse_parameter, parse_unrecognised, parse_options, parse_argument, parse_loop,
  parse_arguments,
}
use pcat.Args.Parser.Total.{parse_arguments-total}
use pcat.Args.Parser.Words.{IsPlain}
use pcat.Args.Parser.Values.{takes_value, is_valued, parse_arguments-value}
use pcat.Args.Parser.Files.{AreFiles, parse_arguments-files}
use pcat.Args.Pinning.{IsCore, join, make_pinning-join}

-- decimal digits, as far as the tests need them
digits : ℕ → List ℕ → ℕ
digits n [] = n
digits n (c ∷ text) = digits (n * 10 + (c - 48)) text

abbrev decimal : Conversions
decimal = record { is_dec = λ text. true; from_dec = digits 0 }

abbrev short_options : List OptionName
short_options =
    record { name = 45 ∷ 111 ∷ []; option_type = output_file }
    ∷ record { name = 45 ∷ 116 ∷ []; option_type = threads }
    ∷ []

-- `p -o x a=b y -t=3`: the text behind the equals sign of `a=b` is kept apart.
parse_mixed :
    parse_arguments decimal short_options (
      (112 ∷ [])
      ∷ (45 ∷ 111 ∷ [])
      ∷ (120 ∷ [])
      ∷ (97 ∷ 61 ∷ 98 ∷ [])
      ∷ (121 ∷ [])
      ∷ (45 ∷ 116 ∷ 61 ∷ 51 ∷ [])
      ∷ [])
    ≡ ok (
        some (
          arg_output_file (120 ∷ [])
          ∷ arg_unrecognised (97 ∷ []) (98 ∷ [])
          ∷ arg_unrecognised (121 ∷ []) []
          ∷ arg_threads 3
          ∷ []))
unfolding parse_arguments parse_loop parse_argument parse_options parse_unrecognised parse_parameter
    make_node switch_node parse_output_file parse_threads make_threads is_unknown is_space is_arg
    is_equals_sign is_same add_node tokenize next next_arg read_space read_text word behind_word
    is_equals is_valid letters digits
parse_mixed = refl

-- `p =x`: an argument that begins with an equals sign is refused.
parse_sign_first :
    parse_arguments decimal short_options ((112 ∷ []) ∷ (61 ∷ 120 ∷ []) ∷ []) ≡ ok none
unfolding parse_arguments parse_loop parse_argument is_space is_arg tokenize next next_arg
    read_space read_text is_equals is_valid letters
parse_sign_first = refl

parse_arguments-total_example :
    (result : Option (List ArgNode)) × (parse_arguments decimal short_options
        ((112 ∷ []) ∷ (97 ∷ []) ∷ [])
      ≡ ok result)
parse_arguments-total_example =
    parse_arguments-total decimal short_options ((112 ∷ []) ∷ (97 ∷ []) ∷ [])

tokenize-spell_example :
    (ts : List Token) × (tokens
        (letters ((97 ∷ 61 ∷ 98 ∷ []) ∷ (121 ∷ []) ∷ []))
        (tokenize ((97 ∷ 61 ∷ 98 ∷ []) ∷ (121 ∷ []) ∷ []))
      ≡ ok ts)
    × (spell ts ≡ (97 ∷ 61 ∷ 98 ∷ []) ∷ (121 ∷ []) ∷ [])
tokenize-spell_example = tokenize-spell (97 ∷ 61 ∷ 98 ∷ []) ((121 ∷ []) ∷ [])

option-IsPlain : IsPlain (45 ∷ 111 ∷ [])
unfolding is_equals
option-IsPlain = (λ e. cons≢nil e, (refl, (refl, tt)))

takes_output : takes_value short_options (45 ∷ 111 ∷ []) ≡ true
unfolding takes_value is_same is_valued
takes_output = refl

parse_arguments-value_example :
    parse_arguments decimal short_options
      ((112 ∷ []) ∷ (45 ∷ 111 ∷ []) ∷ (120 ∷ []) ∷ (121 ∷ []) ∷ [])
    ≡ parse_arguments decimal short_options
        ((112 ∷ []) ∷ (45 ∷ 111 ∷ 61 ∷ 120 ∷ []) ∷ (121 ∷ []) ∷ [])
parse_arguments-value_example =
    parse_arguments-value decimal short_options (112 ∷ []) (45 ∷ 111 ∷ []) (120 ∷ [])
      ((121 ∷ []) ∷ []) option-IsPlain takes_output

files-AreFiles : AreFiles short_options ((120 ∷ []) ∷ (121 ∷ []) ∷ [])
unfolding is_equals is_same
files-AreFiles = (
  (((λ e. cons≢nil e), (refl, tt)), (refl, (refl, tt))),
  ((((λ e. cons≢nil e), (refl, tt)), (refl, (refl, tt))), tt),
)

parse_arguments-files_example :
    parse_arguments decimal short_options ((112 ∷ []) ∷ (120 ∷ []) ∷ (121 ∷ []) ∷ [])
    ≡ ok (some (arg_unrecognised (120 ∷ []) [] ∷ arg_unrecognised (121 ∷ []) [] ∷ []))
parse_arguments-files_example =
    parse_arguments-files decimal short_options (112 ∷ []) (120 ∷ []) ((121 ∷ []) ∷ [])
      files-AreFiles

twelve-IsCore : IsCore decimal (49 ∷ 50 ∷ [])
unfolding is_comma
twelve-IsCore = record {
  some_text = λ e. cons≢nil e;
  no_comma = (refl, (refl, tt));
  decimal = refl;
}

make_pinning-join_example :
    make_pinning decimal (join ((49 ∷ 50 ∷ []) ∷ (49 ∷ 50 ∷ []) ∷ []))
    ≡ digits 0 (49 ∷ 50 ∷ []) ∷ digits 0 (49 ∷ 50 ∷ []) ∷ []
make_pinning-join_example =
    make_pinning-join decimal (49 ∷ 50 ∷ []) ((49 ∷ 50 ∷ []) ∷ []) twelve-IsCore (twelve-IsCore, tt)

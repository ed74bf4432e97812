-- ===== src/Program/Run.antt =====
-- What `main` does with an output and input files.
use mathlib.Core.List.{cons≢nil}
use pcat.Common.{
  ℕ, zero, suc, ◌+◌, ◌-◌, ◌%◌, ◌^◌, ◌<◌, ◌≤◌, ◌≡◌, ◌≢◌, ◌∙◌, ap, refl, List, [], ◌∷◌, ◌++◌, map,
  Bool, true, false, Option, none, some, Result, ok, sum, arith, All, ◌>>=◌, not, ◌==◌,
}
use pcat.Common
use pcat.Bytes.{lengths}
use pcat.Args.{
  Conversions, ArgNode, arg_output_file, output_file, block_linear, is_same, add_node, find,
  node_type, is_valid_algorithm, algorithm, version, help, async, ArgType, is_type, unrecognised,
}
use pcat.Args.Tokenizer.{Tokenizer, next, is_valid, is_equals}
use pcat.Args.Tokenizer.Stream.{letters, reader}
use pcat.Args.Parser.{
  is_unknown, is_space, is_arg, parse_output_file, switch_node, make_node, parsed, parse_options,
  parse_loop, parse_arguments, after_argument,
}
use pcat.Args.Parser.Words.{IsPlain, word_token, gap, next-plain, next-gap, tokenize-plain}
use pcat.Args.Parser.Values.{arg_round}
use pcat.Args.Parser.Files.{
  AreFiles, file_node, end_of_word, next-end_of_word, loop-files, letters-length,
}
use pcat.Program.{
  options, System, resize, is_found, accumulate, total_size, copies, selected, chunked_copy,
  check_file, add_file, gather_files, open_output_file, plan_files, plan_output, plan_args,
  plan_parsed, main,
}

-- "-o"
abbrev pub output_option : List ℕ
output_option = 45 ∷ 111 ∷ []

option-IsPlain : IsPlain output_option
unfolding is_equals
option-IsPlain = (λ e. cons≢nil e, (refl, (refl, tt)))

module _ (conv : Conversions) (text : List ℕ) (rest : List (List ℕ)) (plain : IsPlain text) where
  abbrev behind_option : Tokenizer
  behind_option = reader (some []) (text ∷ rest) (word_token output_option)

  output_node :
      switch_node conv output_file (reader (some text) rest gap)
      ≡ some (arg_output_file text, end_of_word rest)
  unfolding switch_node parse_output_file is_unknown
  output_node =
      ap (λ l. some (arg_output_file l.token.value_, next l)) (next-plain text rest gap plain)
      ∙ ap (λ l. some (arg_output_file text, l)) (next-end_of_word text rest)

  output-options :
      parse_options conv [] options output_option behind_option
      ≡ some (parsed (end_of_word rest) (arg_output_file text ∷ []))
  unfolding parse_options is_same make_node add_node
  output-options = rw (next-gap text rest (word_token output_option), output_node) refl

  output_round :
      (fuel : ℕ)
      → parse_loop conv options (suc fuel) behind_option []
        ≡ parse_loop conv options fuel (end_of_word rest) (arg_output_file text ∷ [])
  unfolding is_arg is_space is_valid
  output_round fuel =
      arg_round conv [] options fuel behind_option refl refl refl
      ∙ ap (after_argument (parse_loop conv options fuel)) output-options

  -- `-o`, the output and the files
  parse_arguments-output :
      (program : List ℕ)
      → AreFiles options rest
      → parse_arguments conv options (program ∷ output_option ∷ text ∷ rest)
        ≡ ok (some (arg_output_file text ∷ map file_node rest))
  unfolding parse_arguments
  parse_arguments-output program files =
      rw (tokenize-plain output_option (text ∷ rest) option-IsPlain) (
        output_round (letters (output_option ∷ text ∷ rest))
        ∙ loop-files conv options (letters (output_option ∷ text ∷ rest))
            (arg_output_file text ∷ []) rest files
            (omega (arith, letters-length conv options output_option (text ∷ rest))))

-- Each file can be opened and locked, is not empty, and has these contents.
abbrev pub Opened : System → List (List ℕ) → List (List ℕ) → Type 0
Opened system [] [] = Unit
Opened system [] (content ∷ contents) = ⊥
Opened system (name ∷ names) [] = ⊥
Opened system (name ∷ names) (content ∷ contents) =
    (system.open_file name ≡ some content)
    × (0 < Common.length content)
    × (system.lock_file name ≡ true)
    × Opened system names contents

pub accumulate-sum :
    (count : ℕ) (contents : List (List ℕ))
    → count + sum (lengths contents) < 2 ^ 64
    → accumulate count contents ≡ count + sum (lengths contents)
unfolding accumulate
accumulate-sum count [] h = omega arith
accumulate-sum count (file ∷ files) h =
    let small : (count + Common.length file) % 2 ^ 64 ≡ count + Common.length file = omega arith in
    rw small (omega (arith, accumulate-sum (count + Common.length file) files (omega arith)))

check_file-some :
    (system : System) (name content : List ℕ)
    → system.open_file name ≡ some content
    → 0 < Common.length content
    → system.lock_file name ≡ true
    → check_file system name ≡ some content
unfolding check_file
check_file-some system name content here pos lock =
    let filled : (Common.length content == 0) ≡ false = ground arith in
    rw (here, check_file, filled, lock)

gather_files-Opened :
    (system : System) (names contents : List (List ℕ))
    → Opened system names contents
    → gather_files system (map file_node names) ≡ some contents
unfolding gather_files add_file
gather_files-Opened system [] [] opened = refl
gather_files-Opened system [] (content ∷ contents) opened = absurd opened
gather_files-Opened system (name ∷ names) [] opened = absurd opened
gather_files-Opened system (name ∷ names) (content ∷ contents) (here, pos, lock, opened) =
    rw
      (
        check_file-some system name content here pos lock,
        gather_files-Opened system names contents opened,
      )
      refl

-- no option among the files
find-files :
    (wanted : ArgType) (names : List (List ℕ))
    → is_type unrecognised wanted ≡ false
    → find (map file_node names) wanted ≡ none
unfolding find node_type
find-files wanted [] h = refl
find-files wanted (name ∷ names) h = rw h (find-files wanted names h)

module _ (system : System) (name old : List ℕ) (names contents : List (List ℕ))
    (opened : Opened system names contents) (created : system.open_output name ≡ some old)
    (resized : system.resize_output name (sum (lengths contents)) ≡ true)
    (small : sum (lengths contents) < 2 ^ 64) where
  abbrev args : List ArgNode
  args = arg_output_file name ∷ map file_node names

  total_size-sum : total_size contents ≡ sum (lengths contents)
  unfolding total_size
  total_size-sum = omega (arith, accumulate-sum 0 contents (omega arith))

  output-Opened : open_output_file system name contents ≡ some (resize (sum (lengths contents)) old)
  unfolding open_output_file
  output-Opened = rw (created, open_output_file, total_size-sum, resized)

  args-Opened : gather_files system args ≡ some contents
  unfolding gather_files
  args-Opened = gather_files-Opened system names contents opened

  copy-Opened :
      (out : List ℕ) → chunked_copy args contents out ≡ copies block_linear true contents out
  unfolding chunked_copy selected is_found is_valid_algorithm find node_type
  copy-Opened out = rw (find-files algorithm names refl, find-files async names refl) refl

  files-Opened :
      plan_files system args name
      ≡ copies block_linear true contents (resize (sum (lengths contents)) old)
  unfolding plan_files
  files-Opened =
      rw (args-Opened, plan_files, output-Opened)
        (copy-Opened (resize (sum (lengths contents)) old))

  plan-Opened :
      plan_args system args
      ≡ copies block_linear true contents (resize (sum (lengths contents)) old)
  unfolding plan_args plan_output is_found find node_type
  plan-Opened = rw (find-files version names refl, find-files help names refl) files-Opened

-- The command line `-o`, an output and files: for an output and files whose names are no options, not
-- empty and without an equals sign, files that can be opened and locked and are not empty, of less
-- than 2^64 bytes in all, and an output that can be opened and resized to their length, `main` copies
-- the contents of the files, in their order, by the blockLinear algorithm and with `sync`, into the
-- output resized to the total length.
pub main-copies :
    (system : System) (conv : Conversions) (program name old : List ℕ)
    (names contents : List (List ℕ))
    → IsPlain name
    → AreFiles options names
    → Opened system names contents
    → system.open_output name ≡ some old
    → system.resize_output name (sum (lengths contents)) ≡ true
    → sum (lengths contents) < 2 ^ 64
    → main system conv (program ∷ output_option ∷ name ∷ names)
      ≡ ok (copies block_linear true contents (resize (sum (lengths contents)) old))
unfolding main plan_parsed
main-copies system conv program name old names contents plain files opened created resized small =
    rw
      (
        parse_arguments-output conv name names plain program files,
        plan-Opened system name old names contents opened created resized small,
      )
      refl

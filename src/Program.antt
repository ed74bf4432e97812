-- ===== src/Program.antt =====
-- src/pcat.cxx: the command line's options, and `main` up to the copy. The files that can be opened, and
-- the answers of the system, are parameters; the contents of a file stand for its descriptor.
pub mod Exit
pub mod Ready
pub mod Run
pub mod Total
mod Tests
use pcat.Common.{
  ℕ, zero, suc, ◌+◌, ◌-◌, ◌%◌, ◌^◌, ◌==◌, ◌&&◌, not, if◌then◌else◌, List, [], ◌∷◌, ◌++◌, Bool, true,
  false, Option, none, some, Result, ok, err, ◌>>=◌, take, replicate,
}
use pcat.Common
use pcat.Args.{
  Conversions, ArgType, help, version, output_file, async, threads, pinning, algorithm, ArgNode,
  arg_unrecognised, arg_output_file, arg_threads, arg_pinning, arg_algorithm, arg_help, arg_version,
  arg_async, Algorithm, block_linear, is_valid_algorithm, OptionName, find,
}
use pcat.Args.Parser.{parse_arguments}

-- the table `options`
abbrev pub options : List OptionName
options =
    record {
      name = (45 ∷ 45 ∷ 118 ∷ 101 ∷ 114 ∷ 115 ∷ 105 ∷ 111 ∷ 110 ∷ []);
      option_type = version;
    }
    ∷ record { name = (45 ∷ 45 ∷ 104 ∷ 101 ∷ 108 ∷ 112 ∷ []); option_type = help }
    ∷ record { name = (45 ∷ 104 ∷ []); option_type = help }
    ∷ record {
      name = (45 ∷ 45 ∷ 111 ∷ 117 ∷ 116 ∷ 112 ∷ 117 ∷ 116 ∷ []);
      option_type = output_file;
    }
    ∷ record { name = (45 ∷ 111 ∷ []); option_type = output_file }
    ∷ record { name = (45 ∷ 45 ∷ 110 ∷ 111 ∷ 45 ∷ 115 ∷ 121 ∷ 110 ∷ 99 ∷ []); option_type = async }
    ∷ record { name = (45 ∷ 45 ∷ 97 ∷ 115 ∷ 121 ∷ 110 ∷ 99 ∷ []); option_type = async }
    ∷ record {
      name = (45 ∷ 45 ∷ 116 ∷ 104 ∷ 114 ∷ 101 ∷ 97 ∷ 100 ∷ 115 ∷ []);
      option_type = threads;
    }
    ∷ record { name = (45 ∷ 116 ∷ []); option_type = threads }
    ∷ record {
      name = (45 ∷ 45 ∷ 99 ∷ 111 ∷ 114 ∷ 101 ∷ 45 ∷ 112 ∷ 105 ∷ 110 ∷ 115 ∷ []);
      option_type = pinning;
    }
    ∷ record { name = (45 ∷ 99 ∷ []); option_type = pinning }
    ∷ record {
      name = (45 ∷ 45 ∷ 97 ∷ 108 ∷ 103 ∷ 111 ∷ 114 ∷ 105 ∷ 116 ∷ 104 ∷ 109 ∷ []);
      option_type = algorithm;
    }
    ∷ []

-- What the system answers: the contents of a file that can be opened and examined, whether its lock is
-- granted, the contents of the output, which is created if it is missing, and whether it can be
-- resized.
pub record System : Type 0 where
  pub open_file : List ℕ → Option (List ℕ)
  pub lock_file : List ℕ → Bool
  pub open_output : List ℕ → Option (List ℕ)
  pub resize_output : List ℕ → ℕ → Bool

-- what `ftruncate` leaves of a file
unfoldable pub resize : ℕ → List ℕ → List ℕ
resize n content = take n content ++ replicate (n - Common.length content) 0

unfoldable pub is_found : Option ArgNode → Bool
is_found none = false
is_found (some node) = true

-- the lambda of totalSize, in `std::size_t`
unfoldable pub accumulate : ℕ → List (List ℕ) → ℕ
accumulate count [] = count
accumulate count (file ∷ files) = accumulate ((count + Common.length file) % 2 ^ 64) files

unfoldable pub total_size : List (List ℕ) → ℕ
total_size files = accumulate 0 files

-- What `main` does: exit with a code, or copy by an algorithm, with or without `sync`, the contents of
-- the input files into the output.
pub data Plan : Type 0 where
  exits : ℕ → Plan
  copies : Algorithm → Bool → List (List ℕ) → List ℕ → Plan

-- the choice of chunkedCopy
unfoldable pub selected : Option ArgNode → Algorithm
selected none = block_linear
selected (some (arg_algorithm chosen)) = chosen
selected (some (arg_unrecognised argument parameter)) = block_linear
selected (some (arg_output_file name)) = block_linear
selected (some (arg_threads count)) = block_linear
selected (some (arg_pinning cores)) = block_linear
selected (some arg_help) = block_linear
selected (some arg_version) = block_linear
selected (some arg_async) = block_linear

unfoldable pub chunked_copy : List ArgNode → List (List ℕ) → List ℕ → Plan
chunked_copy args contents out =
    if is_valid_algorithm (selected (find args algorithm))
    then copies (selected (find args algorithm)) (not (is_found (find args async))) contents out
    else exits 1

module _ (system : System) where
  unfoldable pub check_file : List ℕ → Option (List ℕ)
  check_file name = elim (system.open_file name) [
    | none ↦ none
    | some content ↦
        if Common.length content == 0
        then none
        else (if not (system.lock_file name) then none else some content)
  ]

  -- a file that is valid, before the others
  unfoldable pub add_file : Option (List ℕ) → Option (List (List ℕ)) → Option (List (List ℕ))
  add_file none others = none
  add_file (some content) none = none
  add_file (some content) (some others) = some (content ∷ others)

  -- `none` where gatherFiles returns false
  unfoldable pub gather_files : List ArgNode → Option (List (List ℕ))
  gather_files [] = some []
  gather_files (arg_unrecognised argument parameter ∷ args) =
      add_file (check_file argument) (gather_files args)
  gather_files (arg_output_file name ∷ args) = gather_files args
  gather_files (arg_threads count ∷ args) = gather_files args
  gather_files (arg_pinning cores ∷ args) = gather_files args
  gather_files (arg_algorithm chosen ∷ args) = gather_files args
  gather_files (arg_help ∷ args) = gather_files args
  gather_files (arg_version ∷ args) = gather_files args
  gather_files (arg_async ∷ args) = gather_files args

  -- the output of that name, resized; `none` where openOutputFile returns false
  unfoldable pub open_output_file : List ℕ → List (List ℕ) → Option (List ℕ)
  open_output_file name contents = elim (system.open_output name) [
    | none ↦ none
    | some content ↦
        if not (system.resize_output name (total_size contents))
        then none
        else some (resize (total_size contents) content)
  ]

  -- the chain of `else if` behind the search for the output's name
  unfoldable pub plan_files : List ArgNode → List ℕ → Plan
  plan_files args name = elim (gather_files args) [
    | none ↦ exits 1
    | some contents ↦ elim (open_output_file name contents) [
      | none ↦ exits 1
      | some out ↦ chunked_copy args contents out
    ]
  ]

  -- The node that `find` gives for the output file, and its name.
  unfoldable pub plan_output : List ArgNode → Option ArgNode → Plan
  plan_output args (some (arg_output_file name)) = plan_files args name
  plan_output args none = exits 1
  plan_output args (some (arg_unrecognised argument parameter)) = exits 1
  plan_output args (some (arg_threads count)) = exits 1
  plan_output args (some (arg_pinning cores)) = exits 1
  plan_output args (some (arg_algorithm chosen)) = exits 1
  plan_output args (some arg_help) = exits 1
  plan_output args (some arg_version) = exits 1
  plan_output args (some arg_async) = exits 1

  unfoldable pub plan_args : List ArgNode → Plan
  plan_args args =
      if is_found (find args version) && is_found (find args help)
      then exits 1
      else (if is_found (find args version)
          then exits 0
          else (if is_found (find args help)
              then exits 0
              else plan_output args (find args output_file)))

  -- The command line that the parser refuses, or its tree.
  unfoldable pub plan_parsed : Option (List ArgNode) → Plan
  plan_parsed none = exits 1
  plan_parsed (some args) = plan_args args

  unfoldable pub main : Conversions → List (List ℕ) → Result Plan
  main conv arg_list = do parsed ← parse_arguments conv options arg_list; ok (plan_parsed parsed)

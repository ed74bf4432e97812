-- ===== src/Program/Total.antt =====
-- What `main` decides on every command line, and why.
use pcat.Common.{ℕ, ◌≡◌, ◌≢◌, ◌⊎◌, List, Bool, true, false, Option, none, some, not}
use pcat.Args.{
  ArgNode, Algorithm, arg_unrecognised, arg_output_file, arg_threads, arg_pinning, arg_algorithm,
  arg_help, arg_version, arg_async, algorithm, version, help, async, output_file, find,
  is_valid_algorithm,
}
use pcat.Program.{System, is_found, Plan, exits, copies, selected, gather_files, open_output_file}

-- Why `main` exits with 1 behind the parser's answer.
pub data IsRefused (system : System) (parsed : Option (List ArgNode)) : Type 0 where
  not_parsed : parsed ≡ none → IsRefused system parsed
  version_and_help :
      (args : List ArgNode)
      → parsed ≡ some args
      → is_found (find args version) ≡ true
      → is_found (find args help) ≡ true
      → IsRefused system parsed
  no_output :
      (args : List ArgNode)
      → parsed ≡ some args
      → ((name : List ℕ) → find args output_file ≢ some (arg_output_file name))
      → IsRefused system parsed
  file_invalid :
      (args : List ArgNode)
      → parsed ≡ some args
      → gather_files system args ≡ none
      → IsRefused system parsed
  output_invalid :
      (args : List ArgNode) (name : List ℕ) (contents : List (List ℕ))
      → parsed ≡ some args
      → find args output_file ≡ some (arg_output_file name)
      → gather_files system args ≡ some contents
      → open_output_file system name contents ≡ none
      → IsRefused system parsed
  algorithm_invalid :
      (args : List ArgNode)
      → parsed ≡ some args
      → is_valid_algorithm (selected (find args algorithm)) ≡ false
      → IsRefused system parsed

-- One of the version and the help text is asked for.
abbrev pub AsksText : List ArgNode → Type 0
AsksText args =
    ((is_found (find args version) ≡ true) × (is_found (find args help) ≡ false))
    ⊎ ((is_found (find args version) ≡ false) × (is_found (find args help) ≡ true))

-- What `main` copies is what the command line names, opened, by the algorithm that it selects.
pub record IsChosen (system : System) (parsed : Option (List ArgNode)) (chosen : Algorithm)
    (is_sync : Bool) (contents : List (List ℕ)) (out : List ℕ) : Type 0 where
  pub args : List ArgNode
  pub name : List ℕ
  pub tree : parsed ≡ some args
  pub no_version : is_found (find args version) ≡ false
  pub no_help : is_found (find args help) ≡ false
  pub named : find args output_file ≡ some (arg_output_file name)
  pub gathered : gather_files system args ≡ some contents
  pub opened : open_output_file system name contents ≡ some out
  pub selects : chosen ≡ selected (find args algorithm)
  pub is_valid : is_valid_algorithm chosen ≡ true
  pub syncs : is_sync ≡ not (is_found (find args async))

-- Exit 0 for the version or the help text, exit 1 for one of the reasons, or the copy that is asked for.
abbrev pub IsDecided : System → Option (List ArgNode) → Plan → Type 0
IsDecided system parsed (exits code) =
    ((code ≡ 0) × ((args : List ArgNode) × (parsed ≡ some args) × AsksText args))
    ⊎ ((code ≡ 1) × IsRefused system parsed)
IsDecided system parsed (copies chosen is_sync contents out) =
    IsChosen system parsed chosen is_sync contents out

module _ (system : System) (parsed : Option (List ArgNode)) (args : List ArgNode)
    (tree : parsed ≡ some args) where
  module _ (no_version : is_found (find args version) ≡ false)
      (no_help : is_found (find args help) ≡ false) where
    abbrev is_output : Option ArgNode → Bool
    is_output (some (arg_output_file name)) = true
    is_output none = false
    is_output (some (arg_unrecognised argument parameter)) = false
    is_output (some (arg_threads count)) = false
    is_output (some (arg_pinning cores)) = false
    is_output (some (arg_algorithm chosen)) = false
    is_output (some arg_help) = false
    is_output (some arg_version) = false
    is_output (some arg_async) = false

-- ===== src/Program/Ready.antt =====
-- What `main` has made ready where it decides to copy.
use pcat.Common.{
  ℕ, zero, suc, ◌+◌, ◌-◌, ◌%◌, ◌^◌, ◌<◌, ◌≤◌, ◌≡◌, ◌≢◌, ◌⊎◌, ◌∙◌, ap, sym, refl, List, [], ◌∷◌,
  ◌++◌, Bool, true, false, Bool-cases, inl, inr, Option, none, some, Result, ok, ok-injective,
  subst, sum, arith, All, ◌>>=◌, not, ◌==◌, if◌then◌else◌, take, replicate, min, length-append,
  length-take, length-replicate,
}
use pcat.Common
use pcat.InputFiles.{IsPositive}
use pcat.Bytes.{lengths}
use pcat.Args.{
  Conversions, ArgNode, arg_unrecognised, arg_output_file, algorithm, version, help, output_file,
  find, is_valid_algorithm,
}
use pcat.Args.Parser.Total.{parse_arguments-total}
use pcat.Program.{
  options, System, resize, is_found, total_size, Plan, exits, copies, selected, chunked_copy,
  check_file, add_file, gather_files, open_output_file, plan_files, plan_output, plan_args,
  plan_parsed, main,
}

-- What a decision to copy has to copy: files that are not empty, and an output of their length.
abbrev pub IsReady : Plan → Type 0
IsReady (exits code) = Unit
IsReady (copies chosen is_sync contents out) =
    IsPositive (lengths contents) × (Common.length out ≡ total_size contents)

abbrev AreFilled : Option (List (List ℕ)) → Type 0
AreFilled none = Unit
AreFilled (some contents) = IsPositive (lengths contents)

abbrev IsFilled : Option (List ℕ) → Type 0
IsFilled none = Unit
IsFilled (some content) = 0 < Common.length content

abbrev IsResized : ℕ → Option (List ℕ) → Type 0
IsResized n none = Unit
IsResized n (some out) = Common.length out ≡ n

length-resize : (n : ℕ) (content : List ℕ) → Common.length (resize n content) ≡ n
unfolding resize
length-resize n content =
    let zeros : List ℕ = replicate (n - Common.length content) 0 in
    let count : Common.length zeros ≡ n - Common.length content =
      length-replicate (n - Common.length content) 0 in
    omega (arith, count, length-append (take n content) zeros, length-take n content)

if-IsFilled :
    (is_empty locked : Bool) (content : List ℕ)
    → (is_empty ≡ false → 0 < Common.length content)
    → IsFilled (if is_empty then none else (if not locked then none else some content))
if-IsFilled true locked content h = tt
if-IsFilled false true content h = h refl
if-IsFilled false false content h = tt

module _ (system : System) where
  opened-IsFilled :
      (name : List ℕ) (opened : Option (List ℕ))
      → IsFilled (elim opened [
        | none ↦ none
        | some content ↦
            if Common.length content == 0
            then none
            else (if not (system.lock_file name) then none else some content)
      ])
  opened-IsFilled name none = tt
  opened-IsFilled name (some content) =
      if-IsFilled (Common.length content == 0) (system.lock_file name) content λ e. ground arith

  add_file-AreFilled :
      (file : Option (List ℕ)) (others : Option (List (List ℕ)))
      → IsFilled file
      → AreFilled others
      → AreFilled (add_file system file others)
  unfolding add_file
  add_file-AreFilled none others h k = tt
  add_file-AreFilled (some content) none h k = tt
  add_file-AreFilled (some content) (some others) h k = (h, k)

  gather_files-AreFilled : (args : List ArgNode) → AreFilled (gather_files system args)
  unfolding gather_files check_file
  gather_files-AreFilled [] = tt
  gather_files-AreFilled (arg_unrecognised argument parameter ∷ args) =
      add_file-AreFilled (check_file system argument) (gather_files system args)
        (opened-IsFilled argument (system.open_file argument)) (gather_files-AreFilled args)
  gather_files-AreFilled (_ ∷ args) = gather_files-AreFilled args

  chunked_copy-IsReady :
      (args : List ArgNode) (contents : List (List ℕ)) (out : List ℕ)
      → IsPositive (lengths contents)
      → Common.length out ≡ total_size contents
      → IsReady (chunked_copy args contents out)
  unfolding chunked_copy
  chunked_copy-IsReady args contents out pos whole =
      elim (Bool-cases (is_valid_algorithm (selected (find args algorithm)))) [
        | inl e ↦ rw e (pos, whole)
        | inr e ↦ rw e tt
      ]

  opened-IsResized :
      (name : List ℕ) (n : ℕ) (opened : Option (List ℕ))
      → IsResized n (elim opened [
        | none ↦ none
        | some content ↦ if not (system.resize_output name n) then none else some (resize n content)
      ])
  opened-IsResized name n none = tt
  opened-IsResized name n (some content) = elim (Bool-cases (system.resize_output name n)) [
    | inl e ↦ rw e (length-resize n content)
    | inr e ↦ rw e tt
  ]

  resized-IsReady :
      (args : List ArgNode) (contents : List (List ℕ)) (resized : Option (List ℕ))
      → IsPositive (lengths contents)
      → IsResized (total_size contents) resized
      → IsReady (elim resized [ none ↦ exits 1 | some out ↦ chunked_copy args contents out ])
  resized-IsReady args contents none pos whole = tt
  resized-IsReady args contents (some out) pos whole =
      chunked_copy-IsReady args contents out pos whole

  gathered-IsReady :
      (args : List ArgNode) (name : List ℕ) (gathered : Option (List (List ℕ)))
      → AreFilled gathered
      → IsReady (elim gathered [
        | none ↦ exits 1
        | some contents ↦ elim (open_output_file system name contents) [
          | none ↦ exits 1
          | some out ↦ chunked_copy args contents out
        ]
      ])
  unfolding open_output_file
  gathered-IsReady args name none filled = tt
  gathered-IsReady args name (some contents) filled =
      resized-IsReady args contents (open_output_file system name contents) filled
        (opened-IsResized name (total_size contents) (system.open_output name))

  plan_output-IsReady :
      (args : List ArgNode) (node : Option ArgNode) → IsReady (plan_output system args node)
  unfolding plan_output plan_files
  plan_output-IsReady args (some (arg_output_file name)) =
      gathered-IsReady args name (gather_files system args) (gather_files-AreFilled args)
  plan_output-IsReady args none = tt
  plan_output-IsReady args (some _) = tt

  plan_args-IsReady : (args : List ArgNode) → IsReady (plan_args system args)
  unfolding plan_args
  plan_args-IsReady args = elim (Bool-cases (is_found (find args version))) [
    | inl v ↦ elim (Bool-cases (is_found (find args help))) [
      | inl h ↦ rw (v, h) tt
      | inr h ↦ rw (v, h) tt
    ]
    | inr v ↦ elim (Bool-cases (is_found (find args help))) [
      | inl h ↦ rw (v, h) tt
      | inr h ↦ rw (v, h) (plan_output-IsReady args (find args output_file))
    ]
  ]

  plan_parsed-IsReady : (result : Option (List ArgNode)) → IsReady (plan_parsed system result)
  unfolding plan_parsed
  plan_parsed-IsReady none = tt
  plan_parsed-IsReady (some args) = plan_args-IsReady args

  pub main-IsReady :
      (conv : Conversions) (args : List (List ℕ)) (plan : Plan)
      → main system conv args ≡ ok plan
      → IsReady plan
  unfolding main
  main-IsReady conv args plan e =
      let (result, run) = parse_arguments-total conv options args in
      let decided : main system conv args ≡ ok (plan_parsed system result) = rw (run, main) refl in
      subst IsReady (ok-injective (sym decided ∙ e)) (plan_parsed-IsReady result)

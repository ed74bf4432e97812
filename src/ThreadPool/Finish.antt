-- ===== src/ThreadPool/Finish.antt =====
-- What a pool has done where it has returned.
use mathlib.Core.List.{Permᴰ}
use mathlib.Core.List.Permᴰ
use pcat.Common.{
  ℕ, zero, suc, ◌+◌, ◌-◌, ◌≤◌, ◌<◌, ◌≡◌, ◌≢◌, refl, ap, ap₂, List, [], ◌∷◌, ◌++◌, Bool, true, false,
  Option, some, none, Result, ok, arith, ◌==◌, inl, inr, ◌⊎◌, All, Bool-cases, if◌then◌else◌, sym,
  ◌∙◌, subst, append_assoc, append-nil, replicate,
}
use pcat.Common
use pcat.ThreadPool.{Pc, returned, Shared, keep_first, all_stopped, is_stopped, stopped}
use pcat.ThreadPool.Relation.{Pool, new_pool, Reach}
use pcat.ThreadPool.Tally.{hand, report, gather}
use pcat.ThreadPool.Sequential.{run_all}
use pcat.ThreadPool.Safe.{Safe, Reach-Safe}
use pcat.Copy.Order.{All-perm}
use pcat.ThreadPool.Lock.{Sure}
use pcat.ThreadPool.Answer.{first_error}
use pcat.ThreadPool.Kept.{Kept, Reach-Kept}
use mathlib.Core.List.{Mem, mem-cons_self, mem-cons_of_mem}

first_error-zero :
    (result : ℕ) (codes : List ℕ)
    → first_error result codes ≡ 0
    → (result ≡ 0) × All (λ code. code ≡ 0) codes
unfolding first_error
first_error-zero result [] h = (h, tt)
first_error-zero result (code ∷ codes) h =
    let (first, rest) = first_error-zero (keep_first result code) codes h in
    (ground arith, (ground arith, rest))

first_error-Mem :
    (result : ℕ) (codes : List ℕ)
    → (first_error result codes ≡ result) ⊎ Mem (first_error result codes) codes
unfolding first_error
first_error-Mem result [] = inl refl
first_error-Mem result (code ∷ codes) = elim (first_error-Mem (keep_first result code) codes) [
  | inr later ↦ inr (mem-cons_of_mem code later)
  | inl e ↦ elim (Bool-cases (result == 0)) [
    | inl z ↦ inr (
        let now : keep_first result code ≡ code = ground arith in
        subst (λ c. Mem c (code ∷ codes)) (sym (e ∙ now)) mem-cons_self)
    | inr nz ↦ inl (ground arith)
  ]
]

length-zero : {A : Type 0} (xs : List A) → Common.length xs ≡ 0 → xs ≡ []
length-zero [] h = refl
length-zero (x ∷ xs) h = ground arith

module _ {Job : Type 0} where
  all_stopped-hand :
      (workers : List (Pc Job)) → all_stopped workers ≡ true → gather hand workers ≡ []
  unfolding all_stopped gather hand is_stopped
  all_stopped-hand [] h = refl
  all_stopped-hand (stopped ∷ workers) h = all_stopped-hand workers h
  all_stopped-hand (_ ∷ workers) h = ground arith

  all_stopped-report :
      (workers : List (Pc Job)) → all_stopped workers ≡ true → gather report workers ≡ []
  unfolding all_stopped gather report is_stopped
  all_stopped-report [] h = refl
  all_stopped-report (stopped ∷ workers) h = all_stopped-report workers h
  all_stopped-report (_ ∷ workers) h = ground arith

  all_stopped-Sure :
      (finished : Bool) (n : ℕ) (workers : List (Pc Job))
      → 0 < Common.length workers
      → all_stopped workers ≡ true
      → All (Sure finished n) workers
      → n ≡ 0
  unfolding all_stopped is_stopped
  all_stopped-Sure finished n [] some_worker h sure = ground arith
  all_stopped-Sure finished n (stopped ∷ workers) some_worker h sure = sure.0.1
  all_stopped-Sure finished n (_ ∷ workers) some_worker h sure = ground arith

module _ {Job Out : Type 0} (unset : Job) (invoke : Job → Out → Result (Out × ℕ)) where
  -- What the run of a pool that has returned amounts to: the jobs `ran` one after another, in some
  -- order, those of `rest` not at all.
  pub record Done (all : List Job) (first last : Out) (value : ℕ) (rest : List Job) : Type 0 where
    pub ran : List Job
    pub codes : List ℕ
    pub jobs : Permᴰ all (rest ++ ran)
    pub run : run_all invoke ran first ≡ ok (last, codes)
    pub succeeded : value ≡ 0 → (rest ≡ []) × All (λ code. code ≡ 0) codes
    pub failed : value ≢ 0 → Mem value codes

  returned-parts :
      (all : List Job) (first : Out) (m : Shared Job Out) (workers : List (Pc Job)) (value : ℕ)
      (rest : List Job)
      → Safe m workers (returned value rest)
      → Kept invoke all first m workers (returned value rest)
      → Done all first m.out value rest
  returned-parts all first m workers value rest s k =
      let ended = s.phase.1 in
      let n : m.work.queue_length ≡ 0 =
        all_stopped-Sure m.finished m.work.queue_length workers s.some_worker ended s.sure in
      let work : m.work.queue ≡ [] = length-zero m.work.queue (omega arith) in
      let results : m.results.queue ≡ [] = length-zero m.results.queue (omega (arith, s.phase.2)) in
      let codes : Permᴰ m.codes m.seen =
        subst (Permᴰ m.codes)
          (ap₂ (λ queue reports. m.seen ++ (queue ++ (reports ++ []))) results
              (all_stopped-report workers ended)
            ∙ append-nil m.seen)
          k.codes in
      record {
        ran = m.ran;
        codes = m.codes;
        jobs =
            subst (Permᴰ all)
              (ap₂ (λ queue hands. rest ++ (queue ++ (hands ++ m.ran))) work
                (all_stopped-hand workers ended))
              k.jobs;
        run = k.run;
        succeeded = λ z. (
          k.answer.1 z,
          All-perm (λ code. code ≡ 0) (Permᴰ.symm codes)
              (first_error-zero 0 m.seen (sym k.answer.0 ∙ z)).1,
        );
        failed = λ nz. elim (first_error-Mem 0 m.seen) [
          | inl none_failed ↦ absurd (nz (k.answer.0 ∙ none_failed))
          | inr seen ↦
              Permᴰ.mem (Permᴰ.symm codes) (subst (λ c. Mem c m.seen) (sym k.answer.0) seen)
        ];
      }

  -- A pool with a worker at least that has returned a value, however its threads were interleaved, has
  -- done what its jobs do one after another, in some order: each job once, but for those that were not
  -- queued. If the value is 0 every job was queued and gave 0, and otherwise a job gave the value.
  pub new_pool-Done :
      (count : ℕ) (jobs : List Job) (out : Out) (s : Pool Job Out) (value : ℕ) (rest : List Job)
      → 0 < count
      → Reach unset invoke (new_pool count jobs out) s
      → s.main ≡ returned value rest
      → Done jobs out s.shared.out value rest
  new_pool-Done count jobs out s value rest pos r e =
      returned-parts jobs out s.shared s.workers value rest
        (subst (Safe s.shared s.workers) e (Reach-Safe unset invoke count jobs out s pos r))
        (subst (Kept invoke jobs out s.shared s.workers) e
          (Reach-Kept invoke jobs out unset count s pos r))

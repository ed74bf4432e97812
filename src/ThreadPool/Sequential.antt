-- ===== src/ThreadPool/Sequential.antt =====
-- What a pool stands for: its jobs, run one after another.
use pcat.Common.{
  ℕ, ◌≡◌, refl, ap, sym, ◌∙◌, List, [], ◌∷◌, ◌++◌, Result, ok, ◌>>=◌, ok-injective, bind-ok,
}

module _ {Job Out : Type 0} where
  -- the jobs run one after another: the output and the codes that they leave
  unfoldable pub run_all : (Job → Out → Result (Out × ℕ)) → List Job → Out → Result (Out × List ℕ)
  run_all invoke [] out = ok (out, [])
  run_all invoke (job ∷ jobs) out = do
    (out1, code) ← invoke job out
    (out2, codes) ← run_all invoke jobs out1
    ok (out2, code ∷ codes)

  pub run_all-last :
      (invoke : Job → Out → Result (Out × ℕ)) (jobs : List Job) (job : Job) (out out1 out2 : Out)
      (codes : List ℕ) (code : ℕ)
      → run_all invoke jobs out ≡ ok (out1, codes)
      → invoke job out1 ≡ ok (out2, code)
      → run_all invoke (jobs ++ (job ∷ [])) out ≡ ok (out2, codes ++ (code ∷ []))
  unfolding run_all
  run_all-last invoke [] job out out1 out2 codes code h e =
      let start = ok-injective h in
      let same : codes ≡ [] = sym (ap (λ r. r.1) start) in rw (ap (λ r. r.0) start, same, e) refl
  run_all-last invoke (first ∷ jobs) job out out1 out2 codes code h e =
      let ((mid, first_code), ran, behind) = bind-ok (invoke first out) _ (out1, codes) h in
      let ((last, rest), ran', left) = bind-ok (run_all invoke jobs mid) _ (out1, codes) behind in
      let e' = ok-injective left in
      let more =
        run_all-last invoke jobs job mid out1 out2 rest code
          (ran' ∙ ap (λ o. ok (o, rest)) (ap (λ r. r.0) e')) e in
      rw (ran, more) (ap (λ cs. ok (out2, cs ++ (code ∷ []))) (ap (λ r. r.1) e'))

-- ===== src/ThreadPool/Tally.antt =====
-- Counting the workers of a pool by where they stand.
use mathlib.Core.List.{Permᴰ}
use mathlib.Core.List.Permᴰ
use pcat.Common.{
  ℕ, ◌+◌, ◌≡◌, refl, subst, List, [], ◌∷◌, ◌++◌, append_assoc, Bool, true, false, arith,
}
use pcat.ThreadPool.{
  Pc, testing_wait, testing_wait_work, blocking, sleeping, waking, leaving, popping, working,
  reporting,
}

module _ {Job : Type 0} where
  -- 1 for a thread that has workMutex
  unfoldable pub hold : Pc Job → ℕ
  hold testing_wait = 1
  hold testing_wait_work = 1
  hold blocking = 1
  hold leaving = 1
  hold popping = 1
  hold _ = 0

  -- 1 for a thread between `++waitingThreads` and `--waitingThreads`
  unfoldable pub waits : Pc Job → ℕ
  waits testing_wait = 1
  waits testing_wait_work = 1
  waits blocking = 1
  waits sleeping = 1
  waits waking = 1
  waits leaving = 1
  waits _ = 0

  -- the job that a thread has in hand
  unfoldable pub hand : Pc Job → List Job
  hand (working job) = job ∷ []
  hand _ = []

  -- the code that a thread is about to push
  unfoldable pub report : Pc Job → List ℕ
  report (reporting code) = code ∷ []
  report _ = []

-- 1 for `true`
abbrev pub bit : Bool → ℕ
bit true = 1
bit false = 0

module _ {A : Type 0} where
  unfoldable pub tally : (A → ℕ) → List A → ℕ
  tally f [] = 0
  tally f (x ∷ xs) = f x + tally f xs

  pub tally-middle :
      (f : A → ℕ) (before behind : List A) (x : A)
      → tally f (before ++ (x ∷ behind)) ≡ f x + tally f (before ++ behind)
  unfolding tally
  tally-middle f [] behind x = refl
  tally-middle f (y ∷ before) behind x = omega (arith, tally-middle f before behind x)

pub append-swap : {B : Type 0} (xs ys zs : List B) → Permᴰ (xs ++ (ys ++ zs)) (ys ++ (xs ++ zs))
append-swap xs ys zs =
    subst (λ l. Permᴰ l (ys ++ (xs ++ zs))) (append_assoc xs ys zs)
      (subst (Permᴰ ((xs ++ ys) ++ zs)) (append_assoc ys xs zs)
        (Permᴰ.append_right zs (Permᴰ.append_comm xs ys)))

module _ {A B : Type 0} where
  unfoldable pub gather : (A → List B) → List A → List B
  gather f [] = []
  gather f (x ∷ xs) = f x ++ gather f xs

  pub gather-middle :
      (f : A → List B) (before behind : List A) (x : A)
      → Permᴰ (gather f (before ++ (x ∷ behind))) (f x ++ gather f (before ++ behind))
  unfolding gather
  gather-middle f [] behind x = Permᴰ.refl (f x ++ gather f behind)
  gather-middle f (y ∷ before) behind x =
      Permᴰ.trans (Permᴰ.append_left (f y) (gather-middle f before behind x))
        (append-swap (f y) (f x) (gather f (before ++ behind)))

-- ===== src/ThreadPool/Steps.antt =====
-- Induction on the steps of a pool: what a relation on its parts has to satisfy to hold in all of its
-- states.
use pcat.Common.{
  ℕ, ◌≡◌, refl, sym, Bool, true, false, if◌then◌else◌, subst, List, [], ◌∷◌, ◌++◌, map,
  append_assoc, Option, none, some, Result,
}
use pcat.ThreadPool.{
  Pc, testing_loop, testing_loop_work, entering, testing_wait, testing_wait_work, blocking,
  sleeping, waking, leaving, popping, empty_handed, working, reporting, stopped, Main, notifying,
  clearing, waking_all, joining, Shared, wake, main_step, worker_step,
}
use pcat.ThreadPool.Relation.{
  Pool, Step, worker, main, notify_one, notify_nobody, notify_all, spurious, Reach, here, later,
}

-- The predicate holds of the result, if there is one.
abbrev pub OnSome {ℓ κ λ'} :
    {A : Type ℓ} {B : Type κ} → (A → B → Type λ') → Option (A × B) → Type λ'
OnSome P none = Unit
OnSome P (some (a, b)) = P a b

module _ {A B : Type 0} (P : A → B → Type 0) where
  -- a step that a test chooses
  pub if-OnSome :
      (test : Bool) (x y : Option (A × B))
      → (test ≡ true → OnSome P x)
      → (test ≡ false → OnSome P y)
      → OnSome P (if test then x else y)
  if-OnSome true x y f g = f refl
  if-OnSome false x y f g = g refl

  -- a step that leads to one of two places
  pub place-OnSome :
      (test : Bool) (a : A) (x y : B)
      → (test ≡ true → P a x)
      → (test ≡ false → P a y)
      → OnSome P (some (a, if test then x else y))
  place-OnSome true a x y f g = f refl
  place-OnSome false a x y f g = g refl

  pub some-OnSome :
      (step : Option (A × B)) (a : A) (b : B) → step ≡ some (a, b) → P a b → OnSome P step
  some-OnSome step a b e h = subst (OnSome P) (sym e) h

pub OnSome-each :
    {A B : Type 0} {P Q : A → B → Type 0}
    → ((a : A) (b : B) → P a b → Q a b)
    → (step : Option (A × B)) → OnSome P step
    → OnSome Q step
OnSome-each f none h = tt
OnSome-each f (some (a, b)) h = f a b h

-- a relation on the parts of a pool
abbrev pub Inv : Type 0 → Type 0 → Type 1
Inv Job Out = Shared Job Out → List (Pc Job) → Main Job → Type 0

module _ {Job Out : Type 0} where
  abbrev pub At : Inv Job Out → Pool Job Out → Type 0
  At P s = P s.shared s.workers s.main

  module _ (unset : Job) (invoke : Job → Out → Result (Out × ℕ)) where
    -- `P` is kept where `Known` holds.
    pub record IsKept (Known P : Inv Job Out) : Type 0 where
      pub by_worker :
          (m : Shared Job Out) (before behind : List (Pc Job)) (pc : Pc Job) (place : Main Job)
          → Known m (before ++ (pc ∷ behind)) place
          → P m (before ++ (pc ∷ behind)) place
          → OnSome (λ m' pc'. P m' (before ++ (pc' ∷ behind)) place) (worker_step unset invoke m pc)
      pub by_main :
          (m : Shared Job Out) (workers : List (Pc Job)) (place : Main Job)
          → Known m workers place
          → P m workers place
          → OnSome (λ m' place'. P m' workers place') (main_step m workers place)
      pub by_waking :
          (m : Shared Job Out) (before behind : List (Pc Job)) (place : Main Job)
          → P m (before ++ (sleeping ∷ behind)) place
          → P m (before ++ (waking ∷ behind)) place
      pub by_notifying :
          (m : Shared Job Out) (workers : List (Pc Job)) (jobs : List Job)
          → P m workers (notifying jobs)
          → P m workers (clearing 0 jobs)
      pub by_waking_all :
          (m : Shared Job Out) (workers : List (Pc Job)) (error : Option ℕ) (jobs : List Job)
          → P m workers (waking_all error jobs)
          → P m workers (joining error jobs)

    module _ {Known P : Inv Job Out} (kept : IsKept Known P) where
      wake-keeps :
          (m : Shared Job Out) (before behind : List (Pc Job)) (pc : Pc Job) (place : Main Job)
          → P m (before ++ (pc ∷ behind)) place
          → P m (before ++ (wake pc ∷ behind)) place
      unfolding wake
      wake-keeps m before behind sleeping place h = kept.by_waking m before behind place h
      wake-keeps m before behind testing_loop place h = h
      wake-keeps m before behind testing_loop_work place h = h
      wake-keeps m before behind entering place h = h
      wake-keeps m before behind testing_wait place h = h
      wake-keeps m before behind testing_wait_work place h = h
      wake-keeps m before behind blocking place h = h
      wake-keeps m before behind waking place h = h
      wake-keeps m before behind leaving place h = h
      wake-keeps m before behind popping place h = h
      wake-keeps m before behind empty_handed place h = h
      wake-keeps m before behind (working job) place h = h
      wake-keeps m before behind (reporting code) place h = h
      wake-keeps m before behind stopped place h = h

      map-wake-keeps :
          (m : Shared Job Out) (before behind : List (Pc Job)) (place : Main Job)
          → P m (before ++ behind) place
          → P m (before ++ map wake behind) place
      map-wake-keeps m before [] place h = h
      map-wake-keeps m before (pc ∷ behind) place h =
          subst (λ ws. P m ws place) (append_assoc before (wake pc ∷ []) (map wake behind))
            (map-wake-keeps m (before ++ (wake pc ∷ [])) behind place (
              subst (λ ws. P m ws place) (sym (append_assoc before (wake pc ∷ []) behind))
                (wake-keeps m before behind pc place h)))

      -- A state with the parts that a step gives to it.
      At-parts :
          {s : Pool Job Out} (m : Shared Job Out) (workers : List (Pc Job)) (place : Main Job)
          → s ≡ record { shared = m; workers = workers; main = place }
          → P m workers place
          → At P s
      At-parts m workers place e h = subst (At P) (sym e) h

      Step-keeps : (s t : Pool Job Out) → Step unset invoke s t → At Known s → At P s → At P t
      Step-keeps s t (worker before behind pc pc' m' at moved left) k h =
          At-parts m' (before ++ (pc' ∷ behind)) s.main left (
            subst (OnSome (λ m' pc'. P m' (before ++ (pc' ∷ behind)) s.main)) moved (
              kept.by_worker s.shared before behind pc s.main
                (subst (λ ws. Known s.shared ws s.main) at k)
                (subst (λ ws. P s.shared ws s.main) at h)))
      Step-keeps s t (main m' main' moved left) k h = At-parts m' s.workers main' left (
          subst (OnSome (λ m' main'. P m' s.workers main')) moved
            (kept.by_main s.shared s.workers s.main k h))
      Step-keeps s t (notify_one before behind jobs place at left) k h =
          At-parts s.shared (before ++ (waking ∷ behind)) (clearing 0 jobs) left (
            kept.by_waking s.shared before behind (clearing 0 jobs) (
              subst (λ ws. P s.shared ws (clearing 0 jobs)) at
                (kept.by_notifying s.shared s.workers jobs (subst (P s.shared s.workers) place h))))
      Step-keeps s t (notify_nobody jobs place none_sleeps left) k h =
          At-parts s.shared s.workers (clearing 0 jobs) left
            (kept.by_notifying s.shared s.workers jobs (subst (P s.shared s.workers) place h))
      Step-keeps s t (notify_all error jobs place left) k h =
          At-parts s.shared (map wake s.workers) (joining error jobs) left (
            map-wake-keeps s.shared [] s.workers (joining error jobs) (
              kept.by_waking_all s.shared s.workers error jobs
                (subst (P s.shared s.workers) place h)))
      Step-keeps s t (spurious before behind at left) k h =
          At-parts s.shared (before ++ (waking ∷ behind)) s.main left
            (kept.by_waking s.shared before behind s.main (subst (λ ws. P s.shared ws s.main) at h))

      pub Reach-keeps :
          {s t : Pool Job Out}
          → Reach unset invoke s t
          → ((u : Pool Job Out) → Reach unset invoke s u → At Known u)
          → At P s
          → At P t
      Reach-keeps here known h = h
      Reach-keeps (later {t} {u} before step) known h =
          Step-keeps t u step (known t before) (Reach-keeps before known h)

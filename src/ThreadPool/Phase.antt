-- ===== src/ThreadPool/Phase.antt =====
-- The phases of a pool, and properties of every worker.
use pcat.Common.{
  ℕ, suc, ◌+◌, ◌≤◌, ◌≡◌, refl, List, [], ◌∷◌, ◌++◌, Bool, true, false, arith, replicate, zero, inl,
  All,
}
use pcat.ThreadPool.{
  Pc, testing_loop, testing_loop_work, leaving, popping, empty_handed, stopped, Main, starting,
  queueing, notifying, clearing, stopping, waking_all, joining, draining, returned, is_stopped,
  all_stopped,
}
use pcat.ThreadPool.Tally.{hold, tally}
use pcat.ThreadPool.Lock.{Sure}

module _ {Job : Type 0} where
  -- `finished` is set where `finish` sets it, the threads have ended where it has joined them, and there
  -- are no results where it has returned.
  abbrev pub Phase : Bool → ℕ → List (Pc Job) → Main Job → Type 0
  Phase finished reports workers (waking_all error jobs) = finished ≡ true
  Phase finished reports workers (joining error jobs) = finished ≡ true
  Phase finished reports workers (draining error result jobs) =
      (finished ≡ true) × (all_stopped workers ≡ true)
  Phase finished reports workers (returned value jobs) =
      (finished ≡ true) × (all_stopped workers ≡ true) × (reports ≡ 0)
  Phase finished reports workers _ = finished ≡ false

  all_stopped-is_stopped :
      (before behind : List (Pc Job)) (pc : Pc Job)
      → all_stopped (before ++ (pc ∷ behind)) ≡ true
      → is_stopped pc ≡ true
  unfolding all_stopped
  all_stopped-is_stopped [] behind pc h = ground arith
  all_stopped-is_stopped (pc2 ∷ before) behind pc h =
      all_stopped-is_stopped before behind pc (ground arith)

  pub Phase-alive :
      (finished : Bool) (reports reports' : ℕ) (before behind others : List (Pc Job)) (pc : Pc Job)
      (place : Main Job)
      → is_stopped pc ≡ false
      → Phase finished reports (before ++ (pc ∷ behind)) place
      → Phase finished reports' others place
  Phase-alive finished reports reports' before behind others pc (draining error result jobs) alive
        h =
      let ended = all_stopped-is_stopped before behind pc h.1 in ground arith
  Phase-alive finished reports reports' before behind others pc (returned value jobs) alive h =
      let ended = all_stopped-is_stopped before behind pc h.1 in ground arith
  Phase-alive finished reports reports' before behind others pc (waking_all error jobs) alive h = h
  Phase-alive finished reports reports' before behind others pc (joining error jobs) alive h = h
  Phase-alive finished reports reports' before behind others pc (starting jobs) alive h = h
  Phase-alive finished reports reports' before behind others pc (queueing jobs) alive h = h
  Phase-alive finished reports reports' before behind others pc (notifying jobs) alive h = h
  Phase-alive finished reports reports' before behind others pc (clearing result jobs) alive h = h
  Phase-alive finished reports reports' before behind others pc (stopping error jobs) alive h = h

  -- A property of every worker, when one of them steps that holds `k` and the others hold what they
  -- held.
  pub All-change :
      (P P' : Pc Job → Type 0) (k : ℕ)
      → ((pc : Pc Job) → k + hold pc ≤ 1 → P pc → P' pc)
      → (before behind : List (Pc Job)) (pc pc' : Pc Job) → k + tally hold (before ++ behind) ≤ 1
      → P' pc'
      → All P (before ++ (pc ∷ behind))
      → All P' (before ++ (pc' ∷ behind))
  unfolding tally
  All-change P P' k change [] behind pc pc' room own all = (own, rest behind room all.1)
    where
      rest : (ws : List (Pc Job)) → k + tally hold ws ≤ 1 → All P ws → All P' ws
      rest [] room all = tt
      rest (w ∷ ws) room all = (change w (omega arith) all.0, rest ws (omega arith) all.1)
  All-change P P' k change (w ∷ before) behind pc pc' room own all = (
    change w (omega arith) all.0,
    All-change P P' k change before behind pc pc' (omega arith) own all.1,
  )

  pub tally-replicate :
      (f : Pc Job → ℕ) (count : ℕ) → f testing_loop ≡ 0 → tally f (replicate count testing_loop) ≡ 0
  unfolding tally
  tally-replicate f zero h = refl
  tally-replicate f (suc count) h = omega (arith, tally-replicate f count h)

  pub All-replicate :
      (P : Pc Job → Type 0) (count : ℕ) (pc : Pc Job) → P pc → All P (replicate count pc)
  All-replicate P zero pc h = tt
  All-replicate P (suc count) pc h = (h, All-replicate P count pc h)

  pub All-one :
      (P : Pc Job → Type 0) (before behind : List (Pc Job)) (pc : Pc Job)
      → All P (before ++ (pc ∷ behind))
      → P pc
  All-one P [] behind pc all = all.0
  All-one P (w ∷ before) behind pc all = All-one P before behind pc all.1

  pub All-each :
      (P P' : Pc Job → Type 0)
      → ((pc : Pc Job) → P pc → P' pc)
      → (ws : List (Pc Job)) → All P ws
      → All P' ws
  All-each P P' change [] all = tt
  All-each P P' change (w ∷ ws) all = (change w all.0, All-each P P' change ws all.1)

  -- A job is queued, and `finished` is set.
  pub Sure-push : (n : ℕ) (pc : Pc Job) → Sure false n pc → Sure false (n + 1) pc
  Sure-push n leaving h = ground arith
  Sure-push n popping h = ground arith
  Sure-push n testing_loop_work h = ground arith
  Sure-push n empty_handed h = ground arith
  Sure-push n stopped h = ground arith
  Sure-push n _ h = tt

  pub Sure-finish : (finished : Bool) (n : ℕ) (pc : Pc Job) → Sure finished n pc → Sure true n pc
  Sure-finish finished n leaving h = inl refl
  Sure-finish finished n popping h = inl refl
  Sure-finish finished n testing_loop_work h = refl
  Sure-finish finished n empty_handed h = (refl, h.1)
  Sure-finish finished n stopped h = (refl, h.1)
  Sure-finish finished n _ h = tt

-- ===== src/Manager/Activity/Laws.antt =====
-- internal/manager/manager.go: the count of the calls in flight over any history.
use cloud_agent_sandbox.Base.{
  ℕ, suc, ◌+◌, ◌-◌, ◌<◌, ◌≡◌, ◌↔◌, true, List, [], ◌∷◌, Text, ◌==◌, text_eq, if◌then◌else◌, arith,
}
use cloud_agent_sandbox.Base.Dict.{Dict, lookup-insert, lookup-remove}
use cloud_agent_sandbox.Manager.World.{Context, Environment, World, store_touch}
use cloud_agent_sandbox.Manager.Activity.{
  calls_of, count_begin, count_end, begin_activity, end_activity, has_active_calls,
}

-- A call of some session begins or ends.
pub data Event : Type 0 where
  begins ends : Context → Text → Event

module _ {P : Type 0} (e : Environment P) where
  pub step : Event → World P → World P
  step (begins c id) w = (begin_activity e c id w).0
  step (ends c id) w = (end_activity e c id w).0

  pub run : List Event → World P → World P
  run [] w = w
  run (x ∷ xs) w = run xs (step x w)

-- How many calls of a session begin, and how many end.
abbrev pub begun : Text → List Event → ℕ
begun id [] = 0
begun id (begins c j ∷ xs) = if j == id then suc (begun id xs) else begun id xs
begun id (ends c j ∷ xs) = begun id xs

abbrev pub ended : Text → List Event → ℕ
ended id [] = 0
ended id (begins c j ∷ xs) = ended id xs
ended id (ends c j ∷ xs) = if j == id then suc (ended id xs) else ended id xs

-- No call of the session ends that has not begun, when `n` are in flight at the start.
abbrev pub IsPaired : Text → ℕ → List Event → Type 0
IsPaired id n [] = Unit
IsPaired id n (begins c j ∷ xs) = if j == id then IsPaired id (n + 1) xs else IsPaired id n xs
IsPaired id n (ends c j ∷ xs) =
    if j == id then (0 < n) × IsPaired id (n - 1) xs else IsPaired id n xs

calls_of-count_begin :
    (id j : Text) (m : Dict ℕ)
    → calls_of id (count_begin j m) ≡ (if j == id then calls_of id m + 1 else calls_of id m)
unfolding calls_of count_begin
calls_of-count_begin id j m =
    ground (arith, lookup-insert j id (calls_of j m + 1) m, text_eq.beq_iff j id)

calls_of-count_end :
    (id j : Text) (m : Dict ℕ)
    → calls_of id (count_end j m) ≡ (if j == id then calls_of id m - 1 else calls_of id m)
unfolding calls_of count_end
calls_of-count_end id j m =
    ground
      (arith, lookup-insert j id (calls_of j m - 1) m, lookup-remove j id m, text_eq.beq_iff j id)

module _ {P : Type 0} (e : Environment P) (id : Text) where
  step_active :
      (x : Event) (w : World P)
      → calls_of id (step e x w).active ≡ (elim x as (λ _. ℕ) [
        | begins c j ↦ (if j == id then calls_of id w.active + 1 else calls_of id w.active)
        | ends c j ↦ (if j == id then calls_of id w.active - 1 else calls_of id w.active)
      ])
  unfolding step begin_activity end_activity store_touch
  step_active (begins c j) w = calls_of-count_begin id j w.active
  step_active (ends c j) w = calls_of-count_end id j w.active

  run_balanced :
      (xs : List Event) (n : ℕ) (w : World P)
      → calls_of id w.active ≡ n
      → IsPaired id n xs
      → calls_of id (run e xs w).active + ended id xs ≡ n + begun id xs
  unfolding run
  run_balanced [] n w h p = omega arith
  run_balanced (begins c j ∷ xs) n w h p = ground (
    arith,
    step_active (begins c j) w,
    run_balanced xs (n + 1) (step e (begins c j) w),
    run_balanced xs n (step e (begins c j) w),
  )
  run_balanced (ends c j ∷ xs) n w h p = ground (
    arith,
    step_active (ends c j) w,
    run_balanced xs (n - 1) (step e (ends c j) w),
    run_balanced xs n (step e (ends c j) w),
  )

  -- From a state with no call of the session in flight, and over any history of calls, of this and
  -- of other sessions, in which none of this session ends before it has begun: a call of the
  -- session counts as in flight exactly if more have begun than have ended, whatever the store and
  -- the contexts do.
  pub has_active_calls-run :
      (xs : List Event) (w : World P)
      → calls_of id w.active ≡ 0
      → IsPaired id 0 xs
      → (has_active_calls id (run e xs w) ≡ true) ↔ (ended id xs < begun id xs)
  unfolding has_active_calls
  has_active_calls-run xs w h p = ground (arith, run_balanced xs 0 w h p)

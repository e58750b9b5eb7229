-- ===== src/Manager/Activity.antt =====
-- internal/manager/manager.go: Touch, BeginActivity, EndActivity and HasActiveCalls. The map of
-- calls in flight is guarded by a lock of its own; a step on it is atomic.
pub mod Laws
use cloud_agent_sandbox.Base.{
  ℕ, suc, ◌+◌, ◌-◌, Bool, Option, none, some, Text, ltb, leb, if◌then◌else◌,
}
use cloud_agent_sandbox.Base.Dict.{Dict, lookup, insert, remove}
use cloud_agent_sandbox.Session.Model.{Error, Result, ok, err}
use cloud_agent_sandbox.Manager.World.{
  Context, Environment, World, Step, ◌>>=◌, ◌>>◌, pure, ignore, store_touch,
}

-- `m.active[id]`, which is 0 for a missing key.
unfoldable pub calls_of : Text → Dict ℕ → ℕ
calls_of id m = elim (lookup id m) [ none ↦ 0 | some n ↦ n ]

-- `m.active[id]++`
unfoldable pub count_begin : Text → Dict ℕ → Dict ℕ
count_begin id m = insert id (calls_of id m + 1) m

-- The update of `active` in EndActivity.
unfoldable pub count_end : Text → Dict ℕ → Dict ℕ
count_end id m = if leb (calls_of id m) 1 then remove id m else insert id (calls_of id m - 1) m

module _ {P : Type 0} (e : Environment P) where
  unfoldable pub touch : Context → Text → Step P (Unit {0})
  touch ctx id = store_touch e ctx id

  unfoldable pub begin_activity : Context → Text → Step P (Unit {0})
  begin_activity ctx id w =
      ignore (store_touch e ctx id) (record w { active = count_begin id w.active })

  unfoldable pub end_activity : Context → Text → Step P (Unit {0})
  end_activity ctx id w =
      ignore (store_touch e ctx id) (record w { active = count_end id w.active })

unfoldable pub has_active_calls : {P : Type 0} → Text → World P → Bool
has_active_calls id w = ltb 0 (calls_of id w.active)

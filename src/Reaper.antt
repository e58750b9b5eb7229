-- ===== src/Reaper.antt =====
-- internal/reaper/reaper.go: the enforcement of the lifetimes. The ticker is left out: `reap_once`
-- is what one tick runs.
pub mod Laws
use cloud_agent_sandbox.Base.{
  ℕ, Bool, true, false, not, Option, none, some, List, [], ◌∷◌, Text, bytes, ◌==◌, if◌then◌else◌,
  ◌&&◌,
}
use cloud_agent_sandbox.Base.Int.{ℤ, pos, ltb_ℤ, leb_ℤ}
use cloud_agent_sandbox.Clock.{older_than}
use cloud_agent_sandbox.Config.Model.{Config, LifetimeConfig, minute}
use cloud_agent_sandbox.Session.Model.{
  State, running, stopped, state_eq, Session, Error, Result, ok, err,
}
use cloud_agent_sandbox.Manager.World.{
  Context, Environment, World, Step, ◌>>=◌, ◌>>◌, pure, catch, ignore, call_total,
  store_list_by_state,
}
use cloud_agent_sandbox.Manager.Lifecycle.{stop, delete}
use cloud_agent_sandbox.Manager.Activity.{has_active_calls}
use cloud_agent_sandbox.Manager.Sweep.{sweep_orphans}

pub record Reaper : Type 0 where
  pub running_ttl : ℤ
  pub max_lifetime : ℤ
  pub stopped_ttl : ℤ
  pub reap_interval : ℤ

unfoldable pub new : LifetimeConfig → Reaper
new l = record {
  running_ttl = l.running_ttl;
  max_lifetime = l.max_lifetime;
  stopped_ttl = l.stopped_ttl;
  reap_interval = l.reap_interval;
}

-- The interval of the ticker in Run.
unfoldable pub interval : Reaper → ℤ
interval r = if leb_ℤ r.reap_interval (pos 0) then pos minute else r.reap_interval

-- The reason to stop a session, if there is one; `active` says whether a call is in flight.
unfoldable pub running_expired : Reaper → Session → ℕ → Bool → Option Text
running_expired r s now active =
    if not (s.state == running)
    then none
    else if ltb_ℤ (pos 0) r.max_lifetime && older_than now s.created_at r.max_lifetime
    then some (bytes "max-lifetime")
    else if older_than now s.last_activity_at r.running_ttl && not active
    then some (bytes "idle")
    else none

unfoldable pub stopped_expired : Session → ℕ → ℤ → Bool
stopped_expired s now ttl = s.state == stopped && older_than now s.stopped_at ttl

module _ {P : Type 0} (cfg : Config) (e : Environment P) (r : Reaper) where
  -- One round of the first loop.
  unfoldable pub reap_running : Context → ℕ → Session → Step P (Unit {0})
  reap_running ctx now s w = elim (running_expired r s now (has_active_calls s.id w)) [
    | none ↦ (w, ok tt)
    | some reason ↦ ignore (stop cfg e ctx s.id) w
  ]

  -- One round of the second loop.
  unfoldable pub reap_stopped : Context → ℕ → Session → Step P (Unit {0})
  reap_stopped ctx now s =
      if stopped_expired s now r.stopped_ttl then ignore (delete cfg e ctx s.id) else pure tt

  unfoldable pub each : (Session → Step P (Unit {0})) → List Session → Step P (Unit {0})
  each f [] = pure tt
  each f (s ∷ ss) = do f s; each f ss

  -- A pass: lists the sessions of a state and takes each in turn. An error of the listing is only
  -- logged.
  unfoldable pub pass : Context → State → (Session → Step P (Unit {0})) → Step P (Unit {0})
  pass ctx st f w =
      let (v, listing) = store_list_by_state e ctx st w in
      elim listing [ ok ss ↦ each f ss v | err x ↦ (v, ok tt) ]

  unfoldable pub running_pass : Context → ℕ → Step P (Unit {0})
  running_pass ctx now = pass ctx running (reap_running ctx now)

  unfoldable pub stopped_pass : Context → ℕ → Step P (Unit {0})
  stopped_pass ctx now = pass ctx stopped (reap_stopped ctx now)

  -- reapOnce, at the time that it reads first.
  unfoldable pub reap_at : Context → ℕ → Step P (Unit {0})
  reap_at ctx now = do sweep_orphans cfg e ctx; running_pass ctx now; stopped_pass ctx now

  -- reapOnce
  unfoldable pub reap_once : Context → Step P (Unit {0})
  reap_once ctx = do now ← call_total e.now; reap_at ctx now

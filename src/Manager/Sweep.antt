-- ===== src/Manager/Sweep.antt =====
-- internal/manager/manager.go: SweepOrphans, which removes the pods and workspaces that the store
-- does not know.
pub mod Laws
use cloud_agent_sandbox.Base.{
  ℕ, Bool, true, false, not, Option, none, some, List, [], ◌∷◌, Text, ◌==◌, text_eq, if◌then◌else◌,
  ◌&&◌, ◌||◌, map,
}
use cloud_agent_sandbox.Base.Int.{ℤ, pos, ltb_ℤ}
use cloud_agent_sandbox.Clock.{older_than}
use cloud_agent_sandbox.Config.Model.{Config}
use cloud_agent_sandbox.Session.Model.{Session, Error, Result, ok, err}
use cloud_agent_sandbox.Runtime.Model.{SandboxRef, WorkspaceRef}
use cloud_agent_sandbox.Manager.World.{
  Context, Environment, World, Step, ◌>>=◌, ◌>>◌, pure, fail, catch, ignore, call, call_checked,
  call_total, store_list,
}
use cloud_agent_sandbox.Manager.Create.{release}

-- `known[id]` and `livePodSession[id]`, which are sets.
unfoldable pub contains : Text → List Text → Bool
contains id [] = false
contains id (x ∷ xs) = x == id || contains id xs

-- A positive limit that has not passed spares an object: `ttl > 0 && now.Sub(created) <= ttl`.
unfoldable pub is_young : ℕ → ℤ → ℕ → Bool
is_young now ttl created = ltb_ℤ (pos 0) ttl && not (older_than now created ttl)

-- The tests that skip a pod, and those that skip a workspace.
unfoldable pub is_orphan_pod : Config → ℕ → List Text → SandboxRef → Bool
is_orphan_pod cfg now known p =
    if p.pool || contains p.session_id known
    then false
    else if is_young now cfg.lifetime.max_lifetime p.created_at
    then false
    else true

unfoldable pub is_orphan_workspace : Config → ℕ → List Text → List Text → WorkspaceRef → Bool
is_orphan_workspace cfg now known with_pod v =
    if v.pool || contains v.session_id known || contains v.session_id with_pod
    then false
    else if is_young now cfg.lifetime.stopped_ttl v.created_at
    then false
    else true

module _ {P : Type 0} (cfg : Config) (e : Environment P) where
  -- Purges one pod; its proxy is released only if that succeeds.
  unfoldable pub purge_pod : Context → SandboxRef → Step P (Unit {0})
  purge_pod ctx p =
      catch
        (do
          call_checked (e.rt.purge ctx p.pod_name p.pvc_name)
          if p.session_id == [] then pure tt else release cfg e ctx p.session_id)
        λ x. pure tt

  unfoldable pub purge_workspace : Context → WorkspaceRef → Step P (Unit {0})
  purge_workspace ctx v = ignore (call_checked (e.rt.purge ctx v.pod_name v.pvc_name))

  -- The loop over the pods.
  unfoldable pub sweep_pods : Context → ℕ → List Text → List SandboxRef → Step P (Unit {0})
  sweep_pods ctx now known [] = pure tt
  sweep_pods ctx now known (p ∷ ps) = do
    if is_orphan_pod cfg now known p then purge_pod ctx p else pure tt
    sweep_pods ctx now known ps

  unfoldable pub sweep_workspaces :
      Context → ℕ → List Text → List Text → List WorkspaceRef → Step P (Unit {0})
  sweep_workspaces ctx now known with_pod [] = pure tt
  sweep_workspaces ctx now known with_pod (v ∷ vs) = do
    if is_orphan_workspace cfg now known with_pod v then purge_workspace ctx v else pure tt
    sweep_workspaces ctx now known with_pod vs

  -- The body of SweepOrphans, with the error of a listing as its error.
  unfoldable pub sweep : Context → Step P (Unit {0})
  sweep ctx = do
    now ← call_total e.now
    all ← store_list e ctx
    let known = map (λ s. s.id) all
    pods ← call (e.rt.list_sandboxes ctx)
    sweep_pods ctx now known pods
    workspaces ← call (e.rt.list_workspaces ctx)
    sweep_workspaces ctx now known (map (λ p. p.session_id) pods) workspaces

  -- SweepOrphans; an error of a listing ends it and is only logged.
  unfoldable pub sweep_orphans : Context → Step P (Unit {0})
  sweep_orphans ctx = catch (sweep ctx) λ x. pure tt

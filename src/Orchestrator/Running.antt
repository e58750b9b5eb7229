-- ===== src/Orchestrator/Running.antt =====
-- cmd/orchestrator/main.go: the running orchestrator: the requests that its server handles and the
-- ticks of the loops beside it, as a sequence of events. Each event is one step; the program
-- interleaves the steps of different ones.
pub mod Pods
use cloud_agent_sandbox.Base.{
  ℕ, Bool, true, false, Option, none, some, List, [], ◌∷◌, Text, bytes, ◌==◌, if◌then◌else◌,
}
use cloud_agent_sandbox.Session.Model.{Error, Result, ok, err}
use cloud_agent_sandbox.Manager.World.{Context, request, Environment}
use cloud_agent_sandbox.Runtime.Model.{SandboxSpec}
use cloud_agent_sandbox.Kube.Calls.{CreatePod}
use cloud_agent_sandbox.Exec.Remote.{Remote}
use cloud_agent_sandbox.Autoscaler.{Cluster, reconcile}
use cloud_agent_sandbox.Pool.{PoolWorld, replenish_loop}
use cloud_agent_sandbox.Reaper.{reap_once}
use cloud_agent_sandbox.Mcp.Model.{Server}
use cloud_agent_sandbox.Mcp.Entry.{identity_of, Call, call_tool}
use cloud_agent_sandbox.Orchestrator.Front.{HttpRequest, Reply, Handler, is_authorized, serve}
use cloud_agent_sandbox.Orchestrator.Wiring.{Host, Parts, host_environment, manager_environment}

-- The library of the tool server: the call that a request of the protocol makes, if it makes one,
-- what is written for its result, and for a request without a call.
pub record Protocol (Q M : Type 0) : Type 0 where
  pub call_of : HttpRequest → Option (Call Q)
  pub show : Result Text → Reply M
  pub no_call : HttpRequest → Reply M

-- A request, a tick of the reaper, of the pool (with fuel for its loop) and of the autoscaler.
pub data Event : Type 0 where
  serves : HttpRequest → Event
  reaps scales : Event
  replenishes : ℕ → Event

-- `e` is what the Manager works in, and `b` what the pool works in.
module _ {P M : Type 0} (e : Environment (PoolWorld P)) (b : Environment P) (k : Cluster P)
    (r : Remote (PoolWorld P)) (m : Protocol (PoolWorld P) M) (x : Parts) where
  -- The handler of the tool server.
  unfoldable pub mcp_handler : Handler (Server (PoolWorld P)) M
  mcp_handler q s = elim (m.call_of q) [
    | none ↦ (s, m.no_call q)
    | some c ↦ let (t, a) = call_tool x.config e r (identity_of q.header) c s in (t, m.show a)
  ]

  unfoldable pub answer : Handler (Server (PoolWorld P)) M
  answer = serve x.config e mcp_handler

  -- reapOnce, under the context of the program.
  unfoldable pub reap : Server (PoolWorld P) → Server (PoolWorld P)
  reap s = record s { manager = (reap_once x.config e x.reaper request s.manager).0 }

  abbrev on_platform : (PoolWorld P → PoolWorld P) → Server (PoolWorld P) → Server (PoolWorld P)
  on_platform f s = record s { manager = record s.manager { platform = f s.manager.platform } }

  -- replenish, where there is a pool.
  unfoldable pub replenish : ℕ → Server (PoolWorld P) → Server (PoolWorld P)
  replenish n s = elim x.pool [
    | none ↦ s
    | some v ↦ on_platform (λ w. (replenish_loop b v.0 n request w).0) s
  ]

  -- reconcile, where there is an autoscaler.
  unfoldable pub scale : Server (PoolWorld P) → Server (PoolWorld P)
  scale s = elim x.autoscaler [
    | none ↦ s
    | some a ↦ on_platform (λ w. record w { platform = (reconcile k a request w.platform).0 }) s
  ]

  unfoldable pub step : Event → Server (PoolWorld P) → Server (PoolWorld P)
  step (serves q) s = (answer q s).0
  step reaps s = reap s
  step scales s = scale s
  step (replenishes n) s = replenish n s

  unfoldable pub run : List Event → Server (PoolWorld P) → Server (PoolWorld P)
  run [] s = s
  run (v ∷ vs) s = run vs (step v s)

-- The orchestrator on a host.
unfoldable pub orchestrate :
    {P M : Type 0}
    → Host P
    → (Context → SandboxSpec → CreatePod P)
    → Remote (PoolWorld P)
    → Protocol (PoolWorld P) M
    → Parts
    → List Event
    → Server (PoolWorld P)
    → Server (PoolWorld P)
orchestrate h create_pod r m x =
    run (manager_environment h create_pod x) (host_environment h create_pod x.config.sandbox)
      h.cluster r m x

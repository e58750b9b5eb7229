-- ===== src/Orchestrator/Running/Pods.antt =====
-- cmd/orchestrator/main.go: the pods that a running orchestrator submits.
use cloud_agent_sandbox.Base.{◌≡◌, refl, Option, none, some, ap, ◌∙◌, true, List}
use cloud_agent_sandbox.Config.Model.{SandboxConfig}
use cloud_agent_sandbox.Manager.World.{Context}
use cloud_agent_sandbox.Runtime.Model.{SandboxSpec}
use cloud_agent_sandbox.Kube.Model.{Pod}
use cloud_agent_sandbox.Kube.Pod.Laws.{is_admissible}
use cloud_agent_sandbox.Kube.Calls.{CreatePod}
use cloud_agent_sandbox.Kube.Calls.Laws.{create_admissible}
use cloud_agent_sandbox.Exec.Remote.{Remote}
use cloud_agent_sandbox.Pool.{Wiring, Warm, PoolWorld, acquire}
use cloud_agent_sandbox.Mcp.Model.{Server}
use cloud_agent_sandbox.Orchestrator.Wiring.{
  Host, Parts, kube_runtime, host_environment, pool_acquire, lift_runtime, proxy_of, scaler_of,
  manager_environment,
}
use cloud_agent_sandbox.Orchestrator.Running.{Protocol, Event, run, orchestrate}

-- Two ways to create a pod that agree on each pod that `is_admissible` lets pass for the spec it is
-- built for, with root only where that spec asks for it.
abbrev pub Agree :
    {P : Type 0}
    → (Context → SandboxSpec → CreatePod P)
    → (Context → SandboxSpec → CreatePod P)
    → Type 0
Agree {P = P} f g =
    (ctx : Context) (spec : SandboxSpec) (pod : Pod) (p : P)
    → is_admissible spec.run_as_root pod ≡ true
    → f ctx spec pod p ≡ g ctx spec pod p

module _ {P : Type 0} (h : Host P) (f g : Context → SandboxSpec → CreatePod P)
    (agree : Agree f g) where
  same_runtime : (sc : SandboxConfig) → kube_runtime h f sc ≡ kube_runtime h g sc
  unfolding kube_runtime
  same_runtime sc = λ i. record (kube_runtime h f sc) {
    create = λ ctx spec p.
        (create_admissible (h.api ctx) sc spec (f ctx spec) (g ctx spec) (agree ctx spec) p
            spec.session_id).0
          i;
    resume = λ ctx spec pvc p.
        (create_admissible (h.api ctx) sc spec (f ctx spec) (g ctx spec) (agree ctx spec) p pvc).1
          i;
  }

  same_host : (sc : SandboxConfig) → host_environment h f sc ≡ host_environment h g sc
  unfolding host_environment
  same_host sc = ap (λ r. record (host_environment h f sc) { rt = r }) (same_runtime sc)

  same_acquire :
      (sc : SandboxConfig) (o : Option (Wiring × Warm))
      → pool_acquire h f sc o ≡ pool_acquire h g sc o
  unfolding pool_acquire
  same_acquire sc none = refl
  same_acquire sc (some v) = ap (λ b. some (acquire b v.0)) (same_host sc)

  same_manager : (x : Parts) → manager_environment h f x ≡ manager_environment h g x
  unfolding manager_environment lift_runtime proxy_of scaler_of
  same_manager x = λ i. record (manager_environment h f x) {
    rt = lift_runtime h f (same_runtime x.config.sandbox i);
    acquire = same_acquire x.config.sandbox x.pool i;
  }

  -- No event of a running orchestrator, be it a request, a tick of the reaper or one of the pool,
  -- submits a pod that `is_admissible` refuses for the spec the pod is built for, root included
  -- where the spec does not ask for it: what the creation of such a pod would do makes no
  -- difference to any run. (`is_admissible` asks for no token of a service account, for contained
  -- containers whose mounts the pod declares, and for no root unless it is allowed.)
  pub orchestrate_admissible :
      {M : Type 0} (r : Remote (PoolWorld P)) (m : Protocol (PoolWorld P) M) (x : Parts)
      (vs : List Event) (s : Server (PoolWorld P))
      → orchestrate h f r m x vs s ≡ orchestrate h g r m x vs s
  unfolding orchestrate
  orchestrate_admissible r m x vs s =
      ap (λ e. run e (host_environment h f x.config.sandbox) h.cluster r m x vs s) (same_manager x)
      ∙ ap (λ b. run (manager_environment h g x) b h.cluster r m x vs s)
          (same_host x.config.sandbox)

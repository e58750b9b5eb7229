-- ===== src/Orchestrator/Wiring.antt =====
-- cmd/orchestrator/main.go: what the Manager is given: the Kubernetes runtime, the warm pool, the
-- proxy assigner and the autoscaler. What is outside the program is a host with a state `P`; the
-- Manager's platform is that state with what the pool holds.
use cloud_agent_sandbox.Base.{ℕ, suc, ◌*◌, ◌/◌, Option, none, some, Text, bytes, if◌then◌else◌}
use cloud_agent_sandbox.Base.Int.{ℤ, pos, ltb_ℤ, pos_part}
use cloud_agent_sandbox.Config.Model.{Config, SandboxConfig, second}
use cloud_agent_sandbox.Session.Model.{Error, message, Result, ok, err}
use cloud_agent_sandbox.Runtime.Model.{SandboxSpec, SandboxHandle}
use cloud_agent_sandbox.Manager.World.{Context, Runtime, Environment, ProxyAssigner, Assignment}
use cloud_agent_sandbox.Kube.Calls.{Api, CreatePod}
use cloud_agent_sandbox.Kube.Calls
use cloud_agent_sandbox.Assigner.{ServiceAssigner, assign}
use cloud_agent_sandbox.Autoscaler.{Autoscaler, Cluster, new_autoscaler}
use cloud_agent_sandbox.Autoscaler.Waiting.{Timer, ensure_ready}
use cloud_agent_sandbox.Pool.{Wiring, Warm, PoolWorld, new_warm_pool, acquire}
use cloud_agent_sandbox.Pool
use cloud_agent_sandbox.Reaper.{Reaper}
use cloud_agent_sandbox.Reaper

-- The clients of the API server, under the context of a call; the clock, the contexts, the UUIDs
-- and SHA-256. The creation of pods stands apart; it may depend on the spec that a pod is built for.
pub record Host (P : Type 0) : Type 0 where
  pub api : Context → Api P
  pub cluster : Cluster P
  pub timer : Timer P
  pub now : P → P × ℕ
  pub request_err : P → P × Option Error
  pub new_uuid : P → P × Text
  pub sha256 : Text → Text

-- The parts of a running orchestrator: the assigner and the pool are missing where the proxy is not
-- available, the autoscaler also where it is switched off.
pub record Parts : Type 0 where
  pub config : Config
  pub assigner : Option ServiceAssigner
  pub pool : Option (Wiring × Warm)
  pub autoscaler : Option Autoscaler
  pub reaper : Reaper

-- The pool behind an assignment, launched.
unfoldable pub pool_of : Config → Result Assignment → Option (Wiring × Warm)
pool_of cfg (err e) = none
pool_of cfg (ok a) =
    if ltb_ℤ (pos 0) cfg.pool.min_idle_ready
    then some (
      (new_warm_pool cfg a.endpoint a.ca_cert).0,
      (Pool.start (new_warm_pool cfg a.endpoint a.ca_cert).1).0,
    )
    else none

-- The wiring in `run`, for the assigner if there is one.
unfoldable pub wire : Config → Option ServiceAssigner → Parts
wire cfg none = record {
  config = cfg;
  assigner = none;
  pool = none;
  autoscaler = none;
  reaper = Reaper.new cfg.lifetime;
}
wire cfg (some a) = record {
  config = cfg;
  assigner = some a;
  pool = pool_of cfg (assign a);
  autoscaler =
      if cfg.proxy.autoscale then some (new_autoscaler cfg.proxy cfg.kube.namespace) else none;
  reaper = Reaper.new cfg.lifetime;
}

unfoldable pub error_of : Result (Unit {0}) → Option Error
error_of (ok u) = none
error_of (err e) = some e

-- EnsureReady, whose rounds do not run out on a clock that runs.
unfoldable pub scaled : Option (Result (Unit {0})) → Option Error
unfolding error_of
scaled none = some (message (bytes "timed out waiting for a ready mitmproxy replica"))
scaled (some r) = error_of r

-- The rounds of WaitReady within a timeout: one every two seconds, the first and one behind.
unfoldable pub ready_rounds : ℤ → ℕ
ready_rounds timeout = suc (suc (pos_part timeout / (2 * second)))

module _ {P : Type 0} (h : Host P) (create_pod : Context → SandboxSpec → CreatePod P) where
  abbrev checked : P × Result (Unit {0}) → P × Option Error
  checked r = (r.0, error_of r.1)

  -- runtime.NewKubeRuntime
  unfoldable pub kube_runtime : SandboxConfig → Runtime P
  kube_runtime sc = record {
    create = λ ctx spec. Calls.create (h.api ctx) sc (create_pod ctx spec) spec;
    wait_ready =
        λ ctx name timeout p. checked (Calls.wait_ready (h.api ctx) (ready_rounds timeout) name p);
    stop = λ ctx name p. checked (Calls.stop (h.api ctx) name p);
    resume = λ ctx spec pvc. Calls.resume (h.api ctx) sc (create_pod ctx spec) spec pvc;
    purge = λ ctx name pvc p. checked (Calls.purge (h.api ctx) name pvc p);
    list_sandboxes = λ ctx. Calls.list_sandboxes (h.api ctx);
    list_workspaces = λ ctx. Calls.list_workspaces (h.api ctx);
  }

  -- The environment that the pool works in: the runtime and the contexts, of this host alone.
  unfoldable pub host_environment : SandboxConfig → Environment P
  host_environment sc = record {
    rt = kube_runtime sc;
    acquire = none;
    proxy = none;
    scaler = none;
    now = h.now;
    request_err = h.request_err;
    new_uuid = h.new_uuid;
    sha256 = h.sha256;
  }

  -- A call of the host, from the platform of the Manager.
  abbrev on_host : {A : Type 0} → (P → P × A) → PoolWorld P → PoolWorld P × A
  on_host f w = (record w { platform = (f w.platform).0 }, (f w.platform).1)

  unfoldable pub lift_runtime : Runtime P → Runtime (PoolWorld P)
  lift_runtime r = record {
    create = λ ctx spec. on_host (r.create ctx spec);
    wait_ready = λ ctx name timeout. on_host (r.wait_ready ctx name timeout);
    stop = λ ctx name. on_host (r.stop ctx name);
    resume = λ ctx spec pvc. on_host (r.resume ctx spec pvc);
    purge = λ ctx name pvc. on_host (r.purge ctx name pvc);
    list_sandboxes = λ ctx. on_host (r.list_sandboxes ctx);
    list_workspaces = λ ctx. on_host (r.list_workspaces ctx);
  }

  -- The pool, where there is one.
  unfoldable pub pool_acquire :
      SandboxConfig
      → Option (Wiring × Warm)
      → Option (Context → Text → PoolWorld P → PoolWorld P × Option SandboxHandle)
  pool_acquire sc none = none
  pool_acquire sc (some x) = some (acquire (host_environment sc) x.0)

  unfoldable pub proxy_of : Option ServiceAssigner → Option (ProxyAssigner (PoolWorld P))
  proxy_of none = none
  proxy_of (some a) = some (record { assign = λ ctx id w. (w, assign a); release = λ ctx id w. w })

  unfoldable pub scaler_of :
      Option Autoscaler → Option (Context → PoolWorld P → PoolWorld P × Option Error)
  scaler_of none = none
  scaler_of (some a) =
      some
        (λ ctx. on_host (λ p. let (q, r) = ensure_ready h.cluster h.timer a ctx p in (q, scaled r)))

  -- manager.New and SetProxyScaler
  unfoldable pub manager_environment : Parts → Environment (PoolWorld P)
  manager_environment x = record {
    rt = lift_runtime (kube_runtime x.config.sandbox);
    acquire = pool_acquire x.config.sandbox x.pool;
    proxy = proxy_of x.assigner;
    scaler = scaler_of x.autoscaler;
    now = on_host h.now;
    request_err = on_host h.request_err;
    new_uuid = on_host h.new_uuid;
    sha256 = h.sha256;
  }

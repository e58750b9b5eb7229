-- ===== src/Tests/Orchestrator.antt =====
-- The orchestrator on a small host, whose state says whether there is a claim and whether there is a
-- secret.
use cloud_agent_sandbox.Base.{
  ◌≡◌, ◌⊎◌, refl, Bool, true, false, none, some, List, [], ◌∷◌, Text, bytes, ◌==◌, text_eq,
  if◌then◌else◌,
}
use cloud_agent_sandbox.Runtime.Model.{SandboxSpec}
use cloud_agent_sandbox.Session.Model.{message, ok, err}
use cloud_agent_sandbox.Manager.World.{Environment}
use cloud_agent_sandbox.Kube.Calls.{CreatePod}
use cloud_agent_sandbox.Kube.Model.{found}
use cloud_agent_sandbox.Kube.Pod.Laws.{is_admissible}
use cloud_agent_sandbox.Assigner.{ServiceAssigner, created, ca_cert_key}
use cloud_agent_sandbox.Autoscaler.{Cluster}
use cloud_agent_sandbox.Exec.Remote.{Remote, finished}
use cloud_agent_sandbox.Mcp.Model.{Server}
use cloud_agent_sandbox.Mcp.Entry.{creates}
use cloud_agent_sandbox.Pool.{PoolWorld}
use cloud_agent_sandbox.Steps.{Ends}
use cloud_agent_sandbox.Orchestrator.Front.{HttpRequest, Handler, plain, mux, api_handler, serve}
use cloud_agent_sandbox.Orchestrator.Front.Laws.{Public, Carries, serve-Guarded}
use cloud_agent_sandbox.Orchestrator.Wiring.{
  Host, Parts, wire, manager_environment, host_environment,
}
use cloud_agent_sandbox.Orchestrator.Running.{
  Protocol, Event, serves, reaps, scales, replenishes, orchestrate, mcp_handler,
}
use cloud_agent_sandbox.Orchestrator.Running.Pods.{Agree, orchestrate_admissible}
use cloud_agent_sandbox.Orchestrator.Start.{Boot, start}
use cloud_agent_sandbox.Orchestrator.Start.Laws.{IsStarted, IsRefused, start-IsStarted}
use cloud_agent_sandbox.Tests.Config.{variables, no_durations, expected}
use cloud_agent_sandbox.Tests.Kube.{api, accepting}
use cloud_agent_sandbox.Tests.Mcp.{arguments}
use cloud_agent_sandbox.Tests.Netpolicy.{policy, daemon_sets}

abbrev State : Type 0
State = Bool × Bool

abbrev cluster : Cluster State
cluster = record {
  pods = λ ctx label p. (p, ok []);
  replicas = λ ctx p. (p, ok none);
  patch = λ ctx d p. (p, none);
}

abbrev host : Host State
host = record {
  api = λ ctx. api;
  cluster = cluster;
  timer = record { now = λ p. (p, 0); pause = λ ctx p. (p, none) };
  now = λ p. (p, 7);
  request_err = λ p. (p, none);
  new_uuid = λ p. (p, bytes "f81d4fae");
  sha256 = λ t. bytes "0123456789abcdef0123456789abcdef";
}

abbrev remote : Remote (PoolWorld State)
remote = record {
  stream = λ limit pod argv stdin p.
      (p, record { out = bytes "ok\n" ∷ []; err_out = []; end = finished });
  expired = λ limit p. (p, false);
  now = λ p. (p, 7);
  new_uuid = λ p. (p, bytes "a1");
}

abbrev assigner : ServiceAssigner
assigner = record { endpoint = bytes "mitmproxy:8080"; ca_cert = bytes "PEM" }

abbrev parts : Parts
parts = wire expected (some assigner)

-- Every request of the protocol creates a sandbox.
abbrev protocol : Protocol (PoolWorld State) Text
protocol = record {
  call_of = λ q. some (creates arguments);
  show = λ r. record { status = 200; headers = []; content = plain (bytes "done") };
  no_call = λ q. record { status = 400; headers = []; content = plain [] };
}

abbrev server : Server (PoolWorld State)
server = record {
  manager = record {
    platform = record {
      platform = (false, false);
      warm = record { idle = []; warming = 0; started = true };
    };
    sessions = [];
    active = [];
  };
  jobs = [];
}

-- A request for the tools with a value of the header.
abbrev request_with : Text → HttpRequest
request_with value = record {
  method = bytes "POST";
  path = bytes "/mcp";
  header = λ name. if name == bytes "Authorization" then value else bytes "agent";
  body = none;
}

abbrev events : List Event
events =
    serves (request_with (bytes "Bearer guess"))
    ∷ serves (request_with (bytes "Bearer key"))
    ∷ reaps
    ∷ replenishes 3
    ∷ scales
    ∷ []

abbrev environment : Environment (PoolWorld State)
environment = manager_environment host (λ ctx spec. accepting) parts

abbrev pool_environment : Environment State
pool_environment = host_environment host (λ ctx spec. accepting) expected.sandbox

abbrev tools : Handler (Server (PoolWorld State)) Text
tools = mcp_handler environment pool_environment cluster remote protocol parts

abbrev good : HttpRequest
good = request_with (bytes "Bearer key")

serve-Guarded_example :
    (Carries (bytes "key") good
      × (serve expected environment tools good server
          ≡ mux (λ next. next) (api_handler expected environment tools) tools good server))
    ⊎ ((¬ Carries (bytes "key") good)
        × ((serve expected environment tools good server).0 ≡ server)
        × Public (serve expected environment tools good server).1)
serve-Guarded_example = serve-Guarded expected environment tools good server

-- A cluster that refuses a pod which is not admissible for the spec it is built for.
abbrev strict : SandboxSpec → CreatePod State
strict spec pod p =
    if is_admissible spec.run_as_root pod
    then accepting pod p
    else (p, err (message (bytes "forbidden")))

strict_agrees : Agree (λ ctx spec. accepting) (λ ctx. strict)
strict_agrees ctx spec pod p h = rw h refl

orchestrate_admissible_example :
    orchestrate host (λ ctx spec. accepting) remote protocol parts events server
    ≡ orchestrate host (λ ctx. strict) remote protocol parts events server
orchestrate_admissible_example =
    orchestrate_admissible host (λ ctx spec. accepting) (λ ctx. strict) strict_agrees remote
      protocol parts events server

abbrev boot : Boot State
boot = record {
  connect = λ path p. (p, none);
  listings = λ namespace p. (p, (ok (policy ∷ []), ok daemon_sets));
  secrets = λ namespace. record {
    get = λ p. (p, found ((ca_cert_key, bytes "PEM") ∷ []));
    create = λ data_of p. (p, created);
    generate_ca = λ p. (p, ok (bytes "PEM", bytes "KEY"));
  };
}

start-IsStarted_example :
    Ends
      (start no_durations boot variables (false, false))
      (λ q x. IsStarted no_durations boot variables x)
      (λ q e. IsRefused no_durations boot variables)
start-IsStarted_example = start-IsStarted no_durations boot variables (false, false)

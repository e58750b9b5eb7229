-- ===== src/Tests/Autoscaler.antt =====
-- The number of proxy replicas at a concrete input.
use cloud_agent_sandbox.Base.{
  ℕ, ◌+◌, ◌≤◌, refl, false, none, some, [], ◌∷◌, arith, bytes, ltb, if◌then◌else◌,
}
use cloud_agent_sandbox.Base.Int.{pos, pos_part}
use cloud_agent_sandbox.Config.Model.{second}
use cloud_agent_sandbox.Session.Model.{ok}
use cloud_agent_sandbox.Manager.World.{request}
use cloud_agent_sandbox.Autoscaler.{Pod, Cluster, desired_replicas}
use cloud_agent_sandbox.Autoscaler.Waiting.{Timer, ensure_ready}
use cloud_agent_sandbox.Autoscaler.Waiting.Scaling.{ensure_ready-Keeps}
use cloud_agent_sandbox.Autoscaler.Waiting.Ending.{Runs, Finished, ensure_ready-Finished}
use cloud_agent_sandbox.Autoscaler.{Autoscaler}
use cloud_agent_sandbox.Autoscaler.Laws.{IsFit, desired_replicas-IsFit}

abbrev autoscaler : Autoscaler
autoscaler = record {
  namespace = bytes "sandboxes";
  deployment = bytes "mitmproxy";
  per_proxy = pos 100;
  min_replicas = pos 0;
  max_replicas = pos 10;
  interval = pos 15000000000;
  scale_up_timeout = pos 60000000000;
}

desired_replicas-IsFit_example : IsFit autoscaler 250 100 (desired_replicas autoscaler (pos 250))
desired_replicas-IsFit_example =
    desired_replicas-IsFit autoscaler 250 100 refl (omega arith) (omega arith) (omega arith)
      (omega arith) (omega arith) (λ h. omega arith)

-- A cluster whose state is the clock and the number of replicas: a proxy is ready if there is one.
abbrev ready_pod : Pod
ready_pod = record { terminating = false; conditions = (bytes "Ready", bytes "True") ∷ [] }

abbrev cluster : Cluster (ℕ × ℕ)
cluster = record {
  pods = λ ctx label p. (p, ok (if ltb 0 p.1 then ready_pod ∷ [] else []));
  replicas = λ ctx p. (p, ok (some (pos p.1)));
  patch = λ ctx d p. ((p.0, pos_part d), none);
}

abbrev timer : Timer (ℕ × ℕ)
timer = record { now = λ p. (p, p.0); pause = λ ctx p. ((p.0 + second, p.1), none) }

abbrev three_proxies : Autoscaler
three_proxies = record autoscaler { min_replicas = pos 3 }

-- From one proxy to three.
ensure_ready-Keeps_example : 1 ≤ (ensure_ready cluster timer three_proxies request (0, 1)).0.1
ensure_ready-Keeps_example =
    ensure_ready-Keeps cluster timer three_proxies request (λ p. 1 ≤ p.1)
      record {
        pods = λ label p h. h;
        replicas = λ p h. h;
        patch = λ p o d e l g h. omega (arith, g);
        now = λ p h. h;
        pause = λ p h. h;
      }
      (0, 1) (omega arith)

abbrev runs : Runs cluster timer request (λ p. p.0)
runs = record {
  pods = λ label p. omega arith;
  shown = λ p. refl;
  now = λ p. omega arith;
  pause = λ p g. omega arith;
}

-- From no proxy to one.
ensure_ready-Finished_example :
    Finished cluster autoscaler request
      (ensure_ready cluster timer autoscaler request (0, 0)).0
      (ensure_ready cluster timer autoscaler request (0, 0)).1
ensure_ready-Finished_example =
    ensure_ready-Finished cluster timer autoscaler request (λ p. p.0) runs (0, 0)

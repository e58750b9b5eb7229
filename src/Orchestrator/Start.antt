-- ===== src/Orchestrator/Start.antt =====
-- cmd/orchestrator/main.go: `run` up to the server: the guards of the start, and what it wires. What
-- it asks of the cluster is an environment with a state `P`.
pub mod Laws
use cloud_agent_sandbox.Base.{
  ℕ, Bool, true, false, Option, none, some, List, [], ◌∷◌, Text, bytes, ◌==◌, text_eq,
  if◌then◌else◌,
}
use cloud_agent_sandbox.Base.Int.{ℤ}
use cloud_agent_sandbox.Config.Model.{Config}
use cloud_agent_sandbox.Config.Load.{Environment, load}
use cloud_agent_sandbox.Session.Model.{Error, message, wrap, Result, ok, err}
use cloud_agent_sandbox.Steps.{Step, ◌>>=◌, ◌>>◌, pure, fail, from, ignore}
use cloud_agent_sandbox.Netpolicy.{NetworkPolicy, Options, verify}
use cloud_agent_sandbox.Assigner.{Secrets, ServiceAssigner, new_service_assigner, ensure_ca_secret}
use cloud_agent_sandbox.Orchestrator.Wiring.{Parts, wire}

-- kube.New at a path; the policies and the DaemonSets that Verify lists, the latter asked for only
-- where the former do not settle it; and the secret of the CA.
pub record Boot (P : Type 0) : Type 0 where
  pub connect : Text → P → P × Option Error
  pub listings : Text → P → P × (Result (List NetworkPolicy) × Result (List Text))
  pub secrets : Text → Secrets P

unfoldable pub policy_options : Config → Options
policy_options cfg = record {
  namespace = cfg.kube.namespace;
  pod_label_key = [];
  pod_label_value = [];
  enforced_override = cfg.security.network_policy_enforced;
}

-- What follows from the error of Verify.
unfoldable pub policy_verdict : Config → Option Error → Result (Unit {0})
policy_verdict cfg none = ok tt
policy_verdict cfg (some e) =
    if cfg.security.require_network_policy
    then err (wrap (bytes "refusing to start (sandbox egress containment unverified): ") e)
    else ok tt

unfoldable pub key_verdict : Config → Result (Unit {0})
key_verdict cfg =
    if cfg.security.api_key == []
    then err (
        message
          (bytes "SANDBOX_API_KEY is required (refusing to start an unauthenticated orchestrator)"))
    else ok tt

module _ {P : Type 0} (parse_duration : Text → Option ℤ) (boot : Boot P) where
  unfoldable pub connected : Text → Step P (Unit {0})
  connected path p =
      let (q, e) = boot.connect path p in (q, elim e [ none ↦ ok tt | some x ↦ err x ])

  -- The error of Verify.
  unfoldable pub verified : Config → P → P × Option Error
  verified cfg p =
      let (q, l) = boot.listings cfg.kube.namespace p in
      (q, (verify (policy_options cfg) l.0 l.1).1)

  unfoldable pub check_policy : Config → Step P (Unit {0})
  check_policy cfg p = let (q, e) = verified cfg p in (q, policy_verdict cfg e)

  -- The assigner, if there is one.
  unfoldable pub try_assigner : Config → Step P (Option ServiceAssigner)
  try_assigner cfg p =
      let (q, r) =
        new_service_assigner (boot.secrets cfg.kube.namespace) cfg.proxy.service_name cfg.proxy.port
          cfg.kube.namespace p in
      (q, ok (elim r [ ok a ↦ some a | err e ↦ none ]))

  -- What is wired behind the guards.
  unfoldable pub assemble : Config → Step P Parts
  assemble cfg = do
    ignore (ensure_ca_secret (boot.secrets cfg.kube.namespace))
    a ← try_assigner cfg
    pure (wire cfg a)

  -- The guards, for a configuration that has been loaded.
  unfoldable pub guarded : Config → Step P Parts
  guarded cfg = do
    from (key_verdict cfg)
    connected cfg.kube.kubeconfig
    check_policy cfg
    assemble cfg

  -- run
  unfoldable pub start : Environment → Step P Parts
  start look = do cfg ← from (load parse_duration look); guarded cfg

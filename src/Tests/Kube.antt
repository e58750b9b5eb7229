-- ===== src/Tests/Kube.antt =====
-- The Kubernetes runtime over a cluster that accepts every pod. Its state says whether there is a
-- claim and whether there is a secret.
use cloud_agent_sandbox.Base.{
  ◌≡◌, refl, Bool, true, false, not, none, [], ◌∷◌, bytes, ◌==◌, text_eq, list_beq,
}
use cloud_agent_sandbox.Base.Dict.{lookup}
use cloud_agent_sandbox.Session.Model.{ok}
use cloud_agent_sandbox.Config.Model.{SandboxConfig, default}
use cloud_agent_sandbox.Runtime.Model.{SandboxSpec}
use cloud_agent_sandbox.Kube.Model.{Pod, LivePod, found, missing}
use cloud_agent_sandbox.Kube.Pod.{
  pod_name, pvc_name, session_label, pool_label, label_of, build_pod, handle_from_pod, sandbox_ref,
  session_id_from_pod_name,
}
use cloud_agent_sandbox.Kube.Pod.Laws.{sandbox_ref-build_pod}
use cloud_agent_sandbox.Kube.Calls.{Api, CreatePod}

abbrev Cluster : Type 0
Cluster = Bool × Bool

abbrev pub api : Api Cluster
api = record {
  parse_quantity = λ t. none;
  get_pvc = λ n p. (p, missing);
  create_pvc = λ c p. ((true, p.1), none);
  delete_pvc = λ n p. ((false, p.1), found tt);
  create_secret = λ s p. ((p.0, true), none);
  delete_secret = λ n p. ((p.0, false), found tt);
  get_pod = λ n p. (p, missing);
  delete_pod = λ n p. (p, missing);
  list_pods = λ p. (p, ok []);
  list_pvcs = λ p. (p, ok []);
  tick = λ p. (p, false);
}

abbrev live : Pod → LivePod
live pod = record {
  pod = pod;
  phase = bytes "Pending";
  statuses = [];
  terminating = false;
  created_at = 7;
}

abbrev pub accepting : CreatePod Cluster
accepting pod p = (p, ok (live pod))

abbrev spec : SandboxSpec
spec = record {
  session_id = bytes "s1";
  image = [];
  runtime_class = [];
  proxy_endpoint = bytes "10.0.0.7:8443";
  ca_cert = bytes "PEM";
  labels = (bytes "team", bytes "a") ∷ [];
  warm = false;
  run_as_root = false;
  writable_root = false;
}

abbrev sc : SandboxConfig
sc = default.sandbox

no_session : lookup session_label spec.labels ≡ none
unfolding lookup list_beq
no_session = refl

abbrev listed : LivePod
listed = live (build_pod sc spec (bytes "pvc-s1"))

sandbox_ref-build_pod_example :
    (sandbox_ref listed ≡ record {
      pod_name = pod_name (bytes "s1");
      pvc_name = pvc_name (bytes "s1");
      session_id = bytes "s1";
      pool = not (label_of pool_label spec.labels == []);
      created_at = 7;
    })
    × (session_id_from_pod_name (sandbox_ref listed).pod_name ≡ bytes "s1")
    × ((handle_from_pod listed).pvc_name ≡ bytes "pvc-s1")
unfolding lookup
sandbox_ref-build_pod_example =
    sandbox_ref-build_pod sc spec (bytes "pvc-s1") listed (refl, tt) no_session refl

-- ===== src/Kube/Calls/Laws.antt =====
-- internal/runtime/kubernetes.go: which pods Create and Resume submit.
use cloud_agent_sandbox.Base.{◌≡◌, ap, true, Text}
use cloud_agent_sandbox.Config.Model.{SandboxConfig}
use cloud_agent_sandbox.Runtime.Model.{SandboxSpec}
use cloud_agent_sandbox.Kube.Model.{Pod}
use cloud_agent_sandbox.Kube.Pod.{pvc_name, build_pod}
use cloud_agent_sandbox.Kube.Pod.Laws.{is_admissible, build_pod_admissible}
use cloud_agent_sandbox.Kube.Calls.{Api, CreatePod, create, create_with, resume, resume_with}

-- Create and Resume submit no pod but one that the admission check lets pass: two ways to create a
-- pod that agree on the admissible ones make no difference to them, in any state and however the
-- other calls end.
pub create_admissible :
    {P : Type 0} (api : Api P) (sc : SandboxConfig) (spec : SandboxSpec) (f g : CreatePod P)
    → ((pod : Pod) (p : P) → is_admissible spec.run_as_root pod ≡ true → f pod p ≡ g pod p)
    → (p : P) (pvc : Text)
    → (create api sc f spec p ≡ create api sc g spec p)
      × (resume api sc f spec pvc p ≡ resume api sc g spec pvc p)
unfolding create resume
create_admissible api sc spec f g agree p pvc =
    let same : (c : Text) → f (build_pod sc spec c) ≡ g (build_pod sc spec c) =
      λ c i q. (agree (build_pod sc spec c) q (build_pod_admissible sc spec c)) i in
    (
      ap (λ s. create_with api sc spec s p) (same (pvc_name spec.session_id)),
      ap (λ s. resume_with api spec s p) (same pvc),
    )

-- ===== src/Kube/Pod/Names.antt =====
-- internal/runtime/kubernetes.go: the names of the objects of a session.
use cloud_agent_sandbox.Base.{◌<◌, ◌≡◌, Text, bytes, arith, length}
use cloud_agent_sandbox.Strings.Trim.{Each}
use cloud_agent_sandbox.Session.Id.{canonical_id}
use cloud_agent_sandbox.Session.Id.Laws.{IsLabel, append-IsLabel, canonical_id-IsLabel}
use cloud_agent_sandbox.Kube.Pod.{pod_name, pvc_name, ca_secret_name}

-- The names that Kubernetes is asked for are labels of DNS of at most 63 bytes, for any reference
-- that a caller sends, and so is the value of the session's label. (A hash has 32 bytes.)
pub canonical_names-IsLabel :
    (sha256 : Text → Text) (ref : Text)
    → ((t : Text) → length (sha256 t) ≡ 32)
    → Each (λ b. b < 256) (sha256 ref)
    → IsLabel 63 (pod_name (canonical_id sha256 ref))
      × IsLabel 63 (pvc_name (canonical_id sha256 ref))
      × IsLabel 63 (ca_secret_name (canonical_id sha256 ref))
      × IsLabel 51 (canonical_id sha256 ref)
unfolding pod_name pvc_name ca_secret_name
canonical_names-IsLabel sha256 ref size h =
    let id = canonical_id sha256 ref in
    let label = canonical_id-IsLabel sha256 size ref h in
    (
      append-IsLabel 51 63 b's' (bytes "bx-") id (ground arith) (ground arith) (omega arith) label,
      append-IsLabel 51 63 b'p' (bytes "vc-") id (ground arith) (ground arith) (omega arith) label,
      append-IsLabel 51 63 b'c' (bytes "a-") id (ground arith) (ground arith) (omega arith) label,
      label,
    )

-- ===== src/Kube/Pod/Laws.antt =====
-- internal/runtime/kubernetes.go: the posture of the pod of a sandbox, and what is read back of it.
use cloud_agent_sandbox.Base.{
  ◌≡◌, refl, ap, ◌∙◌, inl, inr, Bool, true, false, not, ◌&&◌, ◌||◌, Option, none, some, List, [],
  ◌∷◌, ◌++◌, Text, bytes, ◌==◌, nat_eq, text_eq, list_beq, arith, Bool-cases, Option-cases,
}
use cloud_agent_sandbox.Base.Dict.{Dict, lookup, insert, lookup-insert, HasUniqueKeys}
use cloud_agent_sandbox.Strings.{trim_prefix}
use cloud_agent_sandbox.Strings.Laws.{cut_prefix_iff}
use cloud_agent_sandbox.Config.Model.{SandboxConfig}
use cloud_agent_sandbox.Runtime.Model.{SandboxSpec}
use cloud_agent_sandbox.Kube.Model.{Volume, Mount, SecurityContext, Container, Pod, LivePod}
use cloud_agent_sandbox.Kube.Pod.{
  session_label, pool_label, pod_name, pvc_name, session_id_from_pod_name, overlay, labels,
  label_of, has_ca, volumes_of, mounts_of, container_of, build_pod, first_pvc_name, handle_from_pod,
  sandbox_ref,
}

unfoldable pub is_declared : List Volume → Text → Bool
is_declared [] name = false
is_declared (v ∷ vs) name = v.name == name || is_declared vs name

unfoldable pub are_declared : List Volume → List Mount → Bool
are_declared vs [] = true
are_declared vs (m ∷ ms) = is_declared vs m.name && are_declared vs ms

-- No escalation of privileges, no privileges and no capabilities.
unfoldable pub is_contained : SecurityContext → Bool
is_contained s =
    not s.allow_privilege_escalation
    && not s.privileged
    && list_beq (λ a b. a == b) s.drop (bytes "ALL" ∷ [])

unfoldable pub are_contained : List Volume → List Container → Bool
are_contained vs [] = true
are_contained vs (c ∷ cs) =
    is_contained c.security && are_declared vs c.mounts && are_contained vs cs

-- What a cluster may demand of the pod of a sandbox, which the program does not check itself: no
-- token of a service account, contained containers whose mounts are volumes of the pod, and no
-- root unless `root` allows it.
unfoldable pub is_admissible : Bool → Pod → Bool
is_admissible root pod =
    not pod.automount_token
    && (root || pod.run_as_non_root)
    && are_contained pod.volumes pod.containers

module _ (sc : SandboxConfig) where
  pub build_pod_admissible :
      (spec : SandboxSpec) (pvc : Text)
      → is_admissible spec.run_as_root (build_pod sc spec pvc) ≡ true
  unfolding is_admissible are_contained is_contained are_declared is_declared list_beq build_pod
      container_of volumes_of mounts_of
  build_pod_admissible spec pvc = elim (Bool-cases (has_ca sc spec)) [
    | inl h ↦ rw h (ground arith)
    | inr h ↦ rw h (ground arith)
  ]

lookup-overlay :
    (k : Text) (es m : Dict Text)
    → HasUniqueKeys es
    → lookup k (overlay es m) ≡ elim (lookup k es) [ none ↦ lookup k m | some v ↦ some v ]
unfolding overlay lookup
lookup-overlay k [] m u = refl
lookup-overlay k ((j, v) ∷ es) m u =
    ground (
      arith,
      lookup-overlay k es (insert j v m) u.1,
      lookup-insert j k v m,
      text_eq.beq_iff j k,
      u.0,
    )

trim-append : (p t : Text) → trim_prefix p (p ++ t) ≡ t
unfolding trim_prefix
trim-append p t = rw ((cut_prefix_iff p (p ++ t) t).1 refl, trim_prefix) refl

abbrev own_labels : SandboxSpec → Dict Text
own_labels spec = insert session_label spec.session_id (insert (bytes "app") (bytes "sandbox") [])

abbrev or_empty : Option Text → Text
or_empty none = []
or_empty (some v) = v

labels_session :
    (spec : SandboxSpec)
    → HasUniqueKeys spec.labels
    → lookup session_label spec.labels ≡ none
    → label_of session_label (labels spec) ≡ spec.session_id
unfolding label_of labels lookup insert list_beq
labels_session spec u n =
    ap or_empty (lookup-overlay session_label spec.labels (own_labels spec) u) ∙ rw n refl

labels_pool :
    (spec : SandboxSpec)
    → HasUniqueKeys spec.labels
    → label_of pool_label (labels spec) ≡ label_of pool_label spec.labels
unfolding label_of labels lookup insert list_beq
labels_pool spec u =
    ap or_empty (lookup-overlay pool_label spec.labels (own_labels spec) u)
    ∙ elim (Option-cases (lookup pool_label spec.labels)) [
      | inl n ↦ rw (n, label_of) refl
      | inr (v, q) ↦ rw (q, label_of) refl
    ]

-- What the orchestrator reads back of a sandbox that it has created: from the listed pod its name,
-- the session and whether it is of the pool, from the name of the pod the session, and from the
-- volumes the claim of the workspace. (The labels of the request do not name the session.)
pub sandbox_ref-build_pod :
    (sc : SandboxConfig) (spec : SandboxSpec) (pvc : Text) (p : LivePod)
    → HasUniqueKeys spec.labels
    → lookup session_label spec.labels ≡ none
    → p.pod ≡ build_pod sc spec pvc
    → (sandbox_ref p ≡ record {
      pod_name = pod_name spec.session_id;
      pvc_name = pvc_name spec.session_id;
      session_id = spec.session_id;
      pool = not (label_of pool_label spec.labels == []);
      created_at = p.created_at;
    })
      × (session_id_from_pod_name (sandbox_ref p).pod_name ≡ spec.session_id)
      × ((handle_from_pod p).pvc_name ≡ pvc)
unfolding sandbox_ref handle_from_pod build_pod session_id_from_pod_name pod_name volumes_of
    first_pvc_name
sandbox_ref-build_pod sc spec pvc p u n h =
    rw (h, labels_session spec u n, labels_pool spec u)
      (refl, trim-append (bytes "sbx-") spec.session_id, refl)

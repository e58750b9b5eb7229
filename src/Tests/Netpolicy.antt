-- ===== src/Tests/Netpolicy.antt =====
-- The check of the network policy at a small cluster.
use cloud_agent_sandbox.Base.{◌≡◌, ◌≢◌, ◌↔◌, refl, none, List, [], ◌∷◌, Text, bytes, list_beq}
use mathlib.Core.List.Memᴰ.{head, tail}
use cloud_agent_sandbox.Base.Dict.{lookup}
use cloud_agent_sandbox.Strings.{contains, to_lower}
use cloud_agent_sandbox.Session.Model.{ok}
use cloud_agent_sandbox.Netpolicy.{NetworkPolicy, Options, verify}
use cloud_agent_sandbox.Netpolicy.Laws.{HasEgressPolicy, Enforced, Listed, listed_ok, verify_iff}

abbrev opts : Options
opts = record {
  namespace = bytes "sandboxes";
  pod_label_key = [];
  pod_label_value = [];
  enforced_override = none;
}

abbrev pub policy : NetworkPolicy
policy = record {
  name = bytes "sandbox-egress";
  policy_types = bytes "Egress" ∷ [];
  match_labels = (bytes "app", bytes "sandbox") ∷ [];
  match_expressions = [];
}

abbrev pub daemon_sets : List Text
daemon_sets = bytes "kube-proxy" ∷ bytes "cilium" ∷ []

verify_test : (verify opts (ok (policy ∷ [])) (ok daemon_sets)).1 ≡ none
unfolding verify list_beq lookup contains to_lower
verify_test = refl

policy_named : (p : NetworkPolicy) → Listed p (ok (policy ∷ [])) → p.name ≢ []
policy_named p l = elim (listed_ok p (policy ∷ []) l) [ head e ↦ λ n. cc | tail m ↦ elim m [ ] ]

daemon_set_named : (n : Text) → Listed n (ok daemon_sets) → n ≢ []
daemon_set_named n l = elim (listed_ok n daemon_sets l) [
  | head e ↦ λ k. cc
  | tail m ↦ elim m [ head e ↦ λ k. cc | tail m ↦ elim m [ ] ]
]

verify_iff_example :
    ((verify opts (ok (policy ∷ [])) (ok daemon_sets)).1 ≡ none)
    ↔ (HasEgressPolicy opts (ok (policy ∷ [])) × Enforced none (ok daemon_sets))
verify_iff_example =
    verify_iff opts (ok (policy ∷ [])) (ok daemon_sets) policy_named daemon_set_named

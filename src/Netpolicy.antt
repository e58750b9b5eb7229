-- ===== src/Netpolicy.antt =====
-- internal/netpolicy/verify.go: the check that the cluster enforces the egress policy of the
-- sandboxes. What the API server lists is an argument.
pub mod Laws
use cloud_agent_sandbox.Base.{
  Bool, true, false, ◌&&◌, ◌||◌, Option, none, some, List, [], ◌∷◌, Text, bytes, ◌==◌, nat_eq,
  text_eq, if◌then◌else◌,
}
use cloud_agent_sandbox.Base.Dict.{Dict, lookup}
use cloud_agent_sandbox.Strings.{contains, to_lower}
use cloud_agent_sandbox.Session.Model.{Error, message, Result, ok, err}

-- metav1.LabelSelectorRequirement
pub record LabelSelectorRequirement : Type 0 where
  pub key : Text
  pub operator : Text
  pub values : List Text

-- networkingv1.NetworkPolicy: its name, its types and its selector of pods. The check does not look
-- at the expressions of the selector.
pub record NetworkPolicy : Type 0 where
  pub name : Text
  pub policy_types : List Text
  pub match_labels : Dict Text
  pub match_expressions : List LabelSelectorRequirement

-- Options. A nil EnforcedOverride is `none`.
pub record Options : Type 0 where
  pub namespace : Text
  pub pod_label_key : Text
  pub pod_label_value : Text
  pub enforced_override : Option Bool

-- netpolicy.Result
pub record Findings : Type 0 where
  pub policy_found : Bool
  pub policy_name : Text
  pub enforcer_found : Bool
  pub enforcer_name : Text
  pub reason : Text

abbrev pub known_enforcing_daemon_sets : List Text
known_enforcing_daemon_sets =
    bytes "calico-node"
    ∷ bytes "cilium"
    ∷ bytes "anetd"
    ∷ bytes "azure-npm"
    ∷ bytes "kube-router"
    ∷ bytes "weave-net"
    ∷ []

-- hasEgressType
unfoldable pub has_egress_type : List Text → Bool
has_egress_type [] = false
has_egress_type (t ∷ ts) = t == bytes "Egress" || has_egress_type ts

-- selectorMatches
unfoldable pub selector_matches : Dict Text → Text → Text → Bool
selector_matches [] key value = true
selector_matches (e ∷ es) key value = elim (lookup key (e ∷ es)) [
  | none ↦ false
  | some v ↦ v == value
]

-- The loop of findSandboxEgressPolicy over the listed policies.
unfoldable pub find_sandbox_egress_policy : List NetworkPolicy → Text → Text → Text
unfolding has_egress_type selector_matches
find_sandbox_egress_policy [] key value = []
find_sandbox_egress_policy (p ∷ ps) key value =
    let rest = find_sandbox_egress_policy ps key value in
    if has_egress_type (p.policy_types)
    then (if selector_matches (p.match_labels) key value then p.name else rest)
    else rest

unfoldable pub is_known : Text → List Text → Bool
is_known name [] = false
is_known name (k ∷ ks) = contains name k || is_known name ks

-- The loop of detectEnforcingCNI over the names of the DaemonSets of kube-system.
unfoldable pub detect_enforcing_cni : List Text → Text
unfolding is_known
detect_enforcing_cni [] = []
detect_enforcing_cni (name ∷ names) =
    let rest = detect_enforcing_cni names in
    if is_known (to_lower name) known_enforcing_daemon_sets then name else rest

unfoldable pub or_default : Text → Text → Text
or_default t fallback = if t == [] then fallback else t

unfoldable pub nothing_found : Text → Findings
nothing_found reason = record {
  policy_found = false;
  policy_name = [];
  enforcer_found = false;
  enforcer_name = [];
  reason = reason;
}

unfoldable pub policy_only : Text → Text → Findings
policy_only policy reason = record {
  policy_found = true;
  policy_name = policy;
  enforcer_found = false;
  enforcer_name = [];
  reason = reason;
}

unfoldable pub both_found : Text → Text → Findings
both_found policy enforcer = record {
  policy_found = true;
  policy_name = policy;
  enforcer_found = true;
  enforcer_name = enforcer;
  reason = [];
}

failed : Error
failed = message (bytes "network policy verification failed: ")

-- Verify, from the listing of the DaemonSets on.
unfoldable pub verify_enforcer : Text → Result (List Text) → Findings × Option Error
unfolding detect_enforcing_cni policy_only both_found failed
verify_enforcer policy (err e) =
    (policy_only policy (bytes "could not list DaemonSets in kube-system"), some failed)
verify_enforcer policy (ok names) =
    let name = detect_enforcing_cni names in
    if name == []
    then (
      policy_only policy (bytes "no known NetworkPolicy-enforcing CNI detected in kube-system "),
      some (message (bytes "network policy enforcement not confirmed: ")),
    )
    else (both_found policy name, none)

-- Verify, from the found policy on.
unfoldable pub verify_enforcement :
    Text → Option Bool → Result (List Text) → Findings × Option Error
unfolding verify_enforcer both_found policy_only
verify_enforcement policy none daemon_sets = verify_enforcer policy daemon_sets
verify_enforcement policy (some b) daemon_sets =
    if b
    then (
      both_found policy (bytes "operator-asserted (SANDBOX_NETWORK_POLICY_ENFORCED=true)"),
      none,
    )
    else (
      policy_only policy (bytes "operator set SANDBOX_NETWORK_POLICY_ENFORCED=false"),
      some (message (bytes "network policy enforcement disabled by operator: ")),
    )

-- Verify
unfoldable pub verify :
    Options → Result (List NetworkPolicy) → Result (List Text) → Findings × Option Error
unfolding find_sandbox_egress_policy or_default nothing_found verify_enforcement failed
verify opts (err e) daemon_sets =
    (nothing_found (bytes "could not list NetworkPolicies"), some failed)
verify opts (ok policies) daemon_sets =
    let key = or_default (opts.pod_label_key) (bytes "app") in
    let value = or_default (opts.pod_label_value) (bytes "sandbox") in
    let policy = find_sandbox_egress_policy policies key value in
    if policy == []
    then (nothing_found (bytes "no egress NetworkPolicy selects sandbox pods"), some failed)
    else verify_enforcement policy (opts.enforced_override) daemon_sets

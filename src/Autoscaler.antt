-- ===== src/Autoscaler.antt =====
-- internal/proxy/autoscaler.go: how many proxy replicas there should be, and the calls that scale
-- to that number. The cluster is a parameter with a state `P` of its own. The ticker of Run is left
-- out.
pub mod Laws
pub mod Waiting
use cloud_agent_sandbox.Base.{
  ℕ, suc, ◌+◌, ◌-◌, ◌*◌, ◌/◌, Bool, true, false, ◌&&◌, not, Option, none, some, List, [], ◌∷◌, Text,
  bytes, ltb, ◌==◌, text_eq, length, select, if◌then◌else◌,
}
use cloud_agent_sandbox.Base.Int.{ℤ, pos, negsuc, sub_ℕ, leb_ℤ, ltb_ℤ, pos_part}
use cloud_agent_sandbox.Config.Model.{ProxyConfig, second}
use cloud_agent_sandbox.Session.Model.{Error, wrap, Result, ok, err}
use cloud_agent_sandbox.Manager.World.{Context}

pub record Autoscaler : Type 0 where
  pub namespace : Text
  pub deployment : Text
  pub per_proxy : ℤ
  pub min_replicas : ℤ
  pub max_replicas : ℤ
  pub interval : ℤ
  pub scale_up_timeout : ℤ

unfoldable pub new_autoscaler : ProxyConfig → Text → Autoscaler
new_autoscaler cfg namespace = record {
  namespace = namespace;
  deployment = cfg.deployment_name;
  per_proxy = cfg.sandboxes_per_proxy;
  min_replicas = cfg.min_replicas;
  max_replicas = cfg.max_replicas;
  interval = cfg.autoscale_interval;
  scale_up_timeout = cfg.scale_up_timeout;
}

-- `if a.interval <= 0 { a.interval = 15 * time.Second }`
unfoldable pub interval_of : Autoscaler → ℤ
interval_of a = if leb_ℤ a.interval (pos 0) then pos (15 * second) else a.interval

unfoldable pub per_of : Autoscaler → ℕ
per_of a = if leb_ℤ a.per_proxy (pos 0) then 100 else pos_part a.per_proxy

-- `(n + per - 1) / per` on an int of 64 bits, for positive `n` and `per`: a sum from 2^63 on wraps
-- to a negative number, and a division rounds to zero.
unfoldable pub quotient : ℕ → ℕ → ℤ
quotient n per =
    let s = n + per - 1 in
    if ltb s 9223372036854775808 then pos (s / per) else sub_ℕ 0 ((18446744073709551616 - s) / per)

abbrev pub raise_to : ℤ → ℤ → ℤ
raise_to low r = if ltb_ℤ r low then low else r

unfoldable pub desired_replicas : Autoscaler → ℤ → ℤ
desired_replicas a n =
    if leb_ℤ n (pos 0)
    then a.min_replicas
    else let r = raise_to a.min_replicas (raise_to (pos 1) (quotient (pos_part n) (per_of a))) in
      if ltb_ℤ (pos 0) a.max_replicas && ltb_ℤ a.max_replicas r then a.max_replicas else r

-- A pod of a listing: whether its DeletionTimestamp is set, and the types and statuses of its
-- conditions.
pub record Pod : Type 0 where
  pub terminating : Bool
  pub conditions : List (Text × Text)

-- The clientset: a listing of pods by their label, the replicas of the deployment and the patch of
-- them.
pub record Cluster (P : Type 0) : Type 0 where
  pub pods : Context → Text → P → P × Result (List Pod)
  pub replicas : Context → P → P × Result (Option ℤ)
  pub patch : Context → ℤ → P → P × Option Error

unfoldable pub is_ready : List (Text × Text) → Bool
is_ready [] = false
is_ready ((t, s) ∷ cs) = if t == bytes "Ready" && s == bytes "True" then true else is_ready cs

-- The loop of proxyReadyCount.
unfoldable pub ready_count : List Pod → ℕ
ready_count ps = length (select (λ p. not p.terminating && is_ready p.conditions) ps)

-- `*dep.Spec.Replicas`, or 0
abbrev pub current_of : Option ℤ → ℤ
current_of none = pos 0
current_of (some r) = r

module _ {P : Type 0} (k : Cluster P) (a : Autoscaler) where
  unfoldable pub count_sandbox_pods : Context → P → P × Result ℤ
  count_sandbox_pods ctx p =
      let (q, r) = k.pods ctx (bytes "app=sandbox") p in
      (
        q,
        elim r [
          | ok ps ↦ ok (pos (length (select (λ x. not x.terminating) ps)))
          | err x ↦ err (wrap (bytes "list sandbox pods: ") x)
        ],
      )

  unfoldable pub proxy_ready_count : Context → P → P × Result ℕ
  proxy_ready_count ctx p =
      let (q, r) = k.pods ctx (bytes "app=mitmproxy") p in
      (q, elim r [ ok ps ↦ ok (ready_count ps) | err x ↦ err x ])

  -- patchReplicas, and the results of its caller: whether the number has changed, and from which.
  unfoldable pub patch_replicas : Context → ℤ → ℤ → P → P × Result (Bool × ℤ)
  patch_replicas ctx current desired p =
      let (q, r) = k.patch ctx desired p in
      (
        q,
        elim r [
          | none ↦ ok (true, current)
          | some x ↦ err (wrap (bytes "patch proxy deployment replicas: ") x)
        ],
      )

  -- The part that scaleTo and scaleUpTo share: `keep` is the test that leaves the number alone.
  unfoldable pub scale : (ℤ → Bool) → Context → ℤ → P → P × Result (Bool × ℤ)
  scale keep ctx desired p =
      let (q, r) = k.replicas ctx p in
      elim r [
        | err x ↦ (q, err (wrap (bytes "get proxy deployment ") x))
        | ok o ↦
            if keep (current_of o)
            then (q, ok (false, current_of o))
            else patch_replicas ctx (current_of o) desired q
      ]

  unfoldable pub scale_to : Context → ℤ → P → P × Result (Bool × ℤ)
  scale_to ctx desired = scale (λ c. leb_ℤ c desired && leb_ℤ desired c) ctx desired

  unfoldable pub scale_up_to : Context → ℤ → P → P × Result (Bool × ℤ)
  scale_up_to ctx desired = scale (λ c. leb_ℤ desired c) ctx desired

  abbrev pub error_of : P × Result (Bool × ℤ) → P × Option Error
  error_of (p, ok r) = (p, none)
  error_of (p, err x) = (p, some x)

  unfoldable pub reconcile : Context → P → P × Option Error
  reconcile ctx p =
      let (q, r) = count_sandbox_pods ctx p in
      elim r [ err x ↦ (q, some x) | ok n ↦ error_of (scale_to ctx (desired_replicas a n) q) ]

-- ===== src/Config/Laws.antt =====
-- internal/config/config.go: what a validated and a loaded configuration satisfies.
use cloud_agent_sandbox.Base.{◌≡◌, ◌≢◌, ◌↔◌, true, none, [], text_eq, arith}
use cloud_agent_sandbox.Base.Int.{pos, ◌≤ℤ◌, ◌<ℤ◌}
use cloud_agent_sandbox.Config.Model.{Config, validate, ProxyConfig}

-- What the autoscaler needs of its settings.
pub record IsScalable (p : ProxyConfig) : Type 0 where
  pub some_sandboxes : pos 0 <ℤ p.sandboxes_per_proxy
  pub floor_nonneg : pos 0 ≤ℤ p.min_replicas
  pub floor_below_cap : pos 0 <ℤ p.max_replicas → p.min_replicas ≤ℤ p.max_replicas

pub record IsConsistent (c : Config) : Type 0 where
  pub idle_within_cap : c.pool.min_idle_ready ≤ℤ c.pool.max_running
  pub running_ttl_pos : pos 0 <ℤ c.lifetime.running_ttl
  pub stopped_ttl_pos : pos 0 <ℤ c.lifetime.stopped_ttl
  pub max_lifetime_pos : pos 0 <ℤ c.lifetime.max_lifetime
  pub scalable : c.proxy.autoscale ≡ true → IsScalable c.proxy
  pub has_namespace : c.kube.namespace ≢ []

validate_sound : (c : Config) → validate c ≡ none → IsConsistent c
unfolding validate
validate_sound c h = ground (arith, text_eq.beq_iff c.kube.namespace [])

validate_complete : (c : Config) → IsConsistent c → validate c ≡ none
unfolding validate
validate_complete c h = ground (arith, text_eq.beq_iff c.kube.namespace [])

-- Validate accepts a configuration exactly if it is consistent: the warm pool fits under the
-- running cap, the three lifetimes are positive, the namespace is set and, with autoscaling on,
-- the autoscaler's settings are usable.
pub validate-IsConsistent : (c : Config) → (validate c ≡ none) ↔ IsConsistent c
validate-IsConsistent c = (validate_sound c, validate_complete c)

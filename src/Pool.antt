-- ===== src/Pool.antt =====
-- internal/pool/pool.go: the warm pool. `Warm` is what the mutex guards; each of acquire, reserve
-- and finish holds the lock from its start to its end, so that it is one atomic step. The ticker of
-- `run` is left out: `replenish` is what one tick runs.
pub mod Laws
pub mod Filling
use cloud_agent_sandbox.Base.{
  ℕ, zero, suc, ◌+◌, ◌-◌, Bool, true, false, ◌&&◌, Option, none, some, List, [], ◌∷◌, ◌++◌, Text,
  bytes, ◌==◌, text_eq, ltb, length, if◌then◌else◌,
}
use cloud_agent_sandbox.Base.Int.{ℤ, pos, ltb_ℤ, leb_ℤ}
use cloud_agent_sandbox.Config.Model.{Config}
use cloud_agent_sandbox.Session.Model.{Error, Result, ok, err}
use cloud_agent_sandbox.Runtime.Model.{SandboxSpec, SandboxHandle}
use cloud_agent_sandbox.Manager.World.{Context, background, Runtime, Environment, context_err}
use cloud_agent_sandbox.Manager.Create.{ready_timeout}

pub record Warm : Type 0 where
  pub idle : List SandboxHandle
  pub warming : ℕ
  pub started : Bool

-- PoolStats, as Stats reports it.
pub record PoolStats : Type 0 where
  pub idle : ℕ
  pub warming : ℕ

unfoldable pub stats : Warm → PoolStats
stats p = record { idle = length p.idle; warming = p.warming }

-- The guard of Start: whether this call is the one that launches `run`.
unfoldable pub start : Warm → Warm × Bool
start p = if p.started then (p, false) else (record p { started = true }, true)

-- The body of Acquire behind its first check.
unfoldable pub take_idle : Warm → Warm × Option SandboxHandle
take_idle p = elim p.idle [ [] ↦ (p, none) | h ∷ hs ↦ (record p { idle = hs }, some h) ]

unfoldable pub target_idle : Config → ℤ
target_idle cfg =
    if ltb_ℤ (pos 0) cfg.pool.max_running && ltb_ℤ cfg.pool.max_running cfg.pool.min_idle_ready
    then cfg.pool.max_running
    else cfg.pool.min_idle_ready

unfoldable pub reserve_warming_slot : Config → Warm → Warm × Bool
reserve_warming_slot cfg p =
    if leb_ℤ (target_idle cfg) (pos 0)
    then (p, false)
    else if leb_ℤ (target_idle cfg) (pos (length p.idle + p.warming))
    then (p, false)
    else (record p { warming = p.warming + 1 }, true)

-- `if handle != nil && len(p.idle) < p.targetIdle()`
unfoldable pub put_idle : Config → Option SandboxHandle → Warm → Warm
put_idle cfg none p = p
put_idle cfg (some h) p =
    if ltb_ℤ (pos (length p.idle)) (target_idle cfg)
    then record p { idle = p.idle ++ (h ∷ []) }
    else p

unfoldable pub finish_warming : Config → Option SandboxHandle → Warm → Warm
finish_warming cfg h p =
    put_idle cfg h (record p { warming = if ltb 0 p.warming then p.warming - 1 else p.warming })

-- The fields of WarmPool that do not change, but for the runtime, which the environment holds.
pub record Wiring : Type 0 where
  pub cfg : Config
  pub proxy_endpoint : Text
  pub ca_cert : Text
  pub default_image : Text

pub record PoolWorld (P : Type 0) : Type 0 where
  pub platform : P
  pub warm : Warm

unfoldable pub new_warm_pool : Config → Text → Text → Wiring × Warm
new_warm_pool cfg endpoint ca = (
  record {
    cfg = cfg;
    proxy_endpoint = endpoint;
    ca_cert = ca;
    default_image = cfg.sandbox.default_image;
  },
  record { idle = []; warming = 0; started = false },
)

-- How the loop of `replenish` ends: the pool is full, an error stops it, or the fuel is spent.
pub data Outcome : Type 0 where
  filled : Outcome
  failed : Error → Outcome
  out_of_fuel : Outcome

module _ {P : Type 0} (e : Environment P) (x : Wiring) where
  unfoldable pub acquire : Context → Text → PoolWorld P → PoolWorld P × Option SandboxHandle
  acquire ctx image w =
      let (p, c) = context_err e ctx w.platform in
      elim c [
        | some x ↦ (record w { platform = p }, none)
        | none ↦
            if image == x.default_image
            then (let (s, h) = take_idle w.warm in (record w { platform = p; warm = s }, h))
            else (record w { platform = p }, none)
      ]

  unfoldable pub warm_spec : Text → SandboxSpec
  warm_spec uuid = record {
    session_id = bytes "pool-" ++ uuid;
    image = x.default_image;
    runtime_class = x.cfg.sandbox.runtime_class;
    proxy_endpoint = x.proxy_endpoint;
    ca_cert = x.ca_cert;
    labels = (bytes "sandbox/pool", bytes "idle") ∷ [];
    warm = true;
    run_as_root = x.cfg.sandbox.run_as_root;
    writable_root = x.cfg.sandbox.writable_root_filesystem;
  }

  -- The second half of createOne: waits for the new sandbox, which is purged if it does not come up.
  unfoldable pub await_warm : Context → SandboxHandle → PoolWorld P → PoolWorld P × Option Error
  await_warm ctx h w =
      let (p, r) = e.rt.wait_ready ctx h.pod_name ready_timeout w.platform in
      elim r [
        | none ↦ (record w { platform = p; warm = finish_warming x.cfg (some h) w.warm }, none)
        | some y ↦ (
          record w {
            platform = (e.rt.purge background h.pod_name h.pvc_name p).0;
            warm = finish_warming x.cfg none w.warm;
          },
          some y,
        )
      ]

  -- createOne
  unfoldable pub create_one : Context → PoolWorld P → PoolWorld P × Option Error
  create_one ctx w =
      let (p, uuid) = e.new_uuid w.platform in
      let (p', r) = e.rt.create ctx (warm_spec uuid) p in
      elim r [
        | ok h ↦ await_warm ctx h (record w { platform = p' })
        | err y ↦ (record w { platform = p'; warm = finish_warming x.cfg none w.warm }, some y)
      ]

  -- `for p.reserveWarmingSlot() { ... }`
  unfoldable pub replenish_loop : ℕ → Context → PoolWorld P → PoolWorld P × Outcome
  replenish_loop zero ctx w = (w, out_of_fuel)
  replenish_loop (suc n) ctx w =
      let (s, reserved) = reserve_warming_slot x.cfg w.warm in
      let (v, r) = create_one ctx (record w { warm = s }) in
      let rest = replenish_loop n ctx v in
      if reserved
      then elim r [ none ↦ rest | some y ↦ (v, failed y) ]
      else (record w { warm = s }, filled)

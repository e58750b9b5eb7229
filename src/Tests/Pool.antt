-- ===== src/Tests/Pool.antt =====
-- The warm pool at concrete inputs.
use cloud_agent_sandbox.Base.{ℕ, ◌≡◌, true, some, List, [], ◌∷◌, ◌++◌, bytes, arith}
use cloud_agent_sandbox.Config.Model.{default}
use cloud_agent_sandbox.Runtime.Model.{SandboxHandle}
use cloud_agent_sandbox.Manager.World.{request}
use cloud_agent_sandbox.Pool.{
  Warm, PoolWorld, Wiring, take_idle, target_idle, reserve_warming_slot, put_idle, finish_warming,
  replenish_loop,
}
use cloud_agent_sandbox.Pool.Laws.{
  Event, takes, reserves, finishes, taken, warmed, run, step, IsPaired, IsBounded, taken-warmed,
  run-IsBounded,
}
use cloud_agent_sandbox.Pool.Filling.{IsReplenished, replenish_loop-IsReplenished}
use cloud_agent_sandbox.Tests.Platform.{platform, handle}

abbrev other : SandboxHandle
other = record handle { pod_name = bytes "other" }

abbrev one_idle : Warm
one_idle = record { idle = handle ∷ []; warming = 0; started = true }

-- A slot is reserved, the idle sandbox is taken meanwhile, the new one arrives and is taken, and a
-- last taker finds nothing.
abbrev events : List Event
events = reserves ∷ takes ∷ finishes (some other) ∷ takes ∷ takes ∷ []

one_idle-IsBounded : IsBounded default one_idle
unfolding default target_idle
one_idle-IsBounded = omega arith

events-IsPaired : IsPaired default events one_idle
unfolding IsPaired step default target_idle reserve_warming_slot take_idle finish_warming put_idle
events-IsPaired = (omega arith, tt)

taken-warmed_example :
    taken default events one_idle ++ (run default events one_idle).idle
    ≡ (handle ∷ []) ++ warmed events
taken-warmed_example = taken-warmed default events one_idle one_idle-IsBounded events-IsPaired

run-IsBounded_example : IsBounded default (run default events one_idle)
run-IsBounded_example = run-IsBounded default events one_idle one_idle-IsBounded events-IsPaired

abbrev wiring : Wiring
wiring = record {
  cfg = default;
  proxy_endpoint = [];
  ca_cert = [];
  default_image = bytes "sandbox-default:latest";
}

abbrev pool_world : PoolWorld ℕ
pool_world = record { platform = 0; warm = one_idle }

replenish_loop-IsReplenished_example :
    IsReplenished platform wiring request one_idle
      (replenish_loop platform wiring 2 request pool_world).0.warm
      (replenish_loop platform wiring 2 request pool_world).1
unfolding default target_idle
replenish_loop-IsReplenished_example =
    replenish_loop-IsReplenished platform wiring request 2 pool_world one_idle-IsBounded
      (omega arith)

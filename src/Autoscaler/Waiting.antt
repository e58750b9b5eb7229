-- ===== src/Autoscaler/Waiting.antt =====
-- internal/proxy/autoscaler.go: EnsureReady, which a creation calls in front of its sandbox. The
-- loop of waitProxyReady runs on fuel; `none` says that the fuel has run out.
pub mod Scaling
pub mod Ending
use cloud_agent_sandbox.Base.{
  ℕ, zero, suc, ◌+◌, ◌*◌, ◌/◌, Bool, true, false, Option, none, some, bytes, ltb, if◌then◌else◌,
}
use cloud_agent_sandbox.Base.Int.{ℤ, pos, leb_ℤ, ltb_ℤ, pos_part, ◌+ℤ◌}
use cloud_agent_sandbox.Config.Model.{second}
use cloud_agent_sandbox.Session.Model.{Error, message, wrap, Result, ok, err}
use cloud_agent_sandbox.Manager.World.{Context, unit_result}
use cloud_agent_sandbox.Autoscaler.{
  Autoscaler, Cluster, count_sandbox_pods, desired_replicas, scale_up_to, proxy_ready_count,
}

-- The clock, and the select of the loop: a second has passed, or the context has ended with an
-- error.
pub record Timer (P : Type 0) : Type 0 where
  pub now : P → P × ℕ
  pub pause : Context → P → P × Option Error

-- `if timeout <= 0 { timeout = 60 * time.Second }`
unfoldable pub timeout_of : Autoscaler → ℕ
timeout_of a = if leb_ℤ a.scale_up_timeout (pos 0) then 60 * second else pos_part a.scale_up_timeout

-- `err == nil && ready >= 1`
unfoldable pub some_ready : Result ℕ → Bool
some_ready (ok r) = ltb 0 r
some_ready (err e) = false

-- The two errors behind the deadline.
unfoldable pub timed_out : Result ℕ → Error
timed_out (err e) = wrap (bytes "timed out waiting for proxy readiness: ") e
timed_out (ok r) = message (bytes "timed out waiting for a ready mitmproxy replica")

-- `if err != nil { return err }` behind a call, in front of what follows it.
unfoldable pub attempt :
    {P A : Type 0}
    → Result A
    → (A → P → P × Option {0} (Result (Unit {0})))
    → P
    → P × Option {0} (Result (Unit {0}))
attempt (err e) f p = (p, some (err e))
attempt (ok x) f p = f x p

module _ {P : Type 0} (k : Cluster P) (t : Timer P) (a : Autoscaler) (ctx : Context) where
  -- The loop of waitProxyReady.
  unfoldable pub until_ready : ℕ → ℕ → P → P × Option {0} (Result (Unit {0}))
  until_ready zero deadline p = (p, none)
  until_ready (suc n) deadline p =
      let rest = until_ready n deadline in
      let (q, r) = proxy_ready_count k a ctx p in
      if some_ready r
      then (q, some (ok tt))
      else let (u, now) = t.now q in
        if ltb deadline now
        then (u, some (err (timed_out r)))
        else let (v, e) = t.pause ctx u in attempt (unit_result e) (λ u. rest) v

  -- waitProxyReady, in at most `n` rounds.
  unfoldable pub wait_proxy_ready : ℕ → P → P × Option {0} (Result (Unit {0}))
  wait_proxy_ready n p = let (q, now) = t.now p in until_ready n (now + timeout_of a) q

  -- One round a second up to the timeout, one behind it and the first.
  unfoldable pub rounds : ℕ
  rounds = suc (suc (timeout_of a / second))

  -- `if desired < 1 { desired = 1 }`
  abbrev pub wanted : ℤ → ℤ
  wanted n =
      let desired = desired_replicas a (n +ℤ pos 1) in
      if ltb_ℤ desired (pos 1) then pos 1 else desired

  -- EnsureReady
  unfoldable pub ensure_ready : P → P × Option {0} (Result (Unit {0}))
  ensure_ready p =
      let (q, c) = count_sandbox_pods k a ctx p in
      attempt c
        (λ n u.
          let (v, s) = scale_up_to k a ctx (wanted n) u in
          attempt s (λ r. wait_proxy_ready rounds) v)
        q

-- ===== src/Autoscaler/Waiting/Ending.antt =====
-- internal/proxy/autoscaler.go: EnsureReady comes back, with a ready proxy where it succeeds.
use cloud_agent_sandbox.Base.{
  ℕ, zero, suc, ◌+◌, ◌*◌, ◌/◌, ◌≤◌, ◌<◌, ◌≡◌, refl, ap, inl, inr, true, false, Option, none, some,
  ltb, arith, Bool-cases, Text, bytes,
}
use native.Mathlib.Nat.{lt-div-mul-add}
use cloud_agent_sandbox.Config.Model.{second}
use cloud_agent_sandbox.Session.Model.{Error, Result, ok, err}
use cloud_agent_sandbox.Manager.World.{Context, unit_result}
use cloud_agent_sandbox.Autoscaler.{Autoscaler, Cluster, scale_up_to, proxy_ready_count}
use cloud_agent_sandbox.Autoscaler.Waiting.{
  Timer, timeout_of, some_ready, attempt, until_ready, wait_proxy_ready, rounds, wanted,
  ensure_ready,
}

-- A clock that does not run backwards and shows each pause of a second.
pub record Runs {P : Type 0} (k : Cluster P) (t : Timer P) (ctx : Context) (time : P → ℕ)
    : Type 0 where
  pub pods : (label : Text) (p : P) → time p ≤ time (k.pods ctx label p).0
  pub shown : (p : P) → (t.now p).1 ≡ time p
  pub now : (p : P) → time p ≤ time (t.now p).0
  pub pause : (p : P) → (t.pause ctx p).1 ≡ none → time p + second ≤ time (t.pause ctx p).0

module _ {P : Type 0} (k : Cluster P) (a : Autoscaler) (ctx : Context) where
  -- The loop has not run out of rounds, and a success comes behind a listing with a ready proxy,
  -- after which nothing else is done.
  abbrev pub Finished : P → Option (Result (Unit {0})) → Type 0
  Finished v none = ⊥
  Finished v (some (err e)) = Unit
  Finished v (some (ok u)) = (q : P) × (r : ℕ) × (proxy_ready_count k a ctx q ≡ (v, ok (suc r)))

module _ {P : Type 0} (k : Cluster P) (t : Timer P) (a : Autoscaler) (ctx : Context) (time : P → ℕ)
    (h : Runs k t ctx time) where
  attempt-Finished :
      {A : Type 0} (r : Result A) (f : A → P → P × Option (Result (Unit {0}))) (p : P)
      → ((x : A) → r ≡ ok x → Finished k a ctx (f x p).0 (f x p).1)
      → Finished k a ctx (attempt r f p).0 (attempt r f p).1
  unfolding attempt
  attempt-Finished (ok x) f p j = j x refl
  attempt-Finished (err e) f p j = tt

  counted :
      (p : P) (r : Result ℕ)
      → (proxy_ready_count k a ctx p).1 ≡ r
      → some_ready r ≡ true
      → Finished k a ctx (proxy_ready_count k a ctx p).0 (some (ok tt))
  unfolding some_ready
  counted p (ok (suc r)) s b = (p, r, ap (λ x. ((proxy_ready_count k a ctx p).0, x)) s)
  counted p (ok zero) s b = absurd (ground (arith, b))
  counted p (err e) s b = absurd (ground (arith, b))

  passed : (e : Option Error) → unit_result e ≡ ok tt → e ≡ none
  passed none s = refl
  passed (some e) s = absurd (ground (arith, s))

  listing_later : (p : P) → time p ≤ time (proxy_ready_count k a ctx p).0
  unfolding proxy_ready_count
  listing_later p = h.pods (bytes "app=mitmproxy") p

  -- The clock behind a round of the loop that pauses.
  advanced :
      (p : P)
      → (t.pause ctx (t.now (proxy_ready_count k a ctx p).0).0).1 ≡ none
      → time p + second ≤ time (t.pause ctx (t.now (proxy_ready_count k a ctx p).0).0).0
  advanced p g =
      let q = (proxy_ready_count k a ctx p).0 in
      omega (arith, listing_later p, h.now q, h.pause (t.now q).0 g)

  shown_later : (p : P) → time p ≤ (t.now (proxy_ready_count k a ctx p).0).1
  shown_later p =
      let q = (proxy_ready_count k a ctx p).0 in omega (arith, listing_later p, h.shown q)

  -- The state behind the pause of a round.
  abbrev behind_pause : P → P
  behind_pause p = (t.pause ctx (t.now (proxy_ready_count k a ctx p).0).0).0

  round-Finished :
      (n deadline : ℕ) (p : P)
      → (ltb deadline (t.now (proxy_ready_count k a ctx p).0).1 ≡ false
          → (t.pause ctx (t.now (proxy_ready_count k a ctx p).0).0).1 ≡ none
          → Finished k a ctx
              (until_ready k t a ctx n deadline (behind_pause p)).0
              (until_ready k t a ctx n deadline (behind_pause p)).1)
      → Finished k a ctx
          (until_ready k t a ctx (suc n) deadline p).0
          (until_ready k t a ctx (suc n) deadline p).1
  unfolding until_ready
  round-Finished n deadline p f =
      let c = proxy_ready_count k a ctx p in
      elim (Bool-cases (some_ready c.1)) [
        | inl b ↦ rw b (counted p _ refl b)
        | inr b ↦ elim (Bool-cases (ltb deadline (t.now c.0).1)) [
          | inl d ↦ rw (b, d) tt
          | inr d ↦
              rw (b, d)
                (attempt-Finished _ (λ x. until_ready k t a ctx n deadline) _
                  λ x g. f d (passed _ g))
        ]
      ]

  until_ready-Finished :
      (n deadline : ℕ) (p : P)
      → deadline < time p + n * second
      → Finished k a ctx
          (until_ready k t a ctx (suc n) deadline p).0
          (until_ready k t a ctx (suc n) deadline p).1
  until_ready-Finished zero deadline p l =
      round-Finished zero deadline p λ d g. absurd (ground (arith, l, d, shown_later p))
  until_ready-Finished (suc n) deadline p l =
      round-Finished (suc n) deadline p
        λ d g. until_ready-Finished n deadline _ (omega (arith, l, advanced p g))

  wait_proxy_ready-Finished :
      (p : P)
      → Finished k a ctx
          (wait_proxy_ready k t a ctx (rounds k t a ctx) p).0
          (wait_proxy_ready k t a ctx (rounds k t a ctx) p).1
  unfolding wait_proxy_ready rounds
  wait_proxy_ready-Finished p = until_ready-Finished (suc (timeout_of a / second)) _ _ (
      omega
        (arith, h.shown p, h.now p, lt-div-mul-add {a = timeout_of a} {b = second} (omega arith)))

  -- Where the clock does not run backwards and shows each pause, EnsureReady comes back within its
  -- rounds: one for each second of the timeout, and two. Where it reports success, a listing just
  -- before has shown at least one proxy that is ready.
  pub ensure_ready-Finished :
      (p : P) → Finished k a ctx (ensure_ready k t a ctx p).0 (ensure_ready k t a ctx p).1
  unfolding ensure_ready
  ensure_ready-Finished p =
      attempt-Finished _
        (λ n u.
          attempt (scale_up_to k a ctx (wanted k t a ctx n) u).1
            (λ r. wait_proxy_ready k t a ctx (rounds k t a ctx))
            (scale_up_to k a ctx (wanted k t a ctx n) u).0)
        _
        λ n g.
          attempt-Finished _ (λ r. wait_proxy_ready k t a ctx (rounds k t a ctx)) _
            λ r s. wait_proxy_ready-Finished _

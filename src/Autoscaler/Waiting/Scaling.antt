-- ===== src/Autoscaler/Waiting/Scaling.antt =====
-- internal/proxy/autoscaler.go: EnsureReady only scales up.
use cloud_agent_sandbox.Base.{
  ℕ, zero, suc, ◌≡◌, refl, inl, inr, Bool, true, false, Option, ltb, arith, if◌then◌else◌,
  Bool-cases, Text, bytes,
}
use cloud_agent_sandbox.Base.Int.{ℤ, pos, ◌≤ℤ◌, ◌<ℤ◌, leb_ℤ}
use cloud_agent_sandbox.Session.Model.{Result, ok, err}
use cloud_agent_sandbox.Manager.World.{Context}
use cloud_agent_sandbox.Autoscaler.{
  Autoscaler, Cluster, current_of, count_sandbox_pods, patch_replicas, scale, scale_up_to,
  proxy_ready_count,
}
use cloud_agent_sandbox.Autoscaler.Waiting.{
  Timer, some_ready, attempt, until_ready, wait_proxy_ready, rounds, wanted, ensure_ready,
}

-- A property of the platform that every call but the patch keeps, and the patch where it raises a
-- number of replicas that has just been read to a positive one.
pub record Raises {P : Type 0} (k : Cluster P) (t : Timer P) (ctx : Context) (K : P → Type 0)
    : Type 0 where
  pub pods : (label : Text) (p : P) → K p → K (k.pods ctx label p).0
  pub replicas : (p : P) → K p → K (k.replicas ctx p).0
  pub patch :
      (p : P) (o : Option ℤ) (d : ℤ)
      → (k.replicas ctx p).1 ≡ ok o
      → current_of o <ℤ d
      → pos 1 ≤ℤ d
      → K (k.replicas ctx p).0
      → K (k.patch ctx d (k.replicas ctx p).0).0
  pub now : (p : P) → K p → K (t.now p).0
  pub pause : (p : P) → K p → K (t.pause ctx p).0

module _ {P : Type 0} (k : Cluster P) (t : Timer P) (a : Autoscaler) (ctx : Context)
    (K : P → Type 0) (h : Raises k t ctx K) where
  attempt-Keeps :
      {A : Type 0} (r : Result A) (f : A → P → P × Option (Result (Unit {0}))) (p : P)
      → K p
      → ((x : A) → K (f x p).0)
      → K (attempt r f p).0
  unfolding attempt
  attempt-Keeps (ok x) f p i j = j x
  attempt-Keeps (err e) f p i j = i

  until_ready-Keeps : (n deadline : ℕ) (p : P) → K p → K (until_ready k t a ctx n deadline p).0
  unfolding until_ready proxy_ready_count
  until_ready-Keeps zero deadline p i = i
  until_ready-Keeps (suc n) deadline p i =
      let j = h.pods (bytes "app=mitmproxy") p i in
      let q = (proxy_ready_count k a ctx p).0 in
      let l = h.now q j in
      let m = h.pause (t.now q).0 l in
      elim (Bool-cases (some_ready (proxy_ready_count k a ctx p).1)) [
        | inl b ↦ rw b j
        | inr b ↦ elim (Bool-cases (ltb deadline (t.now q).1)) [
          | inl c ↦ rw (b, c) l
          | inr c ↦
              rw (b, c)
                (attempt-Keeps _ (λ u. until_ready k t a ctx n deadline) _ m
                  λ u. until_ready-Keeps n deadline _ m)
        ]
      ]

  patched :
      (q : P) (d : ℤ) (o : Option ℤ) (b : Bool)
      → (k.replicas ctx q).1 ≡ ok o
      → leb_ℤ d (current_of o) ≡ b
      → pos 1 ≤ℤ d
      → K q
      → K
          (if b
            then ((k.replicas ctx q).0, ok (false, current_of o))
            else patch_replicas k a ctx (current_of o) d (k.replicas ctx q).0).0
  unfolding patch_replicas
  patched q d o true s b g i = h.replicas q i
  patched q d o false s b g i = h.patch q o d s (ground (arith, b)) g (h.replicas q i)

  raised :
      (q : P) (d : ℤ) (r : Result (Option ℤ))
      → pos 1 ≤ℤ d
      → (k.replicas ctx q).1 ≡ r
      → K q
      → K (scale_up_to k a ctx d q).0
  unfolding scale_up_to scale patch_replicas
  raised q d (err e) g s i = rw (s, scale_up_to, scale) (h.replicas q i)
  raised q d (ok o) g s i = rw (s, scale_up_to, scale) (patched q d o _ s refl g i)

  wanted-positive : (n : ℤ) → pos 1 ≤ℤ wanted k t a ctx n
  wanted-positive n = ground arith

  -- What every call keeps, and a patch that raises the number of replicas, EnsureReady keeps: it
  -- never lowers the number, nor sets it to zero.
  pub ensure_ready-Keeps : (p : P) → K p → K (ensure_ready k t a ctx p).0
  unfolding ensure_ready count_sandbox_pods wait_proxy_ready
  ensure_ready-Keeps p i =
      let j = h.pods (bytes "app=sandbox") p i in
      attempt-Keeps _
        (λ n u.
          attempt (scale_up_to k a ctx (wanted k t a ctx n) u).1
            (λ r. wait_proxy_ready k t a ctx (rounds k t a ctx))
            (scale_up_to k a ctx (wanted k t a ctx n) u).0)
        _ j
        λ n.
          let l = raised _ (wanted k t a ctx n) _ (wanted-positive n) refl j in
          attempt-Keeps _ (λ r. wait_proxy_ready k t a ctx (rounds k t a ctx)) _ l
            λ r. until_ready-Keeps _ _ _ (h.now _ l)

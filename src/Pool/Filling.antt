-- ===== src/Pool/Filling.antt =====
-- internal/pool/pool.go: the loop of replenish ends, and how.
use cloud_agent_sandbox.Base.{
  ℕ, zero, suc, ◌+◌, ◌-◌, ◌<◌, ◌≡◌, ◌≢◌, refl, sym, subst, ◌∙◌, ap, true, false, Option, none, some,
  List, [], ◌∷◌, ◌++◌, Text, length, length-append, append-nil, append_assoc, arith, Option-cases,
  Bool-cases, inl, inr, ◌⊎◌,
}
use cloud_agent_sandbox.Base.Int.{pos_part}
use cloud_agent_sandbox.Config.Model.{Config}
use cloud_agent_sandbox.Session.Model.{Error, ok, err}
use cloud_agent_sandbox.Runtime.Model.{SandboxHandle}
use cloud_agent_sandbox.Manager.World.{Context, Environment}
use cloud_agent_sandbox.Manager.World.Outcome.{Result-cases}
use cloud_agent_sandbox.Manager.Create.{ready_timeout}
use cloud_agent_sandbox.Pool.{
  Warm, PoolWorld, Wiring, Outcome, filled, out_of_fuel, failed, target_idle, reserve_warming_slot,
  put_idle, finish_warming, warm_spec, await_warm, create_one, replenish_loop,
}
use cloud_agent_sandbox.Pool.Laws.{IsBounded}

-- What is left to warm.
abbrev pub missing : Config → Warm → ℕ
missing cfg p = pos_part (target_idle cfg) - (length p.idle + p.warming)

module _ {P : Type 0} (e : Environment P) (x : Wiring) (ctx : Context) where
  -- The platform created the sandbox for a spec of the pool and then found it ready.
  pub record IsWarmed (h : SandboxHandle) : Type 0 where
    pub before : P
    pub uuid : Text
    pub created : (e.rt.create ctx (warm_spec e x uuid) before).1 ≡ ok h
    pub ready :
        (e.rt.wait_ready ctx h.pod_name ready_timeout
          (e.rt.create ctx (warm_spec e x uuid) before).0).1
        ≡ none

  -- The error is that of the creation of a sandbox of the pool, or of the wait for it.
  pub record IsFailure (y : Error) : Type 0 where
    pub before : P
    pub uuid : Text
    pub failure :
        ((e.rt.create ctx (warm_spec e x uuid) before).1 ≡ err y)
        ⊎ ((h : SandboxHandle) × ((e.rt.create ctx (warm_spec e x uuid) before).1 ≡ ok h)
            × ((e.rt.wait_ready ctx h.pod_name ready_timeout
                  (e.rt.create ctx (warm_spec e x uuid) before).0).1
                ≡ some y))

  abbrev pub AllWarmed : List SandboxHandle → Type 0
  AllWarmed [] = Unit
  AllWarmed (h ∷ hs) = IsWarmed h × AllWarmed hs

  -- The pool after a run of the loop: new sandboxes, each created and found ready, stand behind the
  -- old ones, every slot that was reserved is free again, the pool is full if the loop says so, and
  -- an error with which the loop ends is one of the platform.
  pub record IsReplenished (p q : Warm) (o : Outcome) : Type 0 where
    pub ends : o ≢ out_of_fuel
    pub fresh : List SandboxHandle
    pub warmed : AllWarmed fresh
    pub behind : q.idle ≡ p.idle ++ fresh
    pub slots : q.warming ≡ p.warming
    pub full : o ≡ filled → length q.idle + q.warming ≡ pos_part (target_idle x.cfg)
    pub stopped : (y : Error) → o ≡ failed y → IsFailure y
    pub bounded : IsBounded x.cfg q

-- One round of the loop's body, under a slot that is reserved, which adds a sandbox with `W` or ends
-- with an error with `F`.
record IsRound (W : SandboxHandle → Type 0) (F : Error → Type 0) (p q : Warm) (r : Option Error)
    : Type 0 where
  slots : q.warming + 1 ≡ p.warming
  added :
      ((r ≡ none) × ((h : SandboxHandle) × W h × (q.idle ≡ p.idle ++ (h ∷ []))))
      ⊎ ((y : Error) × (r ≡ some y) × F y × (q.idle ≡ p.idle))

module _ {W : SandboxHandle → Type 0} {F : Error → Type 0} where
  finish_warming-none-IsRound :
      (cfg : Config) (p : Warm) (y : Error)
      → 0 < p.warming
      → F y
      → IsRound W F p (finish_warming cfg none p) (some y)
  unfolding finish_warming put_idle
  finish_warming-none-IsRound cfg p y l f = record {
    slots = ground arith;
    added = inr (y, refl, f, refl);
  }

  finish_warming-some-IsRound :
      (cfg : Config) (h : SandboxHandle) (p : Warm)
      → 0 < p.warming
      → IsBounded cfg p
      → W h
      → IsRound W F p (finish_warming cfg (some h) p) none
  unfolding finish_warming put_idle
  finish_warming-some-IsRound cfg h p l b k = record {
    slots = ground arith;
    added = inl (refl, (h, k, ground arith));
  }

-- A slot that is not reserved: the pool is full.
reserve_full :
    (cfg : Config) (p : Warm)
    → IsBounded cfg p
    → (reserve_warming_slot cfg p).1 ≡ false
    → ((reserve_warming_slot cfg p).0 ≡ p)
      × (length p.idle + p.warming ≡ pos_part (target_idle cfg))
unfolding reserve_warming_slot
reserve_full cfg p b h = ground arith

-- A slot that is.
record IsReserved (cfg : Config) (p q : Warm) : Type 0 where
  idle : q.idle ≡ p.idle
  warming : q.warming ≡ p.warming + 1
  fits : length p.idle + p.warming < pos_part (target_idle cfg)

reserve_free :
    (cfg : Config) (p : Warm)
    → (reserve_warming_slot cfg p).1 ≡ true
    → IsReserved cfg p (reserve_warming_slot cfg p).0
unfolding reserve_warming_slot
reserve_free cfg p h = record { idle = ground arith; warming = ground arith; fits = ground arith }

-- A round that succeeds leaves one less to do; one that fails leaves the pool as it was.
module _ {W : SandboxHandle → Type 0} {F : Error → Type 0} where
  round_adds :
      (cfg : Config) (p s q : Warm)
      → IsReserved cfg p s
      → IsRound W F s q none
      → (h : SandboxHandle) × (q.idle ≡ p.idle ++ (h ∷ []))
        × (q.warming ≡ p.warming)
        × IsBounded cfg q
        × (missing cfg q + 1 ≡ missing cfg p)
        × W h
  round_adds cfg p s q v r = elim r.added [
    | inl (n, (h, k, a)) ↦
        let more : length q.idle ≡ length p.idle + 1 =
          ap length (a ∙ ap (λ i. i ++ (h ∷ [])) v.idle) ∙ length-append p.idle (h ∷ []) in
        (
          h,
          a ∙ ap (λ i. i ++ (h ∷ [])) v.idle,
          omega (arith, r.slots, v.warming),
          omega (arith, r.slots, v.warming, v.fits, more),
          omega (arith, r.slots, v.warming, v.fits, more),
          k,
        )
    | inr (y, n, f, a) ↦ absurd cc
  ]

  round_fails :
      (cfg : Config) (p s q : Warm) (y : Error)
      → IsReserved cfg p s
      → IsRound W F s q (some y)
      → (q.idle ≡ p.idle) × (q.warming ≡ p.warming) × F y
  round_fails cfg p s q y v r = elim r.added [
    | inl (n, m) ↦ cc
    | inr (z, n, f, a) ↦
        let same : z ≡ y = cc in (a ∙ v.idle, omega (arith, r.slots, v.warming), subst F same f)
  ]

module _ {P : Type 0} (e : Environment P) (x : Wiring) (ctx : Context) where
  await_warm-IsRound :
      (h : SandboxHandle) (uuid : Text) (before : P) (w : PoolWorld P)
      → (e.rt.create ctx (warm_spec e x uuid) before).1 ≡ ok h
      → w.platform ≡ (e.rt.create ctx (warm_spec e x uuid) before).0
      → 0 < w.warm.warming
      → IsBounded x.cfg w.warm
      → IsRound
          (IsWarmed e x ctx)
          (IsFailure e x ctx)
          w.warm
          (await_warm e x ctx h w).0.warm
          (await_warm e x ctx h w).1
  unfolding await_warm
  await_warm-IsRound h uuid before w made at l b =
      elim (Option-cases (e.rt.wait_ready ctx h.pod_name ready_timeout w.platform).1) [
        | inl r ↦
            rw (r, await_warm)
              (finish_warming-some-IsRound x.cfg h w.warm l b
                record { before = before; uuid = uuid; created = made; ready = rw (← at) r })
        | inr (y, r) ↦
            rw (r, await_warm)
              (finish_warming-none-IsRound x.cfg w.warm y l
                record { before = before; uuid = uuid; failure = inr (h, made, rw (← at) r) })
      ]

  create_one-IsRound :
      (w : PoolWorld P)
      → 0 < w.warm.warming
      → IsBounded x.cfg w.warm
      → IsRound
          (IsWarmed e x ctx)
          (IsFailure e x ctx)
          w.warm
          (create_one e x ctx w).0.warm
          (create_one e x ctx w).1
  unfolding create_one
  create_one-IsRound w l b =
      let uuid = (e.new_uuid w.platform).1 in
      let before = (e.new_uuid w.platform).0 in
      let made = e.rt.create ctx (warm_spec e x uuid) before in
      elim (Result-cases made.1) [
        | inl (h, r) ↦
            rw (r, create_one)
              (await_warm-IsRound h uuid before (record w { platform = made.0 }) r refl l b)
        | inr (y, r) ↦
            rw (r, create_one)
              (finish_warming-none-IsRound x.cfg w.warm y l
                record { before = before; uuid = uuid; failure = inl r })
      ]

  -- From a pool within its target, and with fuel for one round more than there are sandboxes
  -- missing, the loop ends by itself, on any platform: it fills the pool or stops at an error
  -- with which the platform ended the creation of a sandbox or the wait for it. Behind those that
  -- were there stand, in order, sandboxes that the platform has created and found ready, no slot
  -- stays reserved, and the pool is within its target still.
  pub replenish_loop-IsReplenished :
      (n : ℕ) (w : PoolWorld P)
      → IsBounded x.cfg w.warm
      → missing x.cfg w.warm < n
      → IsReplenished e x ctx w.warm
          (replenish_loop e x n ctx w).0.warm
          (replenish_loop e x n ctx w).1
  unfolding replenish_loop
  replenish_loop-IsReplenished zero w b m = absurd (omega (arith, m))
  replenish_loop-IsReplenished (suc n) w b m =
      elim (Bool-cases (reserve_warming_slot x.cfg w.warm).1) [
        | inl r ↦
            let s = (reserve_warming_slot x.cfg w.warm).0 in
            let v = create_one e x ctx (record w { warm = s }) in
            let free = reserve_free x.cfg w.warm r in
            let round =
              create_one-IsRound (record w { warm = s }) (omega (arith, free.warming))
                (omega (arith, free.warming, ap length free.idle, free.fits)) in
            elim (Option-cases v.1) [
              | inl k ↦
                  let (h, added, slots, bounded, less, warm) =
                    round_adds {W = IsWarmed e x ctx} {F = IsFailure e x ctx} x.cfg w.warm s
                      v.0.warm free (rw (← k) round) in
                  let rest = replenish_loop-IsReplenished n v.0 bounded (omega (arith, m, less)) in
                  rw (r, k, replenish_loop)
                    record {
                      ends = rest.ends;
                      fresh = h ∷ rest.fresh;
                      warmed = (warm, rest.warmed);
                      behind =
                          rest.behind
                          ∙ ap (λ i. i ++ rest.fresh) added
                          ∙ append_assoc w.warm.idle (h ∷ []) rest.fresh;
                      slots = rest.slots ∙ slots;
                      full = rest.full;
                      stopped = rest.stopped;
                      bounded = rest.bounded;
                    }
              | inr (y, k) ↦
                  let (idle, slots, f) =
                    round_fails {W = IsWarmed e x ctx} {F = IsFailure e x ctx} x.cfg w.warm s
                      v.0.warm y free (rw (← k) round) in
                  rw (r, k, replenish_loop)
                    record {
                      ends = λ q. cc;
                      fresh = [];
                      warmed = tt;
                      behind = idle ∙ sym (append-nil w.warm.idle);
                      slots = slots;
                      full = λ q. cc;
                      stopped = λ z q. let same : y ≡ z = cc in subst (IsFailure e x ctx) same f;
                      bounded = omega (arith, b, ap length idle, slots);
                    }
            ]
        | inr r ↦
            let (same, full) = reserve_full x.cfg w.warm b r in
            rw (r, replenish_loop, same)
              record {
                ends = λ q. cc;
                fresh = [];
                warmed = tt;
                behind = sym (append-nil w.warm.idle);
                slots = refl;
                full = λ q. full;
                stopped = λ z q. cc;
                bounded = b;
              }
      ]

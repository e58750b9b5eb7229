-- ===== src/Autoscaler/Laws.antt =====
-- internal/proxy/autoscaler.go: the number of replicas fits the number of sandboxes.
use cloud_agent_sandbox.Base.{
  ℕ, ◌+◌, ◌-◌, ◌*◌, ◌/◌, ◌≤◌, ◌<◌, ◌≡◌, refl, sym, ap, subst, ◌⊎◌, inl, inr, ltb, arith, ◌&&◌,
  if◌then◌else◌, Bool-cases,
}
use cloud_agent_sandbox.Base.Int.{ℤ, pos, negsuc, ◌≤ℤ◌, ◌<ℤ◌, pos_part, neg_part, ltb_ℤ}
use native.Mathlib.Nat.{le-div_iff_mul-le, mul-le-mul_right, lt-div-mul-add, div-mul-le_self}
use cloud_agent_sandbox.Autoscaler.{Autoscaler, per_of, quotient, raise_to, desired_replicas}

-- `q` replicas of `per` sandboxes each are the fewest for `n` sandboxes.
record IsCeil (n per q : ℕ) : Type 0 where
  positive : 0 < q
  enough : n ≤ q * per
  lean : q * per < n + per

quotient-IsCeil :
    (n per : ℕ)
    → 0 < n
    → n < 4611686018427387904
    → 0 < per
    → per < 9223372036854775808
    → (q : ℕ) × (raise_to (pos 1) (quotient n per) ≡ pos q) × IsCeil n per q
unfolding quotient
quotient-IsCeil n per h i j k = elim (Bool-cases (ltb (n + per - 1) 9223372036854775808)) [
  | inl b ↦
      let above = lt-div-mul-add {a = n + per - 1} {b = per} j in
      let below = div-mul-le_self (n + per - 1) per in
      let one = (le-div_iff_mul-le {k = per} {x = 1} {y = n + per - 1} j).1 (omega (arith, h)) in
      rw b (
        (n + per - 1) / per,
        ground (arith, one),
        record { positive = one; enough = omega (arith, above, h); lean = omega (arith, below, h) },
      )
  | inr b ↦ rw b (
    1,
    ground arith,
    record { positive = omega arith; enough = ground (arith, b); lean = omega (arith, h) },
  )
]

-- What a number of replicas should be: at least one and at least the floor, never above the cap,
-- enough for all sandboxes unless the cap is reached, and no more than that needs or the floor asks
-- for.
pub record IsFit (a : Autoscaler) (n per : ℕ) (r : ℤ) : Type 0 where
  pub at_least_one : pos 1 ≤ℤ r
  pub floor : a.min_replicas ≤ℤ r
  pub cap : pos 0 <ℤ a.max_replicas → r ≤ℤ a.max_replicas
  pub enough : (n ≤ pos_part r * per) ⊎ (r ≡ a.max_replicas)
  pub lean : (r ≡ a.min_replicas) ⊎ (pos_part r * per < n + per)

of_nonneg : (z : ℤ) → pos 0 ≤ℤ z → (m : ℕ) × (z ≡ pos m)
of_nonneg (pos m) h = (m, refl)
of_nonneg (negsuc m) h = absurd (omega (arith, h))

-- The clamp to the floor and the cap.
abbrev clamp : ℤ → ℤ → ℤ → ℤ
clamp low high r = let s = raise_to low r in if ltb_ℤ (pos 0) high && ltb_ℤ high s then high else s

clamp-IsFit :
    (a : Autoscaler) (n per m q : ℕ)
    → a.min_replicas ≡ pos m
    → IsCeil n per q
    → (pos 0 <ℤ a.max_replicas → pos m ≤ℤ a.max_replicas)
    → IsFit a n per (clamp (pos m) a.max_replicas (pos q))
clamp-IsFit a n per m q e c f = elim (Bool-cases (ltb_ℤ (pos q) (pos m))) [
  | inl l ↦ elim (Bool-cases (ltb_ℤ (pos 0) a.max_replicas && ltb_ℤ a.max_replicas (pos m))) [
    | inl k ↦ absurd (ground (arith, k, f))
    | inr k ↦
        rw (l, k)
          record {
            at_least_one = ground (arith, c.positive);
            floor = rw e (ground arith);
            cap = λ h. f h;
            enough =
                inl (
                  omega
                    (arith, c.enough, mul-le-mul_right {m = q} {n = m} per (ground (arith, l))));
            lean = inl (sym e);
          }
  ]
  | inr l ↦ elim (Bool-cases (ltb_ℤ (pos 0) a.max_replicas && ltb_ℤ a.max_replicas (pos q))) [
    | inl k ↦
        rw (l, k)
          record {
            at_least_one = ground (arith, k);
            floor = rw e (ground (arith, k, f));
            cap = λ h. ground arith;
            enough = inr refl;
            lean = inr (
                omega (
                  arith,
                  c.lean,
                  mul-le-mul_right {m = pos_part a.max_replicas} {n = q} per (ground (arith, k)),
                ));
          }
    | inr k ↦
        rw (l, k)
          record {
            at_least_one = ground (arith, c.positive);
            floor = rw e (ground (arith, l));
            cap = λ h. ground (arith, k, h);
            enough = inl c.enough;
            lean = inr c.lean;
          }
  ]
]

desired_replicas-clamp :
    (a : Autoscaler) (n per : ℕ)
    → a.per_proxy ≡ pos per
    → 0 < n
    → 0 < per
    → desired_replicas a (pos n)
      ≡ clamp a.min_replicas a.max_replicas (raise_to (pos 1) (quotient n per))
unfolding desired_replicas per_of
desired_replicas-clamp a n per e h j =
    let at : per_of a ≡ per = rw e (ground (arith, j)) in ground (arith, at, h)

-- For a positive number of sandboxes below 2^62, a positive number of sandboxes per proxy below
-- 2^63, a floor that is not negative and no cap below it, the number of replicas fits: at least
-- one and at least the floor, never above the cap, enough for all sandboxes unless it is the cap,
-- and not more than they need unless it is the floor. The wrap of the sum in the rounded division
-- never shows.
pub desired_replicas-IsFit :
    (a : Autoscaler) (n per : ℕ)
    → a.per_proxy ≡ pos per
    → 0 < n
    → n < 4611686018427387904
    → 0 < per
    → per < 9223372036854775808
    → pos 0 ≤ℤ a.min_replicas
    → (pos 0 <ℤ a.max_replicas → a.min_replicas ≤ℤ a.max_replicas)
    → IsFit a n per (desired_replicas a (pos n))
desired_replicas-IsFit a n per e h i j k l f =
    let (q, r, c) = quotient-IsCeil n per h i j k in
    let (m, low) = of_nonneg a.min_replicas l in
    rw (desired_replicas-clamp a n per e h j, r)
      (subst (λ z. IsFit a n per (clamp z a.max_replicas (pos q))) (sym low)
        (clamp-IsFit a n per m q low c (λ g. omega (arith, f g, ap pos_part low, ap neg_part low))))

-- ===== src/Netpolicy/Laws.antt =====
-- internal/netpolicy/verify.go: when the check lets the program start.
use mathlib.Core.List.{Memᴰ}
use mathlib.Core.List.Memᴰ.{head, tail}
use cloud_agent_sandbox.Base.{
  ◌≡◌, ◌≢◌, ◌↔◌, ◌⊎◌, inl, inr, refl, sym, subst, Bool, true, false, Option, none, some, List, [],
  ◌∷◌, ◌++◌, Text, bytes, ◌==◌, nat_eq, text_eq, arith, Bool-cases, Option-cases,
}
use cloud_agent_sandbox.Base.Dict.{Dict, lookup}
use cloud_agent_sandbox.Strings.{contains, to_lower}
use cloud_agent_sandbox.Strings.Laws.{contains_iff}
use cloud_agent_sandbox.Session.Model.{Result, ok, err}
use cloud_agent_sandbox.Netpolicy.{
  NetworkPolicy, Options, known_enforcing_daemon_sets, has_egress_type, selector_matches,
  find_sandbox_egress_policy, is_known, detect_enforcing_cni, or_default, verify,
  verify_enforcement, verify_enforcer,
}

abbrev pub Listed {ℓ} : {A : Type ℓ} → A → Result (List A) → Type ℓ
Listed {A = A} a r = (xs : List A) × (r ≡ ok xs) × Memᴰ a xs

-- What the check asks of a policy: it has the type Egress, and its labels are none at all or give the
-- label of the sandboxes its value. Such a policy need not select the sandboxes: it may have further
-- labels, and expressions.
abbrev pub PassesSelector : Text → Text → NetworkPolicy → Type 0
PassesSelector key value p =
    Memᴰ (bytes "Egress") (p.policy_types)
    × ((p.match_labels ≡ []) ⊎ (lookup key (p.match_labels) ≡ some value))

-- A name that has the name of a known engine in it.
abbrev pub Enforces : Text → Type 0
Enforces name =
    (k : Text) × (a : Text) × (b : Text) × Memᴰ k known_enforcing_daemon_sets
    × (to_lower name ≡ a ++ (k ++ b))

egress_iff : (ts : List Text) → (has_egress_type ts ≡ true) ↔ Memᴰ (bytes "Egress") ts
unfolding has_egress_type
egress_iff [] = (λ h. cc, λ m. elim m [ ])
egress_iff (t ∷ ts) = (
  λ h. elim (Bool-cases (t == bytes "Egress")) [
    | inl e ↦ head (sym ((text_eq.beq_iff t (bytes "Egress")).0 e))
    | inr e ↦ tail ((egress_iff ts).0 (ground arith))
  ],
  λ m. elim m [
    | head e ↦
        let h : (t == bytes "Egress") ≡ true = (text_eq.beq_iff t (bytes "Egress")).1 (sym e) in
        ground arith
    | tail n ↦ let h : has_egress_type ts ≡ true = (egress_iff ts).1 n in ground arith
  ],
)

selector_iff :
    (key value : Text) (m : Dict Text)
    → (selector_matches m key value ≡ true) ↔ ((m ≡ []) ⊎ (lookup key m ≡ some value))
unfolding selector_matches
selector_iff key value [] = (λ h. inl refl, λ h. refl)
selector_iff key value (e ∷ es) = elim (Option-cases (lookup key (e ∷ es))) [
  | inl n ↦ (λ h. cc, λ h. elim h [ inl q ↦ cc | inr q ↦ cc ])
  | inr (v, q) ↦ (
    λ h. inr (ground (arith, text_eq.beq_iff v value)),
    λ h. ground (arith, text_eq.beq_iff v value),
  )
]

abbrev Named : List NetworkPolicy → Type 0
Named ps = (p : NetworkPolicy) → Memᴰ p ps → p.name ≢ []

find_found :
    (key value : Text) (ps : List NetworkPolicy)
    → find_sandbox_egress_policy ps key value ≢ []
    → (p : NetworkPolicy) × Memᴰ p ps × PassesSelector key value p
unfolding find_sandbox_egress_policy
find_found key value [] h = absurd (h refl)
find_found key value (p ∷ ps) h = elim (Bool-cases (has_egress_type (p.policy_types))) [
  | inl e ↦ elim (Bool-cases (selector_matches (p.match_labels) key value)) [
    | inl f ↦ (
      p,
      head refl,
      ((egress_iff (p.policy_types)).0 e, (selector_iff key value (p.match_labels)).0 f),
    )
    | inr f ↦ let w = find_found key value ps (λ q. h (ground arith)) in (w.0, tail w.1, w.2)
  ]
  | inr e ↦ let w = find_found key value ps (λ q. h (ground arith)) in (w.0, tail w.1, w.2)
]

found_find :
    (key value : Text) (ps : List NetworkPolicy)
    → Named ps
    → (p : NetworkPolicy) → Memᴰ p ps
    → PassesSelector key value p
    → find_sandbox_egress_policy ps key value ≢ []
unfolding find_sandbox_egress_policy
found_find key value [] named p m w = elim m [ ]
found_find key value (q ∷ qs) named p m w = elim m [
  | head e ↦
      let v : PassesSelector key value q = subst (PassesSelector key value) e w in
      let a : has_egress_type (q.policy_types) ≡ true = (egress_iff (q.policy_types)).1 v.0 in
      let b : selector_matches (q.match_labels) key value ≡ true =
        (selector_iff key value (q.match_labels)).1 v.1 in
      let c : q.name ≢ [] = named q (head refl) in ground arith
  | tail n ↦
      let c : q.name ≢ [] = named q (head refl) in
      let rest : find_sandbox_egress_policy qs key value ≢ [] =
        found_find key value qs (λ r k. named r (tail k)) p n w in
      ground arith
]

known_iff :
    (name : Text) (ks : List Text)
    → (is_known name ks ≡ true)
      ↔ ((k : Text) × (a : Text) × (b : Text) × Memᴰ k ks × (name ≡ a ++ (k ++ b)))
unfolding is_known
known_iff name [] = (λ h. cc, λ (k, a, b, m, q). elim m [ ])
known_iff name (j ∷ js) = (
  λ h. elim (Bool-cases (contains name j)) [
    | inl e ↦ let w = (contains_iff name j).0 e in (j, w.0, w.1, head refl, w.2)
    | inr e ↦ let w = (known_iff name js).0 (ground arith) in (w.0, w.1, w.2, tail w.3, w.4)
  ],
  λ (k, a, b, m, q). elim m [
    | head e ↦
        let h : contains name j ≡ true = (contains_iff name j).1 (a, b, rw (← e) q) in ground arith
    | tail n ↦
        let h : is_known name js ≡ true = (known_iff name js).1 (k, a, b, n, q) in ground arith
  ],
)

detect_found :
    (names : List Text) → detect_enforcing_cni names ≢ [] → (n : Text) × Memᴰ n names × Enforces n
unfolding detect_enforcing_cni
detect_found [] h = absurd (h refl)
detect_found (n ∷ ns) h = elim (Bool-cases (is_known (to_lower n) known_enforcing_daemon_sets)) [
  | inl e ↦ (n, head refl, (known_iff (to_lower n) known_enforcing_daemon_sets).0 e)
  | inr e ↦ let w = detect_found ns (λ q. h (ground arith)) in (w.0, tail w.1, w.2)
]

found_detect :
    (names : List Text)
    → ((m : Text) → Memᴰ m names → m ≢ [])
    → (n : Text) → Memᴰ n names
    → Enforces n
    → detect_enforcing_cni names ≢ []
unfolding detect_enforcing_cni
found_detect [] named n m w = elim m [ ]
found_detect (j ∷ js) named n m w = elim m [
  | head e ↦
      let v : Enforces j = subst Enforces e w in
      let a : is_known (to_lower j) known_enforcing_daemon_sets ≡ true =
        (known_iff (to_lower j) known_enforcing_daemon_sets).1 v in
      let c : j ≢ [] = named j (head refl) in ground arith
  | tail k ↦
      let c : j ≢ [] = named j (head refl) in
      let rest : detect_enforcing_cni js ≢ [] = found_detect js (λ r k. named r (tail k)) n k w in
      ground arith
]

-- Some policy of the listing has what the check asks for.
abbrev pub HasEgressPolicy : Options → Result (List NetworkPolicy) → Type 0
HasEgressPolicy opts policies =
    (p : NetworkPolicy) × Listed p policies
    × PassesSelector (or_default (opts.pod_label_key) (bytes "app"))
        (or_default (opts.pod_label_value) (bytes "sandbox")) p

-- The operator says that the policy is enforced, or says nothing and an engine is found.
abbrev pub Enforced : Option Bool → Result (List Text) → Type 0
Enforced override daemon_sets =
    (override ≡ some true) ⊎ ((override ≡ none) × ((n : Text) × Listed n daemon_sets × Enforces n))

pub listed_ok {ℓ} : {A : Type ℓ} (a : A) (xs : List A) → Listed a (ok xs) → Memᴰ a xs
listed_ok a xs (ys, q, m) = let e : ys ≡ xs = cc in subst (λ l. Memᴰ a l) e m

module _ (policy : Text) where
  enforcer_iff :
      (names : List Text)
      → ((m : Text) → Memᴰ m names → m ≢ [])
      → ((verify_enforcer policy (ok names)).1 ≡ none) ↔ ((n : Text) × Memᴰ n names × Enforces n)
  unfolding verify_enforcer
  enforcer_iff names named = (
    λ h. detect_found names (ground (arith, text_eq.beq_iff (detect_enforcing_cni names) [])),
    λ (n, m, w).
        let c : detect_enforcing_cni names ≢ [] = found_detect names named n m w in
        ground (arith, text_eq.beq_iff (detect_enforcing_cni names) []),
  )

  auto_iff :
      (daemon_sets : Result (List Text))
      → ((n : Text) → Listed n daemon_sets → n ≢ [])
      → ((verify_enforcer policy daemon_sets).1 ≡ none)
        ↔ ((n : Text) × Listed n daemon_sets × Enforces n)
  unfolding verify_enforcer
  auto_iff (err e) g = (λ h. cc, λ (n, (xs, q, m), w). cc)
  auto_iff (ok names) g =
      let both = enforcer_iff names (λ m k. g m (names, refl, k)) in
      (
        λ h. let w = both.0 h in (w.0, (names, refl, w.1), w.2),
        λ (n, l, w). both.1 (n, listed_ok n names l, w),
      )

  enforcement_iff :
      (override : Option Bool) (daemon_sets : Result (List Text))
      → ((n : Text) → Listed n daemon_sets → n ≢ [])
      → ((verify_enforcement policy override daemon_sets).1 ≡ none) ↔ Enforced override daemon_sets
  unfolding verify_enforcement
  enforcement_iff none daemon_sets g = (
    λ h. inr (refl, (auto_iff daemon_sets g).0 h),
    λ h. elim h [ inl q ↦ cc | inr w ↦ (auto_iff daemon_sets g).1 w.1 ],
  )
  enforcement_iff (some true) daemon_sets g = (λ h. inl refl, λ h. refl)
  enforcement_iff (some false) daemon_sets g = (λ h. cc, λ h. elim h [ inl q ↦ cc | inr w ↦ cc ])

-- Verify succeeds exactly if a listed policy has the type Egress and matchLabels that are empty or
-- give the label of the sandboxes its value, whatever its further labels and its expressions, and
-- the operator asserts the enforcement or, where the operator says nothing, the name of a DaemonSet
-- of kube-system has the name of a known engine in it. An error of a listing that is needed, or the
-- operator's "false", makes it fail. (The listed objects have names.)
pub verify_iff :
    (opts : Options) (policies : Result (List NetworkPolicy)) (daemon_sets : Result (List Text))
    → ((p : NetworkPolicy) → Listed p policies → p.name ≢ [])
    → ((n : Text) → Listed n daemon_sets → n ≢ [])
    → ((verify opts policies daemon_sets).1 ≡ none)
      ↔ (HasEgressPolicy opts policies × Enforced (opts.enforced_override) daemon_sets)
unfolding verify
verify_iff opts (err e) daemon_sets f g = (λ h. cc, λ ((p, (xs, q, m), w), k). cc)
verify_iff opts (ok ps) daemon_sets f g =
    let key = or_default (opts.pod_label_key) (bytes "app") in
    let value = or_default (opts.pod_label_value) (bytes "sandbox") in
    let policy = find_sandbox_egress_policy ps key value in
    let both = enforcement_iff policy (opts.enforced_override) daemon_sets g in
    elim (Bool-cases (policy == [])) [
      | inl e ↦ (
        λ h. cc,
        λ ((p, l, w), k). absurd (
            found_find key value ps (λ r m. f r (ps, refl, m)) p (listed_ok p ps l) w
              ((text_eq.beq_iff policy []).0 e)),
      )
      | inr e ↦ (
        λ h.
            let w = find_found key value ps (λ q. ground (arith, text_eq.beq_iff policy [])) in
            ((w.0, (ps, refl, w.1), w.2), both.0 (ground arith)),
        λ (c, k).
            let r : (verify_enforcement policy (opts.enforced_override) daemon_sets).1 ≡ none =
              both.1 k in
            ground arith,
      )
    ]

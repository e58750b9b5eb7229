-- ===== src/Orchestrator/Start/Laws.antt =====
-- cmd/orchestrator/main.go: when the program starts, and what it then has.
use cloud_agent_sandbox.Base.{
  ◌≡◌, ◌≢◌, refl, sym, subst, ◌⊎◌, inl, inr, true, false, Option, none, some, [], Text, bytes, ◌==◌,
  text_eq, arith, Bool-cases, Option-cases,
}
use cloud_agent_sandbox.Base.Int.{ℤ}
use cloud_agent_sandbox.Base.Dict.{Dict, lookup}
use cloud_agent_sandbox.Config.Model.{Config}
use cloud_agent_sandbox.Config.Load.{Environment, load}
use cloud_agent_sandbox.Config.Laws.{IsConsistent}
use cloud_agent_sandbox.Config.Load.Laws.{load-IsConsistent}
use cloud_agent_sandbox.Session.Model.{Error, wrap, Result, ok, err}
use cloud_agent_sandbox.Steps.{from, Ends, bind-Ends, Result-cases}
use cloud_agent_sandbox.Kube.Model.{Answer, found, missing, failed}
use cloud_agent_sandbox.Assigner.{
  Secrets, ServiceAssigner, ca_cert_key, cert_of, read_ca_cert, assigner_with, new_service_assigner,
  ensure_ca_secret,
}
use cloud_agent_sandbox.Orchestrator.Wiring.{Parts, wire}
use cloud_agent_sandbox.Orchestrator.Start.{
  Boot, policy_verdict, key_verdict, connected, verified, check_policy, try_assigner, assemble,
  guarded, start,
}

-- A certificate that is read is not empty.
cert_of_nonempty : (a : Answer (Dict Text)) (c : Text) → cert_of a ≡ ok c → c ≢ []
unfolding cert_of
cert_of_nonempty (found m) c h = elim (Option-cases (lookup ca_cert_key m)) [
  | inl e ↦ ground (arith, e, h)
  | inr (d, e) ↦ ground (arith, e, h, text_eq.beq_iff d [])
]
cert_of_nonempty missing c h = cc
cert_of_nonempty (failed e) c h = cc

new_service_assigner_certified :
    {P : Type 0} (s : Secrets P) (service : Text) (port : ℤ) (namespace : Text) (p : P)
    (a : ServiceAssigner)
    → (new_service_assigner s service port namespace p).1 ≡ ok a
    → a.ca_cert ≢ []
unfolding new_service_assigner read_ca_cert assigner_with
new_service_assigner_certified s service port namespace p a h =
    elim (Result-cases (cert_of (s.get p).1)) [
      | inl (c, e) ↦ ground (arith, e, h, cert_of_nonempty (s.get p).1 c e)
      | inr (x, e) ↦ ground (arith, e, h)
    ]

policy_verdict_cases :
    (c : Config) (o : Option Error)
    → ((policy_verdict c o ≡ ok tt) × ((o ≡ none) ⊎ (c.security.require_network_policy ≡ false)))
      ⊎ ((e : Error) × (x : Error) × (policy_verdict c o ≡ err x)
          × (c.security.require_network_policy ≡ true)
          × (o ≡ some e))
unfolding policy_verdict
policy_verdict_cases c none = inl (refl, inl refl)
policy_verdict_cases c (some e) = elim (Bool-cases c.security.require_network_policy) [
  | inl b ↦ inr (
    e,
    wrap (bytes "refusing to start (sandbox egress containment unverified): ") e,
    rw b refl,
    b,
    refl,
  )
  | inr b ↦ inl (rw b refl, inr b)
]

-- With a proxy there is its certificate. Without one there is no pool, whose pods would go past it,
-- and no autoscaler.
abbrev pub Proxied : Parts → Type 0
Proxied x =
    ((a : ServiceAssigner) × (x.assigner ≡ some a) × (a.ca_cert ≢ []))
    ⊎ ((x.assigner ≡ none) × (x.pool ≡ none) × (x.autoscaler ≡ none))

module _ {P : Type 0} (parse_duration : Text → Option ℤ) (boot : Boot P) (look : Environment) where
  -- A start: the configuration is the one that the environment gives, consistent and with a key;
  -- the check of the network policy has passed, unless the configuration does not ask for it.
  pub record IsStarted (x : Parts) : Type 0 where
    pub loaded : load parse_duration look ≡ ok x.config
    pub consistent : IsConsistent x.config
    pub keyed : x.config.security.api_key ≢ []
    pub contained :
        (x.config.security.require_network_policy ≡ false)
        ⊎ ((p : P) × ((verified parse_duration boot x.config p).1 ≡ none))
    pub proxied : Proxied x

  -- The reasons not to start.
  pub data IsRefused : Type 0 where
    unloaded : (e : Error) → load parse_duration look ≡ err e → IsRefused
    unkeyed : (c : Config) → load parse_duration look ≡ ok c → c.security.api_key ≡ [] → IsRefused
    unconnected :
        (c : Config) (p : P) (e : Error)
        → load parse_duration look ≡ ok c
        → (boot.connect c.kube.kubeconfig p).1 ≡ some e
        → IsRefused
    uncontained :
        (c : Config) (p : P) (e : Error)
        → load parse_duration look ≡ ok c
        → c.security.require_network_policy ≡ true
        → (verified parse_duration boot c p).1 ≡ some e
        → IsRefused

  assigner_Proxied :
      (c : Config) (r : Result ServiceAssigner)
      → ((a : ServiceAssigner) → r ≡ ok a → a.ca_cert ≢ [])
      → Proxied (wire c (elim r [ ok a ↦ some a | err e ↦ none ]))
  unfolding wire
  assigner_Proxied c (ok a) h = inl (a, refl, h a refl)
  assigner_Proxied c (err e) h = inr (refl, refl, refl)

  wire_config : (c : Config) (o : Option ServiceAssigner) → (wire c o).config ≡ c
  unfolding wire
  wire_config c none = refl
  wire_config c (some a) = refl

  -- A step of the start that refuses or goes on with what it has found out.
  abbrev Goes : {A : Type 0} → P × Result A → (A → Type 0) → Type 0
  Goes r Q = Ends r (λ q a. Q a) (λ q e. IsRefused)

  abbrev Contained : Config → Type 0
  Contained c =
      (c.security.require_network_policy ≡ false)
      ⊎ ((p : P) × ((verified parse_duration boot c p).1 ≡ none))

  wired :
      (c : Config) (o : Option ServiceAssigner)
      → c.security.api_key ≢ []
      → Contained c
      → load parse_duration look ≡ ok c
      → Proxied (wire c o)
      → IsStarted (wire c o)
  wired c o k n l h =
      let same = sym (wire_config c o) in
      record {
        loaded = subst (λ x. load parse_duration look ≡ ok x) same l;
        consistent = subst IsConsistent same (load-IsConsistent parse_duration look c l);
        keyed = subst (λ x. x.security.api_key ≢ []) same k;
        contained = subst Contained same n;
        proxied = h;
      }

  module _ (c : Config) (l : load parse_duration look ≡ ok c) where
    key_Goes : (p : P) → Goes (from (key_verdict c) p) (λ u. c.security.api_key ≢ [])
    unfolding key_verdict
    key_Goes p = elim (Bool-cases (c.security.api_key == [])) [
      | inl e ↦ rw e record { outcome = unkeyed c l ((text_eq.beq_iff _ []).0 e) }
      | inr e ↦ rw e record { outcome = ground (arith, e, text_eq.beq_iff c.security.api_key []) }
    ]

    connected_Goes : (p : P) → Goes (connected parse_duration boot c.kube.kubeconfig p) (λ u. Unit)
    unfolding connected
    connected_Goes p = elim (Option-cases (boot.connect c.kube.kubeconfig p).1) [
      | inl e ↦ rw e record { outcome = tt }
      | inr (x, e) ↦ rw e record { outcome = unconnected c p x l e }
    ]

    policy_Goes : (p : P) → Goes (check_policy parse_duration boot c p) (λ u. Contained c)
    unfolding check_policy
    policy_Goes p = elim (policy_verdict_cases c (verified parse_duration boot c p).1) [
      | inl (v, inl e) ↦ rw v record { outcome = inr (p, e) }
      | inl (v, inr b) ↦ rw v record { outcome = inl b }
      | inr (v, x, y, b, e) ↦ rw y record { outcome = uncontained c p v l b e }
    ]

    assemble_Goes :
        (p : P)
        → c.security.api_key ≢ []
        → Contained c
        → Goes (assemble parse_duration boot c p) IsStarted
    unfolding assemble try_assigner
    assemble_Goes p k n =
        let s = boot.secrets c.kube.namespace in
        let q = (ensure_ca_secret s p).0 in
        let r = (new_service_assigner s c.proxy.service_name c.proxy.port c.kube.namespace q).1 in
        record {
          outcome =
              wired c (elim r [ ok a ↦ some a | err e ↦ none ]) k n l
                (assigner_Proxied c r (
                  new_service_assigner_certified s c.proxy.service_name c.proxy.port
                    c.kube.namespace q));
        }

    guarded_Goes : (p : P) → Goes (guarded parse_duration boot c p) IsStarted
    unfolding guarded
    guarded_Goes p =
        bind-Ends (λ q u. c.security.api_key ≢ []) (from (key_verdict c)) _ p (key_Goes p)
          λ u q k.
            bind-Ends (λ v y. Unit) (connected parse_duration boot c.kube.kubeconfig) _ q
              (connected_Goes q)
              λ y v t.
                bind-Ends (λ w z. Contained c) (check_policy parse_duration boot c) _ v
                  (policy_Goes v) λ z w n. assemble_Goes w k n

  loaded_Goes :
      (p : P) (r : Result Config)
      → load parse_duration look ≡ r
      → Goes (from r p) (λ c. load parse_duration look ≡ ok c)
  loaded_Goes p (ok c) l = record { outcome = l }
  loaded_Goes p (err e) l = record { outcome = unloaded e l }

  -- The start ends in one of two ways. Either the program runs with the configuration of its
  -- environment, which is consistent and has a key, behind a check of the network policy that has
  -- passed or is not asked for, and with no pool and no autoscaler where there is no proxy; or it
  -- has refused for one of four reasons: no configuration, no key, no connection, or a check that
  -- has failed and is asked for.
  pub start-IsStarted :
      (p : P) → Ends (start parse_duration boot look p) (λ q x. IsStarted x) (λ q e. IsRefused)
  unfolding start
  start-IsStarted p =
      bind-Ends (λ q c. load parse_duration look ≡ ok c) (from (load parse_duration look)) _ p
        (loaded_Goes p _ refl) λ c q l. guarded_Goes c l q

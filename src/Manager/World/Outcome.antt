-- ===== src/Manager/World/Outcome.antt =====
-- Reasoning about the steps of the Manager: what holds when a step succeeds and when it fails.
use cloud_agent_sandbox.Base.{◌≡◌, refl, ◌⊎◌, inl, inr}
use cloud_agent_sandbox.Session.Model.{Error, Result, ok, err}
use cloud_agent_sandbox.Manager.World.{World, Step, ◌>>=◌, catch}

pub Result-cases {ℓ} :
    {A : Type ℓ} (r : Result A) → ((a : A) × (r ≡ ok a)) ⊎ ((x : Error) × (r ≡ err x))
Result-cases (ok a) = inl (a, refl)
Result-cases (err x) = inr (x, refl)

module _ {P A : Type 0} where
  abbrev pub Case :
      (World P → A → Type 0) → (World P → Error → Type 0) → World P → Result A → Type 0
  Case Q R w (ok a) = Q w a
  Case Q R w (err x) = R w x

  -- The outcome of a step: `Q` of the world and the value, or `R` of the world and the error.
  pub record Ends (r : World P × Result A) (Q : World P → A → Type 0) (R : World P → Error → Type 0)
      : Type 0 where
    pub holds : Case Q R r.0 r.1

module _ {P A B : Type 0} where
  module _ (Q : World P → A → Type 0) {S : World P → B → Type 0}
      {R : World P → Error → Type 0} where
    bind-Case :
        (f : A → Step P B) (v : World P) (r : Result A)
        → Case Q R v r
        → ((a : A) (u : World P) → Q u a → Ends (f a u) S R)
        → Ends (elim r [ ok a ↦ f a v | err x ↦ (v, err x) ]) S R
    bind-Case f v (ok a) h k = k a v h
    bind-Case f v (err x) h k = record { holds = h }

    pub bind-Ends :
        (m : Step P A) (f : A → Step P B) (w : World P)
        → Ends (m w) Q R
        → ((a : A) (u : World P) → Q u a → Ends (f a u) S R)
        → Ends ((m >>= f) w) S R
    bind-Ends m f w h k = bind-Case f (m w).0 (m w).1 h.holds k

module _ {P A : Type 0} where
  module _ {Q S : World P → A → Type 0} {R T : World P → Error → Type 0} where
    weaken-Case :
        (v : World P) (r : Result A)
        → Case Q R v r
        → ((a : A) (u : World P) → Q u a → S u a)
        → ((x : Error) (u : World P) → R u x → T u x)
        → Case S T v r
    weaken-Case v (ok a) h f g = f a v h
    weaken-Case v (err x) h f g = g x v h

    pub weaken-Ends :
        (r : World P × Result A)
        → Ends r Q R
        → ((a : A) (u : World P) → Q u a → S u a)
        → ((x : Error) (u : World P) → R u x → T u x)
        → Ends r S T
    weaken-Ends r h f g = record { holds = weaken-Case r.0 r.1 h.holds f g }

  module _ {Q : World P → A → Type 0} {R : World P → Error → Type 0} where
    pub Ends_ok : (r : World P × Result A) (a : A) → Ends r Q R → r.1 ≡ ok a → Q r.0 a
    Ends_ok r a h e = rw e at h.holds

    pub Ends_err : (r : World P × Result A) (x : Error) → Ends r Q R → r.1 ≡ err x → R r.0 x
    Ends_err r x h e = rw e at h.holds

module _ {P A : Type 0} {Q : World P → A → Type 0} {R : World P → Error → Type 0} where
  -- An error is that of the step itself.
  pub traced-Ends :
      (r : World P × Result A) → Ends r Q R → Ends r Q (λ v x. R v x × (r ≡ (v, err x)))
  traced-Ends (v, ok a) h = record { holds = h.holds }
  traced-Ends (v, err x) h = record { holds = (h.holds, refl) }

module _ {P : Type 0} {Q : World P → Unit {0} → Type 0} {R : World P → Error → Type 0} where
  -- A step whose error is ignored.
  pub ignored-Ends :
      (r : World P × Result (Unit {0}))
      → Ends r Q R
      → Ends (r.0, ok tt) (λ v _. Q v tt ⊎ ((x : Error) × R v x)) (λ v x. ⊥)
  ignored-Ends (v, ok a) h = record { holds = inl h.holds }
  ignored-Ends (v, err x) h = record { holds = inr (x, h.holds) }

-- Behind a success the rest runs.
pub bind-ok :
    {P A B : Type 0} (m : Step P A) (f : A → Step P B) (w : World P) (a : A)
    → (m w).1 ≡ ok a
    → (m >>= f) w ≡ f a (m w).0
bind-ok m f w a h = rw (h, ◌>>=◌)

module _ {P A : Type 0} {Q : World P → A → Type 0} {R S : World P → Error → Type 0} where
  catch_case :
      (h : Error → Step P A) (v : World P) (r : Result A)
      → Case Q R v r
      → ((x : Error) (u : World P) → R u x → Ends (h x u) Q S)
      → Ends (elim r [ ok a ↦ (v, ok a) | err x ↦ h x v ]) Q S
  catch_case h v (ok a) c k = record { holds = c }
  catch_case h v (err x) c k = k x v c

  pub catch-Ends :
      (m : Step P A) (h : Error → Step P A) (w : World P)
      → Ends (m w) Q R
      → ((x : Error) (u : World P) → R u x → Ends (h x u) Q S)
      → Ends (catch m h w) Q S
  catch-Ends m h w c k = catch_case h (m w).0 (m w).1 c.holds k

module _ {P A : Type 0} (K : World P → Type 0) where
  both-Case : (v : World P) (r : Result A) → K v → Case (λ u _. K u) (λ u x. K u) v r
  both-Case v (ok a) k = k
  both-Case v (err x) k = k

  case_both : (v : World P) (r : Result A) → Case (λ u _. K u) (λ u x. K u) v r → K v
  case_both v (ok a) k = k
  case_both v (err x) k = k

  -- What holds of the world under either outcome.
  pub both-Ends : (r : World P × Result A) → K r.0 → Ends r (λ v _. K v) (λ v x. K v)
  both-Ends r k = record { holds = both-Case r.0 r.1 k }

  pub Ends-both : (r : World P × Result A) → Ends r (λ v _. K v) (λ v x. K v) → K r.0
  Ends-both r h = case_both r.0 r.1 h.holds

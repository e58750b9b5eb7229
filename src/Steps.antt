-- ===== src/Steps.antt =====
-- A method that may fail, as a step on a state `S`: Go's (value, error) with what was done before
-- the error kept. The parts beside the Manager are written with it.
use cloud_agent_sandbox.Base.{◌≡◌, refl, ◌⊎◌, inl, inr, Text}
use cloud_agent_sandbox.Session.Model.{Error, wrap, Result, ok, err}

abbrev pub Step : Type 0 → Type 0 → Type 0
Step S A = S → S × Result A

module _ {S : Type 0} where
  infixl 5 ◌>>=◌ ◌>>◌
  abbrev pub ◌>>=◌ : {A B : Type 0} → Step S A → (A → Step S B) → Step S B
  ◌>>=◌ m f w = elim (m w).1 [ ok a ↦ f a (m w).0 | err e ↦ ((m w).0, err e) ]

  abbrev pub ◌>>◌ : {B : Type 0} → Step S (Unit {0}) → Step S B → Step S B
  m >> k = m >>= λ _. k

  abbrev pub pure : {A : Type 0} → A → Step S A
  pure a w = (w, ok a)

  abbrev pub fail : {A : Type 0} → Error → Step S A
  fail e w = (w, err e)

  -- A value that is computed, with its error.
  abbrev pub from : {A : Type 0} → Result A → Step S A
  from r w = (w, r)

  -- `if err != nil { return ..., handler }`
  abbrev pub catch : {A : Type 0} → Step S A → (Error → Step S A) → Step S A
  catch m h w = elim (m w).1 [ ok a ↦ ((m w).0, ok a) | err e ↦ h e (m w).0 ]

  -- `return fmt.Errorf("prefix: %w", err)`
  abbrev pub wrapped : {A : Type 0} → Text → Step S A → Step S A
  wrapped t m w = ((m w).0, elim (m w).1 [ ok a ↦ ok a | err e ↦ err (wrap t e) ])

  -- `_ = f(...)` and `_, _ = f(...)`
  abbrev pub ignore : {A : Type 0} → Step S A → Step S (Unit {0})
  ignore m w = ((m w).0, ok tt)

module _ {S A : Type 0} where
  abbrev pub Case : (S → A → Type 0) → (S → Error → Type 0) → S → Result A → Type 0
  Case Q R w (ok a) = Q w a
  Case Q R w (err x) = R w x

  -- The outcome of a step: `Q` of the state and the value, or `R` of the state and the error.
  pub record Ends (r : S × Result A) (Q : S → A → Type 0) (R : S → Error → Type 0) : Type 0 where
    pub outcome : Case Q R r.0 r.1

module _ {S A B : Type 0} (Q : S → A → Type 0) {T : S → B → Type 0} {R : S → Error → Type 0} where
  bind_case :
      (f : A → Step S B) (v : S) (r : Result A)
      → Case Q R v r
      → ((a : A) (u : S) → Q u a → Ends (f a u) T R)
      → Ends (elim r [ ok a ↦ f a v | err x ↦ (v, err x) ]) T R
  bind_case f v (ok a) h k = k a v h
  bind_case f v (err x) h k = record { outcome = h }

  pub bind-Ends :
      (m : Step S A) (f : A → Step S B) (w : S)
      → Ends (m w) Q R
      → ((a : A) (u : S) → Q u a → Ends (f a u) T R)
      → Ends ((m >>= f) w) T R
  bind-Ends m f w h k = bind_case f (m w).0 (m w).1 h.outcome k

-- What holds of the state whichever way a step ends.
abbrev pub Holds : {S A : Type 0} → (S → Type 0) → S × Result A → Type 0
Holds K r = Ends r (λ v _. K v) (λ v _. K v)

module _ {S : Type 0} (K : S → Type 0) where
  pub from-Holds : {A : Type 0} (o : Result A) (w : S) → K w → Holds K (from o w)
  from-Holds (ok a) w h = record { outcome = h }
  from-Holds (err e) w h = record { outcome = h }

  pub bind-Holds :
      {A B : Type 0} (m : Step S A) (f : A → Step S B) (w : S)
      → Holds K (m w)
      → ((a : A) (u : S) → K u → Holds K (f a u))
      → Holds K ((m >>= f) w)
  bind-Holds m f w h k = bind-Ends (λ v _. K v) m f w h k

  pub pure-Holds :
      {A B : Type 0} (m : Step S A) (g : A → B) (w : S)
      → Holds K (m w)
      → Holds K ((m >>= λ a. pure (g a)) w)
  pure-Holds m g w h = bind-Holds m (λ a. pure (g a)) w h λ a u k. record { outcome = k }

-- A value is that of the step itself.
pub said-Ends :
    {S A : Type 0} {Q : S → A → Type 0} {R : S → Error → Type 0} (r : S × Result A)
    → Ends r Q R
    → Ends r (λ v a. Q v a × (r ≡ (v, ok a))) R
said-Ends (v, ok a) h = record { outcome = (h.outcome, refl) }
said-Ends (v, err e) h = record { outcome = h.outcome }

-- Behind a success the rest runs.
pub bind-ok :
    {S A B : Type 0} (m : Step S A) (f : A → Step S B) (w : S) (a : A)
    → (m w).1 ≡ ok a
    → (m >>= f) w ≡ f a (m w).0
bind-ok m f w a h = rw (h, ◌>>=◌) refl

-- Behind an error the rest is skipped.
pub bind-err :
    {S A B : Type 0} (m : Step S A) (f : A → Step S B) (w : S) (e : Error)
    → (m w).1 ≡ err e
    → (m >>= f) w ≡ ((m w).0, err e)
bind-err m f w e h = rw (h, ◌>>=◌) refl

pub Result-cases {ℓ} :
    {A : Type ℓ} (r : Result A) → ((a : A) × (r ≡ ok a)) ⊎ ((x : Error) × (r ≡ err x))
Result-cases (ok a) = inl (a, refl)
Result-cases (err x) = inr (x, refl)

common_case :
    {S A : Type 0} (Q : S → A → Type 0) (R : S → Error → Type 0) (K : S → Type 0) (v : S)
    (r : Result A)
    → Case Q R v r
    → ((a : A) → Q v a → K v)
    → ((e : Error) → R v e → K v)
    → K v
common_case Q R K v (ok a) c f g = f a c
common_case Q R K v (err e) c f g = g e c

-- What the two outcomes have in common.
pub common :
    {S A : Type 0} {Q : S → A → Type 0} {R : S → Error → Type 0} (K : S → Type 0) (r : S × Result A)
    → Ends r Q R
    → ((a : A) → Q r.0 a → K r.0)
    → ((e : Error) → R r.0 e → K r.0)
    → K r.0
common {Q = Q} {R = R} K r h f g = common_case Q R K r.0 r.1 h.outcome f g

all-Case :
    {S A : Type 0} (K : S → Type 0) (v : S) (r : Result A)
    → K v
    → Case (λ u _. K u) (λ u _. K u) v r
all-Case K v (ok a) h = h
all-Case K v (err e) h = h

pub all-Holds : {S A : Type 0} (K : S → Type 0) (r : S × Result A) → K r.0 → Holds K r
all-Holds K r h = record { outcome = all-Case K r.0 r.1 h }

pub Holds_state : {S A : Type 0} (K : S → Type 0) (r : S × Result A) → Holds K r → K r.0
Holds_state K r h = common K r h (λ a k. k) (λ e k. k)

module _ {S A : Type 0} {Q Q' : S → A → Type 0} {R R' : S → Error → Type 0} where
  weaken-Case :
      (v : S) (r : Result A)
      → Case Q R v r
      → ((a : A) (u : S) → Q u a → Q' u a)
      → ((e : Error) (u : S) → R u e → R' u e)
      → Case Q' R' v r
  weaken-Case v (ok a) h f g = f a v h
  weaken-Case v (err e) h f g = g e v h

  pub weaken-Ends :
      (r : S × Result A)
      → Ends r Q R
      → ((a : A) (u : S) → Q u a → Q' u a)
      → ((e : Error) (u : S) → R u e → R' u e)
      → Ends r Q' R'
  weaken-Ends r h f g = record { outcome = weaken-Case r.0 r.1 h.outcome f g }

-- ===== src/Session/Model.antt =====
-- internal/session/session.go: states, errors, the session record and the inputs of a creation.
-- An instant (time.Time) is a number of nanoseconds, 0 for the zero value; a string is its bytes;
-- a pointer that may be nil is an option.
use cloud_agent_sandbox.Base.{ℕ, ◌≡◌, ◌↔◌, Bool, true, false, Option, Text, arith, Eq, ◌==◌}

pub data State : Type 0 where
  creating running stopped dead : State

abbrev pub state_beq : State → State → Bool
state_beq creating creating = true
state_beq running running = true
state_beq stopped stopped = true
state_beq dead dead = true
state_beq _ _ = false

pub state_beq_iff : (a b : State) → (state_beq a b ≡ true) ↔ (a ≡ b)
state_beq_iff a b = ground arith

instance abbrev pub state_eq : Eq State
state_eq = record { beq = state_beq; beq_iff = state_beq_iff }

pub record Session : Type 0 where
  pub id : Text
  pub ref : Text
  pub org_id : Text
  pub user_id : Text
  pub state : State
  pub image : Text
  pub runtime_class : Text
  pub pod_name : Text
  pub pvc_name : Text
  pub proxy_id : Text
  pub from_pool : Bool
  pub created_at : ℕ
  pub last_activity_at : ℕ
  pub stopped_at : ℕ

unfoldable pub is_running : Session → Bool
is_running s = s.state == running

pub record CreateOptions : Type 0 where
  pub ref : Text
  pub org_id : Text
  pub user_id : Text
  pub image : Text
  pub proxy_group : Text
  pub use_kata : Bool
  pub writable_root : Option Bool
  pub run_as_root : Option Bool

-- The error values: the two sentinels, an error made of a text, one that wraps another under a
-- prefix (`fmt.Errorf("...: %w", err)`), and one that comes from outside the program. A text is
-- the format string of the source up to its first verb; the formatted values are left out.
pub data Error : Type 0 where
  not_found : Error
  invalid_session : Error
  message : Text → Error
  wrap : Text → Error → Error
  external : Text → Error

-- errors.Is(err, ErrInvalidSession)
unfoldable pub is_invalid_session : Error → Bool
is_invalid_session not_found = false
is_invalid_session invalid_session = true
is_invalid_session (message t) = false
is_invalid_session (wrap t e) = is_invalid_session e
is_invalid_session (external t) = false

-- A Go pair (value, error), where the value is read only if the error is nil.
pub data Result {ℓ} (A : Type ℓ) : Type ℓ where
  ok : A → Result A
  err : Error → Result A

-- ===== src/Manager/World/Effects.antt =====
-- What the calls of the environment and of the store do to the sessions.
use cloud_agent_sandbox.Base.{◌≡◌, ◌≢◌, refl, ◌∙◌, Option, none, some, Text, text_eq, arith}
use cloud_agent_sandbox.Base.Dict.{lookup, insert}
use cloud_agent_sandbox.Session.Model.{Session, Error, Result}
use cloud_agent_sandbox.Session.Store.{MemoryStore}
use cloud_agent_sandbox.Session.Store
use cloud_agent_sandbox.Manager.World.{
  Context, Environment, World, Step, ◌>>=◌, catch, pure, call, call_checked, call_total, wrapped,
  store_get, store_update, store_list,
}
use cloud_agent_sandbox.Manager.World.Outcome.{Ends, bind-Ends, weaken-Ends, catch-Ends}

module _ {P : Type 0} where
  abbrev pub Same : World P → World P → Type 0
  Same w v = v.sessions ≡ w.sessions

  pub call_checked_lem :
      (f : P → P × Option Error) (w : World P)
      → Ends (call_checked f w) (λ v _. Same w v) (λ v x. Same w v)
  call_checked_lem f w = ground arith

  pub wrapped_checked_lem :
      (t : Text) (f : P → P × Option Error) (w : World P)
      → Ends (wrapped t (call_checked f) w) (λ v _. Same w v) (λ v x. Same w v)
  wrapped_checked_lem t f w = ground arith

  pub call_total_lem :
      {A : Type 0} (f : P → P × A) (w : World P)
      → Ends (call_total f w) (λ v _. Same w v) (λ v x. ⊥)
  call_total_lem f w = ground arith

  pub wrapped_call_lem :
      {A : Type 0} (t : Text) (f : P → P × Result A) (w : World P)
      → Ends (wrapped t (call f) w) (λ v _. Same w v) (λ v x. Same w v)
  wrapped_call_lem t f w = ground arith

module _ {P : Type 0} (e : Environment P) where
  pub store_get_lem :
      (ctx : Context) (id : Text) (w : World P)
      → Ends
          (store_get e ctx id w)
          (λ v s. Same w v × (lookup id w.sessions ≡ some s))
          (λ v x. Same w v)
  unfolding store_get Store.get
  store_get_lem ctx id w = ground arith

  pub store_update_lem :
      (ctx : Context) (s : Session) (w : World P)
      → Ends
          (store_update e ctx s w)
          (λ v _. (lookup s.id w.sessions ≢ none) × (v.sessions ≡ insert s.id s w.sessions))
          (λ v x. Same w v)
  unfolding store_update Store.update
  store_update_lem ctx s w = ground arith

-- A step in which the platform alone takes part, whatever its outcome.
pub record IsFrame {P : Type 0} (w v : World P) : Type 0 where
  pub sessions : v.sessions ≡ w.sessions
  pub active : v.active ≡ w.active

module _ {P : Type 0} where
  pub IsFrame-refl : (w : World P) → IsFrame w w
  IsFrame-refl w = record { sessions = refl; active = refl }

  pub IsFrame-trans : (u v w : World P) → IsFrame u v → IsFrame v w → IsFrame u w
  IsFrame-trans u v w f g = record {
    sessions = g.sessions ∙ f.sessions;
    active = g.active ∙ f.active;
  }

  -- Every outcome of a step leaves the Manager's own state alone.
  abbrev pub Frames : {A : Type 0} → World P → World P × Result A → Type 0
  Frames w r = Ends r (λ v _. IsFrame w v) (λ v x. IsFrame w v)

  pub bind-Frames :
      {A B : Type 0} (m : Step P A) (f : A → Step P B) (w : World P)
      → Frames w (m w)
      → ((a : A) (u : World P) → Frames u (f a u))
      → Frames w ((m >>= f) w)
  bind-Frames m f w h k = bind-Ends _ m f w h (λ a u q.
      weaken-Ends _ (k a u) (λ b v p. IsFrame-trans w u v q p) (λ x v p. IsFrame-trans w u v q p))

  pub caught-Frames :
      (m : Step P (Unit {0})) (w : World P) → Frames w (m w) → Frames w (catch m (λ x. pure tt) w)
  caught-Frames m w h = catch-Ends m (λ x. pure tt) w h (λ x u q. record { holds = q })

  pub call-Frames : {A : Type 0} (f : P → P × Result A) (w : World P) → Frames w (call f w)
  call-Frames f w = ground arith

  pub call_total-Frames : {A : Type 0} (f : P → P × A) (w : World P) → Frames w (call_total f w)
  call_total-Frames f w = ground arith

module _ {P : Type 0} (e : Environment P) where
  pub store_list-Frames : (ctx : Context) (w : World P) → Frames w (store_list e ctx w)
  unfolding store_list Store.list
  store_list-Frames ctx w = ground arith

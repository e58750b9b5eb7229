-- ===== src/Manager/World.antt =====
-- internal/manager/manager.go: what a Manager holds and what it calls. The container runtime, the
-- warm pool, the proxy assigner, the proxy autoscaler, the clock and the contexts are an
-- environment with a state `P` of its own, which every call may change and every answer may depend
-- on. The Manager's own state is the session store and the map of calls in flight.
pub mod Outcome
pub mod Effects
use cloud_agent_sandbox.Base.{ℕ, Bool, true, false, Option, none, some, List, [], ◌∷◌, Text, bytes}
use cloud_agent_sandbox.Base.Dict.{Dict}
use cloud_agent_sandbox.Base.Int.{ℤ}
use cloud_agent_sandbox.Session.Model.{State, Session, Error, wrap, Result, ok, err}
use cloud_agent_sandbox.Session.Store.{MemoryStore}
use cloud_agent_sandbox.Session.Store
use cloud_agent_sandbox.Runtime.Model.{SandboxSpec, SandboxHandle, SandboxRef, WorkspaceRef}

-- The context of the request, or one that is never cancelled: context.Background and
-- context.WithoutCancel.
pub data Context : Type 0 where
  request background : Context

-- ProxyAssigner.Assign's results but the error.
pub record Assignment : Type 0 where
  pub endpoint : Text
  pub ca_cert : Text
  pub proxy_id : Text

pub record ProxyAssigner (P : Type 0) : Type 0 where
  pub assign : Context → Text → P → P × Result Assignment
  pub release : Context → Text → P → P

-- runtime.Runtime, with the operations that the Manager calls.
pub record Runtime (P : Type 0) : Type 0 where
  pub create : Context → SandboxSpec → P → P × Result SandboxHandle
  pub wait_ready : Context → Text → ℤ → P → P × Option Error
  pub stop : Context → Text → P → P × Option Error
  pub resume : Context → SandboxSpec → Text → P → P × Result SandboxHandle
  pub purge : Context → Text → Text → P → P × Option Error
  pub list_sandboxes : Context → P → P × Result (List SandboxRef)
  pub list_workspaces : Context → P → P × Result (List WorkspaceRef)

-- The fields rt, pool, proxy and scaler of Manager, of which the last three may be nil; the clock;
-- `ctx.Err()` of a request; uuid.NewString and sha256.Sum256.
pub record Environment (P : Type 0) : Type 0 where
  pub rt : Runtime P
  pub acquire : Option (Context → Text → P → P × Option SandboxHandle)
  pub proxy : Option (ProxyAssigner P)
  pub scaler : Option (Context → P → P × Option Error)
  pub now : P → P × ℕ
  pub request_err : P → P × Option Error
  pub new_uuid : P → P × Text
  pub sha256 : Text → Text

pub record World (P : Type 0) : Type 0 where
  pub platform : P
  pub sessions : MemoryStore
  pub active : Dict ℕ

-- A step of the Manager that can fail. On an error the rest is skipped.
abbrev pub Step : Type 0 → Type 0 → Type 0
Step P A = World P → World P × Result A

abbrev pub unit_result : Option Error → Result (Unit {0})
unit_result none = ok tt
unit_result (some e) = err e

module _ {P : Type 0} where
  infixl 5 ◌>>=◌ ◌>>◌
  abbrev pub ◌>>=◌ : {A B : Type 0} → Step P A → (A → Step P B) → Step P B
  ◌>>=◌ m f w = elim (m w).1 [ ok a ↦ f a (m w).0 | err e ↦ ((m w).0, err e) ]

  abbrev pub ◌>>◌ : {B : Type 0} → Step P (Unit {0}) → Step P B → Step P B
  m >> k = m >>= λ _. k

  abbrev pub pure : {A : Type 0} → A → Step P A
  pure a w = (w, ok a)

  abbrev pub fail : {A : Type 0} → Error → Step P A
  fail e w = (w, err e)

  -- `if err != nil { return ..., handler }`
  abbrev pub catch : {A : Type 0} → Step P A → (Error → Step P A) → Step P A
  catch m h w = elim (m w).1 [ ok a ↦ ((m w).0, ok a) | err e ↦ h e (m w).0 ]

  -- `return fmt.Errorf("prefix: %w", err)`
  abbrev pub wrapped : {A : Type 0} → Text → Step P A → Step P A
  wrapped t m w = ((m w).0, elim (m w).1 [ ok a ↦ ok a | err e ↦ err (wrap t e) ])

  -- `_ = f(...)`
  abbrev pub ignore : Step P (Unit {0}) → Step P (Unit {0})
  ignore m w = ((m w).0, ok tt)

  -- A call of the environment.
  abbrev pub call : {A : Type 0} → (P → P × Result A) → Step P A
  call f w = let (p, r) = f w.platform in (record w { platform = p }, r)

  abbrev pub call_checked : (P → P × Option Error) → Step P (Unit {0})
  call_checked f w = let (p, r) = f w.platform in (record w { platform = p }, unit_result r)

  abbrev pub call_total : {A : Type 0} → (P → P × A) → Step P A
  call_total f w = let (p, a) = f w.platform in (record w { platform = p }, ok a)

module _ {P : Type 0} (e : Environment P) where
  -- `ctx.Err()`
  abbrev pub context_err : Context → P → P × Option Error
  context_err request p = e.request_err p
  context_err background p = (p, none)

  -- The methods of the store, each of which looks at its context first.
  unfoldable pub store_create : Context → Session → Step P (Unit {0})
  store_create ctx s w =
      let (p, c) = context_err ctx w.platform in
      let (m, r) = Store.create c (some s) w.sessions in
      (record w { platform = p; sessions = m }, unit_result r)

  unfoldable pub store_update : Context → Session → Step P (Unit {0})
  store_update ctx s w =
      let (p, c) = context_err ctx w.platform in
      let (m, r) = Store.update c (some s) w.sessions in
      (record w { platform = p; sessions = m }, unit_result r)

  unfoldable pub store_delete : Context → Text → Step P (Unit {0})
  store_delete ctx id w =
      let (p, c) = context_err ctx w.platform in
      let (m, r) = Store.delete c id w.sessions in
      (record w { platform = p; sessions = m }, unit_result r)

  unfoldable pub store_get : Context → Text → Step P Session
  store_get ctx id w =
      let (p, c) = context_err ctx w.platform in
      (record w { platform = p }, Store.get c id w.sessions)

  unfoldable pub store_list : Context → Step P (List Session)
  store_list ctx w =
      let (p, c) = context_err ctx w.platform in
      (record w { platform = p }, Store.list c w.sessions)

  unfoldable pub store_list_by_state : Context → State → Step P (List Session)
  store_list_by_state ctx st w =
      let (p, c) = context_err ctx w.platform in
      (record w { platform = p }, Store.list_by_state c st w.sessions)

  -- The clock is read once the context has passed.
  unfoldable pub store_touch : Context → Text → Step P (Unit {0})
  store_touch ctx id w =
      let (p, c) = context_err ctx w.platform in
      let (p', now) = e.now p in
      let (m, r) = Store.touch c now id w.sessions in
      (record w { platform = p'; sessions = m }, unit_result r)

-- ===== src/Manager/Lifecycle.antt =====
-- internal/manager/manager.go: Get, Require, Stop, Resume, Delete, Clear and their clean-ups.
pub mod Laws
pub mod Resuming
pub mod Clearing
use cloud_agent_sandbox.Base.{
  Bool, true, false, Option, none, some, List, [], ◌∷◌, Text, bytes, ◌==◌, text_eq, if◌then◌else◌,
  ◌||◌,
}
use cloud_agent_sandbox.Session.Model.{
  State, creating, running, stopped, dead, state_eq, Session, is_running, Error, invalid_session,
  message, Result, ok, err,
}
use cloud_agent_sandbox.Session.Id.{canonical_id}
use cloud_agent_sandbox.Runtime.Model.{SandboxSpec, SandboxHandle}
use cloud_agent_sandbox.Manager.World.{
  Context, background, Assignment, ProxyAssigner, Runtime, Environment, World, Step, ◌>>=◌, ◌>>◌,
  pure, fail, catch, wrapped, ignore, call, call_checked, call_total, store_get, store_list,
  store_update, store_delete,
}
use cloud_agent_sandbox.Manager.Create.{ready_timeout, release}
use cloud_agent_sandbox.Config.Model.{Config}

-- The specification of a resumed sandbox. The source sets these fields only; the others have
-- their zero values.
abbrev pub resume_spec : Text → Session → Assignment → SandboxSpec
resume_spec id s a = record {
  session_id = id;
  image = s.image;
  runtime_class = s.runtime_class;
  proxy_endpoint = a.endpoint;
  ca_cert = a.ca_cert;
  labels = [];
  warm = false;
  run_as_root = false;
  writable_root = false;
}

module _ {P : Type 0} (cfg : Config) (e : Environment P) where
  -- `if err != nil { return session.ErrInvalidSession }` behind `store.Get`.
  unfoldable pub get : Context → Text → Step P Session
  get ctx id = catch (store_get e ctx id) λ x. fail invalid_session

  unfoldable pub require : Context → Text → Step P Session
  require ctx id = do s ← get ctx id; if is_running s then pure s else fail invalid_session

  -- Stop, once the session is found.
  unfoldable pub stop_found : Context → Session → Step P (Unit {0})
  stop_found ctx s = if s.state == stopped || s.state == dead then pure tt else (do
    wrapped (bytes "stop sandbox: ") (call_checked (e.rt.stop ctx s.pod_name))
    at ← call_total e.now
    store_update e ctx (record s { state = stopped; stopped_at = at }))

  unfoldable pub stop : Context → Text → Step P (Unit {0})
  stop ctx id = do s ← get ctx id; stop_found ctx s

  -- Deletes the new pod of a resumption that failed and keeps the workspace.
  unfoldable pub cleanup_failed_resume : Session → Step P (Unit {0})
  cleanup_failed_resume s = do
    ignore (call_checked (e.rt.stop background s.pod_name))
    release cfg e background s.id
    ignore (store_update e background (record s { pod_name = []; state = stopped }))

  -- The proxy of a resumed session; without an assigner its record keeps the old proxy.
  unfoldable pub reassign_proxy : Context → Text → Session → Step P (Session × Assignment)
  reassign_proxy ctx id s = elim e.proxy [
    | none ↦ pure (s, record { endpoint = []; ca_cert = []; proxy_id = [] })
    | some x ↦ do
      a ← wrapped (bytes "assign proxy: ") (call (x.assign ctx id))
      pure (record s { proxy_id = a.proxy_id }, a)
  ]

  -- The last part of Resume: the sandbox is ready.
  unfoldable pub mark_running : Context → Session → Step P Session
  mark_running ctx s = do
    at ← call_total e.now
    let up = record s { state = running; last_activity_at = at }
    store_update e ctx up
    pure up

  -- `store.Update`, and the clean-up if it fails.
  unfoldable pub record_pod : Context → Session → Step P (Unit {0})
  record_pod ctx s = catch (store_update e ctx s) λ x. do cleanup_failed_resume s; fail x

  -- `rt.WaitReady`, and the clean-up if it fails.
  unfoldable pub await_resumed : Context → Session → Step P (Unit {0})
  await_resumed ctx s =
      catch (call_checked (e.rt.wait_ready ctx s.pod_name ready_timeout))
        λ x. do cleanup_failed_resume s; wrapped (bytes "resumed sandbox not ready: ") (fail x)

  -- From the new pod to the running session.
  unfoldable pub bring_back : Context → Session → Step P Session
  bring_back ctx s = do record_pod ctx s; await_resumed ctx s; mark_running ctx s

  -- Resume, once the session is known to be stopped.
  unfoldable pub resume_stopped : Context → Text → Session → Step P Session
  resume_stopped ctx id s = do
    (t, a) ← reassign_proxy ctx id s
    h ← wrapped (bytes "resume sandbox: ") (call (e.rt.resume ctx (resume_spec id t a) t.pvc_name))
    bring_back ctx (record t { pod_name = h.pod_name; state = creating })

  -- Resume, once the session is found.
  unfoldable pub resume_found : Context → Text → Session → Step P Session
  resume_found ctx id s =
      if is_running s
      then pure s
      else if s.state == stopped
      then resume_stopped ctx id s
      else fail (message (bytes "session "))

  unfoldable pub resume : Context → Text → Step P Session
  resume ctx id = do s ← get ctx id; resume_found ctx id s

  -- Delete, once the session is found.
  unfoldable pub delete_found : Context → Text → Session → Step P (Unit {0})
  delete_found ctx id s = do
    wrapped (bytes "purge sandbox: ") (call_checked (e.rt.purge ctx s.pod_name s.pvc_name))
    release cfg e ctx id
    store_update e ctx (record s { state = dead })

  unfoldable pub delete : Context → Text → Step P (Unit {0})
  delete ctx id = do s ← get ctx id; delete_found ctx id s

  -- purgeAndForget: no tombstone is left.
  unfoldable pub purge_and_forget : Context → Session → Step P (Unit {0})
  purge_and_forget ctx s = do
    ignore (call_checked (e.rt.purge ctx s.pod_name s.pvc_name))
    release cfg e ctx s.id
    ignore (store_delete e ctx s.id)

  -- Clear. The lock of the id is held throughout.
  unfoldable pub clear : Context → Text → Step P (Unit {0})
  clear ctx ref =
      if ref == []
      then fail invalid_session
      else do s ← get ctx (canonical_id e.sha256 ref); purge_and_forget ctx s

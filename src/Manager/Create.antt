-- ===== src/Manager/Create.antt =====
-- internal/manager/manager.go: Create and what it calls.
pub mod Stages
pub mod Laws
pub mod Success
use cloud_agent_sandbox.Base.{
  ℕ, ◌+◌, ◌*◌, Bool, true, false, ◌&&◌, ◌||◌, Option, none, some, List, [], ◌∷◌, Text, bytes, ◌==◌,
  nat_eq, text_eq, length, if◌then◌else◌, Eq,
}
use cloud_agent_sandbox.Base.Int.{ℤ, pos, leb_ℤ}
use cloud_agent_sandbox.Strings.{trim_space}
use cloud_agent_sandbox.Config.Model.{Config, second}
use cloud_agent_sandbox.Session.Model.{
  State, running, creating, dead, Session, CreateOptions, Error, message, Result, ok, err,
}
use cloud_agent_sandbox.Session.Id.{new_id, canonical_id}
use cloud_agent_sandbox.Runtime.Model.{SandboxSpec, SandboxHandle}
use cloud_agent_sandbox.Manager.World.{
  Context, background, Assignment, ProxyAssigner, Runtime, Environment, World, Step, ◌>>=◌, ◌>>◌,
  pure, fail, catch, wrapped, ignore, call, call_checked, call_total, store_create, store_update,
  store_list_by_state,
}

abbrev pub ready_timeout : ℤ
ready_timeout = pos (90 * second)

unfoldable pub resolve_image : Config → Text → Text
resolve_image cfg image =
    let name = trim_space image in
    if name == [] || name == bytes "default" || name == bytes "sandbox-default"
    then cfg.sandbox.default_image
    else image

unfoldable pub resolve_bool : Option Bool → Bool → Bool
resolve_bool (some b) def = b
resolve_bool none def = def

unfoldable pub bool_beq : Bool → Bool → Bool
bool_beq true b = b
bool_beq false true = false
bool_beq false false = true

-- The runtime class of a new sandbox.
unfoldable pub class_of : Config → CreateOptions → Text
class_of cfg opts =
    if opts.use_kata && (if cfg.sandbox.kata_runtime_class == [] then false else true)
    then cfg.sandbox.kata_runtime_class
    else cfg.sandbox.runtime_class

module _ {P : Type 0} (cfg : Config) (e : Environment P) where
  -- The global cap on sandboxes that run or start.
  unfoldable pub admit : Context → Step P (Unit {0})
  admit ctx = do
    up ← wrapped (bytes "list running: ") (store_list_by_state e ctx running)
    starting ← wrapped (bytes "list creating: ") (store_list_by_state e ctx creating)
    if leb_ℤ cfg.pool.max_running (pos (length up + length starting))
        then fail (message (bytes "max running sandboxes reached ("))
        else pure tt

  -- Release, where there is an assigner.
  unfoldable pub release : Context → Text → Step P (Unit {0})
  release ctx id w = elim e.proxy [
    | none ↦ (w, ok tt)
    | some x ↦ (record w { platform = x.release ctx id w.platform }, ok tt)
  ]

  -- The id of a new session: canonical for a reference, random without one. The random id is made
  -- in either case.
  unfoldable pub choose_id : Text → Step P Text
  choose_id ref = do
    uuid ← call_total e.new_uuid
    pure (if ref == [] then new_id uuid else canonical_id e.sha256 ref)

  -- Waits for proxy capacity, where there is a scaler.
  unfoldable pub ensure_capacity : Context → Text → Step P (Unit {0})
  ensure_capacity ctx id = elim e.scaler [
    | none ↦ pure tt
    | some ready ↦
        catch (call_checked (ready ctx))
          λ x. do release ctx id; wrapped (bytes "ensure proxy ready: ") (fail x)
  ]

  abbrev pub no_assignment : Assignment
  no_assignment = record { endpoint = []; ca_cert = []; proxy_id = [] }

  -- The proxy of a new session: its endpoint, its certificate and its id, empty without an
  -- assigner.
  unfoldable pub assign_proxy : Context → Text → Step P Assignment
  assign_proxy ctx id = elim e.proxy [
    | none ↦ pure no_assignment
    | some x ↦ do
      a ← wrapped (bytes "assign proxy: ") (call (x.assign ctx id))
      ensure_capacity ctx id
      pure a
  ]

  -- The record that Create starts from.
  unfoldable pub new_session : CreateOptions → Text → Text → Text → Step P Session
  new_session opts id image proxy_id = do
    created ← call_total e.now
    active ← call_total e.now
    pure (record {
      id = id;
      ref = opts.ref;
      org_id = opts.org_id;
      user_id = opts.user_id;
      state = creating;
      image = image;
      runtime_class = class_of cfg opts;
      pod_name = [];
      pvc_name = [];
      proxy_id = proxy_id;
      from_pool = false;
      created_at = created;
      last_activity_at = active;
      stopped_at = 0;
    })

  -- A warm sandbox, where there is a pool and the request is for what the pool holds.
  unfoldable pub acquire_warm : Context → Bool → Text → Step P (Option SandboxHandle)
  acquire_warm ctx eligible image = elim e.acquire [
    | none ↦ pure none
    | some acquire ↦ if eligible then call_total (acquire ctx image) else pure none
  ]

  -- `sess.PodName = handle.PodName; ...` of a warm sandbox.
  abbrev pub claim : Session → Option SandboxHandle → Session
  claim s none = s
  claim s (some h) = record s { pod_name = h.pod_name; pvc_name = h.pvc_name; from_pool = true }

  unfoldable pub cold_create : Context → SandboxSpec → Session → Step P Session
  cold_create ctx spec s = do
    h ←
        catch (call (e.rt.create ctx spec))
          λ x. do release ctx s.id; wrapped (bytes "create sandbox: ") (fail x)
    pure (record s { pod_name = h.pod_name; pvc_name = h.pvc_name })

  -- Tears down a sandbox that was persisted and never became ready, and marks it dead.
  unfoldable pub cleanup_failed_create : Session → Step P (Unit {0})
  cleanup_failed_create s = do
    ignore (call_checked (e.rt.purge background s.pod_name s.pvc_name))
    release background s.id
    ignore (store_update e background (record s { state = dead }))

  -- `store.Create`, with the sandbox purged if it fails.
  unfoldable pub persist : Context → Session → Step P (Unit {0})
  persist ctx s = catch (store_create e ctx s) λ x. do
    ignore (call_checked (e.rt.purge background s.pod_name s.pvc_name))
    release ctx s.id
    wrapped (bytes "persist session: ") (fail x)

  -- From the persisted record to the running session.
  unfoldable pub bring_up : Context → Session → Step P Session
  bring_up ctx s = do
    catch (call_checked (e.rt.wait_ready ctx s.pod_name ready_timeout))
        λ x. do cleanup_failed_create s; wrapped (bytes "sandbox not ready: ") (fail x)
    let up = record s { state = running }
    catch (store_update e ctx up)
        λ x. do cleanup_failed_create up; wrapped (bytes "update session: ") (fail x)
    pure up

  -- The sandbox of a new session: a warm one, else a cold one.
  unfoldable pub obtain : Context → CreateOptions → Assignment → Session → Step P Session
  obtain ctx opts a s = do
    let writable = resolve_bool opts.writable_root cfg.sandbox.writable_root_filesystem
    let root = resolve_bool opts.run_as_root cfg.sandbox.run_as_root
    let eligible =
        s.image == cfg.sandbox.default_image
        && bool_beq writable cfg.sandbox.writable_root_filesystem
        && bool_beq root cfg.sandbox.run_as_root
    h ← acquire_warm ctx eligible s.image
    let claimed = claim s h
    if claimed.pod_name == []
        then cold_create ctx
            (record {
              session_id = s.id;
              image = s.image;
              runtime_class = s.runtime_class;
              proxy_endpoint = a.endpoint;
              ca_cert = a.ca_cert;
              labels = [];
              warm = false;
              run_as_root = root;
              writable_root = writable;
            })
            claimed
        else pure claimed

  unfoldable pub launch : Context → Session → Step P Session
  launch ctx s = do persist ctx s; bring_up ctx s

  -- From the session's record to the sandbox that serves it.
  unfoldable pub equip : Context → CreateOptions → Session → Step P Session
  equip ctx opts s = do
    a ← assign_proxy ctx s.id
    t ← obtain ctx opts a (record s { proxy_id = a.proxy_id })
    launch ctx t

  unfoldable pub start : Context → CreateOptions → Step P Session
  start ctx opts = do
    id ← choose_id opts.ref
    s ← new_session opts id (resolve_image cfg opts.image) []
    equip ctx opts s

  -- Create
  unfoldable pub create : Context → CreateOptions → Step P Session
  create ctx opts = do admit ctx; start ctx opts

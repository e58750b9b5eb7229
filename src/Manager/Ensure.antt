-- ===== src/Manager/Ensure.antt =====
-- internal/manager/manager.go: EnsureSession, the get-or-create of the MCP surface.
pub mod Laws
use cloud_agent_sandbox.Base.{
  Bool, true, false, not, Option, none, some, List, [], Text, ◌==◌, text_eq, if◌then◌else◌, ◌&&◌,
}
use cloud_agent_sandbox.Session.Model.{
  State, stopped, state_eq, Session, is_running, CreateOptions, Error, invalid_session, Result, ok,
  err,
}
use cloud_agent_sandbox.Session.Id.{canonical_id}
use cloud_agent_sandbox.Config.Model.{Config}
use cloud_agent_sandbox.Manager.World.{
  Context, background, Environment, World, Step, ◌>>=◌, ◌>>◌, pure, fail, store_get,
}
use cloud_agent_sandbox.Manager.Create.{resolve_image, create}
use cloud_agent_sandbox.Manager.Lifecycle.{resume, purge_and_forget}

module _ {P : Type 0} (cfg : Config) (e : Environment P) where
  -- The caller asks for another image than the sandbox has.
  unfoldable pub image_change : CreateOptions → Bool → Session → Bool
  image_change opts recreate s =
      recreate && not (opts.image == []) && not (s.image == resolve_image cfg opts.image)

  -- The `switch` over the session that is there.
  unfoldable pub reuse : Context → CreateOptions → Bool → Text → Session → Step P Session
  reuse ctx opts recreate id s =
      if image_change opts recreate s
      then (do purge_and_forget cfg e background s; create cfg e ctx opts)
      else if is_running s
      then pure s
      else if s.state == stopped
      then resume cfg e ctx id
      else (do purge_and_forget cfg e background s; create cfg e ctx opts)

  -- The look-up; an error of it, whichever it is, leads to a creation.
  unfoldable pub get_or_create : Context → CreateOptions → Bool → Text → Step P Session
  get_or_create ctx opts recreate id w =
      let (v, r) = store_get e ctx id w in
      elim r [ ok s ↦ reuse ctx opts recreate id s v | err x ↦ create cfg e ctx opts v ]

  -- EnsureSession. The lock of the id is held throughout.
  unfoldable pub ensure_session : Context → CreateOptions → Bool → Step P Session
  ensure_session ctx opts recreate =
      if opts.ref == []
      then fail invalid_session
      else get_or_create ctx opts recreate (canonical_id e.sha256 opts.ref)

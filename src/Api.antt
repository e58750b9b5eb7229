-- ===== src/Api.antt =====
-- internal/api/api.go: the HTTP interface of the life cycle of sessions, over the Manager. The JSON
-- of a request is decoded by the library; the middleware is left out.
pub mod Laws
use cloud_agent_sandbox.Base.{
  ℕ, Bool, true, false, not, ◌&&◌, ◌||◌, Option, none, some, List, [], ◌∷◌, ◌++◌, map, Text, bytes,
  ◌==◌, nat_eq, text_eq, if◌then◌else◌,
}
use mathlib.Core.List.{reverse}
use cloud_agent_sandbox.Strings.{cut_prefix, contains, to_lower}
use cloud_agent_sandbox.Config.Model.{Config}
use cloud_agent_sandbox.Edit.{push}
use cloud_agent_sandbox.Session.Model.{
  State, Session, CreateOptions, Error, not_found, invalid_session, message, wrap, external,
  is_invalid_session, Result, ok, err,
}
use cloud_agent_sandbox.Manager.World.{Context, request, Environment, World, store_list}
use cloud_agent_sandbox.Manager.Create.{create}
use cloud_agent_sandbox.Manager.Lifecycle.{get, stop, resume, delete}

-- sessionDTO
pub record SessionDto : Type 0 where
  pub id : Text
  pub ref : Text
  pub org_id : Text
  pub user_id : Text
  pub state : State
  pub image : Text
  pub runtime_class : Text
  pub created_at : ℕ
  pub last_activity_at : ℕ

-- What is written to the client behind the status.
pub data Body : Type 0 where
  empty : Body
  one : SessionDto → Body
  many : List SessionDto → Body
  failure : Text → Body

pub record Response : Type 0 where
  pub status : ℕ
  pub body : Body
  pub allow : Text

-- The body is what the decoder makes of it: `none` where it fails, the zero values where it is empty.
pub record Request : Type 0 where
  pub method : Text
  pub path : Text
  pub body : Option (Text × Bool)

unfoldable pub respond : ℕ → Body → Response
respond status body = record { status = status; body = body; allow = [] }

-- writeErr
unfoldable pub refuse : ℕ → Text → Response
refuse status reason = respond status (failure reason)

unfoldable pub method_not_allowed : Text → Response
method_not_allowed allow = record {
  status = 405;
  body = failure (bytes "method not allowed");
  allow = allow;
}

unfoldable pub nowhere : Response
nowhere = refuse 404 (bytes "not found")

-- toSessionDTO
unfoldable pub to_session_dto : Session → SessionDto
to_session_dto s = record {
  id = s.id;
  ref = s.ref;
  org_id = s.org_id;
  user_id = s.user_id;
  state = s.state;
  image = s.image;
  runtime_class = s.runtime_class;
  created_at = s.created_at;
  last_activity_at = s.last_activity_at;
}

-- err.Error()
unfoldable pub error_text : Error → Text
error_text not_found = bytes "session not found"
error_text invalid_session = bytes "invalid session"
error_text (message t) = t
error_text (wrap t e) = t ++ error_text e
error_text (external t) = t

-- writeManagerErr
unfoldable pub manager_failure : Error → Response
manager_failure e =
    if is_invalid_session e
    then refuse 404 (bytes "invalid session")
    else if contains (to_lower (error_text e)) (bytes "max running")
    then refuse 409 (error_text e)
    else refuse 500 (bytes "internal server error")

-- strings.TrimSuffix(path, "/")
unfoldable pub trim_slash : Text → Text
trim_slash t = elim (reverse t) [ [] ↦ [] | c ∷ u ↦ if c == b'/' then reverse u else t ]

-- strings.Split(rest, "/")
unfoldable pub split_slash : Text → List Text
split_slash [] = [] ∷ []
split_slash (c ∷ t) = let rest = split_slash t in if c == b'/' then [] ∷ rest else push c rest

module _ {P : Type 0} (cfg : Config) (e : Environment P) where
  abbrev answer : {A : Type 0} → (A → Response) → World P × Result A → World P × Response
  answer f r = (r.0, elim r.1 [ ok a ↦ f a | err x ↦ manager_failure x ])

  abbrev shown : Session → Response
  shown s = respond 200 (one (to_session_dto s))

  -- createSession
  unfoldable pub create_session : Option (Text × Bool) → World P → World P × Response
  create_session none w = (w, refuse 400 (bytes "invalid json"))
  create_session (some b) w =
      answer (λ s. respond 201 (one (to_session_dto s)))
        (create cfg e request
          (record {
            ref = [];
            org_id = [];
            user_id = [];
            image = b.0;
            proxy_group = [];
            use_kata = b.1;
            writable_root = none;
            run_as_root = none;
          })
          w)

  -- listSessions
  unfoldable pub list_sessions : World P → World P × Response
  list_sessions w =
      answer (λ ss. respond 200 (many (map to_session_dto ss))) (store_list e request w)

  -- getSession
  unfoldable pub get_session : Text → World P → World P × Response
  get_session id w = answer shown (get cfg e request id w)

  -- stopSession
  unfoldable pub stop_session : Text → World P → World P × Response
  stop_session id w =
      let r = stop cfg e request id w in
      elim r.1 [ ok u ↦ get_session id r.0 | err x ↦ (r.0, manager_failure x) ]

  -- resumeSession
  unfoldable pub resume_session : Text → World P → World P × Response
  resume_session id w = answer shown (resume cfg e request id w)

  -- deleteSession
  unfoldable pub delete_session : Text → World P → World P × Response
  delete_session id w = answer (λ u. respond 204 empty) (delete cfg e request id w)

  unfoldable pub route_root : Request → World P → World P × Response
  route_root r w =
      if r.method == bytes "POST"
      then create_session r.body w
      else if r.method == bytes "GET"
      then list_sessions w
      else (w, method_not_allowed (bytes "GET, POST"))

  unfoldable pub route_one : Text → Text → World P → World P × Response
  route_one method id w =
      if method == bytes "GET"
      then get_session id w
      else if method == bytes "DELETE"
      then delete_session id w
      else (w, method_not_allowed (bytes "GET, DELETE"))

  unfoldable pub route_action : Text → Text → Text → World P → World P × Response
  route_action method id action w =
      if method == bytes "POST"
      then (if action == bytes "stop"
          then stop_session id w
          else if action == bytes "resume"
          then resume_session id w
          else (w, nowhere))
      else (w, nowhere)

  unfoldable pub route_parts : Text → List Text → World P → World P × Response
  route_parts method [] w = (w, nowhere)
  route_parts method (id ∷ []) w = if id == [] then (w, nowhere) else route_one method id w
  route_parts method (id ∷ action ∷ []) w =
      if id == [] then (w, nowhere) else route_action method id action w
  route_parts method (id ∷ action ∷ p ∷ ps) w = (w, nowhere)

  unfoldable pub route_below : Text → Option Text → World P → World P × Response
  route_below method none w = (w, nowhere)
  route_below method (some rest) w = route_parts method (split_slash rest) w

  -- route
  unfoldable pub route : Request → World P → World P × Response
  route r w =
      let path = trim_slash r.path in
      if path == bytes "/sessions"
      then route_root r w
      else route_below r.method (cut_prefix (bytes "/sessions/") path) w

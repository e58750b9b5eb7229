-- ===== src/Orchestrator/Front.antt =====
-- cmd/orchestrator/main.go: the HTTP surface. The path of a request is the one that the mux has
-- cleaned. The handler behind the tool endpoint is the library's server over the tools: `mcp` is what
-- it does with a request, and `M` what it answers.
pub mod Laws
use cloud_agent_sandbox.Base.{
  ℕ, Bool, true, false, ◌||◌, Option, List, [], ◌∷◌, ◌++◌, Text, bytes, ◌==◌, text_eq,
  if◌then◌else◌,
}
use cloud_agent_sandbox.Strings.{has_prefix}
use cloud_agent_sandbox.Config.Model.{Config}
use cloud_agent_sandbox.Manager.World.{Environment}
use cloud_agent_sandbox.Mcp.Model.{Server}
use cloud_agent_sandbox.Api.{Response, Body}
use cloud_agent_sandbox.Api

-- http.Request: `header` is Header.Get, and `body` what the decoder of the interface makes of the
-- body.
pub record HttpRequest : Type 0 where
  pub method : Text
  pub path : Text
  pub header : Text → Text
  pub body : Option (Text × Bool)

-- What is written: a text, the answer of the interface, or that of the tool server.
pub data Content (M : Type 0) : Type 0 where
  plain : Text → Content M
  json : Body → Content M
  tool_answer : M → Content M

pub record Reply (M : Type 0) : Type 0 where
  pub status : ℕ
  pub headers : List (Text × Text)
  pub content : Content M

abbrev pub Handler : Type 0 → Type 0 → Type 0
Handler S M = HttpRequest → S → S × Reply M

module _ {M : Type 0} where
  unfoldable pub healthy : Reply M
  healthy = record { status = 200; headers = []; content = plain (bytes "ok") }

  -- http.NotFound
  unfoldable pub page_not_found : Reply M
  page_not_found = record {
    status = 404;
    headers = [];
    content = plain (bytes "404 page not found\n");
  }

  unfoldable pub unauthorized : Reply M
  unauthorized = record {
    status = 401;
    headers =
        (bytes "WWW-Authenticate", bytes "Bearer")
        ∷ (bytes "Content-Type", bytes "application/json")
        ∷ [];
    content = plain (bytes "{\"error\":\"unauthorized\"}");
  }

-- `subtle.ConstantTimeCompare([]byte(got), want) == 1`
unfoldable pub is_authorized : Text → HttpRequest → Bool
is_authorized key r = r.header (bytes "Authorization") == bytes "Bearer " ++ key

module _ {S M : Type 0} where
  -- requireAPIKey
  unfoldable pub require_api_key : Text → Handler S M → Handler S M
  require_api_key key next r w = if is_authorized key r then next r w else (w, unauthorized)

  -- The mux, where `authed` wraps the two handlers.
  unfoldable pub mux : (Handler S M → Handler S M) → Handler S M → Handler S M → Handler S M
  mux authed api mcp r w =
      if r.path == bytes "/healthz"
      then (w, healthy)
      else if r.path == bytes "/sessions" || has_prefix (bytes "/sessions/") r.path
      then authed api r w
      else if r.path == bytes "/mcp" || has_prefix (bytes "/mcp/") r.path
      then authed mcp r w
      else (w, page_not_found)

module _ {P M : Type 0} (cfg : Config) (e : Environment P) (mcp : Handler (Server P) M) where
  -- The answer of the interface, whose middleware sets the type of the content.
  unfoldable pub from_api : Response → Reply M
  from_api a = record {
    status = a.status;
    headers =
        (if a.allow == [] then [] else (bytes "Allow", a.allow) ∷ [])
        ++ ((bytes "Content-Type", bytes "application/json") ∷ []);
    content = json a.body;
  }

  unfoldable pub api_handler : Handler (Server P) M
  api_handler r s =
      let (w, a) =
        Api.route cfg e (record { method = r.method; path = r.path; body = r.body }) s.manager in
      (record s { manager = w }, from_api a)

  -- The handler of the server.
  unfoldable pub serve : Handler (Server P) M
  serve = mux (require_api_key cfg.security.api_key) api_handler mcp

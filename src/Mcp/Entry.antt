-- ===== src/Mcp/Entry.antt =====
-- internal/mcp/server.go: what stands in front of the tools: the identity of a caller, and which
-- handler a call goes to. The library reads the call out of a request.
pub mod Laws
use cloud_agent_sandbox.Base.{
  ℕ, zero, suc, Bool, true, false, not, ◌||◌, Option, none, some, List, [], ◌∷◌, ◌++◌, Text, bytes,
  ◌==◌, text_eq, select, if◌then◌else◌,
}
use cloud_agent_sandbox.Strings.{trim_space}
use cloud_agent_sandbox.Config.Model.{Config}
use cloud_agent_sandbox.Manager.World.{Environment, request}
use cloud_agent_sandbox.Exec.Remote.{Remote}
use cloud_agent_sandbox.Steps.{Step}
use cloud_agent_sandbox.Mcp.Model.{Identity, Server, options_of}
use cloud_agent_sandbox.Manager.Ensure.{ensure_session}
use cloud_agent_sandbox.Session.Id.{canonical_id}
use cloud_agent_sandbox.Session.Model.{Result, ok, err}
use cloud_agent_sandbox.Mcp.Tools.{Arguments, Waiting, Tool, handle, create_sandbox, clear_session}

-- The identity that withIdentity puts into the context, from Header.Get.
unfoldable pub identity_of : (Text → Text) → Identity
identity_of header = record {
  ref = trim_space (header (bytes "X-Session-Id"));
  org_id = trim_space (header (bytes "X-Org-Id"));
  user_id = trim_space (header (bytes "X-User-Id"));
}

-- A call of a tool with its arguments: create_sandbox, clear_session, or one that needs a sandbox.
pub data Call (P : Type 0) : Type 0 where
  creates : Arguments → Call P
  clears : Call P
  uses : Tool → Waiting P → ℕ → Arguments → Call P

module _ {P : Type 0} (cfg : Config) (e : Environment P) (r : Remote P) where
  -- The handler that registerTools names for a call.
  unfoldable pub call_tool : Identity → Call P → Step (Server P) Text
  call_tool id (creates args) = create_sandbox cfg e r args (some id)
  call_tool id clears = clear_session cfg e r (some id)
  call_tool id (uses t wait rounds args) = handle cfg e r t wait rounds args (some id)

-- The tool server with what withIdentity keeps: the ids whose sandbox has been loaded eagerly, and
-- the loads that have been started and have not ended.
pub record Gate (P : Type 0) : Type 0 where
  pub server : Server P
  pub eager : List Text
  pub loads : List Identity

unfoldable pub is_in : Text → List Text → Bool
is_in id [] = false
is_in id (k ∷ ks) = k == id || is_in id ks

-- sync.Map.Delete
unfoldable pub without : Text → List Text → List Text
without id ks = select (λ k. not (k == id)) ks

-- An element of a list by its position, and the others.
unfoldable pub pick : {A : Type 0} → ℕ → List A → Option (A × List A)
pick n [] = none
pick zero (x ∷ xs) = some (x, xs)
pick (suc n) (x ∷ xs) =
    let rest = pick n xs in elim rest [ none ↦ none | some p ↦ some (p.0, x ∷ p.1) ]

module _ {P : Type 0} (cfg : Config) (e : Environment P) where
  abbrev pub id_of : Identity → Text
  id_of id = canonical_id e.sha256 id.ref

  -- withIdentity: the first request of an id starts a load of its sandbox.
  unfoldable pub with_identity : (Text → Text) → Gate P → Gate P × Identity
  with_identity header g =
      let id = identity_of header in
      (
        if id.ref == [] || is_in (id_of id) g.eager
            then g
            else record g { eager = id_of id ∷ g.eager; loads = g.loads ++ (id ∷ []) },
        id,
      )

  -- The goroutine of a load, under its own time limit. One that fails may be started again.
  unfoldable pub load : Identity → Gate P → Gate P
  load id g =
      let (w, r) =
        ensure_session cfg e request (options_of id [] false none none) false g.server.manager in
      let h = record g { server = record g.server { manager = w } } in
      elim r [ ok s ↦ h | err x ↦ record h { eager = without (id_of id) h.eager } ]

  -- The end of the load at a position of those under way: they end in any order. Behind the last
  -- there is none.
  unfoldable pub end_load : ℕ → Gate P → Gate P
  end_load n g = elim (pick n g.loads) [ none ↦ g | some p ↦ load p.0 (record g { loads = p.1 }) ]

  -- A call of a tool. clear_session also forgets that the sandbox was loaded.
  unfoldable pub call_through : Remote P → Identity → Call P → Gate P → Gate P × Result Text
  call_through r id c g =
      let (s, a) = call_tool cfg e r id c g.server in
      (
        record g {
          server = s;
          eager = elim c [
            | clears ↦ if id.ref == [] then g.eager else without (id_of id) g.eager
            | creates args ↦ g.eager
            | uses t wait rounds args ↦ g.eager
          ];
        },
        a,
      )

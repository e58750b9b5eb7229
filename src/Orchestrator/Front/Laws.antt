-- ===== src/Orchestrator/Front/Laws.antt =====
-- cmd/orchestrator/main.go: what a request without the key reaches.
use cloud_agent_sandbox.Base.{
  ◌≡◌, ◌⊎◌, ◌↔◌, ◌++◌, Bool-cases, inl, inr, true, Text, bytes, text_eq, arith,
}
use cloud_agent_sandbox.Config.Model.{Config}
use cloud_agent_sandbox.Manager.World.{Environment}
use cloud_agent_sandbox.Mcp.Model.{Server}
use cloud_agent_sandbox.Orchestrator.Front.{
  HttpRequest, Reply, Handler, healthy, page_not_found, unauthorized, is_authorized,
  require_api_key, mux, api_handler, serve,
}

-- The answers that need no key.
abbrev pub Public : {M : Type 0} → Reply M → Type 0
Public a = (a ≡ healthy) ⊎ (a ≡ unauthorized) ⊎ (a ≡ page_not_found)

-- The header that requireAPIKey asks for.
abbrev pub Carries : Text → HttpRequest → Type 0
Carries key q = q.header (bytes "Authorization") ≡ bytes "Bearer " ++ key

is_authorized_iff : (key : Text) (q : HttpRequest) → (is_authorized key q ≡ true) ↔ Carries key q
unfolding is_authorized
is_authorized_iff key q =
    text_eq.beq_iff (q.header (bytes "Authorization")) (bytes "Bearer " ++ key)

module _ {P M : Type 0} (cfg : Config) (e : Environment P) (mcp : Handler (Server P) M) where
  -- A request that carries the key, exactly as the header asks for it, is handled as if there was no
  -- guard. Any other request changes nothing and is answered by the liveness probe, by 401 or by
  -- 404.
  pub serve-Guarded :
      (q : HttpRequest) (s : Server P)
      → (Carries cfg.security.api_key q
          × (serve cfg e mcp q s ≡ mux (λ next. next) (api_handler cfg e mcp) mcp q s))
        ⊎ ((¬ Carries cfg.security.api_key q)
            × ((serve cfg e mcp q s).0 ≡ s)
            × Public (serve cfg e mcp q s).1)
  unfolding serve mux require_api_key
  serve-Guarded q s = elim (Bool-cases (is_authorized cfg.security.api_key q)) [
    | inl a ↦ inl ((is_authorized_iff cfg.security.api_key q).0 a, ground (arith, a))
    | inr a ↦ inr (
      ground (arith, a, is_authorized_iff cfg.security.api_key q),
      ground (arith, a),
      ground (arith, a),
    )
  ]

-- ===== src/Api/Laws.antt =====
-- internal/api/api.go: which requests can change a session.
use cloud_agent_sandbox.Base.{
  ◌≡◌, ◌≢◌, refl, inl, inr, false, Option, none, some, List, [], ◌∷◌, Text, bytes, ◌==◌, text_eq,
  arith, Bool-cases,
}
use cloud_agent_sandbox.Strings.{cut_prefix}
use cloud_agent_sandbox.Config.Model.{Config}
use cloud_agent_sandbox.Manager.World.{Environment, World, store_get, store_list}
use cloud_agent_sandbox.Manager.Lifecycle.{get}
use cloud_agent_sandbox.Api.{
  Request, get_session, list_sessions, route, route_root, route_one, route_action, route_parts,
  route_below, trim_slash, split_slash,
}

other : (a b : Text) → a ≢ b → (a == b) ≡ false
other a b n = ground (arith, n, text_eq.beq_iff a b)

module _ {P : Type 0} (cfg : Config) (e : Environment P) where
  get_session_keeps : (id : Text) (w : World P) → (get_session cfg e id w).0.sessions ≡ w.sessions
  unfolding get_session get store_get
  get_session_keeps id w = ground arith

  list_sessions_keeps : (w : World P) → (list_sessions cfg e w).0.sessions ≡ w.sessions
  unfolding list_sessions store_list
  list_sessions_keeps w = ground arith

  module _ (method : Text) (post : (method == bytes "POST") ≡ false)
      (del : (method == bytes "DELETE") ≡ false) where
    route_one_keeps :
        (id : Text) (w : World P) → (route_one cfg e method id w).0.sessions ≡ w.sessions
    unfolding route_one
    route_one_keeps id w = ground (arith, del, get_session_keeps id w)

    route_parts_keeps :
        (ps : List Text) (w : World P) → (route_parts cfg e method ps w).0.sessions ≡ w.sessions
    unfolding route_parts route_action
    route_parts_keeps [] w = refl
    route_parts_keeps (id ∷ []) w = ground (arith, route_one_keeps id w)
    route_parts_keeps (id ∷ a ∷ []) w = ground (arith, post)
    route_parts_keeps (id ∷ a ∷ p ∷ ps) w = refl

    route_below_keeps :
        (o : Option Text) (w : World P) → (route_below cfg e method o w).0.sessions ≡ w.sessions
    unfolding route_below
    route_below_keeps none w = refl
    route_below_keeps (some rest) w = route_parts_keeps (split_slash rest) w

  -- A request whose method is neither POST nor DELETE changes no session, whatever its path is and
  -- whatever the platform answers.
  pub route_safe :
      (r : Request) (w : World P)
      → r.method ≢ bytes "POST"
      → r.method ≢ bytes "DELETE"
      → (route cfg e r w).0.sessions ≡ w.sessions
  unfolding route route_root
  route_safe r w p d =
      let post : (r.method == bytes "POST") ≡ false = other r.method (bytes "POST") p in
      let del : (r.method == bytes "DELETE") ≡ false = other r.method (bytes "DELETE") d in
      let below =
        route_below_keeps r.method post del (cut_prefix (bytes "/sessions/") (trim_slash r.path))
          w in
      elim (Bool-cases (trim_slash r.path == bytes "/sessions")) [
        | inl q ↦ elim (Bool-cases (r.method == bytes "GET")) [
          | inl g ↦ rw (q, post, g) (list_sessions_keeps w)
          | inr g ↦ rw (q, post, g) refl
        ]
        | inr q ↦ rw q below
      ]

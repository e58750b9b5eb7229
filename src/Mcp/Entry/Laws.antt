-- ===== src/Mcp/Entry/Laws.antt =====
-- internal/mcp/server.go: the eager loads that are under way.
use cloud_agent_sandbox.Base.{
  ℕ, zero, suc, ◌+◌, ◌≤◌, ◌≡◌, refl, ap, inl, inr, Bool, false, ◌||◌, none, some, Option-cases, sym,
  List, [], ◌∷◌, ◌++◌, Text, ◌==◌, text_eq, tally, if◌then◌else◌, arith, Bool-cases,
}
use cloud_agent_sandbox.Config.Model.{Config}
use cloud_agent_sandbox.Steps.{Result-cases}
use cloud_agent_sandbox.Manager.World.{Environment, request}
use cloud_agent_sandbox.Manager.Ensure.{ensure_session}
use cloud_agent_sandbox.Mcp.Model.{Identity, Server, options_of}
use cloud_agent_sandbox.Mcp.Entry.{
  Gate, identity_of, is_in, without, id_of, with_identity, pick, load, end_load,
}

tally-append :
    {A : Type 0} (p : A → Bool) (xs ys : List A) → tally p (xs ++ ys) ≡ tally p xs + tally p ys
tally-append p [] ys = omega arith
tally-append p (x ∷ xs) ys = ground (arith, tally-append p xs ys)

is_in-without_ne :
    (k j : Text) (ks : List Text) → (k == j) ≡ false → is_in j (without k ks) ≡ is_in j ks
unfolding is_in without
is_in-without_ne k j [] n = refl
is_in-without_ne k j (i ∷ ks) n = ground (
  arith,
  n,
  is_in-without_ne k j ks n,
  text_eq.beq_iff i k,
  text_eq.beq_iff i j,
  text_eq.beq_iff k j,
)

-- A request, of which the headers matter, and the end of any of the loads under way.
pub data Event : Type 0 where
  arrives : (Text → Text) → Event
  ends : ℕ → Event

module _ {P : Type 0} (cfg : Config) (e : Environment P) where
  step : Event → Gate P → Gate P
  step (arrives header) g = (with_identity cfg e header g).0
  step (ends n) g = end_load cfg e n g

  pub run : List Event → Gate P → Gate P
  run [] g = g
  run (v ∷ vs) g = run vs (step v g)

  -- How many loads for an id are under way.
  unfoldable pub pending : Text → List Identity → ℕ
  pending j ids = tally (λ id. id_of cfg e id == j) ids

  -- At most one load for each id, and none for an id that is not in the set.
  unfoldable pub IsOnce : Gate P → Type 0
  IsOnce g = (j : Text) → pending j g.loads ≤ (if is_in j g.eager then 1 else 0)

  started :
      (id : Identity) (ids : List Identity) (ks : List Text) (j : Text)
      → is_in (id_of cfg e id) ks ≡ false
      → pending j ids ≤ (if is_in j ks then 1 else 0)
      → pending j (ids ++ (id ∷ [])) ≤ (if is_in j (id_of cfg e id ∷ ks) then 1 else 0)
  unfolding pending is_in
  started id ids ks j n h =
      let split = tally-append (λ i. id_of cfg e i == j) ids (id ∷ []) in
      elim (Bool-cases (id_of cfg e id == j)) [
        | inl k ↦
            let same = ap (λ i. is_in i ks) ((text_eq.beq_iff (id_of cfg e id) j).0 k) in
            ground (arith, k, n, same, h, split)
        | inr k ↦ ground (arith, k, h, split)
      ]

  with_identity-IsOnce :
      (header : Text → Text) (g : Gate P) → IsOnce g → IsOnce (with_identity cfg e header g).0
  unfolding with_identity IsOnce
  with_identity-IsOnce header g o j =
      let id = identity_of header in
      elim (Bool-cases (id.ref == [] || is_in (id_of cfg e id) g.eager)) [
        | inl h ↦ rw (h, with_identity) (o j)
        | inr h ↦ rw (h, with_identity) (started id g.loads g.eager j (ground (arith, h)) (o j))
      ]

  ended :
      (id : Identity) (ids : List Identity) (ks : List Text) (j : Text)
      → pending j (id ∷ ids) ≤ (if is_in j ks then 1 else 0)
      → pending j ids ≤ (if is_in j (without (id_of cfg e id) ks) then 1 else 0)
  unfolding pending
  ended id ids ks j h = elim (Bool-cases (id_of cfg e id == j)) [
    | inl k ↦ ground (arith, k, h)
    | inr k ↦ ground (arith, k, h, is_in-without_ne (id_of cfg e id) j ks k)
  ]

  dropped :
      (id : Identity) (ids : List Identity) (ks : List Text) (j : Text)
      → pending j (id ∷ ids) ≤ (if is_in j ks then 1 else 0)
      → pending j ids ≤ (if is_in j ks then 1 else 0)
  unfolding pending
  dropped id ids ks j h = ground (arith, h)

  pending-pick :
      (n : ℕ) (ids rest : List Identity) (id : Identity) (j : Text)
      → pick n ids ≡ some (id, rest)
      → pending j ids ≡ pending j (id ∷ rest)
  unfolding pending pick
  pending-pick n [] rest id j h = absurd cc
  pending-pick zero (i ∷ ids) rest id j h =
      let same_id : i ≡ id = cc in let same_rest : ids ≡ rest = cc in rw (same_id, same_rest) refl
  pending-pick (suc n) (i ∷ ids) rest id j h = elim (Option-cases (pick n ids)) [
    | inl k ↦ absurd (let q = rw k at h in cc)
    | inr (p, k) ↦
        let q = rw k at h in
        let same_id : p.0 ≡ id = cc in
        let same_rest : i ∷ p.1 ≡ rest = cc in
        let ih = pending-pick n ids p.1 p.0 j k in
        rw (sym same_id, sym same_rest) (ground (arith, ih))
  ]

  ending :
      (n : ℕ) (server : Server P) (ks : List Text) (ids : List Identity)
      → IsOnce (record { server = server; eager = ks; loads = ids })
      → IsOnce (end_load cfg e n (record { server = server; eager = ks; loads = ids }))
  unfolding end_load load IsOnce
  ending n server ks ids o j = elim (Option-cases (pick n ids)) [
    | inl h ↦ rw (h, end_load) (o j)
    | inr (p, h) ↦
        let at = rw (pending-pick n ids p.1 p.0 j h) at (o j) in
        elim (Result-cases
          (ensure_session cfg e request (options_of p.0 [] false none none) false
            server.manager).1) [
              | inl (s, k) ↦ rw (h, k, end_load, load) (dropped p.0 p.1 ks j at)
              | inr (x, k) ↦ rw (h, k, end_load, load) (ended p.0 p.1 ks j at)
            ]
  ]

  -- As long as no sandbox is cleared, at most one eager load for each id is under way at any time,
  -- however the requests and the ends of loads follow each other and in whatever order the loads
  -- end, and none for an id that the set does not hold.
  pub run-IsOnce : (vs : List Event) (g : Gate P) → IsOnce g → IsOnce (run vs g)
  unfolding run step
  run-IsOnce [] g o = o
  run-IsOnce (arrives header ∷ vs) g o = run-IsOnce vs _ (with_identity-IsOnce header g o)
  run-IsOnce (ends n ∷ vs) g o = run-IsOnce vs _ (ending n g.server g.eager g.loads o)

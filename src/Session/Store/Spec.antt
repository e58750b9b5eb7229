-- ===== src/Session/Store/Spec.antt =====
-- internal/session/store.go: what a store promises. The abstract store is a partial function from
-- ids to sessions; the methods of the in-memory store implement its operations.
use cloud_agent_sandbox.Base.{
  ℕ, ◌≡◌, refl, Option, none, some, List, [], ◌∷◌, Text, bytes, ◌==◌, text_eq, if◌then◌else◌, arith,
  Option-cases, inl, inr,
}
use cloud_agent_sandbox.Base.Dict.{lookup, lookup-insert, lookup-remove}
use cloud_agent_sandbox.Session.Model.{
  Session, Error, not_found, invalid_session, wrap, Result, ok, err,
}
use mathlib.Core.Path.{fun_ext}
use cloud_agent_sandbox.Session.Store.{MemoryStore, create, get, update, delete, touch}

-- A call of the store. The first argument is what `ctx.Err()` returns.
pub data Call : Type 0 where
  creates updates : Option Error → Option Session → Call
  gets deletes : Option Error → Text → Call
  touches : Option Error → ℕ → Text → Call

pub data Reply : Type 0 where
  session : Session → Reply
  done : Reply
  failed : Error → Reply

abbrev pub reply : Option Error → Reply
reply none = done
reply (some e) = failed e

abbrev pub session_reply : Result Session → Reply
session_reply (ok s) = session s
session_reply (err e) = failed e

unfoldable pub step : Call → MemoryStore → MemoryStore × Reply
step (creates c o) m = let (m', r) = create c o m in (m', reply r)
step (updates c o) m = let (m', r) = update c o m in (m', reply r)
step (gets c k) m = (m, session_reply (get c k m))
step (deletes c k) m = let (m', r) = delete c k m in (m', reply r)
step (touches c now k) m = let (m', r) = touch c now k m in (m', reply r)

unfoldable pub run : List Call → MemoryStore → MemoryStore × List Reply
run [] m = (m, [])
run (c ∷ cs) m = let (m', r) = step c m in let (m'', rs) = run cs m' in (m'', r ∷ rs)

abbrev pub Abstract : Type 0
Abstract = Text → Option Session

abbrev pub set_at : Abstract → Text → Option Session → Abstract
set_at f k o j = if k == j then o else f j

-- The contract: a call that its context cancels does nothing; creation wants a fresh, non-empty
-- id, and every other change a known one.
pub spec_step : Call → Abstract → Abstract × Reply
spec_step (creates (some e) o) f = (f, failed e)
spec_step (creates none none) f = (f, failed invalid_session)
spec_step (creates none (some s)) f =
    if s.id == [] then (f, failed invalid_session) else elim (f s.id) [
      | none ↦ (set_at f s.id (some s), done)
      | some t ↦ (f, failed (wrap (bytes "create session ") invalid_session))
    ]
spec_step (updates (some e) o) f = (f, failed e)
spec_step (updates none none) f = (f, failed invalid_session)
spec_step (updates none (some s)) f =
    if s.id == []
    then (f, failed invalid_session)
    else elim (f s.id) [ none ↦ (f, failed not_found) | some t ↦ (set_at f s.id (some s), done) ]
spec_step (gets (some e) k) f = (f, failed e)
spec_step (gets none k) f = (f, elim (f k) [ none ↦ failed not_found | some s ↦ session s ])
spec_step (deletes (some e) k) f = (f, failed e)
spec_step (deletes none k) f = elim (f k) [
  | none ↦ (f, failed not_found)
  | some s ↦ (set_at f k none, done)
]
spec_step (touches (some e) now k) f = (f, failed e)
spec_step (touches none now k) f = elim (f k) [
  | none ↦ (f, failed not_found)
  | some s ↦ (set_at f k (some (record s { last_activity_at = now })), done)
]

pub spec_run : List Call → Abstract → Abstract × List Reply
spec_run [] f = (f, [])
spec_run (c ∷ cs) f = let (f', r) = spec_step c f in let (f'', rs) = spec_run cs f' in (f'', r ∷ rs)

abbrev pub view : MemoryStore → Abstract
view m k = lookup k m

step-view :
    (c : Call) (m : MemoryStore) (j : Text)
    → ((step c m).1 ≡ (spec_step c (view m)).1)
      × (lookup j (step c m).0 ≡ (spec_step c (view m)).0 j)
unfolding step spec_step create get update delete touch
step-view (creates (some e) o) m j = (refl, refl)
step-view (creates none none) m j = (refl, refl)
step-view (creates none (some s)) m j = ground (arith, lookup-insert s.id j s m)
step-view (updates (some e) o) m j = (refl, refl)
step-view (updates none none) m j = (refl, refl)
step-view (updates none (some s)) m j = ground (arith, lookup-insert s.id j s m)
step-view (gets (some e) k) m j = (refl, refl)
step-view (gets none k) m j = ground arith
step-view (deletes (some e) k) m j = (refl, refl)
step-view (deletes none k) m j = ground (arith, lookup-remove k j m)
step-view (touches (some e) now k) m j = (refl, refl)
step-view (touches none now k) m j = elim (Option-cases (lookup k m)) [
  | inl e ↦ ground (arith, e)
  | inr (s, e) ↦ ground (arith, e, lookup-insert k j (record s { last_activity_at = now }) m)
]

view-step : (c : Call) (m : MemoryStore) → view (step c m).0 ≡ (spec_step c (view m)).0
view-step c m = fun_ext λ j. (step-view c m j).1

-- Under any list of calls the in-memory store gives the replies of the abstract store, call by
-- call, and ends as the map that the abstract store ends as.
pub run-refines :
    (cs : List Call) (m : MemoryStore)
    → ((run cs m).1 ≡ (spec_run cs (view m)).1) × (view (run cs m).0 ≡ (spec_run cs (view m)).0)
unfolding run spec_run
run-refines [] m = (refl, refl)
run-refines (c ∷ cs) m =
    let (replies, maps) = run-refines cs (step c m).0 in
    let now = view-step c m in (rw ((step-view c m []).0, replies, now), rw (maps, now))

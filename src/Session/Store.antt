-- ===== src/Session/Store.antt =====
-- internal/session/store.go: the in-memory store. Each method runs under the store's lock, so it
-- is one step on the map. `ctx.Err()` is the first argument; the clock's reading is one of `touch`.
-- `cloneSession` copies a record, which is the identity on values.
pub mod Laws
pub mod Spec
use cloud_agent_sandbox.Base.{
  ℕ, Bool, true, Option, none, some, List, [], ◌∷◌, Text, bytes, ◌==◌, text_eq, if◌then◌else◌,
  select,
}
use cloud_agent_sandbox.Base.Dict.{Dict, lookup, insert, remove, values}
use cloud_agent_sandbox.Session.Model.{
  State, state_eq, Session, Error, not_found, invalid_session, wrap, Result, ok, err,
}

abbrev pub MemoryStore : Type 0
MemoryStore = Dict Session

unfoldable pub new_memory_store : MemoryStore
new_memory_store = []

unfoldable pub create : Option Error → Option Session → MemoryStore → MemoryStore × Option Error
create (some e) s m = (m, some e)
create none none m = (m, some invalid_session)
create none (some s) m = if s.id == [] then (m, some invalid_session) else elim (lookup s.id m) [
  | some old ↦ (m, some (wrap (bytes "create session ") invalid_session))
  | none ↦ (insert s.id s m, none)
]

unfoldable pub get : Option Error → Text → MemoryStore → Result Session
get (some e) id m = err e
get none id m = elim (lookup id m) [ none ↦ err not_found | some s ↦ ok s ]

unfoldable pub update : Option Error → Option Session → MemoryStore → MemoryStore × Option Error
update (some e) s m = (m, some e)
update none none m = (m, some invalid_session)
update none (some s) m =
    if s.id == []
    then (m, some invalid_session)
    else elim (lookup s.id m) [ none ↦ (m, some not_found) | some old ↦ (insert s.id s m, none) ]

unfoldable pub delete : Option Error → Text → MemoryStore → MemoryStore × Option Error
delete (some e) id m = (m, some e)
delete none id m = elim (lookup id m) [ none ↦ (m, some not_found) | some s ↦ (remove id m, none) ]

unfoldable pub list : Option Error → MemoryStore → Result (List Session)
list (some e) m = err e
list none m = ok (values m)

unfoldable pub list_by_state : Option Error → State → MemoryStore → Result (List Session)
list_by_state (some e) st m = err e
list_by_state none st m = ok (select (λ s. s.state == st) (values m))

unfoldable pub touch : Option Error → ℕ → Text → MemoryStore → MemoryStore × Option Error
touch (some e) now id m = (m, some e)
touch none now id m = elim (lookup id m) [
  | none ↦ (m, some not_found)
  | some s ↦ (insert id (record s { last_activity_at = now }) m, none)
]

-- ===== src/Manager/Create/Stages.antt =====
-- internal/manager/manager.go: what each stage of Create does to the store.
use cloud_agent_sandbox.Base.{
  ℕ, ◌+◌, ◌≡◌, ◌≢◌, refl, ◌∙◌, Bool, ◌||◌, none, some, [], ◌∷◌, Text, ◌==◌, text_eq, arith, length,
  select, length-select-tally,
}
use cloud_agent_sandbox.Base.Dict.{lookup, insert, count, values, tally-values}
use cloud_agent_sandbox.Base.Int.{pos, ◌<ℤ◌}
use cloud_agent_sandbox.Config.Model.{Config}
use cloud_agent_sandbox.Session.Id.{canonical_id}
use cloud_agent_sandbox.Session.Model.{
  State, creating, running, dead, state_eq, Session, CreateOptions,
}
use cloud_agent_sandbox.Session.Store.{MemoryStore}
use cloud_agent_sandbox.Session.Store
use cloud_agent_sandbox.Manager.World.{
  Context, Assignment, Environment, World, store_list_by_state, store_create, store_update,
}
use cloud_agent_sandbox.Manager.World.Outcome.{Ends}
use cloud_agent_sandbox.Manager.Create.{
  admit, choose_id, new_session, assign_proxy, obtain, persist, bring_up, release, ensure_capacity,
  acquire_warm, cold_create, cleanup_failed_create,
}

-- The sandboxes that count towards the cap.
abbrev pub is_live : Session → Bool
is_live s = s.state == running || s.state == creating

abbrev pub live : MemoryStore → ℕ
live m = count is_live m

-- Those that run and those that start.
pub count-live :
    (m : MemoryStore)
    → count (λ s. s.state == running) m + count (λ s. s.state == creating) m ≡ live m
unfolding count
count-live [] = refl
count-live ((k, s) ∷ m) = ground (arith, count-live m)

pub length_in :
    (st : State) (m : MemoryStore)
    → length (select (λ s. s.state == st) (values m)) ≡ count (λ s. s.state == st) m
length_in st m = length-select-tally _ (values m) ∙ tally-values _ m

-- What of a session the later stages of Create keep.
pub record IsSameRequest (s t : Session) : Type 0 where
  pub id : t.id ≡ s.id
  pub ref : t.ref ≡ s.ref
  pub image : t.image ≡ s.image
  pub state : t.state ≡ s.state
  pub proxy_id : t.proxy_id ≡ s.proxy_id

module _ {P : Type 0} (cfg : Config) (e : Environment P) where
  abbrev pub Same : World P → World P → Type 0
  Same w v = v.sessions ≡ w.sessions

  pub admit_lem :
      (ctx : Context) (w : World P)
      → Ends
          (admit cfg e ctx w)
          (λ v _. Same w v × (pos (live w.sessions) <ℤ cfg.pool.max_running))
          (λ v x. Same w v)
  unfolding admit store_list_by_state Store.list_by_state
  admit_lem ctx w =
      ground
        (arith, length_in running w.sessions, length_in creating w.sessions, count-live w.sessions)

  pub choose_id_lem :
      (ref : Text) (w : World P)
      → Ends
          (choose_id cfg e ref w)
          (λ v id. Same w v × (ref ≢ [] → id ≡ canonical_id e.sha256 ref))
          (λ v x. Same w v)
  unfolding choose_id
  choose_id_lem ref w = ground (arith, text_eq.beq_iff ref [])

  pub assign_proxy_lem :
      (ctx : Context) (id : Text) (w : World P)
      → Ends (assign_proxy cfg e ctx id w) (λ v _. Same w v) (λ v x. Same w v)
  unfolding assign_proxy ensure_capacity release
  assign_proxy_lem ctx id w = ground arith

  pub new_session_lem :
      (opts : CreateOptions) (id image proxy_id : Text) (w : World P)
      → Ends
          (new_session cfg e opts id image proxy_id w)
          (λ v s.
            Same w v × (s.id ≡ id) × (s.ref ≡ opts.ref) × (s.image ≡ image) × (s.state ≡ creating))
          (λ v x. Same w v)
  unfolding new_session
  new_session_lem opts id image proxy_id w = ground arith

  pub obtain_lem :
      (ctx : Context) (opts : CreateOptions) (a : Assignment) (s : Session) (w : World P)
      → Ends (obtain cfg e ctx opts a s w) (λ v t. Same w v × IsSameRequest s t) (λ v x. Same w v)
  unfolding obtain acquire_warm cold_create release
  obtain_lem ctx opts a s w = ground arith

  pub persist_lem :
      (ctx : Context) (s : Session) (w : World P)
      → Ends
          (persist cfg e ctx s w)
          (λ v _.
            (lookup s.id w.sessions ≡ none) × (s.id ≢ []) × (v.sessions ≡ insert s.id s w.sessions))
          (λ v x. Same w v)
  unfolding persist store_create Store.create release
  persist_lem ctx s w = ground (arith, text_eq.beq_iff s.id [])

  pub bring_up_lem :
      (ctx : Context) (s t : Session) (w : World P)
      → s.id ≢ []
      → lookup s.id w.sessions ≡ some t
      → Ends
          (bring_up cfg e ctx s w)
          (λ v u. (u ≡ record s { state = running }) × (v.sessions ≡ insert s.id u w.sessions))
          (λ v x. v.sessions ≡ insert s.id (record s { state = dead }) w.sessions)
  unfolding bring_up cleanup_failed_create store_update Store.update release
  bring_up_lem ctx s t w n h = ground (arith, text_eq.beq_iff s.id [])

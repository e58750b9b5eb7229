-- ===== src/Manager/Lifecycle/Laws.antt =====
-- internal/manager/manager.go: what Stop, Resume, Delete and Clear do to the sessions.
use cloud_agent_sandbox.Base.{
  ℕ, ◌+◌, ◌≡◌, ◌≢◌, refl, sym, ◌∙◌, ap, ◌⊎◌, inl, inr, true, false, ◌||◌, some, Text, bytes, ◌==◌,
  text_eq, arith, Bool-cases,
}
use cloud_agent_sandbox.Base.Dict.{
  lookup, insert, lookup-insert_self, lookup-insert_ne, count-insert, weigh,
}
use cloud_agent_sandbox.Config.Model.{Config}
use cloud_agent_sandbox.Session.Model.{stopped, dead, state_eq, Session, invalid_session}
use cloud_agent_sandbox.Session.Store.{MemoryStore}
use cloud_agent_sandbox.Session.Store
use cloud_agent_sandbox.Session.Store.Laws.{IsValid, insert-IsValid, id-lookup, id-nonempty}
use cloud_agent_sandbox.Manager.World.{
  Context, Environment, World, call_checked, call_total, wrapped, store_get,
}
use cloud_agent_sandbox.Manager.World.Outcome.{Ends, bind-Ends, weaken-Ends}
use cloud_agent_sandbox.Manager.World.Effects.{
  Same, call_total_lem, wrapped_checked_lem, store_update_lem,
}
use cloud_agent_sandbox.Manager.Create.{release}
use cloud_agent_sandbox.Manager.Create.Stages.{is_live, live}
use cloud_agent_sandbox.Manager.Lifecycle.{get, stop_found, stop, delete_found, delete}

-- The session `s` under `id` has become `t`, and no other has changed.
pub record IsReplaced (id : Text) (s t : Session) (m m' : MemoryStore) : Type 0 where
  pub was : lookup id m ≡ some s
  pub now : lookup id m' ≡ some t
  pub others : (j : Text) → id ≢ j → lookup j m' ≡ lookup j m
  pub counted : live m' + weigh is_live (some s) ≡ live m + weigh is_live (some t)
  pub valid : IsValid m'

-- What is the same in all records of one workspace.
pub record IsSameWorkspace (s t : Session) : Type 0 where
  pub id : t.id ≡ s.id
  pub pvc_name : t.pvc_name ≡ s.pvc_name
  pub image : t.image ≡ s.image
  pub created_at : t.created_at ≡ s.created_at

pub insert-IsReplaced :
    (id : Text) (s t : Session) (m m' : MemoryStore)
    → IsValid m
    → lookup id m ≡ some s
    → t.id ≡ s.id
    → m' ≡ insert t.id t m
    → IsReplaced id s t m m'
insert-IsReplaced id s t m m' v h i e =
    let at : t.id ≡ id = i ∙ id-lookup id m s v h in
    let e' : m' ≡ insert id t m = e ∙ ap (λ k. insert k t m) at in
    record {
      was = h;
      now = rw e' (lookup-insert_self id t m);
      others = λ j n. rw e' (lookup-insert_ne id j t m n);
      counted = rw e' (ground (arith, count-insert is_live id t m));
      valid = rw e (insert-IsValid t m (λ n. id-nonempty id m s v h (sym at ∙ n)) v);
    }

module _ {P : Type 0} (cfg : Config) (e : Environment P) where
  pub get_lem :
      (ctx : Context) (id : Text) (w : World P)
      → Ends
          (get cfg e ctx id w)
          (λ v s. Same w v × (lookup id w.sessions ≡ some s))
          (λ v x. Same w v × (x ≡ invalid_session))
  unfolding get store_get Store.get
  get_lem ctx id w = ground arith

  pub release_lem :
      (c : Context) (k : Text) (v : World P)
      → Ends (release cfg e c k v) (λ u _. Same v u) (λ u x. Same v u)
  unfolding release
  release_lem c k v = ground arith

module _ {P : Type 0} (cfg : Config) (e : Environment P) (ctx : Context) (id : Text) (w : World P)
    (valid : IsValid w.sessions) where
  -- The session of Stop is at rest already and nothing has changed, or it was not at rest and is
  -- stopped now.
  abbrev pub Stopped : Session → World P → Type 0
  Stopped s v =
      (((s.state == stopped || s.state == dead) ≡ true) × Same w v)
      ⊎ (((s.state == stopped || s.state == dead) ≡ false)
          × ((at : ℕ) × IsReplaced id s (record s { state = stopped; stopped_at = at }) w.sessions
                v.sessions))

  stop_found_lem :
      (s : Session) (v : World P)
      → Same w v
      → lookup id w.sessions ≡ some s
      → Ends (stop_found cfg e ctx s v) (λ u _. Stopped s u) (λ u x. Same w u)
  unfolding stop_found
  stop_found_lem s v same h = elim (Bool-cases (s.state == stopped || s.state == dead)) [
    | inl r ↦ rw r record { holds = inl (refl, same) }
    | inr r ↦ rw r (
        bind-Ends _ (wrapped (bytes "stop sandbox: ") (call_checked (e.rt.stop ctx s.pod_name))) _ v
          (weaken-Ends _ (wrapped_checked_lem (bytes "stop sandbox: ") (e.rt.stop ctx s.pod_name) v)
            (λ _ u q. q ∙ same) (λ x u q. q ∙ same))
          (λ _ u q.
            bind-Ends _ (call_total e.now) _ u
              (weaken-Ends _ (call_total_lem e.now u) (λ at z k. k ∙ q) (λ x z k. absurd k))
              (λ at z k.
                weaken-Ends _
                  (store_update_lem e ctx (record s { state = stopped; stopped_at = at }) z)
                  (λ _ y l. inr (
                    refl,
                    (
                      at,
                      insert-IsReplaced id s (record s { state = stopped; stopped_at = at })
                          w.sessions y.sessions valid h refl (l.1 ∙ ap (insert s.id _) k),
                    ),
                  ))
                  (λ x y l. l ∙ k))))
  ]

  -- From a well-formed store, Stop succeeds only on a known session. One that is stopped or dead
  -- is left alone; any other becomes stopped, with its other fields and all other sessions kept.
  -- On an error no session changes.
  pub stop-Stopped :
      Ends
        (stop cfg e ctx id w)
        (λ v _. (s : Session) × (lookup id w.sessions ≡ some s) × Stopped s v)
        (λ v x. Same w v)
  unfolding stop
  stop-Stopped =
      bind-Ends _ (get cfg e ctx id) (stop_found cfg e ctx) w
        (weaken-Ends _ (get_lem cfg e ctx id w) (λ s u q. q) (λ x u h. h.0))
        (λ s u q. weaken-Ends _ (stop_found_lem s u q.0 q.1) (λ _ z k. (s, q.1, k)) (λ x z k. k))

  delete_found_lem :
      (s : Session) (v : World P)
      → Same w v
      → lookup id w.sessions ≡ some s
      → Ends
          (delete_found cfg e ctx id s v)
          (λ u _. IsReplaced id s (record s { state = dead }) w.sessions u.sessions)
          (λ u x. Same w u)
  unfolding delete_found
  delete_found_lem s v same h =
      bind-Ends _
        (wrapped (bytes "purge sandbox: ") (call_checked (e.rt.purge ctx s.pod_name s.pvc_name))) _
        v
        (weaken-Ends _
          (wrapped_checked_lem (bytes "purge sandbox: ") (e.rt.purge ctx s.pod_name s.pvc_name) v)
          (λ _ u q. q ∙ same) (λ x u q. q ∙ same))
        (λ _ u q.
          bind-Ends _ (release cfg e ctx id) _ u
            (weaken-Ends _ (release_lem cfg e ctx id u) (λ _ z k. k ∙ q) (λ x z k. k ∙ q))
            (λ _ z k.
              weaken-Ends _ (store_update_lem e ctx (record s { state = dead }) z)
                (λ _ y l.
                  insert-IsReplaced id s (record s { state = dead }) w.sessions y.sessions valid h
                    refl (l.1 ∙ ap (insert s.id _) k))
                (λ x y l. l ∙ k)))

  -- From a well-formed store, Delete succeeds only on a known session, which becomes dead and
  -- stays in the store, with all other sessions kept. On an error no session changes.
  pub delete-IsReplaced :
      Ends
        (delete cfg e ctx id w)
        (λ v _. (s : Session) × IsReplaced id s (record s { state = dead }) w.sessions v.sessions)
        (λ v x. Same w v)
  unfolding delete
  delete-IsReplaced =
      bind-Ends _ (get cfg e ctx id) (delete_found cfg e ctx id) w
        (weaken-Ends _ (get_lem cfg e ctx id w) (λ s u q. q) (λ x u h. h.0))
        (λ s u q. weaken-Ends _ (delete_found_lem s u q.0 q.1) (λ _ z k. (s, k)) (λ x z k. k))

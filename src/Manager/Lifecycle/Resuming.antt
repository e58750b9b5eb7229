-- ===== src/Manager/Lifecycle/Resuming.antt =====
-- internal/manager/manager.go: what Resume does to the sessions.
use cloud_agent_sandbox.Base.{
  ◌≡◌, ◌≢◌, refl, sym, ◌∙◌, ap, ◌⊎◌, inl, inr, some, [], Text, bytes, ◌==◌, text_eq, arith,
  Bool-cases,
}
use cloud_agent_sandbox.Base.Dict.{lookup, insert, lookup-insert_self, insert-insert}
use cloud_agent_sandbox.Config.Model.{Config}
use cloud_agent_sandbox.Session.Model.{
  creating, running, stopped, state_eq, state_beq_iff, Session, is_running, Error, err,
}
use cloud_agent_sandbox.Session.Store.{MemoryStore}
use cloud_agent_sandbox.Session.Store
use cloud_agent_sandbox.Session.Store.Laws.{IsValid, id-lookup, id-nonempty}
use cloud_agent_sandbox.Manager.World.{
  Context, Environment, World, call, call_total, pure, wrapped, store_update,
}
use cloud_agent_sandbox.Manager.World.Outcome.{Ends, bind-Ends, weaken-Ends, traced-Ends}
use cloud_agent_sandbox.Manager.World.Effects.{
  Same, wrapped_call_lem, call_total_lem, store_update_lem,
}
use cloud_agent_sandbox.Manager.Create.{release}
use cloud_agent_sandbox.Manager.Lifecycle.{
  get, resume_found, resume, resume_stopped, resume_spec, bring_back, reassign_proxy,
  cleanup_failed_resume, record_pod, await_resumed, mark_running,
}
use cloud_agent_sandbox.Manager.Lifecycle.Laws.{
  IsReplaced, IsSameWorkspace, insert-IsReplaced, get_lem,
}

-- A stopped session without a pod.
abbrev pub parked : Session → Session
parked s = record s { pod_name = []; state = stopped }

module _ {P : Type 0} (cfg : Config) (e : Environment P) where
  record_pod_lem :
      (ctx : Context) (s t : Session) (w : World P)
      → lookup s.id w.sessions ≡ some t
      → s.id ≢ []
      → Ends
          (record_pod cfg e ctx s w)
          (λ v _. v.sessions ≡ insert s.id s w.sessions)
          (λ v x. v.sessions ≡ insert s.id (parked s) w.sessions)
  unfolding record_pod cleanup_failed_resume store_update Store.update release
  record_pod_lem ctx s t w h n = ground (arith, text_eq.beq_iff s.id [])

  await_resumed_lem :
      (ctx : Context) (s t : Session) (w : World P)
      → lookup s.id w.sessions ≡ some t
      → s.id ≢ []
      → Ends
          (await_resumed cfg e ctx s w)
          (λ v _. Same w v)
          (λ v x. v.sessions ≡ insert s.id (parked s) w.sessions)
  unfolding await_resumed cleanup_failed_resume store_update Store.update release
  await_resumed_lem ctx s t w h n = ground (arith, text_eq.beq_iff s.id [])

  -- An update of the store to a session that runs, ending in this world with this error.
  abbrev pub Refused : Context → World P → Error → Type 0
  Refused ctx v x =
      (z : World P) × (u : Session) × (u.state ≡ running) × (store_update e ctx u z ≡ (v, err x))

  -- At the very end the session runs; if its last update fails it is left as it was.
  mark_running_lem :
      (ctx : Context) (s : Session) (w : World P)
      → Ends
          (mark_running cfg e ctx s w)
          (λ v t.
            (v.sessions ≡ insert s.id t w.sessions) × (t.state ≡ running) × IsSameWorkspace s t)
          (λ v x. Same w v × Refused ctx v x)
  unfolding mark_running
  mark_running_lem ctx s w =
      bind-Ends _ (call_total e.now) _ w
        (weaken-Ends _ (call_total_lem e.now w) (λ at z k. k) (λ x z k. absurd k))
        (λ at z k.
          let up = record s { state = running; last_activity_at = at } in
          bind-Ends _ (store_update e ctx up) (λ _. pure up) z
            (weaken-Ends _ (traced-Ends _ (store_update_lem e ctx up z)) (λ _ y l. l.1)
              (λ x y l. (l.0 ∙ k, (z, up, refl, l.1))))
            (λ _ y l. record {
              holds = (
                l ∙ ap (insert s.id up) k,
                refl,
                record { id = refl; pvc_name = refl; image = refl; created_at = refl },
              );
            }))

  reassign_proxy_lem :
      (ctx : Context) (id : Text) (s : Session) (w : World P)
      → Ends
          (reassign_proxy cfg e ctx id s w)
          (λ v p. Same w v × IsSameWorkspace s (p.0))
          (λ v x. Same w v)
  unfolding reassign_proxy
  reassign_proxy_lem ctx id s w = ground arith

  bring_back_lem :
      (ctx : Context) (s t : Session) (w : World P)
      → lookup s.id w.sessions ≡ some t
      → s.id ≢ []
      → Ends
          (bring_back cfg e ctx s w)
          (λ v u.
            (v.sessions ≡ insert s.id u w.sessions) × (u.state ≡ running) × IsSameWorkspace s u)
          (λ v x.
            (v.sessions ≡ insert s.id (parked s) w.sessions)
            ⊎ ((v.sessions ≡ insert s.id s w.sessions) × Refused ctx v x))
  unfolding bring_back
  bring_back_lem ctx s t w h n =
      bind-Ends _ (record_pod cfg e ctx s) _ w
        (weaken-Ends _ (record_pod_lem ctx s t w h n) (λ _ u q. q) (λ x u q. inl q))
        (λ _ u q.
          bind-Ends _ (await_resumed cfg e ctx s) (λ _. mark_running cfg e ctx s) u
            (weaken-Ends _ (await_resumed_lem ctx s s u (rw q (lookup-insert_self s.id s _)) n)
              (λ _ z k. k ∙ q)
              (λ x z k. inl (k ∙ ap (insert s.id (parked s)) q ∙ insert-insert s.id s _ _)))
            (λ _ z k.
              weaken-Ends _ (mark_running_lem ctx s z)
                (λ r y l. (l.0 ∙ ap (insert s.id r) k ∙ insert-insert s.id s r _, l.1, l.2))
                (λ x y l. inr (l.0 ∙ k, l.1))))

module _ {P : Type 0} (cfg : Config) (e : Environment P) (ctx : Context) (id : Text) (w : World P)
    (valid : IsValid w.sessions) where
  -- A successful resumption of `s`: it ran already and nothing has changed, or it was stopped and
  -- runs now, on the same workspace.
  abbrev pub Resumed : Session → World P → Session → Type 0
  Resumed s v t =
      ((t ≡ s) × Same w v)
      ⊎ ((s.state ≡ stopped) × IsSameWorkspace s t × IsReplaced id s t w.sessions v.sessions)

  -- A failed one: no session has changed, or a stopped one is stopped and has no pod, or it is
  -- still being created and the error is that of the store for the update that makes it run.
  abbrev pub NotResumed : World P → Error → Type 0
  NotResumed v x =
      Same w v
      ⊎ ((s : Session) × (t : Session) × (s.state ≡ stopped)
          × IsSameWorkspace s t
          × IsReplaced id s t w.sessions v.sessions
          × (((t.state ≡ stopped) × (t.pod_name ≡ []))
              ⊎ ((t.state ≡ creating) × Refused cfg e ctx v x)))

  brought_lem :
      (s p : Session) (pod : Text) (z : World P)
      → Same w z
      → lookup id w.sessions ≡ some s
      → s.state ≡ stopped
      → IsSameWorkspace s p
      → Ends
          (bring_back cfg e ctx (record p { pod_name = pod; state = creating }) z)
          (λ u t. (t.state ≡ running) × Resumed s u t)
          NotResumed
  brought_lem s p pod z same h st ws =
      weaken-Ends _
        (bring_back_lem cfg e ctx q s z (rw (at, same) h)
          (λ n. id-nonempty id w.sessions s valid h (sym at ∙ n)))
        (λ t u k. (
          k.1,
          inr (st, kept t k.2, replaced t u (k.0 ∙ ap (λ m. insert q.id t m) same) (kept t k.2)),
        ))
        (λ x u. elim [
          | inl k ↦ inr (
            s,
            parked q,
            st,
            kept (parked q) parked_kept,
            replaced (parked q) u (k ∙ ap (insert q.id (parked q)) same)
                (kept (parked q) parked_kept),
            inl (refl, refl),
          )
          | inr k ↦ inr (
            s,
            q,
            st,
            kept q self_kept,
            replaced q u (k.0 ∙ ap (insert q.id q) same) (kept q self_kept),
            inr (refl, k.1),
          )
        ])
    where
      q : Session
      q = record p { pod_name = pod; state = creating }

      at : p.id ≡ id
      at = ws.id ∙ id-lookup id w.sessions s valid h

      kept : (t : Session) → IsSameWorkspace q t → IsSameWorkspace s t
      kept t k = record {
        id = k.id ∙ ws.id;
        pvc_name = k.pvc_name ∙ ws.pvc_name;
        image = k.image ∙ ws.image;
        created_at = k.created_at ∙ ws.created_at;
      }

      parked_kept : IsSameWorkspace q (parked q)
      parked_kept = record { id = refl; pvc_name = refl; image = refl; created_at = refl }

      self_kept : IsSameWorkspace q q
      self_kept = record { id = refl; pvc_name = refl; image = refl; created_at = refl }

      replaced :
          (t : Session) (u : World P)
          → u.sessions ≡ insert p.id t w.sessions
          → IsSameWorkspace s t
          → IsReplaced id s t w.sessions u.sessions
      replaced t u k l =
          insert-IsReplaced id s t w.sessions u.sessions valid h l.id
            (k ∙ ap (λ i. insert i t w.sessions) (ws.id ∙ sym l.id))

  resume_stopped_lem :
      (s : Session) (v : World P)
      → Same w v
      → lookup id w.sessions ≡ some s
      → s.state ≡ stopped
      → Ends
          (resume_stopped cfg e ctx id s v)
          (λ u t. (t.state ≡ running) × Resumed s u t)
          NotResumed
  unfolding resume_stopped
  resume_stopped_lem s v same h st =
      bind-Ends _ (reassign_proxy cfg e ctx id s) _ v
        (weaken-Ends _ (reassign_proxy_lem cfg e ctx id s v) (λ p u q. q) (λ x u q. inl (q ∙ same)))
        (λ p u q.
          bind-Ends _
            (wrapped (bytes "resume sandbox: ")
              (call (e.rt.resume ctx (resume_spec id p.0 p.1) p.0.pvc_name)))
            _ u
            (weaken-Ends _
              (wrapped_call_lem (bytes "resume sandbox: ")
                (e.rt.resume ctx (resume_spec id p.0 p.1) p.0.pvc_name) u)
              (λ a z k. k) (λ x z k. inl (k ∙ q.0 ∙ same)))
            (λ a z k. brought_lem s p.0 a.pod_name z (k ∙ q.0 ∙ same) h st q.1))

  found :
      (s : Session) (v : World P)
      → Same w v
      → lookup id w.sessions ≡ some s
      → Ends (resume_found cfg e ctx id s v) (λ u t. (t.state ≡ running) × Resumed s u t) NotResumed
  unfolding resume_found is_running
  found s v same h = elim (Bool-cases (s.state == running)) [
    | inl r ↦
        rw (r, is_running)
          record { holds = ((state_beq_iff s.state running).0 r, inl (refl, same)) }
    | inr r ↦ elim (Bool-cases (s.state == stopped)) [
      | inl st ↦
          rw (r, st, is_running)
            (resume_stopped_lem s v same h ((state_beq_iff s.state stopped).0 st))
      | inr st ↦ rw (r, st, is_running) record { holds = inl same }
    ]
  ]

  -- From a well-formed store: if Resume succeeds, it returns a session that runs: a running one
  -- as it was, or a stopped one on the same workspace. If it fails, no session has changed, or
  -- one that was stopped is stopped and has no pod, or, where the error is that with which the
  -- store ended the last update, to the session that runs, it is still being created. Other sessions are never touched.
  pub resume-Resumed :
      Ends
        (resume cfg e ctx id w)
        (λ v t.
          (t.state ≡ running) × ((s : Session) × (lookup id w.sessions ≡ some s) × Resumed s v t))
        NotResumed
  unfolding resume resume_found is_running
  resume-Resumed =
      bind-Ends _ (get cfg e ctx id) (resume_found cfg e ctx id) w
        (weaken-Ends _ (get_lem cfg e ctx id w) (λ s u q. q) (λ x u h. inl h.0))
        (λ s u q. weaken-Ends _ (found s u q.0 q.1) (λ t z k. (k.0, (s, q.1, k.1))) (λ x z k. k))

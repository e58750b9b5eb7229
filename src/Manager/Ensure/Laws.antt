-- ===== src/Manager/Ensure/Laws.antt =====
-- internal/manager/manager.go: what EnsureSession returns and leaves behind.
use cloud_agent_sandbox.Base.{
  ◌≡◌, ◌≢◌, refl, sym, ◌∙◌, ap, inl, inr, Bool, some, [], Text, ◌==◌, text_eq, Bool-cases,
}
use cloud_agent_sandbox.Base.Dict.{lookup, remove}
use cloud_agent_sandbox.Config.Model.{Config}
use cloud_agent_sandbox.Session.Model.{
  running, stopped, state_eq, state_beq_iff, is_running, Session, CreateOptions,
}
use cloud_agent_sandbox.Session.Id.{canonical_id}
use cloud_agent_sandbox.Session.Store.Laws.{IsValid, id-lookup}
use cloud_agent_sandbox.Manager.World.{Context, background, Environment, World, store_get, ◌>>=◌}
use cloud_agent_sandbox.Manager.World.Outcome.{
  Ends, bind-Ends, weaken-Ends, Result-cases, Ends_ok, Ends_err,
}
use cloud_agent_sandbox.Manager.World.Effects.{Same, store_get_lem}
use cloud_agent_sandbox.Manager.Create.{create}
use cloud_agent_sandbox.Manager.Create.Laws.{create-IsCreated}
use cloud_agent_sandbox.Manager.Lifecycle.{resume, purge_and_forget}
use cloud_agent_sandbox.Manager.Lifecycle.Resuming.{Resumed, resume-Resumed}
use cloud_agent_sandbox.Manager.Lifecycle.Clearing.{remove-IsForgotten, forget_lem}
use cloud_agent_sandbox.Manager.Ensure.{image_change, reuse, get_or_create, ensure_session}

module _ {P : Type 0} (cfg : Config) (e : Environment P) (ctx : Context) (opts : CreateOptions)
    (recreate : Bool) (w : World P) (valid : IsValid w.sessions) (named : opts.ref ≢ []) where
  abbrev id : Text
  id = canonical_id e.sha256 opts.ref

  pub record IsEnsured (v : World P) (s : Session) : Type 0 where
    pub at_id : s.id ≡ id
    pub up : s.state ≡ running
    pub stored : lookup id v.sessions ≡ some s
    pub others : (j : Text) → id ≢ j → lookup j v.sessions ≡ lookup j w.sessions
    pub valid_after : IsValid v.sessions

  -- After a failure the store is well formed.
  abbrev Kept : World P → Type 0
  Kept v = IsValid v.sessions

  create_lem :
      (v : World P)
      → IsValid v.sessions
      → ((j : Text) → id ≢ j → lookup j v.sessions ≡ lookup j w.sessions)
      → Ends (create cfg e ctx opts v) (λ u s. IsEnsured u s) (λ u x. Kept u)
  create_lem v ok_v same =
      weaken-Ends _ (create-IsCreated cfg e ctx opts v)
        (λ s u q. record {
          at_id = q.at_id named;
          up = q.up;
          stored = rw (← q.at_id named) q.stored;
          others = λ j n. q.others j (λ h. n (sym (q.at_id named) ∙ h)) ∙ same j n;
          valid_after = q.valid ok_v;
        })
        (λ x u q. q.valid ok_v)

  recreate_lem :
      (s : Session) (v : World P)
      → Same w v
      → lookup id w.sessions ≡ some s
      → Ends
          ((purge_and_forget cfg e background s >>= λ _. create cfg e ctx opts) v)
          (λ u t. IsEnsured u t)
          (λ u x. Kept u)
  recreate_lem s v same h =
      let at : s.id ≡ id = id-lookup id w.sessions s valid h in
      bind-Ends _ (purge_and_forget cfg e background s) (λ _. create cfg e ctx opts) v
        (weaken-Ends _
          (forget_lem cfg e s s v (ap (λ i. lookup i v.sessions) at ∙ ap (lookup id) same ∙ h))
          (λ _ u q. q) (λ x u k. absurd k))
        (λ _ u q.
          let gone =
            remove-IsForgotten id w.sessions u.sessions
              (q ∙ ap (remove s.id) same ∙ ap (λ i. remove i w.sessions) at) in
          create_lem u (gone.valid valid) gone.others)

  -- From a success of Resume.
  resumed :
      (v u : World P) (s t : Session) (same : Same w v)
      → lookup id v.sessions ≡ some s
      → t.state ≡ running
      → Resumed cfg e ctx id v (rw same valid) s u t
      → IsEnsured u t
  resumed v u s t same h up (inl (p, q)) = record {
    at_id = ap (λ r. r.id) p ∙ id-lookup id v.sessions s (rw same valid) h;
    up = up;
    stored = ap (lookup id) q ∙ h ∙ ap some (sym p);
    others = λ j n. ap (lookup j) (q ∙ same);
    valid_after = rw (q, same) valid;
  }
  resumed v u s t same h up (inr (st, ws, r)) = record {
    at_id = ws.id ∙ id-lookup id v.sessions s (rw same valid) h;
    up = up;
    stored = r.now;
    others = λ j n. r.others j n ∙ ap (lookup j) same;
    valid_after = r.valid;
  }

  resume_lem :
      (v : World P) → Same w v → Ends (resume cfg e ctx id v) (λ u t. IsEnsured u t) (λ u x. Kept u)
  resume_lem v same =
      weaken-Ends _ (resume-Resumed cfg e ctx id v (rw same valid))
        (λ t u q. resumed v u q.1.0 t same q.1.1 q.0 q.1.2)
        (λ x u. elim [ inl k ↦ rw (k, same) valid | inr k ↦ k.4.valid ])

  reuse_lem :
      (s : Session) (v : World P)
      → Same w v
      → lookup id w.sessions ≡ some s
      → Ends (reuse cfg e ctx opts recreate id s v) (λ u t. IsEnsured u t) (λ u x. Kept u)
  unfolding reuse is_running
  reuse_lem s v same h = elim (Bool-cases (image_change cfg e opts recreate s)) [
    | inl c ↦ rw (c, reuse) (recreate_lem s v same h)
    | inr c ↦ elim (Bool-cases (s.state == running)) [
      | inl r ↦
          rw (c, r, reuse, is_running)
            record {
              holds =
                  resumed v v s s same (ap (lookup id) same ∙ h)
                    ((state_beq_iff s.state running).0 r) (inl (refl, refl));
            }
      | inr r ↦ elim (Bool-cases (s.state == stopped)) [
        | inl st ↦ rw (c, r, st, reuse, is_running) (resume_lem v same)
        | inr st ↦ rw (c, r, st, reuse, is_running) (recreate_lem s v same h)
      ]
    ]
  ]

  get_or_create_lem :
      Ends (get_or_create cfg e ctx opts recreate id w) (λ u t. IsEnsured u t) (λ u x. Kept u)
  unfolding get_or_create
  get_or_create_lem = elim (Result-cases (store_get e ctx id w).1) [
    | inl (s, r) ↦
        let (same, h) = Ends_ok (store_get e ctx id w) s (store_get_lem e ctx id w) r in
        rw (r, get_or_create) (reuse_lem s (store_get e ctx id w).0 same h)
    | inr (x, r) ↦
        let same = Ends_err (store_get e ctx id w) x (store_get_lem e ctx id w) r in
        rw (r, get_or_create)
          (create_lem (store_get e ctx id w).0 (rw same valid) (λ j n. ap (lookup j) same))
  ]

  -- For a reference that is not empty, and from a well-formed store: if EnsureSession succeeds,
  -- it returns a session that runs, at the canonical id of the reference, and that the store
  -- holds there; the sessions under all other ids are as they were, and the store is well formed.
  -- If it fails, the store is well formed.
  pub ensure_session-IsEnsured :
      Ends
        (ensure_session cfg e ctx opts recreate w)
        (λ v s. IsEnsured v s)
        (λ v x. IsValid v.sessions)
  unfolding ensure_session
  ensure_session-IsEnsured = elim (Bool-cases (opts.ref == [])) [
    | inl r ↦ absurd (named ((text_eq.beq_iff opts.ref []).0 r))
    | inr r ↦ rw (r, ensure_session) get_or_create_lem
  ]

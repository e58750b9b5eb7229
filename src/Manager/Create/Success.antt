-- ===== src/Manager/Create/Success.antt =====
-- internal/manager/manager.go: when Create succeeds.
use cloud_agent_sandbox.Base.{
  ◌≡◌, ◌≢◌, refl, sym, ◌∙◌, ap, inl, inr, Bool, true, false, ◌&&◌, Option, none, some, [], Text,
  ◌==◌, text_eq, if◌then◌else◌, arith, Option-cases,
}
use cloud_agent_sandbox.Base.Dict.{lookup, insert, lookup-insert_self}
use cloud_agent_sandbox.Base.Int.{ℤ, pos, ◌<ℤ◌}
use cloud_agent_sandbox.Config.Model.{Config}
use cloud_agent_sandbox.Session.Model.{
  creating, running, state_eq, Session, CreateOptions, Error, Result, ok, err,
}
use cloud_agent_sandbox.Session.Id.{canonical_id}
use cloud_agent_sandbox.Session.Id.Laws.{canonical_id_nonempty}
use cloud_agent_sandbox.Session.Store
use cloud_agent_sandbox.Runtime.Model.{SandboxSpec, SandboxHandle}
use cloud_agent_sandbox.Manager.World.{
  Context, request, background, Assignment, ProxyAssigner, Environment, World, Step, pure, call,
  context_err, store_list_by_state, store_create, store_update,
}
use cloud_agent_sandbox.Manager.World.Outcome.{Ends, bind-Ends, weaken-Ends}
use cloud_agent_sandbox.Manager.World.Effects.{Same}
use cloud_agent_sandbox.Manager.Create.{
  admit, choose_id, new_session, assign_proxy, obtain, persist, bring_up, create, ensure_capacity,
  acquire_warm, cold_create, launch, equip, start, resolve_image, ready_timeout, claim, bool_beq,
  resolve_bool,
}
use cloud_agent_sandbox.Manager.Create.Stages.{live, count-live, length_in, obtain_lem}
use cloud_agent_sandbox.Manager.Create.Laws.{IsCreated, create-IsCreated}

-- A platform on which every call that Create makes succeeds.
pub record Serves {P : Type 0} (e : Environment P) : Type 0 where
  pub alive : (p : P) → (e.request_err p).1 ≡ none
  pub creates :
      (c : Context) (s : SandboxSpec) (p : P) → (h : SandboxHandle) × ((e.rt.create c s p).1 ≡ ok h)
  pub readies : (c : Context) (n : Text) (t : ℤ) (p : P) → (e.rt.wait_ready c n t p).1 ≡ none
  pub assigns :
      (x : ProxyAssigner P)
      → e.proxy ≡ some x
      → (c : Context) (i : Text) (p : P) → (a : Assignment) × ((x.assign c i p).1 ≡ ok a)
  pub scales :
      (f : Context → P → P × Option Error)
      → e.scaler ≡ some f
      → (c : Context) (p : P) → (f c p).1 ≡ none

module _ {P : Type 0} (cfg : Config) (e : Environment P) (serves : Serves e) where
  abbrev Never : World P → Error → Type 0
  Never v x = ⊥

  alive_in : (ctx : Context) (p : P) → (context_err e ctx p).1 ≡ none
  alive_in request p = serves.alive p
  alive_in background p = refl

  admit_ok :
      (ctx : Context) (w : World P)
      → pos (live w.sessions) <ℤ cfg.pool.max_running
      → Ends (admit cfg e ctx w) (λ v _. Same w v) Never
  unfolding admit store_list_by_state Store.list_by_state
  admit_ok ctx w cap = ground (
    arith,
    length_in running w.sessions,
    length_in creating w.sessions,
    count-live w.sessions,
    alive_in ctx w.platform,
    alive_in ctx (context_err e ctx w.platform).0,
    cap,
  )

  choose_id_ok :
      (ref : Text) (w : World P)
      → ref ≢ []
      → Ends (choose_id cfg e ref w) (λ v id. Same w v × (id ≡ canonical_id e.sha256 ref)) Never
  unfolding choose_id
  choose_id_ok ref w n = ground (arith, text_eq.beq_iff ref [])

  new_session_ok :
      (opts : CreateOptions) (id image proxy_id : Text) (w : World P)
      → Ends (new_session cfg e opts id image proxy_id w) (λ v s. Same w v × (s.id ≡ id)) Never
  unfolding new_session
  new_session_ok opts id image proxy_id w = ground arith

  -- A call that succeeds.
  called_ok :
      {A : Type 0} (f : P → P × Result A) (w : World P)
      → ((a : A) × ((f w.platform).1 ≡ ok a))
      → Ends (call f w) (λ v _. Same w v) Never
  called_ok f w (a, h) = ground (arith, h)

  persist_ok :
      (ctx : Context) (s : Session) (w : World P)
      → lookup s.id w.sessions ≡ none
      → s.id ≢ []
      → Ends (persist cfg e ctx s w) (λ v _. v.sessions ≡ insert s.id s w.sessions) Never
  unfolding persist store_create Store.create
  persist_ok ctx s w h n = ground (arith, text_eq.beq_iff s.id [], alive_in ctx w.platform, h)

  bring_up_ok :
      (ctx : Context) (s t : Session) (w : World P)
      → lookup s.id w.sessions ≡ some t
      → s.id ≢ []
      → Ends (bring_up cfg e ctx s w) (λ v u. Unit) Never
  unfolding bring_up store_update Store.update
  bring_up_ok ctx s t w h n = ground (
    arith,
    text_eq.beq_iff s.id [],
    h,
    serves.readies ctx s.pod_name ready_timeout w.platform,
    alive_in ctx (e.rt.wait_ready ctx s.pod_name ready_timeout w.platform).0,
  )

  assign_proxy_ok :
      (ctx : Context) (id : Text) (w : World P)
      → Ends (assign_proxy cfg e ctx id w) (λ v _. Same w v) Never
  unfolding assign_proxy ensure_capacity
  assign_proxy_ok ctx id w = elim (Option-cases e.proxy) [
    | inl p ↦ ground (arith, p)
    | inr (x, p) ↦ elim (Option-cases e.scaler) [
      | inl q ↦ ground (arith, p, q, (serves.assigns x p ctx id w.platform).1)
      | inr (f, q) ↦ ground (
        arith,
        p,
        q,
        (serves.assigns x p ctx id w.platform).1,
        serves.scales f q ctx (x.assign ctx id w.platform).0,
      )
    ]
  ]

  acquire_ok :
      (ctx : Context) (b : Bool) (image : Text) (w : World P)
      → Ends (acquire_warm cfg e ctx b image w) (λ v _. Same w v) Never
  unfolding acquire_warm
  acquire_ok ctx b image w = ground arith

  cold_ok :
      (ctx : Context) (spec : SandboxSpec) (s : Session) (w : World P)
      → Ends (cold_create cfg e ctx spec s w) (λ v _. Same w v) Never
  unfolding cold_create
  cold_ok ctx spec s w = ground (arith, (serves.creates ctx spec w.platform).1)

  either_ok :
      {A : Type 0} {Q : World P → A → Type 0} (b : Bool) (m n : Step P A) (w : World P)
      → Ends (m w) Q Never
      → Ends (n w) Q Never
      → Ends ((if b then m else n) w) Q Never
  either_ok true m n w h k = h
  either_ok false m n w h k = k

  obtain_ok :
      (ctx : Context) (opts : CreateOptions) (a : Assignment) (s : Session) (w : World P)
      → Ends (obtain cfg e ctx opts a s w) (λ v _. Same w v) Never
  unfolding obtain
  obtain_ok ctx opts a s w =
      bind-Ends _ (acquire_warm cfg e ctx eligible s.image) rest w
        (acquire_ok ctx eligible s.image w)
        (λ h u q.
          either_ok ((claim cfg e s h).pod_name == [])
            (cold_create cfg e ctx spec (claim cfg e s h)) (pure (claim cfg e s h)) u
            (weaken-Ends _ (cold_ok ctx spec (claim cfg e s h) u) (λ _ v r. r ∙ q) (λ x v r. r))
            record { holds = q })
    where
      spec : SandboxSpec
      spec = record {
        session_id = s.id;
        image = s.image;
        runtime_class = s.runtime_class;
        proxy_endpoint = a.endpoint;
        ca_cert = a.ca_cert;
        labels = [];
        warm = false;
        run_as_root = resolve_bool opts.run_as_root cfg.sandbox.run_as_root;
        writable_root = resolve_bool opts.writable_root cfg.sandbox.writable_root_filesystem;
      }

      rest : Option SandboxHandle → Step P Session
      rest h =
          if (claim cfg e s h).pod_name == []
          then cold_create cfg e ctx spec (claim cfg e s h)
          else pure (claim cfg e s h)

      eligible : Bool
      eligible =
          s.image == cfg.sandbox.default_image
          && bool_beq (resolve_bool opts.writable_root cfg.sandbox.writable_root_filesystem)
              cfg.sandbox.writable_root_filesystem
          && bool_beq (resolve_bool opts.run_as_root cfg.sandbox.run_as_root)
              cfg.sandbox.run_as_root

  -- What a step that cannot fail leaves.
  sure :
      {A : Type 0} {Q S : World P → A → Type 0} {R : World P → Error → Type 0}
      (r : World P × Result A)
      → Ends r S Never
      → Ends r Q R
      → Ends r Q Never
  sure (v, ok a) h k = record { holds = k.holds }
  sure (v, err x) h k = absurd h.holds

  launch_ok :
      (ctx : Context) (s : Session) (w : World P)
      → lookup s.id w.sessions ≡ none
      → s.id ≢ []
      → Ends (launch cfg e ctx s w) (λ v u. Unit) Never
  unfolding launch
  launch_ok ctx s w h n =
      bind-Ends _ (persist cfg e ctx s) (λ _. bring_up cfg e ctx s) w (persist_ok ctx s w h n)
        (λ _ u q. bring_up_ok ctx s s u (rw q (lookup-insert_self s.id s w.sessions)) n)

  equip_ok :
      (ctx : Context) (opts : CreateOptions) (s : Session) (w : World P)
      → lookup s.id w.sessions ≡ none
      → s.id ≢ []
      → Ends (equip cfg e ctx opts s w) (λ v u. Unit) Never
  unfolding equip
  equip_ok ctx opts s w h n =
      bind-Ends _ (assign_proxy cfg e ctx s.id) _ w (assign_proxy_ok ctx s.id w) (λ a u q.
        bind-Ends _ (obtain cfg e ctx opts a (record s { proxy_id = a.proxy_id }))
          (launch cfg e ctx) u
          (sure _ (obtain_ok ctx opts a (record s { proxy_id = a.proxy_id }) u)
            (obtain_lem cfg e ctx opts a (record s { proxy_id = a.proxy_id }) u))
          (λ t z k.
            launch_ok ctx t z
              (ap (λ i. lookup i z.sessions) k.1.id ∙ ap (lookup s.id) (k.0 ∙ q) ∙ h)
              (λ r. n (sym k.1.id ∙ r))))

  -- On a platform on which every call that Create makes succeeds, below the cap, and for a
  -- reference that is not empty and has no session, Create succeeds, with all that a successful
  -- creation means.
  pub create_succeeds :
      (ctx : Context) (opts : CreateOptions) (w : World P)
      → pos (live w.sessions) <ℤ cfg.pool.max_running
      → opts.ref ≢ []
      → lookup (canonical_id e.sha256 opts.ref) w.sessions ≡ none
      → (s : Session) × ((create cfg e ctx opts w).1 ≡ ok s)
        × IsCreated cfg e.sha256 opts w.sessions (create cfg e ctx opts w).0.sessions s
  unfolding create start
  create_succeeds ctx opts w cap n h =
      succeeded (create cfg e ctx opts w) (sure _ made (create-IsCreated cfg e ctx opts w))
    where
      succeeded :
          {Q : World P → Session → Type 0} (r : World P × Result Session)
          → Ends r Q Never
          → (s : Session) × (r.1 ≡ ok s) × Q r.0 s
      succeeded (v, ok s) k = (s, refl, k.holds)
      succeeded (v, err x) k = absurd k.holds

      made : Ends (create cfg e ctx opts w) (λ v s. Unit) Never
      made =
          bind-Ends _ (admit cfg e ctx) (λ _. start cfg e ctx opts) w (admit_ok ctx w cap)
            (λ _ u q.
              bind-Ends _ (choose_id cfg e opts.ref) _ u (choose_id_ok opts.ref u n) (λ id v k.
                bind-Ends _ (new_session cfg e opts id (resolve_image cfg opts.image) [])
                  (equip cfg e ctx opts) v
                  (new_session_ok opts id (resolve_image cfg opts.image) [] v)
                  (λ s z l.
                    equip_ok ctx opts s z
                      (ap (λ i. lookup i z.sessions) (l.1 ∙ k.1)
                        ∙ ap (lookup (canonical_id e.sha256 opts.ref)) (l.0 ∙ k.0 ∙ q)
                        ∙ h)
                      (λ r. canonical_id_nonempty e.sha256 opts.ref (sym (l.1 ∙ k.1) ∙ r)))))

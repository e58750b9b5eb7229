-- ===== src/Manager/Create/Laws.antt =====
-- internal/manager/manager.go: what Create leaves behind, over the stages.
use cloud_agent_sandbox.Base.{
  ◌+◌, ◌≡◌, ◌≢◌, refl, ◌∙◌, ap, ◌⊎◌, inl, none, some, [], Text, text_eq, arith,
}
use cloud_agent_sandbox.Base.Dict.{
  lookup, insert, lookup-insert, lookup-insert_self, lookup-insert_ne, count-insert, weigh,
}
use cloud_agent_sandbox.Base.Int.{pos, ◌<ℤ◌, ◌≤ℤ◌}
use cloud_agent_sandbox.Config.Model.{Config}
use cloud_agent_sandbox.Session.Model.{creating, running, dead, Session, CreateOptions, Error}
use cloud_agent_sandbox.Session.Store.{MemoryStore}
use cloud_agent_sandbox.Session.Id.{canonical_id}
use cloud_agent_sandbox.Session.Store.Laws.{IsValid, insert-IsValid}
use cloud_agent_sandbox.Manager.World.{Context, Environment, World}
use cloud_agent_sandbox.Manager.World.Outcome.{Ends, bind-Ends, weaken-Ends}
use cloud_agent_sandbox.Manager.Create.{
  admit, choose_id, new_session, assign_proxy, obtain, persist, bring_up, launch, equip, start,
  create, resolve_image,
}
use cloud_agent_sandbox.Manager.Create.Stages.{
  is_live, live, admit_lem, choose_id_lem, new_session_lem, assign_proxy_lem, obtain_lem,
  persist_lem, bring_up_lem,
}

-- A successful creation of `s`, from the store `m` to the store `m'`.
pub record IsCreated (cfg : Config) (sha256 : Text → Text) (opts : CreateOptions)
    (m m' : MemoryStore) (s : Session) : Type 0 where
  pub fresh : lookup s.id m ≡ none
  pub stored : lookup s.id m' ≡ some s
  pub up : s.state ≡ running
  pub at_id : opts.ref ≢ [] → s.id ≡ canonical_id sha256 opts.ref
  pub for_ref : s.ref ≡ opts.ref
  pub of_image : s.image ≡ resolve_image cfg opts.image
  pub others : (j : Text) → s.id ≢ j → lookup j m' ≡ lookup j m
  pub within_cap : pos (live m') ≤ℤ cfg.pool.max_running
  pub valid : IsValid m → IsValid m'

-- A failed one: no session has changed, but for at most one id, under which there was none and is
-- a dead one now; no sandbox counts more or less.
pub record IsNotCreated (m m' : MemoryStore) : Type 0 where
  pub each :
      (j : Text)
      → (lookup j m' ≡ lookup j m)
        ⊎ ((t : Session) × (lookup j m ≡ none) × (lookup j m' ≡ some t) × (t.state ≡ dead))
  pub one : (i : Text) × ((j : Text) → i ≢ j → lookup j m' ≡ lookup j m)
  pub same_live : live m' ≡ live m
  pub valid : IsValid m → IsValid m'

live-insert_twice :
    (s u : Session) (m : MemoryStore)
    → u.id ≡ s.id
    → lookup s.id m ≡ none
    → live (insert s.id u (insert s.id s m)) ≡ live m + weigh is_live (some u)
live-insert_twice s u m i h = ground (
  arith,
  count-insert is_live s.id s m,
  count-insert is_live s.id u (insert s.id s m),
  lookup-insert_self s.id s m,
)

created :
    (cfg : Config) (sha256 : Text → Text) (opts : CreateOptions) (m : MemoryStore) (s : Session)
    → lookup s.id m ≡ none
    → s.id ≢ []
    → (opts.ref ≢ [] → s.id ≡ canonical_id sha256 opts.ref)
    → s.ref ≡ opts.ref
    → s.image ≡ resolve_image cfg opts.image
    → pos (live m) <ℤ cfg.pool.max_running
    → IsCreated cfg sha256 opts m
        (insert s.id (record s { state = running }) (insert s.id s m))
        (record s { state = running })
created cfg sha256 opts m s n ne at r i c = record {
  fresh = n;
  stored = lookup-insert_self s.id _ _;
  up = refl;
  at_id = at;
  for_ref = r;
  of_image = i;
  others = λ j h. lookup-insert_ne s.id j _ _ h ∙ lookup-insert_ne s.id j s m h;
  within_cap = omega (arith, live-insert_twice s (record s { state = running }) m refl n);
  valid = λ v. insert-IsValid (record s { state = running }) _ ne (insert-IsValid s m ne v);
}

same-IsNotCreated : (m m' : MemoryStore) → m' ≡ m → IsNotCreated m m'
same-IsNotCreated m m' h = record {
  each = λ j. inl (ap (lookup j) h);
  one = ([], λ j n. ap (lookup j) h);
  same_live = ap live h;
  valid = λ v. rw h v;
}

dead-IsNotCreated :
    (m m' : MemoryStore) (s : Session)
    → lookup s.id m ≡ none
    → s.id ≢ []
    → m' ≡ insert s.id (record s { state = dead }) (insert s.id s m)
    → IsNotCreated m m'
dead-IsNotCreated m m' s n ne h = rw h record {
  each = λ j. ground (
    arith,
    lookup-insert s.id j (record s { state = dead }) (insert s.id s m),
    lookup-insert s.id j s m,
    text_eq.beq_iff s.id j,
  );
  one = (s.id, λ j k. lookup-insert_ne s.id j _ _ k ∙ lookup-insert_ne s.id j s m k);
  same_live = omega (arith, live-insert_twice s (record s { state = dead }) m refl n);
  valid = λ v. insert-IsValid (record s { state = dead }) _ ne (insert-IsValid s m ne v);
}

module _ {P : Type 0} (cfg : Config) (e : Environment P) (ctx : Context) (opts : CreateOptions)
    (w : World P) where
  abbrev Good : World P → Session → Type 0
  Good v s = IsCreated cfg e.sha256 opts w.sessions v.sessions s

  abbrev Bad : World P → Error → Type 0
  Bad v x = IsNotCreated w.sessions v.sessions

  unchanged : (x : Error) (v : World P) → v.sessions ≡ w.sessions → Bad v x
  unchanged x v h = same-IsNotCreated w.sessions v.sessions h

  abbrev Request : Session → Type 0
  Request s = record {
    at : opts.ref ≢ [] → s.id ≡ canonical_id e.sha256 opts.ref;
    ref : s.ref ≡ opts.ref;
    image : s.image ≡ resolve_image cfg opts.image;
    new : s.state ≡ creating;
  }

  module _ (cap : pos (live w.sessions) <ℤ cfg.pool.max_running) where
    launch_lem :
        (s : Session) (v : World P)
        → v.sessions ≡ w.sessions
        → Request s
        → Ends (launch cfg e ctx s v) Good Bad
    unfolding launch
    launch_lem s v same r =
        bind-Ends _ (persist cfg e ctx s) (λ _. bring_up cfg e ctx s) v
          (weaken-Ends _ (persist_lem cfg e ctx s v) (λ _ u q. q)
            (λ x u h. unchanged x u (h ∙ same)))
          (λ _ u q.
            weaken-Ends _
              (bring_up_lem cfg e ctx s s u q.1 (rw (q.2) (lookup-insert_self s.id s v.sessions)))
              (λ t z k.
                rw (k.1, k.0, q.2, same)
                  (created cfg e.sha256 opts w.sessions s (rw same at q.0) q.1 r.at r.ref r.image
                    cap))
              (λ x z k.
                dead-IsNotCreated _ _ s (rw same at q.0) q.1
                  (k ∙ ap (insert s.id _) (q.2 ∙ ap (insert s.id s) same))))

    equip_lem :
        (s : Session) (v : World P)
        → v.sessions ≡ w.sessions
        → Request s
        → Ends (equip cfg e ctx opts s v) Good Bad
    unfolding equip
    equip_lem s v same r =
        bind-Ends _ (assign_proxy cfg e ctx s.id) _ v
          (weaken-Ends _ (assign_proxy_lem cfg e ctx s.id v) (λ a u q. q)
            (λ x u h. unchanged x u (h ∙ same)))
          (λ a u q.
            bind-Ends _ (obtain cfg e ctx opts a (record s { proxy_id = a.proxy_id }))
              (launch cfg e ctx) u
              (weaken-Ends _ (obtain_lem cfg e ctx opts a (record s { proxy_id = a.proxy_id }) u)
                (λ t z k. k) (λ x z h. unchanged x z (h ∙ q ∙ same)))
              (λ t z k. launch_lem t z (k.0 ∙ q ∙ same) record {
                at = λ n. k.1.id ∙ r.at n;
                ref = k.1.ref ∙ r.ref;
                image = k.1.image ∙ r.image;
                new = k.1.state ∙ r.new;
              }))

    start_lem : (v : World P) → v.sessions ≡ w.sessions → Ends (start cfg e ctx opts v) Good Bad
    unfolding start
    start_lem v same =
        bind-Ends _ (choose_id cfg e opts.ref) _ v
          (weaken-Ends _ (choose_id_lem cfg e opts.ref v) (λ id u q. q)
            (λ x u h. unchanged x u (h ∙ same)))
          (λ id u q.
            bind-Ends _ (new_session cfg e opts id (resolve_image cfg opts.image) [])
              (equip cfg e ctx opts) u
              (weaken-Ends _ (new_session_lem cfg e opts id (resolve_image cfg opts.image) [] u)
                (λ s z k. k) (λ x z h. unchanged x z (h ∙ q.0 ∙ same)))
              (λ s z k.
                equip_lem s z (k.0 ∙ q.0 ∙ same)
                  record { at = λ n. k.1 ∙ q.1 n; ref = k.2; image = k.3; new = k.4 }))

  -- Create either returns a session that runs under an id that was free, for the reference and the
  -- image of the request, with all other sessions as they were and the cap kept, or it fails and
  -- leaves every session as it was, but for at most one new one that is dead and counts for
  -- nothing.
  pub create-IsCreated : Ends (create cfg e ctx opts w) Good Bad
  unfolding create
  create-IsCreated =
      bind-Ends _ (admit cfg e ctx) (λ _. start cfg e ctx opts) w
        (weaken-Ends _ (admit_lem cfg e ctx w) (λ _ u q. q) unchanged)
        (λ _ u q. start_lem q.1 u q.0)

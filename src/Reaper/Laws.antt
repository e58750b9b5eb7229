-- ===== src/Reaper/Laws.antt =====
-- internal/reaper/reaper.go: which sessions one tick stops and deletes.
use cloud_agent_sandbox.Base.{
  true, ℕ, ◌+◌, ◌<◌, ◌≡◌, ◌≢◌, ◌↔◌, refl, ap, subst, ◌∙◌, ◌⊎◌, inl, inr, Bool, false, none, some,
  List, [], ◌∷◌, Text, ◌==◌, text_eq, arith, Bool-cases, Option-cases, ltb,
}
use cloud_agent_sandbox.Base.Dict.{Dict, lookup}
use cloud_agent_sandbox.Base.Int.{pos}
use cloud_agent_sandbox.Clock.{older_than_iff, max_duration}
use cloud_agent_sandbox.Config.Model.{Config}
use cloud_agent_sandbox.Session.Model.{
  State, running, stopped, state_eq, state_beq_iff, Session, ok,
}
use cloud_agent_sandbox.Session.Store.{MemoryStore}
use cloud_agent_sandbox.Session.Store
use cloud_agent_sandbox.Session.Store.Laws.{IsValid, In, list_by_state_exact}
use cloud_agent_sandbox.Manager.World.{
  Context, Environment, World, Step, context_err, store_list_by_state, store_get, store_update,
}
use cloud_agent_sandbox.Manager.World.Outcome.{
  Ends, bind-Ends, weaken-Ends, Result-cases, Ends_ok, Ends_err, bind-ok, both-Ends, Ends-both,
}
use cloud_agent_sandbox.Manager.World.Effects.{Same, IsFrame}
use cloud_agent_sandbox.Manager.Lifecycle.{get, stop, stop_found, delete, delete_found}
use cloud_agent_sandbox.Manager.Lifecycle.Laws.{
  IsReplaced, Stopped, stop-Stopped, delete-IsReplaced,
}
use cloud_agent_sandbox.Manager.Create.{release}
use cloud_agent_sandbox.Manager.Activity.{has_active_calls, calls_of}
use cloud_agent_sandbox.Manager.Sweep.{sweep_orphans}
use cloud_agent_sandbox.Manager.Sweep.Laws.{sweep_orphans-Frames}
use cloud_agent_sandbox.Reaper.{
  Reaper, running_expired, stopped_expired, reap_running, reap_stopped, each, pass, running_pass,
  stopped_pass, reap_at, reap_once,
}

-- A session is due to be stopped exactly if it runs and either more than the cap on a lifetime has
-- passed since its creation, calls in flight or not, or more than the idle limit has passed since
-- its last activity with no call in flight. It is due to be deleted exactly if it is stopped and
-- more than the limit on stopped sessions has passed since it was stopped. (The limits are below the
-- largest duration, and the cap is positive.)
pub running_expired-stopped_expired :
    (r : Reaper) (s : Session) (now : ℕ) (active : Bool) (cap idle rest : ℕ)
    → r.max_lifetime ≡ pos cap
    → r.running_ttl ≡ pos idle
    → r.stopped_ttl ≡ pos rest
    → 0 < cap
    → cap < max_duration
    → idle < max_duration
    → rest < max_duration
    → ((running_expired r s now active ≢ none) ↔ (
        (s.state ≡ running)
        × ((s.created_at + cap < now) ⊎ ((s.last_activity_at + idle < now) × (active ≡ false)))))
      × ((stopped_expired s now r.stopped_ttl ≡ true)
          ↔ ((s.state ≡ stopped) × (s.stopped_at + rest < now)))
unfolding running_expired stopped_expired
running_expired-stopped_expired r s now active cap idle rest c i t h k l m =
    rw (c, i, t)
      (
        ground (
          arith,
          older_than_iff now s.created_at cap k,
          older_than_iff now s.last_activity_at idle l,
          state_beq_iff s.state running,
        ),
        ground (arith, older_than_iff now s.stopped_at rest m, state_beq_iff s.state stopped),
      )

module _ {P : Type 0} (cfg : Config) (e : Environment P) where
  -- Stop and Delete leave the count of calls alone.
  stop_active :
      (ctx : Context) (id : Text) (w : World P) → (stop cfg e ctx id w).0.active ≡ w.active
  unfolding stop get stop_found store_get store_update
  stop_active ctx id w = ground arith

  delete_active :
      (ctx : Context) (id : Text) (w : World P) → (delete cfg e ctx id w).0.active ≡ w.active
  unfolding delete get delete_found store_get store_update release
  delete_active ctx id w = ground arith

  -- The session under `j`, or its absence, is as it was, and so is the count of calls.
  pub record Keeps (j : Text) (w v : World P) : Type 0 where
    pub same : lookup j v.sessions ≡ lookup j w.sessions
    pub active : v.active ≡ w.active
    pub valid : IsValid v.sessions

  Keeps-refl : (j : Text) (w : World P) → IsValid w.sessions → Keeps j w w
  Keeps-refl j w v = record { same = refl; active = refl; valid = v }

  Keeps-trans : (j : Text) (u v w : World P) → Keeps j u v → Keeps j v w → Keeps j u w
  Keeps-trans j u v w f g = record {
    same = g.same ∙ f.same;
    active = g.active ∙ f.active;
    valid = g.valid;
  }

  IsReplaced-Keeps :
      (j id : Text) (w v : World P) (s t : Session)
      → id ≢ j
      → v.active ≡ w.active
      → IsReplaced id s t w.sessions v.sessions
      → Keeps j w v
  IsReplaced-Keeps j id w v s t n a r = record { same = r.others j n; active = a; valid = r.valid }

  Same-Keeps :
      (j : Text) (w v : World P) → IsValid w.sessions → v.active ≡ w.active → Same w v → Keeps j w v
  Same-Keeps j w v ok_w a h = record { same = ap (lookup j) h; active = a; valid = rw h ok_w }

  stop-Keeps :
      (ctx : Context) (j id : Text) (w : World P)
      → IsValid w.sessions
      → id ≢ j
      → Keeps j w (stop cfg e ctx id w).0
  stop-Keeps ctx j id w v n = elim (Result-cases (stop cfg e ctx id w).1) [
    | inl (a, r) ↦ by_case (Ends_ok (stop cfg e ctx id w) a (stop-Stopped cfg e ctx id w v) r)
    | inr (x, r) ↦
        Same-Keeps j w _ v (stop_active ctx id w)
          (Ends_err (stop cfg e ctx id w) x (stop-Stopped cfg e ctx id w v) r)
  ]
    where
      by_case :
          ((s : Session) × (lookup id w.sessions ≡ some s)
            × Stopped cfg e ctx id w v s (stop cfg e ctx id w).0)
          → Keeps j w (stop cfg e ctx id w).0
      by_case (s, h, inl (q, k)) = Same-Keeps j w _ v (stop_active ctx id w) k
      by_case (s, h, inr (q, (at, k))) = IsReplaced-Keeps j id w _ s _ n (stop_active ctx id w) k

  delete-Keeps :
      (ctx : Context) (j id : Text) (w : World P)
      → IsValid w.sessions
      → id ≢ j
      → Keeps j w (delete cfg e ctx id w).0
  delete-Keeps ctx j id w v n = elim (Result-cases (delete cfg e ctx id w).1) [
    | inl (a, r) ↦
        let (s, k) = Ends_ok (delete cfg e ctx id w) a (delete-IsReplaced cfg e ctx id w v) r in
        IsReplaced-Keeps j id w _ s _ n (delete_active ctx id w) k
    | inr (x, r) ↦
        Same-Keeps j w _ v (delete_active ctx id w)
          (Ends_err (delete cfg e ctx id w) x (delete-IsReplaced cfg e ctx id w v) r)
  ]

  module _ (r : Reaper) (ctx : Context) (now : ℕ) (j : Text) (a : Dict ℕ) where
    -- The session is not `j`, or not due when `a` counts the calls in flight.
    abbrev IsSpared : Session → Type 0
    IsSpared s = s.id ≡ j → running_expired r s now (ltb 0 (calls_of s.id a)) ≡ none

    IsRested : Session → Type 0
    IsRested s = s.id ≡ j → stopped_expired s now r.stopped_ttl ≡ false

    abbrev Round : (Session → Step P (Unit {0})) → Session → World P → Type 0
    Round f s w = Keeps j w (f s w).0 × ((f s w).1 ≡ ok tt)

    reap_running-Round :
        (s : Session) (w : World P)
        → IsValid w.sessions
        → w.active ≡ a
        → IsSpared s
        → Round (reap_running cfg e r ctx now) s w
    unfolding reap_running has_active_calls
    reap_running-Round s w v ac h = elim (Bool-cases (s.id == j)) [
      | inl i ↦
          let spared : running_expired r s now (ltb 0 (calls_of s.id w.active)) ≡ none =
            ap (λ m. running_expired r s now (ltb 0 (calls_of s.id m))) ac
            ∙ h ((text_eq.beq_iff s.id j).0 i) in
          rw (reap_running, spared) (Keeps-refl j w v, refl)
      | inr i ↦ elim (Option-cases (running_expired r s now (ltb 0 (calls_of s.id w.active)))) [
        | inl x ↦ rw (reap_running, x) (Keeps-refl j w v, refl)
        | inr (reason, x) ↦
            rw (reap_running, x)
              (stop-Keeps ctx j s.id w v (ground (arith, text_eq.beq_iff s.id j)), refl)
      ]
    ]

    reap_stopped-Round :
        (s : Session) (w : World P)
        → IsValid w.sessions
        → w.active ≡ a
        → IsRested s
        → Round (reap_stopped cfg e r ctx now) s w
    unfolding reap_stopped IsRested
    reap_stopped-Round s w v ac h = elim (Bool-cases (stopped_expired s now r.stopped_ttl)) [
      | inl x ↦ elim (Bool-cases (s.id == j)) [
        | inl i ↦ cc (h ((text_eq.beq_iff s.id j).0 i), x)
        | inr i ↦
            rw (reap_stopped, x)
              (delete-Keeps ctx j s.id w v (ground (arith, text_eq.beq_iff s.id j)), refl)
      ]
      | inr x ↦ rw (reap_stopped, x) (Keeps-refl j w v, refl)
    ]

    each-Keeps :
        (f : Session → Step P (Unit {0})) (Good : Session → Type 0)
        → ((s : Session) (w : World P) → IsValid w.sessions → w.active ≡ a → Good s → Round f s w)
        → (ss : List Session) (w : World P) → IsValid w.sessions
        → w.active ≡ a
        → ((s : Session) → In s ss → Good s)
        → Keeps j w (each cfg e r f ss w).0
    unfolding each
    each-Keeps f Good round [] w v ac g = Keeps-refl j w v
    each-Keeps f Good round (s ∷ ss) w v ac g =
        let (k, o) = round s w v ac (g s (inl refl)) in
        rw (bind-ok (f s) (λ _. each cfg e r f ss) w tt o) (
          Keeps-trans j w (f s w).0 _ k
            (each-Keeps f Good round ss (f s w).0 k.valid (k.active ∙ ac) (λ t i. g t (inr i))))

    -- A pass spares `j` if every session of its state in the store is good.
    pass-Keeps :
        (st : State) (f : Session → Step P (Unit {0})) (Good : Session → Type 0)
        → ((s : Session) (w : World P) → IsValid w.sessions → w.active ≡ a → Good s → Round f s w)
        → (w : World P) → IsValid w.sessions
        → w.active ≡ a
        → ((s : Session) → lookup s.id w.sessions ≡ some s → s.state ≡ st → Good s)
        → Keeps j w (pass cfg e r ctx st f w).0
    unfolding pass store_list_by_state
    pass-Keeps st f Good round w v ac g = elim (Option-cases (context_err e ctx w.platform).1) [
      | inr (x, c) ↦
          rw (c, pass, store_list_by_state)
            (unfold Store.list_by_state in record { same = refl; active = refl; valid = v })
      | inl c ↦
          let (ss, listing, members, counted) = list_by_state_exact st w.sessions v in
          let polled = record w { platform = (context_err e ctx w.platform).0 } in
          let k =
            each-Keeps f Good round ss polled v ac
              (λ s i. let (found, in_state) = (members s).0 i in g s found in_state) in
          rw (pass, store_list_by_state, c, listing)
            record { same = k.same; active = k.active; valid = k.valid }
    ]

module _ {P : Type 0} (cfg : Config) (e : Environment P) (r : Reaper) (ctx : Context) (now : ℕ)
    (j : Text) (s : Session) (a : Dict ℕ) where
  record Holds (v : World P) : Type 0 where
    same : lookup j v.sessions ≡ some s
    active : v.active ≡ a
    valid : IsValid v.sessions

  kept : (v u : World P) → Holds v → Keeps cfg e j v u → Holds u
  kept v u h k = record { same = k.same ∙ h.same; active = k.active ∙ h.active; valid = k.valid }

  is_it : (t : Session) (v : World P) → Holds v → lookup t.id v.sessions ≡ some t → t.id ≡ j → s ≡ t
  is_it t v h f i = cc (h.same, f, ap (λ k. lookup k v.sessions) i)

  module _ (spared : running_expired r s now (ltb 0 (calls_of s.id a)) ≡ none)
      (rested : stopped_expired s now r.stopped_ttl ≡ false) where
    reap_at-Holds :
        (v : World P) → Holds v → Ends (reap_at cfg e r ctx now v) (λ u _. Holds u) (λ u x. Holds u)
    unfolding reap_at running_pass stopped_pass IsRested
    reap_at-Holds v h =
        bind-Ends (λ u _. Holds u) (sweep_orphans cfg e ctx) _ v
          (weaken-Ends _ (sweep_orphans-Frames cfg e ctx v) (λ _ u f. framed u f)
            (λ x u f. framed u f))
          (λ _ u k.
            bind-Ends (λ u _. Holds u) (running_pass cfg e r ctx now)
              (λ _. stopped_pass cfg e r ctx now) u
              (both-Ends Holds (running_pass cfg e r ctx now u) (
                kept u _ k (
                  pass-Keeps cfg e r ctx now j a running (reap_running cfg e r ctx now)
                    (IsSpared cfg e r ctx now j a) (reap_running-Round cfg e r ctx now j a) u
                    k.valid k.active
                    (λ t f st i.
                      subst (λ t. running_expired r t now (ltb 0 (calls_of t.id a)) ≡ none)
                        (is_it t u k f i) spared))))
              (λ _ z l. both-Ends Holds (stopped_pass cfg e r ctx now z) (
                kept z _ l (
                  pass-Keeps cfg e r ctx now j a stopped (reap_stopped cfg e r ctx now)
                    (IsRested cfg e r ctx now j a) (reap_stopped-Round cfg e r ctx now j a) z
                    l.valid l.active
                    (λ t f st i.
                      subst (λ t. stopped_expired t now r.stopped_ttl ≡ false) (is_it t z l f i)
                        rested)))))
      where
        framed : (u : World P) → IsFrame v u → Holds u
        framed u f = record {
          same = ap (lookup j) f.sessions ∙ h.same;
          active = f.active ∙ h.active;
          valid = rw f.sessions h.valid;
        }

module _ {P : Type 0} (cfg : Config) (e : Environment P) (r : Reaper) (ctx : Context) (w : World P)
    (valid : IsValid w.sessions) where
  -- From a well-formed store, a tick leaves alone every session that is due neither to be stopped
  -- nor to be deleted when the tick reads the clock, whatever the platform answers and whatever
  -- happens to the others.
  pub reap_once_spares :
      (j : Text) (s : Session)
      → lookup j w.sessions ≡ some s
      → running_expired r s (e.now w.platform).1 (has_active_calls s.id w) ≡ none
      → stopped_expired s (e.now w.platform).1 r.stopped_ttl ≡ false
      → lookup j (reap_once cfg e r ctx w).0.sessions ≡ some s
  unfolding reap_once has_active_calls
  reap_once_spares j s h up down =
      (Ends-both (Holds cfg e r ctx (e.now w.platform).1 j s w.active)
        (reap_at cfg e r ctx (e.now w.platform).1 (record w { platform = (e.now w.platform).0 }))
        (reap_at-Holds cfg e r ctx (e.now w.platform).1 j s w.active up down
          (record w { platform = (e.now w.platform).0 })
          record { same = h; active = refl; valid = valid })).same

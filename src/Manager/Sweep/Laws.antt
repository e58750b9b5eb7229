-- ===== src/Manager/Sweep/Laws.antt =====
-- internal/manager/manager.go: which objects SweepOrphans purges.
use cloud_agent_sandbox.Base.{
  ℕ, ◌+◌, ◌<◌, ◌≡◌, ◌↔◌, refl, ◌∙◌, ◌⊎◌, inl, inr, some, none, ap, ◌==◌, Bool, true, false, List,
  [], ◌∷◌, Text, text_eq, if◌then◌else◌, arith, select, map, Bool-cases,
}
use cloud_agent_sandbox.Base.Int.{pos}
use cloud_agent_sandbox.Clock.{older_than_iff, max_duration}
use cloud_agent_sandbox.Config.Model.{Config}
use cloud_agent_sandbox.Session.Model.{ok, Result}
use cloud_agent_sandbox.Runtime.Model.{SandboxRef, WorkspaceRef}
use cloud_agent_sandbox.Manager.World.{
  Context, Environment, World, Step, ◌>>=◌, pure, call, call_total, store_list,
}
use cloud_agent_sandbox.Manager.World.Outcome.{bind-ok}
use cloud_agent_sandbox.Manager.World.Effects.{
  IsFrame-refl, Frames, bind-Frames, caught-Frames, call-Frames, call_total-Frames,
  store_list-Frames,
}
use cloud_agent_sandbox.Manager.Create.{release}
use cloud_agent_sandbox.Manager.Sweep.{
  contains, is_young, is_orphan_pod, is_orphan_workspace, purge_pod, purge_workspace, sweep_pods,
  sweep_workspaces, sweep, sweep_orphans,
}

-- Membership in a set of ids.
abbrev pub Has : Text → List Text → Type 0
Has id [] = ⊥
Has id (x ∷ xs) = (x ≡ id) ⊎ Has id xs

contains_iff : (id : Text) (xs : List Text) → (contains id xs ≡ true) ↔ Has id xs
unfolding contains
contains_iff id [] = ground arith
contains_iff id (x ∷ xs) = ground (arith, contains_iff id xs, text_eq.beq_iff x id)

is_orphan_pod_iff :
    (cfg : Config) (now : ℕ) (known : List Text) (p : SandboxRef) (cap : ℕ)
    → cfg.lifetime.max_lifetime ≡ pos cap
    → 0 < cap
    → cap < max_duration
    → (is_orphan_pod cfg now known p ≡ true)
      ↔ ((p.pool ≡ false) × (¬ Has p.session_id known) × (p.created_at + cap < now))
unfolding is_orphan_pod is_young
is_orphan_pod_iff cfg now known p cap c h k =
    rw c (ground (arith, contains_iff p.session_id known, older_than_iff now p.created_at cap k))

module _ {P : Type 0} (cfg : Config) (e : Environment P) where
  -- The world behind the purge of a pod of no session: the proxy of its id is released if the
  -- platform has answered no error and it has an id.
  abbrev pub behind_pod : Context → SandboxRef → World P → World P
  behind_pod ctx p w =
      let (q, r) = e.rt.purge ctx p.pod_name p.pvc_name w.platform in
      record w {
        platform = elim r [
          | some x ↦ q
          | none ↦ elim e.proxy [
            | none ↦ q
            | some a ↦ if p.session_id == [] then q else a.release ctx p.session_id q
          ]
        ];
      }

  -- The world behind the purge of a workspace, whatever the platform answers.
  abbrev pub behind_workspace : Context → WorkspaceRef → World P → World P
  behind_workspace ctx v w = record w {
    platform = (e.rt.purge ctx v.pod_name v.pvc_name w.platform).0;
  }

  -- All elements of a list, in order.
  abbrev pub behind_all : {A : Type 0} → (A → World P → World P) → List A → World P → World P
  behind_all f [] w = w
  behind_all f (x ∷ xs) w = behind_all f xs (f x w)

  purge_pod-behind :
      (ctx : Context) (p : SandboxRef) (w : World P)
      → purge_pod cfg e ctx p w ≡ (behind_pod ctx p w, ok tt)
  unfolding purge_pod release
  purge_pod-behind ctx p w = ground arith

  purge_workspace-behind :
      (ctx : Context) (v : WorkspaceRef) (w : World P)
      → purge_workspace cfg e ctx v w ≡ (behind_workspace ctx v w, ok tt)
  unfolding purge_workspace
  purge_workspace-behind ctx v w = refl

  bind_total :
      (m : Step P (Unit {0})) (f : Unit {0} → Step P (Unit {0})) (w v : World P)
      → m w ≡ (v, ok tt)
      → (m >>= f) w ≡ f tt v
  bind_total m f w v h =
      bind-ok m f w tt (ap (λ r. r.1) h) ∙ ap (λ (r : World P × Result (Unit {0})). f tt r.0) h

  sweep_pods-select :
      (ctx : Context) (now : ℕ) (known : List Text) (ps : List SandboxRef) (w : World P)
      → sweep_pods cfg e ctx now known ps w
        ≡ (behind_all (behind_pod ctx) (select (is_orphan_pod cfg now known) ps) w, ok tt)
  unfolding sweep_pods
  sweep_pods-select ctx now known [] w = refl
  sweep_pods-select ctx now known (p ∷ ps) w = elim (Bool-cases (is_orphan_pod cfg now known p)) [
    | inl o ↦ rw o (
        bind_total (purge_pod cfg e ctx p) (λ _. sweep_pods cfg e ctx now known ps) w _
          (purge_pod-behind ctx p w)
        ∙ sweep_pods-select ctx now known ps (behind_pod ctx p w))
    | inr o ↦ rw o (sweep_pods-select ctx now known ps w)
  ]

  sweep_workspaces-select :
      (ctx : Context) (now : ℕ) (known with_pod : List Text) (vs : List WorkspaceRef) (w : World P)
      → sweep_workspaces cfg e ctx now known with_pod vs w ≡ (
        behind_all
            (behind_workspace ctx)
            (select (is_orphan_workspace cfg now known with_pod) vs)
            w,
        ok tt,
      )
  unfolding sweep_workspaces
  sweep_workspaces-select ctx now known with_pod [] w = refl
  sweep_workspaces-select ctx now known with_pod (v ∷ vs) w =
      elim (Bool-cases (is_orphan_workspace cfg now known with_pod v)) [
        | inl o ↦ rw o (
            bind_total (purge_workspace cfg e ctx v)
              (λ _. sweep_workspaces cfg e ctx now known with_pod vs) w _
              (purge_workspace-behind ctx v w)
            ∙ sweep_workspaces-select ctx now known with_pod vs (behind_workspace ctx v w))
        | inr o ↦ rw o (sweep_workspaces-select ctx now known with_pod vs w)
      ]

  -- Under any answers of the platform the two loops succeed, and what they leave is the world behind
  -- one purge of each orphan of their listings, in order: they touch no other pod and no other
  -- workspace, a failed purge does not stop them, and the proxy of a pod's id is released exactly if
  -- its purge did not fail and the id is not empty.
  pub sweep-select :
      (ctx : Context) (now : ℕ) (known with_pod : List Text) (ps : List SandboxRef)
      (vs : List WorkspaceRef) (w : World P)
      → (sweep_pods cfg e ctx now known ps w
          ≡ (behind_all (behind_pod ctx) (select (is_orphan_pod cfg now known) ps) w, ok tt))
        × (sweep_workspaces cfg e ctx now known with_pod vs w ≡ (
          behind_all
              (behind_workspace ctx)
              (select (is_orphan_workspace cfg now known with_pod) vs)
              w,
          ok tt,
        ))
  sweep-select ctx now known with_pod ps vs w =
      (sweep_pods-select ctx now known ps w, sweep_workspaces-select ctx now known with_pod vs w)

  purge_pod-Frames :
      (ctx : Context) (p : SandboxRef) (w : World P) → Frames w (purge_pod cfg e ctx p w)
  unfolding purge_pod release
  purge_pod-Frames ctx p w = ground arith

  purge_workspace-Frames :
      (ctx : Context) (v : WorkspaceRef) (w : World P) → Frames w (purge_workspace cfg e ctx v w)
  unfolding purge_workspace
  purge_workspace-Frames ctx v w = ground arith

  if-Frames :
      (b : Bool) (m : Step P (Unit {0})) (w : World P)
      → Frames w (m w)
      → Frames w ((if b then m else pure tt) w)
  if-Frames true m w h = h
  if-Frames false m w h = record { holds = IsFrame-refl w }

  sweep_pods-Frames :
      (ctx : Context) (now : ℕ) (known : List Text) (ps : List SandboxRef) (w : World P)
      → Frames w (sweep_pods cfg e ctx now known ps w)
  unfolding sweep_pods
  sweep_pods-Frames ctx now known [] w = record { holds = IsFrame-refl w }
  sweep_pods-Frames ctx now known (p ∷ ps) w =
      bind-Frames (if is_orphan_pod cfg now known p then purge_pod cfg e ctx p else pure tt)
        (λ _. sweep_pods cfg e ctx now known ps) w
        (if-Frames (is_orphan_pod cfg now known p) (purge_pod cfg e ctx p) w
          (purge_pod-Frames ctx p w))
        (λ _ u. sweep_pods-Frames ctx now known ps u)

  sweep_workspaces-Frames :
      (ctx : Context) (now : ℕ) (known with_pod : List Text) (vs : List WorkspaceRef) (w : World P)
      → Frames w (sweep_workspaces cfg e ctx now known with_pod vs w)
  unfolding sweep_workspaces
  sweep_workspaces-Frames ctx now known with_pod [] w = record { holds = IsFrame-refl w }
  sweep_workspaces-Frames ctx now known with_pod (v ∷ vs) w =
      bind-Frames
        (if is_orphan_workspace cfg now known with_pod v
          then purge_workspace cfg e ctx v
          else pure tt)
        (λ _. sweep_workspaces cfg e ctx now known with_pod vs) w
        (if-Frames (is_orphan_workspace cfg now known with_pod v) (purge_workspace cfg e ctx v) w
          (purge_workspace-Frames ctx v w))
        (λ _ u. sweep_workspaces-Frames ctx now known with_pod vs u)

  -- The sweep leaves the store and the count of calls alone, whatever the platform answers.
  pub sweep_orphans-Frames : (ctx : Context) (w : World P) → Frames w (sweep_orphans cfg e ctx w)
  unfolding sweep_orphans sweep
  sweep_orphans-Frames ctx w = caught-Frames (sweep cfg e ctx) w (
      bind-Frames (call_total e.now) _ w (call_total-Frames e.now w) (λ now u.
        bind-Frames (store_list e ctx) _ u (store_list-Frames e ctx u) (λ all v.
          bind-Frames (call (e.rt.list_sandboxes ctx)) _ v (call-Frames (e.rt.list_sandboxes ctx) v)
            (λ pods z.
              bind-Frames (sweep_pods cfg e ctx now (map (λ s. s.id) all) pods) _ z
                (sweep_pods-Frames ctx now (map (λ s. s.id) all) pods z)
                (λ _ y.
                  bind-Frames (call (e.rt.list_workspaces ctx)) _ y
                    (call-Frames (e.rt.list_workspaces ctx) y)
                    (λ vs x.
                      sweep_workspaces-Frames ctx now (map (λ s. s.id) all)
                        (map (λ p. p.session_id) pods) vs x))))))

is_orphan_workspace_iff :
    (cfg : Config) (now : ℕ) (known with_pod : List Text) (v : WorkspaceRef) (ttl : ℕ)
    → cfg.lifetime.stopped_ttl ≡ pos ttl
    → 0 < ttl
    → ttl < max_duration
    → (is_orphan_workspace cfg now known with_pod v ≡ true) ↔ (
        (v.pool ≡ false)
        × (¬ Has v.session_id known)
        × (¬ Has v.session_id with_pod)
        × (v.created_at + ttl < now))
unfolding is_orphan_workspace is_young
is_orphan_workspace_iff cfg now known with_pod v ttl c h k = rw c (
    ground (
      arith,
      contains_iff v.session_id known,
      contains_iff v.session_id with_pod,
      older_than_iff now v.created_at ttl k,
    ))

-- A pod is an orphan exactly if it is not of the warm pool, no session of the store has its id, and
-- more than the cap on a lifetime has passed since it was created. A workspace is one exactly if it
-- is not of the warm pool, neither a session of the store nor a pod of the listing has its id, and
-- more than the limit on stopped sessions has passed. (Both limits are positive and below the
-- largest duration.)
pub is_orphan_iff :
    (cfg : Config) (now : ℕ) (known with_pod : List Text) (p : SandboxRef) (v : WorkspaceRef)
    (cap ttl : ℕ)
    → cfg.lifetime.max_lifetime ≡ pos cap
    → 0 < cap
    → cap < max_duration
    → cfg.lifetime.stopped_ttl ≡ pos ttl
    → 0 < ttl
    → ttl < max_duration
    → ((is_orphan_pod cfg now known p ≡ true)
        ↔ ((p.pool ≡ false) × (¬ Has p.session_id known) × (p.created_at + cap < now)))
      × ((is_orphan_workspace cfg now known with_pod v ≡ true) ↔ (
          (v.pool ≡ false)
          × (¬ Has v.session_id known)
          × (¬ Has v.session_id with_pod)
          × (v.created_at + ttl < now)))
is_orphan_iff cfg now known with_pod p v cap ttl c h k d i j = (
  is_orphan_pod_iff cfg now known p cap c h k,
  is_orphan_workspace_iff cfg now known with_pod v ttl d i j,
)

-- ===== src/Manager/Lifecycle/Clearing.antt =====
-- internal/manager/manager.go: what Clear and purgeAndForget do to the sessions.
use cloud_agent_sandbox.Base.{
  ◌≤◌, ◌≡◌, ◌≢◌, refl, ◌∙◌, ap, ◌⊎◌, inl, inr, subst, none, some, [], Text, ◌==◌, text_eq, arith,
  Bool-cases,
}
use cloud_agent_sandbox.Base.Dict.{
  lookup, remove, lookup-remove_self, lookup-remove, count-remove-le,
}
use cloud_agent_sandbox.Config.Model.{Config}
use cloud_agent_sandbox.Session.Model.{Session, invalid_session, Error, err}
use cloud_agent_sandbox.Session.Id.{canonical_id}
use cloud_agent_sandbox.Session.Store.{MemoryStore}
use cloud_agent_sandbox.Session.Store
use cloud_agent_sandbox.Session.Store.Laws.{IsValid, id-lookup, remove-IsValid}
use cloud_agent_sandbox.Manager.World.{
  Context, background, Environment, World, store_delete, call_checked, ignore,
}
use cloud_agent_sandbox.Manager.World.Outcome.{
  Ends, bind-Ends, weaken-Ends, traced-Ends, ignored-Ends,
}
use cloud_agent_sandbox.Manager.World.Effects.{Same}
use cloud_agent_sandbox.Manager.Create.{release}
use cloud_agent_sandbox.Manager.Create.Stages.{is_live, live}
use cloud_agent_sandbox.Manager.Lifecycle.{get, purge_and_forget, clear}
use cloud_agent_sandbox.Manager.Lifecycle.Laws.{get_lem}

-- The session under `id` is gone, and no other has changed.
pub record IsForgotten (id : Text) (m m' : MemoryStore) : Type 0 where
  pub gone : lookup id m' ≡ none
  pub others : (j : Text) → id ≢ j → lookup j m' ≡ lookup j m
  pub fewer : live m' ≤ live m
  pub valid : IsValid m → IsValid m'

pub remove-IsForgotten : (id : Text) (m m' : MemoryStore) → m' ≡ remove id m → IsForgotten id m m'
remove-IsForgotten id m m' h = rw h record {
  gone = lookup-remove_self id m;
  others = λ j n. rw lookup-remove (ground (arith, text_eq.beq_iff id j));
  fewer = count-remove-le is_live id m;
  valid = remove-IsValid id m;
}

module _ {P : Type 0} (cfg : Config) (e : Environment P) where
  -- Under a context that is not cancelled the record is gone, whatever the platform answers.
  pub forget_lem :
      (s t : Session) (w : World P)
      → lookup s.id w.sessions ≡ some t
      → Ends
          (purge_and_forget cfg e background s w)
          (λ v _. v.sessions ≡ remove s.id w.sessions)
          (λ v x. ⊥)
  unfolding purge_and_forget release store_delete Store.delete
  forget_lem s t w h = ground arith

  -- The deletion of a session from the store, ending in this world with an error.
  abbrev pub Kept : Context → Text → World P → Type 0
  Kept ctx id v = (z : World P) × (x : Error) × (store_delete e ctx id z ≡ (v, err x))

  delete_lem :
      (ctx : Context) (id : Text) (w : World P)
      → Ends (store_delete e ctx id w) (λ v _. v.sessions ≡ remove id w.sessions) (λ v x. Same w v)
  unfolding store_delete Store.delete
  delete_lem ctx id w = ground arith

  release_total :
      (ctx : Context) (id : Text) (w : World P)
      → Ends (release cfg e ctx id w) (λ v _. Same w v) (λ v x. ⊥)
  unfolding release
  release_total ctx id w = ground arith

  forget_any_lem :
      (ctx : Context) (s : Session) (w : World P)
      → Ends
          (purge_and_forget cfg e ctx s w)
          (λ v _. (Same w v × Kept ctx s.id v) ⊎ (v.sessions ≡ remove s.id w.sessions))
          (λ v x. ⊥)
  unfolding purge_and_forget
  forget_any_lem ctx s w =
      bind-Ends (λ u _. Same w u) (ignore (call_checked (e.rt.purge ctx s.pod_name s.pvc_name))) _ w
        record { holds = refl }
        (λ _ u q.
          bind-Ends (λ z _. Same u z) (release cfg e ctx s.id) _ u (release_total ctx s.id u)
            (λ _ z k.
              weaken-Ends _ (ignored-Ends _ (traced-Ends _ (delete_lem ctx s.id z)))
                (λ _ v. elim [
                  | inl d ↦ inr (d ∙ ap (remove s.id) (k ∙ q))
                  | inr (x, (d, t)) ↦ inl (d ∙ k ∙ q, (z, x, t))
                ])
                (λ x v h. h)))

  module _ (ctx : Context) (ref : Text) (w : World P) (valid : IsValid w.sessions) where
    abbrev pub ref_id : Text
    ref_id = canonical_id e.sha256 ref

    abbrev pub Cleared : World P → Type 0
    Cleared v =
        (ref ≢ [])
        × (lookup ref_id w.sessions ≢ none)
        × ((Same w v × Kept ctx ref_id v) ⊎ IsForgotten ref_id w.sessions v.sessions)

    cleared :
        (s : Session) (u v : World P)
        → ref ≢ []
        → Same w u
        → lookup ref_id w.sessions ≡ some s
        → (Same u v × Kept ctx s.id v) ⊎ (v.sessions ≡ remove s.id u.sessions)
        → Cleared v
    cleared s u v n q h (inl k) = (
      n,
      λ i. cc,
      inl (k.0 ∙ q, subst (λ i. Kept ctx i v) (id-lookup ref_id w.sessions s valid h) k.1),
    )
    cleared s u v n q h (inr k) = (
      n,
      λ i. cc,
      inr (
          remove-IsForgotten ref_id w.sessions v.sessions (
            k
            ∙ ap (remove s.id) q
            ∙ ap (λ i. remove i w.sessions) (id-lookup ref_id w.sessions s valid h))),
    )

    -- From a well-formed store, Clear succeeds only for a reference that is not empty and whose
    -- session is known. The session is then gone from the store, with all others kept,
    -- unless the store ended its deletion with an error, and has not changed at all. Clear fails only with the error for an invalid session, and
    -- then the store has not changed.
    pub clear-Cleared :
        Ends (clear cfg e ctx ref w) (λ v _. Cleared v) (λ v x. Same w v × (x ≡ invalid_session))
    unfolding clear
    clear-Cleared = elim (Bool-cases (ref == [])) [
      | inl r ↦ rw (r, clear) record { holds = (refl, refl) }
      | inr r ↦
          rw (r, clear)
            (bind-Ends _ (get cfg e ctx ref_id) (purge_and_forget cfg e ctx) w
              (weaken-Ends _ (get_lem cfg e ctx ref_id w) (λ s u q. q) (λ x u q. q))
              (λ s u q.
                weaken-Ends _ (forget_any_lem ctx s u)
                  (λ _ v k. cleared s u v (ground (arith, text_eq.beq_iff ref [])) q.0 q.1 k)
                  (λ x v k. absurd k)))
    ]

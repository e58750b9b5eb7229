-- ===== src/Tests/Manager.antt =====
-- The operations of the Manager at concrete inputs.
use cloud_agent_sandbox.Base.{
  Text, ◌+◌, ◌*◌, arith, ◌<◌, ◌≡◌, ◌≢◌, ◌↔◌, ℕ, refl, subst, list_beq, true, false, some, List, [],
  ◌∷◌, bytes, select,
}
use cloud_agent_sandbox.Base.Dict.{lookup, count}
use cloud_agent_sandbox.Config.Model.{default, hour}
use cloud_agent_sandbox.Session.Model.{running, dead, Session, invalid_session, ok}
use cloud_agent_sandbox.Session.Store.Laws.{IsValid}
use cloud_agent_sandbox.Manager.World.{Context, Assignment, ProxyAssigner, request}
use cloud_agent_sandbox.Manager.World.Outcome.{Ends}
use cloud_agent_sandbox.Manager.World.Effects.{Same}
use cloud_agent_sandbox.Manager.Create.{create}
use cloud_agent_sandbox.Manager.Create.Success.{Serves, create_succeeds}
use cloud_agent_sandbox.Manager.Create.Laws.{IsCreated, IsNotCreated, create-IsCreated}
use cloud_agent_sandbox.Manager.Lifecycle.{stop, delete, resume, clear}
use cloud_agent_sandbox.Manager.Lifecycle.Laws.{
  IsReplaced, Stopped, stop-Stopped, delete-IsReplaced,
}
use cloud_agent_sandbox.Manager.Lifecycle.Resuming.{Resumed, NotResumed, resume-Resumed}
use cloud_agent_sandbox.Manager.Lifecycle.Clearing.{Cleared, clear-Cleared}
use cloud_agent_sandbox.Manager.Ensure.{ensure_session}
use cloud_agent_sandbox.Manager.Ensure.Laws.{IsEnsured, ensure_session-IsEnsured}
use cloud_agent_sandbox.Manager.Activity.{has_active_calls, calls_of}
use cloud_agent_sandbox.Manager.Activity.Laws.{
  Event, begins, ends, begun, ended, has_active_calls-run,
}
use cloud_agent_sandbox.Manager.Activity.Laws
use cloud_agent_sandbox.Manager.Sweep.{
  is_orphan_pod, is_orphan_workspace, sweep_pods, sweep_workspaces,
}
use cloud_agent_sandbox.Manager.Sweep.Laws.{
  Has, is_orphan_iff, sweep-select, behind_pod, behind_workspace, behind_all,
}
use cloud_agent_sandbox.Tests.Platform.{
  handle, assigner, assignment, platform, agent, up, down, two_sessions, world, old_pod,
  old_workspace,
}
use cloud_agent_sandbox.Tests.Store.{two_sessions-IsValid}

create-IsCreated_example :
    Ends
      (create default platform request agent world)
      (λ v s. IsCreated default platform.sha256 agent two_sessions v.sessions s)
      (λ v x. IsNotCreated two_sessions v.sessions)
create-IsCreated_example = create-IsCreated default platform request agent world

stop-Stopped_example :
    Ends
      (stop default platform request up world)
      (λ v _.
        (s : Session) × (lookup up two_sessions ≡ some s)
        × Stopped default platform request up world two_sessions-IsValid s v)
      (λ v x. Same world v)
stop-Stopped_example = stop-Stopped default platform request up world two_sessions-IsValid

delete-IsReplaced_example :
    Ends
      (delete default platform request down world)
      (λ v _. (s : Session) × IsReplaced down s (record s { state = dead }) two_sessions v.sessions)
      (λ v x. Same world v)
delete-IsReplaced_example =
    delete-IsReplaced default platform request down world two_sessions-IsValid

resume-Resumed_example :
    Ends
      (resume default platform request down world)
      (λ v t.
        (t.state ≡ running)
        × ((s : Session) × (lookup down two_sessions ≡ some s)
            × Resumed default platform request down world two_sessions-IsValid s v t))
      (NotResumed default platform request down world two_sessions-IsValid)
resume-Resumed_example = resume-Resumed default platform request down world two_sessions-IsValid

-- Two calls of one session begin and one ends, with a call of another between them.
abbrev calls : List Event
calls =
    begins request up
    ∷ begins request down
    ∷ begins request up
    ∷ ends request down
    ∷ ends request up
    ∷ []

has_active_calls-run_example :
    (has_active_calls up (Laws.run platform calls world) ≡ true) ↔ (ended up calls < begun up calls)
unfolding calls_of lookup list_beq
has_active_calls-run_example = has_active_calls-run platform up calls world refl (omega arith, tt)

is_orphan_iff_example :
    ((is_orphan_pod default (48 * hour) (up ∷ down ∷ []) old_pod ≡ true) ↔ (
      (old_pod.pool ≡ false)
      × (¬ Has old_pod.session_id (up ∷ down ∷ []))
      × (old_pod.created_at + hour < 48 * hour)))
    × ((is_orphan_workspace default (48 * hour) (up ∷ down ∷ []) (bytes "gone" ∷ []) old_workspace
          ≡ true)
        ↔ ((old_workspace.pool ≡ false)
            × (¬ Has old_workspace.session_id (up ∷ down ∷ []))
            × (¬ Has old_workspace.session_id (bytes "gone" ∷ []))
            × (old_workspace.created_at + 24 * hour < 48 * hour)))
unfolding default
is_orphan_iff_example =
    is_orphan_iff default (48 * hour) (up ∷ down ∷ []) (bytes "gone" ∷ []) old_pod old_workspace
      hour (24 * hour) refl (omega arith) (omega arith) refl (omega arith) (omega arith)

sweep-select_example :
    (sweep_pods default platform request (48 * hour) (up ∷ []) (old_pod ∷ old_pod ∷ []) world ≡ (
      behind_all default platform
          (behind_pod default platform request)
          (select (is_orphan_pod default (48 * hour) (up ∷ [])) (old_pod ∷ old_pod ∷ []))
          world,
      ok tt,
    ))
    × (sweep_workspaces default platform request (48 * hour) (up ∷ []) [] (old_workspace ∷ []) world
        ≡ (
          behind_all default platform
              (behind_workspace default platform request)
              (select (is_orphan_workspace default (48 * hour) (up ∷ []) []) (old_workspace ∷ []))
              world,
          ok tt,
        ))
sweep-select_example =
    sweep-select default platform request (48 * hour) (up ∷ []) [] (old_pod ∷ old_pod ∷ [])
      (old_workspace ∷ []) world

clear-Cleared_example :
    Ends
      (clear default platform request agent.ref world)
      (λ v _. Cleared default platform request agent.ref world two_sessions-IsValid v)
      (λ v x. Same world v × (x ≡ invalid_session))
clear-Cleared_example = clear-Cleared default platform request agent.ref world two_sessions-IsValid

agent_named : agent.ref ≢ []
agent_named h = cc h

ensure_session-IsEnsured_example :
    Ends
      (ensure_session default platform request agent true world)
      (λ v s.
        IsEnsured default platform request agent true world two_sessions-IsValid agent_named v s)
      (λ v x. IsValid v.sessions)
ensure_session-IsEnsured_example =
    ensure_session-IsEnsured default platform request agent true world two_sessions-IsValid
      agent_named

assigned :
    (x : ProxyAssigner ℕ) (c : Context) (i : Text) (p : ℕ)
    → assigner ≡ x
    → (a : Assignment) × ((x.assign c i p).1 ≡ ok a)
assigned x c i p h =
    subst (λ y. (a : Assignment) × ((y.assign c i p).1 ≡ ok a)) h (assignment, refl)

platform-Serves : Serves platform
platform-Serves = record {
  alive = λ p. refl;
  creates = λ c s p. (handle, refl);
  readies = λ c n t p. refl;
  assigns = λ x h c i p. assigned x c i p cc;
  scales = λ f h c p. absurd (ground (arith, h));
}

create_succeeds_example :
    (s : Session) × ((create default platform request agent (record world { sessions = [] })).1
      ≡ ok s)
    × IsCreated default platform.sha256 agent []
        (create default platform request agent (record world { sessions = [] })).0.sessions
        s
unfolding default lookup count
create_succeeds_example =
    create_succeeds default platform platform-Serves request agent (record world { sessions = [] })
      (omega arith) agent_named refl

-- ===== src/Tests/Store.antt =====
-- The session store and the configuration at concrete inputs.
use cloud_agent_sandbox.Base.{◌≡◌, refl, none, some, List, [], ◌∷◌}
use cloud_agent_sandbox.Base.Dict.{lookup}
use cloud_agent_sandbox.Session.Model.{running, stopped, state_eq}
use cloud_agent_sandbox.Session.Store.Laws.{IsValid, insert-IsValid}
use cloud_agent_sandbox.Session.Store.Spec.{
  Call, creates, updates, gets, deletes, touches, run, spec_run, view, run-refines,
}
use cloud_agent_sandbox.Tests.Platform.{session_in, up, down, two_sessions}

pub no_sessions-IsValid : IsValid []
unfolding lookup
no_sessions-IsValid = record { unique = tt; under_id = tt; named = refl }

pub two_sessions-IsValid : IsValid two_sessions
two_sessions-IsValid =
    insert-IsValid (session_in up running) _ (λ h. cc h)
      (insert-IsValid (session_in down stopped) [] (λ h. cc h) no_sessions-IsValid)

-- A creation, its repetition, a stop of it, and a look-up of another id.
abbrev history : List Call
history =
    creates none (some (session_in up running))
    ∷ creates none (some (session_in up stopped))
    ∷ updates none (some (session_in up stopped))
    ∷ gets none up
    ∷ touches none 7 down
    ∷ deletes none up
    ∷ []

run-refines_example :
    ((run history two_sessions).1 ≡ (spec_run history (view two_sessions)).1)
    × (view (run history two_sessions).0 ≡ (spec_run history (view two_sessions)).0)
run-refines_example = run-refines history two_sessions

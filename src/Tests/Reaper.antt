-- ===== src/Tests/Reaper.antt =====
-- One tick of the Reaper at concrete inputs.
use cloud_agent_sandbox.Base.{
  ◌*◌, ◌≡◌, ◌≢◌, ◌↔◌, ◌⊎◌, ◌+◌, ◌<◌, true, false, none, arith, refl, list_beq, some,
}
use cloud_agent_sandbox.Base.Dict.{lookup, insert}
use cloud_agent_sandbox.Base.Int.{pos}
use cloud_agent_sandbox.Clock.{older_than, time_sub}
use cloud_agent_sandbox.Config.Model.{default, hour, minute}
use cloud_agent_sandbox.Session.Model.{running, stopped}
use cloud_agent_sandbox.Manager.World.{request}
use cloud_agent_sandbox.Manager.Activity.{has_active_calls, calls_of}
use cloud_agent_sandbox.Reaper.{Reaper, running_expired, stopped_expired, reap_once}
use cloud_agent_sandbox.Reaper.Laws.{reap_once_spares, running_expired-stopped_expired}
use cloud_agent_sandbox.Tests.Platform.{platform, session_in, up, world}
use cloud_agent_sandbox.Tests.Store.{two_sessions-IsValid}

abbrev reaper : Reaper
reaper = record {
  running_ttl = pos (10 * minute);
  max_lifetime = pos (2 * hour);
  stopped_ttl = pos (24 * hour);
  reap_interval = pos minute;
}

reap_once_spares_example :
    lookup up (reap_once default platform reaper request world).0.sessions
    ≡ some (session_in up running)
unfolding list_beq lookup insert running_expired stopped_expired older_than time_sub
    has_active_calls calls_of
reap_once_spares_example =
    reap_once_spares default platform reaper request world two_sessions-IsValid up
      (session_in up running) refl refl refl

running_expired-stopped_expired_example :
    ((running_expired reaper (session_in up running) (3 * hour) true ≢ none) ↔ (
      (running ≡ running)
      × (((session_in up running).created_at + 2 * hour < 3 * hour)
          ⊎ (((session_in up running).last_activity_at + 10 * minute < 3 * hour)
              × (true ≡ false)))))
    × ((stopped_expired (session_in up running) (3 * hour) (pos (24 * hour)) ≡ true)
        ↔ ((running ≡ stopped) × ((session_in up running).stopped_at + 24 * hour < 3 * hour)))
running_expired-stopped_expired_example =
    running_expired-stopped_expired reaper (session_in up running) (3 * hour) true (2 * hour)
      (10 * minute) (24 * hour) refl refl refl (omega arith) (omega arith) (omega arith)
      (omega arith)

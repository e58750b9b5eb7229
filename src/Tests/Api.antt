-- ===== src/Tests/Api.antt =====
-- A listing over HTTP at a small platform.
use cloud_agent_sandbox.Base.{◌≡◌, none, bytes}
use cloud_agent_sandbox.Config.Model.{default}
use cloud_agent_sandbox.Api.{Request, route}
use cloud_agent_sandbox.Api.Laws.{route_safe}
use cloud_agent_sandbox.Tests.Platform.{platform, world}

abbrev listing : Request
listing = record { method = bytes "GET"; path = bytes "/sessions/"; body = none }

route_safe_example : (route default platform listing world).0.sessions ≡ world.sessions
route_safe_example = route_safe default platform listing world (λ p. cc) (λ p. cc)

-- ===== src/Tests/Mcp.antt =====
-- A tool call at a small platform, for a session that runs.
use cloud_agent_sandbox.Base.{List, Text, arith, ℕ, ◌≡◌, false, none, some, [], ◌∷◌, bytes}
use cloud_agent_sandbox.Base.Int.{pos}
use cloud_agent_sandbox.Session.Model.{ok}
use cloud_agent_sandbox.Config.Model.{default}
use cloud_agent_sandbox.Manager.Activity.{calls_of}
use cloud_agent_sandbox.Exec.Remote.{Remote, finished}
use cloud_agent_sandbox.Mcp.Model.{Identity, Server, identified}
use cloud_agent_sandbox.Mcp.Tools.{Arguments, Waiting, shell, resolve, handle}
use cloud_agent_sandbox.Mcp.Tools.Laws.{handle_balanced}
use cloud_agent_sandbox.Mcp.Entry.{Gate, is_in}
use cloud_agent_sandbox.Mcp.Entry.Laws.{Event, arrives, ends, pending, IsOnce, run, run-IsOnce}
use cloud_agent_sandbox.Tests.Platform.{platform, world}

abbrev remote : Remote ℕ
remote = record {
  stream = λ limit pod argv stdin p.
      (p, record { out = bytes "ok\n" ∷ []; err_out = []; end = finished });
  expired = λ limit p. (p, false);
  now = λ p. (p, p);
  new_uuid = λ p. (p, bytes "a1");
}

abbrev pub arguments : Arguments
arguments = record {
  text = λ k. ok (bytes "make");
  text_or = λ k. [];
  flag = λ k. false;
  flag_or_nil = λ k. none;
  number = λ k. ok (pos 1);
  timeout = pos 0;
  view_range = none;
}

abbrev waiting : Waiting ℕ
waiting = record { pause = λ p. (p, false); over = λ p. (p, false) }

abbrev caller : Identity
caller = record { ref = bytes "agent one"; org_id = []; user_id = [] }

abbrev server : Server ℕ
server = record { manager = world; jobs = [] }

handle_balanced_example :
    calls_of
      (bytes "sb-up")
      (handle default platform remote shell waiting 5 arguments
        (some caller)
        server).0.manager.active
    ≡ calls_of
        (bytes "sb-up")
        (resolve default platform remote (identified (some caller)) server).0.manager.active
handle_balanced_example =
    handle_balanced default platform remote shell waiting 5 arguments (some caller) server
      (bytes "sb-up")

-- Two requests of one caller, the end of a load and another request.
abbrev header : Text → Text
header name = bytes "agent"

abbrev arrivals : List Event
arrivals = arrives header ∷ arrives header ∷ ends 0 ∷ arrives header ∷ []

abbrev gate : Gate ℕ
gate = record { server = server; eager = []; loads = [] }

nothing_pending : IsOnce default platform gate
unfolding IsOnce pending is_in
nothing_pending j = omega arith

run-IsOnce_example : IsOnce default platform (run default platform arrivals gate)
run-IsOnce_example = run-IsOnce default platform arrivals gate nothing_pending

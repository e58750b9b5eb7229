-- ===== src/Mcp/Model.antt =====
-- internal/mcp/server.go: the state that the tools work on, and their results. A tool result that is
-- an error is the error of a step.
use cloud_agent_sandbox.Base.{
  Bool, Option, none, some, [], ◌++◌, Text, bytes, ◌==◌, nat_eq, text_eq, if◌then◌else◌,
}
use cloud_agent_sandbox.Base.Dict.{Dict}
use cloud_agent_sandbox.Session.Model.{
  CreateOptions, Error, message, wrap, is_invalid_session, Result,
}
use cloud_agent_sandbox.Manager.World.{World}
use cloud_agent_sandbox.Exec.Model.{Job, RunResult}
use cloud_agent_sandbox.Exec.Remote.{Executor}
use cloud_agent_sandbox.Exec.Jobs.{itoa}
use cloud_agent_sandbox.Steps.{Step}

-- identity
pub record Identity : Type 0 where
  pub ref : Text
  pub org_id : Text
  pub user_id : Text

-- The Manager's state and the executor's table of jobs; both work on one platform.
pub record Server (P : Type 0) : Type 0 where
  pub manager : World P
  pub jobs : Dict Job

module _ {P : Type 0} where
  abbrev pub lift_manager : {A : Type 0} → (World P → World P × Result A) → Step (Server P) A
  lift_manager m s = (record s { manager = (m s.manager).0 }, (m s.manager).1)

  abbrev pub executor : Server P → Executor P
  executor s = record { platform = s.manager.platform; jobs = s.jobs }

  abbrev pub lift_exec : {A : Type 0} → Step (Executor P) A → Step (Server P) A
  lift_exec x s =
      let v = (x (executor s)).0 in
      (
        record s { manager = record s.manager { platform = v.platform }; jobs = v.jobs },
        (x (executor s)).1,
      )

unfoldable pub missing_session : Error
missing_session =
    message (bytes "missing X-Session-Id header: every request must carry a session id")

-- The result for an error of EnsureSession.
unfoldable pub ensure_failure : Error → Error
ensure_failure e =
    if is_invalid_session e
    then message (bytes "invalid session")
    else wrap (bytes "ensure session: ") e

abbrev pub options_of : Identity → Text → Bool → Option Bool → Option Bool → CreateOptions
options_of id image use_kata writable root = record {
  ref = id.ref;
  org_id = id.org_id;
  user_id = id.user_id;
  image = image;
  proxy_group = [];
  use_kata = use_kata;
  writable_root = writable;
  run_as_root = root;
}

-- identityFromCtx
unfoldable pub identified : Option Identity → Option Identity
identified none = none
identified (some id) = if id.ref == [] then none else some id

-- %t
unfoldable pub show_bool : Bool → Text
show_bool b = if b then bytes "true" else bytes "false"

-- formatRunResult
unfoldable pub format_run_result : RunResult → Text
format_run_result res =
    bytes "exit_code: "
    ++ itoa res.exit_code
    ++ bytes "\n"
    ++ (if res.timed_out then bytes "timed_out: true\n" else [])
    ++ (if res.truncated then bytes "truncated: true\n" else [])
    ++ bytes "stdout:\n---\n"
    ++ res.stdout
    ++ bytes "\n---\nstderr:\n---\n"
    ++ res.stderr
    ++ bytes "\n---"

-- formatJobPoll; a nil job is `none`.
unfoldable pub format_job_poll : Option Job → Text → Text
format_job_poll none out = bytes "job: unknown\noutput:\n---\n" ++ out ++ bytes "\n---"
format_job_poll (some j) out =
    bytes "job_id: "
    ++ j.id
    ++ bytes "\nrunning: "
    ++ show_bool j.running
    ++ bytes "\n"
    ++ (if j.running then [] else bytes "exit_code: " ++ itoa j.exit_code ++ bytes "\n")
    ++ bytes "output:\n---\n"
    ++ out
    ++ bytes "\n---"

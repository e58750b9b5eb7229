-- ===== src/Exec/Remote.antt =====
-- internal/exec/kubeexec.go: the executor, the streams that it opens and the synchronous run. The
-- exec subresource of a pod, the clock and the UUIDs are an environment with a state `P`, which
-- every call may change.
use cloud_agent_sandbox.Base.{
  ℕ, zero, suc, Bool, ◌||◌, Option, none, some, List, [], ◌∷◌, Text, bytes, ◌==◌, nat_eq, text_eq,
  if◌then◌else◌,
}
use cloud_agent_sandbox.Base.Dict.{Dict}
use cloud_agent_sandbox.Base.Int.{ℤ, pos, negsuc}
use cloud_agent_sandbox.Session.Model.{Error, message, Result, ok, err}
use cloud_agent_sandbox.Steps.{Step, ◌>>=◌, pure, from}
use cloud_agent_sandbox.Exec.Model.{
  Command, RunResult, Job, default_run_timeout, command_output_limit,
}
use cloud_agent_sandbox.Exec.Shell.{command_argv}
use cloud_agent_sandbox.Exec.Buffers.{CapBuffer, new_cap_buffer, cap_write}

-- How a stream ends: without an error, with an exit status of the command, or with another error.
pub data End : Type 0 where
  finished : End
  exited : ℤ → End
  broken : Error → End

-- What a stream has brought: the writes to each of its two outputs.
pub record Streamed : Type 0 where
  pub out : List Text
  pub err_out : List Text
  pub end : End

-- `stream` opens a connection under a timeout, or under the request's own context, and runs it to
-- its end. `expired` says whether the deadline of that context has passed by now.
pub record Remote (P : Type 0) : Type 0 where
  pub stream : Option ℤ → Text → List Text → Option Text → P → P × Streamed
  pub expired : Option ℤ → P → P × Bool
  pub now : P → P × ℕ
  pub new_uuid : P → P × Text

-- KubeExecutor, with the state of its environment.
pub record Executor (P : Type 0) : Type 0 where
  pub platform : P
  pub jobs : Dict Job

unfoldable pub unsent : Text → Streamed
unsent reason = record { out = []; err_out = []; end = broken (message reason) }

-- exitStatus
unfoldable pub exit_status : End → Option ℤ
exit_status finished = none
exit_status (exited n) = some n
exit_status (broken e) = none

-- The writes of a stream into a fresh capBuffer.
unfoldable pub capped_from : List Text → CapBuffer → CapBuffer
capped_from [] b = b
capped_from (p ∷ ps) b = capped_from ps (cap_write p b)

unfoldable pub capped : ℕ → List Text → CapBuffer
unfolding capped_from
capped limit ps = capped_from ps (new_cap_buffer limit)

module _ {P : Type 0} where
  -- A call of the environment.
  abbrev pub timed : {A : Type 0} → (P → P × A) → Step (Executor P) A
  timed f x = let (p, a) = f x.platform in (record x { platform = p }, ok a)

module _ {P : Type 0} (r : Remote P) where
  -- KubeExecutor.stream, for an executor that is configured.
  unfoldable pub stream : Option ℤ → Text → List Text → Option Text → Step (Executor P) Streamed
  unfolding unsent
  stream limit pod [] stdin =
      if pod == []
      then pure (unsent (bytes "pod name is required"))
      else pure (unsent (bytes "command argv is required"))
  stream limit pod (a ∷ argv) stdin =
      if pod == []
      then pure (unsent (bytes "pod name is required"))
      else timed (r.stream limit pod (a ∷ argv) stdin)

  unfoldable pub run_timeout : ℤ → ℤ
  run_timeout (pos zero) = pos default_run_timeout
  run_timeout (pos (suc n)) = pos (suc n)
  run_timeout (negsuc n) = negsuc n

  abbrev result_of : Streamed → Bool → ℤ → RunResult
  result_of s late code =
      let out = capped command_output_limit s.out in
      let err_out = capped command_output_limit s.err_out in
      record {
        stdout = out.buf;
        stderr = err_out.buf;
        exit_code = code;
        timed_out = late;
        truncated = out.truncated || err_out.truncated;
      }

  -- The last part of Run: the classification of the stream's error.
  unfoldable pub classify : Streamed → Bool → Result RunResult
  unfolding capped
  classify s late = elim s.end [
    | finished ↦ ok (result_of s late (pos 0))
    | exited n ↦ ok (result_of s late n)
    | broken e ↦ if late then ok (result_of s late (pos 0)) else err e
  ]

  -- Run
  unfoldable pub run : Command → Step (Executor P) RunResult
  unfolding run_timeout
  run cmd = do
    argv ← from (command_argv cmd)
    s ← stream (some (run_timeout cmd.timeout)) cmd.pod_name argv cmd.stdin
    late ← timed (r.expired (some (run_timeout cmd.timeout)))
    from (classify s late)

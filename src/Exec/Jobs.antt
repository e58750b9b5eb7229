-- ===== src/Exec/Jobs.antt =====
-- internal/exec/kubeexec.go: background jobs. The table of jobs is under a mutex; each section that
-- holds it is one atomic step.
pub mod Laws
pub mod Starting
pub mod Table
use cloud_agent_sandbox.Base.{
  ℕ, suc, ◌*◌, Bool, true, false, not, ◌&&◌, ◌||◌, Option, none, some, List, [], ◌∷◌, ◌++◌, Text,
  bytes, ◌==◌, nat_eq, text_eq, eqb, select, if◌then◌else◌,
}
use cloud_agent_sandbox.Base.Dict.{Dict, lookup, insert}
use cloud_agent_sandbox.Base.Int.{ℤ, pos, negsuc}
use cloud_agent_sandbox.Clock.{older_than}
use cloud_agent_sandbox.Config.Model.{second}
use cloud_agent_sandbox.Edit.{decimal}
use cloud_agent_sandbox.Session.Model.{Error, message, Result, ok, err}
use cloud_agent_sandbox.Steps.{Step, ◌>>=◌, ◌>>◌, pure, fail, from, ignore}
use cloud_agent_sandbox.Exec.Model.{
  Command, RunResult, Job, job_retention, job_hard_ttl, job_log_limit, command_output_limit,
}
use cloud_agent_sandbox.Exec.Shell.{shell_quote, shell_argv, command_line}
use cloud_agent_sandbox.Exec.Buffers.{TailBuffer, new_tail_buffer, tail_write}
use cloud_agent_sandbox.Exec.Output.{parse_pid, sentinel}
use cloud_agent_sandbox.Exec.Remote.{
  Streamed, End, finished, exited, broken, Remote, Executor, exit_status, timed, stream, run,
}

-- strconv.Itoa
unfoldable pub itoa : ℤ → Text
itoa (pos n) = decimal n
itoa (negsuc n) = bytes "-" ++ decimal (suc n)

-- The test of reapJobsLocked for one job.
unfoldable pub is_evicted : ℕ → Job → Bool
is_evicted now j =
    not (eqb j.finished_at 0) && older_than now j.finished_at (pos job_retention)
    || older_than now j.started_at (pos job_hard_ttl)

-- reapJobsLocked
unfoldable pub reap_jobs : ℕ → Dict Job → Dict Job
reap_jobs now = select (λ e. not (is_evicted now e.1))

-- lookupJob over the table.
unfoldable pub lookup_job : Text → Text → Dict Job → Result Job
lookup_job pod id jobs =
    if id == [] then err (message (bytes "job id is required")) else elim (lookup id jobs) [
      | none ↦ err (message (bytes "unknown job "))
      | some j ↦
          if not (pod == []) && not (pod == j.pod_name) then err (message (bytes "job ")) else ok j
    ]

-- A command without input in a shell of the pod.
unfoldable pub in_shell : Text → Text → ℤ → Command
in_shell pod line timeout = record {
  pod_name = pod;
  argv = [];
  line = line;
  cwd = [];
  timeout = timeout;
  stdin = none;
}

abbrev short : ℤ
short = pos (5 * second)

-- The line that starts a job in the background and prints its process id.
unfoldable pub launcher : Text → Text → Text → Text
launcher line log_file rc_file =
    let inner =
      bytes "( "
      ++ line
      ++ bytes " ) > "
      ++ shell_quote log_file
      ++ bytes " 2>&1; echo $? > "
      ++ shell_quote rc_file in
    bytes "nohup /bin/sh -lc " ++ shell_quote inner ++ bytes " >/dev/null 2>&1 & echo $!"

unfoldable pub new_job : Text → Text → ℤ → ℕ → Job
new_job id pod pid now = record {
  id = id;
  pod_name = pod;
  pid = pid;
  log_file = bytes "/tmp/job-" ++ id ++ bytes ".log";
  rc_file = bytes "/tmp/job-" ++ id ++ bytes ".rc";
  running = true;
  exit_code = pos 0;
  started_at = now;
  finished_at = 0;
}

-- The script of processAlive.
unfoldable pub alive_script : ℤ → Text
alive_script pid =
    bytes "if [ ! -e /proc/"
    ++ itoa pid
    ++ bytes "/status ]; then exit 1; fi; if grep -qE '^State:[[:space:]]*Z' /proc/"
    ++ itoa pid
    ++ bytes "/status; then exit 1; fi; exit 0"

unfoldable pub tailed_from : List Text → TailBuffer → TailBuffer
tailed_from [] b = b
tailed_from (p ∷ ps) b = tailed_from ps (tail_write p b)

-- The check of an exit code that must be 0.
unfoldable pub succeeded : Text → RunResult → Result (Unit {0})
succeeded what res = elim res.exit_code [
  | pos n ↦ if eqb n 0 then ok tt else err (message what)
  | negsuc n ↦ err (message what)
]

unfoldable pub exited_zero : ℤ → Bool
exited_zero (pos n) = eqb n 0
exited_zero (negsuc n) = false

module _ {P : Type 0} (r : Remote P) where
  -- `e.jobs[id] = cloneJob(job)`
  unfoldable pub put_job : Job → Step (Executor P) (Unit {0})
  put_job j x = (record x { jobs = insert j.id j x.jobs }, ok tt)

  -- The locked section of StartJob; the clock is read once for the job and once for the sweep.
  unfoldable pub register : Text → Text → ℤ → Step (Executor P) Job
  register id pod pid x =
      let (p, started) = r.now x.platform in
      let (q, now) = r.now p in
      let j = new_job id pod pid started in
      (record x { platform = q; jobs = insert id j (reap_jobs now x.jobs) }, ok j)

  -- StartJob behind the run of the launcher.
  unfoldable pub adopt : Text → Text → RunResult → Step (Executor P) Job
  adopt pod id out = do
    from (succeeded (bytes "start job failed with exit ") out)
    pid ← from (parse_pid out.stdout)
    register id pod pid

  -- StartJob, once the line and the id are known.
  unfoldable pub launch : Command → Text → Text → Step (Executor P) Job
  launch cmd line id = do
    let files = new_job id cmd.pod_name (pos 0) 0
    out ← run r (in_shell cmd.pod_name (launcher line files.log_file files.rc_file) cmd.timeout)
    adopt cmd.pod_name id out

  -- StartJob
  unfoldable pub start_job : Command → Step (Executor P) Job
  start_job cmd = do line ← from (command_line cmd); id ← timed r.new_uuid; launch cmd line id

  -- lookupJob
  unfoldable pub find_job : Text → Text → Step (Executor P) Job
  find_job pod id x = (x, lookup_job pod id x.jobs)

  -- readExitCode
  unfoldable pub read_exit_code : Text → Text → Step (Executor P) (Option ℤ)
  read_exit_code pod rc_file = if rc_file == [] then pure none else do
    res ←
        run r
          (in_shell pod (bytes "cat " ++ shell_quote rc_file ++ bytes " 2>/dev/null || true") short)
    pure (sentinel res.stdout)

  -- processAlive
  unfoldable pub process_alive : Text → ℤ → Step (Executor P) Bool
  process_alive pod pid = do
    res ← run r (in_shell pod (alive_script pid) short)
    pure (exited_zero res.exit_code)

  -- What readJobLog gives of the stream.
  unfoldable pub log_of : Streamed → Result Text
  log_of s = elim s.end [
    | finished ↦ ok (tailed_from s.out (new_tail_buffer job_log_limit)).buf
    | exited n ↦ err (message (bytes "read job log failed with exit "))
    | broken e ↦ err e
  ]

  -- readJobLog
  unfoldable pub read_job_log : Text → Text → Step (Executor P) Text
  read_job_log pod log_file = do
    s ←
        stream r none pod
          (shell_argv (bytes "cat " ++ shell_quote log_file ++ bytes " 2>/dev/null || true")) none
    from (log_of s)

  -- `if job.FinishedAt.IsZero() { job.FinishedAt = time.Now() }`
  unfoldable pub finish_at : Job → Step (Executor P) Job
  finish_at j =
      if eqb j.finished_at 0
      then (do now ← timed r.now; pure (record j { finished_at = now }))
      else pure j

  -- The status without a sentinel.
  unfoldable pub settle : Job → Bool → Step (Executor P) Job
  settle j true = pure (record j { running = true })
  settle j false = finish_at (record j { running = false })

  -- The status of PollJob behind the reading of the sentinel.
  unfoldable pub refresh : Job → Option ℤ → Step (Executor P) Job
  refresh j (some code) = finish_at (record j { running = false; exit_code = code })
  refresh j none = do alive ← process_alive j.pod_name j.pid; settle j alive

  -- The last part of PollJob.
  unfoldable pub report : Job → Step (Executor P) (Job × Text)
  report k = do log ← read_job_log k.pod_name k.log_file; put_job k; pure (k, log)

  -- PollJob, once the job is found.
  unfoldable pub poll_found : Job → Step (Executor P) (Job × Text)
  poll_found j = do code ← read_exit_code j.pod_name j.rc_file; k ← refresh j code; report k

  -- PollJob
  unfoldable pub poll_job : Text → Text → Step (Executor P) (Job × Text)
  poll_job pod id = do j ← find_job pod id; poll_found j

  unfoldable pub mark : Text → Option Job → Step (Executor P) (Unit {0})
  mark id none x = (x, ok tt)
  mark id (some j) x =
      let (p, now) = r.now x.platform in
      let stopped = record j { running = false; exit_code = pos 0 } in
      if eqb j.finished_at 0
      then (
        record x { platform = p; jobs = insert id (record stopped { finished_at = now }) x.jobs },
        ok tt,
      )
      else (record x { jobs = insert id stopped x.jobs }, ok tt)

  -- The locked section of StopJob.
  unfoldable pub mark_stopped : Text → Step (Executor P) (Unit {0})
  unfolding mark
  mark_stopped id x = mark id (lookup id x.jobs) x

  -- StopJob, once the job is found.
  unfoldable pub stop_found : Text → Job → Step (Executor P) (Unit {0})
  stop_found id j = do
    res ← run r (
        in_shell j.pod_name (bytes "kill -TERM " ++ itoa j.pid ++ bytes " 2>/dev/null; true") short)
    from (succeeded (bytes "stop job failed with exit ") res)
    mark_stopped id

  -- StopJob
  unfoldable pub stop_job : Text → Text → Step (Executor P) (Unit {0})
  stop_job pod id =
      if id == []
      then ignore (run r (in_shell pod (bytes "pkill -INT -P 1 2>/dev/null; true") short))
      else do j ← find_job pod id; stop_found id j

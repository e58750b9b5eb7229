-- ===== src/Tests/Jobs.antt =====
-- Background jobs over a sandbox in which every command prints a process id.
use mathlib.Core.List.{Memᴰ}
use cloud_agent_sandbox.Base.{
  ◌+◌, ◌≤◌, ◌≡◌, ◌≢◌, ◌↔◌, ◌⊎◌, refl, ap, true, false, none, some, [], ◌∷◌, bytes, list_beq,
  text_eq, ◌∙◌,
}
use cloud_agent_sandbox.Base.Dict.{lookup, insert}
use cloud_agent_sandbox.Base.Int.{pos}
use cloud_agent_sandbox.Session.Model.{Error, ok, err}
use cloud_agent_sandbox.Steps.{Ends}
use cloud_agent_sandbox.Exec.Model.{Command, Job, job_retention, job_hard_ttl}
use cloud_agent_sandbox.Exec.Remote.{
  Remote, Executor, finished, run, run_timeout, stream, classify, capped, capped_from,
}
use cloud_agent_sandbox.Exec.Jobs.{
  reap_jobs, start_job, poll_job, stop_job, launch, launcher, in_shell, adopt, succeeded, register,
  new_job,
}
use cloud_agent_sandbox.Exec.Shell.{command_argv, command_line, in_directory}
use cloud_agent_sandbox.Exec.Buffers.{cap_write, new_cap_buffer}
use cloud_agent_sandbox.Exec.Output.{parse_pid, pid_of, pid_of_words, checked_pid}
use cloud_agent_sandbox.Strings.{fields}
use cloud_agent_sandbox.Config.Parse.{atoi, parse_digits}
use cloud_agent_sandbox.Exec.Jobs.Laws.{reap_jobs_exact, IsReport}
use cloud_agent_sandbox.Exec.Jobs.Starting.{IsStarted, start_job-IsStarted}
use cloud_agent_sandbox.Exec.Jobs.Table.{poll_job_isolated, poll_job-IsReport}

abbrev sandbox : Remote (Unit {0})
sandbox = record {
  stream = λ limit pod argv stdin p.
      (p, record { out = bytes "4711\n" ∷ []; err_out = []; end = finished });
  expired = λ limit p. (p, false);
  now = λ p. (p, 100);
  new_uuid = λ p. (p, bytes "a1");
}

abbrev build : Command
build = record {
  pod_name = bytes "sbx-a";
  argv = [];
  line = bytes "make";
  cwd = [];
  timeout = pos 0;
  stdin = none;
}

abbrev idle : Executor (Unit {0})
idle = record { platform = tt; jobs = [] }

abbrev job : Job
job = record {
  id = bytes "a1";
  pod_name = bytes "sbx-a";
  pid = pos 4711;
  log_file = bytes "/tmp/job-a1.log";
  rc_file = bytes "/tmp/job-a1.rc";
  running = true;
  exit_code = pos 0;
  started_at = 100;
  finished_at = 0;
}

abbrev busy : Executor (Unit {0})
busy = record { platform = tt; jobs = (bytes "a1", job) ∷ [] }

start_job_test : start_job sandbox build idle ≡ (busy, ok job)
unfolding start_job command_line list_beq launch run run_timeout command_argv in_directory in_shell
    launcher stream classify adopt succeeded parse_pid pid_of_words pid_of checked_pid atoi
    parse_digits fields cap_write new_cap_buffer capped capped_from register new_job reap_jobs
    insert
start_job_test = refl

reap_jobs_exact_example : Memᴰ (bytes "a1", job) (reap_jobs 200 busy.jobs) ↔ (
    Memᴰ (bytes "a1", job) busy.jobs
    × ((job.finished_at ≡ 0) ⊎ (200 ≤ job.finished_at + job_retention))
    × (200 ≤ job.started_at + job_hard_ttl))
reap_jobs_exact_example = reap_jobs_exact 200 busy.jobs (bytes "a1") job

only_job : (j : Job) → lookup (bytes "a1") busy.jobs ≡ some j → j.pod_name ≢ bytes "sbx-b"
unfolding lookup list_beq
only_job j h =
    let same : job ≡ j = cc in
    λ k.
      let t = (text_eq.beq_iff (bytes "sbx-a") (bytes "sbx-b")).1 (ap (λ i. i.pod_name) same ∙ k) in
      cc

poll_job_isolated_example :
    (e : Error) × (poll_job sandbox (bytes "sbx-b") (bytes "a1") busy ≡ (busy, err e))
    × (stop_job sandbox (bytes "sbx-b") (bytes "a1") busy ≡ (busy, err e))
poll_job_isolated_example =
    poll_job_isolated sandbox (bytes "sbx-b") (bytes "a1") busy (λ p. cc) (λ p. cc) only_job

start_job-IsStarted_example :
    Ends (start_job sandbox build idle) (IsStarted sandbox build []) (λ u e. u.jobs ≡ [])
start_job-IsStarted_example = start_job-IsStarted sandbox build idle

poll_job-IsReport_example :
    Ends
      (poll_job sandbox (bytes "sbx-a") (bytes "a1") busy)
      (λ u p.
        (j : Job) × (lookup (bytes "a1") busy.jobs ≡ some j)
        × IsReport sandbox busy busy.jobs j u p.0 p.1)
      (λ u e. u.jobs ≡ busy.jobs)
poll_job-IsReport_example = poll_job-IsReport sandbox (bytes "sbx-a") (bytes "a1") busy

-- ===== src/Exec/Model.antt =====
-- internal/exec/exec.go and the constants of internal/exec/kubeexec.go.
use cloud_agent_sandbox.Base.{ℕ, ◌*◌, Bool, Option, List, Text}
use cloud_agent_sandbox.Base.Int.{ℤ}
use cloud_agent_sandbox.Config.Model.{second, minute, hour}

-- A nil Stdin is `none`.
pub record Command : Type 0 where
  pub pod_name : Text
  pub argv : List Text
  pub line : Text
  pub cwd : Text
  pub timeout : ℤ
  pub stdin : Option Text

-- exec.Result
pub record RunResult : Type 0 where
  pub stdout : Text
  pub stderr : Text
  pub exit_code : ℤ
  pub timed_out : Bool
  pub truncated : Bool

-- FinishedAt is 0 for the zero time.
pub record Job : Type 0 where
  pub id : Text
  pub pod_name : Text
  pub pid : ℤ
  pub log_file : Text
  pub rc_file : Text
  pub running : Bool
  pub exit_code : ℤ
  pub started_at : ℕ
  pub finished_at : ℕ

pub record FileInfo : Type 0 where
  pub name : Text
  pub is_dir : Bool
  pub size : ℤ

abbrev pub default_run_timeout : ℕ
default_run_timeout = 120 * second

abbrev pub command_output_limit : ℕ
command_output_limit = 1048576

abbrev pub file_read_limit : ℕ
file_read_limit = 5242880

abbrev pub job_log_limit : ℕ
job_log_limit = 1048576

abbrev pub job_retention : ℕ
job_retention = 15 * minute

abbrev pub job_hard_ttl : ℕ
job_hard_ttl = 2 * hour

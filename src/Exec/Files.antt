-- ===== src/Exec/Files.antt =====
-- internal/exec/kubeexec.go: the files of a sandbox.
pub mod Laws
use cloud_agent_sandbox.Base.{
  ◌*◌, Bool, true, false, Option, none, some, List, [], ◌∷◌, ◌++◌, Text, bytes, if◌then◌else◌,
}
use cloud_agent_sandbox.Base.Int.{pos}
use cloud_agent_sandbox.Config.Model.{second}
use cloud_agent_sandbox.Session.Model.{Error, message, Result, ok, err}
use cloud_agent_sandbox.Steps.{Step, ◌>>=◌, ◌>>◌, pure, from}
use cloud_agent_sandbox.Exec.Model.{FileInfo, file_read_limit}
use cloud_agent_sandbox.Exec.Shell.{shell_quote, shell_argv}
use cloud_agent_sandbox.Exec.Output.{parse_find_list}
use cloud_agent_sandbox.Exec.Buffers.{CapBuffer}
use cloud_agent_sandbox.Exec.Remote.{
  Streamed, End, finished, exited, broken, Remote, Executor, capped, stream, run,
}
use cloud_agent_sandbox.Exec.Jobs.{in_shell, succeeded}

-- The content of a capBuffer that has overflowed is never given back.
unfoldable pub whole : CapBuffer → Result Text
whole out = if out.truncated then err (message (bytes "read file ")) else ok out.buf

unfoldable pub file_at : End → List Text → Result Text
unfolding capped
file_at finished out = whole (capped file_read_limit out)
file_at (exited n) out = err (message (bytes "read file "))
file_at (broken e) out = err e

-- What ReadFile gives of the stream.
unfoldable pub file_of : Streamed → Result Text
file_of s = file_at s.end s.out

unfoldable pub written : Streamed → Result (Unit {0})
written s = elim s.end [
  | finished ↦ ok tt
  | exited n ↦ err (message (bytes "write file "))
  | broken e ↦ err e
]

module _ {P : Type 0} (r : Remote P) where
  -- ReadFile
  unfoldable pub read_file : Text → Text → Step (Executor P) Text
  read_file pod path = do
    s ← stream r none pod (shell_argv (bytes "cat " ++ shell_quote path)) none
    from (file_of s)

  -- WriteFile
  unfoldable pub write_file : Text → Text → Text → Step (Executor P) (Unit {0})
  write_file pod path content = do
    s ←
        stream r none pod
          (shell_argv (
            bytes "mkdir -p $(dirname "
            ++ shell_quote path
            ++ bytes ") && cat > "
            ++ shell_quote path))
          (some content)
    from (written s)

  -- ListDir
  unfoldable pub list_dir : Text → Text → Step (Executor P) (List FileInfo)
  list_dir pod path = do
    res ← run r (
        in_shell pod
          (bytes "find "
            ++ shell_quote path
            ++ bytes " -mindepth 1 -maxdepth 1 -printf '%y %s %f\\n'")
          (pos (30 * second)))
    from (succeeded (bytes "list dir ") res)
    pure (parse_find_list res.stdout)

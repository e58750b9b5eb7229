-- ===== src/Exec/Shell.antt =====
-- internal/exec/kubeexec.go: the command lines that a shell in the sandbox reads.
pub mod Reading
pub mod Laws
use cloud_agent_sandbox.Base.{
  ℕ, Bool, Option, none, some, List, [], ◌∷◌, ◌++◌, map, Text, bytes, ◌==◌, nat_eq, text_eq,
  if◌then◌else◌,
}
use cloud_agent_sandbox.Session.Model.{Error, message, Result, ok, err}
use cloud_agent_sandbox.Exec.Model.{Command}

-- strings.ReplaceAll(s, "'", "'\\''")
unfoldable pub escape : Text → Text
escape [] = []
escape (c ∷ s) = if c == b'\'' then b'\'' ∷ b'\\' ∷ b'\'' ∷ b'\'' ∷ escape s else c ∷ escape s

-- shellQuote
unfoldable pub shell_quote : Text → Text
shell_quote s = if s == [] then bytes "''" else bytes "'" ++ escape s ++ bytes "'"

-- strings.Join(quoted, " ")
unfoldable pub join_spaces : List Text → Text
join_spaces [] = []
join_spaces (w ∷ []) = w
join_spaces (w ∷ v ∷ ws) = w ++ bytes " " ++ join_spaces (v ∷ ws)

-- shellJoin
unfoldable pub shell_join : List Text → Text
shell_join argv = join_spaces (map shell_quote argv)

-- `"cd " + shellQuote(cmd.Cwd) + " && " + line`, where there is a directory.
unfoldable pub in_directory : Text → Text → Text
in_directory cwd line =
    if cwd == [] then line else bytes "cd " ++ shell_quote cwd ++ bytes " && " ++ line

abbrev no_command : Error
no_command = message (bytes "command line or argv is required")

abbrev pub shell_argv : Text → List Text
shell_argv line = bytes "/bin/sh" ∷ bytes "-lc" ∷ line ∷ []

-- commandArgv behind the check of the line.
unfoldable pub argv_in : List Text → Text → Result (List Text)
argv_in [] cwd = err no_command
argv_in (a ∷ rest) cwd =
    if cwd == []
    then ok (a ∷ rest)
    else ok
        (shell_argv (bytes "cd " ++ shell_quote cwd ++ bytes " && exec " ++ shell_join (a ∷ rest)))

-- commandArgv
unfoldable pub command_argv : Command → Result (List Text)
command_argv cmd =
    if cmd.line == []
    then argv_in cmd.argv cmd.cwd
    else ok (shell_argv (in_directory cmd.cwd cmd.line))

-- commandLine
unfoldable pub command_line : Command → Result Text
command_line cmd =
    if cmd.line == []
    then elim cmd.argv [
      | [] ↦ err no_command
      | a ∷ rest ↦ ok (in_directory cmd.cwd (shell_join (a ∷ rest)))
    ]
    else ok (in_directory cmd.cwd cmd.line)

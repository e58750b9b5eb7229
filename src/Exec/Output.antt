-- ===== src/Exec/Output.antt =====
-- internal/exec/kubeexec.go: what is read out of the output of a command.
use cloud_agent_sandbox.Base.{
  Option, none, some, List, [], ◌∷◌, Text, bytes, ◌==◌, nat_eq, text_eq, if◌then◌else◌,
}
use mathlib.Core.List.{reverse}
use cloud_agent_sandbox.Base.Int.{ℤ, pos, leb_ℤ}
use cloud_agent_sandbox.Strings.{trim_space, trim_left_byte, fields}
use cloud_agent_sandbox.Config.Parse.{atoi, parse_int}
use cloud_agent_sandbox.Session.Model.{Error, message, Result, ok, err}
use cloud_agent_sandbox.Edit.{split}
use cloud_agent_sandbox.Exec.Model.{FileInfo}

abbrev pub last_of : Text → List Text → Text
last_of w [] = w
last_of w (v ∷ vs) = last_of v vs

abbrev invalid_pid : Error
invalid_pid = message (bytes "invalid job pid ")

unfoldable pub checked_pid : Option ℤ → Result ℤ
checked_pid none = err invalid_pid
checked_pid (some n) = if leb_ℤ n (pos 0) then err invalid_pid else ok n

-- The number of parsePID, from the last word of the output.
unfoldable pub pid_of : Text → Result ℤ
unfolding checked_pid
pid_of w = checked_pid (atoi w)

unfoldable pub pid_of_words : List Text → Result ℤ
pid_of_words [] = err (message (bytes "job launcher did not return a pid"))
pid_of_words (w ∷ ws) = pid_of (last_of w ws)

-- parsePID
unfoldable pub parse_pid : Text → Result ℤ
parse_pid out = pid_of_words (fields out)

-- The parts of strings.SplitN(line, " ", 2): what is before the first space and what is behind it.
unfoldable pub cut_space : Text → Option (Text × Text)
cut_space [] = none
cut_space (c ∷ s) =
    let rest = cut_space s in
    if c == b' ' then some ([], s) else elim rest [ none ↦ none | some p ↦ some (c ∷ p.0, p.1) ]

-- strings.TrimRight(line, "\r")
unfoldable pub trim_carriage : Text → Text
trim_carriage t = reverse (trim_left_byte b'\r' (reverse t))

-- One line of parseFindList, trimmed; an empty line and one of less than three parts give nothing.
unfoldable pub find_entry : Text → Option FileInfo
find_entry line = elim (cut_space line) [
  | none ↦ none
  | some p ↦ elim (cut_space p.1) [
    | none ↦ none
    | some q ↦ some (record { name = q.1; is_dir = p.0 == bytes "d"; size = parse_int q.0 })
  ]
]

unfoldable pub entries : List Text → List FileInfo
entries [] = []
entries (l ∷ ls) = elim (find_entry (trim_carriage l)) [
  | none ↦ entries ls
  | some f ↦ f ∷ entries ls
]

-- parseFindList
unfoldable pub parse_find_list : Text → List FileInfo
parse_find_list out = entries (split out)

-- The exit code in the sentinel of a job, behind the reading of the file.
unfoldable pub sentinel : Text → Option ℤ
sentinel out = let s = trim_space out in if s == [] then none else atoi s

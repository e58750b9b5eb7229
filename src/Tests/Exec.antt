-- ===== src/Tests/Exec.antt =====
-- Commands and buffers at concrete inputs.
use cloud_agent_sandbox.Base.{
  ◌≡◌, refl, true, false, none, some, List, [], ◌∷◌, ◌++◌, map, Text, bytes, length, take, ltb,
  list_beq,
}
use cloud_agent_sandbox.Base.Int.{pos}
use cloud_agent_sandbox.Session.Model.{ok}
use cloud_agent_sandbox.Exec.Model.{Command}
use cloud_agent_sandbox.Exec.Shell.{shell_argv, command_argv, command_line, shell_quote, escape}
use cloud_agent_sandbox.Exec.Shell.Reading.{word, blank, prepend, read}
use cloud_agent_sandbox.Exec.Shell.Laws.{entering, command_argv-read, command_line-read}
use cloud_agent_sandbox.Exec.Buffers.{new_cap_buffer, new_tail_buffer}
use cloud_agent_sandbox.Exec.Buffers.Laws.{
  total, cap_writes, tail_writes, last, cap_writes-tail_writes,
}
use cloud_agent_sandbox.Exec.Output.{
  pid_of_words, checked_pid, parse_pid, pid_of, parse_find_list, entries, find_entry, cut_space,
  trim_carriage,
}
use cloud_agent_sandbox.Strings.{fields, trim_left_byte}
use cloud_agent_sandbox.Config.Parse.{atoi, parse_digits, parse_int}
use cloud_agent_sandbox.Edit.{split}

abbrev echo : List Text
echo = bytes "echo" ∷ bytes "it's" ∷ []

abbrev by_argv : Command
by_argv = record {
  pod_name = bytes "sbx-a";
  argv = echo;
  line = [];
  cwd = bytes "/workspace";
  timeout = pos 0;
  stdin = none;
}

abbrev by_line : Command
by_line = record by_argv { line = bytes "ls" }

abbrev writes : List Text
writes = bytes "ab" ∷ bytes "cde" ∷ []

shell_quote_test : shell_quote (bytes "it's") ≡ bytes "'it'\\''s'"
unfolding shell_quote list_beq escape
shell_quote_test = refl

parse_pid_test : parse_pid (bytes "4711\n") ≡ ok (pos 4711)
unfolding parse_pid list_beq fields pid_of_words pid_of checked_pid atoi parse_digits
parse_pid_test = refl

parse_find_list_test :
    parse_find_list (bytes "d 4096 src\n\nf 12 a b.txt\r\nbad\n")
    ≡ (record { name = bytes "src"; is_dir = true; size = pos 4096 })
      ∷ (record { name = bytes "a b.txt"; is_dir = false; size = pos 12 })
      ∷ []
unfolding parse_find_list list_beq entries split find_entry cut_space trim_carriage trim_left_byte
    parse_int
parse_find_list_test = refl

command_argv-read_example :
    (line : Text) × (command_argv by_argv ≡ ok (shell_argv line))
    × (read blank line
        ≡ some (entering (bytes "/workspace") ++ (word (bytes "exec") ∷ map word echo)))
command_argv-read_example = command_argv-read by_argv refl (λ p. cc) (λ p. cc)

command_line-read_example :
    (line : Text) × (command_argv by_line ≡ ok (shell_argv line))
    × (command_line by_line ≡ ok line)
    × (read blank line ≡ prepend (entering (bytes "/workspace")) (read blank (bytes "ls")))
command_line-read_example = command_line-read by_line (λ p. cc) (λ p. cc)

cap_writes-tail_writes_example :
    ((cap_writes writes (new_cap_buffer 3)).buf ≡ take 3 (total writes))
    × ((cap_writes writes (new_cap_buffer 3)).truncated ≡ ltb 3 (length (total writes)))
    × ((tail_writes writes (new_tail_buffer 3)).buf ≡ last 3 (total writes))
    × ((tail_writes writes (new_tail_buffer 3)).truncated ≡ ltb 3 (length (total writes)))
cap_writes-tail_writes_example = cap_writes-tail_writes 3 writes

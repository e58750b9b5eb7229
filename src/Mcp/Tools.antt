-- ===== src/Mcp/Tools.antt =====
-- internal/mcp/server.go: the handlers of the tools. A handler runs under the context of its request.
-- The set of ids whose sandboxes are loaded eagerly is in Mcp/Entry.
pub mod Laws
use cloud_agent_sandbox.Base.{
  ℕ, zero, suc, Bool, true, false, not, Option, none, some, List, [], ◌∷◌, ◌++◌, Text, bytes, ◌==◌,
  nat_eq, text_eq, length, drop, if◌then◌else◌,
}
use cloud_agent_sandbox.Base.Int.{ℤ, pos, ltb_ℤ}
use cloud_agent_sandbox.Config.Model.{Config}
use cloud_agent_sandbox.Session.Model.{
  Session, Error, message, wrap, is_invalid_session, Result, ok, err,
}
use cloud_agent_sandbox.Manager.World.{Context, request, background, Environment, World}
use cloud_agent_sandbox.Manager.Ensure.{ensure_session}
use cloud_agent_sandbox.Manager.Lifecycle.{clear}
use cloud_agent_sandbox.Manager.Activity.{begin_activity, end_activity}
use cloud_agent_sandbox.Edit.{decimal, render_numbered_lines, replace_unique, insert_after_line}
use cloud_agent_sandbox.Exec.Model.{Command, RunResult, Job}
use cloud_agent_sandbox.Exec.Remote.{Remote, Executor, timed, run}
use cloud_agent_sandbox.Exec.Jobs.{start_job, poll_job, stop_job}
use cloud_agent_sandbox.Exec.Files.{read_file, write_file}
use cloud_agent_sandbox.Steps.{Step, ◌>>=◌, ◌>>◌, pure, fail, from, catch, wrapped}
use cloud_agent_sandbox.Mcp.Model.{
  Identity, Server, lift_manager, lift_exec, missing_session, ensure_failure, options_of,
  identified, format_run_result, format_job_poll,
}

-- The arguments of a request, as the library reads them: `text k` is RequireString, `text_or` is
-- GetString with the empty text for a missing one, `number` is RequireInt; the times are in
-- nanoseconds. `view_range` is the array of that name, if there is one, with the numbers in it.
pub record Arguments : Type 0 where
  pub text : Text → Result Text
  pub text_or : Text → Text
  pub flag : Text → Bool
  pub flag_or_nil : Text → Option Bool
  pub number : Text → Result ℤ
  pub timeout : ℤ
  pub view_range : Option (List (Option ℤ))

-- The number at a place of an array, or else a default.
unfoldable pub number_or : ℤ → List (Option ℤ) → ℤ
number_or def [] = def
number_or def (none ∷ ns) = def
number_or def (some n ∷ ns) = n

-- viewRangeFromRequest; 0 stands for the end of the file.
unfoldable pub view_range_of : Option (List (Option ℤ)) → ℤ × ℤ
view_range_of none = (pos 1, pos 0)
view_range_of (some ns) =
    let end = number_or (pos 0) (drop 1 ns) in
    (number_or (pos 1) ns, if ltb_ℤ end (pos 0) then pos 0 else end)

-- The context of shell_wait: `pause` waits for the interval, or says that the context has ended, and
-- `over` is `waitCtx.Err() != nil`.
pub record Waiting (P : Type 0) : Type 0 where
  pub pause : P → P × Bool
  pub over : P → P × Bool

-- registerTools, for the tools that need a sandbox.
pub data Tool : Type 0 where
  shell shell_async shell_poll shell_wait shell_stop edit_tool : Tool

module _ {P : Type 0} (cfg : Config) (e : Environment P) (r : Remote P) where
  -- The result of a tool behind requireSession and in front of the deferred EndActivity.
  unfoldable pub bracket : Session → Step (Server P) Text → Step (Server P) Text
  bracket s body w =
      let v = (lift_manager (begin_activity e request s.id) w).0 in
      let t = (body v).0 in ((lift_manager (end_activity e background s.id) t).0, (body v).1)

  -- requireSession up to BeginActivity.
  unfoldable pub resolve : Option Identity → Step (Server P) Session
  resolve none = fail missing_session
  resolve (some id) =
      catch (lift_manager (ensure_session cfg e request (options_of id [] false none none) false))
        (λ x. fail (ensure_failure x))

  -- A handler that calls requireSession and defers its clean-up.
  unfoldable pub with_session :
      Option Identity → (Session → Step (Server P) Text) → Step (Server P) Text
  with_session id body = do s ← resolve (identified id); bracket s (body s)

  unfoldable pub command_of : Arguments → Session → Text → ℤ → Command
  command_of args s line timeout = record {
    pod_name = s.pod_name;
    argv = [];
    line = line;
    cwd = args.text_or (bytes "cwd");
    timeout = timeout;
    stdin = none;
  }

  -- shell
  unfoldable pub shell_body : Arguments → Session → Step (Server P) Text
  shell_body args s = do
    line ← from (args.text (bytes "command"))
    res ← wrapped (bytes "shell: ") (lift_exec (run r (command_of args s line args.timeout)))
    pure (format_run_result res)

  -- shellAsync
  unfoldable pub shell_async_body : Arguments → Session → Step (Server P) Text
  shell_async_body args s = do
    line ← from (args.text (bytes "command"))
    j ← wrapped (bytes "shell_async: ") (lift_exec (start_job r (command_of args s line (pos 0))))
    pure (bytes "job_id: " ++ j.id)

  -- shellPoll
  unfoldable pub shell_poll_body : Arguments → Session → Step (Server P) Text
  shell_poll_body args s = do
    id ← from (args.text (bytes "job_id"))
    p ← wrapped (bytes "shell_poll: ") (lift_exec (poll_job r s.pod_name id))
    pure (format_job_poll (some p.0) p.1)

  -- What shell_wait has of the job when it gives up.
  unfoldable pub so_far : Option (Job × Text) → Text
  so_far none = format_job_poll none []
  so_far (some p) = format_job_poll (some p.0) p.1

  -- One round of shell_wait behind its poll; `rest` is the next round.
  unfoldable pub wait_round :
      Waiting P
      → Arguments
      → Option (Job × Text)
      → (Option (Job × Text) → Step (Server P) Text)
      → Result (Job × Text)
      → Step (Server P) Text
  unfolding so_far
  wait_round wait args last rest (err x) = do
    late ← lift_exec (timed wait.over)
    if late then pure (so_far last) else fail (wrap (bytes "shell_wait: ") x)
  wait_round wait args last rest (ok p) =
      if p.0.running
      then (do
        done ← lift_exec (timed wait.pause)
        if done then pure (so_far (some p)) else rest (some p))
      else pure (format_job_poll (some p.0) p.1)

  -- The loop of shell_wait, in as many rounds as the context allows.
  unfoldable pub wait_loop :
      Waiting P → Arguments → Text → Text → ℕ → Option (Job × Text) → Step (Server P) Text
  unfolding so_far
  wait_loop wait args pod id zero last w = (w, ok (so_far last))
  wait_loop wait args pod id (suc n) last w =
      let q = lift_exec (poll_job r pod id) w in
      wait_round wait args last (wait_loop wait args pod id n) q.1 q.0

  -- shellWait
  unfoldable pub shell_wait_body : Waiting P → ℕ → Arguments → Session → Step (Server P) Text
  shell_wait_body wait rounds args s = do
    id ← from (args.text (bytes "job_id"))
    wait_loop wait args s.pod_name id rounds none

  -- shellStop
  unfoldable pub shell_stop_body : Arguments → Session → Step (Server P) Text
  shell_stop_body args s = do
    wrapped (bytes "shell_stop: ")
        (lift_exec (stop_job r s.pod_name (args.text_or (bytes "job_id"))))
    pure (
        if args.text_or (bytes "job_id") == []
        then bytes "shell interrupted/reset"
        else bytes "stopped job_id: " ++ args.text_or (bytes "job_id"))

  -- editTool, command by command.
  unfoldable pub edit_view : Arguments → Session → Text → Step (Server P) Text
  edit_view args s path = do
    content ← wrapped (bytes "view: ") (lift_exec (read_file r s.pod_name path))
    let range = view_range_of args.view_range
    pure (render_numbered_lines content range.0 range.1)

  unfoldable pub edit_create : Arguments → Session → Text → Step (Server P) Text
  edit_create args s path = do
    text ←
        catch (from (args.text (bytes "file_text")))
          (λ x. fail (message (bytes "create requires file_text")))
    wrapped (bytes "create: ") (lift_exec (write_file r s.pod_name path text))
    pure (bytes "wrote " ++ decimal (length text) ++ bytes " bytes to " ++ path)

  -- The read, the edit and the write that str_replace and insert share.
  unfoldable pub edit_file :
      Session → Text → Text → (Text → Result Text) → Text → Step (Server P) Text
  edit_file s path what edit done = do
    content ← wrapped (what ++ bytes " read: ") (lift_exec (read_file r s.pod_name path))
    changed ← from (edit content)
    wrapped (what ++ bytes " write: ") (lift_exec (write_file r s.pod_name path changed))
    pure done

  unfoldable pub edit_replace : Arguments → Session → Text → Step (Server P) Text
  edit_replace args s path = do
    old ←
        catch (from (args.text (bytes "old_str")))
          (λ x. fail (message (bytes "str_replace requires old_str")))
    edit_file s path (bytes "str_replace")
        (λ content. replace_unique content old (args.text_or (bytes "new_str")))
        (bytes "replaced text in " ++ path)

  unfoldable pub edit_insert : Arguments → Session → Text → Step (Server P) Text
  edit_insert args s path = do
    line ←
        catch (from (args.number (bytes "insert_line")))
          (λ x. fail (message (bytes "insert requires insert_line")))
    new ←
        catch (from (args.text (bytes "new_str")))
          (λ x. fail (message (bytes "insert requires new_str")))
    edit_file s path (bytes "insert") (λ content. insert_after_line content line new)
        (bytes "inserted " ++ decimal (length new) ++ bytes " bytes into " ++ path)

  unfoldable pub edit_command : Arguments → Session → Text → Text → Step (Server P) Text
  edit_command args s command path =
      if command == bytes "view"
      then edit_view args s path
      else if command == bytes "create"
      then edit_create args s path
      else if command == bytes "str_replace"
      then edit_replace args s path
      else if command == bytes "insert"
      then edit_insert args s path
      else fail (message (bytes "unknown command "))

  unfoldable pub edit_body : Arguments → Session → Step (Server P) Text
  edit_body args s = do
    command ← from (args.text (bytes "command"))
    path ← from (args.text (bytes "path"))
    edit_command args s command path

  -- The tools that need a sandbox.
  unfoldable pub body_of : Tool → Waiting P → ℕ → Arguments → Session → Step (Server P) Text
  body_of shell wait rounds = shell_body
  body_of shell_async wait rounds = shell_async_body
  body_of shell_poll wait rounds = shell_poll_body
  body_of shell_wait wait rounds = shell_wait_body wait rounds
  body_of shell_stop wait rounds = shell_stop_body
  body_of edit_tool wait rounds = edit_body

  unfoldable pub handle : Tool → Waiting P → ℕ → Arguments → Option Identity → Step (Server P) Text
  handle t wait rounds args id = with_session id (body_of t wait rounds args)

  -- createSandbox, for a caller that is known.
  unfoldable pub create_for : Arguments → Option Identity → Step (Server P) Text
  create_for args none = fail missing_session
  create_for args (some id) = do
    s ← wrapped (bytes "create sandbox: ") (
        lift_manager (
          ensure_session cfg e request
            (options_of id (args.text_or (bytes "image")) (args.flag (bytes "use_kata"))
              (args.flag_or_nil (bytes "writable_root")) (args.flag_or_nil (bytes "run_as_root")))
            true))
    pure (bytes "ready\nimage: " ++ s.image)

  unfoldable pub create_sandbox : Arguments → Option Identity → Step (Server P) Text
  create_sandbox args id = create_for args (identified id)

  -- clearSession, for a caller that is known.
  unfoldable pub clear_for : Option Identity → Step (Server P) Text
  clear_for none = fail missing_session
  clear_for (some id) =
      catch (do lift_manager (clear cfg e request id.ref); pure (bytes "cleared"))
        λ x.
          if is_invalid_session x
          then pure (bytes "no sandbox to clear")
          else fail (wrap (bytes "clear session: ") x)

  unfoldable pub clear_session : Option Identity → Step (Server P) Text
  clear_session id = clear_for (identified id)

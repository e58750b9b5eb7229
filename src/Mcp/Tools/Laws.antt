-- ===== src/Mcp/Tools/Laws.antt =====
-- internal/mcp/server.go: the calls in flight around a tool.
use cloud_agent_sandbox.Base.{
  ℕ, zero, suc, ◌+◌, ◌-◌, ◌≡◌, refl, ap, ◌∙◌, inl, inr, Option, some, Text, ◌==◌, text_eq, arith,
  Bool-cases, if◌then◌else◌,
}
use cloud_agent_sandbox.Base.Dict.{Dict, insert, remove, lookup-insert, lookup-remove}
use cloud_agent_sandbox.Config.Model.{Config}
use cloud_agent_sandbox.Session.Model.{Session, Result, ok, err}
use cloud_agent_sandbox.Manager.World.{Environment, request, store_touch}
use cloud_agent_sandbox.Manager.Activity.{
  calls_of, count_begin, count_end, begin_activity, end_activity,
}
use cloud_agent_sandbox.Exec.Model.{Job}
use cloud_agent_sandbox.Exec.Jobs.{poll_job}
use cloud_agent_sandbox.Exec.Remote.{Remote, timed}
use cloud_agent_sandbox.Steps.{Step, Result-cases, bind-ok, bind-err}
use cloud_agent_sandbox.Mcp.Model.{Identity, Server, lift_exec, lift_manager, identified}
use cloud_agent_sandbox.Mcp.Tools.{
  Arguments, Waiting, Tool, shell, shell_async, shell_poll, shell_wait, shell_stop, edit_tool,
  bracket, resolve, with_session, handle, body_of, shell_body, shell_async_body, shell_poll_body,
  shell_stop_body, shell_wait_body, edit_body, edit_file, edit_view, edit_create, edit_replace,
  edit_insert, edit_command, wait_round, wait_loop,
}

calls_of-insert :
    (id j : Text) (n : ℕ) (m : Dict ℕ)
    → calls_of j (insert id n m) ≡ (if id == j then n else calls_of j m)
unfolding calls_of
calls_of-insert id j n m = ground (arith, lookup-insert id j n m)

calls_of-remove :
    (id j : Text) (m : Dict ℕ) → calls_of j (remove id m) ≡ (if id == j then 0 else calls_of j m)
unfolding calls_of
calls_of-remove id j m = ground (arith, lookup-remove id j m)

calls_of-count_end :
    (id j : Text) (m : Dict ℕ) → calls_of j (count_end id (count_begin id m)) ≡ calls_of j m
unfolding count_end count_begin
calls_of-count_end id j m = ground (
  arith,
  calls_of-insert id id (calls_of id m + 1) m,
  calls_of-insert id j (calls_of id m + 1) m,
  calls_of-insert id j (calls_of id m + 1 - 1) (insert id (calls_of id m + 1) m),
  calls_of-remove id j (insert id (calls_of id m + 1) m),
  text_eq.beq_iff id j,
  text_eq.beq_iff id id,
)

module _ {P : Type 0} (cfg : Config) (e : Environment P) (r : Remote P) where
  -- A step that leaves the Manager's own state alone.
  abbrev pub Keeps : (Server P → Server P × Result Text) → Type 0
  Keeps m =
      (w : Server P)
      → ((m w).0.manager.active ≡ w.manager.active)
        × ((m w).0.manager.sessions ≡ w.manager.sessions)

  shell-Keeps : (args : Arguments) (s : Session) → Keeps (shell_body cfg e r args s)
  unfolding shell_body
  shell-Keeps args s w = ground arith

  shell_async-Keeps : (args : Arguments) (s : Session) → Keeps (shell_async_body cfg e r args s)
  unfolding shell_async_body
  shell_async-Keeps args s w = ground arith

  shell_poll-Keeps : (args : Arguments) (s : Session) → Keeps (shell_poll_body cfg e r args s)
  unfolding shell_poll_body
  shell_poll-Keeps args s w = ground arith

  shell_stop-Keeps : (args : Arguments) (s : Session) → Keeps (shell_stop_body cfg e r args s)
  unfolding shell_stop_body
  shell_stop-Keeps args s w = ground arith

  edit_file-Keeps :
      (s : Session) (path what : Text) (edit : Text → Result Text) (done : Text)
      → Keeps (edit_file cfg e r s path what edit done)
  unfolding edit_file
  edit_file-Keeps s path what edit done w = ground arith

  edit_view-Keeps :
      (args : Arguments) (s : Session) (path : Text) → Keeps (edit_view cfg e r args s path)
  unfolding edit_view
  edit_view-Keeps args s path w = ground arith

  edit_create-Keeps :
      (args : Arguments) (s : Session) (path : Text) → Keeps (edit_create cfg e r args s path)
  unfolding edit_create
  edit_create-Keeps args s path w = ground arith

  edit_replace-Keeps :
      (args : Arguments) (s : Session) (path : Text) → Keeps (edit_replace cfg e r args s path)
  unfolding edit_replace
  edit_replace-Keeps args s path w = grind (arith, edit_file-Keeps)

  edit_insert-Keeps :
      (args : Arguments) (s : Session) (path : Text) → Keeps (edit_insert cfg e r args s path)
  unfolding edit_insert
  edit_insert-Keeps args s path w = grind (arith, edit_file-Keeps)

  edit_command-Keeps :
      (args : Arguments) (s : Session) (command path : Text)
      → Keeps (edit_command cfg e r args s command path)
  unfolding edit_command
  edit_command-Keeps args s command path w = ground (
    arith,
    edit_view-Keeps args s path w,
    edit_create-Keeps args s path w,
    edit_replace-Keeps args s path w,
    edit_insert-Keeps args s path w,
  )

  edit-Keeps : (args : Arguments) (s : Session) → Keeps (edit_body cfg e r args s)
  unfolding edit_body
  edit-Keeps args s w = grind (arith, edit_command-Keeps)

  module _ (wait : Waiting P) where
    wait_round-Keeps :
        (args : Arguments) (last : Option (Job × Text))
        (rest : Option (Job × Text) → Step (Server P) Text)
        → ((l : Option (Job × Text)) → Keeps (rest l))
        → (q : Result (Job × Text)) → Keeps (wait_round cfg e r wait args last rest q)
    unfolding wait_round
    wait_round-Keeps args last rest k (err x) w = ground arith
    wait_round-Keeps args last rest k (ok p) w =
        let next = k (some p) (lift_exec (timed wait.pause) w).0 in
        elim (Bool-cases p.0.running) [
          | inl h ↦ ground (arith, h, next)
          | inr h ↦ ground (arith, h)
        ]

    wait_loop-Keeps :
        (args : Arguments) (pod id : Text) (n : ℕ) (last : Option (Job × Text))
        → Keeps (wait_loop cfg e r wait args pod id n last)
    unfolding wait_loop
    wait_loop-Keeps args pod id zero last w = (refl, refl)
    wait_loop-Keeps args pod id (suc n) last w =
        let q = lift_exec (poll_job r pod id) w in
        wait_round-Keeps args last (wait_loop cfg e r wait args pod id n)
          (wait_loop-Keeps args pod id n) q.1 q.0

    shell_wait-Keeps :
        (rounds : ℕ) (args : Arguments) (s : Session)
        → Keeps (shell_wait_body cfg e r wait rounds args s)
    unfolding shell_wait_body
    shell_wait-Keeps rounds args s w = grind (arith, wait_loop-Keeps)

    pub body-Keeps :
        (t : Tool) (rounds : ℕ) (args : Arguments) (s : Session)
        → Keeps (body_of cfg e r t wait rounds args s)
    unfolding body_of
    body-Keeps shell rounds args s = shell-Keeps args s
    body-Keeps shell_async rounds args s = shell_async-Keeps args s
    body-Keeps shell_poll rounds args s = shell_poll-Keeps args s
    body-Keeps shell_wait rounds args s = shell_wait-Keeps rounds args s
    body-Keeps shell_stop rounds args s = shell_stop-Keeps args s
    body-Keeps edit_tool rounds args s = edit-Keeps args s

  bracket_counts :
      (s : Session) (body : Step (Server P) Text) (w : Server P)
      → Keeps body
      → (bracket cfg e r s body w).0.manager.active
        ≡ count_end s.id (count_begin s.id w.manager.active)
  unfolding bracket begin_activity end_activity store_touch
  bracket_counts s body w k =
      ap (count_end s.id) (k (lift_manager (begin_activity e request s.id) w).0).0

  with_session_counts :
      (id : Option Identity) (body : Session → Step (Server P) Text) (w : Server P) (j : Text)
      → ((s : Session) → Keeps (body s))
      → calls_of j (with_session cfg e r id body w).0.manager.active
        ≡ calls_of j (resolve cfg e r (identified id) w).0.manager.active
  unfolding with_session
  with_session_counts id body w j k =
      let m = resolve cfg e r (identified id) in
      let f : Session → Step (Server P) Text = λ s. bracket cfg e r s (body s) in
      let count : Server P × Result Text → ℕ = λ o. calls_of j o.0.manager.active in
      elim (Result-cases (m w).1) [
        | inl (s, q) ↦
            ap count (bind-ok m f w s q)
            ∙ ap (calls_of j) (bracket_counts s (body s) (m w).0 (k s))
            ∙ calls_of-count_end s.id j (m w).0.manager.active
        | inr (x, q) ↦ ap count (bind-err m f w x q)
      ]

-- A tool call that needs a sandbox leaves, for every session, as many calls in flight as there were
-- once its own sandbox was resolved, however the tool ends; so does one that is refused for a missing
-- identity or because the sandbox cannot be brought up.
pub handle_balanced :
    {P : Type 0} (cfg : Config) (e : Environment P) (r : Remote P) (t : Tool) (wait : Waiting P)
    (rounds : ℕ) (args : Arguments) (id : Option Identity) (w : Server P) (j : Text)
    → calls_of j (handle cfg e r t wait rounds args id w).0.manager.active
      ≡ calls_of j (resolve cfg e r (identified id) w).0.manager.active
unfolding handle
handle_balanced cfg e r t wait rounds args id w j =
    with_session_counts cfg e r id (body_of cfg e r t wait rounds args) w j
      (λ s. body-Keeps cfg e r wait t rounds args s)

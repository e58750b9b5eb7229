-- ===== src/Exec/Jobs/Starting.antt =====
-- internal/exec/kubeexec.go: what StartJob brings into the table of jobs.
use cloud_agent_sandbox.Base.{
  ℕ, ◌≡◌, inl, inr, refl, ap, subst, true, Option, none, some, List, [], ◌∷◌, Text, bytes, nat_eq,
  text_eq, arith, Bool-cases,
}
use cloud_agent_sandbox.Base.Dict.{Dict, insert}
use cloud_agent_sandbox.Base.Int.{ℤ, pos, ◌<ℤ◌, leb_ℤ}
use cloud_agent_sandbox.Config.Parse.{atoi}
use cloud_agent_sandbox.Session.Model.{ok}
use cloud_agent_sandbox.Steps.{Ends, bind-Ends, ◌>>=◌, from, from-Holds, Result-cases}
use cloud_agent_sandbox.Exec.Model.{Command, RunResult, Job}
use cloud_agent_sandbox.Exec.Remote.{Remote, Executor, timed, run}
use cloud_agent_sandbox.Exec.Output.{parse_pid, pid_of, pid_of_words, checked_pid, last_of}
use cloud_agent_sandbox.Strings.{fields}
use cloud_agent_sandbox.Exec.Shell.{command_line}
use cloud_agent_sandbox.Exec.Jobs.{
  reap_jobs, start_job, register, succeeded, new_job, adopt, launch,
}
use cloud_agent_sandbox.Exec.Jobs.Laws.{Keeps, run-Keeps, timed-Keeps}

checked_pid_pos : (o : Option ℤ) (n : ℤ) → checked_pid o ≡ ok n → pos 0 <ℤ n
unfolding checked_pid
checked_pid_pos none n h = absurd cc
checked_pid_pos (some m) n h = elim (Bool-cases (leb_ℤ m (pos 0))) [
  | inl l ↦ absurd (let j = rw l at h in cc)
  | inr l ↦
      let j = rw l at h in let same : m ≡ n = cc in subst (λ i. pos 0 <ℤ i) same (ground (arith, l))
]

words_pos : (ws : List Text) (n : ℤ) → pid_of_words ws ≡ ok n → pos 0 <ℤ n
unfolding pid_of_words pid_of
words_pos [] n h = absurd cc
words_pos (w ∷ ws) n h = checked_pid_pos (atoi (last_of w ws)) n h

parse_pid_pos : (out : Text) (n : ℤ) → parse_pid out ≡ ok n → pos 0 <ℤ n
unfolding parse_pid
parse_pid_pos out n h = words_pos (fields out) n h

-- The job that StartJob gives back, running, and the table with it behind the sweep. The clock is
-- read twice at the end, for the start of the job and for the sweep.
pub record IsStarted {P : Type 0} (r : Remote P) (cmd : Command) (jobs : Dict Job) (v : Executor P)
    (j : Job) : Type 0 where
  pub before : P
  pub now : ℕ
  pub started : j.started_at ≡ (r.now before).1
  pub read : (v.platform, now) ≡ r.now (r.now before).0
  pub pod : j.pod_name ≡ cmd.pod_name
  pub up : j.running ≡ true
  pub above : pos 0 <ℤ j.pid
  pub stored : v.jobs ≡ insert j.id j (reap_jobs now jobs)

module _ {P : Type 0} (r : Remote P) (J : Dict Job) where
  register-IsStarted :
      (cmd : Command) (id : Text) (pid : ℤ) (v : Executor P)
      → Keeps r J v
      → pos 0 <ℤ pid
      → Ends (register r id cmd.pod_name pid v) (IsStarted r cmd J) (λ u e. Keeps r J u)
  unfolding register new_job
  register-IsStarted cmd id pid v h above =
      let at = (r.now (r.now v.platform).0).1 in
      record {
        outcome = record {
          before = v.platform;
          now = at;
          started = refl;
          read = refl;
          pod = refl;
          up = refl;
          above = above;
          stored =
              ap
                (λ m. insert id (new_job id cmd.pod_name pid (r.now v.platform).1) (reap_jobs at m))
                h;
        };
      }

  parse-Keeps :
      (out : Text) (v : Executor P)
      → Keeps r J v
      → Ends (from (parse_pid out) v) (λ u pid. Keeps r J u × (pos 0 <ℤ pid)) (λ u e. Keeps r J u)
  parse-Keeps out v h = elim (Result-cases (parse_pid out)) [
    | inl (n, e) ↦ rw e record { outcome = (h, parse_pid_pos out n e) }
    | inr (x, e) ↦ rw e record { outcome = h }
  ]

  adopt-IsStarted :
      (cmd : Command) (id : Text) (out : RunResult) (v : Executor P)
      → Keeps r J v
      → Ends (adopt r cmd.pod_name id out v) (IsStarted r cmd J) (λ u e. Keeps r J u)
  unfolding adopt
  adopt-IsStarted cmd id out v h =
      bind-Ends (λ u _. Keeps r J u) (from (succeeded (bytes "start job failed with exit ") out))
        (λ _. from (parse_pid out.stdout) >>= register r id cmd.pod_name) v
        (from-Holds (Keeps r J) (succeeded (bytes "start job failed with exit ") out) v h)
        (λ _ u k.
          bind-Ends (λ z pid. Keeps r J z × (pos 0 <ℤ pid)) (from (parse_pid out.stdout))
            (register r id cmd.pod_name) u (parse-Keeps out.stdout u k)
            (λ pid z l. register-IsStarted cmd id pid z l.0 l.1))

  launch-IsStarted :
      (cmd : Command) (line id : Text) (v : Executor P)
      → Keeps r J v
      → Ends (launch r cmd line id v) (IsStarted r cmd J) (λ u e. Keeps r J u)
  unfolding launch
  launch-IsStarted cmd line id v h =
      bind-Ends (λ u _. Keeps r J u) (run r _) (adopt r cmd.pod_name id) v (run-Keeps r J _ v h)
        (λ out u k. adopt-IsStarted cmd id out u k)

  pub start_job_lem :
      (cmd : Command) (v : Executor P)
      → Keeps r J v
      → Ends (start_job r cmd v) (IsStarted r cmd J) (λ u e. Keeps r J u)
  unfolding start_job
  start_job_lem cmd v h =
      bind-Ends (λ u _. Keeps r J u) (from (command_line cmd))
        (λ line. timed r.new_uuid >>= launch r cmd line) v
        (from-Holds (Keeps r J) (command_line cmd) v h)
        (λ line u k.
          bind-Ends (λ z _. Keeps r J z) (timed r.new_uuid) (launch r cmd line) u
            (timed-Keeps r J r.new_uuid u k) (λ id z l. launch-IsStarted cmd line id z l))

-- StartJob that succeeds gives back a running job of the command's pod with a process id above 0,
-- and the table is what the sweep leaves at the time that the clock shows at the end, with that job
-- under its id, started at the reading before; one that fails leaves the table as it was.
pub start_job-IsStarted :
    {P : Type 0} (r : Remote P) (cmd : Command) (x : Executor P)
    → Ends (start_job r cmd x) (IsStarted r cmd x.jobs) (λ u e. u.jobs ≡ x.jobs)
start_job-IsStarted r cmd x = start_job_lem r x.jobs cmd x refl

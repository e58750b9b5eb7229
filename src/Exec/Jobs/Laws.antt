-- ===== src/Exec/Jobs/Laws.antt =====
-- internal/exec/kubeexec.go: what StartJob, PollJob and StopJob do to the table of jobs.
use mathlib.Core.List.{Memᴰ}
use cloud_agent_sandbox.Base.{
  ℕ, ◌+◌, ◌≤◌, ◌≡◌, ◌≢◌, ◌↔◌, ◌⊎◌, inl, inr, refl, ap, Bool, true, false, not, Option, none, some,
  List, [], ◌∷◌, Text, ◌==◌, nat_eq, text_eq, eqb, select_mem, arith, Bool-cases,
}
use cloud_agent_sandbox.Base.Dict.{Dict, insert}
use cloud_agent_sandbox.Base.Int.{ℤ}
use cloud_agent_sandbox.Clock.{older_than_iff}
use cloud_agent_sandbox.Session.Model.{ok}
use cloud_agent_sandbox.Steps.{
  Ends, weaken-Ends, said-Ends, bind-Ends, ◌>>◌, pure, from, Holds, from-Holds, bind-Holds,
  pure-Holds,
}
use cloud_agent_sandbox.Exec.Model.{Command, Job, job_retention, job_hard_ttl}
use cloud_agent_sandbox.Exec.Remote.{Remote, Executor, timed, stream, run, run_timeout, classify}
use cloud_agent_sandbox.Exec.Output.{sentinel}
use cloud_agent_sandbox.Exec.Shell.{command_argv}
use cloud_agent_sandbox.Exec.Jobs.{
  is_evicted, reap_jobs, read_exit_code, process_alive, read_job_log, finish_at, refresh, log_of,
  settle, report, poll_found, exited_zero, put_job,
}

evicted_iff :
    (now : ℕ) (j : Job)
    → (not (is_evicted now j) ≡ true) ↔ (
        ((j.finished_at ≡ 0) ⊎ (now ≤ j.finished_at + job_retention))
        × (now ≤ j.started_at + job_hard_ttl))
unfolding is_evicted
evicted_iff now j = ground (
  arith,
  older_than_iff now j.finished_at job_retention (omega arith),
  older_than_iff now j.started_at job_hard_ttl (omega arith),
)

-- The sweep keeps exactly the jobs that are at most two hours old and that, once they are known to
-- have finished, did so at most fifteen minutes ago.
pub reap_jobs_exact :
    (now : ℕ) (jobs : Dict Job) (id : Text) (j : Job)
    → Memᴰ (id, j) (reap_jobs now jobs) ↔ (
        Memᴰ (id, j) jobs
        × ((j.finished_at ≡ 0) ⊎ (now ≤ j.finished_at + job_retention))
        × (now ≤ j.started_at + job_hard_ttl))
unfolding reap_jobs is_evicted
reap_jobs_exact now jobs id j =
    let mem = select_mem (λ (e : Text × Job). not (is_evicted now e.1)) (id, j) jobs in
    let kept = evicted_iff now j in
    (
      λ m. let w = mem.0 m in let k = kept.0 w.1 in (w.0, k.0, k.1),
      λ (m, f, g). mem.1 (m, kept.1 (f, g)),
    )

module _ {P : Type 0} (r : Remote P) (J : Dict Job) where
  abbrev pub Keeps : Executor P → Type 0
  Keeps v = v.jobs ≡ J

  stream-Keeps :
      (limit : Option ℤ) (pod : Text) (argv : List Text) (stdin : Option Text) (v : Executor P)
      → Keeps v
      → Holds Keeps (stream r limit pod argv stdin v)
  unfolding stream
  stream-Keeps limit pod [] stdin v h = ground arith
  stream-Keeps limit pod (a ∷ argv) stdin v h = ground arith

  pub timed-Keeps :
      {A : Type 0} (f : P → P × A) (v : Executor P) → Keeps v → Holds Keeps (timed f v)
  timed-Keeps f v h = record { outcome = h }

  pub run-Keeps : (cmd : Command) (v : Executor P) → Keeps v → Holds Keeps (run r cmd v)
  unfolding run
  run-Keeps cmd v h =
      bind-Holds Keeps (from (command_argv cmd)) _ v (from-Holds Keeps (command_argv cmd) v h)
        λ argv u k.
          bind-Holds Keeps (stream r (some (run_timeout r cmd.timeout)) cmd.pod_name argv cmd.stdin)
            _ u (stream-Keeps _ _ argv _ u k)
            λ s t l.
              bind-Holds Keeps (timed (r.expired (some (run_timeout r cmd.timeout)))) _ t
                (timed-Keeps (r.expired (some (run_timeout r cmd.timeout))) t l)
                λ late z m. from-Holds Keeps (classify r s late) z m

  read_exit_code-Keeps :
      (pod rc_file : Text) (v : Executor P) → Keeps v → Holds Keeps (read_exit_code r pod rc_file v)
  unfolding read_exit_code
  read_exit_code-Keeps pod rc_file v h = elim (Bool-cases (rc_file == [])) [
    | inl e ↦ rw e record { outcome = h }
    | inr e ↦ rw e (pure-Holds Keeps (run r _) (λ res. sentinel res.stdout) v (run-Keeps _ v h))
  ]

  process_alive-Keeps :
      (pod : Text) (pid : ℤ) (v : Executor P) → Keeps v → Holds Keeps (process_alive r pod pid v)
  unfolding process_alive
  process_alive-Keeps pod pid v h =
      pure-Holds Keeps (run r _) (λ res. exited_zero res.exit_code) v (run-Keeps _ v h)

  read_job_log-Keeps :
      (pod log_file : Text) (v : Executor P) → Keeps v → Holds Keeps (read_job_log r pod log_file v)
  unfolding read_job_log
  read_job_log-Keeps pod log_file v h =
      bind-Holds Keeps (stream r none pod _ none) _ v (stream-Keeps none pod _ none v h)
        λ s u k. from-Holds Keeps (log_of r s) u k

-- The job that was started is still the one that is described: only its status may differ.
pub record IsUpdate (j k : Job) : Type 0 where
  pub same_id : k.id ≡ j.id
  pub same_pod : k.pod_name ≡ j.pod_name
  pub same_pid : k.pid ≡ j.pid
  pub same_log : k.log_file ≡ j.log_file
  pub same_rc : k.rc_file ≡ j.rc_file
  pub same_start : k.started_at ≡ j.started_at

is_update :
    {j k : Job}
    → k.id ≡ j.id
    → k.pod_name ≡ j.pod_name
    → k.pid ≡ j.pid
    → k.log_file ≡ j.log_file
    → k.rc_file ≡ j.rc_file
    → k.started_at ≡ j.started_at
    → IsUpdate j k
is_update a b c d e f = record {
  same_id = a;
  same_pod = b;
  same_pid = c;
  same_log = d;
  same_rc = e;
  same_start = f;
}

module _ {P : Type 0} (r : Remote P) (j : Job) where
  -- A job that has finished with a code: the time at which this was first seen stays, and is read
  -- off the clock if there was none.
  abbrev pub IsDone : ℤ → Job → Type 0
  IsDone code k =
      (k.running ≡ false)
      × (k.exit_code ≡ code)
      × (((j.finished_at ≢ 0) × (k.finished_at ≡ j.finished_at))
          ⊎ ((j.finished_at ≡ 0) × ((q : P) × (k.finished_at ≡ (r.now q).1))))

  -- A job without a sentinel: it runs if its process is alive, and has finished otherwise.
  abbrev pub IsSettled : Bool → Job → Type 0
  IsSettled true k =
      (k.running ≡ true) × (k.exit_code ≡ j.exit_code) × (k.finished_at ≡ j.finished_at)
  IsSettled false k = IsDone j.exit_code k

  -- The status by what the sandbox answers: first the sentinel, then whether the process is alive.
  abbrev pub IsStatus : Executor P → Job → Type 0
  IsStatus x k =
      ((u : Executor P) × (c : ℤ) × (read_exit_code r j.pod_name j.rc_file x ≡ (u, ok (some c)))
        × IsDone c k)
      ⊎ ((u : Executor P) × (read_exit_code r j.pod_name j.rc_file x ≡ (u, ok none))
          × ((b : Bool) × ((process_alive r j.pod_name j.pid u).1 ≡ ok b) × IsSettled b k))

module _ {P : Type 0} (r : Remote P) (J : Dict Job) (j : Job) where
  finish_at-IsDone :
      (code : ℤ) (v : Executor P)
      → Keeps r J v
      → Ends
          (finish_at r (record j { running = false; exit_code = code }) v)
          (λ u k. Keeps r J u × IsUpdate j k × IsDone r j code k)
          (λ u e. Keeps r J u)
  unfolding finish_at
  finish_at-IsDone code v h = elim (Bool-cases (eqb j.finished_at 0)) [
    | inl e ↦ rw e record {
      outcome = (
        h,
        is_update refl refl refl refl refl refl,
        (refl, refl, inr ((nat_eq.beq_iff j.finished_at 0).0 e, (v.platform, refl))),
      );
    }
    | inr e ↦ rw e record {
      outcome = (
        h,
        is_update refl refl refl refl refl refl,
        (refl, refl, inl (λ q. let t = (nat_eq.beq_iff j.finished_at 0).1 q in cc (t, e), refl)),
      );
    }
  ]

  settle-IsSettled :
      (alive : Bool) (v : Executor P)
      → Keeps r J v
      → Ends
          (settle r j alive v)
          (λ u k. Keeps r J u × IsUpdate j k × IsSettled r j alive k)
          (λ u e. Keeps r J u)
  unfolding settle
  settle-IsSettled true v h = record {
    outcome = (h, is_update refl refl refl refl refl refl, (refl, refl, refl));
  }
  settle-IsSettled false v h = finish_at-IsDone j.exit_code v h

  refresh-IsStatus :
      (x : Executor P) (code : Option ℤ) (v : Executor P)
      → Keeps r J v
      → read_exit_code r j.pod_name j.rc_file x ≡ (v, ok code)
      → Ends
          (refresh r j code v)
          (λ u k. Keeps r J u × IsUpdate j k × IsStatus r j x k)
          (λ u e. Keeps r J u)
  unfolding refresh
  refresh-IsStatus x (some code) v h t =
      weaken-Ends _ (finish_at-IsDone code v h) (λ k u l. (l.0, l.1, inl (v, code, t, l.2)))
        (λ e u l. l)
  refresh-IsStatus x none v h t =
      bind-Ends (λ u b. Keeps r J u × (process_alive r j.pod_name j.pid v ≡ (u, ok b)))
        (process_alive r j.pod_name j.pid) (settle r j) v
        (said-Ends _ (process_alive-Keeps r J j.pod_name j.pid v h))
        (λ b u k.
          weaken-Ends _ (settle-IsSettled b u k.0)
            (λ i z l. (l.0, l.1, inr (v, t, (b, ap (λ o. o.1) k.1, l.2)))) (λ e z l. l))

-- The table with one job replaced by its new status, or added.
abbrev pub Polled : {P : Type 0} → Dict Job → Job → Executor P → Job → Type 0
Polled jobs j v k = IsUpdate j k × (v.jobs ≡ insert k.id k jobs)

-- What a poll of the job `j` from `x` gives back and leaves: the job with its new status, under its
-- id in the table, and what the sandbox answered for its log.
pub record IsReport {P : Type 0} (r : Remote P) (x : Executor P) (jobs : Dict Job) (j : Job)
    (v : Executor P) (k : Job) (log : Text) : Type 0 where
  pub polled : Polled jobs j v k
  pub status : IsStatus r j x k
  pub read : (z : Executor P) × ((read_job_log r j.pod_name j.log_file z).1 ≡ ok log)

module _ {P : Type 0} (r : Remote P) (J : Dict Job) where
  report-IsReport :
      (x : Executor P) (j k : Job) (v : Executor P)
      → Keeps r J v
      → IsUpdate j k
      → IsStatus r j x k
      → Ends (report r k v) (λ u p. IsReport r x J j u p.0 p.1) (λ u e. Keeps r J u)
  unfolding report put_job
  report-IsReport x j k v h u s =
      bind-Ends (λ z log. Keeps r J z × (read_job_log r k.pod_name k.log_file v ≡ (z, ok log)))
        (read_job_log r k.pod_name k.log_file) (λ log. put_job r k >> pure (k, log)) v
        (said-Ends _ (read_job_log-Keeps r J k.pod_name k.log_file v h))
        (λ log z l. record {
          outcome = record {
            polled = (u, ap (insert k.id k) l.0);
            status = s;
            read = (v, rw (← u.same_pod, ← u.same_log) (ap (λ o. o.1) l.1));
          };
        })

  pub poll_found-IsReport :
      (j : Job) (x : Executor P)
      → Keeps r J x
      → Ends (poll_found r j x) (λ u p. IsReport r x J j u p.0 p.1) (λ u e. Keeps r J u)
  unfolding poll_found
  poll_found-IsReport j x h =
      bind-Ends (λ u code. Keeps r J u × (read_exit_code r j.pod_name j.rc_file x ≡ (u, ok code)))
        (read_exit_code r j.pod_name j.rc_file) _ x
        (said-Ends _ (read_exit_code-Keeps r J j.pod_name j.rc_file x h))
        λ code u k.
          bind-Ends (λ z i. Keeps r J z × IsUpdate j i × IsStatus r j x i) (refresh r j code)
            (report r) u (refresh-IsStatus r J j x code u k.0 k.1)
            (λ i z l. report-IsReport x j i z l.0 l.1 l.2)

-- ===== src/Exec/Jobs/Table.antt =====
-- internal/exec/kubeexec.go: the table of background jobs over a sequence of calls.
use mathlib.Core.List.{Memᴰ}
use cloud_agent_sandbox.Base.{
  ◌≡◌, ◌≢◌, inl, inr, refl, sym, subst, false, some, List, [], ◌∷◌, Text, ◌==◌, nat_eq, text_eq,
  arith,
}
use cloud_agent_sandbox.Base.Dict.{Dict, lookup}
use cloud_agent_sandbox.Base.Int.{pos, ◌<ℤ◌}
use cloud_agent_sandbox.Session.Model.{Error, ok, err}
use cloud_agent_sandbox.Steps.{Ends, bind-ok, bind-err, Result-cases, weaken-Ends}
use cloud_agent_sandbox.Exec.Model.{Command, Job}
use cloud_agent_sandbox.Exec.Remote.{Remote, Executor}
use cloud_agent_sandbox.Exec.Jobs.{
  lookup_job, start_job, poll_job, stop_job, poll_found, stop_found, find_job,
}
use cloud_agent_sandbox.Exec.Jobs.Laws.{IsReport, poll_found-IsReport}

refused :
    {P : Type 0} (r : Remote P) (pod id : Text) (x : Executor P) (e : Error)
    → lookup_job pod id x.jobs ≡ err e
    → id ≢ []
    → (poll_job r pod id x ≡ (x, err e)) × (stop_job r pod id x ≡ (x, err e))
unfolding poll_job stop_job find_job
refused r pod id x e h named =
    let given : (id == []) ≡ false = ground (arith, text_eq.beq_iff id [], named) in
    (
      bind-err (find_job r pod id) (poll_found r) x e h,
      rw given (bind-err (find_job r pod id) (stop_found r id) x e h),
    )

lookup_job_owned :
    (pod id : Text) (jobs : Dict Job) (j : Job)
    → pod ≢ []
    → lookup_job pod id jobs ≡ ok j
    → (lookup id jobs ≡ some j) × (j.pod_name ≡ pod)
unfolding lookup_job
lookup_job_owned pod id jobs j named h =
    ground (arith, h, named, text_eq.beq_iff pod [], text_eq.beq_iff pod j.pod_name)

-- A call of PollJob or StopJob for one pod that names a job which is not in the table, or which
-- runs in another pod, fails and does nothing: no command runs in any sandbox.
pub poll_job_isolated :
    {P : Type 0} (r : Remote P) (pod id : Text) (x : Executor P)
    → pod ≢ []
    → id ≢ []
    → ((j : Job) → lookup id x.jobs ≡ some j → j.pod_name ≢ pod)
    → (e : Error) × (poll_job r pod id x ≡ (x, err e)) × (stop_job r pod id x ≡ (x, err e))
poll_job_isolated r pod id x p n foreign = elim (Result-cases (lookup_job pod id x.jobs)) [
  | inl (j, h) ↦ let o = lookup_job_owned pod id x.jobs j p h in absurd (foreign j o.0 o.1)
  | inr (e, h) ↦ let w = refused r pod id x e h n in (e, w.0, w.1)
]

-- Every job stands under its own id and has a process id above 0.
unfoldable pub IsValid : Dict Job → Type 0
IsValid jobs = (id : Text) (j : Job) → Memᴰ (id, j) jobs → (j.id ≡ id) × (pos 0 <ℤ j.pid)

lookup_job_found :
    (pod id : Text) (jobs : Dict Job) (j : Job)
    → lookup_job pod id jobs ≡ ok j
    → lookup id jobs ≡ some j
unfolding lookup_job
lookup_job_found pod id jobs j h = ground (arith, h)

module _ {P : Type 0} (r : Remote P) where
  -- PollJob that succeeds has found the job and gives it back with its identity, pod, process and
  -- files as they were. If its sentinel holds a code, it has finished with that code; if there is
  -- none, it runs exactly if its process is alive, and has finished with the code it had otherwise.
  -- The time of a finish is kept once it is known. The log is what the sandbox answers, and exactly
  -- this job is written into the table. PollJob that fails leaves the table as it was.
  pub poll_job-IsReport :
      (pod id : Text) (x : Executor P)
      → Ends
          (poll_job r pod id x)
          (λ u p. (j : Job) × (lookup id x.jobs ≡ some j) × IsReport r x x.jobs j u p.0 p.1)
          (λ u e. u.jobs ≡ x.jobs)
  unfolding poll_job find_job
  poll_job-IsReport pod id x = elim (Result-cases (lookup_job pod id x.jobs)) [
    | inl (j, h) ↦
        subst
          (λ o.
            Ends o
              (λ u p. (j : Job) × (lookup id x.jobs ≡ some j) × IsReport r x x.jobs j u p.0 p.1)
              (λ u e. u.jobs ≡ x.jobs))
          (sym (bind-ok (find_job r pod id) (poll_found r) x j h))
          (weaken-Ends (poll_found r j x) (poll_found-IsReport r x.jobs j x refl)
            (λ p z l. (j, lookup_job_found pod id x.jobs j h, l)) (λ e z l. l))
    | inr (e, h) ↦
        subst
          (λ o.
            Ends o
              (λ u p. (j : Job) × (lookup id x.jobs ≡ some j) × IsReport r x x.jobs j u p.0 p.1)
              (λ u e. u.jobs ≡ x.jobs))
          (sym (bind-err (find_job r pod id) (poll_found r) x e h)) record { outcome = refl }
  ]

-- The calls of an executor that work with jobs.
pub data Call : Type 0 where
  start : Command → Call
  poll stop : Text → Text → Call

module _ {P : Type 0} (r : Remote P) where
  abbrev pub after : Call → Executor P → Executor P
  after (start cmd) x = (start_job r cmd x).0
  after (poll pod id) x = (poll_job r pod id x).0
  after (stop pod id) x = (stop_job r pod id x).0

  abbrev pub after_all : List Call → Executor P → Executor P
  after_all [] x = x
  after_all (c ∷ cs) x = after_all cs (after c x)

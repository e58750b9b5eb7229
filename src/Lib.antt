-- ===== src/Lib.antt =====
-- Verification of the sandbox orchestrator: a service that runs one container sandbox per session on
-- Kubernetes, in answer to HTTP and tool requests.
--
-- The parts and how they interact. The Manager (internal/manager/manager.go) creates, stops,
-- resumes and deletes sandboxes: it calls the container runtime, the warm pool, the proxy assigner
-- and the proxy autoscaler, and keeps one record per session in the session store
-- (internal/session/store.go). The Reaper (internal/reaper/reaper.go) ticks: it asks the Manager to
-- sweep what the store does not know and to stop and delete what has expired. The warm pool
-- (internal/pool/pool.go) keeps sandboxes ready. The configuration (internal/config/config.go)
-- gives the limits. In front of the Manager stand the HTTP interface (internal/api/api.go) and the
-- tools (internal/mcp/server.go), which run commands and edit files in the sandbox of their caller
-- by the executor (internal/exec/kubeexec.go). The runtime on Kubernetes
-- (internal/runtime/kubernetes.go) is behind the Manager, and the check of the network policy
-- (internal/netpolicy/verify.go) in front of everything, at the start. The program
-- (cmd/orchestrator/main.go) checks its key and that policy, wires these parts together and puts
-- the two interfaces behind the key.
--
-- Which file models which part:
--   Session/Model    session.go: State, Session, CreateOptions, and the error values
--   Session/Store    store.go: MemoryStore and its methods; Laws on its well-formedness, Spec with
--                    the abstract map that it implements
--   Session/Id       id.go: NewID and CanonicalID; Slug and Laws have the proofs, Kube/Pod/Names
--                    those on the names made of ids
--   Config/Model     config.go: the records, Default, Validate; Config/Parse has strconv.Atoi and
--                    ParseBool; Config/Load has Load and the env helpers; Config/Laws and
--                    Config/Load/Laws the proofs
--   Runtime/Model    internal/runtime/runtime.go: the data exchanged with the platform
--   Clock, Strings   time.Time.Sub and strings.TrimSpace, with what the source uses of them
--   Manager/World    the Manager's fields, what it calls, and the monad of its steps; Outcome has
--                    the rules for the two ways in which a step ends, Effects those for frames
--   Manager/Create   Create, split at its comments into admit, choose_id, new_session,
--                    assign_proxy, obtain, persist and bring_up; Stages, Laws and Success have the
--                    proofs
--   Manager/Lifecycle  Get, Require, Stop, Resume, Delete, Clear and purgeAndForget
--   Manager/Ensure   EnsureSession
--   Manager/Activity Touch, BeginActivity, EndActivity and HasActiveCalls
--   Manager/Sweep    SweepOrphans
--   Pool             WarmPool; Pool/Laws has its steps in any interleaving, Pool/Filling the loop
--   Autoscaler       internal/proxy/autoscaler.go: the number of proxy replicas, and scaling to it;
--                    Autoscaler/Waiting has EnsureReady
--   Exec/Model       internal/exec/exec.go: Command, Result, Job, FileInfo, and the limits
--   Exec/Shell       internal/exec/kubeexec.go: shellQuote, shellJoin, commandArgv, commandLine;
--                    Exec/Shell/Reading is the part of POSIX sh that reads such lines
--   Exec/Buffers     capBuffer and tailBuffer
--   Exec/Output      parsePID, parseFindList and the exit code in the sentinel
--   Exec/Remote      KubeExecutor, stream and Run
--   Exec/Jobs        StartJob, PollJob, StopJob and the table of jobs
--   Exec/Files       ReadFile, WriteFile and ListDir
--   Kube/Model       internal/runtime/kubernetes.go: the parts of the Kubernetes objects in use
--   Kube/Pod         buildPod with its helpers, handleFromPod and what the listings read
--   Kube/Calls       the operations of KubeRuntime over the API server
--   Mcp/Model        internal/mcp/server.go: the caller, the state of the tools, their texts
--   Mcp/Tools        the handlers: each in its session, over the Manager, Exec and Edit
--   Api              internal/api/api.go: routing, the handlers and the statuses
--   Assigner         internal/proxy/assigner.go: the shared proxy and the secret of its CA
--   Netpolicy        internal/netpolicy/verify.go: Verify, over what the API server lists
--   Steps            the monad of the steps beside the Manager, with the rules for their ends
--   Edit             internal/mcp/edit.go: the edits of a text behind the file tools; Edit/Laws has
--                    the replacement, Edit/Laws/Lines the insertion, Edit/Laws/Display the lines
--   Reaper           the expiry rules and one tick
--   Mcp/Entry        the identity of a caller, the dispatch of a call to its tool, and the eager
--                    loads (Entry/Laws)
--   Orchestrator     cmd/orchestrator/main.go: Start has the guards of `run`, Wiring what it wires,
--                    Front the mux and requireAPIKey, Running the program as a run of events, with
--                    Pods on the pods that it submits
--   Tests            a small platform and one run of each operation
--
-- How the code is rendered. A string is its list of bytes, an instant and a duration are numbers of
-- nanoseconds, a pointer that may be nil is an option. The platform has a state `P` of which
-- nothing is assumed: every call of the runtime, the pool, the proxy, the clock and a context may
-- change it and may answer anything, so that the theorems hold for all failures. A method that
-- returns an error gives a result, and what it did before the error stays done. A Go map is an
-- association list. A section under a mutex is one atomic step: the calls of the store, the slots
-- of the pool and the count of calls in flight. EnsureSession and Clear hold a lock per id and are
-- taken as one step on that id; requests for other ids may interleave in the program with the
-- steps of Create, which is modelled for one request at a time. Logging is left out.
--
-- Fuel. `replenish_loop` runs on fuel; one more than the number of sandboxes that are missing is
-- enough when nobody takes from the pool meanwhile. `collapse` in Session/Id and the trimming loops
-- in Strings take the length of their text, which shrinks at each round, and `fields` one more; so
-- does the count of matches in Edit. `wait_proxy_ready` has a round for each second of its timeout
-- and two more, which is enough on a clock that shows the pauses. `await_gone` has one unit for each
-- tick of its minute, and `wait_ready` one for each round before its deadline, which Orchestrator
-- gives it as `ready_rounds`; `wait_loop` of the shell_wait tool has the same. The context may end
-- sooner. All else is structural.
--
-- What is not modelled: SHA-256, the UUIDs, time.ParseDuration, the API server of Kubernetes and the
-- exec subresource of its pods, which are parameters (the Manager takes the runtime as one, too, so
-- that its theorems hold for any runtime); tickers and goroutines; the middleware of the HTTP
-- server, the generation of the CA, the signals and the shutdown. The mux sees a path that is clean:
-- the redirect with which net/http answers an unclean path, before any handler and without the key,
-- is left out. The runs of the whole orchestrator leave the eager loads out. The namespace of the Kubernetes objects is one and is left out. The
-- shell of the sandbox is modelled as far as the quoted words, the spaces and the `&&` of the lines
-- that the executor makes.
pub mod Api
pub mod Assigner
pub mod Autoscaler
pub mod Base
pub mod Clock
pub mod Config
pub mod Edit
pub mod Exec
pub mod Kube
pub mod Manager
pub mod Mcp
pub mod Netpolicy
pub mod Orchestrator
pub mod Pool
pub mod Reaper
pub mod Runtime
pub mod Session
pub mod Steps
pub mod Strings
pub mod Tests

-- ===== src/Kube/Calls.antt =====
-- internal/runtime/kubernetes.go: the operations of KubeRuntime. The API server is an environment
-- with a state `P`; every call may change it and answer anything.
pub mod Laws
use cloud_agent_sandbox.Base.{
  ℕ, zero, suc, Bool, true, false, not, ◌||◌, Option, none, some, List, [], ◌∷◌, ◌++◌, Text, bytes,
  ◌==◌, nat_eq, text_eq, if◌then◌else◌,
}
use cloud_agent_sandbox.Session.Model.{Error, message, wrap, Result, ok, err}
use cloud_agent_sandbox.Steps.{Step, ◌>>=◌, ◌>>◌, pure, fail, from, catch, wrapped, ignore}
use cloud_agent_sandbox.Config.Model.{SandboxConfig}
use cloud_agent_sandbox.Runtime.Model.{SandboxSpec, SandboxHandle, SandboxRef, WorkspaceRef}
use cloud_agent_sandbox.Kube.Model.{
  Pod, ContainerStatus, LivePod, Claim, LiveClaim, Secret, Answer, found, missing, failed,
}
use cloud_agent_sandbox.Kube.Pod.{
  session_label, ca_secret_key, pod_name, pvc_name, ca_secret_name, session_id_from_pod_name,
  labels, label_of, build_pod, handle_from_pod, sandbox_refs, workspace_refs,
}

-- The calls of the API server, and resource.ParseQuantity. `tick` waits for the next tick or the end
-- of the context, and says whether it was the end. The creation of a pod is an argument of its own
-- where it is called.
pub record Api (P : Type 0) : Type 0 where
  pub parse_quantity : Text → Option Error
  pub get_pvc : Text → P → P × Answer LiveClaim
  pub create_pvc : Claim → P → P × Option Error
  pub delete_pvc : Text → P → P × Answer (Unit {0})
  pub create_secret : Secret → P → P × Option Error
  pub delete_secret : Text → P → P × Answer (Unit {0})
  pub get_pod : Text → P → P × Answer LivePod
  pub delete_pod : Text → P → P × Answer (Unit {0})
  pub list_pods : P → P × Result (List LivePod)
  pub list_pvcs : P → P × Result (List LiveClaim)
  pub tick : P → P × Bool

abbrev pub CreatePod : Type 0 → Type 0
CreatePod P = Pod → P → P × Result LivePod

unfoldable pub checked : Option Error → Result (Unit {0})
checked none = ok tt
checked (some e) = err e

-- `if err != nil && !apierrors.IsNotFound(err)`
unfoldable pub gone : Answer (Unit {0}) → Result (Unit {0})
gone (found u) = ok tt
gone missing = ok tt
gone (failed e) = err e

-- The reason and the message of the first container that cannot pull its image.
unfoldable pub pull_error : List ContainerStatus → Option (Text × Text)
pull_error [] = none
pull_error (s ∷ ss) = elim s.waiting [
  | none ↦ pull_error ss
  | some w ↦
      let rest = pull_error ss in
      if w.0 == bytes "ImagePullBackOff" || w.0 == bytes "ErrImagePull" then some w else rest
]

-- The ticks of half a second in the minute that waitPVCGone allows.
abbrev pub claim_ticks : ℕ
claim_ticks = 120

module _ {P : Type 0} (api : Api P) where
  abbrev ask : {A : Type 0} → (P → P × A) → Step P A
  ask f p = ((f p).0, ok (f p).1)

  abbrev pub check : (P → P × Option Error) → Step P (Unit {0})
  check f p = ((f p).0, checked (f p).1)

  abbrev pub remove : (P → P × Answer (Unit {0})) → Step P (Unit {0})
  remove f p = ((f p).0, gone (f p).1)

  -- The loop of waitPVCGone.
  unfoldable pub await_gone : ℕ → Text → Step P (Unit {0})
  await_gone zero name = fail (message (bytes "wait for pvc "))
  await_gone (suc n) name =
      let rest = await_gone n name in
      do
        done ← ask api.tick
        elim done [
          | true ↦ fail (message (bytes "wait for pvc "))
          | false ↦ do
            a ← ask (api.get_pvc name)
            elim a [ found c ↦ rest | missing ↦ pure tt | failed e ↦ rest ]
        ]

  unfoldable pub await_claim : Text → Answer LiveClaim → Step P (Unit {0})
  await_claim name missing = pure tt
  await_claim name (failed e) = fail (wrap (bytes "get pvc ") e)
  await_claim name (found c) = if c.terminating then await_gone claim_ticks name else pure tt

  -- waitPVCGone
  unfoldable pub wait_pvc_gone : Text → Step P (Unit {0})
  wait_pvc_gone name = do a ← ask (api.get_pvc name); await_claim name a

  -- createCASecret
  unfoldable pub create_ca_secret : SandboxSpec → Step P (Unit {0})
  create_ca_secret spec =
      if spec.ca_cert == []
      then pure tt
      else wrapped (bytes "create ca secret ") (
          check (
            api.create_secret (record {
              name = ca_secret_name spec.session_id;
              labels = labels spec;
              data_key = ca_secret_key;
              content = spec.ca_cert;
            })))

  -- deleteCASecret
  unfoldable pub delete_ca_secret : Text → Step P (Unit {0})
  delete_ca_secret id =
      wrapped (bytes "delete ca secret for session ")
        (remove (api.delete_secret (ca_secret_name id)))

  -- Create's clean-up behind a pod that is refused.
  unfoldable pub roll_back : SandboxSpec → Step P (Unit {0})
  roll_back spec = do
    ignore (delete_ca_secret spec.session_id)
    ignore (remove (api.delete_pvc (pvc_name spec.session_id)))

  -- Create in front of the pod.
  unfoldable pub prepare : SandboxConfig → SandboxSpec → Step P (Unit {0})
  prepare sc spec = do
    wrapped (bytes "parse workspace size: ") (from (checked (api.parse_quantity sc.workspace_size)))
    wait_pvc_gone (pvc_name spec.session_id)
    wrapped (bytes "create pvc ") (
        check (
          api.create_pvc (record {
            name = pvc_name spec.session_id;
            labels = labels spec;
            access_modes = bytes "ReadWriteOnce" ∷ [];
            storage = sc.workspace_size;
          })))
    create_ca_secret spec

  -- Create, for the pod that `submit` gives back.
  unfoldable pub create_with :
      SandboxConfig → SandboxSpec → (P → P × Result LivePod) → Step P SandboxHandle
  create_with sc spec submit = do
    prepare sc spec
    p ← catch submit λ e. do roll_back spec; fail (wrap (bytes "create pod ") e)
    pure (handle_from_pod p)

  -- Resume, for the pod that `submit` gives back.
  unfoldable pub resume_with : SandboxSpec → (P → P × Result LivePod) → Step P SandboxHandle
  resume_with spec submit = do
    create_ca_secret spec
    p ← wrapped (bytes "create pod ") submit
    pure (handle_from_pod p)

  -- Create
  unfoldable pub create : SandboxConfig → CreatePod P → SandboxSpec → Step P SandboxHandle
  create sc create_pod spec =
      create_with sc spec (create_pod (build_pod sc spec (pvc_name spec.session_id)))

  -- Resume
  unfoldable pub resume : SandboxConfig → CreatePod P → SandboxSpec → Text → Step P SandboxHandle
  resume sc create_pod spec pvc = resume_with spec (create_pod (build_pod sc spec pvc))

  -- The session whose secret Stop deletes.
  unfoldable pub session_of : Text → Answer LivePod → Result Text
  session_of name (found p) =
      let v = label_of session_label p.pod.labels in
      ok (if v == [] then session_id_from_pod_name name else v)
  session_of name missing = ok (session_id_from_pod_name name)
  session_of name (failed e) = err (wrap (bytes "get pod ") e)

  -- `if sessionID != ""`
  unfoldable pub delete_secret_of : Text → Step P (Unit {0})
  delete_secret_of id = if id == [] then pure tt else delete_ca_secret id

  -- Stop
  unfoldable pub stop : Text → Step P (Unit {0})
  stop name = do
    a ← ask (api.get_pod name)
    id ← from (session_of name a)
    wrapped (bytes "delete pod ") (remove (api.delete_pod name))
    delete_secret_of id

  -- Purge
  unfoldable pub purge : Text → Text → Step P (Unit {0})
  purge name pvc = do
    wrapped (bytes "delete pod ") (remove (api.delete_pod name))
    delete_secret_of (session_id_from_pod_name name)
    wrapped (bytes "delete pvc ") (remove (api.delete_pvc pvc))

  unfoldable pub handle_of : Answer LivePod → Result SandboxHandle
  handle_of (found p) = ok (handle_from_pod p)
  handle_of missing = err (message (bytes "get pod "))
  handle_of (failed e) = err (wrap (bytes "get pod ") e)

  -- Get
  unfoldable pub get : Text → Step P SandboxHandle
  get name = do a ← ask (api.get_pod name); from (handle_of a)

  -- imagePullError
  unfoldable pub image_pull_error : Text → Step P (Option (Text × Text))
  image_pull_error name = do
    a ← ask (api.get_pod name)
    elim a [ found p ↦ pure (pull_error p.statuses) | missing ↦ pure none | failed e ↦ pure none ]

  -- The select of WaitReady: `rest` is the next round.
  unfoldable pub until_tick : Step P (Unit {0}) → Error → Step P (Unit {0})
  until_tick rest e = do done ← ask api.tick; elim done [ true ↦ fail e | false ↦ rest ]

  -- One round of WaitReady behind its Get.
  unfoldable pub ready_round : Text → Step P (Unit {0}) → Result SandboxHandle → Step P (Unit {0})
  ready_round name rest (err e) = until_tick rest (wrap (bytes "wait for pod ") e)
  ready_round name rest (ok h) = if h.ready then pure tt else do
    bad ← image_pull_error name
    elim bad [
      | none ↦ until_tick rest (message (bytes "context deadline exceeded"))
      | some w ↦
          fail (message (bytes "sandbox image cannot be pulled (" ++ w.0 ++ bytes "): " ++ w.1))
    ]

  -- WaitReady, in as many rounds as its deadline allows.
  unfoldable pub wait_ready : ℕ → Text → Step P (Unit {0})
  wait_ready zero name = fail (message (bytes "context deadline exceeded"))
  wait_ready (suc n) name =
      let rest = wait_ready n name in
      do a ← ask (api.get_pod name); ready_round name rest (handle_of a)

  -- ListSandboxes and ListWorkspaces
  unfoldable pub list_sandboxes : Step P (List SandboxRef)
  list_sandboxes = do
    ps ← wrapped (bytes "list sandbox pods: ") api.list_pods
    pure (sandbox_refs ps)

  unfoldable pub list_workspaces : Step P (List WorkspaceRef)
  list_workspaces = do
    cs ← wrapped (bytes "list sandbox pvcs: ") api.list_pvcs
    pure (workspace_refs cs)

-- ===== src/Kube/Pod.antt =====
-- internal/runtime/kubernetes.go: names, labels and the pod of a sandbox.
pub mod Laws
pub mod Names
use cloud_agent_sandbox.Base.{
  ℕ, Bool, true, false, not, ◌&&◌, ◌||◌, Option, none, some, List, [], ◌∷◌, ◌++◌, Text, bytes, ◌==◌,
  nat_eq, text_eq, if◌then◌else◌,
}
use cloud_agent_sandbox.Base.Dict.{Dict, lookup, insert}
use cloud_agent_sandbox.Base.Int.{ℤ, pos}
use cloud_agent_sandbox.Strings.{trim_prefix}
use cloud_agent_sandbox.Config.Model.{SandboxConfig}
use cloud_agent_sandbox.Runtime.Model.{SandboxSpec, SandboxHandle, SandboxRef, WorkspaceRef}
use cloud_agent_sandbox.Kube.Model.{
  Source, claim, empty_dir, secret, Volume, Mount, SecurityContext, Container, Seccomp,
  runtime_default, localhost, Pod, ContainerStatus, LivePod, LiveClaim,
}

abbrev pub session_label : Text
session_label = bytes "sandbox/session"

abbrev pub pool_label : Text
pool_label = bytes "sandbox/pool"

abbrev pub ca_secret_key : Text
ca_secret_key = bytes "ca.crt"

-- podName, pvcName and caSecretName
unfoldable pub pod_name : Text → Text
pod_name id = bytes "sbx-" ++ id

unfoldable pub pvc_name : Text → Text
pvc_name id = bytes "pvc-" ++ id

unfoldable pub ca_secret_name : Text → Text
ca_secret_name id = bytes "ca-" ++ id

-- sessionIDFromPodName
unfoldable pub session_id_from_pod_name : Text → Text
session_id_from_pod_name = trim_prefix (bytes "sbx-")

-- The copy of one map of labels over another.
unfoldable pub overlay : Dict Text → Dict Text → Dict Text
overlay [] m = m
overlay ((k, v) ∷ es) m = overlay es (insert k v m)

-- KubeRuntime.labels
unfoldable pub labels : SandboxSpec → Dict Text
labels spec =
    overlay spec.labels
      (insert session_label spec.session_id (insert (bytes "app") (bytes "sandbox") []))

-- The value of a missing key is the empty text.
unfoldable pub label_of : Text → Dict Text → Text
label_of k m = elim (lookup k m) [ none ↦ [] | some v ↦ v ]

unfoldable pub image_or_default : Text → Text → Text
image_or_default image fallback = if image == [] then fallback else image

-- imagePullPolicy
unfoldable pub image_pull_policy : Text → Text
image_pull_policy policy =
    if policy == bytes "Always" || policy == bytes "Never" || policy == bytes "IfNotPresent"
    then policy
    else bytes "IfNotPresent"

-- stringPtrOrNil and quantityPtrOrNil
unfoldable pub text_or_nil : Text → Option Text
text_or_nil t = if t == [] then none else some t

-- One entry of resourceList.
unfoldable pub with_resource : Text → Text → Dict Text → Dict Text
with_resource k v m = if v == [] then m else insert k v m

-- resourceList
unfoldable pub resource_list : Text → Text → Text → Dict Text
resource_list cpu memory ephemeral =
    with_resource (bytes "ephemeral-storage") ephemeral
      (with_resource (bytes "memory") memory (with_resource (bytes "cpu") cpu []))

-- seccompProfile
unfoldable pub seccomp_profile : Text → Seccomp
seccomp_profile path = if path == [] then runtime_default else localhost path

-- proxyEnv
unfoldable pub proxy_env : Text → List (Text × Text)
proxy_env endpoint =
    let proxy = bytes "http://" ++ endpoint in
    if endpoint == []
    then []
    else (bytes "HTTPS_PROXY", proxy)
      ∷ (bytes "HTTP_PROXY", proxy)
      ∷ (bytes "https_proxy", proxy)
      ∷ (bytes "http_proxy", proxy)
      ∷ (bytes "NO_PROXY", bytes "localhost,127.0.0.1")
      ∷ (bytes "GH_TOKEN", bytes "sandbox-proxy-injected")
      ∷ []

abbrev ca_bundle_path : Text
ca_bundle_path = bytes "/tmp/ca-bundle.crt"

-- caTrustEnv
unfoldable pub ca_trust_env : Bool → List (Text × Text)
ca_trust_env has_ca =
    if has_ca
    then (bytes "NODE_EXTRA_CA_CERTS", ca_bundle_path)
      ∷ (bytes "REQUESTS_CA_BUNDLE", ca_bundle_path)
      ∷ (bytes "SSL_CERT_FILE", ca_bundle_path)
      ∷ (bytes "GIT_SSL_CAINFO", ca_bundle_path)
      ∷ (bytes "CURL_CA_BUNDLE", ca_bundle_path)
      ∷ []
    else []

-- sandboxInitScript
unfoldable pub sandbox_init_script : Text
sandbox_init_script =
    bytes "\n"
    ++ bytes "if [ -f /etc/sandbox/ca.crt ]; then\n"
    ++ bytes "  if [ -f /etc/ssl/certs/ca-certificates.crt ]; then\n"
    ++ bytes
        "    cat /etc/ssl/certs/ca-certificates.crt /etc/sandbox/ca.crt > /tmp/ca-bundle.crt 2>/dev/null || cp /etc/sandbox/ca.crt /tmp/ca-bundle.crt\n"
    ++ bytes "  else\n"
    ++ bytes "    cp /etc/sandbox/ca.crt /tmp/ca-bundle.crt\n"
    ++ bytes "  fi\n"
    ++ bytes "  git config --global http.sslCAInfo /tmp/ca-bundle.crt 2>/dev/null || true\n"
    ++ bytes "fi\n"
    ++ bytes "exec sleep infinity\n"

module _ (sc : SandboxConfig) where
  unfoldable pub has_ca : SandboxSpec → Bool
  has_ca spec = not (spec.ca_cert == [])

  unfoldable pub volumes_of : SandboxSpec → Text → List Volume
  volumes_of spec pvc =
      (record { name = bytes "workspace"; source = claim pvc })
      ∷ (record { name = bytes "tmp"; source = empty_dir (text_or_nil sc.tmp_size_limit) })
      ∷ (if has_ca spec
          then (record {
            name = bytes "sandbox-ca";
            source = secret (ca_secret_name spec.session_id);
          })
            ∷ []
          else [])

  unfoldable pub mounts_of : SandboxSpec → List Mount
  mounts_of spec =
      (record {
        name = bytes "workspace";
        path = sc.workspace_path;
        sub_path = [];
        read_only = false;
      })
      ∷ (record { name = bytes "tmp"; path = bytes "/tmp"; sub_path = []; read_only = false })
      ∷ (if has_ca spec
          then (record {
            name = bytes "sandbox-ca";
            path = sc.ca_cert_path;
            sub_path = ca_secret_key;
            read_only = true;
          })
            ∷ []
          else [])

  unfoldable pub container_of : SandboxSpec → Container
  container_of spec = record {
    name = bytes "sandbox";
    image = image_or_default spec.image sc.default_image;
    pull_policy = image_pull_policy sc.image_pull_policy;
    command = bytes "/bin/sh" ∷ bytes "-c" ∷ sandbox_init_script ∷ [];
    mounts = mounts_of spec;
    env = proxy_env spec.proxy_endpoint ++ ca_trust_env (has_ca spec);
    limits = resource_list sc.cpu_limit sc.memory_limit sc.ephemeral_storage_limit;
    requests = resource_list sc.cpu_request sc.memory_request sc.ephemeral_storage_request;
    security = record {
      allow_privilege_escalation = false;
      privileged = false;
      read_only_root = not spec.writable_root;
      drop = bytes "ALL" ∷ [];
    };
  }

  unfoldable pub user_of : SandboxSpec → ℤ
  user_of spec = if spec.run_as_root then pos 0 else sc.run_as_user

  -- buildPod
  unfoldable pub build_pod : SandboxSpec → Text → Pod
  build_pod spec pvc = record {
    name = pod_name spec.session_id;
    labels = labels spec;
    automount_token = false;
    restart_policy = bytes "Never";
    runtime_class =
        text_or_nil (if spec.runtime_class == [] then sc.runtime_class else spec.runtime_class);
    run_as_non_root = not spec.run_as_root;
    run_as_user = user_of spec;
    run_as_group = user_of spec;
    fs_group = user_of spec;
    seccomp = seccomp_profile sc.seccomp_profile_path;
    volumes = volumes_of spec pvc;
    containers = container_of spec ∷ [];
  }

-- firstPVCName
unfoldable pub first_pvc_name : List Volume → Text
first_pvc_name [] = []
first_pvc_name (v ∷ vs) = elim v.source [
  | claim c ↦ c
  | empty_dir s ↦ first_pvc_name vs
  | secret s ↦ first_pvc_name vs
]

unfoldable pub all_ready : List ContainerStatus → Bool
all_ready [] = true
all_ready (s ∷ ss) = s.ready && all_ready ss

unfoldable pub is_empty : List ContainerStatus → Bool
is_empty [] = true
is_empty (s ∷ ss) = false

-- handleFromPod
unfoldable pub handle_from_pod : LivePod → SandboxHandle
handle_from_pod p = record {
  pod_name = p.pod.name;
  pvc_name = first_pvc_name p.pod.volumes;
  phase = p.phase;
  ready = p.phase == bytes "Running" && not (is_empty p.statuses) && all_ready p.statuses;
}

-- One pod in ListSandboxes.
unfoldable pub sandbox_ref : LivePod → SandboxRef
sandbox_ref p =
    let id = label_of session_label p.pod.labels in
    record {
      pod_name = p.pod.name;
      pvc_name = pvc_name id;
      session_id = id;
      pool = not (label_of pool_label p.pod.labels == []);
      created_at = p.created_at;
    }

unfoldable pub sandbox_refs : List LivePod → List SandboxRef
sandbox_refs [] = []
sandbox_refs (p ∷ ps) = if p.terminating then sandbox_refs ps else sandbox_ref p ∷ sandbox_refs ps

-- One claim in ListWorkspaces.
unfoldable pub workspace_ref : LiveClaim → WorkspaceRef
workspace_ref c =
    let id = label_of session_label c.object.labels in
    record {
      pvc_name = c.object.name;
      pod_name = pod_name id;
      session_id = id;
      pool = not (label_of pool_label c.object.labels == []);
      created_at = c.created_at;
    }

unfoldable pub workspace_refs : List LiveClaim → List WorkspaceRef
workspace_refs [] = []
workspace_refs (c ∷ cs) =
    if c.terminating then workspace_refs cs else workspace_ref c ∷ workspace_refs cs

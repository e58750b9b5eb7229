-- ===== src/Config/Model.antt =====
-- internal/config/config.go: the configuration types, the defaults and the validation.
-- A duration is a number of nanoseconds.
use cloud_agent_sandbox.Base.{
  ℕ, ◌*◌, Bool, true, ◌&&◌, ◌||◌, Option, none, some, [], Text, bytes, ◌==◌, text_eq, if◌then◌else◌,
}
use cloud_agent_sandbox.Base.Int.{ℤ, pos, ltb_ℤ, leb_ℤ}
use cloud_agent_sandbox.Session.Model.{Error, message}

pub record KubeConfig : Type 0 where
  pub kubeconfig : Text
  pub namespace : Text

pub record SandboxConfig : Type 0 where
  pub default_image : Text
  pub runtime_class : Text
  pub kata_runtime_class : Text
  pub workspace_path : Text
  pub workspace_size : Text
  pub cpu_limit : Text
  pub memory_limit : Text
  pub cpu_request : Text
  pub memory_request : Text
  pub ephemeral_storage_limit : Text
  pub ephemeral_storage_request : Text
  pub tmp_size_limit : Text
  pub pids_limit : ℤ
  pub seccomp_profile_path : Text
  pub run_as_user : ℤ
  pub run_as_root : Bool
  pub writable_root_filesystem : Bool
  pub ca_cert_path : Text
  pub image_pull_policy : Text

pub record PoolConfig : Type 0 where
  pub min_idle_ready : ℤ
  pub max_running : ℤ
  pub max_stopped : ℤ

pub record LifetimeConfig : Type 0 where
  pub running_ttl : ℤ
  pub max_lifetime : ℤ
  pub stopped_ttl : ℤ
  pub reap_interval : ℤ

pub record ProxyConfig : Type 0 where
  pub pool_size : ℤ
  pub sandboxes_per_proxy : ℤ
  pub service_name : Text
  pub port : ℤ
  pub deployment_name : Text
  pub autoscale : Bool
  pub min_replicas : ℤ
  pub max_replicas : ℤ
  pub autoscale_interval : ℤ
  pub scale_up_timeout : ℤ

pub record SecurityConfig : Type 0 where
  pub api_key : Text
  pub require_network_policy : Bool
  pub network_policy_enforced : Option Bool

pub record Config : Type 0 where
  pub listen_addr : Text
  pub kube : KubeConfig
  pub sandbox : SandboxConfig
  pub pool : PoolConfig
  pub lifetime : LifetimeConfig
  pub proxy : ProxyConfig
  pub security : SecurityConfig

abbrev pub second : ℕ
second = 1000000000

abbrev pub minute : ℕ
minute = 60 * second

abbrev pub hour : ℕ
hour = 60 * minute

-- Default()
unfoldable pub default : Config
default = record {
  listen_addr = bytes ":8080";
  kube = record { kubeconfig = []; namespace = bytes "sandboxes" };
  sandbox = record {
    default_image = bytes "sandbox-default:latest";
    runtime_class = bytes "gvisor";
    kata_runtime_class = bytes "kata";
    workspace_path = bytes "/workspace";
    workspace_size = bytes "5Gi";
    cpu_limit = bytes "2";
    memory_limit = bytes "2Gi";
    cpu_request = bytes "250m";
    memory_request = bytes "256Mi";
    ephemeral_storage_limit = bytes "2Gi";
    ephemeral_storage_request = bytes "256Mi";
    tmp_size_limit = bytes "1Gi";
    pids_limit = pos 512;
    seccomp_profile_path = [];
    run_as_user = pos 1000;
    run_as_root = true;
    writable_root_filesystem = true;
    ca_cert_path = bytes "/etc/sandbox/ca.crt";
    image_pull_policy = bytes "IfNotPresent";
  };
  pool = record { min_idle_ready = pos 2; max_running = pos 50; max_stopped = pos 100 };
  lifetime = record {
    running_ttl = pos (10 * minute);
    max_lifetime = pos hour;
    stopped_ttl = pos (24 * hour);
    reap_interval = pos minute;
  };
  proxy = record {
    pool_size = pos 2;
    sandboxes_per_proxy = pos 100;
    service_name = bytes "mitmproxy";
    port = pos 8080;
    deployment_name = bytes "mitmproxy";
    autoscale = true;
    min_replicas = pos 0;
    max_replicas = pos 10;
    autoscale_interval = pos (15 * second);
    scale_up_timeout = pos (60 * second);
  };
  security = record { api_key = []; require_network_policy = true; network_policy_enforced = none };
}

-- The checks of Validate that apply when autoscaling is on.
validate_proxy : ProxyConfig → Option Error
validate_proxy p =
    if leb_ℤ p.sandboxes_per_proxy (pos 0)
    then some
        (message (bytes "SandboxesPerProxy must be positive when proxy autoscaling is enabled"))
    else if ltb_ℤ p.min_replicas (pos 0)
    then some (message (bytes "proxy MinReplicas cannot be negative"))
    else if ltb_ℤ (pos 0) p.max_replicas && ltb_ℤ p.max_replicas p.min_replicas
    then some (message (bytes "proxy MinReplicas ("))
    else none

-- The last check of Validate.
validate_kube : KubeConfig → Option Error
validate_kube k =
    if k.namespace == [] then some (message (bytes "kube namespace is required")) else none

-- Validate; `none` is a nil error.
unfoldable pub validate : Config → Option Error
unfolding validate_proxy validate_kube
validate c =
    if ltb_ℤ c.pool.max_running c.pool.min_idle_ready
    then some (message (bytes "MinIdleReady ("))
    else if leb_ℤ c.lifetime.running_ttl (pos 0)
        || leb_ℤ c.lifetime.stopped_ttl (pos 0)
        || leb_ℤ c.lifetime.max_lifetime (pos 0)
    then some (message (bytes "lifetime TTLs must be positive"))
    else if c.proxy.autoscale
    then elim (validate_proxy c.proxy) [ some e ↦ some e | none ↦ validate_kube c.kube ]
    else validate_kube c.kube

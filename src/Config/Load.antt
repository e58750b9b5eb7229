-- ===== src/Config/Load.antt =====
-- internal/config/config.go: Load and the readers of environment variables. The process
-- environment is the function `os.LookupEnv`; time.ParseDuration is a parameter.
pub mod Laws
use cloud_agent_sandbox.Base.{
  Bool, Option, none, some, [], Text, bytes, ◌==◌, text_eq, if◌then◌else◌,
}
use cloud_agent_sandbox.Base.Int.{ℤ}
use cloud_agent_sandbox.Config.Model.{Config, default, validate}
use cloud_agent_sandbox.Config.Parse.{parse_bool, atoi}
use cloud_agent_sandbox.Session.Model.{wrap, external, Result, ok, err}

infixl 5 ◌>>=◌
abbrev pub ◌>>=◌ {ℓ κ} : {A : Type ℓ} {B : Type κ} → Result A → (A → Result B) → Result B
ok a >>= f = f a
err e >>= f = err e

abbrev pub Environment : Type 0
Environment = Text → Option Text

-- `env`
unfoldable pub env_text : Environment → Text → Text → Text
env_text look key def = elim (look key) [ none ↦ def | some v ↦ if v == [] then def else v ]

unfoldable pub env_allow_empty : Environment → Text → Text → Text
env_allow_empty look key def = elim (look key) [ none ↦ def | some v ↦ v ]

-- The shape that envInt, envDuration and envBool share: unset or empty gives the default, a value
-- that the parser refuses gives an error that names the kind and the variable.
unfoldable pub env_parsed {ℓ} :
    {A : Type ℓ} → (Text → Option A) → Text → Environment → Text → A → Result A
env_parsed parse kind look key def = elim (look key) [
  | none ↦ ok def
  | some v ↦
      if v == []
      then ok def
      else elim (parse v) [ none ↦ err (wrap kind (external v)) | some a ↦ ok a ]
]

unfoldable pub env_int : Environment → Text → ℤ → Result ℤ
unfolding env_parsed
env_int = env_parsed atoi (bytes "invalid int for ")

unfoldable pub env_duration : (Text → Option ℤ) → Environment → Text → ℤ → Result ℤ
unfolding env_parsed
env_duration parse_duration = env_parsed parse_duration (bytes "invalid duration for ")

unfoldable pub env_bool : Environment → Text → Bool → Result Bool
unfolding env_parsed
env_bool = env_parsed parse_bool (bytes "invalid bool for ")

unfoldable pub env_bool_ptr : Environment → Text → Result (Option Bool)
env_bool_ptr look key = elim (look key) [
  | none ↦ ok none
  | some v ↦ if v == [] then ok none else elim (parse_bool v) [
    | none ↦ err (wrap (bytes "invalid bool for ") (external v))
    | some b ↦ ok (some b)
  ]
]

-- The variables that are plain texts, up to the first that is parsed.
load_texts : Environment → Config → Config
unfolding env_text env_allow_empty
load_texts look c = record c {
  listen_addr = env_text look (bytes "SANDBOX_LISTEN_ADDR") c.listen_addr;
  kube = record {
    kubeconfig = env_text look (bytes "SANDBOX_KUBECONFIG") k.kubeconfig;
    namespace = env_text look (bytes "SANDBOX_NAMESPACE") k.namespace;
  };
  sandbox = record s {
    default_image = env_text look (bytes "SANDBOX_DEFAULT_IMAGE") s.default_image;
    runtime_class = env_allow_empty look (bytes "SANDBOX_RUNTIME_CLASS") s.runtime_class;
    kata_runtime_class = env_text look (bytes "SANDBOX_KATA_RUNTIME_CLASS") s.kata_runtime_class;
    image_pull_policy = env_text look (bytes "SANDBOX_IMAGE_PULL_POLICY") s.image_pull_policy;
    workspace_size = env_text look (bytes "SANDBOX_WORKSPACE_SIZE") s.workspace_size;
    cpu_limit = env_text look (bytes "SANDBOX_CPU_LIMIT") s.cpu_limit;
    memory_limit = env_text look (bytes "SANDBOX_MEMORY_LIMIT") s.memory_limit;
    cpu_request = env_text look (bytes "SANDBOX_CPU_REQUEST") s.cpu_request;
    memory_request = env_text look (bytes "SANDBOX_MEMORY_REQUEST") s.memory_request;
    ephemeral_storage_limit =
        env_text look (bytes "SANDBOX_EPHEMERAL_STORAGE_LIMIT") s.ephemeral_storage_limit;
    ephemeral_storage_request =
        env_text look (bytes "SANDBOX_EPHEMERAL_STORAGE_REQUEST") s.ephemeral_storage_request;
    tmp_size_limit = env_text look (bytes "SANDBOX_TMP_SIZE_LIMIT") s.tmp_size_limit;
    seccomp_profile_path =
        env_text look (bytes "SANDBOX_SECCOMP_PROFILE_PATH") s.seccomp_profile_path;
  };
}
  where
    open c use {kube as k, sandbox as s}

load_sandbox : Environment → Config → Result Config
unfolding env_bool
load_sandbox look c = do
  root ← env_bool look (bytes "SANDBOX_RUN_AS_ROOT") c.sandbox.run_as_root
  writable ← env_bool look (bytes "SANDBOX_WRITABLE_ROOTFS") c.sandbox.writable_root_filesystem
  ok (record c {
    sandbox = record (c.sandbox) { run_as_root = root; writable_root_filesystem = writable };
  })

load_pool : Environment → Config → Result Config
unfolding env_int
load_pool look c = do
  idle ← env_int look (bytes "SANDBOX_MIN_IDLE_READY") c.pool.min_idle_ready
  running ← env_int look (bytes "SANDBOX_MAX_RUNNING") c.pool.max_running
  stopped ← env_int look (bytes "SANDBOX_MAX_STOPPED") c.pool.max_stopped
  ok (record c {
    pool = record { min_idle_ready = idle; max_running = running; max_stopped = stopped };
  })

module _ (parse_duration : Text → Option ℤ) where
  load_lifetime : Environment → Config → Result Config
  unfolding env_duration
  load_lifetime look c = do
    running ← env_duration parse_duration look (bytes "SANDBOX_RUNNING_TTL") c.lifetime.running_ttl
    life ← env_duration parse_duration look (bytes "SANDBOX_MAX_LIFETIME") c.lifetime.max_lifetime
    stopped ← env_duration parse_duration look (bytes "SANDBOX_STOPPED_TTL") c.lifetime.stopped_ttl
    ok (record c {
      lifetime = record (c.lifetime) {
        running_ttl = running;
        max_lifetime = life;
        stopped_ttl = stopped;
      };
    })

  load_proxy : Environment → Config → Result Config
  unfolding env_bool env_int env_duration env_text
  load_proxy look c = do
    let p = c.proxy
    auto ← env_bool look (bytes "SANDBOX_PROXY_AUTOSCALE") p.autoscale
    per ← env_int look (bytes "SANDBOX_SANDBOXES_PER_PROXY") p.sandboxes_per_proxy
    least ← env_int look (bytes "SANDBOX_PROXY_MIN_REPLICAS") p.min_replicas
    most ← env_int look (bytes "SANDBOX_PROXY_MAX_REPLICAS") p.max_replicas
    interval ←
        env_duration parse_duration look (bytes "SANDBOX_PROXY_AUTOSCALE_INTERVAL")
          p.autoscale_interval
    wait ←
        env_duration parse_duration look (bytes "SANDBOX_PROXY_SCALE_UP_TIMEOUT") p.scale_up_timeout
    ok (record c {
      proxy = record p {
        deployment_name = env_text look (bytes "SANDBOX_PROXY_DEPLOYMENT") p.deployment_name;
        autoscale = auto;
        sandboxes_per_proxy = per;
        min_replicas = least;
        max_replicas = most;
        autoscale_interval = interval;
        scale_up_timeout = wait;
      };
    })

  load_security : Environment → Config → Result Config
  unfolding env_bool env_text env_bool_ptr
  load_security look c = do
    let s = c.security
    require ← env_bool look (bytes "SANDBOX_REQUIRE_NETWORK_POLICY") s.require_network_policy
    enforced ← env_bool_ptr look (bytes "SANDBOX_NETWORK_POLICY_ENFORCED")
    ok (record c {
      security = record {
        api_key = env_text look (bytes "SANDBOX_API_KEY") s.api_key;
        require_network_policy = require;
        network_policy_enforced = enforced;
      };
    })

  -- `return c, c.Validate()`
  validated : Config → Result Config
  validated c = elim (validate c) [ none ↦ ok c | some e ↦ err e ]

  -- Load
  unfoldable pub load : Environment → Result Config
  unfolding load_texts load_sandbox load_pool load_lifetime load_proxy load_security validated
  load look = do
    c ← load_sandbox look (load_texts look default)
    c ← load_pool look c
    c ← load_lifetime look c
    c ← load_proxy look c
    c ← load_security look c
    validated c

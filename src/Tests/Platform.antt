-- ===== src/Tests/Platform.antt =====
-- A platform for the tests: its state is the clock, which every reading moves on by a second.
use cloud_agent_sandbox.Base.{ℕ, ◌+◌, ◌*◌, true, false, none, some, [], ◌∷◌, Text, bytes}
use cloud_agent_sandbox.Config.Model.{second, hour}
use cloud_agent_sandbox.Session.Model.{State, running, stopped, Session, CreateOptions, ok}
use cloud_agent_sandbox.Session.Store.{MemoryStore}
use cloud_agent_sandbox.Base.Dict.{insert}
use cloud_agent_sandbox.Runtime.Model.{SandboxHandle, SandboxRef, WorkspaceRef}
use cloud_agent_sandbox.Manager.World.{Assignment, ProxyAssigner, Runtime, Environment, World}

abbrev pub handle : SandboxHandle
handle = record {
  pod_name = bytes "pod";
  pvc_name = bytes "pvc";
  phase = bytes "Running";
  ready = true;
}

abbrev pub old_pod : SandboxRef
old_pod = record {
  pod_name = bytes "left-over";
  pvc_name = bytes "left-over-ws";
  session_id = bytes "gone";
  pool = false;
  created_at = 0;
}

abbrev pub old_workspace : WorkspaceRef
old_workspace = record {
  pvc_name = bytes "ws";
  pod_name = bytes "ws-pod";
  session_id = bytes "lost";
  pool = false;
  created_at = 0;
}

abbrev cluster : Runtime ℕ
cluster = record {
  create = λ c s p. (p, ok handle);
  wait_ready = λ c n t p. (p, none);
  stop = λ c n p. (p, none);
  resume = λ c s v p. (p, ok handle);
  purge = λ c n v p. (p, none);
  list_sandboxes = λ c p. (p, ok (old_pod ∷ []));
  list_workspaces = λ c p. (p, ok (old_workspace ∷ []));
}

abbrev pub assignment : Assignment
assignment = record { endpoint = bytes "http://proxy"; ca_cert = []; proxy_id = bytes "proxy-0" }

abbrev pub assigner : ProxyAssigner ℕ
assigner = record { assign = λ c i p. (p, ok assignment); release = λ c i p. p }

abbrev pub platform : Environment ℕ
platform = record {
  rt = cluster;
  acquire = none;
  proxy = some assigner;
  scaler = none;
  now = λ p. (p + second, p);
  request_err = λ p. (p, none);
  new_uuid = λ p. (p, bytes "f81d4fae");
  sha256 = λ t. bytes "0123456789abcdef0123456789abcdef";
}

abbrev pub agent : CreateOptions
agent = record {
  ref = bytes "agent one";
  org_id = [];
  user_id = [];
  image = [];
  proxy_group = [];
  use_kata = false;
  writable_root = none;
  run_as_root = none;
}

-- A session that started at one hour, was active at three and has the given state.
abbrev pub session_in : Text → State → Session
session_in id st = record {
  id = id;
  ref = [];
  org_id = [];
  user_id = [];
  state = st;
  image = bytes "sandbox-default:latest";
  runtime_class = bytes "gvisor";
  pod_name = bytes "pod";
  pvc_name = bytes "pvc";
  proxy_id = [];
  from_pool = false;
  created_at = 2 * hour;
  last_activity_at = 3 * hour;
  stopped_at = 3 * hour;
}

abbrev pub up : Text
up = bytes "sb-up"

abbrev pub down : Text
down = bytes "sb-down"

abbrev pub two_sessions : MemoryStore
two_sessions = insert up (session_in up running) (insert down (session_in down stopped) [])

-- A little after three hours, with no call in flight.
abbrev pub world : World ℕ
world = record { platform = 3 * hour + second; sessions = two_sessions; active = [] }

-- ===== src/Runtime/Model.antt =====
-- internal/runtime/runtime.go: the data that the orchestrator and the platform exchange.
use cloud_agent_sandbox.Base.{ℕ, Bool, Text}
use cloud_agent_sandbox.Base.Dict.{Dict}

pub record SandboxSpec : Type 0 where
  pub session_id : Text
  pub image : Text
  pub runtime_class : Text
  pub proxy_endpoint : Text
  pub ca_cert : Text
  pub labels : Dict Text
  pub warm : Bool
  pub run_as_root : Bool
  pub writable_root : Bool

pub record SandboxHandle : Type 0 where
  pub pod_name : Text
  pub pvc_name : Text
  pub phase : Text
  pub ready : Bool

pub record SandboxRef : Type 0 where
  pub pod_name : Text
  pub pvc_name : Text
  pub session_id : Text
  pub pool : Bool
  pub created_at : ℕ

pub record WorkspaceRef : Type 0 where
  pub pvc_name : Text
  pub pod_name : Text
  pub session_id : Text
  pub pool : Bool
  pub created_at : ℕ

-- ===== src/Kube/Model.antt =====
-- internal/runtime/kubernetes.go: the parts of the Kubernetes objects that the runtime writes and
-- reads. A resource quantity is kept as the text that it is parsed from; the namespace is the same for
-- all and is left out.
use cloud_agent_sandbox.Base.{ℕ, Bool, Option, List, Text}
use cloud_agent_sandbox.Base.Dict.{Dict}
use cloud_agent_sandbox.Base.Int.{ℤ}
use cloud_agent_sandbox.Session.Model.{Error}

-- corev1.VolumeSource
pub data Source : Type 0 where
  claim : Text → Source
  empty_dir : Option Text → Source
  secret : Text → Source

pub record Volume : Type 0 where
  pub name : Text
  pub source : Source

pub record Mount : Type 0 where
  pub name : Text
  pub path : Text
  pub sub_path : Text
  pub read_only : Bool

pub record SecurityContext : Type 0 where
  pub allow_privilege_escalation : Bool
  pub privileged : Bool
  pub read_only_root : Bool
  pub drop : List Text

pub record Container : Type 0 where
  pub name : Text
  pub image : Text
  pub pull_policy : Text
  pub command : List Text
  pub mounts : List Mount
  pub env : List (Text × Text)
  pub limits : Dict Text
  pub requests : Dict Text
  pub security : SecurityContext

-- corev1.SeccompProfile
pub data Seccomp : Type 0 where
  runtime_default : Seccomp
  localhost : Text → Seccomp

-- A pod as it is submitted.
pub record Pod : Type 0 where
  pub name : Text
  pub labels : Dict Text
  pub automount_token : Bool
  pub restart_policy : Text
  pub runtime_class : Option Text
  pub run_as_non_root : Bool
  pub run_as_user : ℤ
  pub run_as_group : ℤ
  pub fs_group : ℤ
  pub seccomp : Seccomp
  pub volumes : List Volume
  pub containers : List Container

-- corev1.ContainerStatus, with the reason and the message of a waiting container.
pub record ContainerStatus : Type 0 where
  pub ready : Bool
  pub waiting : Option (Text × Text)

-- A pod as the API server gives it back.
pub record LivePod : Type 0 where
  pub pod : Pod
  pub phase : Text
  pub statuses : List ContainerStatus
  pub terminating : Bool
  pub created_at : ℕ

pub record Claim : Type 0 where
  pub name : Text
  pub labels : Dict Text
  pub access_modes : List Text
  pub storage : Text

pub record LiveClaim : Type 0 where
  pub object : Claim
  pub terminating : Bool
  pub created_at : ℕ

pub record Secret : Type 0 where
  pub name : Text
  pub labels : Dict Text
  pub data_key : Text
  pub content : Text

-- What the API server answers to a call for one object; `missing` is an error that is NotFound.
pub data Answer {ℓ} (A : Type ℓ) : Type ℓ where
  found : A → Answer A
  missing : Answer A
  failed : Error → Answer A

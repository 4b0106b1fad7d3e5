-- ===== src/Orch/Types.antt =====
-- sandboxd-orch/types/types.go, and the request and status types that the orchestrator exchanges with
-- a node agent (sandboxd-let/model/types.go, sandboxd-orch/client). A `*time.Time` is an `Option ℕ`.
-- Times count nanoseconds from Go's zero time, so that `IsZero` is the test against 0.
use go_gvisor_containerd_let.Base.{
  ℕ, ℤ, pos, String, Bool, true, false, Option, none, List, trim_space,
}

-- `unset` is the zero value "".
pub data NodeState : Type 0 where
  unset unknown ready not_ready : NodeState

pub data SandboxPhase : Type 0 where
  pending scheduled running failed deleting : SandboxPhase

abbrev pub is_ready : NodeState → Bool
is_ready ready = true
is_ready _ = false

abbrev pub is_pending : SandboxPhase → Bool
is_pending pending = true
is_pending _ = false

abbrev pub is_scheduled : SandboxPhase → Bool
is_scheduled scheduled = true
is_scheduled _ = false

abbrev pub is_running : SandboxPhase → Bool
is_running running = true
is_running _ = false

abbrev pub is_failed : SandboxPhase → Bool
is_failed failed = true
is_failed _ = false

abbrev pub is_deleting : SandboxPhase → Bool
is_deleting deleting = true
is_deleting _ = false

pub record NodeResources : Type 0 where
  pub capacity_cpu_milli : ℤ
  pub capacity_memory_bytes : ℤ
  pub allocatable_cpu_milli : ℤ
  pub allocatable_memory : ℤ
  pub used_cpu_milli : ℤ
  pub used_memory_bytes : ℤ
  pub available_cpu_milli : ℤ
  pub available_memory : ℤ
  pub max_alloc_percent : ℤ
  pub external : String
  pub updated_at : Option ℕ

-- The zero value of the struct.
abbrev pub no_resources : NodeResources
no_resources = record {
  capacity_cpu_milli = pos 0;
  capacity_memory_bytes = pos 0;
  allocatable_cpu_milli = pos 0;
  allocatable_memory = pos 0;
  used_cpu_milli = pos 0;
  used_memory_bytes = pos 0;
  available_cpu_milli = pos 0;
  available_memory = pos 0;
  max_alloc_percent = pos 0;
  external = "";
  updated_at = none;
}

pub record Node : Type 0 where
  pub id : String
  pub ip : String
  pub port : ℕ
  pub state : NodeState
  pub source : String
  pub last_error : String
  pub success_streak : ℕ
  pub failure_streak : ℕ
  pub created_at : ℕ
  pub updated_at : ℕ
  pub last_heartbeat : Option ℕ
  pub resources : NodeResources
  pub sbxlet_base_url : String

pub record External : Type 0 where
  pub id : String
  pub node_id : String
  pub external : String
  pub created_at : ℕ
  pub updated_at : ℕ

pub record SandboxResource : Type 0 where
  pub cpu : String
  pub memory : String

pub record SandboxContainerSpec : Type 0 where
  pub name : String
  pub image : String
  pub args : List String
  pub env : List String
  pub work_dir : String
  pub resource : SandboxResource

-- A port that a request names may be any int, so the container port is an integer.
pub record SandboxPortSpec : Type 0 where
  pub host_port : ℤ
  pub container_port : ℤ
  pub protocol : String

pub record SandboxSpec : Type 0 where
  pub egress : Bool
  pub ttl_seconds : ℤ
  pub ports : List SandboxPortSpec
  pub containers : List SandboxContainerSpec

pub record SandboxPortAssign : Type 0 where
  pub host_port : ℕ
  pub container_port : ℤ
  pub protocol : String

pub record SandboxStatus : Type 0 where
  pub phase : SandboxPhase
  pub node_name : String
  pub external : String
  pub ip : String
  pub assigned_ports : List SandboxPortAssign
  pub sandboxd_id : String
  pub expire_at : Option ℕ
  pub last_error : String

pub record Sandbox : Type 0 where
  pub id : String
  pub spec : SandboxSpec
  pub status : SandboxStatus
  pub created_at : ℕ
  pub updated_at : ℕ

pub record CreateSandboxObjectRequest : Type 0 where
  pub id : String
  pub spec : SandboxSpec

pub record RegisterNodeRequest : Type 0 where
  pub id : String
  pub ip : String
  pub port : ℤ

pub record NodeObjectSpec : Type 0 where
  pub ip : String
  pub port : ℤ

pub record CreateNodeObjectRequest : Type 0 where
  pub id : String
  pub spec : NodeObjectSpec

pub record ExternalObjectSpec : Type 0 where
  pub node_id : String
  pub external : String

pub record CreateExternalObjectRequest : Type 0 where
  pub id : String
  pub spec : ExternalObjectSpec

-- SandboxStatus.MarshalJSON and UnmarshalJSON trim `External`, each on its way; the other fields
-- come back as they were.
unfoldable pub marshal_status : SandboxStatus → SandboxStatus
marshal_status s = record s { external = trim_space s.external }

unfoldable pub unmarshal_status : SandboxStatus → SandboxStatus
unmarshal_status s = record s { external = trim_space s.external }

-- What a node agent answers about a sandbox.
pub record ContainerSyncStatus : Type 0 where
  pub name : String
  pub phase : String
  pub error : String
  pub task_status : String

pub record SandboxSyncStatus : Type 0 where
  pub id : String
  pub ip : String
  pub phase : String
  pub error : String
  pub unhealthy_containers : List ContainerSyncStatus

pub record SandboxStatusesResponse : Type 0 where
  pub items : List SandboxSyncStatus
  pub missing : List String

-- What a node agent is asked to create.
pub record PortMapping : Type 0 where
  pub host_port : ℕ
  pub container_port : ℤ
  pub protocol : String

pub record CreateSandboxRequest : Type 0 where
  pub id : String
  pub egress : Bool
  pub containers : List SandboxContainerSpec
  pub ports : List PortMapping

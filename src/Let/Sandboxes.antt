-- ===== src/Let/Sandboxes.antt =====
-- The sandboxes of a node (sandboxd-let/sandbox/service.go, state.go, lock.go): what the service keeps, its
-- store, and the state of a new sandbox. The store is the list of its sandboxes; a write that fails
-- leaves it as it was. The container runtime, the network, the flock and the disk are the answers of
-- an `Env`.
use Prim.Native.String.{◌++◌ as append}
use go_gvisor_containerd_let.Base.{
  ℕ, ℤ, String, Bool, true, false, Option, none, some, List, [], ◌∷◌, str_eq, is_empty,
  if◌then◌else◌,
}
use go_gvisor_containerd_let.Orch.Tables.{find, select}
use go_gvisor_containerd_let.Let.Types.{
  Failure, Outcome, done, failed, ContainerState, CreateContainerRequest, CreateSandboxRequest,
  Sandbox, ResourceLimits,
}
use go_gvisor_containerd_let.Let.Ports.{Reservations}
use go_gvisor_containerd_let.Let.Admission.{Host}
use go_gvisor_containerd_let.Let.Runtime.{Cri, CriDetails}
use go_gvisor_containerd_let.Let.Health.{Unhealthy, named, save}

-- The fields of the service and of its configuration that a new sandbox takes.
pub record Config : Type 0 where
  pub namespace : String
  pub bridge_interface : String
  pub subnet_cidr : String
  pub cni_conf_path : String
  pub runtime_binary : String

-- `lock` is the wait for a flock. The `…_failure` fields are the disk's: of one sandbox's file, or of
-- the directory. The others are the runtime's and the network's.
pub record Env : Type 0 where
  pub cfg : Config
  pub host : Host
  pub cri : Cri
  pub now : ℕ
  pub lock : String → Failure
  pub load_failure : String → Failure
  pub save_failure : Sandbox → Failure
  pub delete_failure : String → Failure
  pub list_failure : Failure
  pub bind : ℤ → String → Failure
  pub create_pod : Sandbox → List CreateContainerRequest → Outcome (String × String)
  pub pull : String → Failure
  pub start : Sandbox → CreateContainerRequest → ResourceLimits → Outcome CriDetails
  pub apply_policy : Sandbox → Failure
  pub wait_ready : Sandbox → Failure
  pub publish : Sandbox → Failure

-- The part of the service's state that the program keeps itself.
pub record Service : Type 0 where
  pub store : List Sandbox
  pub reserved_ports : Reservations
  pub unhealthy : Unhealthy

abbrev pub Reply : Type 0
Reply = Outcome Sandbox × Service

unfoldable pub acquire_sandbox_lock : Env → String → Failure
acquire_sandbox_lock env id = if is_empty id then some "sandbox id is required" else env.lock id

-- store.Load; `done none` is os.ErrNotExist.
unfoldable pub load : Env → String → List Sandbox → Outcome (Option Sandbox)
load env id store = elim (env.load_failure id) [
  | some e ↦ failed e
  | none ↦ done (find (named id) store)
]

abbrev pub is_ok : Failure → Bool
is_ok none = true
is_ok (some e) = false

-- store.List, which leaves out what it cannot load.
unfoldable pub list : Env → List Sandbox → Outcome (List Sandbox)
list env store = elim env.list_failure [
  | some e ↦ failed e
  | none ↦ done (select (λ s. is_ok (env.load_failure s.id)) store)
]

-- A save that fails is taken to fail before os.WriteFile truncates the state file: in MkdirAll, in the
-- encoding, or in opening the file.
unfoldable pub try_save : Env → Sandbox → List Sandbox → Failure × List Sandbox
try_save env sbx store = elim (env.save_failure sbx) [
  | some e ↦ (some e, store)
  | none ↦ (none, save sbx store)
]

-- An assignment to the map `sbx.Containers`.
unfoldable pub set_container : ContainerState → List ContainerState → List ContainerState
set_container c [] = c ∷ []
set_container c (d ∷ ds) = if str_eq d.name c.name then c ∷ ds else d ∷ set_container c ds

unfoldable pub new_container : Config → String → CreateContainerRequest → ContainerState
new_container cfg id c = record {
  id = append id (append "-" c.name);
  name = c.name;
  phase = "creating";
  error = "";
  image = c.image;
  args = c.args;
  env = c.env;
  resource = c.resource;
  task_pid = 0;
  runtime = cfg.runtime_binary;
  task_status = "";
}

unfoldable pub new_containers :
    Config → String → List CreateContainerRequest → List ContainerState → List ContainerState
unfolding new_container set_container
new_containers cfg id [] out = out
new_containers cfg id (c ∷ cs) out =
    new_containers cfg id cs (set_container (new_container cfg id c) out)

unfoldable pub new_sandbox_state : Config → ℕ → CreateSandboxRequest → Sandbox
unfolding new_containers
new_sandbox_state cfg now req = record {
  id = req.id;
  phase = "creating";
  error = "";
  namespace = cfg.namespace;
  ip = "";
  subnet_cidr = cfg.subnet_cidr;
  bridge_name = cfg.bridge_interface;
  egress = req.egress;
  ports = req.ports;
  containers = new_containers cfg req.id req.containers [];
  pause_id = "";
  cni_conf_path = cfg.cni_conf_path;
  created_at = now;
  updated_at = now;
}

-- `if err != nil { return nil, err }`.
abbrev pub stop_at : Failure → Service → Reply → Reply
stop_at none s rest = rest
stop_at (some e) s rest = (failed e, s)

-- ===== src/Orch/Tests.antt =====
-- Sample tables and a sample environment, at which the theorems are applied.
pub mod Store
pub mod Service
pub mod Lifecycle
pub mod Requests
use go_gvisor_containerd_let.Base.{ℤ, pos, String, true, none, some, List, [], ◌∷◌, ◌+◌, ◌≡◌, refl}
use go_gvisor_containerd_let.Orch.Types.{
  pending, ready, no_resources, NodeResources, Node, Sandbox, SandboxSpec, SandboxStatus,
  SandboxPortSpec, SandboxPortAssign, SandboxContainerSpec,
}
use go_gvisor_containerd_let.Orch.Tables.{Db, exists}
use go_gvisor_containerd_let.Orch.World.{ok, Env, Config, World}
use go_gvisor_containerd_let.Orch.Repo.Invariant.{IsConsistent}

-- Nothing fails and nobody interferes; the agents answer, and know no sandbox.
abbrev pub quiet : Env
quiet = record {
  others = λ k d. d;
  fault = λ k. none;
  now = λ k. k + 100;
  shuffle = λ k ports. ports;
  parse_quantity = λ s. ok (record { milli_value = pos 100; value = pos 100 });
  parse_ip = λ s. true;
  healthz = λ k url. none;
  node_status = λ k url. ok no_resources;
  create_on_node = λ k url req. none;
  delete_on_node = λ k url id. none;
  statuses_on_node = λ k url ids. ok (record { items = []; missing = ids });
  reconcile_on_node = λ k url. none;
}

abbrev pub sample_config : Config
sample_config = record {
  ready_success_threshold = 2;
  not_ready_failure_threshold = 2;
  resource_persist_min_int = pos 30;
  resource_persist_max_int = pos 300;
  host_port_min = 10000;
  host_port_max = 10003;
  status_sync_batch_size = 50;
}

abbrev pub sample_resources : NodeResources
sample_resources = record no_resources {
  allocatable_cpu_milli = pos 1000;
  allocatable_memory = pos 1000;
  available_cpu_milli = pos 1000;
  available_memory = pos 1000;
  external = "(none)";
}

abbrev pub sample_container : SandboxContainerSpec
sample_container = record {
  name = "web";
  image = "nginx";
  args = [];
  env = [];
  work_dir = "";
  resource = record { cpu = "100m"; memory = "100" };
}

abbrev pub sample_port : SandboxPortSpec
sample_port = record { host_port = pos 0; container_port = pos 80; protocol = "" }

abbrev pub sample_spec : SandboxSpec
sample_spec = record {
  egress = true;
  ttl_seconds = pos 60;
  ports = sample_port ∷ [];
  containers = sample_container ∷ [];
}

abbrev pub sample_status : SandboxStatus
sample_status = record {
  phase = pending;
  node_name = "";
  external = "";
  ip = "";
  assigned_ports = [];
  sandboxd_id = "";
  expire_at = none;
  last_error = "";
}

abbrev pub sample_assign : SandboxPortAssign
sample_assign = record { host_port = 10001; container_port = pos 80; protocol = "tcp" }

-- One ready node, n1, and one pending sandbox, s1.
abbrev pub sample_db : Db
sample_db = record {
  nodes =
      record {
        name = "n1";
        ip = "10.0.0.1";
        port = 8081;
        source = "api";
        created_at = 1;
        updated_at = 1;
      }
      ∷ [];
  node_status =
      record {
        name = "n1";
        state = ready;
        success_streak = 2;
        failure_streak = 0;
        last_error = "";
        last_heartbeat_at = some 1;
        updated_at = 1;
      }
      ∷ [];
  node_resources = record { name = "n1"; resources = sample_resources; updated_at = 1 } ∷ [];
  sandboxes =
      record {
        id = "s1";
        spec = sample_spec;
        status = sample_status;
        created_at = 5;
        updated_at = 5;
      }
      ∷ [];
  sandbox_ports = [];
  node_externals = [];
}

abbrev pub sample_world : World
sample_world = record { env = quiet; cfg = sample_config; db = sample_db; cache = []; step = 0 }

pub sample_IsConsistent : IsConsistent sample_db
unfolding exists
sample_IsConsistent = record {
  ids_unique = (refl, tt);
  ports_unique = tt;
  ports_owned = tt;
  names_unique = (refl, tt);
  externals_unique = tt;
  bindings_unique = tt;
  externals_bound = tt;
}

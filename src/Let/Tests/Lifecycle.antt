-- ===== src/Let/Tests/Lifecycle.antt =====
-- The theorems about creation, deletion, logs and files on a node, applied to sample data.
use go_gvisor_containerd_let.Base.{
  ◌≡◌, refl, pos, ◌≤ℤ◌, int64, true, false, ◌&&◌, none, some, [], ◌∷◌, arith, trim_space, to_lower,
  decimal, parse_int, fields, has_prefix, ◌+ℤ◌,
}
use go_gvisor_containerd_let.Orch.Tables
use go_gvisor_containerd_let.Orch.Tables.{find, exists, select, insert, update}
use go_gvisor_containerd_let.Orch.Tables.Rows.{All}
use go_gvisor_containerd_let.Let.Types.{done, decimal_int, Sandbox}
use go_gvisor_containerd_let.Let.Validate.{validate}
use go_gvisor_containerd_let.Let.Ports.{
  put, remove, check_requested, used_at, reserved_port_owner, owner_of, ensure_host_ports_available,
  reserve_requested_ports, release_requested_ports, release_reserved_ports,
}
use go_gvisor_containerd_let.Let.Admission.{
  Host, allocatable, host_cpu, host_total_memory_bytes, enforce_admission, ensure_ip_capacity,
  parse_container_resource, add_amounts, times,
}
use go_gvisor_containerd_let.Let.Admission.Totals.{cpu_of, memory_of, total}
use go_gvisor_containerd_let.Let.Runtime.{CriState, Cri, refresh_sandbox_runtime_state, is_nil}
use go_gvisor_containerd_let.Let.Runtime.Phases.{
  pod_stands, every_running, is_running_sandbox, refresh_sandbox_runtime_state-running,
}
use go_gvisor_containerd_let.Let.Health.{named, save, clear_unhealthy, forget, set_sandbox_phase}
use go_gvisor_containerd_let.Let.Sandboxes.{
  Env, Service, list, new_sandbox_state, acquire_sandbox_lock,
}
use go_gvisor_containerd_let.Let.Lifecycle.{create_sandbox, provision_sandbox, delete_sandbox}
use go_gvisor_containerd_let.Let.Lifecycle.Admitted.{create_sandbox-IsWithin}
use go_gvisor_containerd_let.Let.Lifecycle.Released.{create_sandbox-releases}
use go_gvisor_containerd_let.Let.Lifecycle.Settled.{FoundAs, IsSettled, provision_sandbox-settles}
use go_gvisor_containerd_let.Let.Lifecycle.Deleted.{NotOwnedBy, delete_sandbox-IsGone}
use go_gvisor_containerd_let.Let.Tests.{sample_request}

abbrev sample_host : Host
sample_host = record {
  parse_quantity = λ q. done (record { milli_value = pos 100; value = pos 1000 });
  cpus = 4;
  meminfo = done ("MemFree: 1 kB" ∷ "MemTotal:  16384 kB" ∷ [], none);
  max_alloc_percent = pos 80;
  cidr = "10.1.0.0/24";
  subnet = done (24, 32);
}

abbrev sample_cri : Cri
sample_cri = record {
  container_status = λ id. done (record { id = id; pid = 7; state = CriState.running });
  pod_exists = λ id. true;
}

abbrev sample_env : Env
sample_env = record {
  cfg = record {
    namespace = "k8s.io";
    bridge_interface = "sbx0";
    subnet_cidr = "10.1.0.0/24";
    cni_conf_path = "/etc/cni/net.d";
    runtime_binary = "runsc";
  };
  host = sample_host;
  cri = sample_cri;
  now = 1000;
  lock = λ id. none;
  load_failure = λ id. none;
  save_failure = λ s. none;
  delete_failure = λ id. none;
  list_failure = none;
  bind = λ port proto. none;
  create_pod = λ s cs. done ("pod", "10.1.0.2");
  pull = λ image. none;
  start = λ s c limits. done (record { id = c.name; pid = 7; state = CriState.running });
  apply_policy = λ s. none;
  wait_ready = λ s. some "readiness canceled";
  publish = λ s. none;
}

abbrev empty_service : Service
empty_service = record {
  store = [];
  reserved_ports = ("9000/tcp", "s9") ∷ [];
  unhealthy = record { since = []; hits = [] };
}

abbrev new_state : Sandbox
unfolding new_sandbox_state
new_state = new_sandbox_state sample_env.cfg 1000 sample_request

abbrev one_sandbox : Service
one_sandbox = record empty_service { store = new_state ∷ [] }

created_sample :
    create_sandbox sample_env true sample_request empty_service ≡ (done new_state, one_sandbox)
unfolding create_sandbox list select host_total_memory_bytes validate trim_space to_lower find
    ensure_host_ports_available check_requested used_at reserved_port_owner owner_of decimal_int
    decimal enforce_admission release_requested_ports has_prefix fields parse_int int64 ◌+ℤ◌
    new_state parse_container_resource add_amounts ensure_ip_capacity save reserve_requested_ports
    exists put insert remove
created_sample = refl

create_sandbox-IsWithin_example :
    (total sample_host cpu_of (new_state ∷ []) ≤ℤ allocatable sample_host (host_cpu sample_host))
    × (total sample_host memory_of (new_state ∷ []) ≤ℤ allocatable sample_host (pos 16777216))
unfolding list select host_total_memory_bytes parse_container_resource new_state has_prefix fields
    parse_int int64 trim_space ◌+ℤ◌ times
create_sandbox-IsWithin_example =
    create_sandbox-IsWithin sample_env sample_request empty_service one_sandbox new_state
      (new_state ∷ []) (pos 16777216) created_sample refl refl (omega arith) (omega arith)

create_sandbox-releases_example :
    owner_of "9000/tcp"
      (create_sandbox sample_env false sample_request empty_service).1.reserved_ports
    ≡ owner_of "9000/tcp" empty_service.reserved_ports
unfolding owner_of
create_sandbox-releases_example =
    create_sandbox-releases sample_env false sample_request empty_service "9000/tcp" refl

-- The sandbox does not become ready.
provision_sandbox-settles_example :
    FoundAs IsSettled
      (find (named "s1") (provision_sandbox sample_env "s1" sample_request one_sandbox).store)
unfolding find acquire_sandbox_lock new_state
provision_sandbox-settles_example =
    provision_sandbox-settles sample_env (λ x. refl) "s1" refl sample_request one_sandbox new_state
      refl refl

delete_sandbox-IsGone_example :
    (find (named "s1") empty_service.store ≡ none)
    × All (NotOwnedBy "s1") empty_service.reserved_ports
    × (provision_sandbox sample_env "s1" sample_request empty_service ≡ empty_service)
unfolding delete_sandbox find release_reserved_ports new_state Tables.delete clear_unhealthy save
    forget exists set_sandbox_phase update
delete_sandbox-IsGone_example =
    delete_sandbox-IsGone sample_env sample_env "s1" sample_request one_sandbox empty_service refl
      refl

refresh_sandbox_runtime_state-running_example :
    is_running_sandbox (refresh_sandbox_runtime_state sample_cri 2000 new_state)
    ≡ (pod_stands sample_cri new_state && every_running sample_cri new_state.containers)
unfolding is_nil new_state
refresh_sandbox_runtime_state-running_example =
    refresh_sandbox_runtime_state-running sample_cri 2000 new_state refl refl refl

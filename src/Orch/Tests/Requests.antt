-- ===== src/Orch/Tests/Requests.antt =====
-- The theorems about requests, applied to a request for one container.
use go_gvisor_containerd_let.Base.{
  ◌≡◌, refl, ◌↔◌, inl, pos, arith, true, ltb_ℤ, trim_space, to_lower,
}
use go_gvisor_containerd_let.Orch.Types.{CreateSandboxObjectRequest}
use go_gvisor_containerd_let.Orch.World.{ok}
use go_gvisor_containerd_let.Orch.Service.Requests.{
  parse_cpu_milli, parse_memory_bytes, validate_sandbox_create, sandbox_resource_request,
  validate_node_input, validate_containers, validate_container, validate_ports, validate_port,
  is_blank,
}
use go_gvisor_containerd_let.Orch.Service.Requests.Validity.{
  IsNamed, IsPort, Answers, IsValidRequest, validate_sandbox_create-IsValid,
}
use go_gvisor_containerd_let.Orch.Service.Requests.Amounts.{
  sandbox_resource_request-Answers, validate_node_input-IsValid,
}
use go_gvisor_containerd_let.Orch.Service.Delete.{create_sandbox_object}
use go_gvisor_containerd_let.Orch.Service.Delete.Creation.{
  IsCreation, create_sandbox_object-IsCreation,
}
use go_gvisor_containerd_let.Orch.Settings.{Settings, default_port_max, normalize}
use go_gvisor_containerd_let.Orch.Settings.Usable.{IsUsable, normalize-IsUsable}
use go_gvisor_containerd_let.Orch.Tests.{quiet, sample_world, sample_spec}

abbrev sample_request : CreateSandboxObjectRequest
sample_request = record { id = " s2 "; spec = sample_spec }

sample_IsValidRequest : IsValidRequest quiet.parse_quantity sample_request
unfolding trim_space to_lower parse_cpu_milli parse_memory_bytes
sample_IsValidRequest = record {
  id = λ e. cc;
  some_container = λ e. cc;
  ttl = omega arith;
  containers = (
    record {
      name = λ e. cc;
      image = λ e. cc;
      cpu = λ e. cc;
      memory = λ e. cc;
      cpu_answers = (pos 100, refl);
      memory_answers = (pos 100, refl);
    },
    tt,
  );
  ports = (((omega arith, omega arith), inl refl), tt);
}

validate_sandbox_create-IsValid_example :
    (validate_sandbox_create quiet.parse_quantity sample_request ≡ ok tt)
    ↔ IsValidRequest quiet.parse_quantity sample_request
validate_sandbox_create-IsValid_example =
    validate_sandbox_create-IsValid quiet.parse_quantity sample_request

sandbox_resource_request-Answers_example :
    Answers (sandbox_resource_request quiet.parse_quantity sample_spec)
unfolding validate_sandbox_create validate_containers validate_container validate_ports
    validate_port is_blank trim_space to_lower parse_cpu_milli parse_memory_bytes
sandbox_resource_request-Answers_example =
    sandbox_resource_request-Answers quiet.parse_quantity sample_request refl

validate_node_input-IsValid_example :
    (validate_node_input quiet.parse_ip "n1" "10.0.0.1" (pos 70000) ≡ ok tt)
    ↔ (IsNamed "n1" × (quiet.parse_ip (trim_space "10.0.0.1") ≡ true) × IsPort (pos 70000))
validate_node_input-IsValid_example =
    validate_node_input-IsValid quiet.parse_ip "n1" "10.0.0.1" (pos 70000)

create_sandbox_object-IsCreation_example :
    IsCreation sample_request sample_world (create_sandbox_object sample_request sample_world)
create_sandbox_object-IsCreation_example =
    create_sandbox_object-IsCreation sample_request sample_world
      (record { alone = λ k d. refl; sound = λ k. refl }) sample_IsValidRequest (omega arith)

-- A range of host ports above the default one, with its ends exchanged.
abbrev bad_settings : Settings
bad_settings = record {
  ready_success_threshold = pos 0;
  not_ready_failure_threshold = pos 0;
  heartbeat_max_parallel = pos 0;
  resource_sync_interval = pos 0;
  resource_persist_min_int = pos 0;
  resource_persist_max_int = pos 0;
  scheduler_interval = pos 0;
  reconcile_interval = pos 0;
  status_sync_interval = pos 0;
  status_sync_timeout = pos 0;
  status_sync_batch_size = pos 0;
  status_sync_max_parallel = pos 0;
  sandbox_op_timeout = pos 0;
  host_port_min = pos 40000;
  host_port_max = pos 39000;
  create_burst = pos 0;
}

normalize-IsUsable_example :
    IsUsable (normalize bad_settings)
    × ((ltb_ℤ (normalize bad_settings).host_port_max (normalize bad_settings).host_port_min ≡ true)
        ↔ ((ltb_ℤ bad_settings.host_port_max bad_settings.host_port_min ≡ true)
            × (ltb_ℤ default_port_max bad_settings.host_port_min ≡ true)))
normalize-IsUsable_example = normalize-IsUsable bad_settings

-- ===== src/Let/Tests.antt =====
-- The theorems about the node agent, applied to sample data.
mod Lifecycle
mod Logs
mod Store
mod Firewall
use go_gvisor_containerd_let.Base.{
  List, some, none, arith, ℕ, ◌≡◌, refl, ◌↔◌, pos, sub_ℕ, leb_ℤ, ltb_ℤ, length, ◌++◌, String,
  decimal, trim_space, to_lower, ◌+◌, ◌&&◌, not, true, false, none, [], ◌∷◌, if◌then◌else◌,
}
use go_gvisor_containerd_let.Orch.Tables
use go_gvisor_containerd_let.Orch.Tables.Rows.{All}
use go_gvisor_containerd_let.Let.Types.{
  CreateSandboxRequest, PortMapping, Sandbox, done, decimal_int,
}
use go_gvisor_containerd_let.Let.Validate.{validate}
use go_gvisor_containerd_let.Let.Validate.Accepted.{IsValidRequest, validate-IsValid}
use go_gvisor_containerd_let.Let.Ports.{
  record_sandboxes, check_all_requested, check_requested, reserved_port_owner, put, used_at,
  port_key, normalize_proto, key_of, owner_of, owned_by, reserve_requested_ports,
  release_requested_ports, release_reserved_ports, ensure_host_ports_available,
}
use go_gvisor_containerd_let.Let.Ports.Exclusion.{
  asks_for, reserve_requested_ports-excludes, release_requested_ports-frees,
  owner_of-release_reserved_ports,
}
use go_gvisor_containerd_let.Let.Pages.{by_id}
use go_gvisor_containerd_let.Let.Pages.Following.{follow, follow-all}
use go_gvisor_containerd_let.Orch.Tables.Order.{Ascending}
use mathlib.Core.List.{Perm}
use go_gvisor_containerd_let.Let.Health.{
  Limits, Unhealthy, Agent, NodeAnswers, named, lookup, should_finalize_unhealthy, reconcile_once,
  is_missing, all_running, is_young,
}
use go_gvisor_containerd_let.Let.Health.Grace.{observe, should_finalize_unhealthy-grace}
use go_gvisor_containerd_let.Let.Health.Rounds.{reconcile_once-spares}

abbrev web_port : PortMapping
web_port = record { host_port = pos 8080; container_port = pos 80; protocol = "TCP" }

abbrev dns_port : PortMapping
dns_port = record { host_port = pos 8053; container_port = pos 53; protocol = "udp" }

abbrev sample_request : CreateSandboxRequest
sample_request = record {
  id = "s1";
  egress = true;
  containers =
      record {
        name = "web";
        image = "nginx";
        args = [];
        env = [];
        work_dir = "";
        resource = record { cpu = "100m"; memory = "64Mi" };
      }
      ∷ [];
  ports = web_port ∷ dns_port ∷ [];
}

validate-IsValid_example : (validate sample_request ≡ none) ↔ IsValidRequest sample_request
validate-IsValid_example = validate-IsValid sample_request

-- The second sandbox asks for another port while the first holds its reservation.
reserve_requested_ports-excludes_example :
    All (λ q. Tables.exists (asks_for (key_of q)) (web_port ∷ []) ≡ false) (dns_port ∷ [])
unfolding ensure_host_ports_available reserve_requested_ports record_sandboxes check_all_requested
    check_requested reserved_port_owner owner_of put used_at port_key normalize_proto decimal_int
    decimal trim_space to_lower
reserve_requested_ports-excludes_example =
    reserve_requested_ports-excludes (λ port proto. none) "s1" "s2" (web_port ∷ []) (dns_port ∷ [])
      [] (done []) refl refl

abbrev sample_limits : Limits
sample_limits = record { grace = pos 10; hits = pos 3 }

abbrev nothing_seen : Unhealthy
nothing_seen = record { since = []; hits = [] }

should_finalize_unhealthy-grace_example :
    ((should_finalize_unhealthy sample_limits "s1" 100 nothing_seen).0 ≡ false)
    × ((should_finalize_unhealthy sample_limits "s1" 120
          (observe sample_limits "s1" (100 ∷ 110 ∷ []) nothing_seen)).0
        ≡ (not (ltb_ℤ (sub_ℕ 120 100) sample_limits.grace)
            && leb_ℤ sample_limits.hits (pos (length {A = ℕ} (110 ∷ []) + 2))))
unfolding lookup
should_finalize_unhealthy-grace_example =
    should_finalize_unhealthy-grace sample_limits "s1" 100 (110 ∷ []) 120 nothing_seen refl

-- A running sandbox, and one whose pod is gone.
abbrev sample_sandbox : String → String → Sandbox
sample_sandbox id pod = record {
  id = id;
  phase = "running";
  error = "";
  namespace = "k8s.io";
  ip = "10.1.0.2";
  subnet_cidr = "10.1.0.0/24";
  bridge_name = "sbx0";
  egress = true;
  ports = [];
  containers = [];
  pause_id = pod;
  cni_conf_path = "/etc/cni/net.d";
  created_at = 1;
  updated_at = 1;
}

abbrev sample_agent : Agent
sample_agent = record {
  store = sample_sandbox "s1" "p1" ∷ sample_sandbox "s2" "" ∷ [];
  unhealthy = nothing_seen;
}

abbrev sample_node : NodeAnswers
sample_node = record {
  now = 1000;
  lock_held = λ id. false;
  pod_exists = λ id. true;
  running = λ id. true;
}

reconcile_once-spares_example :
    Tables.find (named "s1") (reconcile_once sample_limits sample_node sample_agent).store
    ≡ Tables.find (named "s1") sample_agent.store
unfolding is_missing all_running is_young
reconcile_once-spares_example =
    reconcile_once-spares sample_limits sample_node "s1" sample_agent (λ e. refl, (λ e. cc, tt))

follow-all_example :
    (read : List Sandbox) × (follow sample_agent.store (pos 1) 3 "" ≡ some read)
    × Ascending by_id read
    × Perm read sample_agent.store
unfolding Tables.exists
follow-all_example =
    follow-all sample_agent.store (pos 1) (refl, (refl, tt)) (refl, (refl, tt)) 3 (omega arith)

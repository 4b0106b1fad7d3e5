-- ===== src/Orch/Tests/Service.antt =====
-- The theorems about the service and its cache, applied to the sample data.
use mathlib.Core.List.{Nodup, Mem}
use mathlib.Core.List.Perm
use go_gvisor_containerd_let.Base.{
  ℕ, ◌+◌, ◌<◌, ◌≡◌, refl, pos, none, [], ◌∷◌, map, arith, ◌↔◌, trim_space, to_lower,
}
use go_gvisor_containerd_let.Orch.Types.{
  Node, Sandbox, unknown, ready, not_ready, SandboxSyncStatus, no_resources,
}
use go_gvisor_containerd_let.Orch.Tables.Rows.{All}
use go_gvisor_containerd_let.Orch.Tables
use go_gvisor_containerd_let.Orch.World.{agent, err, ◌>>=◌, attempt, query, tick}
use go_gvisor_containerd_let.Orch.Repo.Sandboxes.{node_used_host_ports}
use go_gvisor_containerd_let.Orch.Cache.{should_persist, put_current, mark_persisted}
use go_gvisor_containerd_let.Orch.Cache.Throttle.{may_write, should_persist-mark_persisted}
use go_gvisor_containerd_let.Orch.Repo.Invariant.{IsConsistent}
use go_gvisor_containerd_let.Orch.Service.Ports.{allocate_host_ports, assign_ports, free_ports}
use go_gvisor_containerd_let.Orch.Service.Ports.Allocation.{
  Serves, IsFree, allocate_host_ports_sound, mem-free_ports,
}
use go_gvisor_containerd_let.Orch.Service.Ports.Refusal.{HasFewer, allocate_host_ports-none}
use go_gvisor_containerd_let.Orch.Service.Health.{probe_next}
use go_gvisor_containerd_let.Orch.Service.Health.Streaks.{
  probe_run, succeeded, failed_with, Turned, probe_next-Turned, probe_run-ready,
  probe_run-not_ready,
}
use go_gvisor_containerd_let.Orch.Service.Sync.{merge_sandbox_phase_with_node_state}
use go_gvisor_containerd_let.Orch.Service.Sync.Merge.{
  IsExact, IsMerge, merge_sandbox_phase_with_node_state-IsExact,
  merge_sandbox_phase_with_node_state-IsMerge,
}
use go_gvisor_containerd_let.Orch.Service.Scheduler.{candidates, ranked, candidate_ports, has_room}
use go_gvisor_containerd_let.Orch.Service.Scheduler.Choice.{IsChoice, candidates-IsChoice}
use go_gvisor_containerd_let.Orch.Service.Safety.{
  create_sandbox, scheduler_tick, status_sync_tick, delete_sandbox, serve,
}
use go_gvisor_containerd_let.Orch.Service.Safety.Handlers.{serve-IsConsistent}
use go_gvisor_containerd_let.Orch.Tests.{
  sample_world, sample_config, sample_port, sample_spec, sample_status, sample_resources,
  sample_IsConsistent,
}

serve-IsConsistent_example :
    IsConsistent
      (serve
        (create_sandbox (record { id = "s2"; spec = sample_spec })
          ∷ scheduler_tick
          ∷ status_sync_tick
          ∷ delete_sandbox "s1"
          ∷ [])
        sample_world).1.db
serve-IsConsistent_example = serve-IsConsistent sample_world _ (λ k d c. c) sample_IsConsistent

should_persist-mark_persisted_example :
    should_persist "n1" 150
      (pos 30)
      (pos 300)
      (put_current "n1" sample_resources (mark_persisted "n1" no_resources 100 []))
    ≡ may_write no_resources sample_resources 100 150 (pos 30) (pos 300)
should_persist-mark_persisted_example =
    should_persist-mark_persisted "n1" no_resources sample_resources 100 150 (pos 30) (pos 300) []

allocate_host_ports_sound_example :
    Serves
      (sample_port ∷ [])
      (record { host_port = 10001; container_port = pos 80; protocol = "tcp" } ∷ [])
    × Nodup {A = ℕ} (10001 ∷ [])
    × All (IsFree (10000 ∷ []) 10000 (10003 + 1)) (10001 ∷ [])
unfolding allocate_host_ports free_ports assign_ports trim_space to_lower
allocate_host_ports_sound_example =
    allocate_host_ports_sound (λ xs. xs) (sample_port ∷ []) (10000 ∷ []) 10000 10003 _
      (λ xs. Perm.refl xs) refl

allocate_host_ports-none_example :
    (allocate_host_ports (λ xs. xs) (sample_port ∷ []) (7 ∷ []) 7 7 ≡ none)
    ↔ ((0 < 1) × HasFewer (7 ∷ []) 7 (7 + 1) 1)
allocate_host_ports-none_example =
    allocate_host_ports-none (λ xs. xs) (sample_port ∷ []) (7 ∷ []) 7 7

mem-free_ports_example : Mem 8 (free_ports (7 ∷ []) 7 3) ↔ IsFree (7 ∷ []) 7 (7 + 3) 8
mem-free_ports_example = mem-free_ports (7 ∷ []) 7 3 8

abbrev sample_node : Node
sample_node = record {
  id = "n1";
  ip = "10.0.0.1";
  port = 8081;
  state = unknown;
  source = "api";
  last_error = "";
  success_streak = 0;
  failure_streak = 0;
  created_at = 1;
  updated_at = 1;
  last_heartbeat = none;
  resources = sample_resources;
  sbxlet_base_url = "http://10.0.0.1:8081";
}

probe_next-Turned_example :
    Turned sample_config sample_node (probe_next sample_config 5 (err (agent "down")) sample_node)
probe_next-Turned_example = probe_next-Turned sample_config 5 (err (agent "down")) sample_node

probe_run-ready_example :
    (probe_run sample_config (map succeeded (5 ∷ 6 ∷ [])) sample_node).state ≡ ready
probe_run-ready_example = probe_run-ready sample_config 5 (6 ∷ []) sample_node (omega arith)

probe_run-not_ready_example :
    (probe_run sample_config
      (map failed_with ((5, agent "down") ∷ (6, agent "down") ∷ []))
      sample_node).state
    ≡ not_ready
probe_run-not_ready_example =
    probe_run-not_ready sample_config (5, agent "down") ((6, agent "down") ∷ []) sample_node
      (omega arith)

abbrev sample_report : SandboxSyncStatus
sample_report = record {
  id = "s1";
  ip = "10.1.0.2";
  phase = "Running";
  error = "";
  unhealthy_containers = [];
}

merge_sandbox_phase_with_node_state-IsExact_example :
    IsExact sample_status (merge_sandbox_phase_with_node_state sample_status sample_report)
merge_sandbox_phase_with_node_state-IsExact_example =
    merge_sandbox_phase_with_node_state-IsExact sample_status sample_report

merge_sandbox_phase_with_node_state-IsMerge_example :
    IsMerge sample_status (merge_sandbox_phase_with_node_state sample_status sample_report).0
merge_sandbox_phase_with_node_state-IsMerge_example =
    merge_sandbox_phase_with_node_state-IsMerge sample_status sample_report

abbrev idle_node : Node
idle_node = record sample_node { state = ready }

abbrev sample_sandbox : Sandbox
sample_sandbox = record {
  id = "s1";
  spec = sample_spec;
  status = sample_status;
  created_at = 5;
  updated_at = 5;
}

candidates-IsChoice_example :
    IsChoice
      (pos 100)
      (pos 100)
      sample_sandbox
      (λ n. n.id ≡ "n1")
      (record {
        node = idle_node;
        ports = record { host_port = 10000; container_port = pos 80; protocol = "tcp" } ∷ [];
      }
        ∷ [])
      (ranked (pos 100) (
        record {
          node = idle_node;
          ports = record { host_port = 10000; container_port = pos 80; protocol = "tcp" } ∷ [];
        }
        ∷ []))
unfolding candidates candidate_ports node_used_host_ports has_room allocate_host_ports free_ports
    assign_ports trim_space to_lower ◌>>=◌ attempt query Tables.select tick
candidates-IsChoice_example =
    candidates-IsChoice (pos 100) (pos 100) sample_sandbox (λ n. n.id ≡ "n1") (idle_node ∷ [])
      sample_world _ _ (refl, tt) refl

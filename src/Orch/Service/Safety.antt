-- ===== src/Orch/Service/Safety.antt =====
-- Invariants of the store under the whole control plane: what every method of the store keeps, every
-- handler and every background loop keeps, in any order, whatever fails and whatever interferes.
pub mod Parts
pub mod Deletes
pub mod Schedules
pub mod Syncs
pub mod Nodes
pub mod Handlers
use go_gvisor_containerd_let.Base.{ℕ, String, Bool, List, [], ◌∷◌}
use go_gvisor_containerd_let.Orch.Types.{
  CreateSandboxObjectRequest, RegisterNodeRequest, CreateNodeObjectRequest,
  CreateExternalObjectRequest,
}
use go_gvisor_containerd_let.Orch.World.{M, ignore, for_each}
use go_gvisor_containerd_let.Orch.Service.Delete.{
  create_sandbox_object, delete_sandbox_object, trigger_sandbox_reconcile,
  run_sandbox_reconcile_once,
}
use go_gvisor_containerd_let.Orch.Service.Scheduler.{run_scheduler_once, refresh_sandbox_ip_soon}
use go_gvisor_containerd_let.Orch.Service.Sync.{run_sandbox_status_sync_once}
use go_gvisor_containerd_let.Orch.Service.NodeOps.{
  register_node, create_node_object, upsert_external_object, delete_external_object,
  delete_node_force, run_heartbeat_once, run_resource_sync_once,
}

-- The requests that the API hands to the service, and the ticks of its loops.
pub data Handler : Type 0 where
  create_sandbox : CreateSandboxObjectRequest → Handler
  delete_sandbox : String → Handler
  trigger_reconcile : String → Handler
  register : RegisterNodeRequest → String → Handler
  create_node : CreateNodeObjectRequest → Handler
  delete_node : String → Bool → Handler
  upsert_external : CreateExternalObjectRequest → Handler
  delete_external : String → Handler
  refresh_ip : String → String → Handler
  scheduler_tick reconcile_tick status_sync_tick heartbeat_tick resource_sync_tick : Handler

-- Whatever a handler returns, the process goes on.
unfoldable pub handle : Handler → M (Unit {0})
handle (create_sandbox req) = ignore (create_sandbox_object req)
handle (delete_sandbox id) = ignore (delete_sandbox_object id)
handle (trigger_reconcile id) = ignore (trigger_sandbox_reconcile id)
handle (register req source) = ignore (register_node req source)
handle (create_node req) = ignore (create_node_object req)
handle (delete_node id force) = ignore (delete_node_force id force)
handle (upsert_external req) = ignore (upsert_external_object req)
handle (delete_external id) = ignore (delete_external_object id)
handle (refresh_ip id node) = refresh_sandbox_ip_soon id node
handle scheduler_tick = run_scheduler_once
handle reconcile_tick = run_sandbox_reconcile_once
handle status_sync_tick = run_sandbox_status_sync_once
handle heartbeat_tick = run_heartbeat_once
handle resource_sync_tick = run_resource_sync_once

unfoldable pub serve : List Handler → M (Unit {0})
unfolding handle
serve handlers = for_each handle handlers

-- ===== src/Orch/Service/Safety/Handlers.antt =====
-- The store stays consistent under every run of the control plane.
use go_gvisor_containerd_let.Base.{ℕ, List}
use go_gvisor_containerd_let.Orch.Tables.{Db}
use go_gvisor_containerd_let.Orch.World.{World}
use go_gvisor_containerd_let.Orch.World.Keeps.{Keeps, keeps_rules}
use go_gvisor_containerd_let.Orch.Repo.Invariant.{IsConsistent}
use go_gvisor_containerd_let.Orch.Repo.Invariant.Methods.{
  create_sandbox-Keeps, get_sandbox-Keeps, list_sandboxes-Keeps, update_sandbox_status-Keeps,
  update_sandbox_status_if_unchanged-Keeps, delete_sandbox-Keeps,
  reserve_sandbox_ports_and_schedule-Keeps, release_sandbox_ports-Keeps, node_used_host_ports-Keeps,
}
use go_gvisor_containerd_let.Orch.Repo.Invariant.NodeMethods.{
  upsert_node-Keeps, delete_node-Keeps, get_node-Keeps, list_nodes-Keeps, update_heartbeat-Keeps,
  update_node_resources-Keeps, adjust_node_resource_usage-Keeps, set_node_external-Keeps,
  delete_external-Keeps, get_external-Keeps,
}
use go_gvisor_containerd_let.Orch.Service.Safety.{
  Handler, create_sandbox, delete_sandbox, trigger_reconcile, register, create_node, delete_node,
  upsert_external, delete_external, refresh_ip, scheduler_tick, reconcile_tick, status_sync_tick,
  heartbeat_tick, resource_sync_tick, handle, serve,
}
use go_gvisor_containerd_let.Orch.Service.Safety.Parts.{StoreKeeps}
use go_gvisor_containerd_let.Orch.Service.Safety.Deletes.{
  create_sandbox_object-Keeps, delete_sandbox_object-Keeps, trigger_sandbox_reconcile-Keeps,
  run_sandbox_reconcile_once-Keeps,
}
use go_gvisor_containerd_let.Orch.Service.Safety.Schedules.{
  run_scheduler_once-Keeps, refresh_sandbox_ip_soon-Keeps,
}
use go_gvisor_containerd_let.Orch.Service.Safety.Syncs.{run_sandbox_status_sync_once-Keeps}
use go_gvisor_containerd_let.Orch.Service.Safety.Nodes.{
  register_node-Keeps, create_node_object-Keeps, upsert_external_object-Keeps,
  delete_external_object-Keeps, delete_node_force-Keeps, run_heartbeat_once-Keeps,
  run_resource_sync_once-Keeps,
}

module _ {Inv : Db → Type 0} (s : StoreKeeps Inv) where
  handle-Keeps : (h : Handler) → Keeps Inv (handle h)
  unfolding handle
  handle-Keeps (create_sandbox req) = search (keeps_rules, create_sandbox_object-Keeps s)
  handle-Keeps (delete_sandbox id) = search (keeps_rules, delete_sandbox_object-Keeps s)
  handle-Keeps (trigger_reconcile id) = search (keeps_rules, trigger_sandbox_reconcile-Keeps s)
  handle-Keeps (register req source) = search (keeps_rules, register_node-Keeps s)
  handle-Keeps (create_node req) = search (keeps_rules, create_node_object-Keeps s)
  handle-Keeps (delete_node id force) = search (keeps_rules, delete_node_force-Keeps s)
  handle-Keeps (upsert_external req) = search (keeps_rules, upsert_external_object-Keeps s)
  handle-Keeps (delete_external id) = search (keeps_rules, delete_external_object-Keeps s)
  handle-Keeps (refresh_ip id node) = refresh_sandbox_ip_soon-Keeps s id node
  handle-Keeps scheduler_tick = run_scheduler_once-Keeps s
  handle-Keeps reconcile_tick = run_sandbox_reconcile_once-Keeps s
  handle-Keeps status_sync_tick = run_sandbox_status_sync_once-Keeps s
  handle-Keeps heartbeat_tick = run_heartbeat_once-Keeps s
  handle-Keeps resource_sync_tick = run_resource_sync_once-Keeps s

  serve-Keeps : (hs : List Handler) → Keeps Inv (serve hs)
  unfolding serve
  serve-Keeps hs = search (keeps_rules, handle-Keeps)

store-StoreKeeps : StoreKeeps IsConsistent
store-StoreKeeps = record {
  creates = create_sandbox-Keeps;
  gets_sandbox = get_sandbox-Keeps;
  lists_sandboxes = list_sandboxes-Keeps;
  updates_status = update_sandbox_status-Keeps;
  updates_if_unchanged = update_sandbox_status_if_unchanged-Keeps;
  deletes = delete_sandbox-Keeps;
  reserves = reserve_sandbox_ports_and_schedule-Keeps;
  releases = release_sandbox_ports-Keeps;
  reads_ports = node_used_host_ports-Keeps;
  upserts_node = upsert_node-Keeps;
  deletes_node = delete_node-Keeps;
  gets_node = get_node-Keeps;
  lists_nodes = list_nodes-Keeps;
  beats = update_heartbeat-Keeps;
  updates_resources = update_node_resources-Keeps;
  adjusts = adjust_node_resource_usage-Keeps;
  sets_external = set_node_external-Keeps;
  deletes_external = delete_external-Keeps;
  gets_external = get_external-Keeps;
}

-- From consistent tables, any sequence of requests and ticks leaves consistent tables: sandboxes,
-- nodes and external objects have one row for each key, no two port rows share a host port of one
-- node, every port row belongs to a sandbox and every external address to a node. This holds
-- whichever statements fail, and whatever the other goroutines do between two statements that
-- itself keeps the tables consistent.
pub serve-IsConsistent :
    (w : World) (hs : List Handler)
    → ((k : ℕ) (d : Db) → IsConsistent d → IsConsistent (w.env.others k d))
    → IsConsistent w.db
    → IsConsistent (serve hs w).1.db
serve-IsConsistent w hs rely c =
    ((serve-Keeps store-StoreKeeps hs).at w (record { rely = rely; inv = c })).inv

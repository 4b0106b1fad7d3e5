-- ===== src/Orch/Service/Safety/Nodes.antt =====
-- The operations on nodes and external objects keep what the store's methods keep.
use go_gvisor_containerd_let.Base.{ℕ, String, Bool, Option, none, some, List}
use go_gvisor_containerd_let.Orch.Types.{
  SandboxPhase, pending, scheduled, running, failed, deleting, NodeResources, Node, Sandbox,
  RegisterNodeRequest, CreateNodeObjectRequest, CreateExternalObjectRequest,
}
use go_gvisor_containerd_let.Orch.Tables.{Db}
use go_gvisor_containerd_let.Orch.World.{Result, ok, err, M}
use go_gvisor_containerd_let.Orch.World.Keeps.{Keeps, Keeps-bind, Keeps-attempt, keeps_rules}
use go_gvisor_containerd_let.Orch.Service.Health.{
  probe_node, persist_resources, store_resources, sync_answer, sync_node_resources,
}
use go_gvisor_containerd_let.Orch.Service.NodeOps.{
  register_node, create_node_object, require_node, upsert_external_object, delete_external_object,
  delete_detached, detach_placed, detach_phase, detach_sandbox, reconcile_detached,
  detach_node_sandboxes, delete_node_force, for_listed, run_heartbeat_once, run_resource_sync_once,
}
use go_gvisor_containerd_let.Orch.Service.Safety.Parts.{
  StoreKeeps, client_for_node-Keeps, agent_rules,
}

module _ {Inv : Db → Type 0} (s : StoreKeeps Inv) where
  probe_node-Keeps : (n : Node) → Keeps Inv (probe_node n)
  unfolding probe_node
  probe_node-Keeps n = search (agent_rules, s.beats) depth 9

  persist_resources-Keeps :
      (n : Node) (res : NodeResources) (now : ℕ) → Keeps Inv (persist_resources n res now)
  unfolding persist_resources
  persist_resources-Keeps n res now = search (keeps_rules, s.updates_resources)

  store_resources-Keeps : (n : Node) (res : NodeResources) → Keeps Inv (store_resources n res)
  unfolding store_resources
  store_resources-Keeps n res = search (keeps_rules, persist_resources-Keeps) depth 9

  sync_answer-Keeps : (n : Node) (r : Result NodeResources) → Keeps Inv (sync_answer n r)
  unfolding sync_answer
  sync_answer-Keeps n (ok res) = store_resources-Keeps n _
  sync_answer-Keeps n (err e) = search keeps_rules

  sync_node_resources-Keeps : (n : Node) → Keeps Inv (sync_node_resources n)
  unfolding sync_node_resources
  sync_node_resources-Keeps n = search (agent_rules, sync_answer-Keeps)

  pub register_node-Keeps :
      (req : RegisterNodeRequest) (source : String) → Keeps Inv (register_node req source)
  unfolding register_node
  register_node-Keeps req source =
      search (keeps_rules, s.upserts_node, s.gets_node, probe_node-Keeps, sync_node_resources-Keeps)
        depth 12

  pub create_node_object-Keeps :
      (req : CreateNodeObjectRequest) → Keeps Inv (create_node_object req)
  unfolding create_node_object
  create_node_object-Keeps req = register_node-Keeps _ "object"

  require_node-Keeps : (r : Result Node) → Keeps Inv (require_node r)
  unfolding require_node
  require_node-Keeps (ok n) = search keeps_rules
  require_node-Keeps (err e) = search keeps_rules

  pub upsert_external_object-Keeps :
      (req : CreateExternalObjectRequest) → Keeps Inv (upsert_external_object req)
  unfolding upsert_external_object
  upsert_external_object-Keeps req =
      search (keeps_rules, s.gets_node, require_node-Keeps, s.sets_external) depth 12

  pub delete_external_object-Keeps : (id : String) → Keeps Inv (delete_external_object id)
  unfolding delete_external_object
  delete_external_object-Keeps id = search (keeps_rules, s.deletes_external)

  delete_detached-Keeps :
      (node : String) (client : Option String) (sbx : Sandbox)
      → Keeps Inv (delete_detached node client sbx)
  unfolding delete_detached
  delete_detached-Keeps node none sbx = search keeps_rules
  delete_detached-Keeps node (some url) sbx = search agent_rules

  detach_placed-Keeps :
      (node : String) (client : Option String) (sbx : Sandbox)
      → Keeps Inv (detach_placed node client sbx)
  unfolding detach_placed
  detach_placed-Keeps node client sbx =
      search (keeps_rules, delete_detached-Keeps, s.updates_status)

  detach_phase-Keeps :
      (p : SandboxPhase) (node : String) (client : Option String) (sbx : Sandbox)
      → Keeps Inv (detach_phase p node client sbx)
  unfolding detach_phase
  detach_phase-Keeps deleting node client sbx = search (keeps_rules, s.deletes)
  detach_phase-Keeps running node client sbx = detach_placed-Keeps node client sbx
  detach_phase-Keeps scheduled node client sbx = detach_placed-Keeps node client sbx
  detach_phase-Keeps pending node client sbx = search keeps_rules
  detach_phase-Keeps failed node client sbx = search keeps_rules

  detach_sandbox-Keeps :
      (node : String) (client : Option String) (sbx : Sandbox)
      → Keeps Inv (detach_sandbox node client sbx)
  unfolding detach_sandbox
  detach_sandbox-Keeps node client sbx =
      search (keeps_rules, s.releases, detach_phase-Keeps) depth 8

  reconcile_detached-Keeps :
      (node : String) (client : Option String) → Keeps Inv (reconcile_detached node client)
  unfolding reconcile_detached
  reconcile_detached-Keeps node none = search keeps_rules
  reconcile_detached-Keeps node (some url) = search agent_rules

  detach_node_sandboxes-Keeps :
      (node : String) (force : Bool) → Keeps Inv (detach_node_sandboxes node force)
  unfolding detach_node_sandboxes
  detach_node_sandboxes-Keeps node force =
      Keeps-bind _ _ (Keeps-attempt _ (client_for_node-Keeps s node)) (λ r.
        Keeps-bind _ _ (search keeps_rules) (λ client.
          Keeps-bind _ _ s.lists_sandboxes
            (λ items. search (keeps_rules, detach_sandbox-Keeps, reconcile_detached-Keeps))))

  pub delete_node_force-Keeps :
      (id : String) (force : Bool) → Keeps Inv (delete_node_force id force)
  unfolding delete_node_force
  delete_node_force-Keeps id force =
      search (keeps_rules, detach_node_sandboxes-Keeps, s.deletes_node) depth 8

  for_listed-Keeps :
      (f : Node → M (Unit {0})) (r : Result (List Node))
      → ((n : Node) → Keeps Inv (f n))
      → Keeps Inv (for_listed f r)
  unfolding for_listed
  for_listed-Keeps f (ok nodes) k = search keeps_rules
  for_listed-Keeps f (err e) k = search keeps_rules

  pub run_heartbeat_once-Keeps : Keeps Inv run_heartbeat_once
  unfolding run_heartbeat_once
  run_heartbeat_once-Keeps =
      Keeps-bind _ _ (Keeps-attempt _ s.lists_nodes) (λ r. for_listed-Keeps _ r probe_node-Keeps)

  pub run_resource_sync_once-Keeps : Keeps Inv run_resource_sync_once
  unfolding run_resource_sync_once
  run_resource_sync_once-Keeps =
      Keeps-bind _ _ (Keeps-attempt _ s.lists_nodes)
        (λ r. for_listed-Keeps _ r sync_node_resources-Keeps)

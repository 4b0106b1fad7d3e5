-- ===== src/Orch/Service/Safety/Parts.antt =====
-- Each part of the service keeps what the methods of the store keep. `StoreKeeps` is the interface:
-- the store's proofs fill it, and the service's proofs use nothing else of the store.
use go_gvisor_containerd_let.Base.{ℕ, ℤ, String, Option, List}
use go_gvisor_containerd_let.Orch.Types.{
  SandboxStatus, SandboxPortAssign, NodeState, NodeResources, Sandbox,
}
use go_gvisor_containerd_let.Orch.Tables.{Db}
use go_gvisor_containerd_let.Orch.World.{Result, ok, err}
use go_gvisor_containerd_let.Orch.World.Keeps.{Keeps, Keeps-if, Keeps-bind, keeps_rules}
use go_gvisor_containerd_let.Orch.Repo.Sandboxes.{
  create_sandbox, get_sandbox, list_sandboxes, update_sandbox_status,
  update_sandbox_status_if_unchanged, delete_sandbox, reserve_sandbox_ports_and_schedule,
  release_sandbox_ports, node_used_host_ports,
}
use go_gvisor_containerd_let.Orch.Repo.Nodes.{
  upsert_node, delete_node, get_node, list_nodes, update_heartbeat, update_node_resources,
  adjust_node_resource_usage,
}
use go_gvisor_containerd_let.Orch.Repo.Externals.{set_node_external, delete_external, get_external}
use go_gvisor_containerd_let.Orch.Service.Clients.{
  healthz, node_status, delete_on_node, sandbox_statuses, reconcile_node, client_for_node,
  create_sandbox_on_node, fetch_ip, fetch_sandbox_ip_once,
}

pub record StoreKeeps (Inv : Db → Type 0) : Type 0 where
  pub creates : (sbx : Sandbox) → Keeps Inv (create_sandbox sbx)
  pub gets_sandbox : (id : String) → Keeps Inv (get_sandbox id)
  pub lists_sandboxes : Keeps Inv list_sandboxes
  pub updates_status : (id : String) (st : SandboxStatus) → Keeps Inv (update_sandbox_status id st)
  pub updates_if_unchanged :
      (id : String) (st : SandboxStatus) (expected : ℕ)
      → Keeps Inv (update_sandbox_status_if_unchanged id st expected)
  pub deletes : (id : String) → Keeps Inv (delete_sandbox id)
  pub reserves :
      (id node : String) (ports : List SandboxPortAssign)
      → Keeps Inv (reserve_sandbox_ports_and_schedule id node ports)
  pub releases : (id : String) → Keeps Inv (release_sandbox_ports id)
  pub reads_ports : (node : String) → Keeps Inv (node_used_host_ports node)
  pub upserts_node :
      (name ip : String) (port : ℕ) (source : String) → Keeps Inv (upsert_node name ip port source)
  pub deletes_node : (name : String) → Keeps Inv (delete_node name)
  pub gets_node : (name : String) → Keeps Inv (get_node name)
  pub lists_nodes : Keeps Inv list_nodes
  pub beats :
      (name : String) (state : NodeState) (s f : ℕ) (e : String) (beat : Option ℕ)
      → Keeps Inv (update_heartbeat name state s f e beat)
  pub updates_resources :
      (name : String) (res : NodeResources) → Keeps Inv (update_node_resources name res)
  pub adjusts : (name : String) (cpu mem : ℤ) → Keeps Inv (adjust_node_resource_usage name cpu mem)
  pub sets_external : (id node external : String) → Keeps Inv (set_node_external id node external)
  pub deletes_external : (id : String) → Keeps Inv (delete_external id)
  pub gets_external : (id : String) → Keeps Inv (get_external id)

module _ {Inv : Db → Type 0} where
  pub Keeps-healthz : (url : String) → Keeps Inv (healthz url)
  unfolding healthz
  Keeps-healthz url = search keeps_rules

  pub Keeps-node_status : (url : String) → Keeps Inv (node_status url)
  unfolding node_status
  Keeps-node_status url = search keeps_rules

  pub Keeps-delete_on_node : (url id : String) → Keeps Inv (delete_on_node url id)
  unfolding delete_on_node
  Keeps-delete_on_node url id = search keeps_rules

  pub Keeps-sandbox_statuses :
      (url : String) (ids : List String) → Keeps Inv (sandbox_statuses url ids)
  unfolding sandbox_statuses
  Keeps-sandbox_statuses url ids = search keeps_rules

  pub Keeps-reconcile_node : (url : String) → Keeps Inv (reconcile_node url)
  unfolding reconcile_node
  Keeps-reconcile_node url = search keeps_rules

pub ruleset agent_rules = (
  keeps_rules, Keeps-healthz, Keeps-node_status, Keeps-delete_on_node, Keeps-sandbox_statuses,
  Keeps-reconcile_node,
)

module _ {Inv : Db → Type 0} (s : StoreKeeps Inv) where
  pub client_for_node-Keeps : (name : String) → Keeps Inv (client_for_node name)
  unfolding client_for_node
  client_for_node-Keeps name = search (keeps_rules, s.gets_node)

  pub create_sandbox_on_node-Keeps : (sbx : Sandbox) → Keeps Inv (create_sandbox_on_node sbx)
  unfolding create_sandbox_on_node
  create_sandbox_on_node-Keeps sbx = search (keeps_rules, client_for_node-Keeps)

  fetch_ip-Keeps : (r : Result String) (id : String) → Keeps Inv (fetch_ip r id)
  unfolding fetch_ip
  fetch_ip-Keeps (ok url) id = search agent_rules
  fetch_ip-Keeps (err e) id = search agent_rules

  pub fetch_sandbox_ip_once-Keeps : (node id : String) → Keeps Inv (fetch_sandbox_ip_once node id)
  unfolding fetch_sandbox_ip_once
  fetch_sandbox_ip_once-Keeps node id = search (keeps_rules, client_for_node-Keeps, fetch_ip-Keeps)

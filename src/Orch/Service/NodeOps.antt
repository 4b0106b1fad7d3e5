-- ===== src/Orch/Service/NodeOps.antt =====
-- Node and external objects (sandboxd-orch/service/node_ops.go): registration, deletion with the
-- detachment of the node's sandboxes, the bindings of external addresses, and the rounds of the
-- heartbeat and of the resource sync. Probes that run in parallel are taken one after another.
use go_gvisor_containerd_let.Base.{
  pos_part, String, Bool, true, false, Option, none, some, List, [], str_eq, is_empty, trim_space,
  if◌then◌else◌,
}
use go_gvisor_containerd_let.Orch.Types.{
  SandboxPhase, deleting, running, scheduled, failed, Node, Sandbox, SandboxStatus, External,
  RegisterNodeRequest, CreateNodeObjectRequest, CreateExternalObjectRequest,
}
use go_gvisor_containerd_let.Orch.Cache
use go_gvisor_containerd_let.Orch.World.{
  invalid_input, prepare_client, delete_failed, reconcile_failed, Result, ok, err, M, pure, raise,
  lift, gets, ◌>>=◌, ◌>>◌, attempt, ignore, modify_cache, for_each,
}
use go_gvisor_containerd_let.Orch.Repo.Sandboxes.{
  list_sandboxes, update_sandbox_status, delete_sandbox, release_sandbox_ports,
}
use go_gvisor_containerd_let.Orch.Repo.Nodes.{upsert_node, delete_node, get_node, list_nodes}
use go_gvisor_containerd_let.Orch.Repo.Externals.{set_node_external, delete_external, get_external}
use go_gvisor_containerd_let.Orch.Service.Requests.{validate_node_input}
use go_gvisor_containerd_let.Orch.Service.Clients.{client_for_node, delete_on_node, reconcile_node}
use go_gvisor_containerd_let.Orch.Service.Health.{probe_node, sync_node_resources}

unfoldable pub register_node : RegisterNodeRequest → String → M Node
register_node req source = do
  parse_ip ← gets (λ w. w.env.parse_ip)
  lift (validate_node_input parse_ip req.id req.ip req.port)
  upsert_node req.id req.ip (pos_part req.port) (if is_empty source then "api" else source)
  n ← get_node req.id
  probe_node n
  sync_node_resources n
  get_node req.id

unfoldable pub create_node_object : CreateNodeObjectRequest → M Node
create_node_object req =
    register_node
      (record { id = trim_space req.id; ip = trim_space req.spec.ip; port = req.spec.port })
      "object"

abbrev pub unless_empty {ℓ} : {A : Type ℓ} → String → String → M A → M A
unless_empty s msg m = if is_empty s then raise (invalid_input msg) else m

unfoldable pub require_node : Result Node → M (Unit {0})
require_node (ok n) = pure tt
require_node (err e) = raise (invalid_input "referenced node not found")

unfoldable pub upsert_external_object : CreateExternalObjectRequest → M (Unit {0})
unfolding require_node
upsert_external_object req =
    let id = trim_space req.id in
    let node = trim_space req.spec.node_id in
    let external = trim_space req.spec.external in
    unless_empty id "external id is required" (
      unless_empty node "spec.node_id is required" (
        unless_empty external "spec.external is required"
          (do n ← attempt (get_node node); require_node n; set_node_external id node external)))

unfoldable pub get_external_object : String → M External
get_external_object id =
    unless_empty (trim_space id) "id is required" (get_external (trim_space id))

unfoldable pub delete_external_object : String → M (Unit {0})
delete_external_object id =
    unless_empty (trim_space id) "id is required" (delete_external (trim_space id))

unfoldable pub detached_status : SandboxStatus → SandboxStatus
detached_status st = record st {
  phase = failed;
  last_error = "node removed";
  node_name = "";
  external = "";
  assigned_ports = [];
}

unfoldable pub as_delete_failed : String → String → Result (Unit {0}) → Result (Unit {0})
as_delete_failed node id (ok a) = ok tt
as_delete_failed node id (err e) = err (delete_failed node id e)

-- There is a client exactly where the removal is not forced, so its errors count.
unfoldable pub delete_detached : String → Option String → Sandbox → M (Unit {0})
unfolding as_delete_failed
delete_detached node none sbx = pure tt
delete_detached node (some url) sbx = do
  r ← attempt (delete_on_node url sbx.id)
  lift (as_delete_failed node sbx.id r)

-- The cases Running and Scheduled.
unfoldable pub detach_placed : String → Option String → Sandbox → M (Unit {0})
unfolding delete_detached detached_status
detach_placed node client sbx = do
  delete_detached node client sbx
  ignore (update_sandbox_status sbx.id (detached_status sbx.status))

unfoldable pub detach_phase : SandboxPhase → String → Option String → Sandbox → M (Unit {0})
unfolding detach_placed
detach_phase deleting node client sbx = ignore (delete_sandbox sbx.id)
detach_phase running node client sbx = detach_placed node client sbx
detach_phase scheduled node client sbx = detach_placed node client sbx
detach_phase _ node client sbx = pure tt

unfoldable pub detach_sandbox : String → Option String → Sandbox → M (Unit {0})
unfolding detach_phase
detach_sandbox node client sbx =
    if str_eq sbx.status.node_name node
    then (do ignore (release_sandbox_ports sbx.id); detach_phase sbx.status.phase node client sbx)
    else pure tt

unfoldable pub as_reconcile_failed : String → Result (Unit {0}) → Result (Unit {0})
as_reconcile_failed node (ok a) = ok tt
as_reconcile_failed node (err e) = err (reconcile_failed node e)

unfoldable pub reconcile_detached : String → Option String → M (Unit {0})
unfolding as_reconcile_failed
reconcile_detached node none = pure tt
reconcile_detached node (some url) = do
  r ← attempt (reconcile_node url)
  lift (as_reconcile_failed node r)

unfoldable pub client_unless : Bool → Result String → Result (Option String)
client_unless true r = ok none
client_unless false (ok url) = ok (some url)
client_unless false (err e) = err (prepare_client e)

unfoldable pub detach_node_sandboxes : String → Bool → M (Unit {0})
unfolding reconcile_detached client_unless
detach_node_sandboxes node force = do
  r ← attempt (client_for_node node)
  client ← lift (client_unless force r)
  items ← list_sandboxes
  for_each (detach_sandbox node client) items
  reconcile_detached node client

unfoldable pub delete_node_force : String → Bool → M (Unit {0})
delete_node_force id force = unless_empty (trim_space id) "id is required" (do
  detach_node_sandboxes (trim_space id) force
  delete_node (trim_space id)
  modify_cache (Cache.delete (trim_space id)))

unfoldable pub delete_node_object : String → M (Unit {0})
delete_node_object id = delete_node_force id false

unfoldable pub for_listed : (Node → M (Unit {0})) → Result (List Node) → M (Unit {0})
for_listed f (err e) = pure tt
for_listed f (ok nodes) = for_each f nodes

unfoldable pub run_heartbeat_once : M (Unit {0})
unfolding for_listed
run_heartbeat_once = do nodes ← attempt list_nodes; for_listed probe_node nodes

unfoldable pub run_resource_sync_once : M (Unit {0})
unfolding for_listed
run_resource_sync_once = do nodes ← attempt list_nodes; for_listed sync_node_resources nodes

-- ===== src/Orch/Service/Clients.antt =====
-- The calls of node agents: sandboxClientForNode (node_ops.go), createSandboxOnNode and
-- fetchSandboxIPOnce (sandbox_ops.go). A client is the base URL that it is made of; the answers are
-- the environment's.
use go_gvisor_containerd_let.Base.{String, Option, none, some, List, [], ◌∷◌, map, trim_space}
use go_gvisor_containerd_let.Orch.Types.{
  NodeResources, Sandbox, SandboxPortAssign, SandboxStatusesResponse, SandboxSyncStatus,
  PortMapping, CreateSandboxRequest,
}
use go_gvisor_containerd_let.Orch.World.{agent, Result, ok, err, M, pure, ◌>>=◌, attempt, call}
use go_gvisor_containerd_let.Orch.Repo.Nodes.{get_node}

abbrev pub failure : Option String → Result (Unit {0})
failure none = ok tt
failure (some msg) = err (agent msg)

unfoldable pub healthz : String → M (Unit {0})
healthz url = call (λ e k. failure (e.healthz k url))

unfoldable pub node_status : String → M NodeResources
node_status url = call (λ e k. e.node_status k url)

unfoldable pub delete_on_node : String → String → M (Unit {0})
delete_on_node url id = call (λ e k. failure (e.delete_on_node k url id))

unfoldable pub sandbox_statuses : String → List String → M SandboxStatusesResponse
sandbox_statuses url ids = call (λ e k. e.statuses_on_node k url ids)

unfoldable pub reconcile_node : String → M (Unit {0})
reconcile_node url = call (λ e k. failure (e.reconcile_on_node k url))

-- SandboxOpClientForNode.
unfoldable pub client_for_node : String → M String
client_for_node name = do n ← get_node name; pure n.sbxlet_base_url

unfoldable pub port_mapping : SandboxPortAssign → PortMapping
port_mapping p = record {
  host_port = p.host_port;
  container_port = p.container_port;
  protocol = p.protocol;
}

unfoldable pub create_request : Sandbox → CreateSandboxRequest
unfolding port_mapping
create_request sbx = record {
  id = sbx.id;
  egress = sbx.spec.egress;
  containers = sbx.spec.containers;
  ports = map port_mapping sbx.status.assigned_ports;
}

unfoldable pub create_sandbox_on_node : Sandbox → M (Unit {0})
create_sandbox_on_node sbx = do
  url ← client_for_node sbx.status.node_name
  call (λ e k. failure (e.create_on_node k url (create_request sbx)))

abbrev pub first_ip : List SandboxSyncStatus → String
first_ip [] = ""
first_ip (it ∷ items) = trim_space it.ip

abbrev pub ip_or_empty : Result SandboxStatusesResponse → String
ip_or_empty (ok st) = first_ip st.items
ip_or_empty (err e) = ""

unfoldable pub fetch_ip : Result String → String → M String
fetch_ip (err e) id = pure ""
fetch_ip (ok url) id = do st ← attempt (sandbox_statuses url (id ∷ [])); pure (ip_or_empty st)

unfoldable pub fetch_sandbox_ip_once : String → String → M String
unfolding fetch_ip
fetch_sandbox_ip_once node id = do url ← attempt (client_for_node node); fetch_ip url id

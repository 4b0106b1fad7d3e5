-- ===== src/Orch/Repo/Nodes.antt =====
-- sandboxd-orch/repo/node_repo.go, the methods on nodes.
pub mod Usage
use Prim.Native.Nat.{Ordering}
use Prim.Native.String.{compare, ◌++◌ as append}
use go_gvisor_containerd_let.Base.{
  ℕ, ℤ, pos, ◌+ℤ◌, ◌-ℤ◌, max_zero, String, Bool, true, false, Option, none, some, List, [], ◌∷◌,
  map, str_eq, decimal, if◌then◌else◌,
}
use go_gvisor_containerd_let.Orch.Types.{Node, NodeState, unknown, NodeResources, no_resources}
use go_gvisor_containerd_let.Orch.Tables.{
  Db, NodeRow, NodeStatusRow, NodeResourcesRow, SandboxPortRow, NodeExternalRow, find, exists,
  delete, update, insert, upsert, sort_by,
}
use go_gvisor_containerd_let.Orch.World.{Result, ok, M, pure, ◌>>=◌, ◌>>◌, read_clock, query, exec}
use go_gvisor_containerd_let.Orch.Repo.Sandboxes.{required, on_node}

abbrev pub node_named : String → NodeRow → Bool
node_named name r = str_eq r.name name

abbrev pub status_of : String → NodeStatusRow → Bool
status_of name r = str_eq r.name name

abbrev pub resources_of : String → NodeResourcesRow → Bool
resources_of name r = str_eq r.name name

abbrev pub external_of : String → NodeExternalRow → Bool
external_of node r = str_eq r.node_id node

-- ON CONFLICT DO NOTHING.
unfoldable pub insert_new {ℓ} : {R : Type ℓ} → Bool → R → R → R
insert_new present old new = if present then old else new

unfoldable pub new_status : String → ℕ → NodeStatusRow
new_status name now = record {
  name = name;
  state = unknown;
  success_streak = 0;
  failure_streak = 0;
  last_error = "";
  last_heartbeat_at = none;
  updated_at = now;
}

-- The columns' defaults.
unfoldable pub new_resources : String → ℕ → NodeResourcesRow
new_resources name now = record {
  name = name;
  resources = record no_resources { external = "(none)" };
  updated_at = now;
}

unfoldable pub upsert_node_row : NodeRow → Db → Db
upsert_node_row r d = record d {
  nodes =
      upsert (node_named r.name)
        (λ old. record old {
          ip = r.ip;
          port = r.port;
          source = r.source;
          updated_at = r.updated_at;
        })
        r d.nodes;
}

unfoldable pub add_status_row : String → ℕ → Db → Db
unfolding insert_new new_status
add_status_row name now d = record d {
  node_status =
      insert_new (exists (status_of name) d.node_status) d.node_status
        (insert (new_status name now) d.node_status);
}

unfoldable pub add_resources_row : String → ℕ → Db → Db
unfolding insert_new new_resources
add_resources_row name now d = record d {
  node_resources =
      insert_new (exists (resources_of name) d.node_resources) d.node_resources
        (insert (new_resources name now) d.node_resources);
}

unfoldable pub upsert_node : String → String → ℕ → String → M (Unit {0})
upsert_node name ip port source = do
  now ← read_clock
  exec (
      upsert_node_row (record {
        name = name;
        ip = ip;
        port = port;
        source = source;
        created_at = now;
        updated_at = now;
      }))
  exec (add_status_row name now)
  exec (add_resources_row name now)

-- DELETE FROM nodes; the foreign key of `node_externals` cascades.
unfoldable pub delete_node_row : String → Db → Db
delete_node_row name d = record d {
  nodes = delete (node_named name) d.nodes;
  node_externals = delete (external_of name) d.node_externals;
}

unfoldable pub delete_node_ports : String → Db → Db
delete_node_ports name d = record d { sandbox_ports = delete (on_node name) d.sandbox_ports }

unfoldable pub delete_node : String → M (Unit {0})
delete_node name = do
  exec (delete_node_ports name)
  exec (λ d. record d { node_resources = delete (resources_of name) d.node_resources })
  exec (λ d. record d { node_status = delete (status_of name) d.node_status })
  exec (delete_node_row name)

-- COALESCE of the two columns.
abbrev external_column : Option NodeExternalRow → Option NodeResourcesRow → String
external_column (some x) r = x.external
external_column none (some r) = r.resources.external
external_column none none = "(none)"

abbrev resource_columns : Option NodeResourcesRow → NodeResources
resource_columns none = no_resources
resource_columns (some r) = r.resources

abbrev status_columns : String → Option NodeStatusRow → NodeStatusRow
status_columns name none = record {
  name = name;
  state = unknown;
  success_streak = 0;
  failure_streak = 0;
  last_error = "";
  last_heartbeat_at = none;
  updated_at = 0;
}
status_columns name (some s) = s

-- fmt.Sprintf("http://%s:%d", n.IP, n.Port).
unfoldable pub base_url : String → ℕ → String
base_url ip port = append "http://" (append ip (append ":" (decimal port)))

-- The LEFT JOINs of GetNode and ListNodes, and scanRowScanner.
unfoldable pub scan_node : Db → NodeRow → Node
scan_node d n =
    let s = status_columns n.name (find (status_of n.name) d.node_status) in
    let r = find (resources_of n.name) d.node_resources in
    let x = find (external_of n.name) d.node_externals in
    record {
      id = n.name;
      ip = n.ip;
      port = n.port;
      state = s.state;
      source = n.source;
      last_error = s.last_error;
      success_streak = s.success_streak;
      failure_streak = s.failure_streak;
      created_at = n.created_at;
      updated_at = n.updated_at;
      last_heartbeat = s.last_heartbeat_at;
      resources = record (resource_columns r) { external = external_column x r };
      sbxlet_base_url = base_url n.ip n.port;
    }

abbrev pub map_ok {ℓ κ} : {A : Type ℓ} {B : Type κ} → (A → B) → Result A → Result B
map_ok f (Result.ok a) = Result.ok (f a)
map_ok f (Result.err e) = Result.err e

unfoldable pub find_node : String → Db → Result Node
unfolding scan_node
find_node name d = map_ok (scan_node d) (required (find (node_named name) d.nodes))

unfoldable pub get_node : String → M Node
get_node name = query (find_node name)

-- The BINARY collation of SQLite, and Go's `<` on strings.
unfoldable pub string_lt : String → String → Bool
string_lt s t = elim (compare s t) [ Ordering.lt ↦ true | _ ↦ false ]

unfoldable pub list_nodes : M (List Node)
unfolding scan_node string_lt
list_nodes = query (λ d. ok (map (scan_node d) (sort_by (λ a b. string_lt a.name b.name) d.nodes)))

unfoldable pub heartbeat_row : NodeStatusRow → Db → Db
heartbeat_row r d = record d { node_status = upsert (status_of r.name) (λ _. r) r d.node_status }

unfoldable pub update_heartbeat : String → NodeState → ℕ → ℕ → String → Option ℕ → M (Unit {0})
update_heartbeat name state success_streak failure_streak last_error beat_at = do
  now ← read_clock
  exec (
      heartbeat_row (record {
        name = name;
        state = state;
        success_streak = success_streak;
        failure_streak = failure_streak;
        last_error = last_error;
        last_heartbeat_at = beat_at;
        updated_at = now;
      }))

unfoldable pub resources_row : NodeResourcesRow → Db → Db
resources_row r d = record d {
  node_resources = upsert (resources_of r.name) (λ _. r) r d.node_resources;
}

unfoldable pub update_node_resources : String → NodeResources → M (Unit {0})
update_node_resources name res = do
  now ← read_clock
  exec (resources_row (record { name = name; resources = res; updated_at = now }))

-- The SET clause of AdjustNodeResourceUsage: the right-hand sides read the old columns.
-- The sums are taken to stay within int64, beyond which SQLite turns to floating point.
unfoldable pub adjust_resources : ℤ → ℤ → NodeResources → NodeResources
adjust_resources cpu mem r = record r {
  used_cpu_milli = max_zero (r.used_cpu_milli +ℤ cpu);
  used_memory_bytes = max_zero (r.used_memory_bytes +ℤ mem);
  available_cpu_milli = max_zero (r.allocatable_cpu_milli -ℤ max_zero (r.used_cpu_milli +ℤ cpu));
  available_memory = max_zero (r.allocatable_memory -ℤ max_zero (r.used_memory_bytes +ℤ mem));
}

unfoldable pub adjust_row : String → ℤ → ℤ → ℕ → Db → Db
unfolding adjust_resources
adjust_row name cpu mem now d = record d {
  node_resources =
      update (resources_of name)
        (λ r. record r { resources = adjust_resources cpu mem r.resources; updated_at = now })
        d.node_resources;
}

unfoldable pub adjust_node_resource_usage : String → ℤ → ℤ → M (Unit {0})
adjust_node_resource_usage name cpu mem = do now ← read_clock; exec (adjust_row name cpu mem now)

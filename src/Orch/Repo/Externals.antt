-- ===== src/Orch/Repo/Externals.antt =====
-- sandboxd-orch/repo/node_repo.go, the methods on external objects: each binds one id to one node.
pub mod Binding
use Prim.Native.String.{◌++◌ as append}
use go_gvisor_containerd_let.Base.{
  ℕ, String, Bool, true, false, ◌&&◌, ◌||◌, not, Option, none, some, List, map, str_eq, is_empty,
  if◌then◌else◌,
}
use go_gvisor_containerd_let.Orch.Types.{External}
use go_gvisor_containerd_let.Orch.Tables.{
  Db, NodeExternalRow, NodeResourcesRow, find, exists, delete, update, insert, sort_by,
}
use go_gvisor_containerd_let.Orch.World.{
  Error, external_conflict, constraint, Result, ok, err, M, pure, raise, ◌>>=◌, ◌>>◌, read_clock,
  statement, query, exec, transaction,
}
use go_gvisor_containerd_let.Orch.Repo.Sandboxes.{required}
use go_gvisor_containerd_let.Orch.Repo.Nodes.{node_named, resources_of, external_of, string_lt}

abbrev pub external_named : String → NodeExternalRow → Bool
external_named id r = str_eq r.external_id id

-- The scanned column, or "" where QueryRow finds no row.
abbrev node_id_or_empty : Option NodeExternalRow → String
node_id_or_empty none = ""
node_id_or_empty (some r) = r.node_id

abbrev external_id_or_empty : Option NodeExternalRow → String
external_id_or_empty none = ""
external_id_or_empty (some r) = r.external_id

unfoldable pub node_bound_to : String → Db → String
node_bound_to id d = node_id_or_empty (find (external_named id) d.node_externals)

unfoldable pub external_bound_to : String → Db → String
external_bound_to node d = external_id_or_empty (find (external_of node) d.node_externals)

unfoldable pub update_external : String → String → ℕ → Db → Db
update_external id external now d = record d {
  node_externals =
      update (external_named id) (λ r. record r { external = external; updated_at = now })
        d.node_externals;
}

-- INSERT INTO node_externals: external_id is the primary key, node_id is unique and names a node.
unfoldable pub insert_external : NodeExternalRow → Db → Result (Unit {0}) × Db
insert_external r d =
    if exists (external_named r.external_id) d.node_externals
      || exists (external_of r.node_id) d.node_externals
      || not (exists (node_named r.node_id) d.nodes)
    then (err constraint, d)
    else (ok tt, record d { node_externals = insert r d.node_externals })

unfoldable pub set_resources_external : String → String → ℕ → Db → Db
set_resources_external node external now d = record d {
  node_resources =
      update (resources_of node)
        (λ r. record r { resources = record r.resources { external = external }; updated_at = now })
        d.node_resources;
}

id_bound : String → String → Error
id_bound id node =
    external_conflict (append "external id " (append id (append " already bound to node " node)))

node_bound : String → String → Error
node_bound node id =
    external_conflict (append "node " (append node (append " already bound to external id " id)))

unfoldable pub write_external : Bool → String → String → String → ℕ → M (Unit {0})
write_external present id node external now =
    if present
    then exec (update_external id external now)
    else statement (
        insert_external (record {
          external_id = id;
          node_id = node;
          external = external;
          created_at = now;
          updated_at = now;
        }))

-- SetNodeExternal, without its transaction.
unfoldable pub set_external_body : String → String → String → ℕ → M (Unit {0})
unfolding id_bound node_bound
set_external_body id node external now = do
  by_id ← query (λ d. ok (node_bound_to id d))
  if not (is_empty by_id) && not (str_eq by_id node) then raise (id_bound id by_id) else do
    by_node ← query (λ d. ok (external_bound_to node d))
    if not (is_empty by_node) && not (str_eq by_node id)
        then raise (node_bound node by_node)
        else do
          write_external (not (is_empty by_id)) id node external now
          exec (set_resources_external node external now)

unfoldable pub set_node_external : String → String → String → M (Unit {0})
set_node_external id node external = do
  now ← read_clock
  transaction (set_external_body id node external now)

unfoldable pub delete_node_external : String → M (Unit {0})
delete_node_external node = do
  exec (λ d. record d { node_externals = delete (external_of node) d.node_externals })
  now ← read_clock
  exec (set_resources_external node "(none)" now)

unfoldable pub delete_external : String → M (Unit {0})
delete_external id = do
  r ← query (λ d. required (find (external_named id) d.node_externals))
  exec (λ d. record d { node_externals = delete (external_named id) d.node_externals })
  now ← read_clock
  exec (set_resources_external r.node_id "(none)" now)

scan_external : NodeExternalRow → External
scan_external r = record {
  id = r.external_id;
  node_id = r.node_id;
  external = r.external;
  created_at = r.created_at;
  updated_at = r.updated_at;
}

unfoldable pub list_externals : M (List External)
unfolding scan_external
list_externals = do
  rows ← query (λ d. ok (sort_by (λ a b. string_lt a.external_id b.external_id) d.node_externals))
  pure (map scan_external rows)

unfoldable pub get_external : String → M External
unfolding scan_external
get_external id = do
  r ← query (λ d. required (find (external_named id) d.node_externals))
  pure (scan_external r)

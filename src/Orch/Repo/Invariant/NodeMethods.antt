-- ===== src/Orch/Repo/Invariant/NodeMethods.antt =====
-- Every method of the store on nodes and external objects keeps the tables consistent.
use go_gvisor_containerd_let.Base.{
  ℕ, ℤ, String, refl, inl, inr, Bool, ◌||◌, not, Option, arith, Bool-cases,
}
use go_gvisor_containerd_let.Orch.Types.{NodeState, NodeResources}
use go_gvisor_containerd_let.Orch.Tables.{Db, NodeExternalRow, exists, delete}
use go_gvisor_containerd_let.Orch.Tables.Rows.{
  All-delete, All-insert, All-update, All-delete_both, Unique-delete, Unique-insert, Unique-update,
}
use go_gvisor_containerd_let.Orch.World.Keeps.{Keeps, Keeps-statement, Keeps-exec, keeps_rules}
use go_gvisor_containerd_let.Orch.Repo.Nodes.{
  node_named, external_of, upsert_node, delete_node_row, delete_node_ports, delete_node, get_node,
  list_nodes, heartbeat_row, update_heartbeat, resources_row, update_node_resources, adjust_row,
  adjust_node_resource_usage,
}
use go_gvisor_containerd_let.Orch.Repo.Externals.{
  external_named, update_external, insert_external, set_resources_external, write_external,
  set_external_body, set_node_external, delete_node_external, delete_external, list_externals,
  get_external,
}
use go_gvisor_containerd_let.Orch.Repo.Sandboxes.{on_node}
use go_gvisor_containerd_let.Orch.Repo.Invariant.{
  IsConsistent, Owned, Bound, same_name, same_external, same_binding, same_port, str_eq_comm,
  Bound-delete,
}
use go_gvisor_containerd_let.Orch.Repo.Invariant.NodeTables.{
  untied-IsConsistent, with_externals-IsConsistent, upsert_node_row-IsConsistent,
  add_status_row-IsConsistent, add_resources_row-IsConsistent,
}

pub upsert_node-Keeps :
    (name ip : String) (port : ℕ) (source : String)
    → Keeps IsConsistent (upsert_node name ip port source)
unfolding upsert_node
upsert_node-Keeps name ip port source = search (
  keeps_rules, Keeps-exec, upsert_node_row-IsConsistent, add_status_row-IsConsistent,
  add_resources_row-IsConsistent,
)

delete_node_row-IsConsistent :
    (name : String) (d : Db) → IsConsistent d → IsConsistent (delete_node_row name d)
unfolding delete_node_row
delete_node_row-IsConsistent name d c = record {
  ids_unique = c.ids_unique;
  ports_unique = c.ports_unique;
  ports_owned = c.ports_owned;
  names_unique = Unique-delete same_name (node_named name) d.nodes c.names_unique;
  externals_unique =
      Unique-delete same_external (external_of name) d.node_externals c.externals_unique;
  bindings_unique =
      Unique-delete same_binding (external_of name) d.node_externals c.bindings_unique;
  externals_bound =
      All-delete_both (Bound d.nodes) _ (external_of name) d.node_externals
        (λ r e b. Bound-delete name d.nodes r e b) c.externals_bound;
}

delete_node_ports-IsConsistent :
    (name : String) (d : Db) → IsConsistent d → IsConsistent (delete_node_ports name d)
unfolding delete_node_ports
delete_node_ports-IsConsistent name d c = record {
  ids_unique = c.ids_unique;
  ports_unique = Unique-delete same_port (on_node name) d.sandbox_ports c.ports_unique;
  ports_owned = All-delete (Owned d.sandboxes) (on_node name) d.sandbox_ports c.ports_owned;
  names_unique = c.names_unique;
  externals_unique = c.externals_unique;
  bindings_unique = c.bindings_unique;
  externals_bound = c.externals_bound;
}

pub delete_node-Keeps : (name : String) → Keeps IsConsistent (delete_node name)
unfolding delete_node
delete_node-Keeps name = search (
  keeps_rules, Keeps-exec, delete_node_row-IsConsistent, delete_node_ports-IsConsistent,
  untied-IsConsistent,
)

pub get_node-Keeps : (name : String) → Keeps IsConsistent (get_node name)
unfolding get_node
get_node-Keeps name = search keeps_rules

pub list_nodes-Keeps : Keeps IsConsistent list_nodes
unfolding list_nodes
list_nodes-Keeps = search keeps_rules

pub update_heartbeat-Keeps :
    (name : String) (state : NodeState) (s f : ℕ) (e : String) (beat : Option ℕ)
    → Keeps IsConsistent (update_heartbeat name state s f e beat)
unfolding update_heartbeat heartbeat_row
update_heartbeat-Keeps name state s f e beat = search (keeps_rules, Keeps-exec, untied-IsConsistent)

pub update_node_resources-Keeps :
    (name : String) (res : NodeResources) → Keeps IsConsistent (update_node_resources name res)
unfolding update_node_resources resources_row
update_node_resources-Keeps name res = search (keeps_rules, Keeps-exec, untied-IsConsistent)

pub adjust_node_resource_usage-Keeps :
    (name : String) (cpu mem : ℤ) → Keeps IsConsistent (adjust_node_resource_usage name cpu mem)
unfolding adjust_node_resource_usage adjust_row
adjust_node_resource_usage-Keeps name cpu mem =
    search (keeps_rules, Keeps-exec, untied-IsConsistent)

update_external-IsConsistent :
    (id external : String) (now : ℕ) (d : Db)
    → IsConsistent d
    → IsConsistent (update_external id external now d)
unfolding update_external
update_external-IsConsistent id external now d c =
    with_externals-IsConsistent d _ c
      (Unique-update same_external _ _ d.node_externals (λ x y. refl) (λ x y. refl)
        c.externals_unique)
      (Unique-update same_binding _ _ d.node_externals (λ x y. refl) (λ x y. refl)
        c.bindings_unique)
      (All-update (Bound d.nodes) _ _ d.node_externals (λ x b. b) c.externals_bound)

delete_externals-IsConsistent :
    (q : NodeExternalRow → Bool) (d : Db)
    → IsConsistent d
    → IsConsistent (record d { node_externals = delete q d.node_externals })
delete_externals-IsConsistent q d c =
    with_externals-IsConsistent d _ c
      (Unique-delete same_external q d.node_externals c.externals_unique)
      (Unique-delete same_binding q d.node_externals c.bindings_unique)
      (All-delete (Bound d.nodes) q d.node_externals c.externals_bound)

insert_external-IsConsistent :
    (r : NodeExternalRow) (d : Db) → IsConsistent d → IsConsistent (insert_external r d).1
unfolding insert_external
insert_external-IsConsistent r d c =
    elim (Bool-cases (
      exists (external_named r.external_id) d.node_externals
      || exists (external_of r.node_id) d.node_externals
      || not (exists (node_named r.node_id) d.nodes))) [
        | inl e ↦ rw e c
        | inr e ↦ rw e (
            with_externals-IsConsistent d _ c
              (Unique-insert same_external r d.node_externals
                (λ x. str_eq_comm r.external_id x.external_id) (ground arith) c.externals_unique)
              (Unique-insert same_binding r d.node_externals (λ x. str_eq_comm r.node_id x.node_id)
                (ground arith) c.bindings_unique)
              (All-insert (Bound d.nodes) r d.node_externals (ground arith) c.externals_bound))
      ]

set_resources_external-IsConsistent :
    (node external : String) (now : ℕ) (d : Db)
    → IsConsistent d
    → IsConsistent (set_resources_external node external now d)
unfolding set_resources_external
set_resources_external-IsConsistent node external now d c = untied-IsConsistent d d.node_status _ c

write_external-Keeps :
    (present : Bool) (id node external : String) (now : ℕ)
    → Keeps IsConsistent (write_external present id node external now)
unfolding write_external
write_external-Keeps present id node external now = search (
  keeps_rules, Keeps-exec, Keeps-statement, update_external-IsConsistent,
  insert_external-IsConsistent,
)

set_external_body-Keeps :
    (id node external : String) (now : ℕ)
    → Keeps IsConsistent (set_external_body id node external now)
unfolding set_external_body
set_external_body-Keeps id node external now =
    search (keeps_rules, Keeps-exec, write_external-Keeps, set_resources_external-IsConsistent)
      depth 8

pub set_node_external-Keeps :
    (id node external : String) → Keeps IsConsistent (set_node_external id node external)
unfolding set_node_external
set_node_external-Keeps id node external = search (keeps_rules, set_external_body-Keeps)

pub delete_node_external-Keeps : (node : String) → Keeps IsConsistent (delete_node_external node)
unfolding delete_node_external
delete_node_external-Keeps node =
    search
      (keeps_rules, Keeps-exec, delete_externals-IsConsistent, set_resources_external-IsConsistent)

pub delete_external-Keeps : (id : String) → Keeps IsConsistent (delete_external id)
unfolding delete_external
delete_external-Keeps id =
    search
      (keeps_rules, Keeps-exec, delete_externals-IsConsistent, set_resources_external-IsConsistent)
      depth 8

pub list_externals-Keeps : Keeps IsConsistent list_externals
unfolding list_externals
list_externals-Keeps = search keeps_rules

pub get_external-Keeps : (id : String) → Keeps IsConsistent (get_external id)
unfolding get_external
get_external-Keeps id = search keeps_rules

-- ===== src/Orch/Repo/Invariant/NodeTables.antt =====
-- Changes of the tables of nodes and external objects that keep them consistent.
use go_gvisor_containerd_let.Base.{ℕ, String, refl, ◌∙◌, inl, inr, List, arith, Bool-cases}
use go_gvisor_containerd_let.Orch.Tables.{
  Db, NodeRow, NodeStatusRow, NodeResourcesRow, NodeExternalRow, exists, upsert,
}
use go_gvisor_containerd_let.Orch.Tables.Rows.{
  Unique, All, exists-insert, exists-update, All-map, Unique-insert, Unique-update,
}
use go_gvisor_containerd_let.Orch.Repo.Nodes.{
  node_named, upsert_node_row, add_status_row, add_resources_row,
}
use go_gvisor_containerd_let.Orch.Repo.Invariant.{
  IsConsistent, Bound, same_name, same_external, same_binding, str_eq_comm,
}

-- The tables of states and of resources are free.
pub untied-IsConsistent :
    (d : Db) (ss : List NodeStatusRow) (rs : List NodeResourcesRow)
    → IsConsistent d
    → IsConsistent (record d { node_status = ss; node_resources = rs })
untied-IsConsistent d ss rs c = record {
  ids_unique = c.ids_unique;
  ports_unique = c.ports_unique;
  ports_owned = c.ports_owned;
  names_unique = c.names_unique;
  externals_unique = c.externals_unique;
  bindings_unique = c.bindings_unique;
  externals_bound = c.externals_bound;
}

pub with_nodes-IsConsistent :
    (d : Db) (ns : List NodeRow)
    → IsConsistent d
    → Unique same_name ns
    → All (Bound ns) d.node_externals
    → IsConsistent (record d { nodes = ns })
with_nodes-IsConsistent d ns c u b = record {
  ids_unique = c.ids_unique;
  ports_unique = c.ports_unique;
  ports_owned = c.ports_owned;
  names_unique = u;
  externals_unique = c.externals_unique;
  bindings_unique = c.bindings_unique;
  externals_bound = b;
}

pub with_externals-IsConsistent :
    (d : Db) (xs : List NodeExternalRow)
    → IsConsistent d
    → Unique same_external xs
    → Unique same_binding xs
    → All (Bound d.nodes) xs
    → IsConsistent (record d { node_externals = xs })
with_externals-IsConsistent d xs c u v b = record {
  ids_unique = c.ids_unique;
  ports_unique = c.ports_unique;
  ports_owned = c.ports_owned;
  names_unique = c.names_unique;
  externals_unique = u;
  bindings_unique = v;
  externals_bound = b;
}

pub upsert_node_row-IsConsistent :
    (r : NodeRow) (d : Db) → IsConsistent d → IsConsistent (upsert_node_row r d)
unfolding upsert_node_row upsert
upsert_node_row-IsConsistent r d c = elim (Bool-cases (exists (node_named r.name) d.nodes)) [
  | inl e ↦ rw e (
      with_nodes-IsConsistent d _ c
        (Unique-update same_name _ _ d.nodes (λ x y. refl) (λ x y. refl) c.names_unique)
        (All-map (Bound d.nodes) _ d.node_externals
          (λ x b. exists-update (node_named x.node_id) _ _ d.nodes (λ y. refl) ∙ b)
          c.externals_bound))
  | inr e ↦ rw e (
      with_nodes-IsConsistent d _ c
        (Unique-insert same_name r d.nodes (λ x. str_eq_comm r.name x.name) e c.names_unique)
        (All-map (Bound d.nodes) _ d.node_externals
          (λ x b. ground (arith, exists-insert (node_named x.node_id) r d.nodes))
          c.externals_bound))
]

pub add_status_row-IsConsistent :
    (name : String) (now : ℕ) (d : Db) → IsConsistent d → IsConsistent (add_status_row name now d)
unfolding add_status_row
add_status_row-IsConsistent name now d c = untied-IsConsistent d _ d.node_resources c

pub add_resources_row-IsConsistent :
    (name : String) (now : ℕ) (d : Db)
    → IsConsistent d
    → IsConsistent (add_resources_row name now d)
unfolding add_resources_row
add_resources_row-IsConsistent name now d c = untied-IsConsistent d d.node_status _ c

-- ===== src/Orch/Repo/Invariant.antt =====
-- What the tables of the store satisfy at all times, as `migrate` declares it, and that every method
-- of sandboxd-orch/repo keeps it, whatever statement of it fails and whatever the other goroutines
-- do that keeps it too.
pub mod Methods
pub mod NodeTables
pub mod NodeMethods
use go_gvisor_containerd_let.Base.{
  ℕ, String, ◌≡◌, refl, ◌∙◌, ◌⊎◌, inl, inr, Bool, true, false, ◌&&◌, ◌||◌, List, [], ◌∷◌, arith,
  eq_iff, str_eq, ◌==◌, Bool-cases,
}
use go_gvisor_containerd_let.Orch.Tables.{
  Db, NodeRow, NodeStatusRow, NodeResourcesRow, SandboxRow, SandboxPortRow, NodeExternalRow, exists,
  delete, update, insert, upsert, empty_db,
}
use go_gvisor_containerd_let.Orch.Tables.Rows.{
  Unique, All, exists-insert, exists-delete, exists-update, All-delete, All-insert, All-update,
  All-map, All-delete_unselected, Unique-delete, Unique-insert, Unique-update,
}
use go_gvisor_containerd_let.Orch.Repo.Sandboxes.{has_id, owned_by, on_node, holds_port}
use go_gvisor_containerd_let.Orch.Repo.Nodes.{node_named, status_of, resources_of, external_of}
use go_gvisor_containerd_let.Orch.Repo.Externals.{external_named}

abbrev pub same_id : SandboxRow → SandboxRow → Bool
same_id r = has_id r.id

abbrev pub same_port : SandboxPortRow → SandboxPortRow → Bool
same_port r = holds_port r.node_name r.host_port

abbrev pub same_name : NodeRow → NodeRow → Bool
same_name r = node_named r.name

abbrev pub same_external : NodeExternalRow → NodeExternalRow → Bool
same_external r = external_named r.external_id

abbrev pub same_binding : NodeExternalRow → NodeExternalRow → Bool
same_binding r = external_of r.node_id

-- Every port belongs to a sandbox of the list.
abbrev pub Owned : List SandboxRow → SandboxPortRow → Type 0
Owned sandboxes r = exists (has_id r.sandbox_id) sandboxes ≡ true

-- Every external address belongs to a node of the list.
abbrev pub Bound : List NodeRow → NodeExternalRow → Type 0
Bound nodes r = exists (node_named r.node_id) nodes ≡ true

pub record IsConsistent (d : Db) : Type 0 where
  pub ids_unique : Unique same_id d.sandboxes
  pub ports_unique : Unique same_port d.sandbox_ports
  pub ports_owned : All (Owned d.sandboxes) d.sandbox_ports
  pub names_unique : Unique same_name d.nodes
  pub externals_unique : Unique same_external d.node_externals
  pub bindings_unique : Unique same_binding d.node_externals
  pub externals_bound : All (Bound d.nodes) d.node_externals

pub str_eq_comm : (s t : String) → str_eq s t ≡ str_eq t s
str_eq_comm s t = ground (arith, eq_iff s t, eq_iff t s)

pub same_port_comm : (a b : SandboxPortRow) → same_port a b ≡ same_port b a
same_port_comm a b = ground (arith, str_eq_comm a.node_name b.node_name)

-- The references that a deletion of what does not point at the deleted row leaves intact.
pub Owned-delete :
    (id : String) (sandboxes : List SandboxRow) (r : SandboxPortRow)
    → owned_by id r ≡ false
    → Owned sandboxes r
    → Owned (delete (has_id id) sandboxes) r
Owned-delete id sandboxes r h o =
    exists-delete (has_id r.sandbox_id) (has_id id) sandboxes
      (λ x e. ground (arith, eq_iff x.id r.sandbox_id, eq_iff x.id id, eq_iff r.sandbox_id id))
    ∙ o

pub Bound-delete :
    (name : String) (nodes : List NodeRow) (r : NodeExternalRow)
    → external_of name r ≡ false
    → Bound nodes r
    → Bound (delete (node_named name) nodes) r
Bound-delete name nodes r h o =
    exists-delete (node_named r.node_id) (node_named name) nodes
      (λ x e. ground (arith, eq_iff x.name r.node_id, eq_iff x.name name, eq_iff r.node_id name))
    ∙ o

pub empty-IsConsistent : IsConsistent empty_db
empty-IsConsistent = record {
  ids_unique = tt;
  ports_unique = tt;
  ports_owned = tt;
  names_unique = tt;
  externals_unique = tt;
  bindings_unique = tt;
  externals_bound = tt;
}

-- ===== src/Orch/Repo/Invariant/Methods.antt =====
-- Every method of the store keeps the tables consistent.
use go_gvisor_containerd_let.Base.{
  ℕ, String, ◌≡◌, refl, ◌∙◌, inl, inr, Bool, List, arith, Bool-cases,
}
use go_gvisor_containerd_let.Orch.Types.{Sandbox, SandboxStatus, SandboxPortAssign}
use go_gvisor_containerd_let.Orch.Tables.{Db, SandboxRow, SandboxPortRow, exists, delete, update}
use go_gvisor_containerd_let.Orch.Tables.Rows.{
  exists-insert, exists-update, All-delete, All-insert, All-map, All-delete_both, Unique-delete,
  Unique-insert, Unique-update,
}
use go_gvisor_containerd_let.Orch.World.Keeps.{
  Keeps, Keeps-statement, Keeps-exec, Keeps-transaction, keeps_rules,
}
use go_gvisor_containerd_let.Orch.Repo.Sandboxes.{
  has_id, owned_by, holds_port, insert_sandbox_row, create_sandbox, get_sandbox, list_sandboxes,
  set_status, update_status_row, update_sandbox_status, update_status_row_if,
  update_sandbox_status_if_unchanged, delete_ports, delete_row, delete_sandbox, insert_port,
  check_port_free, reserve_port, reserve_body, reserve_sandbox_ports_and_schedule,
  release_sandbox_ports, node_used_host_ports,
}
use go_gvisor_containerd_let.Orch.Repo.Invariant.{
  IsConsistent, Owned, same_id, same_port, str_eq_comm, same_port_comm, Owned-delete,
}

insert_sandbox_row-IsConsistent :
    (r : SandboxRow) (d : Db) → IsConsistent d → IsConsistent (insert_sandbox_row r d).1
unfolding insert_sandbox_row
insert_sandbox_row-IsConsistent r d c = elim (Bool-cases (exists (has_id r.id) d.sandboxes)) [
  | inl e ↦ rw e c
  | inr e ↦ rw e (record {
    ids_unique = Unique-insert same_id r d.sandboxes (λ x. str_eq_comm r.id x.id) e c.ids_unique;
    ports_unique = c.ports_unique;
    ports_owned =
        All-map (Owned d.sandboxes) _ d.sandbox_ports
          (λ x o. ground (arith, exists-insert (has_id x.sandbox_id) r d.sandboxes)) c.ports_owned;
    names_unique = c.names_unique;
    externals_unique = c.externals_unique;
    bindings_unique = c.bindings_unique;
    externals_bound = c.externals_bound;
  })
]

-- An update of a sandbox's row that keeps the id.
update_sandboxes-IsConsistent :
    (q : SandboxRow → Bool) (f : SandboxRow → SandboxRow) (d : Db)
    → ((r : SandboxRow) → (f r).id ≡ r.id)
    → IsConsistent d
    → IsConsistent (record d { sandboxes = update q f d.sandboxes })
update_sandboxes-IsConsistent q f d k c = record {
  ids_unique =
      Unique-update same_id q f d.sandboxes (λ x y. rw (k y)) (λ x y. rw (k x)) c.ids_unique;
  ports_unique = c.ports_unique;
  ports_owned =
      All-map (Owned d.sandboxes) _ d.sandbox_ports
        (λ x o. exists-update (has_id x.sandbox_id) q f d.sandboxes (λ y. rw (k y)) ∙ o)
        c.ports_owned;
  names_unique = c.names_unique;
  externals_unique = c.externals_unique;
  bindings_unique = c.bindings_unique;
  externals_bound = c.externals_bound;
}

delete_ports_where-IsConsistent :
    (q : SandboxPortRow → Bool) (d : Db)
    → IsConsistent d
    → IsConsistent (record d { sandbox_ports = delete q d.sandbox_ports })
delete_ports_where-IsConsistent q d c = record {
  ids_unique = c.ids_unique;
  ports_unique = Unique-delete same_port q d.sandbox_ports c.ports_unique;
  ports_owned = All-delete (Owned d.sandboxes) q d.sandbox_ports c.ports_owned;
  names_unique = c.names_unique;
  externals_unique = c.externals_unique;
  bindings_unique = c.bindings_unique;
  externals_bound = c.externals_bound;
}

delete_ports-IsConsistent :
    (id : String) (d : Db) → IsConsistent d → IsConsistent (delete_ports id d)
unfolding delete_ports
delete_ports-IsConsistent id d c = delete_ports_where-IsConsistent (owned_by id) d c

delete_row-IsConsistent : (id : String) (d : Db) → IsConsistent d → IsConsistent (delete_row id d)
unfolding delete_row
delete_row-IsConsistent id d c = record {
  ids_unique = Unique-delete same_id (has_id id) d.sandboxes c.ids_unique;
  ports_unique = Unique-delete same_port (owned_by id) d.sandbox_ports c.ports_unique;
  ports_owned =
      All-delete_both (Owned d.sandboxes) _ (owned_by id) d.sandbox_ports
        (λ r e o. Owned-delete id d.sandboxes r e o) c.ports_owned;
  names_unique = c.names_unique;
  externals_unique = c.externals_unique;
  bindings_unique = c.bindings_unique;
  externals_bound = c.externals_bound;
}

insert_port-IsConsistent :
    (r : SandboxPortRow) (d : Db) → IsConsistent d → IsConsistent (insert_port r d).1
unfolding insert_port
insert_port-IsConsistent r d c =
    elim (Bool-cases (exists (holds_port r.node_name r.host_port) d.sandbox_ports)) [
      | inl e ↦ rw e c
      | inr e ↦ rw e (elim (Bool-cases (exists (has_id r.sandbox_id) d.sandboxes)) [
        | inr f ↦ rw f c
        | inl f ↦ rw f (record {
          ids_unique = c.ids_unique;
          ports_unique =
              Unique-insert same_port r d.sandbox_ports (λ x. same_port_comm x r) e c.ports_unique;
          ports_owned = All-insert (Owned d.sandboxes) r d.sandbox_ports f c.ports_owned;
          names_unique = c.names_unique;
          externals_unique = c.externals_unique;
          bindings_unique = c.bindings_unique;
          externals_bound = c.externals_bound;
        })
      ])
    ]

pub create_sandbox-Keeps : (sbx : Sandbox) → Keeps IsConsistent (create_sandbox sbx)
unfolding create_sandbox
create_sandbox-Keeps sbx = search (keeps_rules, Keeps-statement, insert_sandbox_row-IsConsistent)

pub get_sandbox-Keeps : (id : String) → Keeps IsConsistent (get_sandbox id)
unfolding get_sandbox
get_sandbox-Keeps id = search keeps_rules

pub list_sandboxes-Keeps : Keeps IsConsistent list_sandboxes
unfolding list_sandboxes
list_sandboxes-Keeps = search keeps_rules

update_status_row-IsConsistent :
    (id : String) (st : SandboxStatus) (now : ℕ) (d : Db)
    → IsConsistent d
    → IsConsistent (update_status_row id st now d)
unfolding update_status_row set_status
update_status_row-IsConsistent id st now d c =
    update_sandboxes-IsConsistent (has_id id) (set_status st now) d (λ r. refl) c

pub update_sandbox_status-Keeps :
    (id : String) (st : SandboxStatus) → Keeps IsConsistent (update_sandbox_status id st)
unfolding update_sandbox_status
update_sandbox_status-Keeps id st = search (keeps_rules, Keeps-exec, update_status_row-IsConsistent)

update_status_row_if-IsConsistent :
    (id : String) (st : SandboxStatus) (expected now : ℕ) (d : Db)
    → IsConsistent d
    → IsConsistent (update_status_row_if id st expected now d).1
unfolding update_status_row_if set_status
update_status_row_if-IsConsistent id st expected now d c =
    update_sandboxes-IsConsistent _ (set_status st now) d (λ r. refl) c

pub update_sandbox_status_if_unchanged-Keeps :
    (id : String) (st : SandboxStatus) (expected : ℕ)
    → Keeps IsConsistent (update_sandbox_status_if_unchanged id st expected)
unfolding update_sandbox_status_if_unchanged
update_sandbox_status_if_unchanged-Keeps id st expected =
    search (keeps_rules, Keeps-statement, update_status_row_if-IsConsistent)

pub delete_sandbox-Keeps : (id : String) → Keeps IsConsistent (delete_sandbox id)
unfolding delete_sandbox
delete_sandbox-Keeps id =
    search (keeps_rules, Keeps-exec, delete_ports-IsConsistent, delete_row-IsConsistent)

check_port_free-Keeps :
    (node : String) (p : SandboxPortAssign) → Keeps IsConsistent (check_port_free node p)
unfolding check_port_free
check_port_free-Keeps node p = search keeps_rules

reserve_port-Keeps :
    (id node : String) (p : SandboxPortAssign) → Keeps IsConsistent (reserve_port id node p)
unfolding reserve_port
reserve_port-Keeps id node p = search (keeps_rules, Keeps-statement, insert_port-IsConsistent)

reserve_body-Keeps :
    (id node : String) (ports : List SandboxPortAssign)
    → Keeps IsConsistent (reserve_body id node ports)
unfolding reserve_body
reserve_body-Keeps id node ports = search (
  keeps_rules, check_port_free-Keeps, reserve_port-Keeps, get_sandbox-Keeps,
  update_sandbox_status-Keeps,
)

pub reserve_sandbox_ports_and_schedule-Keeps :
    (id node : String) (ports : List SandboxPortAssign)
    → Keeps IsConsistent (reserve_sandbox_ports_and_schedule id node ports)
unfolding reserve_sandbox_ports_and_schedule
reserve_sandbox_ports_and_schedule-Keeps id node ports =
    Keeps-transaction _ (reserve_body-Keeps id node ports)

pub release_sandbox_ports-Keeps : (id : String) → Keeps IsConsistent (release_sandbox_ports id)
unfolding release_sandbox_ports
release_sandbox_ports-Keeps id = search (keeps_rules, Keeps-exec, delete_ports-IsConsistent)

pub node_used_host_ports-Keeps : (node : String) → Keeps IsConsistent (node_used_host_ports node)
unfolding node_used_host_ports
node_used_host_ports-Keeps node = search keeps_rules

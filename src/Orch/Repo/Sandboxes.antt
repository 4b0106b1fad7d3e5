-- ===== src/Orch/Repo/Sandboxes.antt =====
-- sandboxd-orch/repo/sandbox_repo.go. Each Exec or Query is one statement of the world.
pub mod Loops
pub mod Reserve
pub mod Cas
use go_gvisor_containerd_let.Base.{
  ℕ, suc, String, Bool, true, false, ◌&&◌, not, Option, none, some, List, [], ◌∷◌, map, str_eq,
  ◌==◌, decimal, length, if◌then◌else◌,
}
use Prim.Native.String.{◌++◌ as append}
use go_gvisor_containerd_let.Orch.Types.{
  Sandbox, SandboxStatus, SandboxPortAssign, scheduled, marshal_status, unmarshal_status,
}
use go_gvisor_containerd_let.Orch.Tables.{
  Db, SandboxRow, SandboxPortRow, find, exists, select, delete, update, insert, sort_by,
}
use go_gvisor_containerd_let.Orch.World.{
  Error, no_rows, constraint, port_conflict, Result, ok, err, M, pure, raise, lift, ◌>>=◌, ◌>>◌,
  attempt, read_clock, statement, query, exec, for_each, transaction, error_text,
}
use go_gvisor_containerd_let.Orch.Repo.Timestamps.{timestamp_lt}

abbrev pub has_id : String → SandboxRow → Bool
has_id id r = str_eq r.id id

abbrev pub owned_by : String → SandboxPortRow → Bool
owned_by id r = str_eq r.sandbox_id id

abbrev pub on_node : String → SandboxPortRow → Bool
on_node node r = str_eq r.node_name node

abbrev pub holds_port : String → ℕ → SandboxPortRow → Bool
holds_port node port r = str_eq r.node_name node && r.host_port == port

module _ {ℓ} {A : Type ℓ} where
  -- QueryRow(…).Scan: sql.ErrNoRows where nothing is selected.
  unfoldable pub required : Option A → Result A
  required none = err no_rows
  required (some a) = ok a

-- scanSandboxFromScanner.
unfoldable pub scan_sandbox : SandboxRow → Sandbox
scan_sandbox r = record {
  id = r.id;
  spec = r.spec;
  status = unmarshal_status r.status;
  created_at = r.created_at;
  updated_at = r.updated_at;
}

-- INSERT INTO sandboxes: the id is the primary key.
unfoldable pub insert_sandbox_row : SandboxRow → Db → Result (Unit {0}) × Db
insert_sandbox_row r d =
    if exists (has_id r.id) d.sandboxes
    then (err constraint, d)
    else (ok tt, record d { sandboxes = insert r d.sandboxes })

unfoldable pub create_sandbox : Sandbox → M (Unit {0})
create_sandbox sbx = do
  now ← read_clock
  statement (
      insert_sandbox_row (record {
        id = sbx.id;
        spec = sbx.spec;
        status = marshal_status sbx.status;
        created_at = if sbx.created_at == 0 then now else sbx.created_at;
        updated_at = now;
      }))

unfoldable pub find_sandbox : String → Db → Result SandboxRow
find_sandbox id d = required (find (has_id id) d.sandboxes)

unfoldable pub get_sandbox : String → M Sandbox
get_sandbox id = do row ← query (find_sandbox id); pure (scan_sandbox row)

unfoldable pub list_sandboxes : M (List Sandbox)
list_sandboxes = do
  rows ← query (λ d. ok (sort_by (λ a b. timestamp_lt a.created_at b.created_at) d.sandboxes))
  pure (map scan_sandbox rows)

unfoldable pub set_status : SandboxStatus → ℕ → SandboxRow → SandboxRow
set_status st now r = record r { status = marshal_status st; updated_at = now }

unfoldable pub update_status_row : String → SandboxStatus → ℕ → Db → Db
update_status_row id st now d = record d {
  sandboxes = update (has_id id) (set_status st now) d.sandboxes;
}

unfoldable pub update_sandbox_status : String → SandboxStatus → M (Unit {0})
update_sandbox_status id st = do now ← read_clock; exec (update_status_row id st now)

-- UPDATE … WHERE id=? AND updated_at=?, with the number of rows that it affected.
unfoldable pub update_status_row_if : String → SandboxStatus → ℕ → ℕ → Db → Result ℕ × Db
update_status_row_if id st expected now d =
    let clause = λ (r : SandboxRow). has_id id r && r.updated_at == expected in
    (
      ok (length (select clause d.sandboxes)),
      record d { sandboxes = update clause (set_status st now) d.sandboxes },
    )

unfoldable pub update_sandbox_status_if_unchanged : String → SandboxStatus → ℕ → M Bool
update_sandbox_status_if_unchanged id st expected = do
  now ← read_clock
  affected ← statement (update_status_row_if id st expected now)
  pure (affected == 1)

unfoldable pub delete_ports : String → Db → Db
delete_ports id d = record d { sandbox_ports = delete (owned_by id) d.sandbox_ports }

-- DELETE FROM sandboxes; the foreign key of `sandbox_ports` cascades.
unfoldable pub delete_row : String → Db → Db
unfolding delete_ports
delete_row id d = delete_ports id (record d { sandboxes = delete (has_id id) d.sandboxes })

unfoldable pub delete_sandbox : String → M (Unit {0})
delete_sandbox id = do exec (delete_ports id); exec (delete_row id)

-- INSERT INTO sandbox_ports: (node_name, host_port) is the primary key, and the sandbox must exist.
unfoldable pub insert_port : SandboxPortRow → Db → Result (Unit {0}) × Db
insert_port r d =
    if exists (holds_port r.node_name r.host_port) d.sandbox_ports
    then (err constraint, d)
    else if exists (has_id r.sandbox_id) d.sandboxes
    then (ok tt, record d { sandbox_ports = insert r d.sandbox_ports })
    else (err constraint, d)

unfoldable pub port_row : String → String → SandboxPortAssign → ℕ → SandboxPortRow
port_row id node p now = record {
  sandbox_id = id;
  node_name = node;
  host_port = p.host_port;
  container_port = p.container_port;
  protocol = p.protocol;
  created_at = now;
}

unfoldable pub already_reserved : String → ℕ → Error
already_reserved node port =
    port_conflict
      (append "host port already reserved on node " (append node (append ": " (decimal port))))

unfoldable pub check_port_free : String → SandboxPortAssign → M (Unit {0})
check_port_free node p = do
  taken ← query (λ d. ok (exists (holds_port node p.host_port) d.sandbox_ports))
  if taken then raise (already_reserved node p.host_port) else pure tt

unfoldable pub as_conflict : Result (Unit {0}) → Result (Unit {0})
as_conflict (ok a) = ok a
as_conflict (err e) = err (port_conflict (error_text e))

unfoldable pub reserve_port : String → String → SandboxPortAssign → M (Unit {0})
unfolding port_row
reserve_port id node p = do
  now ← read_clock
  r ← attempt (statement (insert_port (port_row id node p now)))
  lift (as_conflict r)

-- ReserveSandboxPortsAndSchedule, without its transaction.
unfoldable pub reserve_body : String → String → List SandboxPortAssign → M (Unit {0})
reserve_body id node ports = do
  for_each (check_port_free node) ports
  for_each (reserve_port id node) ports
  sbx ← get_sandbox id
  update_sandbox_status id
      (record sbx.status { node_name = node; phase = scheduled; assigned_ports = ports })

unfoldable pub reserve_sandbox_ports_and_schedule :
    String → String → List SandboxPortAssign → M (Unit {0})
unfolding reserve_body
reserve_sandbox_ports_and_schedule id node ports = transaction (reserve_body id node ports)

unfoldable pub release_sandbox_ports : String → M (Unit {0})
release_sandbox_ports id = exec (delete_ports id)

unfoldable pub node_used_host_ports : String → M (List ℕ)
node_used_host_ports node = do
  rows ← query (λ d. ok (select (on_node node) d.sandbox_ports))
  pure (map (λ r. r.host_port) rows)

-- ===== src/Orch/Service/Delete.antt =====
-- Creation and deletion of sandbox objects (sandboxd-orch/service/sandbox_ops.go): CreateSandbox,
-- DeleteSandbox, finalizeSandboxDelete, adjustNodeUsageForSandbox, TriggerSandboxReconcile and
-- runSandboxReconcileOnce.
pub mod Cleanup
pub mod Sweeping
pub mod Rounds
pub mod Failures
pub mod Creation
use go_gvisor_containerd_let.Base.{
  ℕ, ℤ, pos, negsuc, int64, ◌*◌, ◌+ℤ◌, ◌-ℤ◌, ltb_ℤ, ltb, pos_part, String, Bool, true, false,
  Option, none, some, List, [], ◌∷◌, is_empty, trim_space, if◌then◌else◌,
}
use go_gvisor_containerd_let.Orch.Types.{
  pending, deleting, is_deleting, Sandbox, SandboxSpec, SandboxStatus, CreateSandboxObjectRequest,
}
use go_gvisor_containerd_let.Orch.World.{
  Error, invalid_input, Result, ok, err, M, pure, raise, lift, gets, ◌>>=◌, ◌>>◌, attempt, ignore,
  read_clock, for_each, error_text, is_no_rows,
}
use go_gvisor_containerd_let.Orch.Repo.Sandboxes.{
  create_sandbox, get_sandbox, list_sandboxes, update_sandbox_status, delete_sandbox,
  release_sandbox_ports,
}
use go_gvisor_containerd_let.Orch.Repo.Nodes.{adjust_node_resource_usage}
use go_gvisor_containerd_let.Orch.Service.Requests.{
  validate_sandbox_create, sandbox_resource_request,
}
use go_gvisor_containerd_let.Orch.Service.Clients.{client_for_node, delete_on_node}

-- time.Duration(ttl) * time.Second, an int64, for a positive ttl.
unfoldable pub ttl_duration : ℤ → ℤ
ttl_duration ttl = int64 (pos (pos_part ttl * 1_000_000_000))

-- now.Add, which a negative duration takes back.
unfoldable pub expiry : ℕ → ℤ → Option ℕ
unfolding ttl_duration
expiry now ttl = if ltb_ℤ (pos 0) ttl then some (pos_part (pos now +ℤ ttl_duration ttl)) else none

unfoldable pub new_sandbox : CreateSandboxObjectRequest → ℕ → Sandbox
unfolding expiry
new_sandbox req now = record {
  id = trim_space req.id;
  spec = req.spec;
  status = record {
    phase = pending;
    node_name = "";
    external = "";
    ip = "";
    assigned_ports = [];
    sandboxd_id = "";
    expire_at = expiry now req.spec.ttl_seconds;
    last_error = "";
  };
  created_at = now;
  updated_at = now;
}

unfoldable pub create_sandbox_object : CreateSandboxObjectRequest → M Sandbox
create_sandbox_object req = do
  parse ← gets (λ w. w.env.parse_quantity)
  lift (validate_sandbox_create parse req)
  now ← read_clock
  create_sandbox (new_sandbox req now)
  get_sandbox (trim_space req.id)

-- direction * x, for the directions 1 (`true`) and -1.
abbrev pub directed : Bool → ℤ → ℤ
directed true a = a
directed false a = int64 (pos 0 -ℤ a)

unfoldable pub adjust_node_usage_for_sandbox : String → SandboxSpec → Bool → M (Unit {0})
adjust_node_usage_for_sandbox node spec up = if is_empty (trim_space node) then pure tt else do
  parse ← gets (λ w. w.env.parse_quantity)
  request ← lift (sandbox_resource_request parse spec)
  adjust_node_resource_usage node (directed up request.0) (directed up request.1)

-- The error is kept in the status, and returned.
unfoldable pub fail_with : Sandbox → Error → M (Unit {0})
fail_with sbx e = do
  ignore (update_sandbox_status sbx.id (record sbx.status { last_error = error_text e }))
  raise e

unfoldable pub or_fail : Sandbox → Result (Unit {0}) → M (Unit {0})
unfolding fail_with
or_fail sbx (ok a) = pure tt
or_fail sbx (err e) = fail_with sbx e

-- A node that is gone from the store does not stop the cleanup.
unfoldable pub delete_with_client : Sandbox → Result String → M (Unit {0})
unfolding or_fail
delete_with_client sbx (ok url) = do r ← attempt (delete_on_node url sbx.id); or_fail sbx r
delete_with_client sbx (err e) = if is_no_rows e then pure tt else fail_with sbx e

unfoldable pub delete_from_node : Sandbox → M (Unit {0})
unfolding delete_with_client
delete_from_node sbx =
    if is_empty sbx.status.node_name
    then pure tt
    else do client ← attempt (client_for_node sbx.status.node_name); delete_with_client sbx client

unfoldable pub release_or_fail : Sandbox → M (Unit {0})
unfolding or_fail
release_or_fail sbx = do r ← attempt (release_sandbox_ports sbx.id); or_fail sbx r

unfoldable pub return_usage : Sandbox → M (Unit {0})
return_usage sbx =
    if is_empty sbx.status.node_name
    then pure tt
    else ignore (adjust_node_usage_for_sandbox sbx.status.node_name sbx.spec false)

unfoldable pub finalize_sandbox_delete : Sandbox → M (Unit {0})
finalize_sandbox_delete sbx = do
  delete_from_node sbx
  release_or_fail sbx
  delete_sandbox sbx.id
  return_usage sbx

unfoldable pub mark_deleting : String → Sandbox → Sandbox
mark_deleting last_error sbx = record sbx {
  status = record sbx.status { phase = deleting; last_error = last_error };
}

unfoldable pub delete_found : Sandbox → M (Unit {0})
delete_found sbx = if is_deleting sbx.status.phase then pure tt else do
  update_sandbox_status sbx.id (mark_deleting "" sbx).status
  finalize_sandbox_delete (mark_deleting "" sbx)

unfoldable pub delete_sandbox_object : String → M (Unit {0})
delete_sandbox_object id =
    if is_empty (trim_space id)
    then raise (invalid_input "sandbox id is required")
    else do sbx ← get_sandbox (trim_space id); delete_found sbx

unfoldable pub trigger_found : Sandbox → M (Unit {0})
trigger_found sbx = if is_deleting sbx.status.phase then finalize_sandbox_delete sbx else do
  ignore (update_sandbox_status sbx.id (mark_deleting sbx.status.last_error sbx).status)
  finalize_sandbox_delete (mark_deleting sbx.status.last_error sbx)

unfoldable pub trigger_sandbox_reconcile : String → M (Unit {0})
unfolding trigger_found
trigger_sandbox_reconcile id = do sbx ← get_sandbox (trim_space id); trigger_found sbx

unfoldable pub is_expired : ℕ → Option ℕ → Bool
is_expired now none = false
is_expired now (some at) = ltb at now

unfoldable pub reconcile_one : ℕ → Sandbox → M (Unit {0})
reconcile_one now sbx =
    if is_deleting sbx.status.phase
    then ignore (finalize_sandbox_delete sbx)
    else if is_expired now sbx.status.expire_at
    then (do
      ignore (update_sandbox_status sbx.id (mark_deleting "ttl expired" sbx).status)
      ignore (finalize_sandbox_delete (mark_deleting "ttl expired" sbx)))
    else pure tt

unfoldable pub reconcile_listed : Result (List Sandbox) → M (Unit {0})
reconcile_listed (err e) = pure tt
reconcile_listed (ok sandboxes) = do now ← read_clock; for_each (reconcile_one now) sandboxes

unfoldable pub run_sandbox_reconcile_once : M (Unit {0})
unfolding reconcile_listed
run_sandbox_reconcile_once = do listed ← attempt list_sandboxes; reconcile_listed listed

-- ===== src/Orch/Service/Safety/Deletes.antt =====
-- Creation, deletion and reconciliation of sandboxes keep what the store's methods keep.
use go_gvisor_containerd_let.Base.{ℕ, String, Bool, List}
use go_gvisor_containerd_let.Orch.Types.{Sandbox, SandboxSpec, CreateSandboxObjectRequest}
use go_gvisor_containerd_let.Orch.Tables.{Db}
use go_gvisor_containerd_let.Orch.World.{Error, Result, ok, err}
use go_gvisor_containerd_let.Orch.World.Keeps.{Keeps, Keeps-bind, Keeps-attempt, keeps_rules}
use go_gvisor_containerd_let.Orch.Service.Delete.{
  create_sandbox_object, adjust_node_usage_for_sandbox, fail_with, or_fail, delete_with_client,
  delete_from_node, release_or_fail, return_usage, finalize_sandbox_delete, delete_found,
  delete_sandbox_object, trigger_found, trigger_sandbox_reconcile, reconcile_one, reconcile_listed,
  run_sandbox_reconcile_once,
}
use go_gvisor_containerd_let.Orch.Service.Safety.Parts.{
  StoreKeeps, client_for_node-Keeps, agent_rules,
}

module _ {Inv : Db → Type 0} (s : StoreKeeps Inv) where
  pub create_sandbox_object-Keeps :
      (req : CreateSandboxObjectRequest) → Keeps Inv (create_sandbox_object req)
  unfolding create_sandbox_object
  create_sandbox_object-Keeps req = search (keeps_rules, s.creates, s.gets_sandbox) depth 8

  pub adjust_node_usage_for_sandbox-Keeps :
      (node : String) (spec : SandboxSpec) (up : Bool)
      → Keeps Inv (adjust_node_usage_for_sandbox node spec up)
  unfolding adjust_node_usage_for_sandbox
  adjust_node_usage_for_sandbox-Keeps node spec up = search (keeps_rules, s.adjusts) depth 8

  fail_with-Keeps : (sbx : Sandbox) (e : Error) → Keeps Inv (fail_with sbx e)
  unfolding fail_with
  fail_with-Keeps sbx e = search (keeps_rules, s.updates_status)

  or_fail-Keeps : (sbx : Sandbox) (r : Result (Unit {0})) → Keeps Inv (or_fail sbx r)
  unfolding or_fail
  or_fail-Keeps sbx (ok a) = search keeps_rules
  or_fail-Keeps sbx (err e) = fail_with-Keeps sbx e

  delete_with_client-Keeps :
      (sbx : Sandbox) (r : Result String) → Keeps Inv (delete_with_client sbx r)
  unfolding delete_with_client
  delete_with_client-Keeps sbx (ok url) = search (agent_rules, or_fail-Keeps)
  delete_with_client-Keeps sbx (err e) = search (agent_rules, fail_with-Keeps)

  delete_from_node-Keeps : (sbx : Sandbox) → Keeps Inv (delete_from_node sbx)
  unfolding delete_from_node
  delete_from_node-Keeps sbx =
      search (keeps_rules, delete_with_client-Keeps, client_for_node-Keeps s)

  release_or_fail-Keeps : (sbx : Sandbox) → Keeps Inv (release_or_fail sbx)
  unfolding release_or_fail
  release_or_fail-Keeps sbx = search (keeps_rules, or_fail-Keeps, s.releases)

  return_usage-Keeps : (sbx : Sandbox) → Keeps Inv (return_usage sbx)
  unfolding return_usage
  return_usage-Keeps sbx = search (keeps_rules, adjust_node_usage_for_sandbox-Keeps)

  pub finalize_sandbox_delete-Keeps : (sbx : Sandbox) → Keeps Inv (finalize_sandbox_delete sbx)
  unfolding finalize_sandbox_delete
  finalize_sandbox_delete-Keeps sbx =
      search
        (keeps_rules, delete_from_node-Keeps, release_or_fail-Keeps, s.deletes, return_usage-Keeps)
        depth 8

  delete_found-Keeps : (sbx : Sandbox) → Keeps Inv (delete_found sbx)
  unfolding delete_found
  delete_found-Keeps sbx =
      search (keeps_rules, s.updates_status, finalize_sandbox_delete-Keeps) depth 8

  pub delete_sandbox_object-Keeps : (id : String) → Keeps Inv (delete_sandbox_object id)
  unfolding delete_sandbox_object
  delete_sandbox_object-Keeps id = search (keeps_rules, s.gets_sandbox, delete_found-Keeps)

  trigger_found-Keeps : (sbx : Sandbox) → Keeps Inv (trigger_found sbx)
  unfolding trigger_found
  trigger_found-Keeps sbx =
      search (keeps_rules, s.updates_status, finalize_sandbox_delete-Keeps) depth 8

  pub trigger_sandbox_reconcile-Keeps : (id : String) → Keeps Inv (trigger_sandbox_reconcile id)
  unfolding trigger_sandbox_reconcile
  trigger_sandbox_reconcile-Keeps id = search (keeps_rules, s.gets_sandbox, trigger_found-Keeps)

  reconcile_one-Keeps : (now : ℕ) (sbx : Sandbox) → Keeps Inv (reconcile_one now sbx)
  unfolding reconcile_one
  reconcile_one-Keeps now sbx =
      search (keeps_rules, s.updates_status, finalize_sandbox_delete-Keeps) depth 8

  reconcile_listed-Keeps : (r : Result (List Sandbox)) → Keeps Inv (reconcile_listed r)
  unfolding reconcile_listed
  reconcile_listed-Keeps (ok sandboxes) = search (keeps_rules, reconcile_one-Keeps)
  reconcile_listed-Keeps (err e) = search keeps_rules

  pub run_sandbox_reconcile_once-Keeps : Keeps Inv run_sandbox_reconcile_once
  unfolding run_sandbox_reconcile_once
  run_sandbox_reconcile_once-Keeps =
      Keeps-bind _ _ (Keeps-attempt _ s.lists_sandboxes) reconcile_listed-Keeps

-- ===== src/Orch/Service/Delete/Failures.antt =====
-- finalizeSandboxDelete where a step fails: the record of the sandbox stays, in Deleting.
use go_gvisor_containerd_let.Base.{
  ◌≡◌, String, Bool, true, false, ◌&&◌, List, [], ◌∷◌, arith, ℕ, is_empty, if◌then◌else◌,
}
use go_gvisor_containerd_let.Orch.Types.{Sandbox, SandboxStatus, is_deleting, marshal_status}
use go_gvisor_containerd_let.Orch.Tables.{Db, SandboxRow, exists, update}
use go_gvisor_containerd_let.Orch.World.{Error, Result, ok, err, World, M, pure, ignore}
use go_gvisor_containerd_let.Orch.World.Keeps.{
  Keeps, Keeps-exec, Keeps-bind, Keeps-attempt, Keeps-read_clock, keeps_rules,
}
use go_gvisor_containerd_let.Orch.World.Fails.{
  Fails, IsSure, Fails-bind, Fails-bind_sure, Fails-exec,
}
use go_gvisor_containerd_let.Orch.Repo.Sandboxes.{
  has_id, delete_ports, delete_row, delete_sandbox, release_sandbox_ports, update_status_row,
  update_sandbox_status, set_status,
}
use go_gvisor_containerd_let.Orch.Repo.Nodes.{get_node}
use go_gvisor_containerd_let.Orch.Service.Clients.{client_for_node, delete_on_node}
use go_gvisor_containerd_let.Orch.Service.Delete.{
  fail_with, or_fail, delete_with_client, delete_from_node, release_or_fail, return_usage,
  finalize_sandbox_delete, adjust_node_usage_for_sandbox,
}

-- A row with the id is in Deleting.
abbrev pub InDeleting : String → Db → Type 0
InDeleting id d = exists (λ r. has_id id r && is_deleting r.status.phase) d.sandboxes ≡ true

exists-update_deleting :
    (id : String) (st : SandboxStatus) (now : ℕ) (rows : List SandboxRow)
    → is_deleting st.phase ≡ true
    → exists (λ r. has_id id r && is_deleting r.status.phase) rows ≡ true
    → exists
        (λ r. has_id id r && is_deleting r.status.phase)
        (update (has_id id) (set_status st now) rows)
      ≡ true
unfolding exists update set_status marshal_status
exists-update_deleting id st now [] e h = h
exists-update_deleting id st now (x ∷ xs) e h =
    ground (arith, exists-update_deleting id st now xs e)

module _ (id : String) where
  update_sandbox_status-Keeps :
      (st : SandboxStatus)
      → is_deleting st.phase ≡ true
      → Keeps (InDeleting id) (update_sandbox_status id st)
  unfolding update_sandbox_status update_status_row
  update_sandbox_status-Keeps st e = Keeps-bind _ _ Keeps-read_clock (λ now.
      Keeps-exec (update_status_row id st now)
        (λ d h. exists-update_deleting id st now d.sandboxes e h))

  delete_ports-Keeps : Keeps (InDeleting id) (release_sandbox_ports id)
  unfolding release_sandbox_ports delete_ports
  delete_ports-Keeps = Keeps-exec (delete_ports id) (λ d h. h)

module _ (sbx : Sandbox) (deleting : is_deleting sbx.status.phase ≡ true) where
  fail_with-Keeps : (e : Error) → Keeps (InDeleting sbx.id) (fail_with sbx e)
  unfolding fail_with
  fail_with-Keeps e = search (keeps_rules, update_sandbox_status-Keeps sbx.id _ deleting)

  or_fail-Keeps : (r : Result (Unit {0})) → Keeps (InDeleting sbx.id) (or_fail sbx r)
  unfolding or_fail
  or_fail-Keeps (ok a) = search keeps_rules
  or_fail-Keeps (err e) = fail_with-Keeps e

  delete_with_client-Keeps :
      (r : Result String) → Keeps (InDeleting sbx.id) (delete_with_client sbx r)
  unfolding delete_with_client delete_on_node
  delete_with_client-Keeps (ok url) = search (keeps_rules, or_fail-Keeps)
  delete_with_client-Keeps (err e) = search (keeps_rules, fail_with-Keeps)

  delete_from_node-Keeps : Keeps (InDeleting sbx.id) (delete_from_node sbx)
  unfolding delete_from_node client_for_node get_node
  delete_from_node-Keeps = search (keeps_rules, delete_with_client-Keeps)

  release_or_fail-Keeps : Keeps (InDeleting sbx.id) (release_or_fail sbx)
  unfolding release_or_fail
  release_or_fail-Keeps = Keeps-bind _ _ (Keeps-attempt _ (delete_ports-Keeps sbx.id)) or_fail-Keeps

delete_sandbox-Fails : (id : String) → Fails (InDeleting id) (delete_sandbox id)
unfolding delete_sandbox release_sandbox_ports
delete_sandbox-Fails id = Fails-bind _ _ (delete_ports-Keeps id) (λ a. Fails-exec (delete_row id))

return_usage-IsSure : (sbx : Sandbox) → IsSure (return_usage sbx)
unfolding return_usage pure ignore
return_usage-IsSure sbx w e h =
    sure (is_empty sbx.status.node_name)
      (adjust_node_usage_for_sandbox sbx.status.node_name sbx.spec false) h
  where
    sure :
        {A : Type 0} (b : Bool) (m : M A)
        → ¬ (((if b then pure (tt {0}) else ignore m) w).0 ≡ err e)
    sure true m g = cc
    sure false m g = cc

-- A deletion that fails, at whatever step, leaves the sandbox's row where it was and in Deleting, so
-- that the next reconcile round tries again; the sandbox is in Deleting when the deletion starts,
-- and so it stays under what the other goroutines do.
pub finalize_sandbox_delete-fails :
    (sbx : Sandbox) (w : World) (e : Error)
    → is_deleting sbx.status.phase ≡ true
    → ((k : ℕ) (d : Db) → InDeleting sbx.id d → InDeleting sbx.id (w.env.others k d))
    → InDeleting sbx.id w.db
    → (finalize_sandbox_delete sbx w).0 ≡ err e
    → InDeleting sbx.id (finalize_sandbox_delete sbx w).1.db
unfolding finalize_sandbox_delete
finalize_sandbox_delete-fails sbx w e deleting rely inv h =
    (run.at w (record { rely = rely; inv = inv }) e h).inv
  where
    run : Fails (InDeleting sbx.id) (finalize_sandbox_delete sbx)
    run = Fails-bind (delete_from_node sbx) _ (delete_from_node-Keeps sbx deleting) (λ a.
        Fails-bind (release_or_fail sbx) _ (release_or_fail-Keeps sbx deleting) (λ b.
          Fails-bind_sure (delete_sandbox sbx.id) _ (delete_sandbox-Fails sbx.id)
            (λ c. return_usage-IsSure sbx)))

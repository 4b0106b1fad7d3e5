-- ===== src/Orch/Service/Safety/Syncs.antt =====
-- The status sync keeps what the store's methods keep.
use go_gvisor_containerd_let.Base.{String, Bool, Option, none, some, List}
use go_gvisor_containerd_let.Orch.Types.{
  Sandbox, SandboxStatus, SandboxSyncStatus, SandboxStatusesResponse,
}
use go_gvisor_containerd_let.Orch.Tables.{Db}
use go_gvisor_containerd_let.Orch.World.{Result, ok, err, M}
use go_gvisor_containerd_let.Orch.World.Keeps.{Keeps, keeps_rules}
use go_gvisor_containerd_let.Orch.Repo.Sandboxes.{list_sandboxes}
use go_gvisor_containerd_let.Orch.Repo.Nodes.{get_node}
use go_gvisor_containerd_let.Orch.Service.Clients.{client_for_node}
use go_gvisor_containerd_let.Orch.Service.Sync.{
  mark_missing, write_if_changed, apply_answer, with_latest, reread, sync_found, sync_sandbox,
  sync_answers, sync_node_sandbox_batch, sync_node_with, sync_node, sync_listed,
  run_sandbox_status_sync_once,
}
use go_gvisor_containerd_let.Orch.Service.Safety.Parts.{StoreKeeps, agent_rules}

-- A round keeps what its two ways to write keep: the rest of it reads.
module _ {Inv : Db → Type 0} (marks : (id ext : String) → Keeps Inv (reread id (mark_missing ext)))
    (applies : (id ext : String) (st : SandboxSyncStatus)
      → Keeps Inv (reread id (apply_answer ext st))) where
  sync_found-Keeps :
      (ext : String) (found : Option SandboxSyncStatus) (id : String)
      → Keeps Inv (sync_found ext found id)
  unfolding sync_found
  sync_found-Keeps ext none id = search keeps_rules
  sync_found-Keeps ext (some st) id = applies id ext st

  sync_sandbox-Keeps :
      (ext : String) (resp : SandboxStatusesResponse) (sbx : Sandbox)
      → Keeps Inv (sync_sandbox ext resp sbx)
  unfolding sync_sandbox
  sync_sandbox-Keeps ext resp sbx = search (keeps_rules, marks, sync_found-Keeps)

  sync_answers-Keeps :
      (ext : String) (sandboxes : List Sandbox) (r : Result SandboxStatusesResponse)
      → Keeps Inv (sync_answers ext sandboxes r)
  unfolding sync_answers
  sync_answers-Keeps ext sandboxes (ok resp) = search (keeps_rules, sync_sandbox-Keeps)
  sync_answers-Keeps ext sandboxes (err e) = search keeps_rules

  pub sync_node_sandbox_batch-Keeps :
      (url node : String) (sandboxes : List Sandbox)
      → Keeps Inv (sync_node_sandbox_batch url node sandboxes)
  unfolding sync_node_sandbox_batch get_node
  sync_node_sandbox_batch-Keeps url node sandboxes =
      search (agent_rules, sync_answers-Keeps) depth 8

  sync_node_with-Keeps :
      (node : String) (sandboxes : List Sandbox) (r : Result String)
      → Keeps Inv (sync_node_with node sandboxes r)
  unfolding sync_node_with
  sync_node_with-Keeps node sandboxes (ok url) = search (keeps_rules, sync_node_sandbox_batch-Keeps)
  sync_node_with-Keeps node sandboxes (err e) = search keeps_rules

  sync_node-Keeps : (group : String × List Sandbox) → Keeps Inv (sync_node group)
  unfolding sync_node client_for_node get_node
  sync_node-Keeps (node, sandboxes) = search (keeps_rules, sync_node_with-Keeps)

  sync_listed-Keeps : (r : Result (List Sandbox)) → Keeps Inv (sync_listed r)
  unfolding sync_listed
  sync_listed-Keeps (ok items) = search (keeps_rules, sync_node-Keeps)
  sync_listed-Keeps (err e) = search keeps_rules

  pub sync_round-Keeps : Keeps Inv run_sandbox_status_sync_once
  unfolding run_sandbox_status_sync_once list_sandboxes
  sync_round-Keeps = search (keeps_rules, sync_listed-Keeps)

module _ {Inv : Db → Type 0} (s : StoreKeeps Inv) where
  mark_missing-Keeps : (ext : String) (latest : Sandbox) → Keeps Inv (mark_missing ext latest)
  unfolding mark_missing
  mark_missing-Keeps ext latest = search (keeps_rules, s.updates_if_unchanged)

  write_if_changed-Keeps :
      (latest : Sandbox) (r : SandboxStatus × Bool) → Keeps Inv (write_if_changed latest r)
  unfolding write_if_changed
  write_if_changed-Keeps latest (st, changed) = search (keeps_rules, s.updates_if_unchanged)

  apply_answer-Keeps :
      (ext : String) (st : SandboxSyncStatus) (latest : Sandbox)
      → Keeps Inv (apply_answer ext st latest)
  unfolding apply_answer
  apply_answer-Keeps ext st latest = search (keeps_rules, write_if_changed-Keeps)

  with_latest-Keeps :
      (f : Sandbox → M (Unit {0})) (r : Result Sandbox)
      → ((latest : Sandbox) → Keeps Inv (f latest))
      → Keeps Inv (with_latest f r)
  unfolding with_latest
  with_latest-Keeps f (ok latest) k = k latest
  with_latest-Keeps f (err e) k = search keeps_rules

  reread-Keeps :
      (id : String) (f : Sandbox → M (Unit {0}))
      → ((latest : Sandbox) → Keeps Inv (f latest))
      → Keeps Inv (reread id f)
  unfolding reread
  reread-Keeps id f k = search (keeps_rules, s.gets_sandbox, with_latest-Keeps)

  pub run_sandbox_status_sync_once-Keeps : Keeps Inv run_sandbox_status_sync_once
  run_sandbox_status_sync_once-Keeps =
      sync_round-Keeps (λ id ext. reread-Keeps id _ (mark_missing-Keeps ext))
        (λ id ext st. reread-Keeps id _ (apply_answer-Keeps ext st))

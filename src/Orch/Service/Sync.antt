-- ===== src/Orch/Service/Sync.antt =====
-- The status sync (sandboxd-orch/service/sandbox_ops.go): runSandboxStatusSyncOnce,
-- syncNodeSandboxBatch, mergeSandboxPhaseWithNodeState and inferSandboxExternal. The batches of the
-- nodes run in parallel in the code; here they run one after another, and what the others do
-- meanwhile is the environment's interference.
pub mod Merge
pub mod Deletions
pub mod Races
use Prim.Native.String.{◌++◌ as append}
use go_gvisor_containerd_let.Base.{
  ℕ, zero, suc, ◌-◌, String, Bool, true, false, ◌&&◌, ◌||◌, not, Option, none, some, List, [], ◌∷◌,
  ◌++◌, map, str_eq, ◌==◌, is_empty, trim_space, to_lower, length, take, drop, if◌then◌else◌,
}
use go_gvisor_containerd_let.Orch.Types.{
  SandboxPhase, failed, running, scheduled, is_failed, is_running, is_scheduled, is_deleting, Node,
  Sandbox, SandboxStatus, SandboxSyncStatus, ContainerSyncStatus, SandboxStatusesResponse,
}
use go_gvisor_containerd_let.Orch.World.{
  Error, Result, ok, err, M, pure, gets, ◌>>=◌, ◌>>◌, attempt, ignore, for_each,
}
use go_gvisor_containerd_let.Orch.Repo.Sandboxes.{
  get_sandbox, list_sandboxes, update_sandbox_status_if_unchanged,
}
use go_gvisor_containerd_let.Orch.Repo.Nodes.{get_node}
use go_gvisor_containerd_let.Orch.Service.Clients.{client_for_node, sandbox_statuses}
use go_gvisor_containerd_let.Orch.Service.Health.{or_none}

-- `next.Phase = p` and `next.LastError = msg`, each with `changed = true` where it differs.
unfoldable pub is_phase : SandboxPhase → SandboxPhase → Bool
is_phase failed p = is_failed p
is_phase running p = is_running p
is_phase scheduled p = is_scheduled p
is_phase SandboxPhase.pending SandboxPhase.pending = true
is_phase SandboxPhase.deleting SandboxPhase.deleting = true
is_phase _ p = false

unfoldable pub set_phase : SandboxPhase → SandboxStatus × Bool → SandboxStatus × Bool
set_phase p (st, changed) =
    if is_phase p st.phase then (st, changed) else (record st { phase = p }, true)

unfoldable pub set_last_error : String → SandboxStatus × Bool → SandboxStatus × Bool
set_last_error msg (st, changed) =
    if str_eq st.last_error msg then (st, changed) else (record st { last_error = msg }, true)

-- "container NAME: ERROR", for an error that is trimmed.
unfoldable pub container_error : ContainerSyncStatus → String
container_error c = append "container " (append c.name (append ": " (trim_space c.error)))

unfoldable pub join_error : String → String → String
join_error msg e = if is_empty msg then e else append msg (append "; " e)

-- The loop that collects the containers' errors.
unfoldable pub collect_errors : String → List ContainerSyncStatus → String
unfolding container_error join_error
collect_errors msg [] = msg
collect_errors msg (c ∷ cs) =
    collect_errors
      (if is_empty (trim_space c.error) then msg else join_error msg (container_error c)) cs

unfoldable pub or_default_error : String → String
or_default_error msg = if is_empty msg then "sandbox error on sbxlet node" else msg

unfoldable pub error_message : SandboxSyncStatus → String
unfolding or_default_error
error_message st = or_default_error (collect_errors (trim_space st.error) st.unhealthy_containers)

unfoldable pub unhealthy_message : ContainerSyncStatus → String
unfolding container_error
unhealthy_message c =
    if is_empty (trim_space c.error)
    then append "container "
        (append c.name (append " unhealthy (" (append (trim_space c.phase) ")")))
    else container_error c

unfoldable pub merge_phase : SandboxStatus → String → SandboxStatus × Bool
merge_phase cur phase =
    if str_eq phase "running"
    then set_last_error "" (set_phase running (cur, false))
    else if str_eq phase "creating"
    then (if is_running cur.phase then set_phase scheduled (cur, false) else (cur, false))
    else (cur, false)

unfoldable pub merge_unhealthy :
    SandboxStatus → String → List ContainerSyncStatus → SandboxStatus × Bool
unfolding merge_phase
merge_unhealthy cur phase [] = merge_phase cur phase
merge_unhealthy cur phase (c ∷ cs) =
    set_last_error (unhealthy_message c) (set_phase failed (cur, false))

-- mergeSandboxPhaseWithNodeState: the new status, and whether it differs. For the three phases that
-- are looked for, strings.EqualFold is equality after lower-casing.
unfoldable pub merge_sandbox_phase_with_node_state :
    SandboxStatus → SandboxSyncStatus → SandboxStatus × Bool
unfolding merge_unhealthy set_phase set_last_error is_phase
merge_sandbox_phase_with_node_state cur st =
    let phase = to_lower (trim_space st.phase) in
    if str_eq phase "error"
    then set_last_error (error_message st) (set_phase failed (cur, false))
    else merge_unhealthy cur phase st.unhealthy_containers

unfoldable pub infer_sandbox_external : String → String → String
infer_sandbox_external from_node fallback =
    if is_empty (trim_space from_node) then or_none (trim_space fallback) else trim_space from_node

unfoldable pub find_missing : List String → String → Bool
find_missing [] id = false
find_missing (x ∷ xs) id = str_eq x id || find_missing xs id

-- `byID[sbx.ID]`: the last item with the id, as the map keeps it.
unfoldable pub answer_for :
    List SandboxSyncStatus → String → Option SandboxSyncStatus → Option SandboxSyncStatus
answer_for [] id found = found
answer_for (it ∷ items) id found = answer_for items id (if str_eq it.id id then some it else found)

abbrev pub write_if_unchanged : Sandbox → SandboxStatus → M (Unit {0})
write_if_unchanged latest st =
    ignore (update_sandbox_status_if_unchanged latest.id st latest.updated_at)

-- A sandbox that the node does not know.
unfoldable pub mark_missing : String → Sandbox → M (Unit {0})
mark_missing node_external latest =
    if is_deleting latest.status.phase || is_scheduled latest.status.phase
    then pure tt
    else write_if_unchanged latest (record latest.status {
      phase = failed;
      last_error = "deleted on sbxlet node";
      external = infer_sandbox_external node_external latest.status.external;
    })

unfoldable pub set_ip : String → SandboxStatus × Bool → SandboxStatus × Bool
set_ip ip (st, changed) =
    if not (is_empty ip) && not (str_eq st.ip ip)
    then (record st { ip = ip }, true)
    else (st, changed)

unfoldable pub set_external : String → SandboxStatus × Bool → SandboxStatus × Bool
set_external ext (st, changed) =
    if str_eq st.external ext then (st, changed) else (record st { external = ext }, true)

-- The status to write for what the node answered, and whether it is written.
unfoldable pub next_status : String → SandboxStatus → SandboxSyncStatus → SandboxStatus × Bool
unfolding set_ip set_external
next_status node_external latest st =
    set_external (infer_sandbox_external node_external latest.external)
      (set_ip (trim_space st.ip) (merge_sandbox_phase_with_node_state latest st))

unfoldable pub write_if_changed : Sandbox → SandboxStatus × Bool → M (Unit {0})
write_if_changed latest (st, changed) = if changed then write_if_unchanged latest st else pure tt

unfoldable pub apply_answer : String → SandboxSyncStatus → Sandbox → M (Unit {0})
unfolding write_if_changed
apply_answer node_external st latest =
    if is_deleting latest.status.phase
    then pure tt
    else write_if_changed latest (next_status node_external latest.status st)

unfoldable pub with_latest : (Sandbox → M (Unit {0})) → Result Sandbox → M (Unit {0})
with_latest f (err e) = pure tt
with_latest f (ok latest) = f latest

unfoldable pub reread : String → (Sandbox → M (Unit {0})) → M (Unit {0})
unfolding with_latest
reread id f = do latest ← attempt (get_sandbox id); with_latest f latest

unfoldable pub sync_found : String → Option SandboxSyncStatus → String → M (Unit {0})
sync_found node_external none id = pure tt
sync_found node_external (some st) id = reread id (apply_answer node_external st)

-- One round of the loop of syncNodeSandboxBatch.
unfoldable pub sync_sandbox : String → SandboxStatusesResponse → Sandbox → M (Unit {0})
unfolding sync_found
sync_sandbox node_external resp sbx =
    if find_missing resp.missing sbx.id
    then reread sbx.id (mark_missing node_external)
    else sync_found node_external (answer_for resp.items sbx.id none) sbx.id

unfoldable pub external_of_node : Result Node → String
external_of_node (err e) = ""
external_of_node (ok n) = trim_space n.resources.external

unfoldable pub sync_answers : String → List Sandbox → Result SandboxStatusesResponse → M (Unit {0})
sync_answers node_external sandboxes (err e) = pure tt
sync_answers node_external sandboxes (ok resp) =
    for_each (sync_sandbox node_external resp) sandboxes

unfoldable pub sync_node_sandbox_batch : String → String → List Sandbox → M (Unit {0})
unfolding sync_answers external_of_node
sync_node_sandbox_batch url node sandboxes = do
  n ← attempt (get_node node)
  resp ← attempt (sandbox_statuses url (map (λ s. s.id) sandboxes))
  sync_answers (external_of_node n) sandboxes resp

-- The sandboxes that are asked about.
unfoldable pub is_synced : Sandbox → Bool
is_synced sbx =
    not (is_empty (trim_space sbx.status.node_name))
    && (is_scheduled sbx.status.phase || is_running sbx.status.phase || is_failed sbx.status.phase)

unfoldable pub add_to_group : Sandbox → List (String × List Sandbox) → List (String × List Sandbox)
add_to_group sbx [] = (sbx.status.node_name, sbx ∷ []) ∷ []
add_to_group sbx ((node, group) ∷ groups) =
    if str_eq node sbx.status.node_name
    then (node, group ++ sbx ∷ []) ∷ groups
    else (node, group) ∷ add_to_group sbx groups

unfoldable pub group_from :
    List (String × List Sandbox) → List Sandbox → List (String × List Sandbox)
group_from groups [] = groups
group_from groups (sbx ∷ rest) =
    group_from (if is_synced sbx then add_to_group sbx groups else groups) rest

-- `grouped`, whose nodes the map gives in some order.
unfoldable pub group_by_node : List Sandbox → List (String × List Sandbox)
unfolding add_to_group group_from is_synced
group_by_node sandboxes = group_from [] sandboxes

-- Slices of `size` sandboxes; a round for each sandbox is enough, since `size` is not 0.
unfoldable pub batches_from : ℕ → ℕ → List Sandbox → List (List Sandbox)
batches_from zero size xs = []
batches_from (suc fuel) size [] = []
batches_from (suc fuel) size (x ∷ xs) =
    take size (x ∷ xs) ∷ batches_from fuel size (drop size (x ∷ xs))

unfoldable pub batches : ℕ → List Sandbox → List (List Sandbox)
unfolding batches_from
batches size xs = batches_from (length xs) (if size == 0 then 50 else size) xs

unfoldable pub sync_node_with : String → List Sandbox → Result String → M (Unit {0})
sync_node_with node sandboxes (err e) = pure tt
sync_node_with node sandboxes (ok url) = do
  size ← gets (λ w. w.cfg.status_sync_batch_size)
  for_each (sync_node_sandbox_batch url node) (batches size sandboxes)

unfoldable pub sync_node : String × List Sandbox → M (Unit {0})
unfolding sync_node_with
sync_node (node, sandboxes) = do
  client ← attempt (client_for_node node)
  sync_node_with node sandboxes client

unfoldable pub sync_listed : Result (List Sandbox) → M (Unit {0})
sync_listed (err e) = pure tt
sync_listed (ok items) = for_each sync_node (group_by_node items)

unfoldable pub run_sandbox_status_sync_once : M (Unit {0})
unfolding sync_listed
run_sandbox_status_sync_once = do items ← attempt list_sandboxes; sync_listed items

-- ===== src/Let/Runtime.antt =====
-- The state of a sandbox against the container runtime (sandboxd-let/sandbox/runtime.go):
-- refreshSandboxRuntimeState and what it calls. What the runtime answers is an argument.
pub mod Phases
use Prim.Native.String.{◌++◌ as append}
use go_gvisor_containerd_let.Base.{
  ℕ, String, Bool, true, false, ◌&&◌, ◌||◌, not, List, [], ◌∷◌, str_eq, is_empty, has_prefix,
  contains, if◌then◌else◌,
}
use go_gvisor_containerd_let.Let.Types.{Outcome, done, failed, ContainerState, Sandbox}

-- runtimeapi.ContainerState, with any further value.
pub data CriState : Type 0 where
  created running exited unknown unspecified : CriState

pub record CriDetails : Type 0 where
  pub id : String
  pub pid : ℕ
  pub state : CriState

-- What containerStatus and podSandboxStatus answer.
pub record Cri : Type 0 where
  pub container_status : String → Outcome CriDetails
  pub pod_exists : String → Bool

unfoldable pub is_placeholder_container_id : String → String → String → Bool
is_placeholder_container_id sandbox_id name id =
    if is_empty sandbox_id || (is_empty name || is_empty id)
    then false
    else str_eq id (append sandbox_id (append "-" name))

unfoldable pub normalize_image : String → String
normalize_image image =
    if contains "/" image
    then if contains "." image || has_prefix "localhost/" image
      then image
      else append "docker.io/" image
    else append "docker.io/library/" image

unfoldable pub with_state : String → String → String → ContainerState → ContainerState
with_state status phase error st = record st { task_status = status; phase = phase; error = error }

unfoldable pub by_state : CriState → ContainerState → ContainerState
unfolding with_state
by_state CriState.running st = with_state "running" "running" "" st
by_state CriState.created st = with_state "created" "creating" "" st
by_state CriState.exited st = with_state "container_exited" "stopped" "" st
by_state CriState.unknown st = with_state "container_unknown" "stopped" "" st
by_state CriState.unspecified st = with_state "unknown" "error" "failed to read container state" st

unfoldable pub fill_from : ContainerState → Outcome CriDetails → ContainerState
unfolding by_state
fill_from st (failed e) = with_state "not_found" "error" "container not found" st
fill_from st (done d) = by_state d.state (record st { task_pid = d.pid })

unfoldable pub fill_container_runtime_state : Cri → ContainerState → ContainerState
unfolding fill_from
fill_container_runtime_state cri st = fill_from st (cri.container_status st.id)

-- A container that is still to be created is no error while the sandbox is being created.
unfoldable pub refreshed : Cri → Sandbox → ContainerState → ContainerState
unfolding fill_container_runtime_state is_placeholder_container_id
refreshed cri sbx st =
    let next = fill_container_runtime_state cri st in
    if str_eq sbx.phase "creating"
      && (str_eq next.task_status "not_found"
          && is_placeholder_container_id sbx.id next.name next.id)
    then with_state "creating" "creating" "" next
    else next

unfoldable pub refresh_all : Cri → Sandbox → List ContainerState → List ContainerState
unfolding refreshed
refresh_all cri sbx [] = []
refresh_all cri sbx (st ∷ sts) = refreshed cri sbx st ∷ refresh_all cri sbx sts

-- `hasError`, `sandboxErr` and `allRunning`.
pub record Findings : Type 0 where
  pub has_error : Bool
  pub sandbox_err : String
  pub all_running : Bool

unfoldable pub after_pod : Cri → Sandbox → Findings
after_pod cri sbx =
    if not (is_empty sbx.pause_id) && not (cri.pod_exists sbx.pause_id)
    then record {
      has_error = true;
      sandbox_err = "pause container is not running";
      all_running = false;
    }
    else record { has_error = false; sandbox_err = ""; all_running = true }

-- The body of the loop over the containers, behind the write to the map.
unfoldable pub after_container : ContainerState → Findings → Findings
after_container next f =
    let wrong = str_eq next.phase "error" in
    record {
      has_error = f.has_error || wrong;
      sandbox_err = if wrong && is_empty f.sandbox_err then next.error else f.sandbox_err;
      all_running = f.all_running && str_eq next.phase "running";
    }

unfoldable pub after_containers : List ContainerState → Findings → Findings
unfolding after_container
after_containers [] f = f
after_containers (next ∷ sts) f = after_containers sts (after_container next f)

-- The switch at the end.
unfoldable pub settled : Findings → Sandbox → Sandbox
settled f sbx =
    if str_eq sbx.phase "deleting"
    then sbx
    else if f.has_error
    then record sbx { phase = "error"; error = f.sandbox_err }
    else if f.all_running
    then record sbx { phase = "running"; error = "" }
    else record sbx { phase = "creating" }

unfoldable pub is_nil : List ContainerState → Bool
is_nil [] = true
is_nil (st ∷ sts) = false

unfoldable pub refresh_sandbox_runtime_state : Cri → ℕ → Sandbox → Sandbox
unfolding refresh_all after_pod after_containers settled is_nil
refresh_sandbox_runtime_state cri now sbx =
    if (str_eq sbx.phase "error" && not (is_empty sbx.error)) || is_nil sbx.containers
    then record sbx { updated_at = now }
    else let next = refresh_all cri sbx sbx.containers in
      record (settled (after_containers next (after_pod cri sbx))
        (record sbx { containers = next })) { updated_at = now }

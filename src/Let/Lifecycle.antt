-- ===== src/Let/Lifecycle.antt =====
-- Creation, background provisioning and deletion of a sandbox on a node
-- (sandboxd-let/sandbox/service.go): each method with its guards in their order. The cleanup of runtime
-- objects and firewall rules is not part of the state.
pub mod Created
pub mod Admitted
pub mod Released
pub mod Settled
pub mod Deleted
use Prim.Native.String.{◌++◌ as append}
use go_gvisor_containerd_let.Base.{String, Bool, Option, none, some, List, if◌then◌else◌}
use go_gvisor_containerd_let.Orch.Tables.{delete}
use go_gvisor_containerd_let.Let.Types.{
  Failure, Outcome, done, failed, CreateSandboxRequest, Sandbox,
}
use go_gvisor_containerd_let.Let.Validate.{validate}
use go_gvisor_containerd_let.Let.Ports.{
  ensure_host_ports_available, reserve_requested_ports, release_requested_ports,
  release_reserved_ports,
}
use go_gvisor_containerd_let.Let.Admission.{enforce_admission, ensure_ip_capacity}
use go_gvisor_containerd_let.Let.Health.{named, set_sandbox_phase, clear_unhealthy}
use go_gvisor_containerd_let.Let.Sandboxes.{
  Env, Service, Reply, acquire_sandbox_lock, load, list, try_save, new_sandbox_state, stop_at,
}
use go_gvisor_containerd_let.Let.Provision.{provision_sandbox_sync}

-- The end of createSandbox, behind the first write of the state.
unfoldable pub after_save :
    Env → Bool → CreateSandboxRequest → Sandbox → Service → Failure × List Sandbox → Reply
unfolding provision_sandbox_sync
after_save env async req sbx s (some e, store) = (failed e, record s { store = store })
after_save env async req sbx s (none, store) =
    let s' = record s { store = store } in
    if async then (done sbx, s') else provision_sandbox_sync env req sbx s'

-- createSandbox while its ports are reserved.
unfoldable pub create_reserved : Env → Bool → CreateSandboxRequest → Service → Reply
unfolding after_save acquire_sandbox_lock list try_save new_sandbox_state
create_reserved env async req s = stop_at (acquire_sandbox_lock env "_admission") s (
    stop_at (enforce_admission env.host (list env s.store) req) s (
      stop_at (ensure_ip_capacity env.host (list env s.store) req.id) s (
        let sbx = new_sandbox_state env.cfg env.now req in
        after_save env async req sbx s (try_save env sbx s.store))))

-- The deferred releasePorts.
unfoldable pub release_after : CreateSandboxRequest → Reply → Reply
release_after req (r, s) =
    (r, record s { reserved_ports = release_requested_ports req.id req.ports s.reserved_ports })

-- createSandbox behind the look at the store.
unfoldable pub create_new : Env → Bool → CreateSandboxRequest → Service → Reply
unfolding create_reserved release_after acquire_sandbox_lock list
create_new env async req s = stop_at (acquire_sandbox_lock env "_ports") s (
    stop_at
      (ensure_host_ports_available env.bind req.id s.reserved_ports (list env s.store) req.ports) s
      (release_after req (
        create_reserved env async req (record s {
          reserved_ports = reserve_requested_ports req.id req.ports s.reserved_ports;
        }))))

unfoldable pub create_unless :
    Env → Bool → CreateSandboxRequest → Service → Outcome (Option Sandbox) → Reply
unfolding create_new
create_unless env async req s (failed e) = (failed e, s)
create_unless env async req s (done (some sbx)) =
    (failed (append "sandbox already exists: " req.id), s)
create_unless env async req s (done none) = create_new env async req s

unfoldable pub create_sandbox : Env → Bool → CreateSandboxRequest → Service → Reply
unfolding acquire_sandbox_lock create_unless load
create_sandbox env async req s =
    stop_at (acquire_sandbox_lock env req.id) s
      (stop_at (validate req) s (create_unless env async req s (load env req.id s.store)))

unfoldable pub mark_loaded : Env → String → Service → Outcome (Option Sandbox) → Service
unfolding try_save
mark_loaded env msg s (failed e) = s
mark_loaded env msg s (done none) = s
mark_loaded env msg s (done (some sbx)) = record s {
  store = (try_save env (set_sandbox_phase "error" msg env.now sbx) s.store).1;
}

unfoldable pub mark_sandbox_error : Env → String → String → Service → Service
unfolding mark_loaded load
mark_sandbox_error env id msg s = mark_loaded env msg s (load env id s.store)

unfoldable pub after_provision : Env → String → Reply → Service
unfolding mark_sandbox_error
after_provision env id (done sbx, s) = s
after_provision env id (failed e, s) = mark_sandbox_error env id e s

unfoldable pub provision_loaded :
    Env → String → CreateSandboxRequest → Service → Outcome (Option Sandbox) → Service
unfolding after_provision
provision_loaded env id req s (failed e) = s
provision_loaded env id req s (done none) = s
provision_loaded env id req s (done (some sbx)) =
    after_provision env id (provision_sandbox_sync env req sbx s)

-- provisionSandbox, the goroutine of an asynchronous creation.
unfoldable pub provision_sandbox : Env → String → CreateSandboxRequest → Service → Service
unfolding provision_loaded load acquire_sandbox_lock mark_sandbox_error
provision_sandbox env id req s = elim (acquire_sandbox_lock env id) [
  | some e ↦ mark_sandbox_error env id e s
  | none ↦ provision_loaded env id req s (load env id s.store)
]

-- deleteSandboxFromState, whose cleanup of the runtime reports no error.
unfoldable pub delete_sandbox_from_state : Env → String → List Sandbox → List Sandbox
delete_sandbox_from_state env id store = elim (env.delete_failure id) [
  | some e ↦ store
  | none ↦ delete (named id) store
]

unfoldable pub delete_loaded : Env → String → Service → Outcome (Option Sandbox) → Failure × Service
unfolding try_save delete_sandbox_from_state
delete_loaded env id s (failed e) = (some e, s)
delete_loaded env id s (done none) =
    (none, record s { reserved_ports = release_reserved_ports id s.reserved_ports })
delete_loaded env id s (done (some sbx)) =
    let marked = (try_save env (set_sandbox_phase "deleting" "" env.now sbx) s.store).1 in
    (
      none,
      record {
        store = delete_sandbox_from_state env sbx.id marked;
        reserved_ports = release_reserved_ports id s.reserved_ports;
        unhealthy = clear_unhealthy id s.unhealthy;
      },
    )

unfoldable pub delete_sandbox : Env → String → Service → Failure × Service
unfolding acquire_sandbox_lock delete_loaded load
delete_sandbox env id s = elim (acquire_sandbox_lock env id) [
  | some e ↦ (some e, s)
  | none ↦ delete_loaded env id s (load env id s.store)
]

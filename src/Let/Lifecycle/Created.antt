-- ===== src/Let/Lifecycle/Created.antt =====
-- What has happened where an asynchronous creation succeeds.
use go_gvisor_containerd_let.Base.{
  ◌≡◌, refl, ap, Bool, ◌∙◌, sym, true, Option, none, some, List, arith,
}
use go_gvisor_containerd_let.Let.Types.{
  Failure, Outcome, done, failed, CreateSandboxRequest, Sandbox,
}
use go_gvisor_containerd_let.Let.Validate.{validate}
use go_gvisor_containerd_let.Let.Admission.{enforce_admission, ensure_ip_capacity}
use go_gvisor_containerd_let.Let.Health.{save}
use go_gvisor_containerd_let.Let.Sandboxes.{
  Env, Service, Reply, load, list, try_save, new_sandbox_state, stop_at, acquire_sandbox_lock,
}
use go_gvisor_containerd_let.Let.Ports.{ensure_host_ports_available, reserve_requested_ports}
use go_gvisor_containerd_let.Let.Lifecycle.{
  create_sandbox, create_unless, create_new, release_after, create_reserved, after_save,
}

pub stop_at-done :
    (f : Failure) (s : Service) (rest : Reply) {sbx : Sandbox} {t : Service}
    → stop_at f s rest ≡ (done sbx, t)
    → (f ≡ none) × (rest ≡ (done sbx, t))
stop_at-done none s rest h = (refl, h)
stop_at-done (some e) s rest h = absurd (cc (ap (λ (r : Reply). r.0) h))

create_unless-done :
    (env : Env) (async : Bool) (req : CreateSandboxRequest) (s : Service)
    (found : Outcome (Option Sandbox)) {sbx : Sandbox} {t : Service}
    → create_unless env async req s found ≡ (done sbx, t)
    → (found ≡ done none) × (create_new env async req s ≡ (done sbx, t))
unfolding create_unless
create_unless-done env async req s (failed e) h = absurd (cc (ap (λ (r : Reply). r.0) h))
create_unless-done env async req s (done (some x)) h = absurd (cc (ap (λ (r : Reply). r.0) h))
create_unless-done env async req s (done none) h = (refl, h)

release_after-done :
    (req : CreateSandboxRequest) (r : Reply) {sbx : Sandbox} {t : Service}
    → release_after req r ≡ (done sbx, t)
    → (u : Service) × (r ≡ (done sbx, u)) × (t.store ≡ u.store)
unfolding release_after
release_after-done req (r, u) h =
    (u, ap (λ (p : Reply). (p.0, u)) h, sym (ap (λ (p : Reply). p.1.store) h))

after_save-done :
    (env : Env) (req : CreateSandboxRequest) (x : Sandbox) (s : Service)
    (p : Failure × List Sandbox) {sbx : Sandbox} {t : Service}
    → after_save env true req x s p ≡ (done sbx, t)
    → (p.0 ≡ none) × (sbx ≡ x) × (t.store ≡ p.1)
unfolding after_save
after_save-done env req x s (some e, store) h = absurd (cc (ap (λ (r : Reply). r.0) h))
after_save-done env req x s (none, store) {sbx} {t} h =
    let same : done x ≡ done sbx = ap (λ (r : Reply). r.0) h in
    (refl, cc, sym (ap (λ (r : Reply). r.1.store) h))

-- A write that succeeds.
pub try_save-none :
    (env : Env) (x : Sandbox) (store : List Sandbox)
    → (try_save env x store).0 ≡ none
    → (try_save env x store).1 ≡ save x store
unfolding try_save
try_save-none env x store h = ground arith

module _ (env : Env) (req : CreateSandboxRequest) (s t : Service) (sbx : Sandbox) where
  -- The guards that were passed, and what was written.
  pub record IsCreated : Type 0 where
    pub valid : validate req ≡ none
    pub fresh : load env req.id s.store ≡ done none
    pub admitted : enforce_admission env.host (list env s.store) req ≡ none
    pub capacity : ensure_ip_capacity env.host (list env s.store) req.id ≡ none
    pub new_state : sbx ≡ new_sandbox_state env.cfg env.now req
    pub saved : t.store ≡ save (new_sandbox_state env.cfg env.now req) s.store

  pub create_sandbox-IsCreated : create_sandbox env true req s ≡ (done sbx, t) → IsCreated
  unfolding create_sandbox create_new create_reserved
  create_sandbox-IsCreated h =
      let locked = stop_at-done (acquire_sandbox_lock env req.id) s _ h in
      let valid = stop_at-done (validate req) s _ locked.1 in
      let missing = create_unless-done env true req s (load env req.id s.store) valid.1 in
      let ports = stop_at-done (acquire_sandbox_lock env "_ports") s _ (missing.1) in
      let free =
        stop_at-done
          (ensure_host_ports_available env.bind req.id s.reserved_ports (list env s.store)
            req.ports)
          s _ ports.1 in
      let held = record s {
        reserved_ports = reserve_requested_ports req.id req.ports s.reserved_ports;
      } in
      let (u, released, same_store) =
        release_after-done req (create_reserved env true req held) free.1 in
      let locked2 = stop_at-done (acquire_sandbox_lock env "_admission") held _ released in
      let admitted =
        stop_at-done (enforce_admission env.host (list env s.store) req) held _ locked2.1 in
      let capacity =
        stop_at-done (ensure_ip_capacity env.host (list env s.store) req.id) held _ admitted.1 in
      let x = new_sandbox_state env.cfg env.now req in
      let wrote = after_save-done env req x held (try_save env x s.store) capacity.1 in
      record {
        valid = valid.0;
        fresh = missing.0;
        admitted = admitted.0;
        capacity = capacity.0;
        new_state = wrote.1;
        saved = same_store ∙ wrote.2 ∙ try_save-none env x s.store wrote.0;
      }

-- ===== src/Let/Lifecycle/Released.antt =====
-- A creation gives back the ports that it reserves, whether it succeeds or not.
use go_gvisor_containerd_let.Base.{
  ◌≡◌, refl, ap, subst, ◌∙◌, String, Bool, true, false, Option, none, some, List, [], ◌∷◌, arith,
  eq_iff, if◌then◌else◌, Bool-cases, inl, inr,
}
use go_gvisor_containerd_let.Orch.Tables.{exists}
use go_gvisor_containerd_let.Orch.Tables.Rows.{All}
use go_gvisor_containerd_let.Let.Types.{
  Failure, Outcome, done, failed, CreateSandboxRequest, PortMapping, Sandbox,
}
use go_gvisor_containerd_let.Let.Validate.{validate}
use go_gvisor_containerd_let.Let.Ports.{
  Reservations, owner_of, owned_by, key_of, reserve_requested_ports, release_requested_ports,
  ensure_host_ports_available,
}
use go_gvisor_containerd_let.Let.Ports.Exclusion.{
  asks_for, FreeFor, ensure-FreeFor, release_requested_ports-frees,
}
use go_gvisor_containerd_let.Let.Admission.{enforce_admission, ensure_ip_capacity}
use go_gvisor_containerd_let.Let.Sandboxes.{
  Env, Service, Reply, load, list, try_save, new_sandbox_state, stop_at, acquire_sandbox_lock,
}
use go_gvisor_containerd_let.Let.Provision.{
  Progress, abandon, finish_provision, saved_running, provision_steps, provision_sandbox_sync,
}
use go_gvisor_containerd_let.Let.Lifecycle.{
  create_sandbox, create_unless, create_new, release_after, create_reserved, after_save,
}

-- A reply whose reservations are those.
abbrev Holds : Reservations → Reply → Type 0
Holds rs r = r.1.reserved_ports ≡ rs

-- An early return keeps the state.
Holds-stop_at :
    (f : Failure) (s : Service) (rest : Reply)
    → Holds s.reserved_ports rest
    → Holds s.reserved_ports (stop_at f s rest)
Holds-stop_at none s rest h = h
Holds-stop_at (some e) s rest h = refl

finish_provision-Holds :
    (env : Env) (s : Service) (p : Progress) → Holds s.reserved_ports (finish_provision env s p)
unfolding finish_provision saved_running abandon
finish_provision-Holds env s (some e, sbx) = refl
finish_provision-Holds env s (none, sbx) = ground arith

after_save-Holds :
    (env : Env) (async : Bool) (req : CreateSandboxRequest) (x : Sandbox) (s : Service)
    (p : Failure × List Sandbox)
    → Holds s.reserved_ports (after_save env async req x s p)
unfolding after_save provision_sandbox_sync
after_save-Holds env async req x s (some e, store) = refl
after_save-Holds env true req x s (none, store) = refl
after_save-Holds env false req x s (none, store) =
    finish_provision-Holds env (record s { store = store }) (provision_steps env req x)

create_reserved-Holds :
    (env : Env) (async : Bool) (req : CreateSandboxRequest) (s : Service)
    → Holds s.reserved_ports (create_reserved env async req s)
unfolding create_reserved
create_reserved-Holds env async req s = Holds-stop_at (acquire_sandbox_lock env "_admission") s _ (
    Holds-stop_at (enforce_admission env.host (list env s.store) req) s _ (
      Holds-stop_at (ensure_ip_capacity env.host (list env s.store) req.id) s _ (
        let x = new_sandbox_state env.cfg env.now req in
        after_save-Holds env async req x s (try_save env x s.store))))

-- A key that the sandbox may take and does not hold is nobody's.
free_unowned :
    (id k : String) (rs : Reservations) (p : PortMapping)
    → owned_by id (owner_of k rs) ≡ false
    → FreeFor id (owner_of (key_of p) rs)
    → asks_for k p ≡ true
    → owner_of k rs ≡ none
free_unowned id k rs p own f e =
    go (owner_of k rs) own (subst (λ j. FreeFor id (owner_of j rs)) ((eq_iff (key_of p) k).0 e) f)
  where
    go : (o : Option String) → owned_by id o ≡ false → FreeFor id o → o ≡ none
    go none own f = refl
    go (some v) own f = cc (own, f)

requested_unowned :
    (id k : String) (rs : Reservations) (ps : List PortMapping)
    → owned_by id (owner_of k rs) ≡ false
    → All (λ p. FreeFor id (owner_of (key_of p) rs)) ps
    → (if exists (asks_for k) ps then none else owner_of k rs) ≡ owner_of k rs
unfolding exists
requested_unowned id k rs [] own f = refl
requested_unowned id k rs (p ∷ ps) own f = elim (Bool-cases (asks_for k p)) [
  | inl e ↦ rw (e, free_unowned id k rs p own f.0 e) refl
  | inr e ↦ rw e (requested_unowned id k rs ps own f.1)
]

-- The owner of `k` after a reply.
abbrev owner_after : String → Reply → Option String
owner_after k r = owner_of k r.1.reserved_ports

module _ (env : Env) (async : Bool) (req : CreateSandboxRequest) (s : Service) (k : String)
    (own : owned_by req.id (owner_of k s.reserved_ports) ≡ false) where
  owner-stop_at :
      (f : Failure) (rest : Reply)
      → (f ≡ none → owner_after k rest ≡ owner_of k s.reserved_ports)
      → owner_after k (stop_at f s rest) ≡ owner_of k s.reserved_ports
  owner-stop_at none rest h = h refl
  owner-stop_at (some e) rest h = refl

  released :
      (r : Reply)
      → Holds (reserve_requested_ports req.id req.ports s.reserved_ports) r
      → ensure_host_ports_available env.bind req.id s.reserved_ports (list env s.store) req.ports
        ≡ none
      → owner_after k (release_after req r) ≡ owner_of k s.reserved_ports
  unfolding release_after
  released r h free =
      ap (λ rs. owner_of k (release_requested_ports req.id req.ports rs)) h
      ∙ release_requested_ports-frees k req.id req.ports s.reserved_ports
      ∙ requested_unowned req.id k s.reserved_ports req.ports own
          (ensure-FreeFor env.bind req.id s.reserved_ports (list env s.store) req.ports free)

  create_new-owner : owner_after k (create_new env async req s) ≡ owner_of k s.reserved_ports
  unfolding create_new
  create_new-owner =
      let held = record s {
        reserved_ports = reserve_requested_ports req.id req.ports s.reserved_ports;
      } in
      let r = create_reserved env async req held in
      owner-stop_at (acquire_sandbox_lock env "_ports") _ (λ _.
        owner-stop_at
          (ensure_host_ports_available env.bind req.id s.reserved_ports (list env s.store)
            req.ports)
          (release_after req r) (released r (create_reserved-Holds env async req held)))

  create_unless-owner :
      (found : Outcome (Option Sandbox))
      → owner_after k (create_unless env async req s found) ≡ owner_of k s.reserved_ports
  unfolding create_unless
  create_unless-owner (failed e) = refl
  create_unless-owner (done (some x)) = refl
  create_unless-owner (done none) = create_new-owner

  -- Synchronous or not, and however it ends, a creation leaves the owner of a key as it was, where the
  -- sandbox that is created does not own the key before: it neither keeps a reservation of its own nor
  -- takes one from another sandbox.
  pub create_sandbox-releases :
      owner_of k (create_sandbox env async req s).1.reserved_ports ≡ owner_of k s.reserved_ports
  unfolding create_sandbox
  create_sandbox-releases =
      owner-stop_at (acquire_sandbox_lock env req.id) _
        (λ _. owner-stop_at (validate req) _ (λ _. create_unless-owner (load env req.id s.store)))

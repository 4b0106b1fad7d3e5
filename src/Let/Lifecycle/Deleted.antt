-- ===== src/Let/Lifecycle/Deleted.antt =====
-- A deletion is final.
use go_gvisor_containerd_let.Base.{
  ◌≡◌, refl, ap, subst, sym, String, false, Option, none, some, List, [], ◌∷◌, arith, str_eq,
  Bool-cases, inl, inr,
}
use go_gvisor_containerd_let.Orch.Tables.{find}
use go_gvisor_containerd_let.Orch.Tables.Rows.{All, find-exists, exists-delete_self}
use go_gvisor_containerd_let.Let.Types.{
  Failure, Outcome, done, failed, CreateSandboxRequest, Sandbox,
}
use go_gvisor_containerd_let.Let.Ports.{Reservations, release_reserved_ports}
use go_gvisor_containerd_let.Let.Health.{named, set_sandbox_phase}
use go_gvisor_containerd_let.Let.Sandboxes.{Env, Service, load, try_save}
use go_gvisor_containerd_let.Let.Lifecycle.{
  mark_sandbox_error, mark_loaded, provision_sandbox, provision_loaded, delete_loaded,
  delete_sandbox, delete_sandbox_from_state,
}
use go_gvisor_containerd_let.Let.Lifecycle.Settled.{find-named}

abbrev pub NotOwnedBy : String → String × String → Type 0
NotOwnedBy id r = str_eq r.1 id ≡ false

release-All : (id : String) (rs : Reservations) → All (NotOwnedBy id) (release_reserved_ports id rs)
unfolding release_reserved_ports
release-All id [] = tt
release-All id ((k, v) ∷ rs) = elim (Bool-cases (str_eq v id)) [
  | inl e ↦ rw e (release-All id rs)
  | inr e ↦ rw e (e, release-All id rs)
]

deleted :
    (env : Env) (id : String) (store : List Sandbox)
    → env.delete_failure id ≡ none
    → find (named id) (delete_sandbox_from_state env id store) ≡ none
unfolding delete_sandbox_from_state
deleted env id store h =
    rw (delete_sandbox_from_state, h)
      (find-exists (named id) _ (exists-delete_self (named id) store))

module _ (id : String) where
  -- The sandbox is gone, and holds no port.
  abbrev IsGone : Service → Type 0
  IsGone t = (find (named id) t.store ≡ none) × All (NotOwnedBy id) t.reserved_ports

  delete_loaded-IsGone :
      (env : Env) (s t : Service) (o : Outcome (Option Sandbox))
      → load env id s.store ≡ o
      → env.delete_failure id ≡ none
      → delete_loaded env id s o ≡ (none, t)
      → IsGone t
  unfolding delete_loaded load
  delete_loaded-IsGone env s t (failed m) e d h =
      absurd (cc (ap (λ (p : Failure × Service). p.0) h))
  delete_loaded-IsGone env s t (done none) e d h =
      subst IsGone (ap (λ (p : Failure × Service). p.1) h)
        (ground arith, release-All id s.reserved_ports)
  delete_loaded-IsGone env s t (done (some x)) e d h =
      let marked = (try_save env (set_sandbox_phase "deleting" "" env.now x) s.store).1 in
      let own : x.id ≡ id = find-named id s.store x (ground arith) in
      subst IsGone (ap (λ (p : Failure × Service). p.1) h) (
        subst (λ j. find (named id) (delete_sandbox_from_state env j marked) ≡ none) (sym own)
            (deleted env id marked d),
        release-All id s.reserved_ports,
      )

  provision-IsGone :
      (later : Env) (req : CreateSandboxRequest) (t : Service)
      → find (named id) t.store ≡ none
      → provision_sandbox later id req t ≡ t
  unfolding provision_sandbox provision_loaded mark_sandbox_error mark_loaded load
  provision-IsGone later req t e = ground arith

-- Where a deletion succeeds and the sandbox's directory can be removed, the store has no such sandbox
-- and no host port is reserved for it, and a background provisioning of the same sandbox that comes
-- later changes nothing, whatever its request and whatever the runtime answers: it does not bring the
-- sandbox back.
pub delete_sandbox-IsGone :
    (env later : Env) (id : String) (req : CreateSandboxRequest) (s t : Service)
    → delete_sandbox env id s ≡ (none, t)
    → env.delete_failure id ≡ none
    → (find (named id) t.store ≡ none)
      × All (NotOwnedBy id) t.reserved_ports
      × (provision_sandbox later id req t ≡ t)
unfolding delete_sandbox
delete_sandbox-IsGone env later id req s t h d =
    let gone = delete_loaded-IsGone id env s t (load env id s.store) refl d (ground arith) in
    (gone.0, gone.1, provision-IsGone id later req t gone.0)

-- ===== src/Let/Health/Rounds.antt =====
-- What a reconcile round of a node leaves alone.
use go_gvisor_containerd_let.Base.{
  if-elim, ◌≡◌, refl, ◌∙◌, ap, inl, inr, String, Bool, true, false, ◌&&◌, ◌||◌, not, List, [], ◌∷◌,
  arith, eq_iff, str_eq, Bool-cases,
}
use go_gvisor_containerd_let.Orch.Tables.{find, exists, delete, insert, update}
use go_gvisor_containerd_let.Orch.Tables.Rows.{All}
use go_gvisor_containerd_let.Let.Types.{Sandbox}
use go_gvisor_containerd_let.Let.Health.{
  Limits, Unhealthy, NodeAnswers, Agent, named, save, set_sandbox_phase, all_running, finalize_if,
  is_missing, is_young, clear_unhealthy, should_finalize_unhealthy, reconcile_sandbox,
  reconcile_all, reconcile_once,
}

module _ (id : String) where
  find-delete :
      (other : String) (all : List Sandbox)
      → str_eq other id ≡ false
      → find (named id) (delete (named other) all) ≡ find (named id) all
  unfolding find delete
  find-delete other [] e = refl
  find-delete other (s ∷ all) e =
      ground (arith, find-delete other all e, eq_iff s.id other, eq_iff s.id id, eq_iff other id)

  find-update :
      (s : Sandbox) (all : List Sandbox)
      → str_eq s.id id ≡ false
      → find (named id) (update (named s.id) (λ _. s) all) ≡ find (named id) all
  unfolding find update
  find-update s [] e = refl
  find-update s (x ∷ all) e =
      ground (arith, find-update s all e, eq_iff x.id s.id, eq_iff x.id id, eq_iff s.id id)

  find-insert :
      (s : Sandbox) (all : List Sandbox)
      → str_eq s.id id ≡ false
      → find (named id) (insert s all) ≡ find (named id) all
  unfolding find insert
  find-insert s [] e = ground arith
  find-insert s (x ∷ all) e = ground (arith, find-insert s all e)

  find-save :
      (s : Sandbox) (all : List Sandbox)
      → str_eq s.id id ≡ false
      → find (named id) (save s all) ≡ find (named id) all
  unfolding save
  find-save s all e = elim (Bool-cases (exists (named s.id) all)) [
    | inl h ↦ rw h (find-update s all e)
    | inr h ↦ rw h (find-insert s all e)
  ]

-- A sandbox that a round leaves alone: its lock is held, it is being deleted, it is still in its time
-- of provisioning, or it has its pod and all its containers run.
abbrev pub is_spared : NodeAnswers → Sandbox → Bool
is_spared env s =
    env.lock_held s.id
    || str_eq s.phase "deleting"
    || (str_eq s.phase "creating" && is_young env.now s)
    || (not (str_eq s.phase "creating") && not (is_missing env s) && all_running env s.containers)

module _ (lim : Limits) (env : NodeAnswers) (id : String) where
  finalize_if-other :
      (s : Sandbox) (r : Bool × Unhealthy) (a : Agent)
      → str_eq s.id id ≡ false
      → find (named id) (finalize_if s r a).store ≡ find (named id) a.store
  unfolding finalize_if
  finalize_if-other s (true, u) a e = find-delete id s.id a.store e
  finalize_if-other s (false, u) a e = refl

  -- The five ways through the body of the loop.
  step-cases :
      (P : Agent → Type 0) (s : Sandbox) (a : Agent)
      → P a
      → (str_eq s.phase "creating" ≡ true
          → P (record a {
            store = save (set_sandbox_phase "error" "provisioning timeout" env.now s) a.store;
          }))
      → ((is_missing env s || not (all_running env s.containers)) ≡ true
          → is_spared env s ≡ false
          → P (finalize_if s (should_finalize_unhealthy lim s.id env.now a.unhealthy) a))
      → P (record a { unhealthy = clear_unhealthy s.id a.unhealthy })
      → P (reconcile_sandbox lim env s a)
  unfolding reconcile_sandbox
  step-cases P s a same late gone healthy =
      if-elim P (env.lock_held s.id || str_eq s.phase "deleting") (λ e. same)
        (λ e.
          if-elim P (str_eq s.phase "creating" && is_young env.now s) (λ f. same)
            (λ f. if-elim P (str_eq s.phase "creating") late (λ g.
              if-elim P (is_missing env s || not (all_running env s.containers))
                (λ h. gone h (ground arith)) (λ h. healthy))))

  step-other :
      (s : Sandbox) (a : Agent)
      → str_eq s.id id ≡ false
      → find (named id) (reconcile_sandbox lim env s a).store ≡ find (named id) a.store
  unfolding set_sandbox_phase
  step-other s a e =
      step-cases (λ r. find (named id) r.store ≡ find (named id) a.store) s a refl
        (λ c. find-save id _ a.store e) (λ h k. finalize_if-other s _ a e) refl

  step-spared :
      (s : Sandbox) (a : Agent)
      → is_spared env s ≡ true
      → (reconcile_sandbox lim env s a).store ≡ a.store
  unfolding reconcile_sandbox
  step-spared s a e =
      if-elim P (env.lock_held s.id || str_eq s.phase "deleting") (λ l. refl)
        (λ l.
          if-elim P (str_eq s.phase "creating" && is_young env.now s) (λ f. refl)
            (λ f.
              if-elim P (str_eq s.phase "creating") (λ g. absurd_case (ground arith))
                (λ g.
                  if-elim P (is_missing env s || not (all_running env s.containers))
                    (λ h. absurd_case (ground arith)) (λ h. refl))))
    where
      P : Agent → Type 0
      P r = r.store ≡ a.store

      absurd_case : {A : Type 0} → true ≡ false → A
      absurd_case h = cc

  rounds-spared :
      (all : List Sandbox) (a : Agent)
      → All (λ s. named id s ≡ true → is_spared env s ≡ true) all
      → find (named id) (reconcile_all lim env all a).store ≡ find (named id) a.store
  unfolding reconcile_all
  rounds-spared [] a h = refl
  rounds-spared (s ∷ all) a h =
      rounds-spared all (reconcile_sandbox lim env s a) h.1 ∙ elim (Bool-cases (named id s)) [
        | inl e ↦ ap (find (named id)) (step-spared s a (h.0 e))
        | inr e ↦ step-other s a e
      ]

  -- A reconcile round of a node leaves the stored state of a sandbox as it was where the sandbox's
  -- lock is held, or it is being deleted, or it is in its first two minutes of creation, or it has
  -- its pod and all its containers run: whatever the round does to the other sandboxes.
  pub reconcile_once-spares :
      (a : Agent)
      → All (λ s. named id s ≡ true → is_spared env s ≡ true) a.store
      → find (named id) (reconcile_once lim env a).store ≡ find (named id) a.store
  unfolding reconcile_once
  reconcile_once-spares a h = rounds-spared a.store a h

-- ===== src/Let/Runtime/Phases.antt =====
-- When a refresh reports a sandbox as running.
use go_gvisor_containerd_let.Base.{
  ℕ, ◌≡◌, refl, ◌∙◌, sym, String, Bool, true, false, ◌&&◌, ◌||◌, not, List, [], ◌∷◌, arith, str_eq,
  eq_iff, is_empty, if◌then◌else◌, Bool-cases, inl, inr,
}
use go_gvisor_containerd_let.Let.Types.{Outcome, done, failed, ContainerState, Sandbox}
use go_gvisor_containerd_let.Let.Runtime.{
  CriState, CriDetails, Cri, with_state, by_state, fill_from, fill_container_runtime_state,
  refreshed, refresh_all, Findings, after_pod, after_container, after_containers, settled, is_nil,
  refresh_sandbox_runtime_state,
}

abbrev pub is_running_state : CriState → Bool
is_running_state CriState.running = true
is_running_state other = false

-- The runtime answers that the container runs.
abbrev pub says_running : Outcome CriDetails → Bool
says_running (failed e) = false
says_running (done d) = is_running_state d.state

abbrev pub every_running : Cri → List ContainerState → Bool
every_running cri [] = true
every_running cri (st ∷ sts) = says_running (cri.container_status st.id) && every_running cri sts

-- There is no pod, or the runtime knows it.
abbrev pub pod_stands : Cri → Sandbox → Bool
pod_stands cri sbx = is_empty sbx.pause_id || cri.pod_exists sbx.pause_id

abbrev is_running : ContainerState → Bool
is_running st = str_eq st.phase "running"

abbrev pub is_running_sandbox : Sandbox → Bool
is_running_sandbox sbx = str_eq sbx.phase "running"

by_state-phase :
    (s : CriState) (st : ContainerState) → is_running (by_state s st) ≡ is_running_state s
unfolding by_state
by_state-phase CriState.running st = refl
by_state-phase CriState.created st = refl
by_state-phase CriState.exited st = refl
by_state-phase CriState.unknown st = refl
by_state-phase CriState.unspecified st = refl

fill_from-phase :
    (st : ContainerState) (o : Outcome CriDetails) → is_running (fill_from st o) ≡ says_running o
unfolding fill_from
fill_from-phase st (failed e) = refl
fill_from-phase st (done d) = by_state-phase d.state (record st { task_pid = d.pid })

by_state-not_found :
    (s : CriState) (st : ContainerState)
    → str_eq (by_state s st).task_status "not_found" ≡ true
    → is_running_state s ≡ false
unfolding by_state
by_state-not_found CriState.running st h = cc
by_state-not_found CriState.created st h = refl
by_state-not_found CriState.exited st h = refl
by_state-not_found CriState.unknown st h = refl
by_state-not_found CriState.unspecified st h = refl

not_found-phase :
    (st : ContainerState) (o : Outcome CriDetails)
    → str_eq (fill_from st o).task_status "not_found" ≡ true
    → says_running o ≡ false
unfolding fill_from
not_found-phase st (failed e) h = refl
not_found-phase st (done d) h = by_state-not_found d.state (record st { task_pid = d.pid }) h

-- The exception for a container that is still to be created is no running container either.
excepted-phase :
    (creating not_found placeholder running : Bool) (next : ContainerState)
    → is_running next ≡ running
    → (not_found ≡ true → running ≡ false)
    → is_running (
        if creating && (not_found && placeholder)
        then with_state "creating" "creating" "" next
        else next)
      ≡ running
unfolding with_state
excepted-phase true true true r next e h = sym (h refl)
excepted-phase true true false r next e h = e
excepted-phase true false p r next e h = e
excepted-phase false n p r next e h = e

refreshed-phase :
    (cri : Cri) (sbx : Sandbox) (st : ContainerState)
    → is_running (refreshed cri sbx st) ≡ says_running (cri.container_status st.id)
unfolding refreshed fill_container_runtime_state
refreshed-phase cri sbx st =
    let o = cri.container_status st.id in
    excepted-phase _ _ _ (says_running o) (fill_from st o) (fill_from-phase st o)
      (not_found-phase st o)

-- An error excludes that all containers run.
abbrev IsConsistent : Findings → Type 0
IsConsistent f = (f.has_error && f.all_running) ≡ false

not_both : (p : String) → (str_eq p "error" && str_eq p "running") ≡ false
not_both p = elim (Bool-cases (str_eq p "error")) [
  | inl e ↦ rw ((eq_iff p "error").0 e) refl
  | inr e ↦ rw e refl
]

after_container-IsConsistent :
    (next : ContainerState) (f : Findings) → IsConsistent f → IsConsistent (after_container next f)
unfolding after_container
after_container-IsConsistent next f h = ground (arith, not_both next.phase)

module _ (cri : Cri) (sbx : Sandbox) where
  after_containers_lem :
      (sts : List ContainerState) (f : Findings)
      → IsConsistent f
      → IsConsistent (after_containers (refresh_all cri sbx sts) f)
        × ((after_containers (refresh_all cri sbx sts) f).all_running
            ≡ (f.all_running && every_running cri sts))
  unfolding after_containers refresh_all
  after_containers_lem [] f h = (h, ground arith)
  after_containers_lem (st ∷ sts) f h =
      let next = refreshed cri sbx st in
      let (kept, all) =
        after_containers_lem sts (after_container next f) (after_container-IsConsistent next f h) in
      (kept, all ∙ unfold after_container in ground (arith, refreshed-phase cri sbx st))

  after_pod_lem :
      IsConsistent (after_pod cri sbx) × ((after_pod cri sbx).all_running ≡ pod_stands cri sbx)
  unfolding after_pod
  after_pod_lem = (ground arith, ground arith)

switch-phase :
    (wrong all : Bool) (msg : String) (sbx : Sandbox)
    → (wrong && all) ≡ false
    → is_running_sandbox (
        if wrong
        then record sbx { phase = "error"; error = msg }
        else if all
        then record sbx { phase = "running"; error = "" }
        else record sbx { phase = "creating" })
      ≡ all
switch-phase true true msg sbx h = cc
switch-phase true false msg sbx h = refl
switch-phase false true msg sbx h = refl
switch-phase false false msg sbx h = refl

settled-phase :
    (f : Findings) (sbx : Sandbox)
    → IsConsistent f
    → str_eq sbx.phase "deleting" ≡ false
    → is_running_sandbox (settled f sbx) ≡ f.all_running
unfolding settled
settled-phase f sbx h d = rw d (switch-phase f.has_error f.all_running f.sandbox_err sbx h)

-- For a sandbox with containers that is not being deleted, and that has no recorded error, a refresh
-- reports the phase running exactly where the pod, if there is one, is known to the runtime and the
-- runtime reports every container as running.
pub refresh_sandbox_runtime_state-running :
    (cri : Cri) (now : ℕ) (sbx : Sandbox)
    → str_eq sbx.phase "deleting" ≡ false
    → (str_eq sbx.phase "error" && not (is_empty sbx.error)) ≡ false
    → is_nil sbx.containers ≡ false
    → is_running_sandbox (refresh_sandbox_runtime_state cri now sbx)
      ≡ (pod_stands cri sbx && every_running cri sbx.containers)
unfolding refresh_sandbox_runtime_state
refresh_sandbox_runtime_state-running cri now sbx d e n =
    let (start, pod) = after_pod_lem cri sbx in
    let (kept, all) = after_containers_lem cri sbx sbx.containers (after_pod cri sbx) start in
    let next = refresh_all cri sbx sbx.containers in
    let ended =
      settled-phase (after_containers next (after_pod cri sbx)) (record sbx { containers = next })
        kept d in
    rw (e, n) (ended ∙ all ∙ rw pod refl)

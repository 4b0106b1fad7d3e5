-- ===== src/Orch/Service/Sync/Merge.antt =====
-- mergeSandboxPhaseWithNodeState of sandboxd-orch/service/sandbox_ops.go: what it may change, and that
-- its flag is true to it.
use go_gvisor_containerd_let.Base.{
  ◌≡◌, ◌≢◌, refl, ap, ◌⊎◌, inl, inr, String, Bool, true, false, List, [], ◌∷◌, str_eq, to_lower,
  trim_space, if◌then◌else◌, Bool-cases,
}
use text.Mathlib.TextPositions.{eq_refl}
use go_gvisor_containerd_let.Orch.Types.{
  SandboxPhase, pending, failed, running, scheduled, deleting, SandboxStatus, SandboxSyncStatus,
  ContainerSyncStatus, is_running,
}
use go_gvisor_containerd_let.Orch.Service.Sync.{
  is_phase, set_phase, set_last_error, merge_phase, merge_unhealthy, error_message,
  unhealthy_message, merge_sandbox_phase_with_node_state,
}

-- The flag tells whether the status differs.
abbrev pub IsExact : SandboxStatus → SandboxStatus × Bool → Type 0
IsExact cur r = (r.1 ≡ false → r.0 ≡ cur) × (r.1 ≡ true → r.0 ≢ cur)

is_phase_refl : (p : SandboxPhase) → is_phase p p ≡ true
unfolding is_phase
is_phase_refl pending = refl
is_phase_refl scheduled = refl
is_phase_refl running = refl
is_phase_refl failed = refl
is_phase_refl deleting = refl

differs_in_phase :
    (p : SandboxPhase) (cur st : SandboxStatus)
    → is_phase p cur.phase ≡ false
    → st.phase ≡ p
    → st ≢ cur
differs_in_phase p cur st h e same = cc (h, e, is_phase_refl p, ap (λ s. s.phase) same)

differs_in_error :
    (msg : String) (cur st : SandboxStatus)
    → str_eq cur.last_error msg ≡ false
    → st.last_error ≡ msg
    → st ≢ cur
differs_in_error msg cur st h e same = cc (h, e, eq_refl msg, ap (λ s. s.last_error) same)

-- To set the phase and then the error.
abbrev pub set_both : SandboxPhase → String → SandboxStatus → SandboxStatus × Bool
set_both p msg cur = set_last_error msg (set_phase p (cur, false))

abbrev pub Settles : (SandboxStatus → SandboxStatus × Bool) → SandboxStatus → Type 0
Settles f cur = f (f cur).0 ≡ ((f cur).0, false)

set_both-Settles :
    (p : SandboxPhase) (msg : String) (cur : SandboxStatus) → Settles (set_both p msg) cur
unfolding set_phase set_last_error
set_both-Settles p msg cur = elim (Bool-cases (is_phase p cur.phase)) [
  | inl h ↦ elim (Bool-cases (str_eq cur.last_error msg)) [
    | inl g ↦ rw h (rw g (rw h (rw g refl)))
    | inr g ↦ rw h (rw g (rw h (rw (eq_refl msg) refl)))
  ]
  | inr h ↦ elim (Bool-cases (str_eq cur.last_error msg)) [
    | inl g ↦ rw h (rw g (rw (is_phase_refl p) (rw g refl)))
    | inr g ↦ rw h (rw g (rw (is_phase_refl p) (rw (eq_refl msg) refl)))
  ]
]

set_both-IsExact :
    (p : SandboxPhase) (msg : String) (cur : SandboxStatus) → IsExact cur (set_both p msg cur)
unfolding set_phase set_last_error
set_both-IsExact p msg cur = elim (Bool-cases (is_phase p cur.phase)) [
  | inl h ↦ elim (Bool-cases (str_eq cur.last_error msg)) [
    | inl g ↦ rw h (rw g (λ _. refl, λ e. cc))
    | inr g ↦ rw h (rw g (λ e. cc, λ _. differs_in_error msg cur _ g refl))
  ]
  | inr h ↦ elim (Bool-cases (str_eq cur.last_error msg)) [
    | inl g ↦ rw h (rw g (λ e. cc, λ _. differs_in_phase p cur _ h refl))
    | inr g ↦ rw h (rw g (λ e. cc, λ _. differs_in_phase p cur _ h refl))
  ]
]

-- The branch for a sandbox that is being created, and the one for any other phase.
abbrev pub creating : SandboxStatus → SandboxStatus × Bool
creating cur = if is_running cur.phase then set_phase scheduled (cur, false) else (cur, false)

abbrev pub idle : SandboxStatus → SandboxStatus × Bool
idle cur = (cur, false)

module _ (P : (SandboxStatus → SandboxStatus × Bool) → Type 0) where
  if-elim :
      (b : Bool) (f g : SandboxStatus → SandboxStatus × Bool)
      → P f
      → P g
      → P (λ cur. if b then f cur else g cur)
  if-elim true f g pf pg = pf
  if-elim false f g pf pg = pg

  module _ (fails : (msg : String) → P (set_both failed msg)) (runs : P (set_both running ""))
      (creates : P creating) (idles : P idle) where
    merge_unhealthy-elim :
        (phase : String) (cs : List ContainerSyncStatus) → P (λ cur. merge_unhealthy cur phase cs)
    unfolding merge_unhealthy merge_phase
    merge_unhealthy-elim phase [] =
        if-elim (str_eq phase "running") (set_both running "") _ runs
          (if-elim (str_eq phase "creating") creating idle creates idles)
    merge_unhealthy-elim phase (c ∷ cs) = fails (unhealthy_message c)

    -- The report alone decides which of four updates a merge is.
    pub merge-elim :
        (st : SandboxSyncStatus) → P (λ cur. merge_sandbox_phase_with_node_state cur st)
    unfolding merge_sandbox_phase_with_node_state
    merge-elim st =
        if-elim (str_eq (to_lower (trim_space st.phase)) "error")
          (set_both failed (error_message st)) _ (fails (error_message st))
          (merge_unhealthy-elim (to_lower (trim_space st.phase)) st.unhealthy_containers)

running-phase : (p : SandboxPhase) → is_running p ≡ true → is_phase scheduled p ≡ false
unfolding is_phase
running-phase running h = refl
running-phase pending h = refl
running-phase scheduled h = cc
running-phase failed h = refl
running-phase deleting h = refl

creating-Settles : (cur : SandboxStatus) → Settles creating cur
unfolding set_phase
creating-Settles cur = elim (Bool-cases (is_running cur.phase)) [
  | inl h ↦ rw h (rw (running-phase cur.phase h) refl)
  | inr h ↦ rw h (rw h refl)
]

creating-IsExact : (cur : SandboxStatus) → IsExact cur (creating cur)
unfolding set_phase
creating-IsExact cur = elim (Bool-cases (is_running cur.phase)) [
  | inl h ↦ rw h (
      rw (running-phase cur.phase h)
        (λ e. cc, λ _. differs_in_phase scheduled cur _ (running-phase cur.phase h) refl))
  | inr h ↦ rw h (λ _. refl, λ e. cc)
]

-- A merge's flag is set exactly where the new status differs from the old one.
pub merge_sandbox_phase_with_node_state-IsExact :
    (cur : SandboxStatus) (st : SandboxSyncStatus)
    → IsExact cur (merge_sandbox_phase_with_node_state cur st)
merge_sandbox_phase_with_node_state-IsExact cur st =
    merge-elim (λ f. (cur : SandboxStatus) → IsExact cur (f cur))
      (λ msg cur. set_both-IsExact failed msg cur) (set_both-IsExact running "") creating-IsExact
      (λ cur. (λ _. refl, λ e. cc)) st cur

-- To merge the same report a second time changes nothing and says so.
pub merge_sandbox_phase_with_node_state-Settles :
    (cur : SandboxStatus) (st : SandboxSyncStatus)
    → Settles (λ s. merge_sandbox_phase_with_node_state s st) cur
merge_sandbox_phase_with_node_state-Settles cur st =
    merge-elim (λ f. (cur : SandboxStatus) → Settles f cur)
      (λ msg cur. set_both-Settles failed msg cur) (set_both-Settles running "") creating-Settles
      (λ cur. refl) st cur

-- What a merge may do: it keeps the node, the addresses, the ports and the expiry, and the phase becomes
-- failed or running, or falls back from running to scheduled.
abbrev pub IsMerge : SandboxStatus → SandboxStatus → Type 0
IsMerge cur st =
    (record cur { phase = st.phase; last_error = st.last_error } ≡ st)
    × ((st.phase ≡ cur.phase)
        ⊎ (st.phase ≡ failed)
        ⊎ (st.phase ≡ running)
        ⊎ (cur.phase ≡ running) × (st.phase ≡ scheduled))

set_both-IsMerge :
    (p : SandboxPhase) (msg : String) (cur : SandboxStatus)
    → (p ≡ failed) ⊎ (p ≡ running)
    → IsMerge cur (set_both p msg cur).0
unfolding set_phase set_last_error
set_both-IsMerge p msg cur k = elim (Bool-cases (is_phase p cur.phase)) [
  | inl h ↦ elim (Bool-cases (str_eq cur.last_error msg)) [
    | inl g ↦ rw h (rw g (refl, inl refl))
    | inr g ↦ rw h (rw g (refl, inl refl))
  ]
  | inr h ↦ elim (Bool-cases (str_eq cur.last_error msg)) [
    | inl g ↦ rw h (rw g (refl, target k))
    | inr g ↦ rw h (rw g (refl, target k))
  ]
]
  where
    target :
        (p ≡ failed) ⊎ (p ≡ running)
        → (p ≡ cur.phase) ⊎ (p ≡ failed) ⊎ (p ≡ running) ⊎ (cur.phase ≡ running) × (p ≡ scheduled)
    target (inl e) = inr (inl e)
    target (inr e) = inr (inr (inl e))

creating-IsMerge : (cur : SandboxStatus) → IsMerge cur (creating cur).0
unfolding set_phase
creating-IsMerge cur = elim (Bool-cases (is_running cur.phase)) [
  | inl h ↦
      rw h (rw (running-phase cur.phase h) (refl, inr (inr (inr (running-eq cur.phase h, refl)))))
  | inr h ↦ rw h (refl, inl refl)
]
  where
    running-eq : (p : SandboxPhase) → is_running p ≡ true → p ≡ running
    running-eq running h = refl
    running-eq pending h = cc
    running-eq scheduled h = cc
    running-eq failed h = cc
    running-eq deleting h = cc

-- A merge changes only the phase and the last error, and the phase only to failed, to running, or from
-- running back to scheduled: never to pending or deleting.
pub merge_sandbox_phase_with_node_state-IsMerge :
    (cur : SandboxStatus) (st : SandboxSyncStatus)
    → IsMerge cur (merge_sandbox_phase_with_node_state cur st).0
merge_sandbox_phase_with_node_state-IsMerge cur st =
    merge-elim (λ f. (cur : SandboxStatus) → IsMerge cur (f cur).0)
      (λ msg cur. set_both-IsMerge failed msg cur (inl refl))
      (λ cur. set_both-IsMerge running "" cur (inr refl)) creating-IsMerge (λ cur. (refl, inl refl))
      st cur

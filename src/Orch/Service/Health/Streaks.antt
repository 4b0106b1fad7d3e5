-- ===== src/Orch/Service/Health/Streaks.antt =====
-- The streaks of probeNode (sandboxd-orch/service/node_ops.go): what a run of probes does to a node.
use go_gvisor_containerd_let.Base.{
  ℕ, suc, ◌+◌, ◌≤◌, ◌≡◌, refl, ◌⊎◌, inl, inr, Bool, true, false, List, [], ◌∷◌, arith, length, map,
  leb, not, ◌&&◌, if◌then◌else◌,
}
use go_gvisor_containerd_let.Orch.Types.{
  NodeState, unset, unknown, ready, not_ready, is_ready, Node,
}
use go_gvisor_containerd_let.Orch.World.{Error, Result, ok, err, Config}
use go_gvisor_containerd_let.Orch.Service.Health.{
  or_unknown, cap_streak, probe_success, probe_failure, probe_next,
}

-- A run of probes: when each ended, and how.
unfoldable pub probe_run : Config → List (ℕ × Result (Unit {0})) → Node → Node
probe_run cfg [] n = n
probe_run cfg ((now, r) ∷ probes) n = probe_run cfg probes (probe_next cfg now r n)

abbrev pub succeeded : ℕ → ℕ × Result (Unit {0})
succeeded now = (now, ok tt)

-- The two streaks of a node that has been probed: one of them is 0, and successes are counted up to
-- their threshold.
abbrev pub InStreaks : Config → Node → Type 0
InStreaks cfg n =
    ((n.success_streak ≡ 0) ⊎ (n.failure_streak ≡ 0))
    × (n.success_streak ≤ cfg.ready_success_threshold)

cap_streak-bound : (limit n : ℕ) → cap_streak limit n ≤ limit
cap_streak-bound limit n = ground arith

probe_next-InStreaks :
    (cfg : Config) (now : ℕ) (r : Result (Unit {0})) (n : Node)
    → InStreaks cfg (probe_next cfg now r n)
unfolding probe_next probe_success probe_failure
probe_next-InStreaks cfg now (ok a) n = (inr refl, cap_streak-bound _ _)
probe_next-InStreaks cfg now (err e) n = (inl refl, omega arith)

-- Any run of probes keeps the streaks in order.
pub probe_run-InStreaks :
    (cfg : Config) (probes : List (ℕ × Result (Unit {0}))) (n : Node)
    → InStreaks cfg n
    → InStreaks cfg (probe_run cfg probes n)
unfolding probe_run
probe_run-InStreaks cfg [] n h = h
probe_run-InStreaks cfg ((now, r) ∷ probes) n h =
    probe_run-InStreaks cfg probes (probe_next cfg now r n) (probe_next-InStreaks cfg now r n)

abbrev pub Turned : Config → Node → Node → Type 0
Turned cfg n n' =
    (n'.state ≡ n.state)
    ⊎ (n.state ≡ unset) × (n'.state ≡ unknown)
    ⊎ (n'.state ≡ ready)
      × (cfg.ready_success_threshold ≤ n'.success_streak)
      × (n'.failure_streak ≡ 0)
    ⊎ (n'.state ≡ not_ready)
      × (cfg.not_ready_failure_threshold ≤ n'.failure_streak)
      × (n'.success_streak ≡ 0)

abbrev pub after_success : Bool → NodeState → NodeState
after_success reached s = or_unknown (if not (is_ready s) && reached then ready else s)

after_success-ready :
    (reached : Bool) (s : NodeState) → reached ≡ true → after_success reached s ≡ ready
after_success-ready reached unset h = rw h refl
after_success-ready reached unknown h = rw h refl
after_success-ready reached ready h = refl
after_success-ready reached not_ready h = rw h refl

after_success-cases :
    (reached : Bool) (s : NodeState)
    → (after_success reached s ≡ s)
      ⊎ (s ≡ unset) × (after_success reached s ≡ unknown)
      ⊎ (after_success reached s ≡ ready) × (reached ≡ true)
after_success-cases true unset = inr (inr (refl, refl))
after_success-cases true unknown = inr (inr (refl, refl))
after_success-cases true ready = inl refl
after_success-cases true not_ready = inr (inr (refl, refl))
after_success-cases false unset = inr (inl (refl, refl))
after_success-cases false unknown = inl refl
after_success-cases false ready = inl refl
after_success-cases false not_ready = inl refl

abbrev pub after_failure : Bool → NodeState → NodeState
after_failure reached s = or_unknown (if reached then not_ready else s)

after_failure-cases :
    (reached : Bool) (s : NodeState)
    → (after_failure reached s ≡ s)
      ⊎ (s ≡ unset) × (after_failure reached s ≡ unknown)
      ⊎ (after_failure reached s ≡ not_ready) × (reached ≡ true)
after_failure-cases true s = inr (inr (refl, refl))
after_failure-cases false unset = inr (inl (refl, refl))
after_failure-cases false unknown = inl refl
after_failure-cases false ready = inl refl
after_failure-cases false not_ready = inl refl

leb→≤ : (a b : ℕ) → leb a b ≡ true → a ≤ b
leb→≤ a b h = ground arith

≤→leb : (a b : ℕ) → a ≤ b → leb a b ≡ true
≤→leb a b h = ground arith

-- One probe, from any node, changes the state only if it must: an unset state becomes unknown; it becomes
-- ready only with the success threshold reached and no failure since, not ready only with the failure
-- threshold reached and no success since.
pub probe_next-Turned :
    (cfg : Config) (now : ℕ) (r : Result (Unit {0})) (n : Node)
    → Turned cfg n (probe_next cfg now r n)
unfolding probe_next probe_success probe_failure
probe_next-Turned cfg now (ok a) n =
    elim (after_success-cases
      (leb cfg.ready_success_threshold
        (cap_streak cfg.ready_success_threshold (n.success_streak + 1)))
      n.state) [
        | inl h ↦ inl h
        | inr (inl h) ↦ inr (inl h)
        | inr (inr h) ↦ inr (inr (inl (h.0, leb→≤ _ _ h.1, refl)))
      ]
probe_next-Turned cfg now (err e) n =
    elim (after_failure-cases (leb cfg.not_ready_failure_threshold (n.failure_streak + 1))
      n.state) [
        | inl h ↦ inl h
        | inr (inl h) ↦ inr (inl h)
        | inr (inr h) ↦ inr (inr (inr (h.0, leb→≤ _ _ h.1, refl)))
      ]

cap_streak-reaches : (limit s k : ℕ) → limit ≤ s + suc k → limit ≤ cap_streak limit (s + 1) + k
cap_streak-reaches limit s k h = ground arith

cap_streak-full : (limit s : ℕ) → limit ≤ s + 1 → limit ≤ cap_streak limit (s + 1)
cap_streak-full limit s h = ground arith

-- Whatever the node's state, at least one success in a row, and enough to fill the success streak up to
-- the threshold, make the node ready.
pub probe_run-ready :
    (cfg : Config) (now : ℕ) (times : List ℕ) (n : Node)
    → cfg.ready_success_threshold ≤ n.success_streak + length (now ∷ times)
    → (probe_run cfg (map succeeded (now ∷ times)) n).state ≡ ready
unfolding probe_run probe_next probe_success
probe_run-ready cfg now [] n h =
    after_success-ready _ n.state
      (≤→leb _ _ (cap_streak-full cfg.ready_success_threshold n.success_streak h))
probe_run-ready cfg now (t ∷ times) n h =
    probe_run-ready cfg t times (probe_next cfg now (ok tt) n)
      (cap_streak-reaches cfg.ready_success_threshold n.success_streak (length (t ∷ times)) h)

abbrev pub failed_with : ℕ × Error → ℕ × Result (Unit {0})
failed_with (now, e) = (now, err e)

-- Whatever the node's state, at least one failure in a row, and enough to fill the failure streak up to
-- the threshold, make the node not ready.
pub probe_run-not_ready :
    (cfg : Config) (f : ℕ × Error) (failures : List (ℕ × Error)) (n : Node)
    → cfg.not_ready_failure_threshold ≤ n.failure_streak + length (f ∷ failures)
    → (probe_run cfg (map failed_with (f ∷ failures)) n).state ≡ not_ready
unfolding probe_run probe_next probe_failure
probe_run-not_ready cfg f [] n h =
    rw (≤→leb cfg.not_ready_failure_threshold (n.failure_streak + 1) h) refl
probe_run-not_ready cfg f (g ∷ failures) n h =
    probe_run-not_ready cfg g failures (probe_next cfg f.0 (err f.1) n) (omega arith)

-- ===== src/Let/Health.antt =====
-- The reconcile loop of a node (sandboxd-let/sandbox/reconcile.go and state.go): ReconcileOnce and the
-- record of unhealthy sandboxes. The locks, the container runtime and the clock are the
-- environment; the cleanup of firewall rules and runtime objects is not part of the state. Times
-- and durations are nanoseconds.
pub mod Grace
pub mod Rounds
use go_gvisor_containerd_let.Base.{
  ℕ, suc, ◌+◌, ℤ, pos, sub_ℕ, leb_ℤ, ltb_ℤ, String, Bool, true, false, ◌&&◌, ◌||◌, not, Option,
  none, some, List, [], ◌∷◌, str_eq, is_empty, if◌then◌else◌,
}
use go_gvisor_containerd_let.Orch.Tables.{delete, insert, exists, update}
use go_gvisor_containerd_let.Let.Types.{Sandbox, ContainerState}

-- A Go map from sandbox ids.
abbrev pub IdMap : Type 0
IdMap = List (String × ℕ)

unfoldable pub lookup : String → IdMap → Option ℕ
lookup k [] = none
lookup k ((j, v) ∷ m) = if str_eq j k then some v else lookup k m

unfoldable pub assign : String → ℕ → IdMap → IdMap
assign k v [] = (k, v) ∷ []
assign k v ((j, u) ∷ m) = if str_eq j k then (k, v) ∷ m else (j, u) ∷ assign k v m

unfoldable pub forget : String → IdMap → IdMap
forget k [] = []
forget k ((j, v) ∷ m) = let rest = forget k m in if str_eq j k then rest else (j, v) ∷ rest

-- `unhealthySince` and `unhealthyHits`.
pub record Unhealthy : Type 0 where
  pub since : IdMap
  pub hits : IdMap

-- cfg.ReconcileGrace and cfg.ReconcileHits.
pub record Limits : Type 0 where
  pub grace : ℤ
  pub hits : ℤ

abbrev pub or_zero : Option ℕ → ℕ
or_zero none = 0
or_zero (some n) = n

hit_again : Limits → String → ℕ → Option ℕ → Unhealthy → Bool × Unhealthy
hit_again lim id now none u =
    (false, record { since = assign id now u.since; hits = assign id 1 u.hits })
hit_again lim id now (some first) u =
    let n = suc (or_zero (lookup id u.hits)) in
    let u' = record u { hits = assign id n u.hits } in
    (if ltb_ℤ (sub_ℕ now first) lim.grace then false else leb_ℤ lim.hits (pos n), u')

-- The answer, and the record after it.
unfoldable pub should_finalize_unhealthy : Limits → String → ℕ → Unhealthy → Bool × Unhealthy
unfolding hit_again
should_finalize_unhealthy lim id now u = hit_again lim id now (lookup id u.since) u

unfoldable pub clear_unhealthy : String → Unhealthy → Unhealthy
clear_unhealthy id u = record { since = forget id u.since; hits = forget id u.hits }

-- setSandboxPhase.
unfoldable pub set_sandbox_phase : String → String → ℕ → Sandbox → Sandbox
set_sandbox_phase phase msg now sbx = record sbx {
  phase = phase;
  error = if not (is_empty msg) then msg else if not (str_eq phase "error") then "" else sbx.error;
  updated_at = now;
}

-- The store's files, by sandbox, and the record.
pub record Agent : Type 0 where
  pub store : List Sandbox
  pub unhealthy : Unhealthy

abbrev pub named : String → Sandbox → Bool
named id s = str_eq s.id id

-- store.Save replaces the file of the sandbox, or adds one.
unfoldable pub save : Sandbox → List Sandbox → List Sandbox
save s all = if exists (named s.id) all then update (named s.id) (λ _. s) all else insert s all

-- What the runtime and the locks answer during a round, and the time.
pub record NodeAnswers : Type 0 where
  pub now : ℕ
  pub lock_held : String → Bool
  pub pod_exists : String → Bool
  pub running : String → Bool

unfoldable pub all_running : NodeAnswers → List ContainerState → Bool
all_running env [] = true
all_running env (c ∷ cs) = env.running c.id && all_running env cs

-- `_ = deleteSandboxFromState` and clearUnhealthy, where the sandbox is finalized.
unfoldable pub finalize_if : Sandbox → Bool × Unhealthy → Agent → Agent
finalize_if sbx (given_up, u) a =
    if given_up
    then record { store = delete (named sbx.id) a.store; unhealthy = clear_unhealthy sbx.id u }
    else record a { unhealthy = u }

unfoldable pub is_missing : NodeAnswers → Sandbox → Bool
is_missing env sbx = is_empty sbx.pause_id || not (env.pod_exists sbx.pause_id)

-- Two minutes.
abbrev provisioning_window : ℤ
provisioning_window = pos 120_000_000_000

unfoldable pub is_young : ℕ → Sandbox → Bool
is_young now sbx = ltb_ℤ (sub_ℕ now sbx.created_at) provisioning_window

-- The body of the loop of ReconcileOnce.
unfoldable pub reconcile_sandbox : Limits → NodeAnswers → Sandbox → Agent → Agent
unfolding is_young is_missing
reconcile_sandbox lim env sbx a =
    if env.lock_held sbx.id || str_eq sbx.phase "deleting"
    then a
    else if str_eq sbx.phase "creating" && is_young env.now sbx
    then a
    else if str_eq sbx.phase "creating"
    then record a {
      store = save (set_sandbox_phase "error" "provisioning timeout" env.now sbx) a.store;
    }
    else if is_missing env sbx || not (all_running env sbx.containers)
    then finalize_if sbx (should_finalize_unhealthy lim sbx.id env.now a.unhealthy) a
    else record a { unhealthy = clear_unhealthy sbx.id a.unhealthy }

unfoldable pub reconcile_all : Limits → NodeAnswers → List Sandbox → Agent → Agent
reconcile_all lim env [] a = a
reconcile_all lim env (sbx ∷ rest) a = reconcile_all lim env rest (reconcile_sandbox lim env sbx a)

-- ReconcileOnce, which lists the store first.
unfoldable pub reconcile_once : Limits → NodeAnswers → Agent → Agent
unfolding reconcile_all
reconcile_once lim env a = reconcile_all lim env a.store a

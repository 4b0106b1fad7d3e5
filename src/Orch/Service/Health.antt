-- ===== src/Orch/Service/Health.antt =====
-- probeNode and syncNodeResources of sandboxd-orch/service/node_ops.go. The streaks are Go ints; a
-- run of 2 ^ 63 failed probes, which would wrap the counter, is out of reach and left out.
pub mod Streaks
use go_gvisor_containerd_let.Base.{
  ℕ, suc, ◌+◌, String, Bool, true, false, ◌&&◌, not, Option, none, some, leb, ltb, is_empty,
  trim_space, if◌then◌else◌,
}
use go_gvisor_containerd_let.Orch.Types.{
  NodeState, unset, unknown, ready, not_ready, is_ready, NodeResources, Node,
}
use go_gvisor_containerd_let.Orch.Cache
use go_gvisor_containerd_let.Orch.World.{
  Error, Result, ok, err, Config, World, M, pure, gets, ◌>>=◌, ◌>>◌, attempt, ignore, read_clock,
  modify_cache, error_text,
}
use go_gvisor_containerd_let.Orch.Repo.Nodes.{update_heartbeat, update_node_resources}
use go_gvisor_containerd_let.Orch.Service.Clients.{healthz, node_status}

abbrev pub or_unknown : NodeState → NodeState
or_unknown unset = unknown
or_unknown s = s

abbrev pub cap_streak : ℕ → ℕ → ℕ
cap_streak limit n = if ltb limit n then limit else n

-- The node after a probe that succeeded.
unfoldable pub probe_success : Config → ℕ → Node → Node
probe_success cfg now n =
    let streak = cap_streak cfg.ready_success_threshold (n.success_streak + 1) in
    record n {
      last_heartbeat = some now;
      success_streak = streak;
      failure_streak = 0;
      last_error = "";
      state = or_unknown (
          if not (is_ready n.state) && leb cfg.ready_success_threshold streak
          then ready
          else n.state);
    }

-- The node after a probe that failed.
unfoldable pub probe_failure : Config → ℕ → Error → Node → Node
probe_failure cfg now e n = record n {
  last_heartbeat = some now;
  success_streak = 0;
  failure_streak = n.failure_streak + 1;
  last_error = error_text e;
  state =
      or_unknown
        (if leb cfg.not_ready_failure_threshold (n.failure_streak + 1) then not_ready else n.state);
}

unfoldable pub probe_next : Config → ℕ → Result (Unit {0}) → Node → Node
unfolding probe_success probe_failure
probe_next cfg now (ok a) n = probe_success cfg now n
probe_next cfg now (err e) n = probe_failure cfg now e n

unfoldable pub probe_node : Node → M (Unit {0})
probe_node n = do
  r ← attempt (healthz n.sbxlet_base_url)
  now ← read_clock
  cfg ← gets (λ w. w.cfg)
  let next = probe_next cfg now r n
  ignore (
      update_heartbeat n.id next.state next.success_streak next.failure_streak next.last_error
        next.last_heartbeat)

-- "(none)" stands for an empty external address.
unfoldable pub or_none : String → String
or_none s = if is_empty s then "(none)" else s

unfoldable pub persist_resources : Node → NodeResources → ℕ → M (Unit {0})
persist_resources n res now = do
  update_node_resources n.id res
  modify_cache (Cache.mark_persisted n.id res now)

unfoldable pub store_resources : Node → NodeResources → M (Unit {0})
unfolding persist_resources
store_resources n res = do
  modify_cache (Cache.put_current n.id res)
  now ← read_clock
  persist ← gets (λ w.
      Cache.should_persist n.id now w.cfg.resource_persist_min_int w.cfg.resource_persist_max_int
        w.cache)
  if persist then ignore (persist_resources n res now) else pure tt

unfoldable pub sync_answer : Node → Result NodeResources → M (Unit {0})
unfolding store_resources or_none
sync_answer n (err e) = pure tt
sync_answer n (ok res) =
    store_resources n (record res { external = or_none (trim_space n.resources.external) })

unfoldable pub sync_node_resources : Node → M (Unit {0})
unfolding sync_answer
sync_node_resources n = do r ← attempt (node_status n.sbxlet_base_url); sync_answer n r

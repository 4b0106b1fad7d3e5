-- ===== src/Orch/Settings/Usable.antt =====
-- What Load promises of the numbers that it returns.
use go_gvisor_containerd_let.Base.{ℤ, pos, ◌≡◌, true, arith, ◌≤ℤ◌, ltb_ℤ, ◌↔◌, if◌then◌else◌}
use go_gvisor_containerd_let.Orch.Settings.{
  Settings, or_if_below_one, or_if_not_positive, default_port_max, normalize,
}

-- Thresholds, sizes and intervals are positive, and so is the lowest host port.
pub record IsUsable (c : Settings) : Type 0 where
  pub ready : pos 1 ≤ℤ c.ready_success_threshold
  pub not_ready : pos 1 ≤ℤ c.not_ready_failure_threshold
  pub probes : pos 1 ≤ℤ c.heartbeat_max_parallel
  pub resource_sync : pos 1 ≤ℤ c.resource_sync_interval
  pub persist_min : pos 1 ≤ℤ c.resource_persist_min_int
  pub persist_max : pos 1 ≤ℤ c.resource_persist_max_int
  pub scheduler : pos 1 ≤ℤ c.scheduler_interval
  pub reconcile : pos 1 ≤ℤ c.reconcile_interval
  pub status_sync : pos 1 ≤ℤ c.status_sync_interval
  pub sync_timeout : pos 1 ≤ℤ c.status_sync_timeout
  pub batch_size : pos 1 ≤ℤ c.status_sync_batch_size
  pub sync_parallel : pos 1 ≤ℤ c.status_sync_max_parallel
  pub op_timeout : pos 1 ≤ℤ c.sandbox_op_timeout
  pub lowest_port : pos 1 ≤ℤ c.host_port_min
  pub burst : pos 1 ≤ℤ c.create_burst

below_one-positive : (x : ℤ) (def : ℤ) → pos 1 ≤ℤ def → pos 1 ≤ℤ or_if_below_one x def
below_one-positive x def h = ground arith

not_positive-positive : (x : ℤ) (def : ℤ) → pos 1 ≤ℤ def → pos 1 ≤ℤ or_if_not_positive x def
not_positive-positive x def h = ground arith

-- The repaired settings are usable, and their range of host ports is empty in one case only: the lowest
-- port is above 32767 and the highest was below it.
pub normalize-IsUsable :
    (c : Settings)
    → IsUsable (normalize c)
      × ((ltb_ℤ (normalize c).host_port_max (normalize c).host_port_min ≡ true) ↔ (
          (ltb_ℤ c.host_port_max c.host_port_min ≡ true)
          × (ltb_ℤ default_port_max c.host_port_min ≡ true)))
unfolding normalize
normalize-IsUsable c = (
  record {
    ready = below_one-positive c.ready_success_threshold _ (omega arith);
    not_ready = below_one-positive c.not_ready_failure_threshold _ (omega arith);
    probes = below_one-positive c.heartbeat_max_parallel _ (omega arith);
    resource_sync = not_positive-positive c.resource_sync_interval _ (omega arith);
    persist_min = not_positive-positive c.resource_persist_min_int _ (omega arith);
    persist_max = not_positive-positive c.resource_persist_max_int _ (omega arith);
    scheduler = not_positive-positive c.scheduler_interval _ (omega arith);
    reconcile = not_positive-positive c.reconcile_interval _ (omega arith);
    status_sync = not_positive-positive c.status_sync_interval _ (omega arith);
    sync_timeout = not_positive-positive c.status_sync_timeout _ (omega arith);
    batch_size = below_one-positive c.status_sync_batch_size _ (omega arith);
    sync_parallel = below_one-positive c.status_sync_max_parallel _ (omega arith);
    op_timeout = not_positive-positive c.sandbox_op_timeout _ (omega arith);
    lowest_port = below_one-positive c.host_port_min _ (omega arith);
    burst = below_one-positive c.create_burst _ (omega arith);
  },
  ports c.host_port_min c.host_port_max,
)
  where
    ports :
        (min max : ℤ)
        → (ltb_ℤ
              (if ltb_ℤ max (or_if_below_one min (pos 10000)) then default_port_max else max)
              (or_if_below_one min (pos 10000))
            ≡ true)
          ↔ ((ltb_ℤ max min ≡ true) × (ltb_ℤ default_port_max min ≡ true))
    ports min max = ground arith

below_one_idem :
    (x def : ℤ) → pos 1 ≤ℤ def → or_if_below_one (or_if_below_one x def) def ≡ or_if_below_one x def
below_one_idem x def h = ground arith

not_positive_idem :
    (x def : ℤ)
    → pos 1 ≤ℤ def
    → or_if_not_positive (or_if_not_positive x def) def ≡ or_if_not_positive x def
not_positive_idem x def h = ground arith

-- To repair settings a second time changes nothing.
pub normalize_idem : (c : Settings) → normalize (normalize c) ≡ normalize c
unfolding normalize
normalize_idem c = λ i. record {
  ready_success_threshold = below_one_idem c.ready_success_threshold (pos 1) (omega arith) i;
  not_ready_failure_threshold =
      below_one_idem c.not_ready_failure_threshold (pos 1) (omega arith) i;
  heartbeat_max_parallel = below_one_idem c.heartbeat_max_parallel (pos 1) (omega arith) i;
  resource_sync_interval =
      not_positive_idem c.resource_sync_interval (pos 30_000_000_000) (omega arith) i;
  resource_persist_min_int =
      not_positive_idem c.resource_persist_min_int (pos 30_000_000_000) (omega arith) i;
  resource_persist_max_int =
      not_positive_idem c.resource_persist_max_int (pos 300_000_000_000) (omega arith) i;
  scheduler_interval = not_positive_idem c.scheduler_interval (pos 3_000_000_000) (omega arith) i;
  reconcile_interval = not_positive_idem c.reconcile_interval (pos 5_000_000_000) (omega arith) i;
  status_sync_interval =
      not_positive_idem c.status_sync_interval (pos 20_000_000_000) (omega arith) i;
  status_sync_timeout = not_positive_idem c.status_sync_timeout (pos 5_000_000_000) (omega arith) i;
  status_sync_batch_size = below_one_idem c.status_sync_batch_size (pos 50) (omega arith) i;
  status_sync_max_parallel = below_one_idem c.status_sync_max_parallel (pos 4) (omega arith) i;
  sandbox_op_timeout = not_positive_idem c.sandbox_op_timeout (pos 60_000_000_000) (omega arith) i;
  host_port_min = below_one_idem c.host_port_min (pos 10000) (omega arith) i;
  host_port_max = highest c.host_port_min c.host_port_max i;
  create_burst = below_one_idem c.create_burst (pos 40) (omega arith) i;
}
  where
    repaired : ℤ → ℤ → ℤ
    repaired min max = if ltb_ℤ max min then default_port_max else max

    highest :
        (min max : ℤ)
        → repaired
            (or_if_below_one (or_if_below_one min (pos 10000)) (pos 10000))
            (repaired (or_if_below_one min (pos 10000)) max)
          ≡ repaired (or_if_below_one min (pos 10000)) max
    highest min max = ground arith

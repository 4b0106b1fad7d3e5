-- ===== src/Orch/Settings.antt =====
-- How Load (sandboxd-orch/config/config.go) repairs the numbers that it has read from the environment.
-- Durations are nanoseconds; the rate CreateRPS, a float64, is left out.
pub mod Usable
use go_gvisor_containerd_let.Base.{ℤ, pos, ltb_ℤ, leb_ℤ, Bool, if◌then◌else◌}

pub record Settings : Type 0 where
  pub ready_success_threshold : ℤ
  pub not_ready_failure_threshold : ℤ
  pub heartbeat_max_parallel : ℤ
  pub resource_sync_interval : ℤ
  pub resource_persist_min_int : ℤ
  pub resource_persist_max_int : ℤ
  pub scheduler_interval : ℤ
  pub reconcile_interval : ℤ
  pub status_sync_interval : ℤ
  pub status_sync_timeout : ℤ
  pub status_sync_batch_size : ℤ
  pub status_sync_max_parallel : ℤ
  pub sandbox_op_timeout : ℤ
  pub host_port_min : ℤ
  pub host_port_max : ℤ
  pub create_burst : ℤ

abbrev pub default_port_min : ℤ
default_port_min = pos 10000

abbrev pub default_port_max : ℤ
default_port_max = pos 32767

-- `if x < 1 { x = def }`.
abbrev pub or_if_below_one : ℤ → ℤ → ℤ
or_if_below_one x def = if ltb_ℤ x (pos 1) then def else x

-- `if x <= 0 { x = def }`, with a default in seconds.
abbrev pub or_if_not_positive : ℤ → ℤ → ℤ
or_if_not_positive x def = if leb_ℤ x (pos 0) then def else x

unfoldable pub normalize : Settings → Settings
normalize c =
    let min_port = or_if_below_one c.host_port_min default_port_min in
    record {
      ready_success_threshold = or_if_below_one c.ready_success_threshold (pos 1);
      not_ready_failure_threshold = or_if_below_one c.not_ready_failure_threshold (pos 1);
      heartbeat_max_parallel = or_if_below_one c.heartbeat_max_parallel (pos 1);
      resource_sync_interval = or_if_not_positive c.resource_sync_interval (pos 30_000_000_000);
      resource_persist_min_int = or_if_not_positive c.resource_persist_min_int (pos 30_000_000_000);
      resource_persist_max_int =
          or_if_not_positive c.resource_persist_max_int (pos 300_000_000_000);
      scheduler_interval = or_if_not_positive c.scheduler_interval (pos 3_000_000_000);
      reconcile_interval = or_if_not_positive c.reconcile_interval (pos 5_000_000_000);
      status_sync_interval = or_if_not_positive c.status_sync_interval (pos 20_000_000_000);
      status_sync_timeout = or_if_not_positive c.status_sync_timeout (pos 5_000_000_000);
      status_sync_batch_size = or_if_below_one c.status_sync_batch_size (pos 50);
      status_sync_max_parallel = or_if_below_one c.status_sync_max_parallel (pos 4);
      sandbox_op_timeout = or_if_not_positive c.sandbox_op_timeout (pos 60_000_000_000);
      host_port_min = min_port;
      host_port_max = if ltb_ℤ c.host_port_max min_port then default_port_max else c.host_port_max;
      create_burst = or_if_below_one c.create_burst (pos 40);
    }

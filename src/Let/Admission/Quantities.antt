-- ===== src/Let/Admission/Quantities.antt =====
-- The quantities of a request (sandboxd-let/sandbox/resources.go): parsing, and the limits of a container.
use Prim.Native.String.{◌++◌ as append}
use go_gvisor_containerd_let.Base.{
  ℕ, suc, ◌+◌, ◌*◌, ◌/◌, ℤ, pos, negsuc, pos_part, neg_part, sub_ℕ, leb_ℤ, ltb_ℤ, int64, String,
  List, is_empty, trim_space, if◌then◌else◌,
}
use go_gvisor_containerd_let.Orch.World.{Quantity}
use go_gvisor_containerd_let.Let.Types.{
  Failure, Outcome, done, failed, ◌>>=◌, ResourceSpec, ResourceLimits,
}

-- What the host answers, and the configuration: `meminfo` holds the lines of /proc/meminfo and the
-- error that the scanner stops with; `subnet` is the size of the mask of the configured CIDR.
pub record Host : Type 0 where
  pub parse_quantity : String → Outcome Quantity
  pub cpus : ℕ
  pub meminfo : Outcome (List String × Failure)
  pub max_alloc_percent : ℤ
  pub cidr : String
  pub subnet : Outcome (ℕ × ℕ)

pub record ParsedResource : Type 0 where
  pub cpu_milli : ℤ
  pub memory_bytes : ℤ

unfoldable pub positive : String → ℤ → Outcome ℤ
positive msg v = if leb_ℤ v (pos 0) then failed msg else done v

parsed_as : String → (Quantity → ℤ) → Outcome Quantity → Outcome ℤ
unfolding positive
parsed_as msg amount (failed e) = failed msg
parsed_as msg amount (done q) = positive msg (amount q)

unfoldable pub parse_cpu_milli : Host → String → Outcome ℤ
unfolding parsed_as
parse_cpu_milli host raw =
    let v = trim_space raw in
    if is_empty v
    then failed "cpu is required"
    else parsed_as (append "invalid cpu: " raw) (λ q. q.milli_value) (host.parse_quantity v)

unfoldable pub parse_memory_bytes : Host → String → Outcome ℤ
unfolding parsed_as
parse_memory_bytes host raw =
    let v = trim_space raw in
    if is_empty v
    then failed "memory is required"
    else parsed_as (append "invalid memory: " raw) (λ q. q.value) (host.parse_quantity v)

unfoldable pub parse_container_resource : Host → ResourceSpec → Outcome ParsedResource
unfolding parse_cpu_milli parse_memory_bytes
parse_container_resource host spec = do
  cpu ← parse_cpu_milli host spec.cpu
  memory ← parse_memory_bytes host spec.memory
  done (record { cpu_milli = cpu; memory_bytes = memory })

-- Products and quotients of int64; a quotient is cut off towards zero.
unfoldable pub times : ℤ → ℤ → ℤ
times a b = int64 (
    sub_ℕ (pos_part a * pos_part b + neg_part a * neg_part b)
      (pos_part a * neg_part b + neg_part a * pos_part b))

unfoldable pub divided : ℤ → ℕ → ℤ
divided (pos n) k = pos (n / k)
divided (negsuc n) k = sub_ℕ 0 (suc n / k)

-- The period is 100 ms, and the quota at least 1 ms.
unfoldable pub parsed_resource_to_limits : ParsedResource → ResourceLimits
unfolding times divided
parsed_resource_to_limits r =
    let quota = divided (times r.cpu_milli (pos 100_000)) 1000 in
    record {
      memory_bytes = r.memory_bytes;
      cpu_quota = if ltb_ℤ quota (pos 1000) then pos 1000 else quota;
      cpu_period = 100_000;
      pids_limit = pos 128;
    }

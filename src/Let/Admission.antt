-- ===== src/Let/Admission.antt =====
-- Admission on a node (sandboxd-let/sandbox/resources.go). ParseQuantity, ParseCIDR, /proc/meminfo
-- and the number of CPUs are arguments; int64 arithmetic wraps.
pub mod Quantities
pub mod Totals
pub mod Bounds
use Prim.Native.String.{◌++◌ as append}
use go_gvisor_containerd_let.Base.{
  ℕ, suc, ◌+◌, ◌-◌, ◌*◌, ◌/◌, ◌^◌, leb, ◌==◌, ℤ, pos, negsuc, pos_part, neg_part, sub_ℕ, leb_ℤ,
  ltb_ℤ, ◌+ℤ◌, ◌-ℤ◌, int64, max_zero, String, Bool, ◌||◌, not, none, some, List, [], ◌∷◌, str_eq,
  is_empty, trim_space, has_prefix, fields, parse_int, decimal, if◌then◌else◌,
}
use go_gvisor_containerd_let.Orch.World.{Quantity}
use go_gvisor_containerd_let.Let.Types.{
  Failure, Outcome, done, failed, or_fail, ◌>>=◌, concat, decimal_int, fail_if, ResourceSpec,
  ContainerState, CreateContainerRequest, CreateSandboxRequest, Sandbox, ResourceLimits,
  NodeResourceSnapshot,
}
pub use Quantities.{
  Host, ParsedResource, positive, parse_cpu_milli, parse_memory_bytes, parse_container_resource,
  times, divided, parsed_resource_to_limits,
}
unfoldable pub use Quantities.{
  positive, parse_cpu_milli, parse_memory_bytes, parse_container_resource, times, divided,
  parsed_resource_to_limits,
}

-- CPU and memory.
abbrev pub Amounts : Type 0
Amounts = ℤ × ℤ

unfoldable pub add_amounts : Amounts → ParsedResource → Amounts
add_amounts (cpu, memory) r = (int64 (cpu +ℤ r.cpu_milli), int64 (memory +ℤ r.memory_bytes))

with_context : String → Outcome ParsedResource → Outcome ParsedResource
with_context name (done r) = done r
with_context name (failed e) =
    failed (concat ("container " ∷ name ∷ " resource parse failed: " ∷ e ∷ []))

-- The first loop of enforceAdmission.
unfoldable pub sum_requested : Host → List CreateContainerRequest → Amounts → Outcome Amounts
unfolding with_context
sum_requested host [] acc = done acc
sum_requested host (c ∷ cs) acc =
    with_context c.name (parse_container_resource host c.resource) >>= λ r.
    sum_requested host cs (add_amounts acc r)

-- A quantity that does not parse is left out.
unfoldable pub add_parsed : Outcome ParsedResource → Amounts → Amounts
add_parsed (failed e) acc = acc
add_parsed (done r) acc = add_amounts acc r

unfoldable pub add_containers : Host → List ContainerState → Amounts → Amounts
unfolding add_parsed
add_containers host [] acc = acc
add_containers host (c ∷ cs) acc =
    add_containers host cs (add_parsed (parse_container_resource host c.resource) acc)

-- Left out of the account: the sandbox itself, and those being deleted or in error.
unfoldable pub is_skipped : String → Sandbox → Bool
is_skipped except s = str_eq s.id except || (str_eq s.phase "deleting" || str_eq s.phase "error")

unfoldable pub add_sandboxes : Host → String → List Sandbox → Amounts → Amounts
unfolding is_skipped
add_sandboxes host except [] acc = acc
add_sandboxes host except (s ∷ all) acc =
    add_sandboxes host except all
      (if is_skipped except s then acc else add_containers host s.containers acc)

unfoldable pub current_allocated_resources :
    Host → String → Outcome (List Sandbox) → Outcome Amounts
unfolding add_sandboxes
current_allocated_resources host except listed =
    listed >>= λ all. done (add_sandboxes host except all (pos 0, pos 0))

-- The second field of the line, in kilobytes; the text of the error of ParseInt is shortened.
mem_total : List String → Outcome ℤ
mem_total (label ∷ amount ∷ rest) = elim (parse_int amount) [
  | none ↦ failed (concat ("strconv.ParseInt: parsing " ∷ amount ∷ []))
  | some v ↦ done (times v (pos 1024))
]
mem_total other = failed "MemTotal not found"

unfoldable pub scan_meminfo : List String → Failure → Outcome ℤ
unfolding mem_total
scan_meminfo [] none = failed "MemTotal not found"
scan_meminfo [] (some e) = failed e
scan_meminfo (line ∷ rest) err =
    let further = scan_meminfo rest err in
    if has_prefix "MemTotal:" line then mem_total (fields line) else further

unfoldable pub host_total_memory_bytes : Host → Outcome ℤ
unfolding scan_meminfo
host_total_memory_bytes host = host.meminfo >>= λ m. scan_meminfo m.0 m.1

unfoldable pub host_cpu : Host → ℤ
host_cpu host = int64 (pos (host.cpus * 1000))

unfoldable pub allocatable : Host → ℤ → ℤ
unfolding times divided
allocatable host amount = divided (times amount host.max_alloc_percent) 100

insufficient : String → String → ℤ → ℤ → ℤ → ℤ → String
insufficient what unit requested used limit percent = concat (
    "insufficient "
    ∷ what
    ∷ " allocatable: requested="
    ∷ decimal_int requested
    ∷ unit
    ∷ " used="
    ∷ decimal_int used
    ∷ unit
    ∷ " limit="
    ∷ decimal_int limit
    ∷ unit
    ∷ " ("
    ∷ decimal_int percent
    ∷ "% of host)"
    ∷ [])

-- The two comparisons at the end of enforceAdmission.
unfoldable pub within_limits : Host → Amounts → Amounts → ℤ → Failure
unfolding insufficient host_cpu allocatable
within_limits host requested used host_mem =
    let max_cpu = allocatable host (host_cpu host) in
    let max_mem = allocatable host host_mem in
    fail_if (ltb_ℤ max_cpu (int64 (used.0 +ℤ requested.0)))
      (insufficient "cpu" "m" requested.0 used.0 max_cpu host.max_alloc_percent)
      (fail_if (ltb_ℤ max_mem (int64 (used.1 +ℤ requested.1)))
        (insufficient "memory" "" requested.1 used.1 max_mem host.max_alloc_percent) none)

-- `listed` is what the store's List answers.
unfoldable pub enforce_admission : Host → Outcome (List Sandbox) → CreateSandboxRequest → Failure
unfolding sum_requested current_allocated_resources host_total_memory_bytes within_limits
enforce_admission host listed req =
    or_fail (sum_requested host req.containers (pos 0, pos 0)) (λ requested.
      or_fail (current_allocated_resources host req.id listed)
        (λ used. or_fail (host_total_memory_bytes host) (within_limits host requested used)))

unfoldable pub node_resource_snapshot :
    Host → ℕ → Outcome (List Sandbox) → Outcome NodeResourceSnapshot
unfolding host_total_memory_bytes current_allocated_resources host_cpu allocatable
node_resource_snapshot host now listed = do
  host_mem ← host_total_memory_bytes host
  used ← current_allocated_resources host "" listed
  done (record {
    capacity_cpu_milli = host_cpu host;
    capacity_memory_bytes = host_mem;
    allocatable_cpu_milli = allocatable host (host_cpu host);
    allocatable_memory = allocatable host host_mem;
    used_cpu_milli = used.0;
    used_memory_bytes = used.1;
    available_cpu_milli = max_zero (int64 (allocatable host (host_cpu host) -ℤ used.0));
    available_memory = max_zero (int64 (allocatable host host_mem -ℤ used.1));
    max_alloc_percent = host.max_alloc_percent;
    updated_at = now;
  })

unfoldable pub count_active : String → List Sandbox → ℕ
count_active except [] = 0
count_active except (s ∷ all) =
    let rest = count_active except all in if is_skipped except s then rest else suc rest

-- The last part of ensureIPCapacity.
has_capacity : String → ℕ → ℕ → Failure
has_capacity cidr usable active =
    fail_if (leb usable active)
      (concat (
        "insufficient ip addresses in subnet "
        ∷ cidr
        ∷ ": in_use="
        ∷ decimal active
        ∷ " usable="
        ∷ decimal usable
        ∷ []))
      none

unfoldable pub ensure_ip_capacity : Host → Outcome (List Sandbox) → String → Failure
unfolding count_active has_capacity
ensure_ip_capacity host listed next = elim host.subnet [
  | failed e ↦ some (append "invalid subnet cidr: " e)
  | done (ones, bits) ↦
      let usable = 2 ^ (bits - ones) - 2 in
      fail_if (not (bits == 32)) "only ipv4 subnet is supported" (
        fail_if (leb (bits - ones) 2) (append "subnet too small: " host.cidr) (
          fail_if (leb usable 0) (append "subnet has no usable addresses: " host.cidr)
            (or_fail listed (λ all. has_capacity host.cidr usable (count_active next all)))))
]

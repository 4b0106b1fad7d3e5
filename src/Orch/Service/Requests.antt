-- ===== src/Orch/Service/Requests.antt =====
-- The checks of requests: validateSandboxCreate, sandboxResourceRequest and the quantity parsers of
-- sandbox_ops.go, and validation.go. The parser of Kubernetes quantities is a parameter.
pub mod Validity
pub mod Amounts
use Prim.Native.String.{◌++◌ as append}
use go_gvisor_containerd_let.Base.{
  ℕ, ℤ, pos, negsuc, int64, ◌+ℤ◌, ltb_ℤ, String, Bool, true, false, ◌&&◌, ◌||◌, not, Option, none,
  some, List, [], ◌∷◌, str_eq, is_empty, trim_space, to_lower, if◌then◌else◌,
}
use go_gvisor_containerd_let.Orch.Types.{
  SandboxContainerSpec, SandboxPortSpec, SandboxSpec, CreateSandboxObjectRequest,
}
use go_gvisor_containerd_let.Orch.World.{Error, invalid_input, Result, ok, err, Quantity}

abbrev pub Check : Type 0
Check = Result (Unit {0})

-- `if bad { return invalid input }`, and the code behind it.
abbrev pub reject_if : Bool → String → Check → Check
reject_if true msg rest = err (invalid_input msg)
reject_if false msg rest = rest

abbrev pub reject_on {ℓ} : {A : Type ℓ} → Result A → String → Check → Check
reject_on (err e) msg rest = err (invalid_input msg)
reject_on (ok a) msg rest = rest

abbrev pub and_then : Check → Check → Check
and_then (err e) rest = err e
and_then (ok a) rest = rest

-- A port outside 1 … 65535.
abbrev pub bad_port : ℤ → Bool
bad_port p = ltb_ℤ p (pos 1) || ltb_ℤ (pos 65535) p

unfoldable pub is_blank : String → Bool
is_blank s = is_empty (trim_space s)

abbrev pub milli_of : Result Quantity → Result ℤ
milli_of (err e) = err e
milli_of (ok q) = ok q.milli_value

abbrev pub value_of : Result Quantity → Result ℤ
value_of (err e) = err e
value_of (ok q) = ok q.value

abbrev pub no_containers : List SandboxContainerSpec → Bool
no_containers [] = true
no_containers (c ∷ cs) = false

unfoldable pub validate_port : SandboxPortSpec → Check
validate_port p =
    let proto = to_lower (trim_space p.protocol) in
    reject_if (bad_port p.container_port) "invalid container port" (
      if is_empty proto
      then ok tt
      else reject_if (not (str_eq proto "tcp") && not (str_eq proto "udp")) "unsupported protocol"
          (ok tt))

unfoldable pub validate_ports : List SandboxPortSpec → Check
validate_ports [] = ok tt
validate_ports (p ∷ ps) = and_then (validate_port p) (validate_ports ps)

abbrev pub add_request : ℤ → ℤ → Result ℤ → Result ℤ → Result (ℤ × ℤ)
add_request cpu mem (ok c) (ok m) = ok (int64 (cpu +ℤ c), int64 (mem +ℤ m))
add_request cpu mem (ok c) (err e) = err e
add_request cpu mem (err e) m = err e

abbrev pub continue_request : Result (ℤ × ℤ) → (ℤ × ℤ → Result (ℤ × ℤ)) → Result (ℤ × ℤ)
continue_request (ok p) f = f p
continue_request (err e) f = err e

module _ (parse_quantity : String → Result Quantity) where
  unfoldable pub parse_cpu_milli : String → Result ℤ
  parse_cpu_milli raw = milli_of (parse_quantity (trim_space raw))

  unfoldable pub parse_memory_bytes : String → Result ℤ
  parse_memory_bytes raw = value_of (parse_quantity (trim_space raw))

  unfoldable pub validate_container : SandboxContainerSpec → Check
  unfolding is_blank
  validate_container c =
      reject_if (is_blank c.name || is_blank c.image) "container name and image are required" (
        reject_if (is_blank c.resource.cpu || is_blank c.resource.memory)
          "container resource cpu/memory are required"
          (reject_on (parse_cpu_milli c.resource.cpu) (append "invalid cpu for container " c.name) (
            reject_on (parse_memory_bytes c.resource.memory)
              (append "invalid memory for container " c.name) (ok tt))))

  unfoldable pub validate_containers : List SandboxContainerSpec → Check
  validate_containers [] = ok tt
  validate_containers (c ∷ cs) = and_then (validate_container c) (validate_containers cs)

  -- validateSandboxCreate.
  unfoldable pub validate_sandbox_create : CreateSandboxObjectRequest → Check
  unfolding is_blank
  validate_sandbox_create req = reject_if (is_blank req.id) "id is required" (
      reject_if (no_containers req.spec.containers) "at least one container is required" (
        reject_if (ltb_ℤ req.spec.ttl_seconds (pos 0)) "ttl_seconds must be >= 0"
          (and_then (validate_containers req.spec.containers) (validate_ports req.spec.ports))))

  -- The loop of sandboxResourceRequest: int64 sums, which wrap.
  unfoldable pub sum_requests : List SandboxContainerSpec → ℤ × ℤ → Result (ℤ × ℤ)
  sum_requests [] acc = ok acc
  sum_requests (c ∷ cs) (cpu, mem) =
      continue_request
        (add_request cpu mem (parse_cpu_milli c.resource.cpu)
          (parse_memory_bytes c.resource.memory))
        (sum_requests cs)

  unfoldable pub sandbox_resource_request : SandboxSpec → Result (ℤ × ℤ)
  unfolding sum_requests
  sandbox_resource_request spec = sum_requests spec.containers (pos 0, pos 0)

-- validateNodeInput; net.ParseIP is a parameter.
unfoldable pub validate_node_input : (String → Bool) → String → String → ℤ → Check
unfolding is_blank
validate_node_input parse_ip id ip port = reject_if (is_blank id) "id is required" (
    reject_if (not (parse_ip (trim_space ip))) "invalid ip"
      (reject_if (bad_port port) "invalid port" (ok tt)))

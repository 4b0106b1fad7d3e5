-- ===== src/Let/Validate.antt =====
-- CreateSandboxRequest.Validate (sandboxd-let/model/validate.go). The sets `seenNames` and
-- `seenHostPorts` are lists of what was put in.
pub mod Accepted
use Prim.Native.String.{◌++◌ as append}
use go_gvisor_containerd_let.Base.{
  ℕ, ℤ, pos, ltb_ℤ, eqb_ℤ, String, Bool, true, false, ◌&&◌, ◌||◌, not, Option, none, some, List, [],
  ◌∷◌, str_eq, is_empty, trim_space, to_lower, if◌then◌else◌,
}
use go_gvisor_containerd_let.Let.Types.{
  Failure, decimal_int, or_else, fail_if, PortMapping, CreateContainerRequest, CreateSandboxRequest,
}

module _ {K : Type 0} where
  -- `_, ok := seen[key]`.
  unfoldable pub seen : (K → K → Bool) → K → List K → Bool
  seen same key [] = false
  seen same key (x ∷ xs) = same x key || seen same key xs

  -- A loop over `xs` that checks an element against the keys of those before it.
  unfoldable pub check_all :
      {A : Type 0} → (A → K) → (List K → A → Failure) → List K → List A → Failure
  check_all key check before [] = none
  check_all key check before (x ∷ xs) =
      or_else (check before x) (check_all key check (key x ∷ before) xs)

-- The body of the loop over the containers, without its last line.
unfoldable pub check_container : List String → CreateContainerRequest → Failure
unfolding seen
check_container before c =
    fail_if (is_empty c.name || is_empty c.image) "container name and image are required" (
      fail_if (is_empty (trim_space c.resource.cpu))
        (append "container " (append c.name ": cpu is required"))
        (fail_if (is_empty (trim_space c.resource.memory))
          (append "container " (append c.name ": memory is required"))
          (fail_if (seen str_eq c.name before) (append "duplicate container name: " c.name) none)))

unfoldable pub or_tcp : String → String
or_tcp proto = if is_empty proto then "tcp" else proto

abbrev pub out_of_range : ℤ → Bool
out_of_range p = ltb_ℤ p (pos 1) || ltb_ℤ (pos 65535) p

unfoldable pub check_port : List ℤ → PortMapping → Failure
unfolding seen or_tcp
check_port before p =
    let proto = or_tcp (to_lower (trim_space p.protocol)) in
    fail_if (out_of_range p.host_port || out_of_range p.container_port)
      (append "invalid port mapping: "
        (append (decimal_int p.host_port) (append ":" (decimal_int p.container_port))))
      (fail_if (ltb_ℤ p.host_port (pos 1024))
        (append "privileged host ports are not allowed: " (decimal_int p.host_port))
        (fail_if (not (str_eq proto "tcp") && not (str_eq proto "udp"))
          (append "unsupported protocol: " p.protocol)
          (fail_if (seen eqb_ℤ p.host_port before)
            (append "duplicate host port: " (decimal_int p.host_port)) none)))

abbrev pub is_nil {ℓ} : {A : Type ℓ} → List A → Bool
is_nil [] = true
is_nil (x ∷ xs) = false

unfoldable pub validate : CreateSandboxRequest → Failure
unfolding check_all check_container check_port
validate r = fail_if (is_empty r.id) "id is required" (
    fail_if (is_nil r.containers) "at least one container is required" (
      or_else (check_all (λ c. c.name) check_container [] r.containers)
        (check_all (λ p. p.host_port) check_port [] r.ports)))

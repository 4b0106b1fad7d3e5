-- ===== src/Orch/Service/Ports.antt =====
-- allocateHostPorts of sandboxd-orch/service/sandbox_ops.go. The permutation that rand.Shuffle makes
-- is a parameter.
pub mod Allocation
pub mod Refusal
use go_gvisor_containerd_let.Base.{
  ℕ, zero, suc, ◌+◌, ◌-◌, String, Bool, true, false, not, ◌||◌, Option, none, some, List, [], ◌∷◌,
  ◌==◌, ltb, is_empty, trim_space, to_lower, length, if◌then◌else◌,
}
use go_gvisor_containerd_let.Orch.Types.{SandboxPortSpec, SandboxPortAssign}

unfoldable pub contains : ℕ → List ℕ → Bool
contains p [] = false
contains p (x ∷ xs) = x == p || contains p xs

-- The loop from `hp` over `n` ports, which keeps those not in use.
unfoldable pub free_ports : List ℕ → ℕ → ℕ → List ℕ
unfolding contains
free_ports used hp zero = []
free_ports used hp (suc n) =
    let rest = free_ports used (hp + 1) n in if contains hp used then rest else hp ∷ rest

abbrev or_tcp : String → String
or_tcp proto = if is_empty proto then "tcp" else proto

unfoldable pub port_protocol : String → String
port_protocol raw = or_tcp (to_lower (trim_space raw))

-- The loop over the requested ports; `available` has an entry for each.
unfoldable pub assign_ports : List SandboxPortSpec → List ℕ → List SandboxPortAssign
unfolding port_protocol
assign_ports [] available = []
assign_ports (p ∷ ps) [] = []
assign_ports (p ∷ ps) (hp ∷ rest) =
    record {
      host_port = hp;
      container_port = p.container_port;
      protocol = port_protocol p.protocol;
    }
    ∷ assign_ports ps rest

assign_if_enough :
    (List ℕ → List ℕ) → List SandboxPortSpec → List ℕ → Option (List SandboxPortAssign)
assign_if_enough shuffle spec available =
    if ltb (length available) (length spec)
    then none
    else some (assign_ports spec (shuffle available))

-- `none` is the answer `nil, false`.
unfoldable pub allocate_host_ports :
    (List ℕ → List ℕ) → List SandboxPortSpec → List ℕ → ℕ → ℕ → Option (List SandboxPortAssign)
unfolding assign_if_enough
allocate_host_ports shuffle [] used min_port max_port = some []
allocate_host_ports shuffle (p ∷ ps) used min_port max_port =
    if ltb max_port min_port
    then none
    else assign_if_enough shuffle (p ∷ ps) (free_ports used min_port (max_port + 1 - min_port))

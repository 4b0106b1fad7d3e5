-- ===== src/Orch/Service/Requests/Amounts.antt =====
-- What the scheduler asks for on behalf of a request that was accepted, and validateNodeInput.
use go_gvisor_containerd_let.Base.{
  ℤ, pos, ◌≡◌, refl, ◌↔◌, String, Bool, true, not, List, [], ◌∷◌, arith, trim_space, ◌+ℤ◌, int64,
}
use go_gvisor_containerd_let.Orch.Types.{SandboxContainerSpec, CreateSandboxObjectRequest}
use go_gvisor_containerd_let.Orch.Tables.Rows.{All}
use go_gvisor_containerd_let.Orch.World.{Result, ok, Quantity}
use go_gvisor_containerd_let.Orch.Service.Requests.{
  bad_port, is_blank, validate_sandbox_create, sum_requests, sandbox_resource_request,
  validate_node_input,
}
use go_gvisor_containerd_let.Orch.Service.Requests.Validity.{
  IsNamed, IsPort, Answers, IsValidContainer, reject_if_iff, is_blank_iff, bad_port_iff,
  validate_sandbox_create-IsValid,
}

module _ (parse_quantity : String → Result Quantity) where
  sum_requests-Answers :
      (cs : List SandboxContainerSpec) (acc : ℤ × ℤ)
      → All (IsValidContainer parse_quantity) cs
      → Answers (sum_requests parse_quantity cs acc)
  unfolding sum_requests
  sum_requests-Answers [] acc v = (acc, refl)
  sum_requests-Answers (c ∷ cs) acc v =
      let (cpu, e) = v.0.cpu_answers in
      let (memory, g) = v.0.memory_answers in
      rw (e, g) (sum_requests-Answers cs (int64 (acc.0 +ℤ cpu), int64 (acc.1 +ℤ memory)) v.1)

  -- For a request that the creation has accepted, the sum of what its containers ask for can be
  -- computed: neither the scheduler nor the accounting of a node's usage meets a quantity that does
  -- not parse.
  pub sandbox_resource_request-Answers :
      (req : CreateSandboxObjectRequest)
      → validate_sandbox_create parse_quantity req ≡ ok tt
      → Answers (sandbox_resource_request parse_quantity req.spec)
  unfolding sandbox_resource_request
  sandbox_resource_request-Answers req e =
      sum_requests-Answers req.spec.containers (pos 0, pos 0)
        ((validate_sandbox_create-IsValid parse_quantity req).0 e).containers

-- A node is accepted exactly where it has an id, an address that parses, and a port in 1 … 65535.
pub validate_node_input-IsValid :
    (parse_ip : String → Bool) (id ip : String) (port : ℤ)
    → (validate_node_input parse_ip id ip port ≡ ok tt)
      ↔ (IsNamed id × (parse_ip (trim_space ip) ≡ true) × IsPort port)
unfolding validate_node_input
validate_node_input-IsValid parse_ip id ip port =
    let named = reject_if_iff (is_blank id) _ _ in
    let parsed = reject_if_iff (not (parse_ip (trim_space ip))) _ _ in
    let bounded = reject_if_iff (bad_port port) _ (ok tt) in
    (
      λ h.
          let p = parsed.0 (named.0 h).1 in
          (
            (is_blank_iff id).0 (named.0 h).0,
            ground arith,
            (bad_port_iff port).0 (bounded.0 p.1).0,
          ),
      λ v. named.1 (
        (is_blank_iff id).1 v.0,
        parsed.1 (ground arith, bounded.1 ((bad_port_iff port).1 v.2, refl)),
      ),
    )

-- ===== src/Orch/Service/Requests/Validity.antt =====
-- What validateSandboxCreate and validateNodeInput accept, against an independent description.
use Prim.Native.Char.{Char}
use go_gvisor_containerd_let.Base.{
  ℤ, pos, ◌≡◌, refl, ◌↔◌, ◌⊎◌, inl, inr, String, Bool, true, false, ◌||◌, ◌&&◌, not, List, [], ◌∷◌,
  arith, eq_iff, str_eq, ◌≤ℤ◌, ltb_ℤ, is_empty, trim_space, to_lower, if◌then◌else◌,
}
use go_gvisor_containerd_let.Orch.Types.{
  SandboxContainerSpec, SandboxPortSpec, CreateSandboxObjectRequest,
}
use go_gvisor_containerd_let.Orch.Tables.Rows.{All}
use go_gvisor_containerd_let.Orch.World.{Result, ok, err, Quantity}
use go_gvisor_containerd_let.Orch.Service.Requests.{
  Check, reject_if, reject_on, and_then, bad_port, is_blank, no_containers, validate_port,
  validate_ports, parse_cpu_milli, parse_memory_bytes, validate_container, validate_containers,
  validate_sandbox_create,
}

abbrev pub IsNamed : String → Type 0
IsNamed s = ¬ (trim_space s ≡ "")

abbrev pub IsPort : ℤ → Type 0
IsPort p = (pos 1 ≤ℤ p) × (p ≤ℤ pos 65535)

-- No protocol, or one of the two, in any case and with any blanks around.
abbrev pub IsProtocol : String → Type 0
IsProtocol raw =
    let proto = to_lower (trim_space raw) in (proto ≡ "") ⊎ (proto ≡ "tcp") ⊎ (proto ≡ "udp")

abbrev pub Answers : {A : Type 0} → Result A → Type 0
Answers r = (a : _) × (r ≡ ok a)

-- The rules of `reject_if` and the others, read as logic.
pub reject_if_iff :
    (b : Bool) (msg : String) (rest : Check)
    → (reject_if b msg rest ≡ ok tt) ↔ ((b ≡ false) × (rest ≡ ok tt))
reject_if_iff true msg rest = (λ h. cc, λ h. cc)
reject_if_iff false msg rest = (λ h. (refl, h), λ h. h.1)

reject_on_iff :
    {A : Type 0} (r : Result A) (msg : String) (rest : Check)
    → (reject_on r msg rest ≡ ok tt) ↔ (Answers r × (rest ≡ ok tt))
reject_on_iff (ok a) msg rest = (λ h. ((a, refl), h), λ h. h.1)
reject_on_iff (err e) msg rest = (λ h. cc, λ h. cc h.0.1)

and_then_iff : (r rest : Check) → (and_then r rest ≡ ok tt) ↔ ((r ≡ ok tt) × (rest ≡ ok tt))
and_then_iff (ok a) rest = (λ h. (refl, h), λ h. h.1)
and_then_iff (err e) rest = (λ h. cc, λ h. cc)

pub is_empty_iff : (s : String) → (is_empty s ≡ false) ↔ (¬ (s ≡ ""))
is_empty_iff String.[] = (λ h. cc, λ h. elim (h refl) [ ])
is_empty_iff (String.◌∷◌ c s) = (λ h e. cc, λ h. refl)

pub is_blank_iff : (s : String) → (is_blank s ≡ false) ↔ IsNamed s
unfolding is_blank
is_blank_iff s = is_empty_iff (trim_space s)

pub bad_port_iff : (p : ℤ) → (bad_port p ≡ false) ↔ IsPort p
bad_port_iff p = ground arith

negative_iff : (p : ℤ) → (ltb_ℤ p (pos 0) ≡ false) ↔ (pos 0 ≤ℤ p)
negative_iff p = ground arith

pub or_false_iff : (a b : Bool) → (a || b ≡ false) ↔ ((a ≡ false) × (b ≡ false))
or_false_iff a b = ground arith

-- A container port that the code accepts.
abbrev pub IsValidPort : SandboxPortSpec → Type 0
IsValidPort p = IsPort p.container_port × IsProtocol p.protocol

pub either_iff :
    (t : String)
    → ((not (str_eq t "tcp") && not (str_eq t "udp")) ≡ false) ↔ ((t ≡ "tcp") ⊎ (t ≡ "udp"))
either_iff t = ground (arith, eq_iff t "tcp", eq_iff t "udp")

pub cons_not_empty : (c : Char) (s : String) → ¬ (String.◌∷◌ c s ≡ "")
cons_not_empty c s e = cc

validate_port_iff : (p : SandboxPortSpec) → (validate_port p ≡ ok tt) ↔ IsValidPort p
unfolding validate_port
validate_port_iff p =
    let bad = reject_if_iff (bad_port p.container_port) "invalid container port" _ in
    (
      λ h. ((bad_port_iff p.container_port).0 (bad.0 h).0, (protocol_iff _).0 (bad.0 h).1),
      λ v. bad.1 ((bad_port_iff p.container_port).1 v.0, (protocol_iff _).1 v.1),
    )
  where
    protocol_iff :
        (proto : String)
        → ((if is_empty proto
              then ok tt
              else reject_if
                  (not (str_eq proto "tcp") && not (str_eq proto "udp"))
                  "unsupported protocol"
                  (ok tt))
            ≡ ok tt)
          ↔ ((proto ≡ "") ⊎ (proto ≡ "tcp") ⊎ (proto ≡ "udp"))
    protocol_iff String.[] = (λ h. inl refl, λ h. refl)
    protocol_iff (String.◌∷◌ c s) =
        let t = String.◌∷◌ c s in
        let named = reject_if_iff (not (str_eq t "tcp") && not (str_eq t "udp")) _ (ok tt) in
        (
          λ h. inr ((either_iff t).0 (named.0 h).0),
          λ v. elim v [
            | inl e ↦ elim (cons_not_empty c s e) [ ]
            | inr g ↦ named.1 ((either_iff t).1 g, refl)
          ],
        )

-- One round of a loop of checks.
loop_iff :
    {P Q : Type 0} (r rest : Check)
    → (r ≡ ok tt) ↔ P
    → (rest ≡ ok tt) ↔ Q
    → (and_then r rest ≡ ok tt) ↔ (P × Q)
loop_iff r rest p q =
    let both = and_then_iff r rest in
    (λ h. (p.0 (both.0 h).0, q.0 (both.0 h).1), λ v. both.1 (p.1 v.0, q.1 v.1))

validate_ports_iff : (ps : List SandboxPortSpec) → (validate_ports ps ≡ ok tt) ↔ All IsValidPort ps
unfolding validate_ports
validate_ports_iff [] = (λ h. tt, λ h. refl)
validate_ports_iff (p ∷ ps) =
    loop_iff (validate_port p) (validate_ports ps) (validate_port_iff p) (validate_ports_iff ps)

module _ (parse_quantity : String → Result Quantity) where
  -- A container that the code accepts: named, and with quantities that parse.
  pub record IsValidContainer (c : SandboxContainerSpec) : Type 0 where
    pub name : IsNamed c.name
    pub image : IsNamed c.image
    pub cpu : IsNamed c.resource.cpu
    pub memory : IsNamed c.resource.memory
    pub cpu_answers : Answers (parse_cpu_milli parse_quantity c.resource.cpu)
    pub memory_answers : Answers (parse_memory_bytes parse_quantity c.resource.memory)

  -- A request that the code accepts.
  pub record IsValidRequest (req : CreateSandboxObjectRequest) : Type 0 where
    pub id : IsNamed req.id
    pub some_container : ¬ (req.spec.containers ≡ [])
    pub ttl : pos 0 ≤ℤ req.spec.ttl_seconds
    pub containers : All IsValidContainer req.spec.containers
    pub ports : All IsValidPort req.spec.ports

  validate_container_iff :
      (c : SandboxContainerSpec)
      → (validate_container parse_quantity c ≡ ok tt) ↔ IsValidContainer c
  unfolding validate_container
  validate_container_iff c =
      let named = reject_if_iff (is_blank c.name || is_blank c.image) _ _ in
      let sized = reject_if_iff (is_blank c.resource.cpu || is_blank c.resource.memory) _ _ in
      let cpu = reject_on_iff (parse_cpu_milli parse_quantity c.resource.cpu) _ _ in
      let memory = reject_on_iff (parse_memory_bytes parse_quantity c.resource.memory) _ (ok tt) in
      let names = or_false_iff (is_blank c.name) (is_blank c.image) in
      let sizes = or_false_iff (is_blank c.resource.cpu) (is_blank c.resource.memory) in
      (
        λ h.
            let s = (named.0 h).1 in
            let p = (sized.0 s).1 in
            record {
              name = (is_blank_iff c.name).0 (names.0 (named.0 h).0).0;
              image = (is_blank_iff c.image).0 (names.0 (named.0 h).0).1;
              cpu = (is_blank_iff c.resource.cpu).0 (sizes.0 (sized.0 s).0).0;
              memory = (is_blank_iff c.resource.memory).0 (sizes.0 (sized.0 s).0).1;
              cpu_answers = (cpu.0 p).0;
              memory_answers = (memory.0 (cpu.0 p).1).0;
            },
        λ v. named.1 (
          names.1 ((is_blank_iff c.name).1 v.name, (is_blank_iff c.image).1 v.image),
          sized.1 (
            sizes.1 (
              (is_blank_iff c.resource.cpu).1 v.cpu,
              (is_blank_iff c.resource.memory).1 v.memory,
            ),
            cpu.1 (v.cpu_answers, memory.1 (v.memory_answers, refl)),
          ),
        ),
      )

  validate_containers_iff :
      (cs : List SandboxContainerSpec)
      → (validate_containers parse_quantity cs ≡ ok tt) ↔ All IsValidContainer cs
  unfolding validate_containers
  validate_containers_iff [] = (λ h. tt, λ h. refl)
  validate_containers_iff (c ∷ cs) =
      loop_iff (validate_container parse_quantity c) (validate_containers parse_quantity cs)
        (validate_container_iff c) (validate_containers_iff cs)

  no_containers_iff : (cs : List SandboxContainerSpec) → (no_containers cs ≡ false) ↔ (¬ (cs ≡ []))
  no_containers_iff [] = (λ h. cc, λ h. elim (h refl) [ ])
  no_containers_iff (c ∷ cs) = (λ h e. cc, λ h. refl)

  -- A request is accepted exactly where it is valid: it has an id, at least one container and no
  -- negative time to live; every container has a name, an image and quantities that parse; and every
  -- port is in 1 … 65535 with no protocol, tcp or udp, in any case and with blanks around.
  pub validate_sandbox_create-IsValid :
      (req : CreateSandboxObjectRequest)
      → (validate_sandbox_create parse_quantity req ≡ ok tt) ↔ IsValidRequest req
  unfolding validate_sandbox_create
  validate_sandbox_create-IsValid req =
      let named = reject_if_iff (is_blank req.id) _ _ in
      let filled = reject_if_iff (no_containers req.spec.containers) _ _ in
      let timed = reject_if_iff (ltb_ℤ req.spec.ttl_seconds (pos 0)) _ _ in
      let rest =
        loop_iff (validate_containers parse_quantity req.spec.containers)
          (validate_ports req.spec.ports) (validate_containers_iff req.spec.containers)
          (validate_ports_iff req.spec.ports) in
      (
        λ h.
            let f = (named.0 h).1 in
            let t = (filled.0 f).1 in
            let r = rest.0 (timed.0 t).1 in
            record {
              id = (is_blank_iff req.id).0 (named.0 h).0;
              some_container = (no_containers_iff req.spec.containers).0 (filled.0 f).0;
              ttl = (negative_iff req.spec.ttl_seconds).0 (timed.0 t).0;
              containers = r.0;
              ports = r.1;
            },
        λ v. named.1 (
          (is_blank_iff req.id).1 v.id,
          filled.1 (
            (no_containers_iff req.spec.containers).1 v.some_container,
            timed.1 ((negative_iff req.spec.ttl_seconds).1 v.ttl, rest.1 (v.containers, v.ports)),
          ),
        ),
      )

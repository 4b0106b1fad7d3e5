-- ===== src/Let/Validate/Accepted.antt =====
-- What Validate accepts, against an independent description.
use Prim.Native.String.{◌++◌ as append}
use go_gvisor_containerd_let.Base.{
  ℤ, pos, ◌≡◌, refl, ◌↔◌, ◌⊎◌, inl, inr, String, Bool, true, false, ◌||◌, ◌&&◌, not, none, some,
  List, [], ◌∷◌, arith, str_eq, ◌≤ℤ◌, ltb_ℤ, eqb_ℤ, is_empty, trim_space, to_lower,
}
use go_gvisor_containerd_let.Orch.Tables.{exists}
use go_gvisor_containerd_let.Orch.Tables.Rows.{All, All-every, Unique}
use go_gvisor_containerd_let.Orch.Service.Requests.Validity.{
  IsNamed, IsProtocol, or_false_iff, is_empty_iff, either_iff, cons_not_empty,
}
use go_gvisor_containerd_let.Let.Types.{
  Failure, or_else, fail_if, PortMapping, CreateContainerRequest, CreateSandboxRequest,
}
use go_gvisor_containerd_let.Let.Validate.{
  seen, check_all, check_container, or_tcp, out_of_range, check_port, is_nil, validate,
}

fail_if_iff :
    (b : Bool) (msg : String) (rest : Failure)
    → (fail_if b msg rest ≡ none) ↔ ((b ≡ false) × (rest ≡ none))
fail_if_iff true msg rest = (λ h. cc, λ h. cc)
fail_if_iff false msg rest = (λ h. (refl, h), λ h. h.1)

or_else_iff : (r rest : Failure) → (or_else r rest ≡ none) ↔ ((r ≡ none) × (rest ≡ none))
or_else_iff none rest = (λ h. (refl, h), λ h. h.1)
or_else_iff (some e) rest = (λ h. cc, λ h. cc)

-- A list of checks that must all be false: the two sides of an equivalence follow each other.
module _ {A K : Type 0} (key : A → K) (same : K → K → Bool) (check : List K → A → Failure)
    (P : A → Type 0)
    (one : (before : List K) (a : A)
      → (check before a ≡ none) ↔ (P a × (seen same (key a) before ≡ false))) where
  abbrev pub same_key : A → A → Bool
  same_key a b = same (key a) (key b)

  Unseen-cons :
      (a : A) (before : List K) (xs : List A)
      → All (λ x. seen same (key x) (key a ∷ before) ≡ false) xs
        ↔ ((exists (same_key a) xs ≡ false) × All (λ x. seen same (key x) before ≡ false) xs)
  unfolding seen exists
  Unseen-cons a before [] = (λ h. (refl, tt), λ h. tt)
  Unseen-cons a before (x ∷ xs) =
      let rest = Unseen-cons a before xs in
      (
        λ h. let r = rest.0 h.1 in (ground arith, (ground arith, r.1)),
        λ h. (ground arith, rest.1 (ground arith, h.1.1)),
      )

  check_all_iff :
      (before : List K) (xs : List A)
      → (check_all key check before xs ≡ none)
        ↔ (All P xs × Unique same_key xs × All (λ x. seen same (key x) before ≡ false) xs)
  unfolding check_all
  check_all_iff before [] = (λ h. (tt, tt, tt), λ h. refl)
  check_all_iff before (x ∷ xs) =
      let both = or_else_iff (check before x) (check_all key check (key x ∷ before) xs) in
      let rest = check_all_iff (key x ∷ before) xs in
      let unseen = Unseen-cons x before xs in
      (
        λ h.
            let p = (one before x).0 (both.0 h).0 in
            let q = rest.0 (both.0 h).1 in
            let u = unseen.0 q.2 in ((p.0, q.0), (u.0, q.1), (p.1, u.1)),
        λ v.
            both.1
              ((one before x).1 (v.0.0, v.2.0), rest.1 (v.0.1, v.1.1, unseen.1 (v.1.0, v.2.1))),
      )

-- A container that the agent accepts.
pub record IsValidContainer (c : CreateContainerRequest) : Type 0 where
  pub name : ¬ (c.name ≡ "")
  pub image : ¬ (c.image ≡ "")
  pub cpu : IsNamed c.resource.cpu
  pub memory : IsNamed c.resource.memory

-- A port that the agent accepts: no privileged host port, and no protocol, tcp or udp.
pub record IsValidMapping (p : PortMapping) : Type 0 where
  pub host : (pos 1024 ≤ℤ p.host_port) × (p.host_port ≤ℤ pos 65535)
  pub container : (pos 1 ≤ℤ p.container_port) × (p.container_port ≤ℤ pos 65535)
  pub protocol : IsProtocol p.protocol

abbrev pub same_name : CreateContainerRequest → CreateContainerRequest → Bool
same_name a b = str_eq a.name b.name

abbrev pub same_host_port : PortMapping → PortMapping → Bool
same_host_port a b = eqb_ℤ a.host_port b.host_port

-- A request that the agent accepts.
pub record IsValidRequest (r : CreateSandboxRequest) : Type 0 where
  pub id : ¬ (r.id ≡ "")
  pub some_container : ¬ (r.containers ≡ [])
  pub containers : All IsValidContainer r.containers
  pub names_unique : Unique same_name r.containers
  pub ports : All IsValidMapping r.ports
  pub ports_unique : Unique same_host_port r.ports

check_container_iff :
    (before : List String) (c : CreateContainerRequest)
    → (check_container before c ≡ none) ↔ (IsValidContainer c × (seen str_eq c.name before ≡ false))
unfolding check_container
check_container_iff before c =
    let named = fail_if_iff (is_empty c.name || is_empty c.image) _ _ in
    let names = or_false_iff (is_empty c.name) (is_empty c.image) in
    let cpu = fail_if_iff (is_empty (trim_space c.resource.cpu)) _ _ in
    let memory = fail_if_iff (is_empty (trim_space c.resource.memory)) _ _ in
    let new = fail_if_iff (seen str_eq c.name before) _ none in
    (
      λ h.
          let u = cpu.0 (named.0 h).1 in
          let m = memory.0 u.1 in
          (
            record {
              name = (is_empty_iff c.name).0 (names.0 (named.0 h).0).0;
              image = (is_empty_iff c.image).0 (names.0 (named.0 h).0).1;
              cpu = (is_empty_iff (trim_space c.resource.cpu)).0 u.0;
              memory = (is_empty_iff (trim_space c.resource.memory)).0 m.0;
            },
            (new.0 m.1).0,
          ),
      λ v. named.1 (
        names.1 ((is_empty_iff c.name).1 v.0.name, (is_empty_iff c.image).1 v.0.image),
        cpu.1 (
          (is_empty_iff (trim_space c.resource.cpu)).1 v.0.cpu,
          memory.1 ((is_empty_iff (trim_space c.resource.memory)).1 v.0.memory, new.1 (v.1, refl)),
        ),
      ),
    )

protocol_iff :
    (t : String)
    → ((not (str_eq (or_tcp t) "tcp") && not (str_eq (or_tcp t) "udp")) ≡ false)
      ↔ ((t ≡ "") ⊎ (t ≡ "tcp") ⊎ (t ≡ "udp"))
unfolding or_tcp
protocol_iff String.[] = (λ h. inl refl, λ h. refl)
protocol_iff (String.◌∷◌ c s) = (
  λ h. inr ((either_iff (String.◌∷◌ c s)).0 h),
  λ v. elim v [
    | inl e ↦ elim (cons_not_empty c s e) [ ]
    | inr g ↦ (either_iff (String.◌∷◌ c s)).1 g
  ],
)

ranges_iff :
    (p : PortMapping)
    → ((out_of_range p.host_port || out_of_range p.container_port) ≡ false)
        × (ltb_ℤ p.host_port (pos 1024) ≡ false)
      ↔ ((pos 1024 ≤ℤ p.host_port) × (p.host_port ≤ℤ pos 65535))
        × ((pos 1 ≤ℤ p.container_port) × (p.container_port ≤ℤ pos 65535))
ranges_iff p = ground arith

check_port_iff :
    (before : List ℤ) (p : PortMapping)
    → (check_port before p ≡ none) ↔ (IsValidMapping p × (seen eqb_ℤ p.host_port before ≡ false))
unfolding check_port
check_port_iff before p =
    let valid = fail_if_iff (out_of_range p.host_port || out_of_range p.container_port) _ _ in
    let free = fail_if_iff (ltb_ℤ p.host_port (pos 1024)) _ _ in
    let proto = protocol_iff (to_lower (trim_space p.protocol)) in
    let known = fail_if_iff _ (append "unsupported protocol: " p.protocol) _ in
    let new = fail_if_iff (seen eqb_ℤ p.host_port before) _ none in
    (
      λ h.
          let f = free.0 (valid.0 h).1 in
          let k = known.0 f.1 in
          let r = (ranges_iff p).0 ((valid.0 h).0, f.0) in
          (record { host = r.0; container = r.1; protocol = proto.0 k.0 }, (new.0 k.1).0),
      λ v.
          let r = (ranges_iff p).1 (v.0.host, v.0.container) in
          valid.1 (r.0, free.1 (r.1, known.1 (proto.1 v.0.protocol, new.1 (v.1, refl)))),
    )

is_nil_iff : {A : Type 0} (xs : List A) → (is_nil xs ≡ false) ↔ (¬ (xs ≡ []))
is_nil_iff [] = (λ h. cc, λ h. elim (h refl) [ ])
is_nil_iff (x ∷ xs) = (λ h e. cc, λ h. refl)

none_seen :
    {A K : Type 0} (same : K → K → Bool) (key : A → K) (xs : List A)
    → All (λ x. seen same (key x) [] ≡ false) xs
unfolding seen
none_seen same key xs = All-every _ xs (λ x. refl)

-- An agent accepts a request exactly where it is valid: it has an id and a container; every container
-- has a name, an image and resource texts that are not blank, and no two have one name; every port
-- has a host port in 1024 … 65535, a container port in 1 … 65535 and no protocol, tcp or udp, and no
-- two share a host port.
pub validate-IsValid : (r : CreateSandboxRequest) → (validate r ≡ none) ↔ IsValidRequest r
unfolding validate
validate-IsValid r =
    let named = fail_if_iff (is_empty r.id) _ _ in
    let filled = fail_if_iff (is_nil r.containers) _ _ in
    let both = or_else_iff (check_all (λ c. c.name) check_container [] r.containers) _ in
    let containers =
      check_all_iff (λ c. c.name) str_eq check_container IsValidContainer check_container_iff []
        r.containers in
    let ports =
      check_all_iff (λ p. p.host_port) eqb_ℤ check_port IsValidMapping check_port_iff [] r.ports in
    (
      λ h.
          let f = filled.0 (named.0 h).1 in
          let c = containers.0 (both.0 f.1).0 in
          let p = ports.0 (both.0 f.1).1 in
          record {
            id = (is_empty_iff r.id).0 (named.0 h).0;
            some_container = (is_nil_iff r.containers).0 f.0;
            containers = c.0;
            names_unique = c.1;
            ports = p.0;
            ports_unique = p.1;
          },
      λ v. named.1 (
        (is_empty_iff r.id).1 v.id,
        filled.1 (
          (is_nil_iff r.containers).1 v.some_container,
          both.1 (
            containers.1
                (v.containers, v.names_unique, none_seen str_eq (λ c. c.name) r.containers),
            ports.1 (v.ports, v.ports_unique, none_seen eqb_ℤ (λ p. p.host_port) r.ports),
          ),
        ),
      ),
    )

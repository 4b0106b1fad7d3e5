-- ===== src/Orch/Service/Ports/Allocation.antt =====
-- What allocateHostPorts gives a sandbox (sandboxd-orch/service/sandbox_ops.go), whatever permutation
-- the shuffle makes of the free ports.
use mathlib.Core.Bool.{Bool-set}
use mathlib.Core.HLevel.{×₃_prop}
use mathlib.Core.List.{
  Mem, Mem-prop, Perm, Nodup, Nodup-nil, Nodup-cons, not-mem-nil, mem-cons, mem-cons_self,
  mem-cons_of_mem,
}
use mathlib.Core.List.Perm
use mathlib.Core.Logic.Or
use native.Mathlib.Bridge.{le_prop}
use native.Mathlib.Decide.{ℕ_discrete}
use go_gvisor_containerd_let.Base.{
  ℕ, zero, suc, ◌+◌, ◌-◌, ◌≤◌, ◌<◌, ◌≡◌, refl, subst, inl, inr, ◌↔◌, false, some, List, [], ◌∷◌,
  map, length, length-Perm, arith, ltb, Bool-cases,
}
use go_gvisor_containerd_let.Orch.Types.{SandboxPortSpec, SandboxPortAssign}
use go_gvisor_containerd_let.Orch.Tables.Rows.{All}
use go_gvisor_containerd_let.Orch.Service.Ports.{
  contains, free_ports, port_protocol, assign_ports, allocate_host_ports,
}

abbrev pub host_ports : List SandboxPortAssign → List ℕ
host_ports = map (λ p. p.host_port)

-- The port lies in the range and is not in use.
abbrev pub IsFree : List ℕ → ℕ → ℕ → ℕ → Type 0
IsFree used lo hi p = (lo ≤ p) × (p < hi) × (contains p used ≡ false)

IsFree-prop : (used : List ℕ) (lo hi p : ℕ) → IsProp (IsFree used lo hi p)
IsFree-prop used lo hi p = ×₃_prop le_prop le_prop (Bool-set _ _)

IsFree-widen :
    (used : List ℕ) (lo n p : ℕ)
    → IsFree used (lo + 1) (lo + 1 + n) p
    → IsFree used lo (lo + suc n) p
IsFree-widen used lo n p f = (omega arith, omega arith, f.2)

pub free_ports-IsFree :
    (used : List ℕ) (lo n p : ℕ) → Mem p (free_ports used lo n) → IsFree used lo (lo + n) p
unfolding free_ports
free_ports-IsFree used lo zero p m = absurd (not-mem-nil m)
free_ports-IsFree used lo (suc n) p m = elim (Bool-cases (contains lo used)) [
  | inl e ↦ IsFree-widen used lo n p (free_ports-IsFree used (lo + 1) n p (rw e at m))
  | inr e ↦
      Or.elim (IsFree-prop used lo (lo + suc n) p) (mem-cons.0 (rw e at m))
        (λ q. rw q (omega arith, omega arith, e))
        (λ k. IsFree-widen used lo n p (free_ports-IsFree used (lo + 1) n p k))
]

pub free_ports-Nodup : (used : List ℕ) (lo n : ℕ) → Nodup (free_ports used lo n)
unfolding free_ports
free_ports-Nodup used lo zero = Nodup-nil
free_ports-Nodup used lo (suc n) = elim (Bool-cases (contains lo used)) [
  | inl e ↦ rw e (free_ports-Nodup used (lo + 1) n)
  | inr e ↦ rw e (
      Nodup-cons.1 (
        λ m. let f = free_ports-IsFree used (lo + 1) n lo m in absurd (omega arith),
        free_ports-Nodup used (lo + 1) n,
      ))
]

mem-assign_ports :
    (spec : List SandboxPortSpec) (xs : List ℕ) (p : ℕ)
    → Mem p (host_ports (assign_ports spec xs))
    → Mem p xs
unfolding assign_ports
mem-assign_ports [] xs p m = absurd (not-mem-nil m)
mem-assign_ports (s ∷ spec) [] p m = m
mem-assign_ports (s ∷ spec) (x ∷ xs) p m =
    Or.elim Mem-prop (mem-cons.0 m) (λ e. rw e mem-cons_self)
      (λ k. mem-cons_of_mem x (mem-assign_ports spec xs p k))

assign_ports-Nodup :
    (spec : List SandboxPortSpec) (xs : List ℕ)
    → Nodup xs
    → Nodup (host_ports (assign_ports spec xs))
unfolding assign_ports
assign_ports-Nodup [] xs h = Nodup-nil
assign_ports-Nodup (s ∷ spec) [] h = Nodup-nil
assign_ports-Nodup (s ∷ spec) (x ∷ xs) h = Nodup-cons.1 (
  λ m. (Nodup-cons.0 h).0 (mem-assign_ports spec xs x m),
  assign_ports-Nodup spec xs (Nodup-cons.0 h).1,
)

-- The assignments name the requested container ports and protocols, in order.
abbrev pub Serves : List SandboxPortSpec → List SandboxPortAssign → Type 0
Serves [] [] = Unit {0}
Serves [] (a ∷ rest) = ⊥
Serves (p ∷ ps) [] = ⊥
Serves (p ∷ ps) (a ∷ rest) =
    (a.container_port ≡ p.container_port) × (a.protocol ≡ port_protocol p.protocol) × Serves ps rest

assign_ports-Serves :
    (spec : List SandboxPortSpec) (xs : List ℕ)
    → length spec ≤ length xs
    → Serves spec (assign_ports spec xs)
unfolding assign_ports
assign_ports-Serves [] xs h = tt
assign_ports-Serves (s ∷ spec) [] h = absurd (omega arith)
assign_ports-Serves (s ∷ spec) (x ∷ xs) h = (refl, refl, assign_ports-Serves spec xs (omega arith))

found_at :
    (used : List ℕ) (lo n p : ℕ)
    → p ≡ lo
    → IsFree used lo (lo + suc n) p
    → Mem p (free_ports used lo (suc n))
unfolding free_ports
found_at used lo n p q f =
    let e : contains lo used ≡ false = subst (λ k. contains k used ≡ false) q f.2 in
    rw (e, q) mem-cons_self

-- Every port of the range that is not in use is found.
free_ports-complete :
    (used : List ℕ) (lo n p : ℕ) → IsFree used lo (lo + n) p → Mem p (free_ports used lo n)
unfolding free_ports
free_ports-complete used lo zero p f = absurd (omega arith)
free_ports-complete used lo (suc n) p f = elim (ℕ_discrete p lo) [
  | yes q ↦ found_at used lo n p q f
  | no q ↦ elim (Bool-cases (contains lo used)) [
    | inl e ↦ rw e (free_ports-complete used (lo + 1) n p (omega arith, omega arith, f.2))
    | inr e ↦
        rw e (
          mem-cons_of_mem lo
            (free_ports-complete used (lo + 1) n p (omega arith, omega arith, f.2)))
  ]
]

pub All-of_mem : (P : ℕ → Type 0) (xs : List ℕ) → ((p : ℕ) → Mem p xs → P p) → All P xs
All-of_mem P [] h = tt
All-of_mem P (x ∷ xs) h = (h x mem-cons_self, All-of_mem P xs (λ p m. h p (mem-cons_of_mem x m)))

module _ (shuffle : List ℕ → List ℕ) (permutes : (xs : List ℕ) → Perm (shuffle xs) xs)
    (spec : List SandboxPortSpec) (used : List ℕ) (min_port max_port : ℕ) where
  free : List ℕ
  free = free_ports used min_port (max_port + 1 - min_port)

  assigned_sound :
      (ports : List SandboxPortAssign)
      → min_port ≤ max_port
      → length spec ≤ length free
      → ports ≡ assign_ports spec (shuffle free)
      → Serves spec ports
        × Nodup (host_ports ports)
        × All (IsFree used min_port (max_port + 1)) (host_ports ports)
  unfolding free
  assigned_sound ports h enough e = rw e (
    assign_ports-Serves spec (shuffle free) (rw (length-Perm (permutes free)) enough),
    assign_ports-Nodup spec (shuffle free)
        (Perm.nodup (Perm.symm (permutes free)) (free_ports-Nodup used min_port _)),
    All-of_mem _ _ λ p m.
        let f =
          free_ports-IsFree used min_port (max_port + 1 - min_port) p
            ((Perm.mem_iff (permutes free)).0 (mem-assign_ports spec (shuffle free) p m)) in
        (f.0, omega arith, f.2),
  )

some_inj {ℓ} : {A : Type ℓ} {a b : A} → some a ≡ some b → a ≡ b
some_inj e = cc

-- Whatever permutation the shuffle makes: the ports that allocateHostPorts assigns serve the request
-- in order (container port, and protocol with `tcp` for none), their host ports are pairwise
-- distinct, lie between the two bounds, and are not among the node's used ports.
pub allocate_host_ports_sound :
    (shuffle : List ℕ → List ℕ) (spec : List SandboxPortSpec) (used : List ℕ)
    (min_port max_port : ℕ) (ports : List SandboxPortAssign)
    → ((xs : List ℕ) → Perm (shuffle xs) xs)
    → allocate_host_ports shuffle spec used min_port max_port ≡ some ports
    → Serves spec ports
      × Nodup (host_ports ports)
      × All (IsFree used min_port (max_port + 1)) (host_ports ports)
unfolding allocate_host_ports
allocate_host_ports_sound shuffle [] used lo hi ports permutes h =
    rw (← some_inj h) (tt, Nodup-nil, tt)
allocate_host_ports_sound shuffle (s ∷ spec) used lo hi ports permutes h =
    elim (Bool-cases (ltb hi lo)) [
      | inl e ↦ cc
      | inr e ↦
          elim (Bool-cases (ltb (length (free_ports used lo (hi + 1 - lo))) (length (s ∷ spec)))) [
            | inl f ↦ cc
            | inr f ↦
                assigned_sound shuffle permutes (s ∷ spec) used lo hi ports (ground arith)
                  (unfold free in ground arith) (unfold free in ground arith)
          ]
    ]

-- The ports that are collected for allocation are exactly those of the range that are not in use.
pub mem-free_ports :
    (used : List ℕ) (lo n p : ℕ) → Mem p (free_ports used lo n) ↔ IsFree used lo (lo + n) p
mem-free_ports used lo n p = (free_ports-IsFree used lo n p, free_ports-complete used lo n p)

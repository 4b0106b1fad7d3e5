-- ===== src/Orch/Service/Ports/Refusal.antt =====
-- When allocateHostPorts refuses a request (sandboxd-orch/service/sandbox_ops.go), in terms of the ports
-- that are free, however they are collected.
use mathlib.Core.List.{Mem, Mem-prop, Nodup, Nodup-cons, mem-cons, mem-cons_self, mem-cons_of_mem}
use mathlib.Core.Logic.Or
use go_gvisor_containerd_let.Base.{
  ℕ, zero, suc, ◌+◌, ◌-◌, ◌≤◌, ◌<◌, ◌≡◌, refl, sym, subst, ◌⊎◌, inl, inr, ◌↔◌, false, none, List,
  [], ◌∷◌, length, arith, ◌==◌, ==_iff, Bool-cases, if◌then◌else◌,
}
use go_gvisor_containerd_let.Orch.Types.{SandboxPortSpec}
use go_gvisor_containerd_let.Orch.Tables.Rows.{All, All-map}
use go_gvisor_containerd_let.Orch.Service.Ports.{contains, free_ports, allocate_host_ports}
use go_gvisor_containerd_let.Orch.Service.Ports.Allocation.{
  IsFree, free_ports-IsFree, free_ports-Nodup, All-of_mem,
}

without : ℕ → List ℕ → List ℕ
without p [] = []
without p (x ∷ xs) = let rest = without p xs in if x == p then rest else x ∷ rest

module _ (p : ℕ) where
  mem-without : (q : ℕ) (xs : List ℕ) → Mem q (without p xs) → Mem q xs
  unfolding without
  mem-without q [] m = m
  mem-without q (x ∷ xs) m = elim (Bool-cases (x == p)) [
    | inl e ↦ mem-cons_of_mem x (mem-without q xs (rw e at m))
    | inr e ↦
        Or.elim Mem-prop (mem-cons.0 (rw e at m)) (λ h. rw h mem-cons_self)
          (λ k. mem-cons_of_mem x (mem-without q xs k))
  ]

  without-Nodup : (xs : List ℕ) → Nodup xs → Nodup (without p xs)
  unfolding without
  without-Nodup [] h = h
  without-Nodup (x ∷ xs) h = elim (Bool-cases (x == p)) [
    | inl e ↦ rw e (without-Nodup xs (Nodup-cons.0 h).1)
    | inr e ↦ rw e (
        Nodup-cons.1
          (λ m. (Nodup-cons.0 h).0 (mem-without x xs m), without-Nodup xs (Nodup-cons.0 h).1))
  ]

  without-absent : (xs : List ℕ) → ¬ Mem p xs → length (without p xs) ≡ length xs
  unfolding without
  without-absent [] h = refl
  without-absent (x ∷ xs) h = elim (Bool-cases (x == p)) [
    | inl e ↦ absurd (h (rw ((==_iff x p).0 e) mem-cons_self))
    | inr e ↦ rw e (let rest = without-absent xs (λ m. h (mem-cons_of_mem x m)) in omega arith)
  ]

  -- One port of a list without repetitions is taken out.
  length-without : (xs : List ℕ) → Nodup xs → length xs ≤ suc (length (without p xs))
  unfolding without
  length-without [] h = omega arith
  length-without (x ∷ xs) h = elim (Bool-cases (x == p)) [
    | inl e ↦
        let absent = subst (λ q. ¬ Mem q xs) ((==_iff x p).0 e) (Nodup-cons.0 h).0 in
        rw e (omega (arith, without-absent xs absent))
    | inr e ↦ rw e (omega (arith, length-without xs (Nodup-cons.0 h).1))
  ]

  All-without :
      (P : ℕ → Type 0) (xs : List ℕ) → All P xs → All (λ q. P q × ((q == p) ≡ false)) (without p xs)
  unfolding without
  All-without P [] h = tt
  All-without P (x ∷ xs) h = elim (Bool-cases (x == p)) [
    | inl e ↦ rw e (All-without P xs h.1)
    | inr e ↦ rw e ((h.0, e), All-without P xs h.1)
  ]

IsFree-next :
    (used : List ℕ) (lo n p : ℕ)
    → ¬ (p ≡ lo)
    → IsFree used lo (lo + suc n) p
    → IsFree used (lo + 1) (lo + 1 + n) p
IsFree-next used lo n p apart g = (omega arith, omega arith, g.2)

-- Ports that are free and distinct are at most as many as are collected.
length-free_ports :
    (used : List ℕ) (lo n : ℕ) (ports : List ℕ)
    → Nodup ports
    → All (IsFree used lo (lo + n)) ports
    → length ports ≤ length (free_ports used lo n)
unfolding free_ports
length-free_ports used lo zero [] d f = omega arith
length-free_ports used lo zero (p ∷ ports) d f = absurd (let g = f.0 in omega arith)
length-free_ports used lo (suc n) ports d f = elim (Bool-cases (contains lo used)) [
  | inl e ↦ rw e (
      length-free_ports used (lo + 1) n ports d (
        All-map (IsFree used lo (lo + suc n)) (IsFree used (lo + 1) (lo + 1 + n)) ports
          (λ p g.
            IsFree-next used lo n p (λ q. cc (e, subst (λ k. contains k used ≡ false) q g.2)) g)
          f))
  | inr e ↦
      let rest = length-free_ports used (lo + 1) n (without lo ports) (without-Nodup lo ports d) (
        All-map (λ q. IsFree used lo (lo + suc n) q × ((q == lo) ≡ false))
          (IsFree used (lo + 1) (lo + 1 + n)) (without lo ports)
          (λ p g. IsFree-next used lo n p (λ q. cc (g.1, (==_iff p lo).1 q)) g.0)
          (All-without lo (IsFree used lo (lo + suc n)) ports f)) in
      rw e (omega (arith, length-without lo ports d))
]

-- Distinct free ports of the range are always fewer than so many.
abbrev pub HasFewer : List ℕ → ℕ → ℕ → ℕ → Type 0
HasFewer used lo hi n =
    (ports : List ℕ) → Nodup ports → All (IsFree used lo hi) ports → length ports < n

empty_range : (used : List ℕ) (lo hi n : ℕ) → hi ≤ lo → 0 < n → HasFewer used lo hi n
empty_range used lo hi n h k [] d f = k
empty_range used lo hi n h k (p ∷ ports) d f = absurd (let g = f.0 in omega arith)

collected_fewer :
    (used : List ℕ) (lo hi n : ℕ)
    → lo ≤ hi
    → (length (free_ports used lo (hi - lo)) < n) ↔ HasFewer used lo hi n
collected_fewer used lo hi n h =
    let span : lo + (hi - lo) ≡ hi = omega arith in
    (
      λ few ports d f.
          let most =
            length-free_ports used lo (hi - lo) ports d
              (subst (λ k. All (IsFree used lo k) ports) (sym span) f) in
          omega arith,
      λ few. few (free_ports used lo (hi - lo)) (free_ports-Nodup used lo (hi - lo)) (
          subst (λ k. All (IsFree used lo k) (free_ports used lo (hi - lo))) span
            (All-of_mem _ _ (free_ports-IsFree used lo (hi - lo)))),
    )

ltb_cases : (a b : ℕ) → (a < b) ⊎ (b ≤ a)
ltb_cases a b = ground arith

refused_iff :
    (shuffle : List ℕ → List ℕ) (spec : List SandboxPortSpec) (used : List ℕ) (lo hi : ℕ)
    → (allocate_host_ports shuffle spec used lo hi ≡ none) ↔ (
        (0 < length spec) × ((hi < lo) ⊎ (length (free_ports used lo (hi + 1 - lo)) < length spec)))
unfolding allocate_host_ports
refused_iff shuffle [] used lo hi = (λ e. cc, λ h. absurd (omega arith))
refused_iff shuffle (s ∷ spec) used lo hi = ground arith

-- Whatever the shuffle does, a request for ports is refused exactly where it names a port and any
-- distinct ports that lie between the two bounds and are not in use are fewer than it names.
pub allocate_host_ports-none :
    (shuffle : List ℕ → List ℕ) (spec : List SandboxPortSpec) (used : List ℕ)
    (min_port max_port : ℕ)
    → (allocate_host_ports shuffle spec used min_port max_port ≡ none)
      ↔ ((0 < length spec) × HasFewer used min_port (max_port + 1) (length spec))
allocate_host_ports-none shuffle spec used lo hi =
    let refused = refused_iff shuffle spec used lo hi in
    (
      λ e.
          let (named, why) = refused.0 e in
          (
            named,
            elim why [
              | inl h ↦ empty_range used lo (hi + 1) (length spec) (omega arith) named
              | inr few ↦ elim (ltb_cases hi lo) [
                | inl h ↦ empty_range used lo (hi + 1) (length spec) (omega arith) named
                | inr h ↦ (collected_fewer used lo (hi + 1) (length spec) (omega arith)).0 few
              ]
            ],
          ),
      λ h. refused.1 (
        h.0,
        elim (ltb_cases hi lo) [
          | inl e ↦ inl e
          | inr e ↦ inr ((collected_fewer used lo (hi + 1) (length spec) (omega arith)).1 h.1)
        ],
      ),
    )

-- ===== src/Orch/Repo/Nodes/Usage.antt =====
-- AdjustNodeResourceUsage of sandboxd-orch/repo/node_repo.go: the figures that it leaves in a row.
use go_gvisor_containerd_let.Base.{
  ℕ, ℤ, pos, negsuc, pos_part, neg_part, ◌≡◌, refl, ◌+ℤ◌, ◌-ℤ◌, ◌≤ℤ◌, ◌+◌, ◌⊎◌, inl, inr, max_zero,
  arith, int_laws,
}
use go_gvisor_containerd_let.Base.Int.{eq_of_parts}
use go_gvisor_containerd_let.Orch.Types.{NodeResources}
use go_gvisor_containerd_let.Orch.Repo.Nodes.{adjust_resources}

-- What is used and what is available are not negative, and together they make up what can be
-- allocated, unless at least that is used; then nothing is available.
abbrev pub IsBalanced : ℤ → ℤ → ℤ → Type 0
IsBalanced allocatable used available =
    (pos 0 ≤ℤ used)
    × (pos 0 ≤ℤ available)
    × ((used +ℤ available ≡ allocatable) ⊎ (allocatable ≤ℤ used) × (available ≡ pos 0))

rest-IsBalanced :
    (a : ℤ) (u : ℕ) (d : ℤ)
    → pos_part d + neg_part a + u ≡ neg_part d + pos_part a
    → IsBalanced a (pos u) (max_zero d)
rest-IsBalanced a u (pos n) h =
    (omega arith, omega arith, inl (eq_of_parts (pos u +ℤ pos n) a (grind int_laws)))
rest-IsBalanced a u (negsuc n) h = (omega arith, omega arith, inr (omega arith, refl))

balanced : (a u : ℤ) → IsBalanced a (max_zero u) (max_zero (a -ℤ max_zero u))
balanced a (pos u) = rest-IsBalanced a u (a -ℤ pos u) (grind int_laws)
balanced a (negsuc u) = rest-IsBalanced a 0 (a -ℤ pos 0) (grind int_laws)

-- Whatever the row said, and whatever is added or taken away, the figures of the CPU and those of the memory are
-- balanced afterwards: nothing is negative, and used and available make up the allocatable amount
-- unless that is exhausted.
pub adjust_resources-IsBalanced :
    (cpu mem : ℤ) (r : NodeResources)
    → let r' = adjust_resources cpu mem r in
      IsBalanced r.allocatable_cpu_milli r'.used_cpu_milli r'.available_cpu_milli
      × IsBalanced r.allocatable_memory r'.used_memory_bytes r'.available_memory
unfolding adjust_resources
adjust_resources-IsBalanced cpu mem r = (
  balanced r.allocatable_cpu_milli (r.used_cpu_milli +ℤ cpu),
  balanced r.allocatable_memory (r.used_memory_bytes +ℤ mem),
)

returned : (u x : ℕ) → max_zero (max_zero (pos u +ℤ pos x) +ℤ (pos 0 -ℤ pos x)) ≡ pos u
unfolding ◌+ℤ◌ ◌-ℤ◌
returned u x = ground arith

-- To charge a node that reports no negative use, and to give the same amounts back, restores the used figures; the available ones
-- are computed anew from them.
pub adjust_resources-restores :
    (u v x y : ℕ) (r : NodeResources)
    → r.used_cpu_milli ≡ pos u
    → r.used_memory_bytes ≡ pos v
    → adjust_resources (pos 0 -ℤ pos x) (pos 0 -ℤ pos y) (adjust_resources (pos x) (pos y) r)
      ≡ record r {
        available_cpu_milli = max_zero (r.allocatable_cpu_milli -ℤ r.used_cpu_milli);
        available_memory = max_zero (r.allocatable_memory -ℤ r.used_memory_bytes);
      }
unfolding adjust_resources
adjust_resources-restores u v x y r hu hv =
    rw hu (rw hv (rw (returned u x) (rw (returned v y) refl)))

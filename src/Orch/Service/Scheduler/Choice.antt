-- ===== src/Orch/Service/Scheduler/Choice.antt =====
-- The choice of scheduleOne (sandboxd-orch/service/sandbox_ops.go): which node a pending sandbox gets.
use go_gvisor_containerd_let.Base.{
  ℤ, ◌≡◌, refl, ◌-ℤ◌, int64, ◌≤ℤ◌, true, false, Option, none, some, List, [], ◌∷◌, inl, inr, ◌⊎◌,
  arith,
}
use go_gvisor_containerd_let.Orch.Types.{Node, Sandbox, SandboxPortAssign}
use go_gvisor_containerd_let.Orch.Tables.{sort_by}
use go_gvisor_containerd_let.Orch.Tables.Rows.{All}
use go_gvisor_containerd_let.Orch.Tables.Order.{IsTop, All-sort_by, sort_by-IsTop}
use go_gvisor_containerd_let.Orch.World.{ok, World, pure}
use go_gvisor_containerd_let.Orch.World.Holds.{
  Holds, Holds-at, Holds-bind, Holds-if, Holds-mono, Holds-any,
}
use go_gvisor_containerd_let.Orch.Service.Scheduler.{
  Candidate, has_room, keep_candidate, candidate_ports, candidates, before, ranked,
}

-- The CPU that the node would have left.
abbrev pub left_over : ℤ → Candidate → ℤ
left_over cpu c = int64 (c.node.resources.available_cpu_milli -ℤ cpu)

before-up : (cpu : ℤ) (a x : Candidate) → before cpu a x ≡ true → left_over cpu x ≤ℤ left_over cpu a
unfolding before
before-up cpu a x h = ground arith

before-down :
    (cpu : ℤ) (a x : Candidate) → before cpu a x ≡ false → left_over cpu a ≤ℤ left_over cpu x
unfolding before
before-down cpu a x h = ground arith

module _ (cpu mem : ℤ) (sbx : Sandbox) where
  -- A node that the scheduler may take.
  abbrev pub HasRoom : Node → Option (List SandboxPortAssign) → Type 0
  HasRoom n o = o ≡ none ⊎ has_room cpu mem n ≡ true

  candidate_ports-Holds :
      (n : Node) (w : World) → Holds (λ o _. HasRoom n o) (candidate_ports cpu mem sbx n w)
  unfolding candidate_ports pure
  candidate_ports-Holds n w =
      Holds-if _ (has_room cpu mem n) _ (pure none) w (λ e. Holds-any _ (λ o v. inr e))
        (λ e. inl refl)

  kept :
      (P : Node → Type 0) (n : Node) (o : Option (List SandboxPortAssign)) (rest : List Candidate)
      → P n
      → HasRoom n o
      → All (λ c. P c.node × (has_room cpu mem c.node ≡ true)) rest
      → All (λ c. P c.node × (has_room cpu mem c.node ≡ true)) (keep_candidate n o rest)
  unfolding keep_candidate
  kept P n none rest p h g = g
  kept P n (some ports) rest p (inr e) g = ((p, e), g)
  kept P n (some ports) rest p (inl e) g = cc

  candidates-Holds :
      (P : Node → Type 0) (nodes : List Node) (w : World)
      → All P nodes
      → Holds
          (λ cands _. All (λ c. P c.node × (has_room cpu mem c.node ≡ true)) cands)
          (candidates cpu mem sbx nodes w)
  unfolding candidates pure
  candidates-Holds P [] w h = tt
  candidates-Holds P (n ∷ nodes) w h = Holds-bind _ (candidate_ports cpu mem sbx n) _ w (
      Holds-mono (λ o _. HasRoom n o) _ (candidate_ports-Holds n w)
        (λ o v room. Holds-bind _ (candidates cpu mem sbx nodes) _ v (
          Holds-mono (λ cands _. All (λ c. P c.node × (has_room cpu mem c.node ≡ true)) cands) _
            (candidates-Holds P nodes v h.1) (λ cands u g. kept P n o cands h.0 room g))))

  -- What is known of the first of the ranked candidates.
  abbrev pub IsChoice : (Node → Type 0) → List Candidate → List Candidate → Type 0
  IsChoice P cands [] = cands ≡ []
  IsChoice P cands (chosen ∷ others) =
      P chosen.node
      × (has_room cpu mem chosen.node ≡ true)
      × All (λ c. left_over cpu c ≤ℤ left_over cpu chosen) cands

  choice :
      (P : Node → Type 0) (cands ordered : List Candidate)
      → IsTop (before cpu) (left_over cpu) (before-up cpu) (before-down cpu) ordered cands
      → All (λ c. P c.node × (has_room cpu mem c.node ≡ true)) ordered
      → IsChoice P cands ordered
  choice P cands [] t h = t
  choice P cands (chosen ∷ others) t h = (h.0.0, h.0.1, t)

  -- Whatever the store and the other goroutines do while the candidates are collected: where there is
  -- none, no candidate was found; otherwise the node that is taken is one of the nodes that were listed (it has
  -- whatever property they all have), it is ready, has the CPU and the memory, and no other candidate would
  -- have more CPU left.
  pub candidates-IsChoice :
      (P : Node → Type 0) (nodes : List Node) (w w' : World) (cands : List Candidate)
      → All P nodes
      → candidates cpu mem sbx nodes w ≡ (ok cands, w')
      → IsChoice P cands (ranked cpu cands)
  unfolding ranked
  candidates-IsChoice P nodes w w' cands h e =
      choice P cands (sort_by (before cpu) cands)
        (sort_by-IsTop (before cpu) (left_over cpu) (before-up cpu) (before-down cpu) cands)
        (All-sort_by (before cpu) _ cands (
          Holds-at (λ cs _. All (λ c. P c.node × (has_room cpu mem c.node ≡ true)) cs) _
            (candidates-Holds P nodes w h) e))

-- ===== src/Orch/Repo/Sandboxes/Loops.antt =====
-- The two loops of ReserveSandboxPortsAndSchedule: the check of the ports and their insertion.
use go_gvisor_containerd_let.Base.{
  ℕ, suc, ◌≡◌, refl, ◌∙◌, inl, inr, String, Bool, true, false, ◌&&◌, ◌||◌, not, List, [], ◌∷◌,
  subst, arith, Bool-cases,
}
use go_gvisor_containerd_let.Orch.Types.{SandboxPortAssign}
use go_gvisor_containerd_let.Orch.Tables.{Db, SandboxPortRow, exists, select}
use text.Mathlib.TextPositions.{eq_refl}
use go_gvisor_containerd_let.Orch.Tables.Rows.{All, exists-insert, select-insert}
use go_gvisor_containerd_let.Orch.World.{
  World, pure, raise, lift, seen, after_statement, attempt, read_clock, statement, for_each,
}
use go_gvisor_containerd_let.Orch.World.Holds.{
  Holds, IsAlone, Holds-if, Holds-mono, Holds-bind, Holds-attempt, Holds-statement, Holds-query,
}
use go_gvisor_containerd_let.Orch.Repo.Sandboxes.{
  has_id, owned_by, holds_port, insert_port, port_row, check_port_free, as_conflict,
  already_reserved, reserve_port,
}

-- Nobody holds the host port on the node.
abbrev pub Unheld : String → Db → SandboxPortAssign → Type 0
Unheld node d p = exists (holds_port node p.host_port) d.sandbox_ports ≡ false

-- The sandbox holds the host port on the node.
abbrev pub Held : String → String → Db → SandboxPortAssign → Type 0
Held id node d p =
    exists (λ r. owned_by id r && holds_port node p.host_port r) d.sandbox_ports ≡ true

-- The ports of the other sandboxes.
abbrev pub foreign_ports : String → Db → List SandboxPortRow
foreign_ports id d = select (λ r. not (owned_by id r)) d.sandbox_ports

-- What the first loop ends with: nothing has changed, and nobody holds the ports.
abbrev pub Checked : String → World → List SandboxPortAssign → Unit {0} → World → Type 0
Checked node w ports _ w' = (w'.db ≡ w.db) × (w'.env ≡ w.env) × All (Unheld node w.db) ports

pub check_port_free-Holds :
    (node : String) (p : SandboxPortAssign) (w : World)
    → IsAlone w
    → Holds (Checked node w (p ∷ [])) (check_port_free node p w)
unfolding check_port_free raise pure
check_port_free-Holds node p w al = Holds-bind _ _ _ w (
    Holds-query _ _ w (
      Holds-if (Checked node w (p ∷ []))
        (exists (holds_port node p.host_port) (seen w).sandbox_ports)
        (raise (already_reserved node p.host_port)) (pure tt) (after_statement w (seen w)) (λ e. tt)
        (λ e. (al w.step w.db, refl, rw (← al w.step w.db) (e, tt)))))

pub check_ports-Holds :
    (node : String) (ports : List SandboxPortAssign) (w : World)
    → IsAlone w
    → Holds (Checked node w ports) (for_each (check_port_free node) ports w)
unfolding for_each pure
check_ports-Holds node [] w al = (refl, refl, tt)
check_ports-Holds node (p ∷ ports) w al = Holds-bind _ (check_port_free node p) _ w (
    Holds-mono (Checked node w (p ∷ [])) _ (check_port_free-Holds node p w al) (λ _ v h.
      Holds-mono (Checked node v ports) _ (check_ports-Holds node ports v (rw h.1 al))
        (λ _ u g. (g.0 ∙ h.0, g.1 ∙ h.1, (h.2.0, subst (λ d. All (Unheld node d) ports) h.0 g.2)))))

-- What the second loop ends with: the sandboxes and the others' ports are as before, what the
-- sandbox held it still holds, and it holds the ports.
abbrev pub Inserted : String → String → World → List SandboxPortAssign → Unit {0} → World → Type 0
Inserted id node w ports _ w' =
    (w'.db.sandboxes ≡ w.db.sandboxes)
    × (w'.env ≡ w.env)
    × (foreign_ports id w'.db ≡ foreign_ports id w.db)
    × ((p : SandboxPortAssign) → Held id node w.db p → Held id node w'.db p)
    × All (Held id node w'.db) ports

pub own_port_row :
    (id node : String) (p : SandboxPortAssign) (now : ℕ)
    → owned_by id (port_row id node p now) ≡ true
unfolding port_row
own_port_row id node p now = eq_refl id

pub or_true : (b : Bool) → (b || true) ≡ true
or_true true = refl
or_true false = refl

pub port_row-Held :
    (id node : String) (p : SandboxPortAssign) (now : ℕ)
    → (owned_by id (port_row id node p now) && holds_port node p.host_port (port_row id node p now))
      ≡ true
unfolding port_row
port_row-Held id node p now = ground (arith, eq_refl id, eq_refl node)

pub insert_port-Holds :
    (id node : String) (p : SandboxPortAssign) (now : ℕ) (w : World)
    → IsAlone w
    → Holds (Inserted id node w (p ∷ [])) (
      (insert_port (port_row id node p now) (seen w)).0,
      after_statement w (insert_port (port_row id node p now) (seen w)).1,
    )
unfolding insert_port
insert_port-Holds id node p now w al =
    rw (al w.step w.db)
      (elim (Bool-cases (
        exists (holds_port (port_row id node p now).node_name (port_row id node p now).host_port)
          w.db.sandbox_ports)) [
            | inl e ↦ rw e tt
            | inr e ↦
                rw e
                  (elim (Bool-cases
                    (exists (has_id (port_row id node p now).sandbox_id) w.db.sandboxes)) [
                      | inr f ↦ rw f tt
                      | inl f ↦ rw f (
                        refl,
                        refl,
                        rw
                            (select-insert (λ r. not (owned_by id r)) (port_row id node p now)
                              w.db.sandbox_ports)
                            (rw (own_port_row id node p now) refl),
                        λ q h.
                            rw (exists-insert _ (port_row id node p now) w.db.sandbox_ports)
                              (rw h refl),
                        (
                          rw (exists-insert _ (port_row id node p now) w.db.sandbox_ports)
                              (rw (port_row-Held id node p now) (or_true _)),
                          tt,
                        ),
                      )
                    ])
          ])

pub reserve_port-Holds :
    (id node : String) (p : SandboxPortAssign) (w : World)
    → IsAlone w
    → Holds (Inserted id node w (p ∷ [])) (reserve_port id node p w)
unfolding reserve_port read_clock lift as_conflict
reserve_port-Holds id node p w al = Holds-bind _ read_clock _ w (
    Holds-bind _ (attempt (statement (insert_port (port_row id node p (w.env.now w.step))))) _
      (record w { step = suc w.step })
      (Holds-attempt (Inserted id node w (p ∷ [])) _ _ _
        (Holds-statement _ _ _
          (insert_port-Holds id node p (w.env.now w.step) (record w { step = suc w.step }) al))
        (λ a w' h. h) (λ e w'. tt)))

pub Held-All :
    (id node : String) (d d' : Db) (ports : List SandboxPortAssign)
    → ((p : SandboxPortAssign) → Held id node d p → Held id node d' p)
    → All (Held id node d) ports
    → All (Held id node d') ports
Held-All id node d d' [] k h = tt
Held-All id node d d' (p ∷ ports) k h = (k p h.0, Held-All id node d d' ports k h.1)

pub reserve_ports-Holds :
    (id node : String) (ports : List SandboxPortAssign) (w : World)
    → IsAlone w
    → Holds (Inserted id node w ports) (for_each (reserve_port id node) ports w)
unfolding for_each pure
reserve_ports-Holds id node [] w al = (refl, refl, refl, (λ p h. h), tt)
reserve_ports-Holds id node (p ∷ ports) w al = Holds-bind _ (reserve_port id node p) _ w (
    Holds-mono (Inserted id node w (p ∷ [])) _ (reserve_port-Holds id node p w al) (λ _ v h.
      Holds-mono (Inserted id node v ports) _ (reserve_ports-Holds id node ports v (rw h.1 al))
        (λ _ u g. (g.0 ∙ h.0, g.1 ∙ h.1, g.2 ∙ h.2, (λ q x. g.3 q (h.3 q x)), (g.3 p h.4.0, g.4)))))

-- ===== src/Orch/Repo/Sandboxes/Reserve.antt =====
-- ReserveSandboxPortsAndSchedule of sandboxd-orch/repo/sandbox_repo.go: all or nothing.
use go_gvisor_containerd_let.Base.{
  ℕ, suc, ◌≡◌, refl, sym, ap, ◌∙◌, String, not, Option, none, some, List,
}
use go_gvisor_containerd_let.Orch.Types.{SandboxPortAssign, scheduled}
use go_gvisor_containerd_let.Orch.Tables.{Db, SandboxRow, find, select, update}
use go_gvisor_containerd_let.Orch.Tables.Rows.{All}
use go_gvisor_containerd_let.Orch.World.{
  Error, ok, err, World, pure, ◌>>=◌, seen, read_clock, query, for_each,
}
use go_gvisor_containerd_let.Orch.World.Holds.{
  Holds, IsAlone, Holds-mono, Holds-at, Holds-bind, Holds-query, Holds-exec, Holds-transaction,
  transaction_error,
}
use go_gvisor_containerd_let.Orch.Repo.Sandboxes.{
  has_id, owned_by, required, scan_sandbox, find_sandbox, get_sandbox, set_status,
  update_status_row, update_sandbox_status, check_port_free, reserve_port, reserve_body,
  reserve_sandbox_ports_and_schedule,
}
use go_gvisor_containerd_let.Orch.Repo.Sandboxes.Loops.{
  Unheld, Held, foreign_ports, Checked, check_ports-Holds, Inserted, Held-All, reserve_ports-Holds,
}

-- The row of the sandbox was there, and it is now scheduled on the node, with the ports.
abbrev pub Scheduled : String → String → Db → List SandboxPortAssign → Db → Type 0
Scheduled id node d ports d' =
    (row : SandboxRow) × (now : ℕ) × (find (has_id id) d.sandboxes ≡ some row)
    × (d'.sandboxes
        ≡ update (has_id id)
            (set_status
              (record (scan_sandbox row).status {
                node_name = node;
                phase = scheduled;
                assigned_ports = ports;
              })
              now)
            d.sandboxes)

-- From the tables `d` to the tables `d'`: nobody held the ports, now the sandbox does, the ports of
-- the other sandboxes are as they were, and the sandbox is scheduled.
abbrev pub Reserved : String → String → Db → List SandboxPortAssign → Db → Type 0
Reserved id node d ports d' =
    All (Unheld node d) ports
    × All (Held id node d') ports
    × (foreign_ports id d' ≡ foreign_ports id d)
    × Scheduled id node d ports d'

found-Holds :
    (id node : String) (ports : List SandboxPortAssign) (d : Db) (o : Option SandboxRow) (w : World)
    → find (has_id id) d.sandboxes ≡ o
    → IsAlone w
    → w.db ≡ d
    → Holds
        (λ row v.
          Holds
            (λ _ w'. (w'.db.sandbox_ports ≡ d.sandbox_ports) × Scheduled id node d ports w'.db)
            (update_sandbox_status id
              (record (scan_sandbox row).status {
                node_name = node;
                phase = scheduled;
                assigned_ports = ports;
              })
              v))
        (required o, w)
unfolding update_sandbox_status read_clock update_status_row required
found-Holds id node ports d none w e al same = tt
found-Holds id node ports d (some row) w e al same = Holds-bind _ read_clock _ w (
    Holds-exec _ _ (record w { step = suc w.step })
      (rw (al (suc w.step) w.db) (rw same (refl, (row, w.env.now w.step, e, refl)))))

schedule-Holds :
    (id node : String) (ports : List SandboxPortAssign) (w : World)
    → IsAlone w
    → Holds
        (λ _ w'. (w'.db.sandbox_ports ≡ w.db.sandbox_ports) × Scheduled id node w.db ports w'.db)
        ((get_sandbox id >>= λ sbx.
            update_sandbox_status id
              (record sbx.status { node_name = node; phase = scheduled; assigned_ports = ports }))
          w)
unfolding get_sandbox pure find_sandbox
schedule-Holds id node ports w al = Holds-bind _ (get_sandbox id) _ w (
    Holds-bind _ (query (find_sandbox id)) _ w (
      Holds-query _ _ w (
        rw (al w.step w.db) (
          found-Holds id node ports w.db (find (has_id id) w.db.sandboxes)
            (record w { db = w.db; step = suc w.step }) refl al refl))))

Held-ports :
    (id node : String) (ports : List SandboxPortAssign) (d d' : Db)
    → d'.sandbox_ports ≡ d.sandbox_ports
    → All (Held id node d) ports
    → All (Held id node d') ports
Held-ports id node ports d d' e h = Held-All id node d d' ports (λ p g. rw e g) h

Scheduled-from :
    (id node : String) (ports : List SandboxPortAssign) (d' u d : Db)
    → u.sandboxes ≡ d.sandboxes
    → Scheduled id node u ports d'
    → Scheduled id node d ports d'
Scheduled-from id node ports d' u d e h = rw (sym e) h

reserve_body-Holds :
    (id node : String) (ports : List SandboxPortAssign) (w : World)
    → IsAlone w
    → Holds (λ _ w'. Reserved id node w.db ports w'.db) (reserve_body id node ports w)
unfolding reserve_body
reserve_body-Holds id node ports w al = Holds-bind _ (for_each (check_port_free node) ports) _ w (
    Holds-mono (Checked node w ports) _ (check_ports-Holds node ports w al) (λ _ v h.
      Holds-bind _ (for_each (reserve_port id node) ports) _ v (
        Holds-mono (Inserted id node v ports) _ (reserve_ports-Holds id node ports v (rw h.1 al))
          (λ _ u g.
            Holds-mono
              (λ _ w'.
                (w'.db.sandbox_ports ≡ u.db.sandbox_ports) × Scheduled id node u.db ports w'.db)
              _ (schedule-Holds id node ports u (rw g.1 (rw h.1 al)))
              (λ _ t k. (
                h.2,
                Held-ports id node ports u.db t.db k.0 g.4,
                ap (select (λ r. not (owned_by id r))) k.0 ∙ g.2 ∙ ap (foreign_ports id) h.0,
                Scheduled-from id node ports t.db u.db w.db (g.0 ∙ ap (λ d. d.sandboxes) h.0) k.1,
              ))))))

-- Where the reservation succeeds: no sandbox held any of the ports on the node before, all of them are
-- held by this sandbox after, the ports of other sandboxes are untouched, and the sandbox, which was
-- there, has become scheduled on the node with exactly these ports.
pub reserve_sandbox_ports_and_schedule-reserves :
    (id node : String) (ports : List SandboxPortAssign) (w w' : World)
    → reserve_sandbox_ports_and_schedule id node ports w ≡ (ok tt, w')
    → Reserved id node (seen w) ports w'.db
unfolding reserve_sandbox_ports_and_schedule
reserve_sandbox_ports_and_schedule-reserves id node ports w w' e =
    Holds-at (λ _ v. Reserved id node (seen w) ports v.db) _
      (Holds-transaction _ (reserve_body id node ports) w
        (reserve_body-Holds id node ports _ (λ k d. refl)))
      e

-- Where the reservation fails, it has left the tables as it found them.
pub reserve_sandbox_ports_and_schedule-atomic :
    (id node : String) (ports : List SandboxPortAssign) (w : World) (e : Error)
    → (reserve_sandbox_ports_and_schedule id node ports w).0 ≡ err e
    → (reserve_sandbox_ports_and_schedule id node ports w).1.db ≡ seen w
unfolding reserve_sandbox_ports_and_schedule
reserve_sandbox_ports_and_schedule-atomic id node ports w e h =
    transaction_error (reserve_body id node ports) w e h

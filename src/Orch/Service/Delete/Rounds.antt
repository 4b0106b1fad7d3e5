-- ===== src/Orch/Service/Delete/Rounds.antt =====
-- runSandboxReconcileOnce where the store and the agents answer: one round removes what is due.
use go_gvisor_containerd_let.Base.{
  ℕ, suc, ◌≡◌, refl, ap, subst, ◌∙◌, Bool, true, false, ◌||◌, ◌&&◌, List, [], ◌∷◌, map, arith,
  eq_iff,
}
use go_gvisor_containerd_let.Orch.Types.{Sandbox, SandboxStatus, is_deleting}
use go_gvisor_containerd_let.Orch.Tables.{Db, SandboxRow, exists, delete, sort_by}
use go_gvisor_containerd_let.Orch.Tables.Rows.{
  exists-weaker, All-zip, All, All-map, Unique, delete-update, delete-ext, exists-All, All-every,
}
use go_gvisor_containerd_let.Orch.Tables.Order.{exists-sort_by}
use go_gvisor_containerd_let.Orch.World.{
  Result, ok, World, pure, after_statement, ◌>>=◌, ignore, read_clock, attempt, for_each,
}
use go_gvisor_containerd_let.Orch.World.Calm.{
  Ends, Ends-if, Ends-bind_query, Ends-exec, Ends-for_each,
}
use go_gvisor_containerd_let.Orch.Repo.Sandboxes.{
  has_id, owned_by, scan_sandbox, list_sandboxes, update_sandbox_status, update_status_row,
  set_status,
}
use go_gvisor_containerd_let.Orch.Repo.Invariant.{same_id, str_eq_comm, IsConsistent}
use go_gvisor_containerd_let.Orch.Service.Delete.{
  finalize_sandbox_delete, mark_deleting, is_expired, reconcile_one, reconcile_listed,
  run_sandbox_reconcile_once,
}
use go_gvisor_containerd_let.Orch.Service.Delete.Cleanup.{
  IsServing, IsRemoved, finalize_sandbox_delete-removes,
}
use go_gvisor_containerd_let.Orch.Service.Delete.Sweeping.{
  swept, is_swept, swept-delete, IsUnderway, is_due, the_row, its_ports,
}

module _ (now : ℕ) (sbx : Sandbox) where
  -- What one step has done.
  abbrev Stepped : Db → Result (Unit {0}) → World → Type 0
  Stepped d r w = (r ≡ ok tt) × (IsRemoved sbx.id d w.db × IsServing w.env)

  finalize-Stepped :
      (s : Sandbox) (w : World)
      → s.id ≡ sbx.id
      → IsServing w.env
      → Ends (Stepped w.db) (ignore (finalize_sandbox_delete s) w)
  unfolding ignore
  finalize-Stepped s w e h =
      let f = finalize_sandbox_delete-removes s w h in
      (refl, (subst (λ i. IsRemoved i w.db (finalize_sandbox_delete s w).1.db) e f.1.0, f.1.1))

  -- What follows a change of the status is a deletion of the row with the old one.
  IsRemoved-before :
      (st : SandboxStatus) (at : ℕ) (d d' : Db)
      → IsRemoved sbx.id (update_status_row sbx.id st at d) d'
      → IsRemoved sbx.id d d'
  unfolding update_status_row set_status
  IsRemoved-before st at d d' r = record {
    sandboxes =
        r.sandboxes ∙ delete-update (has_id sbx.id) (set_status st at) d.sandboxes (λ x. refl);
    ports = r.ports;
    nodes = r.nodes;
    externals = r.externals;
  }

  expire-Stepped :
      (w : World)
      → IsServing w.env
      → Ends (Stepped w.db) (
          (ignore (update_sandbox_status sbx.id (mark_deleting "ttl expired" sbx).status) >>= λ _.
          ignore (finalize_sandbox_delete (mark_deleting "ttl expired" sbx)))
            w)
  unfolding ignore ◌>>=◌ update_sandbox_status read_clock mark_deleting
  expire-Stepped w s =
      let st = (mark_deleting "ttl expired" sbx).status in
      Ends-exec
        (λ r v.
          Ends (Stepped w.db)
            (ignore (finalize_sandbox_delete (mark_deleting "ttl expired" sbx)) v))
        (update_status_row sbx.id st (w.env.now w.step)) (record w { step = suc w.step }) s.calm
        (let f =
            finalize_sandbox_delete-removes (mark_deleting "ttl expired" sbx)
              (after_statement (record w { step = suc w.step })
                (update_status_row sbx.id st (w.env.now w.step) w.db))
              s in
          (refl, (IsRemoved-before st (w.env.now w.step) w.db _ f.1.0, f.1.1)))

module _ (now : ℕ) (all : List Sandbox) (d : Db) where
  abbrev Advanced : List Sandbox → Result (Unit {0}) → World → Type 0
  Advanced ss r w = (r ≡ ok tt) × IsUnderway now all d ss w

  advance :
      (s : Sandbox) (ss : List Sandbox) (v w : World)
      → is_due now s ≡ true
      → IsUnderway now all d (s ∷ ss) v
      → IsRemoved s.id v.db w.db × IsServing w.env
      → IsUnderway now all d ss w
  unfolding swept
  advance s ss v w e u r = record {
    sandboxes = ap (swept now the_row ss) r.0.sandboxes ∙ (rw e at u.sandboxes);
    ports = ap (swept now its_ports ss) r.0.ports ∙ (rw e at u.ports);
    nodes = r.0.nodes ∙ u.nodes;
    externals = r.0.externals ∙ u.externals;
    serving = r.1;
  }

  skip :
      (s : Sandbox) (ss : List Sandbox) (v : World)
      → is_due now s ≡ false
      → IsUnderway now all d (s ∷ ss) v
      → IsUnderway now all d ss v
  unfolding swept
  skip s ss v e u = record {
    sandboxes = rw e at u.sandboxes;
    ports = rw e at u.ports;
    nodes = u.nodes;
    externals = u.externals;
    serving = u.serving;
  }

  reconcile_one-Advanced :
      (s : Sandbox) (ss : List Sandbox) (w : World)
      → IsUnderway now all d (s ∷ ss) w
      → Ends (Advanced ss) (reconcile_one now s w)
  unfolding reconcile_one pure
  reconcile_one-Advanced s ss w u =
      Ends-if (Advanced ss) (is_deleting s.status.phase) _ _ w
        (λ e.
          let f = finalize-Stepped now s s w refl u.serving in
          (f.0, advance s ss w _ (ground arith) u f.1))
        (λ e.
          Ends-if (Advanced ss) (is_expired now s.status.expire_at) _ _ w
            (λ g.
              let f = expire-Stepped now s w u.serving in
              (f.0, advance s ss w _ (ground arith) u f.1))
            (λ g. (refl, skip s ss w (ground arith) u)))

abbrev pub due_row : ℕ → SandboxRow → Bool
due_row now r = is_due now (scan_sandbox r)

-- The due sandboxes are gone, with their ports, and all other rows are as they were.
pub record IsSwept (now : ℕ) (d d' : Db) : Type 0 where
  pub sandboxes : d'.sandboxes ≡ delete (due_row now) d.sandboxes
  pub ports :
      d'.sandbox_ports
      ≡ delete (λ p. exists (λ r. due_row now r && owned_by r.id p) d.sandboxes) d.sandbox_ports
  pub nodes : d'.nodes ≡ d.nodes
  pub externals : d'.node_externals ≡ d.node_externals

exists-map :
    {A B : Type 0} (p : B → Bool) (f : A → B) (xs : List A)
    → exists p (map f xs) ≡ exists (λ x. p (f x)) xs
unfolding exists
exists-map p f [] = refl
exists-map p f (x ∷ xs) = ap (λ b. p (f x) || b) (exists-map p f xs)

module _ (now : ℕ) where
  -- With unique ids, the rows that a due sandbox's id selects are the due ones.
  swept-due :
      (rows : List SandboxRow)
      → Unique same_id rows
      → All (λ r. exists (λ x. due_row now x && same_id x r) rows ≡ due_row now r) rows
  unfolding exists
  swept-due [] u = tt
  swept-due (x ∷ xs) u =
      let apart =
        exists-weaker (λ y. due_row now y && same_id y x) (same_id x) xs
          (λ y e. ground (arith, str_eq_comm x.id y.id)) u.0 in
      (
        ground (arith, eq_iff x.id x.id),
        All-zip (λ y. same_id x y ≡ false) _ _ xs (λ y e h. ground arith)
            (exists-All (same_id x) xs u.0) (swept-due xs u.1),
      )

  -- What the listing and the sort lose nothing of.
  is_swept-listed :
      {A : Type 0} (clause : Sandbox → A → Bool) (before : SandboxRow → SandboxRow → Bool)
      (rows : List SandboxRow) (a : A)
      → is_swept now clause (map scan_sandbox (sort_by before rows)) a
        ≡ exists (λ r. due_row now r && clause (scan_sandbox r) a) rows
  is_swept-listed clause before rows a =
      exists-map (λ s. is_due now s && clause s a) scan_sandbox (sort_by before rows)
      ∙ exists-sort_by before (λ r. due_row now r && clause (scan_sandbox r) a) rows

  IsUnderway-IsSwept :
      (before : SandboxRow → SandboxRow → Bool) (d : Db) (w : World)
      → Unique same_id d.sandboxes
      → IsUnderway now (map scan_sandbox (sort_by before d.sandboxes)) d [] w
      → IsSwept now d w.db
  unfolding swept scan_sandbox
  IsUnderway-IsSwept before d w c u =
      let all = map scan_sandbox (sort_by before d.sandboxes) in
      record {
        sandboxes =
            u.sandboxes
            ∙ swept-delete now the_row all d.sandboxes
            ∙ delete-ext _ (due_row now) d.sandboxes (
                All-map _ _ d.sandboxes (λ r h. is_swept-listed the_row before d.sandboxes r ∙ h)
                  (swept-due d.sandboxes c));
        ports =
            u.ports
            ∙ swept-delete now its_ports all d.sandbox_ports
            ∙ delete-ext _ _ d.sandbox_ports
                (All-every _ d.sandbox_ports (is_swept-listed its_ports before d.sandboxes));
        nodes = u.nodes;
        externals = u.externals;
      }

  reconcile_round-IsSwept :
      (before : SandboxRow → SandboxRow → Bool) (w : World)
      → IsServing w.env
      → IsConsistent w.db
      → Ends
          (λ r v. (r ≡ ok tt) × IsSwept now w.db v.db)
          (for_each (reconcile_one now) (map scan_sandbox (sort_by before w.db.sandboxes)) w)
  reconcile_round-IsSwept before w s c =
      let all = map scan_sandbox (sort_by before w.db.sandboxes) in
      let h =
        Ends-for_each (IsUnderway now all w.db) (reconcile_one now) all w
          (reconcile_one-Advanced now all w.db)
          (record {
            sandboxes = refl;
            ports = refl;
            nodes = refl;
            externals = refl;
            serving = s;
          }) in
      (h.0, IsUnderway-IsSwept before w.db _ c.ids_unique h.1)

-- Where no statement fails, nobody interferes, and the agents carry out deletions, one reconcile round
-- on consistent tables removes the sandboxes that are in Deleting or past their time to live, with
-- their ports, and leaves every other row of sandboxes, ports, nodes and external objects as it was.
-- The time is the one that the round reads after it has listed the sandboxes.
pub run_sandbox_reconcile_once-IsSwept :
    (w : World)
    → IsServing w.env
    → IsConsistent w.db
    → ((run_sandbox_reconcile_once w).0 ≡ ok tt)
      × IsSwept (w.env.now (suc w.step)) w.db (run_sandbox_reconcile_once w).1.db
unfolding run_sandbox_reconcile_once reconcile_listed list_sandboxes ◌>>=◌ attempt pure read_clock
run_sandbox_reconcile_once-IsSwept w s c =
    let Q = λ (r : Result (Unit {0})) (v : World).
      (r ≡ ok tt) × IsSwept (w.env.now (suc w.step)) w.db v.db in
    Ends-bind_query (λ r v. Ends Q (reconcile_listed r v)) _ (λ rows. pure (map scan_sandbox rows))
      w s.calm
      (reconcile_round-IsSwept (w.env.now (suc w.step)) _ (record w { step = suc (suc w.step) }) s
        c)

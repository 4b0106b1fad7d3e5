-- ===== src/Orch/Service/Delete/Cleanup.antt =====
-- finalizeSandboxDelete where the store and the agents answer: what a deletion leaves.
use go_gvisor_containerd_let.Base.{
  ℕ, ◌≡◌, refl, ap, ◌∙◌, String, Bool, true, false, Option, none, some, List, [], ◌∷◌, arith,
  is_empty, trim_space, ℤ,
}
use go_gvisor_containerd_let.Orch.Types.{Sandbox, SandboxSpec}
use go_gvisor_containerd_let.Orch.Tables.{Db, NodeRow, find, delete}
use go_gvisor_containerd_let.Orch.World.{
  Result, ok, err, Env, World, pure, lift, ◌>>=◌, attempt, ignore, call, is_no_rows, exec, gets,
  read_clock, after_statement,
}
use go_gvisor_containerd_let.Orch.World.Calm.{
  IsCalm, Ends, Continues, Ends-if, Ends-bind_query, Ends-bind_attempt, Ends-exec, Ends-then,
}
use go_gvisor_containerd_let.Orch.Repo.Sandboxes.{
  has_id, owned_by, delete_ports, delete_row, delete_sandbox, release_sandbox_ports, required,
}
use go_gvisor_containerd_let.Orch.Repo.Nodes.{
  node_named, scan_node, map_ok, get_node, find_node, adjust_row, adjust_node_resource_usage,
}
use go_gvisor_containerd_let.Orch.Service.Clients.{client_for_node, delete_on_node}
use go_gvisor_containerd_let.Orch.Service.Requests.{sandbox_resource_request}
use go_gvisor_containerd_let.Orch.Service.Delete.{
  or_fail, delete_with_client, delete_from_node, release_or_fail, return_usage,
  finalize_sandbox_delete, directed, adjust_node_usage_for_sandbox,
}

-- A calm environment in which every agent carries out a deletion.
pub record IsServing (e : Env) : Type 0 where
  pub calm : IsCalm e
  pub deletes : (k : ℕ) (url id : String) → e.delete_on_node k url id ≡ none

-- The action returns, and has left the tables `d`.
abbrev Left : Db → World → Type 0
Left d w = (w.db ≡ d) × IsServing w.env

abbrev Leaves : Db → Result (Unit {0}) → World → Type 0
Leaves d r w = (r ≡ ok tt) × Left d w

abbrev Answered : Result String → Type 0
Answered (ok url) = Unit {0}
Answered (err e) = is_no_rows e ≡ true

-- What client_for_node answers: a client, or that the node is gone.
abbrev Found : Db → Result String → World → Type 0
Found d r w = Answered r × (w.db ≡ d) × IsServing w.env

client_for_node-Found :
    (name : String) (w : World) → IsServing w.env → Ends (Found w.db) (client_for_node name w)
unfolding client_for_node get_node find_node required pure
client_for_node-Found name w s =
    Ends-bind_query (Found w.db) (find_node name) _ w s.calm
      (answer (find (node_named name) w.db.nodes))
  where
    answer :
        (o : Option NodeRow)
        → Continues
            (Found w.db)
            (λ n. pure n.sbxlet_base_url)
            (map_ok (scan_node w.db) (required o))
            (after_statement w w.db)
    answer none = (refl, refl, s)
    answer (some r) = (tt, refl, s)

module _ (sbx : Sandbox) where
  delete_with_client-Leaves :
      (r : Result String) (d : Db) (w : World)
      → Found d r w
      → Ends (Leaves d) (delete_with_client sbx r w)
  unfolding delete_with_client delete_on_node call attempt ◌>>=◌ or_fail pure
  delete_with_client-Leaves (ok url) d w f = rw (f.2.deletes w.step url sbx.id) (refl, (f.1, f.2))
  delete_with_client-Leaves (err e) d w f = rw f.0 (refl, (f.1, f.2))

  delete_from_node-Leaves :
      (w : World) → IsServing w.env → Ends (Leaves w.db) (delete_from_node sbx w)
  unfolding delete_from_node pure
  delete_from_node-Leaves w s =
      Ends-if (Leaves w.db) (is_empty sbx.status.node_name) (pure tt) _ w (λ e. (refl, (refl, s)))
        (λ e.
          Ends-bind_attempt (Leaves w.db) (Found w.db) _ _ w
            (client_for_node-Found sbx.status.node_name w s)
            (λ r v f. delete_with_client-Leaves r w.db v f))

  release_or_fail-Leaves :
      (w : World)
      → IsServing w.env
      → Ends (Leaves (delete_ports sbx.id w.db)) (release_or_fail sbx w)
  unfolding release_or_fail release_sandbox_ports or_fail pure
  release_or_fail-Leaves w s =
      Ends-bind_attempt (Leaves (delete_ports sbx.id w.db)) (Leaves (delete_ports sbx.id w.db)) _ _
        w
        (Ends-exec (Leaves (delete_ports sbx.id w.db)) (delete_ports sbx.id) w s.calm
          (refl, (refl, s)))
        (λ r v f. rw f.0 (refl, f.1))

-- The row of the sandbox and its ports are gone; nodes, external objects and all other rows of
-- sandboxes and ports are as they were.
pub record IsRemoved (id : String) (d d' : Db) : Type 0 where
  pub sandboxes : d'.sandboxes ≡ delete (has_id id) d.sandboxes
  pub ports : d'.sandbox_ports ≡ delete (owned_by id) d.sandbox_ports
  pub nodes : d'.nodes ≡ d.nodes
  pub externals : d'.node_externals ≡ d.node_externals

delete_idem : {A : Type 0} (p : A → Bool) (xs : List A) → delete p (delete p xs) ≡ delete p xs
unfolding delete
delete_idem p [] = refl
delete_idem p (x ∷ xs) = ground (arith, delete_idem p xs)

-- A charge of resources touches no row that a deletion is about.
adjust-IsRemoved :
    (id node : String) (cpu mem : ℤ) (d d' : Db) (now : ℕ)
    → IsRemoved id d d'
    → IsRemoved id d (adjust_row node cpu mem now d')
unfolding adjust_row
adjust-IsRemoved id node cpu mem d d' now r = record {
  sandboxes = r.sandboxes;
  ports = r.ports;
  nodes = r.nodes;
  externals = r.externals;
}

module _ (id : String) (d : Db) where
  abbrev Removed : World → Type 0
  Removed w = IsRemoved id d w.db × IsServing w.env

  -- Whatever the attempt to return the usage gives.
  return_request-Removed :
      (node : String) (r : Result (ℤ × ℤ)) (w : World)
      → Removed w
      → Removed
          ((lift r >>= λ request.
              adjust_node_resource_usage node (directed false request.0) (directed false request.1))
            w).1
  unfolding lift ◌>>=◌ adjust_node_resource_usage read_clock
  return_request-Removed node (err e) w h = h
  return_request-Removed node (ok request) w h =
      Ends-exec (λ r v. Removed v) _ _ h.1.calm (adjust-IsRemoved id node _ _ d w.db _ h.0, h.1)

  adjust_usage-Removed :
      (node : String) (spec : SandboxSpec) (w : World)
      → Removed w
      → Removed (adjust_node_usage_for_sandbox node spec false w).1
  unfolding adjust_node_usage_for_sandbox pure gets lift ◌>>=◌ adjust_node_resource_usage
  adjust_usage-Removed node spec w h =
      Ends-if (λ r v. Removed v) (is_empty (trim_space node)) (pure tt) _ w (λ e. h)
        (λ e. return_request-Removed node (sandbox_resource_request w.env.parse_quantity spec) w h)

  return_usage-Removed :
      (sbx : Sandbox) (w : World)
      → Removed w
      → Ends (λ r v. (r ≡ ok tt) × Removed v) (return_usage sbx w)
  unfolding return_usage pure ignore
  return_usage-Removed sbx w h =
      Ends-if (λ r v. (r ≡ ok tt) × Removed v) (is_empty sbx.status.node_name) (pure tt) _ w
        (λ e. (refl, h)) (λ e. (refl, adjust_usage-Removed sbx.status.node_name sbx.spec w h))

row_gone :
    (id : String) (d d' : Db)
    → d' ≡ delete_ports id (delete_ports id d)
    → IsRemoved id d (delete_row id d')
unfolding delete_row delete_ports
row_gone id d d' e =
    let idem = delete_idem (owned_by id) in
    record {
      sandboxes = ap (λ x. delete (has_id id) x.sandboxes) e;
      ports =
          ap (λ x. delete (owned_by id) x.sandbox_ports) e
          ∙ idem (delete (owned_by id) d.sandbox_ports)
          ∙ idem d.sandbox_ports;
      nodes = ap (λ x. x.nodes) e;
      externals = ap (λ x. x.node_externals) e;
    }

delete_sandbox-Removed :
    (id : String) (d : Db) (w : World)
    → IsServing w.env
    → w.db ≡ delete_ports id d
    → Ends (λ r v. (r ≡ ok tt) × Removed id d v) (delete_sandbox id w)
unfolding delete_sandbox delete_ports delete_row
delete_sandbox-Removed id d w s e =
    Ends-then (λ r v. (r ≡ ok tt) × Removed id d v) (Left (delete_ports id w.db))
      (exec (delete_ports id)) (exec (delete_row id)) w
      (Ends-exec (Leaves (delete_ports id w.db)) (delete_ports id) w s.calm (refl, (refl, s)))
      (λ v g.
        Ends-exec (λ r u. (r ≡ ok tt) × Removed id d u) (delete_row id) v g.1.calm
          (refl, (row_gone id d v.db (g.0 ∙ ap (delete_ports id) e), g.1)))

-- Where no statement fails, nobody interferes, and the agents carry out deletions, the deletion of a
-- sandbox succeeds, whether its node is still there or not: afterwards the sandbox's row and its
-- ports are gone, and every other row of sandboxes, ports, nodes and external objects is as it was.
pub finalize_sandbox_delete-removes :
    (sbx : Sandbox) (w : World)
    → IsServing w.env
    → ((finalize_sandbox_delete sbx w).0 ≡ ok tt)
      × (IsRemoved sbx.id w.db (finalize_sandbox_delete sbx w).1.db
          × IsServing (finalize_sandbox_delete sbx w).1.env)
unfolding finalize_sandbox_delete
finalize_sandbox_delete-removes sbx w s =
    Ends-then Q (Left w.db) (delete_from_node sbx) _ w (delete_from_node-Leaves sbx w s) (λ v g.
      Ends-then Q (Left (delete_ports sbx.id v.db)) (release_or_fail sbx) _ v
        (release_or_fail-Leaves sbx v g.1)
        (λ u h.
          Ends-then Q (Removed sbx.id w.db) (delete_sandbox sbx.id) _ u
            (delete_sandbox-Removed sbx.id w.db u h.1 (h.0 ∙ ap (delete_ports sbx.id) g.0))
            (return_usage-Removed sbx.id w.db sbx)))
  where
    Q : Result (Unit {0}) → World → Type 0
    Q r v = (r ≡ ok tt) × Removed sbx.id w.db v

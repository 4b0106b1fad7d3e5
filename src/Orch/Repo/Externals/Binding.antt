-- ===== src/Orch/Repo/Externals/Binding.antt =====
-- SetNodeExternal of sandboxd-orch/repo/node_repo.go: an external address has one node, and a node one
-- external address.
use go_gvisor_containerd_let.Base.{
  ℕ, suc, ◌≡◌, refl, ◌⊎◌, inl, inr, String, Bool, true, false, ◌&&◌, ◌||◌, not, List, [], ◌∷◌,
  arith, eq_iff, str_eq, is_empty, Bool-cases, if◌then◌else◌,
}
use text.Mathlib.TextPositions.{eq_refl}
use go_gvisor_containerd_let.Orch.Tables.{Db, NodeExternalRow, find, exists, update}
use go_gvisor_containerd_let.Orch.Tables.Rows.{exists-insert}
use go_gvisor_containerd_let.Orch.World.{
  Error, constraint, Result, ok, err, World, alone, raise, ◌>>=◌, read_clock, seen, after_statement,
  query, exec,
}
use go_gvisor_containerd_let.Orch.World.Holds.{
  Holds, IsAlone, Holds-at, Holds-if, Holds-bind, Holds-query, Holds-exec, Holds-mono,
  Holds-statement, Holds-transaction, transaction_error,
}
use go_gvisor_containerd_let.Orch.Repo.Externals.{
  external_named, node_id_or_empty, node_bound_to, external_bound_to, write_external,
  update_external, insert_external, set_resources_external, set_external_body, set_node_external,
}

-- Where the assignment fails, it has left the tables as it found them.
pub set_node_external-atomic :
    (id node external : String) (w : World) (e : Error)
    → (set_node_external id node external w).0 ≡ err e
    → (set_node_external id node external w).1.db ≡ w.env.others (suc w.step) w.db
unfolding set_node_external read_clock ◌>>=◌
set_node_external-atomic id node external w e h =
    transaction_error (set_external_body id node external (w.env.now w.step))
      (record w { step = suc w.step }) e h

-- The row binds the id to the node and has the external address.
abbrev pub binds : String → String → String → NodeExternalRow → Bool
binds id node external r =
    external_named id r && str_eq r.node_id node && str_eq r.external external

binds-update :
    (id node external : String) (now : ℕ) (xs : List NodeExternalRow)
    → is_empty (node_id_or_empty (find (external_named id) xs)) ≡ false
    → str_eq (node_id_or_empty (find (external_named id) xs)) node ≡ true
    → exists
        (binds id node external)
        (update (external_named id) (λ r. record r { external = external; updated_at = now }) xs)
      ≡ true
unfolding find exists update
binds-update id node external now [] h g = cc
binds-update id node external now (x ∷ xs) h g = elim (Bool-cases (external_named id x)) [
  | inl e ↦ rw e (rw (rw e at g) (rw (eq_refl external) (rw e refl)))
  | inr e ↦ rw e (rw e (binds-update id node external now xs (rw e at h) (rw e at g)))
]

-- From the tables `d` to the tables `d'`: the id was free or bound to this node, the node was free or bound to this id,
-- and the id is bound to the node, with the external address.
abbrev pub Binds : String → String → String → Db → Db → Type 0
Binds id node external d d' =
    ((is_empty (node_bound_to id d) ≡ true) ⊎ (node_bound_to id d ≡ node))
    × ((is_empty (external_bound_to node d) ≡ true) ⊎ (external_bound_to node d ≡ id))
    × (exists (binds id node external) d'.node_externals ≡ true)

or_true : (b : Bool) → (b || true) ≡ true
or_true b = ground arith

free_or :
    (s t : String) → (not (is_empty s) && not (str_eq s t)) ≡ false → (is_empty s ≡ true) ⊎ (s ≡ t)
free_or s t h = elim (Bool-cases (is_empty s)) [
  | inl e ↦ inl e
  | inr e ↦ inr ((eq_iff s t).0 (ground arith))
]

abbrev pub done_unless : Bool → Db → Db → Result (Unit {0}) × Db
done_unless b d d' = if b then (err constraint, d) else (ok tt, d')

insert_or_fail :
    (Q : Db → Type 0) (b : Bool) (w : World) (d d' : Db)
    → Q d'
    → Holds
        (λ a w'. Q w'.db × (w'.env ≡ w.env))
        ((done_unless b d d').0, after_statement w (done_unless b d d').1)
insert_or_fail Q true w d d' h = tt
insert_or_fail Q false w d d' h = (h, refl)

abbrev pub Written : String → String → String → World → Unit {0} → World → Type 0
Written id node external w a w' =
    (exists (binds id node external) w'.db.node_externals ≡ true) × (w'.env ≡ w.env)

insert_binds :
    (id node external : String) (now : ℕ) (w : World)
    → Holds (Written id node external w) (write_external false id node external now w)
unfolding write_external insert_external
insert_binds id node external now w = Holds-statement _ _ w (
    insert_or_fail (λ d. exists (binds id node external) d.node_externals ≡ true) _ w (seen w) _
      (rw (exists-insert (binds id node external) _ (seen w).node_externals)
        (rw (eq_refl id) (rw (eq_refl node) (rw (eq_refl external) (or_true _))))))

write_external-Holds :
    (id node external : String) (now : ℕ) (w : World)
    → IsAlone w
    → (is_empty (node_bound_to id w.db) ≡ true) ⊎ (node_bound_to id w.db ≡ node)
    → Holds
        (Written id node external w)
        (write_external (not (is_empty (node_bound_to id w.db))) id node external now w)
unfolding write_external update_external node_bound_to
write_external-Holds id node external now w al k =
    elim (Bool-cases (is_empty (node_bound_to id w.db))) [
      | inl e ↦ rw e (insert_binds id node external now w)
      | inr e ↦ rw e (
          Holds-exec _ _ w (
            rw (al w.step w.db)
              (binds-update id node external now w.db.node_externals e (bound_node k e), refl)))
    ]
  where
    bound_node :
        (is_empty (node_bound_to id w.db) ≡ true) ⊎ (node_bound_to id w.db ≡ node)
        → is_empty (node_bound_to id w.db) ≡ false
        → str_eq (node_bound_to id w.db) node ≡ true
    bound_node (inl h) e = cc
    bound_node (inr h) e = rw h (eq_refl node)

-- The two statements that follow the checks.
write-Holds :
    (id node external : String) (now : ℕ) (w : World)
    → IsAlone w
    → (is_empty (node_bound_to id w.db) ≡ true) ⊎ (node_bound_to id w.db ≡ node)
    → Holds
        (λ _ w'. exists (binds id node external) w'.db.node_externals ≡ true)
        ((write_external (not (is_empty (node_bound_to id w.db))) id node external now >>= λ _.
            exec (set_resources_external node external now))
          w)
unfolding set_resources_external
write-Holds id node external now w al k =
    Holds-bind (λ _ w'. exists (binds id node external) w'.db.node_externals ≡ true)
      (write_external (not (is_empty (node_bound_to id w.db))) id node external now) _ w
      (Holds-mono (Written id node external w) _ (write_external-Holds id node external now w al k)
        (λ _ v h.
          Holds-exec (λ _ w'. exists (binds id node external) w'.db.node_externals ≡ true) _ v
            (rw h.1 (rw (al v.step v.db) h.0))))

set_external_body-Holds :
    (id node external : String) (now : ℕ) (w : World)
    → Holds
        (λ _ w'. Binds id node external w.db w'.db)
        (set_external_body id node external now (record w { env = alone w.env }))
unfolding set_external_body raise
set_external_body-Holds id node external now w =
    let v = record w { env = alone w.env } in
    let v₁ = record v { step = suc w.step } in
    let v₂ = record v { step = suc (suc w.step) } in
    Holds-bind _ (query (λ d. ok (node_bound_to id d))) _ v (
      Holds-query _ _ v (
        Holds-if _
          (not (is_empty (node_bound_to id w.db)) && not (str_eq (node_bound_to id w.db) node))
          (raise _) _ v₁ (λ e. tt)
          (λ free. Holds-bind _ (query (λ d. ok (external_bound_to node d))) _ v₁ (
            Holds-query _ _ v₁ (
              Holds-if _
                (not (is_empty (external_bound_to node w.db))
                  && not (str_eq (external_bound_to node w.db) id))
                (raise _) _ v₂ (λ e. tt)
                (λ free_node.
                  Holds-mono (λ _ w'. exists (binds id node external) w'.db.node_externals ≡ true) _
                    (write-Holds id node external now v₂ (λ k d. refl) (free_or _ _ free))
                    (λ _ u h. (free_or _ _ free, free_or _ _ free_node, h))))))))

-- Where the assignment succeeds: the id was free or already the node's, the node had no other id, and now the id is bound to
-- the node, with the external address.
pub set_node_external-Binds :
    (id node external : String) (w w' : World)
    → set_node_external id node external w ≡ (ok tt, w')
    → Binds id node external (w.env.others (suc w.step) w.db) w'.db
unfolding set_node_external read_clock
set_node_external-Binds id node external w w' e =
    let v = record w { step = suc w.step } in
    Holds-at (λ _ u. Binds id node external (seen v) u.db) _
      (Holds-bind (λ _ u. Binds id node external (seen v) u.db) read_clock _ w
        (Holds-transaction _ (set_external_body id node external (w.env.now w.step)) v (
          set_external_body-Holds id node external (w.env.now w.step)
            (after_statement v (seen v)))))
      e

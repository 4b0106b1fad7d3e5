-- ===== src/Orch/Repo/Sandboxes/Cas.antt =====
-- UpdateSandboxStatusIfUnchanged of sandboxd-orch/repo/sandbox_repo.go: a compare-and-swap on
-- `updated_at`.
use go_gvisor_containerd_let.Base.{
  ℕ, suc, ◌≡◌, refl, ap, sym, ◌∙◌, ◌⊎◌, inl, inr, String, Bool, true, false, ◌&&◌, ◌||◌, Option,
  none, some, List, [], ◌∷◌, arith, eq_iff, ◌==◌, length, subst, Bool-cases, ==_iff,
}
use go_gvisor_containerd_let.Orch.Types.{SandboxStatus}
use go_gvisor_containerd_let.Orch.Tables.{Db, SandboxRow, find, exists, select, update}
use go_gvisor_containerd_let.Orch.Tables.Rows.{Unique}
use go_gvisor_containerd_let.Orch.World.{ok, World, pure, read_clock, statement}
use go_gvisor_containerd_let.Orch.World.Holds.{Holds-at, Holds-bind, Holds-statement}
use go_gvisor_containerd_let.Orch.Repo.Sandboxes.{
  has_id, set_status, update_status_row_if, update_sandbox_status_if_unchanged,
}
use go_gvisor_containerd_let.Orch.Repo.Invariant.{IsConsistent, same_id}

or_left : (a b : Bool) → (a || b) ≡ false → a ≡ false
or_left a b h = ground arith

or_right : (a b : Bool) → (a || b) ≡ false → b ≡ false
or_right a b h = ground arith

module _ {A : Type 0} (p : A → Bool) where
  select-none : (xs : List A) → exists p xs ≡ false → length (select p xs) ≡ 0
  unfolding select exists
  select-none [] h = refl
  select-none (x ∷ xs) h = ground (arith, select-none xs)

  pub update-none : (f : A → A) (xs : List A) → exists p xs ≡ false → update p f xs ≡ xs
  unfolding update exists
  update-none f [] h = refl
  update-none f (x ∷ xs) h =
      rw (or_left (p x) (exists p xs) h) (ap (λ ys. x ∷ ys) (update-none f xs (or_right (p x) _ h)))

module _ (id : String) (expected : ℕ) where
  abbrev pub as_expected : SandboxRow → Bool
  as_expected r = has_id id r && r.updated_at == expected

  exists-as_expected :
      (xs : List SandboxRow) → exists (has_id id) xs ≡ false → exists as_expected xs ≡ false
  unfolding exists
  exists-as_expected [] h = refl
  exists-as_expected (x ∷ xs) h = ground (arith, exists-as_expected xs)

  absent_after :
      (x : SandboxRow) (xs : List SandboxRow)
      → has_id id x ≡ true
      → exists (same_id x) xs ≡ false
      → exists (has_id id) xs ≡ false
  absent_after x xs h e = subst (λ i. exists (has_id i) xs ≡ false) ((eq_iff x.id id).0 h) e

  -- One row has the id and the expected time, or the row with the id, if any, has another time.
  abbrev pub Matched : List SandboxRow → SandboxRow → Type 0
  Matched xs row = (find (has_id id) xs ≡ some row) × (row.updated_at ≡ expected)

  stale :
      (x row : SandboxRow)
      → (x.updated_at == expected) ≡ false
      → some x ≡ some row
      → ¬ (row.updated_at ≡ expected)
  stale x row g e m = cc (g, (==_iff x.updated_at expected).1 (ap updated_at_of e ∙ m))
    where
      updated_at_of : Option SandboxRow → ℕ
      updated_at_of none = 0
      updated_at_of (some r) = r.updated_at

  module _ (f : SandboxRow → SandboxRow) where
    abbrev pub Swapped : List SandboxRow → Type 0
    Swapped xs =
        (length (select as_expected xs) ≡ 1)
        × ((row : SandboxRow) × Matched xs row)
        × (update as_expected f xs ≡ update (has_id id) f xs)

    abbrev pub Refused : List SandboxRow → Type 0
    Refused xs =
        (length (select as_expected xs) ≡ 0)
        × (update as_expected f xs ≡ xs)
        × ((row : SandboxRow) → ¬ Matched xs row)

    swap-cases : (xs : List SandboxRow) → Unique same_id xs → Swapped xs ⊎ Refused xs
    unfolding find select update
    swap-cases [] u = inr (refl, refl, λ row m. cc)
    swap-cases (x ∷ xs) u = elim (Bool-cases (has_id id x)) [
      | inl h ↦
          let gone = absent_after x xs h u.0 in
          elim (Bool-cases (x.updated_at == expected)) [
            | inl g ↦ inl (
                rw h (
                  rw g (
                    ap suc (select-none as_expected xs (exists-as_expected xs gone)),
                    (x, (refl, (==_iff x.updated_at expected).0 g)),
                    ap (λ ys. f x ∷ ys)
                        (update-none as_expected f xs (exists-as_expected xs gone)
                          ∙ sym (update-none (has_id id) f xs gone)),
                  )))
            | inr g ↦ inr (
                rw h (
                  rw g (
                    select-none as_expected xs (exists-as_expected xs gone),
                    ap (λ ys. x ∷ ys) (update-none as_expected f xs (exists-as_expected xs gone)),
                    λ row m. stale x row g m.0 m.1,
                  )))
          ]
      | inr h ↦ elim (swap-cases xs u.1) [
        | inl s ↦ inl (rw h (s.0, s.1, ap (λ ys. x ∷ ys) s.2))
        | inr r ↦ inr (rw h (r.0, ap (λ ys. x ∷ ys) r.1, r.2))
      ]
    ]

-- The two outcomes of a compare-and-swap on the tables `d`: the swap, and the refusal.
abbrev pub IsCas : String → SandboxStatus → ℕ → ℕ → Db → Bool → World → Type 0
IsCas id st expected now d b w' =
    (b ≡ true)
      × ((row : SandboxRow) × Matched id expected d.sandboxes row)
      × (w'.db ≡ record d { sandboxes = update (has_id id) (set_status st now) d.sandboxes })
    ⊎ (b ≡ false) × (w'.db ≡ d) × ((row : SandboxRow) → ¬ Matched id expected d.sandboxes row)

-- Where the tables that its UPDATE sees are consistent, a compare-and-swap that returns is one of two
-- things: it returns true, the row with the id had the expected time of update, and that row and no
-- other has got the new status and time; or it returns false, no row with the id had that time, and
-- nothing has changed.
pub update_sandbox_status_if_unchanged-IsCas :
    (id : String) (st : SandboxStatus) (expected : ℕ) (w w' : World) (b : Bool)
    → IsConsistent (w.env.others (suc w.step) w.db)
    → update_sandbox_status_if_unchanged id st expected w ≡ (ok b, w')
    → IsCas id st expected (w.env.now w.step) (w.env.others (suc w.step) w.db) b w'
unfolding update_sandbox_status_if_unchanged read_clock pure update_status_row_if
update_sandbox_status_if_unchanged-IsCas id st expected w w' b c e =
    let d = w.env.others (suc w.step) w.db in
    Holds-at (λ r v. IsCas id st expected (w.env.now w.step) d r v) _
      (Holds-bind _ read_clock _ w (
        Holds-bind _ (statement (update_status_row_if id st expected (w.env.now w.step))) _
          (record w { step = suc w.step })
          (Holds-statement _ _ (record w { step = suc w.step })
            (elim (swap-cases id expected (set_status st (w.env.now w.step)) d.sandboxes
              c.ids_unique) [
                | inl s ↦ inl (rw s.0 (refl, s.1, ap (λ rows. record d { sandboxes = rows }) s.2))
                | inr r ↦ inr (rw r.0 (refl, ap (λ rows. record d { sandboxes = rows }) r.1, r.2))
              ]))))
      e

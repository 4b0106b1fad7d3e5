-- ===== src/Orch/Service/Sync/Deletions.antt =====
-- The status sync does not take a sandbox out of Deleting.
use go_gvisor_containerd_let.Base.{
  ℕ, ◌≡◌, refl, sym, subst, ◌∙◌, inl, inr, String, Bool, true, false, ◌&&◌, ◌||◌, Option, none,
  some, List, [], ◌∷◌, arith, str_eq, eq_iff, ◌==◌, Bool-cases,
}
use go_gvisor_containerd_let.Orch.Types.{
  Sandbox, SandboxStatus, SandboxSyncStatus, is_deleting, is_scheduled, unmarshal_status,
  marshal_status,
}
use go_gvisor_containerd_let.Orch.Tables.{Db, SandboxRow, find, exists, update}
use go_gvisor_containerd_let.Orch.Tables.Rows.{Unique, Unique-update, exists-weaker}
use go_gvisor_containerd_let.Orch.World.{Result, ok, err, World, M, query}
use go_gvisor_containerd_let.Orch.World.Keeps.{
  AllOk, Reads-query, Reads-map, Keeps, Reads, Keeps-read_clock, Keeps-bind, Keeps-bind-Reads,
  Keeps-if, Keeps-pure, Keeps-ignore, Keeps-statement,
}
use go_gvisor_containerd_let.Orch.Repo.Sandboxes.{
  has_id, get_sandbox, find_sandbox, required, scan_sandbox, set_status, update_status_row_if,
  update_sandbox_status_if_unchanged,
}
use go_gvisor_containerd_let.Orch.Repo.Invariant.{same_id}
use go_gvisor_containerd_let.Orch.Service.Sync.{
  mark_missing, write_if_changed, next_status, apply_answer, with_latest, reread,
  run_sandbox_status_sync_once,
}
use go_gvisor_containerd_let.Orch.Service.Safety.Syncs.{sync_round-Keeps}

abbrev pub is_deleting_row : SandboxRow → Bool
is_deleting_row r = is_deleting r.status.phase

-- The row with the id is in Deleting, and no other row has the id.
pub record IsDoomed (id : String) (d : Db) : Type 0 where
  pub ids_unique : Unique same_id d.sandboxes
  pub row : exists (λ r. has_id id r && is_deleting_row r) d.sandboxes ≡ true

abbrev pub AllIn : {A : Type 0} → (A → Type 0) → Option A → Type 0
AllIn P none = Unit {0}
AllIn P (some a) = P a

AllIn-mono :
    {A : Type 0} (P Q : A → Type 0) (o : Option A) → ((a : A) → P a → Q a) → AllIn P o → AllIn Q o
AllIn-mono P Q none k h = tt
AllIn-mono P Q (some a) k h = k a h

pub find-selects : {A : Type 0} (p : A → Bool) (xs : List A) → AllIn (λ a. p a ≡ true) (find p xs)
unfolding find
find-selects p [] = tt
find-selects p (x ∷ xs) = elim (Bool-cases (p x)) [
  | inl e ↦ rw e e
  | inr e ↦ rw e (find-selects p xs)
]

AllOk-required : {A : Type 0} (P : A → Type 0) (o : Option A) → AllIn P o → AllOk P (required o)
unfolding required
AllOk-required P none h = tt
AllOk-required P (some a) h = h

module _ (id : String) where
  id-Unique :
      (rows : List SandboxRow)
      → Unique same_id rows
      → exists (λ r. has_id id r && is_deleting_row r) rows ≡ true
      → AllIn (λ r. is_deleting_row r ≡ true) (find (has_id id) rows)
  unfolding find exists
  id-Unique [] u h = tt
  id-Unique (x ∷ xs) u h = elim (Bool-cases (has_id id x)) [
    | inl e ↦ rw e (
        let apart =
          exists-weaker (λ y. has_id id y && is_deleting_row y) (same_id x) xs
            (λ y g. ground (arith, eq_iff x.id id, eq_iff y.id id, eq_iff y.id x.id)) u.0 in
        ground arith)
    | inr e ↦ rw e (id-Unique xs u.1 (ground arith))
  ]

  found_deleting :
      (other : String) (rows : List SandboxRow)
      → Unique same_id rows
      → exists (λ r. has_id id r && is_deleting_row r) rows ≡ true
      → AllIn (λ r. has_id id r ≡ true → is_deleting_row r ≡ true) (find (has_id other) rows)
  found_deleting other rows u h = elim (Bool-cases (str_eq other id)) [
    | inl e ↦
        subst
          (λ o. AllIn (λ r. has_id id r ≡ true → is_deleting_row r ≡ true) (find (has_id o) rows))
          (sym ((eq_iff other id).0 e))
          (AllIn-mono (λ r. is_deleting_row r ≡ true)
            (λ r. has_id id r ≡ true → is_deleting_row r ≡ true) (find (has_id id) rows)
            (λ r g _. g) (id-Unique rows u h))
    | inr e ↦
        AllIn-mono (λ r. has_id other r ≡ true) (λ r. has_id id r ≡ true → is_deleting_row r ≡ true)
          (find (has_id other) rows)
          (λ r g i. ground (arith, eq_iff r.id other, eq_iff r.id id, eq_iff other id))
          (find-selects (has_id other) rows)
  ]

  -- What is read of the doomed sandbox says so.
  abbrev SaysSo : Sandbox → Type 0
  SaysSo s = str_eq s.id id ≡ true → is_deleting s.status.phase ≡ true

  get_sandbox-Reads : (other : String) → Reads (IsDoomed id) SaysSo (get_sandbox other)
  unfolding get_sandbox find_sandbox scan_sandbox unmarshal_status
  get_sandbox-Reads other =
      Reads-map (λ r. has_id id r ≡ true → is_deleting_row r ≡ true) SaysSo
        (query (find_sandbox other)) scan_sandbox
        (Reads-query _ (find_sandbox other) (λ d i.
          AllOk-required _ (find (has_id other) d.sandboxes)
            (found_deleting other d.sandboxes i.ids_unique i.row)))
        (λ r h. h)

  pub exists-other :
      (other : String) (st : SandboxStatus) (at now : ℕ) (rows : List SandboxRow)
      → str_eq other id ≡ false
      → exists
          (λ r. has_id id r && is_deleting_row r)
          (update (λ r. has_id other r && r.updated_at == at) (set_status st now) rows)
        ≡ exists (λ r. has_id id r && is_deleting_row r) rows
  unfolding exists update set_status marshal_status
  exists-other other st at now [] e = refl
  exists-other other st at now (x ∷ xs) e =
      ground (
        arith,
        exists-other other st at now xs e,
        eq_iff x.id other,
        eq_iff x.id id,
        eq_iff other id,
      )

  update_if-Keeps :
      (other : String) (st : SandboxStatus) (at : ℕ)
      → str_eq other id ≡ false
      → Keeps (IsDoomed id) (update_sandbox_status_if_unchanged other st at)
  unfolding update_sandbox_status_if_unchanged update_status_row_if set_status
  update_if-Keeps other st at e = Keeps-bind _ _ Keeps-read_clock (λ now.
      Keeps-bind _ _
        (Keeps-statement _ (λ d i. record {
          ids_unique =
              Unique-update same_id _ (set_status st now) d.sandboxes (λ x y. refl) (λ x y. refl)
                i.ids_unique;
          row = exists-other other st at now d.sandboxes e ∙ i.row;
        }))
        (λ n. Keeps-pure _))

  -- A writer that has seen another phase writes another sandbox.
  pub other_sandbox :
      (s : Sandbox) → SaysSo s → is_deleting s.status.phase ≡ false → str_eq s.id id ≡ false
  other_sandbox s says e = ground arith

  mark_missing-Keeps :
      (ext : String) (s : Sandbox) → SaysSo s → Keeps (IsDoomed id) (mark_missing ext s)
  unfolding mark_missing
  mark_missing-Keeps ext s says =
      Keeps-if (is_deleting s.status.phase || is_scheduled s.status.phase) _ _ (λ e. Keeps-pure _)
        (λ e. Keeps-ignore _ (update_if-Keeps s.id _ _ (other_sandbox s says (ground arith))))

  write_if_changed-Keeps :
      (s : Sandbox) (next : SandboxStatus × Bool)
      → str_eq s.id id ≡ false
      → Keeps (IsDoomed id) (write_if_changed s next)
  unfolding write_if_changed
  write_if_changed-Keeps s (st, changed) e =
      Keeps-if changed _ _ (λ g. Keeps-ignore _ (update_if-Keeps s.id st s.updated_at e))
        (λ g. Keeps-pure _)

  apply_answer-Keeps :
      (ext : String) (st : SandboxSyncStatus) (s : Sandbox)
      → SaysSo s
      → Keeps (IsDoomed id) (apply_answer ext st s)
  unfolding apply_answer
  apply_answer-Keeps ext st s says =
      Keeps-if _ _ _ (λ e. Keeps-pure _)
        (λ e. write_if_changed-Keeps s (next_status ext s.status st) (other_sandbox s says e))

  with_latest-Keeps :
      (f : Sandbox → M (Unit {0})) (r : Result Sandbox)
      → ((s : Sandbox) → SaysSo s → Keeps (IsDoomed id) (f s))
      → AllOk SaysSo r
      → Keeps (IsDoomed id) (with_latest f r)
  unfolding with_latest
  with_latest-Keeps f (ok s) k h = k s h
  with_latest-Keeps f (err e) k h = Keeps-pure _

  reread-Keeps :
      (other : String) (f : Sandbox → M (Unit {0}))
      → ((s : Sandbox) → SaysSo s → Keeps (IsDoomed id) (f s))
      → Keeps (IsDoomed id) (reread other f)
  unfolding reread
  reread-Keeps other f k =
      Keeps-bind-Reads SaysSo (get_sandbox other) (with_latest f) (get_sandbox-Reads other)
        (λ r h. with_latest-Keeps f r k h)

-- A round of the status sync leaves a sandbox in Deleting, whatever the agents report of it, whichever
-- statements fail, and whatever the other goroutines do that leaves it there too.
run_sandbox_status_sync_once-IsDoomed :
    (id : String) (w : World)
    → ((k : ℕ) (d : Db) → IsDoomed id d → IsDoomed id (w.env.others k d))
    → IsDoomed id w.db
    → IsDoomed id (run_sandbox_status_sync_once w).1.db
run_sandbox_status_sync_once-IsDoomed id w rely d =
    ((sync_round-Keeps
        (λ other ext. reread-Keeps id other (mark_missing ext) (mark_missing-Keeps id ext))
        (λ other ext st.
          reread-Keeps id other (apply_answer ext st) (apply_answer-Keeps id ext st))).at
      w (record { rely = rely; inv = d })).inv

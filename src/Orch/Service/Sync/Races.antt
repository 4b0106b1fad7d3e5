-- ===== src/Orch/Service/Sync/Races.antt =====
-- The sync of one sandbox against a deletion that another goroutine starts meanwhile.
use go_gvisor_containerd_let.Base.{
  ℕ, suc, ◌≡◌, refl, sym, subst, ◌∙◌, ◌⊎◌, inl, inr, String, Bool, true, false, ◌&&◌, ◌||◌, Option,
  none, some, arith, str_eq, eq_iff, ◌==◌, Bool-cases,
}
use go_gvisor_containerd_let.Orch.Types.{
  Sandbox, SandboxStatus, SandboxSyncStatus, SandboxStatusesResponse, is_deleting, is_scheduled,
  unmarshal_status,
}
use go_gvisor_containerd_let.Orch.Tables.{Db, SandboxRow, find, exists}
use go_gvisor_containerd_let.Orch.Tables.Rows.{Unique-update}
use go_gvisor_containerd_let.Orch.World.{
  Error, ok, err, engine, no_rows, World, M, seen, after_statement, statement, query, attempt,
  ignore, pure, ◌>>=◌, read_clock,
}
use go_gvisor_containerd_let.Orch.Repo.Sandboxes.{
  has_id, get_sandbox, find_sandbox, required, scan_sandbox, set_status, update_status_row_if,
  update_sandbox_status_if_unchanged,
}
use go_gvisor_containerd_let.Orch.Repo.Sandboxes.Cas.{update-none}
use go_gvisor_containerd_let.Orch.Repo.Invariant.{same_id}
use go_gvisor_containerd_let.Orch.Service.Sync.{
  mark_missing, write_if_changed, next_status, apply_answer, with_latest, reread, find_missing,
  answer_for, sync_found, sync_sandbox,
}
use go_gvisor_containerd_let.Orch.Service.Sync.Deletions.{
  IsDoomed, AllIn, find-selects, exists-other, is_deleting_row,
}

option_cases : {A : Type 0} (o : Option A) → (o ≡ none) ⊎ ((a : A) × (o ≡ some a))
option_cases none = inl refl
option_cases (some a) = inr (a, refl)

-- The tables when a sandbox is read again, and when its status is written after that.
abbrev pub at_read : World → Db
at_read w = seen w

abbrev pub at_write : World → Db
at_write w = w.env.others (suc (suc w.step)) (at_read w)

-- A row with the id that was not in Deleting has got another time of update.
abbrev pub IsStamped : String → Db → Db → Type 0
IsStamped id before after =
    (r : SandboxRow)
    → find (has_id id) before.sandboxes ≡ some r
    → is_deleting_row r ≡ false
    → exists (λ q. has_id id q && q.updated_at == r.updated_at) after.sandboxes ≡ false

-- Nothing is written, or the sandbox is in Deleting afterwards.
abbrev pub IsSpared : String → World → Db → Type 0
IsSpared id w d = (d ≡ w.db) ⊎ (d ≡ at_read w) ⊎ IsDoomed id d

get_sandbox-cases :
    (other : String) (w : World)
    → ((e : Error) × (attempt (get_sandbox other) w ≡ (ok (err e), after_statement w (seen w))))
      ⊎ ((r : SandboxRow) × (find (has_id other) (seen w).sandboxes ≡ some r)
          × (attempt (get_sandbox other) w
              ≡ (ok (ok (scan_sandbox r)), after_statement w (seen w))))
unfolding get_sandbox find_sandbox required attempt query statement ◌>>=◌ pure
get_sandbox-cases other w = elim (option_cases (w.env.fault w.step)) [
  | inr f ↦ inl (engine f.0, rw f.1 refl)
  | inl f ↦ elim (option_cases (find (has_id other) (seen w).sandboxes)) [
    | inl e ↦ inl (no_rows, rw (f, e) refl)
    | inr g ↦ inr (g.0, g.1, rw (f, g.1) refl)
  ]
]

module _ (id : String) (w : World) (doomed : IsDoomed id (at_write w))
    (stamped : IsStamped id (at_read w) (at_write w)) where
  abbrev reading : World
  reading = after_statement w (at_read w)

  update-IsDoomed :
      (r : SandboxRow) (st : SandboxStatus) (now : ℕ)
      → find (has_id r.id) (at_read w).sandboxes ≡ some r
      → is_deleting_row r ≡ false
      → IsDoomed id (update_status_row_if r.id st r.updated_at now (at_write w)).1
  unfolding update_status_row_if set_status
  update-IsDoomed r st now e live = elim (Bool-cases (str_eq r.id id)) [
    | inl q ↦
        let same = (eq_iff r.id id).0 q in
        let moved : exists (λ q. has_id r.id q && q.updated_at == r.updated_at)
              (at_write w).sandboxes
            ≡ false =
          subst
            (λ k.
              exists (λ q. has_id k q && q.updated_at == r.updated_at) (at_write w).sandboxes
              ≡ false)
            (sym same)
            (stamped r (subst (λ k. find (has_id k) (at_read w).sandboxes ≡ some r) same e) live) in
        subst (λ rows. IsDoomed id (record (at_write w) { sandboxes = rows }))
          (sym (update-none _ (set_status st now) (at_write w).sandboxes moved)) doomed
    | inr q ↦ record {
      ids_unique =
          Unique-update same_id _ (set_status st now) (at_write w).sandboxes (λ x y. refl)
            (λ x y. refl) doomed.ids_unique;
      row = exists-other id r.id st r.updated_at now (at_write w).sandboxes q ∙ doomed.row;
    }
  ]

  write-IsSpared :
      (r : SandboxRow) (st : SandboxStatus)
      → find (has_id r.id) (at_read w).sandboxes ≡ some r
      → is_deleting_row r ≡ false
      → IsSpared id w
          (ignore (update_sandbox_status_if_unchanged r.id st r.updated_at) reading).1.db
  unfolding ignore update_sandbox_status_if_unchanged read_clock statement ◌>>=◌ pure
      update_status_row_if
  write-IsSpared r st e live = elim (option_cases (w.env.fault (suc (suc w.step)))) [
    | inl f ↦ rw f (inr (inr (update-IsDoomed r st (w.env.now (suc w.step)) e live)))
    | inr f ↦ rw f.1 (inr (inr doomed))
  ]

  -- What is read is the row with the id.
  named_row :
      (other : String) (r : SandboxRow)
      → find (has_id other) (at_read w).sandboxes ≡ some r
      → find (has_id r.id) (at_read w).sandboxes ≡ some r
  named_row other r e =
      let chosen : has_id other r ≡ true =
        subst (AllIn (λ a. has_id other a ≡ true)) e
          (find-selects (has_id other) (at_read w).sandboxes) in
      subst (λ k. find (has_id k) (at_read w).sandboxes ≡ some r)
        (sym ((eq_iff r.id other).0 chosen)) e

  mark_missing-IsSpared :
      (ext : String) (r : SandboxRow)
      → find (has_id r.id) (at_read w).sandboxes ≡ some r
      → IsSpared id w (mark_missing ext (scan_sandbox r) reading).1.db
  unfolding mark_missing scan_sandbox unmarshal_status pure
  mark_missing-IsSpared ext r e =
      elim (Bool-cases (is_deleting r.status.phase || is_scheduled r.status.phase)) [
        | inl h ↦ rw h (inr (inl refl))
        | inr h ↦ rw h (write-IsSpared r _ e (ground arith))
      ]

  write_if_changed-IsSpared :
      (r : SandboxRow) (next : SandboxStatus × Bool)
      → find (has_id r.id) (at_read w).sandboxes ≡ some r
      → is_deleting_row r ≡ false
      → IsSpared id w (write_if_changed (scan_sandbox r) next reading).1.db
  unfolding write_if_changed scan_sandbox pure
  write_if_changed-IsSpared r (st, true) e live = write-IsSpared r st e live
  write_if_changed-IsSpared r (st, false) e live = inr (inl refl)

  apply_answer-IsSpared :
      (ext : String) (st : SandboxSyncStatus) (r : SandboxRow)
      → find (has_id r.id) (at_read w).sandboxes ≡ some r
      → IsSpared id w (apply_answer ext st (scan_sandbox r) reading).1.db
  unfolding apply_answer scan_sandbox unmarshal_status pure
  apply_answer-IsSpared ext st r e = elim (Bool-cases (is_deleting r.status.phase)) [
    | inl h ↦ rw h (inr (inl refl))
    | inr h ↦
        rw h (write_if_changed-IsSpared r (next_status ext (unmarshal_status r.status) st) e h)
  ]

  reread-IsSpared :
      (other : String) (f : Sandbox → M (Unit {0}))
      → ((r : SandboxRow)
          → find (has_id r.id) (at_read w).sandboxes ≡ some r
          → IsSpared id w (f (scan_sandbox r) reading).1.db)
      → IsSpared id w (reread other f w).1.db
  unfolding reread with_latest ◌>>=◌ pure
  reread-IsSpared other f spared = elim (get_sandbox-cases other w) [
    | inl (e, h) ↦ rw h (inr (inl refl))
    | inr (r, e, h) ↦ rw h (spared r (named_row other r e))
  ]

  sync_found-IsSpared :
      (ext : String) (found : Option SandboxSyncStatus) (other : String)
      → IsSpared id w (sync_found ext found other w).1.db
  unfolding sync_found pure
  sync_found-IsSpared ext none other = inl refl
  sync_found-IsSpared ext (some st) other =
      reread-IsSpared other (apply_answer ext st) (apply_answer-IsSpared ext st)

  -- The sync of one sandbox, whichever it is, whatever the node's agent answers and whichever statements
  -- fail, does not take a sandbox out of Deleting, also where another goroutine has put it there
  -- between the read and the write: where it is in Deleting when the status is to be written, and its
  -- time of update is a new one unless it was in Deleting at the read, then either nothing is
  -- written, or it is in Deleting afterwards.
  pub sync_sandbox-spares :
      (ext : String) (resp : SandboxStatusesResponse) (sbx : Sandbox)
      → IsSpared id w (sync_sandbox ext resp sbx w).1.db
  unfolding sync_sandbox
  sync_sandbox-spares ext resp sbx = elim (Bool-cases (find_missing resp.missing sbx.id)) [
    | inl h ↦ rw h (reread-IsSpared sbx.id (mark_missing ext) (mark_missing-IsSpared ext))
    | inr h ↦ rw h (sync_found-IsSpared ext (answer_for resp.items sbx.id none) sbx.id)
  ]

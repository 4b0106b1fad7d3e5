-- ===== src/Orch/Service/Delete/Sweeping.antt =====
-- What the steps of a reconcile round remove, one after another.
use go_gvisor_containerd_let.Base.{
  ℕ, ◌≡◌, ap, sym, ◌∙◌, inl, inr, Bool, ◌||◌, ◌&&◌, List, [], ◌∷◌, arith, if◌then◌else◌, Bool-cases,
}
use go_gvisor_containerd_let.Orch.Types.{Sandbox, is_deleting}
use go_gvisor_containerd_let.Orch.Tables.{Db, SandboxRow, SandboxPortRow, exists, delete}
use go_gvisor_containerd_let.Orch.Tables.Rows.{delete-delete, delete-ext, delete-none, All-every}
use go_gvisor_containerd_let.Orch.World.{World}
use go_gvisor_containerd_let.Orch.Repo.Sandboxes.{has_id, owned_by}
use go_gvisor_containerd_let.Orch.Service.Delete.{is_expired}
use go_gvisor_containerd_let.Orch.Service.Delete.Cleanup.{IsServing}

-- In Deleting, or past its time to live.
abbrev pub is_due : ℕ → Sandbox → Bool
is_due now sbx = is_deleting sbx.status.phase || is_expired now sbx.status.expire_at

abbrev pub the_row : Sandbox → SandboxRow → Bool
the_row s = has_id s.id

abbrev pub its_ports : Sandbox → SandboxPortRow → Bool
its_ports s = owned_by s.id

module _ (now : ℕ) where
  module _ {A : Type 0} (clause : Sandbox → A → Bool) where
    -- The rows that are left when what belongs to the due sandboxes of a list is deleted one by one.
    unfoldable pub swept : List Sandbox → List A → List A
    swept [] rows = rows
    swept (s ∷ ss) rows = swept ss (if is_due now s then delete (clause s) rows else rows)

    abbrev pub is_swept : List Sandbox → A → Bool
    is_swept ss x = exists (λ s. is_due now s && clause s x) ss

    pub swept-delete :
        (ss : List Sandbox) (rows : List A) → swept ss rows ≡ delete (is_swept ss) rows
    unfolding swept exists
    swept-delete [] rows = sym (delete-none rows)
    swept-delete (s ∷ ss) rows = elim (Bool-cases (is_due now s)) [
      | inl e ↦
          ap (λ b. swept ss (if b then delete (clause s) rows else rows)) e
          ∙ swept-delete ss (delete (clause s) rows)
          ∙ delete-delete (is_swept ss) (clause s) rows
          ∙ delete-ext _ (is_swept (s ∷ ss)) rows (All-every _ rows (λ x. ground arith))
      | inr e ↦
          ap (λ b. swept ss (if b then delete (clause s) rows else rows)) e
          ∙ swept-delete ss rows
          ∙ delete-ext _ (is_swept (s ∷ ss)) rows (All-every _ rows (λ x. ground arith))
    ]

  -- What a round that still has `ss` before it has made of the tables `d`, if it started with `all`.
  pub record IsUnderway (all : List Sandbox) (d : Db) (ss : List Sandbox) (w : World) : Type 0 where
    pub sandboxes : swept the_row ss w.db.sandboxes ≡ swept the_row all d.sandboxes
    pub ports : swept its_ports ss w.db.sandbox_ports ≡ swept its_ports all d.sandbox_ports
    pub nodes : w.db.nodes ≡ d.nodes
    pub externals : w.db.node_externals ≡ d.node_externals
    pub serving : IsServing w.env

-- ===== src/Orch/Service/Delete/Creation.antt =====
-- CreateSandbox in a calm environment: what is stored, and what is returned.
use go_gvisor_containerd_let.Base.{
  ℕ, zero, suc, ◌+ℤ◌, ◌+◌, ◌*◌, ◌^◌, ◌<◌, ltb, ℤ, pos, negsuc, pos_part, int64_exact, Option, ◌≡◌,
  refl, subst, none, ◌⊎◌, inl, inr, String, Bool, true, false, some, List, [], ◌∷◌, arith, eq_iff,
  str_eq, trim_space, ◌==◌, if◌then◌else◌, Bool-cases,
}
use go_gvisor_containerd_let.Orch.Types.{
  CreateSandboxObjectRequest, Sandbox, SandboxStatus, pending, marshal_status, unmarshal_status,
}
use go_gvisor_containerd_let.Orch.Tables.{SandboxRow, find, exists, insert}
use go_gvisor_containerd_let.Orch.World.{
  constraint, Result, ok, err, World, after_statement, statement, lift, gets, read_clock, ◌>>=◌,
  pure,
}
use go_gvisor_containerd_let.Orch.World.Calm.{
  IsCalm, Ends, Continues, Ends-bind, Ends-bind_query, Ends-statement,
}
use go_gvisor_containerd_let.Orch.Repo.Sandboxes.{
  has_id, required, scan_sandbox, insert_sandbox_row, create_sandbox, find_sandbox, get_sandbox,
}
use go_gvisor_containerd_let.Orch.Service.Requests.Validity.{
  IsValidRequest, validate_sandbox_create-IsValid,
}
use go_gvisor_containerd_let.Orch.Service.Delete.{
  expiry, ttl_duration, new_sandbox, create_sandbox_object,
}

str_eq_refl : (s : String) → str_eq s s ≡ true
str_eq_refl s = (eq_iff s s).1 refl

module _ {A : Type 0} (p : A → Bool) (a : A) where
  find-insert : (xs : List A) → p a ≡ true → exists p xs ≡ false → find p (insert a xs) ≡ some a
  unfolding find exists insert
  find-insert [] e h = ground arith
  find-insert (x ∷ xs) e h = ground (arith, find-insert xs e)

-- What the code stores of a request that is accepted at `now`, in a row that is written at `later`.
stored_row : CreateSandboxObjectRequest → ℕ → ℕ → SandboxRow
stored_row req now later =
    let sbx = new_sandbox req now in
    record {
      id = sbx.id;
      spec = sbx.spec;
      status = marshal_status sbx.status;
      created_at = if now == 0 then later else now;
      updated_at = later;
    }

-- A sandbox with a time to live expires so many seconds after the request, in nanoseconds.
abbrev pub expires : ℕ → ℤ → Option ℕ
expires now ttl = if ltb 0 (pos_part ttl) then some (now + pos_part ttl * 1_000_000_000) else none

-- Pending, on no node, without ports, and with its expiry.
abbrev pub pending_status : ℕ → ℤ → SandboxStatus
pending_status now ttl = record {
  phase = pending;
  node_name = "";
  external = "";
  ip = "";
  assigned_ports = [];
  sandboxd_id = "";
  expire_at = expires now ttl;
  last_error = "";
}

-- The row of a request that is accepted at `now` and written at `later`.
abbrev pub new_row : CreateSandboxObjectRequest → ℕ → ℕ → SandboxRow
new_row req now later = record {
  id = trim_space req.id;
  spec = req.spec;
  status = pending_status now req.spec.ttl_seconds;
  created_at = if now == 0 then later else now;
  updated_at = later;
}

-- The sandbox in such a row.
abbrev pub new_object : CreateSandboxObjectRequest → ℕ → ℕ → Sandbox
new_object req now later = record {
  id = trim_space req.id;
  spec = req.spec;
  status = pending_status now req.spec.ttl_seconds;
  created_at = if now == 0 then later else now;
  updated_at = later;
}

pos_sum : (a b : ℕ) → pos_part (pos a +ℤ pos b) ≡ a + b
unfolding ◌+ℤ◌
pos_sum a b = ground arith

expiry-expires :
    (now : ℕ) (ttl : ℤ) → pos_part ttl * 1_000_000_000 < 2 ^ 63 → expiry now ttl ≡ expires now ttl
unfolding expiry ttl_duration
expiry-expires now (pos zero) h = refl
expiry-expires now (pos (suc n)) h =
    rw (int64_exact (pos (suc n * 1_000_000_000)) (omega arith, omega arith))
      (rw (pos_sum now (suc n * 1_000_000_000)) (ground arith))
expiry-expires now (negsuc n) h = ground arith

stored_row-new_row :
    (req : CreateSandboxObjectRequest) (now later : ℕ)
    → pos_part req.spec.ttl_seconds * 1_000_000_000 < 2 ^ 63
    → stored_row req now later ≡ new_row req now later
unfolding stored_row new_sandbox marshal_status trim_space
stored_row-new_row req now later h = rw (expiry-expires now req.spec.ttl_seconds h) refl

-- The row is stored and the sandbox returned, or there was a row with the id, and nothing changes.
abbrev pub IsStored : String → SandboxRow → Sandbox → World → Result Sandbox × World → Type 0
IsStored id row sbx w p =
    (exists (has_id id) w.db.sandboxes ≡ false)
      × (p.0 ≡ ok sbx)
      × (p.1.db ≡ record w.db { sandboxes = insert row w.db.sandboxes })
    ⊎ (exists (has_id id) w.db.sandboxes ≡ true) × (p.0 ≡ err constraint) × (p.1.db ≡ w.db)

-- The two outcomes for a valid request.
abbrev pub IsCreation : CreateSandboxObjectRequest → World → Result Sandbox × World → Type 0
IsCreation req w p =
    let now = w.env.now w.step in
    let later = w.env.now (suc w.step) in
    IsStored (trim_space req.id) (new_row req now later) (new_object req now later) w p

module _ (req : CreateSandboxObjectRequest) (w : World) (c : IsCalm w.env) where
  abbrev row : SandboxRow
  row = stored_row req (w.env.now w.step) (w.env.now (suc w.step))

  abbrev reading : World
  reading = record w { step = suc (suc w.step) }

  abbrev Q : Result Sandbox → World → Type 0
  Q r v = IsStored (trim_space req.id) row (scan_sandbox row) w (r, v)

  -- Reading back what was stored.
  read_back :
      exists (has_id (trim_space req.id)) w.db.sandboxes ≡ false
      → Ends Q (
          get_sandbox
            (trim_space req.id)
            (after_statement reading (record w.db { sandboxes = insert row w.db.sandboxes })))
  unfolding get_sandbox find_sandbox required pure new_sandbox stored_row
  read_back e = Ends-bind_query Q (find_sandbox (trim_space req.id)) _ _ c (
      rw
        (find-insert (has_id (trim_space req.id)) row w.db.sandboxes
          (str_eq_refl (trim_space req.id)) e)
        (inl (e, refl, refl)))

  store :
      Ends Q ((statement (insert_sandbox_row row) >>= λ _. get_sandbox (trim_space req.id)) reading)
  unfolding insert_sandbox_row new_sandbox stored_row
  store = Ends-bind Q (statement (insert_sandbox_row row)) _ reading (
      Ends-statement (Continues Q (λ _. get_sandbox (trim_space req.id))) (insert_sandbox_row row)
        reading c
        (elim (Bool-cases (exists (has_id (trim_space req.id)) w.db.sandboxes)) [
          | inl e ↦ rw e (inr (e, refl, refl))
          | inr e ↦ rw e (read_back e)
        ]))

scan_sandbox-new_row :
    (req : CreateSandboxObjectRequest) (now later : ℕ)
    → scan_sandbox (new_row req now later) ≡ new_object req now later
unfolding scan_sandbox unmarshal_status trim_space
scan_sandbox-new_row req now later = refl

-- Where no statement fails and nobody interferes, a valid request whose time to live is less than 2 ^ 63
-- nanoseconds has one of two outcomes: no row had its trimmed id, and a sandbox with the id and the
-- request is stored and returned, Pending, on no node and without ports, which expires after its
-- time to live, or never where that is 0; or there was such a row, the answer is the error of the
-- constraint, and nothing changes.
pub create_sandbox_object-IsCreation :
    (req : CreateSandboxObjectRequest) (w : World)
    → IsCalm w.env
    → IsValidRequest w.env.parse_quantity req
    → pos_part req.spec.ttl_seconds * 1_000_000_000 < 2 ^ 63
    → IsCreation req w (create_sandbox_object req w)
unfolding create_sandbox_object create_sandbox gets lift ◌>>=◌ read_clock new_sandbox stored_row
create_sandbox_object-IsCreation req w c v fits =
    let now = w.env.now w.step in
    let later = w.env.now (suc w.step) in
    let p = create_sandbox_object req w in
    let stored : IsStored (trim_space req.id) (stored_row req now later)
        (scan_sandbox (stored_row req now later)) w p =
      rw ((validate_sandbox_create-IsValid w.env.parse_quantity req).1 v) (store req w c) in
    subst (λ sbx. IsStored (trim_space req.id) (new_row req now later) sbx w p)
      (scan_sandbox-new_row req now later)
      (subst (λ row. IsStored (trim_space req.id) row (scan_sandbox row) w p)
        (stored_row-new_row req now later fits) stored)

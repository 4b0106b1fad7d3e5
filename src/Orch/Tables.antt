-- ===== src/Orch/Tables.antt =====
-- The tables that `migrate` creates (sandboxd-orch/repo/node_repo.go), as lists of rows, and the SQL
-- verbs on them. A JSON column holds the value that was marshalled.
pub mod Rows
pub mod Order
use go_gvisor_containerd_let.Base.{
  ℕ, zero, suc, ℤ, String, Bool, true, false, ◌&&◌, ◌||◌, Option, none, some, List, [], ◌∷◌, str_eq,
  ◌==◌, ltb, ◌/◌, ◌%◌, ◌^◌, if◌then◌else◌,
}
use go_gvisor_containerd_let.Orch.Types.{NodeState, NodeResources, SandboxSpec, SandboxStatus}

pub record NodeRow : Type 0 where
  pub name : String
  pub ip : String
  pub port : ℕ
  pub source : String
  pub created_at : ℕ
  pub updated_at : ℕ

pub record NodeStatusRow : Type 0 where
  pub name : String
  pub state : NodeState
  pub success_streak : ℕ
  pub failure_streak : ℕ
  pub last_error : String
  pub last_heartbeat_at : Option ℕ
  pub updated_at : ℕ

-- The resource columns are a `NodeResources`; its `updated_at` is the column `resource_updated_at`.
pub record NodeResourcesRow : Type 0 where
  pub name : String
  pub resources : NodeResources
  pub updated_at : ℕ

pub record SandboxRow : Type 0 where
  pub id : String
  pub spec : SandboxSpec
  pub status : SandboxStatus
  pub created_at : ℕ
  pub updated_at : ℕ

pub record SandboxPortRow : Type 0 where
  pub sandbox_id : String
  pub node_name : String
  pub host_port : ℕ
  pub container_port : ℤ
  pub protocol : String
  pub created_at : ℕ

pub record NodeExternalRow : Type 0 where
  pub external_id : String
  pub node_id : String
  pub external : String
  pub created_at : ℕ
  pub updated_at : ℕ

pub record Db : Type 0 where
  pub nodes : List NodeRow
  pub node_status : List NodeStatusRow
  pub node_resources : List NodeResourcesRow
  pub sandboxes : List SandboxRow
  pub sandbox_ports : List SandboxPortRow
  pub node_externals : List NodeExternalRow

abbrev pub empty_db : Db
empty_db = record {
  nodes = [];
  node_status = [];
  node_resources = [];
  sandboxes = [];
  sandbox_ports = [];
  node_externals = [];
}

-- A WHERE clause is a Boolean test of a row.
module _ {A : Type 0} where
  -- QueryRow: the first row that the clause selects.
  unfoldable pub find : (A → Bool) → List A → Option A
  find p [] = none
  find p (x ∷ xs) = if p x then some x else find p xs

  -- SELECT COUNT(1) … > 0.
  unfoldable pub exists : (A → Bool) → List A → Bool
  exists p [] = false
  exists p (x ∷ xs) = p x || exists p xs

  unfoldable pub select : (A → Bool) → List A → List A
  select p [] = []
  select p (x ∷ xs) = let rest = select p xs in if p x then x ∷ rest else rest

  unfoldable pub delete : (A → Bool) → List A → List A
  delete p [] = []
  delete p (x ∷ xs) = let rest = delete p xs in if p x then rest else x ∷ rest

  unfoldable pub update : (A → Bool) → (A → A) → List A → List A
  update p f [] = []
  update p f (x ∷ xs) = (if p x then f x else x) ∷ update p f xs

  -- INSERT appends.
  unfoldable pub insert : A → List A → List A
  insert a [] = a ∷ []
  insert a (x ∷ xs) = x ∷ insert a xs

  -- INSERT … ON CONFLICT DO UPDATE: `p` selects the row with the key of the new one.
  unfoldable pub upsert : (A → Bool) → (A → A) → A → List A → List A
  unfolding exists update insert
  upsert p f a xs = if exists p xs then update p f xs else insert a xs

  insert_sorted : (A → A → Bool) → A → List A → List A
  insert_sorted before a [] = a ∷ []
  insert_sorted before a (x ∷ xs) = if before a x then a ∷ x ∷ xs else x ∷ insert_sorted before a xs

  -- ORDER BY, and sort.Slice by a strict order.
  unfoldable pub sort_by : (A → A → Bool) → List A → List A
  unfolding insert_sorted
  sort_by before [] = []
  sort_by before (x ∷ xs) = insert_sorted before x (sort_by before xs)

-- ===== src/Orch/World.antt =====
-- The orchestrator's effects. A handler is an action on a `World`: the tables of the SQLite store, the
-- resource cache, and the environment, which a counter of external events indexes. Before each
-- database statement the environment may change the tables, as other goroutines do, and the
-- statement may fail. `err` keeps what was written before the error.
pub mod Keeps
pub mod Holds
pub mod Calm
pub mod Fails
use Prim.Native.String.{◌++◌ as append}
use go_gvisor_containerd_let.Base.{
  ℕ, suc, ℤ, String, Bool, true, false, Option, none, some, List, [], ◌∷◌, if◌then◌else◌,
}
use go_gvisor_containerd_let.Orch.Types.{
  NodeResources, SandboxStatusesResponse, CreateSandboxRequest,
}
use go_gvisor_containerd_let.Orch.Cache.{ResourceCache}
use go_gvisor_containerd_let.Orch.Tables.{Db}

-- The errors that the code tells apart. `engine` is a failure of SQLite itself, `constraint` one of
-- its constraints, `agent` a failed call of a node agent.
pub data Error : Type 0 where
  invalid_input : String → Error
  no_rows : Error
  port_conflict : String → Error
  external_conflict : String → Error
  constraint : Error
  engine : String → Error
  agent : String → Error
  quantity : String → Error
  prepare_client : Error → Error
  delete_failed : String → String → Error → Error
  reconcile_failed : String → Error → Error

pub data Result {ℓ} (A : Type ℓ) : Type ℓ where
  ok : A → Result A
  err : Error → Result A

-- A Kubernetes quantity: its values as int64, in thousandths and in units.
pub record Quantity : Type 0 where
  pub milli_value : ℤ
  pub value : ℤ

-- What the code under src/ does not define: other goroutines (between two statements), engine
-- faults, the clock, the shuffle of math/rand, ParseQuantity, ParseIP, and the node agents, which
-- are named by their base URL.
pub record Env : Type 0 where
  pub others : ℕ → Db → Db
  pub fault : ℕ → Option String
  pub now : ℕ → ℕ
  pub shuffle : ℕ → List ℕ → List ℕ
  pub parse_quantity : String → Result Quantity
  pub parse_ip : String → Bool
  pub healthz : ℕ → String → Option String
  pub node_status : ℕ → String → Result NodeResources
  pub create_on_node : ℕ → String → CreateSandboxRequest → Option String
  pub delete_on_node : ℕ → String → String → Option String
  pub statuses_on_node : ℕ → String → List String → Result SandboxStatusesResponse
  pub reconcile_on_node : ℕ → String → Option String

-- config.Config, as far as the service reads it. Durations are nanoseconds.
pub record Config : Type 0 where
  pub ready_success_threshold : ℕ
  pub not_ready_failure_threshold : ℕ
  pub resource_persist_min_int : ℤ
  pub resource_persist_max_int : ℤ
  pub host_port_min : ℕ
  pub host_port_max : ℕ
  pub status_sync_batch_size : ℕ

pub record World : Type 0 where
  pub env : Env
  pub cfg : Config
  pub db : Db
  pub cache : ResourceCache
  pub step : ℕ

abbrev pub M {ℓ} : Type ℓ → Type ℓ
M A = World → Result A × World

module _ {ℓ} {A : Type ℓ} where
  unfoldable pub pure : A → M A
  pure a w = (ok a, w)

  unfoldable pub raise : Error → M A
  raise e w = (err e, w)

  unfoldable pub lift : Result A → M A
  lift r w = (r, w)

  unfoldable pub gets : (World → A) → M A
  gets f w = (ok (f w), w)

module _ {ℓ κ} {A : Type ℓ} {B : Type κ} where
  abbrev pub continue : Result A → (A → M B) → M B
  continue (ok a) f w = f a w
  continue (err e) f w = (err e, w)

  infixl 10 ◌>>=◌ ◌>>◌
  -- Opening this opens `pure`, `raise`, `lift` and `gets` too.
  unfoldable pub ◌>>=◌ : M A → (A → M B) → M B
  unfolding pure raise lift gets
  ◌>>=◌ m f w = let (r, w') = m w in continue r f w'

  abbrev pub ◌>>◌ : M A → M B → M B
  m >> n = m >>= λ _. n

-- `x, err := m`, where the code looks at the error itself.
unfoldable pub attempt {ℓ} : {A : Type ℓ} → M A → M (Result A)
attempt m w = let (r, w') = m w in (ok r, w')

-- `_ = m`, or an error that is only logged.
unfoldable pub ignore {ℓ} : {A : Type ℓ} → M A → M (Unit {0})
ignore m w = let (r, w') = m w in (ok tt, w')

-- An event of the environment: its number, and the counter goes on.
unfoldable pub tick : M ℕ
tick w = (ok w.step, record w { step = suc w.step })

-- time.Now().
unfoldable pub read_clock : M ℕ
read_clock w = (ok (w.env.now w.step), record w { step = suc w.step })

-- A call of something outside the program, such as a node agent.
unfoldable pub call {ℓ} : {A : Type ℓ} → (Env → ℕ → Result A) → M A
call f w = (f w.env w.step, record w { step = suc w.step })

-- A method of the cache that writes.
unfoldable pub modify_cache : (ResourceCache → ResourceCache) → M (Unit {0})
modify_cache f w = (ok tt, record w { cache = f w.cache })

-- What the environment has made of the tables when the next statement runs.
abbrev pub seen : World → Db
seen w = w.env.others w.step w.db

abbrev pub after_statement : World → Db → World
after_statement w d = record w { db = d; step = suc w.step }

module _ {ℓ} {A : Type ℓ} where
  abbrev pub run_statement : Option String → (Db → Result A × Db) → World → Result A × World
  run_statement (some msg) f w = (err (engine msg), after_statement w (seen w))
  run_statement none f w = let (r, d) = f (seen w) in (r, after_statement w d)

  -- One statement of the store, atomic: it fails, or it does its work on the tables it sees.
  unfoldable pub statement : (Db → Result A × Db) → M A
  statement f w = run_statement (w.env.fault w.step) f w

  -- A statement that only reads.
  unfoldable pub query : (Db → Result A) → M A
  unfolding statement
  query f = statement (λ d. (f d, d))

-- A statement that always has its effect, if it runs.
unfoldable pub exec : (Db → Db) → M (Unit {0})
unfolding statement
exec f = statement (λ d. (ok tt, f d))

-- A loop that runs `f` for each element and stops at an error.
module _ {ℓ} {A : Type ℓ} where
  unfoldable pub for_each : (A → M (Unit {0})) → List A → M (Unit {0})
  for_each f [] = pure tt
  for_each f (x ∷ xs) = f x >> for_each f xs

-- err.Error().
unfoldable pub error_text : Error → String
error_text (invalid_input s) = append "invalid input: " s
error_text no_rows = "sql: no rows in result set"
error_text (port_conflict s) = append "port reservation conflict: " s
error_text (external_conflict s) = append "external object conflict: " s
error_text constraint = "constraint failed"
error_text (engine s) = s
error_text (agent s) = s
error_text (quantity s) = s
error_text (prepare_client e) = append "prepare node client for delete: " (error_text e)
error_text (delete_failed node sandbox e) =
    append "delete sandbox on node "
      (append node (append " for sandbox " (append sandbox (append ": " (error_text e)))))
error_text (reconcile_failed node e) =
    append "reconcile node " (append node (append " during delete: " (error_text e)))

-- errors.Is(err, sql.ErrNoRows).
abbrev pub is_no_rows : Error → Bool
is_no_rows no_rows = true
is_no_rows _ = false

-- errors.Is(err, repo.ErrPortReservationConflict).
abbrev pub is_port_conflict : Error → Bool
is_port_conflict (port_conflict s) = true
is_port_conflict _ = false

-- Inside a transaction no other goroutine has the store's one connection.
abbrev pub alone : Env → Env
alone e = record e { others = λ k d. d }

module _ {ℓ} {A : Type ℓ} where
  abbrev pub finish_commit : Option String → Db → A → World → Result A × World
  finish_commit (some msg) before a w =
      (err (engine msg), record w { db = before; step = suc w.step })
  finish_commit none before a w = (ok a, record w { step = suc w.step })

  -- Commit, or the deferred Rollback.
  abbrev pub finish_transaction : Db → Env → Result A → World → Result A × World
  finish_transaction before e (ok a) w =
      finish_commit (w.env.fault w.step) before a (record w { env = e })
  finish_transaction before e (err x) w = (err x, record w { db = before; env = e })

  abbrev pub begin_transaction : Option String → M A → World → Result A × World
  begin_transaction (some msg) body w = (err (engine msg), after_statement w (seen w))
  begin_transaction none body w =
      let (r, w') = body (record (after_statement w (seen w)) { env = alone w.env }) in
      finish_transaction (seen w) w.env r w'

  -- BeginTx, the body, and Commit; any error rolls back to the tables that BeginTx saw.
  unfoldable pub transaction : M A → M A
  transaction body w = begin_transaction (w.env.fault w.step) body w

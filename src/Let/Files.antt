-- ===== src/Let/Files.antt =====
-- The state files of a node (sandboxd-let/store/file_store.go): a directory for each sandbox below the base
-- directory, with the state in one file. JSON and the functions of os and path/filepath are arguments.
pub mod Disk
pub mod Listing
pub mod Contents
pub mod Refinement
use go_gvisor_containerd_let.Base.{ℕ, String, Bool, true, false, Option, none, some, List, [], ◌∷◌}
use go_gvisor_containerd_let.Let.Types.{Failure, Outcome, done, failed, Sandbox}

-- encoding/json on a sandbox.
pub record Codec : Type 0 where
  pub marshal : Sandbox → Outcome String
  pub unmarshal : String → Outcome Sandbox

-- What the code calls of os and path/filepath. `read_file` answers `done none`, and `remove_all`
-- answers `done false`, for os.ErrNotExist; `read_dir` tells which entries are directories.
pub record FileSystem : Type 1 where
  pub FilePath : Type 0
  pub State : Type 0
  pub join : FilePath → String → FilePath
  pub mkdir_all : FilePath → State → Failure × State
  pub read_file : FilePath → State → Outcome (Option String)
  pub write_file : FilePath → String → State → Failure × State
  pub remove_all : FilePath → State → Outcome Bool × State
  pub read_dir : FilePath → State → Outcome (List (String × Bool))

unfoldable pub found : Outcome Sandbox → Outcome (Option Sandbox)
found (failed e) = failed e
found (done x) = done (some x)

-- `done none` is os.ErrNotExist.
unfoldable pub decoded : Codec → Outcome (Option String) → Outcome (Option Sandbox)
unfolding found
decoded codec (failed e) = failed e
decoded codec (done none) = done none
decoded codec (done (some b)) = found (codec.unmarshal b)

unfoldable pub add_loaded : Outcome (Option Sandbox) → List Sandbox → List Sandbox
add_loaded (done (some x)) all = x ∷ all
add_loaded other all = all

unfoldable pub removed : Outcome Bool → Failure
removed (failed e) = some e
removed (done b) = none

module _ (fs : FileSystem) (codec : Codec) (base_dir : fs.FilePath) where
  open fs use {FilePath, State, join, mkdir_all, read_file, write_file, remove_all, read_dir}

  unfoldable pub write_state : FilePath → Outcome String → State → Failure × State
  write_state dir (failed e) s = (some e, s)
  write_state dir (done b) s = write_file (join dir "state.json") b s

  unfoldable pub save_in : FilePath → Sandbox → Failure × State → Failure × State
  unfolding write_state
  save_in dir x (some e, s) = (some e, s)
  save_in dir x (none, s) = write_state dir (codec.marshal x) s

  unfoldable pub save : Sandbox → State → Failure × State
  unfolding save_in
  save x s = save_in (join base_dir x.id) x (mkdir_all (join base_dir x.id) s)

  unfoldable pub load : String → State → Outcome (Option Sandbox)
  unfolding decoded
  load id s = decoded codec (read_file (join (join base_dir id) "state.json") s)

  unfoldable pub delete : String → State → Failure × State
  unfolding removed
  delete id s = let (r, s') = remove_all (join base_dir id) s in (removed r, s')

  unfoldable pub list_from : State → List (String × Bool) → List Sandbox
  unfolding add_loaded load
  list_from s [] = []
  list_from s ((n, false) ∷ entries) = list_from s entries
  list_from s ((n, true) ∷ entries) = add_loaded (load n s) (list_from s entries)

  unfoldable pub list_entries : State → Outcome (List (String × Bool)) → Outcome (List Sandbox)
  unfolding list_from
  list_entries s (failed e) = failed e
  list_entries s (done entries) = done (list_from s entries)

  unfoldable pub list : State → Outcome (List Sandbox)
  unfolding list_entries
  list s = list_entries s (read_dir base_dir s)

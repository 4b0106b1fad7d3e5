-- ===== src/Let/Files/Disk.antt =====
-- The base directory of the state files as a list of entries, and what the functions of os do with it.
use go_gvisor_containerd_let.Base.{
  ◌≡◌, String, Bool, true, false, ◌||◌, Option, none, some, List, [], ◌∷◌, str_eq, is_empty,
  contains, if◌then◌else◌,
}
use go_gvisor_containerd_let.Orch.Tables.Rows.{All}
use go_gvisor_containerd_let.Let.Types.{Outcome, done, failed, Sandbox}
use go_gvisor_containerd_let.Let.Files.{Codec, FileSystem, decoded, add_loaded}

-- An entry of the base directory: a file, or a directory with or without a state file.
pub data Entry : Type 0 where
  plain_file : Entry
  directory : Option String → Entry

abbrev pub Disk : Type 0
Disk = List (String × Entry)

unfoldable pub entry_at : String → Disk → Option Entry
entry_at k [] = none
entry_at k ((n, e) ∷ d) = if str_eq n k then some e else entry_at k d

unfoldable pub put_entry : String → Entry → Disk → Disk
put_entry k e [] = (k, e) ∷ []
put_entry k e ((n, f) ∷ d) = if str_eq n k then (k, e) ∷ d else (n, f) ∷ put_entry k e d

unfoldable pub remove_entry : String → Disk → Disk
remove_entry k [] = []
remove_entry k ((n, e) ∷ d) =
    let rest = remove_entry k d in if str_eq n k then rest else (n, e) ∷ rest

-- The directory after os.MkdirAll; `none` where a file is in the way.
unfoldable pub made_directory : Option Entry → Option Entry
made_directory none = some (directory none)
made_directory (some plain_file) = none
made_directory (some (directory state)) = some (directory state)

-- The state file in an entry.
unfoldable pub read_entry : Option Entry → Outcome (Option String)
read_entry none = done none
read_entry (some plain_file) = failed "not a directory"
read_entry (some (directory state)) = done state

abbrev pub is_directory : Entry → Bool
is_directory plain_file = false
is_directory (directory state) = true

unfoldable pub names_of : Disk → List (String × Bool)
names_of [] = []
names_of ((n, e) ∷ d) = (n, is_directory e) ∷ names_of d

-- A single element of a path, other than `.` and `..`.
abbrev pub is_name : String → Bool
is_name n =
    if is_empty n || (str_eq n "." || (str_eq n ".." || contains "/" n)) then false else true

abbrev pub IsName : String → Type 0
IsName n = is_name n ≡ true

abbrev pub AllNames : Disk → Type 0
AllNames = All (λ e. IsName e.0)

-- What the functions of os document, of the paths that a name gives below the base directory: which
-- entries there are in each state, what the calls that succeed do to them, and that what is
-- there can be read.
pub record IsFileSystem (fs : FileSystem) (base_dir : fs.FilePath) : Type 0 where
  pub entries : fs.State → Disk
  pub mkdir_made :
      (n : String) (s : fs.State)
      → IsName n
      → (fs.mkdir_all (fs.join base_dir n) s).0 ≡ none
      → (e : Entry) × (made_directory (entry_at n (entries s)) ≡ some e)
        × (entries (fs.mkdir_all (fs.join base_dir n) s).1 ≡ put_entry n e (entries s))
  pub write_put :
      (n b : String) (state : Option String) (s : fs.State)
      → IsName n
      → entry_at n (entries s) ≡ some (directory state)
      → (fs.write_file (fs.join (fs.join base_dir n) "state.json") b s).0 ≡ none
      → entries (fs.write_file (fs.join (fs.join base_dir n) "state.json") b s).1
        ≡ put_entry n (directory (some b)) (entries s)
  pub remove_gone :
      (n : String) (b : Bool) (s : fs.State)
      → IsName n
      → (fs.remove_all (fs.join base_dir n) s).0 ≡ done b
      → entries (fs.remove_all (fs.join base_dir n) s).1 ≡ remove_entry n (entries s)
  pub read_state :
      (n : String) (s : fs.State)
      → IsName n
      → fs.read_file (fs.join (fs.join base_dir n) "state.json") s
        ≡ read_entry (entry_at n (entries s))
  pub dir_names : (s : fs.State) → fs.read_dir base_dir s ≡ done (names_of (entries s))

-- What is loaded and listed of a disk.
unfoldable pub load_entry : Codec → Option Entry → Outcome (Option Sandbox)
unfolding decoded read_entry
load_entry codec o = decoded codec (read_entry o)

unfoldable pub loaded : Codec → String → Disk → Outcome (Option Sandbox)
unfolding load_entry entry_at
loaded codec id d = load_entry codec (entry_at id d)

unfoldable pub listed_from : Codec → Disk → Disk → List Sandbox
unfolding add_loaded loaded
listed_from codec d [] = []
listed_from codec d ((n, plain_file) ∷ entries) = listed_from codec d entries
listed_from codec d ((n, directory state) ∷ entries) =
    add_loaded (loaded codec n d) (listed_from codec d entries)

unfoldable pub listed : Codec → Disk → List Sandbox
unfolding listed_from
listed codec d = listed_from codec d d

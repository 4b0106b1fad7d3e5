-- ===== src/Let/Tests/Store.antt =====
-- The theorem about the state files, applied to a file system that is a list of entries.
use go_gvisor_containerd_let.Base.{◌≡◌, refl, String, true, Option, none, some, List, [], ◌∷◌}
use go_gvisor_containerd_let.Orch.Tables
use go_gvisor_containerd_let.Let.Types.{Failure, done}
use go_gvisor_containerd_let.Let.Health
use go_gvisor_containerd_let.Let.Files.{Codec, FileSystem}
use go_gvisor_containerd_let.Let.Files.Disk.{
  Entry, directory, Disk, entry_at, put_entry, remove_entry, made_directory, read_entry, names_of,
  IsFileSystem,
}
use go_gvisor_containerd_let.Let.Tests.{sample_sandbox}

-- JSON that keeps the id of a sample.
abbrev sample_codec : Codec
sample_codec = record { marshal = λ s. done s.id; unmarshal = λ b. done (sample_sandbox b "") }

abbrev sample_disk : Disk
sample_disk = ("lost+found", directory none) ∷ ("s1", directory (some "s1")) ∷ []

abbrev put_if : String → Option Entry → Disk → Failure × Disk
put_if n none d = (some "not a directory", d)
put_if n (some e) d = (none, put_entry n e d)

abbrev with_content : String → Option Entry → Option Entry
with_content b (some (directory state)) = some (directory (some b))
with_content b other = none

-- The last element of a path below the base directory, and that of its parent.
abbrev last : List String → String
last [] = "."
last (n ∷ path) = n

abbrev parent : List String → String
parent [] = "."
parent (n ∷ path) = last path

-- A path has its last element first.
abbrev sample_os : FileSystem
sample_os = record {
  FilePath = List String;
  State = Disk;
  join = λ path n. n ∷ path;
  mkdir_all = λ path d. put_if (last path) (made_directory (entry_at (last path) d)) d;
  read_file = λ path d. read_entry (entry_at (parent path) d);
  write_file = λ path b d. put_if (parent path) (with_content b (entry_at (parent path) d)) d;
  remove_all = λ path d. (done true, remove_entry (last path) d);
  read_dir = λ path d. done (names_of d);
}

put_if-none :
    (n : String) (o : Option Entry) (d : Disk)
    → (put_if n o d).0 ≡ none
    → (e : Entry) × (o ≡ some e) × ((put_if n o d).1 ≡ put_entry n e d)
put_if-none n none d h = absurd (cc)
put_if-none n (some e) d h = (e, refl, refl)

abbrev sample_os-IsFileSystem : IsFileSystem sample_os []
sample_os-IsFileSystem = record {
  entries = λ d. d;
  mkdir_made = λ n d name h. put_if-none n (made_directory (entry_at n d)) d h;
  write_put = λ n b state d name e h. rw e refl;
  remove_gone = λ n b d name h. refl;
  read_state = λ n d name. refl;
  dir_names = λ d. refl;
}

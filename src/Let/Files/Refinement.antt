-- ===== src/Let/Files/Refinement.antt =====
-- The state files implement the store that the other modules keep: a list of sandboxes, found by id.
use go_gvisor_containerd_let.Base.{◌≡◌, List, []}
use go_gvisor_containerd_let.Orch.Tables
use go_gvisor_containerd_let.Orch.Tables.{find, exists, update, insert}
use go_gvisor_containerd_let.Let.Types.{Outcome, done, failed, Sandbox}
use go_gvisor_containerd_let.Let.Health
use go_gvisor_containerd_let.Let.Files
use go_gvisor_containerd_let.Let.Files.{Codec, FileSystem, found, add_loaded}
use go_gvisor_containerd_let.Let.Files.Disk.{AllNames, Disk, IsFileSystem}
use go_gvisor_containerd_let.Let.Files.Contents.{contents}
use go_gvisor_containerd_let.Let.Files.Listing.{IsTidy}

abbrev stored_in : Outcome (List Sandbox) → List Sandbox
stored_in (done all) = all
stored_in (failed e) = []

module _ (fs : FileSystem) (base_dir : fs.FilePath) (codec : Codec)
    (laws : IsFileSystem fs base_dir) where
  open laws use {entries, mkdir_made, write_put, remove_gone, read_state, dir_names}

  -- The sandboxes that are listed are found as in the list.
  abbrev pub Implements : fs.State → List Sandbox → Type 0
  Implements s all =
      AllNames (entries s)
      × IsTidy codec (entries s)
      × (stored : List Sandbox) × (Files.list fs codec base_dir s ≡ done stored)
      × (contents stored ≡ contents all)

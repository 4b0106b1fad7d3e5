-- ===== src/Let/Files/Contents.antt =====
-- The operations on a list of sandboxes, and those on the entries of a disk, by what is found under an id.
use mathlib.Core.Path.{fun_ext}
use go_gvisor_containerd_let.Base.{
  ◌≡◌, refl, ap, ◌∙◌, sym, String, false, ◌&&◌, Option, none, some, List, [], ◌∷◌, arith, str_eq,
  eq_iff, if◌then◌else◌, Bool-cases, inl, inr,
}
use go_gvisor_containerd_let.Orch.Tables
use go_gvisor_containerd_let.Orch.Tables.{find, exists, update, insert}
use go_gvisor_containerd_let.Let.Types.{done, Sandbox}
use go_gvisor_containerd_let.Let.Health
use go_gvisor_containerd_let.Let.Health.{named}
use go_gvisor_containerd_let.Let.Files.{Codec, decoded, found}
use go_gvisor_containerd_let.Let.Files.Disk.{
  AllNames, Entry, directory, Disk, put_entry, remove_entry, read_entry, IsName, load_entry, loaded,
  listed,
}
use go_gvisor_containerd_let.Let.Files.Listing.{
  HasId, IsTidy, value, find-list, IsTidy-put, IsTidy-remove, loaded-put, loaded-remove,
}

-- The abstract operations, on what is found.
find-update :
    (k : String) (x : Sandbox) (all : List Sandbox)
    → find (named k) (update (named x.id) (λ _. x) all)
      ≡ (if str_eq x.id k && exists (named x.id) all then some x else find (named k) all)
unfolding find exists update
find-update k x [] = ground arith
find-update k x (y ∷ all) =
    ground (arith, find-update k x all, eq_iff y.id x.id, eq_iff y.id k, eq_iff x.id k)

find-insert :
    (k : String) (x : Sandbox) (all : List Sandbox)
    → exists (named x.id) all ≡ false
    → find (named k) (insert x all) ≡ (if str_eq x.id k then some x else find (named k) all)
unfolding find exists insert
find-insert k x [] e = refl
find-insert k x (y ∷ all) e =
    ground (arith, find-insert k x all, eq_iff y.id x.id, eq_iff y.id k, eq_iff x.id k)

find-save :
    (k : String) (x : Sandbox) (all : List Sandbox)
    → find (named k) (Health.save x all) ≡ (if str_eq x.id k then some x else find (named k) all)
unfolding Health.save
find-save k x all = elim (Bool-cases (exists (named x.id) all)) [
  | inl e ↦ rw e (find-update k x all ∙ rw e (ground arith))
  | inr e ↦ rw e (find-insert k x all e)
]

find-delete :
    (k id : String) (all : List Sandbox)
    → find (named k) (Tables.delete (named id) all)
      ≡ (if str_eq id k then none else find (named k) all)
unfolding find Tables.delete
find-delete k id [] = ground arith
find-delete k id (x ∷ all) =
    ground (arith, find-delete k id all, eq_iff x.id id, eq_iff x.id k, eq_iff id k)

-- The sandbox that a store has under each id.
abbrev pub contents : List Sandbox → String → Option Sandbox
contents all k = find (named k) all

-- The disk holds the sandboxes of the list.
abbrev pub Holds : Codec → Disk → List Sandbox → Type 0
Holds codec d all = AllNames d × IsTidy codec d × (contents (listed codec d) ≡ contents all)

AllNames-put :
    (n : String) (e : Entry) (d : Disk) → IsName n → AllNames d → AllNames (put_entry n e d)
unfolding put_entry
AllNames-put n e [] h a = (h, tt)
AllNames-put n e ((m, f) ∷ d) h a = elim (Bool-cases (str_eq m n)) [
  | inl q ↦ rw q (h, a.1)
  | inr q ↦ rw q (a.0, AllNames-put n e d h a.1)
]

AllNames-remove : (n : String) (d : Disk) → AllNames d → AllNames (remove_entry n d)
unfolding remove_entry
AllNames-remove n [] a = tt
AllNames-remove n ((m, f) ∷ d) a = elim (Bool-cases (str_eq m n)) [
  | inl q ↦ rw q (AllNames-remove n d a.1)
  | inr q ↦ rw q (a.0, AllNames-remove n d a.1)
]

module _ (codec : Codec) (d : Disk) (all : List Sandbox) (i : Holds codec d all) where
  pub put-Holds :
      (x : Sandbox) (b : String)
      → codec.unmarshal b ≡ done x
      → IsName x.id
      → Holds codec (put_entry x.id (directory (some b)) d) (Health.save x all)
  unfolding load_entry decoded read_entry found
  put-Holds x b back n =
      let e = directory (some b) in
      let own : HasId x.id (load_entry codec (some e)) = rw back refl in
      let tidy = IsTidy-put codec x.id e d own i.1 in
      (
        AllNames-put x.id e d n i.0,
        tidy,
        fun_ext λ k.
            find-list codec k (put_entry x.id e d) tidy
            ∙ loaded-put codec k x.id e d
            ∙ rw back (
                ap (λ o. if str_eq x.id k then some x else o)
                  (sym (find-list codec k d i.1) ∙ ap (λ f. f k) i.2))
            ∙ sym (find-save k x all),
      )

  pub remove-Holds : (id : String) → Holds codec (remove_entry id d) (Tables.delete (named id) all)
  remove-Holds id =
      let tidy = IsTidy-remove codec id d i.1 in
      (
        AllNames-remove id d i.0,
        tidy,
        fun_ext λ k.
            find-list codec k (remove_entry id d) tidy
            ∙ loaded-remove codec k id d
            ∙ ap (λ o. if str_eq id k then none else o)
                (sym (find-list codec k d i.1) ∙ ap (λ f. f k) i.2)
            ∙ sym (find-delete k id all),
      )

  pub loaded-Holds : (id : String) → value (loaded codec id d) ≡ contents all id
  loaded-Holds id = sym (find-list codec id d i.1) ∙ ap (λ f. f id) i.2

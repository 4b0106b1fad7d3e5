-- ===== src/Let/Files/Listing.antt =====
-- What is listed from the state files under an id is what is loaded, and what a write or a removal of an
-- entry changes.
use go_gvisor_containerd_let.Base.{
  ◌≡◌, refl, ap, ◌∙◌, subst, String, Option, none, some, List, [], ◌∷◌, arith, str_eq, eq_iff,
  if◌then◌else◌, Bool-cases, inl, inr,
}
use go_gvisor_containerd_let.Orch.Tables.{find}
use go_gvisor_containerd_let.Let.Types.{Outcome, done, failed, Sandbox}
use go_gvisor_containerd_let.Let.Health.{named}
use go_gvisor_containerd_let.Let.Files.{Codec, decoded, add_loaded}
use go_gvisor_containerd_let.Let.Files.Disk.{
  Entry, plain_file, directory, Disk, entry_at, put_entry, remove_entry, read_entry, load_entry,
  loaded, listed_from, listed,
}

module _ (k : String) where
  pub entry_at-put :
      (n : String) (e : Entry) (d : Disk)
      → entry_at k (put_entry n e d) ≡ (if str_eq n k then some e else entry_at k d)
  unfolding entry_at put_entry
  entry_at-put n e [] = refl
  entry_at-put n e ((m, f) ∷ d) =
      ground (arith, entry_at-put n e d, eq_iff m n, eq_iff n k, eq_iff m k)

  pub entry_at-remove :
      (n : String) (d : Disk)
      → entry_at k (remove_entry n d) ≡ (if str_eq n k then none else entry_at k d)
  unfolding entry_at remove_entry
  entry_at-remove n [] = ground arith
  entry_at-remove n ((m, f) ∷ d) =
      ground (arith, entry_at-remove n d, eq_iff m n, eq_iff n k, eq_iff m k)

-- The state in an entry is that of the sandbox with its name.
abbrev pub HasId : String → Outcome (Option Sandbox) → Type 0
HasId n (done (some x)) = x.id ≡ n
HasId n other = Unit {0}

-- Each name stands once, and names the state in its directory.
abbrev pub IsTidy : Codec → Disk → Type 0
IsTidy codec [] = Unit {0}
IsTidy codec ((n, e) ∷ d) =
    HasId n (load_entry codec (some e)) × (entry_at n d ≡ none) × IsTidy codec d

abbrev pub value : Outcome (Option Sandbox) → Option Sandbox
value (done o) = o
value (failed e) = none

or_later : Option Sandbox → Option Sandbox → Option Sandbox
or_later (some x) later = some x
or_later none later = later

or_later-none : (o : Option Sandbox) → or_later o none ≡ o
unfolding or_later
or_later-none none = refl
or_later-none (some x) = refl

find-added :
    (k n : String) (o : Outcome (Option Sandbox)) (all : List Sandbox)
    → HasId n o
    → find (named k) (add_loaded o all)
      ≡ (if str_eq n k then or_later (value o) (find (named k) all) else find (named k) all)
unfolding add_loaded or_later find
find-added k n (failed e) all h = ground arith
find-added k n (done none) all h = ground arith
find-added k n (done (some x)) all h = ground (arith, eq_iff x.id k, eq_iff n k)

module _ (codec : Codec) where
  -- Each entry stands on the whole disk under its name.
  abbrev StandsIn : Disk → Disk → Type 0
  StandsIn d [] = Unit {0}
  StandsIn d ((n, e) ∷ entries) = (entry_at n d ≡ some e) × StandsIn d entries

  StandsIn-cons :
      (m : String) (f : Entry) (d entries : Disk)
      → entry_at m d ≡ none
      → StandsIn d entries
      → StandsIn ((m, f) ∷ d) entries
  unfolding entry_at
  StandsIn-cons m f d [] a s = tt
  StandsIn-cons m f d ((n, e) ∷ entries) a s = elim (Bool-cases (str_eq m n)) [
    | inl q ↦ absurd (cc (subst (λ j. entry_at j d ≡ none) ((eq_iff m n).0 q) a, s.0))
    | inr q ↦ (rw q s.0, StandsIn-cons m f d entries a s.1)
  ]

  stands : (d : Disk) → IsTidy codec d → StandsIn d d
  unfolding entry_at
  stands [] t = tt
  stands ((n, e) ∷ d) t = (rw ((eq_iff n n).1 refl) refl, StandsIn-cons n e d d t.1 (stands d t.2))

  -- The listing, entry by entry.
  abbrev listing : Disk → List Sandbox
  listing [] = []
  listing ((n, e) ∷ d) = add_loaded (load_entry codec (some e)) (listing d)

  listed_from-listing :
      (d entries : Disk) → StandsIn d entries → listed_from codec d entries ≡ listing entries
  unfolding listed_from add_loaded loaded load_entry decoded read_entry
  listed_from-listing d [] s = refl
  listed_from-listing d ((n, plain_file) ∷ entries) s = listed_from-listing d entries s.1
  listed_from-listing d ((n, directory state) ∷ entries) s =
      rw (s.0, listed_from-listing d entries s.1) refl

  find-listing :
      (k : String) (d : Disk)
      → IsTidy codec d
      → find (named k) (listing d) ≡ value (load_entry codec (entry_at k d))
  unfolding find entry_at load_entry decoded read_entry
  find-listing k [] t = refl
  find-listing k ((n, e) ∷ d) t =
      find-added k n (load_entry codec (some e)) (listing d) t.0 ∙ elim (Bool-cases (str_eq n k)) [
        | inl q ↦
            let absent = subst (λ j. entry_at j d ≡ none) ((eq_iff n k).0 q) t.1 in
            let nothing : find (named k) (listing d) ≡ none =
              find-listing k d t.2 ∙ ap (λ e. value (load_entry codec e)) absent in
            rw (q, nothing) (or_later-none (value (load_entry codec (some e))))
        | inr q ↦ rw q (find-listing k d t.2)
      ]

  -- What is listed under an id is what is loaded.
  pub find-list :
      (k : String) (d : Disk)
      → IsTidy codec d
      → find (named k) (listed codec d) ≡ value (loaded codec k d)
  unfolding listed loaded
  find-list k d t = ap (find (named k)) (listed_from-listing d d (stands d t)) ∙ find-listing k d t

  pub IsTidy-put :
      (n : String) (e : Entry) (d : Disk)
      → HasId n (load_entry codec (some e))
      → IsTidy codec d
      → IsTidy codec (put_entry n e d)
  unfolding put_entry entry_at
  IsTidy-put n e [] h t = (h, refl, tt)
  IsTidy-put n e ((m, f) ∷ d) h t = elim (Bool-cases (str_eq m n)) [
    | inl q ↦ rw q (h, subst (λ j. entry_at j d ≡ none) ((eq_iff m n).0 q) t.1, t.2)
    | inr q ↦
        rw q (
          t.0,
          entry_at-put m n e d ∙ ground (arith, eq_iff m n, eq_iff n m),
          IsTidy-put n e d h t.2,
        )
  ]

  pub IsTidy-remove : (n : String) (d : Disk) → IsTidy codec d → IsTidy codec (remove_entry n d)
  unfolding remove_entry
  IsTidy-remove n [] t = tt
  IsTidy-remove n ((m, f) ∷ d) t = elim (Bool-cases (str_eq m n)) [
    | inl q ↦ rw q (IsTidy-remove n d t.2)
    | inr q ↦
        rw q (
          t.0,
          entry_at-remove m n d ∙ ground (arith, eq_iff m n, eq_iff n m),
          IsTidy-remove n d t.2,
        )
  ]

  pub loaded-put :
      (k n : String) (e : Entry) (d : Disk)
      → value (loaded codec k (put_entry n e d))
        ≡ (if str_eq n k then value (load_entry codec (some e)) else value (loaded codec k d))
  unfolding loaded
  loaded-put k n e d =
      ap (λ o. value (load_entry codec o)) (entry_at-put k n e d)
      ∙ elim (Bool-cases (str_eq n k)) [ inl q ↦ rw q refl | inr q ↦ rw q refl ]

  pub loaded-remove :
      (k n : String) (d : Disk)
      → value (loaded codec k (remove_entry n d))
        ≡ (if str_eq n k then none else value (loaded codec k d))
  unfolding loaded load_entry decoded read_entry
  loaded-remove k n d =
      ap (λ o. value (load_entry codec o)) (entry_at-remove k n d)
      ∙ elim (Bool-cases (str_eq n k)) [ inl q ↦ rw q refl | inr q ↦ rw q refl ]

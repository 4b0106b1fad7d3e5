-- ===== src/Let/Ports/Exclusion.antt =====
-- No two creations hold one host port, and a release gives back what was reserved.
use go_gvisor_containerd_let.Base.{
  ℤ, ◌≡◌, refl, ap, ◌∙◌, inl, inr, String, Bool, true, false, ◌&&◌, subst, Option, none, some, List,
  [], ◌∷◌, arith, eq_iff, str_eq, if◌then◌else◌, Bool-cases,
}
use go_gvisor_containerd_let.Orch.Tables.{exists}
use go_gvisor_containerd_let.Orch.Tables.Rows.{All, All-map, Unique}
use go_gvisor_containerd_let.Let.Types.{
  Failure, Outcome, done, failed, or_else, PortMapping, Sandbox,
}
use go_gvisor_containerd_let.Let.Ports.{
  key_of, Reservations, owner_of, put, remove, reserved_port_owner, reserve_requested_ports,
  owned_by, release_requested_ports, release_reserved_ports, Used, check_requested, use_failure,
  owner_failure, check_all_requested, record_sandboxes, normalize_proto, ensure_listed,
  ensure_host_ports_available, used_at,
}

module _ (k : String) where
  owner_of-put :
      (j v : String) (rs : Reservations)
      → owner_of k (put j v rs) ≡ (if str_eq j k then some v else owner_of k rs)
  unfolding owner_of put
  owner_of-put j v [] = refl
  owner_of-put j v ((i, u) ∷ rs) =
      ground (arith, owner_of-put j v rs, eq_iff i j, eq_iff j k, eq_iff i k)

  owner_of-remove :
      (j : String) (rs : Reservations)
      → owner_of k (remove j rs) ≡ (if str_eq j k then none else owner_of k rs)
  unfolding owner_of remove
  owner_of-remove j [] = ground arith
  owner_of-remove j ((i, u) ∷ rs) =
      ground (arith, owner_of-remove j rs, eq_iff i j, eq_iff j k, eq_iff i k)

  abbrev pub asks_for : PortMapping → Bool
  asks_for p = str_eq (key_of p) k

  -- After a reservation, its ports are the sandbox's, and all others as before.
  owner_of-reserve :
      (id : String) (ps : List PortMapping) (rs : Reservations)
      → owner_of k (reserve_requested_ports id ps rs)
        ≡ (if exists asks_for ps then some id else owner_of k rs)
  unfolding reserve_requested_ports exists
  owner_of-reserve id [] rs = refl
  owner_of-reserve id (p ∷ ps) rs =
      ground (arith, owner_of-reserve id ps (put (key_of p) id rs), owner_of-put (key_of p) id rs)

  same_owner : (j : String) (rs : Reservations) → str_eq j k ≡ true → owner_of j rs ≡ owner_of k rs
  same_owner j rs e = ap (λ i. owner_of i rs) ((eq_iff j k).0 e)

  -- The function that the reservation returns gives up what the sandbox still owns.
  owner_of-release :
      (id : String) (ps : List PortMapping) (rs : Reservations)
      → owner_of k (release_requested_ports id ps rs)
        ≡ (if exists asks_for ps && owned_by id (owner_of k rs) then none else owner_of k rs)
  unfolding release_requested_ports exists
  owner_of-release id [] rs = refl
  owner_of-release id (p ∷ ps) rs = elim (Bool-cases (owned_by id (owner_of (key_of p) rs))) [
    | inl e ↦ rw e (
        owner_of-release id ps (remove (key_of p) rs)
        ∙ ground (arith, owner_of-remove (key_of p) rs, same_owner (key_of p) rs))
    | inr e ↦ rw e (owner_of-release id ps rs ∙ ground (arith, same_owner (key_of p) rs))
  ]

abbrev pub same_key : String × String → String × String → Bool
same_key a b = str_eq b.0 a.0

module _ (k : String) where
  unowned : (rs : Reservations) → exists (λ r. str_eq r.0 k) rs ≡ false → owner_of k rs ≡ none
  unfolding owner_of exists
  unowned [] h = refl
  unowned ((i, u) ∷ rs) h = ground (arith, unowned rs)

  -- Where each key has one entry, releasing all ports of a sandbox frees the keys that it owns, and
  -- leaves the owner of every other key as it was.
  pub owner_of-release_reserved_ports :
      (id : String) (rs : Reservations)
      → Unique same_key rs
      → owner_of k (release_reserved_ports id rs)
        ≡ (if owned_by id (owner_of k rs) then none else owner_of k rs)
  unfolding owner_of release_reserved_ports
  owner_of-release_reserved_ports id [] h = refl
  owner_of-release_reserved_ports id ((i, u) ∷ rs) h = elim (Bool-cases (str_eq i k)) [
    | inl e ↦
        let absent = subst (λ j. exists (λ r. str_eq r.0 j) rs ≡ false) ((eq_iff i k).0 e) h.0 in
        ground (arith, unowned rs absent, owner_of-release_reserved_ports id rs h.1)
    | inr e ↦ ground (arith, owner_of-release_reserved_ports id rs h.1)
  ]

  -- A release after a reservation leaves the sandbox's ports free, and all others as they were.
  pub release_requested_ports-frees :
      (id : String) (ps : List PortMapping) (rs : Reservations)
      → owner_of k (release_requested_ports id ps (reserve_requested_ports id ps rs))
        ≡ (if exists (asks_for k) ps then none else owner_of k rs)
  release_requested_ports-frees id ps rs =
      owner_of-release k id ps (reserve_requested_ports id ps rs)
      ∙ ground (arith, owner_of-reserve k id ps rs, eq_iff id id)

-- Nobody but the sandbox owns the key.
abbrev pub FreeFor : String → Option String → Type 0
FreeFor id none = Unit {0}
FreeFor id (some owner) = str_eq owner id ≡ true

owner_failure-FreeFor :
    (port : ℤ) (proto id : String) (o : Option String) (rest : Failure)
    → owner_failure port proto id o rest ≡ none
    → FreeFor id o
unfolding owner_failure
owner_failure-FreeFor port proto id none rest h = tt
owner_failure-FreeFor port proto id (some owner) rest h = elim (Bool-cases (str_eq owner id)) [
  | inl e ↦ e
  | inr e ↦ cc (rw e at h)
]

use_failure-rest :
    (port : ℤ) (proto : String) (u : Option (String × String)) (rest : Failure)
    → use_failure port proto u rest ≡ none
    → rest ≡ none
unfolding use_failure
use_failure-rest port proto none rest h = h
use_failure-rest port proto (some u) rest h = elim (Bool-cases (str_eq u.1 proto)) [
  | inl e ↦ cc (rw e at h)
  | inr e ↦ rw e at h
]

or_else-both : (r rest : Failure) → or_else r rest ≡ none → (r ≡ none) × (rest ≡ none)
or_else-both none rest h = (refl, h)
or_else-both (some e) rest h = cc

module _ (bind : ℤ → String → Failure) (id : String) (rs : Reservations) where
  check_requested-FreeFor :
      (used : Used) (p : PortMapping)
      → check_requested bind id used rs p ≡ none
      → FreeFor id (owner_of (key_of p) rs)
  unfolding check_requested reserved_port_owner
  check_requested-FreeFor used p h =
      let proto = normalize_proto p.protocol in
      owner_failure-FreeFor p.host_port proto id (owner_of (key_of p) rs) _
        (use_failure-rest p.host_port proto (used_at p.host_port used) _ h)

  requested-FreeFor :
      (used : Used) (ps : List PortMapping)
      → check_all_requested bind id used rs ps ≡ none
      → All (λ p. FreeFor id (owner_of (key_of p) rs)) ps
  unfolding check_all_requested
  requested-FreeFor used [] h = tt
  requested-FreeFor used (p ∷ ps) h =
      let both = or_else-both (check_requested bind id used rs p) _ h in
      (check_requested-FreeFor used p both.0, requested-FreeFor used ps both.1)

  ensure_listed-FreeFor :
      (listed : Outcome (List Sandbox)) (ps : List PortMapping)
      → ensure_listed bind id rs listed ps ≡ none
      → All (λ p. FreeFor id (owner_of (key_of p) rs)) ps
  unfolding ensure_listed
  ensure_listed-FreeFor (failed e) ps h = cc
  ensure_listed-FreeFor (done all) ps h = requested-FreeFor (record_sandboxes id all []) ps h

  pub ensure-FreeFor :
      (listed : Outcome (List Sandbox)) (ps : List PortMapping)
      → ensure_host_ports_available bind id rs listed ps ≡ none
      → All (λ p. FreeFor id (owner_of (key_of p) rs)) ps
  unfolding ensure_host_ports_available
  ensure-FreeFor listed [] h = tt
  ensure-FreeFor listed (p ∷ ps) h = ensure_listed-FreeFor listed (p ∷ ps) h

taken :
    (id other : String) (b : Bool) (o : Option String)
    → str_eq id other ≡ false
    → FreeFor other (if b then some id else o)
    → b ≡ false
taken id other true o e h = cc (e, h)
taken id other false o e h = refl

-- While a sandbox holds its reservation, no other sandbox is let through with one of its ports: where
-- the check of another sandbox's ports succeeds, none of them has a host port and protocol that the
-- reserving sandbox has asked for, whatever the store lists and whatever can be bound.
pub reserve_requested_ports-excludes :
    (bind : ℤ → String → Failure) (id other : String) (ps qs : List PortMapping) (rs : Reservations)
    (listed : Outcome (List Sandbox))
    → str_eq id other ≡ false
    → ensure_host_ports_available bind other (reserve_requested_ports id ps rs) listed qs ≡ none
    → All (λ q. exists (asks_for (key_of q)) ps ≡ false) qs
reserve_requested_ports-excludes bind id other ps qs rs listed e h =
    All-map _ _ qs
      (λ q f.
        taken id other (exists (asks_for (key_of q)) ps) (owner_of (key_of q) rs) e
          (subst (FreeFor other) (owner_of-reserve (key_of q) id ps rs) f))
      (ensure-FreeFor bind other (reserve_requested_ports id ps rs) listed qs h)

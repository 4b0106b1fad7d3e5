-- ===== src/Orch/Cache/Throttle.antt =====
-- When the cache lets a node's resources be written to the store (cache/resource_cache.go).
use go_gvisor_containerd_let.Base.{
  ℕ, ℤ, String, Bool, true, false, ◌≡◌, refl, inl, inr, ◌&&◌, ◌||◌, not, none, some, ◌∷◌, [], arith,
  sub_ℕ, ltb_ℤ, leb_ℤ, ◌==◌, if◌then◌else◌, str_eq, eq_iff, Bool-cases,
}
use text.Mathlib.TextPositions.{eq_refl}
use go_gvisor_containerd_let.Orch.Types.{NodeResources}
use go_gvisor_containerd_let.Orch.Cache.{
  ResourceCache, ResourceCacheEntry, lookup, store, put_current, mark_persisted, delete,
  same_resources, should_persist, due, persist_entry,
}

lookup-store :
    (k : String) (e : ResourceCacheEntry) (c : ResourceCache) → lookup k (store k e c) ≡ some e
unfolding lookup store
lookup-store k e [] = rw (eq_refl k) refl
lookup-store k e ((j, x) ∷ c) = elim (Bool-cases (str_eq j k)) [
  | inl h ↦ rw h (rw (eq_refl k) refl)
  | inr h ↦ rw h (rw h (lookup-store k e c))
]

lookup-delete : (k : String) (c : ResourceCache) → lookup k (delete k c) ≡ none
unfolding lookup delete
lookup-delete k [] = refl
lookup-delete k ((j, x) ∷ c) = elim (Bool-cases (str_eq j k)) [
  | inl h ↦ rw h (lookup-delete k c)
  | inr h ↦ rw h (rw h (lookup-delete k c))
]

lookup-store_other :
    (i k : String) (e : ResourceCacheEntry) (c : ResourceCache)
    → str_eq k i ≡ false
    → lookup i (store k e c) ≡ lookup i c
unfolding lookup store
lookup-store_other i k e [] h = rw h refl
lookup-store_other i k e ((j, x) ∷ c) h =
    ground (arith, eq_iff j k, eq_iff j i, eq_iff k i, lookup-store_other i k e c h)

-- The rule, in terms of what was written when, and what is reported now.
abbrev pub may_write : NodeResources → NodeResources → ℕ → ℕ → ℤ → ℤ → Bool
may_write written reported at now min_int max_int =
    at == 0
    || leb_ℤ max_int (sub_ℕ now at)
    || (not (same_resources reported written) && leb_ℤ min_int (sub_ℕ now at))

due_rule :
    (same : Bool) (at : ℕ) (age min_int max_int : ℤ)
    → (if at == 0
        then true
        else if leb_ℤ max_int age
        then true
        else if same
        then false
        else if ltb_ℤ age min_int
        then false
        else true)
      ≡ (at == 0 || leb_ℤ max_int age || (not same && leb_ℤ min_int age))
due_rule same at age min_int max_int = ground arith

-- After resources were written at some time and others were reported since, they may be written again
-- exactly if the longest interval has passed, or they differ and the shortest interval has passed; the time 0 counts
-- as never written.
pub should_persist-mark_persisted :
    (name : String) (written reported : NodeResources) (at now : ℕ) (min_int max_int : ℤ)
    (c : ResourceCache)
    → should_persist name now min_int max_int
        (put_current name reported (mark_persisted name written at c))
      ≡ may_write written reported at now min_int max_int
unfolding should_persist put_current mark_persisted due persist_entry
should_persist-mark_persisted name written reported at now min_int max_int c =
    rw
      (lookup-store name
        (record { current = written; last_persisted = written; last_persisted_at = at }) c)
      (rw
        (lookup-store name
          (record { current = reported; last_persisted = written; last_persisted_at = at }) _)
        (due_rule _ at (sub_ℕ now at) min_int max_int))

-- A node that the cache has forgotten is written at once.
pub should_persist-delete :
    (name : String) (now : ℕ) (min_int max_int : ℤ) (c : ResourceCache)
    → should_persist name now min_int max_int (delete name c) ≡ true
unfolding should_persist persist_entry
should_persist-delete name now min_int max_int c = rw (lookup-delete name c) refl

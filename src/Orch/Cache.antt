-- ===== src/Orch/Cache.antt =====
-- sandboxd-orch/cache/resource_cache.go: the last resources that each node reported, and when they
-- were last written to the store. The map is an association list with one entry for a name; each
-- method runs under the cache's mutex, so it is one step.
pub mod Throttle
use go_gvisor_containerd_let.Base.{
  ℕ, ℤ, String, Bool, true, false, ◌&&◌, not, Option, none, some, List, [], ◌∷◌, str_eq, ◌==◌,
  sub_ℕ, leb_ℤ, ltb_ℤ, eqb_ℤ, if◌then◌else◌,
}
use go_gvisor_containerd_let.Orch.Types.{NodeResources, no_resources}

pub record ResourceCacheEntry : Type 0 where
  pub current : NodeResources
  pub last_persisted : NodeResources
  pub last_persisted_at : ℕ

abbrev pub ResourceCache : Type 0
ResourceCache = List (String × ResourceCacheEntry)

-- What `c.items[name]` gives for a missing name.
abbrev pub no_entry : ResourceCacheEntry
no_entry = record { current = no_resources; last_persisted = no_resources; last_persisted_at = 0 }

unfoldable pub lookup : String → ResourceCache → Option ResourceCacheEntry
lookup k [] = none
lookup k ((j, e) ∷ c) = if str_eq j k then some e else lookup k c

unfoldable pub store : String → ResourceCacheEntry → ResourceCache → ResourceCache
store k e [] = (k, e) ∷ []
store k e ((j, x) ∷ c) = if str_eq j k then (k, e) ∷ c else (j, x) ∷ store k e c

abbrev pub or_no_entry : Option ResourceCacheEntry → ResourceCacheEntry
or_no_entry none = no_entry
or_no_entry (some e) = e

unfoldable pub put_current : String → NodeResources → ResourceCache → ResourceCache
put_current name res c =
    let e = or_no_entry (lookup name c) in store name (record e { current = res }) c

unfoldable pub mark_persisted : String → NodeResources → ℕ → ResourceCache → ResourceCache
mark_persisted name res at c =
    store name (record { current = res; last_persisted = res; last_persisted_at = at }) c

unfoldable pub delete : String → ResourceCache → ResourceCache
delete k [] = []
delete k ((j, e) ∷ c) = let rest = delete k c in if str_eq j k then rest else (j, e) ∷ rest

unfoldable pub same_resources : NodeResources → NodeResources → Bool
same_resources a b =
    eqb_ℤ a.capacity_cpu_milli b.capacity_cpu_milli
    && eqb_ℤ a.capacity_memory_bytes b.capacity_memory_bytes
    && eqb_ℤ a.allocatable_cpu_milli b.allocatable_cpu_milli
    && eqb_ℤ a.allocatable_memory b.allocatable_memory
    && eqb_ℤ a.used_cpu_milli b.used_cpu_milli
    && eqb_ℤ a.used_memory_bytes b.used_memory_bytes
    && eqb_ℤ a.available_cpu_milli b.available_cpu_milli
    && eqb_ℤ a.available_memory b.available_memory
    && eqb_ℤ a.max_alloc_percent b.max_alloc_percent

-- `now.Sub(e.LastPersistedAt)` is signed; the clock may have gone back.
due : ResourceCacheEntry → ℕ → ℤ → ℤ → Bool
due e now min_int max_int =
    let age = sub_ℕ now e.last_persisted_at in
    if leb_ℤ max_int age
    then true
    else if same_resources e.current e.last_persisted
    then false
    else if ltb_ℤ age min_int
    then false
    else true

persist_entry : Option ResourceCacheEntry → ℕ → ℤ → ℤ → Bool
persist_entry none now min_int max_int = true
persist_entry (some e) now min_int max_int =
    if e.last_persisted_at == 0 then true else due e now min_int max_int

unfoldable pub should_persist : String → ℕ → ℤ → ℤ → ResourceCache → Bool
unfolding due persist_entry
should_persist name now min_int max_int c = persist_entry (lookup name c) now min_int max_int

-- ===== src/Let/Lifecycle/Admitted.antt =====
-- A creation keeps a node within what it can allocate.
use go_gvisor_containerd_let.Base.{
  ℤ, ◌+ℤ◌, int64, int64_exact, InInt64, int_laws, ◌≤ℤ◌, ◌≡◌, refl, ap, subst, ◌∙◌, sym, String,
  Bool, true, false, ◌||◌, none, List, [], ◌∷◌, arith, str_eq, eq_iff, Bool-cases, inl, inr,
}
use go_gvisor_containerd_let.Orch.Tables.{exists, find, select, insert}
use go_gvisor_containerd_let.Orch.Tables.Rows.{select-insert, Unique, All, All-every}
use go_gvisor_containerd_let.Let.Types.{
  done, ContainerState, CreateContainerRequest, CreateSandboxRequest, Sandbox,
}
use go_gvisor_containerd_let.Let.Validate.Accepted.{same_name, validate-IsValid}
use go_gvisor_containerd_let.Let.Admission.{
  Host, ParsedResource, host_total_memory_bytes, host_cpu, allocatable, enforce_admission,
}
use go_gvisor_containerd_let.Let.Admission.Totals.{
  cpu_of, memory_of, containers_total, requests_total, total, total-insert, spec_amount,
}
use go_gvisor_containerd_let.Let.Admission.Bounds.{enforce_admission-bounds}
use go_gvisor_containerd_let.Let.Health.{named, save}
use go_gvisor_containerd_let.Let.Sandboxes.{
  Config, Env, Service, load, list, is_ok, set_container, new_container, new_containers,
  new_sandbox_state,
}
use go_gvisor_containerd_let.Let.Lifecycle.{create_sandbox}
use go_gvisor_containerd_let.Let.Lifecycle.Created.{IsCreated, create_sandbox-IsCreated}

abbrev has_name : String → ContainerState → Bool
has_name name d = str_eq d.name name

exists-set_container :
    (name : String) (c : ContainerState) (ds : List ContainerState)
    → exists (has_name name) (set_container c ds)
      ≡ (str_eq c.name name || exists (has_name name) ds)
unfolding exists set_container
exists-set_container name c [] = ground arith
exists-set_container name c (d ∷ ds) = ground (
  arith,
  exists-set_container name c ds,
  eq_iff d.name c.name,
  eq_iff d.name name,
  eq_iff c.name name,
)

module _ (host : Host) (amount : ParsedResource → ℤ) (cfg : Config) (id : String) where
  containers_total-set :
      (c : ContainerState) (ds : List ContainerState)
      → exists (has_name c.name) ds ≡ false
      → containers_total host amount (set_container c ds)
        ≡ containers_total host amount ds +ℤ spec_amount host amount c.resource
  unfolding exists set_container
  containers_total-set c [] h = omega int_laws
  containers_total-set c (d ∷ ds) h = elim (Bool-cases (str_eq d.name c.name)) [
    | inl e ↦ absurd (cc (rw e at h))
    | inr e ↦ let ih = containers_total-set c ds (rw e at h) in rw (e, ih) (omega int_laws)
  ]

  -- The names that are still to come are not there yet.
  abbrev Fresh : List CreateContainerRequest → List ContainerState → Type 0
  Fresh cs out = All (λ (c : CreateContainerRequest). exists (has_name c.name) out ≡ false) cs

  Fresh-set :
      (c : CreateContainerRequest) (cs : List CreateContainerRequest) (out : List ContainerState)
      → exists (same_name c) cs ≡ false
      → Fresh cs out
      → Fresh cs (set_container (new_container cfg id c) out)
  unfolding exists new_container
  Fresh-set c [] out h f = tt
  Fresh-set c (d ∷ cs) out h f = (
    exists-set_container d.name (new_container cfg id c) out ∙ ground arith,
    Fresh-set c cs out (ground arith) f.1,
  )

  -- The containers of the new state ask for what the request asks for.
  new_containers_total :
      (cs : List CreateContainerRequest) (out : List ContainerState)
      → Unique same_name cs
      → Fresh cs out
      → containers_total host amount (new_containers cfg id cs out)
        ≡ containers_total host amount out +ℤ requests_total host amount cs
  unfolding new_containers new_container
  new_containers_total [] out u f = omega int_laws
  new_containers_total (c ∷ cs) out u f =
      let next = new_container cfg id c in
      new_containers_total cs (set_container next out) u.1 (Fresh-set c cs out u.0 f.1)
      ∙ rw (containers_total-set next out f.0) (omega int_laws)

find-none : {A : Type 0} (p : A → Bool) (xs : List A) → find p xs ≡ none → exists p xs ≡ false
unfolding find exists
find-none p [] h = refl
find-none p (x ∷ xs) h = elim (Bool-cases (p x)) [
  | inl e ↦ absurd (cc (rw e at h))
  | inr e ↦ rw e (find-none p xs (rw e at h))
]

exists-select :
    {A : Type 0} (p q : A → Bool) (xs : List A)
    → exists p xs ≡ false
    → exists p (select q xs) ≡ false
unfolding exists select
exists-select p q [] h = refl
exists-select p q (x ∷ xs) h = ground (arith, exists-select p q xs)

load-missing :
    (env : Env) (id : String) (store : List Sandbox)
    → load env id store ≡ done none
    → (is_ok (env.load_failure id) ≡ true) × (exists (named id) store ≡ false)
unfolding load
load-missing env id store h = ground (arith, find-none (named id) store)

abbrev loads : Env → Sandbox → Bool
loads env s = is_ok (env.load_failure s.id)

list-done :
    (env : Env) (store all before : List Sandbox)
    → list env store ≡ done all
    → (select (loads env) store ≡ all) × (list env before ≡ done (select (loads env) before))
unfolding list
list-done env store all before h = ground arith

-- What the sandboxes ask for after a creation: what was there, and the request.
created_total :
    (amount : ParsedResource → ℤ) (env : Env) (req : CreateSandboxRequest) (s t : Service)
    (sbx : Sandbox) (all : List Sandbox)
    → IsCreated env req s t sbx
    → list env t.store ≡ done all
    → total env.host amount all
      ≡ total env.host amount (select (loads env) s.store)
        +ℤ requests_total env.host amount req.containers
unfolding save new_sandbox_state exists
created_total amount env req s t sbx all made listed =
    let x = new_sandbox_state env.cfg env.now req in
    let (readable, absent) = load-missing env req.id s.store made.fresh in
    let stored : t.store ≡ insert x s.store = made.saved ∙ rw absent refl in
    let (same, _) = list-done env t.store all [] listed in
    let added : all ≡ insert x (select (loads env) s.store) =
      sym same
      ∙ ap (select (loads env)) stored
      ∙ select-insert (loads env) x s.store
      ∙ rw readable refl in
    let unique = ((validate-IsValid req).0 made.valid).names_unique in
    let asked =
      new_containers_total env.host amount env.cfg req.id req.containers [] unique
        (All-every _ req.containers (λ c. refl)) in
    ap (total env.host amount) added
    ∙ total-insert env.host amount x (select (loads env) s.store) refl
    ∙ rw asked (omega int_laws)

-- Where the directory can be read after an asynchronous creation, what the sandboxes in it that are
-- neither being deleted nor in error ask for in all, the new one among them, is within the share of
-- the host's CPU and memory that may be allocated, as long as the totals fit into 64 bits.
pub create_sandbox-IsWithin :
    (env : Env) (req : CreateSandboxRequest) (s t : Service) (sbx : Sandbox) (all : List Sandbox)
    (memory : ℤ)
    → create_sandbox env true req s ≡ (done sbx, t)
    → list env t.store ≡ done all
    → host_total_memory_bytes env.host ≡ done memory
    → InInt64 (total env.host cpu_of all)
    → InInt64 (total env.host memory_of all)
    → (total env.host cpu_of all ≤ℤ allocatable env.host (host_cpu env.host))
      × (total env.host memory_of all ≤ℤ allocatable env.host memory)
create_sandbox-IsWithin env req s t sbx all memory h listed known c m =
    let made = create_sandbox-IsCreated env req s t sbx h in
    let before = select (loads env) s.store in
    let (readable, absent) = load-missing env req.id s.store made.fresh in
    let (same, answer) = list-done env t.store all s.store listed in
    let bounds =
      enforce_admission-bounds env.host before req memory
        (exists-select (named req.id) (loads env) s.store absent)
        (subst (λ l. enforce_admission env.host l req ≡ none) answer made.admitted) known in
    let cpu =
      ap int64 (sym (created_total cpu_of env req s t sbx all made listed)) ∙ int64_exact _ c in
    let mem =
      ap int64 (sym (created_total memory_of env req s t sbx all made listed)) ∙ int64_exact _ m in
    (
      subst (λ n. n ≤ℤ allocatable env.host (host_cpu env.host)) cpu bounds.0,
      subst (λ n. n ≤ℤ allocatable env.host memory) mem bounds.1,
    )

-- ===== src/Let/Admission/Totals.antt =====
-- What the sandboxes of a node ask for in all, as integers without a width, and the sums of
-- resources.go, which wrap at each step.
use go_gvisor_containerd_let.Base.{
  ℤ, pos, ◌+ℤ◌, int64, int64-+ℤ, int_laws, ◌≡◌, refl, ap, subst, ◌∙◌, sym, String, Bool, true,
  false, ◌||◌, not, List, [], ◌∷◌, arith, str_eq, if◌then◌else◌,
}
use go_gvisor_containerd_let.Orch.Tables.{exists, insert}
use go_gvisor_containerd_let.Let.Types.{
  Outcome, done, failed, ◌>>=◌, ResourceSpec, ContainerState, CreateContainerRequest, Sandbox,
}
use go_gvisor_containerd_let.Let.Admission.{
  Host, ParsedResource, parse_container_resource, Amounts, add_amounts, sum_requested, add_parsed,
  add_containers, is_skipped, add_sandboxes, with_context,
}

abbrev pub is_active : Sandbox → Bool
is_active s = not (str_eq s.phase "deleting" || str_eq s.phase "error")

+ℤ_assoc : (a b c : ℤ) → (a +ℤ b) +ℤ c ≡ a +ℤ (b +ℤ c)
+ℤ_assoc a b c = omega int_laws

+ℤ_zero : (a : ℤ) → a +ℤ pos 0 ≡ a
+ℤ_zero a = omega int_laws

-- A quantity that does not parse counts as nothing.
abbrev pub parsed_amount : (ParsedResource → ℤ) → Outcome ParsedResource → ℤ
parsed_amount amount (failed e) = pos 0
parsed_amount amount (done r) = amount r

abbrev pub cpu_of : ParsedResource → ℤ
cpu_of r = r.cpu_milli

abbrev pub memory_of : ParsedResource → ℤ
memory_of r = r.memory_bytes

module _ (host : Host) where
  module _ (amount : ParsedResource → ℤ) where
    abbrev pub spec_amount : ResourceSpec → ℤ
    spec_amount spec = parsed_amount amount (parse_container_resource host spec)

    abbrev pub containers_total : List ContainerState → ℤ
    containers_total [] = pos 0
    containers_total (c ∷ cs) = spec_amount c.resource +ℤ containers_total cs

    abbrev pub requests_total : List CreateContainerRequest → ℤ
    requests_total [] = pos 0
    requests_total (c ∷ cs) = spec_amount c.resource +ℤ requests_total cs

    -- What the sandboxes that are neither being deleted nor in error ask for.
    abbrev pub total : List Sandbox → ℤ
    total [] = pos 0
    total (s ∷ all) = (if is_active s then containers_total s.containers else pos 0) +ℤ total all

    pub total-insert :
        (s : Sandbox) (all : List Sandbox)
        → is_active s ≡ true
        → total (insert s all) ≡ total all +ℤ containers_total s.containers
    unfolding insert
    total-insert s [] e = rw e (omega int_laws)
    total-insert s (t ∷ all) e =
        let own : ℤ = if is_active t then containers_total t.containers else pos 0 in
        ap (λ n. own +ℤ n) (total-insert s all e)
        ∙ sym (+ℤ_assoc own (total all) (containers_total s.containers))

  -- The pair of totals, wrapped once.
  abbrev wrapped : ℤ → ℤ → Amounts
  wrapped cpu memory = (int64 cpu, int64 memory)

  add_parsed-wrapped :
      (r : Outcome ParsedResource) (x y : ℤ)
      → add_parsed r (wrapped x y)
        ≡ wrapped (x +ℤ parsed_amount cpu_of r) (y +ℤ parsed_amount memory_of r)
  unfolding add_parsed add_amounts
  add_parsed-wrapped (failed e) x y = rw (+ℤ_zero x, +ℤ_zero y)
  add_parsed-wrapped (done r) x y = rw (int64-+ℤ x r.cpu_milli, int64-+ℤ y r.memory_bytes)

  add_containers-wrapped :
      (cs : List ContainerState) (x y : ℤ)
      → add_containers host cs (wrapped x y)
        ≡ wrapped (x +ℤ containers_total cpu_of cs) (y +ℤ containers_total memory_of cs)
  unfolding add_containers
  add_containers-wrapped [] x y = rw (+ℤ_zero x, +ℤ_zero y)
  add_containers-wrapped (c ∷ cs) x y =
      let r = parse_container_resource host c.resource in
      ap (add_containers host cs) (add_parsed-wrapped r x y)
      ∙ add_containers-wrapped cs (x +ℤ parsed_amount cpu_of r) (y +ℤ parsed_amount memory_of r)
      ∙ rw
          (
            +ℤ_assoc x (parsed_amount cpu_of r) (containers_total cpu_of cs),
            +ℤ_assoc y (parsed_amount memory_of r) (containers_total memory_of cs),
          )
          refl

  counted-wrapped :
      (b : Bool) (cs : List ContainerState) (x y : ℤ)
      → (if not b then wrapped x y else add_containers host cs (wrapped x y))
        ≡ wrapped
            (x +ℤ (if b then containers_total cpu_of cs else pos 0))
            (y +ℤ (if b then containers_total memory_of cs else pos 0))
  counted-wrapped true cs x y = add_containers-wrapped cs x y
  counted-wrapped false cs x y = rw (+ℤ_zero x, +ℤ_zero y)

  -- Where no sandbox has the id that is left out, the account is that of the active ones.
  pub add_sandboxes-wrapped :
      (except : String) (all : List Sandbox) (x y : ℤ)
      → exists (λ s. str_eq s.id except) all ≡ false
      → add_sandboxes host except all (wrapped x y)
        ≡ wrapped (x +ℤ total cpu_of all) (y +ℤ total memory_of all)
  unfolding add_sandboxes is_skipped exists
  add_sandboxes-wrapped except [] x y h = rw (+ℤ_zero x, +ℤ_zero y)
  add_sandboxes-wrapped except (s ∷ all) x y h =
      let skipped : is_skipped except s ≡ not (is_active s) = ground arith in
      let cpu : ℤ = if is_active s then containers_total cpu_of s.containers else pos 0 in
      let memory : ℤ = if is_active s then containers_total memory_of s.containers else pos 0 in
      rw skipped
        (ap (add_sandboxes host except all) (counted-wrapped (is_active s) s.containers x y))
      ∙ add_sandboxes-wrapped except all (x +ℤ cpu) (y +ℤ memory) (ground arith)
      ∙ rw (+ℤ_assoc x cpu (total cpu_of all), +ℤ_assoc y memory (total memory_of all)) refl

  summed-step :
      (name : String) (r : Outcome ParsedResource) (k : ParsedResource → Outcome Amounts)
      (sum : Amounts)
      → (with_context name r >>= k) ≡ done sum
      → (p : ParsedResource) × (r ≡ done p) × (k p ≡ done sum)
  unfolding with_context
  summed-step name (failed e) k sum h = cc
  summed-step name (done p) k sum h = (p, refl, h)

  -- Where the requests are summed up, each of them parses.
  pub sum_requested-wrapped :
      (cs : List CreateContainerRequest) (x y : ℤ) (sum : Amounts)
      → sum_requested host cs (wrapped x y) ≡ done sum
      → sum ≡ wrapped (x +ℤ requests_total cpu_of cs) (y +ℤ requests_total memory_of cs)
  unfolding sum_requested add_parsed
  sum_requested-wrapped [] x y sum h = rw (+ℤ_zero x, +ℤ_zero y) (cc)
  sum_requested-wrapped (c ∷ cs) x y sum h =
      let (p, parsed, rest) =
        summed-step c.name (parse_container_resource host c.resource) _ sum h in
      let moved =
        subst (λ acc. sum_requested host cs acc ≡ done sum) (add_parsed-wrapped (done p) x y)
          rest in
      sum_requested-wrapped cs (x +ℤ p.cpu_milli) (y +ℤ p.memory_bytes) sum moved
      ∙ rw
          (
            parsed,
            +ℤ_assoc x p.cpu_milli (requests_total cpu_of cs),
            +ℤ_assoc y p.memory_bytes (requests_total memory_of cs),
          )
          refl

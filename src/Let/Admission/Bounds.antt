-- ===== src/Let/Admission/Bounds.antt =====
-- What enforceAdmission has compared, where it lets a request through.
use go_gvisor_containerd_let.Base.{
  ℤ, pos, ◌+ℤ◌, int64, int64-+ℤ, int_laws, ◌≤ℤ◌, ltb_ℤ, ◌≡◌, refl, ap, subst, ◌∙◌, sym, String,
  Bool, str_eq, true, false, none, List, arith,
}
use go_gvisor_containerd_let.Orch.Tables.{exists}
use go_gvisor_containerd_let.Let.Types.{
  Failure, Outcome, done, failed, or_fail, fail_if, CreateSandboxRequest, Sandbox,
}
use go_gvisor_containerd_let.Let.Admission.{
  Host, Amounts, sum_requested, add_sandboxes, current_allocated_resources, within_limits,
  enforce_admission, host_total_memory_bytes, host_cpu, allocatable,
}
use go_gvisor_containerd_let.Let.Admission.Totals.{
  cpu_of, memory_of, requests_total, total, add_sandboxes-wrapped, sum_requested-wrapped,
}

pub or_fail-none :
    {A : Type 0} (m : Outcome A) (k : A → Failure)
    → or_fail m k ≡ none
    → (a : A) × (m ≡ done a) × (k a ≡ none)
or_fail-none (done a) k h = (a, refl, h)
or_fail-none (failed e) k h = cc

fail_if-none :
    (b : Bool) (msg : String) (rest : Failure)
    → fail_if b msg rest ≡ none
    → (b ≡ false) × (rest ≡ none)
fail_if-none true msg rest h = cc
fail_if-none false msg rest h = (refl, h)

int64-+ℤ-int64 : (a b : ℤ) → int64 (int64 a +ℤ int64 b) ≡ int64 (a +ℤ b)
int64-+ℤ-int64 a b =
    let comm : (x y : ℤ) → x +ℤ y ≡ y +ℤ x = λ x y. omega int_laws in
    int64-+ℤ a (int64 b) ∙ ap int64 (comm a (int64 b)) ∙ int64-+ℤ b a ∙ ap int64 (comm b a)

zero_wrapped : int64 (pos 0) ≡ pos 0
unfolding int64
zero_wrapped = refl

+ℤ_zero_left : (a : ℤ) → pos 0 +ℤ a ≡ a
+ℤ_zero_left a = omega int_laws

le_of_test : (a b : ℤ) → ltb_ℤ b a ≡ false → a ≤ℤ b
le_of_test a b h = ground arith

within_limits-none :
    (host : Host) (requested used : Amounts) (memory : ℤ)
    → within_limits host requested used memory ≡ none
    → (int64 (used.0 +ℤ requested.0) ≤ℤ allocatable host (host_cpu host))
      × (int64 (used.1 +ℤ requested.1) ≤ℤ allocatable host memory)
unfolding within_limits
within_limits-none host requested used memory h =
    let cpu = fail_if-none (ltb_ℤ (allocatable host (host_cpu host)) _) _ _ h in
    let mem = fail_if-none (ltb_ℤ (allocatable host memory) _) _ _ cpu.1 in
    (
      le_of_test (int64 (used.0 +ℤ requested.0)) (allocatable host (host_cpu host)) cpu.0,
      le_of_test (int64 (used.1 +ℤ requested.1)) (allocatable host memory) mem.0,
    )

module _ (host : Host) (all : List Sandbox) (req : CreateSandboxRequest) where
  used-wrapped :
      exists (λ s. str_eq s.id req.id) all ≡ false
      → add_sandboxes host req.id all (pos 0, pos 0)
        ≡ (int64 (total host cpu_of all), int64 (total host memory_of all))
  used-wrapped fresh =
      ap (λ (z : ℤ). add_sandboxes host req.id all (z, z)) (sym zero_wrapped)
      ∙ add_sandboxes-wrapped host req.id all (pos 0) (pos 0) fresh
      ∙ rw (+ℤ_zero_left (total host cpu_of all), +ℤ_zero_left (total host memory_of all)) refl

  requested-wrapped :
      (sum : Amounts)
      → sum_requested host req.containers (pos 0, pos 0) ≡ done sum
      → sum ≡ (
        int64 (requests_total host cpu_of req.containers),
        int64 (requests_total host memory_of req.containers),
      )
  requested-wrapped sum h =
      sum_requested-wrapped host req.containers (pos 0) (pos 0) sum
        (ap (λ (z : ℤ). sum_requested host req.containers (z, z)) zero_wrapped ∙ h)
      ∙ rw
          (
            +ℤ_zero_left (requests_total host cpu_of req.containers),
            +ℤ_zero_left (requests_total host memory_of req.containers),
          )
          refl

  -- Where no sandbox has the id of the request, and the request is let through, what is used and what
  -- is asked for stay within what the node can allocate, as int64.
  pub enforce_admission-bounds :
      (memory : ℤ)
      → exists (λ s. str_eq s.id req.id) all ≡ false
      → enforce_admission host (done all) req ≡ none
      → host_total_memory_bytes host ≡ done memory
      → (int64 (total host cpu_of all +ℤ requests_total host cpu_of req.containers)
          ≤ℤ allocatable host (host_cpu host))
        × (int64 (total host memory_of all +ℤ requests_total host memory_of req.containers)
            ≤ℤ allocatable host memory)
  unfolding enforce_admission current_allocated_resources
  enforce_admission-bounds memory fresh h known =
      let (sum, summed, h1) = or_fail-none (sum_requested host req.containers (pos 0, pos 0)) _ h in
      let (found, answered, h2) = or_fail-none (host_total_memory_bytes host) _ h1 in
      let same : found ≡ memory = cc in
      let requested = requested-wrapped sum summed in
      let both = within_limits-none host _ _ memory (
        subst
          (λ u. within_limits host u (add_sandboxes host req.id all (pos 0, pos 0)) memory ≡ none)
          requested
          (subst
            (λ m. within_limits host sum (add_sandboxes host req.id all (pos 0, pos 0)) m ≡ none)
            same h2)) in
      let bounds =
        subst
          (λ (u : Amounts).
            (int64 (u.0 +ℤ int64 (requests_total host cpu_of req.containers))
              ≤ℤ allocatable host (host_cpu host))
            × (int64 (u.1 +ℤ int64 (requests_total host memory_of req.containers))
                ≤ℤ allocatable host memory))
          (used-wrapped fresh) both in
      rw
        (
          sym (int64-+ℤ-int64 (total host cpu_of all) (requests_total host cpu_of req.containers)),
          sym (
              int64-+ℤ-int64 (total host memory_of all)
                (requests_total host memory_of req.containers)),
        )
        bounds

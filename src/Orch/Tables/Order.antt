-- ===== src/Orch/Tables/Order.antt =====
-- ORDER BY and sort.Slice: the first row has the greatest key, and no row is lost.
use mathlib.Core.List.{Perm}
use mathlib.Core.List.Perm
use go_gvisor_containerd_let.Base.{
  ◌≡◌, refl, Bool, true, false, inl, inr, List, [], ◌∷◌, Bool-cases, ℤ, ◌≤ℤ◌, arith, ap, ◌∙◌, ◌||◌,
}
use go_gvisor_containerd_let.Orch.Tables.{exists, insert_sorted, sort_by}
use go_gvisor_containerd_let.Orch.Tables.Rows.{All, All-map, Unique, exists-All}

module _ {A : Type 0} (before : A → A → Bool) where
  All-insert_sorted :
      (P : A → Type 0) (a : A) (xs : List A) → P a → All P xs → All P (insert_sorted before a xs)
  unfolding insert_sorted
  All-insert_sorted P a [] p h = (p, tt)
  All-insert_sorted P a (x ∷ xs) p h = elim (Bool-cases (before a x)) [
    | inl e ↦ rw e (p, h)
    | inr e ↦ rw e (h.0, All-insert_sorted P a xs p h.1)
  ]

  pub All-sort_by : (P : A → Type 0) (xs : List A) → All P xs → All P (sort_by before xs)
  unfolding sort_by
  All-sort_by P [] h = tt
  All-sort_by P (x ∷ xs) h = All-insert_sorted P x (sort_by before xs) h.0 (All-sort_by P xs h.1)

  exists-insert_sorted :
      (p : A → Bool) (a : A) (xs : List A)
      → exists p (insert_sorted before a xs) ≡ p a || exists p xs
  unfolding exists insert_sorted
  exists-insert_sorted p a [] = refl
  exists-insert_sorted p a (x ∷ xs) = ground (arith, exists-insert_sorted p a xs)

  pub exists-sort_by : (p : A → Bool) (xs : List A) → exists p (sort_by before xs) ≡ exists p xs
  unfolding exists sort_by
  exists-sort_by p [] = refl
  exists-sort_by p (x ∷ xs) =
      exists-insert_sorted p x (sort_by before xs) ∙ ap (λ b. p x || b) (exists-sort_by p xs)

  module _ (key : A → ℤ) (up : (a x : A) → before a x ≡ true → key x ≤ℤ key a)
      (down : (a x : A) → before a x ≡ false → key a ≤ℤ key x) where
    -- The first of `ys` has the greatest key of `xs`.
    abbrev pub IsTop : List A → List A → Type 0
    IsTop [] xs = xs ≡ []
    IsTop (c ∷ ys) xs = All (λ x. key x ≤ℤ key c) xs

    IsTop-insert_sorted :
        (a : A) (ys xs : List A) → IsTop ys xs → IsTop (insert_sorted before a ys) (a ∷ xs)
    unfolding insert_sorted
    IsTop-insert_sorted a [] xs h = rw h (omega arith, tt)
    IsTop-insert_sorted a (c ∷ ys) xs h = elim (Bool-cases (before a c)) [
      | inl e ↦ rw e (
        omega arith,
        All-map (λ x. key x ≤ℤ key c) _ xs (λ x g. let u = up a c e in omega arith) h,
      )
      | inr e ↦ rw e (down a c e, h)
    ]

    pub sort_by-IsTop : (xs : List A) → IsTop (sort_by before xs) xs
    unfolding sort_by
    sort_by-IsTop [] = refl
    sort_by-IsTop (x ∷ xs) = IsTop-insert_sorted x (sort_by before xs) xs (sort_by-IsTop xs)

-- Each row comes before all that follow it.
abbrev pub Ascending : {A : Type 0} → (A → A → Bool) → List A → Type 0
Ascending before [] = Unit {0}
Ascending before (x ∷ xs) = All (λ y. before x y ≡ true) xs × Ascending before xs

module _ {A : Type 0} (before clause : A → A → Bool)
    (trans : (a x y : A) → before a x ≡ true → before x y ≡ true → before a y ≡ true)
    (total : (a x : A) → clause a x ≡ false → before a x ≡ false → before x a ≡ true) where
  Ascending-insert_sorted :
      (a : A) (xs : List A)
      → All (λ x. clause a x ≡ false) xs
      → Ascending before xs
      → Ascending before (insert_sorted before a xs)
  unfolding insert_sorted
  Ascending-insert_sorted a [] d h = (tt, tt)
  Ascending-insert_sorted a (x ∷ xs) d h = elim (Bool-cases (before a x)) [
    | inl e ↦
        rw e ((e, All-map (λ y. before x y ≡ true) _ xs (λ y g. trans a x y e g) h.0), (h.0, h.1))
    | inr e ↦ rw e (
      All-insert_sorted before (λ y. before x y ≡ true) a xs (total a x d.0 e) h.0,
      Ascending-insert_sorted a xs d.1 h.1,
    )
  ]

  -- With unique keys, ORDER BY the key is strict.
  pub Ascending-sort_by : (xs : List A) → Unique clause xs → Ascending before (sort_by before xs)
  unfolding sort_by
  Ascending-sort_by [] u = tt
  Ascending-sort_by (x ∷ xs) u =
      Ascending-insert_sorted x (sort_by before xs)
        (All-sort_by before (λ y. clause x y ≡ false) xs (exists-All (clause x) xs u.0))
        (Ascending-sort_by xs u.1)

module _ {A : Type 0} (before : A → A → Bool) where
  Perm-insert_sorted : (x : A) (xs : List A) → Perm (insert_sorted before x xs) (x ∷ xs)
  unfolding insert_sorted
  Perm-insert_sorted x [] = Perm.refl (x ∷ [])
  Perm-insert_sorted x (y ∷ xs) = elim (Bool-cases (before x y)) [
    | inl e ↦ rw e (Perm.refl (x ∷ y ∷ xs))
    | inr e ↦ rw e (Perm.trans (Perm.cons y (Perm-insert_sorted x xs)) (Perm.swap x y xs))
  ]

  pub Perm-sort_by : (xs : List A) → Perm (sort_by before xs) xs
  unfolding sort_by
  Perm-sort_by [] = Perm.refl []
  Perm-sort_by (x ∷ xs) =
      Perm.trans (Perm-insert_sorted x (sort_by before xs)) (Perm.cons x (Perm-sort_by xs))

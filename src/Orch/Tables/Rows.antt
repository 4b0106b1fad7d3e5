-- ===== src/Orch/Tables/Rows.antt =====
-- Lists of rows under the SQL verbs: uniqueness of keys and references between tables.
use go_gvisor_containerd_let.Base.{
  ◌≡◌, refl, ap, ◌∙◌, inl, inr, Bool, true, false, ◌||◌, none, List, [], ◌∷◌, arith, Bool-cases,
  if◌then◌else◌,
}
use go_gvisor_containerd_let.Orch.Tables.{find, exists, select, delete, update, insert}

-- `clause x` selects the rows with the key of `x`; no later row has it.
abbrev pub Unique : {A : Type 0} → (A → A → Bool) → List A → Type 0
Unique clause [] = Unit {0}
Unique clause (x ∷ xs) = (exists (clause x) xs ≡ false) × Unique clause xs

abbrev pub All : {A : Type 0} → (A → Type 0) → List A → Type 0
All P [] = Unit {0}
All P (x ∷ xs) = P x × All P xs

module _ {A : Type 0} where
  pub exists-insert :
      (p : A → Bool) (a : A) (xs : List A) → exists p (insert a xs) ≡ exists p xs || p a
  unfolding exists insert
  exists-insert p a [] = ground arith
  exists-insert p a (x ∷ xs) = ground (arith, exists-insert p a xs)

  pub select-insert :
      (p : A → Bool) (a : A) (xs : List A)
      → select p (insert a xs) ≡ (if p a then insert a (select p xs) else select p xs)
  unfolding select insert
  select-insert p a [] = refl
  select-insert p a (x ∷ xs) = ground (arith, select-insert p a xs)

  pub exists-delete-false :
      (p q : A → Bool) (xs : List A) → exists p xs ≡ false → exists p (delete q xs) ≡ false
  unfolding exists delete
  exists-delete-false p q [] h = refl
  exists-delete-false p q (x ∷ xs) h = ground (arith, exists-delete-false p q xs)

  -- Rows that the deletion does not select stay.
  pub exists-delete :
      (p q : A → Bool) (xs : List A)
      → ((x : A) → p x ≡ true → q x ≡ false)
      → exists p (delete q xs) ≡ exists p xs
  unfolding exists delete
  exists-delete p q [] h = refl
  exists-delete p q (x ∷ xs) h = ground (arith, exists-delete p q xs h, h x)

  pub exists-update :
      (p q : A → Bool) (f : A → A) (xs : List A)
      → ((x : A) → p (f x) ≡ p x)
      → exists p (update q f xs) ≡ exists p xs
  unfolding exists update
  exists-update p q f [] h = refl
  exists-update p q f (x ∷ xs) h = ground (arith, exists-update p q f xs h, h x)

  pub exists-ext :
      (p q : A → Bool) (xs : List A) → ((x : A) → p x ≡ q x) → exists p xs ≡ exists q xs
  unfolding exists
  exists-ext p q [] h = refl
  exists-ext p q (x ∷ xs) h = ground (arith, exists-ext p q xs h, h x)

  pub exists-delete_self : (p : A → Bool) (xs : List A) → exists p (delete p xs) ≡ false
  unfolding exists delete
  exists-delete_self p [] = refl
  exists-delete_self p (x ∷ xs) = ground (arith, exists-delete_self p xs)

  pub find-exists : (p : A → Bool) (xs : List A) → exists p xs ≡ false → find p xs ≡ none
  unfolding find exists
  find-exists p [] h = refl
  find-exists p (x ∷ xs) h = ground (arith, find-exists p xs)

  pub All-delete : (P : A → Type 0) (q : A → Bool) (xs : List A) → All P xs → All P (delete q xs)
  unfolding delete
  All-delete P q [] h = tt
  All-delete P q (x ∷ xs) h = elim (Bool-cases (q x)) [
    | inl e ↦ rw e (All-delete P q xs h.1)
    | inr e ↦ rw e (h.0, All-delete P q xs h.1)
  ]

  pub All-insert : (P : A → Type 0) (a : A) (xs : List A) → P a → All P xs → All P (insert a xs)
  unfolding insert
  All-insert P a [] p h = (p, tt)
  All-insert P a (x ∷ xs) p h = (h.0, All-insert P a xs p h.1)

  pub All-update :
      (P : A → Type 0) (q : A → Bool) (f : A → A) (xs : List A)
      → ((x : A) → P x → P (f x))
      → All P xs
      → All P (update q f xs)
  unfolding update
  All-update P q f [] k h = tt
  All-update P q f (x ∷ xs) k h = elim (Bool-cases (q x)) [
    | inl e ↦ rw e (k x h.0, All-update P q f xs k h.1)
    | inr e ↦ rw e (h.0, All-update P q f xs k h.1)
  ]

  pub All-map : (P Q : A → Type 0) (xs : List A) → ((x : A) → P x → Q x) → All P xs → All Q xs
  All-map P Q [] k h = tt
  All-map P Q (x ∷ xs) k h = (k x h.0, All-map P Q xs k h.1)

  -- What is left by a deletion is not selected by it.
  pub All-delete_unselected : (q : A → Bool) (xs : List A) → All (λ x. q x ≡ false) (delete q xs)
  unfolding delete
  All-delete_unselected q [] = tt
  All-delete_unselected q (x ∷ xs) = elim (Bool-cases (q x)) [
    | inl e ↦ rw e (All-delete_unselected q xs)
    | inr e ↦ rw e (e, All-delete_unselected q xs)
  ]

module _ {A : Type 0} where
  pub delete-update :
      (p : A → Bool) (f : A → A) (xs : List A)
      → ((x : A) → p (f x) ≡ p x)
      → delete p (update p f xs) ≡ delete p xs
  unfolding delete update
  delete-update p f [] k = refl
  delete-update p f (x ∷ xs) k = ground (arith, delete-update p f xs k, k x)

  -- Two deletions, one after the other.
  pub delete-delete :
      (p q : A → Bool) (xs : List A) → delete p (delete q xs) ≡ delete (λ x. q x || p x) xs
  unfolding delete
  delete-delete p q [] = refl
  delete-delete p q (x ∷ xs) = ground (arith, delete-delete p q xs)

  pub delete-ext :
      (p q : A → Bool) (xs : List A) → All (λ x. p x ≡ q x) xs → delete p xs ≡ delete q xs
  unfolding delete
  delete-ext p q [] h = refl
  delete-ext p q (x ∷ xs) h = rw h.0 (ap (λ ys. if q x then ys else x ∷ ys) (delete-ext p q xs h.1))

  pub delete-none : (xs : List A) → delete (λ x. false) xs ≡ xs
  unfolding delete
  delete-none [] = refl
  delete-none (x ∷ xs) = ap (λ ys. x ∷ ys) (delete-none xs)

  -- What no row of the list satisfies.
  pub exists-All : (p : A → Bool) (xs : List A) → exists p xs ≡ false → All (λ x. p x ≡ false) xs
  unfolding exists
  exists-All p [] h = tt
  exists-All p (x ∷ xs) h = (ground arith, exists-All p xs (ground arith))

  pub All-every : (P : A → Type 0) (xs : List A) → ((x : A) → P x) → All P xs
  All-every P [] k = tt
  All-every P (x ∷ xs) k = (k x, All-every P xs k)

  pub All-zip :
      (P Q R : A → Type 0) (xs : List A)
      → ((x : A) → P x → Q x → R x)
      → All P xs
      → All Q xs
      → All R xs
  All-zip P Q R [] k g h = tt
  All-zip P Q R (x ∷ xs) k g h = (k x g.0 h.0, All-zip P Q R xs k g.1 h.1)

  pub exists-weaker :
      (p q : A → Bool) (xs : List A)
      → ((x : A) → p x ≡ true → q x ≡ true)
      → exists q xs ≡ false
      → exists p xs ≡ false
  unfolding exists
  exists-weaker p q [] k h = refl
  exists-weaker p q (x ∷ xs) k h = ground (arith, exists-weaker p q xs k, k x)

pub All-delete_both :
    {A : Type 0} (P Q : A → Type 0) (q : A → Bool) (xs : List A)
    → ((x : A) → q x ≡ false → P x → Q x)
    → All P xs
    → All Q (delete q xs)
unfolding delete
All-delete_both P Q q [] k h = tt
All-delete_both P Q q (x ∷ xs) k h = elim (Bool-cases (q x)) [
  | inl e ↦ rw e (All-delete_both P Q q xs k h.1)
  | inr e ↦ rw e (k x e h.0, All-delete_both P Q q xs k h.1)
]

module _ {A : Type 0} (clause : A → A → Bool) where
  pub Unique-delete : (q : A → Bool) (xs : List A) → Unique clause xs → Unique clause (delete q xs)
  unfolding delete
  Unique-delete q [] h = tt
  Unique-delete q (x ∷ xs) h = elim (Bool-cases (q x)) [
    | inl e ↦ rw e (Unique-delete q xs h.1)
    | inr e ↦ rw e (exists-delete-false (clause x) q xs h.0, Unique-delete q xs h.1)
  ]

  pub Unique-insert :
      (a : A) (xs : List A)
      → ((x : A) → clause x a ≡ clause a x)
      → exists (clause a) xs ≡ false
      → Unique clause xs
      → Unique clause (insert a xs)
  unfolding exists insert
  Unique-insert a [] s e h = (refl, tt)
  Unique-insert a (x ∷ xs) s e h =
      (ground (arith, exists-insert (clause x) a xs, s x), Unique-insert a xs s (ground arith) h.1)

  -- An update that keeps the keys.
  pub Unique-update :
      (q : A → Bool) (f : A → A) (xs : List A)
      → ((x y : A) → clause x (f y) ≡ clause x y)
      → ((x y : A) → clause (f x) y ≡ clause x y)
      → Unique clause xs
      → Unique clause (update q f xs)
  unfolding update
  Unique-update q f [] k l h = tt
  Unique-update q f (x ∷ xs) k l h = elim (Bool-cases (q x)) [
    | inl e ↦ rw e (
      exists-update (clause (f x)) q f xs (k (f x))
          ∙ exists-ext (clause (f x)) (clause x) xs (l x)
          ∙ h.0,
      Unique-update q f xs k l h.1,
    )
    | inr e ↦ rw e (exists-update (clause x) q f xs (k x) ∙ h.0, Unique-update q f xs k l h.1)
  ]

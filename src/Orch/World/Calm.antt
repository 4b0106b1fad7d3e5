-- ===== src/Orch/World/Calm.antt =====
-- How an action ends in a calm environment: no other goroutine interferes, and no statement fails.
-- `Ends Q r` speaks of both outcomes; one rule for each way to build an action.
use go_gvisor_containerd_let.Base.{
  ℕ, ◌≡◌, refl, sym, subst, Bool, true, false, none, List, [], ◌∷◌, if◌then◌else◌,
}
use go_gvisor_containerd_let.Orch.Tables.{Db}
use go_gvisor_containerd_let.Orch.World.{
  Result, ok, err, Env, World, M, ◌>>=◌, continue, attempt, ignore, pure, statement, query, exec,
  for_each, after_statement,
}

pub record IsCalm (e : Env) : Type 0 where
  pub alone : (k : ℕ) (d : Db) → e.others k d ≡ d
  pub sound : (k : ℕ) → e.fault k ≡ none

abbrev pub Ends : {A : Type 0} → (Result A → World → Type 0) → Result A × World → Type 0
Ends Q p = Q p.0 p.1

module _ {A B : Type 0} (Q : Result B → World → Type 0) where
  abbrev pub Continues : (A → M B) → Result A → World → Type 0
  Continues f (ok a) w = Ends Q (f a w)
  Continues f (err e) w = Q (err e) w

  Ends-continue :
      (f : A → M B) (r : Result A) (w : World) → Continues f r w → Ends Q (continue r f w)
  Ends-continue f (ok a) w h = h
  Ends-continue f (err e) w h = h

  pub Ends-bind :
      (m : M A) (f : A → M B) (w : World) → Ends (Continues f) (m w) → Ends Q ((m >>= f) w)
  unfolding ◌>>=◌
  Ends-bind m f w h = let (r, w') = m w in Ends-continue f r w' h

module _ {A : Type 0} (Q : Result A → World → Type 0) where
  pub Ends-if :
      (b : Bool) (m n : M A) (w : World)
      → (b ≡ true → Ends Q (m w))
      → (b ≡ false → Ends Q (n w))
      → Ends Q ((if b then m else n) w)
  Ends-if true m n w km kn = km refl
  Ends-if false m n w km kn = kn refl

  pub Ends-statement :
      (f : Db → Result A × Db) (w : World)
      → IsCalm w.env
      → Q (f w.db).0 (after_statement w (f w.db).1)
      → Ends Q (statement f w)
  unfolding statement
  Ends-statement f w c h =
      rw (c.sound w.step)
        (subst (λ d. Q (f d).0 (after_statement w (f d).1)) (sym (c.alone w.step w.db)) h)

  pub Ends-query :
      (f : Db → Result A) (w : World)
      → IsCalm w.env
      → Q (f w.db) (after_statement w w.db)
      → Ends Q (query f w)
  unfolding query
  Ends-query f w c h = Ends-statement (λ d. (f d, d)) w c h

  pub Ends-attempt :
      (P : Result (Result A) → World → Type 0) (m : M A) (w : World)
      → Ends (λ r w'. P (ok r) w') (m w)
      → Ends P (attempt m w)
  unfolding attempt
  Ends-attempt P m w h = h

module _ (Q : Result (Unit {0}) → World → Type 0) where
  pub Ends-ignore :
      {A : Type 0} (m : M A) (w : World) → Ends (λ r w'. Q (ok tt) w') (m w) → Ends Q (ignore m w)
  unfolding ignore
  Ends-ignore m w h = h

  pub Ends-exec :
      (f : Db → Db) (w : World)
      → IsCalm w.env
      → Q (ok tt) (after_statement w (f w.db))
      → Ends Q (exec f w)
  unfolding exec
  Ends-exec f w c h = Ends-statement Q (λ d. (ok tt, f d)) w c h

-- The same for an action whose result the rest of the block uses.
module _ {A B : Type 0} (Q : Result B → World → Type 0) where
  pub Ends-bind_query :
      (g : Db → Result A) (f : A → M B) (w : World)
      → IsCalm w.env
      → Continues Q f (g w.db) (after_statement w w.db)
      → Ends Q ((query g >>= f) w)
  Ends-bind_query g f w c h = Ends-bind Q (query g) f w (Ends-query (Continues Q f) g w c h)

  pub Ends-bind_attempt :
      (P : Result A → World → Type 0) (m : M A) (f : Result A → M B) (w : World)
      → Ends P (m w)
      → ((r : Result A) (v : World) → P r v → Ends Q (f r v))
      → Ends Q ((attempt m >>= f) w)
  unfolding attempt
  Ends-bind_attempt P m f w h k = Ends-bind Q (attempt m) f w (k (m w).0 (m w).1 h)

-- After an action that returns.
pub Ends-then :
    (P : Result (Unit {0}) → World → Type 0) (I : World → Type 0) (m n : M (Unit {0})) (w : World)
    → Ends (λ r v. (r ≡ ok tt) × I v) (m w)
    → ((v : World) → I v → Ends P (n v))
    → Ends P ((m >>= λ _. n) w)
Ends-then P I m n w h k = Ends-bind P m _ w (next (m w).0 (m w).1 h)
  where
    next : (r : Result (Unit {0})) (v : World) → (r ≡ ok tt) × I v → Continues P (λ _. n) r v
    next (ok a) v g = k v g.1
    next (err e) v g = cc

-- A loop whose body always returns: `I` relates what is left of the list to the world.
pub Ends-for_each :
    {A : Type 0} (I : List A → World → Type 0) (f : A → M (Unit {0})) (xs : List A) (w : World)
    → ((x : A) (ys : List A) (v : World)
        → I (x ∷ ys) v
        → Ends (λ r v'. (r ≡ ok tt) × I ys v') (f x v))
    → I xs w
    → Ends (λ r w'. (r ≡ ok tt) × I [] w') (for_each f xs w)
unfolding for_each pure
Ends-for_each I f [] w step h = (refl, h)
Ends-for_each I f (x ∷ xs) w step h =
    Ends-then (λ r w'. (r ≡ ok tt) × I [] w') (I xs) (f x) (for_each f xs) w (step x xs w h)
      (λ v g. Ends-for_each I f xs v step g)

-- ===== src/Orch/World/Fails.antt =====
-- What an action that fails leaves: `Fails Inv m` asks nothing of an `m` that returns, so the last
-- statement may break the invariant.
use go_gvisor_containerd_let.Base.{◌≡◌, refl, String, Option, none, some}
use go_gvisor_containerd_let.Orch.Tables.{Db}
use go_gvisor_containerd_let.Orch.World.{
  Error, Result, ok, err, World, M, ◌>>=◌, continue, statement, exec, run_statement,
}
use go_gvisor_containerd_let.Orch.World.Keeps.{IsSafe, Keeps}

pub record Fails {A : Type 0} (Inv : Db → Type 0) (m : M A) : Type 0 where
  pub at : (w : World) → IsSafe Inv w → (e : Error) → (m w).0 ≡ err e → IsSafe Inv (m w).1

-- `m` never fails.
abbrev pub IsSure : {A : Type 0} → M A → Type 0
IsSure m = (w : World) (e : Error) → ¬ ((m w).0 ≡ err e)

module _ {Inv : Db → Type 0} {A B : Type 0} (m : M A) (f : A → M B) where
  pub Fails-bind : Keeps Inv m → ((a : A) → Fails Inv (f a)) → Fails Inv (m >>= f)
  unfolding ◌>>=◌
  Fails-bind km kf = record { at = λ w s e h. let (r, w') = m w in after r w' (km.at w s) e h }
    where
      after :
          (r : Result A) (w : World)
          → IsSafe Inv w
          → (e : Error) → (continue r f w).0 ≡ err e
          → IsSafe Inv (continue r f w).1
      after (ok a) w s e h = (kf a).at w s e h
      after (err x) w s e h = s

  -- Only `m` can fail.
  pub Fails-bind_sure : Fails Inv m → ((a : A) → IsSure (f a)) → Fails Inv (m >>= f)
  unfolding ◌>>=◌
  Fails-bind_sure fm sure = record { at = λ w s e h. after (m w).0 (m w).1 (fm.at w s) e h }
    where
      after :
          (r : Result A) (w : World)
          → ((e : Error) → r ≡ err e → IsSafe Inv w)
          → (e : Error) → (continue r f w).0 ≡ err e
          → IsSafe Inv (continue r f w).1
      after (ok a) w s e h = elim (sure a w e h) [ ]
      after (err x) w s e h = s x refl

module _ {Inv : Db → Type 0} where
  run_exec-Fails :
      (o : Option String) (f : Db → Db) (w : World)
      → IsSafe Inv w
      → (e : Error) → (run_statement o (λ d. (ok (tt {0}), f d)) w).0 ≡ err e
      → IsSafe Inv (run_statement o (λ d. (ok (tt {0}), f d)) w).1
  run_exec-Fails none f w s e h = cc
  run_exec-Fails (some msg) f w s e h = record { rely = s.rely; inv = s.rely w.step w.db s.inv }

  -- A statement that fails has done nothing.
  pub Fails-exec : (f : Db → Db) → Fails Inv (exec f)
  unfolding exec statement
  Fails-exec f = record { at = λ w s e h. run_exec-Fails (w.env.fault w.step) f w s e h }

-- ===== src/Orch/World/Keeps.antt =====
-- Invariants of the tables under actions, one rule for each way to build an action. The
-- environment may interfere before every statement, so an invariant comes with the assumption
-- that the other goroutines keep it too (rely), and the rules carry both.
use go_gvisor_containerd_let.Base.{
  ℕ, ◌≡◌, refl, Bool, true, false, Option, none, some, List, [], ◌∷◌, if◌then◌else◌,
}
use go_gvisor_containerd_let.Orch.Cache.{ResourceCache}
use go_gvisor_containerd_let.Orch.Tables.{Db}
use go_gvisor_containerd_let.Orch.World.{
  Error, Result, ok, err, Env, World, M, pure, raise, lift, gets, ◌>>=◌, continue, attempt, ignore,
  tick, call, modify_cache, read_clock, statement, query, exec, for_each, transaction,
  run_statement, begin_transaction, finish_transaction, finish_commit, seen, after_statement, alone,
}

-- The tables satisfy `Inv`, and so do they after any interference.
pub record IsSafe (Inv : Db → Type 0) (w : World) : Type 0 where
  pub rely : (k : ℕ) (d : Db) → Inv d → Inv (w.env.others k d)
  pub inv : Inv w.db

-- `m` keeps `Inv`, whether it returns or fails.
pub record Keeps {ℓ} {A : Type ℓ} (Inv : Db → Type 0) (m : M A) : Type ℓ where
  pub at : (w : World) → IsSafe Inv w → IsSafe Inv (m w).1

abbrev pub AllOk : {A : Type 0} → (A → Type 0) → Result A → Type 0
AllOk P (ok a) = P a
AllOk P (err e) = Unit {0}

-- `m` keeps `Inv`, and what it returns satisfies `P`.
pub record Reads {A : Type 0} (Inv : Db → Type 0) (P : A → Type 0) (m : M A) : Type 0 where
  pub at : (w : World) → IsSafe Inv w → IsSafe Inv (m w).1 × AllOk P (m w).0

module _ {Inv : Db → Type 0} where
  Safe-seen : (w : World) → IsSafe Inv w → Inv (seen w)
  Safe-seen w s = s.rely w.step w.db s.inv

  module _ {ℓ} {A : Type ℓ} where
    pub Keeps-pure : (a : A) → Keeps Inv (pure a)
    unfolding pure
    Keeps-pure a = record { at = λ w s. s }

    pub Keeps-raise : (e : Error) → Keeps Inv (raise {A = A} e)
    unfolding raise
    Keeps-raise e = record { at = λ w s. s }

    pub Keeps-lift : (r : Result A) → Keeps Inv (lift r)
    unfolding lift
    Keeps-lift r = record { at = λ w s. s }

    pub Keeps-gets : (f : World → A) → Keeps Inv (gets f)
    unfolding gets
    Keeps-gets f = record { at = λ w s. s }

    pub Keeps-if :
        (b : Bool) (m n : M A)
        → (b ≡ true → Keeps Inv m)
        → (b ≡ false → Keeps Inv n)
        → Keeps Inv (if b then m else n)
    Keeps-if true m n km kn = km refl
    Keeps-if false m n km kn = kn refl

    pub Keeps-attempt : (m : M A) → Keeps Inv m → Keeps Inv (attempt m)
    unfolding attempt
    Keeps-attempt m k = record { at = k.at }

    pub Keeps-ignore : (m : M A) → Keeps Inv m → Keeps Inv (ignore m)
    unfolding ignore
    Keeps-ignore m k = record { at = k.at }

    run_statement-Safe :
        (o : Option _) (f : Db → Result A × Db) (w : World)
        → ((d : Db) → Inv d → Inv (f d).1)
        → IsSafe Inv w
        → IsSafe Inv (run_statement o f w).1
    run_statement-Safe none f w keep s = record {
      rely = s.rely;
      inv = keep (seen w) (Safe-seen w s);
    }
    run_statement-Safe (some msg) f w keep s = record { rely = s.rely; inv = Safe-seen w s }

    -- A statement keeps what its work on the tables keeps, also where it fails.
    pub Keeps-statement :
        (f : Db → Result A × Db) → ((d : Db) → Inv d → Inv (f d).1) → Keeps Inv (statement f)
    unfolding statement
    Keeps-statement f keep = record {
      at = λ w s. run_statement-Safe (w.env.fault w.step) f w keep s;
    }

    pub Keeps-query : (f : Db → Result A) → Keeps Inv (query f)
    unfolding query
    Keeps-query f = Keeps-statement (λ d. (f d, d)) (λ d h. h)

    commit-Safe :
        (o : Option _) (before : Db) (a : A) (w : World)
        → Inv before
        → IsSafe Inv w
        → IsSafe Inv (finish_commit o before a w).1
    commit-Safe none before a w h s = record { rely = s.rely; inv = s.inv }
    commit-Safe (some msg) before a w h s = record { rely = s.rely; inv = h }

    finish-Safe :
        (before : Db) (e : Env) (r : Result A) (w : World)
        → Inv before
        → ((k : ℕ) (d : Db) → Inv d → Inv (e.others k d))
        → IsSafe Inv w
        → IsSafe Inv (finish_transaction before e r w).1
    finish-Safe before e (ok a) w h rely s =
        commit-Safe (w.env.fault w.step) before a (record w { env = e }) h
          (record { rely = rely; inv = s.inv })
    finish-Safe before e (err x) w h rely s = record { rely = rely; inv = h }

    begin-Safe :
        (o : Option _) (m : M A) (w : World)
        → Keeps Inv m
        → IsSafe Inv w
        → IsSafe Inv (begin_transaction o m w).1
    begin-Safe none m w k s =
        let started = record (after_statement w (seen w)) { env = alone w.env } in
        finish-Safe (seen w) w.env (m started).0 (m started).1 (Safe-seen w s) s.rely
          (k.at started (record { rely = λ n d h. h; inv = Safe-seen w s }))
    begin-Safe (some msg) m w k s = record { rely = s.rely; inv = Safe-seen w s }

    -- A transaction keeps what its body keeps.
    pub Keeps-transaction : (m : M A) → Keeps Inv m → Keeps Inv (transaction m)
    unfolding transaction
    Keeps-transaction m k = record { at = λ w s. begin-Safe (w.env.fault w.step) m w k s }

  pub Keeps-tick : Keeps Inv tick
  unfolding tick
  Keeps-tick = record { at = λ w s. record { rely = s.rely; inv = s.inv } }

  pub Keeps-read_clock : Keeps Inv read_clock
  unfolding read_clock
  Keeps-read_clock = record { at = λ w s. record { rely = s.rely; inv = s.inv } }

  pub Keeps-call {ℓ} : {A : Type ℓ} (f : Env → ℕ → Result A) → Keeps Inv (call f)
  unfolding call
  Keeps-call f = record { at = λ w s. record { rely = s.rely; inv = s.inv } }

  pub Keeps-modify_cache : (f : ResourceCache → ResourceCache) → Keeps Inv (modify_cache f)
  unfolding modify_cache
  Keeps-modify_cache f = record { at = λ w s. record { rely = s.rely; inv = s.inv } }

  pub Keeps-exec : (f : Db → Db) → ((d : Db) → Inv d → Inv (f d)) → Keeps Inv (exec f)
  unfolding exec
  Keeps-exec f keep = Keeps-statement (λ d. (ok tt, f d)) keep

  module _ {ℓ κ} {A : Type ℓ} {B : Type κ} where
    -- The rest of the block may use that `r` is no error.
    pub Keeps-bind-lift :
        (r : Result A) (f : A → M B)
        → ((a : A) → r ≡ ok a → Keeps Inv (f a))
        → Keeps Inv (lift r >>= f)
    unfolding ◌>>=◌
    Keeps-bind-lift (ok a) f kf = kf a refl
    Keeps-bind-lift (err e) f kf = Keeps-raise e

    pub Keeps-bind :
        (m : M A) (f : A → M B) → Keeps Inv m → ((a : A) → Keeps Inv (f a)) → Keeps Inv (m >>= f)
    unfolding ◌>>=◌
    Keeps-bind m f km kf = record {
      at = λ w s. let (r, w') = m w in (Keeps-bind-lift r f (λ a _. kf a)).at w' (km.at w s);
    }

  module _ {A : Type 0} (P : A → Type 0) where
    run_query-Reads :
        (o : Option _) (g : Db → Result A) (w : World)
        → ((d : Db) → Inv d → AllOk P (g d))
        → IsSafe Inv w
        → AllOk P (run_statement o (λ d. (g d, d)) w).0
    run_query-Reads none g w k s = k (seen w) (Safe-seen w s)
    run_query-Reads (some msg) g w k s = tt

    pub Reads-query :
        (g : Db → Result A) → ((d : Db) → Inv d → AllOk P (g d)) → Reads Inv P (query g)
    unfolding query statement
    Reads-query g k = record {
      at = λ w s. ((Keeps-query g).at w s, run_query-Reads (w.env.fault w.step) g w k s);
    }

    pub Reads-map :
        {B : Type 0} (Q : B → Type 0) (m : M A) (f : A → B)
        → Reads Inv P m
        → ((a : A) → P a → Q (f a))
        → Reads Inv Q (m >>= λ a. pure (f a))
    unfolding ◌>>=◌ pure
    Reads-map Q m f r k = record { at = λ w s. let h = r.at w s in mapped (m w).0 (m w).1 h.0 h.1 }
      where
        mapped :
            (r : Result A) (v : World)
            → IsSafe Inv v
            → AllOk P r
            → IsSafe Inv (continue r (λ a. pure (f a)) v).1
              × AllOk Q (continue r (λ a. pure (f a)) v).0
        mapped (ok a) v s h = (s, k a h)
        mapped (err e) v s h = (s, tt)

  -- The rest of the block may use what was read.
  pub Keeps-bind-Reads :
      {A B : Type 0} (P : A → Type 0) (m : M A) (f : Result A → M B)
      → Reads Inv P m
      → ((r : Result A) → AllOk P r → Keeps Inv (f r))
      → Keeps Inv (attempt m >>= f)
  unfolding ◌>>=◌ attempt
  Keeps-bind-Reads P m f r k = record {
    at = λ w s. let h = r.at w s in (k (m w).0 h.1).at (m w).1 h.0;
  }

  pub Keeps-for_each {ℓ} :
      {A : Type ℓ} (f : A → M (Unit {0})) (xs : List A)
      → ((a : A) → Keeps Inv (f a))
      → Keeps Inv (for_each f xs)
  unfolding for_each
  Keeps-for_each f [] k = Keeps-pure tt
  Keeps-for_each f (x ∷ xs) k = Keeps-bind (f x) _ (k x) (λ _. Keeps-for_each f xs k)

pub ruleset keeps_rules = (
  Keeps-pure, Keeps-raise, Keeps-lift, Keeps-gets, Keeps-if, Keeps-bind, Keeps-attempt,
  Keeps-ignore, Keeps-query, Keeps-tick, Keeps-call, Keeps-modify_cache, Keeps-read_clock,
  Keeps-transaction, Keeps-for_each,
)

-- ===== src/Orch/World/Holds.antt =====
-- What holds where an action returns: `Holds Q r` says nothing of a failure. One rule for each way to
-- build an action reduces a claim on it to claims on its parts.
use go_gvisor_containerd_let.Base.{
  ℕ, suc, ◌≡◌, refl, String, Bool, true, false, Option, none, some, if◌then◌else◌,
}
use go_gvisor_containerd_let.Orch.Tables.{Db}
use go_gvisor_containerd_let.Orch.World.{
  Error, Result, ok, err, World, M, ◌>>=◌, continue, attempt, statement, query, exec, transaction,
  run_statement, begin_transaction, finish_transaction, finish_commit, seen, after_statement, alone,
}

abbrev pub Holds : {A : Type 0} → (A → World → Type 0) → Result A × World → Type 0
Holds Q (ok a, w) = Q a w
Holds Q (err e, w) = Unit {0}

-- No other goroutine interferes.
abbrev pub IsAlone : World → Type 0
IsAlone w = (k : ℕ) (d : Db) → w.env.others k d ≡ d

module _ {A : Type 0} where
  pub Holds-mono :
      (P : A → World → Type 0) {Q : A → World → Type 0} (r : Result A × World)
      → Holds P r
      → ((a : A) (w : World) → P a w → Q a w)
      → Holds Q r
  Holds-mono P (ok a, w) h k = k a w h
  Holds-mono P (err e, w) h k = tt

  -- What is so whatever the action did.
  pub Holds-any :
      {Q : A → World → Type 0} (r : Result A × World) → ((a : A) (w : World) → Q a w) → Holds Q r
  Holds-any (ok a, w) k = k a w
  Holds-any (err e, w) k = tt

  -- From the rules to an equation.
  pub Holds-at :
      (Q : A → World → Type 0) (r : Result A × World) {a : A} {w : World}
      → Holds Q r
      → r ≡ (ok a, w)
      → Q a w
  Holds-at Q r h e = rw e at h

  module _ {B : Type 0} (Q : B → World → Type 0) where
    Holds-continue :
        (f : A → M B) (r : Result A) (w : World)
        → Holds (λ a w'. Holds Q (f a w')) (r, w)
        → Holds Q (continue r f w)
    Holds-continue f (ok a) w h = h
    Holds-continue f (err e) w h = tt

    pub Holds-bind :
        (m : M A) (f : A → M B) (w : World)
        → Holds (λ a w'. Holds Q (f a w')) (m w)
        → Holds Q ((m >>= f) w)
    unfolding ◌>>=◌
    Holds-bind m f w h = let (r, w') = m w in Holds-continue f r w' h

  module _ (Q : A → World → Type 0) where
    pub Holds-if :
        (b : Bool) (m n : M A) (w : World)
        → (b ≡ true → Holds Q (m w))
        → (b ≡ false → Holds Q (n w))
        → Holds Q ((if b then m else n) w)
    Holds-if true m n w km kn = km refl
    Holds-if false m n w km kn = kn refl

    attempt_result :
        (P : Result A → World → Type 0) (r : Result A) (w : World)
        → Holds Q (r, w)
        → ((a : A) → Q a w → P (ok a) w)
        → ((e : Error) → P (err e) w)
        → P r w
    attempt_result P (ok a) w h k l = k a h
    attempt_result P (err e) w h k l = l e

    -- What is known where the attempted action returns, and where it fails.
    pub Holds-attempt :
        (P : Result A → World → Type 0) (m : M A) (w : World)
        → Holds Q (m w)
        → ((a : A) (w' : World) → Q a w' → P (ok a) w')
        → ((e : Error) (w' : World) → P (err e) w')
        → Holds P (attempt m w)
    unfolding attempt
    Holds-attempt P m w h k l =
        let (r, w') = m w in attempt_result P r w' h (λ a. k a w') (λ e. l e w')

    run_statement-Holds :
        (o : Option String) (f : Db → Result A × Db) (w : World)
        → Holds Q ((f (seen w)).0, after_statement w (f (seen w)).1)
        → Holds Q (run_statement o f w)
    run_statement-Holds none f w h = h
    run_statement-Holds (some msg) f w h = tt

    -- A statement that returns has done its work on the tables that it saw.
    pub Holds-statement :
        (f : Db → Result A × Db) (w : World)
        → Holds Q ((f (seen w)).0, after_statement w (f (seen w)).1)
        → Holds Q (statement f w)
    unfolding statement
    Holds-statement f w h = run_statement-Holds (w.env.fault w.step) f w h

    run_query-Holds :
        (o : Option String) (f : Db → Result A) (w : World)
        → Holds Q (f (seen w), after_statement w (seen w))
        → Holds Q (run_statement o (λ d. (f d, d)) w)
    run_query-Holds none f w h = h
    run_query-Holds (some msg) f w h = tt

    pub Holds-query :
        (f : Db → Result A) (w : World)
        → Holds Q (f (seen w), after_statement w (seen w))
        → Holds Q (query f w)
    unfolding query
    Holds-query f w h = run_query-Holds (w.env.fault w.step) f w h

    commit-Holds :
        (o : Option String) (before : Db) (a : A) (w : World)
        → Q a (record w { step = suc w.step })
        → Holds Q (finish_commit o before a w)
    commit-Holds none before a w h = h
    commit-Holds (some msg) before a w h = tt

    finish-Holds :
        (w₀ : World) (before : Db) (r : Result A) (w : World)
        → Holds (λ a w'. Q a (record w' { env = w₀.env; step = suc w'.step })) (r, w)
        → Holds Q (finish_transaction before w₀.env r w)
    finish-Holds w₀ before (ok a) w h =
        commit-Holds (w.env.fault w.step) before a (record w { env = w₀.env }) h
    finish-Holds w₀ before (err e) w h = tt

    begin-Holds :
        (o : Option String) (m : M A) (w : World)
        → Holds
            (λ a w'. Q a (record w' { env = w.env; step = suc w'.step }))
            (m (record (after_statement w (seen w)) { env = alone w.env }))
        → Holds Q (begin_transaction o m w)
    begin-Holds none m w h =
        let (r, w') = m (record (after_statement w (seen w)) { env = alone w.env }) in
        finish-Holds w (seen w) r w' h
    begin-Holds (some msg) m w h = tt

    -- The body of a transaction runs alone, from the tables that BeginTx saw.
    pub Holds-transaction :
        (m : M A) (w : World)
        → Holds
            (λ a w'. Q a (record w' { env = w.env; step = suc w'.step }))
            (m (record (after_statement w (seen w)) { env = alone w.env }))
        → Holds Q (transaction m w)
    unfolding transaction
    Holds-transaction m w h = begin-Holds (w.env.fault w.step) m w h

  finish_error :
      (w₀ : World) (before : Db) (r : Result A) (w : World) (e : Error)
      → (finish_transaction before w₀.env r w).0 ≡ err e
      → (finish_transaction before w₀.env r w).1.db ≡ before
  finish_error w₀ before (ok a) w e h = commit_error (w.env.fault w.step) h
    where
      commit_error :
          (o : Option String)
          → (finish_commit o before a (record w { env = w₀.env })).0 ≡ err e
          → (finish_commit o before a (record w { env = w₀.env })).1.db ≡ before
      commit_error none g = cc
      commit_error (some msg) g = refl
  finish_error w₀ before (err x) w e h = refl

  begin_error :
      (o : Option String) (m : M A) (w : World) (e : Error)
      → (begin_transaction o m w).0 ≡ err e
      → (begin_transaction o m w).1.db ≡ seen w
  begin_error none m w e h =
      let (r, w') = m (record (after_statement w (seen w)) { env = alone w.env }) in
      finish_error w (seen w) r w' e h
  begin_error (some msg) m w e h = refl

  -- A transaction that fails has rolled back.
  pub transaction_error :
      (m : M A) (w : World) (e : Error)
      → (transaction m w).0 ≡ err e
      → (transaction m w).1.db ≡ seen w
  unfolding transaction
  transaction_error m w e h = begin_error (w.env.fault w.step) m w e h

module _ (Q : Unit {0} → World → Type 0) where
  run_exec-Holds :
      (o : Option String) (f : Db → Db) (w : World)
      → Q tt (after_statement w (f (seen w)))
      → Holds Q (run_statement o (λ d. (ok tt, f d)) w)
  run_exec-Holds none f w h = h
  run_exec-Holds (some msg) f w h = tt

  pub Holds-exec :
      (f : Db → Db) (w : World) → Q tt (after_statement w (f (seen w))) → Holds Q (exec f w)
  unfolding exec
  Holds-exec f w h = run_exec-Holds (w.env.fault w.step) f w h

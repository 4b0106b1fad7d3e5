-- ===== src/Let/Health/Grace.antt =====
-- When an unhealthy sandbox is given up.
use go_gvisor_containerd_let.Base.{
  ℕ, suc, ◌+◌, pos, sub_ℕ, leb_ℤ, ltb_ℤ, ◌≡◌, refl, ◌∙◌, ap, subst, String, false, ◌&&◌, not, none,
  some, List, [], ◌∷◌, arith, eq_iff, str_eq, length, if◌then◌else◌,
}
use go_gvisor_containerd_let.Let.Health.{
  IdMap, lookup, assign, Unhealthy, Limits, hit_again, should_finalize_unhealthy,
}

module _ (k : String) where
  lookup-assign :
      (j : String) (v : ℕ) (m : IdMap)
      → lookup k (assign j v m) ≡ (if str_eq j k then some v else lookup k m)
  unfolding lookup assign
  lookup-assign j v [] = refl
  lookup-assign j v ((i, u) ∷ m) =
      ground (arith, lookup-assign j v m, eq_iff i j, eq_iff j k, eq_iff i k)

module _ (lim : Limits) (id : String) where
  -- The sandbox is known as unhealthy since a time, and was seen so a number of times.
  abbrev pub SeenSince : ℕ → ℕ → Unhealthy → Type 0
  SeenSince first n u = (lookup id u.since ≡ some first) × (lookup id u.hits ≡ some n)

  -- The observations at some times, one after another.
  pub observe : List ℕ → Unhealthy → Unhealthy
  observe [] u = u
  observe (t ∷ ts) u = observe ts (should_finalize_unhealthy lim id t u).1

  first_seen :
      (now : ℕ) (u : Unhealthy)
      → lookup id u.since ≡ none
      → ((should_finalize_unhealthy lim id now u).0 ≡ false)
        × SeenSince now 1 (should_finalize_unhealthy lim id now u).1
  unfolding should_finalize_unhealthy hit_again
  first_seen now u h = rw h (
    refl,
    (
      (lookup-assign id id now u.since ∙ ground (arith, eq_iff id id)),
      (lookup-assign id id 1 u.hits ∙ ground (arith, eq_iff id id)),
    ),
  )

  seen_again :
      (now first n : ℕ) (u : Unhealthy)
      → SeenSince first n u
      → ((should_finalize_unhealthy lim id now u).0
          ≡ (not (ltb_ℤ (sub_ℕ now first) lim.grace) && leb_ℤ lim.hits (pos (suc n))))
        × SeenSince first (suc n) (should_finalize_unhealthy lim id now u).1
  unfolding should_finalize_unhealthy hit_again
  seen_again now first n u h = rw h.0 (
      rw h.1
        (ground arith, (h.0, (lookup-assign id id (suc n) u.hits ∙ ground (arith, eq_iff id id)))))

  observed :
      (ts : List ℕ) (first n : ℕ) (u : Unhealthy)
      → SeenSince first n u
      → SeenSince first (n + length ts) (observe ts u)
  unfolding observe
  observed [] first n u h = (h.0, h.1 ∙ ap some (omega arith))
  observed (t ∷ ts) first n u h =
      subst (λ m. SeenSince first m (observe ts (should_finalize_unhealthy lim id t u).1))
        (omega arith) (observed ts first (suc n) _ (seen_again t first n u h).1)

  -- A sandbox that is seen unhealthy for the first time is not given up; seen so again at later times,
  -- it is given up exactly where the grace period has passed since the first time and the number of
  -- all observations, with the first and the present one, has reached the limit.
  pub should_finalize_unhealthy-grace :
      (first : ℕ) (ts : List ℕ) (now : ℕ) (u : Unhealthy)
      → lookup id u.since ≡ none
      → ((should_finalize_unhealthy lim id first u).0 ≡ false)
        × ((should_finalize_unhealthy lim id now (observe (first ∷ ts) u)).0
            ≡ (not (ltb_ℤ (sub_ℕ now first) lim.grace) && leb_ℤ lim.hits (pos (length ts + 2))))
  unfolding observe
  should_finalize_unhealthy-grace first ts now u h =
      let start = first_seen first u h in
      let before = observed ts first 1 (should_finalize_unhealthy lim id first u).1 start.1 in
      (
        start.0,
        (seen_again now first (1 + length ts) _ before).0
            ∙ ap (λ n. not (ltb_ℤ (sub_ℕ now first) lim.grace) && leb_ℤ lim.hits (pos n))
                (omega arith),
      )

-- ===== src/Let/Pages/Cursors.antt =====
-- The pages of ListSandboxesPage: following the cursors loses nothing and repeats nothing.
use text.Mathlib.TextPositions.{compare_refl}
use go_gvisor_containerd_let.Base.{
  take-drop, drop-drop, length-drop, length-take_short, take_all, nil-++, ℕ, zero, suc, ◌+◌, ◌-◌,
  ◌≤◌, ◌<◌, ℤ, ◌≡◌, refl, ap, sym, ◌∙◌, ◌⊎◌, inl, inr, lt→ltb, String, Bool, true, false, List, [],
  ◌∷◌, ◌++◌, arith, is_empty, str_eq, eq_iff, ltb, length, take, drop, if◌then◌else◌, Bool-cases,
}
use go_gvisor_containerd_let.Base.Order.{IsBelow, IsBelow-trans, IsBelow-asym, IsBelow-total}
use go_gvisor_containerd_let.Orch.Tables.{sort_by}
use go_gvisor_containerd_let.Orch.Tables.Rows.{All, Unique}
use go_gvisor_containerd_let.Orch.Tables.Order.{Ascending, All-sort_by, Ascending-sort_by}
use go_gvisor_containerd_let.Orch.Repo.Nodes.{string_lt}
use go_gvisor_containerd_let.Let.Types.{Sandbox}
use go_gvisor_containerd_let.Let.Pages.{
  page_limit, start_after, start_of, last_id, by_id, page_of, list_sandboxes_page,
}

string_lt_iff :
    (s t : String) → (string_lt s t ≡ true → IsBelow s t) × (IsBelow s t → string_lt s t ≡ true)
unfolding string_lt
string_lt_iff s t = (λ h. ground arith, λ h. ground arith)

abbrev pub same_id : Sandbox → Sandbox → Bool
same_id a b = str_eq b.id a.id

pub by_id_trans : (a x y : Sandbox) → by_id a x ≡ true → by_id x y ≡ true → by_id a y ≡ true
unfolding by_id
by_id_trans a x y h k =
    (string_lt_iff a.id y.id).1
      (IsBelow-trans a.id x.id y.id ((string_lt_iff a.id x.id).0 h) ((string_lt_iff x.id y.id).0 k))

by_id_asym : (a x : Sandbox) → by_id a x ≡ true → string_lt x.id a.id ≡ false
unfolding by_id
by_id_asym a x h = elim (Bool-cases (string_lt x.id a.id)) [
  | inl e ↦
      elim (IsBelow-asym a.id x.id ((string_lt_iff a.id x.id).0 h)
        ((string_lt_iff x.id a.id).0 e)) [ ]
  | inr e ↦ e
]

pub by_id_total : (a x : Sandbox) → same_id a x ≡ false → by_id a x ≡ false → by_id x a ≡ true
unfolding by_id
by_id_total a x d h = (string_lt_iff x.id a.id).1 (
    IsBelow-total a.id x.id (λ e. cc (h, (string_lt_iff a.id x.id).1 e))
      (λ e. ground (arith, eq_iff a.id x.id, eq_iff x.id a.id)))

irreflexive : (s : String) → string_lt s s ≡ false
unfolding string_lt
irreflexive s = ground (arith, compare_refl s)

id_at : ℕ → List Sandbox → String
id_at n [] = ""
id_at zero (s ∷ all) = s.id
id_at (suc n) (s ∷ all) = id_at n all

All-above :
    (cursor : String) (all : List Sandbox)
    → All (λ y. string_lt cursor y.id ≡ true) all
    → start_after cursor all ≡ 0
unfolding start_after
All-above cursor [] h = refl
All-above cursor (x ∷ all) h = rw h.0 refl

not_above :
    (s : Sandbox) (all : List Sandbox) (n : ℕ)
    → All (λ y. by_id s y ≡ true) all
    → n < length all
    → string_lt (id_at n all) s.id ≡ false
unfolding id_at
not_above s [] n h k = ground arith
not_above s (x ∷ all) zero h k = by_id_asym s x h.0
not_above s (x ∷ all) (suc n) h k = not_above s all n h.1 (omega arith)

-- The cursor of the n-th sandbox leads to the one behind it.
start_after-id_at :
    (all : List Sandbox) (n : ℕ)
    → Ascending by_id all
    → n < length all
    → start_after (id_at n all) all ≡ suc n
unfolding start_after id_at by_id
start_after-id_at [] n h k = ground arith
start_after-id_at (s ∷ all) zero h k = rw (irreflexive s.id) (ap suc (All-above s.id all h.0))
start_after-id_at (s ∷ all) (suc n) h k =
    rw (not_above s all n h.0 (omega arith)) (ap suc (start_after-id_at all n h.1 (omega arith)))

last_id-take : (ys : List Sandbox) (n : ℕ) → n < length ys → last_id (take (suc n) ys) ≡ id_at n ys
unfolding last_id id_at
last_id-take [] n h = ground arith
last_id-take (y ∷ ys) zero h = refl
last_id-take (y ∷ []) (suc n) h = ground arith
last_id-take (y ∷ z ∷ ys) (suc n) h = last_id-take (z ∷ ys) n (omega arith)

id_at-drop : (all : List Sandbox) (s n : ℕ) → id_at n (drop s all) ≡ id_at (s + n) all
unfolding id_at
id_at-drop all zero n = ap (λ m. id_at m all) (omega arith)
id_at-drop [] (suc s) n = refl
id_at-drop (x ∷ all) (suc s) n =
    let e : suc (s + n) ≡ suc s + n = omega arith in
    id_at-drop all s n ∙ ap (λ m. id_at m (x ∷ all)) e

id_at-named :
    (all : List Sandbox) (n : ℕ)
    → All (λ s. is_empty s.id ≡ false) all
    → n < length all
    → is_empty (id_at n all) ≡ false
unfolding id_at
id_at-named [] n h k = ground arith
id_at-named (x ∷ all) zero h k = h.0
id_at-named (x ∷ all) (suc n) h k = id_at-named all n h.1 (omega arith)

not_below : (a b : ℕ) → b ≤ a → ltb a b ≡ false
not_below a b h = ground arith

ltb_cases : (a b : ℕ) → (a < b) ⊎ (b ≤ a)
ltb_cases a b = ground arith

-- What is still to come at a cursor.
abbrev pub remaining : List Sandbox → String → List Sandbox
remaining all cursor = drop (start_of cursor all) all

abbrev pub and_then : String → List Sandbox → List Sandbox
and_then next rest = if is_empty next then [] else rest

module _ (all : List Sandbox) (start n : ℕ) (k : start ≤ length all) where
  abbrev rest : List Sandbox
  rest = drop start all

  -- More is to come: the cursor is the id of the last sandbox on the page.
  next_more : start + suc n < length all → (page_of all start (suc n)).1 ≡ id_at (start + n) all
  unfolding page_of
  next_more h = rw (length-take_short (suc n) rest (omega (arith, length-drop start all))) (
      rw (lt→ltb (start + suc n) (length all) h, lt→ltb 0 (suc n) (omega arith))
        (last_id-take rest n (omega (arith, length-drop start all)) ∙ id_at-drop all start n))

  next_done : length all ≤ start + suc n → (page_of all start (suc n)).1 ≡ ""
  unfolding page_of
  next_done h = rw (take_all (suc n) rest (omega (arith, length-drop start all))) (
      rw (length-drop start all)
        (rw (not_below (start + (length all - start)) (length all) (omega arith)) refl))

  page_of-continues :
      Ascending by_id all
      → All (λ s. is_empty s.id ≡ false) all
      → rest
        ≡ (page_of all start (suc n)).0
          ++ and_then (page_of all start (suc n)).1 (remaining all (page_of all start (suc n)).1)
  unfolding page_of start_of
  page_of-continues h named = elim (ltb_cases (start + suc n) (length all)) [
    | inl e ↦ rw (next_more e) (
        rw (id_at-named all (start + n) named (omega arith)) (
          rw (start_after-id_at all (start + n) h (omega arith)) (
            let e : start + suc n ≡ suc (start + n) = omega arith in
            sym (take-drop (suc n) rest)
            ∙ ap (λ ys. take (suc n) rest ++ ys)
                (drop-drop (suc n) start all ∙ ap (λ m. drop m all) e))))
    | inr e ↦
        rw (next_done e)
          (rw (take_all (suc n) rest (omega (arith, length-drop start all))) (sym (nil-++ rest)))
  ]

start_after-bound : (cursor : String) (all : List Sandbox) → start_after cursor all ≤ length all
unfolding start_after
start_after-bound cursor [] = omega arith
start_after-bound cursor (s ∷ all) = elim (Bool-cases (string_lt cursor s.id)) [
  | inl e ↦ rw e (omega arith)
  | inr e ↦ rw e (omega (arith, start_after-bound cursor all))
]

start_of-bound : (cursor : String) (all : List Sandbox) → start_of cursor all ≤ length all
unfolding start_of
start_of-bound cursor all = elim (Bool-cases (is_empty cursor)) [
  | inl e ↦ rw e (omega arith)
  | inr e ↦ rw e (start_after-bound cursor all)
]

page_limit-positive : (limit : ℤ) → (n : ℕ) × (page_limit limit ≡ suc n)
unfolding page_limit
page_limit-positive limit = (page_limit limit - 1, ground arith)

-- Where the ids are distinct and not empty, a page and its next cursor lose nothing and repeat nothing:
-- what is to come at a cursor, in the order of the ids, is the page, followed by what is to come at
-- the next cursor, or by nothing where that is empty.
pub list_sandboxes_page-continues :
    (listed : List Sandbox) (cursor : String) (limit : ℤ)
    → Unique same_id listed
    → All (λ s. is_empty s.id ≡ false) listed
    → remaining (sort_by by_id listed) cursor
      ≡ (list_sandboxes_page listed cursor limit).0
        ++ and_then
            (list_sandboxes_page listed cursor limit).1
            (remaining (sort_by by_id listed) (list_sandboxes_page listed cursor limit).1)
unfolding list_sandboxes_page
list_sandboxes_page-continues listed cursor limit u named =
    let all = sort_by by_id listed in
    let (n, e) = page_limit-positive limit in
    rw e (
      page_of-continues all (start_of cursor all) n (start_of-bound cursor all)
        (Ascending-sort_by by_id same_id by_id_trans by_id_total listed u)
        (All-sort_by by_id (λ s. is_empty s.id ≡ false) listed named))

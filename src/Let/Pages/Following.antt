-- ===== src/Let/Pages/Following.antt =====
-- A client that follows the cursors of ListSandboxesPage (sandboxd-let/sandbox/service.go).
use mathlib.Core.List.{Perm}
use go_gvisor_containerd_let.Base.{
  length-Perm, ℕ, zero, suc, ◌+◌, ◌<◌, ℤ, ◌≡◌, refl, ap, sym, ◌∙◌, inl, inr, Bool, true, false,
  ◌&&◌, String, Option, none, some, List, [], ◌∷◌, ◌++◌, arith, is_empty, ltb, length, take, drop,
  if◌then◌else◌, Bool-cases, nil-++,
}
use go_gvisor_containerd_let.Orch.Tables.{sort_by}
use go_gvisor_containerd_let.Orch.Tables.Rows.{All, Unique}
use go_gvisor_containerd_let.Orch.Tables.Order.{Ascending, Ascending-sort_by, Perm-sort_by}
use go_gvisor_containerd_let.Let.Types.{Sandbox}
use go_gvisor_containerd_let.Let.Pages.{
  by_id, page_of, start_of, last_id, page_limit, list_sandboxes_page,
}
use go_gvisor_containerd_let.Let.Pages.Cursors.{
  same_id, by_id_trans, by_id_total, remaining, list_sandboxes_page-continues,
}

abbrev pub after_page : List Sandbox → Option (List Sandbox) → Option (List Sandbox)
after_page page none = none
after_page page (some rest) = some (page ++ rest)

abbrev pub unless_last :
    List Sandbox × String → (String → Option (List Sandbox)) → Option (List Sandbox)
unless_last (page, next) follow = if is_empty next then some page else after_page page (follow next)

-- All that is read from a cursor on, in so many pages at most.
pub follow : List Sandbox → ℤ → ℕ → String → Option (List Sandbox)
follow listed limit zero cursor = none
follow listed limit (suc pages) cursor =
    unless_last (list_sandboxes_page listed cursor limit) (follow listed limit pages)

none_left :
    (page : List Sandbox) (more : Bool)
    → ltb 0 (length page) ≡ false
    → ¬ (is_empty (if more && ltb 0 (length page) then last_id page else "") ≡ false)
none_left [] true e h = cc
none_left [] false e h = cc
none_left (x ∷ page) more e h = ground arith

length-append : (xs ys : List Sandbox) → length (xs ++ ys) ≡ length xs + length ys
length-append [] ys = omega arith
length-append (x ∷ xs) ys = omega (arith, length-append xs ys)

-- A page with a cursor behind it is not empty.
page_of-progress :
    (all : List Sandbox) (start n : ℕ)
    → is_empty (page_of all start n).1 ≡ false
    → 0 < length (page_of all start n).0
unfolding page_of
page_of-progress all start n h =
    let page = take n (drop start all) in
    elim (Bool-cases (ltb 0 (length page))) [
      | inl e ↦ ground arith
      | inr e ↦ absurd (none_left page (ltb (start + length page) (length all)) e h)
    ]

module _ (listed : List Sandbox) (limit : ℤ) (distinct : Unique same_id listed)
    (named : All (λ s. is_empty s.id ≡ false) listed) where
  abbrev all : List Sandbox
  all = sort_by by_id listed

  progress :
      (cursor : String)
      → is_empty (list_sandboxes_page listed cursor limit).1 ≡ false
      → 0 < length (list_sandboxes_page listed cursor limit).0
  unfolding list_sandboxes_page
  progress cursor h = page_of-progress all (start_of cursor all) (page_limit limit) h

  follow-remaining :
      (pages : ℕ) (cursor : String)
      → length (remaining all cursor) < pages
      → follow listed limit pages cursor ≡ some (remaining all cursor)
  unfolding follow
  follow-remaining zero cursor h = elim h [ ]
  follow-remaining (suc pages) cursor h =
      let p = list_sandboxes_page listed cursor limit in
      let split = list_sandboxes_page-continues listed cursor limit distinct named in
      elim (Bool-cases (is_empty p.1)) [
        | inl last ↦
            let ended : remaining all cursor ≡ p.0 ++ [] = rw last at split in
            rw last (ap some (sym (ended ∙ nil-++ p.0)))
        | inr more ↦
            let onward : remaining all cursor ≡ p.0 ++ remaining all p.1 = rw more at split in
            let sizes = ap length onward ∙ length-append p.0 (remaining all p.1) in
            let grown = progress cursor more in
            rw (more, follow-remaining pages p.1 (omega arith)) (ap some (sym onward))
      ]

  start : remaining all "" ≡ all
  unfolding start_of
  start = refl

  -- Where the ids are distinct and not empty and the store does not change, a client that starts without
  -- a cursor and follows the cursors comes to an end within one page more than there are sandboxes,
  -- whatever its limit, and has then read every sandbox once, in the order of the ids.
  pub follow-all :
      (pages : ℕ)
      → length listed < pages
      → (read : List Sandbox) × (follow listed limit pages "" ≡ some read)
        × Ascending by_id read
        × Perm read listed
  follow-all pages h =
      let same = Perm-sort_by by_id listed in
      (
        all,
        follow-remaining pages "" (rw (start, length-Perm same) h) ∙ ap some start,
        Ascending-sort_by by_id same_id by_id_trans by_id_total listed distinct,
        same,
      )

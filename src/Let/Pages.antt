-- ===== src/Let/Pages.antt =====
-- ListSandboxesPage (sandboxd-let/sandbox/service.go). What refreshSandboxRuntimeState writes into the
-- copies on the page, which keeps their ids, is left out.
pub mod Cursors
pub mod Following
use go_gvisor_containerd_let.Base.{
  ℕ, zero, suc, ◌+◌, ℤ, pos, pos_part, leb_ℤ, ltb_ℤ, ltb, String, Bool, true, false, ◌&&◌, List, [],
  ◌∷◌, is_empty, length, take, drop, if◌then◌else◌,
}
use go_gvisor_containerd_let.Orch.Tables.{sort_by}
use go_gvisor_containerd_let.Orch.Repo.Nodes.{string_lt}
use go_gvisor_containerd_let.Let.Types.{Sandbox}

unfoldable pub page_limit : ℤ → ℕ
page_limit limit =
    if leb_ℤ limit (pos 0) then 20 else if ltb_ℤ (pos 200) limit then 200 else pos_part limit

-- The loop for `start`: the first index with an id above the cursor, or the length.
unfoldable pub start_after : String → List Sandbox → ℕ
start_after cursor [] = 0
start_after cursor (s ∷ all) =
    let rest = start_after cursor all in if string_lt cursor s.id then 0 else suc rest

unfoldable pub start_of : String → List Sandbox → ℕ
unfolding start_after
start_of cursor all = if is_empty cursor then 0 else start_after cursor all

-- `page[len(page)-1].ID`.
unfoldable pub last_id : List Sandbox → String
last_id [] = ""
last_id (s ∷ []) = s.id
last_id (s ∷ t ∷ page) = last_id (t ∷ page)

unfoldable pub by_id : Sandbox → Sandbox → Bool
unfolding string_lt
by_id a b = string_lt a.id b.id

-- The loop for `page`, and `nextCursor`, on the sorted list.
unfoldable pub page_of : List Sandbox → ℕ → ℕ → List Sandbox × String
unfolding last_id
page_of all start limit =
    let page = take limit (drop start all) in
    (
      page,
      if ltb (start + length page) (length all) && ltb 0 (length page) then last_id page else "",
    )

unfoldable pub list_sandboxes_page : List Sandbox → String → ℤ → List Sandbox × String
unfolding page_limit start_of by_id page_of
list_sandboxes_page listed cursor limit =
    let all = sort_by by_id listed in page_of all (start_of cursor all) (page_limit limit)

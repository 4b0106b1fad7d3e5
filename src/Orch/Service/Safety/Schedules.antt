-- ===== src/Orch/Service/Safety/Schedules.antt =====
-- The scheduler keeps what the store's methods keep.
use go_gvisor_containerd_let.Base.{ℕ, zero, suc, ℤ, String, List, [], ◌∷◌}
use go_gvisor_containerd_let.Orch.Types.{Node, Sandbox, SandboxStatusesResponse}
use go_gvisor_containerd_let.Orch.Tables.{Db}
use go_gvisor_containerd_let.Orch.World.{Error, Result, ok, err, M}
use go_gvisor_containerd_let.Orch.World.Keeps.{
  Keeps, Keeps-bind, Keeps-attempt, Keeps-if, Keeps-pure, Keeps-read_clock, keeps_rules,
}
use go_gvisor_containerd_let.Orch.Service.Scheduler.{
  Candidate, try_ports, candidate_ports, candidates, mark_failed, created_on_node, create_failed,
  after_create, start_on_node, after_reserve, place, schedule_request, schedule_among, schedule_one,
  schedule_pending, schedule_listed, run_scheduler_once, write_ip, refresh_answer, refresh_rounds,
  refresh_with_client, refresh_sandbox_ip_soon,
}
use go_gvisor_containerd_let.Orch.Service.Safety.Parts.{
  StoreKeeps, client_for_node-Keeps, create_sandbox_on_node-Keeps, fetch_sandbox_ip_once-Keeps,
  Keeps-sandbox_statuses,
}
use go_gvisor_containerd_let.Orch.Service.Safety.Deletes.{adjust_node_usage_for_sandbox-Keeps}

module _ {Inv : Db → Type 0} (s : StoreKeeps Inv) where
  try_ports-Keeps : (sbx : Sandbox) (n : Node) (r : Result (List ℕ)) → Keeps Inv (try_ports sbx n r)
  unfolding try_ports
  try_ports-Keeps sbx n (ok used) = search keeps_rules
  try_ports-Keeps sbx n (err e) = search keeps_rules

  candidate_ports-Keeps :
      (cpu mem : ℤ) (sbx : Sandbox) (n : Node) → Keeps Inv (candidate_ports cpu mem sbx n)
  unfolding candidate_ports
  candidate_ports-Keeps cpu mem sbx n = search (keeps_rules, s.reads_ports, try_ports-Keeps)

  candidates-Keeps :
      (cpu mem : ℤ) (sbx : Sandbox) (ns : List Node) → Keeps Inv (candidates cpu mem sbx ns)
  unfolding candidates
  candidates-Keeps cpu mem sbx [] = search keeps_rules
  candidates-Keeps cpu mem sbx (n ∷ ns) =
      Keeps-bind _ _ (candidate_ports-Keeps cpu mem sbx n)
        (λ ports. Keeps-bind _ _ (candidates-Keeps cpu mem sbx ns) (λ rest. Keeps-pure _))

  mark_failed-Keeps : (sbx : Sandbox) (msg : String) → Keeps Inv (mark_failed sbx msg)
  unfolding mark_failed
  mark_failed-Keeps sbx msg = search (keeps_rules, s.updates_status)

  created_on_node-Keeps : (sbx : Sandbox) → Keeps Inv (created_on_node sbx)
  unfolding created_on_node
  created_on_node-Keeps sbx =
      search
        (
          keeps_rules,
          s.gets_node,
          s.updates_status,
          fetch_sandbox_ip_once-Keeps s,
          adjust_node_usage_for_sandbox-Keeps s,
        )
        depth 9

  create_failed-Keeps : (sbx : Sandbox) (e : Error) → Keeps Inv (create_failed sbx e)
  unfolding create_failed
  create_failed-Keeps sbx e = search (keeps_rules, mark_failed-Keeps, s.releases)

  after_create-Keeps : (sbx : Sandbox) (r : Result (Unit {0})) → Keeps Inv (after_create sbx r)
  unfolding after_create
  after_create-Keeps sbx (ok a) = created_on_node-Keeps sbx
  after_create-Keeps sbx (err e) = create_failed-Keeps sbx e

  start_on_node-Keeps : (n : Node) (r : Result Sandbox) → Keeps Inv (start_on_node n r)
  unfolding start_on_node
  start_on_node-Keeps n (ok sbx) =
      search (keeps_rules, create_sandbox_on_node-Keeps s, after_create-Keeps)
  start_on_node-Keeps n (err e) = search keeps_rules

  after_reserve-Keeps :
      (sbx : Sandbox) (n : Node) (r : Result (Unit {0})) → Keeps Inv (after_reserve sbx n r)
  unfolding after_reserve
  after_reserve-Keeps sbx n (ok a) = search (keeps_rules, s.gets_sandbox, start_on_node-Keeps)
  after_reserve-Keeps sbx n (err e) = search (keeps_rules, mark_failed-Keeps)

  place-Keeps : (sbx : Sandbox) (cs : List Candidate) → Keeps Inv (place sbx cs)
  unfolding place
  place-Keeps sbx [] = mark_failed-Keeps sbx _
  place-Keeps sbx (chosen ∷ rest) = search (keeps_rules, s.reserves, after_reserve-Keeps)

  schedule_request-Keeps :
      (sbx : Sandbox) (ns : List Node) (r : Result (ℤ × ℤ)) → Keeps Inv (schedule_request sbx ns r)
  unfolding schedule_request
  schedule_request-Keeps sbx ns (ok need) = search (keeps_rules, candidates-Keeps, place-Keeps)
  schedule_request-Keeps sbx ns (err e) = mark_failed-Keeps sbx _

  schedule_among-Keeps : (sbx : Sandbox) (r : Result (List Node)) → Keeps Inv (schedule_among sbx r)
  unfolding schedule_among
  schedule_among-Keeps sbx (ok ns) = search (keeps_rules, schedule_request-Keeps)
  schedule_among-Keeps sbx (err e) = search keeps_rules

  pub schedule_one-Keeps : (sbx : Sandbox) → Keeps Inv (schedule_one sbx)
  unfolding schedule_one
  schedule_one-Keeps sbx = Keeps-bind _ _ (Keeps-attempt _ s.lists_nodes) (schedule_among-Keeps sbx)

  schedule_pending-Keeps : (sbx : Sandbox) → Keeps Inv (schedule_pending sbx)
  unfolding schedule_pending
  schedule_pending-Keeps sbx = search (keeps_rules, schedule_one-Keeps)

  schedule_listed-Keeps : (r : Result (List Sandbox)) → Keeps Inv (schedule_listed r)
  unfolding schedule_listed
  schedule_listed-Keeps (ok sandboxes) = search (keeps_rules, schedule_pending-Keeps)
  schedule_listed-Keeps (err e) = search keeps_rules

  pub run_scheduler_once-Keeps : Keeps Inv run_scheduler_once
  unfolding run_scheduler_once
  run_scheduler_once-Keeps =
      Keeps-bind _ _ (Keeps-attempt _ s.lists_sandboxes) schedule_listed-Keeps

  write_ip-Keeps : (ip : String) (r : Result Sandbox) → Keeps Inv (write_ip ip r)
  unfolding write_ip
  write_ip-Keeps ip (ok latest) = search (keeps_rules, s.updates_if_unchanged)
  write_ip-Keeps ip (err e) = search keeps_rules

  refresh_answer-Keeps :
      (id : String) (r : Result SandboxStatusesResponse) (again : M (Unit {0}))
      → Keeps Inv again
      → Keeps Inv (refresh_answer id r again)
  unfolding refresh_answer
  refresh_answer-Keeps id (ok st) again k = search (keeps_rules, s.gets_sandbox, write_ip-Keeps)
  refresh_answer-Keeps id (err e) again k = search keeps_rules

  refresh_rounds-Keeps :
      (n deadline : ℕ) (url id : String) → Keeps Inv (refresh_rounds n deadline url id)
  unfolding refresh_rounds
  refresh_rounds-Keeps zero deadline url id = search keeps_rules
  refresh_rounds-Keeps (suc n) deadline url id =
      Keeps-bind _ _ (Keeps-attempt _ (Keeps-sandbox_statuses url _)) (λ st.
        refresh_answer-Keeps id st _ (
          Keeps-bind _ _ Keeps-read_clock (λ now.
            Keeps-if _ _ _ (λ _. Keeps-pure tt) (λ _. refresh_rounds-Keeps n deadline url id))))

  refresh_with_client-Keeps :
      (deadline : ℕ) (id : String) (r : Result String)
      → Keeps Inv (refresh_with_client deadline id r)
  unfolding refresh_with_client
  refresh_with_client-Keeps deadline id (ok url) = refresh_rounds-Keeps 10 deadline url id
  refresh_with_client-Keeps deadline id (err e) = search keeps_rules

  pub refresh_sandbox_ip_soon-Keeps :
      (id node : String) → Keeps Inv (refresh_sandbox_ip_soon id node)
  unfolding refresh_sandbox_ip_soon
  refresh_sandbox_ip_soon-Keeps id node =
      search (keeps_rules, client_for_node-Keeps s, refresh_with_client-Keeps)

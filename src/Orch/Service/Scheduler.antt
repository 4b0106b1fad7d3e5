-- ===== src/Orch/Service/Scheduler.antt =====
-- The scheduler (sandboxd-orch/service/sandbox_ops.go): runSchedulerOnce, scheduleOne and
-- refreshSandboxIPSoon.
pub mod Choice
use go_gvisor_containerd_let.Base.{
  ℕ, zero, suc, ℤ, ◌-ℤ◌, ◌+◌, int64, ltb_ℤ, eqb_ℤ, leb, String, Bool, true, false, ◌&&◌, ◌||◌, not,
  Option, none, some, List, [], ◌∷◌, str_eq, is_empty, trim_space, if◌then◌else◌,
}
use go_gvisor_containerd_let.Orch.Types.{
  is_ready, is_pending, is_deleting, failed, running, Node, Sandbox, SandboxStatus,
  SandboxPortAssign, SandboxStatusesResponse,
}
use go_gvisor_containerd_let.Orch.Tables.{sort_by}
use go_gvisor_containerd_let.Orch.World.{
  Error, Result, ok, err, M, pure, gets, ◌>>=◌, ◌>>◌, attempt, ignore, tick, read_clock, for_each,
  error_text, is_port_conflict,
}
use go_gvisor_containerd_let.Orch.Repo.Sandboxes.{
  get_sandbox, list_sandboxes, update_sandbox_status, update_sandbox_status_if_unchanged,
  reserve_sandbox_ports_and_schedule, release_sandbox_ports, node_used_host_ports,
}
use go_gvisor_containerd_let.Orch.Repo.Nodes.{get_node, list_nodes, string_lt}
use go_gvisor_containerd_let.Orch.Service.Requests.{sandbox_resource_request}
use go_gvisor_containerd_let.Orch.Service.Ports.{allocate_host_ports}
use go_gvisor_containerd_let.Orch.Service.Clients.{
  client_for_node, sandbox_statuses, create_sandbox_on_node, fetch_sandbox_ip_once, first_ip,
}
use go_gvisor_containerd_let.Orch.Service.Health.{or_none}
use go_gvisor_containerd_let.Orch.Service.Delete.{adjust_node_usage_for_sandbox}

pub record Candidate : Type 0 where
  pub node : Node
  pub ports : List SandboxPortAssign

-- The node is Ready and has the resources.
unfoldable pub has_room : ℤ → ℤ → Node → Bool
has_room cpu mem n =
    is_ready n.state
    && not (ltb_ℤ n.resources.available_cpu_milli cpu || ltb_ℤ n.resources.available_memory mem)

unfoldable pub keep_candidate :
    Node → Option (List SandboxPortAssign) → List Candidate → List Candidate
keep_candidate n none rest = rest
keep_candidate n (some ports) rest = record { node = n; ports = ports } ∷ rest

-- One round of the loop over the nodes; the shuffle takes a number of its own.
unfoldable pub try_ports : Sandbox → Node → Result (List ℕ) → M (Option (List SandboxPortAssign))
try_ports sbx n (err e) = pure none
try_ports sbx n (ok used) = do
  k ← tick
  gets (λ w.
      allocate_host_ports (w.env.shuffle k) sbx.spec.ports used w.cfg.host_port_min
        w.cfg.host_port_max)

unfoldable pub candidate_ports : ℤ → ℤ → Sandbox → Node → M (Option (List SandboxPortAssign))
unfolding try_ports
candidate_ports cpu mem sbx n =
    if has_room cpu mem n
    then (do used ← attempt (node_used_host_ports n.id); try_ports sbx n used)
    else pure none

unfoldable pub candidates : ℤ → ℤ → Sandbox → List Node → M (List Candidate)
unfolding keep_candidate
candidates cpu mem sbx [] = pure []
candidates cpu mem sbx (n ∷ ns) = do
  ports ← candidate_ports cpu mem sbx n
  rest ← candidates cpu mem sbx ns
  pure (keep_candidate n ports rest)

-- The order of sort.Slice: the most CPU left over first, then the least id.
unfoldable pub before : ℤ → Candidate → Candidate → Bool
before cpu a b =
    let lhs = int64 (a.node.resources.available_cpu_milli -ℤ cpu) in
    let rhs = int64 (b.node.resources.available_cpu_milli -ℤ cpu) in
    if eqb_ℤ lhs rhs then string_lt a.node.id b.node.id else ltb_ℤ rhs lhs

unfoldable pub ranked : ℤ → List Candidate → List Candidate
unfolding before
ranked cpu cands = sort_by (before cpu) cands

-- `_ = UpdateSandboxStatus` with the phase Failed.
unfoldable pub mark_failed : Sandbox → String → M (Unit {0})
mark_failed sbx msg =
    ignore (update_sandbox_status sbx.id (record sbx.status { phase = failed; last_error = msg }))

unfoldable pub latest_external : Result Node → SandboxStatus → SandboxStatus
latest_external (err e) st = st
latest_external (ok n) st = record st { external = or_none (trim_space n.resources.external) }

unfoldable pub with_ip : String → SandboxStatus → SandboxStatus
with_ip ip st = if is_empty ip then st else record st { ip = ip }

-- What follows a CreateSandbox that the node has answered.
unfoldable pub created_on_node : Sandbox → M (Unit {0})
unfolding latest_external with_ip
created_on_node fresh = do
  latest ← attempt (get_node fresh.status.node_name)
  let st = record (latest_external latest fresh.status) { phase = running; last_error = "" }
  ip ← fetch_sandbox_ip_once fresh.status.node_name fresh.id
  ignore (update_sandbox_status fresh.id (with_ip ip st))
  ignore (adjust_node_usage_for_sandbox fresh.status.node_name fresh.spec true)

unfoldable pub create_failed : Sandbox → Error → M (Unit {0})
unfolding mark_failed
create_failed fresh e = do mark_failed fresh (error_text e); ignore (release_sandbox_ports fresh.id)

unfoldable pub after_create : Sandbox → Result (Unit {0}) → M (Unit {0})
after_create fresh (ok a) = created_on_node fresh
after_create fresh (err e) = create_failed fresh e

unfoldable pub start_on_node : Node → Result Sandbox → M (Unit {0})
unfolding after_create
start_on_node n (err e) = pure tt
start_on_node n (ok sbx) = do
  let fresh = record sbx {
    status = record sbx.status { external = or_none (trim_space n.resources.external) };
  }
  r ← attempt (create_sandbox_on_node fresh)
  after_create fresh r

-- A conflict leaves the sandbox pending, for the next tick.
unfoldable pub after_reserve : Sandbox → Node → Result (Unit {0}) → M (Unit {0})
unfolding start_on_node mark_failed
after_reserve sbx n (ok a) = do fresh ← attempt (get_sandbox sbx.id); start_on_node n fresh
after_reserve sbx n (err e) = if is_port_conflict e then pure tt else mark_failed sbx (error_text e)

unfoldable pub place : Sandbox → List Candidate → M (Unit {0})
unfolding after_reserve
place sbx [] = mark_failed sbx "no feasible node for resources/ports"
place sbx (chosen ∷ others) = do
  r ← attempt (reserve_sandbox_ports_and_schedule sbx.id chosen.node.id chosen.ports)
  after_reserve sbx chosen.node r

unfoldable pub schedule_request : Sandbox → List Node → Result (ℤ × ℤ) → M (Unit {0})
unfolding ranked
schedule_request sbx nodes (err e) = mark_failed sbx (error_text e)
schedule_request sbx nodes (ok need) = do
  cands ← candidates need.0 need.1 sbx nodes
  place sbx (ranked need.0 cands)

unfoldable pub schedule_among : Sandbox → Result (List Node) → M (Unit {0})
unfolding schedule_request
schedule_among sbx (err e) = pure tt
schedule_among sbx (ok nodes) = do
  parse ← gets (λ w. w.env.parse_quantity)
  schedule_request sbx nodes (sandbox_resource_request parse sbx.spec)

unfoldable pub schedule_one : Sandbox → M (Unit {0})
unfolding schedule_among
schedule_one sbx = do nodes ← attempt list_nodes; schedule_among sbx nodes

unfoldable pub schedule_pending : Sandbox → M (Unit {0})
schedule_pending sbx = if is_pending sbx.status.phase then schedule_one sbx else pure tt

unfoldable pub schedule_listed : Result (List Sandbox) → M (Unit {0})
unfolding schedule_pending
schedule_listed (err e) = pure tt
schedule_listed (ok sandboxes) = for_each schedule_pending sandboxes

unfoldable pub run_scheduler_once : M (Unit {0})
unfolding schedule_listed
run_scheduler_once = do listed ← attempt list_sandboxes; schedule_listed listed

unfoldable pub write_ip : String → Result Sandbox → M (Unit {0})
write_ip ip (err e) = pure tt
write_ip ip (ok latest) =
    if str_eq latest.status.ip ip || is_deleting latest.status.phase
    then pure tt
    else ignore (
        update_sandbox_status_if_unchanged latest.id (record latest.status { ip = ip })
          latest.updated_at)

unfoldable pub refresh_answer :
    String → Result SandboxStatusesResponse → M (Unit {0}) → M (Unit {0})
unfolding write_ip
refresh_answer id (err e) again = pure tt
refresh_answer id (ok st) again =
    if is_empty (first_ip st.items)
    then again
    else do latest ← attempt (get_sandbox id); write_ip (first_ip st.items) latest

-- The rounds that are left. The context ends the wait between two of them after three seconds.
unfoldable pub refresh_rounds : ℕ → ℕ → String → String → M (Unit {0})
unfolding refresh_answer
refresh_rounds zero deadline url id = pure tt
refresh_rounds (suc n) deadline url id = do
  st ← attempt (sandbox_statuses url (id ∷ []))
  refresh_answer id st
      (do now ← read_clock; if leb deadline now then pure tt else refresh_rounds n deadline url id)

unfoldable pub refresh_with_client : ℕ → String → Result String → M (Unit {0})
refresh_with_client deadline id (err e) = pure tt
refresh_with_client deadline id (ok url) = refresh_rounds 10 deadline url id

unfoldable pub refresh_sandbox_ip_soon : String → String → M (Unit {0})
unfolding refresh_with_client
refresh_sandbox_ip_soon id node = do
  now ← read_clock
  client ← attempt (client_for_node node)
  refresh_with_client (now + 3_000_000_000) id client

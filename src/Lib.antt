-- ===== src/Lib.antt =====
-- sandboxd: an orchestrator (sandboxd-orch) that keeps nodes, sandboxes and external addresses in SQLite,
-- schedules sandboxes on nodes and asks the nodes' agents to create and delete them; and the agent of a
-- node (sandboxd-let), which checks requests, reserves host ports and watches its sandboxes.
--
-- How the parts of the orchestrator interact. Requests of the API and the ticks of five loops run concurrently; each is an
-- action on a `World` (Orch/World.antt): the tables, the resource cache, and an environment that a
-- counter of external events indexes. Before each SQL statement the environment may change the tables
-- as other goroutines do (`others`), a statement may fail (`fault`), and clocks, shuffles and the
-- answers of node agents are functions of the counter. A transaction has the store's one connection,
-- so nobody interferes inside it, and an error rolls it back.
--
-- Which file models which part:
--   Base/*                     Boolean tests, int64 with its wrap-around, text, numbers as text, lists over
--                              native numbers
--   Orch/Types.antt            sandboxd-orch/types/types.go and the messages of sandboxd-orch/client
--   Orch/Settings.antt         the repairs of Load in sandboxd-orch/config/config.go; Settings/Usable.antt
--   Orch/Cache.antt            sandboxd-orch/cache/resource_cache.go: PutCurrent, MarkPersisted, Delete,
--                              ShouldPersist; Cache/Throttle.antt proves the write rule
--   Orch/Tables.antt           the tables of `migrate` and the SQL verbs; Tables/Rows.antt and
--                              Tables/Order.antt have the lemmas on keys, references and sorting
--   Orch/World.antt            effects; World/Keeps.antt, Holds.antt, Calm.antt and Fails.antt are the rules by
--                              which an invariant, a postcondition, the outcome in a calm environment,
--                              or what a failure leaves follows from the parts of an action
--   Orch/Repo/Sandboxes.antt   sandboxd-orch/repo/sandbox_repo.go; Sandboxes/Reserve.antt and
--                              Sandboxes/Cas.antt are about its transaction and its compare-and-swap
--   Orch/Repo/Nodes.antt       sandboxd-orch/repo/node_repo.go, nodes; Nodes/Usage.antt: the usage figures
--   Orch/Repo/Externals.antt   the same file, external objects; Externals/Binding.antt: their bindings
--   Orch/Repo/Timestamps.antt  RFC 3339 texts as ORDER BY compares them
--   Orch/Repo/Invariant.antt   consistency of the tables, and each method of the store (Invariant/*)
--   Orch/Service/Requests.antt the checks of requests (service/sandbox_ops.go, validation.go); Requests/Validity.antt
--                              and Requests/Amounts.antt
--   Orch/Service/Ports.antt    allocateHostPorts; Ports/Allocation.antt, Ports/Refusal.antt
--   Orch/Service/Clients.antt  the calls of node agents
--   Orch/Service/Health.antt   probeNode and syncNodeResources (service/node_ops.go); Health/Streaks.antt
--   Orch/Service/Delete.antt   creation, deletion and reconciliation of sandboxes; Delete/Creation.antt,
--                              Cleanup.antt, Failures.antt and Rounds.antt
--   Orch/Service/Scheduler.antt scheduleOne, runSchedulerOnce, refreshSandboxIPSoon; Scheduler/Choice.antt
--   Orch/Service/Sync.antt     the status sync; Sync/Merge.antt: mergeSandboxPhaseWithNodeState;
--                              Sync/Deletions.antt and Sync/Races.antt: sandboxes in
--                              Deleting
--   Orch/Service/NodeOps.antt  nodes and external objects (service/node_ops.go)
--   Orch/Service/Safety.antt   the requests and ticks as one data type; Safety/* carries the invariants
--                              of the store through every handler, over the interface `StoreKeeps`
--   Orch/Tests.antt            sample data; Tests/* applies each theorem to it
--
-- The agent keeps a store of sandboxes, the host ports that creations in progress have reserved, and a
-- record of unhealthy sandboxes. A creation holds the lock of its sandbox and, in turn, those of the
-- ports and of admission, and leaves the work with the container runtime to a goroutine, which takes
-- the sandbox's lock again; deletions and reconcile rounds come in between. Each such operation is a
-- function of the state and of an environment that answers for the runtime, the disk and the locks.
--
--   Let/Types.antt             sandboxd-let/model/types.go
--   Let/Validate.antt          sandboxd-let/model/validate.go; Validate/Accepted.antt
--   Let/Ports.antt             host ports in sandboxd-let/sandbox/service.go; Ports/Exclusion.antt
--   Let/Pages.antt             ListSandboxesPage in the same file; Pages/Cursors.antt and
--                              Pages/Following.antt
--   Let/Health.antt            sandboxd-let/sandbox/reconcile.go and state.go: ReconcileOnce;
--                              Health/Grace.antt and Health/Rounds.antt
--   Let/Runtime.antt           refreshSandboxRuntimeState in sandboxd-let/sandbox/runtime.go;
--                              Runtime/Phases.antt
--   Let/Admission.antt         sandboxd-let/sandbox/resources.go, with Admission/Quantities.antt for the
--                              quantities of a request; Admission/Totals.antt and Bounds.antt
--   Let/Sandboxes.antt         what the service keeps, its store, its locks and a new sandbox
--                              (sandboxd-let/sandbox/service.go, state.go, lock.go)
--   Let/Provision.antt         provisionSandboxSync in sandboxd-let/sandbox/service.go
--   Let/Lifecycle.antt         createSandbox, provisionSandbox, markSandboxError and DeleteSandbox in the
--                              same file; Lifecycle/Created.antt has the guards that a creation has
--                              passed, Admitted.antt, Released.antt, Settled.antt and Deleted.antt
--                              what the four operations keep
--   Let/Logs.antt              sandboxd-let/sandbox/logs.go; Logs/Paging.antt
--   Let/Files.antt             sandboxd-let/store/file_store.go, with the functions of os as an interface;
--                              Files/Disk.antt has their laws, Files/Listing.antt and Files/Contents.antt
--                              what is listed and found, and Files/Refinement.antt relates it to the
--                              list of sandboxes that the other modules of the agent keep
--   Let/Firewall.antt          sandboxd-let/network/firewall.go; Firewall/Rules.antt has the rules as lists
--                              of words, Firewall/Published.antt the ports that are published and taken back,
--                              Firewall/Orphans.antt the deletion of orphans, Firewall/Chains.antt
--                              the global chains and the nameservers
--   Let/Tests.antt             sample data for the agent; Tests/* and it apply the theorems to it
--
-- Bounds and fuel. Loops over collections recur on the list. refreshSandboxIPSoon has the ten rounds of
-- the source. `batches` is given one round for each sandbox, which suffices as each round takes at least
-- one. `decimal` is given one round more than the number. A client that follows the cursors of a log
-- is given one page more than the file has bytes, as each page but the last takes at least one. int64 sums wrap; the port and streak counters,
-- which cannot reach 2 ^ 63, do not. Times are nanoseconds since Go's zero time.
--
-- The figures of the nodes' resources are taken to stay within int64, beyond which SQLite turns to
-- floating point. A save of the node agent that fails is taken to fail before it truncates the state file.
--
-- Not modelled: SQLite itself but for the statements that the code sends, HTTP transport, JSON, YAML and
-- logging, the parser of Kubernetes quantities, net.ParseIP and math/rand (parameters of the
-- environment), the tickers that start the loops, and the HTTP handlers. Probes and sync groups that the
-- code runs in parallel run one after another here, with the others' work as interference. Of the
-- node agent the creation of pods and containers, cgroups, the CNI files, the cleanup of what the
-- runtime keeps, the loops that wait for readiness, the cleanup of orphans and the HTTP handlers are
-- left out, and so is the command line (sandboxd-ctl).
pub mod Base
pub mod Orch
pub mod Let

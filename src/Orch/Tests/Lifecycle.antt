-- ===== src/Orch/Tests/Lifecycle.antt =====
-- The theorems about the life of a sandbox, applied to a sandbox that is being deleted.
use go_gvisor_containerd_let.Base.{
  ℕ, ◌≡◌, refl, ap, subst, pos, Option, none, some, List, [], ◌∷◌, false, ◌&&◌, ◌==◌, if◌then◌else◌,
}
use go_gvisor_containerd_let.Orch.Types.{
  SandboxStatusesResponse, deleting, running, Sandbox, marshal_status,
}
use go_gvisor_containerd_let.Orch.Tables
use go_gvisor_containerd_let.Orch.Tables.{Db, SandboxRow}
use go_gvisor_containerd_let.Orch.World.{
  World, ok, agent, ◌>>=◌, read_clock, statement, exec, query, attempt, ignore, call, raise, pure,
}
use go_gvisor_containerd_let.Orch.Repo.Sandboxes.{
  has_id, required, update_sandbox_status, update_status_row, set_status,
}
use go_gvisor_containerd_let.Orch.Repo.Nodes.{get_node, find_node, scan_node}
use go_gvisor_containerd_let.Orch.Service.Clients.{client_for_node, delete_on_node}
use go_gvisor_containerd_let.Orch.Repo.Invariant.{IsConsistent}
use go_gvisor_containerd_let.Orch.Service.Delete.{
  or_fail, fail_with, delete_with_client, delete_from_node, finalize_sandbox_delete,
  run_sandbox_reconcile_once,
}
use go_gvisor_containerd_let.Orch.Service.Delete.Cleanup.{
  IsServing, IsRemoved, finalize_sandbox_delete-removes,
}
use go_gvisor_containerd_let.Orch.Service.Delete.Rounds.{
  IsSwept, run_sandbox_reconcile_once-IsSwept,
}
use go_gvisor_containerd_let.Orch.Service.Delete.Failures.{
  InDeleting, finalize_sandbox_delete-fails,
}
use go_gvisor_containerd_let.Orch.Service.Sync.{sync_sandbox}
use go_gvisor_containerd_let.Orch.Service.Sync.Races.{IsSpared, sync_sandbox-spares}
use go_gvisor_containerd_let.Orch.Tests.{quiet, sample_db, sample_world, sample_spec, sample_status}

-- s1 is being deleted and holds a port of n1; s2 waits.
abbrev busy_db : Db
busy_db = record sample_db {
  sandboxes =
      record {
        id = "s1";
        spec = sample_spec;
        status = record sample_status { phase = deleting; node_name = "n1" };
        created_at = 5;
        updated_at = 6;
      }
      ∷ record {
        id = "s2";
        spec = sample_spec;
        status = sample_status;
        created_at = 6;
        updated_at = 6;
      }
      ∷ [];
  sandbox_ports =
      record {
        sandbox_id = "s1";
        node_name = "n1";
        host_port = 10000;
        container_port = pos 80;
        protocol = "tcp";
        created_at = 5;
      }
      ∷ [];
}

abbrev busy_world : World
busy_world = record sample_world { db = busy_db }

abbrev busy_sandbox : Sandbox
busy_sandbox = record {
  id = "s1";
  spec = sample_spec;
  status = record sample_status { phase = deleting; node_name = "n1" };
  created_at = 5;
  updated_at = 6;
}

busy_IsConsistent : IsConsistent busy_db
unfolding Tables.exists
busy_IsConsistent = record {
  ids_unique = (refl, (refl, tt));
  ports_unique = (refl, tt);
  ports_owned = (refl, tt);
  names_unique = (refl, tt);
  externals_unique = tt;
  bindings_unique = tt;
  externals_bound = tt;
}

quiet-IsServing : IsServing quiet
quiet-IsServing = record {
  calm = record { alone = λ k d. refl; sound = λ k. refl };
  deletes = λ k url id. refl;
}

finalize_sandbox_delete-removes_example :
    ((finalize_sandbox_delete busy_sandbox busy_world).0 ≡ ok tt)
    × (IsRemoved "s1" busy_db (finalize_sandbox_delete busy_sandbox busy_world).1.db
        × IsServing (finalize_sandbox_delete busy_sandbox busy_world).1.env)
finalize_sandbox_delete-removes_example =
    finalize_sandbox_delete-removes busy_sandbox busy_world quiet-IsServing

run_sandbox_reconcile_once-IsSwept_example :
    ((run_sandbox_reconcile_once busy_world).0 ≡ ok tt)
    × IsSwept 101 busy_db (run_sandbox_reconcile_once busy_world).1.db
run_sandbox_reconcile_once-IsSwept_example =
    run_sandbox_reconcile_once-IsSwept busy_world quiet-IsServing busy_IsConsistent

-- The agent of n1 refuses.
abbrev down_world : World
down_world = record busy_world { env = record quiet { delete_on_node = λ k url id. some "down" } }

finalize_sandbox_delete-fails_example :
    InDeleting "s1" (finalize_sandbox_delete busy_sandbox down_world).1.db
unfolding finalize_sandbox_delete delete_from_node delete_with_client or_fail fail_with
    client_for_node delete_on_node get_node find_node scan_node required update_sandbox_status
    update_status_row set_status marshal_status ◌>>=◌ read_clock statement exec query attempt ignore
    call raise pure Tables.find Tables.exists Tables.update
finalize_sandbox_delete-fails_example =
    finalize_sandbox_delete-fails busy_sandbox down_world (agent "down") refl (λ k d h. h) refl refl

-- s1 runs when it is read, and another goroutine deletes it before its status is written.
abbrev running_rows : List SandboxRow
running_rows =
    record {
      id = "s1";
      spec = sample_spec;
      status = record sample_status { phase = running; node_name = "n1" };
      created_at = 5;
      updated_at = 5;
    }
    ∷ []

abbrev racing_world : World
racing_world = record busy_world {
  db = record busy_db { sandboxes = running_rows };
  env = record quiet { others = λ k d. if k == 2 then busy_db else d };
  step = 0;
}

abbrev time_of : Option SandboxRow → ℕ
time_of none = 0
time_of (some r) = r.updated_at

abbrev no_news : SandboxStatusesResponse
no_news = record { items = []; missing = "s1" ∷ [] }

sync_sandbox-spares_example :
    IsSpared "s1" racing_world (sync_sandbox "10.0.0.9" no_news busy_sandbox racing_world).1.db
unfolding Tables.exists Tables.find
sync_sandbox-spares_example =
    sync_sandbox-spares "s1" racing_world (record { ids_unique = (refl, (refl, tt)); row = refl })
      (λ r e live.
        subst
          (λ t. Tables.exists (λ q. has_id "s1" q && q.updated_at == t) busy_db.sandboxes ≡ false)
          (ap time_of e) refl)
      "10.0.0.9" no_news busy_sandbox

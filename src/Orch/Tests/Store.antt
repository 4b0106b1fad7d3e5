-- ===== src/Orch/Tests/Store.antt =====
-- The theorems about the store, applied to the sample tables.
use go_gvisor_containerd_let.Base.{◌≡◌, refl, pos, ◌-ℤ◌, true, [], ◌∷◌}
use go_gvisor_containerd_let.Orch.Tables
use go_gvisor_containerd_let.Orch.Tables.{Db}
use go_gvisor_containerd_let.Orch.Types.{unmarshal_status, marshal_status}
use go_gvisor_containerd_let.Orch.World.{
  no_rows, ◌>>=◌, read_clock, statement, exec, query, attempt, for_each, transaction, lift, raise,
  pure,
}
use go_gvisor_containerd_let.Orch.Repo.Sandboxes.{
  reserve_sandbox_ports_and_schedule, update_sandbox_status_if_unchanged, check_port_free,
  reserve_port, get_sandbox, update_sandbox_status, find_sandbox, required, insert_port,
  as_conflict, scan_sandbox, update_status_row_if, set_status, update_status_row,
}
use go_gvisor_containerd_let.Orch.Repo.Sandboxes.Reserve.{
  Reserved, reserve_sandbox_ports_and_schedule-reserves, reserve_sandbox_ports_and_schedule-atomic,
}
use go_gvisor_containerd_let.Orch.Repo.Sandboxes.Cas.{
  IsCas, update_sandbox_status_if_unchanged-IsCas,
}
use go_gvisor_containerd_let.Orch.Repo.Nodes.{adjust_resources}
use go_gvisor_containerd_let.Orch.Repo.Nodes.Usage.{
  IsBalanced, adjust_resources-IsBalanced, adjust_resources-restores,
}
use go_gvisor_containerd_let.Orch.Repo.Externals.{
  set_node_external, set_external_body, write_external, insert_external, set_resources_external,
  node_bound_to, external_bound_to,
}
use go_gvisor_containerd_let.Orch.Repo.Externals.Binding.{Binds, set_node_external-Binds}
use go_gvisor_containerd_let.Orch.Tests.{
  sample_db, sample_world, sample_assign, sample_status, sample_resources, sample_IsConsistent,
}

-- What a run of the store's methods computes with.
computed : Unit {0}
unfolding ◌>>=◌ read_clock statement exec query attempt for_each transaction lift raise pure
    reserve_sandbox_ports_and_schedule update_sandbox_status_if_unchanged check_port_free
    reserve_port get_sandbox update_sandbox_status find_sandbox required insert_port as_conflict
    scan_sandbox update_status_row_if set_status update_status_row marshal_status unmarshal_status
    Tables.find Tables.exists Tables.update Tables.insert Tables.select set_node_external
    set_external_body write_external insert_external set_resources_external node_bound_to
    external_bound_to
computed = tt

reserve_sandbox_ports_and_schedule-reserves_example :
    Reserved "s1" "n1" sample_db
      (sample_assign ∷ [])
      (reserve_sandbox_ports_and_schedule "s1" "n1" (sample_assign ∷ []) sample_world).1.db
unfolding computed
reserve_sandbox_ports_and_schedule-reserves_example =
    reserve_sandbox_ports_and_schedule-reserves "s1" "n1" (sample_assign ∷ []) sample_world _ refl

-- The sandbox s2 does not exist, so nothing is reserved for it.
reserve_sandbox_ports_and_schedule-atomic_example :
    (reserve_sandbox_ports_and_schedule "s2" "n1" [] sample_world).1.db ≡ sample_db
unfolding computed
reserve_sandbox_ports_and_schedule-atomic_example =
    reserve_sandbox_ports_and_schedule-atomic "s2" "n1" [] sample_world no_rows refl

update_sandbox_status_if_unchanged-IsCas_example :
    IsCas "s1" sample_status 5 100 sample_db true
      (update_sandbox_status_if_unchanged "s1" sample_status 5 sample_world).1
unfolding computed
update_sandbox_status_if_unchanged-IsCas_example =
    update_sandbox_status_if_unchanged-IsCas "s1" sample_status 5 sample_world _ true
      sample_IsConsistent refl

adjust_resources-IsBalanced_example :
    IsBalanced
      (pos 1000)
      (adjust_resources (pos 300) (pos 2000) sample_resources).used_cpu_milli
      (adjust_resources (pos 300) (pos 2000) sample_resources).available_cpu_milli
    × IsBalanced
        (pos 1000)
        (adjust_resources (pos 300) (pos 2000) sample_resources).used_memory_bytes
        (adjust_resources (pos 300) (pos 2000) sample_resources).available_memory
adjust_resources-IsBalanced_example =
    adjust_resources-IsBalanced (pos 300) (pos 2000) sample_resources

adjust_resources-restores_example :
    adjust_resources
      (pos 0 -ℤ pos 300)
      (pos 0 -ℤ pos 200)
      (adjust_resources (pos 300) (pos 200) sample_resources)
    ≡ sample_resources
unfolding ◌-ℤ◌
adjust_resources-restores_example = adjust_resources-restores 0 0 300 200 sample_resources refl refl

set_node_external-Binds_example :
    Binds "e1" "n1" "1.2.3.4" sample_db (set_node_external "e1" "n1" "1.2.3.4" sample_world).1.db
unfolding computed
set_node_external-Binds_example = set_node_external-Binds "e1" "n1" "1.2.3.4" sample_world _ refl

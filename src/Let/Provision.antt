-- ===== src/Let/Provision.antt =====
-- Provisioning of a sandbox on a node (sandboxd-let/sandbox/service.go): provisionSandboxSync, with the
-- answers of the container runtime and of the network as arguments.
use go_gvisor_containerd_let.Base.{String, none, some, List, [], ◌∷◌, is_empty, if◌then◌else◌}
use go_gvisor_containerd_let.Let.Types.{
  Failure, Outcome, done, failed, concat, ContainerState, CreateContainerRequest,
  CreateSandboxRequest, Sandbox,
}
use go_gvisor_containerd_let.Let.Admission.{parse_container_resource, parsed_resource_to_limits}
use go_gvisor_containerd_let.Let.Runtime.{
  CriDetails, refresh_sandbox_runtime_state, normalize_image,
}
use go_gvisor_containerd_let.Let.Health.{set_sandbox_phase}
use go_gvisor_containerd_let.Let.Sandboxes.{Config, Env, Service, Reply, try_save, set_container}

-- The state of a container that createAndStartCRIContainer returns.
unfoldable pub started_container : Config → CreateContainerRequest → CriDetails → ContainerState
started_container cfg c d = record {
  id = d.id;
  name = c.name;
  phase = "running";
  error = "";
  image = normalize_image c.image;
  args = c.args;
  env = c.env;
  resource = c.resource;
  task_pid = d.pid;
  runtime = cfg.runtime_binary;
  task_status = "running";
}

-- Provisioning works on the sandbox in place: where it stops, the sandbox is returned as it is then.
abbrev pub Progress : Type 0
Progress = Failure × Sandbox

-- `sbx.Error = err.Error(); return nil, err`.
abbrev pub give_up : String → Sandbox → Progress
give_up e sbx = (some e, record sbx { error = e })

abbrev pub continue_with : Progress → (Sandbox → Progress) → Progress
continue_with (none, sbx) k = k sbx
continue_with (some e, sbx) k = (some e, sbx)

unfoldable pub start_pulled : Env → CreateContainerRequest → Sandbox → Outcome CriDetails → Progress
unfolding started_container
start_pulled env c sbx (failed e) = give_up e sbx
start_pulled env c sbx (done d) =
    (none, record sbx { containers = set_container (started_container env.cfg c d) sbx.containers })

-- The body of the loop over the containers.
unfoldable pub provision_container : Env → CreateContainerRequest → Sandbox → Progress
unfolding start_pulled set_container
provision_container env c sbx = elim (parse_container_resource env.host c.resource) [
  | failed e ↦ give_up (concat ("container " ∷ c.name ∷ ": " ∷ e ∷ [])) sbx
  | done r ↦ elim (env.pull (normalize_image c.image)) [
    | some e ↦ give_up (concat ("pull image " ∷ normalize_image c.image ∷ ": " ∷ e ∷ [])) sbx
    | none ↦ start_pulled env c sbx (env.start sbx c (parsed_resource_to_limits r))
  ]
]

unfoldable pub provision_containers : Env → List CreateContainerRequest → Sandbox → Progress
unfolding provision_container
provision_containers env [] sbx = (none, sbx)
provision_containers env (c ∷ cs) sbx =
    continue_with (provision_container env c sbx) (provision_containers env cs)

-- `if err := f(sbx); err != nil { return nil, err }`.
abbrev pub checked : (Sandbox → Failure) → Sandbox → Progress
checked f sbx = (f sbx, sbx)

assigned_ip : Sandbox → Failure
assigned_ip sbx = if is_empty sbx.ip then some "sandbox ip not assigned by cni" else none

-- provisionSandboxSync behind the loop over the containers, up to the state that it saves.
unfoldable pub connect : Env → Sandbox → Progress
unfolding assigned_ip
connect env sbx = continue_with (checked assigned_ip sbx) λ sbx1.
    continue_with (checked env.apply_policy sbx1)
      λ sbx2. continue_with (checked env.wait_ready sbx2) (checked env.publish)

-- provisionSandboxSync behind the creation of the pod, up to the state that it saves.
unfoldable pub provision_pod :
    Env → CreateSandboxRequest → Sandbox → Outcome (String × String) → Progress
unfolding provision_containers connect
provision_pod env req sbx (failed e) = give_up e sbx
provision_pod env req sbx (done (pod, ip)) =
    continue_with (provision_containers env req.containers (record sbx { pause_id = pod; ip = ip }))
      (connect env)

unfoldable pub provision_steps : Env → CreateSandboxRequest → Sandbox → Progress
unfolding provision_pod
provision_steps env req sbx = provision_pod env req sbx (env.create_pod sbx req.containers)

-- The deferred function of a provisioning that failed, without its cleanup of the runtime.
unfoldable pub abandon : Env → Sandbox → Service → Service
unfolding try_save
abandon env sbx s =
    let marked = set_sandbox_phase "error" sbx.error env.now sbx in
    let named_error = if is_empty marked.error then "provision failed" else marked.error in
    record s { store = (try_save env (record marked { error = named_error }) s.store).1 }

unfoldable pub saved_running : Env → Sandbox → Service → Failure × List Sandbox → Reply
unfolding abandon
saved_running env sbx s (none, store) = (done sbx, record s { store = store })
saved_running env sbx s (some e, store) = (failed e, abandon env sbx (record s { store = store }))

-- The end of provisionSandboxSync.
unfoldable pub finish_provision : Env → Service → Progress → Reply
unfolding saved_running abandon try_save
finish_provision env s (some e, sbx) = (failed e, abandon env sbx s)
finish_provision env s (none, sbx) =
    let ready =
      set_sandbox_phase "running" "" env.now (refresh_sandbox_runtime_state env.cri env.now sbx) in
    saved_running env ready s (try_save env ready s.store)

unfoldable pub provision_sandbox_sync : Env → CreateSandboxRequest → Sandbox → Service → Reply
unfolding finish_provision provision_steps
provision_sandbox_sync env req sbx s = finish_provision env s (provision_steps env req sbx)

-- ===== src/Let/Lifecycle/Settled.antt =====
-- The goroutine of an asynchronous creation does not leave a sandbox in creation.
use go_gvisor_containerd_let.Base.{
  ◌≡◌, refl, subst, sym, ◌⊎◌, inl, inr, String, Bool, true, false, not, Option, none, some, List,
  [], ◌∷◌, arith, eq_iff, is_empty, if◌then◌else◌, Bool-cases,
}
use go_gvisor_containerd_let.Orch.Tables.{exists, find, update, insert}
use go_gvisor_containerd_let.Let.Types.{
  Outcome, done, failed, CreateContainerRequest, CreateSandboxRequest, Sandbox,
}
use go_gvisor_containerd_let.Let.Runtime.{refresh_sandbox_runtime_state}
use go_gvisor_containerd_let.Let.Health.{named, save, set_sandbox_phase}
use go_gvisor_containerd_let.Let.Sandboxes.{
  Env, Service, Reply, acquire_sandbox_lock, load, try_save,
}
use go_gvisor_containerd_let.Let.Provision.{
  Progress, continue_with, provision_container, provision_containers, connect, provision_pod,
  provision_steps, abandon, finish_provision, saved_running, provision_sandbox_sync, start_pulled,
}
use go_gvisor_containerd_let.Let.Lifecycle.{
  mark_sandbox_error, mark_loaded, provision_sandbox, provision_loaded, after_provision,
}

find-update :
    {A : Type 0} (p : A → Bool) (a : A) (xs : List A)
    → p a ≡ true
    → exists p xs ≡ true
    → find p (update p (λ _. a) xs) ≡ some a
unfolding find exists update
find-update p a [] h e = cc
find-update p a (x ∷ xs) h e = elim (Bool-cases (p x)) [
  | inl q ↦ rw (q, h) refl
  | inr q ↦ rw (q, q) (find-update p a xs h (rw q at e))
]

find-insert :
    {A : Type 0} (p : A → Bool) (a : A) (xs : List A)
    → p a ≡ true
    → exists p xs ≡ false
    → find p (insert a xs) ≡ some a
unfolding find exists insert
find-insert p a [] h e = rw h refl
find-insert p a (x ∷ xs) h e = ground (arith, find-insert p a xs)

find-save : (x : Sandbox) (all : List Sandbox) → find (named x.id) (save x all) ≡ some x
unfolding save
find-save x all =
    let own = (eq_iff x.id x.id).1 refl in
    elim (Bool-cases (exists (named x.id) all)) [
      | inl e ↦ rw e (find-update (named x.id) x all own e)
      | inr e ↦ rw e (find-insert (named x.id) x all own e)
    ]

pub find-named :
    (id : String) (all : List Sandbox) (x : Sandbox) → find (named id) all ≡ some x → x.id ≡ id
unfolding find
find-named id [] x h = cc
find-named id (y ∷ all) x h = ground (arith, find-named id all x, eq_iff y.id id)

-- Provisioning does not change the id.
abbrev KeepsId : String → Progress → Type 0
KeepsId id p = p.1.id ≡ id

module _ (id : String) where
  KeepsId-continue :
      (p : Progress) (k : Sandbox → Progress)
      → KeepsId id p
      → ((x : Sandbox) → x.id ≡ id → KeepsId id (k x))
      → KeepsId id (continue_with p k)
  KeepsId-continue (none, x) k h keep = keep x h
  KeepsId-continue (some e, x) k h keep = h

  module _ (env : Env) where
    provision_container-KeepsId :
        (c : CreateContainerRequest) (x : Sandbox)
        → x.id ≡ id
        → KeepsId id (provision_container env c x)
    unfolding provision_container start_pulled
    provision_container-KeepsId c x h = ground arith

    provision_containers-KeepsId :
        (cs : List CreateContainerRequest) (x : Sandbox)
        → x.id ≡ id
        → KeepsId id (provision_containers env cs x)
    unfolding provision_containers
    provision_containers-KeepsId [] x h = h
    provision_containers-KeepsId (c ∷ cs) x h =
        KeepsId-continue (provision_container env c x) (provision_containers env cs)
          (provision_container-KeepsId c x h) (provision_containers-KeepsId cs)

    connect-KeepsId : (x : Sandbox) → x.id ≡ id → KeepsId id (connect env x)
    unfolding connect
    connect-KeepsId x h = ground arith

    provision_pod-KeepsId :
        (req : CreateSandboxRequest) (x : Sandbox) (pod : Outcome (String × String))
        → x.id ≡ id
        → KeepsId id (provision_pod env req x pod)
    unfolding provision_pod
    provision_pod-KeepsId req x (failed e) h = h
    provision_pod-KeepsId req x (done (pod, ip)) h =
        let placed = record x { pause_id = pod; ip = ip } in
        KeepsId-continue (provision_containers env req.containers placed) (connect env)
          (provision_containers-KeepsId req.containers placed h) connect-KeepsId

    refresh-KeepsId :
        (x : Sandbox) → x.id ≡ id → (refresh_sandbox_runtime_state env.cri env.now x).id ≡ id
    unfolding refresh_sandbox_runtime_state
    refresh-KeepsId x h = ground arith

-- In error with a message.
abbrev pub HasFailed : Sandbox → Type 0
HasFailed x = (x.phase ≡ "error") × (is_empty x.error ≡ false)

-- Running without an error, or in error with a message.
abbrev pub IsSettled : Sandbox → Type 0
IsSettled x = ((x.phase ≡ "running") × (x.error ≡ "")) ⊎ HasFailed x

-- There is one, and it is so.
abbrev pub FoundAs : (Sandbox → Type 0) → Option Sandbox → Type 0
FoundAs P none = ⊥
FoundAs P (some x) = P x

FoundAs-map :
    (P Q : Sandbox → Type 0) (o : Option Sandbox)
    → ((x : Sandbox) → P x → Q x)
    → FoundAs P o
    → FoundAs Q o
FoundAs-map P Q none f h = h
FoundAs-map P Q (some x) f h = f x h

-- What is found after a provisioning.
abbrev Finished : String → Reply → Type 0
Finished id (done x, s) = FoundAs IsSettled (find (named id) s.store)
Finished id (failed e, s) = FoundAs HasFailed (find (named id) s.store)

or_else_named :
    (b : Bool) (m : String)
    → is_empty m ≡ b
    → is_empty (if b then "provision failed" else m) ≡ false
or_else_named true m h = refl
or_else_named false m h = h

msg_named :
    (b : Bool) (msg old : String)
    → is_empty msg ≡ b
    → is_empty old ≡ false
    → is_empty (if not b then msg else old) ≡ false
msg_named true msg old h o = o
msg_named false msg old h o = h

module _ (env : Env) (saves : (x : Sandbox) → env.save_failure x ≡ none) (id : String)
    (readable : env.load_failure id ≡ none) where
  saved_as : (x : Sandbox) (store : List Sandbox) → try_save env x store ≡ (none, save x store)
  unfolding try_save
  saved_as x store = ground (arith, saves x)

  found_saved :
      (P : Sandbox → Type 0) (x : Sandbox) (store : List Sandbox)
      → x.id ≡ id
      → P x
      → FoundAs P (find (named id) (save x store))
  found_saved P x store e h =
      rw (subst (λ j. find (named j) (save x store) ≡ some x) e (find-save x store)) h

  -- What is written is what is found.
  found_as :
      (P : Sandbox → Type 0) (x : Sandbox) (store : List Sandbox)
      → x.id ≡ id
      → P x
      → FoundAs P (find (named id) (try_save env x store).1)
  found_as P x store e h = rw (saved_as x store) (found_saved P x store e h)

  abandon-HasFailed :
      (x : Sandbox) (s : Service)
      → x.id ≡ id
      → FoundAs HasFailed (find (named id) (abandon env x s).store)
  unfolding abandon set_sandbox_phase
  abandon-HasFailed x s e = found_as HasFailed _ s.store e (refl, or_else_named _ _ refl)

  finish_provision-Finished :
      (s : Service) (p : Progress) → KeepsId id p → Finished id (finish_provision env s p)
  unfolding finish_provision saved_running try_save set_sandbox_phase
  finish_provision-Finished s (some e, x) own = abandon-HasFailed x s own
  finish_provision-Finished s (none, x) own =
      let fresh = refresh_sandbox_runtime_state env.cri env.now x in
      let ready = set_sandbox_phase "running" "" env.now fresh in
      subst (λ q. Finished id (saved_running env ready s q)) (sym (saved_as ready s.store))
        (found_saved IsSettled ready s.store (refresh-KeepsId id env x own) (inl (refl, refl)))

  mark_found :
      (msg : String) (s : Service) (o : Option Sandbox)
      → find (named id) s.store ≡ o
      → FoundAs HasFailed o
      → FoundAs HasFailed (find (named id) (mark_loaded env msg s (done o)).store)
  unfolding mark_loaded set_sandbox_phase
  mark_found msg s none e h = elim h [ ]
  mark_found msg s (some x) e h =
      found_as HasFailed _ s.store (find-named id s.store x e)
        (refl, msg_named _ msg x.error refl h.1)

  load_as : (s : Service) → load env id s.store ≡ done (find (named id) s.store)
  unfolding load
  load_as s = ground arith

  after_provision-settles :
      (r : Reply)
      → Finished id r
      → FoundAs IsSettled (find (named id) (after_provision env id r).store)
  unfolding after_provision mark_sandbox_error
  after_provision-settles (done x, s) h = h
  after_provision-settles (failed e, s) h =
      rw (load_as s) (FoundAs-map HasFailed IsSettled _ (λ x f. inr f) (mark_found e s _ refl h))

  -- Where the sandbox's lock is taken, its file can be read, and files can be written, a provisioning
  -- in the background ends with the sandbox running without an error or in error with a message,
  -- whatever the runtime and the network answer: no sandbox stays in creation.
  pub provision_sandbox-settles :
      (req : CreateSandboxRequest) (s : Service) (x : Sandbox)
      → acquire_sandbox_lock env id ≡ none
      → find (named id) s.store ≡ some x
      → FoundAs IsSettled (find (named id) (provision_sandbox env id req s).store)
  unfolding provision_sandbox provision_loaded provision_sandbox_sync provision_steps
  provision_sandbox-settles req s x locked there =
      let p = provision_steps env req x in
      let kept =
        provision_pod-KeepsId id env req x (env.create_pod x req.containers)
          (find-named id s.store x there) in
      let run : provision_sandbox env id req s ≡ after_provision env id (finish_provision env s p) =
        ground (arith, load_as s) in
      subst (λ t. FoundAs IsSettled (find (named id) t.store)) (sym run)
        (after_provision-settles (finish_provision env s p) (finish_provision-Finished s p kept))

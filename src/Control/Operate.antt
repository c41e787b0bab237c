-- ===== src/Control/Operate.antt =====
-- src/kvm_control/control_api.py: `_operate_vm` and the endpoints that call it.
use vm_forgeyard.Prelude.{
  ℕ, String, Bool, true, false, not, ◌&&◌, ◌||◌, Option, none, some, List, [], ◌∷◌, ◌==◌,
  if◌then◌else◌,
}
use vm_forgeyard.Prelude.Actions.{pure, raise, gets, or_fail, attempt, when, ◌>>=◌, ◌>>◌}
use vm_forgeyard.Auth.{AuthPrincipal}
use vm_forgeyard.Vm.{
  VmInstance, VmUpdate, set_power_state, set_readiness_state, set_status, set_layer3_presence,
  set_pause_reason,
}
use vm_forgeyard.Vm.Queries.{ensure_capacity}
use vm_forgeyard.Control.{
  Control, Handler, Host, Exn, http_error, text_of_exn, patch, begin_operation, end_operation,
  execute, disk_payload,
}
use vm_forgeyard.Control.Access.{
  load_vm, require_vm_access, gate, find_template, vm_executor_payload,
}

-- The status while the executor runs.
unfoldable pub transient_status : String → String
transient_status action =
    if action == "revert"
    then "reverting"
    else if action == "stop" || action == "poweroff"
    then "stopping"
    else if action == "pause" || action == "resume"
    then "running"
    else "creating"

-- An operation that is refused is recorded with its reason.
unfoldable pub reject :
    ℕ → ℕ → String → Option String → String → String → Option String → Handler (Unit {0})
reject now status action vm_id namespace category none = pure tt
reject now status action vm_id namespace category (some reason) = do
  begin_operation now action vm_id namespace "rejected" (some category) (some reason)
  raise (http_error status reason)

-- The lock that a machine goes with, if it has one.
unfoldable pub check_lock : ℕ → ℕ → String → VmInstance → Option String → Handler (Unit {0})
unfolding reject
check_lock ttl now action vm none = pure tt
check_lock ttl now action vm (some resource_id) = when (not (resource_id == "")) (do
  refused ← gate ttl now vm.namespace resource_id
  reject now 423 action (some vm.vm_id) vm.namespace "lock" refused)

module _ {Net : Type 0} (h : Host Net) (now : ℕ) where
  -- What the capacity of the host says to a start; a machine that runs is not refused.
  abbrev pub capacity_refusal : String → VmInstance → Control → Option String
  capacity_refusal action vm s =
      if (action == "start" || action == "restart") && not (vm.power_state == "running")
      then ensure_capacity h.limits s.vms vm.vcpus vm.memory_mb
      else none

  unfoldable pub check_capacity : String → VmInstance → Handler (Unit {0})
  unfolding reject
  check_capacity action vm = do
    refused ← gets (capacity_refusal action vm)
    reject now 422 action (some vm.vm_id) vm.namespace "policy" refused

  -- A missing disk is made again where the caller wants it.
  unfoldable pub recreate : Bool → VmInstance → ℕ → Handler VmInstance
  recreate true vm operation_id = do
    execute h "create-layer3" (disk_payload (some operation_id) vm)
    patch now vm.vm_id (set_layer3_presence "present" ∷ [])
  recreate false vm operation_id = pure vm

  -- The body of the `try`.
  unfoldable pub operate_steps : VmInstance → ℕ → String → List VmUpdate → Bool → Handler VmInstance
  unfolding recreate find_template
  operate_steps vm operation_id executor_action post_update wants_layer3 = do
    template ← or_fail (find_template h vm.template_id) (http_error 422 "unknown template")
    current ← recreate (wants_layer3 && not (vm.layer3_presence == "present")) vm operation_id
    payload ← vm_executor_payload h current operation_id template.id
    execute h executor_action payload
    updated ← patch now vm.vm_id post_update
    end_operation now operation_id "completed" none
    pure updated

  abbrev pub failed_updates : List VmUpdate
  failed_updates =
      set_power_state "failed" ∷ set_readiness_state "failed" ∷ set_status "failed" ∷ []

  -- The body of the `except`.
  unfoldable pub operate_failed : String → ℕ → Exn → Handler VmInstance
  operate_failed vm_id operation_id e = do
    patch now vm_id failed_updates
    end_operation now operation_id "failed" (some (text_of_exn h e))
    raise (http_error 503 (text_of_exn h e))

  -- From the creation of the operation on.
  unfoldable pub operate_admitted :
      VmInstance → String → String → List VmUpdate → Bool → Handler VmInstance
  unfolding transient_status operate_steps operate_failed
  operate_admitted vm action executor_action post_update wants_layer3 = do
    operation_id ← begin_operation now action (some vm.vm_id) vm.namespace "running" none none
    patch now vm.vm_id (set_status (transient_status action) ∷ [])
    attempt (operate_steps vm operation_id executor_action post_update wants_layer3)
        (operate_failed vm.vm_id operation_id)

  -- `wants_layer3` is computed from the machine, as the callers do.
  unfoldable pub operate_vm :
      AuthPrincipal
      → String
      → String
      → String
      → List VmUpdate
      → (VmInstance → Bool)
      → Handler VmInstance
  unfolding load_vm require_vm_access check_lock check_capacity operate_admitted
  operate_vm principal vm_id action executor_action post_update wants_layer3 = do
    vm ← load_vm vm_id
    require_vm_access principal vm
    check_lock h.lock_ttl now action vm vm.lock_resource_id
    check_capacity action vm
    operate_admitted vm action executor_action post_update (wants_layer3 vm)

  abbrev pub running_updates : List VmUpdate
  running_updates =
      set_power_state "running"
      ∷ set_readiness_state "booting"
      ∷ set_status "running"
      ∷ set_pause_reason none
      ∷ []

  abbrev pub stopped_updates : List VmUpdate
  stopped_updates =
      set_power_state "stopped"
      ∷ set_readiness_state "configuring"
      ∷ set_status "stopped"
      ∷ set_pause_reason none
      ∷ []

  unfoldable pub start_vm : AuthPrincipal → String → Handler VmInstance
  unfolding operate_vm
  start_vm principal vm_id =
      operate_vm principal vm_id "start" "start-vm" running_updates
        (λ vm. not (vm.layer3_presence == "present"))

  unfoldable pub stop_vm : AuthPrincipal → String → Handler VmInstance
  unfolding operate_vm
  stop_vm principal vm_id =
      operate_vm principal vm_id "stop" "stop-vm" stopped_updates (λ vm. false)

  unfoldable pub poweroff_vm : AuthPrincipal → String → Handler VmInstance
  unfolding operate_vm
  poweroff_vm principal vm_id =
      operate_vm principal vm_id "poweroff" "poweroff-vm" stopped_updates (λ vm. false)

  unfoldable pub pause_vm : AuthPrincipal → String → Handler VmInstance
  unfolding operate_vm
  pause_vm principal vm_id =
      operate_vm principal vm_id "pause" "pause-vm"
        (set_power_state "paused" ∷ set_status "paused" ∷ set_pause_reason (some "manual") ∷ [])
        (λ vm. false)

  unfoldable pub resume_vm : AuthPrincipal → String → Handler VmInstance
  unfolding operate_vm
  resume_vm principal vm_id =
      operate_vm principal vm_id "resume" "resume-vm"
        (set_power_state "running" ∷ set_status "running" ∷ set_pause_reason none ∷ [])
        (λ vm. false)

  unfoldable pub restart_vm : AuthPrincipal → String → Handler VmInstance
  unfolding operate_vm
  restart_vm principal vm_id =
      operate_vm principal vm_id "restart" "restart-vm" running_updates (λ vm. true)

  unfoldable pub revert_vm : AuthPrincipal → String → Handler VmInstance
  unfolding operate_vm
  revert_vm principal vm_id =
      operate_vm principal vm_id "revert" "revert-vm"
        (set_power_state "stopped"
          ∷ set_readiness_state "configuring"
          ∷ set_status "stopped"
          ∷ set_layer3_presence "present"
          ∷ set_pause_reason none
          ∷ [])
        (λ vm. false)

  -- Readiness is not set by a caller: the operation is recorded as rejected.
  unfoldable pub mark_vm_ready : AuthPrincipal → String → Handler (Unit {0})
  unfolding load_vm require_vm_access reject
  mark_vm_ready principal vm_id = do
    vm ← load_vm vm_id
    require_vm_access principal vm
    begin_operation now "mark-ready" (some vm_id) vm.namespace "rejected" (some "state")
        (some "readiness is API-owned; use wait-ready")
    raise (http_error 410 "readiness is API-owned; use POST /v1/vms/{vm_id}/wait-ready")

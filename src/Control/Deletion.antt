-- ===== src/Control/Deletion.antt =====
-- src/kvm_control/control_api.py and src/kvm_control/vm_cleanup.py: the deletion of a machine.
use vm_forgeyard.Prelude.{
  ℕ, String, Bool, true, false, not, ◌&&◌, Option, none, some, [], ◌∷◌, ◌==◌, if◌then◌else◌, truthy,
  fstring, ◌++◌,
}
use vm_forgeyard.Prelude.Actions.{pure, raise, attempt, fail_if, when, modify, ◌>>=◌, ◌>>◌}
use vm_forgeyard.Event.{StatusEvent, plain_event}
use vm_forgeyard.Auth.{AuthPrincipal}
use vm_forgeyard.Vm.{
  VmInstance, set_readiness_state, set_status, set_retention, set_pause_reason,
  set_retention_reason,
}
use vm_forgeyard.Control.{
  Handler, Host, Payload, ExecutorResult, Exn, http_error, text_of_exn, patch, remove,
  begin_operation, end_operation, execute, archive_vm, disk_payload,
}
use vm_forgeyard.Control.Access.{
  load_vm, require_vm_access, validate_retention, vm_executor_payload,
}

module _ {Net : Type 0} (h : Host Net) (now : ℕ) where
  abbrev pub stop_payload : VmInstance → ℕ → Payload
  stop_payload vm operation_id = record (disk_payload (some operation_id) vm) {
    namespace = some vm.namespace;
  }

  -- A stop that fails is enforced by switching the machine off.
  unfoldable pub stop_vm_for_cleanup : VmInstance → ℕ → Bool → Handler ExecutorResult
  stop_vm_for_cleanup vm operation_id true =
      attempt (execute h "stop-vm" (stop_payload vm operation_id))
        (λ e. execute h "poweroff-vm" (stop_payload vm operation_id))
  stop_vm_for_cleanup vm operation_id false = execute h "stop-vm" (stop_payload vm operation_id)

  -- if trashed_path: record_archived_vm(...)
  unfoldable pub archive_trashed : VmInstance → Option String → String → Handler (Unit {0})
  archive_trashed vm none reason = pure tt
  archive_trashed vm (some path) reason = when (not (path == "")) (archive_vm now vm path reason)

  -- The calls of the executor, and the archive.
  unfoldable pub delete_disks : VmInstance → ℕ → Bool → Handler (Unit {0})
  unfolding stop_vm_for_cleanup archive_trashed
  delete_disks vm operation_id keep_layer2 = do
    stop_vm_for_cleanup vm operation_id true
    deleted ← execute h "delete-layer3" (disk_payload (some operation_id) vm)
    archive_trashed vm deleted.trashed_path "delete_vm"
    when (not keep_layer2)
        (do execute h "delete-layer2" (disk_payload (some operation_id) vm); pure tt)
    payload ← vm_executor_payload h vm operation_id vm.template_id
    execute h "delete-runtime" payload
    pure tt

  -- The row goes when the disks are gone.
  unfoldable pub delete_row : VmInstance → ℕ → Handler (Unit {0})
  delete_row vm operation_id = do remove vm.vm_id; end_operation now operation_id "completed" none

  -- The body of the `try`.
  unfoldable pub delete_steps : VmInstance → ℕ → Bool → Handler (Unit {0})
  unfolding delete_disks delete_row
  delete_steps vm operation_id keep_layer2 = do
    delete_disks vm operation_id keep_layer2
    delete_row vm operation_id

  -- The body of the `except`: the row stays.
  unfoldable pub delete_failed : ℕ → Exn → Handler (Unit {0})
  delete_failed operation_id e = do
    end_operation now operation_id "failed" (some (text_of_exn h e))
    raise (http_error 503 (text_of_exn h e))

  unfoldable pub delete_now : VmInstance → Bool → Handler (Unit {0})
  unfolding delete_steps delete_failed
  delete_now vm keep_layer2 = do
    operation_id ← begin_operation now "delete" (some vm.vm_id) vm.namespace "running" none none
    attempt (delete_steps vm operation_id keep_layer2) (delete_failed operation_id)

  -- The machine is marked; the cleanup, which is woken up, deletes it.
  unfoldable pub delete_later : VmInstance → Handler (Unit {0})
  delete_later vm = do
    operation_id ←
        begin_operation now "delete-deferred" (some vm.vm_id) vm.namespace "running" none none
    patch now vm.vm_id (
        set_status "deleting"
        ∷ set_readiness_state "configuring"
        ∷ set_pause_reason none
        ∷ set_retention "ephemeral"
        ∷ set_retention_reason (some "deferred delete requested")
        ∷ [])
    end_operation now operation_id "completed" none

  -- `delete_vm` of the endpoints.
  unfoldable pub delete_machine : AuthPrincipal → String → Bool → Bool → Handler (Unit {0})
  unfolding load_vm require_vm_access delete_now delete_later
  delete_machine principal vm_id keep_layer2 wait = do
    vm ← load_vm vm_id
    require_vm_access principal vm
    fail_if (not keep_layer2 && truthy vm.source_image_id) (
        http_error 422
          "cannot delete shared prepared image through vm delete; delete the image separately")
    fail_if (not wait && not keep_layer2)
        (http_error 422 "wait=false currently supports only keep_layer2=true")
    (if wait then delete_now vm keep_layer2 else delete_later vm)

  abbrev pub retention_event : VmInstance → String → StatusEvent
  retention_event vm retention =
      record (plain_event "vm" "info" "retention_updated"
        (fstring ("vm " ∷ vm.vm_id ∷ " retention set to " ∷ retention ∷ []))) {
          namespace = some vm.namespace;
          vm_id = some vm.vm_id;
        }

  unfoldable pub set_vm_retention :
      AuthPrincipal → String → String → Option String → Handler VmInstance
  unfolding load_vm require_vm_access validate_retention
  set_vm_retention principal vm_id retention reason = do
    vm ← load_vm vm_id
    require_vm_access principal vm
    validate_retention principal retention
    updated ← patch now vm_id (set_retention retention ∷ set_retention_reason reason ∷ [])
    modify (λ s. record s { events = s.events ++ retention_event updated retention ∷ [] })
    pure updated

-- ===== src/Reconcile.antt =====
-- src/kvm_control/reconcile.py: the states of the registered machines after the host or the services
-- have started again. Times are seconds.
mod Stopping
pub mod Marked
mod Deferred
mod Tests
use vm_forgeyard.Prelude.{
  ℕ, String, Bool, true, false, not, ◌&&◌, ◌||◌, Option, none, some, List, [], ◌∷◌, ◌++◌, ◌==◌,
  if◌then◌else◌, is_some, leb, map, Result, ok, err,
}
use vm_forgeyard.Prelude.Actions.{pure, lift, gets, attempt, ◌>>=◌, ◌>>◌}
use vm_forgeyard.Vm.{
  VmInstance, VmUpdate, set_power_state, set_readiness_state, set_status, set_stopped_at,
  is_active_state, is_stopped_state,
}
use vm_forgeyard.Vm.Queries.{list_vms}
use vm_forgeyard.Control.{
  Control, Handler, Host, Payload, ExecutorResult, Exn, failure, text_of_exn, patch,
  begin_operation, end_operation, execute, disk_payload,
}
use vm_forgeyard.Control.Inspect.{status_update}
use vm_forgeyard.Cleanup.{CleanupReport, cleanup_stale_stopped_ephemeral_vms}
use vm_forgeyard.Cleanup.Trash.{TrashSweep, TrashReport, cleanup_stale_trash_files}

pub record Inspection : Type 0 where
  pub vm_id : String
  pub power_state : Option String
  pub stopped_at : Option ℕ

pub record ReconcileFailure : Type 0 where
  pub vm_id : String
  pub error : String

pub record ReconcileReport : Type 0 where
  pub inspected : List Inspection
  pub failed : List ReconcileFailure

-- The time of the start of the host, if the machine has not been updated since.
abbrev pub lost_at : Option ℕ → ℕ → ℕ → ℕ
lost_at none updated_at inspected_at = inspected_at
lost_at (some booted) updated_at inspected_at =
    if leb updated_at booted then booted else inspected_at

abbrev pub or_time : Option ℕ → ℕ → ℕ
or_time none time = time
or_time (some known) time = known

-- For a result whose power state is stopped or failed. A machine always has a time of its last
-- update.
abbrev inspected_stop : (String → Option ℕ) → ℕ → VmInstance → ExecutorResult → ℕ
inspected_stop layer3_mtime now vm result =
    if is_active_state vm.power_state
    then lost_at result.host_booted_at vm.updated_at (or_time result.inspected_at now)
    else or_time (layer3_mtime vm.layer3_path) vm.updated_at

unfoldable pub stopped_at_for_inspected_state :
    (String → Option ℕ) → ℕ → VmInstance → ExecutorResult → Option ℕ
stopped_at_for_inspected_state layer3_mtime now vm result = elim result.power_state [
  | none ↦ none
  | some state ↦
      if is_stopped_state state
      then some (or_time vm.stopped_at (inspected_stop layer3_mtime now vm result))
      else none
]

abbrev active_updates : Bool → String → List VmUpdate
active_updates delete_requested state =
    set_power_state state ∷ set_stopped_at none ∷ status_update delete_requested state

abbrev stopped_updates : Bool → String → String → Option ℕ → List VmUpdate
stopped_updates delete_requested state readiness stopped_at =
    set_power_state state
    ∷ set_readiness_state readiness
    ∷ set_stopped_at stopped_at
    ∷ status_update delete_requested state

abbrev state_updates : Bool → String → Option ℕ → List VmUpdate
state_updates delete_requested state stopped_at =
    if state == "running" || state == "paused"
    then active_updates delete_requested state
    else if state == "stopped"
    then stopped_updates delete_requested state "configuring" stopped_at
    else if state == "failed"
    then stopped_updates delete_requested state "failed" stopped_at
    else []

unfoldable pub reconciled_updates :
    (String → Option ℕ) → ℕ → VmInstance → ExecutorResult → List VmUpdate
unfolding stopped_at_for_inspected_state
reconciled_updates layer3_mtime now vm result = elim result.power_state [
  | none ↦ []
  | some state ↦
      state_updates (vm.status == "deleting") state
        (stopped_at_for_inspected_state layer3_mtime now vm result)
]

-- updates.get("stopped_at")
abbrev pub time_in : List VmUpdate → Option ℕ
time_in [] = none
time_in (set_stopped_at time ∷ us) = time
time_in (_ ∷ us) = time_in us

abbrev inspected_in : List (Result ReconcileFailure Inspection) → List Inspection
inspected_in [] = []
inspected_in (ok i ∷ rs) = i ∷ inspected_in rs
inspected_in (err f ∷ rs) = inspected_in rs

abbrev failed_in : List (Result ReconcileFailure Inspection) → List ReconcileFailure
failed_in [] = []
failed_in (ok i ∷ rs) = failed_in rs
failed_in (err f ∷ rs) = f ∷ failed_in rs

module _ {Net : Type 0} (h : Host Net) (now : ℕ) (layer3_mtime : String → Option ℕ) where
  abbrev pub inspect_payload : VmInstance → ℕ → Payload
  inspect_payload vm operation_id = record (disk_payload (some operation_id) vm) {
    namespace = some vm.namespace;
    reserved_mac = some vm.reserved_mac;
  }

  unfoldable pub apply_inspection : VmInstance → List VmUpdate → Handler (Unit {0})
  apply_inspection vm [] = pure tt
  apply_inspection vm (u ∷ us) = do patch now vm.vm_id (u ∷ us); pure tt

  -- The body of the loop, from the creation of the operation on.
  unfoldable pub reconcile_one : VmInstance → Handler (Result ReconcileFailure Inspection)
  unfolding reconciled_updates apply_inspection
  reconcile_one vm = do
    operation_id ←
        begin_operation now "reconcile-runtime-state" (some vm.vm_id) vm.namespace "running" none
          none
    attempt
        (do
          result ← execute h "inspect-vm" (inspect_payload vm operation_id)
          let updates = reconciled_updates layer3_mtime now vm result
          apply_inspection vm updates
          end_operation now operation_id "completed" none
          pure (
              ok (record {
                vm_id = vm.vm_id;
                power_state = result.power_state;
                stopped_at = time_in updates;
              })))
        (λ e. do
          end_operation now operation_id "failed" (some (text_of_exn h e))
          pure (err (record { vm_id = vm.vm_id; error = text_of_exn h e })))

  -- vm["power_state"] not in ACTIVE_POWER_STATES and vm.get("stopped_at")
  abbrev is_settled : VmInstance → Bool
  is_settled vm = not (is_active_state vm.power_state) && is_some vm.stopped_at

  unfoldable pub reconcile_all :
      List VmInstance → Handler (List (Result ReconcileFailure Inspection))
  unfolding reconcile_one
  reconcile_all [] = pure []
  reconcile_all (vm ∷ vms) =
      let rest = reconcile_all vms in
      if is_settled vm
      then rest
      else (do result ← reconcile_one vm; results ← rest; pure (result ∷ results))

  unfoldable pub reconcile_registered_vm_runtime_states : Handler ReconcileReport
  unfolding list_vms reconcile_all
  reconcile_registered_vm_runtime_states = do
    vms ← gets (λ s. list_vms s.vms)
    results ← reconcile_all vms
    pure (record { inspected = inspected_in results; failed = failed_in results })

  abbrev runtime_result : Result String (Unit {0}) → Result Exn (Unit {0})
  runtime_result (ok u) = ok u
  runtime_result (err reason) = err (failure reason)

  -- `main`, with the calls "reconcile-runtime" and "cleanup-trash" of the executor.
  unfoldable pub reconcile_main :
      (List String → Result String (Unit {0}))
      → (ℕ → Result String TrashSweep)
      → (ℕ → String)
      → ℕ
      → ℕ
      → Handler ℕ
  unfolding reconcile_registered_vm_runtime_states
  reconcile_main reconcile_runtime sweep shown vm_ttl trash_ttl = do
    tracked ← gets (λ s. map (λ (vm : VmInstance). vm.vm_id) (list_vms s.vms))
    lift (runtime_result (reconcile_runtime tracked))
    reconcile_registered_vm_runtime_states
    cleanup_stale_stopped_ephemeral_vms h now layer3_mtime vm_ttl
    cleanup_stale_trash_files sweep shown trash_ttl
    pure 0

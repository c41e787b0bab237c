-- ===== src/Control/Inspect.antt =====
-- src/kvm_control/control_api.py: `_sync_vm_runtime_state`, the state that an inspection finds.
use vm_forgeyard.Prelude.{
  ℕ, String, Bool, ◌||◌, Option, none, some, List, [], ◌∷◌, ◌==◌, if◌then◌else◌,
}
use vm_forgeyard.Prelude.Actions.{pure, attempt, ◌>>=◌, ◌>>◌}
use vm_forgeyard.Vm.{VmInstance, VmUpdate, set_power_state, set_readiness_state, set_status}
use vm_forgeyard.Control.{
  Handler, Host, text_of_exn, patch, begin_operation, end_operation, execute,
}
use vm_forgeyard.Control.Access.{vm_executor_payload}

-- The status follows the state, unless a deletion was asked for.
abbrev pub status_update : Bool → String → List VmUpdate
status_update delete_requested status = if delete_requested then [] else set_status status ∷ []

unfoldable pub inspected_updates : Bool → String → List VmUpdate
inspected_updates delete_requested state =
    if state == "running" || state == "paused"
    then set_power_state state ∷ status_update delete_requested state
    else if state == "stopped"
    then set_power_state state
      ∷ set_readiness_state "configuring"
      ∷ status_update delete_requested state
    else if state == "failed"
    then set_power_state state ∷ set_readiness_state "failed" ∷ status_update delete_requested state
    else []

-- A machine with the two values that an inspection adds.
pub record Inspected : Type 0 where
  pub vm : VmInstance
  pub current_ip : Option String
  pub domain_state : Option String

module _ {Net : Type 0} (h : Host Net) (now : ℕ) where
  unfoldable pub apply_updates : VmInstance → List VmUpdate → Handler VmInstance
  apply_updates vm [] = pure vm
  apply_updates vm (u ∷ us) = patch now vm.vm_id (u ∷ us)

  abbrev found_updates : VmInstance → Option String → List VmUpdate
  found_updates vm none = []
  found_updates vm (some state) = inspected_updates (vm.status == "deleting") state

  -- An inspection that fails leaves the machine and is no error of the endpoint.
  unfoldable pub sync_vm_runtime_state : VmInstance → Handler Inspected
  unfolding inspected_updates apply_updates vm_executor_payload
  sync_vm_runtime_state vm = do
    operation_id ← begin_operation now "inspect" (some vm.vm_id) vm.namespace "running" none none
    attempt
        (do
          payload ← vm_executor_payload h vm operation_id vm.template_id
          result ← execute h "inspect-vm" payload
          updated ← apply_updates vm (found_updates vm result.power_state)
          end_operation now operation_id "completed" none
          pure (record {
            vm = updated;
            current_ip = result.current_ip;
            domain_state = result.domain_state;
          }))
        (λ e. do
          end_operation now operation_id "failed" (some (text_of_exn h e))
          pure (record { vm = vm; current_ip = none; domain_state = none }))

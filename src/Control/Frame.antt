-- ===== src/Control/Frame.antt =====
-- What `_operate_vm` keeps from the creation of its operation on: whatever the records of operations
-- and the updates of its machine keep.
use vm_forgeyard.Prelude.{ℕ, String, Bool, true, false, Option, List}
use vm_forgeyard.Prelude.Actions.Keeps.{Keeps, keeps_rules}
use vm_forgeyard.Vm.{VmInstance, VmUpdate}
use vm_forgeyard.Control.{Control, Host, Exn, patch, begin_operation, end_operation}
use vm_forgeyard.Control.Access.{vm_executor_payload}
use vm_forgeyard.Control.Operate.{recreate, operate_steps, operate_failed, operate_admitted}

module _ {Net : Type 0} (h : Host Net) (now : ℕ) (P : Control → Type 0) (vm : VmInstance)
    (begin : (action : String) (vm_id : Option String) (namespace status : String)
        (category reason : Option String)
      → Keeps P (begin_operation now action vm_id namespace status category reason))
    (end : (id : ℕ) (status : String) (reason : Option String)
      → Keeps P (end_operation now id status reason))
    (change : (us : List VmUpdate) → Keeps P (patch now vm.vm_id us)) where
  payload-Keeps :
      (vm : VmInstance) (id : ℕ) (template_id : String)
      → Keeps P (vm_executor_payload h vm id template_id)
  unfolding vm_executor_payload
  payload-Keeps vm id template_id = search keeps_rules

  recreate-Keeps : (b : Bool) (id : ℕ) → Keeps P (recreate h now b vm id)
  unfolding recreate
  recreate-Keeps true id = search (keeps_rules, change)
  recreate-Keeps false id = search keeps_rules

  steps-Keeps :
      (id : ℕ) (action : String) (us : List VmUpdate) (b : Bool)
      → Keeps P (operate_steps h now vm id action us b)
  unfolding operate_steps
  steps-Keeps id action us b =
      search (keeps_rules, recreate-Keeps, payload-Keeps, end, change) depth 14

  failed-Keeps : (id : ℕ) (e : Exn) → Keeps P (operate_failed h now vm.vm_id id e)
  unfolding operate_failed
  failed-Keeps id e = search (keeps_rules, end, change)

  pub admitted-Keeps :
      (action executor_action : String) (us : List VmUpdate) (b : Bool)
      → Keeps P (operate_admitted h now vm action executor_action us b)
  unfolding operate_admitted
  admitted-Keeps action executor_action us b =
      search (keeps_rules, steps-Keeps, failed-Keeps, begin, change) depth 10

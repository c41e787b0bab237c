-- ===== src/Control/Unchanged.antt =====
-- The actions that leave the table of machines.
use vm_forgeyard.Prelude.{
  ℕ, ◌≡◌, inl, inr, String, Bool, true, false, Option, none, some, List, ◌==◌, Result-cases,
  Bool-cases,
}
use vm_forgeyard.Prelude.Actions.Keeps.{Keeps, keeps_rules}
use vm_forgeyard.Lock.Gate.{ensure_lock}
use vm_forgeyard.Auth.{AuthPrincipal}
use vm_forgeyard.Vm.{VmInstance}
use vm_forgeyard.Control.{Control, Host, begin_operation}
use vm_forgeyard.Control.Access.{require_vm_access, gate}
use vm_forgeyard.Control.Operate.{reject, check_lock}
use vm_forgeyard.Control.{archive_vm}
use vm_forgeyard.Control.Deletion.{stop_vm_for_cleanup, archive_trashed}
use vm_forgeyard.Control.Access.{vm_executor_payload}

abbrev pub HasVms : List VmInstance → Control → Type 0
HasVms vms s = s.vms ≡ vms

module _ {Net : Type 0} (h : Host Net) (now : ℕ) where
  pub trashed-HasVms :
      (vms : List VmInstance) (vm : VmInstance) (path : Option String) (reason : String)
      → Keeps (HasVms vms) (archive_trashed h now vm path reason)
  unfolding archive_trashed archive_vm
  trashed-HasVms vms vm none reason = search keeps_rules
  trashed-HasVms vms vm (some path) reason = elim (Bool-cases (path == "")) [
    | inl e ↦ record { at = λ s k. rw e k }
    | inr e ↦ record { at = λ s k. rw e k }
  ]

  pub stop-HasVms :
      (vms : List VmInstance) (vm : VmInstance) (id : ℕ) (b : Bool)
      → Keeps (HasVms vms) (stop_vm_for_cleanup h now vm id b)
  unfolding stop_vm_for_cleanup
  stop-HasVms vms vm id true = search keeps_rules
  stop-HasVms vms vm id false = search keeps_rules

  pub access-HasVms :
      (vms : List VmInstance) (principal : AuthPrincipal) (vm : VmInstance)
      → Keeps (HasVms vms) (require_vm_access principal vm)
  unfolding require_vm_access
  access-HasVms vms principal vm = search keeps_rules

  pub gate-HasVms :
      (vms : List VmInstance) (namespace resource_id : String)
      → Keeps (HasVms vms) (gate h.lock_ttl now namespace resource_id)
  unfolding gate
  gate-HasVms vms namespace resource_id = record {
    at = λ s k. elim (Result-cases (ensure_lock h.lock_ttl now s.locks namespace resource_id)) [
      | inl e ↦ rw (gate, e.1) k
      | inr e ↦ rw (gate, e.1) k
    ];
  }

  pub reject-HasVms :
      (vms : List VmInstance) (status : ℕ) (action : String) (vm_id : Option String)
      (namespace category : String) (reason : Option String)
      → Keeps (HasVms vms) (reject now status action vm_id namespace category reason)
  unfolding reject begin_operation
  reject-HasVms vms status action vm_id namespace category none = record { at = λ s k. k }
  reject-HasVms vms status action vm_id namespace category (some r) = record { at = λ s k. k }

  pub lock-HasVms :
      (vms : List VmInstance) (action : String) (vm : VmInstance) (lock : Option String)
      → Keeps (HasVms vms) (check_lock h.lock_ttl now action vm lock)
  unfolding check_lock
  lock-HasVms vms action vm none = search keeps_rules
  lock-HasVms vms action vm (some id) = search (keeps_rules, gate-HasVms, reject-HasVms)

  pub payload-HasVms :
      (vms : List VmInstance) (vm : VmInstance) (id : ℕ) (template_id : String)
      → Keeps (HasVms vms) (vm_executor_payload h vm id template_id)
  unfolding vm_executor_payload
  payload-HasVms vms vm id template_id = search keeps_rules

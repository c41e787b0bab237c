-- ===== src/Control/Removing.antt =====
-- What a creation that fails, and a deletion, leave of a machine.
use vm_forgeyard.Prelude.{
  ℕ, ◌≡◌, ◌⊎◌, refl, ap, sym, subst, ◌∙◌, inl, inr, String, Bool, none, some, List, Result, ok, err,
  Result-cases,
}
use vm_forgeyard.Prelude.Rows.{fetch, fetch-delete}
use vm_forgeyard.Prelude.Actions.{recover, continue}
use vm_forgeyard.Prelude.Actions.Keeps.{Keeps, keeps_rules}
use vm_forgeyard.Prelude.Actions.Returns.{Returns, returns_rules, Returns-handle}
use vm_forgeyard.Vm.{VmInstance, with_vm_id}
use vm_forgeyard.Vm.Queries.{get_vm}
use vm_forgeyard.Vm.Writes.{delete_vm}
use vm_forgeyard.Addresses.{reserved_for, delete_ip_reservation}
use vm_forgeyard.Operations.{create_operation}
use vm_forgeyard.Control.{
  Control, Host, Exn, remove, begin_operation, end_operation, text_of_exn, http_error,
}
use vm_forgeyard.Control.Ordering.{Order}
use vm_forgeyard.Control.Create.{
  Disks, create_steps, cleanup_calls, create_failed, undo_create, finish_create, unreserve,
}
use vm_forgeyard.Control.Deletion.{
  delete_disks, delete_row, delete_steps, delete_failed, delete_now,
}
use vm_forgeyard.Control.Unchanged.{HasVms, stop-HasVms, trashed-HasVms, payload-HasVms}

-- No machine has the key, and no address is reserved for the slot.
abbrev pub IsFree : String → String → String → Control → Type 0
IsFree vm_id namespace vm_slot s =
    (get_vm s.vms vm_id ≡ none) × (fetch (reserved_for namespace vm_slot) s.reservations ≡ none)

module _ {Net : Type 0} (h : Host Net) (now : ℕ) where
  cleanup-Returns :
      (order : Order) (disks : Disks) (vm : VmInstance) (id : ℕ)
      → Returns (cleanup_calls h now order disks vm id)
  unfolding cleanup_calls
  cleanup-Returns order disks vm id = search (returns_rules, Returns-handle) depth 14

  failed_create :
      (order : Order) (disks : Disks) (vm : VmInstance) (id : ℕ) (e : Exn) (s : Control)
      → ((create_failed h now order disks vm id e s).1 ≡ err (http_error 503 (text_of_exn h e)))
        × IsFree vm.vm_id order.namespace order.request.vm_slot
            (create_failed h now order disks vm id e s).0
  unfolding create_failed undo_create remove unreserve end_operation get_vm delete_vm
      delete_ip_reservation
  failed_create order disks vm id e s =
      let cleaned = cleanup_calls h now order disks vm id s in
      let undone = λ (r : Result Exn (Unit {0})).
        continue (cleaned.0, r) (λ _. undo_create h now order vm id e) in
      let ends = ((cleanup-Returns order disks vm id).at s).1 in
      (
        ap (λ r. (undone r).1) ends,
        subst (λ r. IsFree vm.vm_id order.namespace order.request.vm_slot (undone r).0) (sym ends)
            (
              fetch-delete (with_vm_id vm.vm_id) cleaned.0.vms,
              fetch-delete (reserved_for order.namespace order.request.vm_slot)
                  cleaned.0.reservations,
            ),
      )

  -- From the creation of the disks on, a creation returns the machine, or it raises 503 and then
  -- neither the machine nor a reservation of its address is left, whatever the executor answers.
  pub created_or_undone :
      (order : Order) (disks : Disks) (vm : VmInstance) (id : ℕ) (s : Control)
      → ((row : VmInstance) × ((finish_create h now order disks vm id s).1 ≡ ok row))
        ⊎ ((reason : String) × ((finish_create h now order disks vm id s).1
              ≡ err (http_error 503 reason))
            × IsFree vm.vm_id order.namespace order.request.vm_slot
                (finish_create h now order disks vm id s).0)
  unfolding finish_create
  created_or_undone order disks vm id s =
      let tried = create_steps h now order disks vm id s in
      let handled = λ (r : Result Exn VmInstance).
        recover (tried.0, r) (create_failed h now order disks vm id) in
      elim (Result-cases tried.1) [
        | inr e ↦ inl (e.0, ap (λ r. (handled r).1) e.1)
        | inl e ↦
            let failed = failed_create order disks vm id e.0 tried.0 in
            inr (
              text_of_exn h e.0,
              ap (λ r. (handled r).1) e.1 ∙ failed.0,
              subst (λ r. IsFree vm.vm_id order.namespace order.request.vm_slot (handled r).0)
                  (sym e.1) failed.1,
            )
      ]

  disks-HasVms :
      (vms : List VmInstance) (vm : VmInstance) (id : ℕ) (b : Bool)
      → Keeps (HasVms vms) (delete_disks h now vm id b)
  unfolding delete_disks
  disks-HasVms vms vm id b =
      search (keeps_rules, stop-HasVms, trashed-HasVms, payload-HasVms) depth 16

  -- A deletion that is waited for returns and the machine is gone, or it raises 503 and the table of
  -- machines is as before, whatever the executor answers.
  pub deleted_or_kept :
      (vm : VmInstance) (keep_layer2 : Bool) (s : Control)
      → (((delete_now h now vm keep_layer2 s).1 ≡ ok tt)
          × (get_vm (delete_now h now vm keep_layer2 s).0.vms vm.vm_id ≡ none))
        ⊎ ((reason : String) × ((delete_now h now vm keep_layer2 s).1 ≡ err (http_error 503 reason))
            × ((delete_now h now vm keep_layer2 s).0.vms ≡ s.vms))
  unfolding delete_now delete_steps delete_row delete_failed begin_operation end_operation remove
      get_vm delete_vm create_operation
  deleted_or_kept vm keep_layer2 s =
      let id = s.operations.next_id in
      let s1 =
        (begin_operation now "delete" (some vm.vm_id) vm.namespace "running" none none s).0 in
      let gone = delete_disks h now vm id keep_layer2 s1 in
      let handled = λ (r : Result Exn (Unit {0})).
        recover (continue (gone.0, r) (λ _. delete_row h now vm id)) (delete_failed h now id) in
      elim (Result-cases gone.1) [
        | inr e ↦ inl (
          ap (λ r. (handled r).1) e.1,
          ap (λ r. get_vm (handled r).0.vms vm.vm_id) e.1
              ∙ fetch-delete (with_vm_id vm.vm_id) gone.0.vms,
        )
        | inl e ↦ inr (
          text_of_exn h e.0,
          ap (λ r. (handled r).1) e.1,
          ap (λ r. (handled r).0.vms) e.1 ∙ (disks-HasVms s.vms vm id keep_layer2).at s1 refl,
        )
      ]

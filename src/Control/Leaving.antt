-- ===== src/Control/Leaving.antt =====
-- What a refused creation leaves behind, and what a deletion that is not waited for does.
use vm_forgeyard.Prelude.{
  ℕ, ◌≡◌, refl, ap, sym, subst, ◌∙◌, String, none, some, List, [], ◌∷◌, ◌==◌, Result, ok, err,
  eq_refl,
}
use vm_forgeyard.Prelude.Rows.{fetch, fetch-update_key}
use vm_forgeyard.Prelude.Actions.{continue}
use vm_forgeyard.Vm.{
  VmInstance, VmError, VmUpdate, set_readiness_state, set_status, set_retention, set_pause_reason,
  set_retention_reason, with_vm_id,
}
use vm_forgeyard.Vm.Queries.{get_vm}
use vm_forgeyard.Vm.Keys.{IsKeyed, IsKeyedResult, writes-IsKeyed}
use vm_forgeyard.Vm.Writes.{patched, added_updates}
use vm_forgeyard.Vm.Stopping.{patch_vm-found}
use vm_forgeyard.Addresses.{IpReservation, reserve_ip}
use vm_forgeyard.Operations.{create_operation}
use vm_forgeyard.Reconcile.Marked.{HasDoomed}
use vm_forgeyard.Control.{
  Control, patched_control, Host, SourceImage, patch, begin_operation, end_operation, http_error,
}
use vm_forgeyard.Control.Ordering.{Order}
use vm_forgeyard.Control.Create.{
  named_image, reserve, find_disks, reserved, create_on, create_reserved, create_ordered,
}
use vm_forgeyard.Control.Deletion.{delete_later}

abbrev doom : List VmUpdate
doom =
    set_status "deleting"
    ∷ set_readiness_state "configuring"
    ∷ set_pause_reason none
    ∷ set_retention "ephemeral"
    ∷ set_retention_reason (some "deferred delete requested")
    ∷ []

module _ {Net : Type 0} (h : Host Net) (now : ℕ) where
  unknown_image :
      (order : Order) (image_id : String) (s : Control)
      → fetch (λ (i : SourceImage). i.image_id == image_id) s.images ≡ none
      → find_disks h now order (some image_id) s ≡ (s, err (http_error 404 "image not found"))
  unfolding find_disks
  unknown_image order image_id s absent = rw (find_disks, absent)

  -- A creation that names an image which is not there raises 404, but the address that it has
  -- reserved stays reserved, with no machine.
  pub unknown_image_keeps_address :
      (order : Order) (image_id : String) (s : Control) (rows : List IpReservation)
      (row : IpReservation)
      → named_image h now order.request.image_id ≡ some image_id
      → fetch (λ (i : SourceImage). i.image_id == image_id) s.images ≡ none
      → reserve_ip h.addresses h.network h.mac_draws s.reservations order.namespace
          order.request.vm_slot order.network_id
        ≡ ok (rows, row)
      → create_ordered h now order s
        ≡ (record s { reservations = rows }, err (http_error 404 "image not found"))
  unfolding create_ordered create_reserved reserve
  unknown_image_keeps_address order image_id s rows row named absent granted =
      let s1 : Control = record s { reservations = rows } in
      let found =
        ap (λ o. find_disks h now order o s1) named ∙ unknown_image order image_id s1 absent in
      ap (λ r. continue (reserved s r) (create_reserved h now order)) granted
      ∙ ap (λ p. continue p (create_on h now order row)) found

  -- A deletion that is not waited for succeeds at once on a known machine with a disk, and leaves the
  -- machine there as the cleanup deletes it: marked, ephemeral and with its disk.
  pub delete_later-HasDoomed :
      (vm : VmInstance) (s : Control)
      → IsKeyed s.vms
      → get_vm s.vms vm.vm_id ≡ some vm
      → vm.layer3_presence ≡ "present"
      → ((delete_later h now vm s).1 ≡ ok tt) × HasDoomed vm.vm_id (delete_later h now vm s).0.vms
  unfolding delete_later begin_operation end_operation patch create_operation get_vm added_updates
  delete_later-HasDoomed vm s keyed known disk =
      let s1 =
        (begin_operation now "delete-deferred" (some vm.vm_id) vm.namespace "running" none none
          s).0 in
      let found = patch_vm-found now s.vms vm.vm_id doom vm known in
      let ended = λ (r : Result VmError (List VmInstance × VmInstance)).
        continue (patched_control s1 r)
          (λ _. end_operation now s.operations.next_id "completed" none) in
      (
        ap (λ r. (ended r).1) found,
        subst (λ r. HasDoomed vm.vm_id (ended r).0.vms) (sym found)
            (
              subst IsKeyedResult found ((writes-IsKeyed now s.vms keyed).1 vm.vm_id doom),
              patched now doom vm,
              fetch-update_key (with_vm_id vm.vm_id) (with_vm_id vm.vm_id) (patched now doom) s.vms
                    (λ r. refl)
                  ∙ rw (known, eq_refl vm.vm_id),
              (refl, refl, disk),
            ),
      )

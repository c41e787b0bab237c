-- ===== src/Vm/Takeover.antt =====
-- Machines of two namespaces whose ids are the same text.
use vm_forgeyard.Prelude.{ℕ, ◌≡◌, refl, sym, ap, ◌∙◌, String, some, List, ok, append, fstring}
use vm_forgeyard.Prelude.Rows.{update, fetch-update_key, fetch-meets}
use text.Mathlib.TextLemmas.{append_assoc, append-nil}
use vm_forgeyard.Vm.{VmInstance, VmInput, with_vm_id, next_vm_id}
use vm_forgeyard.Vm.Queries.{get_vm}
use vm_forgeyard.Vm.Writes.{new_vm, overwrite, write_vm, upsert_vm}

-- The id of slot "b-c" in namespace "a" is also that of slot "c" in namespace "a-b".
pub next_vm_id-append :
    (a b c : String)
    → next_vm_id a (append b (append "-" c)) ≡ next_vm_id (append a (append "-" b)) c
unfolding next_vm_id fstring append
next_vm_id-append a b c =
    ap (λ x. append a (append "-" x)) (append-nil (append b (append "-" c)))
    ∙ ap (append a) (sym (append_assoc "-" b (append "-" c)))
    ∙ sym (append_assoc a (append "-" b) (append "-" c))
    ∙ ap (λ x. append (append a (append "-" b)) (append "-" x)) (sym (append-nil c))

-- Writing a machine whose id is already there returns a row that has the namespace and the slot of
-- the machine that was there, whatever those of the new one are, and the address, the sizes and the
-- state of the new one.
pub upsert_vm_takes_over :
    (now : ℕ) (vms : List VmInstance) (vm : VmInput) (old : VmInstance)
    → get_vm vms vm.vm_id ≡ some old
    → (after : List VmInstance) × (row : VmInstance) × (upsert_vm now vms vm ≡ ok (after, some row))
      × (row.namespace ≡ old.namespace)
      × (row.vm_slot ≡ old.vm_slot)
      × (row.reserved_ip ≡ vm.reserved_ip)
      × (row.vcpus ≡ vm.vcpus)
      × (row.power_state ≡ vm.power_state)
unfolding upsert_vm write_vm get_vm overwrite new_vm
upsert_vm_takes_over now vms vm old h = (
  update (with_vm_id vm.vm_id) (overwrite now vm) vms,
  overwrite now vm old,
  rw (
    h,
    fetch-update_key (with_vm_id vm.vm_id) (with_vm_id vm.vm_id) (overwrite now vm) vms (λ r. refl),
    h,
    fetch-meets (with_vm_id vm.vm_id) vms old h,
  ),
  refl,
  refl,
  refl,
  refl,
  refl,
)

-- A machine of slot "b-c" of namespace "a" is taken over by the write of the machine of slot "c" of
-- namespace "a-b": the row returned is still in namespace "a" and slot "b-c", with the address and
-- the power state of the other.
pub other_namespace_takes_over :
    (now : ℕ) (vms : List VmInstance) (vm : VmInput) (old : VmInstance) (a b c : String)
    → get_vm vms (next_vm_id a (append b (append "-" c))) ≡ some old
    → vm.vm_id ≡ next_vm_id (append a (append "-" b)) c
    → (after : List VmInstance) × (row : VmInstance) × (upsert_vm now vms vm ≡ ok (after, some row))
      × (row.namespace ≡ old.namespace)
      × (row.vm_slot ≡ old.vm_slot)
      × (row.reserved_ip ≡ vm.reserved_ip)
      × (row.power_state ≡ vm.power_state)
other_namespace_takes_over now vms vm old a b c known named =
    let taken =
      upsert_vm_takes_over now vms vm old
        (ap (get_vm vms) (named ∙ sym (next_vm_id-append a b c)) ∙ known) in
    (taken.0, taken.1, taken.2, taken.3, taken.4, taken.5, taken.7)

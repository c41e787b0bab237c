-- ===== src/Vm/Keys.antt =====
-- The keys of the table of machines: the id, and the slot in the namespace.
use vm_forgeyard.Prelude.{
  ℕ, ◌≡◌, refl, ap, inl, inr, String, Bool, false, ◌&&◌, List, [], ◌∷◌, ◌++◌, ◌==◌, is_some, Result,
  ok, err, All, All-map, Bool-cases, arith, eq_iff, Option-cases,
}
use vm_forgeyard.Prelude.Rows.{fetch, fetch-none, update}
use vm_forgeyard.Prelude.Keys.{Apart, Apart-append, Apart-select, Apart-update}
use vm_forgeyard.Vm.{
  VmInstance, VmInput, VmUpdate, VmError, set_power_state, set_readiness_state, set_status,
  set_layer2_presence, set_layer3_presence, set_retention, set_pause_reason, set_retention_reason,
  set_stopped_at, with_vm_id, in_slot,
}
use vm_forgeyard.Vm.Queries.{get_vm}
use vm_forgeyard.Vm.Writes.{
  new_vm, overwrite, insert_vm, write_vm, upsert_vm, assign_all, patched, added_updates, patch_vm,
  delete_vm,
}

abbrev pub same_id : VmInstance → VmInstance → Bool
same_id r s = s.vm_id == r.vm_id

abbrev pub same_slot : VmInstance → VmInstance → Bool
same_slot r s = s.namespace == r.namespace && s.vm_slot == r.vm_slot

-- PRIMARY KEY (vm_id) and UNIQUE (namespace, vm_slot)
abbrev pub IsKeyed : List VmInstance → Type 0
IsKeyed vms = Apart same_id vms × Apart same_slot vms

eq_comm : (s t : String) → (s == t) ≡ false → (t == s) ≡ false
eq_comm s t h = ground (arith, eq_iff s t, eq_iff t s)

fetch_missing-is_some :
    (test : VmInstance → Bool) (vms : List VmInstance)
    → is_some (fetch test vms) ≡ false
    → All (λ r. test r ≡ false) vms
fetch_missing-is_some test vms h = fetch-none test vms (ground arith)

overwrite-IsKeyed :
    (now : ℕ) (vm : VmInput) (vms : List VmInstance)
    → IsKeyed vms
    → IsKeyed (update (with_vm_id vm.vm_id) (overwrite now vm) vms)
unfolding overwrite new_vm
overwrite-IsKeyed now vm vms h = (
  Apart-update same_id _ (overwrite now vm) (λ r s. refl) (λ r s. refl) vms h.0,
  Apart-update same_slot _ (overwrite now vm) (λ r s. refl) (λ r s. refl) vms h.1,
)

insert-IsKeyed :
    (now : ℕ) (vm : VmInput) (vms : List VmInstance)
    → IsKeyed vms
    → is_some (fetch (with_vm_id vm.vm_id) vms) ≡ false
    → is_some (fetch (in_slot vm.namespace vm.vm_slot) vms) ≡ false
    → IsKeyed (vms ++ new_vm now vm ∷ [])
unfolding new_vm
insert-IsKeyed now vm vms h fresh free = (
  Apart-append same_id vms (new_vm now vm) h.0
      (All-map (λ r e. eq_comm r.vm_id vm.vm_id e) vms (fetch_missing-is_some _ vms fresh)),
  Apart-append same_slot vms (new_vm now vm) h.1 (
      All-map
        (λ r e. ground (
          arith,
          e,
          eq_iff vm.namespace r.namespace,
          eq_iff r.namespace vm.namespace,
          eq_iff vm.vm_slot r.vm_slot,
          eq_iff r.vm_slot vm.vm_slot,
        ))
        vms (fetch_missing-is_some _ vms free)),
)

-- A result keeps the keys if its table does.
abbrev pub IsKeyedResult {ℓ} : {A : Type ℓ} → Result VmError (List VmInstance × A) → Type 0
IsKeyedResult (ok r) = IsKeyed r.0
IsKeyedResult (err e) = Unit

upsert-IsKeyed :
    (now : ℕ) (vm : VmInput) (vms : List VmInstance)
    → IsKeyed vms
    → IsKeyedResult (upsert_vm now vms vm)
unfolding upsert_vm write_vm insert_vm
upsert-IsKeyed now vm vms h = elim (Bool-cases (is_some (fetch (with_vm_id vm.vm_id) vms))) [
  | inl e ↦ rw e (overwrite-IsKeyed now vm vms h)
  | inr e ↦ elim (Bool-cases (is_some (fetch (in_slot vm.namespace vm.vm_slot) vms))) [
    | inl f ↦ rw (e, f) tt
    | inr f ↦ rw (e, f) (insert-IsKeyed now vm vms h e f)
  ]
]

abbrev key : VmInstance → String × String × String
key vm = (vm.vm_id, vm.namespace, vm.vm_slot)

assign_all-key : (us : List VmUpdate) (vm : VmInstance) → key (assign_all us vm) ≡ key vm
assign_all-key [] vm = refl
assign_all-key (set_power_state s ∷ us) vm = assign_all-key us vm
assign_all-key (set_readiness_state s ∷ us) vm = assign_all-key us vm
assign_all-key (set_status s ∷ us) vm = assign_all-key us vm
assign_all-key (set_layer2_presence s ∷ us) vm = assign_all-key us vm
assign_all-key (set_layer3_presence s ∷ us) vm = assign_all-key us vm
assign_all-key (set_retention s ∷ us) vm = assign_all-key us vm
assign_all-key (set_pause_reason s ∷ us) vm = assign_all-key us vm
assign_all-key (set_retention_reason s ∷ us) vm = assign_all-key us vm
assign_all-key (set_stopped_at s ∷ us) vm = assign_all-key us vm

abbrev same_key_id : String × String × String → String × String × String → Bool
same_key_id k l = l.0 == k.0

abbrev same_key_slot : String × String × String → String × String × String → Bool
same_key_slot k l = l.1 == k.1 && l.2 == k.2

patched-IsKeyed :
    (now : ℕ) (vm_id : String) (us : List VmUpdate) (vms : List VmInstance)
    → IsKeyed vms
    → IsKeyed (update (with_vm_id vm_id) (patched now us) vms)
patched-IsKeyed now vm_id us vms h =
    let kept : (r : VmInstance) → key (patched now us r) ≡ key r =
      λ r. assign_all-key us (record r { updated_at = now }) in
    (
      Apart-update same_id _ (patched now us) (λ r s. ap (λ k. same_key_id k (key s)) (kept r))
          (λ r s. ap (λ k. same_key_id (key r) k) (kept s)) vms h.0,
      Apart-update same_slot _ (patched now us) (λ r s. ap (λ k. same_key_slot k (key s)) (kept r))
          (λ r s. ap (λ k. same_key_slot (key r) k) (kept s)) vms h.1,
    )

patch_vm-IsKeyed :
    (now : ℕ) (vm_id : String) (us : List VmUpdate) (vms : List VmInstance)
    → IsKeyed vms
    → IsKeyedResult (patch_vm now vms vm_id us)
unfolding patch_vm get_vm
patch_vm-IsKeyed now vm_id us vms h =
    let all = us ++ added_updates now (get_vm vms vm_id) us in
    elim (Option-cases
      (fetch (with_vm_id vm_id) (update (with_vm_id vm_id) (patched now all) vms))) [
        | inl e ↦ rw e tt
        | inr e ↦ rw e.1 (patched-IsKeyed now vm_id all vms h)
      ]

-- In a table in which neither an id nor a slot of a
-- namespace occurs twice, this is also so after `upsert_vm`, `patch_vm` and `delete_vm`.
pub writes-IsKeyed :
    (now : ℕ) (vms : List VmInstance)
    → IsKeyed vms
    → ((vm : VmInput) → IsKeyedResult (upsert_vm now vms vm))
      × ((vm_id : String) (us : List VmUpdate) → IsKeyedResult (patch_vm now vms vm_id us))
      × ((vm_id : String) → IsKeyed (delete_vm vms vm_id))
unfolding delete_vm
writes-IsKeyed now vms h = (
  λ vm. upsert-IsKeyed now vm vms h,
  λ vm_id us. patch_vm-IsKeyed now vm_id us vms h,
  λ vm_id. (Apart-select same_id _ vms h.0, Apart-select same_slot _ vms h.1),
)

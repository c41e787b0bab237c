-- ===== src/Vm/Stopping.antt =====
-- The stopping time that `patch_vm` keeps beside the power state.
use mathlib.Core.Option
use vm_forgeyard.Prelude.{
  ℕ, ◌≡◌, refl, ap, ◌∙◌, inl, inr, String, true, false, none, some, List, [], ◌∷◌, ◌++◌, ◌==◌,
  is_some, sym, ok, ok-injective, Bool-cases, Option-cases, arith, eq_iff,
}
use vm_forgeyard.Prelude.Rows.{update, fetch-update_key, fetch-meets}
use vm_forgeyard.Vm.{
  VmInstance, VmUpdate, set_power_state, set_readiness_state, set_status, set_layer2_presence,
  set_layer3_presence, set_retention, set_pause_reason, set_retention_reason, set_stopped_at,
  with_vm_id, is_stopped_state, is_active_state,
}
use vm_forgeyard.Vm.Queries.{get_vm}
use vm_forgeyard.Vm.Writes.{
  assign_all, patched, patch_vm, new_power_state, sets_stopped_at, newly_in_state, stopping_update,
  added_updates,
}

pub assign_all-vm_id : (us : List VmUpdate) (vm : VmInstance) → (assign_all us vm).vm_id ≡ vm.vm_id
assign_all-vm_id [] vm = refl
assign_all-vm_id (set_power_state s ∷ us) vm = assign_all-vm_id us vm
assign_all-vm_id (set_readiness_state s ∷ us) vm = assign_all-vm_id us vm
assign_all-vm_id (set_status s ∷ us) vm = assign_all-vm_id us vm
assign_all-vm_id (set_layer2_presence s ∷ us) vm = assign_all-vm_id us vm
assign_all-vm_id (set_layer3_presence s ∷ us) vm = assign_all-vm_id us vm
assign_all-vm_id (set_retention s ∷ us) vm = assign_all-vm_id us vm
assign_all-vm_id (set_pause_reason s ∷ us) vm = assign_all-vm_id us vm
assign_all-vm_id (set_retention_reason s ∷ us) vm = assign_all-vm_id us vm
assign_all-vm_id (set_stopped_at s ∷ us) vm = assign_all-vm_id us vm

new_state :
    (us vs : List VmUpdate) (vm : VmInstance) (state : String)
    → new_power_state us ≡ some state
    → (assign_all (us ++ vs) vm).power_state ≡ state
new_state [] vs vm state h = cc
new_state (set_power_state s ∷ us) vs vm state h = Option.some-injective s state h
new_state (set_readiness_state s ∷ us) vs vm state h = new_state us vs vm state h
new_state (set_status s ∷ us) vs vm state h = new_state us vs vm state h
new_state (set_layer2_presence s ∷ us) vs vm state h = new_state us vs vm state h
new_state (set_layer3_presence s ∷ us) vs vm state h = new_state us vs vm state h
new_state (set_retention s ∷ us) vs vm state h = new_state us vs vm state h
new_state (set_pause_reason s ∷ us) vs vm state h = new_state us vs vm state h
new_state (set_retention_reason s ∷ us) vs vm state h = new_state us vs vm state h
new_state (set_stopped_at s ∷ us) vs vm state h = new_state us vs vm state h

new_stop :
    (us vs : List VmUpdate) (vm : VmInstance)
    → sets_stopped_at us ≡ false
    → (assign_all (us ++ vs) vm).stopped_at ≡ (assign_all vs vm).stopped_at
new_stop [] vs vm h = refl
new_stop (set_power_state s ∷ us) vs vm h = new_stop us vs vm h
new_stop (set_readiness_state s ∷ us) vs vm h = new_stop us vs vm h
new_stop (set_status s ∷ us) vs vm h = new_stop us vs vm h
new_stop (set_layer2_presence s ∷ us) vs vm h = new_stop us vs vm h
new_stop (set_layer3_presence s ∷ us) vs vm h = new_stop us vs vm h
new_stop (set_retention s ∷ us) vs vm h = new_stop us vs vm h
new_stop (set_pause_reason s ∷ us) vs vm h = new_stop us vs vm h
new_stop (set_retention_reason s ∷ us) vs vm h = new_stop us vs vm h
new_stop (set_stopped_at s ∷ us) vs vm h = cc

-- `patch_vm` on a machine that is there returns the machine with all assignments made.
pub patch_vm-found :
    (now : ℕ) (vms : List VmInstance) (vm_id : String) (us : List VmUpdate) (current : VmInstance)
    → get_vm vms vm_id ≡ some current
    → patch_vm now vms vm_id us
      ≡ ok (
        update (with_vm_id vm_id) (patched now (us ++ added_updates now (some current) us)) vms,
        patched now (us ++ added_updates now (some current) us) current,
      )
unfolding patch_vm get_vm
patch_vm-found now vms vm_id us current h =
    let all = us ++ added_updates now (some current) us in
    rw (
      h,
      fetch-update_key (with_vm_id vm_id) (with_vm_id vm_id) (patched now all) vms
          (λ r. rw (assign_all-vm_id all (record r { updated_at = now }))),
      h,
      fetch-meets (with_vm_id vm_id) vms current h,
    )

-- The rows after a patch that succeeds.
pub patched_rows :
    (now : ℕ) (vms : List VmInstance) (vm_id : String) (us : List VmUpdate)
    (r : List VmInstance × VmInstance)
    → patch_vm now vms vm_id us ≡ ok r
    → r.0
      ≡ update (with_vm_id vm_id) (patched now (us ++ added_updates now (get_vm vms vm_id) us)) vms
unfolding patch_vm
patched_rows now vms vm_id us r h =
    let rows =
      update (with_vm_id vm_id) (patched now (us ++ added_updates now (get_vm vms vm_id) us)) vms in
    elim (Option-cases (get_vm rows vm_id)) [
      | inl e ↦ cc (rw (patch_vm, e) at h)
      | inr e ↦ sym (ap (λ p. p.0) (ok-injective (rows, e.0) r (rw (patch_vm, e.1) at h)))
    ]

stopped_stamp :
    (now : ℕ) (current : VmInstance) (state : String)
    → is_stopped_state state ≡ true
    → is_some
        (assign_all
          (stopping_update now (some current) state)
          (record current { updated_at = now })).stopped_at
      ≡ true
unfolding stopping_update
stopped_stamp now current state h = elim (Bool-cases (newly_in_state state (some current))) [
  | inl e ↦ rw (h, e)
  | inr e ↦ rw (h, e) (ground (arith, e))
]

kept_stamp :
    (now : ℕ) (current : VmInstance) (state : String)
    → is_stopped_state state ≡ true
    → newly_in_state state (some current) ≡ false
    → (assign_all
        (stopping_update now (some current) state)
        (record current { updated_at = now })).stopped_at
      ≡ current.stopped_at
unfolding stopping_update
kept_stamp now current state h e = rw (h, e)

active_not_stopped :
    (state : String) → is_active_state state ≡ true → is_stopped_state state ≡ false
active_not_stopped state h = elim (Bool-cases (state == "starting")) [
  | inl e ↦ rw ((eq_iff state "starting").0 e)
  | inr e ↦ elim (Bool-cases (state == "running")) [
    | inl f ↦ rw ((eq_iff state "running").0 f)
    | inr f ↦ rw ((eq_iff state "paused").0 (rw (e, f) at h))
  ]
]

active_stamp :
    (now : ℕ) (current : VmInstance) (state : String)
    → is_active_state state ≡ true
    → (assign_all
        (stopping_update now (some current) state)
        (record current { updated_at = now })).stopped_at
      ≡ none
unfolding stopping_update
active_stamp now current state h = rw (active_not_stopped state h, h)

-- A patch that sets the power state of a known machine, and not its stopping time, succeeds and
-- returns the machine in that state: in a stopped state it has a stopping time, which is the old one
-- if it was in that state with one already, and in an active state it has none.
pub patch_vm_stamps :
    (now : ℕ) (vms : List VmInstance) (vm_id : String) (us : List VmUpdate) (current : VmInstance)
    (state : String)
    → get_vm vms vm_id ≡ some current
    → new_power_state us ≡ some state
    → sets_stopped_at us ≡ false
    → (after : List VmInstance) × (vm : VmInstance) × (patch_vm now vms vm_id us ≡ ok (after, vm))
      × (vm.power_state ≡ state)
      × (is_stopped_state state ≡ true → is_some vm.stopped_at ≡ true)
      × (is_stopped_state state ≡ true
          → newly_in_state state (some current) ≡ false
          → vm.stopped_at ≡ current.stopped_at)
      × (is_active_state state ≡ true → vm.stopped_at ≡ none)
unfolding added_updates
patch_vm_stamps now vms vm_id us current state known names keeps =
    let added = added_updates now (some current) us in
    let vm = patched now (us ++ added) current in
    let stamp : vm.stopped_at
        ≡ (assign_all (stopping_update now (some current) state)
            (record current { updated_at = now })).stopped_at =
      new_stop us added (record current { updated_at = now }) keeps
      ∙ rw (added_updates, names, keeps) in
    (
      update (with_vm_id vm_id) (patched now (us ++ added)) vms,
      vm,
      patch_vm-found now vms vm_id us current known,
      new_state us added (record current { updated_at = now }) state names,
      λ h. ap is_some stamp ∙ stopped_stamp now current state h,
      λ h k. stamp ∙ kept_stamp now current state h k,
      λ h. stamp ∙ active_stamp now current state h,
    )

-- ===== src/Reconcile/Marked.antt =====
-- What an update leaves of a machine whose deletion was asked for.
use vm_forgeyard.Prelude.{
  ℕ, ◌≡◌, sym, subst, ◌∙◌, inl, inr, String, true, Option, some, List, [], ◌∷◌, ◌++◌, ◌==◌,
  Result-cases, Option-cases, Bool-cases, All, All-append, arith, eq_iff,
}
use vm_forgeyard.Prelude.Rows.{update, fetch-meets, fetch-update_key}
use vm_forgeyard.Prelude.Actions.Keeps.{Keeps}
use vm_forgeyard.Vm.{
  VmInstance, VmUpdate, set_power_state, set_readiness_state, set_status, set_layer2_presence,
  set_layer3_presence, set_retention, set_pause_reason, set_retention_reason, set_stopped_at,
  with_vm_id, is_stopped_state, is_active_state,
}
use vm_forgeyard.Vm.Queries.{get_vm}
use vm_forgeyard.Vm.Keys.{IsKeyed, IsKeyedResult, writes-IsKeyed}
use vm_forgeyard.Vm.Stopping.{assign_all-vm_id, patched_rows}
use vm_forgeyard.Vm.Writes.{
  assign_all, patched, patch_vm, newly_in_state, new_power_state, sets_stopped_at, stopping_update,
  added_updates,
}
use vm_forgeyard.Control.{patch, begin_operation, end_operation}

-- What the cleanup deletes whatever the time.
abbrev pub IsDoomed : VmInstance → Type 0
IsDoomed vm =
    (vm.status ≡ "deleting") × (vm.retention ≡ "ephemeral") × (vm.layer3_presence ≡ "present")

-- The update leaves what makes a machine doomed.
abbrev pub Spares : VmUpdate → Type 0
Spares (set_status s) = ⊥
Spares (set_retention s) = ⊥
Spares (set_layer3_presence s) = ⊥
Spares _ = Unit

pub assigned-IsDoomed :
    (us : List VmUpdate) (vm : VmInstance)
    → All Spares us
    → IsDoomed vm
    → IsDoomed (assign_all us vm)
assigned-IsDoomed [] vm all h = h
assigned-IsDoomed (set_power_state s ∷ us) vm all h = assigned-IsDoomed us vm all.1 h
assigned-IsDoomed (set_readiness_state s ∷ us) vm all h = assigned-IsDoomed us vm all.1 h
assigned-IsDoomed (set_layer2_presence s ∷ us) vm all h = assigned-IsDoomed us vm all.1 h
assigned-IsDoomed (set_pause_reason s ∷ us) vm all h = assigned-IsDoomed us vm all.1 h
assigned-IsDoomed (set_retention_reason s ∷ us) vm all h = assigned-IsDoomed us vm all.1 h
assigned-IsDoomed (set_stopped_at s ∷ us) vm all h = assigned-IsDoomed us vm all.1 h
assigned-IsDoomed (set_status s ∷ us) vm all h = elim all.0 [ ]
assigned-IsDoomed (set_retention s ∷ us) vm all h = elim all.0 [ ]
assigned-IsDoomed (set_layer3_presence s ∷ us) vm all h = elim all.0 [ ]

stopping-Spares :
    (now : ℕ) (current : Option VmInstance) (state : String)
    → All Spares (stopping_update now current state)
unfolding stopping_update
stopping-Spares now current state = elim (Bool-cases (is_stopped_state state)) [
  | inl e ↦ elim (Bool-cases (newly_in_state state current)) [
    | inl f ↦ rw (e, f) (tt, tt)
    | inr f ↦ rw (e, f) tt
  ]
  | inr e ↦ elim (Bool-cases (is_active_state state)) [
    | inl f ↦ rw (e, f) (tt, tt)
    | inr f ↦ rw (e, f) tt
  ]
]

added-Spares :
    (now : ℕ) (current : Option VmInstance) (us : List VmUpdate)
    → All Spares (added_updates now current us)
unfolding added_updates
added-Spares now current us = elim (Option-cases (new_power_state us)) [
  | inl e ↦ rw (All, added_updates, e) tt
  | inr e ↦ elim (Bool-cases (sets_stopped_at us)) [
    | inl f ↦ rw (All, added_updates, e.1, f) tt
    | inr f ↦ rw (added_updates, e.1, f) (stopping-Spares now current e.0)
  ]
]

-- A table with unique keys, in which a machine is doomed.
abbrev pub HasDoomed : String → List VmInstance → Type 0
HasDoomed id vms = IsKeyed vms × (vm : VmInstance) × (get_vm vms id ≡ some vm) × IsDoomed vm

-- The rows that an update makes, as far as one machine is concerned.
updated-HasDoomed :
    (now : ℕ) (id vm_id : String) (us : List VmUpdate) (vms : List VmInstance) (vm : VmInstance)
    → ((vm_id == id) ≡ true → All Spares us)
    → get_vm vms id ≡ some vm
    → IsDoomed vm
    → (after : VmInstance) × (get_vm (update (with_vm_id vm_id) (patched now us) vms) id
        ≡ some after)
      × IsDoomed after
unfolding get_vm
updated-HasDoomed now id vm_id us vms vm spares known doomed =
    let found =
      fetch-update_key (with_vm_id id) (with_vm_id vm_id) (patched now us) vms
        (λ r. rw (assign_all-vm_id us (record r { updated_at = now }))) in
    let same = (eq_iff vm.vm_id id).0 (fetch-meets (with_vm_id id) vms vm known) in
    elim (Bool-cases (vm.vm_id == vm_id)) [
      | inl e ↦ (
        patched now us vm,
        found ∙ rw (known, e),
        assigned-IsDoomed us (record vm { updated_at = now })
            (spares (ground (arith, eq_iff vm.vm_id vm_id, eq_iff vm_id id, same))) doomed,
      )
      | inr e ↦ (vm, found ∙ rw (known, e), doomed)
    ]

module _ (id : String) where
  pub begin-HasDoomed :
      (now : ℕ) (action : String) (vm_id : Option String) (namespace status : String)
      (category reason : Option String)
      → Keeps
          (λ s. HasDoomed id s.vms)
          (begin_operation now action vm_id namespace status category reason)
  unfolding begin_operation
  begin-HasDoomed now action vm_id namespace status category reason = record { at = λ s h. h }

  pub end-HasDoomed :
      (now op : ℕ) (status : String) (reason : Option String)
      → Keeps (λ s. HasDoomed id s.vms) (end_operation now op status reason)
  unfolding end_operation
  end-HasDoomed now op status reason = record { at = λ s h. h }

  pub patch-HasDoomed :
      (now : ℕ) (vm_id : String) (us : List VmUpdate)
      → ((vm_id == id) ≡ true → All Spares us)
      → Keeps (λ s. HasDoomed id s.vms) (patch now vm_id us)
  unfolding patch
  patch-HasDoomed now vm_id us spares = record {
    at = λ s h. elim (Result-cases (patch_vm now s.vms vm_id us)) [
      | inl e ↦ rw (patch, e.1) h
      | inr r ↦
          let added = added_updates now (get_vm s.vms vm_id) us in
          let row =
            subst (λ vms. (vm : VmInstance) × (get_vm vms id ≡ some vm) × IsDoomed vm)
              (sym (patched_rows now s.vms vm_id us r.0 r.1))
              (updated-HasDoomed now id vm_id (us ++ added) s.vms h.1
                (λ e. All-append Spares us added (spares e) (added-Spares now _ us)) h.2 h.3) in
          rw (patch, r.1)
            (
              subst IsKeyedResult r.1 ((writes-IsKeyed now s.vms h.0).1 vm_id us),
              row.0,
              row.1,
              row.2,
            )
    ];
  }

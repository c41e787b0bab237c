-- ===== src/Control/Starting.antt =====
-- What a start promises about the capacity of the host.
use vm_forgeyard.Prelude.{
  ℕ, ◌≤◌, ◌≡◌, refl, ap, sym, subst, ◌∙◌, inl, inr, String, Bool, true, false, not, ◌||◌, Option,
  none, some, List, [], ◌∷◌, ◌++◌, ◌==◌, Result, ok, err, Result-cases, Bool-cases, arith, eq_iff,
  All,
}
use vm_forgeyard.Prelude.Rows.{update, fetch, fetch-meets, fetch-All, All-update}
use vm_forgeyard.Prelude.Integers.{IsNonNegative, to_nat}
use vm_forgeyard.Prelude.Actions.{continue, or_fail, ◌>>◌}
use vm_forgeyard.Prelude.Actions.Keeps.{Keeps}
use vm_forgeyard.Auth.{AuthPrincipal}
use vm_forgeyard.Vm.{
  VmInstance, VmUpdate, set_power_state, set_readiness_state, set_status, set_layer2_presence,
  set_layer3_presence, set_retention, set_pause_reason, set_retention_reason, set_stopped_at,
  with_vm_id, is_running_state,
}
use vm_forgeyard.Vm.Queries.{get_vm, HostLimits, current_capacity, ensure_capacity}
use vm_forgeyard.Vm.Keys.{IsKeyed}
use vm_forgeyard.Vm.Writes.{assign_all, patched, patch_vm, added_updates}
use vm_forgeyard.Vm.Stopping.{assign_all-vm_id, patched_rows}
use vm_forgeyard.Vm.Admission.{
  IsWithin, IsSized, vcpus_of, memory_of, within_sizes, sizes-IsWithin, granted_room,
}
use vm_forgeyard.Control.{
  Control, Handler, Host, Exn, patch, begin_operation, end_operation, http_error,
}
use vm_forgeyard.Control.Access.{load_vm, require_vm_access}
use vm_forgeyard.Control.Operate.{
  reject, check_lock, check_capacity, capacity_refusal, operate_admitted, operate_vm, start_vm,
  restart_vm, running_updates,
}
use vm_forgeyard.Control.Frame.{admitted-Keeps}
use vm_forgeyard.Control.Unchanged.{access-HasVms, lock-HasVms}
use vm_forgeyard.Control.Load.{
  load_with, weight, load-sum, load-length, load-bound, load_with-known, load_with-update,
}

-- The limits hold with one machine counted whatever its state.
abbrev pub IsReserved : HostLimits → String → List VmInstance → Type 0
IsReserved limits vm_id vms =
    (load_with (λ _. 1) vm_id vms ≤ limits.max_vms)
    × (load_with vcpus_of vm_id vms ≤ limits.max_total_vcpus)
    × (load_with memory_of vm_id vms ≤ limits.max_total_memory_mb)
    × All IsSized vms

reserved-IsWithin :
    (limits : HostLimits) (vm_id : String) (vms : List VmInstance)
    → IsReserved limits vm_id vms
    → IsWithin limits (current_capacity vms)
reserved-IsWithin limits vm_id vms h = sizes-IsWithin limits vms h.3 (
  omega (arith, h.0, load-bound (λ _. 1) vm_id vms, load-length vms),
  omega (arith, h.1, load-bound vcpus_of vm_id vms, load-sum vcpus_of vms),
  omega (arith, h.2, load-bound memory_of vm_id vms, load-sum memory_of vms),
)

weight-bound : (f : VmInstance → ℕ) (b : Bool) (vm : VmInstance) → weight f b vm ≤ f vm
weight-bound f true vm = omega arith
weight-bound f false vm = omega arith

weight-counted :
    (f : VmInstance → ℕ) (vm : VmInstance)
    → (vm.power_state == "running") ≡ true
    → weight f (not (is_running_state vm.power_state)) vm ≡ 0
weight-counted f vm h = rw ((eq_iff vm.power_state "running").0 h)

-- A machine that runs is counted already; for another one the host has room.
admitted-IsReserved :
    (limits : HostLimits) (vm_id : String) (vms : List VmInstance) (vm : VmInstance)
    → IsKeyed vms
    → get_vm vms vm_id ≡ some vm
    → All IsSized vms
    → IsWithin limits (current_capacity vms)
    → ((vm.power_state == "running") ≡ false
        → ensure_capacity limits vms vm.vcpus vm.memory_mb ≡ none)
    → IsReserved limits vm_id vms
unfolding get_vm
admitted-IsReserved limits vm_id vms vm keyed known sized used room =
    let within = within_sizes limits vms sized used in
    let size = fetch-All IsSized (with_vm_id vm_id) vms vm known sized in
    let count = load_with-known (λ _. 1) vm_id vms vm keyed.0 known in
    let vcpus = load_with-known vcpus_of vm_id vms vm keyed.0 known in
    let memory = load_with-known memory_of vm_id vms vm keyed.0 known in
    let counts = load-length vms in
    let sums = load-sum vcpus_of vms in
    let memories = load-sum memory_of vms in
    elim (Bool-cases (vm.power_state == "running")) [
      | inl e ↦ (
        omega (arith, count, counts, within.0, weight-counted (λ _. 1) vm e),
        omega (arith, vcpus, sums, within.1, weight-counted vcpus_of vm e),
        omega (arith, memory, memories, within.2, weight-counted memory_of vm e),
        sized,
      )
      | inr e ↦
          let granted =
            granted_room limits vms vm.vcpus vm.memory_mb sized size.0 size.1 (room e) in
          let b = not (is_running_state vm.power_state) in
          (
            omega (arith, count, counts, granted.0, weight-bound (λ _. 1) b vm),
            omega (arith, vcpus, sums, granted.1, weight-bound vcpus_of b vm),
            omega (arith, memory, memories, granted.2, weight-bound memory_of b vm),
            sized,
          )
    ]

assigned_size :
    (us : List VmUpdate) (vm : VmInstance)
    → ((assign_all us vm).vcpus ≡ vm.vcpus) × ((assign_all us vm).memory_mb ≡ vm.memory_mb)
assigned_size [] vm = (refl, refl)
assigned_size (set_power_state s ∷ us) vm = assigned_size us vm
assigned_size (set_readiness_state s ∷ us) vm = assigned_size us vm
assigned_size (set_status s ∷ us) vm = assigned_size us vm
assigned_size (set_layer2_presence s ∷ us) vm = assigned_size us vm
assigned_size (set_layer3_presence s ∷ us) vm = assigned_size us vm
assigned_size (set_retention s ∷ us) vm = assigned_size us vm
assigned_size (set_pause_reason s ∷ us) vm = assigned_size us vm
assigned_size (set_retention_reason s ∷ us) vm = assigned_size us vm
assigned_size (set_stopped_at s ∷ us) vm = assigned_size us vm

updated-IsSized :
    (now : ℕ) (vm_id : String) (us : List VmUpdate) (vms : List VmInstance)
    → All IsSized vms
    → All IsSized (update (with_vm_id vm_id) (patched now us) vms)
updated-IsSized now vm_id us vms h =
    All-update IsSized IsSized (with_vm_id vm_id) (patched now us)
      (λ r k. elim (Bool-cases (with_vm_id vm_id r)) [
        | inl e ↦
            let size = assigned_size us (record r { updated_at = now }) in
            rw e (subst IsNonNegative (sym size.0) k.0, subst IsNonNegative (sym size.1) k.1)
        | inr e ↦ rw e k
      ])
      vms h

updated-IsReserved :
    (limits : HostLimits) (now : ℕ) (vm_id : String) (us : List VmUpdate) (vms : List VmInstance)
    → IsReserved limits vm_id vms
    → IsReserved limits vm_id (update (with_vm_id vm_id) (patched now us) vms)
updated-IsReserved limits now vm_id us vms h =
    let key = λ (r : VmInstance). assign_all-vm_id us (record r { updated_at = now }) in
    let size = λ (r : VmInstance). assigned_size us (record r { updated_at = now }) in
    (
      rw (load_with-update (λ _. 1) vm_id (patched now us) (λ r. refl) key vms) h.0,
      rw (load_with-update vcpus_of vm_id (patched now us) (λ r. ap to_nat (size r).0) key vms) h.1,
      rw (load_with-update memory_of vm_id (patched now us) (λ r. ap to_nat (size r).1) key vms)
          h.2,
      updated-IsSized now vm_id us vms h.3,
    )

patch-IsReserved :
    (limits : HostLimits) (now : ℕ) (vm_id : String) (us : List VmUpdate)
    → Keeps (λ s. IsReserved limits vm_id s.vms) (patch now vm_id us)
unfolding patch
patch-IsReserved limits now vm_id us = record {
  at = λ s h. elim (Result-cases (patch_vm now s.vms vm_id us)) [
    | inl e ↦ rw (patch, e.1) h
    | inr r ↦
        rw (patch, r.1)
          (subst (IsReserved limits vm_id) (sym (patched_rows now s.vms vm_id us r.0 r.1)) (
            updated-IsReserved limits now vm_id (us ++ added_updates now (get_vm s.vms vm_id) us)
              s.vms h))
  ];
}

module _ {Net : Type 0} (h : Host Net) (now : ℕ) where
  begin-IsReserved :
      (vm_id : String) (action : String) (vm : Option String) (namespace status : String)
      (category reason : Option String)
      → Keeps
          (λ s. IsReserved h.limits vm_id s.vms)
          (begin_operation now action vm namespace status category reason)
  unfolding begin_operation
  begin-IsReserved vm_id action vm namespace status category reason = record { at = λ s k. k }

  end-IsReserved :
      (vm_id : String) (id : ℕ) (status : String) (reason : Option String)
      → Keeps (λ s. IsReserved h.limits vm_id s.vms) (end_operation now id status reason)
  unfolding end_operation
  end-IsReserved vm_id id status reason = record { at = λ s k. k }

  -- Once admitted, the machine may change its state in any way.
  admitted_action-IsWithin :
      (vm : VmInstance) (action executor_action : String) (us : List VmUpdate) (b : Bool)
      (s : Control)
      → IsReserved h.limits vm.vm_id s.vms
      → IsWithin h.limits
          (current_capacity (operate_admitted h now vm action executor_action us b s).0.vms)
  admitted_action-IsWithin vm action executor_action us b s reserved =
      reserved-IsWithin h.limits vm.vm_id _ (
        (admitted-Keeps h now (λ s. IsReserved h.limits vm.vm_id s.vms) vm
            (begin-IsReserved vm.vm_id) (end-IsReserved vm.vm_id)
            (patch-IsReserved h.limits now vm.vm_id) action executor_action us b).at
          s reserved)

  checked-IsWithin :
      (vm : VmInstance) (action executor_action : String) (us : List VmUpdate) (b : Bool)
      (refused : Option String) (s : Control)
      → IsWithin h.limits (current_capacity s.vms)
      → (refused ≡ none → IsReserved h.limits vm.vm_id s.vms)
      → IsWithin h.limits (
          current_capacity
            (continue
              (reject now 422 action (some vm.vm_id) vm.namespace "policy" refused s)
              (λ _. operate_admitted h now vm action executor_action us b)).0.vms)
  unfolding reject begin_operation
  checked-IsWithin vm action executor_action us b none s within reserved =
      admitted_action-IsWithin vm action executor_action us b s (reserved refl)
  checked-IsWithin vm action executor_action us b (some reason) s within reserved = within

  -- The machine is known and keeps the table.
  capacity-IsWithin :
      (vm : VmInstance) (action executor_action : String) (us : List VmUpdate) (b : Bool)
      (s : Control)
      → (action == "start" || action == "restart") ≡ true
      → IsKeyed s.vms
      → All IsSized s.vms
      → get_vm s.vms vm.vm_id ≡ some vm
      → IsWithin h.limits (current_capacity s.vms)
      → IsWithin h.limits (
          current_capacity
            (continue
              (check_capacity h now action vm s)
              (λ _. operate_admitted h now vm action executor_action us b)).0.vms)
  unfolding check_capacity
  capacity-IsWithin vm action executor_action us b s starts keyed sized known within =
      checked-IsWithin vm action executor_action us b (capacity_refusal h now action vm s) s within
        (λ e.
          admitted-IsReserved h.limits vm.vm_id s.vms vm keyed known sized within
            (λ idle. rw (starts, idle) at e))

  -- After an action that leaves the machines comes another.
  continued :
      (Q : List VmInstance → Type 0) (vms : List VmInstance) (p : Control × Result Exn (Unit {0}))
      (k : Handler VmInstance)
      → Q vms
      → p.0.vms ≡ vms
      → ((s : Control) → s.vms ≡ vms → Q (k s).0.vms)
      → Q (continue p (λ _. k)).0.vms
  continued Q vms (s, ok a) k q same next = next s same
  continued Q vms (s, err e) k q same next = subst Q (sym same) q

  loaded-IsWithin :
      (principal : AuthPrincipal) (vm_id action executor_action : String) (us : List VmUpdate)
      (b : VmInstance → Bool) (s : Control) (found : Option VmInstance)
      → (action == "start" || action == "restart") ≡ true
      → IsKeyed s.vms
      → All IsSized s.vms
      → IsWithin h.limits (current_capacity s.vms)
      → get_vm s.vms vm_id ≡ found
      → IsWithin h.limits (
          current_capacity
            (continue (or_fail found (http_error 404 "vm not found") s) (λ vm.
              require_vm_access principal vm
              >> (check_lock h.lock_ttl now action vm vm.lock_resource_id
                  >> (check_capacity h now action vm
                      >> operate_admitted h now vm action executor_action us (b vm))))).0.vms)
  unfolding get_vm
  loaded-IsWithin principal vm_id action executor_action us b s none starts keyed sized within
        known =
      within
  loaded-IsWithin principal vm_id action executor_action us b s (some vm) starts keyed sized within
        known =
      let Q = λ (vms : List VmInstance). IsWithin h.limits (current_capacity vms) in
      let self =
        subst (λ id. get_vm s.vms id ≡ some vm)
          (sym ((eq_iff vm.vm_id vm_id).0 (fetch-meets (with_vm_id vm_id) s.vms vm known))) known in
      continued Q s.vms (require_vm_access principal vm s) _ within
        ((access-HasVms h now s.vms principal vm).at s refl)
        (λ s1 e1.
          continued Q s.vms (check_lock h.lock_ttl now action vm vm.lock_resource_id s1) _ within
            ((lock-HasVms h now s.vms action vm vm.lock_resource_id).at s1 e1)
            (λ s2 e2.
              capacity-IsWithin vm action executor_action us (b vm) s2 starts
                (subst IsKeyed (sym e2) keyed) (subst (All IsSized) (sym e2) sized)
                (ap (λ vms. get_vm vms vm.vm_id) e2 ∙ self) (subst Q (sym e2) within)))

  -- A start and a restart leave the use of the host within its limits if it was, if the keys of the
  -- table are unique and if no size of a machine in it is negative: whether they answer or raise, at
  -- any step and whatever the executor does.
  pub starts-IsWithin :
      (principal : AuthPrincipal) (vm_id : String) (s : Control)
      → IsKeyed s.vms
      → All IsSized s.vms
      → IsWithin h.limits (current_capacity s.vms)
      → IsWithin h.limits (current_capacity (start_vm h now principal vm_id s).0.vms)
        × IsWithin h.limits (current_capacity (restart_vm h now principal vm_id s).0.vms)
  unfolding start_vm restart_vm operate_vm load_vm get_vm
  starts-IsWithin principal vm_id s keyed sized within = (
    loaded-IsWithin principal vm_id "start" "start-vm" (running_updates h now)
        (λ vm. not (vm.layer3_presence == "present")) s (fetch (with_vm_id vm_id) s.vms) refl keyed
        sized within refl,
    loaded-IsWithin principal vm_id "restart" "restart-vm" (running_updates h now) (λ vm. true) s
        (fetch (with_vm_id vm_id) s.vms) refl keyed sized within refl,
  )

-- ===== src/Vm/Admission.antt =====
-- What `ensure_capacity` promises to a caller that then starts a machine.
use vm_forgeyard.Prelude.{
  ℕ, ◌+◌, ◌≤◌, ◌≡◌, inl, inr, true, false, String, Option, none, some, List, [], ◌∷◌, ◌++◌,
  length-append, map, eq_refl, ok, Bool-cases, arith, refl, All, leb, if◌then◌else◌, length, subst,
  sym, All-append,
}
use vm_forgeyard.Prelude.Integers.{
  ℤ, pos, ◌+ℤ◌, is_above, IsAtMost, IsNonNegative, to_nat, to_nat-pos,
}
use vm_forgeyard.Prelude.Rows.{fetch, select-append, fetch-append}
use vm_forgeyard.Prelude.Keys.{All-select}
use vm_forgeyard.Vm.{VmInstance, VmInput, with_vm_id, in_slot, is_running_state}
use vm_forgeyard.Vm.Queries.{
  get_vm, sum, sum_int, counted, HostLimits, Capacity, current_capacity, ensure_capacity,
}
use vm_forgeyard.Vm.Writes.{new_vm, insert_vm, write_vm, upsert_vm}

-- The use of the host is within its limits.
abbrev pub IsWithin : HostLimits → Capacity → Type 0
IsWithin limits used =
    (used.used_vms ≤ limits.max_vms)
    × IsAtMost limits.max_total_vcpus used.used_vcpus
    × IsAtMost limits.max_total_memory_mb used.used_memory_mb

sum-append :
    (f : VmInstance → ℕ) (xs ys : List VmInstance)
    → sum (map f (xs ++ ys)) ≡ sum (map f xs) + sum (map f ys)
sum-append f [] ys = omega arith
sum-append f (x ∷ xs) ys = omega (arith, sum-append f xs ys)

-- The sizes of a machine are not negative.
abbrev pub IsSized : VmInstance → Type 0
IsSized vm = IsNonNegative vm.vcpus × IsNonNegative vm.memory_mb

-- The sizes of such a machine.
abbrev pub vcpus_of : VmInstance → ℕ
vcpus_of vm = to_nat vm.vcpus

abbrev pub memory_of : VmInstance → ℕ
memory_of vm = to_nat vm.memory_mb

sum_vcpus :
    (vms : List VmInstance)
    → All IsSized vms
    → sum_int (map (λ (r : VmInstance). r.vcpus) vms) ≡ pos (sum (map vcpus_of vms))
sum_vcpus [] h = refl
sum_vcpus (vm ∷ vms) h = rw (to_nat-pos vm.vcpus h.0.0, sum_vcpus vms h.1)

sum_memory :
    (vms : List VmInstance)
    → All IsSized vms
    → sum_int (map (λ (r : VmInstance). r.memory_mb) vms) ≡ pos (sum (map memory_of vms))
sum_memory [] h = refl
sum_memory (vm ∷ vms) h = rw (to_nat-pos vm.memory_mb h.0.1, sum_memory vms h.1)

counted-IsSized : (vms : List VmInstance) → All IsSized vms → All IsSized (counted vms)
unfolding counted
counted-IsSized vms h = All-select IsSized (λ vm. is_running_state vm.power_state) vms h

-- The use of the host, when no size is negative.
pub used_vcpus_lem :
    (vms : List VmInstance)
    → All IsSized vms
    → (current_capacity vms).used_vcpus ≡ pos (sum (map vcpus_of (counted vms)))
unfolding current_capacity
used_vcpus_lem vms h = sum_vcpus (counted vms) (counted-IsSized vms h)

pub used_memory_lem :
    (vms : List VmInstance)
    → All IsSized vms
    → (current_capacity vms).used_memory_mb ≡ pos (sum (map memory_of (counted vms)))
unfolding current_capacity
used_memory_lem vms h = sum_memory (counted vms) (counted-IsSized vms h)

-- The limits, when no size is negative.
abbrev pub IsWithinSizes : HostLimits → List VmInstance → Type 0
IsWithinSizes limits vms =
    (length (counted vms) ≤ limits.max_vms)
    × (sum (map vcpus_of (counted vms)) ≤ limits.max_total_vcpus)
    × (sum (map memory_of (counted vms)) ≤ limits.max_total_memory_mb)

pub sizes-IsWithin :
    (limits : HostLimits) (vms : List VmInstance)
    → All IsSized vms
    → IsWithinSizes limits vms
    → IsWithin limits (current_capacity vms)
unfolding current_capacity
sizes-IsWithin limits vms sized h = (
  h.0,
  subst (IsAtMost limits.max_total_vcpus) (sym (used_vcpus_lem vms sized)) h.1,
  subst (IsAtMost limits.max_total_memory_mb) (sym (used_memory_lem vms sized)) h.2,
)

pub within_sizes :
    (limits : HostLimits) (vms : List VmInstance)
    → All IsSized vms
    → IsWithin limits (current_capacity vms)
    → IsWithinSizes limits vms
unfolding current_capacity
within_sizes limits vms sized h = (
  h.0,
  subst (IsAtMost limits.max_total_vcpus) (used_vcpus_lem vms sized) h.1,
  subst (IsAtMost limits.max_total_memory_mb) (used_memory_lem vms sized) h.2,
)

-- The tests of `ensure_capacity`, on what is in use and what is asked for.
abbrev verdict : HostLimits → ℕ → ℤ → ℤ → Option String
verdict limits count vcpus memory =
    if leb limits.max_vms count
    then some "vm_limit_reached"
    else if is_above limits.max_total_vcpus vcpus
    then some "vcpu_limit_reached"
    else if is_above limits.max_total_memory_mb memory
    then some "memory_limit_reached"
    else none

admits :
    (limits : HostLimits) (count used vcpus used_memory memory : ℕ)
    → verdict limits count (pos used +ℤ pos vcpus) (pos used_memory +ℤ pos memory) ≡ none
    → (count + 1 ≤ limits.max_vms)
      × (used + vcpus ≤ limits.max_total_vcpus)
      × (used_memory + memory ≤ limits.max_total_memory_mb)
admits limits count used vcpus used_memory memory h = (ground arith, ground arith, ground arith)

pub granted_room :
    (limits : HostLimits) (vms : List VmInstance) (vcpus memory : ℤ)
    → All IsSized vms
    → IsNonNegative vcpus
    → IsNonNegative memory
    → ensure_capacity limits vms vcpus memory ≡ none
    → (length (counted vms) + 1 ≤ limits.max_vms)
      × (sum (map vcpus_of (counted vms)) + to_nat vcpus ≤ limits.max_total_vcpus)
      × (sum (map memory_of (counted vms)) + to_nat memory ≤ limits.max_total_memory_mb)
unfolding ensure_capacity current_capacity
granted_room limits vms vcpus memory sized v m h =
    admits limits (length (counted vms)) (sum (map vcpus_of (counted vms))) (to_nat vcpus)
      (sum (map memory_of (counted vms))) (to_nat memory)
      (rw
        (
          sum_vcpus (counted vms) (counted-IsSized vms sized),
          sum_memory (counted vms) (counted-IsSized vms sized),
          to_nat-pos vcpus v,
          to_nat-pos memory m,
        )
        at h)

module _ (now : ℕ) (limits : HostLimits) (vms : List VmInstance) (vm : VmInput) where
  counted-running :
      is_running_state vm.power_state ≡ true
      → counted (vms ++ new_vm now vm ∷ []) ≡ counted vms ++ new_vm now vm ∷ []
  unfolding counted new_vm
  counted-running h =
      rw (select-append (λ r. is_running_state r.power_state) vms (new_vm now vm ∷ []), h)

  counted-idle :
      is_running_state vm.power_state ≡ false
      → counted (vms ++ new_vm now vm ∷ []) ≡ counted vms ++ []
  unfolding counted new_vm
  counted-idle h =
      rw (select-append (λ r. is_running_state r.power_state) vms (new_vm now vm ∷ []), h)

  new-IsSized :
      All IsSized vms
      → IsNonNegative vm.vcpus × IsNonNegative vm.memory_mb
      → All IsSized (vms ++ new_vm now vm ∷ [])
  unfolding new_vm
  new-IsSized sized size = All-append IsSized vms (new_vm now vm ∷ []) sized (size, tt)

  room-IsWithinSizes :
      All IsSized vms
      → IsNonNegative vm.vcpus × IsNonNegative vm.memory_mb
      → ensure_capacity limits vms vm.vcpus vm.memory_mb ≡ none
      → IsWithinSizes limits (vms ++ new_vm now vm ∷ [])
  unfolding new_vm
  room-IsWithinSizes sized size h =
      let room = granted_room limits vms vm.vcpus vm.memory_mb sized size.0 size.1 h in
      elim (Bool-cases (is_running_state vm.power_state)) [
        | inl e ↦
            rw
              (
                counted-running e,
                length-append (counted vms) (new_vm now vm ∷ []),
                sum-append vcpus_of (counted vms) (new_vm now vm ∷ []),
                sum-append memory_of (counted vms) (new_vm now vm ∷ []),
              )
              (omega (arith, room.0), omega (arith, room.1), omega (arith, room.2))
        | inr e ↦
            rw
              (
                counted-idle e,
                length-append (counted vms) [],
                sum-append vcpus_of (counted vms) [],
                sum-append memory_of (counted vms) [],
              )
              (omega (arith, room.0), omega (arith, room.1), omega (arith, room.2))
      ]

vm_id_kept : (now : ℕ) (vm : VmInput) → with_vm_id vm.vm_id (new_vm now vm) ≡ true
unfolding new_vm
vm_id_kept now vm = eq_refl vm.vm_id

-- When `ensure_capacity` has agreed to the size of a machine with a new id and a new slot, and no
-- size of this machine or of one in the table is negative, writing the machine succeeds, returns it
-- and leaves the use of the host within its limits.
pub admitted-IsWithin :
    (now : ℕ) (limits : HostLimits) (vms : List VmInstance) (vm : VmInput)
    → All IsSized vms
    → IsNonNegative vm.vcpus × IsNonNegative vm.memory_mb
    → get_vm vms vm.vm_id ≡ none
    → fetch (in_slot vm.namespace vm.vm_slot) vms ≡ none
    → ensure_capacity limits vms vm.vcpus vm.memory_mb ≡ none
    → (after : List VmInstance) × (upsert_vm now vms vm ≡ ok (after, get_vm after vm.vm_id))
      × (get_vm after vm.vm_id ≡ some (new_vm now vm))
      × IsWithin limits (current_capacity after)
unfolding upsert_vm write_vm insert_vm get_vm
admitted-IsWithin now limits vms vm sized size fresh free room = (
  vms ++ new_vm now vm ∷ [],
  rw (fresh, free),
  fetch-append (with_vm_id vm.vm_id) vms (new_vm now vm) fresh (vm_id_kept now vm),
  sizes-IsWithin limits (vms ++ new_vm now vm ∷ []) (new-IsSized now limits vms vm sized size)
      (room-IsWithinSizes now limits vms vm sized size room),
)

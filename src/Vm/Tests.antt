-- ===== src/Vm/Tests.antt =====
-- Runs of the table of virtual machines on concrete rows.
use vm_forgeyard.Prelude.{
  ◌≡◌, refl, String, true, false, none, some, List, [], ◌∷◌, ok, append, fstring, is_some, length,
}
use vm_forgeyard.Prelude.Rows.{fetch}
use vm_forgeyard.Prelude.Integers.{pos}
use vm_forgeyard.Vm.{
  VmInstance, VmInput, VmUpdate, set_power_state, set_readiness_state, set_status, in_slot,
  is_stopped_state, is_active_state, next_vm_id,
}
use vm_forgeyard.Vm.Queries.{
  get_vm, counted, HostLimits, current_capacity, ensure_capacity, list_vms_for_namespace,
  list_vms_for_ids, list_stopped_ephemeral_vms, active_nested_virtualization_count,
  namespace_disk_usage, active_layer3_count,
}
use vm_forgeyard.Vm.Writes.{new_vm, upsert_vm, patch_vm, newly_in_state}
use vm_forgeyard.Vm.Stopping.{patch_vm_stamps}
use vm_forgeyard.Vm.Admission.{IsWithin, admitted-IsWithin}
use vm_forgeyard.Vm.Takeover.{other_namespace_takes_over}

abbrev input : String → String → String → String → VmInput
input vm_id namespace vm_slot power_state = record {
  vm_id = vm_id;
  namespace = namespace;
  vm_slot = vm_slot;
  template_id = "alpine";
  network_id = "dev";
  vcpus = pos 2;
  memory_mb = pos 1024;
  estimated_layer3_growth_mb = none;
  reserved_ip = "10.0.0.5";
  reserved_mac = "52:54:00:00:00:05";
  power_state = power_state;
  readiness_state = "booting";
  status = "running";
  layer2_path = "/l2";
  layer2_presence = "present";
  layer3_path = "/l3";
  layer3_presence = "present";
  pause_reason = none;
  lock_resource_id = none;
  source_image_id = none;
  retention = none;
  retention_reason = none;
  purpose = none;
  agent_session_id = none;
  agent_label = none;
  handoff = none;
  ssh_public_key = none;
  nested_virtualization = none;
  stopped_at = none;
}

abbrev running_vm : VmInstance
unfolding new_vm
running_vm = new_vm 5 (input "a-b-c" "a" "b-c" "running")

abbrev one_vm : List VmInstance
one_vm = running_vm ∷ []

abbrev small_host : HostLimits
small_host = record { max_vms = 2; max_total_vcpus = 4; max_total_memory_mb = 2048 }

second_vm_fits : ensure_capacity small_host one_vm (pos 2) (pos 1024) ≡ none
unfolding ensure_capacity current_capacity counted new_vm
second_vm_fits = refl

second_vm_too_large :
    ensure_capacity small_host one_vm (pos 3) (pos 1024) ≡ some "vcpu_limit_reached"
unfolding ensure_capacity current_capacity counted new_vm
second_vm_too_large = refl

reads :
    (length (list_vms_for_namespace one_vm "a") ≡ 1)
    × (list_vms_for_ids one_vm ("x" ∷ []) ≡ [])
    × (list_stopped_ephemeral_vms one_vm ≡ [])
    × (active_nested_virtualization_count one_vm "a" ≡ 0)
    × (active_layer3_count one_vm "/l2" ≡ 1)
    × ((namespace_disk_usage (λ path. 7) one_vm "a").layer3_bytes ≡ 7)
unfolding new_vm list_vms_for_namespace list_vms_for_ids list_stopped_ephemeral_vms
    active_nested_virtualization_count active_layer3_count namespace_disk_usage
reads = (refl, refl, refl, refl, refl, refl)

known_vm : get_vm one_vm "a-b-c" ≡ some running_vm
unfolding get_vm new_vm
known_vm = refl

unknown_vm : get_vm one_vm "x-y" ≡ none
unfolding get_vm new_vm
unknown_vm = refl

free_slot : fetch (in_slot "x" "y") one_vm ≡ none
unfolding new_vm
free_slot = refl

abbrev stop_it : List VmUpdate
stop_it = set_power_state "stopped" ∷ set_readiness_state "configuring" ∷ set_status "stopped" ∷ []

patch_vm_stamps_example :
    (after : List VmInstance) × (vm : VmInstance) × (patch_vm 9 one_vm "a-b-c" stop_it
      ≡ ok (after, vm))
    × (vm.power_state ≡ "stopped")
    × (is_stopped_state "stopped" ≡ true → is_some vm.stopped_at ≡ true)
    × (is_stopped_state "stopped" ≡ true
        → newly_in_state "stopped" (some running_vm) ≡ false
        → vm.stopped_at ≡ running_vm.stopped_at)
    × (is_active_state "stopped" ≡ true → vm.stopped_at ≡ none)
patch_vm_stamps_example =
    patch_vm_stamps 9 one_vm "a-b-c" stop_it running_vm "stopped" known_vm refl refl

admitted-IsWithin_example :
    (after : List VmInstance) × (upsert_vm 9 one_vm (input "x-y" "x" "y" "starting")
      ≡ ok (after, get_vm after "x-y"))
    × (get_vm after "x-y" ≡ some (new_vm 9 (input "x-y" "x" "y" "starting")))
    × IsWithin small_host (current_capacity after)
unfolding running_vm
admitted-IsWithin_example =
    admitted-IsWithin 9 small_host one_vm (input "x-y" "x" "y" "starting") ((tt, tt), tt) (tt, tt)
      unknown_vm free_slot second_vm_fits

same_id_elsewhere : "a-b-c" ≡ next_vm_id (append "a" (append "-" "b")) "c"
unfolding next_vm_id fstring append
same_id_elsewhere = refl

known_by_parts : get_vm one_vm (next_vm_id "a" (append "b" (append "-" "c"))) ≡ some running_vm
unfolding next_vm_id fstring append get_vm new_vm
known_by_parts = refl

other_namespace_takes_over_example :
    (after : List VmInstance) × (row : VmInstance) × (upsert_vm 9 one_vm
        (input "a-b-c" "a-b" "c" "starting")
      ≡ ok (after, some row))
    × (row.namespace ≡ running_vm.namespace)
    × (row.vm_slot ≡ running_vm.vm_slot)
    × (row.reserved_ip ≡ "10.0.0.5")
    × (row.power_state ≡ "starting")
other_namespace_takes_over_example =
    other_namespace_takes_over 9 one_vm (input "a-b-c" "a-b" "c" "starting") running_vm "a" "b" "c"
      known_by_parts same_id_elsewhere

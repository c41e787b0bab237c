-- ===== src/Vm/Queries.antt =====
-- src/kvm_control/db.py: the reads of the table of virtual machines.
use vm_forgeyard.Prelude.{
  ℕ, ◌+◌, String, Bool, not, ◌&&◌, ◌||◌, Option, none, some, List, [], ◌∷◌, ◌==◌, ◌=ℕ◌, leb,
  if◌then◌else◌, length, map,
}
use vm_forgeyard.Prelude.Integers.{ℤ, pos, ◌+ℤ◌, is_above}
use vm_forgeyard.Prelude.Rows.{select, fetch, any}
use vm_forgeyard.Vm.{
  VmInstance, with_vm_id, in_namespace, in_slot, is_stopped_state, is_running_state,
}

unfoldable pub list_vms : List VmInstance → List VmInstance
list_vms vms = vms

unfoldable pub get_vm : List VmInstance → String → Option VmInstance
get_vm vms vm_id = fetch (with_vm_id vm_id) vms

unfoldable pub get_vm_by_slot : List VmInstance → String → String → Option VmInstance
get_vm_by_slot vms namespace vm_slot = fetch (in_slot namespace vm_slot) vms

unfoldable pub list_vms_for_namespace : List VmInstance → String → List VmInstance
list_vms_for_namespace vms namespace = select (in_namespace namespace) vms

unfoldable pub list_vms_for_ids : List VmInstance → List String → List VmInstance
list_vms_for_ids vms vm_ids = select (λ vm. any (λ vm_id. vm.vm_id == vm_id) vm_ids) vms

-- The WHERE clause of `list_stopped_ephemeral_vms`.
abbrev pub is_stopped_ephemeral : VmInstance → Bool
is_stopped_ephemeral vm =
    (vm.retention == "ephemeral" && vm.layer3_presence == "present")
    && (is_stopped_state vm.power_state || vm.status == "deleting")

unfoldable pub list_stopped_ephemeral_vms : List VmInstance → List VmInstance
list_stopped_ephemeral_vms vms = select is_stopped_ephemeral vms

abbrev pub sum_int : List ℤ → ℤ
sum_int [] = pos 0
sum_int (z ∷ zs) = z +ℤ sum_int zs

abbrev pub sum : List ℕ → ℕ
sum [] = 0
sum (n ∷ ns) = n + sum ns

-- The machines that `current_capacity` counts.
unfoldable pub counted : List VmInstance → List VmInstance
counted vms = select (λ vm. is_running_state vm.power_state) vms

-- `config.host`, and what `current_capacity` returns besides it.
pub record HostLimits : Type 0 where
  pub max_vms : ℕ
  pub max_total_vcpus : ℕ
  pub max_total_memory_mb : ℕ

pub record Capacity : Type 0 where
  pub used_vms : ℕ
  pub used_vcpus : ℤ
  pub used_memory_mb : ℤ

unfoldable pub current_capacity : List VmInstance → Capacity
unfolding counted
current_capacity vms = record {
  used_vms = length (counted vms);
  used_vcpus = sum_int (map (λ (vm : VmInstance). vm.vcpus) (counted vms));
  used_memory_mb = sum_int (map (λ (vm : VmInstance). vm.memory_mb) (counted vms));
}

-- The reason of a refusal, or none.
unfoldable pub ensure_capacity : HostLimits → List VmInstance → ℤ → ℤ → Option String
unfolding current_capacity
ensure_capacity limits vms vcpus memory_mb =
    if leb limits.max_vms (current_capacity vms).used_vms
    then some "vm_limit_reached"
    else if is_above limits.max_total_vcpus ((current_capacity vms).used_vcpus +ℤ vcpus)
    then some "vcpu_limit_reached"
    else if is_above limits.max_total_memory_mb ((current_capacity vms).used_memory_mb +ℤ memory_mb)
    then some "memory_limit_reached"
    else none

unfoldable pub active_nested_virtualization_count : List VmInstance → String → ℕ
active_nested_virtualization_count vms namespace = length (
    select
      (λ vm.
        (in_namespace namespace vm && vm.nested_virtualization =ℕ 1)
        && is_running_state vm.power_state)
      vms)

-- {path for path in ...}
abbrev pub distinct : List String → List String
distinct [] = []
distinct (s ∷ ss) = s ∷ select (λ t. not (t == s)) (distinct ss)

pub record DiskUsage : Type 0 where
  pub layer2_bytes : ℕ
  pub layer3_bytes : ℕ
  pub layer2_images : ℕ
  pub layer3_images : ℕ

abbrev pub present_layer2 : List VmInstance → List String
present_layer2 rows = distinct (
    map (λ (vm : VmInstance). vm.layer2_path)
      (select (λ (vm : VmInstance). vm.layer2_presence == "present") rows))

abbrev pub present_layer3 : List VmInstance → List String
present_layer3 rows =
    map (λ (vm : VmInstance). vm.layer3_path)
      (select (λ (vm : VmInstance). vm.layer3_presence == "present") rows)

-- `safe_size` is the size of a file, of the file system.
unfoldable pub namespace_disk_usage : (String → ℕ) → List VmInstance → String → DiskUsage
unfolding list_vms_for_namespace
namespace_disk_usage safe_size vms namespace =
    let rows = list_vms_for_namespace vms namespace in
    record {
      layer2_bytes = sum (map safe_size (present_layer2 rows));
      layer3_bytes = sum (map safe_size (present_layer3 rows));
      layer2_images = length (present_layer2 rows);
      layer3_images = length (present_layer3 rows);
    }

-- `expected_path` is the path of the layer 2 image of the namespace and template.
unfoldable pub active_layer3_count : List VmInstance → String → ℕ
active_layer3_count vms expected_path = length (
    select (λ (vm : VmInstance). vm.layer2_path == expected_path && vm.layer3_presence == "present")
      vms)

-- ===== src/Vm.antt =====
-- src/kvm_control/db.py: the table of virtual machines and the methods of `Registry` on it.
-- Times are whole seconds; `now` is the time of the call. The order of listings is left out.
pub mod Queries
pub mod Writes
pub mod Keys
pub mod Stopping
pub mod Admission
pub mod Takeover
mod Tests
use vm_forgeyard.Prelude.{
  ℕ, String, Bool, ◌&&◌, ◌||◌, Option, none, some, List, [], ◌∷◌, ◌==◌, fstring,
}
use vm_forgeyard.Prelude.Integers.{ℤ}

pub record VmInstance : Type 0 where
  pub vm_id : String
  pub namespace : String
  pub vm_slot : String
  pub template_id : String
  pub network_id : String
  pub vcpus : ℤ
  pub memory_mb : ℤ
  pub estimated_layer3_growth_mb : Option ℤ
  pub reserved_ip : String
  pub reserved_mac : String
  pub power_state : String
  pub readiness_state : String
  pub status : String
  pub layer2_path : String
  pub layer2_presence : String
  pub layer3_path : String
  pub layer3_presence : String
  pub pause_reason : Option String
  pub lock_resource_id : Option String
  pub source_image_id : Option String
  pub retention : String
  pub retention_reason : Option String
  pub purpose : Option String
  pub agent_session_id : Option String
  pub agent_label : Option String
  pub handoff : Option String
  pub ssh_public_key : Option String
  pub nested_virtualization : ℕ
  pub stopped_at : Option ℕ
  pub created_at : ℕ
  pub updated_at : ℕ

-- The dictionary that `upsert_vm` takes: a key with a default that it may lack is an option.
pub record VmInput : Type 0 where
  pub vm_id : String
  pub namespace : String
  pub vm_slot : String
  pub template_id : String
  pub network_id : String
  pub vcpus : ℤ
  pub memory_mb : ℤ
  pub estimated_layer3_growth_mb : Option ℤ
  pub reserved_ip : String
  pub reserved_mac : String
  pub power_state : String
  pub readiness_state : String
  pub status : String
  pub layer2_path : String
  pub layer2_presence : String
  pub layer3_path : String
  pub layer3_presence : String
  pub pause_reason : Option String
  pub lock_resource_id : Option String
  pub source_image_id : Option String
  pub retention : Option String
  pub retention_reason : Option String
  pub purpose : Option String
  pub agent_session_id : Option String
  pub agent_label : Option String
  pub handoff : Option String
  pub ssh_public_key : Option String
  pub nested_virtualization : Option ℕ
  pub stopped_at : Option ℕ

-- One `column = ?` of an UPDATE, for the columns that the callers of `patch_vm` name.
pub data VmUpdate : Type 0 where
  set_power_state set_readiness_state set_status : String → VmUpdate
  set_layer2_presence set_layer3_presence set_retention : String → VmUpdate
  set_pause_reason set_retention_reason : Option String → VmUpdate
  set_stopped_at : Option ℕ → VmUpdate

pub data VmError : Type 0 where
  key_error : String → VmError
  integrity_error : VmError

abbrev pub with_vm_id : String → VmInstance → Bool
with_vm_id vm_id vm = vm.vm_id == vm_id

abbrev pub in_namespace : String → VmInstance → Bool
in_namespace namespace vm = vm.namespace == namespace

abbrev pub in_slot : String → String → VmInstance → Bool
in_slot namespace vm_slot vm = vm.namespace == namespace && vm.vm_slot == vm_slot

-- power_state in {"stopped", "failed"}
abbrev pub is_stopped_state : String → Bool
is_stopped_state state = state == "stopped" || state == "failed"

-- power_state IN ('starting', 'running')
abbrev pub is_running_state : String → Bool
is_running_state state = state == "starting" || state == "running"

-- power_state in {"starting", "running", "paused"}
abbrev pub is_active_state : String → Bool
is_active_state state = (state == "starting" || state == "running") || state == "paused"

abbrev pub or_value {ℓ} : {A : Type ℓ} → Option A → A → A
or_value none a = a
or_value (some a) b = a

unfoldable pub next_vm_id : String → String → String
unfolding fstring
next_vm_id namespace vm_slot = fstring (namespace ∷ "-" ∷ vm_slot ∷ [])

-- ===== src/Vm/Writes.antt =====
-- src/kvm_control/db.py: the writes of the table of virtual machines.
use vm_forgeyard.Prelude.{
  ℕ, String, Bool, true, false, not, ◌&&◌, ◌||◌, Option, none, some, List, [], ◌∷◌, ◌++◌, ◌==◌,
  if◌then◌else◌, is_some, is_none, Result, ok, err, ◌>>=◌, or_raise,
}
use vm_forgeyard.Prelude.Rows.{fetch, update, delete}
use vm_forgeyard.Vm.{
  VmInstance, VmInput, VmUpdate, set_power_state, set_readiness_state, set_status,
  set_layer2_presence, set_layer3_presence, set_retention, set_pause_reason, set_retention_reason,
  set_stopped_at, VmError, key_error, integrity_error, with_vm_id, in_slot, is_stopped_state,
  is_active_state, or_value,
}
use vm_forgeyard.Vm.Queries.{get_vm}

-- stopped_at of the row that `upsert_vm` writes.
abbrev pub stopping_time : ℕ → VmInput → Option ℕ
stopping_time now vm =
    if is_none vm.stopped_at && is_stopped_state vm.power_state then some now else vm.stopped_at

unfoldable pub new_vm : ℕ → VmInput → VmInstance
new_vm now vm = record {
  vm_id = vm.vm_id;
  namespace = vm.namespace;
  vm_slot = vm.vm_slot;
  template_id = vm.template_id;
  network_id = vm.network_id;
  vcpus = vm.vcpus;
  memory_mb = vm.memory_mb;
  estimated_layer3_growth_mb = vm.estimated_layer3_growth_mb;
  reserved_ip = vm.reserved_ip;
  reserved_mac = vm.reserved_mac;
  power_state = vm.power_state;
  readiness_state = vm.readiness_state;
  status = vm.status;
  layer2_path = vm.layer2_path;
  layer2_presence = vm.layer2_presence;
  layer3_path = vm.layer3_path;
  layer3_presence = vm.layer3_presence;
  pause_reason = vm.pause_reason;
  lock_resource_id = vm.lock_resource_id;
  source_image_id = vm.source_image_id;
  retention = or_value vm.retention "ephemeral";
  retention_reason = vm.retention_reason;
  purpose = vm.purpose;
  agent_session_id = vm.agent_session_id;
  agent_label = vm.agent_label;
  handoff = vm.handoff;
  ssh_public_key = vm.ssh_public_key;
  nested_virtualization = or_value vm.nested_virtualization 0;
  stopped_at = stopping_time now vm;
  created_at = now;
  updated_at = now;
}

-- ON CONFLICT(vm_id) DO UPDATE: the row keeps its key, namespace, slot, template and creation time.
unfoldable pub overwrite : ℕ → VmInput → VmInstance → VmInstance
unfolding new_vm
overwrite now vm row = record (new_vm now vm) {
  vm_id = row.vm_id;
  namespace = row.namespace;
  vm_slot = row.vm_slot;
  template_id = row.template_id;
  created_at = row.created_at;
}

-- UNIQUE(namespace, vm_slot) makes an INSERT fail whose key is not there but whose slot is.
unfoldable pub insert_vm : ℕ → List VmInstance → VmInput → Result VmError (List VmInstance)
unfolding new_vm
insert_vm now vms vm =
    if is_some (fetch (in_slot vm.namespace vm.vm_slot) vms)
    then err integrity_error
    else ok (vms ++ new_vm now vm ∷ [])

unfoldable pub write_vm : ℕ → List VmInstance → VmInput → Result VmError (List VmInstance)
unfolding overwrite insert_vm
write_vm now vms vm =
    if is_some (fetch (with_vm_id vm.vm_id) vms)
    then ok (update (with_vm_id vm.vm_id) (overwrite now vm) vms)
    else insert_vm now vms vm

unfoldable pub upsert_vm :
    ℕ → List VmInstance → VmInput → Result VmError (List VmInstance × Option VmInstance)
unfolding write_vm get_vm
upsert_vm now vms vm = do vms' ← write_vm now vms vm; ok (vms', get_vm vms' vm.vm_id)

-- column = ?
abbrev pub assign : VmUpdate → VmInstance → VmInstance
assign (set_power_state s) vm = record vm { power_state = s }
assign (set_readiness_state s) vm = record vm { readiness_state = s }
assign (set_status s) vm = record vm { status = s }
assign (set_layer3_presence s) vm = record vm { layer3_presence = s }
assign (set_retention s) vm = record vm { retention = s }
assign (set_layer2_presence s) vm = record vm { layer2_presence = s }
assign (set_pause_reason o) vm = record vm { pause_reason = o }
assign (set_retention_reason o) vm = record vm { retention_reason = o }
assign (set_stopped_at o) vm = record vm { stopped_at = o }

-- The keys of a dictionary differ, so the order of the assignments does not count.
abbrev pub assign_all : List VmUpdate → VmInstance → VmInstance
assign_all [] vm = vm
assign_all (u ∷ us) vm = assign u (assign_all us vm)

-- updates["power_state"]
abbrev pub new_power_state : List VmUpdate → Option String
new_power_state [] = none
new_power_state (set_power_state s ∷ us) = some s
new_power_state (_ ∷ us) = new_power_state us

-- "stopped_at" in updates
abbrev pub sets_stopped_at : List VmUpdate → Bool
sets_stopped_at [] = false
sets_stopped_at (set_stopped_at o ∷ us) = true
sets_stopped_at (_ ∷ us) = sets_stopped_at us

-- current is None or current.power_state != state or not current.stopped_at
abbrev pub newly_in_state : String → Option VmInstance → Bool
newly_in_state state none = true
newly_in_state state (some current) =
    not (current.power_state == state) || is_none current.stopped_at

-- The entry for stopped_at that `patch_vm` adds.
unfoldable pub stopping_update : ℕ → Option VmInstance → String → List VmUpdate
stopping_update now current state =
    if is_stopped_state state
    then (if newly_in_state state current then set_stopped_at (some now) ∷ [] else [])
    else if is_active_state state
    then set_stopped_at none ∷ []
    else []

unfoldable pub added_updates : ℕ → Option VmInstance → List VmUpdate → List VmUpdate
unfolding stopping_update
added_updates now current updates = elim (new_power_state updates) [
  | none ↦ []
  | some state ↦ if sets_stopped_at updates then [] else stopping_update now current state
]

abbrev pub patched : ℕ → List VmUpdate → VmInstance → VmInstance
patched now updates vm = assign_all updates (record vm { updated_at = now })

unfoldable pub patch_vm :
    ℕ → List VmInstance → String → List VmUpdate → Result VmError (List VmInstance × VmInstance)
unfolding added_updates get_vm
patch_vm now vms vm_id updates = do
  let all = updates ++ added_updates now (get_vm vms vm_id) updates
  let vms' = update (with_vm_id vm_id) (patched now all) vms
  vm ← or_raise (get_vm vms' vm_id) (key_error vm_id)
  ok (vms', vm)

unfoldable pub delete_vm : List VmInstance → String → List VmInstance
delete_vm vms vm_id = delete (with_vm_id vm_id) vms

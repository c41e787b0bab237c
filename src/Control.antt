-- ===== src/Control.antt =====
-- src/kvm_control/control_api.py: the endpoints of virtual machines. This file has the state that
-- they share, what they are given from outside, and the calls of the registry as actions.
-- The executor is a function of the action and the payload: no handler makes one call twice.
-- The JSON details of the operations and of the archived disks are left out, and so is the id of the
-- operation that some responses carry.
pub mod Access
pub mod Operate
pub mod Create
pub mod Ordering
pub mod Deletion
pub mod Inspect
pub mod Frame
pub mod Unchanged
pub mod Load
pub mod Starting
pub mod Removing
pub mod Leaving
pub mod Samples
mod Tests
use vm_forgeyard.Prelude.{
  ℕ, String, Bool, true, false, Option, none, some, List, [], ◌∷◌, ◌++◌, ◌==◌, Result, ok, err,
  fstring,
}
use vm_forgeyard.Prelude.Integers.{ℤ}
use vm_forgeyard.Prelude.Rows.{fetch}
use vm_forgeyard.Prelude.Actions.{Act}
use vm_forgeyard.Event.{StatusEvent}
use vm_forgeyard.Lock.{LockTables}
use vm_forgeyard.Auth.{HttpError}
use vm_forgeyard.Vm.{VmInstance, VmInput, VmUpdate, VmError, key_error, integrity_error}
use vm_forgeyard.Vm.Queries.{HostLimits}
use vm_forgeyard.Vm.Writes.{patch_vm, delete_vm, upsert_vm}
use vm_forgeyard.Operations.{OperationTable, OperationUpdate, create_operation, update_operation}
use vm_forgeyard.Addresses.{Ipaddress, NetworkConfig, IpReservation}
use vm_forgeyard.Archive.{TrashTable, record_archived_vm}

-- What an endpoint raises: a response, or another exception with its text.
pub data Exn : Type 0 where
  http : HttpError → Exn
  failure : String → Exn

pub record Template : Type 0 where
  pub id : String
  pub base_image : String
  pub base_image_format : String
  pub architecture : String
  pub machine_type : String
  pub boot_mode : String
  pub kernel_path : Option String
  pub initrd_path : Option String
  pub kernel_append : Option String
  pub max_vcpus : ℕ
  pub max_memory_mb : ℕ
  pub default_vcpus : ℕ
  pub default_memory_mb : ℕ

-- A network segment, by its id, and its bridge.
pub record Bridge : Type 0 where
  pub id : String
  pub bridge : String

-- The columns of an image that a new machine depends on.
pub record SourceImage : Type 0 where
  pub image_id : String
  pub source_template_id : String
  pub cache_state : String
  pub local_path : String

-- The part of a payload that describes the guest.
pub record GuestPayload : Type 0 where
  pub network_id : String
  pub network_bridge : String
  pub vcpus : ℤ
  pub memory_mb : ℤ
  pub reserved_ip : String
  pub layer3_format : String
  pub base_image : String
  pub base_image_format : String
  pub template_architecture : String
  pub template_machine_type : String
  pub template_boot_mode : String
  pub template_kernel_path : Option String
  pub template_initrd_path : Option String
  pub template_kernel_append : Option String
  pub authorized_keys_path : String
  pub nested_virtualization : Bool
  pub ssh_public_key : Option String

-- The payload of an executor action; a key that it may lack is an option.
pub record Payload : Type 0 where
  pub operation_id : Option ℕ
  pub vm_id : String
  pub namespace : Option String
  pub layer2_path : String
  pub layer3_path : String
  pub reserved_mac : Option String
  pub base_image : Option (String × String)
  pub layer3_size_mb : Option ℕ
  pub guest : Option GuestPayload

-- What the services read of a result of the executor. Times are seconds.
pub record ExecutorResult : Type 0 where
  pub power_state : Option String
  pub trashed_path : Option String
  pub current_ip : Option String
  pub domain_state : Option String
  pub host_booted_at : Option ℕ
  pub inspected_at : Option ℕ

-- The configuration, the executor and the host.
pub record Host (Net : Type 0) : Type 0 where
  pub run : String → Payload → Result String ExecutorResult
  pub limits : HostLimits
  pub templates : List Template
  pub bridges : List Bridge
  pub max_layer3_per_layer2 : ℕ
  pub max_nested_vms : ℕ
  pub nested_enabled : Bool
  pub nested_probe : Option String
  pub dry_run : Bool
  pub join : String → String → String
  pub base_dir : String
  pub layer2_dir : String
  pub layer3_dir : String
  pub authorized_keys_path : String
  pub file_exists : String → Bool
  pub exception_text : HttpError → String
  pub lock_ttl : ℕ
  pub addresses : Ipaddress Net
  pub network : NetworkConfig
  pub mac_draws : List String

-- The tables that the endpoints read and change, and the events that they record.
pub record Control : Type 0 where
  pub vms : List VmInstance
  pub operations : OperationTable
  pub locks : LockTables
  pub reservations : List IpReservation
  pub images : List SourceImage
  pub archive : TrashTable
  pub events : List StatusEvent

abbrev pub Handler : Type 0 → Type 0
Handler A = Act Control Exn A

-- str(exc)
abbrev pub text_of_exn : {Net : Type 0} → Host Net → Exn → String
text_of_exn h (http e) = h.exception_text e
text_of_exn h (failure reason) = reason

abbrev pub vm_failure : VmError → Exn
vm_failure (key_error vm_id) = failure (fstring ("'" ∷ vm_id ∷ "'" ∷ []))
vm_failure integrity_error = failure "UNIQUE constraint failed"

abbrev pub http_error : ℕ → String → Exn
http_error status detail = http (record { status = status; detail = detail })

abbrev pub patched_control :
    Control → Result VmError (List VmInstance × VmInstance) → Control × Result Exn VmInstance
patched_control s (ok r) = (record s { vms = r.0 }, ok r.1)
patched_control s (err e) = (s, err (vm_failure e))

-- registry.patch_vm
unfoldable pub patch : ℕ → String → List VmUpdate → Handler VmInstance
unfolding patch_vm
patch now vm_id us s = patched_control s (patch_vm now s.vms vm_id us)

-- registry.delete_vm
unfoldable pub remove : String → Handler (Unit {0})
remove vm_id s = (record s { vms = delete_vm s.vms vm_id }, ok tt)

abbrev written :
    Control
    → VmInput
    → Result VmError (List VmInstance × Option VmInstance)
    → Control × Result Exn VmInstance
written s vm (ok (vms, some row)) = (record s { vms = vms }, ok row)
written s vm (ok (vms, none)) = (record s { vms = vms }, err (failure "None"))
written s vm (err e) = (s, err (vm_failure e))

-- registry.upsert_vm
unfoldable pub upsert : ℕ → VmInput → Handler VmInstance
unfolding upsert_vm
upsert now vm s = written s vm (upsert_vm now s.vms vm)

-- registry.create_operation
unfoldable pub begin_operation :
    ℕ → String → Option String → String → String → Option String → Option String → Handler ℕ
unfolding create_operation
begin_operation now action vm_id namespace status category reason s =
    let made =
      create_operation now s.operations action vm_id (some namespace) status "{}" category reason in
    (record s { operations = made.0; events = s.events ++ made.2 ∷ [] }, ok made.1)

abbrev recorded : List StatusEvent → Option StatusEvent → List StatusEvent
recorded events none = events
recorded events (some event) = events ++ event ∷ []

-- registry.update_operation
unfoldable pub end_operation : ℕ → ℕ → String → Option String → Handler (Unit {0})
unfolding update_operation
end_operation now id status reason s =
    let ended =
      update_operation now s.operations id status
        (record { details = none; rejection_category = none; rejection_reason = reason }) in
    (record s { operations = ended.0; events = recorded s.events ended.1 }, ok tt)

abbrev executed : Result String ExecutorResult → Result Exn ExecutorResult
executed (ok r) = ok r
executed (err reason) = err (failure reason)

-- executor.run
abbrev pub execute : {Net : Type 0} → Host Net → String → Payload → Handler ExecutorResult
execute h action payload s = (s, executed (h.run action payload))

-- registry.record_archived_vm
unfoldable pub archive_vm : ℕ → VmInstance → String → String → Handler (Unit {0})
unfolding record_archived_vm
archive_vm now vm trashed_path reason s =
    (record s { archive = record_archived_vm now s.archive vm trashed_path reason }, ok tt)

-- The payload of an action on the disks of a machine.
abbrev pub disk_payload : Option ℕ → VmInstance → Payload
disk_payload operation_id vm = record {
  operation_id = operation_id;
  vm_id = vm.vm_id;
  namespace = none;
  layer2_path = vm.layer2_path;
  layer3_path = vm.layer3_path;
  reserved_mac = none;
  base_image = none;
  layer3_size_mb = none;
  guest = none;
}

-- ===== src/Control/Create.antt =====
-- src/kvm_control/control_api.py: `create_vm`.
use vm_forgeyard.Prelude.{
  ℕ, String, not, ◌&&◌, Option, none, some, List, [], ◌∷◌, ◌==◌, if◌then◌else◌, is_some, is_none,
  truthy, fstring, Result, ok, err,
}
use vm_forgeyard.Prelude.Rows.{fetch}
use vm_forgeyard.Prelude.Actions.{pure, raise, or_fail, attempt, fail_if, when, ◌>>=◌, ◌>>◌}
use vm_forgeyard.Auth.{AuthPrincipal}
use vm_forgeyard.Vm.{VmInstance, VmInput, set_layer2_presence, set_layer3_presence, next_vm_id}
use vm_forgeyard.Addresses.{
  IpReservation, AddressError, value_error, stop_iteration, integrity_error, reserve_ip,
  delete_ip_reservation,
}
use vm_forgeyard.Control.{
  Control, Handler, Host, SourceImage, Exn, failure, http_error, text_of_exn, patch, remove, upsert,
  begin_operation, end_operation, execute, disk_payload,
}
use vm_forgeyard.Control.Access.{vm_executor_payload}
use vm_forgeyard.Control.Operate.{running_updates, stopped_updates}
use vm_forgeyard.Control.Ordering.{
  CreateVmRequest, Order, layer2_file, layer3_file, check_request, check_order,
}

abbrev address_failure : AddressError → Exn
address_failure (value_error reason) = failure reason
address_failure stop_iteration = failure "StopIteration"
address_failure integrity_error = failure "UNIQUE constraint failed"

abbrev pub reserved :
    Control
    → Result AddressError (List IpReservation × IpReservation)
    → Control × Result Exn IpReservation
reserved s (ok r) = (record s { reservations = r.0 }, ok r.1)
reserved s (err e) = (s, err (address_failure e))

-- Where the disks of the new machine are, and the image that they are made of.
pub record Disks : Type 0 where
  pub image : Option SourceImage
  pub layer2_path : String
  pub layer3_path : String

module _ {Net : Type 0} (h : Host Net) (now : ℕ) where
  -- registry.reserve_ip
  unfoldable pub reserve : String → String → String → Handler IpReservation
  unfolding reserve_ip
  reserve namespace vm_slot network_id s =
      reserved s
        (reserve_ip h.addresses h.network h.mac_draws s.reservations namespace vm_slot network_id)

  -- registry.delete_ip_reservation
  unfoldable pub unreserve : String → String → Handler (Unit {0})
  unfolding delete_ip_reservation
  unreserve namespace vm_slot s =
      (record s { reservations = delete_ip_reservation s.reservations namespace vm_slot }, ok tt)

  abbrev pub load_image : String → Handler SourceImage
  load_image image_id s =
      or_fail (fetch (λ (i : SourceImage). i.image_id == image_id) s.images)
        (http_error 404 "image not found") s

  -- The checks on the image of a request that names one.
  unfoldable pub find_disks : Order → Option String → Handler Disks
  find_disks order none = pure (record {
    image = none;
    layer2_path = layer2_file h now order.namespace order.request.template_id;
    layer3_path = layer3_file h now order.namespace order.request.vm_slot;
  })
  find_disks order (some image_id) = do
    image ← load_image image_id
    fail_if (not (image.cache_state == "present")) (http_error 422 "image is not present on host")
    fail_if (not (image.source_template_id == order.request.template_id))
        (http_error 422 "image template does not match requested template")
    pure (record {
      image = some image;
      layer2_path = image.local_path;
      layer3_path = layer3_file h now order.namespace order.request.vm_slot;
    })

  -- The empty text names no image.
  abbrev pub named_image : Option String → Option String
  named_image image_id = if truthy image_id then image_id else none

  unfoldable pub new_input : Order → IpReservation → Disks → VmInput
  unfolding next_vm_id
  new_input order reservation disks = record {
    vm_id = next_vm_id order.namespace order.request.vm_slot;
    namespace = order.namespace;
    vm_slot = order.request.vm_slot;
    template_id = order.request.template_id;
    network_id = order.network_id;
    vcpus = order.vcpus;
    memory_mb = order.memory_mb;
    estimated_layer3_growth_mb = order.request.estimated_layer3_growth_mb;
    reserved_ip = reservation.ip_address;
    reserved_mac = reservation.mac_address;
    power_state = if order.request.autostart then "starting" else "stopped";
    readiness_state = if order.request.autostart then "booting" else "configuring";
    status = "creating";
    layer2_path = disks.layer2_path;
    layer2_presence = if is_some disks.image then "present" else "absent";
    layer3_path = disks.layer3_path;
    layer3_presence = "absent";
    pause_reason = none;
    lock_resource_id = order.request.lock_resource_id;
    source_image_id = order.request.image_id;
    retention = some order.retention;
    retention_reason = order.request.retention_reason;
    purpose = order.request.purpose;
    agent_session_id = order.request.agent_session_id;
    agent_label = order.request.agent_label;
    handoff = order.request.handoff;
    ssh_public_key = order.ssh_public_key;
    nested_virtualization = some (if order.nested then 1 else 0);
    stopped_at = none;
  }

  -- The disk that all machines of the template share, or the prepared image.
  unfoldable pub make_layer2 : Order → Disks → VmInstance → ℕ → Handler VmInstance
  make_layer2 order disks vm operation_id =
      if vm.layer2_presence == "present"
      then (do
        fail_if (is_some disks.image && not (h.file_exists disks.layer2_path))
            (failure (fstring ("missing prepared image " ∷ disks.layer2_path ∷ [])))
        pure vm)
      else (do
        execute h "create-layer2" (record (disk_payload (some operation_id) vm) {
          layer2_path = disks.layer2_path;
          layer3_path = disks.layer3_path;
          base_image =
              some (h.join h.base_dir order.template.base_image, order.template.base_image_format);
        })
        patch now vm.vm_id (set_layer2_presence "present" ∷ []))

  unfoldable pub first_state : Order → VmInstance → ℕ → Handler VmInstance
  first_state order vm operation_id =
      if order.request.autostart
      then (do
        payload ← vm_executor_payload h vm operation_id order.request.template_id
        execute h "start-vm" payload
        patch now vm.vm_id (running_updates h now))
      else patch now vm.vm_id (stopped_updates h now)

  -- The body of the `try`.
  unfoldable pub create_steps : Order → Disks → VmInstance → ℕ → Handler VmInstance
  unfolding make_layer2 first_state
  create_steps order disks vm operation_id = do
    layered ← make_layer2 order disks vm operation_id
    execute h "create-layer3" (record (disk_payload (some operation_id) layered) {
      layer2_path = disks.layer2_path;
      layer3_path = disks.layer3_path;
      layer3_size_mb = order.request.layer3_size_mb;
    })
    current ← patch now vm.vm_id (set_layer3_presence "present" ∷ [])
    done ← first_state order current operation_id
    end_operation now operation_id "completed" none
    pure done

  -- The three cleanup calls, whose errors are dropped and which change no table.
  unfoldable pub cleanup_calls : Order → Disks → VmInstance → ℕ → Handler (Unit {0})
  cleanup_calls order disks vm operation_id = do
    attempt
        (do
          payload ← vm_executor_payload h vm operation_id order.request.template_id
          execute h "delete-runtime" payload
          pure tt)
        (λ e. pure tt)
    attempt (do execute h "delete-layer3" (disk_payload (some operation_id) vm); pure tt)
        (λ e. pure tt)
    when (is_none disks.image) (
        attempt (do execute h "delete-layer2" (disk_payload (some operation_id) vm); pure tt)
          (λ e. pure tt))

  -- The machine and its reservation go.
  unfoldable pub undo_create : Order → VmInstance → ℕ → Exn → Handler VmInstance
  undo_create order vm operation_id e = do
    remove vm.vm_id
    unreserve order.namespace order.request.vm_slot
    end_operation now operation_id "failed" (some (text_of_exn h e))
    raise (http_error 503 (text_of_exn h e))

  -- The body of the `except`.
  unfoldable pub create_failed : Order → Disks → VmInstance → ℕ → Exn → Handler VmInstance
  unfolding cleanup_calls undo_create
  create_failed order disks vm operation_id e = do
    cleanup_calls order disks vm operation_id
    undo_create order vm operation_id e

  -- The `try` and the `except`.
  unfoldable pub finish_create : Order → Disks → VmInstance → ℕ → Handler VmInstance
  unfolding create_steps create_failed
  finish_create order disks vm operation_id =
      attempt (create_steps order disks vm operation_id) (create_failed order disks vm operation_id)

  -- From the creation of the operation on.
  unfoldable pub create_on : Order → IpReservation → Disks → Handler VmInstance
  unfolding new_input finish_create
  create_on order reservation disks = do
    operation_id ←
        begin_operation now "create" (some (next_vm_id order.namespace order.request.vm_slot))
          order.namespace "running" none none
    vm ← upsert now (new_input order reservation disks)
    finish_create order disks vm operation_id

  -- With a reserved address.
  unfoldable pub create_reserved : Order → IpReservation → Handler VmInstance
  unfolding find_disks create_on
  create_reserved order reservation = do
    disks ← find_disks order (named_image order.request.image_id)
    create_on order reservation disks

  unfoldable pub create_ordered : Order → Handler VmInstance
  unfolding reserve create_reserved
  create_ordered order = do
    reservation ← reserve order.namespace order.request.vm_slot order.network_id
    create_reserved order reservation

  unfoldable pub create_vm : AuthPrincipal → CreateVmRequest → Handler VmInstance
  unfolding check_request check_order create_ordered
  create_vm principal request = do
    order ← check_request h now principal request
    check_order h now order
    create_ordered order

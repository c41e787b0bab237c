-- ===== src/Control/Access.antt =====
-- src/kvm_control/control_api.py: what the endpoints of machines check before they act.
use vm_forgeyard.Prelude.{
  ℕ, String, Bool, true, false, not, ◌&&◌, ◌||◌, Option, none, some, List, [], ◌∷◌, ◌++◌, ◌==◌,
  ◌=ℕ◌, if◌then◌else◌, is_some, truthy, Result, ok, err, fstring,
}
use vm_forgeyard.Prelude.Rows.{fetch, any}
use vm_forgeyard.Prelude.Splits.{cut, strip}
use text.Mathlib.Text.{starts_with}
use vm_forgeyard.Prelude.Actions.{pure, raise, lift, or_fail, fail_if, when, ◌>>=◌, ◌>>◌}
use vm_forgeyard.Event.{StatusEvent}
use vm_forgeyard.Lock.{LockTables, LockError, key_error, type_error, permission_error}
use vm_forgeyard.Lock.Gate.{ensure_lock}
use vm_forgeyard.Auth.{AuthPrincipal, HttpError}
use vm_forgeyard.Auth.Policy.{is_in}
use vm_forgeyard.Auth.Namespaces.{effective_namespace, require_zone}
use vm_forgeyard.Vm.{VmInstance}
use vm_forgeyard.Vm.Queries.{get_vm}
use vm_forgeyard.Control.{
  Control, Handler, Host, Template, Bridge, Payload, GuestPayload, Exn, http, failure, http_error,
}

abbrev pub as_exn {ℓ} : {A : Type ℓ} → Result HttpError A → Result Exn A
as_exn (ok a) = ok a
as_exn (err e) = err (http e)

unfoldable pub load_vm : String → Handler VmInstance
load_vm vm_id s = or_fail (get_vm s.vms vm_id) (http_error 404 "vm not found") s

unfoldable pub require_vm_access : AuthPrincipal → VmInstance → Handler (Unit {0})
require_vm_access principal vm = do
  lift (as_exn (effective_namespace principal (some vm.namespace)))
  lift (as_exn (require_zone principal vm.network_id))

abbrev lock_failure : LockError → Exn
lock_failure key_error = failure "KeyError"
lock_failure type_error = failure "TypeError"
lock_failure (permission_error reason) = failure reason

abbrev checked :
    Control
    → Result LockError (LockTables × Option String × List StatusEvent)
    → Control × Result Exn (Option String)
checked s (err e) = (s, err (lock_failure e))
checked s (ok r) = (record s { locks = r.0; events = s.events ++ r.2 }, ok r.1)

-- `ensure_lock`: the reason of a refusal, or none.
unfoldable pub gate : ℕ → ℕ → String → String → Handler (Option String)
unfolding ensure_lock
gate ttl now namespace resource_id s = checked s (ensure_lock ttl now s.locks namespace resource_id)

unfoldable pub default_retention : Option String → String → String
default_retention requested network_id =
    if truthy requested
    then elim requested [ none ↦ "" | some r ↦ r ]
    else if network_id == "live"
    then "live"
    else "ephemeral"

unfoldable pub validate_retention : AuthPrincipal → String → Handler (Unit {0})
validate_retention principal retention = do
  fail_if (retention == "protected" && not principal.is_admin) (http_error 403 "retention denied")
  fail_if (retention == "live" && not (principal.is_admin || principal.role == "live"))
      (http_error 403 "retention denied")

unfoldable pub check_nested_probe : Option String → Handler (Unit {0})
check_nested_probe none = pure tt
check_nested_probe (some reason) = raise (
    http_error 503
      (fstring ("nested virtualization is not supported on this host: " ∷ reason ∷ [])))

-- `nested_probe` is the reason why the host has no nested virtualization, if it has none.
unfoldable pub validate_nested_virtualization :
    {Net : Type 0} → Host Net → AuthPrincipal → Bool → Handler (Unit {0})
unfolding check_nested_probe
validate_nested_virtualization h principal false = pure tt
validate_nested_virtualization h principal true = do
  fail_if (not h.nested_enabled)
      (http_error 503 "nested virtualization is not enabled on this host")
  when (not h.dry_run) (check_nested_probe h.nested_probe)
  fail_if (not (is_in "nested_kvm" principal.capabilities))
      (http_error 403 "nested virtualization denied")

abbrev key_types : List String
key_types =
    "ssh-ed25519 " ∷ "ssh-rsa " ∷ "ecdsa-sha2-nistp256 " ∷ "ecdsa-sha2-nistp384 "
    ∷ "ecdsa-sha2-nistp521 " ∷ []

unfoldable pub validate_ssh_public_key : Option String → Handler (Option String)
unfolding cut
validate_ssh_public_key none = pure none
validate_ssh_public_key (some value) = do
  let key = strip value
  fail_if (is_some (cut 10 key) || is_some (cut 13 key))
      (http_error 422 "ssh_public_key must be a single public key line")
  fail_if (not (any (starts_with key) key_types))
      (http_error 422 "ssh_public_key must be an OpenSSH public key")
  pure (some key)

module _ {Net : Type 0} (h : Host Net) where
  unfoldable pub find_template : String → Option Template
  find_template id = fetch (λ (t : Template). t.id == id) h.templates

  unfoldable pub find_bridge : String → Option Bridge
  find_bridge id = fetch (λ (b : Bridge). b.id == id) h.bridges

  abbrev filled_key : Option String → Option String
  filled_key key = if truthy key then key else none

  abbrev pub guest_payload : VmInstance → Template → Bridge → GuestPayload
  guest_payload vm template bridge = record {
    network_id = vm.network_id;
    network_bridge = bridge.bridge;
    vcpus = vm.vcpus;
    memory_mb = vm.memory_mb;
    reserved_ip = vm.reserved_ip;
    layer3_format = "qcow2";
    base_image = h.join h.base_dir template.base_image;
    base_image_format = template.base_image_format;
    template_architecture = template.architecture;
    template_machine_type = template.machine_type;
    template_boot_mode = template.boot_mode;
    template_kernel_path = template.kernel_path;
    template_initrd_path = template.initrd_path;
    template_kernel_append = template.kernel_append;
    authorized_keys_path = h.authorized_keys_path;
    nested_virtualization = not (vm.nested_virtualization =ℕ 0);
    ssh_public_key = filled_key vm.ssh_public_key;
  }

  unfoldable pub vm_executor_payload : VmInstance → ℕ → String → Handler Payload
  unfolding find_template find_bridge
  vm_executor_payload vm operation_id template_id = do
    template ← or_fail (find_template template_id) (http_error 422 "unknown template")
    bridge ←
        or_fail (find_bridge vm.network_id)
          (http_error 422 (fstring ("unknown network " ∷ vm.network_id ∷ [])))
    pure (record {
      operation_id = some operation_id;
      vm_id = vm.vm_id;
      namespace = some vm.namespace;
      layer2_path = vm.layer2_path;
      layer3_path = vm.layer3_path;
      reserved_mac = some vm.reserved_mac;
      base_image = none;
      layer3_size_mb = none;
      guest = some (guest_payload vm template bridge);
    })

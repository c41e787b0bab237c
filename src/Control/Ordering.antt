-- ===== src/Control/Ordering.antt =====
-- src/kvm_control/control_api.py: what `create_vm` checks before it reserves anything.
use vm_forgeyard.Prelude.{
  ℕ, String, Bool, true, false, not, ◌&&◌, ◌||◌, Option, none, some, List, [], ◌∷◌, ◌++◌, ◌==◌,
  ◌=ℕ◌, if◌then◌else◌, truthy, is_some, is_none, length, leb, fstring,
}
use vm_forgeyard.Prelude.Integers.{ℤ, pos, is_above, or_number}
use vm_forgeyard.Prelude.Actions.{pure, raise, lift, gets, fail_if, when, ◌>>=◌, ◌>>◌}
use vm_forgeyard.Auth.{AuthPrincipal}
use vm_forgeyard.Auth.Policy.{is_in}
use vm_forgeyard.Auth.Namespaces.{effective_namespace, require_zone, default_zone}
use vm_forgeyard.Vm.Queries.{
  get_vm_by_slot, ensure_capacity, active_nested_virtualization_count, active_layer3_count,
}
use vm_forgeyard.Control.{Handler, Host, Template, http_error, begin_operation}
use vm_forgeyard.Control.Access.{
  as_exn, gate, default_retention, validate_retention, validate_nested_virtualization,
  validate_ssh_public_key, find_template, find_bridge,
}
use vm_forgeyard.Control.Operate.{reject}

pub record CreateVmRequest : Type 0 where
  pub namespace : Option String
  pub template_id : String
  pub vm_slot : String
  pub network_id : String
  pub vcpus : Option ℤ
  pub memory_mb : Option ℤ
  pub estimated_layer3_growth_mb : Option ℤ
  pub layer3_size_mb : Option ℕ
  pub lock_resource_id : Option String
  pub autostart : Bool
  pub image_id : Option String
  pub retention : Option String
  pub retention_reason : Option String
  pub purpose : Option String
  pub agent_session_id : Option String
  pub agent_label : Option String
  pub handoff : Option String
  pub ssh_public_key : Option String
  pub requested_capabilities : List String
  pub nested_virtualization : Bool

-- payload.vcpus or template.default_vcpus: zero counts as missing.
abbrev size_or : Option ℤ → ℕ → ℤ
size_or none default = pos default
size_or (some size) default = or_number size (pos default)

-- What the checks make of a request.
pub record Order : Type 0 where
  pub request : CreateVmRequest
  pub namespace : String
  pub network_id : String
  pub retention : String
  pub nested : Bool
  pub ssh_public_key : Option String
  pub template : Template
  pub vcpus : ℤ
  pub memory_mb : ℤ

-- list(dict.fromkeys(...)), and the capability that the flag asks for.
abbrev without_repeats : List String → List String → List String
without_repeats seen [] = seen
without_repeats seen (c ∷ cs) = without_repeats (if is_in c seen then seen else seen ++ c ∷ []) cs

unfoldable pub requested_capabilities : CreateVmRequest → List String
requested_capabilities request =
    let capabilities = without_repeats [] request.requested_capabilities in
    if request.nested_virtualization && not (is_in "nested_kvm" capabilities)
    then capabilities ++ "nested_kvm" ∷ []
    else capabilities

-- The only zone of a principal that does not have the default one.
unfoldable pub chosen_network : AuthPrincipal → String → String
chosen_network principal network_id =
    if network_id == "dev"
      && (not (is_in "dev" principal.allowed_zones) && length principal.allowed_zones =ℕ 1)
    then elim (default_zone principal) [ none ↦ network_id | some zone ↦ zone ]
    else network_id

-- The rejection of a create, which has no machine yet.
abbrev pub reject_create : ℕ → ℕ → String → String → Option String → Handler (Unit {0})
reject_create now status namespace category reason =
    reject now status "create" none namespace category reason

abbrev pub refusal_if : Bool → String → Option String
refusal_if true reason = some reason
refusal_if false reason = none

module _ {Net : Type 0} (h : Host Net) (now : ℕ) where
  abbrev pub checked_template : String → Option Template → Handler Template
  checked_template namespace none = do
    begin_operation now "create" none namespace "rejected" (some "policy") (some "unknown template")
    raise (http_error 422 "unknown template")
  checked_template namespace (some template) = pure template

  abbrev pub layer2_file : String → String → String
  layer2_file namespace template_id =
      h.join h.layer2_dir (fstring (namespace ∷ "--" ∷ template_id ∷ ".qcow2" ∷ []))

  abbrev pub layer3_file : String → String → String
  layer3_file namespace vm_slot =
      h.join h.layer3_dir (fstring (namespace ∷ "--" ∷ vm_slot ∷ ".qcow2" ∷ []))

  -- Who asks, in which namespace and zone, and with which rights.
  unfoldable pub check_request : AuthPrincipal → CreateVmRequest → Handler Order
  unfolding requested_capabilities chosen_network find_template
  check_request principal request = do
    fail_if (principal.authenticated && not (truthy request.agent_session_id))
        (http_error 422 "agent_session_id is required for authenticated VM orders")
    namespace ← lift (as_exn (effective_namespace principal request.namespace))
    let network_id = chosen_network principal request.network_id
    lift (as_exn (require_zone principal network_id))
    let retention = default_retention request.retention network_id
    let nested = is_in "nested_kvm" (requested_capabilities request)
    validate_retention principal retention
    validate_nested_virtualization h principal nested
    ssh_public_key ← validate_ssh_public_key request.ssh_public_key
    template ← checked_template namespace (find_template h request.template_id)
    existing ← gets (λ s. get_vm_by_slot s.vms namespace request.vm_slot)
    fail_if (is_some existing) (http_error 409 "vm slot already exists")
    pure (record {
      request = request;
      namespace = namespace;
      network_id = network_id;
      retention = retention;
      nested = nested;
      ssh_public_key = ssh_public_key;
      template = template;
      vcpus = size_or request.vcpus template.default_vcpus;
      memory_mb = size_or request.memory_mb template.default_memory_mb;
    })

  unfoldable pub check_order_lock : Order → Option String → Handler (Unit {0})
  unfolding gate
  check_order_lock order none = pure tt
  check_order_lock order (some resource_id) = when (not (resource_id == "")) (do
    refused ← gate h.lock_ttl now order.namespace resource_id
    reject_create now 423 order.namespace "lock" refused)

  -- The network, the limits of the template, the lock and the capacity of the host.
  unfoldable pub check_order : Order → Handler (Unit {0})
  unfolding check_order_lock reject find_bridge
  check_order order = do
    reject_create now 422 order.namespace "policy"
        (refusal_if (is_none (find_bridge h order.network_id)) "unknown network")
    reject_create now 422 order.namespace "policy" (
        refusal_if
          (is_above order.template.max_vcpus order.vcpus
            || is_above order.template.max_memory_mb order.memory_mb)
          "template resource limit exceeded")
    check_order_lock order order.request.lock_resource_id
    capacity ← gets (λ s. ensure_capacity h.limits s.vms order.vcpus order.memory_mb)
    reject_create now 422 order.namespace "policy" capacity
    active ← gets (λ s. active_nested_virtualization_count s.vms order.namespace)
    reject_create now 422 order.namespace "policy" (
        refusal_if (order.nested && leb h.max_nested_vms active)
          "nested virtualization namespace limit reached")
    layers ←
        gets
          (λ s. active_layer3_count s.vms (layer2_file order.namespace order.request.template_id))
    reject_create now 422 order.namespace "policy"
        (refusal_if (leb h.max_layer3_per_layer2 layers) "layer3 limit reached")

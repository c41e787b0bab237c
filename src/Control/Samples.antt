-- ===== src/Control/Samples.antt =====
-- A host with one template and one network, an administrator, and machines in some states.
use vm_forgeyard.Prelude.{
  String, true, false, Option, none, some, List, [], ◌∷◌, ◌==◌, if◌then◌else◌, Result, ok, err,
  append,
}
use vm_forgeyard.Auth.{AuthPrincipal, HttpError}
use vm_forgeyard.Prelude.Integers.{pos}
use vm_forgeyard.Vm.{VmInstance}
use vm_forgeyard.Addresses.{Ipaddress, NetworkConfig}
use vm_forgeyard.Control.{Control, Host, Payload, ExecutorResult, Template}
use vm_forgeyard.Control.Ordering.{CreateVmRequest, Order}

-- Addresses are texts of one letter.
abbrev pub letters : Ipaddress (Unit {0})
letters = record {
  ip_address = λ s. some (record { version = 4; number = if s == "a" then 1 else 7 });
  interface_network = λ s. some tt;
  ip_network = λ s. some tt;
  net_version = λ n. 4;
  prefixlen = λ n. 24;
  subnets_24 = λ n. [];
  hosts = λ n. "0" ∷ "1" ∷ "2" ∷ "3" ∷ "4" ∷ "5" ∷ "6" ∷ "7" ∷ "8" ∷ "9" ∷ "a" ∷ [];
  contains = λ n a. true;
}

abbrev pub one_segment : NetworkConfig
one_segment = record {
  cidr = "10.0.0.0/24";
  segments =
      record {
        id = "dev";
        address = some "10.0.0.1/24";
        dhcp_range_start = some "x";
        dhcp_range_end = some "y";
      }
      ∷ [];
}

abbrev pub alpine : Template
alpine = record {
  id = "alpine";
  base_image = "alpine.qcow2";
  base_image_format = "qcow2";
  architecture = "x86_64";
  machine_type = "q35";
  boot_mode = "bios";
  kernel_path = none;
  initrd_path = none;
  kernel_append = none;
  max_vcpus = 4;
  max_memory_mb = 4096;
  default_vcpus = 2;
  default_memory_mb = 1024;
}

-- The executor answers all calls; an inspection finds a machine stopped.
abbrev pub answer : ExecutorResult
answer = record {
  power_state = some "stopped";
  trashed_path = some "/trash/web";
  current_ip = none;
  domain_state = none;
  host_booted_at = none;
  inspected_at = none;
}

abbrev pub host_with : (String → Payload → Result String ExecutorResult) → Host (Unit {0})
host_with run = record {
  run = run;
  limits = record { max_vms = 2; max_total_vcpus = 8; max_total_memory_mb = 8192 };
  templates = alpine ∷ [];
  bridges = record { id = "dev"; bridge = "br0" } ∷ [];
  max_layer3_per_layer2 = 4;
  max_nested_vms = 1;
  nested_enabled = false;
  nested_probe = none;
  dry_run = false;
  join = λ dir file. append dir file;
  base_dir = "/base/";
  layer2_dir = "/l2/";
  layer3_dir = "/l3/";
  authorized_keys_path = "/keys";
  file_exists = λ path. true;
  exception_text = λ (e : HttpError). e.detail;
  lock_ttl = 60;
  addresses = letters;
  network = one_segment;
  mac_draws = "m1" ∷ [];
}

abbrev pub answering : Host (Unit {0})
answering = host_with (λ action payload. ok answer)

abbrev pub refusing : Host (Unit {0})
refusing = host_with (λ action payload. err "no helper")

abbrev pub admin : AuthPrincipal
admin = record {
  username = "root";
  role = "admin";
  namespace = none;
  allowed_zones = "dev" ∷ [];
  capabilities = [];
  source_ip = "127.0.0.1";
  token_id = none;
  authenticated = true;
  is_admin = true;
  auth_mode = "token";
  credential_status = "valid";
  credential_principal = none;
}

abbrev pub web : VmInstance
web = record {
  vm_id = "ci-web";
  namespace = "ci";
  vm_slot = "web";
  template_id = "alpine";
  network_id = "dev";
  vcpus = pos 2;
  memory_mb = pos 1024;
  estimated_layer3_growth_mb = none;
  reserved_ip = "a";
  reserved_mac = "m1";
  power_state = "stopped";
  readiness_state = "configuring";
  status = "stopped";
  layer2_path = "/l2/ci--alpine.qcow2";
  layer2_presence = "present";
  layer3_path = "/l3/ci--web.qcow2";
  layer3_presence = "present";
  pause_reason = none;
  lock_resource_id = none;
  source_image_id = none;
  retention = "ephemeral";
  retention_reason = none;
  purpose = none;
  agent_session_id = some "s";
  agent_label = none;
  handoff = none;
  ssh_public_key = none;
  nested_virtualization = 0;
  stopped_at = some 5;
  created_at = 1;
  updated_at = 5;
}

abbrev pub with_vms : List VmInstance → Control
with_vms vms = record {
  vms = vms;
  operations = record { operations = []; next_id = 1 };
  locks = record { resources = []; requests = []; next_id = 1 };
  reservations = [];
  images = [];
  archive = record { items = []; next_id = 1 };
  events = [];
}

abbrev pub request : Option String → CreateVmRequest
request image_id = record {
  namespace = some "ci";
  template_id = "alpine";
  vm_slot = "web";
  network_id = "dev";
  vcpus = none;
  memory_mb = none;
  estimated_layer3_growth_mb = none;
  layer3_size_mb = none;
  lock_resource_id = none;
  autostart = true;
  image_id = image_id;
  retention = none;
  retention_reason = none;
  purpose = none;
  agent_session_id = some "s";
  agent_label = none;
  handoff = none;
  ssh_public_key = none;
  requested_capabilities = [];
  nested_virtualization = false;
}

abbrev pub order : Option String → Order
order image_id = record {
  request = request image_id;
  namespace = "ci";
  network_id = "dev";
  retention = "ephemeral";
  nested = false;
  ssh_public_key = none;
  template = alpine;
  vcpus = pos 2;
  memory_mb = pos 1024;
}

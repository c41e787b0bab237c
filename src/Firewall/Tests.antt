-- ===== src/Firewall/Tests.antt =====
-- Runs of the rules and of the release endpoints on concrete tables.
use vm_forgeyard.Prelude.{
  ℕ, ◌≡◌, refl, String, none, some, List, [], ◌∷◌, length, ok, err, append, fstring, arith,
}
use vm_forgeyard.Prelude.Rows.{select, any}
use vm_forgeyard.Event.{StatusEvent}
use vm_forgeyard.Lock.{LockTables, LockRequest, granted, promote, promote_free, grant_next}
use vm_forgeyard.Lock.Requests.{release_lock, get_lock_request, release_row, withdraw}
use vm_forgeyard.Auth.{AuthPrincipal}
use vm_forgeyard.Auth.Login.{config_admin}
use vm_forgeyard.Auth.Namespaces.{effective_namespace, free_namespace}
use vm_forgeyard.Auth.Policy.{is_in}
use vm_forgeyard.Firewall.{FirewallRule, WorkaroundRule, RuleTables, add_entry}
use vm_forgeyard.Firewall.Rules.{
  of_lock, list_firewall_egress_rules, list_firewall_ingress_rules,
  effective_firewall_egress_entries, effective_firewall_ingress_entries, entries_of,
  add_rule_entries,
}
use vm_forgeyard.Firewall.Access.{upsert_access, create_firewall_access_rule}
use vm_forgeyard.Firewall.Workarounds.{workaround_of_lock}
use vm_forgeyard.Firewall.Endpoints.{as_http, named_releaser, release_request, release_lock_request}
use vm_forgeyard.Firewall.Reconciliation.{
  LockService, FirewallServices, failure, normalize_ipv4_cidrs, normalized_entry,
}
use vm_forgeyard.Firewall.Syncing.{HasSources}
use vm_forgeyard.Firewall.Entries.{gives, effective_entries}
use vm_forgeyard.Firewall.Deletion.{
  IsCleared, KeepsOthers, release_request_clears, control_release_keeps_workarounds,
  failed_release_leaves_rules,
}

abbrev rule_of : ℕ → String → FirewallRule
rule_of id namespace = record {
  id = id;
  namespace = namespace;
  lock_resource_id = "gpu";
  mode = "allow_list";
  target_ip = some "1.1.1.1";
  created_at = 5;
  updated_at = 5;
}

abbrev hosts_entry : WorkaroundRule
hosts_entry = record {
  id = 1;
  namespace = "ci";
  lock_resource_id = "gpu";
  kind = "domain";
  value = "example.org";
  workaround_type = "hosts";
  target_ip = "1.1.1.1";
  apply_on = [];
  maps_to_service = none;
  manifest_id = none;
  constraint_id = none;
  notes = none;
  metadata = [];
  created_at = 5;
  updated_at = 5;
}

abbrev some_rules : RuleTables
some_rules = record {
  egress = record { rules = rule_of 1 "ci" ∷ rule_of 2 "dev" ∷ []; next_id = 3 };
  ingress = record { rules = rule_of 1 "ci" ∷ []; next_id = 2 };
  access = record { rules = []; next_id = 1 };
  workarounds = record { rules = hosts_entry ∷ []; next_id = 2 };
}

abbrev ci_request : LockRequest
ci_request = record {
  id = 1;
  resource_id = "gpu";
  namespace = "ci";
  status = granted;
  last_lease_refresh_at = none;
  lease_expires_at = none;
  lease_expired_at = none;
  lease_ttl_seconds = none;
  created_at = 5;
  updated_at = 5;
}

abbrev held : LockTables
held = record {
  resources =
      record {
        resource_id = "gpu";
        holder_namespace = some "ci";
        capacity = 1;
        state = "active";
        updated_at = 5;
      }
      ∷ [];
  requests = ci_request ∷ [];
  next_id = 2;
}

abbrev running : LockService
running = record {
  locks = held;
  rules = some_rules;
  operations = record { operations = []; next_id = 1 };
  events = [];
}

abbrev answering : FirewallServices
answering = record {
  run = λ action p. ok "{}";
  exception_text = λ e. "failed";
  ip_network =
      λ value. ok (record { version = 4; prefixlen = 8; network_address = value; text = value });
  default_ingress_sources = "10.0.0.0/8" ∷ [];
  layer2_dir = "/l2";
  layer3_dir = "/l3";
  join = λ dir name. fstring (dir ∷ "/" ∷ name ∷ []);
  details = λ entries ipset_name zone. "{}";
}

abbrev failing : FirewallServices
failing = record answering { run = λ action p. err (failure "ipset failed") }

default_sources : HasSources answering
unfolding normalize_ipv4_cidrs normalized_entry
default_sources = record { at = λ s. ("10.0.0.0/8" ∷ [], refl) }

abbrev operator : AuthPrincipal
operator = config_admin "admin"

listed : effective_firewall_egress_entries some_rules ≡ "1.1.1.1" ∷ []
unfolding effective_firewall_egress_entries list_firewall_egress_rules entries_of add_rule_entries
    add_entry
listed = refl

-- A second access rule of the same key is the first one.
twice :
    length
      (create_firewall_access_rule 9
        (create_firewall_access_rule 8 some_rules "ci" "gpu" "dev" "1.0.0.0/8").0
        "ci"
        "gpu"
        "dev"
        "1.0.0.0/8").0.access.rules
    ≡ 1
unfolding create_firewall_access_rule upsert_access
twice = refl

effective_entries_example :
    (is_in "1.1.1.1" (effective_firewall_egress_entries some_rules)
      ≡ any (gives "1.1.1.1") (list_firewall_egress_rules some_rules none))
    × (is_in "1.1.1.1" (effective_firewall_ingress_entries some_rules)
        ≡ any (gives "1.1.1.1") (list_firewall_ingress_rules some_rules none))
effective_entries_example = effective_entries some_rules "1.1.1.1"

known_request : get_lock_request held 1 ≡ some ci_request
unfolding get_lock_request
known_request = refl

own_name : effective_namespace operator (named_releaser none (some ci_request)) ≡ ok "ci"
unfolding effective_namespace free_namespace
own_name = refl

abbrev freed : LockTables × LockRequest × List StatusEvent
unfolding release_row withdraw promote promote_free grant_next fstring append
freed = elim (release_row 9 held ci_request "ci") [ ok r ↦ r | err e ↦ (held, ci_request, []) ]

freed_by_release : release_lock 9 held 1 "ci" ≡ ok (freed.0, freed.1, freed.2)
unfolding release_lock release_row withdraw promote promote_free grant_next fstring append
freed_by_release = refl

release_request_clears_example :
    let after = release_request answering 9 operator 1 none running in
    (after.1 ≡ ok freed.1)
    × (after.0.locks ≡ freed.0)
    × IsCleared "ci" "gpu" after.0.rules
    × (select (workaround_of_lock "ci" "gpu") after.0.rules.workarounds.rules ≡ [])
    × KeepsOthers "ci" "gpu" some_rules after.0.rules
release_request_clears_example =
    release_request_clears answering 9 running operator 1 none ci_request freed.1 "ci" freed.0
      freed.2 known_request own_name freed_by_release (λ action p. ("{}", refl)) default_sources

control_release_keeps_workarounds_example :
    let after = release_lock_request answering 9 operator 1 none running in
    (after.1 ≡ ok freed.1)
    × (after.0.locks ≡ freed.0)
    × IsCleared "ci" "gpu" after.0.rules
    × (after.0.rules.workarounds ≡ some_rules.workarounds)
    × KeepsOthers "ci" "gpu" some_rules after.0.rules
control_release_keeps_workarounds_example =
    control_release_keeps_workarounds answering 9 running operator 1 none ci_request freed.1 "ci"
      freed.0 freed.2 known_request own_name freed_by_release (λ action p. ("{}", refl))
      default_sources

failed_release_leaves_rules_example :
    let after = release_request failing 9 operator 1 none running in
    (after.1 ≡ err (as_http (failure "ipset failed")))
    × (after.0.locks ≡ freed.0)
    × (select (of_lock "ci" "gpu") after.0.rules.egress.rules ≡ [])
    × (after.0.rules.access ≡ some_rules.access)
    × (after.0.rules.workarounds ≡ some_rules.workarounds)
failed_release_leaves_rules_example =
    failed_release_leaves_rules failing 9 running operator 1 none ci_request freed.1 "ci" freed.0
      freed.2 known_request own_name freed_by_release (failure "ipset failed") (λ p. refl)
      (omega arith)

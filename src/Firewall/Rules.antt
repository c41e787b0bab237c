-- ===== src/Firewall/Rules.antt =====
-- src/kvm_control/db.py: the egress and the ingress rules.
use vm_forgeyard.Prelude.{
  ℕ, suc, String, Bool, true, ◌&&◌, Option, none, some, List, [], ◌∷◌, ◌++◌, ◌==◌, ◌=ℕ◌, length,
  if◌then◌else◌,
}
use vm_forgeyard.Prelude.Rows.{select, fetch, delete}
use vm_forgeyard.Firewall.{FirewallRule, RuleTable, RuleTables, add_entry}

abbrev pub with_rule_id : ℕ → FirewallRule → Bool
with_rule_id id r = r.id =ℕ id

abbrev pub of_lock : String → String → FirewallRule → Bool
of_lock namespace lock_resource_id r =
    r.namespace == namespace && r.lock_resource_id == lock_resource_id

-- An optional WHERE namespace = ?
abbrev pub of_namespace : Option String → FirewallRule → Bool
of_namespace none r = true
of_namespace (some namespace) r = r.namespace == namespace

-- The INSERT and the SELECT of the row, which both tables have.
unfoldable pub create_rule :
    ℕ
    → RuleTable FirewallRule
    → String
    → String
    → String
    → Option String
    → RuleTable FirewallRule × Option FirewallRule
create_rule now t namespace lock_resource_id mode target =
    let rules =
      t.rules
      ++ record {
        id = t.next_id;
        namespace = namespace;
        lock_resource_id = lock_resource_id;
        mode = mode;
        target_ip = target;
        created_at = now;
        updated_at = now;
      }
        ∷ [] in
    (record { rules = rules; next_id = suc t.next_id }, fetch (with_rule_id t.next_id) rules)

unfoldable pub create_firewall_egress_rule :
    ℕ → RuleTables → String → String → String → Option String → RuleTables × Option FirewallRule
unfolding create_rule
create_firewall_egress_rule now t namespace lock_resource_id mode target_cidr =
    let created = create_rule now t.egress namespace lock_resource_id mode target_cidr in
    (record t { egress = created.0 }, created.1)

unfoldable pub create_firewall_ingress_rule :
    ℕ → RuleTables → String → String → String → Option String → RuleTables × Option FirewallRule
unfolding create_rule
create_firewall_ingress_rule now t namespace lock_resource_id mode target_ip =
    let created = create_rule now t.ingress namespace lock_resource_id mode target_ip in
    (record t { ingress = created.0 }, created.1)

unfoldable pub list_firewall_egress_rules : RuleTables → Option String → List FirewallRule
list_firewall_egress_rules t namespace = select (of_namespace namespace) t.egress.rules

unfoldable pub list_firewall_ingress_rules : RuleTables → Option String → List FirewallRule
list_firewall_ingress_rules t namespace = select (of_namespace namespace) t.ingress.rules

unfoldable pub get_firewall_egress_rule : RuleTables → ℕ → Option FirewallRule
get_firewall_egress_rule t id = fetch (with_rule_id id) t.egress.rules

unfoldable pub get_firewall_ingress_rule : RuleTables → ℕ → Option FirewallRule
get_firewall_ingress_rule t id = fetch (with_rule_id id) t.ingress.rules

-- The row is read first; without one nothing is deleted.
unfoldable pub delete_firewall_egress_rule : RuleTables → ℕ → RuleTables × Option FirewallRule
delete_firewall_egress_rule t id = elim (fetch (with_rule_id id) t.egress.rules) [
  | none ↦ (t, none)
  | some row ↦ (
    record t {
      egress = record {
        rules = delete (with_rule_id id) t.egress.rules;
        next_id = t.egress.next_id;
      };
    },
    some row,
  )
]

unfoldable pub delete_firewall_ingress_rule : RuleTables → ℕ → RuleTables × Option FirewallRule
delete_firewall_ingress_rule t id = elim (fetch (with_rule_id id) t.ingress.rules) [
  | none ↦ (t, none)
  | some row ↦ (
    record t {
      ingress = record {
        rules = delete (with_rule_id id) t.ingress.rules;
        next_id = t.ingress.next_id;
      };
    },
    some row,
  )
]

-- The number of rows that were there is returned.
unfoldable pub delete_firewall_egress_rules_for_lock : RuleTables → String → String → RuleTables × ℕ
delete_firewall_egress_rules_for_lock t namespace lock_resource_id = (
  record t {
    egress = record {
      rules = delete (of_lock namespace lock_resource_id) t.egress.rules;
      next_id = t.egress.next_id;
    };
  },
  length (select (of_lock namespace lock_resource_id) t.egress.rules),
)

unfoldable pub delete_firewall_ingress_rules_for_lock :
    RuleTables → String → String → RuleTables × ℕ
delete_firewall_ingress_rules_for_lock t namespace lock_resource_id = (
  record t {
    ingress = record {
      rules = delete (of_lock namespace lock_resource_id) t.ingress.rules;
      next_id = t.ingress.next_id;
    };
  },
  length (select (of_lock namespace lock_resource_id) t.ingress.rules),
)

-- The body of the loop over the rules, on the set so far.
unfoldable pub add_rule_entries : FirewallRule → List String → List String
unfolding add_entry
add_rule_entries r entries =
    if r.mode == "allow_all"
    then add_entry "0.0.0.0/1" (add_entry "128.0.0.0/1" entries)
    else elim r.target_ip [
      | none ↦ entries
      | some ip ↦ if ip == "" then entries else add_entry ip entries
    ]

-- The order in which a set is filled does not count.
unfoldable pub entries_of : List FirewallRule → List String
unfolding add_rule_entries
entries_of [] = []
entries_of (r ∷ rs) = add_rule_entries r (entries_of rs)

unfoldable pub effective_firewall_egress_entries : RuleTables → List String
unfolding entries_of list_firewall_egress_rules
effective_firewall_egress_entries t = entries_of (list_firewall_egress_rules t none)

unfoldable pub effective_firewall_ingress_entries : RuleTables → List String
unfolding entries_of list_firewall_ingress_rules
effective_firewall_ingress_entries t = entries_of (list_firewall_ingress_rules t none)

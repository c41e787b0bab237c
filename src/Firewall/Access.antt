-- ===== src/Firewall/Access.antt =====
-- src/kvm_control/db.py: the access rules.
use vm_forgeyard.Prelude.{
  ℕ, suc, String, Bool, true, ◌&&◌, Option, none, some, List, [], ◌∷◌, ◌++◌, ◌==◌, ◌=ℕ◌, length,
  if◌then◌else◌,
}
use vm_forgeyard.Prelude.Rows.{select, fetch, update, delete, any}
use vm_forgeyard.Firewall.{AccessRule, RuleTable, RuleTables, add_entry}

abbrev pub access_with_id : ℕ → AccessRule → Bool
access_with_id id r = r.id =ℕ id

abbrev pub access_of_lock : String → String → AccessRule → Bool
access_of_lock namespace lock_resource_id r =
    r.namespace == namespace && r.lock_resource_id == lock_resource_id

abbrev pub access_of_namespace : Option String → AccessRule → Bool
access_of_namespace none r = true
access_of_namespace (some namespace) r = r.namespace == namespace

-- UNIQUE(namespace, lock_resource_id, target_zone, source_cidr)
abbrev pub same_access : String → String → String → String → AccessRule → Bool
same_access namespace lock_resource_id target_zone source_cidr r =
    (r.namespace == namespace && r.lock_resource_id == lock_resource_id)
    && (r.target_zone == target_zone && r.source_cidr == source_cidr)

-- ON CONFLICT DO UPDATE SET updated_at. AUTOINCREMENT gives no id to a row that is not inserted.
unfoldable pub upsert_access :
    ℕ → RuleTable AccessRule → String → String → String → String → RuleTable AccessRule
upsert_access now t namespace lock_resource_id target_zone source_cidr =
    let same = same_access namespace lock_resource_id target_zone source_cidr in
    if any same t.rules
    then record {
      rules = update same (λ r. record r { updated_at = now }) t.rules;
      next_id = t.next_id;
    }
    else record {
      rules =
          t.rules
          ++ record {
            id = t.next_id;
            namespace = namespace;
            lock_resource_id = lock_resource_id;
            target_zone = target_zone;
            source_cidr = source_cidr;
            created_at = now;
            updated_at = now;
          }
            ∷ [];
      next_id = suc t.next_id;
    }

unfoldable pub create_firewall_access_rule :
    ℕ → RuleTables → String → String → String → String → RuleTables × Option AccessRule
unfolding upsert_access
create_firewall_access_rule now t namespace lock_resource_id target_zone source_cidr =
    let access = upsert_access now t.access namespace lock_resource_id target_zone source_cidr in
    (
      record t { access = access },
      fetch (same_access namespace lock_resource_id target_zone source_cidr) access.rules,
    )

unfoldable pub list_firewall_access_rules : RuleTables → Option String → List AccessRule
list_firewall_access_rules t namespace = select (access_of_namespace namespace) t.access.rules

unfoldable pub delete_firewall_access_rule : RuleTables → ℕ → RuleTables × Option AccessRule
delete_firewall_access_rule t id = elim (fetch (access_with_id id) t.access.rules) [
  | none ↦ (t, none)
  | some row ↦ (
    record t {
      access = record {
        rules = delete (access_with_id id) t.access.rules;
        next_id = t.access.next_id;
      };
    },
    some row,
  )
]

unfoldable pub delete_firewall_access_rules_for_lock : RuleTables → String → String → RuleTables × ℕ
delete_firewall_access_rules_for_lock t namespace lock_resource_id = (
  record t {
    access = record {
      rules = delete (access_of_lock namespace lock_resource_id) t.access.rules;
      next_id = t.access.next_id;
    };
  },
  length (select (access_of_lock namespace lock_resource_id) t.access.rules),
)

-- entries_by_zone.setdefault(zone, set()).add(cidr)
unfoldable pub add_to_zone :
    String → String → List (String × List String) → List (String × List String)
unfolding add_entry
add_to_zone zone cidr [] = (zone, cidr ∷ []) ∷ []
add_to_zone zone cidr (z ∷ zs) =
    let rest = add_to_zone zone cidr zs in
    if z.0 == zone then (z.0, add_entry cidr z.1) ∷ zs else z ∷ rest

unfoldable pub add_access_rules :
    List (String × List String) → List AccessRule → List (String × List String)
unfolding add_to_zone
add_access_rules zones [] = zones
add_access_rules zones (r ∷ rs) =
    add_access_rules (add_to_zone r.target_zone r.source_cidr zones) rs

unfoldable pub effective_firewall_access_entries : RuleTables → List (String × List String)
unfolding add_access_rules list_firewall_access_rules
effective_firewall_access_entries t =
    add_access_rules (("net", []) ∷ ("dev", []) ∷ ("stage", []) ∷ ("misc", []) ∷ ("live", []) ∷ [])
      (list_firewall_access_rules t none)

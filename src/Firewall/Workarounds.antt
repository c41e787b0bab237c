-- ===== src/Firewall/Workarounds.antt =====
-- src/kvm_control/db.py: the endpoint workaround rules.
use vm_forgeyard.Prelude.{
  ℕ, suc, String, Bool, true, ◌&&◌, Option, none, some, List, [], ◌∷◌, ◌++◌, ◌==◌, ◌=ℕ◌, length,
}
use vm_forgeyard.Prelude.Rows.{select, fetch, delete}
use vm_forgeyard.Firewall.{WorkaroundRule, RuleTables}

abbrev pub workaround_with_id : ℕ → WorkaroundRule → Bool
workaround_with_id id r = r.id =ℕ id

abbrev pub workaround_of_lock : String → String → WorkaroundRule → Bool
workaround_of_lock namespace lock_resource_id r =
    r.namespace == namespace && r.lock_resource_id == lock_resource_id

abbrev pub or_any : Option String → String → Bool
or_any none s = true
or_any (some t) s = s == t

-- The row is given with the id and the times that the table adds.
unfoldable pub create_endpoint_workaround_rule :
    ℕ → RuleTables → WorkaroundRule → RuleTables × Option WorkaroundRule
create_endpoint_workaround_rule now t rule =
    let row : WorkaroundRule = record rule {
      id = t.workarounds.next_id;
      created_at = now;
      updated_at = now;
    } in
    let rules = t.workarounds.rules ++ row ∷ [] in
    (
      record t { workarounds = record { rules = rules; next_id = suc t.workarounds.next_id } },
      fetch (workaround_with_id t.workarounds.next_id) rules,
    )

unfoldable pub list_endpoint_workaround_rules :
    RuleTables → Option String → Option String → List WorkaroundRule
list_endpoint_workaround_rules t namespace lock_resource_id =
    select
      (λ (r : WorkaroundRule).
        or_any namespace r.namespace && or_any lock_resource_id r.lock_resource_id)
      t.workarounds.rules

unfoldable pub get_endpoint_workaround_rule : RuleTables → ℕ → Option WorkaroundRule
get_endpoint_workaround_rule t id = fetch (workaround_with_id id) t.workarounds.rules

unfoldable pub delete_endpoint_workaround_rule : RuleTables → ℕ → RuleTables × Option WorkaroundRule
delete_endpoint_workaround_rule t id = elim (fetch (workaround_with_id id) t.workarounds.rules) [
  | none ↦ (t, none)
  | some row ↦ (
    record t {
      workarounds = record {
        rules = delete (workaround_with_id id) t.workarounds.rules;
        next_id = t.workarounds.next_id;
      };
    },
    some row,
  )
]

unfoldable pub delete_endpoint_workaround_rules_for_lock :
    RuleTables → String → String → RuleTables × ℕ
delete_endpoint_workaround_rules_for_lock t namespace lock_resource_id = (
  record t {
    workarounds = record {
      rules = delete (workaround_of_lock namespace lock_resource_id) t.workarounds.rules;
      next_id = t.workarounds.next_id;
    };
  },
  length (select (workaround_of_lock namespace lock_resource_id) t.workarounds.rules),
)

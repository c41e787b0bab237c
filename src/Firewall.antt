-- ===== src/Firewall.antt =====
-- src/kvm_control/db.py: the firewall and workaround rules that go with a lock, and the methods of
-- `Registry` on them. `now` is the time of the call.
pub mod Rules
pub mod Access
pub mod Workarounds
pub mod Entries
pub mod Reconciliation
pub mod Syncing
pub mod Releasing
pub mod Answering
pub mod Deletion
pub mod Endpoints
mod Tests
use vm_forgeyard.Prelude.{
  ℕ, suc, String, Bool, ◌&&◌, Option, none, some, List, [], ◌∷◌, ◌==◌, ◌=ℕ◌, if◌then◌else◌,
}
use text.Mathlib.Text.{is_lt}
use Prim.Native.String.{compare}

-- A row of firewall_egress_rules or of firewall_ingress_rules.
pub record FirewallRule : Type 0 where
  pub id : ℕ
  pub namespace : String
  pub lock_resource_id : String
  pub mode : String
  pub target_ip : Option String
  pub created_at : ℕ
  pub updated_at : ℕ

pub record AccessRule : Type 0 where
  pub id : ℕ
  pub namespace : String
  pub lock_resource_id : String
  pub target_zone : String
  pub source_cidr : String
  pub created_at : ℕ
  pub updated_at : ℕ

-- The columns of lists and dictionaries hold the values that their JSON decodes to.
pub record WorkaroundRule : Type 0 where
  pub id : ℕ
  pub namespace : String
  pub lock_resource_id : String
  pub kind : String
  pub value : String
  pub workaround_type : String
  pub target_ip : String
  pub apply_on : List String
  pub maps_to_service : Option String
  pub manifest_id : Option String
  pub constraint_id : Option String
  pub notes : Option String
  pub metadata : List (String × String)
  pub created_at : ℕ
  pub updated_at : ℕ

-- `next_id` is the rowid that AUTOINCREMENT gives next.
pub record RuleTable {ℓ} (R : Type ℓ) : Type ℓ where
  pub rules : List R
  pub next_id : ℕ

pub record RuleTables : Type 0 where
  pub egress : RuleTable FirewallRule
  pub ingress : RuleTable FirewallRule
  pub access : RuleTable AccessRule
  pub workarounds : RuleTable WorkaroundRule

-- entries.add(s), for a set that is kept sorted.
unfoldable pub add_entry : String → List String → List String
add_entry s [] = s ∷ []
add_entry s (t ∷ ts) =
    let rest = add_entry s ts in
    if s == t then t ∷ ts else if is_lt (compare s t) then s ∷ t ∷ ts else t ∷ rest

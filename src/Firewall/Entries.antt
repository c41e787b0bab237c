-- ===== src/Firewall/Entries.antt =====
-- Which addresses the sets of the firewall have.
use vm_forgeyard.Prelude.{
  ◌≡◌, refl, ◌∙◌, inl, inr, String, Bool, false, not, ◌&&◌, ◌||◌, none, some, List, [], ◌∷◌, ◌==◌,
  if◌then◌else◌, Bool-cases, Option-cases, arith, eq_iff,
}
use text.Mathlib.Text.{is_lt}
use Prim.Native.String.{compare}
use vm_forgeyard.Prelude.Rows.{any}
use vm_forgeyard.Auth.Policy.{is_in}
use vm_forgeyard.Firewall.{FirewallRule, RuleTables, add_entry}
use vm_forgeyard.Firewall.Rules.{
  add_rule_entries, entries_of, list_firewall_egress_rules, effective_firewall_egress_entries,
  list_firewall_ingress_rules, effective_firewall_ingress_entries,
}

is_in-add_entry :
    (z s : String) (ts : List String) → is_in z (add_entry s ts) ≡ (s == z || is_in z ts)
unfolding add_entry
is_in-add_entry z s [] = refl
is_in-add_entry z s (t ∷ ts) = elim (Bool-cases (s == t)) [
  | inl e ↦ rw e (ground (arith, e, eq_iff s t, eq_iff t z, eq_iff s z))
  | inr e ↦ elim (Bool-cases (is_lt (compare s t))) [
    | inl f ↦ rw (e, f)
    | inr f ↦ rw (e, f, is_in-add_entry z s ts) (ground arith)
  ]
]

-- Whether a rule puts an address into the set.
abbrev pub gives : String → FirewallRule → Bool
gives z r =
    if r.mode == "allow_all"
    then "0.0.0.0/1" == z || "128.0.0.0/1" == z
    else elim r.target_ip [ none ↦ false | some ip ↦ not (ip == "") && ip == z ]

is_in-rule_entries :
    (z : String) (r : FirewallRule) (entries : List String)
    → is_in z (add_rule_entries r entries) ≡ (gives z r || is_in z entries)
unfolding add_rule_entries
is_in-rule_entries z r entries = elim (Bool-cases (r.mode == "allow_all")) [
  | inl e ↦
      rw
        (
          e,
          is_in-add_entry z "0.0.0.0/1" (add_entry "128.0.0.0/1" entries),
          is_in-add_entry z "128.0.0.0/1" entries,
        )
        (ground arith)
  | inr e ↦ elim (Option-cases r.target_ip) [
    | inl f ↦ rw (e, f)
    | inr f ↦ elim (Bool-cases (f.0 == "")) [
      | inl g ↦ rw (e, f.1, g)
      | inr g ↦ rw (e, f.1, g) (is_in-add_entry z f.0 entries)
    ]
  ]
]

pub is_in-entries_of :
    (z : String) (rs : List FirewallRule) → is_in z (entries_of rs) ≡ any (gives z) rs
unfolding entries_of
is_in-entries_of z [] = refl
is_in-entries_of z (r ∷ rs) = is_in-rule_entries z r (entries_of rs) ∙ rw (is_in-entries_of z rs)

-- An address is in the effective egress entries exactly if a rule of the egress table, of whatever
-- namespace, gives it, and likewise for the ingress entries.
pub effective_entries :
    (t : RuleTables) (z : String)
    → (is_in z (effective_firewall_egress_entries t)
        ≡ any (gives z) (list_firewall_egress_rules t none))
      × (is_in z (effective_firewall_ingress_entries t)
          ≡ any (gives z) (list_firewall_ingress_rules t none))
unfolding effective_firewall_egress_entries effective_firewall_ingress_entries
effective_entries t z = (
  is_in-entries_of z (list_firewall_egress_rules t none),
  is_in-entries_of z (list_firewall_ingress_rules t none),
)

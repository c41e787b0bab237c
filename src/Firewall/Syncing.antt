-- ===== src/Firewall/Syncing.antt =====
-- What a reconciliation of the firewall leaves: the locks and the rules, whether the executor answers
-- or raises.
use vm_forgeyard.Prelude.{ℕ, ◌≡◌, refl, String, Option, List, [], ◌∷◌, ok, err}
use vm_forgeyard.Prelude.Actions.{lift}
use vm_forgeyard.Prelude.Actions.Keeps.{Keeps, Keeps-pure, Keeps-bind, keeps_rules}
use vm_forgeyard.Prelude.Actions.Returns.{
  Returns, Returns-pure, Returns-gets, Returns-bind, Returns-attempt, returns_rules,
}
use vm_forgeyard.Lock.{LockTables}
use vm_forgeyard.Firewall.{RuleTables}
use vm_forgeyard.Firewall.Access.{effective_firewall_access_entries}
use vm_forgeyard.Firewall.Reconciliation.{
  LockService, Raised, FirewallServices, FirewallPayload, begin_sync, end_sync, sync_payload,
  normalized_entry, normalize_ipv4_cidrs, reconcile_firewall_ipset, reconcile_firewall_egress,
  reconcile_zones, reconcile_firewall_access, target_ipsets,
}

-- The service has these locks and rules.
abbrev pub HasTables : LockTables → RuleTables → LockService → Type 0
HasTables locks rules s = (s.locks ≡ locks) × (s.rules ≡ rules)

-- The executor answers every call.
abbrev pub Runs : FirewallServices → Type 0
Runs fs =
    (action : String) (p : FirewallPayload) → (result : String) × (fs.run action p ≡ ok result)

begin-Keeps :
    (locks : LockTables) (rules : RuleTables) (now : ℕ) (action details : String)
    → Keeps (HasTables locks rules) (begin_sync now action details)
unfolding begin_sync
begin-Keeps locks rules now action details = record { at = λ s h. h }

end-Keeps :
    (locks : LockTables) (rules : RuleTables) (now id : ℕ) (status : String)
    (details reason : Option String)
    → Keeps (HasTables locks rules) (end_sync now id status details reason)
unfolding end_sync
end-Keeps locks rules now id status details reason = record { at = λ s h. h }

begin-Returns : (now : ℕ) (action details : String) → Returns (begin_sync now action details)
unfolding begin_sync
begin-Returns now action details = record { at = λ s. (_, refl) }

end-Returns :
    (now id : ℕ) (status : String) (details reason : Option String)
    → Returns (end_sync now id status details reason)
unfolding end_sync
end-Returns now id status details reason = record { at = λ s. (tt, refl) }

run-Returns :
    (fs : FirewallServices) (action : String) (p : FirewallPayload)
    → Runs fs
    → Returns (lift {S = LockService} (fs.run action p))
run-Returns fs action p runs = record { at = λ s. runs action p }

-- The default sources are IPv4 networks.
abbrev pub HasSources : FirewallServices → Type 0
HasSources fs = Returns (normalize_ipv4_cidrs fs.ip_network fs.default_ingress_sources)

module _ (fs : FirewallServices) (now : ℕ) (locks : LockTables) (rules : RuleTables) where
  ipset-Keeps :
      (action : String) (entries : List String) (ipset_name vm_id zone : String)
      → Keeps
          (HasTables locks rules)
          (reconcile_firewall_ipset fs now action entries ipset_name vm_id zone)
  unfolding reconcile_firewall_ipset
  ipset-Keeps action entries ipset_name vm_id zone =
      search (keeps_rules, begin-Keeps locks rules now, end-Keeps locks rules now) depth 14

  ipset-Returns :
      Runs fs
      → (action : String) (entries : List String) (ipset_name vm_id zone : String)
      → Returns (reconcile_firewall_ipset fs now action entries ipset_name vm_id zone)
  unfolding reconcile_firewall_ipset
  ipset-Returns runs action entries ipset_name vm_id zone =
      search (returns_rules, Returns-attempt, begin-Returns, end-Returns, run-Returns, runs) depth
        14

  pub egress-Keeps : Keeps (HasTables locks rules) (reconcile_firewall_egress fs now)
  unfolding reconcile_firewall_egress
  egress-Keeps = search (keeps_rules, ipset-Keeps) depth 10

  pub egress-Returns : Runs fs → Returns (reconcile_firewall_egress fs now)
  unfolding reconcile_firewall_egress
  egress-Returns runs = search (returns_rules, ipset-Returns, runs) depth 10

  zones-Keeps :
      (sources : List String) (by_zone : List (String × List String))
      (targets : List (String × String))
      → Keeps (HasTables locks rules) (reconcile_zones fs now sources by_zone targets)
  unfolding reconcile_zones
  zones-Keeps sources by_zone [] = Keeps-pure []
  zones-Keeps sources by_zone (target ∷ targets) =
      Keeps-bind _ _ (ipset-Keeps _ _ _ _ _)
        (λ result. Keeps-bind _ _ (zones-Keeps sources by_zone targets) (λ results. Keeps-pure _))

  zones-Returns :
      Runs fs
      → (sources : List String) (by_zone : List (String × List String))
        (targets : List (String × String))
      → Returns (reconcile_zones fs now sources by_zone targets)
  unfolding reconcile_zones
  zones-Returns runs sources by_zone [] = Returns-pure []
  zones-Returns runs sources by_zone (target ∷ targets) =
      Returns-bind _ _ (ipset-Returns runs _ _ _ _ _) (λ result.
        Returns-bind _ _ (zones-Returns runs sources by_zone targets) (λ results. Returns-pure _))

  entry-Keeps :
      (value : String) → Keeps (HasTables locks rules) (normalized_entry fs.ip_network value)
  unfolding normalized_entry
  entry-Keeps value = search keeps_rules depth 10

  normalize-Keeps :
      (values : List String)
      → Keeps (HasTables locks rules) (normalize_ipv4_cidrs fs.ip_network values)
  unfolding normalize_ipv4_cidrs
  normalize-Keeps [] = Keeps-pure []
  normalize-Keeps (value ∷ values) =
      Keeps-bind _ _ (entry-Keeps value)
        (λ entry. Keeps-bind _ _ (normalize-Keeps values) (λ rest. Keeps-pure _))

  pub access-Keeps : Keeps (HasTables locks rules) (reconcile_firewall_access fs now)
  unfolding reconcile_firewall_access
  access-Keeps = search (keeps_rules, normalize-Keeps, zones-Keeps) depth 10

  pub access-Returns : Runs fs → HasSources fs → Returns (reconcile_firewall_access fs now)
  unfolding reconcile_firewall_access
  access-Returns runs sources =
      Returns-bind _ _ (Returns-gets (λ s. effective_firewall_access_entries s.rules)) (λ by_zone.
        Returns-bind _ _ sources (λ found. zones-Returns runs found by_zone target_ipsets))

  ipset_failed :
      (action : String) (e : Raised)
      → ((p : FirewallPayload) → fs.run action p ≡ err e)
      → (entries : List String) (ipset_name vm_id zone : String) (s : LockService)
      → (reconcile_firewall_ipset fs now action entries ipset_name vm_id zone s).1 ≡ err e
  unfolding reconcile_firewall_ipset begin_sync end_sync
  ipset_failed action e fails entries ipset_name vm_id zone s =
      rw (fails (sync_payload fs now s.operations.next_id entries ipset_name vm_id zone))

  pub egress_failed :
      (e : Raised)
      → ((p : FirewallPayload) → fs.run "sync-firewall-egress" p ≡ err e)
      → (s : LockService) → (reconcile_firewall_egress fs now s).1 ≡ err e
  unfolding reconcile_firewall_egress
  egress_failed e fails s = ipset_failed _ e fails _ _ _ _ s

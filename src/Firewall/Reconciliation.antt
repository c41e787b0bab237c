-- ===== src/Firewall/Reconciliation.antt =====
-- src/kvm_control/firewall.py: the sets of the firewall are made to follow the rules. The executor, the
-- `ipaddress` library, the configuration and the text of an exception are parameters.
use vm_forgeyard.Prelude.{
  ℕ, String, not, Option, none, some, List, [], ◌∷◌, ◌++◌, ◌==◌, ◌=ℕ◌, if◌then◌else◌, fstring,
  Result, ok, err,
}
use vm_forgeyard.Prelude.Actions.{Act, pure, raise, lift, gets, attempt, fail_if, ◌>>=◌, ◌>>◌}
use vm_forgeyard.Event.{StatusEvent}
use vm_forgeyard.Lock.{LockTables, LockError}
use vm_forgeyard.Auth.{HttpError}
use vm_forgeyard.Auth.Policy.{is_in}
use vm_forgeyard.Operations.{OperationTable, create_operation, update_operation}
use vm_forgeyard.Firewall.{RuleTables, add_entry}
use vm_forgeyard.Firewall.Rules.{effective_firewall_egress_entries}
use vm_forgeyard.Firewall.Access.{effective_firewall_access_entries}

-- The tables that the endpoints of locks change, and the events that they record.
pub record LockService : Type 0 where
  pub locks : LockTables
  pub rules : RuleTables
  pub operations : OperationTable
  pub events : List StatusEvent

-- What is raised: an error of the registry, a response, or another exception with its text.
pub data Raised : Type 0 where
  lock_error : LockError → Raised
  http : HttpError → Raised
  failure : String → Raised

abbrev pub Handler : Type 0 → Type 0
Handler A = Act LockService Raised A

-- The fields that are read of an `ipaddress` network.
pub record IpNetwork : Type 0 where
  pub version : ℕ
  pub prefixlen : ℕ
  pub network_address : String
  pub text : String

pub record FirewallPayload : Type 0 where
  pub operation_id : ℕ
  pub vm_id : String
  pub layer2_path : String
  pub layer3_path : String
  pub entries : List String
  pub ipset_name : String
  pub target_zone : String

-- `run` gives the JSON of a result; `ip_network` gives the text of its ValueError.
pub record FirewallServices : Type 0 where
  pub run : String → FirewallPayload → Result Raised String
  pub exception_text : Raised → String
  pub ip_network : String → Result String IpNetwork
  pub default_ingress_sources : List String
  pub layer2_dir : String
  pub layer3_dir : String
  pub join : String → String → String
  pub details : List String → String → String → String

-- registry.create_operation
unfoldable pub begin_sync : ℕ → String → String → Handler ℕ
unfolding create_operation
begin_sync now action details s =
    let made = create_operation now s.operations action none none "running" details none none in
    (record s { operations = made.0; events = s.events ++ made.2 ∷ [] }, ok made.1)

abbrev recorded : List StatusEvent → Option StatusEvent → List StatusEvent
recorded events none = events
recorded events (some event) = events ++ event ∷ []

-- registry.update_operation
unfoldable pub end_sync : ℕ → ℕ → String → Option String → Option String → Handler (Unit {0})
unfolding update_operation
end_sync now id status details reason s =
    let ended =
      update_operation now s.operations id status
        (record { details = details; rejection_category = none; rejection_reason = reason }) in
    (record s { operations = ended.0; events = recorded s.events ended.1 }, ok tt)

abbrev value_error : Result String IpNetwork → Result Raised IpNetwork
value_error (ok network) = ok network
value_error (err reason) = err (failure reason)

-- The body of the loop: what it adds to the set.
unfoldable pub normalized_entry : (String → Result String IpNetwork) → String → Handler String
normalized_entry ip_network value = do
  network ← lift (value_error (ip_network value))
  fail_if (not (network.version =ℕ 4))
      (failure (fstring ("only IPv4 default ingress sources are supported: " ∷ value ∷ [])))
  pure (if network.prefixlen =ℕ 32 then network.network_address else network.text)

unfoldable pub normalize_ipv4_cidrs :
    (String → Result String IpNetwork) → List String → Handler (List String)
unfolding normalized_entry add_entry
normalize_ipv4_cidrs ip_network [] = pure []
normalize_ipv4_cidrs ip_network (value ∷ values) = do
  entry ← normalized_entry ip_network value
  rest ← normalize_ipv4_cidrs ip_network values
  pure (add_entry entry rest)

-- entries.update(...)
unfoldable pub add_entries : List String → List String → List String
unfolding add_entry
add_entries [] entries = entries
add_entries (s ∷ ss) entries = add_entry s (add_entries ss entries)

-- entries_by_zone.get(zone, [])
abbrev pub entries_for : String → List (String × List String) → List String
entries_for zone [] = []
entries_for zone (z ∷ zs) = if z.0 == zone then z.1 else entries_for zone zs

abbrev pub target_ipsets : List (String × String)
target_ipsets =
    ("net", "kvmAccessNetV4")
    ∷ ("dev", "kvmIngressDevV4")
    ∷ ("stage", "kvmIngressStageV4")
    ∷ ("misc", "kvmIngressMiscV4")
    ∷ ("live", "kvmIngressLiveV4")
    ∷ []

unfoldable pub zone_entries : List String → List (String × List String) → String → List String
unfolding add_entries
zone_entries sources entries_by_zone zone =
    let entries = entries_for zone entries_by_zone in
    if is_in zone ("dev" ∷ "stage" ∷ "misc" ∷ "live" ∷ [])
    then add_entries sources entries
    else entries

module _ (fs : FirewallServices) (now : ℕ) where
  unfoldable pub sync_payload : ℕ → List String → String → String → String → FirewallPayload
  sync_payload operation_id entries ipset_name vm_id target_zone = record {
    operation_id = operation_id;
    vm_id = vm_id;
    layer2_path = fs.join fs.layer2_dir (fstring (vm_id ∷ ".unused" ∷ []));
    layer3_path = fs.join fs.layer3_dir (fstring (vm_id ∷ ".unused" ∷ []));
    entries = entries;
    ipset_name = ipset_name;
    target_zone = target_zone;
  }

  -- The operation records the outcome, and an exception of the executor is raised again.
  unfoldable pub reconcile_firewall_ipset :
      String → List String → String → String → String → Handler String
  unfolding begin_sync end_sync sync_payload
  reconcile_firewall_ipset action entries ipset_name vm_id target_zone = do
    operation_id ← begin_sync now action (fs.details entries ipset_name target_zone)
    attempt
        (do
          result ←
              lift (fs.run action (sync_payload operation_id entries ipset_name vm_id target_zone))
          end_sync now operation_id "completed" (some result) none
          pure result)
        (λ e. do end_sync now operation_id "failed" none (some (fs.exception_text e)); raise e)

  unfoldable pub reconcile_firewall_egress : Handler String
  unfolding reconcile_firewall_ipset effective_firewall_egress_entries
  reconcile_firewall_egress = do
    entries ← gets (λ s. effective_firewall_egress_entries s.rules)
    reconcile_firewall_ipset "sync-firewall-egress" entries "kvmEgressNetV4" "firewall-egress" "net"

  -- The loop over the zones.
  unfoldable pub reconcile_zones :
      List String
      → List (String × List String)
      → List (String × String)
      → Handler (List (String × String))
  unfolding reconcile_firewall_ipset zone_entries
  reconcile_zones sources entries_by_zone [] = pure []
  reconcile_zones sources entries_by_zone (target ∷ targets) = do
    result ←
        reconcile_firewall_ipset "sync-firewall-ipset"
          (zone_entries sources entries_by_zone target.0) target.1
          (fstring ("firewall-" ∷ target.0 ∷ [])) target.0
    results ← reconcile_zones sources entries_by_zone targets
    pure ((target.0, result) ∷ results)

  unfoldable pub reconcile_firewall_access : Handler (List (String × String))
  unfolding reconcile_zones normalize_ipv4_cidrs effective_firewall_access_entries
  reconcile_firewall_access = do
    entries_by_zone ← gets (λ s. effective_firewall_access_entries s.rules)
    sources ← normalize_ipv4_cidrs fs.ip_network fs.default_ingress_sources
    reconcile_zones sources entries_by_zone target_ipsets

-- ===== src/Firewall/Endpoints.antt =====
-- src/kvm_control/lock_api.py and src/kvm_control/control_api.py: the endpoints of lock requests.
-- The two keys that an answer adds to the row are left out.
use vm_forgeyard.Prelude.{
  ℕ, String, Bool, false, not, Option, none, some, List, ◌++◌, ◌=ℕ◌, ltb, truthy, Result, ok, err,
  if◌then◌else◌,
}
use vm_forgeyard.Prelude.Actions.{Act, pure, gets, lift, or_fail, fail_if, when, ◌>>=◌, ◌>>◌}
use vm_forgeyard.Event.{StatusEvent}
use vm_forgeyard.Lock.{LockTables, LockRequest, LockError, key_error, type_error, permission_error}
use vm_forgeyard.Lock.Requests.{ensure_lock_request, release_lock, get_lock_request, lock_queue}
use vm_forgeyard.Lock.Leases.{refresh_lock_lease}
use vm_forgeyard.Auth.{AuthPrincipal, HttpError}
use vm_forgeyard.Auth.Namespaces.{effective_namespace}
use vm_forgeyard.Firewall.{RuleTables}
use vm_forgeyard.Firewall.Rules.{delete_firewall_egress_rules_for_lock}
use vm_forgeyard.Firewall.Access.{delete_firewall_access_rules_for_lock}
use vm_forgeyard.Firewall.Workarounds.{delete_endpoint_workaround_rules_for_lock}
use vm_forgeyard.Firewall.Reconciliation.{
  LockService, Raised, lock_error, http, failure, Handler, FirewallServices,
  reconcile_firewall_egress, reconcile_firewall_access,
}

abbrev pub internal_error : HttpError
internal_error = record { status = 500; detail = "Internal Server Error" }

-- The exceptions that the endpoints turn into responses; another one is an internal error.
unfoldable pub as_http : Raised → HttpError
as_http (lock_error key_error) = record { status = 404; detail = "lock request not found" }
as_http (lock_error type_error) = internal_error
as_http (lock_error (permission_error reason)) = record { status = 409; detail = reason }
as_http (http e) = e
as_http (failure reason) = internal_error

abbrev pub responded :
    {A : Type 0} → LockService × Result Raised A → LockService × Result HttpError A
responded (s, ok a) = (s, ok a)
responded (s, err e) = (s, err (as_http e))

unfoldable pub answer : {A : Type 0} → Handler A → Act LockService HttpError A
unfolding as_http
answer m s = responded (m s)

-- Outside a `try` only a response is answered.
unfoldable pub uncaught : Raised → HttpError
uncaught (lock_error e) = internal_error
uncaught (http e) = e
uncaught (failure reason) = internal_error

abbrev responded_plainly :
    {A : Type 0} → LockService × Result Raised A → LockService × Result HttpError A
responded_plainly (s, ok a) = (s, ok a)
responded_plainly (s, err e) = (s, err (uncaught e))

abbrev as_raised : {A : Type 0} → Result HttpError A → Result Raised A
as_raised (ok a) = ok a
as_raised (err e) = err (http e)

abbrev called :
    LockService
    → Result LockError (LockTables × LockRequest × List StatusEvent)
    → LockService × Result Raised LockRequest
called s (ok r) = (record s { locks = r.0; events = s.events ++ r.2 }, ok r.1)
called s (err e) = (s, err (lock_error e))

-- A call of the registry on the tables of the locks.
unfoldable pub on_locks :
    (LockTables → Result LockError (LockTables × LockRequest × List StatusEvent))
    → Handler LockRequest
on_locks call s = called s (call s.locks)

-- lease_ttl_seconds is not None and lease_ttl_seconds > maximum
abbrev pub above : ℕ → Option ℕ → Bool
above maximum none = false
above maximum (some ttl) = ltb maximum ttl

abbrev pub ttl_too_long : Raised
ttl_too_long = http (record { status = 422; detail = "lease_ttl_seconds exceeds maximum" })

unfoldable pub create_request :
    ℕ
    → ℕ
    → ℕ
    → AuthPrincipal
    → String
    → Option String
    → Option ℕ
    → Act LockService HttpError LockRequest
unfolding on_locks uncaught
create_request default maximum now principal resource_id requested ttl s = responded_plainly (
    (do
      namespace ← lift (as_raised (effective_namespace principal requested))
      fail_if (above maximum ttl) ttl_too_long
      on_locks (λ locks. ensure_lock_request default now locks resource_id namespace ttl))
      s)

unfoldable pub get_request : ℕ → Act LockService HttpError LockRequest
unfolding as_http
get_request request_id = do
  found ← gets (λ s. get_lock_request s.locks request_id)
  or_fail found (as_http (lock_error key_error))

unfoldable pub get_queue : LockService → String → List LockRequest
get_queue s resource_id = lock_queue s.locks resource_id

-- payload.released_by or (record["namespace"] if record else None)
abbrev pub named_releaser : Option String → Option LockRequest → Option String
named_releaser released_by record' =
    if truthy released_by
    then released_by
    else elim record' [ none ↦ none | some row ↦ some row.namespace ]

-- The deletions of rules, with the number of rows that were there.
abbrev deleted : LockService → RuleTables × ℕ → LockService × Result Raised ℕ
deleted s d = (record s { rules = d.0 }, ok d.1)

unfoldable pub remove_egress : LockRequest → Handler ℕ
unfolding delete_firewall_egress_rules_for_lock
remove_egress row s =
    deleted s (delete_firewall_egress_rules_for_lock s.rules row.namespace row.resource_id)

unfoldable pub remove_access : LockRequest → Handler ℕ
unfolding delete_firewall_access_rules_for_lock
remove_access row s =
    deleted s (delete_firewall_access_rules_for_lock s.rules row.namespace row.resource_id)

unfoldable pub remove_workarounds : LockRequest → Handler ℕ
unfolding delete_endpoint_workaround_rules_for_lock
remove_workarounds row s =
    deleted s (delete_endpoint_workaround_rules_for_lock s.rules row.namespace row.resource_id)

module _ (fs : FirewallServices) (now : ℕ) where
  unfoldable pub clear_access : LockRequest → Handler (Unit {0})
  unfolding remove_access reconcile_firewall_access
  clear_access row = do
    removed_access ← remove_access row
    when (not (removed_access =ℕ 0)) (do reconcile_firewall_access fs now; pure tt)

  -- The deletions that both services make, each followed by the set that it changes.
  unfoldable pub clear_rules : LockRequest → Handler (Unit {0})
  unfolding remove_egress reconcile_firewall_egress clear_access
  clear_rules row = do
    removed_egress ← remove_egress row
    when (not (removed_egress =ℕ 0)) (do reconcile_firewall_egress fs now; pure tt)
    clear_access row

  -- What `lock_api` does with the rules, and what `control_api` does.
  unfoldable pub delete_rules : Option LockRequest → Handler (Unit {0})
  unfolding clear_rules remove_workarounds
  delete_rules none = pure tt
  delete_rules (some row) = do clear_rules row; remove_workarounds row; pure tt

  unfoldable pub delete_control_rules : Option LockRequest → Handler (Unit {0})
  unfolding clear_rules
  delete_control_rules none = pure tt
  delete_control_rules (some row) = clear_rules row

  -- The part that both release endpoints have.
  unfoldable pub released_with :
      AuthPrincipal
      → ℕ
      → Option String
      → (Option LockRequest → Handler (Unit {0}))
      → Act LockService HttpError LockRequest
  unfolding answer on_locks
  released_with principal request_id released_by delete = answer (do
    row ← gets (λ s. get_lock_request s.locks request_id)
    releaser ← lift (as_raised (effective_namespace principal (named_releaser released_by row)))
    released ← on_locks (λ locks. release_lock now locks request_id releaser)
    delete row
    pure released)

  -- `release_request` of lock_api.py
  unfoldable pub release_request :
      AuthPrincipal → ℕ → Option String → Act LockService HttpError LockRequest
  unfolding released_with delete_rules
  release_request principal request_id released_by =
      released_with principal request_id released_by delete_rules

  -- `release_lock_request` of control_api.py
  unfoldable pub release_lock_request :
      AuthPrincipal → ℕ → Option String → Act LockService HttpError LockRequest
  unfolding released_with delete_control_rules
  release_lock_request principal request_id released_by =
      released_with principal request_id released_by delete_control_rules

unfoldable pub refresh_lease :
    ℕ → ℕ → ℕ → AuthPrincipal → ℕ → Option ℕ → Act LockService HttpError LockRequest
unfolding answer on_locks
refresh_lease default maximum now principal request_id ttl = answer (do
  fail_if (above maximum ttl) ttl_too_long
  found ← gets (λ s. get_lock_request s.locks request_id)
  row ← or_fail found (lock_error key_error)
  namespace ← lift (as_raised (effective_namespace principal (some row.namespace)))
  on_locks (λ locks. refresh_lock_lease default now locks request_id namespace ttl))

-- ===== src/Lock/Leases.antt =====
-- src/kvm_control/db.py: the leases of namespace locks.
use vm_forgeyard.Prelude.{
  ℕ, ◌+◌, String, Bool, false, not, ◌&&◌, Option, none, some, List, [], ◌∷◌, ◌==◌, leb, is_none,
  fstring, Result, ok, ◌>>=◌, ◌>>◌, raise_if, or_raise,
}
use vm_forgeyard.Prelude.Rows.{select, fetch, update}
use vm_forgeyard.Event.{StatusEvent, plain_event}
use vm_forgeyard.Lock.{
  is_granted, is_active, LockRequest, LockTables, LockError, key_error, type_error,
  permission_error, with_id, namespace_lock, or_default,
}

abbrev pub set_lease : ℕ → ℕ → LockRequest → LockRequest
set_lease now ttl q = record q {
  last_lease_refresh_at = some now;
  lease_expires_at = some (now + ttl);
  lease_expired_at = none;
  lease_ttl_seconds = some ttl;
  updated_at = now;
}

unfoldable pub refreshed_event : LockRequest → String → StatusEvent
refreshed_event row namespace =
    record (plain_event "lease" "info" "refreshed"
      (fstring ("lease refreshed for namespace lock " ∷ row.resource_id ∷ []))) {
        namespace = some namespace;
        resource_id = some row.resource_id;
      }

unfoldable pub refresh_lock_lease :
    ℕ
    → ℕ
    → LockTables
    → ℕ
    → String
    → Option ℕ
    → Result LockError (LockTables × LockRequest × List StatusEvent)
unfolding refreshed_event namespace_lock
refresh_lock_lease default now t request_id namespace ttl = do
  row ← or_raise (fetch (with_id request_id) t.requests) key_error
  raise_if (not (row.namespace == namespace)) (permission_error "namespace_mismatch")
  raise_if (not (row.resource_id == namespace_lock namespace))
      (permission_error "not_namespace_lock")
  raise_if (not (is_active row.status)) (permission_error "lock_not_active")
  let requests = update (with_id request_id) (set_lease now (or_default ttl default)) t.requests
  updated ← or_raise (fetch (with_id request_id) requests) type_error
  ok (record t { requests = requests }, updated, refreshed_event updated namespace ∷ [])

-- lease_expires_at IS NOT NULL AND lease_expires_at <= now
abbrev pub reached : ℕ → Option ℕ → Bool
reached now none = false
reached now (some expires) = leb expires now

-- The WHERE clause of `list_expired_namespace_lock_leases`.
unfoldable pub lease_has_expired : ℕ → LockRequest → Bool
unfolding namespace_lock
lease_has_expired now q =
    (is_granted q.status && q.resource_id == namespace_lock q.namespace)
    && (reached now q.lease_expires_at && is_none q.lease_expired_at)

-- The order of the rows, by expiry and id, is left out.
unfoldable pub list_expired_namespace_lock_leases : ℕ → LockTables → List LockRequest
unfolding lease_has_expired
list_expired_namespace_lock_leases now t = select (lease_has_expired now) t.requests

abbrev pub set_expired : ℕ → LockRequest → LockRequest
set_expired now q = record q { lease_expired_at = some now; updated_at = now }

unfoldable pub mark_lock_lease_expired : ℕ → LockTables → ℕ → LockTables × Option LockRequest
mark_lock_lease_expired now t request_id =
    let requests =
      update (λ q. with_id request_id q && is_none q.lease_expired_at) (set_expired now)
        t.requests in
    (record t { requests = requests }, fetch (with_id request_id) requests)

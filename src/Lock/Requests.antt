-- ===== src/Lock/Requests.antt =====
-- src/kvm_control/db.py: `ensure_lock_request`, `release_lock` and the readers of the lock tables.
use vm_forgeyard.Prelude.{
  ℕ, suc, ◌+◌, String, Bool, false, not, ◌&&◌, Option, none, some, List, [], ◌∷◌, ◌++◌, ◌==◌, ◌=ℕ◌,
  fstring, if◌then◌else◌, Result, ok, ◌>>=◌, ◌>>◌, raise_if, or_raise, length, map,
}
use vm_forgeyard.Prelude.Rows.{select, fetch, update}
use vm_forgeyard.Event.{StatusEvent, plain_event}
use vm_forgeyard.Lock.{
  queued, released, status_text, is_queued, is_granted, is_active, LockResource, LockRequest,
  LockTables, LockError, key_error, type_error, permission_error, with_id, active_for,
  namespace_lock, or_default, set_status, set_holder, promote, insert_resource,
}

-- The time-to-live that a new request gets: only the lock of the namespace itself is a lease.
unfoldable pub lease_ttl : ℕ → String → String → Option ℕ → Option ℕ
unfolding namespace_lock
lease_ttl default resource_id namespace ttl =
    if resource_id == namespace_lock namespace then some (or_default ttl default) else none

-- CASE WHEN ttl IS NULL THEN NULL ELSE now + ttl
abbrev pub lease_end : ℕ → Option ℕ → Option ℕ
lease_end now none = none
lease_end now (some ttl) = some (now + ttl)

abbrev pub lease_start : ℕ → Option ℕ → Option ℕ
lease_start now none = none
lease_start now (some ttl) = some now

-- The row of the INSERT.
unfoldable pub new_request : ℕ → ℕ → String → String → Option ℕ → LockRequest
new_request now id resource_id namespace ttl = record {
  id = id;
  resource_id = resource_id;
  namespace = namespace;
  status = queued;
  last_lease_refresh_at = lease_start now ttl;
  lease_expires_at = lease_end now ttl;
  lease_expired_at = none;
  lease_ttl_seconds = ttl;
  created_at = now;
  updated_at = now;
}

-- The event of a lock request: its level, its status and its text.
abbrev pub lock_event : String → String → String → String → String → StatusEvent
lock_event level status resource_id namespace summary =
    record (plain_event "lock" level status summary) {
      namespace = some namespace;
      resource_id = some resource_id;
    }

abbrev pub granted_event : String → String → StatusEvent
granted_event resource_id namespace =
    lock_event "info" "granted" resource_id namespace
      (fstring ("lock " ∷ resource_id ∷ " granted for " ∷ namespace ∷ []))

-- `if promoted is not None and promoted["id"] != record["id"]`
abbrev pub other_granted : String → LockRequest → Option LockRequest → List StatusEvent
other_granted resource_id row none = []
other_granted resource_id row (some promoted) =
    if promoted.id =ℕ row.id then [] else granted_event resource_id promoted.namespace ∷ []

-- What `ensure_lock_request` records after its transaction.
abbrev pub ensure_events : String → String → LockRequest → Option LockRequest → List StatusEvent
ensure_events resource_id namespace row promoted =
    other_granted resource_id row promoted
    ++ lock_event (if is_granted row.status then "info" else "warning") (status_text row.status)
        resource_id namespace
        (fstring ("lock " ∷ resource_id ∷ " " ∷ status_text row.status ∷ " for " ∷ namespace ∷ []))
      ∷ []

-- The tables after the INSERT of a request.
unfoldable pub enqueue : ℕ → LockTables → String → String → Option ℕ → LockTables
unfolding new_request
enqueue now t resource_id namespace ttl = record t {
  requests = t.requests ++ new_request now t.next_id resource_id namespace ttl ∷ [];
  next_id = suc t.next_id;
}

-- The rest of `ensure_lock_request`, once no active request was found.
unfoldable pub insert_request :
    ℕ
    → LockTables
    → String
    → String
    → Option ℕ
    → Result LockError (LockTables × LockRequest × List StatusEvent)
unfolding enqueue promote
insert_request now t resource_id namespace ttl =
    let (t', promoted) = promote now (enqueue now t resource_id namespace ttl) resource_id in
    do
      row ← or_raise (fetch (with_id t.next_id) t'.requests) type_error
      ok (t', row, ensure_events resource_id namespace row promoted)

-- `default` is config.leases.namespace_lock_ttl_seconds. A request that is still active is returned
-- as it is.
unfoldable pub ensure_lock_request :
    ℕ
    → ℕ
    → LockTables
    → String
    → String
    → Option ℕ
    → Result LockError (LockTables × LockRequest × List StatusEvent)
unfolding insert_request insert_resource lease_ttl
ensure_lock_request default now t resource_id namespace ttl =
    let t' : LockTables = record t { resources = insert_resource now resource_id t.resources } in
    elim (fetch (active_for resource_id namespace) t.requests) [
      | some row ↦ ok (t', row, [])
      | none ↦
          insert_request now t' resource_id namespace (lease_ttl default resource_id namespace ttl)
    ]

-- holder_namespace = ?
abbrev pub is_holder : String → Option String → Bool
is_holder namespace none = false
is_holder namespace (some holder) = holder == namespace

-- resource_id = ? AND holder_namespace = ?
abbrev pub held_by : String → String → LockResource → Bool
held_by resource_id namespace r =
    r.resource_id == resource_id && is_holder namespace r.holder_namespace

-- The two UPDATE statements of `release_lock`.
unfoldable pub withdraw : ℕ → LockTables → LockRequest → String → LockTables
withdraw now t row released_by = record t {
  requests = update (with_id row.id) (set_status released now) t.requests;
  resources = update (held_by row.resource_id released_by) (set_holder none now) t.resources;
}

abbrev pub release_events : LockRequest → String → Option LockRequest → List StatusEvent
release_events row released_by promoted =
    elim promoted [ none ↦ [] | some next ↦ granted_event row.resource_id next.namespace ∷ [] ]
    ++ lock_event "info" "released" row.resource_id released_by
        (fstring ("lock " ∷ row.resource_id ∷ " released by " ∷ released_by ∷ []))
      ∷ []

-- The rest of `release_lock`, for the row of the request.
unfoldable pub release_row :
    ℕ
    → LockTables
    → LockRequest
    → String
    → Result LockError (LockTables × LockRequest × List StatusEvent)
unfolding withdraw promote
release_row now t row released_by =
    let (t', promoted) = promote now (withdraw now t row released_by) row.resource_id in
    do
      updated ← or_raise (fetch (with_id row.id) t'.requests) type_error
      ok (t', updated, release_events row released_by promoted)

unfoldable pub release_lock :
    ℕ → LockTables → ℕ → String → Result LockError (LockTables × LockRequest × List StatusEvent)
unfolding release_row
release_lock now t request_id released_by = do
  row ← or_raise (fetch (with_id request_id) t.requests) key_error
  raise_if (not (row.namespace == released_by)) (permission_error "namespace_mismatch")
  release_row now t row released_by

unfoldable pub get_lock_request : LockTables → ℕ → Option LockRequest
get_lock_request t request_id = fetch (with_id request_id) t.requests

-- The rows come in rowid order, which is ORDER BY id.
unfoldable pub lock_queue : LockTables → String → List LockRequest
lock_queue t resource_id =
    select (λ q. q.resource_id == resource_id && is_active q.status) t.requests

-- A row of `list_lock_status`.
pub record LockCounts : Type 0 where
  pub resource_id : String
  pub holder_namespace : Option String
  pub queued_count : ℕ
  pub granted_count : ℕ

unfoldable pub lock_counts : LockTables → LockResource → LockCounts
lock_counts t r = record {
  resource_id = r.resource_id;
  holder_namespace = r.holder_namespace;
  queued_count =
      length (select (λ q. q.resource_id == r.resource_id && is_queued q.status) t.requests);
  granted_count =
      length (select (λ q. q.resource_id == r.resource_id && is_granted q.status) t.requests);
}

-- The order of the rows, by the text of resource_id, is left out.
unfoldable pub list_lock_status : LockTables → List LockCounts
unfolding lock_counts
list_lock_status t = map (lock_counts t) t.resources

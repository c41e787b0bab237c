-- ===== src/Lock/Tests.antt =====
-- Runs of the lock service on concrete requests.
use vm_forgeyard.Prelude.{
  not, ℕ, ◌≡◌, ◌≢◌, ◌≤◌, refl, String, true, ◌&&◌, Option, none, some, List, ◌==◌, ok, arith, All,
  ◌∷◌, [], append, length, subst, ap, sym, ◌↔◌, ◌=ℕ◌, err, ◌⊎◌,
}
use vm_forgeyard.Prelude.Rows.{select, fetch, any}
use vm_forgeyard.Lock.{
  LockTables, LockRequest, LockResource, LockStatus, queued, granted, released, empty, is_granted,
  granted_for, with_id, is_active, queued_for, key_error, permission_error,
}
use vm_forgeyard.Lock.Requests.{ensure_lock_request, release_lock}
use vm_forgeyard.Lock.Leases.{
  set_lease, refreshed_event, refresh_lock_lease, list_expired_namespace_lock_leases,
  mark_lock_lease_expired,
}
use vm_forgeyard.Lock.Invariant.{holder, IsLive}
use vm_forgeyard.Lock.Exclusion.{
  ensures, releases, step, Reach, start, next, mutual_exclusion, Reach-IsConsistent,
}
use vm_forgeyard.Lock.Fairness.{release_serves_oldest, second_release_breaks_exclusion}
use vm_forgeyard.Lock.Outcome.{release_lock_outcome}
use vm_forgeyard.Event.{StatusEvent}
use mathlib.Core.Option.{some-injective}
use vm_forgeyard.Lock.Renewal.{IsCurrent, refreshed_is_unexpired, marked_is_unlisted}

abbrev request_of : ℕ → String → LockStatus → ℕ → ℕ → LockRequest
request_of id namespace status created updated = record {
  id = id;
  resource_id = "gpu";
  namespace = namespace;
  status = status;
  last_lease_refresh_at = none;
  lease_expires_at = none;
  lease_expired_at = none;
  lease_ttl_seconds = none;
  created_at = created;
  updated_at = updated;
}

abbrev gpu_held_by : Option String → ℕ → LockResource
gpu_held_by holder now = record {
  resource_id = "gpu";
  holder_namespace = holder;
  capacity = 1;
  state = "active";
  updated_at = now;
}

-- "ci" holds the resource, "dev" waits.
abbrev contended : LockTables
contended = record {
  resources = gpu_held_by (some "ci") 10 ∷ [];
  requests = request_of 1 "ci" granted 10 10 ∷ request_of 2 "dev" queued 20 20 ∷ [];
  next_id = 3;
}

abbrev default_ttl : ℕ
default_ttl = 7200

one_call :
    step default_ttl 10 empty (ensures "gpu" "ci" none)
    ≡ record contended { requests = request_of 1 "ci" granted 10 10 ∷ []; next_id = 2 }
unfolding step ensure_lock_request append
one_call = refl

two_calls :
    step default_ttl 20
      (step default_ttl 10 empty (ensures "gpu" "ci" none))
      (ensures "gpu" "dev" none)
    ≡ contended
unfolding step ensure_lock_request append
two_calls = refl

contended_reached : Reach default_ttl contended
contended_reached =
    subst (Reach default_ttl) two_calls
      (next (next start 10 (ensures "gpu" "ci" none) refl) 20 (ensures "gpu" "dev" none) refl)

mutual_exclusion_example :
    (length (select (λ q. q.resource_id == "gpu" && is_granted q.status) contended.requests) ≤ 1)
    × ((holder contended.resources "gpu" ≡ some "ci")
        ↔ (any (granted_for "gpu" "ci") contended.requests ≡ true))
mutual_exclusion_example = mutual_exclusion default_ttl contended "gpu" "ci" contended_reached

release_serves_oldest_example :
    (r : LockTables × LockRequest × List StatusEvent) × (release_lock 30 contended 1 "ci" ≡ ok r)
    × (r.1 ≡ request_of 1 "ci" released 10 30)
    × (holder r.0.resources "gpu" ≡ some "dev")
    × (fetch (with_id 2) r.0.requests ≡ some (request_of 2 "dev" granted 20 30))
    × All (λ q. queued_for "gpu" q ≡ true → 2 ≤ q.id) contended.requests
release_serves_oldest_example =
    release_serves_oldest 30 1 contended (request_of 1 "ci" granted 10 10)
      (request_of 2 "dev" queued 20 20) (Reach-IsConsistent contended_reached) refl refl refl

-- "ci" released request 1 and holds the resource again by request 2, for which "dev" waits.
abbrev renewed : LockTables
renewed = record {
  resources = gpu_held_by (some "ci") 20 ∷ [];
  requests =
      request_of 1 "ci" released 10 15
      ∷ request_of 2 "ci" granted 20 20
      ∷ request_of 3 "dev" queued 25 25
      ∷ [];
  next_id = 4;
}

four_calls :
    step default_ttl 25
      (step default_ttl 20
        (step default_ttl 15
          (step default_ttl 10 empty (ensures "gpu" "ci" none))
          (releases 1 "ci"))
        (ensures "gpu" "ci" none))
      (ensures "gpu" "dev" none)
    ≡ renewed
unfolding step ensure_lock_request release_lock append
four_calls = refl

first-IsLive : IsLive (step default_ttl 10 empty (ensures "gpu" "ci" none)) 1
unfolding step ensure_lock_request append
first-IsLive row e = ap (λ (q : LockRequest). is_active q.status) (sym (some-injective _ _ e))

renewed_reached : Reach default_ttl renewed
renewed_reached = subst (Reach default_ttl) four_calls (
    next
      (next (next (next start 10 (ensures "gpu" "ci" none) refl) 15 (releases 1 "ci") first-IsLive)
        20 (ensures "gpu" "ci" none) refl)
      25 (ensures "gpu" "dev" none) refl)

second_release_breaks_exclusion_example :
    (r : LockTables × LockRequest × List StatusEvent) × (release_lock 30 renewed 1 "ci" ≡ ok r)
    × (any (granted_for "gpu" "ci") r.0.requests ≡ true)
    × (any (granted_for "gpu" "dev") r.0.requests ≡ true)
    × (◌≢◌ {A = String} "ci" "dev")
second_release_breaks_exclusion_example =
    second_release_breaks_exclusion 30 1 renewed (request_of 1 "ci" released 10 15)
      (request_of 3 "dev" queued 25 25) (Reach-IsConsistent renewed_reached) refl refl refl refl

-- The lock of a namespace is a lease.
abbrev leased : LockRequest
leased = record (request_of 1 "ci" granted 10 10) {
  resource_id = "namespace:ci";
  last_lease_refresh_at = some 10;
  lease_expires_at = some 70;
  lease_ttl_seconds = some 60;
}

abbrev lease_tables : LockTables
lease_tables = record {
  resources = record (gpu_held_by (some "ci") 10) { resource_id = "namespace:ci" } ∷ [];
  requests = leased ∷ [];
  next_id = 2;
}

lease_expires : list_expired_namespace_lock_leases 70 lease_tables ≡ leased ∷ []
unfolding list_expired_namespace_lock_leases append
lease_expires = refl

abbrev lease_refreshed : LockTables
lease_refreshed = record lease_tables { requests = set_lease 80 60 leased ∷ [] }

refreshed :
    refresh_lock_lease default_ttl 80 lease_tables 1 "ci" (some 60)
    ≡ ok (
      lease_refreshed,
      set_lease 80 60 leased,
      refreshed_event (set_lease 80 60 leased) "ci" ∷ [],
    )
unfolding refresh_lock_lease append
refreshed = refl

refreshed_is_unexpired_example :
    All (λ q. with_id 1 q ≡ true → IsCurrent 139 q) lease_refreshed.requests
refreshed_is_unexpired_example =
    refreshed_is_unexpired default_ttl 80 139 lease_tables 1 "ci" (some 60) _ refreshed
      (omega arith)

marked_is_unlisted_example :
    list_expired_namespace_lock_leases 500 (mark_lock_lease_expired 70 lease_tables 1).0
    ≡ select (λ q. not (q.id =ℕ 1)) (list_expired_namespace_lock_leases 500 lease_tables)
marked_is_unlisted_example = marked_is_unlisted 70 500 lease_tables 1

release_lock_outcome_example :
    ((release_lock 30 contended 7 "ci" ≡ err key_error)
      × (fetch (with_id 7) contended.requests ≡ none))
    ⊎ ((row : LockRequest) × (fetch (with_id 7) contended.requests ≡ some row)
        × (((release_lock 30 contended 7 "ci" ≡ err (permission_error "namespace_mismatch"))
              × (row.namespace ≢ "ci"))
            ⊎ ((row.namespace ≡ "ci")
                × ((r : LockTables × LockRequest × List StatusEvent) × (release_lock 30 contended 7
                        "ci"
                      ≡ ok r)))))
release_lock_outcome_example = release_lock_outcome 30 contended 7 "ci"

-- ===== src/Lock/Outcome.antt =====
-- When the calls on the lock tables return, and when they raise.
use mathlib.Core.Option
use vm_forgeyard.Prelude.{
  ℕ, ◌≡◌, ◌≢◌, refl, inl, inr, String, Bool, true, Option, none, some, List, ◌==◌, ◌∙◌, eq_iff, ok,
  err, Bool-cases, Option-cases, ap, is_some, truthy, ◌++◌, ◌∷◌, [], =ℕ_refl, =ℕ→eq, ◌⊎◌,
}
use vm_forgeyard.Prelude.Rows.{fetch, update, fetch-update_key, fetch-meets}
use vm_forgeyard.Event.{StatusEvent}
use vm_forgeyard.Lock.{
  LockTables, LockRequest, LockResource, key_error, permission_error, granted, released, with_id,
  of_resource, queued_for, set_status, promote, promote_free, grant_next, active_for,
  insert_resource,
}
use vm_forgeyard.Lock.Requests.{
  ensure_lock_request, release_lock, release_row, withdraw, insert_request, enqueue, new_request,
  lease_ttl, release_events, ensure_events,
}

is_some-map :
    (f : LockRequest → LockRequest) (o : Option LockRequest) → is_some (Option.map f o) ≡ is_some o
is_some-map f none = refl
is_some-map f (some q) = refl

-- A change of rows that keeps their ids keeps which ids are there.
known_id-update :
    (i : ℕ) (test : LockRequest → Bool) (change : LockRequest → LockRequest) (qs : List LockRequest)
    → ((q : LockRequest) → with_id i (change q) ≡ with_id i q)
    → is_some (fetch (with_id i) (update test change qs)) ≡ is_some (fetch (with_id i) qs)
known_id-update i test change qs same =
    rw (fetch-update_key (with_id i) test change qs same) (is_some-map _ (fetch (with_id i) qs))

known_id-grant_next :
    (now i : ℕ) (t : LockTables) (res : String) (o : Option LockRequest)
    → is_some (fetch (with_id i) (grant_next now t res o).0.requests)
      ≡ is_some (fetch (with_id i) t.requests)
unfolding grant_next
known_id-grant_next now i t res none = refl
known_id-grant_next now i t res (some next) =
    known_id-update i _ (set_status granted now) t.requests (λ q. refl)

known_id-promote_free :
    (now i : ℕ) (t : LockTables) (res : String) (o : Option LockResource)
    → is_some (fetch (with_id i) (promote_free now t res o).0.requests)
      ≡ is_some (fetch (with_id i) t.requests)
unfolding promote_free
known_id-promote_free now i t res none = refl
known_id-promote_free now i t res (some r) = elim (Bool-cases (truthy r.holder_namespace)) [
  | inl e ↦ rw e
  | inr e ↦ rw e (known_id-grant_next now i t res (fetch (queued_for res) t.requests))
]

-- Promotion keeps which requests there are.
pub known_id-promote :
    (now i : ℕ) (t : LockTables) (res : String)
    → is_some (fetch (with_id i) (promote now t res).0.requests)
      ≡ is_some (fetch (with_id i) t.requests)
unfolding promote
known_id-promote now i t res =
    known_id-promote_free now i t res (fetch (of_resource res) t.resources)

is_some_value : {A : Type 0} (o : Option A) → is_some o ≡ true → (a : A) × (o ≡ some a)
is_some_value none h = cc
is_some_value (some a) h = (a, refl)

-- The id that a row was fetched by is its own.
pub fetched_id :
    (i : ℕ) (qs : List LockRequest) (row : LockRequest)
    → fetch (with_id i) qs ≡ some row
    → row.id ≡ i
fetched_id i qs row e = =ℕ→eq row.id i (fetch-meets (with_id i) qs row e)

withdrawn_is_known :
    (now i : ℕ) (t : LockTables) (row : LockRequest) (by : String)
    → fetch (with_id i) t.requests ≡ some row
    → is_some
        (fetch (with_id row.id) (promote now (withdraw now t row by) row.resource_id).0.requests)
      ≡ true
unfolding withdraw
withdrawn_is_known now i t row by e =
    known_id-promote now row.id (withdraw now t row by) row.resource_id
    ∙ known_id-update row.id (with_id row.id) (set_status released now) t.requests (λ q. refl)
    ∙ ap is_some (ap (λ j. fetch (with_id j) t.requests) (fetched_id i t.requests row e) ∙ e)

-- `release_row` finds its row again, and returns it with the events.
pub release_row_returns :
    (now i : ℕ) (t : LockTables) (row : LockRequest) (by : String)
    → fetch (with_id i) t.requests ≡ some row
    → let (t', promoted) = promote now (withdraw now t row by) row.resource_id in
      (updated : LockRequest) × (fetch (with_id row.id) t'.requests ≡ some updated)
      × (release_row now t row by ≡ ok (t', updated, release_events row by promoted))
unfolding release_row
release_row_returns now i t row by e =
    let (updated, found) =
      is_some_value
        (fetch (with_id row.id) (promote now (withdraw now t row by) row.resource_id).0.requests)
        (withdrawn_is_known now i t row by e) in
    (updated, found, rw found)

enqueued_is_known :
    (now : ℕ) (t : LockTables) (res n : String) (ttl : Option ℕ)
    → is_some (fetch (with_id t.next_id) (enqueue now t res n ttl).requests) ≡ true
unfolding enqueue
enqueued_is_known now t res n ttl = go t.requests
  where
    go :
        (qs : List LockRequest)
        → is_some (fetch (with_id t.next_id) (qs ++ new_request now t.next_id res n ttl ∷ []))
          ≡ true
    go [] = rw (=ℕ_refl t.next_id)
    go (q ∷ qs) = elim (Bool-cases (with_id t.next_id q)) [ inl f ↦ rw f | inr f ↦ rw f (go qs) ]

insert_request_returns :
    (now : ℕ) (t : LockTables) (res n : String) (ttl : Option ℕ)
    → (r : LockTables × LockRequest × List StatusEvent) × (insert_request now t res n ttl ≡ ok r)
unfolding insert_request
insert_request_returns now t res n ttl =
    let (row, found) =
      is_some_value
        (fetch (with_id t.next_id) (promote now (enqueue now t res n ttl) res).0.requests)
        (known_id-promote now t.next_id (enqueue now t res n ttl) res
          ∙ enqueued_is_known now t res n ttl) in
    let t' = promote now (enqueue now t res n ttl) res in
    ((t'.0, row, ensure_events res n row t'.1), rw found)

-- `ensure_lock_request` always returns a request.
pub ensure_lock_request_returns :
    (default now : ℕ) (t : LockTables) (res n : String) (ttl : Option ℕ)
    → (r : LockTables × LockRequest × List StatusEvent) × (ensure_lock_request default now t res n
          ttl
        ≡ ok r)
unfolding ensure_lock_request
ensure_lock_request_returns default now t res n ttl =
    elim (Option-cases (fetch (active_for res n) t.requests)) [
      | inl e ↦
          let (r, f) =
            insert_request_returns now
              (record t { resources = insert_resource now res t.resources }) res n
              (lease_ttl default res n ttl) in
          (r, rw (e, ensure_lock_request) f)
      | inr (row, e) ↦ (
        (record t { resources = insert_resource now res t.resources }, row, []),
        rw (e, ensure_lock_request),
      )
    ]

-- `release_lock` raises KeyError for an id that is not there, PermissionError for a request of
-- another namespace, and returns otherwise; no other error comes out of it.
pub release_lock_outcome :
    (now : ℕ) (t : LockTables) (id : ℕ) (by : String)
    → ((release_lock now t id by ≡ err key_error) × (fetch (with_id id) t.requests ≡ none))
      ⊎ ((row : LockRequest) × (fetch (with_id id) t.requests ≡ some row)
          × (((release_lock now t id by ≡ err (permission_error "namespace_mismatch"))
                × (row.namespace ≢ by))
              ⊎ ((row.namespace ≡ by)
                  × ((r : LockTables × LockRequest × List StatusEvent) × (release_lock now t id by
                        ≡ ok r)))))
unfolding release_lock
release_lock_outcome now t id by = elim (Option-cases (fetch (with_id id) t.requests)) [
  | inl e ↦ inl (rw e, e)
  | inr (row, e) ↦ inr (
    row,
    e,
    elim (Bool-cases (row.namespace == by)) [
      | inl f ↦
          let (updated, _, result) = release_row_returns now id t row by e in
          let t' = promote now (withdraw now t row by) row.resource_id in
          inr (
            (eq_iff row.namespace by).0 f,
            ((t'.0, updated, release_events row by t'.1), rw (e, f) result),
          )
      | inr f ↦ inl (rw (e, f), λ same. cc (f, (eq_iff row.namespace by).1 same))
    ],
  )
]

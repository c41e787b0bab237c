-- ===== src/Lock/Fairness.antt =====
-- Whom a release serves, and what goes wrong when a request is released twice.
use vm_forgeyard.Prelude.{
  ℕ, ◌≡◌, ◌≢◌, ◌≤◌, refl, Bool, true, false, some, List, ◌==◌, eq_iff, ok, Bool-cases, arith,
  eq_refl, All, All-map, inl, inr, =ℕ_refl,
}
use vm_forgeyard.Prelude.Rows.{
  fetch, any, fetch-meets, fetch-All, any-update_hit, any-update_keep, All-every,
}
use vm_forgeyard.Event.{StatusEvent}
use vm_forgeyard.Lock.{
  LockTables, LockRequest, LockStatus, granted, released, queued, is_queued, is_granted, is_active,
  with_id, queued_for, granted_for, set_status,
}
use vm_forgeyard.Lock.Requests.{release_lock, release_events}
use vm_forgeyard.Lock.Invariant.{IsConsistent, Holds, holder, active_is_granted}
use vm_forgeyard.Lock.Handover.{
  handed, handed_next, handed_holder, release_hands_over, fetch_oldest, fetch_by_id, waits', only,
}

settled_if_granted : (s : LockStatus) → is_granted s ≡ true → is_queued s ≡ false
settled_if_granted queued h = cc
settled_if_granted granted h = refl
settled_if_granted released h = refl

-- From consistent tables, let `row` be a granted request and `next` the first waiting one for its
-- resource. The release of `row` by its namespace returns that row as released, gives the resource
-- to the namespace of `next`, whose request is granted now, and no waiting request is older.
pub release_serves_oldest :
    (now id : ℕ) (t : LockTables) (row next : LockRequest)
    → IsConsistent t
    → fetch (with_id id) t.requests ≡ some row
    → is_granted row.status ≡ true
    → fetch (queued_for row.resource_id) t.requests ≡ some next
    → (r : LockTables × LockRequest × List StatusEvent) × (release_lock now t id row.namespace
        ≡ ok r)
      × (r.1 ≡ set_status released now row)
      × (holder r.0.resources row.resource_id ≡ some next.namespace)
      × (fetch (with_id next.id) r.0.requests ≡ some (set_status granted now next))
      × All (λ q. queued_for row.resource_id q ≡ true → next.id ≤ q.id) t.requests
release_serves_oldest now id t row next c found is_held waits =
    let settled = settled_if_granted row.status is_held in
    let holds : holder t.resources row.resource_id ≡ some row.namespace =
      fetch-All (Holds t.resources) (with_id id) t.requests row found c.held is_held in
    (
      (
        handed now id t row next c found settled holds waits,
        set_status released now row,
        release_events row row.namespace (some next),
      ),
      release_hands_over now id t row next c found settled holds waits,
      refl,
      handed_holder now id t row next c found settled holds waits,
      handed_next now id t row next c found settled holds waits,
      fetch_oldest t.next_id (queued_for row.resource_id) t.requests next c.ids waits,
    )

-- The waiting request is one for the resource.
next_at :
    (row next : LockRequest) (t : LockTables)
    → fetch (queued_for row.resource_id) t.requests ≡ some next
    → (next.resource_id == row.resource_id) ≡ true
next_at row next t waits =
    ground (arith, fetch-meets (queued_for row.resource_id) t.requests next waits)

queued_is_active' :
    (s : LockStatus) → is_queued s ≡ true → (is_active s ≡ true) × (is_granted s ≡ false)
queued_is_active' queued h = (refl, refl)
queued_is_active' granted h = cc
queued_is_active' released h = cc

-- The holder does not wait for what it holds.
not_the_same :
    (row next : LockRequest) (t : LockTables)
    → IsConsistent t
    → holder t.resources row.resource_id ≡ some row.namespace
    → fetch (queued_for row.resource_id) t.requests ≡ some next
    → row.namespace ≢ next.namespace
not_the_same row next t c holds waits same =
    let waiting : is_queued next.status ≡ true =
      ground (arith, fetch-meets (queued_for row.resource_id) t.requests next waits) in
    let here : next.resource_id ≡ row.resource_id =
      (eq_iff next.resource_id row.resource_id).0 (next_at row next t waits) in
    let held : any (granted_for next.resource_id next.namespace) t.requests ≡ true =
      rw here (rw (← same) (c.backed row.resource_id row.namespace holds)) in
    let facts = queued_is_active' next.status waiting in
    cc (
      active_is_granted next.id t.requests next c.distinct
          (fetch_by_id t.next_id (queued_for row.resource_id) t.requests next c.ids waits) facts.0
          held,
      facts.1,
    )

still_granted :
    (now id : ℕ) (t : LockTables) (row next : LockRequest) (c : IsConsistent t)
    (found : fetch (with_id id) t.requests ≡ some row) (old : row.status ≡ released)
    (settled : is_queued row.status ≡ false)
    (holds : holder t.resources row.resource_id ≡ some row.namespace)
    (waits : fetch (queued_for row.resource_id) t.requests ≡ some next)
    → any
        (granted_for row.resource_id row.namespace)
        (handed now id t row next c found settled holds waits).requests
      ≡ true
still_granted now id t row next c found old settled holds waits =
    any-update_keep (with_id next.id) mine (set_status granted now) _
      (All-every _
        (λ q g. elim (Bool-cases (with_id next.id q)) [
          | inl f ↦ rw f (ground arith)
          | inr f ↦ rw f g
        ])
        _)
      (any-update_keep (with_id row.id) mine (set_status released now) t.requests
        (All-map
          (λ q same g. elim (Bool-cases (with_id row.id q)) [
            | inl f ↦ absurd (not_mine (rw (same f) at g))
            | inr f ↦ rw f g
          ])
          t.requests (only now id t row next c found settled holds waits))
        (c.backed row.resource_id row.namespace holds))
  where
    mine : LockRequest → Bool
    mine = granted_for row.resource_id row.namespace

    not_mine : mine row ≡ true → ⊥
    not_mine g = ground (arith, old)

-- From consistent tables, let `row` be a request that was released before, whose namespace holds
-- the resource again by another request, while `next` waits. A second release of `row` succeeds,
-- and leaves two namespaces with a granted request for the one resource.
pub second_release_breaks_exclusion :
    (now id : ℕ) (t : LockTables) (row next : LockRequest)
    → IsConsistent t
    → fetch (with_id id) t.requests ≡ some row
    → row.status ≡ released
    → holder t.resources row.resource_id ≡ some row.namespace
    → fetch (queued_for row.resource_id) t.requests ≡ some next
    → (r : LockTables × LockRequest × List StatusEvent) × (release_lock now t id row.namespace
        ≡ ok r)
      × (any (granted_for row.resource_id row.namespace) r.0.requests ≡ true)
      × (any (granted_for row.resource_id next.namespace) r.0.requests ≡ true)
      × (row.namespace ≢ next.namespace)
second_release_breaks_exclusion now id t row next c found old holds waits =
    let settled : is_queued row.status ≡ false = rw old in
    (
      (
        handed now id t row next c found settled holds waits,
        set_status released now row,
        release_events row row.namespace (some next),
      ),
      release_hands_over now id t row next c found settled holds waits,
      still_granted now id t row next c found old settled holds waits,
      any-update_hit (queued_for row.resource_id) (with_id next.id)
          (granted_for row.resource_id next.namespace) (set_status granted now) _ next
          (waits' now id t row next c found settled holds waits) (=ℕ_refl next.id)
          (rw (next_at row next t waits, eq_refl next.namespace)),
      not_the_same row next t c holds waits,
    )

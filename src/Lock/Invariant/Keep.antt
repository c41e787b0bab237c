-- ===== src/Lock/Invariant/Keep.antt =====
-- Every call on the lock tables keeps them consistent; a release does if the request is active.
use vm_forgeyard.Prelude.{
  ℕ, ◌≡◌, refl, inl, inr, String, Bool, true, false, ◌&&◌, Option, none, some, List, [], ◌∷◌, ◌==◌,
  truthy, is_some, All-map, All-append, arith, eq_iff, eq_refl, Bool-cases, Option-cases, subst,
  sym, if◌then◌else◌, ◌∙◌, Result, ok, err, not, ◌>>=◌, or_raise, raise_if,
}
use vm_forgeyard.Prelude.Rows.{
  fetch, update, any, any-append, All-update, any-update_keep, All-every,
}
use vm_forgeyard.Event.{StatusEvent}
use vm_forgeyard.Lock.{
  LockStatus, LockRequest, LockTables, LockError, key_error, type_error, permission_error,
  namespace_lock, is_queued, is_granted, is_active, with_id, of_resource, granted_for, active_for,
  insert_resource, promote, or_default,
}
use vm_forgeyard.Lock.Requests.{
  withdraw, enqueue, insert_request, ensure_lock_request, release_row, release_lock, new_request,
  lease_ttl,
}
use vm_forgeyard.Lock.Leases.{refresh_lock_lease, mark_lock_lease_expired, set_lease, set_expired}
use vm_forgeyard.Lock.Invariant.Defs.{Holds, Waits, Named, holder, IsPending, IsConsistent}
use vm_forgeyard.Lock.Invariant.Holders.{holder-insert_resource, known-insert_resource}
use vm_forgeyard.Lock.Invariant.Entries.{Rising-append, Rising-update, Distinct-update}
use vm_forgeyard.Lock.Invariant.Active.{Distinct-append}
use vm_forgeyard.Lock.Invariant.Promotion.{promote-IsConsistent}
use vm_forgeyard.Lock.Invariant.Withdrawal.{withdraw-IsPending}

-- What a call leaves: its tables are consistent if it returns.
abbrev pub Leaves : Result LockError (LockTables × LockRequest × List StatusEvent) → Type 0
Leaves (ok r) = IsConsistent r.0
Leaves (err e) = Unit {0}

abbrev with_resource : ℕ → LockTables → String → LockTables
with_resource now t res = record t { resources = insert_resource now res t.resources }

insert_resource-IsConsistent :
    (now : ℕ) (t : LockTables) (res : String)
    → IsConsistent t
    → IsConsistent (with_resource now t res)
insert_resource-IsConsistent now t res c = record {
  ids = c.ids;
  distinct = c.distinct;
  named = c.named;
  held = All-map (λ q h g. rw holder-insert_resource (h g)) t.requests c.held;
  backed = λ r n e. c.backed r n (sym (holder-insert_resource now res t.resources r) ∙ e);
  waiting = All-map (λ q h w. rw holder-insert_resource (h w)) t.requests c.waiting;
}

enqueue-IsPending :
    (now : ℕ) (t : LockTables) (res n : String) (ttl : Option ℕ)
    → IsConsistent t
    → (n == "") ≡ false
    → any (active_for res n) t.requests ≡ false
    → is_some (fetch (of_resource res) t.resources) ≡ true
    → IsPending res (enqueue now t res n ttl)
unfolding enqueue
enqueue-IsPending now t res n ttl c named absent known = record {
  ids = Rising-append t.next_id t.requests _ c.ids refl;
  distinct =
      Distinct-append t.requests (new_request now t.next_id res n ttl) refl absent c.distinct;
  named = All-append Named t.requests _ c.named (named, tt);
  held = All-append (Holds t.resources) t.requests _ c.held ((λ g. cc), tt);
  backed = λ r m e. rw any-append (rw (c.backed r m e));
  waiting =
      All-append (λ q. ((q.resource_id == res) ≡ false) → Waits t.resources q) t.requests _
        (All-map (λ q h _. h) t.requests c.waiting) ((λ ne _. cc (ne, eq_refl res)), tt);
  known = known;
}

none_active :
    (test : LockRequest → Bool) (qs : List LockRequest) → fetch test qs ≡ none → any test qs ≡ false
none_active test [] e = refl
none_active test (q ∷ qs) e = ground (arith, none_active test qs)

insert_request-Leaves :
    (now : ℕ) (t : LockTables) (res n : String) (ttl : Option ℕ)
    → IsPending res (enqueue now t res n ttl)
    → Leaves (insert_request now t res n ttl)
unfolding insert_request
insert_request-Leaves now t res n ttl p =
    elim (Option-cases
      (fetch (with_id t.next_id) (promote now (enqueue now t res n ttl) res).0.requests)) [
        | inl e ↦ rw e tt
        | inr (row, e) ↦ rw e (promote-IsConsistent now (enqueue now t res n ttl) res p)
      ]

-- From consistent tables, a lock request by a named namespace leaves consistent tables.
pub ensure_lock_request-Leaves :
    (default now : ℕ) (t : LockTables) (res n : String) (ttl : Option ℕ)
    → IsConsistent t
    → (n == "") ≡ false
    → Leaves (ensure_lock_request default now t res n ttl)
unfolding ensure_lock_request
ensure_lock_request-Leaves default now t res n ttl c named =
    let c' = insert_resource-IsConsistent now t res c in
    elim (Option-cases (fetch (active_for res n) t.requests)) [
      | inl e ↦
          rw (e, ensure_lock_request)
            (insert_request-Leaves now (with_resource now t res) res n (lease_ttl default res n ttl)
              (enqueue-IsPending now (with_resource now t res) res n (lease_ttl default res n ttl)
                c' named (none_active (active_for res n) t.requests e)
                (known-insert_resource now res t.resources)))
      | inr (row, e) ↦ rw (e, ensure_lock_request) c'
    ]

release_row-Leaves :
    (now i : ℕ) (t : LockTables) (row : LockRequest)
    → IsConsistent t
    → fetch (with_id i) t.requests ≡ some row
    → is_active row.status ≡ true
    → Leaves (release_row now t row row.namespace)
unfolding release_row
release_row-Leaves now i t row c found active =
    let t' = withdraw now t row row.namespace in
    elim (Option-cases (fetch (with_id row.id) (promote now t' row.resource_id).0.requests)) [
      | inl e ↦ rw e tt
      | inr (updated, e) ↦ rw e (
          promote-IsConsistent now t' row.resource_id
            (withdraw-IsPending now i t row c found active))
    ]

-- Every row with this id is active.
abbrev pub IsLive : LockTables → ℕ → Type 0
IsLive t id =
    (row : LockRequest) → fetch (with_id id) t.requests ≡ some row → is_active row.status ≡ true

-- The release of a request that is still active leaves consistent tables.
pub release_lock-Leaves :
    (now : ℕ) (t : LockTables) (id : ℕ) (by : String)
    → IsConsistent t
    → IsLive t id
    → Leaves (release_lock now t id by)
unfolding release_lock
release_lock-Leaves now t id by c live = elim (Option-cases (fetch (with_id id) t.requests)) [
  | inl e ↦ rw e tt
  | inr (row, e) ↦ elim (Bool-cases (row.namespace == by)) [
    | inl f ↦
        rw (e, f)
          (subst (λ (b : String). Leaves (release_row now t row b)) ((eq_iff row.namespace by).0 f)
            (release_row-Leaves now id t row c e (live row e)))
    | inr f ↦ rw (e, f) tt
  ]
]

-- Changes of a row that leave all but its lease.
module _ (test : LockRequest → Bool) (change : LockRequest → LockRequest)
    (same_id : (q : LockRequest) → (change q).id ≡ q.id)
    (same_resource : (q : LockRequest) → (change q).resource_id ≡ q.resource_id)
    (same_namespace : (q : LockRequest) → (change q).namespace ≡ q.namespace)
    (same_status : (q : LockRequest) → (change q).status ≡ q.status) where
  spread :
      (P : String → String → LockStatus → Type 0) (q : LockRequest)
      → P q.resource_id q.namespace q.status
      → (let q' = if test q then change q else q in P q'.resource_id q'.namespace q'.status)
  spread P q h = elim (Bool-cases (test q)) [
    | inl f ↦ rw f (rw (same_resource q, same_namespace q, same_status q) h)
    | inr f ↦ rw f h
  ]

  pub lease-IsConsistent :
      (t : LockTables)
      → IsConsistent t
      → IsConsistent (record t { requests = update test change t.requests })
  lease-IsConsistent t c = record {
    ids = Rising-update test change same_id same_resource same_namespace t.next_id t.requests c.ids;
    distinct =
        Distinct-update test change same_id same_resource same_namespace t.requests
          (All-every _
            (λ q. spread (λ _ _ s. is_active s ≡ true → is_active q.status ≡ true) q (λ a. a))
            t.requests)
          c.distinct;
    named =
        All-update Named Named test change (spread (λ _ n _. (n == "") ≡ false)) t.requests c.named;
    held =
        All-update (Holds t.resources) (Holds t.resources) test change
          (spread (λ r n s. is_granted s ≡ true → holder t.resources r ≡ some n)) t.requests c.held;
    backed = λ r n e.
        any-update_keep test (granted_for r n) change t.requests
          (All-every _
            (λ q g. spread (λ r' n' s. ((r' == r && n' == n) && is_granted s) ≡ true) q g)
            t.requests)
          (c.backed r n e);
    waiting =
        All-update (Waits t.resources) (Waits t.resources) test change
          (spread (λ r _ s. is_queued s ≡ true → truthy (holder t.resources r) ≡ true)) t.requests
          c.waiting;
  }

Leaves-bind :
    {A : Type 0} (m : Result LockError A)
    (f : A → Result LockError (LockTables × LockRequest × List StatusEvent))
    → ((a : A) → Leaves (f a))
    → Leaves (m >>= f)
Leaves-bind (ok a) f h = h a
Leaves-bind (err e) f h = tt

abbrev refreshed : ℕ → ℕ → LockTables → ℕ → Option ℕ → List LockRequest
refreshed default now t id ttl =
    update (with_id id) (set_lease now (or_default ttl default)) t.requests

-- A lease refresh leaves consistent tables.
pub refresh_lock_lease-Leaves :
    (default now : ℕ) (t : LockTables) (id : ℕ) (n : String) (ttl : Option ℕ)
    → IsConsistent t
    → Leaves (refresh_lock_lease default now t id n ttl)
unfolding refresh_lock_lease
refresh_lock_lease-Leaves default now t id n ttl c =
    Leaves-bind (or_raise (fetch (with_id id) t.requests) key_error) _ λ row.
      Leaves-bind (raise_if (not (row.namespace == n)) (permission_error "namespace_mismatch")) _
        λ _. Leaves-bind (raise_if (not (row.resource_id == namespace_lock n)) _) _ λ _.
          Leaves-bind (raise_if (not (is_active row.status)) _) _ λ _.
            Leaves-bind (or_raise (fetch (with_id id) (refreshed default now t id ttl)) type_error)
              _
              λ _.
                lease-IsConsistent (with_id id) (set_lease now (or_default ttl default)) (λ q. refl)
                  (λ q. refl) (λ q. refl) (λ q. refl) t c

-- So does the mark of an expired lease.
pub mark_lock_lease_expired-IsConsistent :
    (now : ℕ) (t : LockTables) (id : ℕ)
    → IsConsistent t
    → IsConsistent (mark_lock_lease_expired now t id).0
unfolding mark_lock_lease_expired
mark_lock_lease_expired-IsConsistent now t id c =
    lease-IsConsistent _ (set_expired now) (λ q. refl) (λ q. refl) (λ q. refl) (λ q. refl) t c

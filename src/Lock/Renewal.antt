-- ===== src/Lock/Renewal.antt =====
-- What a refresh and an expiry mark do to the list of expired leases.
use vm_forgeyard.Prelude.{
  ℕ, ◌+◌, ◌≡◌, ◌<◌, String, true, false, ◌&&◌, Option, List, ok, Bool-cases, arith, All, inl, inr,
  ◌∷◌, [], is_none, ◌=ℕ◌, not, refl, ap,
}
use vm_forgeyard.Prelude.Rows.{update, select}
use vm_forgeyard.Event.{StatusEvent}
use vm_forgeyard.Lock.{LockTables, LockRequest, with_id, or_default}
use vm_forgeyard.Lock.Gate.{namespace_lock_lease_expired}
use vm_forgeyard.Lock.Leases.{
  refresh_lock_lease, mark_lock_lease_expired, lease_has_expired, set_lease, set_expired,
  list_expired_namespace_lock_leases,
}

-- The rows after a refresh that returns.
refreshed_requests :
    (default now : ℕ) (t : LockTables) (id : ℕ) (n : String) (ttl : Option ℕ)
    (r : LockTables × LockRequest × List StatusEvent)
    → refresh_lock_lease default now t id n ttl ≡ ok r
    → r.0.requests ≡ update (with_id id) (set_lease now (or_default ttl default)) t.requests
unfolding refresh_lock_lease
refreshed_requests default now t id n ttl r e = ground arith

-- A lease counts as expired neither in the listing of expired leases nor where it gates a request.
abbrev pub IsCurrent : ℕ → LockRequest → Type 0
IsCurrent now q = (lease_has_expired now q ≡ false) × (namespace_lock_lease_expired now q ≡ false)

update_lease_later :
    (now later ttl id : ℕ) (qs : List LockRequest)
    → later < now + ttl
    → All
        (λ q. with_id id q ≡ true → IsCurrent later q)
        (update (with_id id) (set_lease now ttl) qs)
unfolding lease_has_expired namespace_lock_lease_expired
update_lease_later now later ttl id [] h = tt
update_lease_later now later ttl id (q ∷ qs) h = elim (Bool-cases (with_id id q)) [
  | inl f ↦ rw f ((λ _. (ground arith, ground arith)), update_lease_later now later ttl id qs h)
  | inr f ↦ rw f ((λ hit. cc), update_lease_later now later ttl id qs h)
]

-- After a refresh that returns, no request with this id counts as expired before the new time-to-live
-- has passed, neither in the listing of expired leases nor in the test of a lock that a request needs.
pub refreshed_is_unexpired :
    (default now later : ℕ) (t : LockTables) (id : ℕ) (n : String) (ttl : Option ℕ)
    (r : LockTables × LockRequest × List StatusEvent)
    → refresh_lock_lease default now t id n ttl ≡ ok r
    → later < now + or_default ttl default
    → All (λ q. with_id id q ≡ true → IsCurrent later q) r.0.requests
refreshed_is_unexpired default now later t id n ttl r e h =
    rw (refreshed_requests default now t id n ttl r e)
      (update_lease_later now later (or_default ttl default) id t.requests h)

marked_row : (now later : ℕ) (q : LockRequest) → lease_has_expired later (set_expired now q) ≡ false
unfolding lease_has_expired
marked_row now later q = ground arith

marked_before :
    (later : ℕ) (q : LockRequest)
    → is_none q.lease_expired_at ≡ false
    → lease_has_expired later q ≡ false
unfolding lease_has_expired
marked_before later q h = rw h (ground arith)

marked :
    (now later id : ℕ) (qs : List LockRequest)
    → select
        (lease_has_expired later)
        (update (λ q. with_id id q && is_none q.lease_expired_at) (set_expired now) qs)
      ≡ select (λ q. not (q.id =ℕ id)) (select (lease_has_expired later) qs)
marked now later id [] = refl
marked now later id (q ∷ qs) = elim (Bool-cases (lease_has_expired later q)) [
  | inl f ↦ elim (Bool-cases (q.id =ℕ id)) [
    | inl e ↦ elim (Bool-cases (is_none q.lease_expired_at)) [
      | inl g ↦ rw (f, e, g, marked_row now later q) (marked now later id qs)
      | inr g ↦ cc (marked_before later q g)
    ]
    | inr e ↦ rw (f, e, f) (ap (λ rs. q ∷ rs) (marked now later id qs))
  ]
  | inr f ↦ elim (Bool-cases (q.id =ℕ id && is_none q.lease_expired_at)) [
    | inl e ↦ rw (f, e, marked_row now later q) (marked now later id qs)
    | inr e ↦ rw (f, e, f) (marked now later id qs)
  ]
]

-- Once a lease is marked as expired, its request is no longer listed, whatever the time of the listing
-- that follows, and the other requests are listed as before.
pub marked_is_unlisted :
    (now later : ℕ) (t : LockTables) (id : ℕ)
    → list_expired_namespace_lock_leases later (mark_lock_lease_expired now t id).0
      ≡ select (λ q. not (q.id =ℕ id)) (list_expired_namespace_lock_leases later t)
unfolding list_expired_namespace_lock_leases mark_lock_lease_expired
marked_is_unlisted now later t id = marked now later id t.requests

-- ===== src/Lock/Exclusion.antt =====
-- Histories of calls on the lock tables, in which only active requests are released.
use vm_forgeyard.Prelude.{
  ℕ, ◌≤◌, ◌≡◌, ◌↔◌, String, true, false, Option, ◌&&◌, some, ◌==◌, length, Result, ok, err, List,
}
use vm_forgeyard.Prelude.Rows.{select, any}
use vm_forgeyard.Event.{StatusEvent}
use vm_forgeyard.Lock.{LockTables, LockRequest, LockError, empty, is_granted, granted_for}
use vm_forgeyard.Lock.Requests.{ensure_lock_request, release_lock}
use vm_forgeyard.Lock.Leases.{refresh_lock_lease, mark_lock_lease_expired}
use vm_forgeyard.Lock.Invariant.{
  IsConsistent, holder, one_granted, granted-Holds, Leaves, IsLive, ensure_lock_request-Leaves,
  release_lock-Leaves, refresh_lock_lease-Leaves, mark_lock_lease_expired-IsConsistent,
}

pub data LockCall : Type 0 where
  ensures : String → String → Option ℕ → LockCall
  refreshes : ℕ → String → Option ℕ → LockCall
  expires : ℕ → LockCall
  releases : ℕ → String → LockCall

-- A call that raises commits nothing.
abbrev pub after :
    LockTables → Result LockError (LockTables × LockRequest × List StatusEvent) → LockTables
after t (ok r) = r.0
after t (err e) = t

unfoldable pub step : ℕ → ℕ → LockTables → LockCall → LockTables
step default now t (ensures res n ttl) = after t (ensure_lock_request default now t res n ttl)
step default now t (refreshes id n ttl) = after t (refresh_lock_lease default now t id n ttl)
step default now t (expires id) = (mark_lock_lease_expired now t id).0
step default now t (releases id by) = after t (release_lock now t id by)

-- Namespaces have names, and a request is released while it is queued or granted.
abbrev pub IsAllowed : LockTables → LockCall → Type 0
IsAllowed t (ensures res n ttl) = (n == "") ≡ false
IsAllowed t (releases id by) = IsLive t id
IsAllowed t _ = Unit {0}

pub data Reach (default : ℕ) : LockTables → Type 0 where
  start : Reach default empty
  next :
      {t : LockTables}
      → Reach default t
      → (now : ℕ) (c : LockCall) → IsAllowed t c
      → Reach default (step default now t c)

after-IsConsistent :
    (t : LockTables) (r : Result LockError (LockTables × LockRequest × List StatusEvent))
    → IsConsistent t
    → Leaves r
    → IsConsistent (after t r)
after-IsConsistent t (ok r) c l = l
after-IsConsistent t (err e) c l = c

-- One call from consistent tables leaves consistent tables.
pub step-IsConsistent :
    (default now : ℕ) (t : LockTables) (c : LockCall)
    → IsAllowed t c
    → IsConsistent t
    → IsConsistent (step default now t c)
unfolding step
step-IsConsistent default now t (ensures res n ttl) a c =
    after-IsConsistent t _ c (ensure_lock_request-Leaves default now t res n ttl c a)
step-IsConsistent default now t (refreshes id n ttl) a c =
    after-IsConsistent t _ c (refresh_lock_lease-Leaves default now t id n ttl c)
step-IsConsistent default now t (expires id) a c = mark_lock_lease_expired-IsConsistent now t id c
step-IsConsistent default now t (releases id by) a c =
    after-IsConsistent t _ c (release_lock-Leaves now t id by c a)

empty-IsConsistent : IsConsistent empty
empty-IsConsistent = record {
  ids = tt;
  distinct = tt;
  named = tt;
  held = tt;
  backed = λ r n e. cc;
  waiting = tt;
}

pub Reach-IsConsistent : {default : ℕ} {t : LockTables} → Reach default t → IsConsistent t
Reach-IsConsistent start = empty-IsConsistent
Reach-IsConsistent {default} (next {t} r now c a) =
    step-IsConsistent default now t c a (Reach-IsConsistent r)

-- After any history of allowed calls, a resource has at most one granted request; whoever holds the
-- resource has a granted request for it, and whoever has one holds it.
pub mutual_exclusion :
    (default : ℕ) (t : LockTables) (res n : String)
    → Reach default t
    → (length (select (λ q. q.resource_id == res && is_granted q.status) t.requests) ≤ 1)
      × ((holder t.resources res ≡ some n) ↔ (any (granted_for res n) t.requests ≡ true))
mutual_exclusion default t res n r =
    let c : IsConsistent t = Reach-IsConsistent r in
    (
      one_granted t.resources res t.requests c.held c.distinct,
      (c.backed res n, granted-Holds t.resources res n t.requests c.held),
    )

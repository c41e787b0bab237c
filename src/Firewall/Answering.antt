-- ===== src/Firewall/Answering.antt =====
-- What a release answers after it has gone through the rules of a lock.
use vm_forgeyard.Prelude.{
  ℕ, ◌≡◌, refl, ap, sym, subst, String, Option, some, List, ◌++◌, Result, ok, err, err-injective,
}
use vm_forgeyard.Prelude.Actions.{pure, continue}
use vm_forgeyard.Prelude.Actions.Triples.{Achieves, Fails}
use vm_forgeyard.Event.{StatusEvent}
use vm_forgeyard.Lock.{LockRequest, LockTables}
use vm_forgeyard.Lock.Requests.{release_lock, get_lock_request}
use vm_forgeyard.Auth.{AuthPrincipal}
use vm_forgeyard.Auth.Namespaces.{effective_namespace}
use vm_forgeyard.Firewall.{RuleTables}
use vm_forgeyard.Firewall.Reconciliation.{LockService, Raised, Handler, FirewallServices}
use vm_forgeyard.Firewall.Syncing.{HasTables}
use vm_forgeyard.Firewall.Endpoints.{
  as_http, responded, answer, on_locks, named_releaser, released_with,
}

-- What is answered after the rules.
answered :
    (p : LockService × Result Raised (Unit {0})) (out : LockRequest)
    → (a : Unit {0}) × (p.1 ≡ ok a)
    → ((responded (continue p (λ _. pure out))).1 ≡ ok out)
      × ((responded (continue p (λ _. pure out))).0 ≡ p.0)
unfolding as_http
answered (s, ok a) out h = (refl, refl)
answered (s, err e) out h = cc h.1

refused :
    (p : LockService × Result Raised (Unit {0})) (out : LockRequest) (e : Raised)
    → p.1 ≡ err e
    → ((responded (continue p (λ _. pure out))).1 ≡ err (as_http e))
      × ((responded (continue p (λ _. pure out))).0 ≡ p.0)
unfolding as_http
refused (s, ok a) out e h = cc h
refused (s, err d) out e h = (ap (λ x. err (as_http x)) (err-injective d e h), refl)

module _ (fs : FirewallServices) (now : ℕ) (s : LockService) (principal : AuthPrincipal)
    (request_id : ℕ) (released_by : Option String) (row out : LockRequest) (releaser : String)
    (locks : LockTables) (events : List StatusEvent)
    (known : get_lock_request s.locks request_id ≡ some row)
    (asked : effective_namespace principal (named_releaser released_by (some row)) ≡ ok releaser)
    (released : release_lock now s.locks request_id releaser ≡ ok (locks, out, events))
    (delete : Option LockRequest → Handler (Unit {0})) where
  -- The service after the registry has released the lock.
  abbrev unlocked : LockService
  unlocked = record s { locks = locks; events = s.events ++ events }

  released_steps :
      released_with fs now principal request_id released_by delete s
      ≡ responded (continue (delete (some row) unlocked) (λ _. pure out))
  unfolding released_with answer on_locks
  released_steps = rw (known, asked, released)

  pub release_succeeds :
      (left : RuleTables)
      → Achieves (HasTables locks s.rules) (delete (some row)) (λ _. HasTables locks left)
      → ((released_with fs now principal request_id released_by delete s).1 ≡ ok out)
        × HasTables locks left (released_with fs now principal request_id released_by delete s).0
  release_succeeds left h =
      let done = h.at unlocked (refl, refl) in
      let end = answered (delete (some row) unlocked) out (done.0, done.1) in
      rw released_steps (end.0, subst (HasTables locks left) (sym end.1) done.2)

  pub release_fails :
      (left : RuleTables) (e : Raised)
      → Fails (HasTables locks s.rules) (delete (some row)) e (HasTables locks left)
      → ((released_with fs now principal request_id released_by delete s).1 ≡ err (as_http e))
        × HasTables locks left (released_with fs now principal request_id released_by delete s).0
  release_fails left e h =
      let done = h.at unlocked (refl, refl) in
      let end = refused (delete (some row) unlocked) out e done.0 in
      rw released_steps (end.0, subst (HasTables locks left) (sym end.1) done.1)

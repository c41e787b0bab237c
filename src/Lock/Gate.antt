-- ===== src/Lock/Gate.antt =====
-- src/kvm_control/control_api.py: the test that a namespace holds a lock before it may act.
use vm_forgeyard.Prelude.{
  ℕ, String, Bool, true, false, Option, none, some, List, [], ◌∷◌, ◌==◌, if◌then◌else◌, is_some,
  fstring, Result, ok, ◌>>=◌,
}
use vm_forgeyard.Event.{StatusEvent}
use vm_forgeyard.Lock.{is_granted, LockRequest, LockTables, LockError, namespace_lock}
use vm_forgeyard.Lock.Requests.{ensure_lock_request}
use vm_forgeyard.Lock.Leases.{reached}

unfoldable pub namespace_lock_lease_expired : ℕ → LockRequest → Bool
unfolding namespace_lock
namespace_lock_lease_expired now lock =
    if lock.resource_id == namespace_lock lock.namespace
    then (if is_some lock.lease_expired_at then true else reached now lock.lease_expires_at)
    else false

-- The reason of a refusal, or none.
unfoldable pub refusal : ℕ → LockRequest → String → String → Option String
unfolding namespace_lock_lease_expired fstring
refusal now request namespace resource_id =
    if is_granted request.status
    then (if namespace_lock_lease_expired now request
        then some
            (fstring ("namespace lock lease expired for " ∷ namespace ∷ "; refresh lease" ∷ []))
        else none)
    else some (fstring ("namespace is queued for lock " ∷ resource_id ∷ []))

unfoldable pub ensure_lock :
    ℕ
    → ℕ
    → LockTables
    → String
    → String
    → Result LockError (LockTables × Option String × List StatusEvent)
unfolding refusal
ensure_lock default now t namespace resource_id = do
  ensured ← ensure_lock_request default now t resource_id namespace none
  ok (ensured.0, refusal now ensured.1 namespace resource_id, ensured.2)

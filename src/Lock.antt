-- ===== src/Lock.antt =====
-- src/kvm_control/db.py: the lock tables and the methods of `Registry` on them.
-- Times are whole seconds, as CURRENT_TIMESTAMP has them; `now` is the time of the transaction.
pub mod Requests
pub mod Leases
pub mod Invariant
pub mod Exclusion
pub mod Outcome
pub mod Handover
pub mod Fairness
pub mod Renewal
pub mod Gate
mod Tests
use vm_forgeyard.Prelude.{
  ℕ, zero, suc, String, Bool, true, false, ◌&&◌, Option, none, some, List, [], ◌∷◌, ◌++◌, ◌==◌,
  ◌=ℕ◌, is_some, truthy, append, if◌then◌else◌,
}
use vm_forgeyard.Prelude.Rows.{fetch, update}

-- The values that the code writes to `lock_requests.status`.
pub data LockStatus : Type 0 where
  queued granted released : LockStatus

abbrev pub status_text : LockStatus → String
status_text queued = "queued"
status_text granted = "granted"
status_text released = "released"

abbrev pub is_queued : LockStatus → Bool
is_queued queued = true
is_queued _ = false

abbrev pub is_granted : LockStatus → Bool
is_granted granted = true
is_granted _ = false

-- status IN ('queued', 'granted')
abbrev pub is_active : LockStatus → Bool
is_active released = false
is_active _ = true

pub record LockResource : Type 0 where
  pub resource_id : String
  pub holder_namespace : Option String
  pub capacity : ℕ
  pub state : String
  pub updated_at : ℕ

pub record LockRequest : Type 0 where
  pub id : ℕ
  pub resource_id : String
  pub namespace : String
  pub status : LockStatus
  pub last_lease_refresh_at : Option ℕ
  pub lease_expires_at : Option ℕ
  pub lease_expired_at : Option ℕ
  pub lease_ttl_seconds : Option ℕ
  pub created_at : ℕ
  pub updated_at : ℕ

-- `next_id` is the rowid that AUTOINCREMENT gives next.
pub record LockTables : Type 0 where
  pub resources : List LockResource
  pub requests : List LockRequest
  pub next_id : ℕ

-- `type_error` is `dict(None)`.
pub data LockError : Type 0 where
  key_error type_error : LockError
  permission_error : String → LockError

abbrev pub empty : LockTables
empty = record { resources = []; requests = []; next_id = 1 }

abbrev pub of_resource : String → LockResource → Bool
of_resource resource_id r = r.resource_id == resource_id

abbrev pub with_id : ℕ → LockRequest → Bool
with_id id q = q.id =ℕ id

abbrev pub queued_for : String → LockRequest → Bool
queued_for resource_id q = q.resource_id == resource_id && is_queued q.status

abbrev pub granted_for : String → String → LockRequest → Bool
granted_for resource_id namespace q =
    (q.resource_id == resource_id && q.namespace == namespace) && is_granted q.status

abbrev pub active_for : String → String → LockRequest → Bool
active_for resource_id namespace q =
    (q.resource_id == resource_id && q.namespace == namespace) && is_active q.status

-- The id of the lock that goes with a namespace.
unfoldable pub namespace_lock : String → String
namespace_lock namespace = append "namespace:" namespace

-- ttl_seconds or default
abbrev pub or_default : Option ℕ → ℕ → ℕ
or_default none d = d
or_default (some zero) d = d
or_default (some (suc t)) d = suc t

abbrev pub set_status : LockStatus → ℕ → LockRequest → LockRequest
set_status status now q = record q { status = status; updated_at = now }

abbrev pub set_holder : Option String → ℕ → LockResource → LockResource
set_holder holder now r = record r { holder_namespace = holder; updated_at = now }

-- The two UPDATE statements of `_promote_lock_holder`, for the row that it selected.
unfoldable pub grant_next :
    ℕ → LockTables → String → Option LockRequest → LockTables × Option LockRequest
grant_next now t resource_id none = (t, none)
grant_next now t resource_id (some next) = (
  record t {
    requests = update (with_id next.id) (set_status granted now) t.requests;
    resources = update (of_resource resource_id) (set_holder (some next.namespace) now) t.resources;
  },
  some next,
)

-- The test of the holder, for the resource that was fetched.
unfoldable pub promote_free :
    ℕ → LockTables → String → Option LockResource → LockTables × Option LockRequest
unfolding grant_next
promote_free now t resource_id none = (t, none)
promote_free now t resource_id (some resource) =
    if truthy resource.holder_namespace
    then (t, none)
    else grant_next now t resource_id (fetch (queued_for resource_id) t.requests)

-- `_promote_lock_holder`: what it returns is the row as it was before the update.
unfoldable pub promote : ℕ → LockTables → String → LockTables × Option LockRequest
unfolding promote_free
promote now t resource_id =
    promote_free now t resource_id (fetch (of_resource resource_id) t.resources)

-- INSERT ... ON CONFLICT(resource_id) DO NOTHING
unfoldable pub insert_resource : ℕ → String → List LockResource → List LockResource
insert_resource now resource_id rs =
    if is_some (fetch (of_resource resource_id) rs)
    then rs
    else rs
      ++ record {
        resource_id = resource_id;
        holder_namespace = none;
        capacity = 1;
        state = "active";
        updated_at = now;
      }
        ∷ []

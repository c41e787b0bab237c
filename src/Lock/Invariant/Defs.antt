-- ===== src/Lock/Invariant/Defs.antt =====
-- The well-formed lock tables: who holds a resource, and which requests stand behind it.
use vm_forgeyard.Prelude.{
  ℕ, ◌<◌, ◌≡◌, String, true, false, Option, none, some, List, [], ◌∷◌, ◌==◌, truthy, is_some, All,
}
use vm_forgeyard.Prelude.Rows.{fetch, any}
use vm_forgeyard.Lock.{
  LockResource, LockRequest, LockTables, is_queued, is_granted, is_active, of_resource, granted_for,
  active_for,
}

abbrev pub holder_of : Option LockResource → Option String
holder_of none = none
holder_of (some r) = r.holder_namespace

-- The namespace that holds a resource; a resource that has no row is free.
abbrev pub holder : List LockResource → String → Option String
holder rs resource_id = holder_of (fetch (of_resource resource_id) rs)

-- Ids rise along the table and stay below the next one.
abbrev pub Rising : ℕ → List LockRequest → Type 0
Rising n [] = Unit {0}
Rising n (q ∷ qs) = (q.id < n) × All (λ p. q.id < p.id) qs × Rising n qs

-- No namespace has two active requests for one resource.
abbrev pub Distinct : List LockRequest → Type 0
Distinct [] = Unit {0}
Distinct (q ∷ qs) =
    (is_active q.status ≡ true → any (active_for q.resource_id q.namespace) qs ≡ false)
    × Distinct qs

-- The namespace of a granted request holds the resource.
abbrev pub Holds : List LockResource → LockRequest → Type 0
Holds rs q = is_granted q.status ≡ true → holder rs q.resource_id ≡ some q.namespace

-- While a request waits, somebody holds the resource.
abbrev pub Waits : List LockResource → LockRequest → Type 0
Waits rs q = is_queued q.status ≡ true → truthy (holder rs q.resource_id) ≡ true

abbrev pub Named : LockRequest → Type 0
Named q = (q.namespace == "") ≡ false

-- All but the promotion at one resource.
pub record IsPending (resource_id : String) (t : LockTables) : Type 0 where
  pub ids : Rising t.next_id t.requests
  pub distinct : Distinct t.requests
  pub named : All Named t.requests
  pub held : All (Holds t.resources) t.requests
  pub backed :
      (r n : String) → holder t.resources r ≡ some n → any (granted_for r n) t.requests ≡ true
  pub waiting : All (λ q. ((q.resource_id == resource_id) ≡ false) → Waits t.resources q) t.requests
  pub known : is_some (fetch (of_resource resource_id) t.resources) ≡ true

pub record IsConsistent (t : LockTables) : Type 0 where
  pub ids : Rising t.next_id t.requests
  pub distinct : Distinct t.requests
  pub named : All Named t.requests
  pub held : All (Holds t.resources) t.requests
  pub backed :
      (r n : String) → holder t.resources r ≡ some n → any (granted_for r n) t.requests ≡ true
  pub waiting : All (Waits t.resources) t.requests

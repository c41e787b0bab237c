-- ===== src/Lock/Invariant/Entries.antt =====
-- The rows of `lock_requests`: ids that name one row, and one active request for each namespace and
-- resource.
use vm_forgeyard.Prelude.{
  ℕ, suc, ◌<◌, ◌≡◌, refl, ap, inl, inr, String, Bool, true, false, ◌&&◌, ◌||◌, some, List, [], ◌∷◌,
  ◌++◌, ◌==◌, All, All-map, All-append, arith, Bool-cases, if◌then◌else◌,
}
use mathlib.Core.Option.{some-injective}
use vm_forgeyard.Prelude.Rows.{fetch, update, any, fetch-All}
use vm_forgeyard.Lock.{LockRequest, is_active, with_id, active_for}
use vm_forgeyard.Lock.Invariant.Defs.{Rising, Distinct}

-- With rising ids, the row that was fetched is the only one with its id.
pub unique_id :
    (n : ℕ) (test : LockRequest → Bool) (qs : List LockRequest) (x : LockRequest)
    → Rising n qs
    → fetch test qs ≡ some x
    → All (λ q. with_id x.id q ≡ true → q ≡ x) qs
unique_id n test [] x up e = tt
unique_id n test (q ∷ qs) x up e = elim (Bool-cases (test q)) [
  | inl f ↦
      let same : q ≡ x = some-injective q x (rw f at e) in
      (
        λ _. same,
        All-map (λ p later hit. absurd (ground (arith, ap (λ (y : LockRequest). y.id) same))) qs
            up.1,
      )
  | inr f ↦
      let found : fetch test qs ≡ some x = rw f at e in
      let below : q.id < x.id = fetch-All (λ p. q.id < p.id) test qs x found up.1 in
      (λ hit. absurd (ground arith), unique_id n test qs x up.2 found)
]

pub Rising-append :
    (n : ℕ) (qs : List LockRequest) (x : LockRequest)
    → Rising n qs
    → x.id ≡ n
    → Rising (suc n) (qs ++ x ∷ [])
Rising-append n [] x up e = (omega arith, tt, tt)
Rising-append n (q ∷ qs) x up e = (
  omega arith,
  All-append (λ p. q.id < p.id) qs (x ∷ []) up.1 (rw e up.0, tt),
  Rising-append n qs x up.2 e,
)

-- A row with the id that comes next is not there yet.
pub fetch-fresh :
    (n : ℕ) (qs : List LockRequest) (x : LockRequest)
    → Rising n qs
    → x.id ≡ n
    → fetch (with_id n) (qs ++ x ∷ []) ≡ some x
fetch-fresh n [] x up e = ground arith
fetch-fresh n (q ∷ qs) x up e = ground (arith, fetch-fresh n qs x up.2 e)

and_weaken : (a b c : Bool) → (b ≡ true → c ≡ true) → (a && c) ≡ false → (a && b) ≡ false
and_weaken false b c h e = refl
and_weaken true false c h e = refl
and_weaken true true c h e = cc (h refl)

or_false : (a b : Bool) → (a || b) ≡ false → (a ≡ false) × (b ≡ false)
or_false a b h = ground arith

-- Updates that leave ids, resources and namespaces alone.
module _ (test : LockRequest → Bool) (change : LockRequest → LockRequest)
    (same_id : (q : LockRequest) → (change q).id ≡ q.id)
    (same_resource : (q : LockRequest) → (change q).resource_id ≡ q.resource_id)
    (same_namespace : (q : LockRequest) → (change q).namespace ≡ q.namespace) where
  abbrev changed : LockRequest → LockRequest
  changed q = if test q then change q else q

  changed_id : (q : LockRequest) → (changed q).id ≡ q.id
  changed_id q = elim (Bool-cases (test q)) [ inl e ↦ rw e (same_id q) | inr e ↦ rw e ]

  changed_resource : (q : LockRequest) → (changed q).resource_id ≡ q.resource_id
  changed_resource q = elim (Bool-cases (test q)) [ inl e ↦ rw e (same_resource q) | inr e ↦ rw e ]

  changed_namespace : (q : LockRequest) → (changed q).namespace ≡ q.namespace
  changed_namespace q = elim (Bool-cases (test q)) [
    | inl e ↦ rw e (same_namespace q)
    | inr e ↦ rw e
  ]

  later-update :
      (i : ℕ) (qs : List LockRequest)
      → All (λ p. i < p.id) qs
      → All (λ p. i < p.id) (update test change qs)
  later-update i [] h = tt
  later-update i (q ∷ qs) h = (rw changed_id h.0, later-update i qs h.1)

  pub Rising-update :
      (n : ℕ) (qs : List LockRequest) → Rising n qs → Rising n (update test change qs)
  Rising-update n [] up = tt
  Rising-update n (q ∷ qs) up =
      (rw changed_id up.0, rw changed_id (later-update q.id qs up.1), Rising-update n qs up.2)

  -- No row becomes active.
  abbrev pub Calms : LockRequest → Type 0
  Calms q = is_active (changed q).status ≡ true → is_active q.status ≡ true

  active_for-changed :
      (r n : String) (q : LockRequest)
      → Calms q
      → active_for r n q ≡ false
      → active_for r n (changed q) ≡ false
  active_for-changed r n q calms h =
      rw (changed_resource q, changed_namespace q)
        (and_weaken (q.resource_id == r && q.namespace == n) _ _ calms h)

  none_active-update :
      (r n : String) (qs : List LockRequest)
      → All Calms qs
      → any (active_for r n) qs ≡ false
      → any (active_for r n) (update test change qs) ≡ false
  none_active-update r n [] calms h = refl
  none_active-update r n (q ∷ qs) calms h =
      let (first, rest) = or_false _ _ h in
      rw (active_for-changed r n q calms.0 first, none_active-update r n qs calms.1 rest)

  pub Distinct-update :
      (qs : List LockRequest) → All Calms qs → Distinct qs → Distinct (update test change qs)
  Distinct-update [] calms d = tt
  Distinct-update (q ∷ qs) calms d = (
    λ active.
        rw (changed_resource q, changed_namespace q)
          (none_active-update q.resource_id q.namespace qs calms.1 (d.0 (calms.0 active))),
    Distinct-update qs calms.1 d.1,
  )

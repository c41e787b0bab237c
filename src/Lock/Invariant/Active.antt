-- ===== src/Lock/Invariant/Active.antt =====
-- What it says that no namespace has two active requests for one resource.
use vm_forgeyard.Prelude.{
  ap, Option, =ℕ_refl, All-map, ℕ, ◌≤◌, ◌≡◌, refl, inl, inr, String, Bool, true, false, ◌&&◌, ◌||◌,
  some, List, [], ◌∷◌, ◌++◌, ◌==◌, All, arith, eq_iff, Bool-cases, subst, sym, length, ◌∙◌,
}
use mathlib.Core.Option.{some-injective}
use vm_forgeyard.Prelude.Rows.{fetch, any, select, any-append}
use vm_forgeyard.Lock.{
  LockStatus, queued, granted, released, LockRequest, LockResource, is_granted, is_active, with_id,
  granted_for, active_for,
}
use vm_forgeyard.Lock.Invariant.Defs.{Distinct, Holds, holder}

and_parts : (a b : Bool) → (a && b) ≡ true → (a ≡ true) × (b ≡ true)
and_parts a b h = ground arith

or_parts : (a b : Bool) → (a || b) ≡ false → (a ≡ false) × (b ≡ false)
or_parts a b h = ground arith

pub granted_is_active : (s : LockStatus) → is_granted s ≡ true → is_active s ≡ true
granted_is_active queued h = cc
granted_is_active granted h = refl
granted_is_active released h = cc

-- Two active rows of one namespace and resource stand for one another in the tests.
active_for_trans :
    (q x : LockRequest)
    → active_for x.resource_id x.namespace q ≡ true
    → is_active x.status ≡ true
    → active_for q.resource_id q.namespace x ≡ true
active_for_trans q x h a = ground (
  arith,
  eq_iff q.resource_id x.resource_id,
  eq_iff x.resource_id q.resource_id,
  eq_iff q.namespace x.namespace,
  eq_iff x.namespace q.namespace,
)

pub Distinct-append :
    (qs : List LockRequest) (x : LockRequest)
    → is_active x.status ≡ true
    → any (active_for x.resource_id x.namespace) qs ≡ false
    → Distinct qs
    → Distinct (qs ++ x ∷ [])
Distinct-append [] x a h d = ((λ _. refl), tt)
Distinct-append (q ∷ qs) x a h d = (
  (λ active. ground (
    arith,
    any-append (active_for q.resource_id q.namespace) qs (x ∷ []),
    d.0 active,
    active_for_trans x q,
  )),
  Distinct-append qs x a (ground arith) d.1,
)

any-granted-active :
    (r n : String) (qs : List LockRequest)
    → any (granted_for r n) qs ≡ true
    → any (active_for r n) qs ≡ true
any-granted-active r n [] h = cc
any-granted-active r n (q ∷ qs) h = ground (arith, any-granted-active r n qs)

-- A fetched row is one of the rows.
pub any-fetch :
    (test : LockRequest → Bool) (i : ℕ) (qs : List LockRequest) (x : LockRequest)
    → fetch (with_id i) qs ≡ some x
    → test x ≡ true
    → any test qs ≡ true
any-fetch test i [] x e h = cc
any-fetch test i (q ∷ qs) x e h = elim (Bool-cases (with_id i q)) [
  | inl f ↦ rw (some-injective q x (rw f at e), h)
  | inr f ↦ ground (arith, any-fetch test i qs x (rw f at e) h)
]

first_is_granted :
    (q : LockRequest) (qs : List LockRequest)
    → (is_active q.status ≡ true → any (active_for q.resource_id q.namespace) qs ≡ false)
    → is_active q.status ≡ true
    → any (granted_for q.resource_id q.namespace) (q ∷ qs) ≡ true
    → is_granted q.status ≡ true
first_is_granted q qs d a g = ground (arith, d a, any-granted-active q.resource_id q.namespace qs)

-- If a namespace has a granted request, its active row is that one.
pub active_is_granted :
    (i : ℕ) (qs : List LockRequest) (x : LockRequest)
    → Distinct qs
    → fetch (with_id i) qs ≡ some x
    → is_active x.status ≡ true
    → any (granted_for x.resource_id x.namespace) qs ≡ true
    → is_granted x.status ≡ true
active_is_granted i [] x d e a g = cc
active_is_granted i (q ∷ qs) x d e a g = elim (Bool-cases (with_id i q)) [
  | inl f ↦
      subst
        (λ (y : LockRequest).
          is_active y.status ≡ true
          → any (granted_for y.resource_id y.namespace) (q ∷ qs) ≡ true
          → is_granted y.status ≡ true)
        (some-injective q x (rw f at e)) (first_is_granted q qs d.0) a g
  | inr f ↦
      let found : fetch (with_id i) qs ≡ some x = rw f at e in
      ground (
        arith,
        active_is_granted i qs x d.1 found a,
        any-fetch (active_for q.resource_id q.namespace) i qs x found,
        active_for_trans q x,
        d.0,
      )
]

-- Requests of other namespaces than the holder's are not granted.
none_granted :
    (rs : List LockResource) (r n : String) (qs : List LockRequest)
    → All (Holds rs) qs
    → holder rs r ≡ some n
    → any (active_for r n) qs ≡ false
    → select (λ q. q.resource_id == r && is_granted q.status) qs ≡ []
none_granted rs r n [] h k e = refl
none_granted rs r n (q ∷ qs) h k e = elim (Bool-cases (q.resource_id == r && is_granted q.status)) [
  | inl f ↦ absurd (clash (and_parts _ _ f))
  | inr f ↦ rw f (none_granted rs r n qs h.1 k (or_parts _ _ e).1)
]
  where
    clash : ((q.resource_id == r) ≡ true) × (is_granted q.status ≡ true) → ⊥
    clash (same, g) =
        let path : q.resource_id ≡ r = (eq_iff q.resource_id r).0 same in
        let mine : holder rs r ≡ some q.namespace =
          subst (λ (t : String). holder rs t ≡ some q.namespace) path (h.0 g) in
        let name : n ≡ q.namespace = some-injective n q.namespace (sym k ∙ mine) in
        let apart : active_for r n q ≡ false = (or_parts _ _ e).0 in
        ground (arith, eq_iff q.namespace n, granted_is_active q.status g)

-- One holder leaves room for one granted request.
pub one_granted :
    (rs : List LockResource) (r : String) (qs : List LockRequest)
    → All (Holds rs) qs
    → Distinct qs
    → length (select (λ q. q.resource_id == r && is_granted q.status) qs) ≤ 1
one_granted rs r [] h d = omega arith
one_granted rs r (q ∷ qs) h d = elim (Bool-cases (q.resource_id == r && is_granted q.status)) [
  | inl f ↦
      let (same, g) = and_parts _ _ f in
      let path : q.resource_id ≡ r = (eq_iff q.resource_id r).0 same in
      rw f (
        rw
          (none_granted rs r q.namespace qs h.1
            (subst (λ (t : String). holder rs t ≡ some q.namespace) path (h.0 g))
            (subst (λ (t : String). any (active_for t q.namespace) qs ≡ false) path
              (d.0 (granted_is_active q.status g))))
          (omega arith))
  | inr f ↦ rw f (one_granted rs r qs h.1 d.1)
]

none_of_any :
    (test : LockRequest → Bool) (qs : List LockRequest)
    → any test qs ≡ false
    → All (λ q. test q ≡ false) qs
none_of_any test [] h = tt
none_of_any test (q ∷ qs) h = ((or_parts _ _ h).0, none_of_any test qs (or_parts _ _ h).1)

-- The active row of a namespace is the only one.
pub sole_active :
    (i : ℕ) (qs : List LockRequest) (x : LockRequest)
    → Distinct qs
    → fetch (with_id i) qs ≡ some x
    → is_active x.status ≡ true
    → All (λ q. active_for x.resource_id x.namespace q ≡ true → with_id x.id q ≡ true) qs
sole_active i [] x d e a = tt
sole_active i (q ∷ qs) x d e a = elim (Bool-cases (with_id i q)) [
  | inl f ↦
      subst
        (λ (y : LockRequest).
          is_active y.status ≡ true
          → All (λ p. active_for y.resource_id y.namespace p ≡ true → with_id y.id p ≡ true)
              (q ∷ qs))
        (some-injective q x (rw f at e))
        (λ a'. (
          λ _. =ℕ_refl q.id,
          All-map (λ p none hit. cc) qs
              (none_of_any (active_for q.resource_id q.namespace) qs (d.0 a')),
        ))
        a
  | inr f ↦
      let found : fetch (with_id i) qs ≡ some x = rw f at e in
      (
        λ hit. absurd (
            ground (
              arith,
              active_for_trans q x hit a,
              any-fetch (active_for q.resource_id q.namespace) i qs x found,
              d.0,
            )),
        sole_active i qs x d.1 found a,
      )
]

granted_for_parts :
    (r n : String) (q : LockRequest)
    → granted_for r n q ≡ true
    → ((q.resource_id ≡ r) × (q.namespace ≡ n)) × (is_granted q.status ≡ true)
granted_for_parts r n q h = ground (arith, eq_iff q.resource_id r, eq_iff q.namespace n)

-- Who has a granted request holds the resource.
pub granted-Holds :
    (rs : List LockResource) (r n : String) (qs : List LockRequest)
    → All (Holds rs) qs
    → any (granted_for r n) qs ≡ true
    → holder rs r ≡ some n
granted-Holds rs r n [] h e = cc
granted-Holds rs r n (q ∷ qs) h e = elim (Bool-cases (granted_for r n q)) [
  | inl f ↦
      let parts = granted_for_parts r n q f in
      subst (λ (t : String). holder rs t ≡ some n) parts.0.0
        (h.0 parts.1 ∙ ap {B = Option String} some parts.0.1)
  | inr f ↦ granted-Holds rs r n qs h.1 (ground arith)
]

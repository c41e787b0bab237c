-- ===== src/Lock/Invariant/Promotion.antt =====
-- `_promote_lock_holder` restores the invariant at the resource that it is called for.
use vm_forgeyard.Prelude.{
  ℕ, ◌≡◌, refl, ap, inl, inr, String, true, false, none, some, List, ◌==◌, truthy, All, All-map,
  arith, eq_iff, eq_refl, Bool-cases, Option-cases, subst, sym, if◌then◌else◌, ◌∙◌, =ℕ_refl,
  All-zip,
}
use mathlib.Core.Option.{some-injective}
use vm_forgeyard.Prelude.Rows.{
  fetch, update, any, fetch-All, fetch-meets, fetch-none, All-update, any-update_hit,
  any-update_keep, All-every,
}
use vm_forgeyard.Lock.{
  LockStatus, queued, granted, released, LockRequest, LockResource, LockTables, is_queued,
  is_active, with_id, of_resource, queued_for, granted_for, set_status, set_holder, promote,
  promote_free, grant_next,
}
use vm_forgeyard.Lock.Invariant.Defs.{Holds, Waits, Named, holder, IsPending, IsConsistent}
use vm_forgeyard.Lock.Invariant.Holders.{
  holder-update_other, other_resource, holder-set_self, text_sym,
}
use vm_forgeyard.Lock.Invariant.Entries.{unique_id, Rising-update, Distinct-update}

queued_is_active : (s : LockStatus) → is_queued s ≡ true → is_active s ≡ true
queued_is_active queued h = refl
queued_is_active granted h = cc
queued_is_active released h = cc

-- The state in which the oldest waiting request of a free resource is granted.
module _ (now : ℕ) (t : LockTables) (res : String) (next : LockRequest) (p : IsPending res t)
    (free : truthy (holder t.resources res) ≡ false)
    (found : fetch (queued_for res) t.requests ≡ some next) where
  abbrev resources' : List LockResource
  resources' = update (of_resource res) (set_holder (some next.namespace) now) t.resources

  abbrev requests' : List LockRequest
  requests' = update (with_id next.id) (set_status granted now) t.requests

  next_queued : ((next.resource_id == res) ≡ true) × (is_queued next.status ≡ true)
  next_queued = ground (arith, fetch-meets (queued_for res) t.requests next found)

  only : All (λ q. with_id next.id q ≡ true → q ≡ next) t.requests
  only = unique_id t.next_id (queued_for res) t.requests next p.ids found

  holder_here : holder resources' res ≡ some next.namespace
  holder_here = holder-set_self (some next.namespace) now res t.resources p.known

  holder_there : (r : String) → (res == r) ≡ false → holder resources' r ≡ holder t.resources r
  holder_there r ne =
      holder-update_other (of_resource res) (some next.namespace) now t.resources r
        (λ x. other_resource res r x ne)

  abbrev after : LockRequest → LockRequest
  after q = if with_id next.id q then set_status granted now q else q

  next_holds : holder resources' next.resource_id ≡ some next.namespace
  next_holds = rw ((eq_iff next.resource_id res).0 next_queued.0) holder_here

  Named-truthy : (q : LockRequest) → Named q → truthy (some q.namespace) ≡ true
  Named-truthy q h = rw h

  Holds-after :
      (q : LockRequest)
      → (with_id next.id q ≡ true → q ≡ next)
      → Named q
      → Holds t.resources q
      → Holds resources' (after q)
  Holds-after q same named h = elim (Bool-cases (with_id next.id q)) [
    | inl f ↦ rw f (λ _.
        subst (λ (y : LockRequest). holder resources' y.resource_id ≡ some y.namespace)
          (sym (same f)) next_holds)
    | inr f ↦ rw f λ g. elim (Bool-cases (res == q.resource_id)) [
      | inl e ↦
          let mine : holder t.resources res ≡ some q.namespace =
            rw ((eq_iff res q.resource_id).0 e) (h g) in
          cc (Named-truthy q named, ap truthy mine)
      | inr e ↦ rw (holder_there q.resource_id e) (h g)
    ]
  ]

  Waits-after :
      (q : LockRequest)
      → (((q.resource_id == res) ≡ false) → Waits t.resources q)
      → Named next
      → Waits resources' (after q)
  Waits-after q h named = elim (Bool-cases (with_id next.id q)) [
    | inl f ↦ rw f (λ w. cc)
    | inr f ↦ rw f λ w. elim (Bool-cases (q.resource_id == res)) [
      | inl e ↦ rw ((eq_iff q.resource_id res).0 e) (rw holder_here (Named-truthy next named))
      | inr e ↦ rw (holder_there q.resource_id (text_sym res q.resource_id ∙ e)) (h e w)
    ]
  ]

  granted_for-after :
      (r n : String) (q : LockRequest) → granted_for r n q ≡ true → granted_for r n (after q) ≡ true
  granted_for-after r n q h = elim (Bool-cases (with_id next.id q)) [
    | inl f ↦ rw f (ground arith)
    | inr f ↦ rw f h
  ]

  backed-after :
      (r n : String) → holder resources' r ≡ some n → any (granted_for r n) requests' ≡ true
  backed-after r n e = elim (Bool-cases (res == r)) [
    | inl f ↦
        let here : r ≡ res = sym ((eq_iff res r).0 f) in
        let name : n ≡ next.namespace =
          some-injective n next.namespace (sym e ∙ ap (holder resources') here ∙ holder_here) in
        any-update_hit (queued_for res) (with_id next.id) (granted_for r n) (set_status granted now)
          t.requests next found (=ℕ_refl next.id)
          (rw (here, name, next_queued.0, eq_refl next.namespace))
    | inr f ↦
        any-update_keep (with_id next.id) (granted_for r n) (set_status granted now) t.requests
          (All-every _ (granted_for-after r n) t.requests)
          (p.backed r n (sym (holder_there r f) ∙ e))
  ]

  Calms-after :
      (q : LockRequest)
      → (with_id next.id q ≡ true → q ≡ next)
      → is_active (after q).status ≡ true
      → is_active q.status ≡ true
  Calms-after q same a = elim (Bool-cases (with_id next.id q)) [
    | inl f ↦ rw (same f) (queued_is_active next.status next_queued.1)
    | inr f ↦ rw f at a
  ]

  abbrev Same : LockRequest → Type 0
  Same q = with_id next.id q ≡ true → q ≡ next

  next-Named : Named next
  next-Named = fetch-All Named (queued_for res) t.requests next found p.named

  named' : All Named requests'
  named' =
      All-update Named Named (with_id next.id) (set_status granted now)
        (λ q h. elim (Bool-cases (with_id next.id q)) [ inl f ↦ rw f h | inr f ↦ rw f h ])
        t.requests p.named

  pub grant_next-IsConsistent : IsConsistent (grant_next now t res (some next)).0
  unfolding grant_next
  grant_next-IsConsistent = record {
    ids =
        Rising-update (with_id next.id) (set_status granted now) (λ q. refl) (λ q. refl) (λ q. refl)
          t.next_id t.requests p.ids;
    distinct =
        Distinct-update (with_id next.id) (set_status granted now) (λ q. refl) (λ q. refl)
          (λ q. refl) t.requests (All-map Calms-after t.requests only) p.distinct;
    named = named';
    held =
        All-update (λ q. Same q × (Named q × Holds t.resources q)) (Holds resources')
          (with_id next.id) (set_status granted now) (λ q h. Holds-after q h.0 h.1.0 h.1.1)
          t.requests
          (All-zip Same (λ q. Named q × Holds t.resources q) t.requests only
            (All-zip Named (Holds t.resources) t.requests p.named p.held));
    backed = backed-after;
    waiting =
        All-update (λ q. ((q.resource_id == res) ≡ false) → Waits t.resources q) (Waits resources')
          (with_id next.id) (set_status granted now) (λ q h. Waits-after q h next-Named) t.requests
          p.waiting;
  }

-- With a holder there is nothing to restore.
busy-IsConsistent :
    (t : LockTables) (res : String)
    → IsPending res t
    → truthy (holder t.resources res) ≡ true
    → IsConsistent t
busy-IsConsistent t res p busy = record {
  ids = p.ids;
  distinct = p.distinct;
  named = p.named;
  held = p.held;
  backed = p.backed;
  waiting =
      All-map
        (λ q h w. elim (Bool-cases (q.resource_id == res)) [
          | inl e ↦ rw ((eq_iff q.resource_id res).0 e) busy
          | inr e ↦ h e w
        ])
        t.requests p.waiting;
}

-- Nor is there if nobody waits.
idle-IsConsistent :
    (t : LockTables) (res : String)
    → IsPending res t
    → fetch (queued_for res) t.requests ≡ none
    → IsConsistent t
idle-IsConsistent t res p idle = record {
  ids = p.ids;
  distinct = p.distinct;
  named = p.named;
  held = p.held;
  backed = p.backed;
  waiting =
      All-map
        (λ q h w. elim (Bool-cases (q.resource_id == res)) [
          | inl e ↦ absurd (ground (arith, h.0))
          | inr e ↦ h.1 e w
        ])
        t.requests
        (All-zip (λ q. queued_for res q ≡ false)
          (λ q. ((q.resource_id == res) ≡ false) → Waits t.resources q) t.requests
          (fetch-none (queued_for res) t.requests idle) p.waiting);
}

-- Promotion makes pending tables consistent.
pub promote-IsConsistent :
    (now : ℕ) (t : LockTables) (res : String) → IsPending res t → IsConsistent (promote now t res).0
unfolding promote
promote-IsConsistent now t res p = elim (Option-cases (fetch (of_resource res) t.resources)) [
  | inl e ↦ cc (e, p.known)
  | inr (r, e) ↦ elim (Bool-cases (truthy r.holder_namespace)) [
    | inl busy ↦ rw (e, promote_free) (rw busy (busy-IsConsistent t res p (rw e busy)))
    | inr free ↦ elim (Option-cases (fetch (queued_for res) t.requests)) [
      | inl idle ↦
          rw (e, promote_free) (rw (free, idle, grant_next) (idle-IsConsistent t res p idle))
      | inr (next, found) ↦
          rw (e, promote_free)
            (rw (free, found) (grant_next-IsConsistent now t res next p (rw e free) found))
    ]
  ]
]

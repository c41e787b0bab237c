-- ===== src/Lock/Invariant/Withdrawal.antt =====
-- The two UPDATE statements of `release_lock`: only the promotion is missing after them.
use vm_forgeyard.Prelude.{
  ℕ, ◌≡◌, refl, ap, inl, inr, String, true, false, Option, none, some, List, ◌==◌, truthy, is_some,
  All, All-map, arith, eq_iff, Bool-cases, sym, if◌then◌else◌, ◌∙◌, All-zip,
}
use vm_forgeyard.Prelude.Rows.{fetch, update, any, fetch-All, All-update, any-update_keep}
use vm_forgeyard.Lock.{
  LockStatus, queued, granted, released, LockRequest, LockResource, LockTables, is_queued,
  is_granted, is_active, with_id, of_resource, granted_for, active_for, set_status, set_holder,
}
use vm_forgeyard.Lock.Requests.{withdraw, held_by, is_holder}
use vm_forgeyard.Lock.Invariant.Defs.{Holds, Waits, Named, holder, IsPending, IsConsistent}
use vm_forgeyard.Lock.Invariant.Holders.{
  holder-update_other, holder-clear_self, holder-clear_kept, known-update, known_of_holder,
  text_sym,
}
use vm_forgeyard.Lock.Invariant.Entries.{unique_id, Rising-update, Distinct-update}
use vm_forgeyard.Lock.Invariant.Active.{sole_active, granted_is_active}

truthy-is_some : (o : Option String) → truthy o ≡ true → is_some o ≡ true
truthy-is_some none h = h
truthy-is_some (some s) h = refl

-- The resource of an active request is held.
pub active_is_held :
    (rs : List LockResource) (q : LockRequest)
    → is_active q.status ≡ true
    → Holds rs q
    → Waits rs q
    → is_some (holder rs q.resource_id) ≡ true
active_is_held rs q a h w = by_status q.status a h w
  where
    by_status :
        (s : LockStatus)
        → is_active s ≡ true
        → (is_granted s ≡ true → holder rs q.resource_id ≡ some q.namespace)
        → (is_queued s ≡ true → truthy (holder rs q.resource_id) ≡ true)
        → is_some (holder rs q.resource_id) ≡ true
    by_status queued a' h' w' = truthy-is_some (holder rs q.resource_id) (w' refl)
    by_status granted a' h' w' = rw (h' refl)
    by_status released a' h' w' = cc

module _ (now i : ℕ) (t : LockTables) (row : LockRequest) (c : IsConsistent t)
    (found : fetch (with_id i) t.requests ≡ some row) (active : is_active row.status ≡ true) where
  abbrev resources' : List LockResource
  resources' = update (held_by row.resource_id row.namespace) (set_holder none now) t.resources

  abbrev requests' : List LockRequest
  requests' = update (with_id row.id) (set_status released now) t.requests

  abbrev Same : LockRequest → Type 0
  Same q = with_id row.id q ≡ true → q ≡ row

  abbrev Sole : LockRequest → Type 0
  Sole q = active_for row.resource_id row.namespace q ≡ true → with_id row.id q ≡ true

  only : All Same t.requests
  only = unique_id t.next_id (with_id i) t.requests row c.ids found

  sole : All Sole t.requests
  sole = sole_active i t.requests row c.distinct found active

  abbrev after : LockRequest → LockRequest
  after q = if with_id row.id q then set_status released now q else q

  holder_there :
      (r : String) → (row.resource_id == r) ≡ false → holder resources' r ≡ holder t.resources r
  holder_there r ne =
      holder-update_other (held_by row.resource_id row.namespace) none now t.resources r (λ x e.
        ground (
          arith,
          eq_iff row.resource_id r,
          eq_iff x.resource_id r,
          eq_iff x.resource_id row.resource_id,
        ))

  -- The granted request of another row has another namespace.
  other_namespace :
      (q : LockRequest)
      → Sole q
      → with_id row.id q ≡ false
      → row.resource_id ≡ q.resource_id
      → is_granted q.status ≡ true
      → (q.namespace == row.namespace) ≡ false
  other_namespace q alone f here g =
      ground (arith, alone, eq_iff q.resource_id row.resource_id, granted_is_active q.status g)

  Holds-after : (q : LockRequest) → Sole q → Holds t.resources q → Holds resources' (after q)
  Holds-after q alone h = elim (Bool-cases (with_id row.id q)) [
    | inl f ↦ rw f (λ g. cc)
    | inr f ↦ rw f λ g. elim (Bool-cases (row.resource_id == q.resource_id)) [
      | inl e ↦
          let here : row.resource_id ≡ q.resource_id = (eq_iff row.resource_id q.resource_id).0 e in
          let mine : holder t.resources row.resource_id ≡ some q.namespace = rw here (h g) in
          rw (← here) (
            holder-clear_kept now row.resource_id row.namespace t.resources
              (rw mine (other_namespace q alone f here g))
            ∙ mine)
      | inr e ↦ rw (holder_there q.resource_id e) (h g)
    ]
  ]

  Waits-after :
      (q : LockRequest)
      → Waits t.resources q
      → ((after q).resource_id == row.resource_id) ≡ false
      → Waits resources' (after q)
  Waits-after q h = elim (Bool-cases (with_id row.id q)) [
    | inl f ↦ rw f (λ ne w. cc)
    | inr f ↦
        rw f λ ne w.
          rw (holder_there q.resource_id (text_sym row.resource_id q.resource_id ∙ ne)) (h w)
  ]

  granted_for-after :
      (r n : String) (q : LockRequest)
      → granted_for r n row ≡ false
      → Same q
      → granted_for r n q ≡ true
      → granted_for r n (after q) ≡ true
  granted_for-after r n q absent same h = elim (Bool-cases (with_id row.id q)) [
    | inl f ↦ cc (absent, h, ap (granted_for r n) (same f))
    | inr f ↦ rw f h
  ]

  still :
      (r n : String)
      → granted_for r n row ≡ false
      → holder t.resources r ≡ some n
      → any (granted_for r n) requests' ≡ true
  still r n absent e =
      any-update_keep (with_id row.id) (granted_for r n) (set_status released now) t.requests
        (All-map (λ q same. granted_for-after r n q absent same) t.requests only) (c.backed r n e)

  backed-after :
      (r n : String) → holder resources' r ≡ some n → any (granted_for r n) requests' ≡ true
  backed-after r n e = elim (Bool-cases (row.resource_id == r)) [
    | inl f ↦
        let here : holder resources' row.resource_id ≡ some n =
          ap (holder resources') ((eq_iff row.resource_id r).0 f) ∙ e in
        elim (Bool-cases (is_holder row.namespace (holder t.resources row.resource_id))) [
          | inl mine ↦
              cc (here, holder-clear_self now row.resource_id row.namespace t.resources mine)
          | inr other ↦
              let was : holder t.resources row.resource_id ≡ some n =
                sym (holder-clear_kept now row.resource_id row.namespace t.resources other)
                ∙ here in
              still r n (ground (arith, text_sym row.namespace n, rw was at other))
                (ap (holder t.resources) (sym ((eq_iff row.resource_id r).0 f)) ∙ was)
        ]
    | inr f ↦ still r n (ground arith) (sym (holder_there r f) ∙ e)
  ]

  known' : is_some (fetch (of_resource row.resource_id) resources') ≡ true
  known' = rw known-update (known_of_holder t.resources row.resource_id row_held)
    where
      row_held : is_some (holder t.resources row.resource_id) ≡ true
      row_held =
          active_is_held t.resources row active
            (fetch-All (Holds t.resources) (with_id i) t.requests row found c.held)
            (fetch-All (Waits t.resources) (with_id i) t.requests row found c.waiting)

  pub withdraw-IsPending : IsPending row.resource_id (withdraw now t row row.namespace)
  unfolding withdraw
  withdraw-IsPending = record {
    ids =
        Rising-update (with_id row.id) (set_status released now) (λ q. refl) (λ q. refl) (λ q. refl)
          t.next_id t.requests c.ids;
    distinct =
        Distinct-update (with_id row.id) (set_status released now) (λ q. refl) (λ q. refl)
          (λ q. refl) t.requests
          (All-map
            (λ q _. elim (Bool-cases (with_id row.id q)) [
              | inl f ↦ rw f (λ a. cc)
              | inr f ↦ rw f (λ a. a)
            ])
            t.requests only)
          c.distinct;
    named =
        All-update Named Named (with_id row.id) (set_status released now)
          (λ q h. elim (Bool-cases (with_id row.id q)) [ inl f ↦ rw f h | inr f ↦ rw f h ])
          t.requests c.named;
    held =
        All-update (λ q. Sole q × Holds t.resources q) (Holds resources') (with_id row.id)
          (set_status released now) (λ q h. Holds-after q h.0 h.1) t.requests
          (All-zip Sole (Holds t.resources) t.requests sole c.held);
    backed = backed-after;
    waiting =
        All-update (Waits t.resources)
          (λ q. ((q.resource_id == row.resource_id) ≡ false) → Waits resources' q) (with_id row.id)
          (set_status released now) (λ q h. Waits-after q h) t.requests c.waiting;
    known = known';
  }

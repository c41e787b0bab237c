-- ===== src/Lock/Handover.antt =====
-- A release by the namespace that holds the resource, while others wait for it.
use vm_forgeyard.Prelude.{
  ℕ, ◌≡◌, ◌≤◌, ◌<◌, refl, inl, inr, String, Bool, true, false, none, some, List, ◌∙◌, ok,
  Bool-cases, Option-cases, subst, ap, arith, is_some, truthy, ◌∷◌, [], =ℕ_refl, eq_refl, All,
  All-map,
}
use mathlib.Core.Option.{some-injective}
use vm_forgeyard.Prelude.Rows.{
  fetch, update, fetch-update_key, fetch-update_other, fetch-meets, fetch-All,
}
use vm_forgeyard.Lock.{
  LockTables, LockRequest, granted, released, is_queued, with_id, of_resource, queued_for,
  set_status, set_holder, promote, promote_free, grant_next,
}
use vm_forgeyard.Lock.Requests.{release_lock, release_events, held_by}
use vm_forgeyard.Lock.Invariant.{
  IsConsistent, Rising, holder, unique_id, holder-clear_self, known-update, known_of_holder,
  holder-set_self,
}

-- With rising ids a fetched row is fetched by its id.
pub fetch_by_id :
    (n : ℕ) (test : LockRequest → Bool) (qs : List LockRequest) (x : LockRequest)
    → Rising n qs
    → fetch test qs ≡ some x
    → fetch (with_id x.id) qs ≡ some x
fetch_by_id n test [] x up e = cc
fetch_by_id n test (q ∷ qs) x up e = elim (Bool-cases (test q)) [
  | inl f ↦
      let same : q ≡ x = some-injective q x (rw f at e) in
      subst (λ (y : LockRequest). fetch (with_id y.id) (q ∷ qs) ≡ some y) same (rw (=ℕ_refl q.id))
  | inr f ↦
      let found : fetch test qs ≡ some x = rw f at e in
      let below : q.id < x.id = fetch-All (λ p. q.id < p.id) test qs x found up.1 in
      let other : with_id x.id q ≡ false = ground arith in
      rw other (fetch_by_id n test qs x up.2 found)
]

-- With rising ids no row of a test is older than the one that is fetched.
pub fetch_oldest :
    (n : ℕ) (test : LockRequest → Bool) (qs : List LockRequest) (x : LockRequest)
    → Rising n qs
    → fetch test qs ≡ some x
    → All (λ q. test q ≡ true → x.id ≤ q.id) qs
fetch_oldest n test [] x up e = tt
fetch_oldest n test (q ∷ qs) x up e = elim (Bool-cases (test q)) [
  | inl f ↦
      let same : q ≡ x = some-injective q x (rw f at e) in
      subst (λ (y : LockRequest). All (λ p. test p ≡ true → y.id ≤ p.id) (q ∷ qs)) same
        ((λ _. omega arith), All-map (λ p later _. omega arith) qs up.1)
  | inr f ↦ ((λ hit. cc), fetch_oldest n test qs x up.2 (rw f at e))
]

promote_grants :
    (now : ℕ) (t : LockTables) (res : String) (next : LockRequest)
    → is_some (fetch (of_resource res) t.resources) ≡ true
    → truthy (holder t.resources res) ≡ false
    → fetch (queued_for res) t.requests ≡ some next
    → promote now t res ≡ grant_next now t res (some next)
unfolding promote
promote_grants now t res next known free waits =
    elim (Option-cases (fetch (of_resource res) t.resources)) [
      | inl e ↦ cc (e, known)
      | inr (r, e) ↦ rw (e, promote_free) (rw ((rw e at free), waits))
    ]

module _ (now id : ℕ) (t : LockTables) (row next : LockRequest) (c : IsConsistent t)
    (found : fetch (with_id id) t.requests ≡ some row) (settled : is_queued row.status ≡ false)
    (holds : holder t.resources row.resource_id ≡ some row.namespace)
    (waits : fetch (queued_for row.resource_id) t.requests ≡ some next) where
  abbrev pub res : String
  res = row.resource_id

  abbrev pub withdrawn : LockTables
  withdrawn = record t {
    requests = update (with_id row.id) (set_status released now) t.requests;
    resources = update (held_by res row.namespace) (set_holder none now) t.resources;
  }

  -- The tables that the release leaves.
  abbrev pub handed : LockTables
  handed = record withdrawn {
    requests = update (with_id next.id) (set_status granted now) withdrawn.requests;
    resources = update (of_resource res) (set_holder (some next.namespace) now) withdrawn.resources;
  }

  pub only : All (λ q. with_id row.id q ≡ true → q ≡ row) t.requests
  only = unique_id t.next_id (with_id id) t.requests row c.ids found

  pub next_queued : is_queued next.status ≡ true
  next_queued = ground (arith, fetch-meets (queued_for res) t.requests next waits)

  next_is_other : with_id row.id next ≡ false
  next_is_other = elim (Bool-cases (with_id row.id next)) [
    | inl e ↦
        let same : next ≡ row =
          fetch-All (λ q. with_id row.id q ≡ true → q ≡ row) (queued_for res) t.requests next waits
            only e in
        cc (next_queued, settled, ap (λ (q : LockRequest). is_queued q.status) same)
    | inr e ↦ e
  ]

  pub waits' : fetch (queued_for res) withdrawn.requests ≡ some next
  waits' =
      fetch-update_other (queued_for res) (with_id row.id) (set_status released now) t.requests
        (All-map (λ q same hit. rw (same hit) (ground arith)) t.requests only)
        (λ q hit. ground arith)
      ∙ waits

  free : holder withdrawn.resources res ≡ none
  free = holder-clear_self now res row.namespace t.resources (rw (holds, eq_refl row.namespace))

  known : is_some (fetch (of_resource res) withdrawn.resources) ≡ true
  known =
      known-update (held_by res row.namespace) none now t.resources res
      ∙ known_of_holder t.resources res (rw holds)

  promoted : promote now withdrawn res ≡ (handed, some next)
  unfolding grant_next
  promoted = promote_grants now withdrawn res next known (rw free) waits'

  pub next_by_id : fetch (with_id next.id) t.requests ≡ some next
  next_by_id = fetch_by_id t.next_id (queued_for res) t.requests next c.ids waits

  row_by_id : fetch (with_id row.id) t.requests ≡ some row
  row_by_id = fetch_by_id t.next_id (with_id id) t.requests row c.ids found

  pub handed_next : fetch (with_id next.id) handed.requests ≡ some (set_status granted now next)
  handed_next =
      rw
        (fetch-update_key (with_id next.id) (with_id next.id) (set_status granted now)
          withdrawn.requests (λ q. refl))
        (rw
          (fetch-update_key (with_id next.id) (with_id row.id) (set_status released now) t.requests
            (λ q. refl))
          (rw (next_by_id, next_is_other, =ℕ_refl next.id)))

  row_is_other : with_id next.id row ≡ false
  row_is_other = ground (arith, next_is_other)

  handed_row : fetch (with_id row.id) handed.requests ≡ some (set_status released now row)
  handed_row =
      rw
        (fetch-update_key (with_id row.id) (with_id next.id) (set_status granted now)
          withdrawn.requests (λ q. refl))
        (rw
          (fetch-update_key (with_id row.id) (with_id row.id) (set_status released now) t.requests
            (λ q. refl))
          (rw (row_by_id, =ℕ_refl row.id, row_is_other)))

  pub handed_holder : holder handed.resources res ≡ some next.namespace
  handed_holder = holder-set_self (some next.namespace) now res withdrawn.resources known

  pub release_hands_over :
      release_lock now t id row.namespace
      ≡ ok (handed, set_status released now row, release_events row row.namespace (some next))
  unfolding release_lock
  release_hands_over = rw (found, eq_refl row.namespace) (rw promoted (rw handed_row))

-- ===== src/Runs/Effective/Closing.antt =====
-- How the calls keep the pauses in order.
use vm_forgeyard.Prelude.{
  ℕ, ◌≤◌, ◌<◌, ◌≡◌, subst, inl, inr, String, Bool, true, false, ◌&&◌, Option, none, some, List, [],
  ◌∷◌, ◌++◌, ◌==◌, ◌=ℕ◌, if◌then◌else◌, is_none, Bool-cases, Option-cases, All, All-map, All-append,
  All-zip, arith, eq_iff,
}
use mathlib.Core.Option.{some-injective}
use vm_forgeyard.Prelude.Rows.{fetch_last, update, All-update}
use vm_forgeyard.Runs.{PausePeriod}
use vm_forgeyard.Runs.Pauses.{is_open, with_pause_id, closed, new_period}
use vm_forgeyard.Runs.Effective.{Ordered, Before, ClosedBy, EndsIn, IsPast, IsLaid}

module _ (test : PausePeriod → Bool) where
  pub last-All :
      (P : PausePeriod → Type 0) (ps : List PausePeriod) (x : PausePeriod)
      → All P ps
      → fetch_last test ps ≡ some x
      → P x
  last-All P [] x all h = cc
  last-All P (p ∷ ps) x all h = elim (Option-cases (fetch_last test ps)) [
    | inr e ↦ subst P (some-injective e.0 x (rw e.1 at h)) (last-All P ps e.0 all.1 e.1)
    | inl e ↦ elim (Bool-cases (test p)) [
      | inl f ↦ subst P (some-injective p x (rw (e, f) at h)) all.0
      | inr f ↦ cc (rw (e, f) at h)
    ]
  ]

  pub last-meets :
      (ps : List PausePeriod) (x : PausePeriod) → fetch_last test ps ≡ some x → test x ≡ true
  last-meets [] x h = cc
  last-meets (p ∷ ps) x h = elim (Option-cases (fetch_last test ps)) [
    | inr e ↦
        subst (λ y. test y ≡ true) (some-injective e.0 x (rw e.1 at h)) (last-meets ps e.0 e.1)
    | inl e ↦ elim (Bool-cases (test p)) [
      | inl f ↦ subst (λ y. test y ≡ true) (some-injective p x (rw (e, f) at h)) f
      | inr f ↦ cc (rw (e, f) at h)
    ]
  ]

  pub last-none : (ps : List PausePeriod) → fetch_last test ps ≡ none → All (λ p. test p ≡ false) ps
  last-none [] h = tt
  last-none (p ∷ ps) h = elim (Option-cases (fetch_last test ps)) [
    | inr e ↦ cc (rw e.1 at h)
    | inl e ↦ elim (Bool-cases (test p)) [
      | inl f ↦ cc (rw (e, f) at h)
      | inr f ↦ (f, last-none ps e)
    ]
  ]

-- Of the rows that are open for a reason, all are the last one.
abbrev pub IsLastOpen : ℕ → String → PausePeriod → PausePeriod → Type 0
IsLastOpen run_id reason x p =
    (is_open run_id reason p ≡ true → (p.id =ℕ x.id) ≡ true)
    × ((p.id =ℕ x.id) ≡ true → p.finished_at ≡ none)

open_none :
    (run_id : ℕ) (reason : String) (p : PausePeriod)
    → is_open run_id reason p ≡ true
    → p.finished_at ≡ none
open_none run_id reason p h = elim (Option-cases p.finished_at) [
  | inl e ↦ e
  | inr e ↦ let ended : is_none p.finished_at ≡ true = ground arith in cc (rw e.1 at ended)
]

open-same :
    (run_id : ℕ) (reason : String) (p q : PausePeriod)
    → is_open run_id reason p ≡ true
    → is_open run_id reason q ≡ true
    → (q.run_id =ℕ p.run_id && q.reason == p.reason) ≡ true
open-same run_id reason p q h k =
    ground (arith, eq_iff p.reason reason, eq_iff q.reason reason, eq_iff q.reason p.reason)

pub last-IsLastOpen :
    (run_id : ℕ) (reason : String) (ps : List PausePeriod) (x : PausePeriod)
    → Ordered Before ps
    → fetch_last (is_open run_id reason) ps ≡ some x
    → All (IsLastOpen run_id reason x) ps
last-IsLastOpen run_id reason [] x ordered h = tt
last-IsLastOpen run_id reason (p ∷ ps) x ordered h =
    elim (Option-cases (fetch_last (is_open run_id reason) ps)) [
      | inr e ↦
          let same = some-injective e.0 x (rw e.1 at h) in
          let found = subst (λ y. fetch_last (is_open run_id reason) ps ≡ some y) same e.1 in
          let meets = last-meets (is_open run_id reason) ps x found in
          let before = last-All (is_open run_id reason) (Before p) ps x ordered.0 found in
          (
            (
              λ k.
                  elim (subst (ClosedBy x.started_at) (open_none run_id reason p k)
                    (before.1 (open-same run_id reason p x k meets))) [ ],
              λ k. ground (arith, before.0, k),
            ),
            last-IsLastOpen run_id reason ps x ordered.1 found,
          )
      | inl e ↦ elim (Bool-cases (is_open run_id reason p)) [
        | inr f ↦ cc (rw (e, f) at h)
        | inl f ↦
            let same = some-injective p x (rw (e, f) at h) in
            subst (λ y. All (IsLastOpen run_id reason y) (p ∷ ps)) same
              (
                (λ k. ground arith, λ k. open_none run_id reason p f),
                All-map
                    (λ (q : PausePeriod) r. (
                      λ (k : is_open run_id reason q ≡ true). cc (k, r.0),
                      λ (k : (q.id =ℕ p.id) ≡ true). cc (k, r.1.0),
                    ))
                    ps (All-zip _ (Before p) ps (last-none (is_open run_id reason) ps e) ordered.0),
              )
      ]
    ]

module _ (now k : ℕ) where
  abbrev closing : PausePeriod → PausePeriod
  closing p = if with_pause_id k p then closed now p else p

  -- Closing a row that is open keeps the order.
  closing-Before :
      (p q : PausePeriod)
      → ((p.id =ℕ k) ≡ true → p.finished_at ≡ none)
      → Before p q
      → Before (closing p) (closing q)
  closing-Before p q only before = elim (Bool-cases (p.id =ℕ k)) [
    | inr e ↦ elim (Bool-cases (q.id =ℕ k)) [
      | inl f ↦ rw (e, f) (before.0, before.1)
      | inr f ↦ rw (e, f) before
    ]
    | inl e ↦
        let never = λ (h : (q.run_id =ℕ p.run_id && q.reason == p.reason) ≡ true).
          subst (ClosedBy q.started_at) (only e) (before.1 h) in
        elim (Bool-cases (q.id =ℕ k)) [
          | inl f ↦ rw (e, f) (before.0, λ h. elim (never h) [ ])
          | inr f ↦ rw (e, f) (before.0, λ h. elim (never h) [ ])
        ]
  ]

  closing-All :
      (p : PausePeriod) (ps : List PausePeriod)
      → ((p.id =ℕ k) ≡ true → p.finished_at ≡ none)
      → All (Before p) ps
      → All (Before (closing p)) (update (with_pause_id k) (closed now) ps)
  closing-All p [] only before = tt
  closing-All p (q ∷ qs) only before =
      (closing-Before p q only before.0, closing-All p qs only before.1)

  closing-Ordered :
      (ps : List PausePeriod)
      → All (λ (p : PausePeriod). (p.id =ℕ k) ≡ true → p.finished_at ≡ none) ps
      → Ordered Before ps
      → Ordered Before (update (with_pause_id k) (closed now) ps)
  closing-Ordered [] only ordered = tt
  closing-Ordered (p ∷ ps) only ordered =
      (closing-All p ps only.0 ordered.0, closing-Ordered ps only.1 ordered.1)

  closing-IsPast : (p : PausePeriod) → IsPast now p → IsPast now (closing p)
  closing-IsPast p past = elim (Bool-cases (p.id =ℕ k)) [
    | inl e ↦ rw e (past.0, (past.0, omega arith))
    | inr e ↦ rw e past
  ]

  closing-id : (next : ℕ) (p : PausePeriod) → p.id < next → (closing p).id < next
  closing-id next p h = elim (Bool-cases (p.id =ℕ k)) [ inl e ↦ rw e h | inr e ↦ rw e h ]

aged : (now later : ℕ) (p : PausePeriod) → now ≤ later → IsPast now p → IsPast later p
aged now later p le past = elim (Option-cases p.finished_at) [
  | inl e ↦ (omega (arith, past.0, le), rw e tt)
  | inr e ↦
      let ends = subst (EndsIn p.started_at now) e.1 past.1 in
      (omega (arith, past.0, le), rw e.1 (ends.0, omega (arith, ends.1, le)))
]

pub aged-IsLaid :
    (now later next : ℕ) (ps : List PausePeriod)
    → now ≤ later
    → IsLaid now next ps
    → IsLaid later next ps
aged-IsLaid now later next ps le laid =
    (laid.0, All-map (λ p h. aged now later p le h) ps laid.1, laid.2)

pub closed-IsLaid :
    (now next run_id : ℕ) (reason : String) (ps : List PausePeriod) (x : PausePeriod)
    → IsLaid now next ps
    → fetch_last (is_open run_id reason) ps ≡ some x
    → IsLaid now next (update (with_pause_id x.id) (closed now) ps)
closed-IsLaid now next run_id reason ps x laid h =
    let only = All-map (λ p r. r.1) ps (last-IsLastOpen run_id reason ps x laid.0 h) in
    (
      closing-Ordered now x.id ps only laid.0,
      All-update (IsPast now) (IsPast now) (with_pause_id x.id) (closed now)
          (λ p past. closing-IsPast now x.id p past) ps laid.1,
      All-update _ _ (with_pause_id x.id) (closed now) (λ p lt. closing-id now x.id next p lt) ps
          laid.2,
    )

pub appended :
    (ps : List PausePeriod) (x : PausePeriod)
    → Ordered Before ps
    → All (λ p. Before p x) ps
    → Ordered Before (ps ++ x ∷ [])
appended [] x ordered before = (tt, tt)
appended (p ∷ ps) x ordered before =
    (All-append (Before p) ps (x ∷ []) ordered.0 (before.0, tt), appended ps x ordered.1 before.1)

pub opened-Before :
    (now next run_id : ℕ) (reason : String) (stage_id : Option String) (p : PausePeriod)
    → is_open run_id reason p ≡ false
    → IsPast now p × (p.id < next)
    → Before p (new_period now next run_id reason stage_id)
opened-Before now next run_id reason stage_id p shut h = (
  ground (arith, h.1),
  λ same. elim (Option-cases p.finished_at) [
    | inl e ↦
        let met : is_open run_id reason p ≡ true =
          rw e (ground (arith, same, eq_iff reason p.reason, eq_iff p.reason reason)) in
        cc (met, shut)
    | inr e ↦ rw e.1 (subst (EndsIn p.started_at now) e.1 h.0.1).1
  ],
)

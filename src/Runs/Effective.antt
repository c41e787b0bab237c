-- ===== src/Runs/Effective.antt =====
-- The pauses of a run do not overlap, so that what they take is at most the time of the run.
pub mod Closing
pub mod Kept
pub mod Finishing
use vm_forgeyard.Prelude.{
  ℕ, ◌+◌, ◌-◌, ◌*◌, ◌≤◌, ◌<◌, ◌≡◌, refl, subst, inl, inr, String, Bool, true, false, ◌&&◌, Option,
  none, some, List, [], ◌∷◌, ◌++◌, ◌==◌, ◌=ℕ◌, if◌then◌else◌, is_none, is_some, leb, Bool-cases,
  Option-cases, All, All-map, All-append, All-zip, arith, eq_iff,
}
use vm_forgeyard.Prelude.Rows.{select, update}
use vm_forgeyard.Runs.{PausePeriod}
use vm_forgeyard.Runs.Pauses.{
  is_disk_full, overlap_seconds, total, maximum, minimum, end_time, closed, with_pause_id, is_open,
}

-- Whoever comes later in the list is related to whoever comes before.
abbrev pub Ordered : (PausePeriod → PausePeriod → Type 0) → List PausePeriod → Type 0
Ordered R [] = Unit
Ordered R (p ∷ ps) = All (R p) ps × Ordered R ps

abbrev pub ClosedBy : ℕ → Option ℕ → Type 0
ClosedBy time none = ⊥
ClosedBy time (some end) = end ≤ time

-- A pause of a run is over when the next one for the same reason starts, and ids differ.
abbrev pub Before : PausePeriod → PausePeriod → Type 0
Before p q =
    ((q.id =ℕ p.id) ≡ false)
    × ((q.run_id =ℕ p.run_id && q.reason == p.reason) ≡ true → ClosedBy q.started_at p.finished_at)

abbrev pub EndsIn : ℕ → ℕ → Option ℕ → Type 0
EndsIn start now none = Unit
EndsIn start now (some end) = (start ≤ end) × (end ≤ now)

abbrev pub IsPast : ℕ → PausePeriod → Type 0
IsPast now p = (p.started_at ≤ now) × EndsIn p.started_at now p.finished_at

-- The table of pauses at a time that no entry is after, with the next id.
abbrev pub IsLaid : ℕ → ℕ → List PausePeriod → Type 0
IsLaid now next ps =
    Ordered Before ps × All (IsPast now) ps × All (λ (p : PausePeriod). p.id < next) ps

-- No pause for a full disk is open.
abbrev pub IsSettled : ℕ → PausePeriod → Type 0
IsSettled run_id p = is_disk_full run_id none p ≡ true → is_some p.finished_at ≡ true

overlap_bound :
    (instant start a end c : ℕ)
    → c ≤ maximum a start
    → overlap_seconds instant start none a (some end) + c * 1000
      ≤ (if leb c end then end else c) * 1000
unfolding overlap_seconds
overlap_bound instant start a end c h = ground (arith, h)

same_pause :
    (run_id : ℕ) (p q : PausePeriod)
    → is_disk_full run_id none p ≡ true
    → is_disk_full run_id none q ≡ true
    → (q.run_id =ℕ p.run_id && q.reason == p.reason) ≡ true
same_pause run_id p q h k =
    ground
      (arith, eq_iff p.reason "disk_full", eq_iff q.reason "disk_full", eq_iff q.reason p.reason)

next_start :
    (run_id start c end : ℕ) (p q : PausePeriod)
    → is_disk_full run_id none p ≡ true
    → p.finished_at ≡ some end
    → Before p q × (is_disk_full run_id none q ≡ true → c ≤ maximum q.started_at start)
    → is_disk_full run_id none q ≡ true
    → (if leb c end then end else c) ≤ maximum q.started_at start
next_start run_id start c end p q h f k e =
    let over = subst (ClosedBy q.started_at) f (k.0.1 (same_pause run_id p q h e)) in
    ground (arith, over, k.1 e)

total-bound :
    (instant run_id start now c : ℕ) (ps : List PausePeriod)
    → Ordered Before ps
    → All (IsPast now) ps
    → All (IsSettled run_id) ps
    → All
        (λ (p : PausePeriod). is_disk_full run_id none p ≡ true → c ≤ maximum p.started_at start)
        ps
    → c ≤ now
    → total instant start none (select (is_disk_full run_id none) ps) + c * 1000 ≤ now * 1000
total-bound instant run_id start now c [] ordered past settled from k = omega (arith, k)
total-bound instant run_id start now c (p ∷ ps) ordered past settled from k =
    elim (Bool-cases (is_disk_full run_id none p)) [
      | inr e ↦ rw e (total-bound instant run_id start now c ps ordered.1 past.1 settled.1 from.1 k)
      | inl e ↦ elim (Option-cases p.finished_at) [
        | inl f ↦ cc (rw f at (settled.0 e))
        | inr f ↦
            let c1 = if leb c f.0 then f.0 else c in
            let ends = subst (EndsIn p.started_at now) f.1 past.0.1 in
            let here = overlap_bound instant start p.started_at f.0 c (from.0 e) in
            let rest =
              total-bound instant run_id start now c1 ps ordered.1 past.1 settled.1
                (All-map (λ q x. next_start run_id start c f.0 p q e f.1 x) ps
                  (All-zip (Before p) _ ps ordered.0 from.1))
                (ground (arith, ends, k)) in
            rw (e, f.1) (omega (arith, here, rest))
      ]
    ]

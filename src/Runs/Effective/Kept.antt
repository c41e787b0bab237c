-- ===== src/Runs/Effective/Kept.antt =====
-- The calls that start and finish pauses keep the pauses in order.
use vm_forgeyard.Prelude.{
  ℕ, suc, ◌≤◌, ◌≡◌, inl, inr, String, Option, none, List, [], ◌∷◌, ◌++◌, Option-cases, All-map,
  All-append, All-zip, arith,
}
use vm_forgeyard.Prelude.Rows.{fetch_last}
use vm_forgeyard.Runs.{PausePeriod, RunTables}
use vm_forgeyard.Runs.Pauses.{is_open, new_period, start_run_pause, finish_run_pause}
use vm_forgeyard.Runs.Effective.{IsPast, IsLaid}
use vm_forgeyard.Runs.Effective.Closing.{
  last-none, aged-IsLaid, closed-IsLaid, appended, opened-Before,
}

opened-IsLaid :
    (now next run_id : ℕ) (reason : String) (stage_id : Option String) (ps : List PausePeriod)
    → IsLaid now next ps
    → fetch_last (is_open run_id reason) ps ≡ none
    → IsLaid now (suc next) (ps ++ new_period now next run_id reason stage_id ∷ [])
opened-IsLaid now next run_id reason stage_id ps laid h =
    let p = new_period now next run_id reason stage_id in
    (
      appended ps p laid.0 (
          All-map (λ q x. opened-Before now next run_id reason stage_id q x.0 x.1) ps
            (All-zip _ _ ps (last-none (is_open run_id reason) ps h)
              (All-zip (IsPast now) _ ps laid.1 laid.2))),
      All-append (IsPast now) ps (p ∷ []) laid.1 ((omega arith, tt), tt),
      All-append _ ps (p ∷ []) (All-map (λ (q : PausePeriod) lt. omega (arith, lt)) ps laid.2)
          (omega arith, tt),
    )

-- Starting and finishing a pause, at a time that is not before any entry, keep the table of pauses
-- in order: two pauses of a run for one reason do not overlap, so at most one is open.
pub pause_calls_keep_IsLaid :
    (now later run_id : ℕ) (reason : String) (stage_id : Option String) (t : RunTables)
    → now ≤ later
    → IsLaid now t.next_pause t.pauses
    → IsLaid later
        (start_run_pause later run_id reason stage_id t).0.next_pause
        (start_run_pause later run_id reason stage_id t).0.pauses
      × IsLaid later
          (finish_run_pause later run_id reason t).0.next_pause
          (finish_run_pause later run_id reason t).0.pauses
unfolding start_run_pause finish_run_pause
pause_calls_keep_IsLaid now later run_id reason stage_id t le laid =
    let old = aged-IsLaid now later t.next_pause t.pauses le laid in
    elim (Option-cases (fetch_last (is_open run_id reason) t.pauses)) [
      | inl e ↦
          rw (start_run_pause, finish_run_pause, e)
            (opened-IsLaid later t.next_pause run_id reason stage_id t.pauses old e, old)
      | inr e ↦
          rw (start_run_pause, finish_run_pause, e.1)
            (old, closed-IsLaid later t.next_pause run_id reason t.pauses e.0 old e.1)
    ]

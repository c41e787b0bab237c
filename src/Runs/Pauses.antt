-- ===== src/Runs/Pauses.antt =====
-- src/kvm_control/db.py: the pauses of runs and the seconds that they take.
use vm_forgeyard.Prelude.{
  ℕ, suc, ◌+◌, ◌-◌, ◌*◌, String, Bool, true, false, ◌&&◌, Option, none, some, List, [], ◌∷◌, ◌++◌,
  ◌==◌, ◌=ℕ◌, if◌then◌else◌, is_none, leb, ok,
}
use vm_forgeyard.Prelude.Integers.{◌⊖◌}
use vm_forgeyard.Prelude.Rows.{fetch_last, update, select}
use vm_forgeyard.Runs.{PausePeriod, Method}

abbrev pub is_open : ℕ → String → PausePeriod → Bool
is_open run_id reason p = (p.run_id =ℕ run_id && p.reason == reason) && is_none p.finished_at

abbrev pub with_pause_id : ℕ → PausePeriod → Bool
with_pause_id id p = p.id =ℕ id

abbrev pub new_period : ℕ → ℕ → ℕ → String → Option String → PausePeriod
new_period now id run_id reason stage_id = record {
  id = id;
  run_id = run_id;
  stage_id = stage_id;
  reason = reason;
  started_at = now;
  finished_at = none;
  duration_s = none;
}

-- A pause that is open is not opened again.
unfoldable pub start_run_pause : ℕ → ℕ → String → Option String → Method PausePeriod
start_run_pause now run_id reason stage_id t = elim (fetch_last (is_open run_id reason) t.pauses) [
  | some p ↦ (t, ok p)
  | none ↦
      let p = new_period now t.next_pause run_id reason stage_id in
      (record t { pauses = t.pauses ++ p ∷ []; next_pause = suc t.next_pause }, ok p)
]

abbrev pub closed : ℕ → PausePeriod → PausePeriod
closed now p = record p {
  finished_at = some now;
  duration_s = some (now * 1000 ⊖ p.started_at * 1000);
}

unfoldable pub finish_run_pause : ℕ → ℕ → String → Method (Option PausePeriod)
finish_run_pause now run_id reason t = elim (fetch_last (is_open run_id reason) t.pauses) [
  | none ↦ (t, ok none)
  | some p ↦
      let pauses = update (with_pause_id p.id) (closed now) t.pauses in
      (record t { pauses = pauses }, ok (fetch_last (with_pause_id p.id) pauses))
]

unfoldable pub get_run_pause_periods : List PausePeriod → ℕ → List PausePeriod
get_run_pause_periods pauses run_id = select (λ (p : PausePeriod). p.run_id =ℕ run_id) pauses

abbrev pub maximum : ℕ → ℕ → ℕ
maximum m n = if leb m n then n else m

abbrev pub minimum : ℕ → ℕ → ℕ
minimum m n = if leb m n then m else n

-- `_parse_ts` of an end in thousandths: a period without an end lasts until the present instant.
abbrev pub end_time : ℕ → Option ℕ → ℕ
end_time instant none = instant
end_time instant (some time) = time * 1000

-- Thousandths; the difference is 0 where it would be negative.
unfoldable pub overlap_seconds : ℕ → ℕ → Option ℕ → ℕ → Option ℕ → ℕ
overlap_seconds instant left_start left_end right_start right_end =
    minimum (end_time instant left_end) (end_time instant right_end)
    - maximum (left_start * 1000) (right_start * 1000)

abbrev pub in_stage : Option String → PausePeriod → Bool
in_stage none p = true
in_stage (some stage_id) p = elim p.stage_id [ none ↦ false | some s ↦ s == stage_id ]

abbrev pub total : ℕ → ℕ → Option ℕ → List PausePeriod → ℕ
total instant started_at finished_at [] = 0
total instant started_at finished_at (p ∷ ps) =
    overlap_seconds instant started_at finished_at p.started_at p.finished_at
    + total instant started_at finished_at ps

abbrev pub is_disk_full : ℕ → Option String → PausePeriod → Bool
is_disk_full run_id stage_id p =
    (p.run_id =ℕ run_id && p.reason == "disk_full") && in_stage stage_id p

-- `instant` is the present time in thousandths.
unfoldable pub paused_seconds_between :
    ℕ → List PausePeriod → ℕ → Option ℕ → Option ℕ → Option String → ℕ
unfolding overlap_seconds
paused_seconds_between instant pauses run_id none finished_at stage_id = 0
paused_seconds_between instant pauses run_id (some started_at) finished_at stage_id =
    total instant started_at finished_at (select (is_disk_full run_id stage_id) pauses)

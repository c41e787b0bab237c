-- ===== src/Runs/Records.antt =====
-- src/kvm_control/db.py: the runs, their events and the samples of their usage.
use vm_forgeyard.Prelude.{
  ℕ, suc, ◌+◌, ◌*◌, String, Bool, true, ◌&&◌, ◌||◌, Option, none, some, List, [], ◌∷◌, ◌++◌, ◌==◌,
  ◌=ℕ◌, if◌then◌else◌, is_none, ok, fstring, map,
}
use vm_forgeyard.Prelude.Integers.{ℤ, ◌⊖◌}
use vm_forgeyard.Prelude.Rows.{update, select}
use vm_forgeyard.Prelude.Actions.{pure, gets, or_fail, modify, ◌>>=◌, ◌>>◌}
use vm_forgeyard.Event.{StatusEvent, plain_event, status_level, event_level}
use vm_forgeyard.Vm.Queries.{distinct}
use vm_forgeyard.Runs.{
  Run, RunEvent, UsageSample, PausePeriod, RunTables, key_error, Method, with_run_id, get_run,
  record_status_event,
}
use vm_forgeyard.Runs.Pauses.{finish_run_pause, paused_seconds_between}
use vm_forgeyard.Runs.Catalog.{Workflow, reconcile_workflow_test_catalog, sorted_set}

-- ORDER BY id DESC
abbrev newest_first : List Run → List Run → List Run
newest_first [] acc = acc
newest_first (r ∷ rs) acc = newest_first rs (r ∷ acc)

abbrev of_namespace : Option String → Run → Bool
of_namespace none r = true
of_namespace (some namespace) r = if namespace == "" then true else r.namespace == namespace

unfoldable pub list_runs : List Run → Option String → List Run
list_runs runs namespace = newest_first (select (of_namespace namespace) runs) []

unfoldable pub active_runs : List Run → List Run
active_runs runs = select (λ (r : Run). r.status == "pending" || r.status == "running") runs

abbrev new_run : ℕ → ℕ → Workflow → Option String → List String → List String → List String → Run
new_run now id w git_ref vm_ids declared selected = record {
  id = id;
  namespace = w.namespace;
  workflow_name = w.name;
  workflow_version = w.version;
  git_ref = git_ref;
  status = "running";
  vm_ids = vm_ids;
  declared_tests = declared;
  selected_tests = selected;
  notes = none;
  started_at = some now;
  finished_at = none;
  duration_s = none;
  paused_duration_s = 0;
  effective_duration_s = none;
  created_at = now;
  updated_at = now;
}

-- The run is there when the catalog follows its tests.
unfoldable pub insert_run :
    ℕ → Workflow → Option String → List String → List String → List String → RunTables → RunTables
unfolding reconcile_workflow_test_catalog
insert_run now w git_ref vm_ids declared selected t =
    reconcile_workflow_test_catalog w t.next_run declared (record t {
      runs = t.runs ++ new_run now t.next_run w git_ref vm_ids declared selected ∷ [];
      next_run = suc t.next_run;
    })

-- The time since a start, less the time of the pauses.
abbrev pub duration_since : ℕ → Option ℕ → ℕ → Option ℤ
duration_since now none paused = none
duration_since now (some started_at) paused = some (now * 1000 ⊖ (started_at * 1000 + paused))

-- `shown` is the text of a number.
module _ (shown : ℕ → String) (now : ℕ) where
  abbrev run_event : Run → ℕ → String → String → List String → StatusEvent
  run_event run run_id level status what =
      record (plain_event "run" level status (fstring ("run " ∷ shown run_id ∷ what))) {
        namespace = some run.namespace;
        run_id = some run_id;
      }

  unfoldable pub create_run :
      Workflow → Option String → List String → List String → List String → Method Run
  unfolding insert_run sorted_set get_run
  create_run w git_ref vm_ids declared selected = do
    run_id ← gets (λ t. t.next_run)
    modify (insert_run now w git_ref vm_ids (sorted_set declared) selected)
    runs ← gets (λ t. t.runs)
    run ← or_fail (get_run runs run_id) key_error
    record_status_event
        (run_event run run_id "info" run.status (" started for " ∷ w.namespace ∷ []))
    pure run

  -- SELECT DISTINCT reason ... WHERE finished_at IS NULL
  abbrev pub open_reasons : ℕ → List PausePeriod → List String
  open_reasons run_id pauses = distinct (
      map (λ (p : PausePeriod). p.reason)
        (select (λ (p : PausePeriod). p.run_id =ℕ run_id && is_none p.finished_at) pauses))

  unfoldable pub close_pauses : ℕ → List String → Method (Unit {0})
  unfolding finish_run_pause
  close_pauses run_id [] = pure tt
  close_pauses run_id (reason ∷ reasons) = do
    finish_run_pause now run_id reason
    close_pauses run_id reasons

  abbrev pub finished_run : String → Option String → ℕ → Run → Run
  finished_run status notes paused r = record r {
    status = status;
    notes = notes;
    finished_at = some now;
    duration_s = duration_since now r.started_at 0;
    paused_duration_s = paused;
    effective_duration_s = duration_since now r.started_at paused;
    updated_at = now;
  }

  unfoldable pub write_finished : ℕ → String → Option String → ℕ → Method Run
  unfolding get_run status_level
  write_finished run_id status notes paused = do
    modify (λ t. record t {
      runs = update (with_run_id run_id) (finished_run status notes paused) t.runs;
    })
    runs ← gets (λ t. t.runs)
    run ← or_fail (get_run runs run_id) key_error
    record_status_event
        (run_event run run_id (status_level status none none) status (" " ∷ status ∷ []))
    pure run

  -- What follows when no pause is open. `instant` is the present time in thousandths.
  unfoldable pub finish_closed : ℕ → ℕ → String → Option String → Method Run
  unfolding paused_seconds_between get_run write_finished
  finish_closed instant run_id status notes = do
    runs ← gets (λ t. t.runs)
    run ← or_fail (get_run runs run_id) key_error
    paused ← gets (λ t. paused_seconds_between instant t.pauses run_id run.started_at none none)
    write_finished run_id status notes paused

  unfoldable pub finish_run : ℕ → ℕ → String → Option String → Method Run
  unfolding close_pauses finish_closed
  finish_run instant run_id status notes = do
    runs ← gets (λ t. t.runs)
    run ← or_fail (get_run runs run_id) key_error
    reasons ← gets (λ t. open_reasons run_id t.pauses)
    close_pauses run_id reasons
    finish_closed instant run_id status notes

  abbrev namespace_of : Option Run → Option String
  namespace_of none = none
  namespace_of (some run) = some run.namespace

  abbrev filed_event : RunTables → RunEvent → StatusEvent
  filed_event t e =
      record (plain_event "run_event" (event_level e.event_type) e.event_type e.message) {
        namespace = namespace_of (get_run t.runs e.run_id);
        run_id = some e.run_id;
        stage_id = e.stage_id;
      }

  unfoldable pub create_run_event : ℕ → String → String → Option String → Method RunEvent
  unfolding get_run event_level
  create_run_event run_id event_type message stage_id = do
    id ← gets (λ t. t.next_event)
    let event : RunEvent = record {
      id = id;
      run_id = run_id;
      stage_id = stage_id;
      event_type = event_type;
      message = message;
      created_at = now;
    }
    modify
        (λ t. record t { run_events = t.run_events ++ event ∷ []; next_event = suc t.next_event })
    filed ← gets (λ t. filed_event t event)
    record_status_event filed
    pure event

  unfoldable pub record_run_usage_sample : ℕ → ℕ → ℕ → Method UsageSample
  record_run_usage_sample run_id disk_bytes ram_mb t =
      let sample : UsageSample = record {
        id = t.next_sample;
        run_id = run_id;
        sampled_at = now;
        disk_bytes = disk_bytes;
        ram_mb = ram_mb;
      } in
      (record t { samples = t.samples ++ sample ∷ []; next_sample = suc t.next_sample }, ok sample)

unfoldable pub list_run_events : List RunEvent → ℕ → List RunEvent
list_run_events events run_id = select (λ (e : RunEvent). e.run_id =ℕ run_id) events

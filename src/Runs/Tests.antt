-- ===== src/Runs/Tests.antt =====
-- A run with one pause.
use vm_forgeyard.Prelude.{true, ◌-◌, ◌*◌, ◌≤◌, ◌≡◌, refl, none, some, [], ◌∷◌, ok, arith, ◌&&◌, All}
use vm_forgeyard.Prelude.Integers.{pos}
use vm_forgeyard.Runs.{Run, CatalogEntry, RunTables, get_run}
use vm_forgeyard.Prelude.Rows.{any}
use vm_forgeyard.Auth.Policy.{is_in}
use vm_forgeyard.Runs.Catalog.{
  Workflow, of_workflow, is_entry, new_entry, reconcile_workflow_test_catalog,
}
use vm_forgeyard.Runs.Active.{catalog_follows}
use vm_forgeyard.Runs.Pauses.{start_run_pause, finish_run_pause}
use vm_forgeyard.Runs.Records.{finish_run}
use vm_forgeyard.Runs.Effective.{IsLaid}
use vm_forgeyard.Runs.Effective.Kept.{pause_calls_keep_IsLaid}
use vm_forgeyard.Runs.Effective.Finishing.{finish_run-Effective}

abbrev nightly : Run
nightly = record {
  id = 1;
  namespace = "ci";
  workflow_name = "nightly";
  workflow_version = "1";
  git_ref = none;
  status = "running";
  vm_ids = [];
  declared_tests = [];
  selected_tests = [];
  notes = none;
  started_at = some 10;
  finished_at = none;
  duration_s = none;
  paused_duration_s = 0;
  effective_duration_s = none;
  created_at = 10;
  updated_at = 10;
}

-- One pause is over, one is open.
abbrev paused : RunTables
paused = record {
  runs = nightly ∷ [];
  next_run = 2;
  stages = [];
  next_stage = 1;
  pauses =
      record {
        id = 1;
        run_id = 1;
        stage_id = none;
        reason = "disk_full";
        started_at = 12;
        finished_at = some 15;
        duration_s = some (pos 3000);
      }
      ∷ record {
        id = 2;
        run_id = 1;
        stage_id = none;
        reason = "disk_full";
        started_at = 16;
        finished_at = none;
        duration_s = none;
      }
      ∷ [];
  next_pause = 3;
  run_events = [];
  next_event = 1;
  samples = [];
  next_sample = 1;
  catalog = [];
  status_events = [];
}

paused-IsLaid : IsLaid 20 3 paused.pauses
paused-IsLaid = (
  (((refl, λ h. omega arith), tt), (tt, tt)),
  ((omega arith, (omega arith, omega arith)), ((omega arith, tt), tt)),
  (omega arith, (omega arith, tt)),
)

pause_calls_keep_IsLaid_example :
    IsLaid 21
      (start_run_pause 21 1 "disk_full" none paused).0.next_pause
      (start_run_pause 21 1 "disk_full" none paused).0.pauses
    × IsLaid 21
        (finish_run_pause 21 1 "disk_full" paused).0.next_pause
        (finish_run_pause 21 1 "disk_full" paused).0.pauses
pause_calls_keep_IsLaid_example =
    pause_calls_keep_IsLaid 20 21 1 "disk_full" none paused (omega arith) paused-IsLaid

finish_run-Effective_example :
    (result : Run) × ((finish_run (λ n. "1") 20 20500 1 "completed" none paused).1 ≡ ok result)
    × (result.paused_duration_s ≤ (20 - 10) * 1000)
    × (result.duration_s ≡ some (pos ((20 - 10) * 1000)))
    × (result.effective_duration_s ≡ some (pos ((20 - 10) * 1000 - result.paused_duration_s)))
unfolding get_run
finish_run-Effective_example =
    finish_run-Effective (λ n. "1") 20 20500 1 "completed" none paused nightly 10 paused-IsLaid refl
      refl (omega arith)

abbrev nightly_workflow : Workflow
nightly_workflow = record { namespace = "ci"; name = "nightly"; version = "1" }

abbrev with_old_test : RunTables
with_old_test = record paused { catalog = new_entry nightly_workflow 1 "old" ∷ [] }

-- The run declares "new" and no longer "old".
catalog_follows_example :
    All
      (λ (e : CatalogEntry).
        of_workflow nightly_workflow e ≡ true
        → e.active ≡ true
        → is_in e.test_id ("new" ∷ []) ≡ true)
      (reconcile_workflow_test_catalog nightly_workflow 2 ("new" ∷ []) with_old_test).catalog
    × All
        (λ s.
          any
            (λ (e : CatalogEntry). is_entry nightly_workflow s e && e.active)
            (reconcile_workflow_test_catalog nightly_workflow 2 ("new" ∷ []) with_old_test).catalog
          ≡ true)
        ("new" ∷ [])
catalog_follows_example = catalog_follows nightly_workflow 2 ("new" ∷ []) with_old_test

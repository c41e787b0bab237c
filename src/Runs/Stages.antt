-- ===== src/Runs/Stages.antt =====
-- src/kvm_control/db.py: the stages of runs.
use vm_forgeyard.Prelude.{
  ℕ, suc, ◌+◌, ◌*◌, String, Bool, ◌&&◌, Option, none, some, List, [], ◌∷◌, ◌++◌, ◌==◌, ◌=ℕ◌,
  if◌then◌else◌, is_none, leb, ltb, fstring,
}
use vm_forgeyard.Prelude.Integers.{◌⊖◌}
use vm_forgeyard.Prelude.Rows.{fetch, update, select, any}
use vm_forgeyard.Prelude.Actions.{pure, gets, or_fail, modify, ◌>>=◌, ◌>>◌}
use vm_forgeyard.Event.{StatusEvent, plain_event, status_level}
use vm_forgeyard.Runs.{Run, RunStage, RunTables, key_error, Method, get_run, record_status_event}
use vm_forgeyard.Runs.Pauses.{paused_seconds_between}

abbrev pub is_stage : ℕ → String → RunStage → Bool
is_stage run_id stage_id s = s.run_id =ℕ run_id && s.stage_id == stage_id

unfoldable pub get_run_stage : List RunStage → ℕ → String → Option RunStage
get_run_stage stages run_id stage_id = fetch (is_stage run_id stage_id) stages

abbrev new_stage : ℕ → ℕ → ℕ → String → String → ℕ → RunStage
new_stage now id run_id stage_id name order_index = record {
  id = id;
  run_id = run_id;
  stage_id = stage_id;
  name = name;
  order_index = order_index;
  status = "running";
  notes = none;
  started_at = now;
  finished_at = none;
  duration_s = none;
  paused_duration_s = 0;
  effective_duration_s = none;
  updated_at = now;
}

-- INSERT ... ON CONFLICT(run_id, stage_id) DO UPDATE: a stage that is there starts again.
unfoldable pub write_stage : ℕ → ℕ → String → String → ℕ → RunTables → RunTables
write_stage now run_id stage_id name order_index t =
    if any (is_stage run_id stage_id) t.stages
    then record t {
      stages =
          update (is_stage run_id stage_id)
            (λ (s : RunStage). new_stage now s.id run_id stage_id name order_index) t.stages;
    }
    else record t {
      stages = t.stages ++ new_stage now t.next_stage run_id stage_id name order_index ∷ [];
      next_stage = suc t.next_stage;
    }

abbrev namespace_of : Option Run → Option String
namespace_of none = none
namespace_of (some run) = some run.namespace

-- `shown` is the text of a number.
abbrev stage_event : (ℕ → String) → RunTables → ℕ → String → String → String → String → StatusEvent
stage_event shown t run_id stage_id level status what =
    record (plain_event "run_stage" level status
      (fstring ("stage " ∷ stage_id ∷ " " ∷ what ∷ " for run " ∷ shown run_id ∷ []))) {
        namespace = namespace_of (get_run t.runs run_id);
        run_id = some run_id;
        stage_id = some stage_id;
      }

module _ (shown : ℕ → String) (now : ℕ) where
  unfoldable pub start_run_stage : ℕ → String → String → ℕ → Method (Option RunStage)
  unfolding write_stage get_run_stage
  start_run_stage run_id stage_id name order_index = do
    modify (write_stage now run_id stage_id name order_index)
    event ← gets (λ t. stage_event shown t run_id stage_id "info" "running" "started")
    record_status_event event
    gets (λ t. get_run_stage t.stages run_id stage_id)

  abbrev pub finished_stage : String → Option String → ℕ → RunStage → RunStage
  finished_stage status notes paused s = record s {
    status = status;
    notes = notes;
    finished_at = some now;
    duration_s = some (now * 1000 ⊖ s.started_at * 1000);
    paused_duration_s = paused;
    effective_duration_s = some (now * 1000 ⊖ (s.started_at * 1000 + paused));
    updated_at = now;
  }

  -- `instant` is the present time in thousandths.
  unfoldable pub finish_run_stage : ℕ → ℕ → String → String → Option String → Method RunStage
  unfolding get_run_stage paused_seconds_between status_level
  finish_run_stage instant run_id stage_id status notes = do
    stages ← gets (λ t. t.stages)
    stage ← or_fail (get_run_stage stages run_id stage_id) key_error
    paused ← gets (λ t.
        paused_seconds_between instant t.pauses run_id (some stage.started_at) none (some stage_id))
    modify (λ t. record t {
      stages = update (is_stage run_id stage_id) (finished_stage status notes paused) t.stages;
    })
    after ← gets (λ t. t.stages)
    updated ← or_fail (get_run_stage after run_id stage_id) key_error
    event ←
        gets
          (λ t. stage_event shown t run_id stage_id (status_level status none none) status status)
    record_status_event event
    pure updated

abbrev insert_stage : RunStage → List RunStage → List RunStage
insert_stage s [] = s ∷ []
insert_stage s (r ∷ rs) =
    let rest = insert_stage s rs in if ltb r.order_index s.order_index then r ∷ rest else s ∷ r ∷ rs

abbrev sort_stages : List RunStage → List RunStage
sort_stages [] = []
sort_stages (s ∷ ss) = insert_stage s (sort_stages ss)

-- ORDER BY order_index, id, for rows in the order of their ids.
unfoldable pub list_run_stages : List RunStage → ℕ → List RunStage
list_run_stages stages run_id = sort_stages (select (λ (s : RunStage). s.run_id =ℕ run_id) stages)

abbrev later_stage : RunStage → Option RunStage → Option RunStage
later_stage s none = some s
later_stage s (some r) = if leb s.order_index r.order_index then some r else some s

abbrev last_stage : List RunStage → Option RunStage
last_stage [] = none
last_stage (s ∷ ss) = later_stage s (last_stage ss)

-- ORDER BY order_index DESC, id DESC LIMIT 1
unfoldable pub get_active_run_stage : List RunStage → ℕ → Option RunStage
get_active_run_stage stages run_id = last_stage (
    select
      (λ (s : RunStage). (s.run_id =ℕ run_id && s.status == "running") && is_none s.finished_at)
      stages)

-- ===== src/Runs.antt =====
-- src/kvm_control/db.py: the runs of workflows, their stages, pauses, events, samples of usage and the
-- catalog of tests. Times are whole seconds, as CURRENT_TIMESTAMP has them, and durations thousandths
-- of a second. The estimates and the reports of runs are left out, and so are the JSON details.
pub mod Pauses
pub mod Catalog
pub mod Stages
pub mod Records
pub mod Effective
pub mod Retired
pub mod Active
mod Tests
use vm_forgeyard.Prelude.{ℕ, String, Bool, Option, none, some, List, [], ◌∷◌, ◌++◌, ◌=ℕ◌}
use vm_forgeyard.Prelude.Integers.{ℤ}
use vm_forgeyard.Prelude.Actions.{Act, modify}
use vm_forgeyard.Prelude.Rows.{fetch}
use vm_forgeyard.Event.{StatusEvent}

pub record Run : Type 0 where
  pub id : ℕ
  pub namespace : String
  pub workflow_name : String
  pub workflow_version : String
  pub git_ref : Option String
  pub status : String
  pub vm_ids : List String
  pub declared_tests : List String
  pub selected_tests : List String
  pub notes : Option String
  pub started_at : Option ℕ
  pub finished_at : Option ℕ
  pub duration_s : Option ℤ
  pub paused_duration_s : ℕ
  pub effective_duration_s : Option ℤ
  pub created_at : ℕ
  pub updated_at : ℕ

pub record RunStage : Type 0 where
  pub id : ℕ
  pub run_id : ℕ
  pub stage_id : String
  pub name : String
  pub order_index : ℕ
  pub status : String
  pub notes : Option String
  pub started_at : ℕ
  pub finished_at : Option ℕ
  pub duration_s : Option ℤ
  pub paused_duration_s : ℕ
  pub effective_duration_s : Option ℤ
  pub updated_at : ℕ

pub record PausePeriod : Type 0 where
  pub id : ℕ
  pub run_id : ℕ
  pub stage_id : Option String
  pub reason : String
  pub started_at : ℕ
  pub finished_at : Option ℕ
  pub duration_s : Option ℤ

pub record RunEvent : Type 0 where
  pub id : ℕ
  pub run_id : ℕ
  pub stage_id : Option String
  pub event_type : String
  pub message : String
  pub created_at : ℕ

pub record UsageSample : Type 0 where
  pub id : ℕ
  pub run_id : ℕ
  pub sampled_at : ℕ
  pub disk_bytes : ℕ
  pub ram_mb : ℕ

pub record CatalogEntry : Type 0 where
  pub namespace : String
  pub workflow_name : String
  pub workflow_version : String
  pub test_id : String
  pub last_seen_run_id : ℕ
  pub active : Bool

-- The tables, the rowid that each gives next, and the status events that are recorded.
pub record RunTables : Type 0 where
  pub runs : List Run
  pub next_run : ℕ
  pub stages : List RunStage
  pub next_stage : ℕ
  pub pauses : List PausePeriod
  pub next_pause : ℕ
  pub run_events : List RunEvent
  pub next_event : ℕ
  pub samples : List UsageSample
  pub next_sample : ℕ
  pub catalog : List CatalogEntry
  pub status_events : List StatusEvent

pub data RunError : Type 0 where
  key_error : RunError

abbrev pub Method : Type 0 → Type 0
Method A = Act RunTables RunError A

abbrev pub with_run_id : ℕ → Run → Bool
with_run_id run_id run = run.id =ℕ run_id

unfoldable pub get_run : List Run → ℕ → Option Run
get_run runs run_id = fetch (with_run_id run_id) runs

-- registry.record_status_event
abbrev pub record_status_event : StatusEvent → Method (Unit {0})
record_status_event event = modify (λ t. record t { status_events = t.status_events ++ event ∷ [] })

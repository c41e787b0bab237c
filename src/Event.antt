-- ===== src/Event.antt =====
-- src/kvm_control/db.py: the status events that every registry method records, and their levels.
-- A method of the model gives back the events that it records, in order; `record` files them.
-- The JSON details of an event and the publication on the status bus are left out.
use vm_forgeyard.Prelude.{
  ℕ, String, ◌||◌, Option, none, some, List, [], ◌∷◌, ◌++◌, ◌==◌, truthy, fstring, if◌then◌else◌,
}

-- A row of `status_events`, without its id and its time.
pub record StatusEvent : Type 0 where
  pub kind : String
  pub level : String
  pub status : Option String
  pub namespace : Option String
  pub vm_id : Option String
  pub run_id : Option ℕ
  pub stage_id : Option String
  pub operation_id : Option ℕ
  pub resource_id : Option String
  pub summary : String

-- The keyword arguments that a call of `record_status_event` leaves out.
abbrev pub plain_event : String → String → String → String → StatusEvent
plain_event kind level status summary = record {
  kind = kind;
  level = level;
  status = some status;
  namespace = none;
  vm_id = none;
  run_id = none;
  stage_id = none;
  operation_id = none;
  resource_id = none;
  summary = summary;
}

unfoldable pub status_level : String → Option String → Option String → String
status_level status rejection_category rejection_reason =
    if status == "failed"
    then "error"
    else if status == "rejected" || (truthy rejection_category || truthy rejection_reason)
    then "warning"
    else "info"

unfoldable pub event_level : String → String
event_level event_type =
    if event_type == "warning" || (event_type == "api_reject" || event_type == "disk_full")
    then "warning"
    else if event_type == "vm_crash"
    then "error"
    else "info"

-- `text if text else ""`, with what stands before it.
abbrev suffix : String → Option String → List String
suffix before none = []
suffix before (some s) = if s == "" then [] else before ∷ s ∷ []

unfoldable pub operation_summary : String → String → Option String → Option String → String
operation_summary action status vm_id rejection_reason =
    fstring (action ∷ suffix " for " vm_id ++ " " ∷ status ∷ suffix ": " rejection_reason)

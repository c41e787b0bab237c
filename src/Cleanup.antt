-- ===== src/Cleanup.antt =====
-- src/kvm_control/vm_cleanup.py: the deletion of machines that have been stopped for long, or whose
-- deletion was asked for, and of old files in the trash. Times are seconds.
pub mod Pass
pub mod Trash
mod Tests
use vm_forgeyard.Prelude.{
  ℕ, ◌+◌, String, Bool, true, false, not, ◌&&◌, ◌||◌, Option, none, some, List, [], ◌∷◌, ◌++◌, ◌==◌,
  if◌then◌else◌, is_some, leb, ltb, length, Result, ok, err, fstring,
}
use vm_forgeyard.Prelude.Actions.{pure, gets, attempt, modify, when, ◌>>=◌, ◌>>◌}
use vm_forgeyard.Event.{StatusEvent, plain_event}
use vm_forgeyard.Vm.{VmInstance}
use vm_forgeyard.Vm.Queries.{list_stopped_ephemeral_vms}
use vm_forgeyard.Control.{
  Control, Handler, Host, Payload, ExecutorResult, Exn, text_of_exn, remove, begin_operation,
  end_operation, execute, disk_payload,
}
use vm_forgeyard.Control.Deletion.{stop_vm_for_cleanup, archive_trashed}

-- A machine to delete, with its reference time and the reason.
pub record Candidate : Type 0 where
  pub vm : VmInstance
  pub stopped_reference_at : Option ℕ
  pub cleanup_reason : String

pub record Cleaned : Type 0 where
  pub vm_id : String
  pub namespace : String
  pub stopped_reference_at : Option ℕ
  pub cleanup_reason : String

pub record CleanupFailure : Type 0 where
  pub vm_id : String
  pub namespace : String
  pub error : String

pub record CleanupReport : Type 0 where
  pub ttl_seconds : ℕ
  pub candidates : ℕ
  pub cleaned : List Cleaned
  pub failed : List CleanupFailure

-- `layer3_mtime` is the time of the last change of a file, if there is the file. A machine always
-- has a time of its last update.
unfoldable pub stopped_reference_time : (String → Option ℕ) → VmInstance → Option ℕ
stopped_reference_time layer3_mtime vm = elim vm.stopped_at [
  | some time ↦ some time
  | none ↦ elim (layer3_mtime vm.layer3_path) [ some time ↦ some time | none ↦ some vm.updated_at ]
]

-- ttl_seconds > 0 and reference_time is not None and reference_time <= now - ttl_seconds
abbrev pub is_expired : ℕ → ℕ → Option ℕ → Bool
is_expired ttl_seconds now none = false
is_expired ttl_seconds now (some time) = ltb 0 ttl_seconds && leb (time + ttl_seconds) now

abbrev pub candidate_of : (String → Option ℕ) → VmInstance → Candidate
candidate_of layer3_mtime vm = record {
  vm = vm;
  stopped_reference_at = stopped_reference_time layer3_mtime vm;
  cleanup_reason =
      if vm.status == "deleting" then "vm_delete_deferred" else "stopped_ephemeral_vm_ttl_expired";
}

unfoldable pub select_candidates : (String → Option ℕ) → ℕ → ℕ → List VmInstance → List Candidate
unfolding stopped_reference_time
select_candidates layer3_mtime ttl_seconds now [] = []
select_candidates layer3_mtime ttl_seconds now (vm ∷ vms) =
    let rest = select_candidates layer3_mtime ttl_seconds now vms in
    if vm.status == "deleting"
      || is_expired ttl_seconds now (stopped_reference_time layer3_mtime vm)
    then candidate_of layer3_mtime vm ∷ rest
    else rest

abbrev cleanup_event : Candidate → ℕ → String → String → String → StatusEvent
cleanup_event c operation_id level status what =
    record (plain_event "cleanup" level status
      (fstring (what ∷ " stale stopped ephemeral vm " ∷ c.vm.vm_id ∷ []))) {
        namespace = some c.vm.namespace;
        vm_id = some c.vm.vm_id;
        operation_id = some operation_id;
      }

abbrev pub record_event : StatusEvent → Handler (Unit {0})
record_event event = modify (λ s. record s { events = s.events ++ event ∷ [] })

abbrev pub cleaned_of : Candidate → Cleaned
cleaned_of c = record {
  vm_id = c.vm.vm_id;
  namespace = c.vm.namespace;
  stopped_reference_at = c.stopped_reference_at;
  cleanup_reason = c.cleanup_reason;
}

abbrev pub failure_of : Candidate → String → CleanupFailure
failure_of c error = record { vm_id = c.vm.vm_id; namespace = c.vm.namespace; error = error }

-- The results of the pass, apart.
abbrev pub cleaned_in : List (Result CleanupFailure Cleaned) → List Cleaned
cleaned_in [] = []
cleaned_in (ok c ∷ rs) = c ∷ cleaned_in rs
cleaned_in (err f ∷ rs) = cleaned_in rs

abbrev pub failed_in : List (Result CleanupFailure Cleaned) → List CleanupFailure
failed_in [] = []
failed_in (ok c ∷ rs) = failed_in rs
failed_in (err f ∷ rs) = f ∷ failed_in rs

module _ {Net : Type 0} (h : Host Net) (now : ℕ) where
  -- The calls of the executor, and the archive.
  unfoldable pub cleanup_disks : Candidate → ℕ → Handler (Unit {0})
  unfolding stop_vm_for_cleanup archive_trashed
  cleanup_disks c operation_id = do
    stop_vm_for_cleanup h now c.vm operation_id (c.cleanup_reason == "vm_delete_deferred")
    deleted ← execute h "delete-layer3" (disk_payload (some operation_id) c.vm)
    archive_trashed h now c.vm deleted.trashed_path c.cleanup_reason
    execute h "delete-runtime" (record (disk_payload none c.vm) { namespace = some c.vm.namespace })
    pure tt

  -- The body of the `except`.
  unfoldable pub cleanup_failed : Candidate → ℕ → Exn → Handler (Result CleanupFailure Cleaned)
  cleanup_failed c operation_id e = do
    end_operation now operation_id "failed" (some (text_of_exn h e))
    record_event (cleanup_event c operation_id "error" "failed" "failed to delete")
    pure (err (failure_of c (text_of_exn h e)))

  -- What follows when the disks are gone.
  unfoldable pub cleanup_done : Candidate → ℕ → Handler (Result CleanupFailure Cleaned)
  cleanup_done c operation_id = do
    remove c.vm.vm_id
    end_operation now operation_id "completed" none
    record_event (cleanup_event c operation_id "info" "deleted" "deleted")
    pure (ok (cleaned_of c))

  -- One turn of the loop.
  unfoldable pub cleanup_one : Candidate → Handler (Result CleanupFailure Cleaned)
  unfolding cleanup_disks cleanup_done cleanup_failed
  cleanup_one c = do
    operation_id ←
        begin_operation now "cleanup-stale-ephemeral-vm" (some c.vm.vm_id) c.vm.namespace "running"
          none none
    attempt (do cleanup_disks c operation_id; cleanup_done c operation_id)
        (cleanup_failed c operation_id)

  unfoldable pub cleanup_all : List Candidate → Handler (List (Result CleanupFailure Cleaned))
  unfolding cleanup_one
  cleanup_all [] = pure []
  cleanup_all (c ∷ cs) = do
    result ← cleanup_one c
    results ← cleanup_all cs
    pure (result ∷ results)

  unfoldable pub cleanup_stale_stopped_ephemeral_vms :
      (String → Option ℕ) → ℕ → Handler CleanupReport
  unfolding list_stopped_ephemeral_vms select_candidates cleanup_all
  cleanup_stale_stopped_ephemeral_vms layer3_mtime ttl_seconds = do
    candidates ←
        gets
          (λ s. select_candidates layer3_mtime ttl_seconds now (list_stopped_ephemeral_vms s.vms))
    results ← cleanup_all candidates
    pure (record {
      ttl_seconds = ttl_seconds;
      candidates = length candidates;
      cleaned = cleaned_in results;
      failed = failed_in results;
    })

-- ===== src/Cleanup/Trash.antt =====
-- src/kvm_control/vm_cleanup.py: `cleanup_stale_trash_files`.
use vm_forgeyard.Prelude.{
  ℕ, String, Bool, true, false, Option, none, some, List, [], ◌∷◌, if◌then◌else◌, leb, length,
  Result, ok, err, fstring, ◌&&◌,
}
use vm_forgeyard.Prelude.Actions.{pure, ◌>>◌}
use vm_forgeyard.Event.{StatusEvent, plain_event}
use vm_forgeyard.Control.{Handler}
use vm_forgeyard.Cleanup.{record_event}

-- What the executor answers to "cleanup-trash": the files, and those that it could not delete.
pub record TrashSweep : Type 0 where
  pub deleted_files : List String
  pub failed_files : List String

pub record TrashReport : Type 0 where
  pub ttl_seconds : ℕ
  pub deleted : List String
  pub failed : List String
  pub skipped : Option String

abbrev is_empty : List String → Bool
is_empty [] = true
is_empty (_ ∷ _) = false

-- `shown` is the text of a number.
abbrev swept_event : (ℕ → String) → TrashSweep → StatusEvent
swept_event shown result =
    plain_event "cleanup" (if is_empty result.failed_files then "info" else "error")
      (if is_empty result.failed_files then "deleted" else "failed")
      (fstring ("cleaned " ∷ shown (length result.deleted_files) ∷ " stale trash file(s)" ∷ []))

abbrev pub swept : (ℕ → String) → ℕ → Result String TrashSweep → Handler TrashReport
swept shown ttl_seconds (err reason) = do
  record_event (plain_event "cleanup" "error" "failed" "failed to clean stale trash files")
  pure (record { ttl_seconds = ttl_seconds; deleted = []; failed = reason ∷ []; skipped = none })
swept shown ttl_seconds (ok result) = do
  (if is_empty result.deleted_files && is_empty result.failed_files
      then pure tt
      else record_event (swept_event shown result))
  pure (record {
    ttl_seconds = ttl_seconds;
    deleted = result.deleted_files;
    failed = result.failed_files;
    skipped = none;
  })

-- `sweep` is the call of the executor.
unfoldable pub cleanup_stale_trash_files :
    (ℕ → Result String TrashSweep) → (ℕ → String) → ℕ → Handler TrashReport
cleanup_stale_trash_files sweep shown ttl_seconds =
    if leb ttl_seconds 0
    then pure
        (record { ttl_seconds = ttl_seconds; deleted = []; failed = []; skipped = some "disabled" })
    else swept shown ttl_seconds (sweep ttl_seconds)

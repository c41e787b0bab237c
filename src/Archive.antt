-- ===== src/Archive.antt =====
-- src/kvm_control/db.py: the archive of the disks of deleted machines. The JSON metadata is left out
-- but for the reason.
use vm_forgeyard.Prelude.{
  ℕ, suc, String, Bool, false, Option, none, some, List, [], ◌∷◌, ◌++◌, ◌==◌, is_some, ◌&&◌,
  if◌then◌else◌,
}
use vm_forgeyard.Vm.{VmInstance}

pub record TrashItem : Type 0 where
  pub id : ℕ
  pub source_path : String
  pub trashed_path : String
  pub vm_id : Option String
  pub namespace : Option String
  pub vm_slot : Option String
  pub network_id : Option String
  pub retention : Option String
  pub retention_reason : Option String
  pub purpose : Option String
  pub agent_session_id : Option String
  pub agent_label : Option String
  pub handoff : Option String
  pub reason : String
  pub created_at : ℕ

-- `next_id` is the rowid that AUTOINCREMENT gives next.
pub record TrashTable : Type 0 where
  pub items : List TrashItem
  pub next_id : ℕ

unfoldable pub record_archived_vm : ℕ → TrashTable → VmInstance → String → String → TrashTable
record_archived_vm now t vm trashed_path reason = record {
  items =
      t.items
      ++ record {
        id = t.next_id;
        source_path = vm.layer3_path;
        trashed_path = trashed_path;
        vm_id = some vm.vm_id;
        namespace = some vm.namespace;
        vm_slot = some vm.vm_slot;
        network_id = some vm.network_id;
        retention = some vm.retention;
        retention_reason = vm.retention_reason;
        purpose = vm.purpose;
        agent_session_id = vm.agent_session_id;
        agent_label = vm.agent_label;
        handoff = vm.handoff;
        reason = reason;
        created_at = now;
      }
        ∷ [];
  next_id = suc t.next_id;
}

abbrev archived_for : Option String → TrashItem → Bool
archived_for none item = is_some item.vm_id
archived_for (some namespace) item =
    is_some item.vm_id && (elim item.namespace [ none ↦ false | some n ↦ n == namespace ])

-- The rows that are wanted, the last first.
unfoldable pub newest_archived : Option String → List TrashItem → List TrashItem → List TrashItem
newest_archived namespace [] acc = acc
newest_archived namespace (item ∷ items) acc =
    newest_archived namespace items (if archived_for namespace item then item ∷ acc else acc)

-- ORDER BY created_at DESC, id DESC, for a clock that does not go back.
unfoldable pub list_archived_vms : TrashTable → Option String → List TrashItem
unfolding newest_archived
list_archived_vms t namespace = newest_archived namespace t.items []

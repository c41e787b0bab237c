-- ===== src/Operations/Tests.antt =====
-- Runs of the operations on a concrete table.
use vm_forgeyard.Prelude.{◌≡◌, refl, none, some, [], ◌∷◌}
use vm_forgeyard.Operations.{Operation, OperationTable, OperationUpdate, list_operations, newest}

abbrev start_vm : Operation
start_vm = record {
  id = 1;
  vm_id = some "a-b";
  namespace = some "a";
  action = "start";
  status = "running";
  rejection_category = none;
  rejection_reason = none;
  details = "";
  created_at = 5;
  updated_at = 5;
}

abbrev one_operation : OperationTable
one_operation = record { operations = start_vm ∷ []; next_id = 2 }

abbrev no_change : OperationUpdate
no_change = record { details = none; rejection_category = none; rejection_reason = none }

none_is_rejected : list_operations one_operation ("rejected" ∷ []) 100 ≡ []
unfolding list_operations newest
none_is_rejected = refl

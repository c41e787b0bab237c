-- ===== src/Operations.antt =====
-- src/kvm_control/db.py: the operations, their updates and the status events of both.
-- The JSON details, here a text, are kept in the row and left out of the events.
mod Following
mod Tests
use vm_forgeyard.Prelude.{
  ℕ, suc, zero, String, Bool, true, Option, none, some, List, [], ◌∷◌, ◌++◌, ◌==◌, ◌=ℕ◌,
  if◌then◌else◌,
}
use vm_forgeyard.Prelude.Rows.{fetch, update, any}
use vm_forgeyard.Event.{StatusEvent, plain_event, status_level, operation_summary}

pub record Operation : Type 0 where
  pub id : ℕ
  pub vm_id : Option String
  pub namespace : Option String
  pub action : String
  pub status : String
  pub rejection_category : Option String
  pub rejection_reason : Option String
  pub details : String
  pub created_at : ℕ
  pub updated_at : ℕ

-- `next_id` is the rowid that AUTOINCREMENT gives next.
pub record OperationTable : Type 0 where
  pub operations : List Operation
  pub next_id : ℕ

-- The keyword arguments of `update_operation`, none for one that is not given.
pub record OperationUpdate : Type 0 where
  pub details : Option String
  pub rejection_category : Option String
  pub rejection_reason : Option String

abbrev pub with_operation_id : ℕ → Operation → Bool
with_operation_id id op = op.id =ℕ id

abbrev pub operation_event : Operation → String → StatusEvent
operation_event op status =
    record (plain_event "operation" (status_level status op.rejection_category op.rejection_reason)
      status (operation_summary op.action status op.vm_id op.rejection_reason)) {
        namespace = op.namespace;
        vm_id = op.vm_id;
        operation_id = some op.id;
      }

-- The id of the row, and the event that is recorded.
unfoldable pub create_operation :
    ℕ
    → OperationTable
    → String
    → Option String
    → Option String
    → String
    → String
    → Option String
    → Option String
    → OperationTable × ℕ × StatusEvent
create_operation now t action vm_id namespace status details category reason =
    let op : Operation = record {
      id = t.next_id;
      vm_id = vm_id;
      namespace = namespace;
      action = action;
      status = status;
      rejection_category = category;
      rejection_reason = reason;
      details = details;
      created_at = now;
      updated_at = now;
    } in
    (
      record { operations = t.operations ++ op ∷ []; next_id = suc t.next_id },
      t.next_id,
      operation_event op status,
    )

-- A new value, or the old one.
abbrev pub given {ℓ} : {A : Type ℓ} → Option A → A → A
given none old = old
given (some new) old = new

abbrev pub given_some : Option String → Option String → Option String
given_some none old = old
given_some (some new) old = some new

unfoldable pub changed : ℕ → String → OperationUpdate → Operation → Operation
changed now status u op = record op {
  status = status;
  updated_at = now;
  details = given u.details op.details;
  rejection_category = given_some u.rejection_category op.rejection_category;
  rejection_reason = given_some u.rejection_reason op.rejection_reason;
}

unfoldable pub get_operation : OperationTable → ℕ → Option Operation
get_operation t id = fetch (with_operation_id id) t.operations

-- An id that is not there is no error: nothing is changed and no event is recorded.
unfoldable pub update_operation :
    ℕ → OperationTable → ℕ → String → OperationUpdate → OperationTable × Option StatusEvent
unfolding changed get_operation
update_operation now t id status u =
    let t' : OperationTable = record t {
      operations = update (with_operation_id id) (changed now status u) t.operations;
    } in
    (t', elim (get_operation t' id) [ none ↦ none | some op ↦ some (operation_event op status) ])

abbrev pub take {ℓ} : {A : Type ℓ} → ℕ → List A → List A
take zero xs = []
take (suc n) [] = []
take (suc n) (x ∷ xs) = x ∷ take n xs

-- status IN (...), if there are statuses.
abbrev pub wanted : List String → Operation → Bool
wanted [] op = true
wanted (s ∷ ss) op = any (λ status. status == op.status) (s ∷ ss)

-- The rows that are wanted, the last first.
unfoldable pub newest : List String → List Operation → List Operation → List Operation
newest statuses [] acc = acc
newest statuses (op ∷ ops) acc = newest statuses ops (if wanted statuses op then op ∷ acc else acc)

unfoldable pub list_operations : OperationTable → List String → ℕ → List Operation
unfolding newest
list_operations t statuses limit = take limit (newest statuses t.operations [])

-- ===== src/Operations/Following.antt =====
-- What is read of an operation after calls on it.

use vm_forgeyard.Prelude.{ℕ, ◌≡◌, String, Option, none, some}
use vm_forgeyard.Operations.{Operation, OperationUpdate}

-- A column that a call may give: the new value, or the old one.
abbrev pub IsGiven {ℓ} : {A : Type ℓ} → Option A → A → A → Type ℓ
IsGiven none old new = new ≡ old
IsGiven (some value) old new = new ≡ value

-- The same for a column that may be empty.
abbrev pub IsGivenSome : Option String → Option String → Option String → Type 0
IsGivenSome none old new = new ≡ old
IsGivenSome (some value) old new = new ≡ some value

-- What an update makes of a row.
abbrev pub IsUpdated : ℕ → String → OperationUpdate → Operation → Operation → Type 0
IsUpdated now status u op new =
    (new.id ≡ op.id)
    × (new.action ≡ op.action)
    × (new.vm_id ≡ op.vm_id)
    × (new.namespace ≡ op.namespace)
    × (new.created_at ≡ op.created_at)
    × (new.status ≡ status)
    × (new.updated_at ≡ now)
    × IsGiven u.details op.details new.details
    × IsGivenSome u.rejection_category op.rejection_category new.rejection_category
    × IsGivenSome u.rejection_reason op.rejection_reason new.rejection_reason

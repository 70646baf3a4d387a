-- ===== src/Database/Update.antt =====
-- The methods of src/database/mod.rs that update a row. A transaction and the plain connection act
-- on the same tables; a row that is not there is an error.
use rgb_multisig_hub.Base.{
  ℕ, Bool, Option, none, some, List, ◌==◌, if◌then◌else◌, count, update_where,
}
use rgb_multisig_hub.Errors.{ApiError, ApiError_from_db_err}
use rgb_multisig_hub.World.{Env, M, exec, NextAddressIndex, Operation, CosignerOpStatus}
use rgb_multisig_hub.Database.Rows.{status_has_idx, operation_has_idx}

-- `UPDATE ... SET ... WHERE idx = ...`, where the test is that on the key.
abbrev pub update_row {ℓ} : {A : Type ℓ} → (A → Bool) → (A → A) → List A → Option (List A)
update_row test change rows =
    if count test rows == 0 then none else some (update_where test change rows)

module _ (env : Env) where
  unfoldable pub update_cosigner_op_status :
      ℕ → (CosignerOpStatus → CosignerOpStatus) → M ApiError (Unit {0})
  update_cosigner_op_status idx change = exec env λ tick db.
      elim (update_row (status_has_idx idx) change db.statuses) [
        | none ↦ none
        | some rows ↦ some (tt, record db { statuses = rows })
      ]

  unfoldable pub update_next_address_index :
      ℕ → (NextAddressIndex → NextAddressIndex) → M ApiError (Unit {0})
  update_next_address_index idx change = exec env λ tick db.
      elim (update_row (λ r. r.idx == idx) change db.next_address_indices) [
        | none ↦ none
        | some rows ↦ some (tt, record db { next_address_indices = rows })
      ]

  unfoldable pub update_operation : ℕ → (Operation → Operation) → M ApiError (Unit {0})
  update_operation idx change = exec env λ tick db.
      elim (update_row (operation_has_idx idx) change db.operations) [
        | none ↦ none
        | some rows ↦ some (tt, record db { operations = rows })
      ]

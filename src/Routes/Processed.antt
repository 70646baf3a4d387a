-- ===== src/Routes/Processed.antt =====
-- `mark_operation_processed` and `get_last_processed_op_idx` of src/routes.rs.
use rgb_multisig_hub.Base.{ℕ, some, is_some}
use rgb_multisig_hub.Errors.{ApiError, ApiError_from_db_err}
use rgb_multisig_hub.Operations.{is_pending}
use rgb_multisig_hub.World.{Env, M, pure, ok_or, raise_if, now, ◌>>=◌, ◌>>◌, CosignerOpStatus}
use rgb_multisig_hub.Database.{
  get_operation_by_idx, get_cosigner_op_status_entry, update_cosigner_op_status,
  get_last_cosigner_processed_op_idx,
}

abbrev pub set_processed_at : ℕ → CosignerOpStatus → CosignerOpStatus
set_processed_at time row = record row { processed_at = some time }

module _ (env : Env) where
  -- The checks: what is marked is the caller's entry, of an operation that is decided.
  unfoldable pub check_mark_allowed : ℕ → ℕ → M ApiError CosignerOpStatus
  check_mark_allowed cosigner_idx operation_idx = do
    found ← get_operation_by_idx env operation_idx
    op ← ok_or found ApiError.operation_not_found
    raise_if (is_pending op.status) (
        ApiError.cannot_mark_operation_processed
          "a pending operation cannot be marked as processed")
    entry ← get_cosigner_op_status_entry env cosigner_idx operation_idx
    status ← ok_or entry ApiError.operation_not_found
    raise_if (is_some status.processed_at)
        (ApiError.cannot_mark_operation_processed "already marked this operation as processed")
    pure status

  unfoldable pub mark_operation_processed : ℕ → ℕ → M ApiError (Unit {0})
  unfolding check_mark_allowed
  mark_operation_processed cosigner_idx operation_idx = do
    status ← check_mark_allowed cosigner_idx operation_idx
    time ← now env
    update_cosigner_op_status env status.idx (set_processed_at time)

  unfoldable pub get_last_processed_op_idx : ℕ → M ApiError ℕ
  get_last_processed_op_idx cosigner_idx = get_last_cosigner_processed_op_idx env cosigner_idx

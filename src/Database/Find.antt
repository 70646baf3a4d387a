-- ===== src/Database/Find.antt =====
-- The methods of src/database/mod.rs that read.
use rgb_multisig_hub.Base.{ℕ, Bool, true, Option, List, [], ◌∷◌, is_some, get_or}
use mathlib.Core.Option
use rgb_multisig_hub.Errors.{
  ApiError, AppError, FromDbErr, ApiError_from_db_err, AppError_from_db_err,
}
use rgb_multisig_hub.World.{
  Env, M, query, pure, ok_or, expect, ◌>>=◌, Config, Cosigner, NextAddressIndex, Operation, OpFile,
  CosignerOpStatus, TransferStatus,
}
use rgb_multisig_hub.Database.Rows.{
  operation_has_idx, operation_is_pending, op_file_has_idx, op_file_is_of, cosigner_has_idx,
  status_is_of, status_is_entry, status_is_processed_by, status_is_unprocessed_by, transfer_is_of,
  all, one, first_by_desc,
}

module _ (env : Env) where
  unfoldable pub get_config : M AppError (Option Config)
  get_config = query env λ tick db. one env tick (λ r. true) db.configs

  unfoldable pub get_cosigner_by_idx : ℕ → M ApiError (Option Cosigner)
  get_cosigner_by_idx idx = query env λ tick db. one env tick (cosigner_has_idx idx) db.cosigners

  unfoldable pub get_cosigner_op_status_entry : ℕ → ℕ → M ApiError (Option CosignerOpStatus)
  get_cosigner_op_status_entry cosigner_idx operation_idx =
      query env λ tick db. one env tick (status_is_entry cosigner_idx operation_idx) db.statuses

  -- The loop over the entries: each one's cosigner, by a query of its own.
  unfoldable pub with_cosigners :
      List CosignerOpStatus → M ApiError (List (CosignerOpStatus × Cosigner))
  unfolding get_cosigner_by_idx
  with_cosigners [] = pure []
  with_cosigners (status ∷ entries) = do
    found ← get_cosigner_by_idx status.cosigner_idx
    cosigner ← ok_or found (ApiError.unexpected "CosignerOpStatus entry missing cosigner")
    rest ← with_cosigners entries
    pure ((status, cosigner) ∷ rest)

  unfoldable pub get_cosigner_op_status_with_cosigners_by_operation_idx :
      ℕ → M ApiError (List (CosignerOpStatus × Cosigner))
  unfolding with_cosigners
  get_cosigner_op_status_with_cosigners_by_operation_idx operation_idx = do
    entries ← query env (λ tick db. all env tick (status_is_of operation_idx) db.statuses)
    with_cosigners entries

  unfoldable pub get_last_cosigner_processed_op_idx : ℕ → M ApiError ℕ
  unfolding first_by_desc
  get_last_cosigner_processed_op_idx cosigner_idx = query env λ tick db.
      let rows = all env tick (status_is_processed_by cosigner_idx) db.statuses in
      get_or (Option.map (λ o. o.operation_idx) (first_by_desc (λ r. r.operation_idx) rows)) 0

  unfoldable pub get_last_operation_idx : M ApiError (Option ℕ)
  unfolding first_by_desc
  get_last_operation_idx = query env λ tick db.
      Option.map (λ o. o.idx) (first_by_desc (λ r. r.idx) (env.scan Operation tick db.operations))

  unfoldable pub get_next_address_index : M ApiError NextAddressIndex
  get_next_address_index = do
    found ← query env (λ tick db. one env tick (λ r. true) db.next_address_indices)
    expect found "has been created at startup time"

  unfoldable pub get_op_file_by_idx : ℕ → M ApiError (Option OpFile)
  get_op_file_by_idx idx = query env λ tick db. one env tick (op_file_has_idx idx) db.op_files

  unfoldable pub get_operation_by_idx : ℕ → M ApiError (Option Operation)
  get_operation_by_idx idx = query env λ tick db. one env tick (operation_has_idx idx) db.operations

  unfoldable pub get_op_files_by_operation_idx : ℕ → M ApiError (List OpFile)
  unfolding get_operation_by_idx
  get_op_files_by_operation_idx operation_idx = do
    found ← get_operation_by_idx operation_idx
    operation ← ok_or found (ApiError.unexpected "operation not found")
    query env (λ tick db. all env tick (op_file_is_of operation.idx) db.op_files)

  unfoldable pub iter_cosigners : {E : Type 0} ⦃from : FromDbErr E⦄ → M E (List Cosigner)
  iter_cosigners = query env λ tick db. env.scan Cosigner tick db.cosigners

  unfoldable pub iter_cosigner_op_status_by_operation_idx : ℕ → M ApiError (List CosignerOpStatus)
  iter_cosigner_op_status_by_operation_idx operation_idx =
      query env λ tick db. all env tick (status_is_of operation_idx) db.statuses

  unfoldable pub has_pending_operation : M ApiError Bool
  has_pending_operation =
      query env λ tick db. is_some (one env tick operation_is_pending db.operations)

  unfoldable pub has_unprocessed_operation : ℕ → M ApiError Bool
  has_unprocessed_operation cosigner_idx =
      query env
        λ tick db. is_some (one env tick (status_is_unprocessed_by cosigner_idx) db.statuses)

  unfoldable pub get_transfer_status : ℕ → M ApiError (Option TransferStatus)
  get_transfer_status batch_transfer_idx =
      query env λ tick db. one env tick (transfer_is_of batch_transfer_idx) db.transfers

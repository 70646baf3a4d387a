-- ===== src/Database/Reads.antt =====
-- The methods of src/database/mod.rs that only read leave the tables alone.
use rgb_multisig_hub.Base.{ℕ, List, [], ◌∷◌}
use rgb_multisig_hub.Errors.{ApiError_from_db_err}
use rgb_multisig_hub.World.{Env, CosignerOpStatus}
use rgb_multisig_hub.World.Atomic.{
  ReadOnly, ReadOnly-bind, ReadOnly-ok_or, ReadOnly-pure, read_only_rules,
}
use rgb_multisig_hub.Database.Find.{
  get_cosigner_by_idx, get_cosigner_op_status_entry, with_cosigners,
  get_cosigner_op_status_with_cosigners_by_operation_idx, get_last_cosigner_processed_op_idx,
  get_last_operation_idx, get_next_address_index, get_op_file_by_idx, get_operation_by_idx,
  get_op_files_by_operation_idx, iter_cosigner_op_status_by_operation_idx, has_pending_operation,
  has_unprocessed_operation, get_transfer_status,
}

module _ (env : Env) where
  pub ReadOnly-get_cosigner_by_idx : (idx : ℕ) → ReadOnly (get_cosigner_by_idx env idx)
  unfolding get_cosigner_by_idx
  ReadOnly-get_cosigner_by_idx idx = search read_only_rules

  pub ReadOnly-get_cosigner_op_status_entry :
      (c i : ℕ) → ReadOnly (get_cosigner_op_status_entry env c i)
  unfolding get_cosigner_op_status_entry
  ReadOnly-get_cosigner_op_status_entry c i = search read_only_rules

  ReadOnly-with_cosigners :
      (entries : List CosignerOpStatus) → ReadOnly (with_cosigners env entries)
  unfolding with_cosigners
  ReadOnly-with_cosigners [] = search read_only_rules
  ReadOnly-with_cosigners (s ∷ entries) =
      let rest = ReadOnly-with_cosigners entries in
      ReadOnly-bind (ReadOnly-get_cosigner_by_idx s.cosigner_idx) λ found.
        ReadOnly-bind (ReadOnly-ok_or found _)
          λ c. ReadOnly-bind rest (λ others. ReadOnly-pure ((s, c) ∷ others))

  pub ReadOnly-get_cosigner_op_status_with_cosigners :
      (i : ℕ) → ReadOnly (get_cosigner_op_status_with_cosigners_by_operation_idx env i)
  unfolding get_cosigner_op_status_with_cosigners_by_operation_idx
  ReadOnly-get_cosigner_op_status_with_cosigners i =
      search (read_only_rules, ReadOnly-with_cosigners)

  pub ReadOnly-get_last_cosigner_processed_op_idx :
      (c : ℕ) → ReadOnly (get_last_cosigner_processed_op_idx env c)
  unfolding get_last_cosigner_processed_op_idx
  ReadOnly-get_last_cosigner_processed_op_idx c = search read_only_rules

  pub ReadOnly-get_last_operation_idx : ReadOnly (get_last_operation_idx env)
  unfolding get_last_operation_idx
  ReadOnly-get_last_operation_idx = search read_only_rules

  pub ReadOnly-get_next_address_index : ReadOnly (get_next_address_index env)
  unfolding get_next_address_index
  ReadOnly-get_next_address_index = search read_only_rules

  pub ReadOnly-get_op_file_by_idx : (i : ℕ) → ReadOnly (get_op_file_by_idx env i)
  unfolding get_op_file_by_idx
  ReadOnly-get_op_file_by_idx i = search read_only_rules

  pub ReadOnly-get_operation_by_idx : (i : ℕ) → ReadOnly (get_operation_by_idx env i)
  unfolding get_operation_by_idx
  ReadOnly-get_operation_by_idx i = search read_only_rules

  pub ReadOnly-get_op_files_by_operation_idx :
      (i : ℕ) → ReadOnly (get_op_files_by_operation_idx env i)
  unfolding get_op_files_by_operation_idx
  ReadOnly-get_op_files_by_operation_idx i = search read_only_rules

  pub ReadOnly-iter_cosigner_op_status :
      (i : ℕ) → ReadOnly (iter_cosigner_op_status_by_operation_idx env i)
  unfolding iter_cosigner_op_status_by_operation_idx
  ReadOnly-iter_cosigner_op_status i = search read_only_rules

  pub ReadOnly-has_pending_operation : ReadOnly (has_pending_operation env)
  unfolding has_pending_operation
  ReadOnly-has_pending_operation = search read_only_rules

  pub ReadOnly-has_unprocessed_operation : (c : ℕ) → ReadOnly (has_unprocessed_operation env c)
  unfolding has_unprocessed_operation
  ReadOnly-has_unprocessed_operation c = search read_only_rules

  pub ReadOnly-get_transfer_status : (b : ℕ) → ReadOnly (get_transfer_status env b)
  unfolding get_transfer_status
  ReadOnly-get_transfer_status b = search read_only_rules

pub ruleset database_reads = (
  read_only_rules, ReadOnly-get_cosigner_by_idx, ReadOnly-get_cosigner_op_status_entry,
  ReadOnly-get_cosigner_op_status_with_cosigners, ReadOnly-get_last_cosigner_processed_op_idx,
  ReadOnly-get_last_operation_idx, ReadOnly-get_next_address_index, ReadOnly-get_op_file_by_idx,
  ReadOnly-get_operation_by_idx, ReadOnly-get_op_files_by_operation_idx,
  ReadOnly-iter_cosigner_op_status, ReadOnly-has_pending_operation,
  ReadOnly-has_unprocessed_operation, ReadOnly-get_transfer_status,
)

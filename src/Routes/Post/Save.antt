-- ===== src/Routes/Post/Save.antt =====
-- What `post_operation` saves in its transaction, and the handler as a whole.
use rgb_multisig_hub.Base.{ℕ, String, Option, none, some, List, [], ◌∷◌, if◌then◌else◌}
use rgb_multisig_hub.Errors.{ApiError, ApiError_from_db_err}
use rgb_multisig_hub.Operations.{
  FileType, operation_psbt, OperationType, OperationStatus, approved, pending, is_auto_approved,
}
use rgb_multisig_hub.World.{
  Env, M, pure, raise_if, now, transaction, ◌>>=◌, ◌>>◌, Operation, OpFile, CosignerOpStatus,
}
use rgb_multisig_hub.Database.{
  set_operation, set_op_file, set_cosigner_op_status, has_pending_operation,
  has_unprocessed_operation,
}
use rgb_multisig_hub.Files.{store_file}
use rgb_multisig_hub.State.{AppState}
use rgb_multisig_hub.Multipart.{Multipart}
use rgb_multisig_hub.Routes.Post.Form.{PostForm, empty_form, read_form, validate_form}

unfoldable pub initial_status : OperationType → OperationStatus
unfolding is_auto_approved
initial_status operation_type = if is_auto_approved operation_type then approved else pending

abbrev pub new_operation : OperationType → ℕ → Option (List ℕ) → ℕ → ℕ → Operation
new_operation operation_type cosigner_idx seed time idx = record {
  idx = idx;
  type = operation_type;
  status = initial_status operation_type;
  created_at = time;
  initiator_idx = cosigner_idx;
  seed = seed;
}

abbrev pub new_op_file : String → FileType → ℕ → ℕ → OpFile
new_op_file file_id file_type operation_idx idx = record {
  idx = idx;
  file_id = file_id;
  type = file_type;
  operation_idx = operation_idx;
}

-- The columns that are not set are null.
abbrev pub new_cosigner_op_status : ℕ → ℕ → ℕ → CosignerOpStatus
new_cosigner_op_status operation_idx cosigner_idx idx = record {
  idx = idx;
  cosigner_idx = cosigner_idx;
  operation_idx = operation_idx;
  ack = none;
  responded_at = none;
  processed_at = none;
  psbt_op_file_idx = none;
}

module _ (env : Env) where
  -- No operation is pending, and the initiator has processed every one.
  unfoldable pub check_post_allowed : ℕ → M ApiError (Unit {0})
  check_post_allowed cosigner_idx = do
    has_pending ← has_pending_operation env
    raise_if has_pending (ApiError.cannot_post_new_operation "another operation is still pending")
    has_unprocessed ← has_unprocessed_operation env cosigner_idx
    raise_if has_unprocessed
        (ApiError.cannot_post_new_operation "initiator has unprocessed operations")

module _ (env : Env) (state : AppState) where
  unfoldable pub save_file : ℕ → FileType → List ℕ → M ApiError ℕ
  save_file operation_idx file_type content = do
    file_id ← store_file env state.files_dir content
    set_op_file env (new_op_file file_id file_type operation_idx)

  unfoldable pub save_files : ℕ → List (FileType × List ℕ) → M ApiError (Unit {0})
  unfolding save_file
  save_files operation_idx [] = pure tt
  save_files operation_idx ((file_type, content) ∷ files) = do
    save_file operation_idx file_type content
    save_files operation_idx files

  unfoldable pub save_psbt : ℕ → Option (List ℕ) → M ApiError (Unit {0})
  unfolding save_file
  save_psbt operation_idx none = pure tt
  save_psbt operation_idx (some content) = do
    save_file operation_idx operation_psbt content
    pure tt

  -- An entry for each cosigner.
  unfoldable pub create_statuses : ℕ → List (ℕ × String) → M ApiError (Unit {0})
  create_statuses operation_idx [] = pure tt
  create_statuses operation_idx ((idx, _) ∷ cosigners) = do
    set_cosigner_op_status env (new_cosigner_op_status operation_idx idx)
    create_statuses operation_idx cosigners

  unfoldable pub save_operation : ℕ → PostForm → OperationType → ℕ → M ApiError ℕ
  unfolding save_files save_psbt create_statuses
  save_operation cosigner_idx form operation_type time = do
    operation_idx ← set_operation env (new_operation operation_type cosigner_idx form.seed time)
    save_files operation_idx form.files
    save_psbt operation_idx form.psbt_file
    create_statuses operation_idx state.cosigners_by_idx
    pure operation_idx

  unfoldable pub post_operation : ℕ → Multipart → M ApiError ℕ
  unfolding check_post_allowed save_operation
  post_operation cosigner_idx multipart = do
    check_post_allowed env cosigner_idx
    form ← read_form env multipart.fields multipart.broken empty_form
    operation_type ← validate_form form
    time ← now env
    transaction env (save_operation cosigner_idx form operation_type time)

-- ===== src/Routes/Respond.antt =====
-- `respond_to_operation` of src/routes.rs.
use Prim.Native.String.{◌++◌ as append}
use rgb_multisig_hub.Base.{
  ℕ, ◌+◌, str_eq, Bool, not, ◌&&◌, Option, none, some, List, [], ◌∷◌, ◌==◌, if◌then◌else◌, is_some,
}
use rgb_multisig_hub.Errors.{ApiError, ApiError_from_db_err}
use rgb_multisig_hub.Operations.{
  response_psbt, OperationStatus, is_pending, get_threshold_for_operation,
}
use rgb_multisig_hub.World.{
  Env, RespondToOperationRequest, M, pure, raise, raise_if, ok_or, expect, now, transaction, ◌>>=◌,
  ◌>>◌, Operation, CosignerOpStatus,
}
use rgb_multisig_hub.Database.{
  get_operation_by_idx, get_cosigner_op_status_entry, get_last_cosigner_processed_op_idx,
  set_op_file, update_cosigner_op_status, update_operation,
  iter_cosigner_op_status_by_operation_idx,
}
use rgb_multisig_hub.Files.{store_file}
use rgb_multisig_hub.State.{AppState, total_cosigners}
use rgb_multisig_hub.Multipart.{Field, Multipart, field_name, field_text, receive_file}
use rgb_multisig_hub.Votes.{count_votes, new_status}
use rgb_multisig_hub.Routes.Lookup.{OperationResponse, get_operation_by_idx_with_files}
use rgb_multisig_hub.Routes.Post.Form.{invalid_name}
use rgb_multisig_hub.Routes.Post.Save.{new_op_file}

pub record RespondForm : Type 0 where
  pub req : Option RespondToOperationRequest
  pub psbt_file : Option (List ℕ)

abbrev pub set_status : OperationStatus → Operation → Operation
set_status status op = record op { status = status }

-- The columns of the entry that a response sets; without a PSBT that column is left alone.
abbrev pub set_response : Bool → ℕ → Option ℕ → CosignerOpStatus → CosignerOpStatus
set_response ack time none row = record row { ack = some ack; responded_at = some time }
set_response ack time (some file) row = record row {
  ack = some ack;
  responded_at = some time;
  psbt_op_file_idx = some file;
}

-- The request is complete: a positive response comes with a PSBT.
unfoldable pub validate_form : RespondForm → M ApiError RespondToOperationRequest
validate_form form = do
  req ← ok_or form.req (ApiError.invalid_request "missing request body")
  raise_if (req.ack && not (is_some form.psbt_file))
      (ApiError.invalid_request "ACK requires PSBT file")
  pure req

module _ (env : Env) where
  unfoldable pub read_request : Field → RespondForm → M ApiError RespondForm
  read_request field form = do
    json_str ← field_text env field
    payload ←
        ok_or (env.parse_request json_str)
          (ApiError.invalid_request (append "failed to parse JSON: " (env.parse_error json_str)))
    pure (record form { req = some payload })

  unfoldable pub read_psbt : Field → RespondForm → M ApiError RespondForm
  read_psbt field form = do
    raise_if (is_some form.psbt_file) (ApiError.invalid_request "more than one PSBT provided")
    content ← receive_file env "empty file" field
    pure (record form { psbt_file = some content })

  unfoldable pub read_field : Field → RespondForm → M ApiError RespondForm
  unfolding read_request read_psbt
  read_field field form =
      let name = field_name field in
      if str_eq name "request"
      then read_request field form
      else if str_eq name "file_psbt"
      then read_psbt field form
      else raise (invalid_name "unexpected field " name)

  unfoldable pub read_form : List Field → Bool → RespondForm → M ApiError RespondForm
  unfolding read_field
  read_form [] broken form = do
    raise_if broken (ApiError.invalid_request "failed to parse multipart")
    pure form
  read_form (field ∷ fields) broken form = do
    next ← read_field field form
    read_form fields broken next

  -- The operation is pending, the cosigner has not responded to it, and it is the next one that the
  -- cosigner has to process. A request's `i32` is
  -- below 2 ^ 31, so the test fails too where the sum would wrap.
  unfoldable pub check_respond_allowed : ℕ → ℕ → M ApiError (Operation × CosignerOpStatus)
  check_respond_allowed cosigner_idx operation_idx = do
    found ← get_operation_by_idx env operation_idx
    op ← ok_or found ApiError.operation_not_found
    raise_if (not (is_pending op.status))
        (ApiError.cannot_respond_to_operation "operation is not pending")
    entry ← get_cosigner_op_status_entry env cosigner_idx operation_idx
    status_entry ← expect entry "CosignerOpStatus entry should exist"
    raise_if (is_some status_entry.ack)
        (ApiError.cannot_respond_to_operation "already responded to this operation")
    last_processed_op_idx ← get_last_cosigner_processed_op_idx env cosigner_idx
    raise_if (not (operation_idx == last_processed_op_idx + 1))
        (ApiError.cannot_respond_to_operation "operation is not the next one to be processed")
    pure (op, status_entry)

module _ (env : Env) (state : AppState) where
  unfoldable pub save_response_psbt : ℕ → Option (List ℕ) → M ApiError (Option ℕ)
  save_response_psbt operation_idx none = pure none
  save_response_psbt operation_idx (some content) = do
    file_id ← store_file env state.files_dir content
    idx ← set_op_file env (new_op_file file_id response_psbt operation_idx)
    pure (some idx)

  -- The operation moves on if the votes decide it.
  unfoldable pub apply_decision : ℕ → Option OperationStatus → M ApiError (Unit {0})
  apply_decision operation_idx none = pure tt
  apply_decision operation_idx (some status) =
      update_operation env operation_idx (set_status status)

  -- Counts the votes and decides.
  unfoldable pub decide : Operation → M ApiError (Unit {0})
  unfolding apply_decision get_threshold_for_operation
  decide op = do
    entries ← iter_cosigner_op_status_by_operation_idx env op.idx
    let votes = count_votes entries
    threshold ←
        expect (get_threshold_for_operation op.type state.threshold_vanilla state.threshold_colored)
          "threshold should be set for non-auto-approved operations"
    apply_decision op.idx (new_status votes.0 votes.1 threshold (total_cosigners state))

  unfoldable pub save_response :
      Operation → CosignerOpStatus → Bool → Option (List ℕ) → M ApiError (Unit {0})
  unfolding save_response_psbt decide
  save_response op status_entry ack psbt_file = do
    psbt_op_file_idx ← save_response_psbt op.idx psbt_file
    time ← now env
    update_cosigner_op_status env status_entry.idx (set_response ack time psbt_op_file_idx)
    decide op

  -- The handler up to the commit of its transaction.
  unfoldable pub record_response : ℕ → Multipart → M ApiError ℕ
  unfolding read_form validate_form check_respond_allowed save_response
  record_response cosigner_idx multipart = do
    form ← read_form env multipart.fields multipart.broken (record { req = none; psbt_file = none })
    req ← validate_form form
    allowed ← check_respond_allowed env cosigner_idx req.operation_idx
    transaction env (save_response allowed.0 allowed.1 req.ack form.psbt_file)
    pure req.operation_idx

  -- After the commit the operation is read again for the reply.
  unfoldable pub respond_to_operation : ℕ → Multipart → M ApiError OperationResponse
  unfolding record_response
  respond_to_operation cosigner_idx multipart = do
    operation_idx ← record_response cosigner_idx multipart
    found ← get_operation_by_idx_with_files env state operation_idx (some cosigner_idx)
    expect found "operation should exist after response"

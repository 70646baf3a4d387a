-- ===== src/Hub/Aside.antt =====
-- The parts of the tables that posting, responding and marking leave alone: the address indices, the
-- transfers, the cosigners and the configuration.
use rgb_multisig_hub.Base.{ℕ, String, Bool, Option, none, some, List, [], ◌∷◌, arith}
use rgb_multisig_hub.Errors.{ApiError_from_db_err}
use rgb_multisig_hub.Operations.{OperationStatus, OperationType}
use rgb_multisig_hub.World.{
  Env, Db, Operation, CosignerOpStatus, OpFile, NextAddressIndex, TransferStatus, Cosigner, Config,
}
use rgb_multisig_hub.World.Atomic.{ReadOnly, ReadOnly-pure, ReadOnly-now, ReadOnly-expect}
use rgb_multisig_hub.World.Keeps.{Keeps, Keeps-ReadOnly, Keeps-bind, Keeps-exec, Keeps-transaction}
use rgb_multisig_hub.Database.{
  set_op_file, set_operation, set_cosigner_op_status, update_cosigner_op_status, update_operation,
}
use rgb_multisig_hub.Database.Reads.{database_reads}
use rgb_multisig_hub.Hub.Uploads.{
  save_files-kept_part, save_psbt-kept_part, save_response_psbt-kept_part,
}
use rgb_multisig_hub.State.{AppState}
use rgb_multisig_hub.Multipart.{Multipart}
use rgb_multisig_hub.Routes.Processed.{check_mark_allowed, mark_operation_processed}
use rgb_multisig_hub.Routes.Post.Form.{PostForm}
use rgb_multisig_hub.Routes.Post.Save.{create_statuses, save_operation, post_operation}
use rgb_multisig_hub.Routes.Respond.{
  apply_decision, decide, save_response, record_response, respond_to_operation,
}
use rgb_multisig_hub.Routes.Reads.{ReadOnly-get_operation_by_idx_with_files}
use rgb_multisig_hub.Routes.FormReads.{
  ReadOnly-post_form, ReadOnly-check_post_allowed, ReadOnly-respond_form,
  ReadOnly-check_respond_allowed, ReadOnly-post_validate, ReadOnly-respond_validate,
}

abbrev pub Rest : Type 0
Rest = List NextAddressIndex × List TransferStatus × List Cosigner × List Config

abbrev pub rest_part : Db → Rest
rest_part db = (db.next_address_indices, db.transfers, db.cosigners, db.configs)

module _ (env : Env) where
  set_op_file-Aside : (row : ℕ → OpFile) → Keeps rest_part (set_op_file env row)
  unfolding set_op_file
  set_op_file-Aside row = Keeps-exec env rest_part _ (λ tick db a after e. ground arith)

  set_operation-Aside : (row : ℕ → Operation) → Keeps rest_part (set_operation env row)
  unfolding set_operation
  set_operation-Aside row = Keeps-exec env rest_part _ (λ tick db a after e. ground arith)

  set_cosigner_op_status-Aside :
      (row : ℕ → CosignerOpStatus) → Keeps rest_part (set_cosigner_op_status env row)
  unfolding set_cosigner_op_status
  set_cosigner_op_status-Aside row = Keeps-exec env rest_part _ (λ tick db a after e. ground arith)

  update_cosigner_op_status-Aside :
      (k : ℕ) (f : CosignerOpStatus → CosignerOpStatus)
      → Keeps rest_part (update_cosigner_op_status env k f)
  unfolding update_cosigner_op_status
  update_cosigner_op_status-Aside k f =
      Keeps-exec env rest_part _ (λ tick db a after e. ground arith)

  update_operation-Aside :
      (k : ℕ) (f : Operation → Operation) → Keeps rest_part (update_operation env k f)
  unfolding update_operation
  update_operation-Aside k f = Keeps-exec env rest_part _ (λ tick db a after e. ground arith)

  pub ReadOnly-check_mark_allowed : (c i : ℕ) → ReadOnly (check_mark_allowed env c i)
  unfolding check_mark_allowed
  ReadOnly-check_mark_allowed c i = search database_reads depth 14

  pub mark_operation_processed-Aside :
      (c i : ℕ) → Keeps rest_part (mark_operation_processed env c i)
  unfolding mark_operation_processed
  mark_operation_processed-Aside c i =
      Keeps-bind (Keeps-ReadOnly rest_part (ReadOnly-check_mark_allowed c i)) λ s.
        Keeps-bind (Keeps-ReadOnly rest_part (ReadOnly-now env))
          λ time. update_cosigner_op_status-Aside _ _

module _ (env : Env) (state : AppState) where
  create_statuses-Aside :
      (i : ℕ) (cosigners : List (ℕ × String))
      → Keeps rest_part (create_statuses env state i cosigners)
  unfolding create_statuses
  create_statuses-Aside i [] = Keeps-ReadOnly rest_part (ReadOnly-pure _)
  create_statuses-Aside i ((c, xpub) ∷ cosigners) =
      let rest = create_statuses-Aside i cosigners in
      Keeps-bind (set_cosigner_op_status-Aside env _) (λ _. rest)

  save_operation-Aside :
      (c : ℕ) (form : PostForm) (t : OperationType) (time : ℕ)
      → Keeps rest_part (save_operation env state c form t time)
  unfolding save_operation
  save_operation-Aside c form t time = Keeps-bind (set_operation-Aside env _) λ i.
      Keeps-bind (save_files-kept_part rest_part env state (set_op_file-Aside env) i _) λ _.
        Keeps-bind (save_psbt-kept_part rest_part env state (set_op_file-Aside env) i _) λ _.
          Keeps-bind (create_statuses-Aside i _) λ _. Keeps-ReadOnly rest_part (ReadOnly-pure _)

  pub post_operation-Aside :
      (c : ℕ) (form : Multipart) → Keeps rest_part (post_operation env state c form)
  unfolding post_operation
  post_operation-Aside c form =
      Keeps-bind (Keeps-ReadOnly rest_part (ReadOnly-check_post_allowed env c)) λ _.
        Keeps-bind (Keeps-ReadOnly rest_part (ReadOnly-post_form env _ _ _)) λ parsed.
          Keeps-bind (Keeps-ReadOnly rest_part (ReadOnly-post_validate parsed)) λ t.
            Keeps-bind (Keeps-ReadOnly rest_part (ReadOnly-now env))
              λ time. Keeps-transaction env rest_part _ (save_operation-Aside c parsed t time)

  apply_decision-Aside :
      (i : ℕ) (d : Option OperationStatus) → Keeps rest_part (apply_decision env state i d)
  unfolding apply_decision
  apply_decision-Aside i none = Keeps-ReadOnly rest_part (ReadOnly-pure _)
  apply_decision-Aside i (some s) = update_operation-Aside env _ _

  decide-Aside : (op : Operation) → Keeps rest_part (decide env state op)
  unfolding decide
  decide-Aside op = Keeps-bind (Keeps-ReadOnly rest_part (search database_reads)) λ entries.
      Keeps-bind (Keeps-ReadOnly rest_part (ReadOnly-expect _ _)) λ t. apply_decision-Aside _ _

  save_response-Aside :
      (op : Operation) (s : CosignerOpStatus) (ack : Bool) (psbt : Option (List ℕ))
      → Keeps rest_part (save_response env state op s ack psbt)
  unfolding save_response
  save_response-Aside op s ack psbt =
      Keeps-bind (save_response_psbt-kept_part rest_part env state (set_op_file-Aside env) _ psbt)
        λ id.
          Keeps-bind (Keeps-ReadOnly rest_part (ReadOnly-now env))
            λ time. Keeps-bind (update_cosigner_op_status-Aside env _ _) λ _. decide-Aside op

  pub record_response-Aside :
      (c : ℕ) (form : Multipart) → Keeps rest_part (record_response env state c form)
  unfolding record_response
  record_response-Aside c form =
      Keeps-bind (Keeps-ReadOnly rest_part (ReadOnly-respond_form env _ _ _)) λ parsed.
        Keeps-bind (Keeps-ReadOnly rest_part (ReadOnly-respond_validate parsed)) λ req.
          Keeps-bind (Keeps-ReadOnly rest_part (ReadOnly-check_respond_allowed env c _)) λ allowed.
            Keeps-bind
              (Keeps-transaction env rest_part _ (save_response-Aside allowed.0 allowed.1 _ _))
              λ _. Keeps-ReadOnly rest_part (ReadOnly-pure _)

  -- The reply only reads.
  pub respond_to_operation-Aside :
      (c : ℕ) (form : Multipart) → Keeps rest_part (respond_to_operation env state c form)
  unfolding respond_to_operation
  respond_to_operation-Aside c form = Keeps-bind (record_response-Aside c form) λ i.
      Keeps-bind
        (Keeps-ReadOnly rest_part (ReadOnly-get_operation_by_idx_with_files env state i (some c)))
        λ o. Keeps-ReadOnly rest_part (ReadOnly-expect _ _)

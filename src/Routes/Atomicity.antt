-- ===== src/Routes/Atomicity.antt =====
-- Every request of src/routes.rs that writes changes the tables wholly or not at all.
use rgb_multisig_hub.Base.{ℕ, Bool, Option, none, some}
use rgb_multisig_hub.Errors.{ApiError_from_db_err}
use rgb_multisig_hub.World.{Env}
use rgb_multisig_hub.World.Atomic.{
  Atomic, Atomic-ReadOnly, Atomic-bind, Atomic-bind_pure, Atomic-transaction, ReadOnly-raise,
  ReadOnly-now, ReadOnly-raise_if, atomic_rules,
}
use rgb_multisig_hub.Database.{update_cosigner_op_status}
use rgb_multisig_hub.Database.Reads.{database_reads}
use rgb_multisig_hub.State.{AppState}
use rgb_multisig_hub.Auth.{AuthenticatedUser, cosigner, watch_only}
use rgb_multisig_hub.Multipart.{Multipart}
use rgb_multisig_hub.Routes.Addresses.{BumpAddressIndicesRequest, bump_address_indices}
use rgb_multisig_hub.Routes.Transfers.{TransferStatusRequest, info_of, set_or_read, transfer_status}
use rgb_multisig_hub.Routes.Processed.{mark_operation_processed}
use rgb_multisig_hub.Routes.Post.Save.{post_operation}
use rgb_multisig_hub.Routes.Respond.{record_response}
use rgb_multisig_hub.Routes.FormReads.{
  ReadOnly-post_form, ReadOnly-check_post_allowed, ReadOnly-respond_form,
  ReadOnly-check_respond_allowed, ReadOnly-post_validate, ReadOnly-respond_validate,
}

module _ (env : Env) where
  pub bump_address_indices-Atomic :
      (req : BumpAddressIndicesRequest) → Atomic (bump_address_indices env req)
  unfolding bump_address_indices
  bump_address_indices-Atomic req =
      Atomic-bind (ReadOnly-raise_if _ _) (λ _. Atomic-transaction env _)

  pub mark_operation_processed-Atomic :
      (cosigner_idx operation_idx : ℕ)
      → Atomic (mark_operation_processed env cosigner_idx operation_idx)
  unfolding mark_operation_processed update_cosigner_op_status
  mark_operation_processed-Atomic c i = search (atomic_rules, database_reads) depth 16

module _ (env : Env) (state : AppState) where
  set_or_read-Atomic :
      (user : AuthenticatedUser) (batch : ℕ) (accept : Option Bool)
      → Atomic (set_or_read env state user batch accept)
  unfolding set_or_read
  set_or_read-Atomic watch_only batch (some a) = Atomic-ReadOnly (ReadOnly-raise _)
  set_or_read-Atomic (cosigner c) batch (some a) =
      Atomic-bind (ReadOnly-now env)
        λ time. Atomic-bind_pure (λ row. some (info_of state row)) (Atomic-transaction env _)
  set_or_read-Atomic user batch none = Atomic-ReadOnly (search database_reads)

  pub transfer_status-Atomic :
      (user : AuthenticatedUser) (req : TransferStatusRequest)
      → Atomic (transfer_status env state user req)
  unfolding transfer_status
  transfer_status-Atomic user req = set_or_read-Atomic user _ _

  pub post_operation-Atomic :
      (cosigner_idx : ℕ) (form : Multipart) → Atomic (post_operation env state cosigner_idx form)
  unfolding post_operation
  post_operation-Atomic c form = Atomic-bind (ReadOnly-check_post_allowed env c) λ _.
      Atomic-bind (ReadOnly-post_form env _ _ _) λ parsed.
        Atomic-bind (ReadOnly-post_validate parsed)
          λ t. Atomic-bind (ReadOnly-now env) (λ time. Atomic-transaction env _)

  pub record_response-Atomic :
      (cosigner_idx : ℕ) (form : Multipart) → Atomic (record_response env state cosigner_idx form)
  unfolding record_response
  record_response-Atomic c form = Atomic-bind (ReadOnly-respond_form env _ _ _) λ parsed.
      Atomic-bind (ReadOnly-respond_validate parsed) λ req.
        Atomic-bind (ReadOnly-check_respond_allowed env c _)
          λ allowed. Atomic-bind_pure (λ _. req.operation_idx) (Atomic-transaction env _)

  -- Whoever makes it, a request to reserve addresses, to mark an operation, to post one, to set a
  -- transfer's status, or to respond up to its commit, changes the tables only if it returns a value:
  -- an error or a panic, at whatever call of the database or the file system, leaves them as they were.
  pub requests-Atomic :
      ((req : BumpAddressIndicesRequest) → Atomic (bump_address_indices env req))
      × ((c i : ℕ) → Atomic (mark_operation_processed env c i))
      × ((c : ℕ) (form : Multipart) → Atomic (post_operation env state c form))
      × ((user : AuthenticatedUser) (req : TransferStatusRequest)
          → Atomic (transfer_status env state user req))
      × ((c : ℕ) (form : Multipart) → Atomic (record_response env state c form))
  requests-Atomic = (
    bump_address_indices-Atomic env,
    mark_operation_processed-Atomic env,
    post_operation-Atomic,
    transfer_status-Atomic,
    record_response-Atomic,
  )

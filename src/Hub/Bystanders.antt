-- ===== src/Hub/Bystanders.antt =====
-- The parts of the requests that touch neither the operations nor the entries of the cosigners: the
-- files, the address indices and the transfers.
use rgb_multisig_hub.Base.{ℕ, Option, List, arith}
use rgb_multisig_hub.Errors.{ApiError_from_db_err}
use rgb_multisig_hub.Operations.{FileType}
use rgb_multisig_hub.World.{
  Env, Db, Operation, CosignerOpStatus, OpFile, NextAddressIndex, TransferStatus,
}
use rgb_multisig_hub.World.Keeps.{Keeps, Keeps-exec}
use rgb_multisig_hub.Database.{set_op_file, update_next_address_index, insert_transfer_status}
use rgb_multisig_hub.Hub.Uploads.{
  save_files-kept_part, save_psbt-kept_part, save_response_psbt-kept_part,
}
use rgb_multisig_hub.Hub.SideTables.{bump_address_indices-kept_part, transfer_status-kept_part}
use rgb_multisig_hub.State.{AppState}
use rgb_multisig_hub.Auth.{AuthenticatedUser}
use rgb_multisig_hub.Routes.Post.Save.{save_files, save_psbt}
use rgb_multisig_hub.Routes.Respond.{save_response_psbt}
use rgb_multisig_hub.Routes.Addresses.{BumpAddressIndicesRequest, bump_address_indices}
use rgb_multisig_hub.Routes.Transfers.{TransferStatusRequest, transfer_status}

abbrev pub votes_part : Db → List Operation × List CosignerOpStatus
votes_part db = (db.operations, db.statuses)

module _ (env : Env) where
  set_op_file-Keeps : (row : ℕ → OpFile) → Keeps votes_part (set_op_file env row)
  unfolding set_op_file
  set_op_file-Keeps row = Keeps-exec env votes_part _ (λ tick db a after e. ground arith)

  update_next_address_index-Keeps :
      (k : ℕ) (f : NextAddressIndex → NextAddressIndex)
      → Keeps votes_part (update_next_address_index env k f)
  unfolding update_next_address_index
  update_next_address_index-Keeps k f =
      Keeps-exec env votes_part _ (λ tick db a after e. ground arith)

  insert_transfer_status-Keeps :
      (row : ℕ → TransferStatus) → Keeps votes_part (insert_transfer_status env row)
  unfolding insert_transfer_status
  insert_transfer_status-Keeps row = Keeps-exec env votes_part _ (λ tick db a after e. ground arith)

  pub bump_address_indices-Keeps :
      (req : BumpAddressIndicesRequest) → Keeps votes_part (bump_address_indices env req)
  bump_address_indices-Keeps =
      bump_address_indices-kept_part votes_part env update_next_address_index-Keeps

module _ (env : Env) (state : AppState) where
  pub save_files-Keeps :
      (i : ℕ) (files : List (FileType × List ℕ)) → Keeps votes_part (save_files env state i files)
  save_files-Keeps = save_files-kept_part votes_part env state (set_op_file-Keeps env)

  pub save_psbt-Keeps :
      (i : ℕ) (psbt : Option (List ℕ)) → Keeps votes_part (save_psbt env state i psbt)
  save_psbt-Keeps = save_psbt-kept_part votes_part env state (set_op_file-Keeps env)

  pub save_response_psbt-Keeps :
      (i : ℕ) (psbt : Option (List ℕ)) → Keeps votes_part (save_response_psbt env state i psbt)
  save_response_psbt-Keeps =
      save_response_psbt-kept_part votes_part env state (set_op_file-Keeps env)

  pub transfer_status-Keeps :
      (user : AuthenticatedUser) (req : TransferStatusRequest)
      → Keeps votes_part (transfer_status env state user req)
  transfer_status-Keeps =
      transfer_status-kept_part votes_part env (insert_transfer_status-Keeps env) state

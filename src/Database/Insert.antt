-- ===== src/Database/Insert.antt =====
-- The methods of src/database/mod.rs that insert rows.
use rgb_multisig_hub.Base.{
  ℕ, String, str_eq, Bool, true, false, ◌||◌, Option, none, some, List, [], ◌∷◌, map, if◌then◌else◌,
}
use rgb_multisig_hub.Errors.{ApiError, AppError, ApiError_from_db_err, AppError_from_db_err}
use rgb_multisig_hub.World.{
  Env, M, exec, query, pure, raise, ◌>>=◌, Config, Cosigner, NextAddressIndex, Operation, OpFile,
  CosignerOpStatus, TransferStatus,
}
use rgb_multisig_hub.Database.Rows.{transfer_is_of, one}

-- The keys of a table.
abbrev pub keys_of {ℓ} : {A : Type ℓ} → (A → ℕ) → List A → List ℕ
keys_of key rows = map key rows

-- Whether a cosigner with that xPub stands in the table, whose column is unique.
abbrev pub has_xpub : String → List Cosigner → Bool
has_xpub xpub [] = false
has_xpub xpub (c ∷ rows) = str_eq c.xpub xpub || has_xpub xpub rows

abbrev pub transfer_row : ℕ → ℕ → ℕ → Bool → ℕ → TransferStatus
transfer_row batch_transfer_idx cosigner_idx registered_at accepted idx = record {
  idx = idx;
  batch_transfer_idx = batch_transfer_idx;
  cosigner_idx = cosigner_idx;
  registered_at = registered_at;
  accepted = accepted;
}

abbrev pub same_bool : Bool → Bool → Bool
same_bool true b = b
same_bool false true = false
same_bool false false = true

module _ (env : Env) where
  unfoldable pub set_config : (ℕ → Config) → M AppError ℕ
  set_config config = exec env λ tick db.
      let idx = env.fresh tick (keys_of (λ r. r.idx) db.configs) in
      some (idx, record db { configs = config idx ∷ db.configs })

  unfoldable pub set_cosigner_op_status : (ℕ → CosignerOpStatus) → M ApiError ℕ
  set_cosigner_op_status status = exec env λ tick db.
      let idx = env.fresh tick (keys_of (λ r. r.idx) db.statuses) in
      some (idx, record db { statuses = status idx ∷ db.statuses })

  -- One statement that inserts every row, or none if an xPub comes twice.
  unfoldable pub insert_cosigners : ℕ → List String → ℕ → List Cosigner → Option (ℕ × List Cosigner)
  insert_cosigners tick [] last rows = some (last, rows)
  insert_cosigners tick (xpub ∷ xpubs) last rows =
      let idx = env.fresh tick (keys_of (λ r. r.idx) rows) in
      let rest = insert_cosigners tick xpubs idx (record { idx = idx; xpub = xpub } ∷ rows) in
      if has_xpub xpub rows then none else rest

  -- The rows of `cosigner::ActiveModel` set the xPub alone.
  unfoldable pub set_cosigners : List String → M AppError ℕ
  unfolding insert_cosigners
  set_cosigners xpubs = exec env λ tick db. elim (insert_cosigners tick xpubs 0 db.cosigners) [
    | none ↦ none
    | some (last, rows) ↦ some (last, record db { cosigners = rows })
  ]

  unfoldable pub set_next_address_index : (ℕ → NextAddressIndex) → M AppError ℕ
  set_next_address_index index = exec env λ tick db.
      let idx = env.fresh tick (keys_of (λ r. r.idx) db.next_address_indices) in
      some (idx, record db { next_address_indices = index idx ∷ db.next_address_indices })

  unfoldable pub set_op_file : (ℕ → OpFile) → M ApiError ℕ
  set_op_file file = exec env λ tick db.
      let idx = env.fresh tick (keys_of (λ r. r.idx) db.op_files) in
      some (idx, record db { op_files = file idx ∷ db.op_files })

  unfoldable pub set_operation : (ℕ → Operation) → M ApiError ℕ
  set_operation operation = exec env λ tick db.
      let idx = env.fresh tick (keys_of (λ r. r.idx) db.operations) in
      some (idx, record db { operations = operation idx ∷ db.operations })

  unfoldable pub insert_transfer_status : (ℕ → TransferStatus) → M ApiError ℕ
  insert_transfer_status status = exec env λ tick db.
      let idx = env.fresh tick (keys_of (λ r. r.idx) db.transfers) in
      some (idx, record db { transfers = status idx ∷ db.transfers })

  unfoldable pub new_transfer_status : ℕ → ℕ → ℕ → Bool → M ApiError TransferStatus
  unfolding insert_transfer_status
  new_transfer_status batch_transfer_idx cosigner_idx registered_at accepted = do
    let row = transfer_row batch_transfer_idx cosigner_idx registered_at accepted
    idx ← insert_transfer_status row
    pure (row idx)

  -- A status that is set already is returned, if it is the same.
  unfoldable pub set_or_keep : ℕ → ℕ → ℕ → Bool → Option TransferStatus → M ApiError TransferStatus
  unfolding new_transfer_status
  set_or_keep batch_transfer_idx cosigner_idx registered_at accepted (some existing) =
      if same_bool existing.accepted accepted
      then pure existing
      else raise ApiError.transfer_status_mismatch
  set_or_keep batch_transfer_idx cosigner_idx registered_at accepted none =
      new_transfer_status batch_transfer_idx cosigner_idx registered_at accepted

  unfoldable pub set_transfer_status : ℕ → ℕ → ℕ → Bool → M ApiError TransferStatus
  unfolding set_or_keep
  set_transfer_status batch_transfer_idx cosigner_idx registered_at accepted = do
    found ← query env (λ tick db. one env tick (transfer_is_of batch_transfer_idx) db.transfers)
    set_or_keep batch_transfer_idx cosigner_idx registered_at accepted found

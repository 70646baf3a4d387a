-- ===== src/World/Tables.antt =====
-- src/database/entities: a row of each table, and the tables. The order of a table's list means
-- nothing: what a query sees goes through `Env.scan`.
use rgb_multisig_hub.Base.{ℕ, String, Bool, Option, List}
use rgb_multisig_hub.Operations.{OperationType, OperationStatus, FileType}

pub record Config : Type 0 where
  pub idx : ℕ
  pub threshold_colored : ℕ
  pub threshold_vanilla : ℕ

pub record Cosigner : Type 0 where
  pub idx : ℕ
  pub xpub : String

pub record NextAddressIndex : Type 0 where
  pub idx : ℕ
  pub internal : ℕ
  pub external : ℕ

pub record Operation : Type 0 where
  pub idx : ℕ
  pub type : OperationType
  pub status : OperationStatus
  pub created_at : ℕ
  pub initiator_idx : ℕ
  pub seed : Option (List ℕ)

pub record OpFile : Type 0 where
  pub idx : ℕ
  pub file_id : String
  pub type : FileType
  pub operation_idx : ℕ

pub record CosignerOpStatus : Type 0 where
  pub idx : ℕ
  pub cosigner_idx : ℕ
  pub operation_idx : ℕ
  pub ack : Option Bool
  pub responded_at : Option ℕ
  pub processed_at : Option ℕ
  pub psbt_op_file_idx : Option ℕ

pub record TransferStatus : Type 0 where
  pub idx : ℕ
  pub batch_transfer_idx : ℕ
  pub cosigner_idx : ℕ
  pub registered_at : ℕ
  pub accepted : Bool

pub record Db : Type 0 where
  pub configs : List Config
  pub cosigners : List Cosigner
  pub next_address_indices : List NextAddressIndex
  pub operations : List Operation
  pub op_files : List OpFile
  pub statuses : List CosignerOpStatus
  pub transfers : List TransferStatus

-- The files directory: a name and its bytes. Temporary files, which are dropped with their
-- handle, are values of the handlers and do not stand here.
pub record World : Type 0 where
  pub db : Db
  pub files : List (String × List ℕ)
  -- how many calls of other libraries have been made
  pub tick : ℕ

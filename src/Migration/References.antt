-- ===== src/Migration/References.antt =====
-- What a foreign key of the migration asks of the rows.
use rgb_multisig_hub.Base.{ℕ, ◌≡◌, ◌⊎◌, String, Bool, Option, none, some, List, map, All, Elem}
use rgb_multisig_hub.Operations.{OperationStatus, FileType}
use rgb_multisig_hub.Operations.Numbers.{number}
use rgb_multisig_hub.World.{Db}
use rgb_multisig_hub.Migration.{Iden, ForeignKey}

-- What stands in a column.
pub data Value : Type 0 where
  int : ℕ → Value
  text : String → Value
  truth : Bool → Value
  bytes : List ℕ → Value

-- The discriminants of src/routes.rs, which the database stores.
abbrev pub status_number : OperationStatus → ℕ
status_number OperationStatus.pending = 1
status_number OperationStatus.approved = 2
status_number OperationStatus.discarded = 3

abbrev pub file_type_number : FileType → ℕ
file_type_number FileType.consignment = 1
file_type_number FileType.media = 2
file_type_number FileType.operation_data = 3
file_type_number FileType.operation_psbt = 4
file_type_number FileType.response_psbt = 5
file_type_number FileType.fascia = 6

abbrev pub option_int : Option ℕ → Option Value
option_int none = none
option_int (some n) = some (int n)

abbrev option_truth : Option Bool → Option Value
option_truth none = none
option_truth (some b) = some (truth b)

abbrev option_bytes : Option (List ℕ) → Option Value
option_bytes none = none
option_bytes (some b) = some (bytes b)

-- The values of a column, row by row; a null is none.
abbrev pub values : Iden → Db → List (Option Value)
values Iden.config_idx db = map (λ r. some (int r.idx)) db.configs
values Iden.config_threshold_colored db = map (λ r. some (int r.threshold_colored)) db.configs
values Iden.config_threshold_vanilla db = map (λ r. some (int r.threshold_vanilla)) db.configs
values Iden.index_idx db = map (λ r. some (int r.idx)) db.next_address_indices
values Iden.index_internal db = map (λ r. some (int r.internal)) db.next_address_indices
values Iden.index_external db = map (λ r. some (int r.external)) db.next_address_indices
values Iden.cosigner_idx db = map (λ r. some (int r.idx)) db.cosigners
values Iden.cosigner_xpub db = map (λ r. some (text r.xpub)) db.cosigners
values Iden.operation_idx db = map (λ r. some (int r.idx)) db.operations
values Iden.operation_type db = map (λ r. some (int (number r.type))) db.operations
values Iden.operation_status db = map (λ r. some (int (status_number r.status))) db.operations
values Iden.operation_created_at db = map (λ r. some (int r.created_at)) db.operations
values Iden.operation_initiator_idx db = map (λ r. some (int r.initiator_idx)) db.operations
values Iden.operation_seed db = map (λ r. option_bytes r.seed) db.operations
values Iden.file_idx db = map (λ r. some (int r.idx)) db.op_files
values Iden.file_file_id db = map (λ r. some (text r.file_id)) db.op_files
values Iden.file_type db = map (λ r. some (int (file_type_number r.type))) db.op_files
values Iden.file_operation_idx db = map (λ r. some (int r.operation_idx)) db.op_files
values Iden.status_idx db = map (λ r. some (int r.idx)) db.statuses
values Iden.status_cosigner_idx db = map (λ r. some (int r.cosigner_idx)) db.statuses
values Iden.status_operation_idx db = map (λ r. some (int r.operation_idx)) db.statuses
values Iden.status_ack db = map (λ r. option_truth r.ack) db.statuses
values Iden.status_responded_at db = map (λ r. option_int r.responded_at) db.statuses
values Iden.status_processed_at db = map (λ r. option_int r.processed_at) db.statuses
values Iden.status_psbt_op_file_idx db = map (λ r. option_int r.psbt_op_file_idx) db.statuses
values Iden.transfer_idx db = map (λ r. some (int r.idx)) db.transfers
values Iden.transfer_batch_transfer_idx db = map (λ r. some (int r.batch_transfer_idx)) db.transfers
values Iden.transfer_cosigner_idx db = map (λ r. some (int r.cosigner_idx)) db.transfers
values Iden.transfer_registered_at db = map (λ r. some (int r.registered_at)) db.transfers
values Iden.transfer_accepted db = map (λ r. some (truth r.accepted)) db.transfers

-- Every value of the column that is not null is one of the column that the key names.
abbrev pub Refers : ForeignKey → Db → Type 0
Refers key db = All (λ v. (v ≡ none) ⊎ Elem v (values key.to db)) (values key.from db)

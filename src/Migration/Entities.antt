-- ===== src/Migration/Entities.antt =====
-- What the entities in src/database/entities say of their tables: the columns, and the rows of other
-- tables to which a row belongs.
use rgb_multisig_hub.Base.{ℕ, Bool, true, false, List, [], ◌∷◌}
use rgb_multisig_hub.Migration.{Table, Iden}

-- `ColumnType`.
pub data ColumnType : Type 0 where
  integer small_integer big_integer boolean string : ColumnType
  binary : ℕ → ColumnType

pub record ColumnDef : Type 0 where
  pub iden : Iden
  pub type : ColumnType
  pub null : Bool
  pub unique : Bool

abbrev column : Iden → ColumnType → ColumnDef
column iden type = record { iden = iden; type = type; null = false; unique = false }

abbrev null_column : Iden → ColumnType → ColumnDef
null_column iden type = record { iden = iden; type = type; null = true; unique = false }

abbrev unique_column : Iden → ColumnType → ColumnDef
unique_column iden type = record { iden = iden; type = type; null = false; unique = true }

-- A `belongs_to` relation: a column, and the table and the column that it names a row by.
pub record BelongsTo : Type 0 where
  pub from : Iden
  pub to_table : Table
  pub to : Iden

abbrev pub config_columns : List ColumnDef
config_columns =
    column Iden.config_idx integer
    ∷ column Iden.config_threshold_colored small_integer
    ∷ column Iden.config_threshold_vanilla small_integer
    ∷ []

abbrev pub next_address_index_columns : List ColumnDef
next_address_index_columns =
    column Iden.index_idx integer
    ∷ column Iden.index_internal big_integer
    ∷ column Iden.index_external big_integer
    ∷ []

abbrev pub cosigner_columns : List ColumnDef
cosigner_columns = column Iden.cosigner_idx integer ∷ unique_column Iden.cosigner_xpub string ∷ []

abbrev pub operation_columns : List ColumnDef
operation_columns =
    column Iden.operation_idx integer
    ∷ column Iden.operation_type small_integer
    ∷ column Iden.operation_status small_integer
    ∷ column Iden.operation_created_at big_integer
    ∷ column Iden.operation_initiator_idx integer
    ∷ null_column Iden.operation_seed (binary 32)
    ∷ []

abbrev pub op_file_columns : List ColumnDef
op_file_columns =
    column Iden.file_idx integer
    ∷ column Iden.file_file_id string
    ∷ column Iden.file_type small_integer
    ∷ column Iden.file_operation_idx integer
    ∷ []

abbrev pub cosigner_op_status_columns : List ColumnDef
cosigner_op_status_columns =
    column Iden.status_idx integer
    ∷ column Iden.status_cosigner_idx integer
    ∷ column Iden.status_operation_idx integer
    ∷ null_column Iden.status_ack boolean
    ∷ null_column Iden.status_responded_at big_integer
    ∷ null_column Iden.status_processed_at big_integer
    ∷ null_column Iden.status_psbt_op_file_idx integer
    ∷ []

abbrev pub transfer_status_columns : List ColumnDef
transfer_status_columns =
    column Iden.transfer_idx integer
    ∷ unique_column Iden.transfer_batch_transfer_idx integer
    ∷ column Iden.transfer_cosigner_idx integer
    ∷ column Iden.transfer_registered_at big_integer
    ∷ column Iden.transfer_accepted boolean
    ∷ []

-- The entity of a table.
abbrev pub columns_of : Table → List ColumnDef
columns_of Table.config = config_columns
columns_of Table.next_address_index = next_address_index_columns
columns_of Table.cosigner = cosigner_columns
columns_of Table.operation = operation_columns
columns_of Table.op_file = op_file_columns
columns_of Table.cosigner_op_status = cosigner_op_status_columns
columns_of Table.transfer_status = transfer_status_columns

abbrev belongs : Iden → Table → Iden → BelongsTo
belongs from table to = record { from = from; to_table = table; to = to }

abbrev pub operation_relations : List BelongsTo
operation_relations = belongs Iden.operation_initiator_idx Table.cosigner Iden.cosigner_idx ∷ []

abbrev pub op_file_relations : List BelongsTo
op_file_relations = belongs Iden.file_operation_idx Table.operation Iden.operation_idx ∷ []

abbrev pub cosigner_op_status_relations : List BelongsTo
cosigner_op_status_relations =
    belongs Iden.status_cosigner_idx Table.cosigner Iden.cosigner_idx
    ∷ belongs Iden.status_psbt_op_file_idx Table.op_file Iden.file_idx
    ∷ belongs Iden.status_operation_idx Table.operation Iden.operation_idx
    ∷ []

abbrev pub transfer_status_relations : List BelongsTo
transfer_status_relations = belongs Iden.transfer_cosigner_idx Table.cosigner Iden.cosigner_idx ∷ []

abbrev pub relations_of : Table → List BelongsTo
relations_of Table.config = []
relations_of Table.next_address_index = []
relations_of Table.cosigner = []
relations_of Table.operation = operation_relations
relations_of Table.op_file = op_file_relations
relations_of Table.cosigner_op_status = cosigner_op_status_relations
relations_of Table.transfer_status = transfer_status_relations

-- ===== src/Migration.antt =====
-- migration/src/m20251201_150154_init_db.rs: the tables of the database with their columns, keys and
-- indexes, as the steps that make them and that take them away.
pub mod Entities
pub mod References
use rgb_multisig_hub.Base.{ℕ, String, Bool, true, List, [], ◌∷◌, ◌++◌}

pub data Table : Type 0 where
  config next_address_index cosigner operation op_file cosigner_op_status transfer_status : Table

-- The column of a table, named after both.
pub data Iden : Type 0 where
  config_idx config_threshold_colored config_threshold_vanilla : Iden
  index_idx index_internal index_external : Iden
  cosigner_idx cosigner_xpub : Iden
  operation_idx operation_type operation_status operation_created_at operation_initiator_idx
        operation_seed :
      Iden
  file_idx file_file_id file_type file_operation_idx : Iden
  status_idx status_cosigner_idx status_operation_idx status_ack status_responded_at
        status_processed_at status_psbt_op_file_idx :
      Iden
  transfer_idx transfer_batch_transfer_idx transfer_cosigner_idx transfer_registered_at
        transfer_accepted :
      Iden

-- The helpers of `sea_orm_migration::schema` that say what a column holds.
pub data Kind : Type 0 where
  pk_auto tiny_unsigned big_unsigned big_unsigned_null big_integer : Kind
  integer integer_null integer_uniq string string_uniq boolean boolean_null : Kind
  binary_len_null : ℕ → Kind

pub record ForeignKey : Type 0 where
  pub name : String
  pub from : Iden
  pub to_table : Table
  pub to : Iden

-- Each key restricts both deletes and updates.
pub record TableCreate : Type 0 where
  pub table : Table
  pub if_not_exists : Bool
  pub cols : List (Iden × Kind)
  pub foreign_keys : List ForeignKey

pub record IndexCreate : Type 0 where
  pub name : String
  pub table : Table
  pub cols : List Iden

pub data Step : Type 0 where
  create_table : TableCreate → Step
  create_index : IndexCreate → Step
  drop_table : Table → Step

abbrev pub config_table : TableCreate
config_table = record {
  table = Table.config;
  if_not_exists = true;
  cols =
      (config_idx, pk_auto)
      ∷ (config_threshold_colored, tiny_unsigned)
      ∷ (config_threshold_vanilla, tiny_unsigned)
      ∷ [];
  foreign_keys = [];
}

abbrev pub next_address_index_table : TableCreate
next_address_index_table = record {
  table = Table.next_address_index;
  if_not_exists = true;
  cols =
      (index_idx, pk_auto) ∷ (index_internal, big_unsigned) ∷ (index_external, big_unsigned) ∷ [];
  foreign_keys = [];
}

abbrev pub cosigner_table : TableCreate
cosigner_table = record {
  table = Table.cosigner;
  if_not_exists = true;
  cols = (cosigner_idx, pk_auto) ∷ (cosigner_xpub, string_uniq) ∷ [];
  foreign_keys = [];
}

abbrev pub operation_table : TableCreate
operation_table = record {
  table = Table.operation;
  if_not_exists = true;
  cols =
      (operation_idx, pk_auto)
      ∷ (operation_type, tiny_unsigned)
      ∷ (operation_status, tiny_unsigned)
      ∷ (operation_created_at, big_unsigned)
      ∷ (operation_initiator_idx, integer)
      ∷ (operation_seed, binary_len_null 32)
      ∷ [];
  foreign_keys =
      record {
        name = "fk-operation-initiatoridx";
        from = operation_initiator_idx;
        to_table = Table.cosigner;
        to = cosigner_idx;
      }
      ∷ [];
}

abbrev pub op_file_table : TableCreate
op_file_table = record {
  table = Table.op_file;
  if_not_exists = true;
  cols =
      (file_idx, pk_auto)
      ∷ (file_file_id, string)
      ∷ (file_type, tiny_unsigned)
      ∷ (file_operation_idx, integer)
      ∷ [];
  foreign_keys =
      record {
        name = "fk-opfile-operationidx";
        from = file_operation_idx;
        to_table = Table.operation;
        to = operation_idx;
      }
      ∷ [];
}

abbrev pub cosigner_op_status_table : TableCreate
cosigner_op_status_table = record {
  table = Table.cosigner_op_status;
  if_not_exists = true;
  cols =
      (status_idx, pk_auto)
      ∷ (status_cosigner_idx, integer)
      ∷ (status_operation_idx, integer)
      ∷ (status_ack, boolean_null)
      ∷ (status_responded_at, big_unsigned_null)
      ∷ (status_processed_at, big_unsigned_null)
      ∷ (status_psbt_op_file_idx, integer_null)
      ∷ [];
  foreign_keys =
      record {
        name = "fk-cosigneropstatus-psbtopfileidx";
        from = status_psbt_op_file_idx;
        to_table = Table.op_file;
        to = file_idx;
      }
      ∷ record {
        name = "fk-cosigneropstatus-cosigneridx";
        from = status_cosigner_idx;
        to_table = Table.cosigner;
        to = cosigner_idx;
      }
      ∷ record {
        name = "fk-cosigneropstatus-operationidx";
        from = status_operation_idx;
        to_table = Table.operation;
        to = operation_idx;
      }
      ∷ [];
}

abbrev pub transfer_status_table : TableCreate
transfer_status_table = record {
  table = Table.transfer_status;
  if_not_exists = true;
  cols =
      (transfer_idx, pk_auto)
      ∷ (transfer_batch_transfer_idx, integer_uniq)
      ∷ (transfer_cosigner_idx, integer)
      ∷ (transfer_registered_at, big_integer)
      ∷ (transfer_accepted, boolean)
      ∷ [];
  foreign_keys =
      record {
        name = "fk-transferstatus-cosigneridx";
        from = transfer_cosigner_idx;
        to_table = Table.cosigner;
        to = cosigner_idx;
      }
      ∷ [];
}

abbrev index_of : String → Table → List Iden → Step
index_of name table cols = create_index (record { name = name; table = table; cols = cols })

abbrev pub up : List Step
up =
    create_table config_table
    ∷ create_table next_address_index_table
    ∷ create_table cosigner_table
    ∷ create_table operation_table
    ∷ index_of "idx-operation-status" Table.operation (operation_status ∷ [])
    ∷ create_table op_file_table
    ∷ index_of "idx-opfile-operationidx" Table.op_file (file_operation_idx ∷ [])
    ∷ create_table cosigner_op_status_table
    ∷ index_of "idx-cosigneropstatus-cosigneridx-operationidx" Table.cosigner_op_status
        (status_cosigner_idx ∷ status_operation_idx ∷ [])
    ∷ index_of "idx-cosigneropstatus-operationidx" Table.cosigner_op_status
        (status_operation_idx ∷ [])
    ∷ index_of "idx-cosigneropstatus-cosigneridx-processedat" Table.cosigner_op_status
        (status_cosigner_idx ∷ status_processed_at ∷ [])
    ∷ create_table transfer_status_table
    ∷ []

abbrev pub down : List Step
down =
    drop_table Table.transfer_status
    ∷ drop_table Table.cosigner_op_status
    ∷ drop_table Table.op_file
    ∷ drop_table Table.operation
    ∷ drop_table Table.cosigner
    ∷ drop_table Table.next_address_index
    ∷ drop_table Table.config
    ∷ []

-- The foreign keys of the tables that steps create.
abbrev pub foreign_keys_of : List Step → List ForeignKey
foreign_keys_of [] = []
foreign_keys_of (create_table t ∷ steps) = t.foreign_keys ++ foreign_keys_of steps
foreign_keys_of (create_index i ∷ steps) = foreign_keys_of steps
foreign_keys_of (drop_table t ∷ steps) = foreign_keys_of steps

-- ===== src/Operations.antt =====
-- The enums of src/routes.rs that describe operations, their conversion from a byte, and the
-- threshold of src/utils.rs that applies to each type.
pub mod Numbers
use rgb_multisig_hub.Base.{ℕ, Bool, true, false, Option, none, some, ◌==◌, if◌then◌else◌}

pub data FileType : Type 0 where
  consignment media operation_data operation_psbt response_psbt fascia : FileType

pub data OperationStatus : Type 0 where
  pending approved discarded : OperationStatus

pub data OperationType : Type 0 where
  create_utxos issuance send_rgb send_btc inflation blind_receive witness_receive burn :
      OperationType

-- `none` stands for `Err(APIError::InvalidOperationType(value))`.
unfoldable pub try_from : ℕ → Option OperationType
try_from value =
    if value == 1
    then some create_utxos
    else if value == 2
    then some issuance
    else if value == 3
    then some send_rgb
    else if value == 4
    then some send_btc
    else if value == 5
    then some inflation
    else if value == 6
    then some blind_receive
    else if value == 7
    then some witness_receive
    else if value == 8
    then some burn
    else none

abbrev pub is_pending : OperationStatus → Bool
is_pending pending = true
is_pending _ = false

abbrev pub is_operation_psbt : FileType → Bool
is_operation_psbt operation_psbt = true
is_operation_psbt _ = false

-- `AUTO_APPROVED_OPS.contains`
unfoldable pub is_auto_approved : OperationType → Bool
is_auto_approved issuance = true
is_auto_approved blind_receive = true
is_auto_approved witness_receive = true
is_auto_approved _ = false

-- `OPERATION_TYPES_THAT_REQUIRE_SEED.contains`
unfoldable pub requires_seed : OperationType → Bool
requires_seed send_rgb = true
requires_seed blind_receive = true
requires_seed witness_receive = true
requires_seed _ = false

unfoldable pub get_threshold_for_operation : OperationType → ℕ → ℕ → Option ℕ
get_threshold_for_operation create_utxos vanilla colored = some vanilla
get_threshold_for_operation send_btc vanilla colored = some vanilla
get_threshold_for_operation send_rgb vanilla colored = some colored
get_threshold_for_operation inflation vanilla colored = some colored
get_threshold_for_operation burn vanilla colored = some colored
get_threshold_for_operation issuance vanilla colored = none
get_threshold_for_operation blind_receive vanilla colored = none
get_threshold_for_operation witness_receive vanilla colored = none

-- ===== src/Errors.antt =====
-- src/error.rs: the errors of the APIs, of the startup and of the authentication, and the HTTP
-- responses that they become.
pub mod Response
pub mod Rendering
use rgb_multisig_hub.Base.{ℕ, String}

-- A payload that comes from another library (a database or an IO error) is its text.
pub data ApiError : Type 0 where
  cannot_mark_operation_processed : String → ApiError
  cannot_post_new_operation : String → ApiError
  cannot_respond_to_operation : String → ApiError
  database : String → ApiError
  file_not_found : ApiError
  forbidden : ApiError
  invalid_count : ApiError
  invalid_operation_type : ℕ → ApiError
  invalid_request : String → ApiError
  io : String → ApiError
  operation_not_found : ApiError
  transfer_status_mismatch : ApiError
  unexpected : String → ApiError

pub data AppError : Type 0 where
  cannot_change_cosigners : AppError
  config : String → AppError
  database : String → AppError
  inconsistent_state : String → AppError
  invalid_cosigner_number : ℕ → AppError
  invalid_rgb_lib_version : String → AppError
  invalid_root_key : AppError
  invalid_threshold : String → AppError
  io : String → AppError
  missing_config_file : String → AppError
  unavailable_port : ℕ → AppError

pub data AuthError : Type 0 where
  unauthorized forbidden : AuthError

-- `E: From<sea_orm::DbErr>`: the errors that a failed database call can become.
pub record FromDbErr (E : Type 0) : Type 0 where
  pub from_db_err : String → E

instance abbrev pub ApiError_from_db_err : FromDbErr ApiError
ApiError_from_db_err = record { from_db_err = ApiError.database }

instance abbrev pub AppError_from_db_err : FromDbErr AppError
AppError_from_db_err = record { from_db_err = AppError.database }

-- `StatusCode`.
unfoldable pub status_code : ApiError → ℕ
status_code (ApiError.database _) = 500
status_code (ApiError.io _) = 500
status_code (ApiError.unexpected _) = 500
status_code ApiError.file_not_found = 400
status_code ApiError.invalid_count = 400
status_code (ApiError.invalid_operation_type _) = 400
status_code (ApiError.invalid_request _) = 400
status_code ApiError.operation_not_found = 400
status_code ApiError.transfer_status_mismatch = 400
status_code (ApiError.cannot_mark_operation_processed _) = 403
status_code (ApiError.cannot_post_new_operation _) = 403
status_code (ApiError.cannot_respond_to_operation _) = 403
status_code ApiError.forbidden = 403

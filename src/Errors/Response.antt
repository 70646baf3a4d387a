-- ===== src/Errors/Response.antt =====
-- The response that an error of src/error.rs becomes: its status, its text and its name.
use Prim.Native.Char.{code}
use Prim.Native.String.{◌++◌ as append}
use rgb_multisig_hub.Base.{ℕ, String, ◌&&◌, ◌==◌, if◌then◌else◌, head?, get_or, true, false, Bool}
use rgb_multisig_hub.Text.{split, replace, decimal}
use rgb_multisig_hub.Errors.{ApiError, AuthError, unauthorized, forbidden, status_code}

pub record ApiErrorResponse : Type 0 where
  pub error : String
  pub code : ℕ
  pub name : String

-- `#[error(...)]`
unfoldable pub to_string : ApiError → String
unfolding decimal
to_string (ApiError.cannot_mark_operation_processed e) =
    append "Cannot mark operation as processed: " e
to_string (ApiError.cannot_post_new_operation e) = append "Cannot post new operation: " e
to_string (ApiError.cannot_respond_to_operation e) = append "Cannot respond to operation: " e
to_string (ApiError.database e) = append "Database error: " e
to_string ApiError.file_not_found = "File not found"
to_string ApiError.forbidden = "Forbidden"
to_string ApiError.invalid_count = "Invalid count: must be greater than 0"
to_string (ApiError.invalid_operation_type n) = append "Invalid operation type: " (decimal n)
to_string (ApiError.invalid_request e) = append "Invalid request: " e
to_string (ApiError.io e) = append "IO error: " e
to_string ApiError.operation_not_found = "Operation not found"
to_string ApiError.transfer_status_mismatch = "Transfer status already set to a different value"
to_string (ApiError.unexpected e) = append "Unexpected error: " e

-- The name of the variant and, for one that has a payload, `true`.
unfoldable pub variant : ApiError → String × Bool
variant (ApiError.cannot_mark_operation_processed e) = ("CannotMarkOperationProcessed", true)
variant (ApiError.cannot_post_new_operation e) = ("CannotPostNewOperation", true)
variant (ApiError.cannot_respond_to_operation e) = ("CannotRespondToOperation", true)
variant (ApiError.database e) = ("Database", true)
variant ApiError.file_not_found = ("FileNotFound", false)
variant ApiError.forbidden = ("Forbidden", false)
variant ApiError.invalid_count = ("InvalidCount", false)
variant (ApiError.invalid_operation_type n) = ("InvalidOperationType", true)
variant (ApiError.invalid_request e) = ("InvalidRequest", true)
variant (ApiError.io e) = ("IO", true)
variant ApiError.operation_not_found = ("OperationNotFound", false)
variant ApiError.transfer_status_mismatch = ("TransferStatusMismatch", false)
variant (ApiError.unexpected e) = ("Unexpected", true)

-- `text.split(sep).next().unwrap()`
abbrev pub first_part : ℕ → String → String
first_part sep text = get_or (head? (split sep text)) String.[]

-- `text.split(" {").next().unwrap()`: the text before a space that a brace follows.
unfoldable pub before_brace : String → String
before_brace String.[] = String.[]
before_brace (String.◌∷◌ c String.[]) = String.◌∷◌ c String.[]
before_brace (String.◌∷◌ c (String.◌∷◌ d s)) =
    let rest = before_brace (String.◌∷◌ d s) in
    if code c == 32 && code d == 123 then String.[] else String.◌∷◌ c rest

-- The `Debug` of the payload of an error is the parameter.
module _ (debug_payload : ApiError → String) where
  -- The derived `Debug`.
  unfoldable pub debug : ApiError → String
  unfolding variant
  debug e =
      if (variant e).1
      then append (variant e).0 (append "(" (append (debug_payload e) ")"))
      else (variant e).0

  unfoldable pub name : ApiError → String
  unfolding debug split before_brace
  name e = before_brace (first_part 40 (debug e))

  unfoldable pub into_response : ApiError → ℕ × ApiErrorResponse
  unfolding name to_string replace status_code
  into_response e = (
    status_code e,
    record { error = replace 10 " " (to_string e); code = status_code e; name = name e },
  )

unfoldable pub AuthError_into_response : AuthError → ℕ × ApiErrorResponse
AuthError_into_response unauthorized =
    (401, record { error = "Missing or invalid credentials"; code = 401; name = "Unauthorized" })
AuthError_into_response forbidden = (
  403,
  record { error = "You don't have access to this resource"; code = 403; name = "Forbidden" },
)

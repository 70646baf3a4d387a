-- ===== src/Routes/Post/Form.antt =====
-- The form of `post_operation`: its fields, and what makes it a valid request.
use Prim.Native.String.{◌++◌ as append}
use text.Mathlib.Text.{starts_with}
use rgb_multisig_hub.Base.{
  ℕ, String, str_eq, Bool, true, false, not, ◌&&◌, Option, none, some, List, [], ◌∷◌, ◌++◌, ◌==◌,
  if◌then◌else◌, is_some, is_empty, head?, length,
}
use rgb_multisig_hub.Errors.{ApiError}
use rgb_multisig_hub.Operations.{
  FileType, consignment, media, operation_data, operation_psbt, fascia, OperationType, try_from,
  is_operation_psbt, requires_seed,
}
use rgb_multisig_hub.World.{Env, M, pure, raise, raise_if, ok_or, expect, ◌>>=◌, ◌>>◌}
use rgb_multisig_hub.Multipart.{Field, field_name, field_bytes, field_text, receive_file}

-- What the loop over the fields has collected.
pub record PostForm : Type 0 where
  pub operation_type : Option OperationType
  pub seed : Option (List ℕ)
  pub files : List (FileType × List ℕ)
  pub psbt_file : Option (List ℕ)

abbrev pub empty_form : PostForm
empty_form = record { operation_type = none; seed = none; files = []; psbt_file = none }

-- The type of a file by the name of its field, which begins with `file_`.
unfoldable pub file_type_of : String → Option FileType
file_type_of name =
    if str_eq name "file_psbt"
    then some operation_psbt
    else if str_eq name "file_operation_data"
    then some operation_data
    else if str_eq name "file_fascia"
    then some fascia
    else if str_eq name "file_media"
    then some media
    else if str_eq name "file_consignment"
    then some consignment
    else none

-- `Err(APIError::InvalidRequest(format!("{before}'{name}'")))`
abbrev pub invalid_name : String → String → ApiError
invalid_name before name = ApiError.invalid_request (append before (append "'" (append name "'")))

-- A file goes to the PSBT, of which there may be one, or to the end of the others.
unfoldable pub add_file : FileType → List ℕ → PostForm → M ApiError PostForm
add_file file_type content form =
    if is_operation_psbt file_type
    then (do
      raise_if (is_some form.psbt_file) (ApiError.invalid_request "more than one PSBT provided")
      pure (record form { psbt_file = some content }))
    else pure (record form { files = form.files ++ (file_type, content) ∷ [] })

module _ (env : Env) where
  unfoldable pub read_operation_type : Field → PostForm → M ApiError PostForm
  unfolding try_from
  read_operation_type field form = do
    op_type ← field_bytes field
    value ← expect (head? op_type) "index out of bounds"
    operation_type ← ok_or (try_from value) (ApiError.invalid_operation_type value)
    pure (record form { operation_type = some operation_type })

  unfoldable pub read_seed : Field → PostForm → M ApiError PostForm
  read_seed field form = do
    seed_hex ← field_text env field
    raise_if (not (length seed_hex == 64)) (ApiError.invalid_request "seed must be 64 hex chars")
    seed_bytes ← ok_or (env.hex_decode seed_hex) (ApiError.invalid_request "seed must be valid hex")
    pure (record form { seed = some seed_bytes })

  unfoldable pub read_file_field : Field → PostForm → M ApiError PostForm
  unfolding file_type_of add_file
  read_file_field field form = do
    let name = field_name field
    file_type ← ok_or (file_type_of name) (invalid_name "invalid file type " name)
    content ← receive_file env (append "empty file " name) field
    add_file file_type content form

  unfoldable pub read_field : Field → PostForm → M ApiError PostForm
  unfolding read_operation_type read_seed read_file_field
  read_field field form =
      let name = field_name field in
      if str_eq name "operation_type"
      then read_operation_type field form
      else if str_eq name "seed"
      then read_seed field form
      else if starts_with name "file_"
      then read_file_field field form
      else raise (invalid_name "unexpected field " name)

  -- The loop over the fields; `broken` tells whether the field after the last one can be parsed.
  unfoldable pub read_form : List Field → Bool → PostForm → M ApiError PostForm
  unfolding read_field
  read_form [] broken form = do
    raise_if broken (ApiError.invalid_request "failed to parse multipart")
    pure form
  read_form (field ∷ fields) broken form = do
    next ← read_field field form
    read_form fields broken next

-- Whether the seed is there just if the type requires one.
unfoldable pub check_seed : Bool → Option (List ℕ) → M ApiError (Unit {0})
check_seed true none = raise (ApiError.invalid_request "seed not provided")
check_seed false (some _) = raise (ApiError.invalid_request "seed not allowed for operation type")
check_seed true (some _) = pure tt
check_seed false none = pure tt

-- The checks on the whole form, which yield the type.
unfoldable pub validate_form : PostForm → M ApiError OperationType
unfolding check_seed requires_seed
validate_form form = do
  raise_if (is_empty form.files && not (is_some form.psbt_file))
      (ApiError.invalid_request "no files nor PSBT provided")
  operation_type ←
      ok_or form.operation_type (ApiError.invalid_request "operation type not provided")
  check_seed (requires_seed operation_type) form.seed
  pure operation_type

-- ===== src/Multipart.antt =====
-- A multipart form as `axum::extract::Multipart` yields it, and what src/routes.rs does with a field
-- of any form: its bytes, its text, or a temporary file.
pub mod Reads
use Prim.Native.String.{◌++◌ as append}
use rgb_multisig_hub.Base.{
  ℕ, ◌+◌, String, Bool, true, false, Option, none, some, List, [], ◌∷◌, ◌++◌, ◌==◌, get_or, length,
}
use rgb_multisig_hub.Errors.{ApiError}
use rgb_multisig_hub.World.{Env, World, M, pure, raise, raise_if, ◌>>=◌, ◌>>◌}
use rgb_multisig_hub.Files.{io_call}

-- A field comes in chunks; reading it ends well, or with the error's text.
pub record Field : Type 0 where
  pub name : Option String
  pub chunks : List (List ℕ)
  pub read_error : Option String

-- The fields, and whether the next one cannot be parsed.
pub record Multipart : Type 0 where
  pub fields : List Field
  pub broken : Bool

-- `field.name().unwrap_or("")`
abbrev pub field_name : Field → String
field_name field = get_or field.name ""

abbrev pub concat : List (List ℕ) → List ℕ
concat [] = []
concat (chunk ∷ chunks) = chunk ++ concat chunks

abbrev pub when_read : {A : Type 0} → Option String → String → A → M ApiError A
when_read none doing a = pure a
when_read (some e) doing a = raise (ApiError.invalid_request (append doing e))

-- `field.bytes()`
unfoldable pub field_bytes : Field → M ApiError (List ℕ)
field_bytes field = when_read field.read_error "failed to read field: " (concat field.chunks)

module _ (env : Env) where
  -- `field.text()`
  unfoldable pub field_text : Field → M ApiError (List ℕ)
  field_text field =
      when_read field.read_error "failed to read field: " (env.decode_text (concat field.chunks))

  -- The loop that writes the chunks to a temporary file, with the file and its size so far.
  unfoldable pub write_chunks : List (List ℕ) → Option String → List ℕ → ℕ → M ApiError (List ℕ × ℕ)
  write_chunks [] read_error written file_size =
      when_read read_error "failed to read chunk: " (written, file_size)
  write_chunks (chunk ∷ chunks) read_error written file_size = do
    io_call env
    write_chunks chunks read_error (written ++ chunk) (file_size + length chunk)

  -- The temporary file with the content of a field: create, reopen, write, flush. `empty` is the
  -- message for a file without content.
  unfoldable pub receive_file : String → Field → M ApiError (List ℕ)
  unfolding write_chunks
  receive_file empty field = do
    io_call env
    io_call env
    received ← write_chunks field.chunks field.read_error [] 0
    io_call env
    raise_if (received.1 == 0) (ApiError.invalid_request empty)
    pure received.0

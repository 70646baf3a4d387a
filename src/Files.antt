-- ===== src/Files.antt =====
-- The files of the hub: `compute_file_id` and `persist_temp_file` of src/utils.rs, the paths that the
-- handlers build, and the upload of a file that src/routes.rs has in two handlers.
pub mod Identity
pub mod Reads
use Prim.Native.String.{◌++◌ as append}
use text.Mathlib.Text.{starts_with}
use rgb_multisig_hub.Base.{
  ℕ, zero, suc, ◌+◌, String, str_eq, Bool, true, false, Option, none, some, List, [], ◌∷◌, ◌++◌,
  if◌then◌else◌, is_some, is_empty, length, take, drop,
}
use rgb_multisig_hub.Errors.{ApiError}
use rgb_multisig_hub.World.{Env, World, M, pure, ok, panic, ◌>>=◌, ◌>>◌, io_step}

-- The bytes of a file, by its path.
unfoldable pub read_file : String → List (String × List ℕ) → Option (List ℕ)
read_file path [] = none
read_file path ((p, content) ∷ files) = if str_eq p path then some content else read_file path files

-- `Path::join`: an absolute path takes the place of the base.
unfoldable pub join : String → String → String
join base path = if starts_with path "/" then path else append base (append "/" path)

-- `path.exists()`
unfoldable pub exists : String → M ApiError Bool
unfolding read_file
exists path w = (ok (is_some (read_file path w.files)), w)

abbrev pub same_files : List (String × List ℕ) → List (String × List ℕ)
same_files files = files

module _ (env : Env) where
  -- A call whose error `?` converts to `APIError::IO`.
  abbrev pub io_call : M ApiError (Unit {0})
  io_call = io_step env ApiError.io same_files

  -- The loop of `compute_file_id`. The fuel counts the reads; each takes a byte or more.
  unfoldable pub hash_blocks : ℕ → List ℕ → env.Hasher → M ApiError env.Hasher
  hash_blocks zero rest hasher w = (panic "out of fuel", w)
  hash_blocks (suc fuel) rest hasher w =
      let n = env.read_len w.tick in
      let again = hash_blocks fuel (drop n rest) (env.update_hasher hasher (take n rest)) in
      (io_call >> (if is_empty rest then pure hasher else again)) w

  -- `path` is that of a temporary file, of which only the content counts.
  unfoldable pub compute_file_id : List ℕ → M ApiError String
  unfolding hash_blocks
  compute_file_id content = do
    io_call
    hasher ← hash_blocks (suc (length content)) content env.new_hasher
    pure (env.hex_encode (env.finalize hasher))

  -- The rename comes first: a later failure leaves the file in place.
  unfoldable pub persist_temp_file : List ℕ → String → M ApiError (Unit {0})
  persist_temp_file content file_path = do
    io_step env (λ e. ApiError.unexpected (append "failed to persist file: " e))
        (λ files. (file_path, content) ∷ files)
    io_step env (λ e. ApiError.unexpected (append "failed to sync file: " e)) same_files
    io_step env (λ e. ApiError.unexpected (append "failed to open directory: " e)) same_files
    io_call

  -- A file is stored under the hash of its content, unless a file of that name is there.
  unfoldable pub store_file : String → List ℕ → M ApiError String
  unfolding exists join compute_file_id persist_temp_file
  store_file files_dir content = do
    file_id ← compute_file_id content
    let file_path = join files_dir file_id
    present ← exists file_path
    if present then pure file_id else (persist_temp_file content file_path >> pure file_id)

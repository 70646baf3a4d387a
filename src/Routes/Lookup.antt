-- ===== src/Routes/Lookup.antt =====
-- The requests of src/routes.rs that read: `get_operation_by_idx` with its method of `AppState`,
-- `get_file` and `info`.
use rgb_multisig_hub.Base.{
  ℕ, String, str_eq, Bool, true, false, ◌||◌, Option, none, some, List, [], ◌∷◌, ◌++◌, ◌==◌,
  if◌then◌else◌, length,
}
use mathlib.Core.Option
use rgb_multisig_hub.Errors.{ApiError, ApiError_from_db_err}
use rgb_multisig_hub.Operations.{
  FileType, response_psbt, OperationStatus, OperationType, get_threshold_for_operation,
}
use rgb_multisig_hub.World.{
  Env, World, M, pure, expect, ok_or, ◌>>=◌, ◌>>◌, Operation, Cosigner, OpFile, CosignerOpStatus,
}
use rgb_multisig_hub.Database.{
  get_operation_by_idx as find_operation, get_cosigner_by_idx, get_op_file_by_idx,
  get_op_files_by_operation_idx, get_cosigner_op_status_with_cosigners_by_operation_idx,
  get_last_operation_idx,
}
use rgb_multisig_hub.Files.{join, read_file, io_call}
use rgb_multisig_hub.State.{AppState}
use rgb_multisig_hub.Auth.{AuthenticatedUser, cosigner, watch_only}

pub record FileMetadata : Type 0 where
  pub file_id : String
  pub type : FileType
  pub posted_by_xpub : String
  pub size_bytes : ℕ

-- The sets of xPubs are lists without repetition; the seed is the hex text.
pub record OperationResponse : Type 0 where
  pub operation_idx : ℕ
  pub initiator_xpub : String
  pub seed : Option String
  pub created_at : ℕ
  pub operation_type : OperationType
  pub status : OperationStatus
  pub acked_by : List String
  pub nacked_by : List String
  pub threshold : Option ℕ
  pub my_response : Option Bool
  pub processed_at : Option ℕ
  pub files : List FileMetadata

pub data UserRole : Type 0 where
  cosigner_role : String → UserRole
  watch_only_role : UserRole

pub record InfoResponse : Type 0 where
  pub min_rgb_lib_version : String
  pub max_rgb_lib_version : String
  pub rgb_lib_version : String
  pub last_operation_idx : Option ℕ
  pub user_role : UserRole

abbrev pub contains : String → List String → Bool
contains xpub [] = false
contains xpub (x ∷ xs) = str_eq x xpub || contains xpub xs

-- `HashSet::insert`
abbrev pub set_insert : String → List String → List String
set_insert xpub xs = if contains xpub xs then xs else xpub ∷ xs

abbrev pub same_vote : Bool → Option Bool → Bool
same_vote _ none = false
same_vote true (some v) = v
same_vote false (some v) = if v then false else true

-- The xPubs of those who voted `vote`.
unfoldable pub voters : Bool → List (CosignerOpStatus × Cosigner) → List String
voters vote [] = []
voters vote ((status, c) ∷ entries) =
    let rest = voters vote entries in
    if same_vote vote status.ack then set_insert c.xpub rest else rest

-- The response and the time of the first entry of the given cosigner.
unfoldable pub my_entry : Option ℕ → List (CosignerOpStatus × Cosigner) → Option Bool × Option ℕ
my_entry none entries = (none, none)
my_entry (some idx) [] = (none, none)
my_entry (some idx) ((status, _) ∷ entries) =
    let rest = my_entry (some idx) entries in
    if status.cosigner_idx == idx then (status.ack, status.processed_at) else rest

module _ (env : Env) (state : AppState) where
  -- `tokio::fs::metadata(&file_path).await?` and its length.
  unfoldable pub file_size : String → M ApiError ℕ
  unfolding join read_file
  file_size file_id = do
    io_call env
    let size = λ (w : World). Option.map length (read_file (join state.files_dir file_id) w.files)
    found ← λ w. pure (size w) w
    ok_or found (ApiError.io "No such file or directory")

  -- The files of the operation itself.
  unfoldable pub operation_files : String → List OpFile → M ApiError (List FileMetadata)
  unfolding file_size
  operation_files initiator [] = pure []
  operation_files initiator (file ∷ op_files) = do
    size ← file_size file.file_id
    rest ← operation_files initiator op_files
    pure (
        record {
          file_id = file.file_id;
          type = file.type;
          posted_by_xpub = initiator;
          size_bytes = size;
        }
        ∷ rest)

  -- The PSBT of one response.
  unfoldable pub response_file : Cosigner → ℕ → M ApiError FileMetadata
  unfolding file_size
  response_file c psbt_op_file_idx = do
    found ← get_op_file_by_idx env psbt_op_file_idx
    psbt_file ← expect found "PSBT op file should exist"
    size ← file_size psbt_file.file_id
    pure (record {
      file_id = psbt_file.file_id;
      type = response_psbt;
      posted_by_xpub = c.xpub;
      size_bytes = size;
    })

  -- The PSBT of an entry, if it has one, before the others.
  unfoldable pub add_response_file :
      Cosigner → Option ℕ → M ApiError (List FileMetadata) → M ApiError (List FileMetadata)
  unfolding response_file
  add_response_file c none rest = rest
  add_response_file c (some idx) rest = do
    file ← response_file c idx
    files ← rest
    pure (file ∷ files)

  -- The PSBTs of the responses of the cosigners other than the initiator.
  unfoldable pub response_files :
      String → List (CosignerOpStatus × Cosigner) → M ApiError (List FileMetadata)
  unfolding add_response_file
  response_files initiator [] = pure []
  response_files initiator ((status, c) ∷ entries) =
      let rest = response_files initiator entries in
      if str_eq c.xpub initiator then rest else add_response_file c status.psbt_op_file_idx rest

  unfoldable pub operation_response : Operation → Option ℕ → M ApiError OperationResponse
  unfolding operation_files response_files voters my_entry get_threshold_for_operation
  operation_response op cosigner_idx = do
    found ← get_cosigner_by_idx env op.initiator_idx
    initiator ← expect found "initiator should be set"
    entries ← get_cosigner_op_status_with_cosigners_by_operation_idx env op.idx
    op_files ← get_op_files_by_operation_idx env op.idx
    files ← operation_files initiator.xpub op_files
    psbts ← response_files initiator.xpub entries
    pure (record {
      operation_idx = op.idx;
      initiator_xpub = initiator.xpub;
      seed = Option.map env.hex_encode op.seed;
      created_at = op.created_at;
      operation_type = op.type;
      status = op.status;
      acked_by = voters true entries;
      nacked_by = voters false entries;
      threshold =
          get_threshold_for_operation op.type state.threshold_vanilla state.threshold_colored;
      my_response = (my_entry cosigner_idx entries).0;
      processed_at = (my_entry cosigner_idx entries).1;
      files = files ++ psbts;
    })

  unfoldable pub response_of : Option ℕ → Option Operation → M ApiError (Option OperationResponse)
  unfolding operation_response
  response_of cosigner_idx none = pure none
  response_of cosigner_idx (some op) = do
    response ← operation_response op cosigner_idx
    pure (some response)

  unfoldable pub get_operation_by_idx_with_files :
      ℕ → Option ℕ → M ApiError (Option OperationResponse)
  unfolding response_of
  get_operation_by_idx_with_files operation_idx cosigner_idx = do
    found ← find_operation env operation_idx
    response_of cosigner_idx found

  abbrev pub cosigner_idx_of : AuthenticatedUser → Option ℕ
  cosigner_idx_of (cosigner c) = some c.idx
  cosigner_idx_of watch_only = none

  unfoldable pub get_operation_by_idx :
      AuthenticatedUser → ℕ → M ApiError (Option OperationResponse)
  unfolding get_operation_by_idx_with_files
  get_operation_by_idx user operation_idx =
      get_operation_by_idx_with_files operation_idx (cosigner_idx_of user)

  -- The content that the response streams. A directory, which exists and opens too, is not modelled.
  unfoldable pub get_file : String → M ApiError (List ℕ)
  unfolding join read_file
  get_file file_id = do
    let file_path = join state.files_dir file_id
    found ← λ w. pure (read_file file_path w.files) w
    content ← ok_or found ApiError.file_not_found
    io_call env
    io_call env
    pure content

  abbrev pub role_of : AuthenticatedUser → UserRole
  role_of (cosigner c) = cosigner_role c.xpub
  role_of watch_only = watch_only_role

  unfoldable pub info : AuthenticatedUser → M ApiError InfoResponse
  info user = do
    last_operation_idx ← get_last_operation_idx env
    pure (record {
      min_rgb_lib_version = "0.3";
      max_rgb_lib_version = "0.3";
      rgb_lib_version = state.rgb_lib_version;
      last_operation_idx = last_operation_idx;
      user_role = role_of user;
    })

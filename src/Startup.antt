-- ===== src/Startup.antt =====
-- `start_daemon` of src/startup.rs: the first start of a hub, and a start of one that is configured.
pub mod Version
pub mod Supported
pub mod Arguments
pub mod Accepted
pub mod Outcomes
pub mod Writes
pub mod Starting
pub mod Configured
pub mod Launched
use rgb_multisig_hub.Base.{
  ℕ, String, str_eq, Bool, true, false, not, ◌&&◌, ◌||◌, Option, none, some, List, [], ◌∷◌, map,
  ◌==◌, length,
}
use rgb_multisig_hub.Errors.{AppError, AppError_from_db_err}
use rgb_multisig_hub.World.{
  Env, M, pure, raise_if, io_step, query, ◌>>=◌, ◌>>◌, Config, Cosigner, NextAddressIndex,
}
use rgb_multisig_hub.Database.{
  get_config, iter_cosigners, set_config, set_cosigners, set_next_address_index,
}
use rgb_multisig_hub.Files.{join, same_files}
use rgb_multisig_hub.State.{AppState}

-- Without the root key, which stands beside the parameters and the state.
pub record AppParams : Type 0 where
  pub app_dir : String
  pub daemon_listening_port : ℕ
  pub cosigner_xpubs : List String
  pub threshold_colored : ℕ
  pub threshold_vanilla : ℕ
  pub rgb_lib_version : String

abbrev pub listed : String → List String → Bool
listed xpub [] = false
listed xpub (x ∷ xs) = str_eq x xpub || listed xpub xs

abbrev pub all_listed : List String → List String → Bool
all_listed [] xpubs = true
all_listed (x ∷ xs) xpubs = listed x xpubs && all_listed xs xpubs

-- Equality of the hash sets of two lists.
abbrev pub same_xpubs : List String → List String → Bool
same_xpubs xs ys = all_listed xs ys && all_listed ys xs

abbrev pub new_config : AppParams → ℕ → Config
new_config params idx = record {
  idx = idx;
  threshold_colored = params.threshold_colored;
  threshold_vanilla = params.threshold_vanilla;
}

abbrev pub new_index : ℕ → NextAddressIndex
new_index idx = record { idx = idx; internal = 0; external = 0 }

abbrev pub xpubs_of : List Cosigner → List String
xpubs_of rows = map (λ c. c.xpub) rows

-- The state, with the rows of the cosigners collected into the two maps.
abbrev pub state_of : AppParams → List Cosigner → AppState
state_of params db_cosigners = record {
  files_dir = join params.app_dir "files";
  cosigners_by_xpub = map (λ c. (c.xpub, c.idx)) db_cosigners;
  cosigners_by_idx = map (λ c. (c.idx, c.xpub)) db_cosigners;
  threshold_colored = params.threshold_colored;
  threshold_vanilla = params.threshold_vanilla;
  rgb_lib_version = params.rgb_lib_version;
}

module _ (env : Env) where
  unfoldable pub check_restart : AppParams → Config → M AppError (List Cosigner)
  check_restart params db_config = do
    raise_if
        (not (db_config.threshold_colored == params.threshold_colored)
          || not (db_config.threshold_vanilla == params.threshold_vanilla))
        (AppError.invalid_threshold "cannot change threshold on already configured service")
    db_cosigners ← iter_cosigners env
    raise_if (not (same_xpubs (xpubs_of db_cosigners) params.cosigner_xpubs))
        AppError.cannot_change_cosigners
    pure db_cosigners

  -- The writes are not in a transaction.
  unfoldable pub first_start : AppParams → M AppError (List Cosigner)
  first_start params = do
    config_idx ← set_config env (new_config params)
    raise_if (not (config_idx == 1))
        (AppError.inconsistent_state "there should not be a config entry")
    cosigner_idx ← set_cosigners env params.cosigner_xpubs
    raise_if (not (cosigner_idx == length params.cosigner_xpubs))
        (AppError.inconsistent_state "there should not be cosigners entries")
    db_cosigners ← iter_cosigners env
    index_idx ← set_next_address_index env new_index
    raise_if (not (index_idx == 1))
        (AppError.inconsistent_state "there should not be a next address entry")
    pure db_cosigners

  unfoldable pub load_cosigners : AppParams → Option Config → M AppError (List Cosigner)
  unfolding check_restart first_start
  load_cosigners params (some db_config) = check_restart params db_config
  load_cosigners params none = first_start params

  -- The two directories, the connection, and the migration, which makes the tables where they are
  -- missing.
  unfoldable pub prepare : M AppError (Unit {0})
  prepare = do
    io_step env AppError.io same_files
    io_step env AppError.io same_files
    query env (λ tick db. tt)
    query env (λ tick db. tt)

  unfoldable pub start_daemon : AppParams → M AppError AppState
  unfolding prepare load_cosigners
  start_daemon params = do
    prepare
    found ← get_config env
    db_cosigners ← load_cosigners params found
    pure (state_of params db_cosigners)

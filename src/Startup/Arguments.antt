-- ===== src/Startup/Arguments.antt =====
-- The arguments and the configuration file, as src/startup.rs reads and checks them, and the way from
-- them to the state of the hub in src/main.rs.
use rgb_multisig_hub.Base.{
  ℕ, String, Bool, ◌||◌, ◌⊎◌, inl, inr, List, ◌==◌, ltb, length, if◌then◌else◌, not,
}
use rgb_multisig_hub.Errors.{AppError}
use rgb_multisig_hub.World.{Env, ok, err, M, pure, raise_if, io_step, ticked, ◌>>=◌, ◌>>◌}
use rgb_multisig_hub.Files.{join, same_files}
use rgb_multisig_hub.State.{AppState}
use rgb_multisig_hub.Auth.{Biscuit}
use rgb_multisig_hub.Auth.RootKey.{check_auth_args}
use rgb_multisig_hub.Startup.{AppParams, start_daemon}
use rgb_multisig_hub.Startup.Version.{
  min_rgb_lib_version, max_rgb_lib_version, validate_rgb_lib_version,
}

pub record AppArgs : Type 0 where
  pub app_directory_path : String
  pub daemon_listening_port : ℕ

-- The text of the root key stands as its bytes.
pub record AppConfig : Type 0 where
  pub cosigner_xpubs : List String
  pub threshold_colored : ℕ
  pub threshold_vanilla : ℕ
  pub root_public_key : List ℕ
  pub rgb_lib_version : String

-- The machine that the hub starts on: whether something listens on a port, whether a path exists, and
-- the configuration that `confy` loads from one, or its error, each by the tick at which it is asked.
pub record Host : Type 0 where
  pub connects : ℕ → ℕ → Bool
  pub exists : ℕ → String → Bool
  pub load_path : ℕ → String → String ⊎ AppConfig

abbrev pub min_cosigners : ℕ
min_cosigners = 2

abbrev pub params_of : AppArgs → AppConfig → AppParams
params_of args cfg = record {
  app_dir = args.app_directory_path;
  daemon_listening_port = args.daemon_listening_port;
  cosigner_xpubs = cfg.cosigner_xpubs;
  threshold_colored = cfg.threshold_colored;
  threshold_vanilla = cfg.threshold_vanilla;
  rgb_lib_version = cfg.rgb_lib_version;
}

module _ (host : Host) where
  unfoldable pub check_port_is_available : ℕ → M AppError (Unit {0})
  check_port_is_available port w =
      (if host.connects w.tick port then err (AppError.unavailable_port port) else ok tt, ticked w)

  unfoldable pub config_exists : String → M AppError Bool
  config_exists path w = (ok (host.exists w.tick path), ticked w)

  abbrev loaded : String ⊎ AppConfig → M AppError AppConfig
  loaded (inl e) w = (err (AppError.config e), ticked w)
  loaded (inr cfg) w = (ok cfg, ticked w)

  unfoldable pub load_config : String → M AppError AppConfig
  load_config path w = loaded (host.load_path w.tick path) w

module _ (host : Host) (biscuit : Biscuit) where
  -- The parameters, and beside them the root key.
  unfoldable pub parse_args_and_config_internal :
      AppArgs → AppConfig → M AppError (AppParams × biscuit.PublicKey)
  unfolding check_port_is_available
  parse_args_and_config_internal args cfg = do
    check_port_is_available host args.daemon_listening_port
    raise_if (ltb (length cfg.cosigner_xpubs) min_cosigners)
        (AppError.invalid_cosigner_number (length cfg.cosigner_xpubs))
    raise_if (cfg.threshold_colored == 0 || cfg.threshold_vanilla == 0)
        (AppError.invalid_threshold "must be a positive value")
    raise_if
        (ltb (length cfg.cosigner_xpubs) cfg.threshold_colored
          || ltb (length cfg.cosigner_xpubs) cfg.threshold_vanilla)
        (AppError.invalid_threshold "cannot be higher than number of cosigners")
    root_public_key ← check_auth_args biscuit cfg.root_public_key
    validate_rgb_lib_version cfg.rgb_lib_version min_rgb_lib_version max_rgb_lib_version
    pure (params_of args cfg, root_public_key)

module _ (env : Env) (host : Host) (biscuit : Biscuit) where
  unfoldable pub parse_startup_args_and_config :
      AppArgs → M AppError (AppParams × biscuit.PublicKey)
  unfolding config_exists load_config parse_args_and_config_internal join
  parse_startup_args_and_config args = do
    io_step env AppError.io same_files
    there ← config_exists host (join args.app_directory_path "config.toml")
    raise_if (not there) (AppError.missing_config_file (join args.app_directory_path "config.toml"))
    cfg ← load_config host (join args.app_directory_path "config.toml")
    parse_args_and_config_internal host biscuit args cfg

  -- From the arguments to the state and the root key of a hub that serves requests.
  unfoldable pub launch : AppArgs → M AppError (AppState × biscuit.PublicKey)
  unfolding parse_startup_args_and_config start_daemon
  launch args = do
    (params, root_public_key) ← parse_startup_args_and_config args
    state ← start_daemon env params
    pure (state, root_public_key)

-- ===== src/Startup/Outcomes.antt =====
-- The two ways in which `start_daemon` of src/startup.rs succeeds, and what it has then done.
use rgb_multisig_hub.Base.{ℕ, ◌≡◌, ◌⊎◌, Bool, true, some, List, ◌∷◌, map, count, length, Elem}
use rgb_multisig_hub.Errors.{AppError_from_db_err}
use rgb_multisig_hub.World.{Env, Db, Config, Cosigner}
use rgb_multisig_hub.Database.{insert_cosigners}
use rgb_multisig_hub.State.{AppState}
use rgb_multisig_hub.Startup.{AppParams, same_xpubs, xpubs_of, new_config, new_index}

-- A start of a hub that is configured: the thresholds and the xPubs are those of the tables.
pub record Restarted (params : AppParams) (rows : List Cosigner) (before after : Db) : Type 0 where
  pub config : Config
  pub configured : Elem config before.configs
  pub colored : config.threshold_colored ≡ params.threshold_colored
  pub vanilla : config.threshold_vanilla ≡ params.threshold_vanilla
  pub xpubs : same_xpubs (xpubs_of rows) params.cosigner_xpubs ≡ true
  pub unchanged : after ≡ before

-- A first start: there was no configuration, and the tables have one, the given cosigners, and the
-- address indices at zero.
pub record FirstStarted (env : Env) (params : AppParams) (before after : Db) : Type 0 where
  pub no_config : count (λ c. true) before.configs ≡ 0
  pub tick : ℕ
  pub made :
      insert_cosigners env tick params.cosigner_xpubs 0 before.cosigners
      ≡ some (length params.cosigner_xpubs, after.cosigners)
  pub written : after ≡ record before {
    configs = new_config params 1 ∷ before.configs;
    cosigners = after.cosigners;
    next_address_indices = new_index 1 ∷ before.next_address_indices;
  }

-- The state that a start makes of the rows of the cosigners.
pub record Started (env : Env) (params : AppParams) (state : AppState) (before after : Db)
    : Type 0 where
  pub rows : List Cosigner
  pub all_rows : (p : Cosigner → Bool) → count p rows ≡ count p after.cosigners
  pub by_xpub : state.cosigners_by_xpub ≡ map (λ c. (c.xpub, c.idx)) rows
  pub by_idx : state.cosigners_by_idx ≡ map (λ c. (c.idx, c.xpub)) rows
  pub colored : state.threshold_colored ≡ params.threshold_colored
  pub vanilla : state.threshold_vanilla ≡ params.threshold_vanilla
  pub how : Restarted params rows before after ⊎ FirstStarted env params before after

-- ===== src/Startup/Launched.antt =====
-- What a hub that src/main.rs launches from its arguments keeps, with what src/startup.rs checks of its
-- configuration.
use rgb_multisig_hub.Base.{
  ℕ, ◌≤◌, ◌≡◌, refl, sym, ap, subst, ◌∙◌, inr, String, List, [], ◌∷◌, length, arith,
}
use rgb_multisig_hub.World.{Env, IsLawful, World, ok, Db}
use rgb_multisig_hub.World.Inversion.{>>=-run, pure-eq-ok}
use rgb_multisig_hub.World.Atomic.{ReadOnly, ReadOnly-run, read_only_rules}
use rgb_multisig_hub.State.{AppState}
use rgb_multisig_hub.Auth.{Biscuit}
use rgb_multisig_hub.Auth.RootKey.{check_auth_args}
use rgb_multisig_hub.Startup.{AppParams, start_daemon}
use rgb_multisig_hub.Startup.Version.{parse_parts, parse_version, validate_rgb_lib_version}
use rgb_multisig_hub.Startup.Arguments.{
  AppArgs, AppConfig, Host, params_of, check_port_is_available, config_exists, load_config,
  parse_args_and_config_internal, parse_startup_args_and_config, launch,
}
use rgb_multisig_hub.Startup.Accepted.{IsAccepted, internal-IsAccepted}
use rgb_multisig_hub.Startup.Configured.{IsValid, first_start-IsConsistent}
use rgb_multisig_hub.Hub.Settled.{IsConsistent}
use rgb_multisig_hub.Hub.Requests.{Reach}

module _ (host : Host) where
  ReadOnly-check_port : (port : ℕ) → ReadOnly (check_port_is_available host port)
  unfolding check_port_is_available
  ReadOnly-check_port port = record { same = λ w. refl }

  ReadOnly-config_exists : (path : String) → ReadOnly (config_exists host path)
  unfolding config_exists
  ReadOnly-config_exists path = record { same = λ w. refl }

  ReadOnly-load_config : (path : String) → ReadOnly (load_config host path)
  unfolding load_config
  ReadOnly-load_config path = record { same = λ w. ground arith }

  load_config-eq-ok :
      (path : String) (w : World) {cfg : AppConfig} {u : World}
      → load_config host path w ≡ (ok cfg, u)
      → host.load_path w.tick path ≡ inr cfg
  unfolding load_config
  load_config-eq-ok path w h = ground arith

module _ (biscuit : Biscuit) where
  ReadOnly-check_auth_args : (text : List ℕ) → ReadOnly (check_auth_args biscuit text)
  unfolding check_auth_args
  ReadOnly-check_auth_args text = search read_only_rules

ReadOnly-parse_parts : (text : String) (parts : List String) → ReadOnly (parse_parts text parts)
unfolding parse_parts
ReadOnly-parse_parts text [] = search read_only_rules
ReadOnly-parse_parts text (a ∷ []) = search read_only_rules
ReadOnly-parse_parts text (a ∷ b ∷ []) = search read_only_rules
ReadOnly-parse_parts text (a ∷ b ∷ c ∷ cs) = search read_only_rules

ReadOnly-validate : (version lo hi : String) → ReadOnly (validate_rgb_lib_version version lo hi)
unfolding validate_rgb_lib_version parse_version
ReadOnly-validate version lo hi = search (read_only_rules, ReadOnly-parse_parts)

module _ (host : Host) (biscuit : Biscuit) where
  ReadOnly-internal :
      (args : AppArgs) (cfg : AppConfig)
      → ReadOnly (parse_args_and_config_internal host biscuit args cfg)
  unfolding parse_args_and_config_internal
  ReadOnly-internal args cfg =
      search (read_only_rules, ReadOnly-check_port, ReadOnly-check_auth_args, ReadOnly-validate)
        depth 12

module _ (env : Env) (host : Host) (biscuit : Biscuit) where
  ReadOnly-parse_startup :
      (args : AppArgs) → ReadOnly (parse_startup_args_and_config env host biscuit args)
  unfolding parse_startup_args_and_config
  ReadOnly-parse_startup args =
      search (read_only_rules, ReadOnly-config_exists, ReadOnly-load_config, ReadOnly-internal)
        depth 9

  -- The parameters that come out of the arguments are those of a configuration that was loaded and
  -- accepted.
  parse_startup-IsAccepted :
      (args : AppArgs) (w : World) {params : AppParams} {key : biscuit.PublicKey} {u : World}
      → parse_startup_args_and_config env host biscuit args w ≡ (ok (params, key), u)
      → (cfg : AppConfig) × (tick : ℕ) × (path : String) × (host.load_path tick path ≡ inr cfg)
        × (params ≡ params_of args cfg)
        × IsAccepted biscuit cfg key
  unfolding parse_startup_args_and_config
  parse_startup-IsAccepted args w h = >>=-run _ _ w h λ _ w1 q1 h1.
      >>=-run _ _ w1 h1 λ there w2 q2 h2. >>=-run _ _ w2 h2 λ _ w3 q3 h3.
        >>=-run _ _ w3 h3 λ cfg w4 q4 h4.
          let (same, free, accepted) = internal-IsAccepted host biscuit args cfg w4 h4 in
          (cfg, w3.tick, _, load_config-eq-ok host _ w3 q4, same, accepted)

  params_of-IsValid :
      (args : AppArgs) (cfg : AppConfig) {key : biscuit.PublicKey}
      → length cfg.cosigner_xpubs ≤ 255
      → IsAccepted biscuit cfg key
      → IsValid (params_of args cfg)
  params_of-IsValid args cfg few k = record {
    few = few;
    vanilla_pos = k.vanilla_pos;
    vanilla_reachable = k.vanilla_reachable;
    colored_pos = k.colored_pos;
    colored_reachable = k.colored_reachable;
  }

  -- With dependencies that do as documented, and if every configuration that can be loaded names at most
  -- 255 cosigners: let a hub be launched successfully from its arguments, on a database without
  -- configuration, cosigners, operations or entries. Then its tables are consistent after any sequence
  -- of requests, whatever their outcomes.
  pub launch-IsConsistent :
      (lawful : IsLawful env)
      → ((tick : ℕ) (path : String) (cfg : AppConfig)
          → host.load_path tick path ≡ inr cfg
          → length cfg.cosigner_xpubs ≤ 255)
      → (args : AppArgs) (w : World) (state : AppState) (key : biscuit.PublicKey) (u v : World)
      → w.db.configs ≡ []
      → w.db.cosigners ≡ []
      → w.db.operations ≡ []
      → w.db.statuses ≡ []
      → launch env host biscuit args w ≡ (ok (state, key), u)
      → Reach env state u v
      → IsConsistent state v.db
  unfolding launch
  launch-IsConsistent lawful few args w state key u v no_configs no_cosigners no_operations
        no_statuses h reached =
      >>=-run _ _ w h λ r w1 q1 h1. >>=-run _ _ w1 h1 λ made w2 q2 h2.
        let (cfg, tick, path, loaded, same, accepted) = parse_startup-IsAccepted args w q1 in
        let d = ReadOnly-run (ReadOnly-parse_startup args) q1 in
        let valid : IsValid r.0 =
          subst IsValid (sym same)
            (params_of-IsValid args cfg (few tick path cfg loaded) accepted) in
        let (found, last) = pure-eq-ok (made, r.1) w2 h2 in
        let started : start_daemon env r.0 w1 ≡ (ok state, u) =
          (let back = sym last in q2 ∙ (λ i. (ok (found i).0, back i))) in
        first_start-IsConsistent env lawful r.0 w1 state u v valid
          (ap (λ (x : Db). x.configs) d ∙ no_configs)
          (ap (λ (x : Db). x.cosigners) d ∙ no_cosigners)
          (ap (λ (x : Db). x.operations) d ∙ no_operations)
          (ap (λ (x : Db). x.statuses) d ∙ no_statuses) started reached

-- ===== src/Startup/Accepted.antt =====
-- Which arguments and configurations src/startup.rs accepts, and what a hub that is launched with them
-- keeps.
use rgb_multisig_hub.Base.{
  ℕ, ◌≤◌, ◌<◌, ◌≡◌, refl, sym, ap, subst, ◌∙◌, ◌↔◌, false, ◌||◌, some, ◌==◌, ltb, length, arith,
}
use rgb_multisig_hub.World.{World, ok, ticked, pure}
use rgb_multisig_hub.World.Forward.{>>=-ok, raise_if-false}
use rgb_multisig_hub.World.Inversion.{>>=-run, pure-eq-ok, raise_if-eq-ok}
use rgb_multisig_hub.Auth.{Biscuit}
use rgb_multisig_hub.Auth.RootKey.{IsKeyText, check_auth_args-IsKeyText, IsKeyText-check_auth_args}
use rgb_multisig_hub.Startup.{AppParams}
use rgb_multisig_hub.Startup.Arguments.{
  AppArgs, AppConfig, Host, params_of, check_port_is_available, parse_args_and_config_internal,
}
use rgb_multisig_hub.Startup.Supported.{version_of, validate-hub, hub-validate}

-- What a configuration has to say for its checks to succeed, with `key` for its root key.
pub record IsAccepted (biscuit : Biscuit) (cfg : AppConfig) (key : biscuit.PublicKey) : Type 0 where
  pub enough : 2 ≤ length cfg.cosigner_xpubs
  pub colored_pos : 0 < cfg.threshold_colored
  pub colored_reachable : cfg.threshold_colored ≤ length cfg.cosigner_xpubs
  pub vanilla_pos : 0 < cfg.threshold_vanilla
  pub vanilla_reachable : cfg.threshold_vanilla ≤ length cfg.cosigner_xpubs
  pub root_key : IsKeyText biscuit cfg.root_public_key key
  pub version : version_of cfg.rgb_lib_version ≡ some (0, 3)

le_of_ltb : (n m : ℕ) → ltb n m ≡ false → m ≤ n
le_of_ltb n m h = ground arith

ltb_of_le : (n m : ℕ) → m ≤ n → ltb n m ≡ false
ltb_of_le n m h = ground arith

neither_zero : (n m : ℕ) → 0 < n → 0 < m → (n == 0 || m == 0) ≡ false
neither_zero n m h k = ground arith

neither_ltb : (k n m : ℕ) → n ≤ k → m ≤ k → (ltb k n || ltb k m) ≡ false
neither_ltb k n m h l = ground arith

both_zero : (n m : ℕ) → (n == 0 || m == 0) ≡ false → (0 < n) × (0 < m)
both_zero n m h = ground arith

both_ltb : (k n m : ℕ) → (ltb k n || ltb k m) ≡ false → (n ≤ k) × (m ≤ k)
both_ltb k n m h = ground arith

module _ (host : Host) (biscuit : Biscuit) where
  check_port-eq-ok :
      (port : ℕ) (w : World) {u : World}
      → check_port_is_available host port w ≡ (ok tt, u)
      → (host.connects w.tick port ≡ false) × (u ≡ ticked w)
  unfolding check_port_is_available
  check_port-eq-ok port w h = ground arith

  check_port-free :
      (port : ℕ) (w : World)
      → host.connects w.tick port ≡ false
      → check_port_is_available host port w ≡ (ok tt, ticked w)
  unfolding check_port_is_available
  check_port-free port w h = rw (check_port_is_available, h) refl

  pub internal-IsAccepted :
      (args : AppArgs) (cfg : AppConfig) (w : World) {params : AppParams} {key : biscuit.PublicKey}
      {u : World}
      → parse_args_and_config_internal host biscuit args cfg w ≡ (ok (params, key), u)
      → (params ≡ params_of args cfg)
        × (host.connects w.tick args.daemon_listening_port ≡ false)
        × IsAccepted biscuit cfg key
  unfolding parse_args_and_config_internal
  internal-IsAccepted args cfg w h = >>=-run _ _ w h λ _ w1 q1 h1. >>=-run _ _ w1 h1 λ _ w2 q2 h2.
      >>=-run _ _ w2 h2 λ _ w3 q3 h3. >>=-run _ _ w3 h3 λ _ w4 q4 h4.
        >>=-run _ _ w4 h4 λ key w5 q5 h5. >>=-run _ _ w5 h5 λ _ w6 q6 h6.
          let (found, same) = pure-eq-ok _ w6 h6 in
          let pos = both_zero _ _ (raise_if-eq-ok _ _ w2 q3).0 in
          let reachable = both_ltb _ _ _ (raise_if-eq-ok _ _ w3 q4).0 in
          (
            sym (ap (λ (r : AppParams × biscuit.PublicKey). r.0) found),
            (check_port-eq-ok args.daemon_listening_port w q1).0,
            record {
              enough = le_of_ltb _ _ (raise_if-eq-ok _ _ w1 q2).0;
              colored_pos = pos.0;
              colored_reachable = reachable.0;
              vanilla_pos = pos.1;
              vanilla_reachable = reachable.1;
              root_key =
                  subst (IsKeyText biscuit cfg.root_public_key)
                    (ap (λ (r : AppParams × biscuit.PublicKey). r.1) found)
                    (check_auth_args-IsKeyText biscuit cfg.root_public_key w4 q5);
              version = validate-hub cfg.rgb_lib_version w5 q6;
            },
          )

  IsAccepted-internal :
      (args : AppArgs) (cfg : AppConfig) (w : World) {key : biscuit.PublicKey}
      → host.connects w.tick args.daemon_listening_port ≡ false
      → IsAccepted biscuit cfg key
      → parse_args_and_config_internal host biscuit args cfg w
        ≡ (ok (params_of args cfg, key), ticked w)
  unfolding parse_args_and_config_internal pure
  IsAccepted-internal args cfg w free k =
      >>=-ok _ _ w (check_port-free args.daemon_listening_port w free)
      ∙ >>=-ok _ _ (ticked w) (raise_if-false _ _ _ (ltb_of_le _ _ k.enough))
      ∙ >>=-ok _ _ (ticked w) (raise_if-false _ _ _ (neither_zero _ _ k.colored_pos k.vanilla_pos))
      ∙ >>=-ok _ _ (ticked w)
          (raise_if-false _ _ _ (neither_ltb _ _ _ k.colored_reachable k.vanilla_reachable))
      ∙ >>=-ok _ _ (ticked w)
          (IsKeyText-check_auth_args biscuit cfg.root_public_key (ticked w) k.root_key)
      ∙ >>=-ok _ _ (ticked w) (hub-validate cfg.rgb_lib_version (ticked w) k.version)

  -- For any arguments and configuration, the checks succeed with a root key and the parameters that the
  -- two give exactly if nothing listens on the port, there are two cosigners or more, both thresholds
  -- are positive and at most their number, the text of the root key is one of that key, and the version
  -- of rgb-lib reads as 0.3.
  pub parse_args_and_config_internal_lem :
      (args : AppArgs) (cfg : AppConfig) (w : World) (key : biscuit.PublicKey)
      → (parse_args_and_config_internal host biscuit args cfg w
          ≡ (ok (params_of args cfg, key), ticked w))
        ↔ ((host.connects w.tick args.daemon_listening_port ≡ false) × IsAccepted biscuit cfg key)
  parse_args_and_config_internal_lem args cfg w key = (
    λ h. let (same, free, accepted) = internal-IsAccepted args cfg w h in (free, accepted),
    λ k. IsAccepted-internal args cfg w k.0 k.1,
  )

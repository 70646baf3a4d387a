-- ===== src/Tests/Launch.antt =====
-- The theorems on the configuration, the versions, the root key and the rendering of errors at small
-- inputs.
use Prim.Native.String.{◌++◌ as append}
use rgb_multisig_hub.Base.{
  ℕ, zero, suc, ◌≤◌, ◌<◌, ◌≡◌, ◌↔◌, refl, subst, ◌⊎◌, inr, true, false, some, [], ◌∷◌, ◌++◌, All,
  length, arith,
}
use rgb_multisig_hub.Errors.{ApiError}
use rgb_multisig_hub.Errors.Rendering.{IsRendered, into_response-IsRendered}
use rgb_multisig_hub.Text.{split, parse_u32, decimal, scan_digits, digit_value}
use rgb_multisig_hub.Hex.{digit}
use rgb_multisig_hub.Hex.Pairs.{hex_print}
use rgb_multisig_hub.World.{World, ok, ticked}
use rgb_multisig_hub.Auth.RootKey.{
  check_auth_args, check_auth_args-hex_print, check_auth_args-append,
}
use rgb_multisig_hub.Startup.Version.{parse_version, validate_rgb_lib_version}
use rgb_multisig_hub.Startup.Supported.{
  version_of, IsBetween, parse_version-append, validate_rgb_lib_version_lem,
}
use rgb_multisig_hub.Startup.Arguments.{
  AppArgs, AppConfig, Host, params_of, parse_args_and_config_internal, launch,
}
use rgb_multisig_hub.Startup.Accepted.{IsAccepted, parse_args_and_config_internal_lem}
use rgb_multisig_hub.Startup.Launched.{launch-IsConsistent}
use rgb_multisig_hub.Hub.Settled.{IsConsistent}
use rgb_multisig_hub.Hub.Requests.{Request, serve, world_after, start, then}
use rgb_multisig_hub.Tests.Setup.{
  simple, simple-IsLawful, plain, new_hub, no_tables, ones, send_form,
}
use rgb_multisig_hub.Tests.Runs.{started_state}

parse_version-append_example :
    parse_version (append (decimal 12) (append "." (decimal 345))) new_hub ≡ (ok (12, 345), new_hub)
parse_version-append_example = parse_version-append 12 345 new_hub (omega arith) (omega arith)

three_is : version_of "0.3" ≡ some (0, 3)
unfolding split parse_u32 scan_digits digit_value
three_is = refl

two_is : version_of "2.0" ≡ some (2, 0)
unfolding split parse_u32 scan_digits digit_value
two_is = refl

validate_rgb_lib_version_example :
    (validate_rgb_lib_version "1.7" "0.3" "2.0" new_hub ≡ (ok tt, new_hub))
    ↔ IsBetween "1.7" (0, 3) (2, 0)
validate_rgb_lib_version_example =
    validate_rgb_lib_version_lem "1.7" "0.3" "2.0" new_hub three_is two_is

ones_small : (n : ℕ) → All (λ b. b < 256) (ones n)
ones_small zero = tt
ones_small (suc n) = (omega arith, ones_small n)

check_auth_args-hex_print_example :
    check_auth_args plain (hex_print (ones 32)) new_hub ≡ (ok tt, new_hub)
check_auth_args-hex_print_example =
    check_auth_args-hex_print plain (ones 32) new_hub (ones_small 32) refl refl

zero_digit : digit 48 ≡ some 0
unfolding digit
zero_digit = refl

check_auth_args-append_example :
    check_auth_args plain (hex_print (ones 32) ++ 48 ∷ []) new_hub ≡ (ok tt, new_hub)
check_auth_args-append_example =
    check_auth_args-append plain (hex_print (ones 32)) 48 0 new_hub refl zero_digit
      (check_auth_args-hex_print plain (ones 32) new_hub (ones_small 32) refl refl)

abbrev hub_args : AppArgs
hub_args = record { app_directory_path = "/srv/hub"; daemon_listening_port = 3001 }

abbrev hub_config : AppConfig
hub_config = record {
  cosigner_xpubs = "a" ∷ "b" ∷ "c" ∷ [];
  threshold_colored = 2;
  threshold_vanilla = 2;
  root_public_key = hex_print (ones 32);
  rgb_lib_version = "0.3";
}

abbrev free_host : Host
free_host = record {
  connects = λ tick port. false;
  exists = λ tick path. true;
  load_path = λ tick path. inr hub_config;
}

parse_args_and_config_internal_example :
    (parse_args_and_config_internal free_host plain hub_args hub_config new_hub
      ≡ (ok (params_of hub_args hub_config, tt), ticked new_hub))
    ↔ ((false ≡ false) × IsAccepted plain hub_config tt)
parse_args_and_config_internal_example =
    parse_args_and_config_internal_lem free_host plain hub_args hub_config new_hub tt

into_response-IsRendered_example :
    IsRendered (λ e. "\"(two)\\nlines\"") (ApiError.invalid_request "(two)\nlines")
into_response-IsRendered_example =
    into_response-IsRendered (λ e. "\"(two)\\nlines\"") (ApiError.invalid_request "(two)\nlines")

launch_test : (launch simple free_host plain hub_args no_tables).0 ≡ ok (started_state, tt)
unfolding rgb_multisig_hub.World.◌>>=◌ rgb_multisig_hub.World.pure rgb_multisig_hub.World.raise
    rgb_multisig_hub.World.ok_or rgb_multisig_hub.World.expect rgb_multisig_hub.World.raise_if
    rgb_multisig_hub.World.query rgb_multisig_hub.World.exec rgb_multisig_hub.World.io_step
    rgb_multisig_hub.Startup.start_daemon rgb_multisig_hub.Database.set_config
    rgb_multisig_hub.Database.insert_cosigners rgb_multisig_hub.Database.set_cosigners
    rgb_multisig_hub.Database.set_next_address_index rgb_multisig_hub.Database.get_config
    rgb_multisig_hub.Database.iter_cosigners rgb_multisig_hub.Text.split
    rgb_multisig_hub.Text.parse_u32 rgb_multisig_hub.Text.scan_digits
    rgb_multisig_hub.Text.digit_value rgb_multisig_hub.Hex.digit rgb_multisig_hub.Hex.next_byte
    rgb_multisig_hub.Hex.hex_str_to_vec rgb_multisig_hub.Auth.RootKey.check_auth_args
    rgb_multisig_hub.Startup.Version.parse_version
    rgb_multisig_hub.Startup.Version.validate_rgb_lib_version
    rgb_multisig_hub.Startup.Arguments.check_port_is_available
    rgb_multisig_hub.Startup.Arguments.config_exists rgb_multisig_hub.Startup.Arguments.load_config
    rgb_multisig_hub.Startup.Arguments.parse_args_and_config_internal
    rgb_multisig_hub.Startup.Arguments.launch
launch_test = refl

abbrev launched : World
launched = world_after (launch simple free_host plain hub_args) no_tables

inr_inj : {A B : Type 0} {a b : B} → ◌≡◌ {A = A ⊎ B} (inr a) (inr b) → a ≡ b
inr_inj h = cc

launch-IsConsistent_example :
    IsConsistent started_state
      (serve simple started_state (Request.post_operation 1 send_form) launched).db
launch-IsConsistent_example =
    launch-IsConsistent simple free_host plain simple-IsLawful
      (λ tick path cfg e.
        subst (λ (c : AppConfig). length c.cosigner_xpubs ≤ 255) (inr_inj e) (omega arith))
      hub_args no_tables started_state tt launched
      (serve simple started_state (Request.post_operation 1 send_form) launched) refl refl refl refl
      (λ i. (launch_test i, launched)) (then start (Request.post_operation 1 send_form))

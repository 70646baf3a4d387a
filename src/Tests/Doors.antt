-- ===== src/Tests/Doors.antt =====
-- The theorems on the start of the hub and on the authentication at runs of the small hub.
use rgb_multisig_hub.Base.{◌≡◌, refl, none, some, [], ◌∷◌, arith}
use rgb_multisig_hub.Auth.{cosigner}
use rgb_multisig_hub.Hub.Settled.{IsConsistent}
use rgb_multisig_hub.Hub.Requests.{start, then, world_after}
use rgb_multisig_hub.Hub.Requests.{Request}
use rgb_multisig_hub.Auth.{AuthenticatedCosigner}
use rgb_multisig_hub.Auth.Tokens.{Authenticated, authenticate-Authenticated}
use rgb_multisig_hub.Hub.Gate.{Call, path_of, receive}
use rgb_multisig_hub.Hub.Guests.{receive-cosigner_or_same}
use rgb_multisig_hub.Hex.{digit, hex_str_to_vec}
use rgb_multisig_hub.Hex.Pairs.{hex_str_to_vec_lem}
use rgb_multisig_hub.Startup.{start_daemon, new_config}
use rgb_multisig_hub.Startup.Configured.{IsValid, first_start-IsConsistent}
use rgb_multisig_hub.World.{World}
use rgb_multisig_hub.Hub.Requests.{serve}
use rgb_multisig_hub.Startup.Outcomes.{Started}
use rgb_multisig_hub.Startup.Starting.{start_daemon-Started, start_daemon-stuck}
use rgb_multisig_hub.World.{ok}
use rgb_multisig_hub.Base.{◌⊎◌, ◌≢◌}
use rgb_multisig_hub.Tests.Setup.{
  plain, three_params, no_tables, half_started, simple, simple-IsLawful, three_cosigners, new_hub,
  send_form,
}
use rgb_multisig_hub.Tests.Runs.{token_test, start_test, started_state}

hex_str_to_vec_example : hex_str_to_vec (52 ∷ 49 ∷ 97 ∷ 70 ∷ 48 ∷ []) ≡ some (65 ∷ 175 ∷ [])
unfolding digit
hex_str_to_vec_example = hex_str_to_vec_lem (52 ∷ 49 ∷ 97 ∷ 70 ∷ 48 ∷ [])

authenticate-Authenticated_example :
    Authenticated plain three_cosigners tt
      (some "Bearer b")
      "/postoperation"
      (cosigner (record { xpub = "b"; idx = 2 }))
      new_hub
    × (new_hub ≡ new_hub)
authenticate-Authenticated_example =
    authenticate-Authenticated plain three_cosigners tt (some "Bearer b") "/postoperation" new_hub
      token_test

receive-cosigner_or_same_example :
    ((c : AuthenticatedCosigner) × Authenticated plain three_cosigners tt none
        (path_of (Call.post_operation send_form))
        (cosigner c)
        new_hub)
    ⊎ ((receive plain simple three_cosigners tt none (Call.post_operation send_form) new_hub).db
        ≡ new_hub.db)
receive-cosigner_or_same_example =
    receive-cosigner_or_same plain simple three_cosigners tt none (Call.post_operation send_form)
      new_hub

start_daemon-Started_example :
    Started simple three_params started_state no_tables.db
      (world_after (start_daemon simple three_params) no_tables).db
start_daemon-Started_example =
    start_daemon-Started simple simple-IsLawful three_params no_tables
      (λ i. (start_test i, world_after (start_daemon simple three_params) no_tables))

start_daemon-stuck_example :
    start_daemon simple three_params half_started ≢ (ok three_cosigners, half_started)
start_daemon-stuck_example =
    start_daemon-stuck simple simple-IsLawful three_params half_started (new_config three_params 1)
      "a" ("b" ∷ "c" ∷ []) refl refl refl three_cosigners half_started

abbrev first_day : World
first_day = world_after (start_daemon simple three_params) no_tables

three_params-IsValid : IsValid three_params
three_params-IsValid = record {
  few = omega arith;
  vanilla_pos = omega arith;
  vanilla_reachable = omega arith;
  colored_pos = omega arith;
  colored_reachable = omega arith;
}

first_start-IsConsistent_example :
    IsConsistent started_state
      (serve simple started_state (Request.post_operation 1 send_form) first_day).db
first_start-IsConsistent_example =
    first_start-IsConsistent simple simple-IsLawful three_params no_tables started_state first_day
      (serve simple started_state (Request.post_operation 1 send_form) first_day)
      three_params-IsValid refl refl refl refl (λ i. (start_test i, first_day))
      (then start (Request.post_operation 1 send_form))

-- ===== src/Tests/Calls.antt =====
-- The theorems on sequences of requests and of calls, at runs of the small hub.
use rgb_multisig_hub.Base.{◌+◌, ◌≤◌, ◌≡◌, refl, true, false, some, All, arith, Option}
use rgb_multisig_hub.World.{World, ok}
use rgb_multisig_hub.Auth.{AuthenticatedCosigner, cosigner}
use rgb_multisig_hub.Startup.{start_daemon}
use rgb_multisig_hub.Routes.Addresses.{BumpAddressIndicesRequest, bump_address_indices}
use rgb_multisig_hub.Routes.Transfers.{TransferStatusInfo, TransferStatusRequest, transfer_status}
use rgb_multisig_hub.Migration.{up, foreign_keys_of}
use rgb_multisig_hub.Migration.References.{Refers}
use rgb_multisig_hub.Hub.Requests.{Request, serve, world_after, start, then}
use rgb_multisig_hub.Hub.Reservations.{reservations_disjoint}
use rgb_multisig_hub.Hub.Answers.{answers_agree}
use rgb_multisig_hub.Hub.Gate.{Call, receive}
use rgb_multisig_hub.Hub.Received
use rgb_multisig_hub.Hub.References.{Received-Refers}
use rgb_multisig_hub.Tests.Setup.{
  simple, simple-IsLawful, plain, three_cosigners, three_params, new_hub, no_tables, send_form,
}
use rgb_multisig_hub.Tests.Runs.{alice, bump_test, answer_test, start_test, started_state}

abbrev five : BumpAddressIndicesRequest
five = record { count = 5; internal = true }

abbrev after_five : World
after_five = world_after (bump_address_indices simple five) new_hub

abbrev seven : BumpAddressIndicesRequest
seven = record { count = 7; internal = false }

abbrev others_between : World
others_between = serve simple three_cosigners (Request.bump_address_indices seven) after_five

bump_again_test : (bump_address_indices simple five others_between).0 ≡ ok 5
unfolding serve rgb_multisig_hub.Database.get_next_address_index
    rgb_multisig_hub.Database.update_next_address_index
    rgb_multisig_hub.Routes.Addresses.bump_address_indices rgb_multisig_hub.World.◌>>=◌
    rgb_multisig_hub.World.pure rgb_multisig_hub.World.raise rgb_multisig_hub.World.ok_or
    rgb_multisig_hub.World.expect rgb_multisig_hub.World.raise_if rgb_multisig_hub.World.query
    rgb_multisig_hub.World.exec rgb_multisig_hub.World.close_transaction
    rgb_multisig_hub.World.transaction
bump_again_test = refl

reservations_disjoint_example : 0 + 5 ≤ 5
reservations_disjoint_example =
    reservations_disjoint simple simple-IsLawful three_cosigners
      (record { idx = 1; internal = 0; external = 0 }) five five new_hub after_five others_between
      (world_after (bump_address_indices simple five) others_between) refl
      (λ i. (bump_test i, after_five)) (then start (Request.bump_address_indices seven))
      (λ i. (bump_again_test i, world_after (bump_address_indices simple five) others_between)) refl

abbrev accept_fourth : TransferStatusRequest
accept_fourth = record { batch_transfer_idx = 4; accept = some true }

abbrev answered : World
answered =
    world_after (transfer_status simple three_cosigners (cosigner alice) accept_fourth) new_hub

abbrev answered_later : World
answered_later = serve simple three_cosigners (Request.bump_address_indices seven) answered

abbrev carol : AuthenticatedCosigner
carol = record { xpub = "c"; idx = 3 }

answer_again_test :
    (transfer_status simple three_cosigners (cosigner carol) accept_fourth answered_later).0
    ≡ ok (some (record { cosigner_xpub = "a"; accepted = true; registered_at = 0 }))
unfolding serve rgb_multisig_hub.Database.set_transfer_status rgb_multisig_hub.Database.set_or_keep
    rgb_multisig_hub.Database.insert_transfer_status rgb_multisig_hub.Database.new_transfer_status
    rgb_multisig_hub.Database.get_next_address_index
    rgb_multisig_hub.Database.update_next_address_index
    rgb_multisig_hub.Routes.Addresses.bump_address_indices
    rgb_multisig_hub.Routes.Transfers.set_or_read rgb_multisig_hub.Routes.Transfers.transfer_status
    rgb_multisig_hub.State.get_xpub rgb_multisig_hub.World.◌>>=◌ rgb_multisig_hub.World.pure
    rgb_multisig_hub.World.raise rgb_multisig_hub.World.ok_or rgb_multisig_hub.World.expect
    rgb_multisig_hub.World.raise_if rgb_multisig_hub.World.query rgb_multisig_hub.World.exec
    rgb_multisig_hub.World.close_transaction rgb_multisig_hub.World.transaction
    rgb_multisig_hub.World.now
answer_again_test = refl

abbrev alices_answer : Option TransferStatusInfo
alices_answer = some (record { cosigner_xpub = "a"; accepted = true; registered_at = 0 })

answers_agree_example : (true ≡ true) × (alices_answer ≡ alices_answer)
answers_agree_example =
    answers_agree simple simple-IsLawful three_cosigners alice carol 4 true true new_hub answered
      answered_later
      (world_after (transfer_status simple three_cosigners (cosigner carol) accept_fourth)
        answered_later)
      (λ k. omega arith) (λ i. (answer_test i, answered))
      (then start (Request.bump_address_indices seven))
      (λ i. (
        answer_again_test i,
        world_after (transfer_status simple three_cosigners (cosigner carol) accept_fourth)
            answered_later,
      ))

abbrev first_day : World
first_day = world_after (start_daemon simple three_params) no_tables

abbrev after_post : World
after_post =
    receive plain simple started_state tt (some "Bearer a") (Call.post_operation send_form)
      first_day

Received-Refers_example : All (λ key. Refers key after_post.db) (foreign_keys_of up)
Received-Refers_example =
    Received-Refers plain simple simple-IsLawful tt three_params no_tables started_state first_day
      after_post refl refl refl refl (λ i. (start_test i, first_day))
      (Received.then Received.start (some "Bearer a") (Call.post_operation send_form))

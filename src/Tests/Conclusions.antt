-- ===== src/Tests/Conclusions.antt =====
-- What a vote of every cosigner and a mark come to, at runs of the small hub.
use rgb_multisig_hub.Base.{◌+◌, ◌≡◌, refl, none, [], ◌∷◌, true, false, some, Elem, inl}
use rgb_multisig_hub.Multipart.{Multipart}
use rgb_multisig_hub.Database.Rows.{operation_has_idx, status_is_entry}
use rgb_multisig_hub.Operations.{send_rgb, approved}
use rgb_multisig_hub.World.{World, NextAddressIndex, Operation, ok}
use rgb_multisig_hub.Routes.Processed.{mark_operation_processed}
use rgb_multisig_hub.Hub.Settled.{votes, threshold_of}
use rgb_multisig_hub.Hub.Requests.{Request, serve, start, then}
use rgb_multisig_hub.Hub.Reach.{Reach-IsConsistent}
use rgb_multisig_hub.Hub.Verdicts.{Concluded, Reach-Concluded}
use rgb_multisig_hub.Database.Answers.{found}
use rgb_multisig_hub.Hub.MarkAnswers.{mark_answer, mark_operation_processed_lem}
use rgb_multisig_hub.Routes.Addresses.{BumpAddressIndicesRequest, bump_address_indices}
use rgb_multisig_hub.Routes.BumpAnswers.{bump_answer, bump_address_indices_lem}
use rgb_multisig_hub.Tests.Setup.{
  simple, simple-IsLawful, three_cosigners, three_cosigners-IsConfigured, new_hub, send_form,
  accept_form,
}
use rgb_multisig_hub.Tests.Runs.{accepted_once, accepted, sent}

abbrev refuse_form : Multipart
refuse_form = record {
  fields = record { name = some "request"; chunks = (1 ∷ 0 ∷ []) ∷ []; read_error = none } ∷ [];
  broken = false;
}

-- Of three responses to the transfer, the second is negative.
abbrev refused : World
refused = serve simple three_cosigners (Request.respond_to_operation 2 refuse_form) accepted_once

abbrev all_responded : World
all_responded =
    serve simple three_cosigners (Request.respond_to_operation 3 (accept_form 1)) refused

all_responded_test :
    (Elem sent all_responded.db.operations)
    × (votes true 1 all_responded.db.statuses + votes false 1 all_responded.db.statuses ≡ 3)
unfolding serve rgb_multisig_hub.Database.get_cosigner_by_idx
    rgb_multisig_hub.Database.get_cosigner_op_status_entry rgb_multisig_hub.Database.with_cosigners
    rgb_multisig_hub.Database.get_cosigner_op_status_with_cosigners_by_operation_idx
    rgb_multisig_hub.Database.get_last_cosigner_processed_op_idx
    rgb_multisig_hub.Database.get_next_address_index rgb_multisig_hub.Database.get_op_file_by_idx
    rgb_multisig_hub.Database.get_operation_by_idx
    rgb_multisig_hub.Database.get_op_files_by_operation_idx
    rgb_multisig_hub.Database.iter_cosigner_op_status_by_operation_idx
    rgb_multisig_hub.Database.has_pending_operation
    rgb_multisig_hub.Database.has_unprocessed_operation
    rgb_multisig_hub.Database.get_transfer_status rgb_multisig_hub.Database.set_cosigner_op_status
    rgb_multisig_hub.Database.set_op_file rgb_multisig_hub.Database.set_operation
    rgb_multisig_hub.Database.insert_transfer_status rgb_multisig_hub.Database.first_by_desc
    rgb_multisig_hub.Database.update_cosigner_op_status
    rgb_multisig_hub.Database.update_next_address_index rgb_multisig_hub.Database.update_operation
    rgb_multisig_hub.Files.read_file rgb_multisig_hub.Files.join
    rgb_multisig_hub.Files.persist_temp_file rgb_multisig_hub.Files.store_file
    rgb_multisig_hub.Multipart.field_bytes rgb_multisig_hub.Multipart.field_text
    rgb_multisig_hub.Multipart.write_chunks rgb_multisig_hub.Multipart.receive_file
    rgb_multisig_hub.Routes.Post.Form.read_form rgb_multisig_hub.Routes.Post.Form.check_seed
    rgb_multisig_hub.Routes.Post.Form.validate_form rgb_multisig_hub.Routes.Post.Save.initial_status
    rgb_multisig_hub.Routes.Post.Save.check_post_allowed rgb_multisig_hub.Routes.Post.Save.save_file
    rgb_multisig_hub.Routes.Post.Save.save_operation
    rgb_multisig_hub.Routes.Post.Save.post_operation rgb_multisig_hub.Routes.Respond.validate_form
    rgb_multisig_hub.Routes.Respond.read_request rgb_multisig_hub.Routes.Respond.read_psbt
    rgb_multisig_hub.Routes.Respond.respond_to_operation rgb_multisig_hub.State.get_xpub
    rgb_multisig_hub.State.total_cosigners rgb_multisig_hub.Votes.add_vote
    rgb_multisig_hub.Votes.count_votes rgb_multisig_hub.Votes.new_status
    rgb_multisig_hub.World.◌>>=◌ rgb_multisig_hub.World.pure rgb_multisig_hub.World.raise
    rgb_multisig_hub.World.ok_or rgb_multisig_hub.World.expect rgb_multisig_hub.World.raise_if
    rgb_multisig_hub.World.query rgb_multisig_hub.World.exec
    rgb_multisig_hub.World.close_transaction rgb_multisig_hub.World.transaction
    rgb_multisig_hub.World.io_step rgb_multisig_hub.World.now rgb_multisig_hub.Routes.Lookup.voters
    rgb_multisig_hub.Routes.Lookup.get_operation_by_idx rgb_multisig_hub.Routes.Lookup.get_file
    rgb_multisig_hub.Routes.Lookup.info
all_responded_test = (inl refl, refl)

Reach-Concluded_example :
    Concluded approved
      (threshold_of three_cosigners send_rgb)
      (votes true 1 all_responded.db.statuses)
Reach-Concluded_example =
    Reach-Concluded simple simple-IsLawful three_cosigners three_cosigners-IsConfigured new_hub refl
      refl all_responded
      (then
        (then
          (then (then start (Request.post_operation 1 send_form))
            (Request.respond_to_operation 1 (accept_form 1)))
          (Request.respond_to_operation 2 refuse_form))
        (Request.respond_to_operation 3 (accept_form 1)))
      sent (all_responded_test.0) (all_responded_test.1)

mark_operation_processed_lem_example :
    (mark_operation_processed simple 3 1 accepted).0
    ≡ mark_answer
        (found (operation_has_idx 1) accepted.db.operations)
        (found (status_is_entry 3 1) accepted.db.statuses)
mark_operation_processed_lem_example =
    mark_operation_processed_lem simple simple-IsLawful three_cosigners three_cosigners-IsConfigured
      (λ tick. refl) accepted
      (Reach-IsConsistent simple simple-IsLawful three_cosigners three_cosigners-IsConfigured
        new_hub refl refl accepted
        (then
          (then (then start (Request.post_operation 1 send_form))
            (Request.respond_to_operation 1 (accept_form 1)))
          (Request.respond_to_operation 3 (accept_form 1)))).tables
      3 1

abbrev near_the_end : NextAddressIndex
near_the_end = record { idx = 1; internal = 4294967290; external = 3 }

abbrev worn_hub : World
worn_hub = record new_hub { db = record new_hub.db { next_address_indices = near_the_end ∷ [] } }

abbrev most : BumpAddressIndicesRequest
most = record { count = 255; internal = true }

-- Five indices are left on this side, so 255 are refused.
bump_address_indices_lem_example :
    (bump_address_indices simple most worn_hub).0 ≡ bump_answer most near_the_end
bump_address_indices_lem_example =
    bump_address_indices_lem simple simple-IsLawful (λ tick. refl) near_the_end most worn_hub refl

-- ===== src/Tests/Runs.antt =====
-- Runs of the handlers of src/routes.rs on the small hub.
use rgb_multisig_hub.Base.{◌≡◌, refl, true, some, [], ◌∷◌, Elem, inl}
use rgb_multisig_hub.Operations.{send_rgb, approved}
use rgb_multisig_hub.World.{World, Operation, ok}
use rgb_multisig_hub.State.{AppState}
use rgb_multisig_hub.Auth.{AuthenticatedCosigner, cosigner, authenticate}
use rgb_multisig_hub.Startup.{start_daemon}
use rgb_multisig_hub.Routes.Addresses.{bump_address_indices}
use rgb_multisig_hub.Routes.Transfers.{transfer_status}
use rgb_multisig_hub.Routes.Processed.{mark_operation_processed}
use rgb_multisig_hub.Routes.Post.Save.{post_operation}
use rgb_multisig_hub.Routes.Respond.{record_response}
use rgb_multisig_hub.Hub.Requests.{Request, serve, world_after}
use rgb_multisig_hub.Tests.Setup.{
  simple, three_cosigners, new_hub, send_form, accept_form, ones, plain, three_params, no_tables,
}

abbrev pub alice : AuthenticatedCosigner
alice = record { xpub = "a"; idx = 1 }

-- The hub after a transfer is posted, accepted by two of three, and marked by one of them.
abbrev pub posted : World
posted = serve simple three_cosigners (Request.post_operation 1 send_form) new_hub

abbrev pub accepted_once : World
accepted_once = serve simple three_cosigners (Request.respond_to_operation 1 (accept_form 1)) posted

abbrev pub accepted : World
accepted =
    serve simple three_cosigners (Request.respond_to_operation 3 (accept_form 1)) accepted_once

abbrev pub marked : World
marked = serve simple three_cosigners (Request.mark_operation_processed 3 1) accepted

abbrev pub sent : Operation
sent = record {
  idx = 1;
  type = send_rgb;
  status = approved;
  created_at = 10;
  initiator_idx = 1;
  seed = some (ones 64);
}

pub post_test : (post_operation simple three_cosigners 1 send_form new_hub).0 ≡ ok 1
unfolding rgb_multisig_hub.Database.get_op_files_by_operation_idx
    rgb_multisig_hub.Database.iter_cosigner_op_status_by_operation_idx
    rgb_multisig_hub.Database.has_pending_operation
    rgb_multisig_hub.Database.has_unprocessed_operation
    rgb_multisig_hub.Database.get_transfer_status rgb_multisig_hub.Database.set_cosigner_op_status
    rgb_multisig_hub.Database.set_op_file rgb_multisig_hub.Database.set_operation
    rgb_multisig_hub.Files.read_file rgb_multisig_hub.Files.compute_file_id
    rgb_multisig_hub.Files.persist_temp_file rgb_multisig_hub.Files.store_file
    rgb_multisig_hub.Multipart.field_bytes rgb_multisig_hub.Multipart.field_text
    rgb_multisig_hub.Multipart.write_chunks rgb_multisig_hub.Multipart.receive_file
    rgb_multisig_hub.Routes.Post.Form.file_type_of rgb_multisig_hub.Routes.Post.Form.add_file
    rgb_multisig_hub.Routes.Post.Form.read_field rgb_multisig_hub.Routes.Post.Form.read_form
    rgb_multisig_hub.Routes.Post.Form.check_seed rgb_multisig_hub.Routes.Post.Form.validate_form
    rgb_multisig_hub.Routes.Post.Save.initial_status
    rgb_multisig_hub.Routes.Post.Save.check_post_allowed
    rgb_multisig_hub.Routes.Post.Save.create_statuses
    rgb_multisig_hub.Routes.Post.Save.save_operation
    rgb_multisig_hub.Routes.Post.Save.post_operation rgb_multisig_hub.World.◌>>=◌
    rgb_multisig_hub.World.pure rgb_multisig_hub.World.raise rgb_multisig_hub.World.ok_or
    rgb_multisig_hub.World.expect rgb_multisig_hub.World.raise_if rgb_multisig_hub.World.query
    rgb_multisig_hub.World.exec rgb_multisig_hub.World.close_transaction
    rgb_multisig_hub.World.transaction rgb_multisig_hub.World.io_step rgb_multisig_hub.World.now
post_test = refl

pub accept_test : (record_response simple three_cosigners 3 (accept_form 1) accepted_once).0 ≡ ok 1
unfolding serve rgb_multisig_hub.Database.get_cosigner_by_idx
    rgb_multisig_hub.Database.get_cosigner_op_status_entry rgb_multisig_hub.Database.with_cosigners
    rgb_multisig_hub.Database.get_cosigner_op_status_with_cosigners_by_operation_idx
    rgb_multisig_hub.Database.get_last_cosigner_processed_op_idx
    rgb_multisig_hub.Database.get_op_files_by_operation_idx
    rgb_multisig_hub.Database.iter_cosigner_op_status_by_operation_idx
    rgb_multisig_hub.Database.has_pending_operation
    rgb_multisig_hub.Database.has_unprocessed_operation
    rgb_multisig_hub.Database.get_transfer_status rgb_multisig_hub.Database.set_cosigner_op_status
    rgb_multisig_hub.Database.set_op_file rgb_multisig_hub.Database.set_operation
    rgb_multisig_hub.Database.insert_transfer_status rgb_multisig_hub.Database.first_by_desc
    rgb_multisig_hub.Database.update_cosigner_op_status
    rgb_multisig_hub.Database.update_next_address_index rgb_multisig_hub.Database.update_operation
    rgb_multisig_hub.Files.read_file rgb_multisig_hub.Files.join
    rgb_multisig_hub.Files.persist_temp_file rgb_multisig_hub.Files.store_file
    rgb_multisig_hub.Multipart.field_bytes rgb_multisig_hub.Multipart.field_text
    rgb_multisig_hub.Multipart.write_chunks rgb_multisig_hub.Multipart.receive_file
    rgb_multisig_hub.Routes.Post.Form.read_form rgb_multisig_hub.Routes.Post.Form.check_seed
    rgb_multisig_hub.Routes.Post.Form.validate_form rgb_multisig_hub.Routes.Post.Save.initial_status
    rgb_multisig_hub.Routes.Post.Save.check_post_allowed rgb_multisig_hub.Routes.Post.Save.save_file
    rgb_multisig_hub.Routes.Post.Save.save_operation
    rgb_multisig_hub.Routes.Post.Save.post_operation rgb_multisig_hub.Routes.Respond.validate_form
    rgb_multisig_hub.Routes.Respond.read_request rgb_multisig_hub.Routes.Respond.read_psbt
    rgb_multisig_hub.Routes.Respond.respond_to_operation rgb_multisig_hub.State.get_xpub
    rgb_multisig_hub.State.total_cosigners rgb_multisig_hub.Votes.add_vote
    rgb_multisig_hub.Votes.count_votes rgb_multisig_hub.Votes.new_status
    rgb_multisig_hub.World.◌>>=◌ rgb_multisig_hub.World.pure rgb_multisig_hub.World.raise
    rgb_multisig_hub.World.ok_or rgb_multisig_hub.World.expect rgb_multisig_hub.World.raise_if
    rgb_multisig_hub.World.query rgb_multisig_hub.World.exec
    rgb_multisig_hub.World.close_transaction rgb_multisig_hub.World.transaction
    rgb_multisig_hub.World.io_step rgb_multisig_hub.World.now rgb_multisig_hub.Routes.Lookup.voters
    rgb_multisig_hub.Routes.Lookup.get_operation_by_idx rgb_multisig_hub.Routes.Lookup.get_file
    rgb_multisig_hub.Routes.Lookup.info
accept_test = refl

pub accepted_test : Elem sent accepted.db.operations
unfolding serve rgb_multisig_hub.Database.get_cosigner_by_idx
    rgb_multisig_hub.Database.get_cosigner_op_status_entry rgb_multisig_hub.Database.with_cosigners
    rgb_multisig_hub.Database.get_cosigner_op_status_with_cosigners_by_operation_idx
    rgb_multisig_hub.Database.get_last_cosigner_processed_op_idx
    rgb_multisig_hub.Database.get_next_address_index rgb_multisig_hub.Database.get_op_file_by_idx
    rgb_multisig_hub.Database.get_operation_by_idx
    rgb_multisig_hub.Database.get_op_files_by_operation_idx
    rgb_multisig_hub.Database.iter_cosigner_op_status_by_operation_idx
    rgb_multisig_hub.Database.has_pending_operation
    rgb_multisig_hub.Database.has_unprocessed_operation
    rgb_multisig_hub.Database.get_transfer_status rgb_multisig_hub.Database.set_cosigner_op_status
    rgb_multisig_hub.Database.set_op_file rgb_multisig_hub.Database.set_operation
    rgb_multisig_hub.Database.insert_transfer_status rgb_multisig_hub.Database.first_by_desc
    rgb_multisig_hub.Database.update_cosigner_op_status
    rgb_multisig_hub.Database.update_next_address_index rgb_multisig_hub.Database.update_operation
    rgb_multisig_hub.Files.read_file rgb_multisig_hub.Files.join
    rgb_multisig_hub.Files.persist_temp_file rgb_multisig_hub.Files.store_file
    rgb_multisig_hub.Multipart.field_bytes rgb_multisig_hub.Multipart.field_text
    rgb_multisig_hub.Multipart.write_chunks rgb_multisig_hub.Multipart.receive_file
    rgb_multisig_hub.Routes.Post.Form.read_form rgb_multisig_hub.Routes.Post.Form.check_seed
    rgb_multisig_hub.Routes.Post.Form.validate_form rgb_multisig_hub.Routes.Post.Save.initial_status
    rgb_multisig_hub.Routes.Post.Save.check_post_allowed rgb_multisig_hub.Routes.Post.Save.save_file
    rgb_multisig_hub.Routes.Post.Save.save_operation
    rgb_multisig_hub.Routes.Post.Save.post_operation rgb_multisig_hub.Routes.Respond.validate_form
    rgb_multisig_hub.Routes.Respond.read_request rgb_multisig_hub.Routes.Respond.read_psbt
    rgb_multisig_hub.Routes.Respond.respond_to_operation rgb_multisig_hub.State.get_xpub
    rgb_multisig_hub.State.total_cosigners rgb_multisig_hub.Votes.add_vote
    rgb_multisig_hub.Votes.count_votes rgb_multisig_hub.Votes.new_status
    rgb_multisig_hub.World.◌>>=◌ rgb_multisig_hub.World.pure rgb_multisig_hub.World.raise
    rgb_multisig_hub.World.ok_or rgb_multisig_hub.World.expect rgb_multisig_hub.World.raise_if
    rgb_multisig_hub.World.query rgb_multisig_hub.World.exec
    rgb_multisig_hub.World.close_transaction rgb_multisig_hub.World.transaction
    rgb_multisig_hub.World.io_step rgb_multisig_hub.World.now rgb_multisig_hub.Routes.Lookup.voters
    rgb_multisig_hub.Routes.Lookup.get_operation_by_idx rgb_multisig_hub.Routes.Lookup.get_file
    rgb_multisig_hub.Routes.Lookup.info
accepted_test = inl refl

pub mark_test : (mark_operation_processed simple 3 1 accepted).0 ≡ ok tt
unfolding serve rgb_multisig_hub.Database.get_cosigner_by_idx
    rgb_multisig_hub.Database.get_cosigner_op_status_entry rgb_multisig_hub.Database.with_cosigners
    rgb_multisig_hub.Database.get_cosigner_op_status_with_cosigners_by_operation_idx
    rgb_multisig_hub.Database.get_last_cosigner_processed_op_idx
    rgb_multisig_hub.Database.get_next_address_index rgb_multisig_hub.Database.get_op_file_by_idx
    rgb_multisig_hub.Database.get_operation_by_idx
    rgb_multisig_hub.Database.get_op_files_by_operation_idx
    rgb_multisig_hub.Database.iter_cosigner_op_status_by_operation_idx
    rgb_multisig_hub.Database.has_pending_operation
    rgb_multisig_hub.Database.has_unprocessed_operation
    rgb_multisig_hub.Database.get_transfer_status rgb_multisig_hub.Database.set_cosigner_op_status
    rgb_multisig_hub.Database.set_op_file rgb_multisig_hub.Database.set_operation
    rgb_multisig_hub.Database.insert_transfer_status rgb_multisig_hub.Database.first_by_desc
    rgb_multisig_hub.Database.update_cosigner_op_status
    rgb_multisig_hub.Database.update_next_address_index rgb_multisig_hub.Database.update_operation
    rgb_multisig_hub.Files.read_file rgb_multisig_hub.Files.join
    rgb_multisig_hub.Files.persist_temp_file rgb_multisig_hub.Files.store_file
    rgb_multisig_hub.Multipart.field_bytes rgb_multisig_hub.Multipart.field_text
    rgb_multisig_hub.Multipart.write_chunks rgb_multisig_hub.Multipart.receive_file
    rgb_multisig_hub.Routes.Post.Form.read_form rgb_multisig_hub.Routes.Post.Form.check_seed
    rgb_multisig_hub.Routes.Post.Form.validate_form rgb_multisig_hub.Routes.Post.Save.initial_status
    rgb_multisig_hub.Routes.Post.Save.check_post_allowed rgb_multisig_hub.Routes.Post.Save.save_file
    rgb_multisig_hub.Routes.Post.Save.save_operation
    rgb_multisig_hub.Routes.Post.Save.post_operation
    rgb_multisig_hub.Routes.Processed.check_mark_allowed
    rgb_multisig_hub.Routes.Processed.mark_operation_processed
    rgb_multisig_hub.Routes.Processed.get_last_processed_op_idx
    rgb_multisig_hub.Routes.Respond.decide rgb_multisig_hub.Routes.Respond.save_response
    rgb_multisig_hub.Routes.Respond.record_response
    rgb_multisig_hub.Routes.Respond.respond_to_operation rgb_multisig_hub.State.get_xpub
    rgb_multisig_hub.State.total_cosigners rgb_multisig_hub.Votes.add_vote
    rgb_multisig_hub.Votes.count_votes rgb_multisig_hub.Votes.new_status
    rgb_multisig_hub.World.◌>>=◌ rgb_multisig_hub.World.pure rgb_multisig_hub.World.raise
    rgb_multisig_hub.World.ok_or rgb_multisig_hub.World.expect rgb_multisig_hub.World.raise_if
    rgb_multisig_hub.World.query rgb_multisig_hub.World.exec
    rgb_multisig_hub.World.close_transaction rgb_multisig_hub.World.transaction
    rgb_multisig_hub.World.io_step rgb_multisig_hub.World.now rgb_multisig_hub.Routes.Lookup.voters
    rgb_multisig_hub.Routes.Lookup.get_operation_by_idx
mark_test = refl

pub bump_test :
    (bump_address_indices simple (record { count = 5; internal = true }) new_hub).0 ≡ ok 0
unfolding rgb_multisig_hub.Database.get_cosigner_op_status_with_cosigners_by_operation_idx
    rgb_multisig_hub.Database.get_last_cosigner_processed_op_idx
    rgb_multisig_hub.Database.get_next_address_index rgb_multisig_hub.Database.first_by_desc
    rgb_multisig_hub.Database.update_cosigner_op_status
    rgb_multisig_hub.Database.update_next_address_index
    rgb_multisig_hub.Routes.Addresses.bump_address_indices rgb_multisig_hub.World.◌>>=◌
    rgb_multisig_hub.World.pure rgb_multisig_hub.World.raise rgb_multisig_hub.World.ok_or
    rgb_multisig_hub.World.expect rgb_multisig_hub.World.raise_if rgb_multisig_hub.World.query
    rgb_multisig_hub.World.exec rgb_multisig_hub.World.close_transaction
    rgb_multisig_hub.World.transaction rgb_multisig_hub.World.io_step
bump_test = refl

pub answer_test :
    (transfer_status simple three_cosigners
      (cosigner alice)
      (record { batch_transfer_idx = 4; accept = some true })
      new_hub).0
    ≡ ok (some (record { cosigner_xpub = "a"; accepted = true; registered_at = 0 }))
unfolding rgb_multisig_hub.Database.set_transfer_status rgb_multisig_hub.Database.first_by_desc
    rgb_multisig_hub.Database.update_cosigner_op_status
    rgb_multisig_hub.Routes.Transfers.read_transfer_status
    rgb_multisig_hub.Routes.Transfers.set_or_read rgb_multisig_hub.Routes.Transfers.transfer_status
    rgb_multisig_hub.State.get_xpub rgb_multisig_hub.State.total_cosigners
    rgb_multisig_hub.World.◌>>=◌ rgb_multisig_hub.World.pure rgb_multisig_hub.World.raise
    rgb_multisig_hub.World.ok_or rgb_multisig_hub.World.expect rgb_multisig_hub.World.raise_if
    rgb_multisig_hub.World.query rgb_multisig_hub.World.exec
    rgb_multisig_hub.World.close_transaction rgb_multisig_hub.World.transaction
    rgb_multisig_hub.World.io_step rgb_multisig_hub.World.now
answer_test = refl

pub token_test :
    (authenticate plain three_cosigners tt (some "Bearer b") "/postoperation" new_hub)
    ≡ (ok (cosigner (record { xpub = "b"; idx = 2 })), new_hub)
unfolding rgb_multisig_hub.World.◌>>=◌ rgb_multisig_hub.World.pure rgb_multisig_hub.World.raise
    rgb_multisig_hub.World.ok_or rgb_multisig_hub.World.expect rgb_multisig_hub.World.raise_if
    rgb_multisig_hub.Auth.is_watch_only_allowed rgb_multisig_hub.Auth.bearer
    rgb_multisig_hub.Auth.user_of rgb_multisig_hub.Auth.is_token_expired
    rgb_multisig_hub.Auth.authenticate rgb_multisig_hub.State.get_xpub
    rgb_multisig_hub.State.get_idx rgb_multisig_hub.State.total_cosigners
token_test = refl

-- The rows come last inserted first.
abbrev pub started_state : AppState
started_state = record three_cosigners {
  rgb_lib_version = "0.3";
  cosigners_by_xpub = ("c", 3) ∷ ("b", 2) ∷ ("a", 1) ∷ [];
  cosigners_by_idx = (3, "c") ∷ (2, "b") ∷ (1, "a") ∷ [];
}

pub start_test : (start_daemon simple three_params no_tables).0 ≡ ok started_state
unfolding rgb_multisig_hub.World.◌>>=◌ rgb_multisig_hub.World.pure rgb_multisig_hub.World.raise
    rgb_multisig_hub.World.ok_or rgb_multisig_hub.World.expect rgb_multisig_hub.World.raise_if
    rgb_multisig_hub.World.query rgb_multisig_hub.World.exec
    rgb_multisig_hub.World.close_transaction rgb_multisig_hub.World.transaction
    rgb_multisig_hub.World.io_step rgb_multisig_hub.World.now rgb_multisig_hub.Startup.prepare
    rgb_multisig_hub.Startup.start_daemon rgb_multisig_hub.Files.read_file
    rgb_multisig_hub.Files.compute_file_id rgb_multisig_hub.Files.persist_temp_file
    rgb_multisig_hub.Files.store_file rgb_multisig_hub.Database.first_by_desc
    rgb_multisig_hub.Database.set_config rgb_multisig_hub.Database.set_cosigner_op_status
    rgb_multisig_hub.Database.insert_cosigners rgb_multisig_hub.Database.set_cosigners
    rgb_multisig_hub.Database.set_next_address_index rgb_multisig_hub.Database.get_config
    rgb_multisig_hub.Database.get_cosigner_by_idx
    rgb_multisig_hub.Database.get_cosigner_op_status_entry
    rgb_multisig_hub.Database.get_operation_by_idx
    rgb_multisig_hub.Database.get_op_files_by_operation_idx rgb_multisig_hub.Database.iter_cosigners
start_test = refl

pub restart_test :
    (start_daemon simple three_params (world_after (start_daemon simple three_params) no_tables)).0
    ≡ (start_daemon simple three_params no_tables).0
unfolding rgb_multisig_hub.World.◌>>=◌ rgb_multisig_hub.World.pure rgb_multisig_hub.World.raise
    rgb_multisig_hub.World.ok_or rgb_multisig_hub.World.expect rgb_multisig_hub.World.raise_if
    rgb_multisig_hub.World.query rgb_multisig_hub.World.exec
    rgb_multisig_hub.World.close_transaction rgb_multisig_hub.World.transaction
    rgb_multisig_hub.World.io_step rgb_multisig_hub.World.now rgb_multisig_hub.Startup.prepare
    rgb_multisig_hub.Startup.start_daemon rgb_multisig_hub.Database.first_by_desc
    rgb_multisig_hub.Database.set_config rgb_multisig_hub.Database.set_cosigner_op_status
    rgb_multisig_hub.Database.insert_cosigners rgb_multisig_hub.Database.set_cosigners
    rgb_multisig_hub.Database.set_next_address_index rgb_multisig_hub.Database.set_op_file
    rgb_multisig_hub.Database.set_or_keep rgb_multisig_hub.Database.set_transfer_status
    rgb_multisig_hub.Database.get_config rgb_multisig_hub.Database.get_cosigner_by_idx
    rgb_multisig_hub.Database.get_cosigner_op_status_entry rgb_multisig_hub.Database.iter_cosigners
restart_test = refl

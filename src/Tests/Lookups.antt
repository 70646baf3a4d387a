-- ===== src/Tests/Lookups.antt =====
-- What a lookup shows of the transfer that two of three cosigners have accepted.
use rgb_multisig_hub.Base.{
  ℕ, ◌≤◌, ◌≡◌, refl, sym, subst, String, true, some, none, List, [], ◌∷◌, Elem, inl, count, arith,
}
use rgb_multisig_hub.Operations.{
  send_rgb, approved, response_psbt, operation_psbt, fascia, FileType,
}
use rgb_multisig_hub.World.{CosignerOpStatus, World, OpFile, Cosigner, ok}
use rgb_multisig_hub.Auth.{cosigner}
use rgb_multisig_hub.Database.Rows.{op_file_has_idx, cosigner_has_idx}
use rgb_multisig_hub.Routes.Lookup.{FileMetadata, OperationResponse, get_operation_by_idx, get_file}
use rgb_multisig_hub.Routes.Shown.{IsShown, get_operation_by_idx-IsShown}
use rgb_multisig_hub.Base.{inr, ◌≢◌, eq_iff}
use rgb_multisig_hub.Routes.Credits.{IsCredited}
use rgb_multisig_hub.Routes.Posters.{IsResponseOf, get_operation_by_idx-credits_both}
use rgb_multisig_hub.Hub.Requests.{Request, serve, start, then}
use rgb_multisig_hub.Hub.Reach.{Reach-IsConsistent}
use rgb_multisig_hub.Hub.MarkAnswers.{entry-single}
use rgb_multisig_hub.Tests.Setup.{
  simple, simple-IsLawful, three_cosigners, three_cosigners-IsConfigured, new_hub, send_form,
  accept_form,
}
use rgb_multisig_hub.Tests.Runs.{alice, accepted}

abbrev file : ℕ → FileType → OpFile
file idx type = record { idx = idx; file_id = "digest"; type = type; operation_idx = 1 }

abbrev four_files : List OpFile
four_files =
    file 4 response_psbt ∷ file 3 response_psbt ∷ file 2 operation_psbt ∷ file 1 fascia ∷ []

abbrev listed : FileType → String → FileMetadata
listed type xpub = record { file_id = "digest"; type = type; posted_by_xpub = xpub; size_bytes = 1 }

-- The PSBT of the third cosigner is listed twice, once as posted by the first one.
abbrev shown : OperationResponse
shown = record {
  operation_idx = 1;
  initiator_xpub = "a";
  seed = some "digest";
  created_at = 10;
  operation_type = send_rgb;
  status = approved;
  acked_by = "c" ∷ "a" ∷ [];
  nacked_by = [];
  threshold = some 2;
  my_response = some true;
  processed_at = none;
  files =
      listed response_psbt "a"
      ∷ listed response_psbt "a"
      ∷ listed operation_psbt "a"
      ∷ listed fascia "a"
      ∷ listed response_psbt "c"
      ∷ [];
}

abbrev after_lookup : World
after_lookup = (get_operation_by_idx simple three_cosigners (cosigner alice) 1 accepted).1

abbrev carols_entry : CosignerOpStatus
carols_entry = record {
  idx = 3;
  cosigner_idx = 3;
  operation_idx = 1;
  ack = some true;
  responded_at = some 69;
  processed_at = none;
  psbt_op_file_idx = some 4;
}

accepted_rows :
    (accepted.db.op_files ≡ four_files)
    × (accepted.db.cosigners ≡ new_hub.db.cosigners)
    × ((get_operation_by_idx simple three_cosigners (cosigner alice) 1 accepted).0
        ≡ ok (some shown))
    × Elem carols_entry accepted.db.statuses
unfolding serve rgb_multisig_hub.Database.get_cosigner_by_idx
    rgb_multisig_hub.Database.get_cosigner_op_status_entry rgb_multisig_hub.Database.with_cosigners
    rgb_multisig_hub.Database.get_cosigner_op_status_with_cosigners_by_operation_idx
    rgb_multisig_hub.Database.get_last_cosigner_processed_op_idx
    rgb_multisig_hub.Database.get_next_address_index rgb_multisig_hub.Database.get_op_file_by_idx
    rgb_multisig_hub.Database.get_operation_by_idx
    rgb_multisig_hub.Database.get_op_files_by_operation_idx
    rgb_multisig_hub.Database.iter_cosigner_op_status_by_operation_idx
    rgb_multisig_hub.Database.has_pending_operation
    rgb_multisig_hub.Database.has_unprocessed_operation
    rgb_multisig_hub.Database.get_transfer_status rgb_multisig_hub.Database.set_cosigner_op_status
    rgb_multisig_hub.Database.set_op_file rgb_multisig_hub.Database.set_operation
    rgb_multisig_hub.Database.insert_transfer_status rgb_multisig_hub.Database.first_by_desc
    rgb_multisig_hub.Database.update_cosigner_op_status
    rgb_multisig_hub.Database.update_next_address_index rgb_multisig_hub.Database.update_operation
    rgb_multisig_hub.Files.read_file rgb_multisig_hub.Files.join
    rgb_multisig_hub.Files.persist_temp_file rgb_multisig_hub.Files.store_file
    rgb_multisig_hub.Multipart.field_bytes rgb_multisig_hub.Multipart.field_text
    rgb_multisig_hub.Multipart.write_chunks rgb_multisig_hub.Multipart.receive_file
    rgb_multisig_hub.Routes.Post.Form.read_form rgb_multisig_hub.Routes.Post.Form.check_seed
    rgb_multisig_hub.Routes.Post.Form.validate_form rgb_multisig_hub.Routes.Post.Save.initial_status
    rgb_multisig_hub.Routes.Post.Save.check_post_allowed rgb_multisig_hub.Routes.Post.Save.save_file
    rgb_multisig_hub.Routes.Post.Save.save_operation
    rgb_multisig_hub.Routes.Post.Save.post_operation rgb_multisig_hub.Routes.Respond.validate_form
    rgb_multisig_hub.Routes.Respond.read_request rgb_multisig_hub.Routes.Respond.read_psbt
    rgb_multisig_hub.Routes.Respond.respond_to_operation rgb_multisig_hub.State.get_xpub
    rgb_multisig_hub.State.total_cosigners rgb_multisig_hub.Votes.add_vote
    rgb_multisig_hub.Votes.count_votes rgb_multisig_hub.Votes.new_status
    rgb_multisig_hub.World.◌>>=◌ rgb_multisig_hub.World.pure rgb_multisig_hub.World.raise
    rgb_multisig_hub.World.ok_or rgb_multisig_hub.World.expect rgb_multisig_hub.World.raise_if
    rgb_multisig_hub.World.query rgb_multisig_hub.World.exec
    rgb_multisig_hub.World.close_transaction rgb_multisig_hub.World.transaction
    rgb_multisig_hub.World.io_step rgb_multisig_hub.World.now rgb_multisig_hub.Routes.Lookup.voters
    rgb_multisig_hub.Routes.Lookup.get_operation_by_idx rgb_multisig_hub.Routes.Lookup.get_file
    rgb_multisig_hub.Routes.Lookup.info
    rgb_multisig_hub.Routes.Lookup.get_operation_by_idx_with_files
    rgb_multisig_hub.Routes.Lookup.response_of rgb_multisig_hub.Routes.Lookup.operation_response
    rgb_multisig_hub.Routes.Lookup.operation_files rgb_multisig_hub.Routes.Lookup.file_size
    rgb_multisig_hub.Routes.Lookup.response_files rgb_multisig_hub.Routes.Lookup.add_response_file
    rgb_multisig_hub.Routes.Lookup.response_file rgb_multisig_hub.Routes.Lookup.my_entry
accepted_rows = (refl, refl, refl, inl refl)

four_files-distinct : (k : ℕ) → count (op_file_has_idx k) four_files ≤ 1
four_files-distinct k = ground arith

three-distinct : (k : ℕ) → count (cosigner_has_idx k) new_hub.db.cosigners ≤ 1
three-distinct k = ground arith

get_operation_by_idx-IsShown_example : IsShown three_cosigners (some 1) 1 accepted.db shown
get_operation_by_idx-IsShown_example =
    get_operation_by_idx-IsShown simple simple-IsLawful three_cosigners (cosigner alice) 1 accepted
      {u = after_lookup}
      (subst (λ rows. (k : ℕ) → count (cosigner_has_idx k) rows ≤ 1) (sym (accepted_rows.1))
        three-distinct)
      (λ c.
        entry-single simple simple-IsLawful three_cosigners three_cosigners-IsConfigured
          (λ tick. refl) accepted c 1
          (Reach-IsConsistent simple simple-IsLawful three_cosigners three_cosigners-IsConfigured
            new_hub refl refl accepted
            (then
              (then (then start (Request.post_operation 1 send_form))
                (Request.respond_to_operation 1 (accept_form 1)))
              (Request.respond_to_operation 3 (accept_form 1)))).tables)
      (λ i. (accepted_rows.2 i, after_lookup))

abbrev carol : Cosigner
carol = record { idx = 3; xpub = "c" }

-- The response of the third cosigner, with its PSBT.
carols_file : IsResponseOf 1 carol (file 4 response_psbt) accepted.db
carols_file = record {
  entry = carols_entry;
  in_op_files = subst (λ rows. Elem (file 4 response_psbt) rows) (sym (accepted_rows.0)) (inl refl);
  in_statuses = accepted_rows.3;
  in_cosigners = subst (λ rows. Elem carol rows) (sym (accepted_rows.1)) (inr (inr (inl refl)));
  file_of = refl;
  entry_of = refl;
  typed = refl;
  voter_idx = refl;
  names = refl;
}

not_initiator : carol.xpub ≢ shown.initiator_xpub
not_initiator e = cc ((eq_iff "c" "a").1 e)

get_operation_by_idx-credits_both_example :
    IsCredited "c" (file 4 response_psbt) shown.files
    × IsCredited "a" (file 4 response_psbt) shown.files
get_operation_by_idx-credits_both_example =
    get_operation_by_idx-credits_both simple simple-IsLawful three_cosigners (cosigner alice) 1
      carol (file 4 response_psbt) accepted {u = after_lookup}
      (subst (λ rows. (k : ℕ) → count (op_file_has_idx k) rows ≤ 1) (sym (accepted_rows.0))
        four_files-distinct)
      (subst (λ rows. (k : ℕ) → count (cosigner_has_idx k) rows ≤ 1) (sym (accepted_rows.1))
        three-distinct)
      carols_file (λ i. (accepted_rows.2 i, after_lookup)) not_initiator

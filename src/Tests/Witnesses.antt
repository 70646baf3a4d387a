-- ===== src/Tests/Witnesses.antt =====
-- The theorems at the runs of the small hub.
use rgb_multisig_hub.Base.{
  ℕ, ◌+◌, ◌≤◌, ◌<◌, ◌≡◌, ◌↔◌, refl, Bool, true, false, Option, none, some, List, [], ◌∷◌, count,
  arith, Elem,
}
use rgb_multisig_hub.Operations.{OperationStatus, approved, discarded}
use rgb_multisig_hub.World.{CosignerOpStatus, TransferStatus}
use rgb_multisig_hub.World.Atomic.{Atomic}
use rgb_multisig_hub.Database.Rows.{operation_is_pending, status_is_unprocessed_by}
use rgb_multisig_hub.Auth.{AuthenticatedUser, cosigner}
use rgb_multisig_hub.Multipart.{Multipart}
use rgb_multisig_hub.Files.{compute_file_id}
use rgb_multisig_hub.Files.Identity.{ReturnsOrIo, content_id, compute_file_id_lem}
use rgb_multisig_hub.Votes.{count_votes, new_status}
use rgb_multisig_hub.Votes.Decision.{count_votes_exact, new_status_lem}
use rgb_multisig_hub.Routes.Addresses.{BumpAddressIndicesRequest, bump_address_indices}
use rgb_multisig_hub.Routes.Transfers.{TransferStatusRequest, info_of, transfer_status}
use rgb_multisig_hub.Routes.Processed.{mark_operation_processed}
use rgb_multisig_hub.Routes.Post.Save.{post_operation}
use rgb_multisig_hub.Routes.Respond.{record_response}
use rgb_multisig_hub.Routes.Atomicity.{requests-Atomic}
use rgb_multisig_hub.Routes.Ranges.{Reserved, bump_address_indices-Reserved}
use rgb_multisig_hub.Routes.FirstAnswer.{Answered, transfer_status-Answered}
use rgb_multisig_hub.World.Panics.{NoPanic}
use rgb_multisig_hub.Hub.Unbroken.{record_response-NoPanic}
use rgb_multisig_hub.Hub.Settled.{IsConsistent, votes, processed}
use rgb_multisig_hub.Hub.Posting.{Posted, post_operation-Posted}
use rgb_multisig_hub.Hub.Recorded.{Recorded}
use rgb_multisig_hub.Hub.Recording.{record_response-Recorded}
use rgb_multisig_hub.Hub.Marking.{Marked, mark_operation_processed-Marked}
use rgb_multisig_hub.Hub.Requests.{Reach, start, then, world_after}
use rgb_multisig_hub.Hub.Requests.{Request}
use rgb_multisig_hub.Hub.Reach.{Decided, Reach-IsConsistent, Reach-final, Reach-votes, Reach-status}
use rgb_multisig_hub.Routes.Refusals.{post_operation-refused, post_operation-behind}
use rgb_multisig_hub.Errors.{ApiError}
use rgb_multisig_hub.World.{World, err}
use rgb_multisig_hub.Operations.{pending}
use rgb_multisig_hub.Tests.Setup.{
  simple, simple-IsLawful, three_cosigners, three_cosigners-IsConfigured, new_hub, send_form,
  accept_form,
}
use rgb_multisig_hub.Tests.Runs.{
  alice, accepted_once, accepted, marked, sent, post_test, accept_test, accepted_test, mark_test,
  bump_test, answer_test,
}

abbrev reach_accepted : Reach simple three_cosigners new_hub accepted
reach_accepted =
    then
      (then (then start (Request.post_operation 1 send_form))
        (Request.respond_to_operation 1 (accept_form 1)))
      (Request.respond_to_operation 3 (accept_form 1))

abbrev reach_marked : Reach simple three_cosigners accepted marked
reach_marked = then start (Request.mark_operation_processed 3 1)

Reach-IsConsistent_example : IsConsistent three_cosigners accepted.db
Reach-IsConsistent_example =
    Reach-IsConsistent simple simple-IsLawful three_cosigners three_cosigners-IsConfigured new_hub
      refl refl accepted reach_accepted

Reach-status_example :
    Decided approved
      (some 2)
      (votes true 1 accepted.db.statuses)
      (votes false 1 accepted.db.statuses)
      3
unfolding rgb_multisig_hub.Operations.get_threshold_for_operation
Reach-status_example =
    Reach-status simple simple-IsLawful three_cosigners three_cosigners-IsConfigured new_hub refl
      refl accepted reach_accepted sent accepted_test

Reach-final_example : Elem sent marked.db.operations
Reach-final_example =
    Reach-final simple simple-IsLawful three_cosigners three_cosigners-IsConfigured new_hub refl
      refl accepted marked reach_accepted reach_marked sent accepted_test refl

Reach-votes_example :
    (votes true 1 accepted.db.statuses ≤ votes true 1 marked.db.statuses)
    × (votes false 1 accepted.db.statuses ≤ votes false 1 marked.db.statuses)
    × (processed 1 accepted.db.statuses ≤ processed 1 marked.db.statuses)
Reach-votes_example =
    Reach-votes simple simple-IsLawful three_cosigners three_cosigners-IsConfigured new_hub refl
      refl accepted marked reach_accepted reach_marked 1

requests-Atomic_example :
    ((req : BumpAddressIndicesRequest) → Atomic (bump_address_indices simple req))
    × ((c i : ℕ) → Atomic (mark_operation_processed simple c i))
    × ((c : ℕ) (form : Multipart) → Atomic (post_operation simple three_cosigners c form))
    × ((user : AuthenticatedUser) (req : TransferStatusRequest)
        → Atomic (transfer_status simple three_cosigners user req))
    × ((c : ℕ) (form : Multipart) → Atomic (record_response simple three_cosigners c form))
requests-Atomic_example = requests-Atomic simple three_cosigners

post_operation-Posted_example :
    Posted three_cosigners 1 1 new_hub.db
      (world_after (post_operation simple three_cosigners 1 send_form) new_hub).db
    × (count operation_is_pending new_hub.db.operations ≡ 0)
    × (count (status_is_unprocessed_by 1) new_hub.db.statuses ≡ 0)
post_operation-Posted_example =
    post_operation-Posted simple simple-IsLawful three_cosigners 1 send_form new_hub
      (λ i. (post_test i, world_after (post_operation simple three_cosigners 1 send_form) new_hub))

record_response-Recorded_example :
    Recorded simple three_cosigners
      (accept_form 1)
      3
      1
      accepted_once.db
      (world_after (record_response simple three_cosigners 3 (accept_form 1)) accepted_once).db
record_response-Recorded_example =
    record_response-Recorded simple simple-IsLawful three_cosigners 3 (accept_form 1) accepted_once
      (λ i. (
        accept_test i,
        world_after (record_response simple three_cosigners 3 (accept_form 1)) accepted_once,
      ))

mark_operation_processed-Marked_example :
    Marked 3 1 accepted.db (world_after (mark_operation_processed simple 3 1) accepted).db
mark_operation_processed-Marked_example =
    mark_operation_processed-Marked simple simple-IsLawful 3 1 accepted
      (λ i. (mark_test i, world_after (mark_operation_processed simple 3 1) accepted))

abbrev five_internal : BumpAddressIndicesRequest
five_internal = record { count = 5; internal = true }

bump_address_indices-Reserved_example :
    Reserved five_internal
      (record { idx = 1; internal = 0; external = 0 })
      0
      new_hub.db
      (world_after (bump_address_indices simple five_internal) new_hub).db
bump_address_indices-Reserved_example =
    bump_address_indices-Reserved simple simple-IsLawful five_internal
      (record { idx = 1; internal = 0; external = 0 }) new_hub refl
      (λ i. (bump_test i, world_after (bump_address_indices simple five_internal) new_hub))

abbrev accept_fourth : TransferStatusRequest
accept_fourth = record { batch_transfer_idx = 4; accept = some true }

transfer_status-Answered_example :
    (row : TransferStatus) × (some
        (record { cosigner_xpub = "a"; accepted = true; registered_at = 0 })
      ≡ some (info_of three_cosigners row))
    × Answered 1 4 true row new_hub.db
        (world_after
          (transfer_status simple three_cosigners (cosigner alice) accept_fourth)
          new_hub).db
transfer_status-Answered_example =
    transfer_status-Answered simple simple-IsLawful three_cosigners alice 4 true new_hub (λ i. (
      answer_test i,
      world_after (transfer_status simple three_cosigners (cosigner alice) accept_fourth) new_hub,
    ))

compute_file_id_example :
    ReturnsOrIo simple
      (content_id simple (1 ∷ 2 ∷ 3 ∷ []))
      new_hub
      (compute_file_id simple (1 ∷ 2 ∷ 3 ∷ []) new_hub)
compute_file_id_example = compute_file_id_lem simple simple-IsLawful (1 ∷ 2 ∷ 3 ∷ []) new_hub

abbrev vote : ℕ → Option Bool → CosignerOpStatus
vote c ack = record {
  idx = c;
  cosigner_idx = c;
  operation_idx = 1;
  ack = ack;
  responded_at = none;
  processed_at = none;
  psbt_op_file_idx = none;
}

abbrev three_entries : List CosignerOpStatus
three_entries = vote 1 (some true) ∷ vote 2 (some false) ∷ vote 3 none ∷ []

count_votes_example : count_votes three_entries ≡ (1, 1)
count_votes_example = count_votes_exact three_entries (omega arith)

new_status_example :
    ((new_status 2 1 2 3 ≡ some approved) ↔ (2 ≤ 2))
    × ((new_status 2 1 2 3 ≡ some discarded) ↔ ((2 < 2) × (3 < 1 + 2)))
    × ((new_status 2 1 2 3 ≡ none) ↔ ((2 < 2) × (1 + 2 ≤ 3)))
new_status_example = new_status_lem 2 1 2 3 (omega arith) (omega arith)

-- A pending operation, which no one has processed.
abbrev busy_hub : World
busy_hub = record new_hub {
  db = record new_hub.db {
    operations = record sent { status = pending } ∷ [];
    statuses = vote 1 none ∷ vote 2 none ∷ vote 3 none ∷ [];
  };
}

post_operation-refused_example :
    ((post_operation simple three_cosigners 2 send_form busy_hub).0
      ≡ err (ApiError.cannot_post_new_operation "another operation is still pending"))
    × ((post_operation simple three_cosigners 2 send_form busy_hub).1.db ≡ busy_hub.db)
post_operation-refused_example =
    post_operation-refused simple simple-IsLawful three_cosigners 2 send_form busy_hub refl refl
      (omega arith)

-- A decided operation, which no one has processed.
abbrev behind_hub : World
behind_hub = record busy_hub { db = record busy_hub.db { operations = sent ∷ [] } }

post_operation-behind_example :
    ((post_operation simple three_cosigners 2 send_form behind_hub).0
      ≡ err (ApiError.cannot_post_new_operation "initiator has unprocessed operations"))
    × ((post_operation simple three_cosigners 2 send_form behind_hub).1.db ≡ behind_hub.db)
post_operation-behind_example =
    post_operation-behind simple simple-IsLawful three_cosigners 2 send_form behind_hub refl refl
      refl (omega arith)

record_response-NoPanic_example :
    NoPanic (record_response simple three_cosigners 3 (accept_form 1) accepted_once).0
record_response-NoPanic_example =
    record_response-NoPanic simple simple-IsLawful three_cosigners 3 (accept_form 1) accepted_once
      (Reach-IsConsistent simple simple-IsLawful three_cosigners three_cosigners-IsConfigured
        new_hub refl refl accepted_once
        (then (then start (Request.post_operation 1 send_form))
          (Request.respond_to_operation 1 (accept_form 1)))).tables
      (omega arith)

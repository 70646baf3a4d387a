-- ===== src/Votes.antt =====
-- How src/routes.rs counts the responses to an operation and decides it, in the `u8` arithmetic of
-- a release build, which wraps.
pub mod Decision
pub mod Overflow
use rgb_multisig_hub.Base.{
  ℕ, ◌+◌, ◌-◌, ◌%◌, Bool, true, false, Option, none, some, List, foldl, ltb, leb, if◌then◌else◌,
}
use rgb_multisig_hub.Operations.{OperationStatus, approved, discarded}
use rgb_multisig_hub.World.{CosignerOpStatus}

unfoldable pub add_vote : Option Bool → ℕ × ℕ → ℕ × ℕ
add_vote (some true) (ack, nack) = ((ack + 1) % 256, nack)
add_vote (some false) (ack, nack) = (ack, (nack + 1) % 256)
add_vote none (ack, nack) = (ack, nack)

-- The fold over the status entries.
unfoldable pub count_votes : List CosignerOpStatus → ℕ × ℕ
unfolding add_vote
count_votes entries = foldl (λ votes s. add_vote s.ack votes) (0, 0) entries

unfoldable pub new_status : ℕ → ℕ → ℕ → ℕ → Option OperationStatus
new_status ack_count nack_count threshold total =
    if leb threshold ack_count
    then some approved
    else if ltb ((total + 256 - threshold) % 256) nack_count
    then some discarded
    else none

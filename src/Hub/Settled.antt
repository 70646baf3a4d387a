-- ===== src/Hub/Settled.antt =====
-- The votes on an operation, the status that they call for, and the consistency of the tables.
use rgb_multisig_hub.Base.{
  ℕ, ◌+◌, ◌*◌, ◌≤◌, ◌<◌, ◌≡◌, Bool, true, false, ◌&&◌, Option, none, some, List, ◌==◌, count,
  length, All, is_some,
}
use rgb_multisig_hub.Operations.{
  OperationStatus, pending, approved, discarded, OperationType, get_threshold_for_operation,
}
use rgb_multisig_hub.World.{Operation, CosignerOpStatus, Db}
use rgb_multisig_hub.Database.Rows.{
  operation_has_idx, operation_is_pending, status_has_idx, status_is_of, status_is_entry,
}
use rgb_multisig_hub.State.{AppState}
use rgb_multisig_hub.Votes.Decision.{is_vote}

-- The hub's configuration, as the startup checks it, for at most 255 cosigners: more would pass
-- the startup and not fit the `u8` counters.
pub record IsConfigured (state : AppState) : Type 0 where
  pub same_size : length state.cosigners_by_xpub ≡ length state.cosigners_by_idx
  pub few : length state.cosigners_by_idx ≤ 255
  pub vanilla_pos : 0 < state.threshold_vanilla
  pub vanilla_reachable : state.threshold_vanilla ≤ length state.cosigners_by_idx
  pub colored_pos : 0 < state.threshold_colored
  pub colored_reachable : state.threshold_colored ≤ length state.cosigners_by_idx
  pub distinct : (c : ℕ) → count (λ p. p.0 == c) state.cosigners_by_idx ≤ 1

abbrev pub votes : Bool → ℕ → List CosignerOpStatus → ℕ
votes v i statuses = count (λ s. status_is_of i s && is_vote v s) statuses

-- How many cosigners have marked the operation as processed.
abbrev pub processed : ℕ → List CosignerOpStatus → ℕ
processed i statuses = count (λ s. status_is_of i s && is_some s.processed_at) statuses

abbrev pub threshold_of : AppState → OperationType → Option ℕ
threshold_of state type =
    get_threshold_for_operation type state.threshold_vanilla state.threshold_colored

-- What the status of an operation says of its threshold, its positive and negative votes, those who
-- have processed it, and the number of cosigners.
abbrev pub Verdict : OperationStatus → Option ℕ → ℕ → ℕ → ℕ → ℕ → Type 0
Verdict pending (some t) acks nacks done total = (acks < t) × (nacks + t ≤ total) × (done ≡ 0)
Verdict pending none acks nacks done total = ⊥
Verdict approved (some t) acks nacks done total = t ≤ acks
Verdict approved none acks nacks done total = Unit {0}
Verdict discarded (some t) acks nacks done total = (acks < t) × (total < nacks + t)
Verdict discarded none acks nacks done total = ⊥

abbrev pub Settled : AppState → List CosignerOpStatus → Operation → Type 0
Settled state statuses op =
    Verdict op.status (threshold_of state op.type) (votes true op.idx statuses)
      (votes false op.idx statuses) (processed op.idx statuses) (length state.cosigners_by_idx)

-- At most one operation is pending; keys are unique; every operation has one entry for each
-- cosigner, and no entry is of anything else; and each operation has the status that its votes
-- call for.
pub record Consistent (state : AppState) (operations : List Operation)
    (statuses : List CosignerOpStatus) : Type 0 where
  pub one_pending : count operation_is_pending operations ≤ 1
  pub op_unique : (i : ℕ) → count (operation_has_idx i) operations ≤ 1
  pub status_unique : (k : ℕ) → count (status_has_idx k) statuses ≤ 1
  pub entries_of :
      (i : ℕ)
      → count (status_is_of i) statuses
        ≡ count (operation_has_idx i) operations * length state.cosigners_by_idx
  pub entry :
      (c i : ℕ)
      → count (status_is_entry c i) statuses
        ≡ count (operation_has_idx i) operations * count (λ p. p.0 == c) state.cosigners_by_idx
  pub settled : All (Settled state statuses) operations

pub record IsConsistent (state : AppState) (db : Db) : Type 0 where
  pub tables : Consistent state db.operations db.statuses

-- ===== src/Database/Rows.antt =====
-- The tests on rows by which the queries of src/database/mod.rs filter, and the forms of a query.
use rgb_multisig_hub.Base.{
  ℕ, Bool, ◌&&◌, not, Option, none, some, List, [], ◌∷◌, ltb, ◌==◌, if◌then◌else◌, is_some, filter,
  head?,
}
use rgb_multisig_hub.Operations.{is_pending}
use rgb_multisig_hub.World.{Env, Operation, Cosigner, OpFile, CosignerOpStatus, TransferStatus}

abbrev pub operation_has_idx : ℕ → Operation → Bool
operation_has_idx i r = r.idx == i

abbrev pub operation_is_pending : Operation → Bool
operation_is_pending r = is_pending r.status

abbrev pub op_file_has_idx : ℕ → OpFile → Bool
op_file_has_idx i r = r.idx == i

abbrev pub op_file_is_of : ℕ → OpFile → Bool
op_file_is_of i r = r.operation_idx == i

abbrev pub cosigner_has_idx : ℕ → Cosigner → Bool
cosigner_has_idx i r = r.idx == i

abbrev pub status_has_idx : ℕ → CosignerOpStatus → Bool
status_has_idx i r = r.idx == i

abbrev pub status_is_of : ℕ → CosignerOpStatus → Bool
status_is_of i r = r.operation_idx == i

-- Filters by the cosigner and the operation.
abbrev pub status_is_entry : ℕ → ℕ → CosignerOpStatus → Bool
status_is_entry cosigner operation r = r.cosigner_idx == cosigner && r.operation_idx == operation

abbrev pub status_is_processed_by : ℕ → CosignerOpStatus → Bool
status_is_processed_by cosigner r = r.cosigner_idx == cosigner && is_some r.processed_at

abbrev pub status_is_unprocessed_by : ℕ → CosignerOpStatus → Bool
status_is_unprocessed_by cosigner r = r.cosigner_idx == cosigner && not (is_some r.processed_at)

abbrev pub transfer_is_of : ℕ → TransferStatus → Bool
transfer_is_of batch r = r.batch_transfer_idx == batch

module _ (env : Env) {A : Type 0} where
  -- `find().filter(p).all()`
  abbrev pub all : ℕ → (A → Bool) → List A → List A
  all tick p rows = filter p (env.scan A tick rows)

  -- `find().filter(p).one()`
  abbrev pub one : ℕ → (A → Bool) → List A → Option A
  one tick p rows = head? (filter p (env.scan A tick rows))

module _ {A : Type 0} where
  -- `order_by_desc(column).one()`
  unfoldable pub first_by_desc : (A → ℕ) → List A → Option A
  first_by_desc column [] = none
  first_by_desc column (x ∷ xs) = elim (first_by_desc column xs) [
    | none ↦ some x
    | some y ↦ if ltb (column x) (column y) then some y else some x
  ]

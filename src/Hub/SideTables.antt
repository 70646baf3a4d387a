-- ===== src/Hub/SideTables.antt =====
-- The requests of src/routes.rs on addresses and transfers, for any part of the tables that their one
-- write leaves alone.
use rgb_multisig_hub.Base.{ℕ, Bool, Option, none, some}
use rgb_multisig_hub.World.{Env, Db, NextAddressIndex, TransferStatus}
use rgb_multisig_hub.World.Atomic.{
  ReadOnly-pure, ReadOnly-raise, ReadOnly-now, ReadOnly-query, ReadOnly-raise_if, ReadOnly-ok_or,
}
use rgb_multisig_hub.World.Keeps.{Keeps, Keeps-ReadOnly, Keeps-bind, Keeps-transaction}
use rgb_multisig_hub.Errors.{ApiError_from_db_err}
use rgb_multisig_hub.Database.{
  update_next_address_index, set_transfer_status, set_or_keep, new_transfer_status,
  insert_transfer_status, transfer_row,
}
use rgb_multisig_hub.Database.Reads.{ReadOnly-get_next_address_index, database_reads}
use rgb_multisig_hub.State.{AppState}
use rgb_multisig_hub.Auth.{AuthenticatedUser, cosigner, watch_only}
use rgb_multisig_hub.Routes.Addresses.{BumpAddressIndicesRequest, bump_index, bump_address_indices}
use rgb_multisig_hub.Routes.Transfers.{TransferStatusRequest, set_or_read, transfer_status}

module _ {X : Type 0} (part : Db → X) (env : Env)
    (moved : (k : ℕ) (f : NextAddressIndex → NextAddressIndex)
      → Keeps part (update_next_address_index env k f)) where
  pub bump_address_indices-kept_part :
      (req : BumpAddressIndicesRequest) → Keeps part (bump_address_indices env req)
  unfolding bump_address_indices bump_index
  bump_address_indices-kept_part req = Keeps-bind (Keeps-ReadOnly part (ReadOnly-raise_if _ _)) λ _.
      Keeps-transaction env part _ (
        Keeps-bind (Keeps-ReadOnly part (ReadOnly-get_next_address_index env)) λ index.
          Keeps-bind (Keeps-ReadOnly part (ReadOnly-ok_or _ _))
            λ n. Keeps-bind (moved _ _) λ _. Keeps-ReadOnly part (ReadOnly-pure _))

module _ {X : Type 0} (part : Db → X) (env : Env)
    (answered : (row : ℕ → TransferStatus) → Keeps part (insert_transfer_status env row)) where
  set_or_keep-kept_part :
      (batch c time : ℕ) (accepted : Bool) (found : Option TransferStatus)
      → Keeps part (set_or_keep env batch c time accepted found)
  unfolding set_or_keep new_transfer_status
  set_or_keep-kept_part batch c time accepted none =
      Keeps-bind (answered (transfer_row batch c time accepted))
        (λ k. Keeps-ReadOnly part (ReadOnly-pure _))
  set_or_keep-kept_part batch c time accepted (some old) =
      Keeps-ReadOnly part (search database_reads)

  set_transfer_status-kept_part :
      (batch c time : ℕ) (accepted : Bool)
      → Keeps part (set_transfer_status env batch c time accepted)
  unfolding set_transfer_status
  set_transfer_status-kept_part batch c time accepted =
      Keeps-bind (Keeps-ReadOnly part (ReadOnly-query env _))
        (set_or_keep-kept_part batch c time accepted)

  module _ (state : AppState) where
    set_or_read-kept_part :
        (user : AuthenticatedUser) (batch : ℕ) (accept : Option Bool)
        → Keeps part (set_or_read env state user batch accept)
    unfolding set_or_read
    set_or_read-kept_part watch_only batch (some a) = Keeps-ReadOnly part (ReadOnly-raise _)
    set_or_read-kept_part (cosigner c) batch (some a) =
        Keeps-bind (Keeps-ReadOnly part (ReadOnly-now env)) λ time.
          Keeps-bind
            (Keeps-transaction env part _ (set_transfer_status-kept_part batch c.idx time a))
            λ row. Keeps-ReadOnly part (ReadOnly-pure _)
    set_or_read-kept_part user batch none = Keeps-ReadOnly part (search database_reads)

    pub transfer_status-kept_part :
        (user : AuthenticatedUser) (req : TransferStatusRequest)
        → Keeps part (transfer_status env state user req)
    unfolding transfer_status
    transfer_status-kept_part user req = set_or_read-kept_part user _ _

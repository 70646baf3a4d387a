-- ===== src/Routes/Transfers.antt =====
-- `transfer_status` of src/routes.rs.
use rgb_multisig_hub.Base.{ℕ, String, Bool, Option, none, some, get_or}
use mathlib.Core.Option
use rgb_multisig_hub.Errors.{ApiError, ApiError_from_db_err}
use rgb_multisig_hub.World.{Env, M, pure, raise, now, transaction, ◌>>=◌, TransferStatus}
use rgb_multisig_hub.Database.{set_transfer_status, get_transfer_status}
use rgb_multisig_hub.State.{AppState, get_xpub}
use rgb_multisig_hub.Auth.{AuthenticatedUser, cosigner, watch_only}

pub record TransferStatusInfo : Type 0 where
  pub cosigner_xpub : String
  pub accepted : Bool
  pub registered_at : ℕ

pub record TransferStatusRequest : Type 0 where
  pub batch_transfer_idx : ℕ
  pub accept : Option Bool

-- The xPub is empty if the cosigner is not known.
abbrev pub info_of : AppState → TransferStatus → TransferStatusInfo
info_of state row = record {
  cosigner_xpub = get_or (get_xpub row.cosigner_idx state.cosigners_by_idx) "";
  accepted = row.accepted;
  registered_at = row.registered_at;
}

module _ (env : Env) (state : AppState) where
  -- The branch that sets a status, for a user who is a cosigner.
  unfoldable pub register_transfer_status :
      AuthenticatedUser → ℕ → Bool → M ApiError (Option TransferStatusInfo)
  register_transfer_status watch_only batch_transfer_idx accepted = raise ApiError.forbidden
  register_transfer_status (cosigner c) batch_transfer_idx accepted = do
    registered_at ← now env
    row ← transaction env (set_transfer_status env batch_transfer_idx c.idx registered_at accepted)
    pure (some (info_of state row))

  unfoldable pub read_transfer_status : ℕ → M ApiError (Option TransferStatusInfo)
  read_transfer_status batch_transfer_idx = do
    row ← get_transfer_status env batch_transfer_idx
    pure (Option.map (info_of state) row)

  unfoldable pub set_or_read :
      AuthenticatedUser → ℕ → Option Bool → M ApiError (Option TransferStatusInfo)
  unfolding register_transfer_status read_transfer_status
  set_or_read user batch_transfer_idx (some accepted) =
      register_transfer_status user batch_transfer_idx accepted
  set_or_read user batch_transfer_idx none = read_transfer_status batch_transfer_idx

  unfoldable pub transfer_status :
      AuthenticatedUser → TransferStatusRequest → M ApiError (Option TransferStatusInfo)
  unfolding set_or_read
  transfer_status user req = set_or_read user req.batch_transfer_idx req.accept

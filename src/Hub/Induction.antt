-- ===== src/Hub/Induction.antt =====
-- What posting, responding and marking keep holds of every world that is reached, if the requests on
-- addresses and transfers keep it.
use rgb_multisig_hub.Base.{ap, ◌≡◌}
use rgb_multisig_hub.World.{Env, World, Db}
use rgb_multisig_hub.Database.Reads.{ReadOnly-get_last_cosigner_processed_op_idx}
use rgb_multisig_hub.State.{AppState}
use rgb_multisig_hub.Auth.{AuthenticatedUser}
use rgb_multisig_hub.Routes.Reads.{
  ReadOnly-get_operation_by_idx, ReadOnly-get_file, ReadOnly-info,
  ReadOnly-get_current_address_indices,
}
use rgb_multisig_hub.Routes.Processed.{get_last_processed_op_idx}
use rgb_multisig_hub.Routes.Addresses.{BumpAddressIndicesRequest, bump_address_indices}
use rgb_multisig_hub.Routes.Transfers.{TransferStatusRequest, transfer_status}
use rgb_multisig_hub.Hub.Aside.{
  rest_part, mark_operation_processed-Aside, post_operation-Aside, respond_to_operation-Aside,
}
use rgb_multisig_hub.Hub.Requests.{Request, serve, Reach, start, then, world_after}

module _ (env : Env) (state : AppState) (P : Db → Type 0)
    (aside : (before after : Db) → rest_part after ≡ rest_part before → P before → P after)
    (bumped : (req : BumpAddressIndicesRequest) (w : World)
      → P w.db
      → P (world_after (bump_address_indices env req) w).db)
    (answered : (user : AuthenticatedUser) (req : TransferStatusRequest) (w : World)
      → P w.db
      → P (world_after (transfer_status env state user req) w).db) where
  serve-aside : (req : Request) (w : World) → P w.db → P (serve env state req w).db
  unfolding serve get_last_processed_op_idx
  serve-aside (Request.bump_address_indices req) w = bumped req w
  serve-aside Request.get_current_address_indices w =
      aside w.db _ (ap rest_part ((ReadOnly-get_current_address_indices env).same w))
  serve-aside (Request.get_file id) w =
      aside w.db _ (ap rest_part ((ReadOnly-get_file env state id).same w))
  serve-aside (Request.get_operation_by_idx user i) w =
      aside w.db _ (ap rest_part ((ReadOnly-get_operation_by_idx env state user i).same w))
  serve-aside (Request.info user) w =
      aside w.db _ (ap rest_part ((ReadOnly-info env state user).same w))
  serve-aside (Request.get_last_processed_op_idx c) w =
      aside w.db _ (ap rest_part ((ReadOnly-get_last_cosigner_processed_op_idx env c).same w))
  serve-aside (Request.mark_operation_processed c i) w =
      aside w.db _ ((mark_operation_processed-Aside env c i).kept w)
  serve-aside (Request.post_operation c form) w =
      aside w.db _ ((post_operation-Aside env state c form).kept w)
  serve-aside (Request.respond_to_operation c form) w =
      aside w.db _ ((respond_to_operation-Aside env state c form).kept w)
  serve-aside (Request.transfer_status user req) w = answered user req w

  pub Reach-aside : (w u : World) → Reach env state w u → P w.db → P u.db
  Reach-aside w _ start h = h
  Reach-aside w _ (then {u} before req) h = serve-aside req u (Reach-aside w u before h)

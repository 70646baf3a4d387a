-- ===== src/Hub/Gate.antt =====
-- The router of src/main.rs with the middleware and the extractors of src/auth.rs: from a request as it
-- comes to the handler that it reaches, if any.
use rgb_multisig_hub.Base.{ℕ, String, Option, none, some}
use mathlib.Core.Option
use rgb_multisig_hub.Errors.{AuthError}
use rgb_multisig_hub.World.{Env, World, Outcome, ok, err, panic}
use rgb_multisig_hub.State.{AppState}
use rgb_multisig_hub.Auth.{AuthenticatedUser, Biscuit, authenticate, as_cosigner}
use rgb_multisig_hub.Multipart.{Multipart}
use rgb_multisig_hub.Routes.Addresses.{BumpAddressIndicesRequest}
use rgb_multisig_hub.Routes.Transfers.{TransferStatusRequest}
use rgb_multisig_hub.Hub.Requests.{Request, serve}

-- A route with the body that comes on it.
pub data Call : Type 0 where
  post_operation : Multipart → Call
  bump_address_indices : BumpAddressIndicesRequest → Call
  transfer_status : TransferStatusRequest → Call
  get_current_address_indices : Call
  get_file : String → Call
  get_last_processed_op_idx : Call
  get_operation_by_idx : ℕ → Call
  info : Call
  mark_operation_processed : ℕ → Call
  respond_to_operation : Multipart → Call

unfoldable pub path_of : Call → String
path_of (post_operation _) = "/postoperation"
path_of (bump_address_indices _) = "/bumpaddressindices"
path_of (transfer_status _) = "/transferstatus"
path_of get_current_address_indices = "/getcurrentaddressindices"
path_of (get_file _) = "/getfile"
path_of get_last_processed_op_idx = "/getlastprocessedopidx"
path_of (get_operation_by_idx _) = "/getoperationbyidx"
path_of info = "/info"
path_of (mark_operation_processed _) = "/markoperationprocessed"
path_of (respond_to_operation _) = "/respondtooperation"

-- The request that the extractors of a handler make of a call, if they do.
unfoldable pub extract : AuthenticatedUser → Call → Option Request
extract user (post_operation form) =
    Option.map (λ c. Request.post_operation c.idx form) (as_cosigner user)
extract user (bump_address_indices req) = some (Request.bump_address_indices req)
extract user (transfer_status req) = some (Request.transfer_status user req)
extract user get_current_address_indices = some Request.get_current_address_indices
extract user (get_file id) = some (Request.get_file id)
extract user get_last_processed_op_idx =
    Option.map (λ c. Request.get_last_processed_op_idx c.idx) (as_cosigner user)
extract user (get_operation_by_idx i) = some (Request.get_operation_by_idx user i)
extract user info = some (Request.info user)
extract user (mark_operation_processed i) =
    Option.map (λ c. Request.mark_operation_processed c.idx i) (as_cosigner user)
extract user (respond_to_operation form) =
    Option.map (λ c. Request.respond_to_operation c.idx form) (as_cosigner user)

abbrev serve_if : Env → AppState → Option Request → World → World
serve_if env state none w = w
serve_if env state (some req) w = serve env state req w

-- What becomes of a call, by the user that the middleware has found.
abbrev pub admit : Env → AppState → Call → Outcome AuthError AuthenticatedUser → World → World
admit env state call (ok user) w = serve_if env state (extract user call) w
admit env state call (err _) w = w
admit env state call (panic _) w = w

-- The world after a call with an `Authorization` header.
unfoldable pub receive :
    (biscuit : Biscuit) → Env → AppState → biscuit.PublicKey → Option String → Call → World → World
unfolding path_of extract
receive biscuit env state key header call w =
    let (user, w') = authenticate biscuit state key header (path_of call) w in
    admit env state call user w'

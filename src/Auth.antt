-- ===== src/Auth.antt =====
-- src/auth.rs: who makes a request, and which paths are open to whom.
pub mod Tokens
pub mod RootKey
use rgb_multisig_hub.Base.{
  ℕ, String, str_eq, Bool, true, false, not, ◌&&◌, ◌||◌, Option, none, some, List, [], ◌∷◌, head?,
  if◌then◌else◌,
}
use Prim.Native.String.{slice, len}
use text.Mathlib.Text.{starts_with}
use mathlib.Core.Option
use rgb_multisig_hub.Errors.{AuthError, unauthorized, forbidden}
use rgb_multisig_hub.World.{World, M, ok, pure, ok_or, raise_if, ◌>>=◌, ◌>>◌}
use rgb_multisig_hub.State.{AppState, get_idx}

pub record AuthenticatedCosigner : Type 0 where
  pub xpub : String
  pub idx : ℕ

pub data AuthenticatedUser : Type 0 where
  cosigner : AuthenticatedCosigner → AuthenticatedUser
  watch_only : AuthenticatedUser

-- The library `biscuit_auth`: keys, the verification of a token's signatures, and its facts.
pub record Biscuit : Type 1 where
  pub PublicKey : Type 0
  pub Token : Type 0
  -- `PublicKey::from_bytes` with the algorithm Ed25519
  pub from_bytes : List ℕ → Option PublicKey
  -- `Biscuit::from_base64`
  pub from_base64 : String → PublicKey → Option Token
  -- whether the authorizer of `is_token_expired` allows the token, by the tick at which it is asked
  pub allows_now : ℕ → Token → Bool
  -- whether `token.authorizer()` is made
  pub has_authorizer : Token → Bool
  -- the answers of the queries for `role($r)` and `xpub($x)`
  pub query_role : Token → Option (List String)
  pub query_xpub : Token → Option (List String)

-- `WATCH_ONLY_ALLOWED_ROUTES.contains`
unfoldable pub is_watch_only_allowed : String → Bool
is_watch_only_allowed path =
    str_eq path "/transferstatus"
    || str_eq path "/info"
    || str_eq path "/getoperationbyidx"
    || str_eq path "/getcurrentaddressindices"
    || str_eq path "/getfile"

-- The token of an `Authorization` header: the text after `Bearer `.
unfoldable pub bearer : Option String → Option String
bearer none = none
bearer (some text) = if starts_with text "Bearer " then some (slice text 7 (len text)) else none

-- The first row of a query's answer.
abbrev pub first_of : Option (List String) → Option String
first_of none = none
first_of (some rows) = head? rows

-- The user with a role and an xPub, if the hub knows one.
unfoldable pub user_of : AppState → String → Option String → Option AuthenticatedUser
user_of state role (some xpub) =
    if str_eq role "cosigner"
    then Option.map (λ idx. cosigner (record { xpub = xpub; idx = idx }))
        (get_idx xpub state.cosigners_by_xpub)
    else none
user_of state role none = if str_eq role "watch-only" then some watch_only else none

abbrev pub is_watch_only : AuthenticatedUser → Bool
is_watch_only (cosigner _) = false
is_watch_only watch_only = true

module _ (biscuit : Biscuit) where
  unfoldable pub is_token_expired : biscuit.Token → M AuthError Bool
  is_token_expired token w = (ok (not (biscuit.allows_now w.tick token)), w)

  -- `conditional_auth_middleware` up to the call of the handler.
  unfoldable pub authenticate :
      AppState → biscuit.PublicKey → Option String → String → M AuthError AuthenticatedUser
  unfolding is_token_expired
  authenticate state root_public_key auth_header api_path = do
    auth_token ← ok_or (bearer auth_header) unauthorized
    token ← ok_or (biscuit.from_base64 auth_token root_public_key) unauthorized
    expired ← is_token_expired token
    raise_if expired unauthorized
    raise_if (not (biscuit.has_authorizer token)) unauthorized
    role ← ok_or (first_of (biscuit.query_role token)) unauthorized
    user ← ok_or (user_of state role (first_of (biscuit.query_xpub token))) unauthorized
    raise_if (is_watch_only user && not (is_watch_only_allowed api_path)) forbidden
    pure user

-- The extractor `AuthenticatedCosigner`: none where it answers `FORBIDDEN`.
abbrev pub as_cosigner : AuthenticatedUser → Option AuthenticatedCosigner
as_cosigner (cosigner c) = some c
as_cosigner watch_only = none

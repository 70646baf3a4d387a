-- ===== src/Hub/Guests.antt =====
-- What those who are not cosigners can do: nothing to the tables.
use rgb_multisig_hub.Base.{ℕ, ◌⊎◌, inl, inr, ◌≡◌, refl, ◌∙◌, String, Bool, true, Option, none, some}
use rgb_multisig_hub.Errors.{AuthError}
use rgb_multisig_hub.World.{Env, World, Outcome, ok, err, panic}
use rgb_multisig_hub.World.Atomic.{ReadOnly, ReadOnly-raise, read_only_rules}
use rgb_multisig_hub.Database.Reads.{database_reads}
use rgb_multisig_hub.State.{AppState}
use rgb_multisig_hub.Auth.{
  AuthenticatedCosigner, AuthenticatedUser, cosigner, watch_only, Biscuit, is_watch_only_allowed,
  is_token_expired, authenticate,
}
use rgb_multisig_hub.Auth.Tokens.{Authenticated, authenticate-Authenticated}
use rgb_multisig_hub.Routes.Reads.{
  ReadOnly-get_operation_by_idx, ReadOnly-get_file, ReadOnly-info,
  ReadOnly-get_current_address_indices,
}
use rgb_multisig_hub.Routes.Transfers.{
  TransferStatusRequest, set_or_read, register_transfer_status, read_transfer_status,
  transfer_status,
}
use rgb_multisig_hub.Hub.Requests.{serve}
use rgb_multisig_hub.Hub.Gate.{Call, path_of, extract, admit, receive}

module _ (env : Env) (state : AppState) where
  set_or_read-watch_only :
      (batch : ℕ) (accept : Option Bool) → ReadOnly (set_or_read env state watch_only batch accept)
  unfolding set_or_read register_transfer_status read_transfer_status
  set_or_read-watch_only batch none = search database_reads
  set_or_read-watch_only batch (some a) = ReadOnly-raise _

  transfer_status-watch_only :
      (req : TransferStatusRequest) → ReadOnly (transfer_status env state watch_only req)
  unfolding transfer_status
  transfer_status-watch_only req = set_or_read-watch_only _ _

  -- On the paths that are open to them, watch-only users only read.
  admit-watch_only :
      (call : Call) (w : World)
      → is_watch_only_allowed (path_of call) ≡ true
      → (admit env state call (ok watch_only) w).db ≡ w.db
  unfolding extract serve path_of is_watch_only_allowed
  admit-watch_only (Call.post_operation form) w open_to = refl
  admit-watch_only (Call.bump_address_indices req) w open_to = cc
  admit-watch_only (Call.transfer_status req) w open_to = (transfer_status-watch_only req).same w
  admit-watch_only Call.get_current_address_indices w open_to =
      (ReadOnly-get_current_address_indices env).same w
  admit-watch_only (Call.get_file id) w open_to = (ReadOnly-get_file env state id).same w
  admit-watch_only Call.get_last_processed_op_idx w open_to = refl
  admit-watch_only (Call.get_operation_by_idx i) w open_to =
      (ReadOnly-get_operation_by_idx env state watch_only i).same w
  admit-watch_only Call.info w open_to = (ReadOnly-info env state watch_only).same w
  admit-watch_only (Call.mark_operation_processed i) w open_to = refl
  admit-watch_only (Call.respond_to_operation form) w open_to = refl

module _ (biscuit : Biscuit) (env : Env) (state : AppState) (key : biscuit.PublicKey) where
  ReadOnly-is_token_expired : (token : biscuit.Token) → ReadOnly (is_token_expired biscuit token)
  unfolding is_token_expired
  ReadOnly-is_token_expired token = record { same = λ w. refl }

  pub ReadOnly-authenticate :
      (header : Option String) (path : String)
      → ReadOnly (authenticate biscuit state key header path)
  unfolding authenticate
  ReadOnly-authenticate header path = search (read_only_rules, ReadOnly-is_token_expired) depth 12

  admit_by_outcome :
      (header : Option String) (call : Call) (w : World) (o : Outcome AuthError AuthenticatedUser)
      (u : World)
      → authenticate biscuit state key header (path_of call) w ≡ (o, u)
      → ((c : AuthenticatedCosigner) × Authenticated biscuit state key header
            (path_of call)
            (cosigner c)
            w)
        ⊎ ((admit env state call o u).db ≡ u.db)
  admit_by_outcome header call w (ok (cosigner c)) u h =
      inl (c, (authenticate-Authenticated biscuit state key header (path_of call) w h).0)
  admit_by_outcome header call w (ok watch_only) u h =
      let (a, same) = authenticate-Authenticated biscuit state key header (path_of call) w h in
      inr (admit-watch_only env state call u a.known.2)
  admit_by_outcome header call w (err e) u h = inr refl
  admit_by_outcome header call w (panic s) u h = inr refl

  -- Whatever call comes with whatever header: either the header carries a token that the root key
  -- verifies, that has not expired, and that states the role of a cosigner and the xPub of a cosigner of
  -- the configuration, or the tables are after the call as they were.
  pub receive-cosigner_or_same :
      (header : Option String) (call : Call) (w : World)
      → ((c : AuthenticatedCosigner) × Authenticated biscuit state key header
            (path_of call)
            (cosigner c)
            w)
        ⊎ ((receive biscuit env state key header call w).db ≡ w.db)
  unfolding receive
  receive-cosigner_or_same header call w =
      elim (admit_by_outcome header call w
        (authenticate biscuit state key header (path_of call) w).0
        (authenticate biscuit state key header (path_of call) w).1 refl) [
          | inl c ↦ inl c
          | inr same ↦ inr (same ∙ (ReadOnly-authenticate header (path_of call)).same w)
        ]

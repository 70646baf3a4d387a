-- ===== src/Hub/Requests.antt =====
-- The requests that `app` of src/main.rs routes to the handlers of src/routes.rs.
use rgb_multisig_hub.Base.{ℕ, String, ◌≡◌, refl, sym, subst, ◌⊎◌, inl, inr, true}
use rgb_multisig_hub.World.{Env, World, Db, Outcome, ok, err, panic, M, continue, ◌>>=◌}
use rgb_multisig_hub.World.Atomic.{ReadOnly, Atomic, is_ok}
use rgb_multisig_hub.State.{AppState}
use rgb_multisig_hub.Auth.{AuthenticatedUser}
use rgb_multisig_hub.Multipart.{Multipart}
use rgb_multisig_hub.Routes.Addresses.{BumpAddressIndicesRequest}
use rgb_multisig_hub.Routes.Addresses
use rgb_multisig_hub.Routes.Transfers.{TransferStatusRequest}
use rgb_multisig_hub.Routes.Transfers
use rgb_multisig_hub.Routes.Processed
use rgb_multisig_hub.Routes.Lookup
use rgb_multisig_hub.Routes.Post.Save
use rgb_multisig_hub.Routes.Respond

-- A request that has passed the authentication. A number stands for the cosigner who makes it.
pub data Request : Type 0 where
  bump_address_indices : BumpAddressIndicesRequest → Request
  get_current_address_indices : Request
  get_file : String → Request
  get_operation_by_idx : AuthenticatedUser → ℕ → Request
  info : AuthenticatedUser → Request
  get_last_processed_op_idx : ℕ → Request
  mark_operation_processed : ℕ → ℕ → Request
  post_operation : ℕ → Multipart → Request
  respond_to_operation : ℕ → Multipart → Request
  transfer_status : AuthenticatedUser → TransferStatusRequest → Request

abbrev pub world_after : {E A : Type 0} → M E A → World → World
world_after m w = (m w).1

-- The world after the handler of a request.
unfoldable pub serve : Env → AppState → Request → World → World
serve env state (bump_address_indices req) w =
    world_after (Addresses.bump_address_indices env req) w
serve env state get_current_address_indices w =
    world_after (Addresses.get_current_address_indices env) w
serve env state (get_file id) w = world_after (Lookup.get_file env state id) w
serve env state (get_operation_by_idx user i) w =
    world_after (Lookup.get_operation_by_idx env state user i) w
serve env state (info user) w = world_after (Lookup.info env state user) w
serve env state (get_last_processed_op_idx c) w =
    world_after (Processed.get_last_processed_op_idx env c) w
serve env state (mark_operation_processed c i) w =
    world_after (Processed.mark_operation_processed env c i) w
serve env state (post_operation c form) w = world_after (Save.post_operation env state c form) w
serve env state (respond_to_operation c form) w =
    world_after (Respond.respond_to_operation env state c form) w
serve env state (transfer_status user req) w =
    world_after (Transfers.transfer_status env state user req) w

-- Requests one after the other, of which the last one came last.
pub data Reach (env : Env) (state : AppState) : World → World → Type 0 where
  start : {w : World} → Reach env state w w
  then :
      {w u : World}
      → Reach env state w u
      → (req : Request) → Reach env state w (serve env state req u)

module _ {E A : Type 0} where
  -- What holds of unchanged tables, and after a success, holds after an atomic action.
  pub Atomic-elim :
      {m : M E A}
      → Atomic m
      → (P : Db → Type 0) (w : World) → P w.db
      → ((a : A) (u : World) → m w ≡ (ok a, u) → P u.db)
      → P (world_after m w).db
  Atomic-elim {m} am P w old new = go (m w) refl (am.all_or_nothing w)
    where
      go : (o : Outcome E A × World) → m w ≡ o → (is_ok o.0 ≡ true) ⊎ (o.1.db ≡ w.db) → P o.1.db
      go (ok a, u) e h = new a u e
      go (err x, u) e (inl h) = cc
      go (err x, u) e (inr h) = subst P (sym h) old
      go (panic x, u) e (inl h) = cc
      go (panic x, u) e (inr h) = subst P (sym h) old

module _ {E A B : Type 0} where
  continue-db :
      (o : Outcome E A × World) (f : A → M E B)
      → ((a : A) → ReadOnly (f a))
      → (continue o.0 f o.1).1.db ≡ o.1.db
  continue-db (ok a, u) f r = (r a).same u
  continue-db (err e, u) f r = refl
  continue-db (panic s, u) f r = refl

  -- What only reads may follow.
  pub >>=-db :
      (m : M E A) (f : A → M E B) (w : World)
      → ((a : A) → ReadOnly (f a))
      → (world_after (m >>= f) w).db ≡ (world_after m w).db
  unfolding ◌>>=◌
  >>=-db m f w r = continue-db (m w) f r

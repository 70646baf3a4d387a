-- ===== src/Routes/Addresses.antt =====
-- `bump_address_indices` and `get_current_address_indices` of src/routes.rs.
use rgb_multisig_hub.Base.{ℕ, ◌+◌, ◌-◌, Bool, Option, none, some, ◌==◌, ltb, if◌then◌else◌}
use rgb_multisig_hub.Errors.{ApiError, ApiError_from_db_err}
use rgb_multisig_hub.World.{
  Env, M, pure, ok_or, raise_if, transaction, ◌>>=◌, ◌>>◌, NextAddressIndex,
}
use rgb_multisig_hub.Database.{get_next_address_index, update_next_address_index}

-- `count` is a `u8`.
pub record BumpAddressIndicesRequest : Type 0 where
  pub count : ℕ
  pub internal : Bool

pub record GetCurrentAddressIndicesResponse : Type 0 where
  pub internal : Option ℕ
  pub external : Option ℕ

-- The index that the request is about.
abbrev pub side : Bool → NextAddressIndex → ℕ
side internal index = if internal then index.internal else index.external

abbrev pub set_side : Bool → ℕ → NextAddressIndex → NextAddressIndex
set_side internal n index =
    if internal then record index { internal = n } else record index { external = n }

-- `u32::checked_add`
unfoldable pub checked_add : ℕ → ℕ → Option ℕ
checked_add a b = if ltb (a + b) 4294967296 then some (a + b) else none

abbrev pub current : ℕ → Option ℕ
current next = if next == 0 then none else some (next - 1)

module _ (env : Env) where
  unfoldable pub bump_index : BumpAddressIndicesRequest → M ApiError ℕ
  unfolding checked_add
  bump_index req = do
    index ← get_next_address_index env
    let first = side req.internal index
    new_next_index ←
        ok_or (checked_add first req.count) (ApiError.unexpected "address index overflow")
    update_next_address_index env index.idx (set_side req.internal new_next_index)
    pure first

  unfoldable pub bump_address_indices : BumpAddressIndicesRequest → M ApiError ℕ
  unfolding bump_index
  bump_address_indices req = do
    raise_if (req.count == 0) ApiError.invalid_count
    transaction env (bump_index req)

  unfoldable pub get_current_address_indices : M ApiError GetCurrentAddressIndicesResponse
  get_current_address_indices = do
    index ← get_next_address_index env
    pure (record { internal = current index.internal; external = current index.external })

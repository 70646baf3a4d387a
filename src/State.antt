-- ===== src/State.antt =====
-- `AppState` of src/startup.rs, as far as the handlers read it. The lock is not a field: a handler
-- that takes it runs alone among the handlers that take it.
use rgb_multisig_hub.Base.{
  ℕ, ◌%◌, String, str_eq, Option, none, some, List, [], ◌∷◌, ◌==◌, if◌then◌else◌, length,
}

pub record AppState : Type 0 where
  pub files_dir : String
  -- the hash maps, in any order
  pub cosigners_by_xpub : List (String × ℕ)
  pub cosigners_by_idx : List (ℕ × String)
  pub threshold_colored : ℕ
  pub threshold_vanilla : ℕ
  pub rgb_lib_version : String

-- `cosigners_by_idx.get(&idx)`
unfoldable pub get_xpub : ℕ → List (ℕ × String) → Option String
get_xpub idx [] = none
get_xpub idx ((i, xpub) ∷ rest) = if i == idx then some xpub else get_xpub idx rest

-- `cosigners_by_xpub.get(&xpub)`
unfoldable pub get_idx : String → List (String × ℕ) → Option ℕ
get_idx xpub [] = none
get_idx xpub ((x, idx) ∷ rest) = if str_eq x xpub then some idx else get_idx xpub rest

-- `cosigners_by_xpub.len() as u8`
unfoldable pub total_cosigners : AppState → ℕ
total_cosigners state = length state.cosigners_by_xpub % 256

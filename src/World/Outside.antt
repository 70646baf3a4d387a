-- ===== src/World/Outside.antt =====
-- The code outside the repository, as parameters. Each call of it has a number, its tick, so that
-- it may answer otherwise each time.
use rgb_multisig_hub.Base.{
  ℕ, ◌<◌, ◌≤◌, ◌≡◌, String, Bool, Option, List, [], ◌++◌, ◌==◌, count, Elem,
}

pub record RespondToOperationRequest : Type 0 where
  pub operation_idx : ℕ
  pub ack : Bool

pub record Env : Type 1 where
  -- SeaORM and SQLite: the error with which a call fails, if it does
  pub db_error : ℕ → Option String
  -- the order in which a query yields its rows
  pub scan : (A : Type 0) → ℕ → List A → List A
  -- the key that AUTOINCREMENT gives to a row, for the keys in the table
  pub fresh : ℕ → List ℕ → ℕ
  -- the file system: the error with which a call fails, if it does
  pub io_error : ℕ → Option String
  -- how many bytes a read puts into a buffer of 8192, at most those that are left
  pub read_len : ℕ → ℕ
  -- the clock, in seconds
  pub unix_timestamp : ℕ → ℕ
  -- `Sha256` as a state that is fed blocks of bytes, and `hex::encode` of the digest
  pub Hasher : Type 0
  pub new_hasher : Hasher
  pub update_hasher : Hasher → List ℕ → Hasher
  pub finalize : Hasher → List ℕ
  pub hex_encode : List ℕ → String
  pub hex_decode : List ℕ → Option (List ℕ)
  -- `Field::text`: the bytes of the text that a field's bytes decode to
  pub decode_text : List ℕ → List ℕ
  -- `serde_json::from_str`
  pub parse_request : List ℕ → Option RespondToOperationRequest
  -- the text of the error where it does not parse
  pub parse_error : List ℕ → String

-- What the hub relies on in them.
pub record IsLawful (env : Env) : Type 1 where
  -- a query yields the rows, each once
  pub scan_count :
      (A : Type 0) (tick : ℕ) (p : A → Bool) (rows : List A)
      → count p (env.scan A tick rows) ≡ count p rows
  pub scan_Elem :
      (A : Type 0) (tick : ℕ) (x : A) (rows : List A) → Elem x (env.scan A tick rows) → Elem x rows
  -- AUTOINCREMENT: a new key is above every key in the table
  pub fresh_above :
      (tick k : ℕ) (keys : List ℕ) → 0 < count (λ j. j == k) keys → k < env.fresh tick keys
  -- `File::read`: at least one byte unless the file is at its end, and at most the buffer
  pub read_len_pos : (tick : ℕ) → 0 < env.read_len tick
  pub read_len_capped : (tick : ℕ) → env.read_len tick ≤ 8192
  -- `Sha256`: what counts is the bytes fed, not how they were cut
  pub update_hasher-append :
      (h : env.Hasher) (a b : List ℕ)
      → env.update_hasher (env.update_hasher h a) b ≡ env.update_hasher h (a ++ b)
  pub update_hasher-nil : (h : env.Hasher) → env.update_hasher h [] ≡ h

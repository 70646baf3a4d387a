-- ===== src/Tests/Setup.antt =====
-- A hub of three cosigners with thresholds of two, as src/startup.rs sets it up, dependencies that
-- answer simply, and forms for the handlers of src/routes.rs.
use rgb_multisig_hub.Base.{
  ℕ, zero, suc, ◌<◌, ◌≡◌, refl, ap, String, false, Option, none, some, List, [], ◌∷◌, ◌++◌, ◌==◌,
  ltb, if◌then◌else◌, true, count, arith,
}
use rgb_multisig_hub.World.{Env, IsLawful, RespondToOperationRequest, World}
use rgb_multisig_hub.State.{AppState}
use rgb_multisig_hub.Auth.{Biscuit}
use rgb_multisig_hub.Startup.{AppParams, new_config}
use rgb_multisig_hub.Multipart.{Field, Multipart}
use rgb_multisig_hub.Hub.Settled.{IsConfigured}

abbrev next_key : List ℕ → ℕ
next_key [] = 1
next_key (k ∷ keys) = let rest = next_key keys in if ltb k rest then rest else suc k

next_key_above : (k : ℕ) (keys : List ℕ) → 0 < count (λ j. j == k) keys → k < next_key keys
next_key_above k [] h = absurd (omega arith)
next_key_above k (j ∷ keys) h = ground (arith, next_key_above k keys)

abbrev parse_request : List ℕ → Option RespondToOperationRequest
parse_request (i ∷ a ∷ []) = some (record { operation_idx = i; ack = a == 1 })
parse_request _ = none

-- Nothing fails, rows come in the order of their table, and a hasher keeps the bytes.
abbrev pub simple : Env
simple = record {
  db_error = λ tick. none;
  scan = λ A tick rows. rows;
  fresh = λ tick keys. next_key keys;
  io_error = λ tick. none;
  read_len = λ tick. 2;
  unix_timestamp = λ tick. tick;
  Hasher = List ℕ;
  new_hasher = [];
  update_hasher = λ fed block. fed ++ block;
  finalize = λ fed. fed;
  hex_encode = λ digest. "digest";
  hex_decode = λ text. some text;
  decode_text = λ bytes. bytes;
  parse_request = parse_request;
  parse_error = λ bytes. "expected value";
}

append_assoc : (a b c : List ℕ) → (a ++ b) ++ c ≡ a ++ (b ++ c)
append_assoc [] b c = refl
append_assoc (x ∷ a) b c = ap (λ l. x ∷ l) (append_assoc a b c)

append_nil : (a : List ℕ) → a ++ [] ≡ a
append_nil [] = refl
append_nil (x ∷ a) = ap (λ l. x ∷ l) (append_nil a)

pub simple-IsLawful : IsLawful simple
simple-IsLawful = record {
  scan_count = λ A tick p rows. refl;
  scan_Elem = λ A tick x rows there. there;
  fresh_above = λ tick k keys h. next_key_above k keys h;
  read_len_pos = λ tick. omega arith;
  read_len_capped = λ tick. omega arith;
  update_hasher-append = append_assoc;
  update_hasher-nil = append_nil;
}

abbrev pub three_cosigners : AppState
three_cosigners = record {
  files_dir = "/srv/hub/files";
  cosigners_by_xpub = ("a", 1) ∷ ("b", 2) ∷ ("c", 3) ∷ [];
  cosigners_by_idx = (1, "a") ∷ (2, "b") ∷ (3, "c") ∷ [];
  threshold_colored = 2;
  threshold_vanilla = 2;
  rgb_lib_version = "0.3.0";
}

pub three_cosigners-IsConfigured : IsConfigured three_cosigners
three_cosigners-IsConfigured = record {
  same_size = refl;
  few = omega arith;
  vanilla_pos = omega arith;
  vanilla_reachable = omega arith;
  colored_pos = omega arith;
  colored_reachable = omega arith;
  distinct = λ c. ground arith;
}

abbrev pub new_hub : World
new_hub = record {
  db = record {
    configs = [];
    cosigners =
        record { idx = 1; xpub = "a" }
        ∷ record { idx = 2; xpub = "b" }
        ∷ record { idx = 3; xpub = "c" }
        ∷ [];
    next_address_indices = record { idx = 1; internal = 0; external = 0 } ∷ [];
    operations = [];
    op_files = [];
    statuses = [];
    transfers = [];
  };
  files = [];
  tick = 0;
}

abbrev field : String → List ℕ → Field
field name content = record { name = some name; chunks = content ∷ []; read_error = none }

abbrev pub ones : ℕ → List ℕ
ones zero = []
ones (suc n) = 1 ∷ ones n

-- An RGB transfer with a PSBT and a file.
abbrev pub send_form : Multipart
send_form = record {
  fields =
      field "operation_type" (3 ∷ [])
      ∷ field "seed" (ones 64)
      ∷ field "file_psbt" (7 ∷ 7 ∷ 7 ∷ [])
      ∷ field "file_fascia" (8 ∷ [])
      ∷ [];
  broken = false;
}

abbrev pub accept_form : ℕ → Multipart
accept_form i = record {
  fields = field "request" (i ∷ 1 ∷ []) ∷ field "file_psbt" (9 ∷ []) ∷ [];
  broken = false;
}

-- Tokens that say who they are of.
abbrev pub plain : Biscuit
plain = record {
  PublicKey = Unit {0};
  Token = String;
  from_bytes = λ bytes. some tt;
  from_base64 = λ text key. some text;
  allows_now = λ tick token. true;
  has_authorizer = λ token. true;
  query_role = λ token. some ("cosigner" ∷ []);
  query_xpub = λ token. some (token ∷ []);
}

abbrev pub three_params : AppParams
three_params = record {
  app_dir = "/srv/hub";
  daemon_listening_port = 3001;
  cosigner_xpubs = "a" ∷ "b" ∷ "c" ∷ [];
  threshold_colored = 2;
  threshold_vanilla = 2;
  rgb_lib_version = "0.3";
}

-- Before the first start.
abbrev pub no_tables : World
no_tables = record new_hub { db = record new_hub.db { cosigners = []; next_address_indices = [] } }

-- A first start that failed after its first write.
abbrev pub half_started : World
half_started = record no_tables {
  db = record no_tables.db { configs = new_config three_params 1 ∷ [] };
}

-- ===== src/Operations/Numbers.antt =====
-- The numbers of the operation types in src/routes.rs and their reading from a byte.
use rgb_multisig_hub.Base.{ℕ, ◌≡◌, refl, ap, ◌∙◌, ◌↔◌, some, arith}
use rgb_multisig_hub.Operations.{OperationType, try_from}

-- The discriminants, which the database stores as well.
unfoldable pub number : OperationType → ℕ
number OperationType.create_utxos = 1
number OperationType.issuance = 2
number OperationType.send_rgb = 3
number OperationType.send_btc = 4
number OperationType.inflation = 5
number OperationType.blind_receive = 6
number OperationType.witness_receive = 7
number OperationType.burn = 8

try_from-number : (t : OperationType) → try_from (number t) ≡ some t
unfolding try_from number
try_from-number OperationType.create_utxos = refl
try_from-number OperationType.issuance = refl
try_from-number OperationType.send_rgb = refl
try_from-number OperationType.send_btc = refl
try_from-number OperationType.inflation = refl
try_from-number OperationType.blind_receive = refl
try_from-number OperationType.witness_receive = refl
try_from-number OperationType.burn = refl

number-try_from : (n : ℕ) (t : OperationType) → try_from n ≡ some t → n ≡ number t
unfolding try_from number
number-try_from n t h = ground arith

-- For every number and every operation type, the number is read as that type exactly if it is the
-- type's discriminant.
try_from_lem : (n : ℕ) (t : OperationType) → (try_from n ≡ some t) ↔ (n ≡ number t)
try_from_lem n t = (number-try_from n t, λ e. ap try_from e ∙ try_from-number t)

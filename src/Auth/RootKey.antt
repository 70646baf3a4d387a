-- ===== src/Auth/RootKey.antt =====
-- `check_auth_args` of src/auth.rs: the root key of the configuration, as the bytes of its text.
use rgb_multisig_hub.Base.{
  ℕ, ◌%◌, ◌<◌, ◌≡◌, ◌⊎◌, sym, ◌∙◌, inl, inr, false, not, some, List, [], ◌∷◌, ◌++◌, ◌==◌, length,
  All, arith, ◌/◌, Bool-cases,
}
use rgb_multisig_hub.Errors.{AppError}
use rgb_multisig_hub.Hex.{digit, hex_str_to_vec}
use rgb_multisig_hub.Hex.Pairs.{
  pairs, hex_str_to_vec_lem, pairs-append_digit, pairs-length, hex_print, pairs-hex_print,
}
use rgb_multisig_hub.World.{World, M, ok, ok_or, raise_if, ◌>>=◌, ◌>>◌}
use rgb_multisig_hub.World.Forward.{>>=-ok, raise_if-false, ok_or-some}
use rgb_multisig_hub.World.Inversion.{>>=-run, ok_or-eq-ok, raise_if-eq-ok}
use rgb_multisig_hub.Auth.{Biscuit}

eq_of_not : (n m : ℕ) → not (n == m) ≡ false → n ≡ m
eq_of_not n m h = ground arith

half : (n : ℕ) → 32 ≡ n / 2 → (n ≡ 64) ⊎ (n ≡ 65)
half n h = elim (Bool-cases (n == 64)) [ inl e ↦ inl (ground arith) | inr e ↦ inr (ground arith) ]

module _ (biscuit : Biscuit) where
  unfoldable pub check_auth_args : List ℕ → M AppError biscuit.PublicKey
  check_auth_args root_public_key = do
    key_bytes ← ok_or (hex_str_to_vec root_public_key) AppError.invalid_root_key
    raise_if (not (length key_bytes == 32)) AppError.invalid_root_key
    ok_or (biscuit.from_bytes key_bytes) AppError.invalid_root_key

  -- What an accepted text is: pairs of digits for the 32 bytes of a key, and at most one digit more.
  pub record IsKeyText (text : List ℕ) (key : biscuit.PublicKey) : Type 0 where
    pub bytes : List ℕ
    pub decoded : pairs text ≡ some bytes
    pub whole : length bytes ≡ 32
    pub accepted : biscuit.from_bytes bytes ≡ some key
    pub size : (length text ≡ 64) ⊎ (length text ≡ 65)

  check_auth_args-run :
      (text bytes : List ℕ) {key : biscuit.PublicKey} (w : World)
      → pairs text ≡ some bytes
      → length bytes ≡ 32
      → biscuit.from_bytes bytes ≡ some key
      → check_auth_args text w ≡ (ok key, w)
  unfolding check_auth_args
  check_auth_args-run text bytes w decoded whole accepted =
      >>=-ok _ _ w (ok_or-some _ _ w (hex_str_to_vec_lem text ∙ decoded))
      ∙ >>=-ok _ _ w (raise_if-false _ _ w (ground arith))
      ∙ ok_or-some _ _ w accepted

  pub check_auth_args-IsKeyText :
      (text : List ℕ) {key : biscuit.PublicKey} (w : World) {u : World}
      → check_auth_args text w ≡ (ok key, u)
      → IsKeyText text key
  unfolding check_auth_args
  check_auth_args-IsKeyText text {key} w h = >>=-run _ _ w h λ bytes w1 q1 h1.
      >>=-run _ _ w1 h1 λ _ w2 q2 h2.
        let decoded =
          sym (hex_str_to_vec_lem text) ∙ (ok_or-eq-ok (hex_str_to_vec text) _ w q1).0 in
        let whole : length bytes ≡ 32 = eq_of_not (length bytes) 32 (raise_if-eq-ok _ _ w1 q2).0 in
        record {
          bytes = bytes;
          decoded = decoded;
          whole = whole;
          accepted = (ok_or-eq-ok (biscuit.from_bytes bytes) _ w2 h2).0;
          size = half (length text) (sym whole ∙ pairs-length text decoded);
        }

  -- The text of 32 bytes that make a key, in lower-case digits, is accepted as that key.
  pub check_auth_args-hex_print :
      (bytes : List ℕ) {key : biscuit.PublicKey} (w : World)
      → All (λ b. b < 256) bytes
      → length bytes ≡ 32
      → biscuit.from_bytes bytes ≡ some key
      → check_auth_args (hex_print bytes) w ≡ (ok key, w)
  check_auth_args-hex_print bytes w small whole accepted =
      check_auth_args-run (hex_print bytes) bytes w (pairs-hex_print bytes small) whole accepted

  -- An accepted text of even length stays accepted, as the same key, with any digit after it.
  pub check_auth_args-append :
      (text : List ℕ) (c d : ℕ) {key : biscuit.PublicKey} (w : World) {u : World}
      → length text % 2 ≡ 0
      → digit c ≡ some d
      → check_auth_args text w ≡ (ok key, u)
      → check_auth_args (text ++ c ∷ []) w ≡ (ok key, w)
  check_auth_args-append text c d w even there h =
      let k = check_auth_args-IsKeyText text w h in
      check_auth_args-run (text ++ c ∷ []) k.bytes w
        (pairs-append_digit text c d even there ∙ k.decoded) k.whole k.accepted

  pub IsKeyText-check_auth_args :
      (text : List ℕ) {key : biscuit.PublicKey} (w : World)
      → IsKeyText text key
      → check_auth_args text w ≡ (ok key, w)
  IsKeyText-check_auth_args text w k =
      check_auth_args-run text k.bytes w k.decoded k.whole k.accepted

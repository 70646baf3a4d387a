-- ===== src/Hex/Pairs.antt =====
-- What `hex_str_to_vec` of src/utils.rs decodes: pairs of digits, and nothing for a digit that is left
-- over.
use rgb_multisig_hub.Base.{
  ℕ, ◌+◌, ◌*◌, ◌%◌, ◌<◌, ◌≡◌, refl, sym, ap, ◌∙◌, Option, none, some, List, [], ◌∷◌, ◌++◌, arith,
  Option-cases, inl, inr, suc, ◌/◌, ltb, if◌then◌else◌, All, length, get_or,
}
use rgb_multisig_hub.Hex.{digit, shift_in, next_byte, hex_loop, hex_str_to_vec}

abbrev pub push : ℕ → Option (List ℕ) → Option (List ℕ)
push byte none = none
push byte (some bytes) = some (byte ∷ bytes)

abbrev pub pair_of : Option ℕ → Option ℕ → Option (List ℕ) → Option (List ℕ)
pair_of (some x) (some y) rest = push (x * 16 + y) rest
pair_of _ _ rest = none

-- The reference: a byte for each pair of digits.
abbrev pub pairs : List ℕ → Option (List ℕ)
pairs [] = some []
pairs (c ∷ []) = elim (digit c) [ none ↦ none | some d ↦ some [] ]
pairs (c ∷ e ∷ cs) = pair_of (digit c) (digit e) (pairs cs)

abbrev after : List ℕ → Option (List ℕ) → Option (List ℕ)
after out none = none
after out (some bytes) = some (out ++ bytes)

digit-bound : (c d : ℕ) → digit c ≡ some d → d < 16
unfolding digit
digit-bound c d h = ground arith

append_one :
    (out : List ℕ) (b : ℕ) (rest : Option (List ℕ))
    → after (out ++ b ∷ []) rest ≡ after out (push b rest)
append_one out b none = refl
append_one out b (some bytes) = ap some (assoc out)
  where
    assoc : (l : List ℕ) → (l ++ b ∷ []) ++ bytes ≡ l ++ (b ∷ bytes)
    assoc [] = refl
    assoc (x ∷ l) = ap (λ r. x ∷ r) (assoc l)

append_nil : (l : List ℕ) → l ++ [] ≡ l
append_nil [] = refl
append_nil (x ∷ l) = ap (λ r. x ∷ r) (append_nil l)

-- A digit at an even position starts a byte, and one at an odd position ends it.
next_byte-even : (idx b : ℕ) (out : List ℕ) → idx % 2 ≡ 0 → next_byte idx b out ≡ (b, out)
unfolding next_byte
next_byte-even idx b out even = rw even refl

next_byte-odd :
    (idx b : ℕ) (out : List ℕ) → idx % 2 ≡ 0 → next_byte (idx + 1) b out ≡ (0, out ++ b ∷ [])
unfolding next_byte
next_byte-odd idx b out even = let odd : (idx + 1) % 2 ≡ 1 = omega arith in rw odd refl

hex_loop_lem :
    (cs : List ℕ) (idx : ℕ) (out : List ℕ)
    → idx % 2 ≡ 0
    → hex_loop cs idx 0 out ≡ after out (pairs cs)
unfolding hex_loop
hex_loop_lem [] idx out even = ap some (sym (append_nil out))
hex_loop_lem (c ∷ []) idx out even = elim (Option-cases (digit c)) [
  | inl e ↦ rw (hex_loop, pairs, e) refl
  | inr (d, e) ↦
      rw (hex_loop, pairs, e, next_byte-even idx (shift_in 0 d) out even)
        (ap some (sym (append_nil out)))
]
hex_loop_lem (c ∷ e ∷ cs) idx out even = elim (Option-cases (digit c)) [
  | inl p ↦ rw (hex_loop, pairs, p) refl
  | inr (x, p) ↦ elim (Option-cases (digit e)) [
    | inl q ↦ rw (hex_loop, pairs, p, q) refl
    | inr (y, q) ↦
        let byte : shift_in (shift_in 0 x) y ≡ x * 16 + y = ground (arith, digit-bound c x p) in
        rw
          (
            hex_loop,
            pairs,
            p,
            q,
            next_byte-even idx (shift_in 0 x) out even,
            next_byte-odd idx (shift_in (shift_in 0 x) y) out even,
            byte,
          )
          (hex_loop_lem cs (idx + 1 + 1) (out ++ (x * 16 + y) ∷ []) (omega (arith, even))
            ∙ append_one out (x * 16 + y) (pairs cs))
  ]
]

after_nil : (o : Option (List ℕ)) → after [] o ≡ o
after_nil none = refl
after_nil (some bytes) = refl

-- For every text, the loop over single digits with its shifts in a `u8` yields the bytes of the pairs of
-- digits from the start, or nothing if some character is no digit; a last digit without a partner
-- adds no byte.
pub hex_str_to_vec_lem : (hex : List ℕ) → hex_str_to_vec hex ≡ pairs hex
unfolding hex_str_to_vec
hex_str_to_vec_lem hex = hex_loop_lem hex 0 [] (omega arith) ∙ after_nil (pairs hex)

-- The lower-case digit of a value.
abbrev pub hex_digit : ℕ → ℕ
hex_digit d = if ltb d 10 then 48 + d else 87 + d

-- Two digits for each byte.
abbrev pub hex_print : List ℕ → List ℕ
hex_print [] = []
hex_print (b ∷ bs) = hex_digit (b / 16) ∷ hex_digit (b % 16) ∷ hex_print bs

digit-hex_digit : (d : ℕ) → d < 16 → digit (hex_digit d) ≡ some d
unfolding digit
digit-hex_digit d h = ground arith

-- Bytes that are printed are decoded again.
pub pairs-hex_print : (bs : List ℕ) → All (λ b. b < 256) bs → pairs (hex_print bs) ≡ some bs
pairs-hex_print [] h = refl
pairs-hex_print (b ∷ bs) h =
    let whole : b / 16 * 16 + b % 16 ≡ b = omega arith in
    rw
      (
        digit-hex_digit (b / 16) (omega (arith, h.0)),
        digit-hex_digit (b % 16) (omega arith),
        pairs-hex_print bs h.1,
        whole,
      )
      refl

-- A digit after whole pairs changes nothing.
pub pairs-append_digit :
    (cs : List ℕ) (c d : ℕ) → length cs % 2 ≡ 0 → digit c ≡ some d → pairs (cs ++ c ∷ []) ≡ pairs cs
pairs-append_digit [] c d even h = rw (pairs, h) refl
pairs-append_digit (a ∷ []) c d even h = absurd (omega (arith, even))
pairs-append_digit (a ∷ b ∷ cs) c d even h =
    ap (pair_of (digit a) (digit b)) (pairs-append_digit cs c d (omega (arith, even)) h)

pair_of-eq-some :
    (x y : Option ℕ) (rest : Option (List ℕ)) {bytes : List ℕ}
    → pair_of x y rest ≡ some bytes
    → (tail : List ℕ) × (rest ≡ some tail) × (length bytes ≡ suc (length tail))
pair_of-eq-some (some x) (some y) (some tail) h =
    (tail, refl, sym (ap (λ (o : Option (List ℕ)). length (get_or o [])) h))
pair_of-eq-some (some x) (some y) none h = cc
pair_of-eq-some (some x) none rest h = cc
pair_of-eq-some none y rest h = cc

none≢some : {A : Type 0} {a : A} → none ≡ some a → ⊥
none≢some h = cc

-- Half as many bytes as there are digits.
pub pairs-length :
    (cs : List ℕ) {bytes : List ℕ} → pairs cs ≡ some bytes → length bytes ≡ length cs / 2
pairs-length [] {bytes} h = let e : [] ≡ bytes = cc in rw (← e) (omega arith)
pairs-length (c ∷ []) {bytes} h = elim (Option-cases (digit c)) [
  | inl e ↦ absurd (none≢some (rw (pairs, e) at h))
  | inr (d, e) ↦ let s : [] ≡ bytes = ground arith in rw (← s) (omega arith)
]
pairs-length (c ∷ e ∷ cs) h =
    let (tail, rest, size) = pair_of-eq-some (digit c) (digit e) (pairs cs) h in
    omega (arith, size, pairs-length cs rest)

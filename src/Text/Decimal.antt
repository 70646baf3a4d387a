-- ===== src/Text/Decimal.antt =====
-- Numbers are read back from their decimal digits, and texts are split where their parts were joined.
use Prim.Native.Char.{Char, code}
use Prim.Native.String.{◌++◌}
use text.Mathlib.TextLemmas.{nil-append, cons-append, cons-ne-nil}
use rgb_multisig_hub.Base.{
  ℕ, zero, suc, ◌+◌, ◌*◌, ◌/◌, ◌%◌, ◌^◌, ◌<◌, ◌≤◌, ◌≡◌, ◌≢◌, refl, ◌∙◌, String, false, some, [],
  ◌∷◌, ◌==◌, arith, Bool-cases, inl, inr,
}
use rgb_multisig_hub.Text.{split, digit_value, scan_digits, parse_u32, digit_char, emit, decimal}

code-digit_char : (d : ℕ) → d < 10 → code (digit_char d) ≡ 48 + d
code-digit_char zero h = refl
code-digit_char (suc zero) h = refl
code-digit_char (suc (suc zero)) h = refl
code-digit_char (suc (suc (suc zero))) h = refl
code-digit_char (suc (suc (suc (suc zero)))) h = refl
code-digit_char (suc (suc (suc (suc (suc zero))))) h = refl
code-digit_char (suc (suc (suc (suc (suc (suc zero)))))) h = refl
code-digit_char (suc (suc (suc (suc (suc (suc (suc zero))))))) h = refl
code-digit_char (suc (suc (suc (suc (suc (suc (suc (suc zero)))))))) h = refl
code-digit_char (suc (suc (suc (suc (suc (suc (suc (suc (suc zero))))))))) h = refl
code-digit_char (suc (suc (suc (suc (suc (suc (suc (suc (suc (suc n)))))))))) h =
    absurd (omega arith)

digit_value-digit_char : (d : ℕ) → d < 10 → digit_value (digit_char d) ≡ some d
unfolding digit_value
digit_value-digit_char d h = rw (digit_value, code-digit_char d h) (ground arith)

-- Reading the last digit of `n` after the digits before it gives `n`.
scan_last :
    (n : ℕ) (out : String)
    → n < 2 ^ 32
    → scan_digits (String.◌∷◌ (digit_char (n % 10)) out) (n / 10) ≡ scan_digits out n
unfolding scan_digits
scan_last n out fits =
    let last : n / 10 * 10 + n % 10 ≡ n = omega arith in
    rw (scan_digits, digit_value-digit_char (n % 10) (omega arith), last) (ground arith)

scan_digits-emit :
    (fuel n : ℕ) (out : String)
    → n ≤ fuel
    → n < 2 ^ 32
    → scan_digits (emit fuel n out) 0 ≡ scan_digits out n
unfolding emit
scan_digits-emit zero n out enough fits = ground arith
scan_digits-emit (suc fuel) n out enough fits = ground (
  arith,
  scan_digits-emit fuel (n / 10) (String.◌∷◌ (digit_char (n % 10)) out),
  scan_last n out fits,
)

-- No digit is the character that separates.
abbrev pub Lacks : ℕ → String → Type 0
Lacks sep String.[] = Unit
Lacks sep (String.◌∷◌ c s) = ((code c == sep) ≡ false) × Lacks sep s

Lacks-emit :
    (sep fuel n : ℕ) (out : String) → sep < 48 → Lacks sep out → Lacks sep (emit fuel n out)
unfolding emit
Lacks-emit sep zero n out low h = h
Lacks-emit sep (suc fuel) n out low h = elim (Bool-cases (n == 0)) [
  | inl e ↦ rw (emit, e) h
  | inr e ↦
      let c : code (digit_char (n % 10)) ≡ 48 + n % 10 = code-digit_char (n % 10) (omega arith) in
      rw (emit, e)
        (Lacks-emit sep fuel (n / 10) (String.◌∷◌ (digit_char (n % 10)) out) low
          (rw c (ground arith), h))
]

pub Lacks-decimal : (sep n : ℕ) → sep < 48 → Lacks sep (decimal n)
unfolding decimal
Lacks-decimal sep n low = elim (Bool-cases (n == 0)) [
  | inl e ↦ rw (decimal, e) (ground arith, tt)
  | inr e ↦ rw (decimal, e) (Lacks-emit sep n n "" low tt)
]

-- A text without the separator, before one that begins with it, is the first part.
pub split-append :
    (sep : Char) (s t : String)
    → Lacks (code sep) s
    → split (code sep) (s ++ String.◌∷◌ sep t) ≡ s ∷ split (code sep) t
unfolding split
split-append sep String.[] t h = rw (nil-append, split) (ground arith)
split-append sep (String.◌∷◌ c s) t h = rw (cons-append, split, h.0, split-append sep s t h.1) refl

pub split_whole : (sep : ℕ) (s : String) → Lacks sep s → split sep s ≡ s ∷ []
unfolding split
split_whole sep String.[] h = refl
split_whole sep (String.◌∷◌ c s) h = rw (split, h.0, split_whole sep s h.1) refl

emit-ne-nil : (fuel n : ℕ) (out : String) → out ≢ String.[] → emit fuel n out ≢ String.[]
unfolding emit
emit-ne-nil zero n out h = h
emit-ne-nil (suc fuel) n out h = grind (
  arith,
  emit-ne-nil fuel (n / 10) (String.◌∷◌ (digit_char (n % 10)) out)
      (cons-ne-nil (digit_char (n % 10)) out),
)

decimal-emit : (k : ℕ) → decimal (suc k) ≡ emit (suc k) (suc k) String.[]
unfolding decimal
decimal-emit k = let e : (suc k == 0) ≡ false = ground arith in rw (decimal, e) refl

emit-suc :
    (k : ℕ)
    → emit (suc k) (suc k) String.[]
      ≡ emit k (suc k / 10) (String.◌∷◌ (digit_char (suc k % 10)) String.[])
unfolding emit
emit-suc k = let e : (suc k == 0) ≡ false = ground arith in rw (emit, e) refl

decimal-ne-nil : (n : ℕ) → decimal n ≢ String.[]
unfolding decimal
decimal-ne-nil zero = cons-ne-nil (digit_char 0) String.[]
decimal-ne-nil (suc k) =
    rw (decimal-emit k, emit-suc k)
      (emit-ne-nil k (suc k / 10) (String.◌∷◌ (digit_char (suc k % 10)) String.[])
        (cons-ne-nil (digit_char (suc k % 10)) String.[]))

-- Without a sign, `parse` reads the digits.
parse_u32-scan_digits : (s : String) → s ≢ String.[] → Lacks 43 s → parse_u32 s ≡ scan_digits s 0
unfolding parse_u32
parse_u32-scan_digits String.[] ne h = absurd (ne refl)
parse_u32-scan_digits (String.◌∷◌ c String.[]) ne h = refl
parse_u32-scan_digits (String.◌∷◌ c (String.◌∷◌ d s)) ne h = rw (parse_u32, h.0) refl

scan_digits-decimal : (n : ℕ) → n < 2 ^ 32 → scan_digits (decimal n) 0 ≡ some n
unfolding decimal scan_digits digit_value
scan_digits-decimal zero fits = refl
scan_digits-decimal (suc k) fits =
    rw (decimal-emit k) (scan_digits-emit (suc k) (suc k) String.[] (omega arith) fits)

pub parse_u32-decimal : (n : ℕ) → n < 2 ^ 32 → parse_u32 (decimal n) ≡ some n
parse_u32-decimal n fits =
    parse_u32-scan_digits (decimal n) (decimal-ne-nil n) (Lacks-decimal 43 n (omega arith))
    ∙ scan_digits-decimal n fits

-- ===== src/Errors/Rendering.antt =====
-- What the responses of src/error.rs have in common.
use Prim.Native.Char.{Char, code}
use Prim.Native.String.{◌++◌ as append}
use text.Mathlib.TextLemmas.{nil-append, cons-append}
use rgb_multisig_hub.Base.{
  ℕ, ◌≡◌, refl, ap, ◌∙◌, String, Bool, true, false, not, ◌&&◌, ◌==◌, head?, get_or, if◌then◌else◌,
  arith,
}
use rgb_multisig_hub.Text.{split, replace}
use rgb_multisig_hub.Text.Decimal.{Lacks, split-append, split_whole}
use rgb_multisig_hub.Errors.{ApiError, status_code}
use rgb_multisig_hub.Errors.Response.{
  to_string, variant, first_part, before_brace, debug, name, into_response,
}

abbrev lacks : ℕ → String → Bool
lacks sep String.[] = true
lacks sep (String.◌∷◌ c s) = not (code c == sep) && lacks sep s

lacks-Lacks : (sep : ℕ) (s : String) → lacks sep s ≡ true → Lacks sep s
lacks-Lacks sep String.[] h = tt
lacks-Lacks sep (String.◌∷◌ c s) h = (ground arith, lacks-Lacks sep s (ground arith))

-- The names of the variants have no parenthesis and no brace.
variant-lacks : (e : ApiError) → (lacks 40 (variant e).0 && lacks 123 (variant e).0) ≡ true
unfolding variant
variant-lacks (ApiError.cannot_mark_operation_processed e) = refl
variant-lacks (ApiError.cannot_post_new_operation e) = refl
variant-lacks (ApiError.cannot_respond_to_operation e) = refl
variant-lacks (ApiError.database e) = refl
variant-lacks ApiError.file_not_found = refl
variant-lacks ApiError.forbidden = refl
variant-lacks ApiError.invalid_count = refl
variant-lacks (ApiError.invalid_operation_type n) = refl
variant-lacks (ApiError.invalid_request e) = refl
variant-lacks (ApiError.io e) = refl
variant-lacks ApiError.operation_not_found = refl
variant-lacks ApiError.transfer_status_mismatch = refl
variant-lacks (ApiError.unexpected e) = refl

before_brace-Lacks : (s : String) → Lacks 123 s → before_brace s ≡ s
unfolding before_brace
before_brace-Lacks String.[] h = refl
before_brace-Lacks (String.◌∷◌ c String.[]) h = refl
before_brace-Lacks (String.◌∷◌ c (String.◌∷◌ d s)) h =
    rw (before_brace, h.1.0, before_brace-Lacks (String.◌∷◌ d s) h.1) (ground arith)

replaced :
    (from : ℕ) (to c : Char) (b : Bool)
    → (code c == from) ≡ b
    → (code to == from) ≡ false
    → (code (if b then to else c) == from) ≡ false
replaced from to c true e h = h
replaced from to c false e h = e

Lacks-replace :
    (from : ℕ) (to : Char) (s : String) → (code to == from) ≡ false → Lacks from (replace from to s)
unfolding replace
Lacks-replace from to String.[] h = tt
Lacks-replace from to (String.◌∷◌ c s) h =
    (replaced from to c (code c == from) refl h, Lacks-replace from to s h)

replace_same : (from : ℕ) (to : Char) (s : String) → Lacks from s → replace from to s ≡ s
unfolding replace
replace_same from to String.[] h = refl
replace_same from to (String.◌∷◌ c s) h = rw (replace, h.0, replace_same from to s h.1) refl

first_part-split : (s : String) → Lacks 40 s → first_part 40 s ≡ s
first_part-split s h = ap (λ parts. get_or (head? parts) String.[]) (split_whole 40 s h)

first_part-append : (s rest : String) → Lacks 40 s → first_part 40 (append s (append "(" rest)) ≡ s
first_part-append s rest h =
    ap (λ parts. get_or (head? parts) String.[])
      (ap (λ t. split 40 (append s t))
          (cons-append "(" String.[] rest ∙ ap (λ t. String.◌∷◌ "(" t) (nil-append rest))
        ∙ split-append "(" s rest h)

-- Whatever the `Debug` of the payload is, a response has the status of its error in its head and in its
-- body, the name of its variant alone, and a text without a line feed, which is that of the error where
-- that has none.
pub record IsRendered (debug_payload : ApiError → String) (e : ApiError) : Type 0 where
  pub head_status : (into_response debug_payload e).0 ≡ status_code e
  pub body_status : (into_response debug_payload e).1.code ≡ status_code e
  pub variant_name : (into_response debug_payload e).1.name ≡ (variant e).0
  pub one_line : Lacks 10 (into_response debug_payload e).1.error
  pub same_text : Lacks 10 (to_string e) → (into_response debug_payload e).1.error ≡ to_string e

module _ (debug_payload : ApiError → String) where
  first_part-debug : (e : ApiError) → first_part 40 (debug debug_payload e) ≡ (variant e).0
  unfolding debug
  first_part-debug e = by_payload (variant e).1
    where
      no_parenthesis : Lacks 40 (variant e).0
      no_parenthesis = lacks-Lacks 40 (variant e).0 (ground (arith, variant-lacks e))

      by_payload :
          (b : Bool)
          → first_part 40 (
              if b
              then append (variant e).0 (append "(" (append (debug_payload e) ")"))
              else (variant e).0)
            ≡ (variant e).0
      by_payload true = first_part-append (variant e).0 _ no_parenthesis
      by_payload false = first_part-split (variant e).0 no_parenthesis

  name-variant : (e : ApiError) → name debug_payload e ≡ (variant e).0
  unfolding name
  name-variant e =
      ap before_brace (first_part-debug e)
      ∙ before_brace-Lacks (variant e).0
          (lacks-Lacks 123 (variant e).0 (ground (arith, variant-lacks e)))

  pub into_response-IsRendered : (e : ApiError) → IsRendered debug_payload e
  unfolding into_response
  into_response-IsRendered e = record {
    head_status = refl;
    body_status = refl;
    variant_name = name-variant e;
    one_line = Lacks-replace 10 " " (to_string e) refl;
    same_text = replace_same 10 " " (to_string e);
  }

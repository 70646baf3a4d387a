-- ===== src/Routes/RespondForms.antt =====
-- What `respond_to_operation` of src/routes.rs reads from a form: the last request in it, and the PSBT.
use rgb_multisig_hub.Base.{
  ℕ, ◌≡◌, refl, sym, ap, ◌∙◌, inl, inr, String, str_eq, Bool, true, false, Option, none, some, List,
  [], ◌∷◌, ◌++◌, if◌then◌else◌, is_some, arith, Bool-cases, subst, eq_iff, not, ◌&&◌,
}
use rgb_multisig_hub.Errors.{ApiError}
use rgb_multisig_hub.World.{Env, RespondToOperationRequest, World, Outcome, ok, err}
use rgb_multisig_hub.World.Inversion.{>>=-run, pure-eq-ok, ok_or-eq-ok, raise_if-eq-ok}
use rgb_multisig_hub.Multipart.{
  Field, field_name, concat, when_read, field_text, write_chunks, receive_file,
}
use rgb_multisig_hub.Routes.Respond.{
  RespondForm, read_request, read_psbt, read_field, read_form, validate_form,
}

append_assoc : (a b c : List ℕ) → (a ++ b) ++ c ≡ a ++ (b ++ c)
append_assoc [] b c = refl
append_assoc (x ∷ a) b c = ap (λ l. x ∷ l) (append_assoc a b c)

append_nil : (a : List ℕ) → a ++ [] ≡ a
append_nil [] = refl
append_nil (x ∷ a) = ap (λ l. x ∷ l) (append_nil a)

when_read-eq-ok :
    {A : Type 0} (e : Option String) (s : String) (a : A) (w : World) {b : A} {u : World}
    → when_read e s a w ≡ (ok b, u)
    → a ≡ b
unfolding rgb_multisig_hub.World.raise
when_read-eq-ok none s a w h = (pure-eq-ok a w h).0
when_read-eq-ok (some e) s a w h = cc

module _ (env : Env) where
  write_chunks-eq-ok :
      (chunks : List (List ℕ)) (e : Option String) (written : List ℕ) (size : ℕ) (w : World)
      {r : List ℕ × ℕ} {u : World}
      → write_chunks env chunks e written size w ≡ (ok r, u)
      → r.0 ≡ written ++ concat chunks
  unfolding write_chunks
  write_chunks-eq-ok [] e written size w h =
      ap (λ (z : List ℕ × ℕ). z.0) (sym (when_read-eq-ok e _ (written, size) w h))
      ∙ sym (append_nil written)
  write_chunks-eq-ok (chunk ∷ chunks) e written size w h = >>=-run _ _ w h λ _ w1 q1 h1.
      write_chunks-eq-ok chunks e (written ++ chunk) _ w1 h1
      ∙ append_assoc written chunk (concat chunks)

  receive_file-eq-ok :
      (s : String) (field : Field) (w : World) {content : List ℕ} {u : World}
      → receive_file env s field w ≡ (ok content, u)
      → content ≡ concat field.chunks
  unfolding receive_file
  receive_file-eq-ok s field w h = >>=-run _ _ w h λ _ w1 q1 h1. >>=-run _ _ w1 h1 λ _ w2 q2 h2.
      >>=-run _ _ w2 h2 λ r w3 q3 h3. >>=-run _ _ w3 h3 λ _ w4 q4 h4.
        >>=-run _ _ w4 h4 λ _ w5 q5 h5.
          sym (pure-eq-ok r.0 w5 h5).0 ∙ write_chunks-eq-ok field.chunks field.read_error [] 0 w2 q3

-- The last request in the fields, or `before` if they have none.
abbrev pub requested :
    Env → Option RespondToOperationRequest → List Field → Option RespondToOperationRequest
requested env before [] = before
requested env before (field ∷ fields) =
    requested env
      (if str_eq (field_name field) "request"
        then env.parse_request (env.decode_text (concat field.chunks))
        else before)
      fields

-- The content of the last PSBT in the fields, or `before` if they have none.
abbrev pub psbt_of : Option (List ℕ) → List Field → Option (List ℕ)
psbt_of before [] = before
psbt_of before (field ∷ fields) =
    psbt_of (if str_eq (field_name field) "file_psbt" then some (concat field.chunks) else before)
      fields

-- A request field is no PSBT.
not_psbt : (name : String) → str_eq name "request" ≡ true → str_eq name "file_psbt" ≡ false
not_psbt name h = subst (λ n. str_eq n "file_psbt" ≡ false) (sym ((eq_iff name "request").0 h)) refl

-- The form after one more field.
abbrev with_field : Env → Field → RespondForm → RespondForm
with_field env field form = record {
  req =
      if str_eq (field_name field) "request"
      then env.parse_request (env.decode_text (concat field.chunks))
      else form.req;
  psbt_file =
      if str_eq (field_name field) "file_psbt" then some (concat field.chunks) else form.psbt_file;
}

module _ (env : Env) where
  read_field-eq-ok :
      (field : Field) (form : RespondForm) (w : World) {next : RespondForm} {u : World}
      → read_field env field form w ≡ (ok next, u)
      → next ≡ with_field env field form
  unfolding read_field read_request read_psbt field_text rgb_multisig_hub.World.raise
  read_field-eq-ok field form w {next} {u} h =
      elim (Bool-cases (str_eq (field_name field) "request")) [
        | inl is_request ↦
            let other = not_psbt (field_name field) is_request in
            >>=-run _ _ w (rw is_request at h) λ text w1 q1 h1.
              >>=-run _ _ w1 h1 λ payload w2 q2 h2.
                let e1 =
                  when_read-eq-ok field.read_error _ (env.decode_text (concat field.chunks)) w q1 in
                let (e2, _) = ok_or-eq-ok _ _ w1 q2 in
                let (e3, _) = pure-eq-ok _ w2 h2 in
                sym e3
                ∙ rw (is_request, other)
                    (ap (λ r. record form { req = r }) (sym e2 ∙ ap env.parse_request (sym e1)))
        | inr not_request ↦ elim (Bool-cases (str_eq (field_name field) "file_psbt")) [
          | inl is_psbt ↦ >>=-run _ _ w (rw (not_request, is_psbt) at h) λ _ w1 q1 h1.
              >>=-run _ _ w1 h1 λ content w2 q2 h2.
                let (e3, _) = pure-eq-ok _ w2 h2 in
                sym e3
                ∙ rw (not_request, is_psbt)
                    (ap (λ c. record form { psbt_file = some c })
                      (receive_file-eq-ok env "empty file" field w1 q2))
          | inr neither ↦ absurd (never next u (rw (not_request, neither) at h))
        ]
      ]
    where
      never :
          {e : ApiError} {v : World} (n : RespondForm) (u : World)
          → ◌≡◌ {A = Outcome ApiError RespondForm × World} (err e, v) (ok n, u)
          → ⊥
      never n u h = cc

  -- A form that is read has the last request of the fields and the PSBT among them.
  pub read_form-eq-ok :
      (fields : List Field) (broken : Bool) (form : RespondForm) (w : World) {parsed : RespondForm}
      {u : World}
      → read_form env fields broken form w ≡ (ok parsed, u)
      → (parsed.req ≡ requested env form.req fields)
        × (parsed.psbt_file ≡ psbt_of form.psbt_file fields)
  unfolding read_form
  read_form-eq-ok [] broken form w h = >>=-run _ _ w h λ _ w1 q1 h1.
      let (e, _) = pure-eq-ok form w1 h1 in
      (ap (λ (z : RespondForm). z.req) (sym e), ap (λ (z : RespondForm). z.psbt_file) (sym e))
  read_form-eq-ok (field ∷ fields) broken form w h = >>=-run _ _ w h λ next w1 q1 h1.
      let e = read_field-eq-ok field form w q1 in
      let (a, b) = read_form-eq-ok fields broken next w1 h1 in
      (
        a ∙ ap (λ (z : RespondForm). requested env z.req fields) e,
        b ∙ ap (λ (z : RespondForm). psbt_of z.psbt_file fields) e,
      )

pub validate_form-eq-ok :
    (form : RespondForm) (w : World) {req : RespondToOperationRequest} {u : World}
    → validate_form form w ≡ (ok req, u)
    → (form.req ≡ some req) × (req.ack ≡ true → is_some form.psbt_file ≡ true)
unfolding validate_form
validate_form-eq-ok form w h = >>=-run _ _ w h λ found w1 q1 h1. >>=-run _ _ w1 h1 λ _ w2 q2 h2.
    let (e1, _) = ok_or-eq-ok form.req _ w q1 in
    let (e2, _) = raise_if-eq-ok _ _ w1 q2 in
    let (e3, _) = pure-eq-ok found w2 h2 in
    (
      e1 ∙ ap some e3,
      λ acked.
          backed found.ack (is_some form.psbt_file) e2
            (ap (λ (z : RespondToOperationRequest). z.ack) e3 ∙ acked),
    )
  where
    backed : (a b : Bool) → (a && not b) ≡ false → a ≡ true → b ≡ true
    backed a b h e = ground arith

-- ===== src/Hub/Panics.antt =====
-- The parts of `respond_to_operation` in src/routes.rs that cannot panic.
use rgb_multisig_hub.Base.{
  ℕ, ◌+◌, String, Bool, Option, none, some, List, [], ◌∷◌, ◌++◌, length, inl, inr,
}
use rgb_multisig_hub.Errors.{ApiError, ApiError_from_db_err}
use rgb_multisig_hub.Operations.{OperationStatus}
use rgb_multisig_hub.World.{Env, IsLawful, World, ok, err, panic, Outcome}
use rgb_multisig_hub.World.Panics.{
  NoPanic, Calm, Calm-bind, Calm-pure, Calm-raise, Calm-raise_if, Calm-io_step, Calm-exec, Calm-if,
  calm_rules,
}
use rgb_multisig_hub.Database.{set_op_file, update_operation}
use rgb_multisig_hub.Files.{exists, compute_file_id, persist_temp_file, store_file}
use rgb_multisig_hub.Files.Identity.{ReturnsOrIo, content_id, compute_file_id_lem}
use rgb_multisig_hub.State.{AppState}
use rgb_multisig_hub.Multipart.{Field, when_read, field_text, write_chunks, receive_file}
use rgb_multisig_hub.Routes.Respond.{
  RespondForm, read_request, read_psbt, read_field, read_form, validate_form, save_response_psbt,
  apply_decision,
}

Calm-when_read : {A : Type 0} (e : Option String) (s : String) (a : A) → Calm (when_read e s a)
Calm-when_read none s a = Calm-pure a
Calm-when_read (some e) s a = Calm-raise _

Calm-exists : (path : String) → Calm (exists path)
unfolding exists
Calm-exists path = record { calm = λ w. tt }

module _ (env : Env) where
  Calm-field_text : (field : Field) → Calm (field_text env field)
  unfolding field_text
  Calm-field_text field = Calm-when_read _ _ _

  Calm-write_chunks :
      (chunks : List (List ℕ)) (e : Option String) (written : List ℕ) (size : ℕ)
      → Calm (write_chunks env chunks e written size)
  unfolding write_chunks
  Calm-write_chunks [] e written size = Calm-when_read e _ _
  Calm-write_chunks (chunk ∷ chunks) e written size =
      let rest = Calm-write_chunks chunks e (written ++ chunk) (size + length chunk) in
      Calm-bind (Calm-io_step env _ _) (λ _. rest)

  Calm-receive_file : (s : String) (field : Field) → Calm (receive_file env s field)
  unfolding receive_file
  Calm-receive_file s field = search (calm_rules, Calm-write_chunks) depth 12

  Calm-read_field : (field : Field) (form : RespondForm) → Calm (read_field env field form)
  unfolding read_field read_request read_psbt
  Calm-read_field field form = search (calm_rules, Calm-field_text, Calm-receive_file) depth 12

  pub Calm-read_form :
      (fields : List Field) (broken : Bool) (form : RespondForm)
      → Calm (read_form env fields broken form)
  unfolding read_form
  Calm-read_form [] broken form = Calm-bind (Calm-raise_if broken _) (λ _. Calm-pure form)
  Calm-read_form (field ∷ fields) broken form =
      let rest = Calm-read_form fields broken in Calm-bind (Calm-read_field field form) rest

  Calm-persist_temp_file :
      (content : List ℕ) (path : String) → Calm (persist_temp_file env content path)
  unfolding persist_temp_file
  Calm-persist_temp_file content path = search calm_rules depth 10

pub Calm-validate_form : (form : RespondForm) → Calm (validate_form form)
unfolding validate_form
Calm-validate_form form = search calm_rules depth 8

module _ (env : Env) (lawful : IsLawful env) (state : AppState) where
  calm_or_io :
      {A : Type 0} (a : A) (w : World) (o : Outcome ApiError A × World)
      → ReturnsOrIo env a w o
      → NoPanic o.0
  calm_or_io a w (ok b, u) h = tt
  calm_or_io a w (err e, u) h = tt
  calm_or_io a w (panic s, u) (inl e, d, f) = cc
  calm_or_io a w (panic s, u) (inr (n, e, p, q), d, f) = cc

  Calm-compute_file_id : (content : List ℕ) → Calm (compute_file_id env content)
  Calm-compute_file_id content = record {
    calm = λ w.
        calm_or_io (content_id env content) w (compute_file_id env content w)
          (compute_file_id_lem env lawful content w);
  }

  Calm-store_file : (dir : String) (content : List ℕ) → Calm (store_file env dir content)
  unfolding store_file
  Calm-store_file dir content = Calm-bind (Calm-compute_file_id content) λ id.
      Calm-bind (Calm-exists _) λ there.
        Calm-if there (Calm-pure id)
          (Calm-bind (Calm-persist_temp_file env content _) (λ _. Calm-pure id))

  pub Calm-save_response_psbt :
      (i : ℕ) (psbt : Option (List ℕ)) → Calm (save_response_psbt env state i psbt)
  unfolding save_response_psbt set_op_file
  Calm-save_response_psbt i none = Calm-pure _
  Calm-save_response_psbt i (some content) =
      Calm-bind (Calm-store_file _ content) λ id. Calm-bind (Calm-exec env _) (λ k. Calm-pure _)

  pub Calm-apply_decision :
      (i : ℕ) (s : Option OperationStatus) → Calm (apply_decision env state i s)
  unfolding apply_decision update_operation
  Calm-apply_decision i none = Calm-pure _
  Calm-apply_decision i (some s) = Calm-exec env _

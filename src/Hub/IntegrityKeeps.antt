-- ===== src/Hub/IntegrityKeeps.antt =====
-- The handlers of src/routes.rs keep the references between the tables, however they end.
use rgb_multisig_hub.Base.{
  ℕ, ◌≡◌, refl, subst, String, Bool, Option, none, some, List, [], ◌∷◌, All,
}
use rgb_multisig_hub.Errors.{ApiError, ApiError_from_db_err}
use rgb_multisig_hub.Operations.{
  OperationStatus, OperationType, FileType, operation_psbt, response_psbt,
}
use rgb_multisig_hub.World.{Env, Db, M, Operation, CosignerOpStatus}
use rgb_multisig_hub.World.Atomic.{ReadOnly, ReadOnly-pure, ReadOnly-now, ReadOnly-expect}
use rgb_multisig_hub.World.Triples.{
  Triple, Triple-ReadOnly, Triple-bind, Triple-pure, Triple-imp, Triple-transaction,
}
use rgb_multisig_hub.Database.Reads.{database_reads}
use rgb_multisig_hub.Files.Reads.{ReadOnly-store_file}
use rgb_multisig_hub.State.{AppState}
use rgb_multisig_hub.Multipart.{Multipart}
use rgb_multisig_hub.Routes.Post.Form.{PostForm}
use rgb_multisig_hub.Routes.Post.Save.{
  new_operation, new_op_file, new_cosigner_op_status, save_file, save_files, save_psbt,
  create_statuses, save_operation, post_operation,
}
use rgb_multisig_hub.Routes.Respond.{
  set_response, save_response_psbt, apply_decision, decide, save_response,
}
use rgb_multisig_hub.Routes.FormReads.{
  ReadOnly-post_form, ReadOnly-check_post_allowed, ReadOnly-post_validate,
}
use rgb_multisig_hub.Hub.Integrity.{HasCosigner, HasFile, HasFile?, EntryRefers, Integral}
use rgb_multisig_hub.Hub.IntegrityRows.{some_inj}
use rgb_multisig_hub.Hub.IntegrityWrites.{
  OpThere, OpThere-Integral, set_operation-Integral, set_op_file-Integral,
  set_cosigner_op_status-Integral, update_cosigner_op_status-Integral, update_operation-Integral,
}

none≢some : {A : Type 0} {a : A} → none ≡ some a → ⊥
none≢some e = cc

module _ (env : Env) (state : AppState) where
  -- What reads keeps the references.
  pub reading :
      {E A : Type 0} {m : M E A}
      → ReadOnly m
      → Triple (Integral state) (Integral state) m (λ _. Integral state)
  reading r = Triple-ReadOnly (Integral state) (Integral state) (λ db h. h) r

  reading_there :
      (i : ℕ) {E A : Type 0} {m : M E A}
      → ReadOnly m
      → Triple (Integral state) (OpThere state i) m (λ _. OpThere state i)
  reading_there i r =
      Triple-ReadOnly (Integral state) (OpThere state i) (OpThere-Integral state i) r

  save_file-Integral :
      (i : ℕ) (t : FileType) (content : List ℕ)
      → Triple
          (Integral state)
          (OpThere state i)
          (save_file env state i t content)
          (λ k db. OpThere state i db × HasFile k db)
  unfolding save_file
  save_file-Integral i t content =
      Triple-bind (reading_there i (ReadOnly-store_file env _ content))
        (λ id. set_op_file-Integral env state i _ (λ k. refl) (λ k. refl))

  save_files-Integral :
      (i : ℕ) (files : List (FileType × List ℕ))
      → Triple
          (Integral state)
          (OpThere state i)
          (save_files env state i files)
          (λ _. OpThere state i)
  unfolding save_files
  save_files-Integral i [] = Triple-pure tt (λ db h. h)
  save_files-Integral i ((t, content) ∷ files) =
      let rest = save_files-Integral i files in
      Triple-bind (save_file-Integral i t content) (λ k. Triple-imp (λ db h. h.0) rest)

  save_psbt-Integral :
      (i : ℕ) (psbt : Option (List ℕ))
      → Triple
          (Integral state)
          (OpThere state i)
          (save_psbt env state i psbt)
          (λ _. OpThere state i)
  unfolding save_psbt
  save_psbt-Integral i none = Triple-pure tt (λ db h. h)
  save_psbt-Integral i (some content) =
      Triple-bind (save_file-Integral i operation_psbt content) (λ k. Triple-pure tt (λ db h. h.0))

  create_statuses-Integral :
      (i : ℕ) (cosigners : List (ℕ × String))
      → Triple
          (Integral state)
          (λ db. OpThere state i db × All (λ (p : ℕ × String). HasCosigner p.0 db) cosigners)
          (create_statuses env state i cosigners)
          (λ _. OpThere state i)
  unfolding create_statuses
  create_statuses-Integral i [] = Triple-pure tt (λ db h. h.0)
  create_statuses-Integral i ((c, xpub) ∷ cosigners) =
      let rest = create_statuses-Integral i cosigners in
      Triple-bind
        (set_cosigner_op_status-Integral env state
          (λ db.
            OpThere state i db
            × All (λ (p : ℕ × String). HasCosigner p.0 db) ((c, xpub) ∷ cosigners))
          i (new_cosigner_op_status i c)
          (λ db h. (h.0, λ k. (h.1.0, h.0.1, λ f none_is. absurd (none≢some none_is))))
          (λ db rows h there. (there, h.1)))
        (λ k. Triple-imp (λ db h. (h.0, h.1.1)) rest)

  save_operation-Integral :
      (c : ℕ) (form : PostForm) (t : OperationType) (time : ℕ)
      → Triple
          (Integral state)
          (λ db. Integral state db × HasCosigner c db)
          (save_operation env state c form t time)
          (λ _. Integral state)
  unfolding save_operation
  save_operation-Integral c form t time =
      Triple-bind
        (set_operation-Integral env state (new_operation t c form.seed time) c (λ k. refl)
          (λ k. refl))
        λ i. Triple-bind (save_files-Integral i form.files) λ _.
          Triple-bind (save_psbt-Integral i form.psbt_file) λ _.
            Triple-bind
              (Triple-imp (λ db h. (h, h.0.by_idx))
                (create_statuses-Integral i state.cosigners_by_idx))
              λ _. Triple-pure i (λ db h. h.0)

  pub post_operation-Integral :
      (c : ℕ) (form : Multipart)
      → Triple
          (Integral state)
          (λ db. Integral state db × HasCosigner c db)
          (post_operation env state c form)
          (λ _. Integral state)
  unfolding post_operation
  post_operation-Integral c form = Triple-bind (keep (ReadOnly-check_post_allowed env c)) λ _.
      Triple-bind (keep (ReadOnly-post_form env _ _ _)) λ parsed.
        Triple-bind (keep (ReadOnly-post_validate parsed)) λ t.
          Triple-bind (keep (ReadOnly-now env)) λ time.
            Triple-transaction env ⦃from = ApiError_from_db_err⦄ (λ db h. h.0) _
              (save_operation-Integral c parsed t time)
    where
      keep :
          {A : Type 0} {m : M ApiError A}
          → ReadOnly m
          → Triple
              (Integral state)
              (λ db. Integral state db × HasCosigner c db)
              m
              (λ _ db. Integral state db × HasCosigner c db)
      keep r = Triple-ReadOnly (Integral state) _ (λ db h. h.0) r

  save_response_psbt-Integral :
      (i : ℕ) (psbt : Option (List ℕ))
      → Triple
          (Integral state)
          (OpThere state i)
          (save_response_psbt env state i psbt)
          (λ k db. Integral state db × HasFile? k db)
  unfolding save_response_psbt
  save_response_psbt-Integral i none = Triple-pure none (λ db h. (h.0, λ k e. absurd (none≢some e)))
  save_response_psbt-Integral i (some content) =
      Triple-bind (reading_there i (ReadOnly-store_file env _ content)) λ id.
        Triple-bind
          (set_op_file-Integral env state i (new_op_file id response_psbt i) (λ k. refl)
            (λ k. refl))
          λ k.
            Triple-pure (some k)
              (λ db h. (h.0.0, λ j e. subst (λ x. HasFile x db) (some_inj e) h.1))

  apply_decision-Integral :
      (i : ℕ) (d : Option OperationStatus)
      → Triple
          (Integral state)
          (Integral state)
          (apply_decision env state i d)
          (λ _. Integral state)
  unfolding apply_decision
  apply_decision-Integral i none = reading (ReadOnly-pure _)
  apply_decision-Integral i (some s) = update_operation-Integral env state i s

  decide-Integral :
      (op : Operation)
      → Triple (Integral state) (Integral state) (decide env state op) (λ _. Integral state)
  unfolding decide
  decide-Integral op =
      Triple-bind (reading (search database_reads))
        λ entries. Triple-bind (reading (ReadOnly-expect _ _)) λ t. apply_decision-Integral _ _

  set_response-refers :
      (db : Db) (ack : Bool) (time : ℕ) (psbt : Option ℕ)
      → HasFile? psbt db
      → (s : CosignerOpStatus) → EntryRefers db s
      → EntryRefers db (set_response ack time psbt s)
  set_response-refers db ack time none f s k = k
  set_response-refers db ack time (some j) f s k = (k.0, k.1, f)

  pub save_response-Integral :
      (op : Operation) (s : CosignerOpStatus) (ack : Bool) (psbt : Option (List ℕ))
      → Triple
          (Integral state)
          (OpThere state op.idx)
          (save_response env state op s ack psbt)
          (λ _. Integral state)
  unfolding save_response
  save_response-Integral op s ack psbt = Triple-bind (save_response_psbt-Integral op.idx psbt) λ j.
      Triple-bind (Triple-ReadOnly (Integral state) _ (λ db h. h.0) (ReadOnly-now env)) λ time.
        Triple-bind
          (update_cosigner_op_status-Integral env state _ s.idx (set_response ack time j)
            (λ db h. h.0) (λ db h. set_response-refers db ack time j h.1))
          λ _. decide-Integral op

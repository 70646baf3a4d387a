-- ===== src/Hub/Unbroken.antt =====
-- `respond_to_operation` of src/routes.rs expects an entry of the cosigner and a threshold of the
-- operation: where the tables are consistent it finds both, and does not panic up to its commit.
use rgb_multisig_hub.Base.{
  ℕ, ◌*◌, ◌<◌, ◌≡◌, refl, sym, ap, subst, ◌∙◌, String, Bool, true, false, Option, none, some, List,
  ◌==◌, count, length, count_of_Elem, All_of_Elem, Elem, arith,
}
use rgb_multisig_hub.Errors.{ApiError, ApiError_from_db_err}
use rgb_multisig_hub.Operations.{pending}
use rgb_multisig_hub.World.{Env, IsLawful, World, expect, ticked, Db, Operation, CosignerOpStatus}
use rgb_multisig_hub.World.Inversion.{query-eq-ok, ok_or-eq-ok, raise_if-eq-ok}
use rgb_multisig_hub.World.Atomic.{ReadOnly-run}
use rgb_multisig_hub.World.Panics.{
  NoPanic, Calm, NoPanic-bind, NoPanic-transaction, Calm-bind, Calm-pure, Calm-raise_if, Calm-query,
  Calm-exec, Calm-ok_or, Calm-now,
}
use rgb_multisig_hub.Database.Rows.{one, operation_has_idx, status_is_entry}
use rgb_multisig_hub.Database.{
  get_operation_by_idx, get_cosigner_op_status_entry, get_last_cosigner_processed_op_idx,
  update_cosigner_op_status, iter_cosigner_op_status_by_operation_idx,
}
use rgb_multisig_hub.Database.Answers.{one-none}
use rgb_multisig_hub.Database.Reads.{ReadOnly-get_operation_by_idx}
use rgb_multisig_hub.State.{AppState}
use rgb_multisig_hub.Multipart.{Multipart}
use rgb_multisig_hub.Routes.Respond.{check_respond_allowed, decide, save_response, record_response}
use rgb_multisig_hub.Routes.FormReads.{ReadOnly-respond_form, ReadOnly-respond_validate}
use rgb_multisig_hub.Hub.Settled.{Consistent, Settled, Verdict, threshold_of, votes, processed}
use rgb_multisig_hub.Hub.Responding.{MayRespond, found_operation, check_respond_allowed-MayRespond}
use rgb_multisig_hub.Hub.Panics.{
  Calm-read_form, Calm-validate_form, Calm-save_response_psbt, Calm-apply_decision,
}

NoPanic-expect :
    {A : Type 0} (o : Option A) (s : String) (w : World)
    → (o ≡ none → ⊥)
    → NoPanic (expect {E = ApiError} o s w).0
unfolding expect
NoPanic-expect none s w h = h refl
NoPanic-expect (some a) s w h = tt

module _ (env : Env) where
  Calm-get_operation_by_idx : (i : ℕ) → Calm (get_operation_by_idx env i)
  unfolding get_operation_by_idx
  Calm-get_operation_by_idx i = Calm-query env _

pending_threshold : (t : Option ℕ) (a n d total : ℕ) → Verdict pending t a n d total → t ≡ none → ⊥
pending_threshold none a n d total v e = v
pending_threshold (some t) a n d total v e = cc

module _ (env : Env) (lawful : IsLawful env) (state : AppState) where
  -- The cosigner has an entry of an operation that is there.
  entry_there :
      (c i : ℕ) (op : Operation) (db : Db) (tick : ℕ)
      → Consistent state db.operations db.statuses
      → 0 < count (λ p. p.0 == c) state.cosigners_by_idx
      → Elem op db.operations
      → op.idx ≡ i
      → one env tick (status_is_entry c i) db.statuses ≡ none
      → ⊥
  entry_there c i op db tick h known there idx missing =
      let some_op =
        count_of_Elem (operation_has_idx i) op db.operations there (ground (arith, idx)) in
      let one_op : count (operation_has_idx i) db.operations ≡ 1 =
        omega (arith, some_op, h.op_unique i) in
      let entries : count (status_is_entry c i) db.statuses
          ≡ 1 * count (λ p. p.0 == c) state.cosigners_by_idx =
        h.entry c i ∙ ap (λ n. n * count (λ p. p.0 == c) state.cosigners_by_idx) one_op in
      omega (arith, entries, one-none env lawful tick (status_is_entry c i) db.statuses missing)

  check-NoPanic :
      (c i : ℕ) (w : World)
      → Consistent state w.db.operations w.db.statuses
      → 0 < count (λ p. p.0 == c) state.cosigners_by_idx
      → NoPanic (check_respond_allowed env c i w).0
  unfolding check_respond_allowed get_cosigner_op_status_entry get_last_cosigner_processed_op_idx
  check-NoPanic c i w h known =
      NoPanic-bind _ _ w ((Calm-get_operation_by_idx env i).calm w) λ o w1 q1.
        NoPanic-bind _ _ w1 ((Calm-ok_or o _).calm w1) λ op w2 q2.
          NoPanic-bind _ _ w2 ((Calm-raise_if _ _).calm w2) λ _ w3 q3.
            NoPanic-bind _ _ w3 ((Calm-query env _).calm w3) λ e w4 q4.
              NoPanic-bind _ _ w4
                (NoPanic-expect e _ w4 λ none_found.
                  let (e2, s2) = ok_or-eq-ok _ _ w1 q2 in
                  let (e3, s3) = raise_if-eq-ok _ _ w2 q3 in
                  let (there, idx) = found_operation env lawful i w q1 op e2 in
                  let same : w3.db ≡ w.db =
                    ap (λ (z : World). z.db) (s3 ∙ s2)
                    ∙ ReadOnly-run (ReadOnly-get_operation_by_idx env i) q1 in
                  let (answer, _) = query-eq-ok env _ w3 q4 in
                  entry_there c i op w.db w3.tick h known there idx (
                    ap (λ (d : Db). one env w3.tick (status_is_entry c i) d.statuses) (sym same)
                    ∙ answer
                    ∙ none_found))
                λ entry w5 q5.
                  (Calm-bind (Calm-raise_if _ _) λ _.
                      Calm-bind (Calm-query env _)
                        λ last. Calm-bind (Calm-raise_if _ _) (λ _. Calm-pure _)).calm
                    w5

  decide-NoPanic :
      (op : Operation) (w : World)
      → (threshold_of state op.type ≡ none → ⊥)
      → NoPanic (decide env state op w).0
  unfolding decide iter_cosigner_op_status_by_operation_idx
  decide-NoPanic op w has_threshold =
      NoPanic-bind _ _ w ((Calm-query env _).calm w) λ entries w1 q1.
        NoPanic-bind _ _ w1 (NoPanic-expect _ _ w1 has_threshold)
          λ t w2 q2. (Calm-apply_decision env lawful state op.idx _).calm w2

  save-NoPanic :
      (op : Operation) (entry : CosignerOpStatus) (ack : Bool) (psbt : Option (List ℕ)) (w : World)
      → (threshold_of state op.type ≡ none → ⊥)
      → NoPanic (save_response env state op entry ack psbt w).0
  unfolding save_response update_cosigner_op_status
  save-NoPanic op entry ack psbt w has_threshold =
      NoPanic-bind _ _ w ((Calm-save_response_psbt env lawful state op.idx psbt).calm w)
        λ file w1 q1. NoPanic-bind _ _ w1 ((Calm-now env).calm w1) λ time w2 q2.
          NoPanic-bind _ _ w2 ((Calm-exec env _).calm w2)
            λ _ w3 q3. decide-NoPanic op w3 has_threshold

  threshold_there :
      (c i : ℕ) (op : Operation) (entry : CosignerOpStatus) (db : Db)
      → Consistent state db.operations db.statuses
      → MayRespond c i op entry db
      → threshold_of state op.type ≡ none
      → ⊥
  threshold_there c i op entry db h may =
      let total = length state.cosigners_by_idx in
      let rows = db.statuses in
      pending_threshold (threshold_of state op.type) _ _ _ total (
        subst
          (λ s.
            Verdict s (threshold_of state op.type) (votes true op.idx rows)
              (votes false op.idx rows) (processed op.idx rows) total)
          may.op_pending (All_of_Elem (Settled state rows) op db.operations h.settled may.op_there))

  -- With dependencies that do as documented and consistent tables, a response by a cosigner of the
  -- configuration, with whatever form, ends up to its commit with a value or an error, never with a
  -- panic, at whatever call of the database or the file system something fails.
  pub record_response-NoPanic :
      (c : ℕ) (form : Multipart) (w : World)
      → Consistent state w.db.operations w.db.statuses
      → 0 < count (λ p. p.0 == c) state.cosigners_by_idx
      → NoPanic (record_response env state c form w).0
  unfolding record_response
  record_response-NoPanic c form w h known =
      NoPanic-bind _ _ w ((Calm-read_form env _ _ _).calm w) λ parsed w1 q1.
        NoPanic-bind _ _ w1 ((Calm-validate_form parsed).calm w1) λ req w2 q2.
          let same : w2.db ≡ w.db =
            ReadOnly-run (ReadOnly-respond_validate parsed) q2
            ∙ ReadOnly-run (ReadOnly-respond_form env form.fields form.broken _) q1 in
          let h2 = subst (λ (d : Db). Consistent state d.operations d.statuses) (sym same) h in
          NoPanic-bind _ _ w2 (check-NoPanic c req.operation_idx w2 h2 known) λ allowed w3 q3.
            let may = check_respond_allowed-MayRespond env lawful c req.operation_idx w2 q3 in
            NoPanic-bind _ _ w3
              (NoPanic-transaction env _ w3 (
                save-NoPanic allowed.0 allowed.1 req.ack parsed.psbt_file (ticked w3)
                  (threshold_there c req.operation_idx allowed.0 allowed.1 w2.db h2 may)))
              (λ _ w4 q4. (Calm-pure _).calm w4)

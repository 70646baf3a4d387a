-- ===== src/Hub/Recording.antt =====
-- The transaction of `respond_to_operation` in src/routes.rs: the entry gets the response, and the
-- operation the status that the votes call for.
use rgb_multisig_hub.Base.{
  ℕ, ◌%◌, ◌≡◌, refl, sym, ap, subst, ◌∙◌, Bool, true, false, Option, none, some, List, update_where,
  is_some, Elem,
}
use rgb_multisig_hub.Errors.{ApiError, ApiError_from_db_err}
use rgb_multisig_hub.Operations.{OperationStatus, response_psbt}
use rgb_multisig_hub.World.{Env, IsLawful, World, ok, ticked, now, Operation, CosignerOpStatus, Db}
use rgb_multisig_hub.World.Inversion.{
  >>=-run, pure-eq-ok, expect-eq-ok, query-eq-ok, transaction-eq-ok,
}
use rgb_multisig_hub.World.Atomic.{ReadOnly-run, ReadOnly-now}
use rgb_multisig_hub.World.Keeps.{Keeps-run}
use rgb_multisig_hub.Database.Rows.{status_has_idx}
use rgb_multisig_hub.Database.{iter_cosigner_op_status_by_operation_idx}
use rgb_multisig_hub.Database.Effects.{update_cosigner_op_status-eq-ok, update_operation-eq-ok}
use rgb_multisig_hub.State.{AppState, total_cosigners}
use rgb_multisig_hub.Multipart.{Multipart}
use rgb_multisig_hub.Votes.{count_votes, new_status}
use rgb_multisig_hub.Votes.Decision.{count_votes_lem}
use rgb_multisig_hub.Routes.Respond.{
  set_response, apply_decision, decide, save_response, record_response,
}
use rgb_multisig_hub.Routes.FormReads.{
  ReadOnly-respond_form, ReadOnly-respond_validate, ReadOnly-check_respond_allowed,
}
use rgb_multisig_hub.Routes.Post.Save.{new_op_file}
use rgb_multisig_hub.Files.Identity.{content_id}
use rgb_multisig_hub.Routes.RespondForms.{requested, psbt_of, read_form-eq-ok, validate_form-eq-ok}
use rgb_multisig_hub.Hub.Recorded.{
  Stored, Recorded, save_response_psbt-Stored, decide-files, update_entry-files,
}
use rgb_multisig_hub.Hub.Settled.{votes, threshold_of}
use rgb_multisig_hub.Hub.Bystanders.{votes_part, save_response_psbt-Keeps}
use rgb_multisig_hub.Hub.Responding.{
  decided, MayRespond, votes_seen, check_respond_allowed-MayRespond,
}

abbrev Tables : Type 0
Tables = List Operation × List CosignerOpStatus

-- The decision on operation `i` that the entries call for.
abbrev decision : AppState → ℕ → ℕ → List CosignerOpStatus → Option OperationStatus
decision state i threshold statuses =
    new_status (votes true i statuses % 256) (votes false i statuses % 256) threshold
      (total_cosigners state)

Stored-files :
    (env : Env) (i : ℕ) (psbt : Option (List ℕ)) (file : Option ℕ) (before after : Db)
    → before.op_files ≡ after.op_files
    → Stored env i psbt file before
    → Stored env i psbt file after
Stored-files env i none none before after e h = h
Stored-files env i none (some k) before after e h = h
Stored-files env i (some content) none before after e h = h
Stored-files env i (some content) (some k) before after e h =
    subst (λ l. Elem (new_op_file (content_id env content) response_psbt i k) l) e h

module _ (env : Env) (lawful : IsLawful env) (state : AppState) where
  clocked :
      (w : World) {time : ℕ} {u : World}
      → now env {E = ApiError} w ≡ (ok time, u)
      → time ≡ env.unix_timestamp w.tick
  unfolding now
  clocked w h = cc

  apply_decision-eq-ok :
      (i : ℕ) (s : Option OperationStatus) (w : World) {a : Unit {0}} {u : World}
      → apply_decision env state i s w ≡ (ok a, u)
      → (u.db.operations ≡ decided i s w.db.operations) × (u.db.statuses ≡ w.db.statuses)
  unfolding apply_decision
  apply_decision-eq-ok i none w h =
      let (_, same) = pure-eq-ok tt w h in
      (ap (λ (z : World). z.db.operations) same, ap (λ (z : World). z.db.statuses) same)
  apply_decision-eq-ok i (some s) w h =
      let e = update_operation-eq-ok env i _ w h in
      (ap (λ (d : Db). d.operations) e, ap (λ (d : Db). d.statuses) e)

  decide-eq-ok :
      (op : Operation) (w : World) {a : Unit {0}} {u : World}
      → decide env state op w ≡ (ok a, u)
      → (t : ℕ) × (threshold_of state op.type ≡ some t)
        × (u.db.operations ≡ decided op.idx (decision state op.idx t w.db.statuses) w.db.operations)
        × (u.db.statuses ≡ w.db.statuses)
  unfolding decide iter_cosigner_op_status_by_operation_idx
  decide-eq-ok op w {a} {u} h = >>=-run _ _ w h λ entries w1 q1 h1. >>=-run _ _ w1 h1 λ t w2 q2 h2.
      let (seen, s1) = query-eq-ok env _ w q1 in
      let (e2, s2) = expect-eq-ok _ _ w1 q2 in
      let (ops, rows) = apply_decision-eq-ok op.idx _ w2 h2 in
      let same : w2.db ≡ w.db = ap (λ (z : World). z.db) (s2 ∙ s1) in
      let counted : count_votes entries
          ≡ (votes true op.idx w.db.statuses % 256, votes false op.idx w.db.statuses % 256) =
        rw
          (
            ← seen,
            count_votes_lem,
            votes_seen env lawful true w.tick op.idx w.db.statuses,
            votes_seen env lawful false w.tick op.idx w.db.statuses,
          )
          refl in
      let chosen : Option OperationStatus =
        new_status (count_votes entries).0 (count_votes entries).1 t (total_cosigners state) in
      (
        t,
        e2,
        ops
            ∙ ap (λ (d : Db). decided op.idx chosen d.operations) same
            ∙ ap
                (λ (v : ℕ × ℕ).
                  decided op.idx (new_status v.0 v.1 t (total_cosigners state)) w.db.operations)
                counted,
        rows ∙ ap (λ (d : Db). d.statuses) same,
      )

  -- The response is recorded, if it is that of the form.
  save_response-Recorded :
      (form : Multipart) (c i : ℕ) (op : Operation) (entry : CosignerOpStatus) (ack : Bool)
      (w : World) {a : Unit {0}} {u : World}
      → requested env none form.fields ≡ some (record { operation_idx = i; ack = ack })
      → (ack ≡ true → is_some (psbt_of none form.fields) ≡ true)
      → MayRespond c i op entry w.db
      → save_response env state op entry ack (psbt_of none form.fields) w ≡ (ok a, u)
      → Recorded env state form c i w.db u.db
  unfolding save_response
  save_response-Recorded form c i op entry ack w {a} {u} request backed may h =
      let psbt = psbt_of none form.fields in
      >>=-run _ _ w h λ file w1 q1 h1. >>=-run _ _ w1 h1 λ time w2 q2 h2.
        >>=-run _ _ w2 h2 λ _ w3 q3 h3.
          let kept : votes_part w2.db ≡ votes_part w.db =
            ap votes_part (ReadOnly-run (ReadOnly-now env) q2)
            ∙ Keeps-run votes_part (save_response_psbt-Keeps env state op.idx psbt) q1 in
          let put = update_cosigner_op_status-eq-ok env entry.idx _ w2 q3 in
          let (t, is_t, ops, rows) = decide-eq-ok op w3 h3 in
          let old_ops : w3.db.operations ≡ w.db.operations =
            ap (λ (d : Db). d.operations) put ∙ ap (λ (r : Tables). r.0) kept in
          let written : w3.db.statuses
              ≡ update_where (status_has_idx entry.idx) (set_response ack time file) w.db.statuses =
            ap (λ (d : Db). d.statuses) put
            ∙ ap
                (λ (r : Tables).
                  update_where (status_has_idx entry.idx) (set_response ack time file) r.1)
                kept in
          let kept_files : u.db.op_files ≡ w1.db.op_files =
            Keeps-run _ (decide-files env state op) h3
            ∙ Keeps-run _ (update_entry-files env state entry.idx _) q3
            ∙ ap (λ (d : Db). d.op_files) (ReadOnly-run (ReadOnly-now env) q2) in
          record {
            responded = record {
              op = op;
              entry = entry;
              allowed = may;
              ack = ack;
              time = time;
              file = file;
              recorded = rows ∙ written;
              threshold = t;
              threshold_is = is_t;
              concluded =
                  ops
                  ∙ ap
                      (λ (l : List Operation).
                        decided op.idx (decision state op.idx t w3.db.statuses) l)
                      old_ops
                  ∙ ap
                      (λ (s : List CosignerOpStatus).
                        decided op.idx (decision state op.idx t s) w.db.operations)
                      (sym rows)
                  ∙ ap (λ (k : ℕ). decided k (decision state k t u.db.statuses) w.db.operations)
                      may.op_idx;
            };
            from_form = record {
              request = request;
              backed = backed;
              psbt = Stored-files env i psbt file w1.db u.db (sym kept_files) (
                  subst (λ k. Stored env k psbt file w1.db) may.op_idx
                    (save_response_psbt-Stored env lawful state op.idx psbt w q1));
              tick = w1.tick;
              clock = clocked w1 q2;
            };
          }

  -- With dependencies that do as documented: a response that passes its commit was to a pending
  -- operation to which the cosigner's entry had no response, and which is the next one after the last
  -- that the cosigner has marked. The last request of the form names the operation; the rows under the
  -- entry's key have then the vote of this request, the time of a tick of the clock, and the key of a
  -- file of the operation with the hash of the form's PSBT, if the form has one, as it has for a
  -- positive vote. No other entry has changed, and the operations are as they were, but for the status of
  -- that operation where its threshold and the votes of the entries, counted modulo 256, decide it.
  pub record_response-Recorded :
      (c : ℕ) (form : Multipart) (w : World) {i : ℕ} {u : World}
      → record_response env state c form w ≡ (ok i, u)
      → Recorded env state form c i w.db u.db
  unfolding record_response
  record_response-Recorded c form w {i} {u} h = >>=-run _ _ w h λ parsed w1 q1 h1.
      >>=-run _ _ w1 h1 λ req w2 q2 h2. >>=-run _ _ w2 h2 λ allowed w3 q3 h3.
        >>=-run _ _ w3 h3 λ _ w4 q4 h4.
          let (eq, last) = pure-eq-ok req.operation_idx w4 h4 in
          let before : w3.db ≡ w.db =
            ReadOnly-run (ReadOnly-check_respond_allowed env c req.operation_idx) q3
            ∙ ReadOnly-run (ReadOnly-respond_validate parsed) q2
            ∙ ReadOnly-run (ReadOnly-respond_form env form.fields form.broken _) q1 in
          let may = check_respond_allowed-MayRespond env lawful c req.operation_idx w2 q3 in
          let unread = ReadOnly-run (ReadOnly-check_respond_allowed env c req.operation_idx) q3 in
          let (v, saved, end) = transaction-eq-ok env _ w3 q4 in
          let (asked, sent) = read_form-eq-ok env form.fields form.broken _ w q1 in
          let (valid, backed) = validate_form-eq-ok parsed w1 q2 in
          let done =
            save_response-Recorded form c req.operation_idx allowed.0 allowed.1 req.ack (ticked w3)
              (sym asked ∙ valid) (λ e. ap is_some (sym sent) ∙ backed e)
              (subst (MayRespond c req.operation_idx allowed.0 allowed.1) (sym unread) may)
              (subst
                (λ p. save_response env state allowed.0 allowed.1 req.ack p (ticked w3) ≡ (ok _, v))
                sent saved) in
          subst (λ z. Recorded env state form c i w.db z.db) (sym (last ∙ end))
            (subst (λ d. Recorded env state form c i d v.db) before
              (subst (λ k. Recorded env state form c k w3.db v.db) eq done))

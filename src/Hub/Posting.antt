-- ===== src/Hub/Posting.antt =====
-- What `post_operation` of src/routes.rs does to the operations and the entries, and that it keeps
-- the tables consistent.
use rgb_multisig_hub.Base.{ℕ, ◌≡◌, sym, ap, subst, ◌∙◌, Option, List, ◌∷◌, count}
use rgb_multisig_hub.Errors.{ApiError_from_db_err}
use rgb_multisig_hub.Operations.{OperationType}
use rgb_multisig_hub.World.{Env, IsLawful, World, ok, ticked, Operation, CosignerOpStatus, Db}
use rgb_multisig_hub.World.Inversion.{
  >>=-run, pure-eq-ok, raise_if-eq-ok, query-eq-ok, transaction-eq-ok,
}
use rgb_multisig_hub.World.Atomic.{ReadOnly-run, ReadOnly-now}
use rgb_multisig_hub.World.Keeps.{Keeps-run}
use rgb_multisig_hub.Database.Rows.{
  operation_has_idx, operation_is_pending, status_is_unprocessed_by,
}
use rgb_multisig_hub.Database.{has_pending_operation, has_unprocessed_operation}
use rgb_multisig_hub.Database.Answers.{is_some-one-false}
use rgb_multisig_hub.Database.Effects.{set_operation-eq-ok}
use rgb_multisig_hub.State.{AppState}
use rgb_multisig_hub.Multipart.{Multipart}
use rgb_multisig_hub.Routes.Post.Form.{PostForm, empty_form}
use rgb_multisig_hub.Routes.Post.Save.{
  new_operation, check_post_allowed, save_operation, post_operation,
}
use rgb_multisig_hub.Routes.FormReads.{
  ReadOnly-check_post_allowed, ReadOnly-post_form, ReadOnly-post_validate,
}
use rgb_multisig_hub.Hub.Created.{Created, create_statuses-Created}
use rgb_multisig_hub.Hub.Bystanders.{votes_part, save_files-Keeps, save_psbt-Keeps}

abbrev Tables : Type 0
Tables = List Operation × List CosignerOpStatus

-- The operation `i` is new, stands in the table under the status that its type starts with, and has
-- an empty entry for each cosigner; nothing else has changed.
pub record Posted (state : AppState) (cosigner_idx i : ℕ) (before after : Db) : Type 0 where
  pub type : OperationType
  pub time : ℕ
  pub seed : Option (List ℕ)
  pub unused : count (operation_has_idx i) before.operations ≡ 0
  pub operation : after.operations ≡ new_operation type cosigner_idx seed time i ∷ before.operations
  pub entries : Created i state.cosigners_by_idx before.statuses after.statuses

module _ (env : Env) (lawful : IsLawful env) where
  -- Posting is allowed if no operation is pending and the initiator has none to process.
  pub check_post_allowed-eq-ok :
      (c : ℕ) (w : World) {a : Unit {0}} {u : World}
      → check_post_allowed env c w ≡ (ok a, u)
      → (count operation_is_pending w.db.operations ≡ 0)
        × (count (status_is_unprocessed_by c) w.db.statuses ≡ 0)
        × (u.db ≡ w.db)
  unfolding check_post_allowed has_pending_operation has_unprocessed_operation
  check_post_allowed-eq-ok c w h = >>=-run _ _ w h λ p w1 q1 h1. >>=-run _ _ w1 h1 λ _ w2 c1 h2.
      >>=-run _ _ w2 h2 λ n w3 q2 h3.
        let (a1, s1) = query-eq-ok env _ w q1 in
        let (f1, t1) = raise_if-eq-ok _ _ w1 c1 in
        let (a2, s2) = query-eq-ok env _ w2 q2 in
        let (f2, t2) = raise_if-eq-ok _ _ w3 h3 in
        let same = ap (λ (z : World). z.db.statuses) (t1 ∙ s1) in
        (
          is_some-one-false env lawful w.tick operation_is_pending w.db.operations (a1 ∙ f1),
          subst (λ rows. count (status_is_unprocessed_by c) rows ≡ 0) same
              (is_some-one-false env lawful w2.tick (status_is_unprocessed_by c) w2.db.statuses
                (a2 ∙ f2)),
          ReadOnly-run (ReadOnly-check_post_allowed env c) h,
        )

module _ (env : Env) (lawful : IsLawful env) (state : AppState) where
  save_operation-Posted :
      (c : ℕ) (form : PostForm) (type : OperationType) (time : ℕ) (w : World) {i : ℕ} {u : World}
      → save_operation env state c form type time w ≡ (ok i, u)
      → Posted state c i w.db u.db
  unfolding save_operation
  save_operation-Posted c form type time w {i} {u} h = >>=-run _ _ w h λ j w1 saved h1.
      >>=-run _ _ w1 h1 λ _ w2 stored h2. >>=-run _ _ w2 h2 λ _ w3 psbt h3.
        >>=-run _ _ w3 h3 λ _ w4 created h4.
          let (unused, put) = set_operation-eq-ok env lawful _ w saved in
          let kept =
            Keeps-run votes_part (save_psbt-Keeps env state j form.psbt_file) psbt
            ∙ Keeps-run votes_part (save_files-Keeps env state j form.files) stored in
          let (same, entries) = create_statuses-Created env lawful state j _ w3 created in
          let (eq, last) = pure-eq-ok j w4 h4 in
          let ops : w4.db.operations ≡ new_operation type c form.seed time j ∷ w.db.operations =
            ap (λ (d : Db). d.operations) same
            ∙ ap (λ (r : Tables). r.0) kept
            ∙ ap (λ (d : Db). d.operations) put in
          let old : w3.db.statuses ≡ w.db.statuses =
            ap (λ (r : Tables). r.1) kept ∙ ap (λ (d : Db). d.statuses) put in
          subst (λ z. Posted state c i w.db z.db) (sym last)
            (subst (λ k. Posted state c k w.db w4.db) eq
              (record {
                type = type;
                time = time;
                seed = form.seed;
                unused = unused;
                operation = ops;
                entries =
                    subst (λ s. Created j state.cosigners_by_idx s w4.db.statuses) old entries;
              }))

  -- With dependencies that do as documented: a post that succeeds found no pending operation and none
  -- that the initiator has to process; it has added one operation of the initiator under an unused key,
  -- under the status that its type starts with, and an empty entry for each cosigner under unused
  -- keys, and has changed no other operation and no other entry.
  pub post_operation-Posted :
      (c : ℕ) (form : Multipart) (w : World) {i : ℕ} {u : World}
      → post_operation env state c form w ≡ (ok i, u)
      → Posted state c i w.db u.db
        × (count operation_is_pending w.db.operations ≡ 0)
        × (count (status_is_unprocessed_by c) w.db.statuses ≡ 0)
  unfolding post_operation
  post_operation-Posted c form w {i} {u} h = >>=-run _ _ w h λ _ w1 allowed h1.
      >>=-run _ _ w1 h1 λ parsed w2 read h2. >>=-run _ _ w2 h2 λ type w3 valid h3.
        >>=-run _ _ w3 h3 λ time w4 timed h4.
          let (idle, free, same) = check_post_allowed-eq-ok env lawful c w allowed in
          let before : w4.db ≡ w.db =
            ReadOnly-run (ReadOnly-now env) timed
            ∙ ReadOnly-run (ReadOnly-post_validate parsed) valid
            ∙ ReadOnly-run (ReadOnly-post_form env form.fields form.broken empty_form) read
            ∙ same in
          let (v, saved, last) =
            transaction-eq-ok env (save_operation env state c parsed type time) w4 h4 in
          (
            subst (λ z. Posted state c i w.db z.db) (sym last)
                (subst (λ d. Posted state c i d v.db) before
                  (save_operation-Posted c parsed type time (ticked w4) saved)),
            idle,
            free,
          )

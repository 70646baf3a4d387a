-- ===== src/Hub/Recorded.antt =====
-- What a response of src/routes.rs records of its form.
use rgb_multisig_hub.Base.{
  ℕ, ◌≡◌, sym, ap, subst, ◌∙◌, inl, inr, String, if◌then◌else◌, Bool, true, false, Option, none,
  some, List, Elem, is_some, arith,
}
use rgb_multisig_hub.Errors.{ApiError, ApiError_from_db_err}
use rgb_multisig_hub.Operations.{response_psbt, OperationStatus}
use rgb_multisig_hub.World.{
  Env, IsLawful, World, Outcome, ok, err, panic, pure, ◌>>◌, Operation, OpFile, CosignerOpStatus,
  Db,
}
use rgb_multisig_hub.World.Inversion.{>>=-run, pure-eq-ok, exec-eq-ok}
use rgb_multisig_hub.World.Atomic.{ReadOnly-pure, ReadOnly-query, ReadOnly-expect}
use rgb_multisig_hub.World.Keeps.{Keeps, Keeps-exec, Keeps-bind, Keeps-ReadOnly}
use rgb_multisig_hub.Database.{
  set_op_file, update_operation, update_cosigner_op_status,
  iter_cosigner_op_status_by_operation_idx,
}
use rgb_multisig_hub.Files.{join, persist_temp_file, store_file}
use rgb_multisig_hub.Files.Identity.{ReturnsOrIo, content_id, compute_file_id_lem}
use rgb_multisig_hub.State.{AppState}
use rgb_multisig_hub.Multipart.{Multipart}
use rgb_multisig_hub.Routes.RespondForms.{requested, psbt_of}
use rgb_multisig_hub.Routes.Post.Save.{new_op_file}
use rgb_multisig_hub.Routes.Respond.{save_response_psbt, apply_decision, decide}
use rgb_multisig_hub.Hub.Responding.{Responded}

-- The PSBT of a response to operation `i`, if it has one, is under the key that is recorded, by the
-- hash of its content.
abbrev pub Stored : Env → ℕ → Option (List ℕ) → Option ℕ → Db → Type 0
Stored env i none none db = Unit {0}
Stored env i none (some k) db = ⊥
Stored env i (some content) none db = ⊥
Stored env i (some content) (some k) db =
    Elem (new_op_file (content_id env content) response_psbt i k) db.op_files

returned :
    {A : Type 0} (env : Env) (a : A) (w : World) {b : A} {u : World}
    (r : Outcome ApiError A × World)
    → ReturnsOrIo env a w r
    → r ≡ (ok b, u)
    → a ≡ b
returned env a w (ok c, v) (inl e, _, _) h = cc
returned env a w (ok c, v) (inr (n, x, p, q), _, _) h = cc
returned env a w (err c, v) t h = cc
returned env a w (panic c, v) t h = cc

some_pair_inj :
    {A B : Type 0} {a c : A} {b d : B}
    → ◌≡◌ {A = Option (A × B)} (some (a, b)) (some (c, d))
    → (a ≡ c) × (b ≡ d)
some_pair_inj h = (cc, cc)

module _ (env : Env) (lawful : IsLawful env) (state : AppState) where
  store_file-eq-ok :
      (dir : String) (content : List ℕ) (w : World) {id : String} {u : World}
      → store_file env dir content w ≡ (ok id, u)
      → id ≡ content_id env content
  unfolding store_file
  store_file-eq-ok dir content w h = >>=-run _ _ w h λ file_id w1 q1 h1.
      >>=-run _ _ w1 h1 λ present w2 q2 h2.
        let is_id = returned env _ w _ (compute_file_id_lem env lawful content w) q1 in
        stored present file_id w2 h2 ∙ sym is_id
    where
      stored :
          (present : Bool) (file_id : String) (v : World) {id : String} {u : World}
          → (if present
                then pure file_id
                else (persist_temp_file env content (join dir file_id) >> pure file_id))
              v
            ≡ (ok id, u)
          → id ≡ file_id
      stored true file_id v h = sym (pure-eq-ok file_id v h).0
      stored false file_id v h = >>=-run _ _ v h λ _ w1 q1 h1. sym (pure-eq-ok file_id w1 h1).0

  pub save_response_psbt-Stored :
      (i : ℕ) (psbt : Option (List ℕ)) (w : World) {file : Option ℕ} {u : World}
      → save_response_psbt env state i psbt w ≡ (ok file, u)
      → Stored env i psbt file u.db
  unfolding save_response_psbt set_op_file
  save_response_psbt-Stored i none w {file} {u} h =
      let (e, _) = pure-eq-ok none w h in subst (λ f. Stored env i none f u.db) e tt
  save_response_psbt-Stored i (some content) w {file} {u} h = >>=-run _ _ w h λ id w1 q1 h1.
      >>=-run _ _ w1 h1 λ k w2 q2 h2.
        let is_id = store_file-eq-ok state.files_dir content w q1 in
        let (written, _, _) = exec-eq-ok env _ w1 q2 in
        let (e, same) = pure-eq-ok (some k) w2 h2 in
        let (at, tables) = some_pair_inj written in
        let row : Elem (new_op_file (content_id env content) response_psbt i k) w2.db.op_files =
          subst
            (λ (d : Db). Elem (new_op_file (content_id env content) response_psbt i k) d.op_files)
            tables
            (inl (
              ap (λ c. new_op_file c response_psbt i k) (sym is_id)
              ∙ ap (new_op_file id response_psbt i) (sym at))) in
        subst (λ f. Stored env i (some content) f u.db) e
          (subst
            (λ (z : World).
              Elem (new_op_file (content_id env content) response_psbt i k) z.db.op_files)
            (sym same) row)

-- What is recorded is what the form says: the vote is that of its last request, which names the
-- operation, and comes with a PSBT if it is positive; the PSBT is stored; and the time is the clock's.
pub record FromForm (env : Env) (form : Multipart) (i : ℕ) (ack : Bool) (time : ℕ) (file : Option ℕ)
    (db : Db) : Type 0 where
  pub request : requested env none form.fields ≡ some (record { operation_idx = i; ack = ack })
  pub backed : ack ≡ true → is_some (psbt_of none form.fields) ≡ true
  pub psbt : Stored env i (psbt_of none form.fields) file db
  pub tick : ℕ
  pub clock : time ≡ env.unix_timestamp tick

pub record Recorded (env : Env) (state : AppState) (form : Multipart) (c i : ℕ) (before after : Db)
    : Type 0 where
  pub responded : Responded state c i before after
  pub from_form : FromForm env form i responded.ack responded.time responded.file after

module _ (env : Env) (state : AppState) where
  abbrev files_part : Db → List OpFile
  files_part db = db.op_files

  apply_decision-files :
      (i : ℕ) (s : Option OperationStatus) → Keeps files_part (apply_decision env state i s)
  unfolding apply_decision update_operation
  apply_decision-files i none = Keeps-ReadOnly files_part (ReadOnly-pure tt)
  apply_decision-files i (some s) = Keeps-exec env files_part _ (λ tick db a after e. ground arith)

  pub decide-files : (op : Operation) → Keeps files_part (decide env state op)
  unfolding decide iter_cosigner_op_status_by_operation_idx
  decide-files op = Keeps-bind (Keeps-ReadOnly files_part (ReadOnly-query env _)) λ entries.
      Keeps-bind (Keeps-ReadOnly files_part (ReadOnly-expect _ _))
        (λ t. apply_decision-files op.idx _)

  pub update_entry-files :
      (k : ℕ) (change : CosignerOpStatus → CosignerOpStatus)
      → Keeps files_part (update_cosigner_op_status env k change)
  unfolding update_cosigner_op_status
  update_entry-files k change = Keeps-exec env files_part _ (λ tick db a after e. ground arith)

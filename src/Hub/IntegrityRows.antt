-- ===== src/Hub/IntegrityRows.antt =====
-- New and changed rows that keep the references between the tables, if they refer to what is there.
use rgb_multisig_hub.Base.{
  ℕ, ◌<◌, ◌≡◌, refl, Bool, true, some, List, ◌∷◌, ◌==◌, count, All-update_where, update_where,
  count-update_where_same, arith,
}
use rgb_multisig_hub.Errors.{ApiError_from_db_err}
use rgb_multisig_hub.Operations.{OperationStatus}
use rgb_multisig_hub.World.{Db, Operation, OpFile, CosignerOpStatus, TransferStatus}
use rgb_multisig_hub.Database.Rows.{operation_has_idx}
use rgb_multisig_hub.Routes.Respond.{set_status}
use rgb_multisig_hub.State.{AppState}
use rgb_multisig_hub.Hub.Integrity.{
  HasCosigner, HasOperation, EntryRefers, Integral, Grows, Integral-Grows, files_stay, entries_stay,
}

pub some_inj : {A : Type 0} {a b : A} → some a ≡ some b → a ≡ b
some_inj h = cc

pub head_there :
    {A : Type 0} (p : A → Bool) (x : A) (rows : List A) → p x ≡ true → 0 < count p (x ∷ rows)
head_there p x rows h = ground arith

pub same_key : (i k : ℕ) → i ≡ k → (i == k) ≡ true
same_key i k h = ground arith

module _ (state : AppState) (db : Db) (h : Integral state db) where
  pub Integral-operation :
      (row : Operation)
      → HasCosigner row.initiator_idx db
      → Integral state (record db { operations = row ∷ db.operations })
  Integral-operation row there =
      let after = record db { operations = row ∷ db.operations } in
      let g : Grows db after = record {
        cosigners = λ k e. e;
        operations = λ k e. omega (arith, e);
        op_files = λ k e. e;
      } in
      Integral-Grows state db after g h (there, h.initiators) (files_stay state db after g h)
        (entries_stay state db after g h) h.answers

  pub Integral-op_file :
      (row : OpFile)
      → HasOperation row.operation_idx db
      → Integral state (record db { op_files = row ∷ db.op_files })
  Integral-op_file row there =
      let after = record db { op_files = row ∷ db.op_files } in
      let g : Grows db after = record {
        cosigners = λ k e. e;
        operations = λ k e. e;
        op_files = λ k e. omega (arith, e);
      } in
      Integral-Grows state db after g h h.initiators (there, h.files)
        (entries_stay state db after g h) h.answers

  pub Integral-entry :
      (row : CosignerOpStatus)
      → EntryRefers db row
      → Integral state (record db { statuses = row ∷ db.statuses })
  Integral-entry row there = record {
    by_idx = h.by_idx;
    by_xpub = h.by_xpub;
    initiators = h.initiators;
    files = h.files;
    entries = (there, h.entries);
    answers = h.answers;
  }

  pub Integral-transfer :
      (row : TransferStatus)
      → HasCosigner row.cosigner_idx db
      → Integral state (record db { transfers = row ∷ db.transfers })
  Integral-transfer row there = record {
    by_idx = h.by_idx;
    by_xpub = h.by_xpub;
    initiators = h.initiators;
    files = h.files;
    entries = h.entries;
    answers = (there, h.answers);
  }

  pub Integral-entries :
      (p : CosignerOpStatus → Bool) (change : CosignerOpStatus → CosignerOpStatus)
      → ((s : CosignerOpStatus) → EntryRefers db s → EntryRefers db (change s))
      → Integral state (record db { statuses = update_where p change db.statuses })
  Integral-entries p change refers = record {
    by_idx = h.by_idx;
    by_xpub = h.by_xpub;
    initiators = h.initiators;
    files = h.files;
    entries =
        All-update_where (EntryRefers db) (EntryRefers db) p change db.statuses
          (λ s e k hit. refers s k) (λ s e k miss. k) h.entries;
    answers = h.answers;
  }

  pub Integral-operations :
      (p : Operation → Bool) (status : OperationStatus)
      → Integral state (record db { operations = update_where p (set_status status) db.operations })
  Integral-operations p status =
      let after = record db { operations = update_where p (set_status status) db.operations } in
      let g : Grows db after = record {
        cosigners = λ k e. e;
        operations = λ k e.
            rw
              (count-update_where_same p (operation_has_idx k) (set_status status) db.operations
                (λ x. refl))
              e;
        op_files = λ k e. e;
      } in
      Integral-Grows state db after g h
        (All-update_where _ _ p (set_status status) db.operations (λ o e k hit. k) (λ o e k miss. k)
          h.initiators)
        (files_stay state db after g h) (entries_stay state db after g h) h.answers

-- ===== src/Hub/Integrity.antt =====
-- The references between the tables, and what the methods of src/database/mod.rs that write do to them.
use rgb_multisig_hub.Base.{ℕ, ◌<◌, ◌≡◌, String, Option, some, count, All, All-imp}
use rgb_multisig_hub.Errors.{ApiError_from_db_err}
use rgb_multisig_hub.World.{Db, Operation, OpFile, CosignerOpStatus, TransferStatus}
use rgb_multisig_hub.Database.Rows.{cosigner_has_idx, operation_has_idx, op_file_has_idx}
use rgb_multisig_hub.State.{AppState}

abbrev pub HasCosigner : ℕ → Db → Type 0
HasCosigner k db = 0 < count (cosigner_has_idx k) db.cosigners

abbrev pub HasOperation : ℕ → Db → Type 0
HasOperation k db = 0 < count (operation_has_idx k) db.operations

abbrev pub HasFile : ℕ → Db → Type 0
HasFile k db = 0 < count (op_file_has_idx k) db.op_files

-- A file is named, if any is.
abbrev pub HasFile? : Option ℕ → Db → Type 0
HasFile? o db = (k : ℕ) → o ≡ some k → HasFile k db

abbrev pub EntryRefers : Db → CosignerOpStatus → Type 0
EntryRefers db s =
    HasCosigner s.cosigner_idx db × HasOperation s.operation_idx db × HasFile? s.psbt_op_file_idx db

-- Every row that names another by its key names one that is there, and so does the configuration of the
-- hub.
pub record Integral (state : AppState) (db : Db) : Type 0 where
  pub by_idx : All (λ (p : ℕ × String). HasCosigner p.0 db) state.cosigners_by_idx
  pub by_xpub : All (λ (p : String × ℕ). HasCosigner p.1 db) state.cosigners_by_xpub
  pub initiators : All (λ (o : Operation). HasCosigner o.initiator_idx db) db.operations
  pub files : All (λ (f : OpFile). HasOperation f.operation_idx db) db.op_files
  pub entries : All (EntryRefers db) db.statuses
  pub answers : All (λ (t : TransferStatus). HasCosigner t.cosigner_idx db) db.transfers

-- What is there in `db` is there in `after`.
pub record Grows (db after : Db) : Type 0 where
  pub cosigners : (k : ℕ) → HasCosigner k db → HasCosigner k after
  pub operations : (k : ℕ) → HasOperation k db → HasOperation k after
  pub op_files : (k : ℕ) → HasFile k db → HasFile k after

pub EntryRefers-Grows :
    (db after : Db) (s : CosignerOpStatus) → Grows db after → EntryRefers db s → EntryRefers after s
EntryRefers-Grows db after s g (c, o, f) =
    (g.cosigners s.cosigner_idx c, g.operations s.operation_idx o, λ k e. g.op_files k (f k e))

module _ (state : AppState) (db after : Db) (g : Grows db after) (h : Integral state db) where
  -- References stay where the tables grow and the rows that refer are as before or refer as well.
  pub Integral-Grows :
      All (λ (o : Operation). HasCosigner o.initiator_idx after) after.operations
      → All (λ (f : OpFile). HasOperation f.operation_idx after) after.op_files
      → All (EntryRefers after) after.statuses
      → All (λ (t : TransferStatus). HasCosigner t.cosigner_idx after) after.transfers
      → Integral state after
  Integral-Grows initiators files entries answers = record {
    by_idx = All-imp _ _ state.cosigners_by_idx (λ p e k. g.cosigners p.0 k) h.by_idx;
    by_xpub = All-imp _ _ state.cosigners_by_xpub (λ p e k. g.cosigners p.1 k) h.by_xpub;
    initiators = initiators;
    files = files;
    entries = entries;
    answers = answers;
  }

  pub initiators_stay : All (λ (o : Operation). HasCosigner o.initiator_idx after) db.operations
  initiators_stay = All-imp _ _ db.operations (λ o e k. g.cosigners o.initiator_idx k) h.initiators

  pub files_stay : All (λ (f : OpFile). HasOperation f.operation_idx after) db.op_files
  files_stay = All-imp _ _ db.op_files (λ f e k. g.operations f.operation_idx k) h.files

  pub entries_stay : All (EntryRefers after) db.statuses
  entries_stay = All-imp _ _ db.statuses (λ s e k. EntryRefers-Grows db after s g k) h.entries

  pub answers_stay : All (λ (t : TransferStatus). HasCosigner t.cosigner_idx after) db.transfers
  answers_stay = All-imp _ _ db.transfers (λ t e k. g.cosigners t.cosigner_idx k) h.answers

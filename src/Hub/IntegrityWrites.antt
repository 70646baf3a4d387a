-- ===== src/Hub/IntegrityWrites.antt =====
-- The methods of src/database/mod.rs that write keep the references between the tables, if what they
-- write refers to what is there.
use rgb_multisig_hub.Base.{ℕ, ◌≡◌, sym, subst, List, ◌==◌, map, update_where, arith}
use rgb_multisig_hub.Errors.{ApiError_from_db_err}
use rgb_multisig_hub.Operations.{OperationStatus}
use rgb_multisig_hub.World.{
  Env, Db, NextAddressIndex, Operation, OpFile, CosignerOpStatus, TransferStatus,
}
use rgb_multisig_hub.World.Triples.{Triple, Triple-exec}
use rgb_multisig_hub.Database.{
  set_operation, set_op_file, set_cosigner_op_status, insert_transfer_status,
  update_cosigner_op_status, update_operation, update_next_address_index,
}
use rgb_multisig_hub.Database.Rows.{operation_has_idx, op_file_has_idx, status_has_idx}
use rgb_multisig_hub.Routes.Respond.{set_status}
use rgb_multisig_hub.State.{AppState}
use rgb_multisig_hub.Hub.Integrity.{HasCosigner, HasOperation, HasFile, EntryRefers, Integral}
use rgb_multisig_hub.Hub.IntegrityRows.{
  some_inj, head_there, same_key, Integral-operation, Integral-op_file, Integral-entry,
  Integral-transfer, Integral-entries, Integral-operations,
}

-- The references hold, and an operation with the key is there.
abbrev pub OpThere : AppState → ℕ → Db → Type 0
OpThere state i db = Integral state db × HasOperation i db

abbrev pub OpThere-Integral :
    (state : AppState) (i : ℕ) (db : Db) → OpThere state i db → Integral state db
OpThere-Integral state i db h = h.0

module _ (env : Env) (state : AppState) where
  pub set_operation-Integral :
      (row : ℕ → Operation) (c : ℕ)
      → ((k : ℕ) → (row k).idx ≡ k)
      → ((k : ℕ) → (row k).initiator_idx ≡ c)
      → Triple
          (Integral state)
          (λ db. Integral state db × HasCosigner c db)
          (set_operation env row)
          (OpThere state)
  unfolding set_operation
  set_operation-Integral row c keyed by =
      Triple-exec env ⦃from = ApiError_from_db_err⦄ (λ db h. h.0) _
        λ tick db k new h e.
          let i = env.fresh tick (map (λ (r : Operation). r.idx) db.operations) in
          subst (λ (r : ℕ × Db). OpThere state r.0 r.1) (some_inj e)
            (
              Integral-operation state db h.0 (row i)
                  (subst (λ j. HasCosigner j db) (sym (by i)) h.1),
              head_there (operation_has_idx i) (row i) db.operations (same_key _ _ (keyed i)),
            )

  pub set_op_file-Integral :
      (i : ℕ) (row : ℕ → OpFile)
      → ((k : ℕ) → (row k).idx ≡ k)
      → ((k : ℕ) → (row k).operation_idx ≡ i)
      → Triple
          (Integral state)
          (OpThere state i)
          (set_op_file env row)
          (λ k db. OpThere state i db × HasFile k db)
  unfolding set_op_file
  set_op_file-Integral i row keyed of =
      Triple-exec env ⦃from = ApiError_from_db_err⦄ (OpThere-Integral state i) _
        λ tick db k new h e.
          let j = env.fresh tick (map (λ (r : OpFile). r.idx) db.op_files) in
          subst (λ (r : ℕ × Db). OpThere state i r.1 × HasFile r.0 r.1) (some_inj e)
            (
              (
                Integral-op_file state db h.0 (row j)
                    (subst (λ x. HasOperation x db) (sym (of j)) h.1),
                h.1,
              ),
              head_there (op_file_has_idx j) (row j) db.op_files (same_key _ _ (keyed j)),
            )

  pub set_cosigner_op_status-Integral :
      (P : Db → Type 0) (i : ℕ) (row : ℕ → CosignerOpStatus)
      → ((db : Db) → P db → OpThere state i db × ((k : ℕ) → EntryRefers db (row k)))
      → ((db : Db) (rows : List CosignerOpStatus)
          → P db
          → OpThere state i (record db { statuses = rows })
          → P (record db { statuses = rows }))
      → Triple (Integral state) P (set_cosigner_op_status env row) (λ k. P)
  unfolding set_cosigner_op_status
  set_cosigner_op_status-Integral P i row refers stays =
      Triple-exec env ⦃from = ApiError_from_db_err⦄ (λ db h. (refers db h).0.0) _
        λ tick db k new h e.
          let j = env.fresh tick (map (λ (r : CosignerOpStatus). r.idx) db.statuses) in
          let (there, ref) = refers db h in
          subst (λ (r : ℕ × Db). P r.1) (some_inj e)
            (stays db _ h (Integral-entry state db there.0 (row j) (ref j), there.1))

  pub insert_transfer_status-Integral :
      (c : ℕ) (row : ℕ → TransferStatus)
      → ((k : ℕ) → (row k).cosigner_idx ≡ c)
      → Triple
          (Integral state)
          (λ db. Integral state db × HasCosigner c db)
          (insert_transfer_status env row)
          (λ k. Integral state)
  unfolding insert_transfer_status
  insert_transfer_status-Integral c row by =
      Triple-exec env ⦃from = ApiError_from_db_err⦄ (λ db h. h.0) _
        λ tick db k new h e.
          let j = env.fresh tick (map (λ (r : TransferStatus). r.idx) db.transfers) in
          subst (λ (r : ℕ × Db). Integral state r.1) (some_inj e)
            (Integral-transfer state db h.0 (row j)
              (subst (λ x. HasCosigner x db) (sym (by j)) h.1))

  pub update_cosigner_op_status-Integral :
      (P : Db → Type 0) (k : ℕ) (change : CosignerOpStatus → CosignerOpStatus)
      → ((db : Db) → P db → Integral state db)
      → ((db : Db) → P db → (s : CosignerOpStatus) → EntryRefers db s → EntryRefers db (change s))
      → Triple (Integral state) P (update_cosigner_op_status env k change) (λ _. Integral state)
  unfolding update_cosigner_op_status
  update_cosigner_op_status-Integral P k change weak refers =
      Triple-exec env ⦃from = ApiError_from_db_err⦄ weak _ λ tick db a new h e.
        let put : new
            ≡ record db { statuses = update_where (status_has_idx k) change db.statuses } =
          ground (arith, e) in
        subst (Integral state) (sym put)
          (Integral-entries state db (weak db h) (status_has_idx k) change (refers db h))

  pub update_operation-Integral :
      (k : ℕ) (status : OperationStatus)
      → Triple
          (Integral state)
          (Integral state)
          (update_operation env k (set_status status))
          (λ _. Integral state)
  unfolding update_operation
  update_operation-Integral k status =
      Triple-exec env ⦃from = ApiError_from_db_err⦄ (λ db h. h) _
        λ tick db a new h e.
          let put : new ≡ record db {
            operations = update_where (operation_has_idx k) (set_status status) db.operations;
          } =
            ground (arith, e) in
          subst (Integral state) (sym put)
            (Integral-operations state db h (operation_has_idx k) status)

  pub update_next_address_index-Integral :
      (k : ℕ) (change : NextAddressIndex → NextAddressIndex)
      → Triple
          (Integral state)
          (Integral state)
          (update_next_address_index env k change)
          (λ _. Integral state)
  unfolding update_next_address_index
  update_next_address_index-Integral k change =
      Triple-exec env ⦃from = ApiError_from_db_err⦄ (λ db h. h) _
        λ tick db a new h e.
          let put : new ≡ record db {
            next_address_indices = update_where (λ r. r.idx == k) change db.next_address_indices;
          } =
            ground (arith, e) in
          subst (Integral state) (sym put) (Integral-elsewhere db h _)
    where
      Integral-elsewhere :
          (db : Db)
          → Integral state db
          → (rows : List NextAddressIndex)
          → Integral state (record db { next_address_indices = rows })
      Integral-elsewhere db h rows = record {
        by_idx = h.by_idx;
        by_xpub = h.by_xpub;
        initiators = h.initiators;
        files = h.files;
        entries = h.entries;
        answers = h.answers;
      }

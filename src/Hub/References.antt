-- ===== src/Hub/References.antt =====
-- The foreign keys of migration/ hold of the tables of a hub that is started on an empty database,
-- whatever calls come.
use rgb_multisig_hub.Base.{
  ℕ, ◌<◌, ◌≡◌, refl, sym, ap, subst, ◌∙◌, inl, inr, ◌⊎◌, String, Bool, true, Option, none, some,
  List, [], ◌∷◌, ◌==◌, All, All-imp, map, count, Elem, arith, Bool-cases, count_of_Elem,
}
use rgb_multisig_hub.World.{
  Config, NextAddressIndex, Env, IsLawful, World, Db, ok, Cosigner, Operation, OpFile,
  TransferStatus,
}
use rgb_multisig_hub.Database.Rows.{cosigner_has_idx}
use rgb_multisig_hub.State.{AppState}
use rgb_multisig_hub.Auth.{Biscuit}
use rgb_multisig_hub.Startup.{AppParams, start_daemon}
use rgb_multisig_hub.Startup.Outcomes.{Started}
use rgb_multisig_hub.Startup.Starting.{start_daemon-Started}
use rgb_multisig_hub.Migration.{up, foreign_keys_of}
use rgb_multisig_hub.Migration.References.{Value, Refers, option_int}
use rgb_multisig_hub.Hub.Integrity.{HasCosigner, HasOperation, HasFile?, EntryRefers, Integral}
use rgb_multisig_hub.Hub.Received.{Received, Received-Integral}

module _ {A B : Type 0} where
  All-map : (Q : B → Type 0) (f : A → B) (xs : List A) → All (λ x. Q (f x)) xs → All Q (map f xs)
  All-map Q f [] h = tt
  All-map Q f (x ∷ xs) h = (h.0, All-map Q f xs h.1)

module _ {A : Type 0} where
  -- A key of a row stands in the column of the keys.
  key_in_column :
      (key : A → ℕ) (k : ℕ) (rows : List A)
      → 0 < count (λ r. key r == k) rows
      → Elem (some (Value.int k)) (map (λ r. some (Value.int (key r))) rows)
  key_in_column key k [] h = absurd (omega arith)
  key_in_column key k (x ∷ rows) h = elim (Bool-cases (key x == k)) [
    | inl e ↦ inl (ap (λ n. some (Value.int n)) (eq_of k (key x) e))
    | inr e ↦ inr (key_in_column key k rows (ground arith))
  ]
    where
      eq_of : (n m : ℕ) → (m == n) ≡ true → n ≡ m
      eq_of n m e = ground arith

  All-self : (P : A → Type 0) (xs : List A) → ((x : A) → Elem x xs → P x) → All P xs
  All-self P [] h = tt
  All-self P (x ∷ xs) h = (h x (inl refl), All-self P xs (λ y e. h y (inr e)))

psbt_refers :
    (db : Db) (o : Option ℕ)
    → HasFile? o db
    → (option_int o ≡ none)
      ⊎ Elem (option_int o) (map (λ (r : OpFile). some (Value.int r.idx)) db.op_files)
psbt_refers db none h = inl refl
psbt_refers db (some k) h = inr (key_in_column (λ (r : OpFile). r.idx) k db.op_files (h k refl))

module _ (state : AppState) (db : Db) (h : Integral state db) where
  -- A column refers if the key of each of its rows does.
  column_refers :
      {A : Type 0} (P : A → Type 0) (value : A → Option Value) (column : List (Option Value))
      (rows : List A)
      → ((x : A) → P x → (value x ≡ none) ⊎ Elem (value x) column)
      → All P rows
      → All (λ v. (v ≡ none) ⊎ Elem v column) (map value rows)
  column_refers P value column rows refers all =
      All-map (λ v. (v ≡ none) ⊎ Elem v column) value rows (All-imp P _ rows (λ x e. refers x) all)

  cosigner_refers :
      (k : ℕ)
      → HasCosigner k db
      → (some (Value.int k) ≡ none)
        ⊎ Elem (some (Value.int k)) (map (λ (r : Cosigner). some (Value.int r.idx)) db.cosigners)
  cosigner_refers k there = inr (key_in_column (λ (r : Cosigner). r.idx) k db.cosigners there)

  operation_refers :
      (k : ℕ)
      → HasOperation k db
      → (some (Value.int k) ≡ none)
        ⊎ Elem (some (Value.int k)) (map (λ (r : Operation). some (Value.int r.idx)) db.operations)
  operation_refers k there = inr (key_in_column (λ (r : Operation). r.idx) k db.operations there)

  -- Every foreign key of the migration holds where the references do.
  Integral-Refers : All (λ key. Refers key db) (foreign_keys_of up)
  Integral-Refers = (
    column_refers _ _ _ db.operations (λ o. cosigner_refers o.initiator_idx) h.initiators,
    (
      column_refers _ _ _ db.op_files (λ f. operation_refers f.operation_idx) h.files,
      (
        column_refers _ _ _ db.statuses (λ s k. psbt_refers db s.psbt_op_file_idx k.2) h.entries,
        (
          column_refers _ _ _ db.statuses (λ s k. cosigner_refers s.cosigner_idx k.0) h.entries,
          (
            column_refers _ _ _ db.statuses (λ s k. operation_refers s.operation_idx k.1) h.entries,
            (column_refers _ _ _ db.transfers (λ t. cosigner_refers t.cosigner_idx) h.answers, tt),
          ),
        ),
      ),
    ),
  )

-- A row that is collected into the state has its key in the table.
row_there :
    (rows table : List Cosigner) (c : Cosigner)
    → ((p : Cosigner → Bool) → count p rows ≡ count p table)
    → Elem c rows
    → 0 < count (cosigner_has_idx c.idx) table
row_there rows table c same there =
    subst (λ n. 0 < n) (same (cosigner_has_idx c.idx))
      (count_of_Elem (cosigner_has_idx c.idx) c rows there (ground arith))

module _ (env : Env) (params : AppParams) (state : AppState) (before after : Db) where
  Started-Integral :
      Started env params state before after
      → after.operations ≡ []
      → after.op_files ≡ []
      → after.statuses ≡ []
      → after.transfers ≡ []
      → Integral state after
  Started-Integral s no_operations no_files no_statuses no_transfers = record {
    by_idx = subst (All (λ (p : ℕ × String). HasCosigner p.0 after)) (sym s.by_idx) (
        All-map _ _ s.rows
          (All-self _ s.rows (λ c e. row_there s.rows after.cosigners c s.all_rows e)));
    by_xpub = subst (All (λ (p : String × ℕ). HasCosigner p.1 after)) (sym s.by_xpub) (
        All-map _ _ s.rows
          (All-self _ s.rows (λ c e. row_there s.rows after.cosigners c s.all_rows e)));
    initiators =
        subst (All (λ (o : Operation). HasCosigner o.initiator_idx after)) (sym no_operations) tt;
    files = subst (All (λ (f : OpFile). HasOperation f.operation_idx after)) (sym no_files) tt;
    entries = subst (All (EntryRefers after)) (sym no_statuses) tt;
    answers =
        subst (All (λ (t : TransferStatus). HasCosigner t.cosigner_idx after)) (sym no_transfers)
          tt;
  }

  -- A start adds to none of these tables.
  Started-same :
      {X : Type 0} (part : Db → X)
      → ((db : Db) (configs : List Config) (cosigners : List Cosigner)
            (indices : List NextAddressIndex)
          → part (record db {
            configs = configs;
            cosigners = cosigners;
            next_address_indices = indices;
          })
            ≡ part db)
      → Started env params state before after
      → part after ≡ part before
  Started-same part aside s = elim s.how [
    | inl again ↦ ap part again.unchanged
    | inr first ↦ ap part first.written ∙ aside before _ _ _
  ]

module _ (biscuit : Biscuit) (env : Env) (lawful : IsLawful env) (key : biscuit.PublicKey) where
  -- With dependencies that do as documented: let the hub start successfully on tables without
  -- operations, files, entries and transfers. Then, after any calls with any headers, whatever their
  -- outcomes, each foreign key that the migration declares holds: a value of its column that is not null
  -- is a key of the table that it names.
  pub Received-Refers :
      (params : AppParams) (w : World) (state : AppState) (u v : World)
      → w.db.operations ≡ []
      → w.db.op_files ≡ []
      → w.db.statuses ≡ []
      → w.db.transfers ≡ []
      → start_daemon env params w ≡ (ok state, u)
      → Received biscuit env state key u v
      → All (λ fk. Refers fk v.db) (foreign_keys_of up)
  Received-Refers params w state u v no_operations no_files no_statuses no_transfers h calls =
      let s = start_daemon-Started env lawful params w h in
      Integral-Refers state v.db (
        Received-Integral biscuit env lawful state key u v calls (
          Started-Integral env params state w.db u.db s
            (Started-same env params state w.db u.db (λ d. d.operations) (λ d a b c. refl) s
              ∙ no_operations)
            (Started-same env params state w.db u.db (λ d. d.op_files) (λ d a b c. refl) s
              ∙ no_files)
            (Started-same env params state w.db u.db (λ d. d.statuses) (λ d a b c. refl) s
              ∙ no_statuses)
            (Started-same env params state w.db u.db (λ d. d.transfers) (λ d a b c. refl) s
              ∙ no_transfers)))

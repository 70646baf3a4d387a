-- ===== src/Routes/Credits.antt =====
-- Whom the reply of src/routes.rs on an operation names for its files.
use rgb_multisig_hub.Base.{
  ℕ, ◌≤◌, ◌<◌, ◌≡◌, refl, sym, ap, subst, ◌∙◌, inl, inr, String, Option, none, some, List, [], ◌∷◌,
  ◌++◌, arith, Elem, count, ==_iff, eq_of_unique, count_of_Elem, Elem-of_count, filter-Elem,
}
use rgb_multisig_hub.Errors.{ApiError_from_db_err}
use rgb_multisig_hub.World.{Env, IsLawful, World, ok, OpFile, Operation, Db}
use rgb_multisig_hub.World.Atomic.{ReadOnly-run}
use rgb_multisig_hub.World.Inversion.{>>=-run, pure-eq-ok, expect-eq-ok, ok_or-eq-ok, query-eq-ok}
use rgb_multisig_hub.Database.Rows.{operation_has_idx, op_file_has_idx, op_file_is_of}
use rgb_multisig_hub.Database.{
  get_cosigner_by_idx, get_operation_by_idx as find_operation, get_op_files_by_operation_idx,
}
use rgb_multisig_hub.Database.Answers.{one-some}
use rgb_multisig_hub.Database.Reads.{ReadOnly-get_cosigner_op_status_with_cosigners}
use rgb_multisig_hub.State.{AppState}
use rgb_multisig_hub.Auth.{AuthenticatedUser}
use rgb_multisig_hub.Routes.Lookup.{
  FileMetadata, OperationResponse, operation_files, operation_response, response_of,
  get_operation_by_idx_with_files, get_operation_by_idx, cosigner_idx_of,
}

-- The file is in the list, as posted by this xPub.
pub record IsCredited (xpub : String) (file : OpFile) (files : List FileMetadata) : Type 0 where
  pub listed : FileMetadata
  pub there : Elem listed files
  pub same_id : listed.file_id ≡ file.file_id
  pub same_type : listed.type ≡ file.type
  pub posted_by : listed.posted_by_xpub ≡ xpub

pub IsCredited-later :
    (xpub : String) (f : OpFile) (m : FileMetadata) (files : List FileMetadata)
    → IsCredited xpub f files
    → IsCredited xpub f (m ∷ files)
IsCredited-later xpub f m files c = record {
  listed = c.listed;
  there = inr c.there;
  same_id = c.same_id;
  same_type = c.same_type;
  posted_by = c.posted_by;
}

pub Elem-append : {A : Type 0} (x : A) (xs ys : List A) → Elem x xs → Elem x (xs ++ ys)
Elem-append x [] ys h = absurd h
Elem-append x (y ∷ xs) ys (inl e) = inl e
Elem-append x (y ∷ xs) ys (inr h) = inr (Elem-append x xs ys h)

module _ (env : Env) (state : AppState) where
  operation_files-IsCredited :
      (xpub : String) (op_files : List OpFile) (w : World) {files : List FileMetadata} {u : World}
      → operation_files env state xpub op_files w ≡ (ok files, u)
      → (f : OpFile) → Elem f op_files
      → IsCredited xpub f files
  unfolding operation_files
  operation_files-IsCredited xpub [] w h f there = absurd there
  operation_files-IsCredited xpub (g ∷ op_files) w h f there = >>=-run _ _ w h λ size w1 q1 h1.
      >>=-run _ _ w1 h1 λ rest w2 q2 h2.
        let (e, _) = pure-eq-ok _ w2 h2 in
        subst (IsCredited xpub f) e (elim there [
          | inl same ↦ record {
            listed = record {
              file_id = g.file_id;
              type = g.type;
              posted_by_xpub = xpub;
              size_bytes = size;
            };
            there = inl refl;
            same_id = ap (λ (z : OpFile). z.file_id) (sym same);
            same_type = ap (λ (z : OpFile). z.type) (sym same);
            posted_by = refl;
          }
          | inr p ↦
              IsCredited-later xpub f _ rest (operation_files-IsCredited xpub op_files w1 q2 f p)
        ])

module _ (env : Env) (lawful : IsLawful env) where
  -- The files of an operation are all there.
  op_files_complete :
      (i : ℕ) (w : World) {op_files : List OpFile} {u : World}
      → ((k : ℕ) → count (op_file_has_idx k) w.db.op_files ≤ 1)
      → get_op_files_by_operation_idx env i w ≡ (ok op_files, u)
      → (f : OpFile) → Elem f w.db.op_files
      → f.operation_idx ≡ i
      → Elem f op_files
  unfolding get_op_files_by_operation_idx find_operation
  op_files_complete i w distinct h f there of = >>=-run _ _ w h λ found w1 q1 h1.
      >>=-run _ _ w1 h1 λ op w2 q2 h2.
        let (seen, s1) = query-eq-ok env _ w q1 in
        let (is_op, s2) = ok_or-eq-ok _ _ w1 q2 in
        let (rows, _) = query-eq-ok env _ w2 h2 in
        let at : op.idx ≡ i =
          (==_iff op.idx i).0
            (one-some env lawful w.tick (operation_has_idx i) w.db.operations op
              (seen ∙ is_op)).0 in
        let same : w2.db ≡ w.db = ap (λ (z : World). z.db) (s2 ∙ s1) in
        let there2 : Elem f w2.db.op_files =
          subst (λ (d : Db). Elem f d.op_files) (sym same) there in
        let scanned = env.scan OpFile w2.tick w2.db.op_files in
        let counted =
          subst (λ n. 0 < n)
            (sym (lawful.scan_count OpFile w2.tick (op_file_has_idx f.idx) w2.db.op_files))
            (count_of_Elem (op_file_has_idx f.idx) f w2.db.op_files there2 (ground arith)) in
        let (g, stands, holds) = Elem-of_count (op_file_has_idx f.idx) scanned counted in
        let one : g ≡ f =
          eq_of_unique (op_file_has_idx f.idx) g f w2.db.op_files
            (lawful.scan_Elem OpFile w2.tick g w2.db.op_files stands) there2 holds (ground arith)
            (subst (λ (d : Db). count (op_file_has_idx f.idx) d.op_files ≤ 1) (sym same)
              (distinct f.idx)) in
        subst (λ l. Elem f l) rows
          ((filter-Elem (op_file_is_of op.idx) f scanned).1 (
            subst (λ z. Elem z scanned) one stands,
            (==_iff f.operation_idx op.idx).1 (of ∙ sym at),
          ))

module _ (env : Env) (lawful : IsLawful env) (state : AppState) where
  operation_response-IsCredited :
      (op : Operation) (user : Option ℕ) (w : World) {r : OperationResponse} {u : World}
      → ((k : ℕ) → count (op_file_has_idx k) w.db.op_files ≤ 1)
      → operation_response env state op user w ≡ (ok r, u)
      → (f : OpFile) → Elem f w.db.op_files
      → f.operation_idx ≡ op.idx
      → IsCredited r.initiator_xpub f r.files
  unfolding operation_response get_cosigner_by_idx
  operation_response-IsCredited op user w {r} distinct h f there of =
      >>=-run _ _ w h λ found w1 q1 h1. >>=-run _ _ w1 h1 λ initiator w2 q2 h2.
        >>=-run _ _ w2 h2 λ pairs w3 q3 h3. >>=-run _ _ w3 h3 λ op_files w4 q4 h4.
          >>=-run _ _ w4 h4 λ files w5 q5 h5. >>=-run _ _ w5 h5 λ psbts w6 q6 h6.
            let (_, s1) = query-eq-ok env _ w q1 in
            let (_, s2) = expect-eq-ok _ _ w1 q2 in
            let (shown, _) = pure-eq-ok _ w6 h6 in
            let same : w.db ≡ w3.db = sym (
              ReadOnly-run (ReadOnly-get_cosigner_op_status_with_cosigners env op.idx) q3
              ∙ ap (λ (z : World). z.db) (s2 ∙ s1)) in
            let among =
              op_files_complete env lawful op.idx w3
                (subst (λ (d : Db). (k : ℕ) → count (op_file_has_idx k) d.op_files ≤ 1) same
                  distinct)
                q4 f (subst (λ (d : Db). Elem f d.op_files) same there) of in
            let credited =
              operation_files-IsCredited env state initiator.xpub op_files w4 q5 f among in
            subst (λ (z : OperationResponse). IsCredited z.initiator_xpub f z.files) shown
              (record {
                listed = credited.listed;
                there = Elem-append credited.listed files psbts credited.there;
                same_id = credited.same_id;
                same_type = credited.same_type;
                posted_by = credited.posted_by;
              })

  response_of-IsCredited :
      (user : Option ℕ) (found : Option Operation) (i : ℕ) (v : World) {r : OperationResponse}
      {u : World}
      → ((op : Operation) → found ≡ some op → op.idx ≡ i)
      → ((k : ℕ) → count (op_file_has_idx k) v.db.op_files ≤ 1)
      → response_of env state user found v ≡ (ok (some r), u)
      → (f : OpFile) → Elem f v.db.op_files
      → f.operation_idx ≡ i
      → IsCredited r.initiator_xpub f r.files
  unfolding response_of
  response_of-IsCredited user none i v is_op distinct h f there of =
      let (e, _) = pure-eq-ok _ v h in absurd (ground arith)
  response_of-IsCredited user (some op) i v {r} is_op distinct h f there of =
      >>=-run _ _ v h λ shown w1 q1 h1.
        let (e, _) = pure-eq-ok _ w1 h1 in
        let same : shown ≡ r = ground arith in
        subst (λ (z : OperationResponse). IsCredited z.initiator_xpub f z.files) same
          (operation_response-IsCredited op user v distinct q1 f there (of ∙ sym (is_op op refl)))

  -- With dependencies that do as documented, where no two files share a key: a lookup that returns a
  -- response lists every file of the operation, the PSBTs of the responses of others included, as
  -- posted by the initiator.
  pub get_operation_by_idx-IsCredited :
      (user : AuthenticatedUser) (i : ℕ) (w : World) {r : OperationResponse} {u : World}
      → ((k : ℕ) → count (op_file_has_idx k) w.db.op_files ≤ 1)
      → get_operation_by_idx env state user i w ≡ (ok (some r), u)
      → (f : OpFile) → Elem f w.db.op_files
      → f.operation_idx ≡ i
      → IsCredited r.initiator_xpub f r.files
  unfolding get_operation_by_idx get_operation_by_idx_with_files find_operation
  get_operation_by_idx-IsCredited user i w {r} {u} distinct h f there of =
      >>=-run _ _ w h λ found w1 q1 h1.
        let (seen, s1) = query-eq-ok env _ w q1 in
        let same : w.db ≡ w1.db = ap (λ (z : World). z.db) (sym s1) in
        response_of-IsCredited (cosigner_idx_of env state user) found i w1
          (λ op is_op.
            (==_iff op.idx i).0
              (one-some env lawful w.tick (operation_has_idx i) w.db.operations op
                (seen ∙ is_op)).0)
          (subst (λ (d : Db). (k : ℕ) → count (op_file_has_idx k) d.op_files ≤ 1) same distinct) h1
          f (subst (λ (d : Db). Elem f d.op_files) same there) of

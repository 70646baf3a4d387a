-- ===== src/Routes/Posters.antt =====
-- Whom the reply of src/routes.rs on an operation names for the PSBT of a response.
use rgb_multisig_hub.Base.{
  ℕ, ◌≤◌, ◌≡◌, ◌≢◌, refl, sym, ap, subst, ◌∙◌, String, str_eq, eq_iff, Bool, true, false, Option,
  none, some, List, [], ◌∷◌, ◌++◌, ◌&&◌, arith, Elem, count, ◌==◌, ==_iff, Bool-cases, inl, inr,
  eq_of_unique,
}
use rgb_multisig_hub.Errors.{ApiError_from_db_err}
use rgb_multisig_hub.Operations.{response_psbt}
use rgb_multisig_hub.World.{
  Env, IsLawful, World, ok, OpFile, Operation, Cosigner, CosignerOpStatus, Db,
}
use rgb_multisig_hub.World.Atomic.{ReadOnly-run}
use rgb_multisig_hub.World.Inversion.{>>=-run, pure-eq-ok, expect-eq-ok, query-eq-ok}
use rgb_multisig_hub.Database.Rows.{cosigner_has_idx, op_file_has_idx, operation_has_idx}
use rgb_multisig_hub.Database.{get_cosigner_by_idx, get_operation_by_idx as find_operation}
use rgb_multisig_hub.Database.Reads.{
  ReadOnly-get_cosigner_op_status_with_cosigners, ReadOnly-get_op_files_by_operation_idx,
}
use rgb_multisig_hub.Database.Answers.{one-some}
use rgb_multisig_hub.State.{AppState}
use rgb_multisig_hub.Auth.{AuthenticatedUser}
use rgb_multisig_hub.Routes.Lookup.{
  FileMetadata, OperationResponse, operation_response, response_of, get_operation_by_idx_with_files,
  get_operation_by_idx, cosigner_idx_of,
}
use rgb_multisig_hub.Routes.Reads.{ReadOnly-operation_files}
use rgb_multisig_hub.Routes.Entries.{IsRead, entries-IsRead}
use rgb_multisig_hub.Routes.Credits.{IsCredited, get_operation_by_idx-IsCredited}
use rgb_multisig_hub.Routes.Responders.{response_files-IsCredited}

-- A file of operation `i` that is the PSBT of a cosigner's response.
pub record IsResponseOf (i : ℕ) (voter : Cosigner) (file : OpFile) (db : Db) : Type 0 where
  pub entry : CosignerOpStatus
  pub in_op_files : Elem file db.op_files
  pub in_statuses : Elem entry db.statuses
  pub in_cosigners : Elem voter db.cosigners
  pub file_of : file.operation_idx ≡ i
  pub entry_of : entry.operation_idx ≡ i
  pub typed : file.type ≡ response_psbt
  pub voter_idx : voter.idx ≡ entry.cosigner_idx
  pub names : entry.psbt_op_file_idx ≡ some file.idx

abbrev names_file : ℕ → Option ℕ → Bool
names_file k none = false
names_file k (some j) = j == k

names_file-some : (k : ℕ) (o : Option ℕ) → names_file k o ≡ true → o ≡ some k
names_file-some k none h = cc
names_file-some k (some j) h = ap some ((==_iff j k).0 h)

str_differs : (a b : String) → a ≢ b → str_eq a b ≡ false
str_differs a b h = elim (Bool-cases (str_eq a b)) [
  | inl e ↦ absurd (h ((eq_iff a b).0 e))
  | inr e ↦ e
]

Elem-append_right : {A : Type 0} (x : A) (xs ys : List A) → Elem x ys → Elem x (xs ++ ys)
Elem-append_right x [] ys h = h
Elem-append_right x (y ∷ xs) ys h = inr (Elem-append_right x xs ys h)

IsCredited-append :
    (xpub : String) (f : OpFile) (front files : List FileMetadata)
    → IsCredited xpub f files
    → IsCredited xpub f (front ++ files)
IsCredited-append xpub f front files c = record {
  listed = c.listed;
  there = Elem-append_right c.listed front files c.there;
  same_id = c.same_id;
  same_type = c.same_type;
  posted_by = c.posted_by;
}

abbrev Keyed : Db → Type 0
Keyed db =
    ((k : ℕ) → count (op_file_has_idx k) db.op_files ≤ 1)
    × ((k : ℕ) → count (cosigner_has_idx k) db.cosigners ≤ 1)

module _ (env : Env) (lawful : IsLawful env) (state : AppState) where
  operation_response-credits_voter :
      (op : Operation) (user : Option ℕ) (voter : Cosigner) (f : OpFile) (w : World)
      {r : OperationResponse} {u : World}
      → Keyed w.db
      → IsResponseOf op.idx voter f w.db
      → operation_response env state op user w ≡ (ok r, u)
      → voter.xpub ≢ r.initiator_xpub
      → IsCredited voter.xpub f r.files
  unfolding operation_response get_cosigner_by_idx
  operation_response-credits_voter op user voter f w {r} keyed is h other =
      >>=-run _ _ w h λ found w1 q1 h1. >>=-run _ _ w1 h1 λ initiator w2 q2 h2.
        >>=-run _ _ w2 h2 λ pairs w3 q3 h3. >>=-run _ _ w3 h3 λ op_files w4 q4 h4.
          >>=-run _ _ w4 h4 λ files w5 q5 h5. >>=-run _ _ w5 h5 λ psbts w6 q6 h6.
            let (_, s1) = query-eq-ok env _ w q1 in
            let (_, s2) = expect-eq-ok _ _ w1 q2 in
            let (shown, _) = pure-eq-ok _ w6 h6 in
            let same2 : w2.db ≡ w.db = ap (λ (z : World). z.db) (s2 ∙ s1) in
            let same5 : w.db ≡ w5.db = sym (
              ReadOnly-run (ReadOnly-operation_files env state initiator.xpub op_files) q5
              ∙ ReadOnly-run (ReadOnly-get_op_files_by_operation_idx env op.idx) q4
              ∙ ReadOnly-run (ReadOnly-get_cosigner_op_status_with_cosigners env op.idx) q3
              ∙ same2) in
            let read =
              subst (λ d. IsRead env lawful op.idx d pairs) same2
                (entries-IsRead env lawful op.idx w2 q3) in
            let test : CosignerOpStatus → Bool =
              λ z. (z.cosigner_idx == voter.idx) && names_file f.idx z.psbt_op_file_idx in
            let passed : test is.entry ≡ true =
              ground (
                arith,
                is.voter_idx,
                ap (names_file f.idx) is.names,
                (==_iff f.idx f.idx).1 refl,
              ) in
            let (s, c, among, holds) =
              read.complete test is.entry is.in_statuses is.entry_of passed in
            let (_, _, c_there, c_idx) = read.sound s c among in
            let at : s.cosigner_idx ≡ voter.idx = ground (arith, holds) in
            let naming : names_file f.idx s.psbt_op_file_idx ≡ true = ground (arith, holds) in
            let one : c ≡ voter =
              eq_of_unique (cosigner_has_idx voter.idx) c voter w.db.cosigners c_there
                is.in_cosigners (ground (arith, c_idx, at)) ((==_iff voter.idx voter.idx).1 refl)
                (keyed.1 voter.idx) in
            let no_initiator : voter.xpub ≢ initiator.xpub =
              λ e. other (e ∙ ap (λ (z : OperationResponse). z.initiator_xpub) shown) in
            let differs : str_eq c.xpub initiator.xpub ≡ false =
              str_differs c.xpub initiator.xpub
                (λ e. no_initiator (ap (λ (z : Cosigner). z.xpub) (sym one) ∙ e)) in
            let credited =
              response_files-IsCredited env lawful state initiator.xpub pairs s c f w5
                (subst (λ (d : Db). (k : ℕ) → count (op_file_has_idx k) d.op_files ≤ 1) same5
                  keyed.0)
                (subst (λ (d : Db). Elem f d.op_files) same5 is.in_op_files) is.typed among differs
                (names_file-some f.idx s.psbt_op_file_idx naming) q6 in
            subst (λ (z : OperationResponse). IsCredited voter.xpub f z.files) shown
              (IsCredited-append voter.xpub f files psbts
                (subst (λ (z : Cosigner). IsCredited z.xpub f psbts) one credited))

  response_of-credits_voter :
      (user : Option ℕ) (found : Option Operation) (i : ℕ) (voter : Cosigner) (f : OpFile)
      (v : World) {r : OperationResponse} {u : World}
      → ((op : Operation) → found ≡ some op → op.idx ≡ i)
      → Keyed v.db
      → IsResponseOf i voter f v.db
      → response_of env state user found v ≡ (ok (some r), u)
      → voter.xpub ≢ r.initiator_xpub
      → IsCredited voter.xpub f r.files
  unfolding response_of
  response_of-credits_voter user none i voter f v is_op keyed is h other =
      let (e, _) = pure-eq-ok _ v h in absurd (ground arith)
  response_of-credits_voter user (some op) i voter f v {r} is_op keyed is h other =
      >>=-run _ _ v h λ shown w1 q1 h1.
        let (e, _) = pure-eq-ok _ w1 h1 in
        let same : shown ≡ r = ground arith in
        subst (λ (z : OperationResponse). IsCredited voter.xpub f z.files) same
          (operation_response-credits_voter op user voter f v keyed
            (subst (λ k. IsResponseOf k voter f v.db) (sym (is_op op refl)) is) q1
            (λ e. other (e ∙ ap (λ (z : OperationResponse). z.initiator_xpub) same)))

  -- With dependencies that do as documented, where no two files and no two cosigners share a key: a
  -- lookup that returns a response lists the PSBT of a response by a cosigner whose xPub is not the
  -- initiator's as posted by that cosigner, and as posted by the initiator as well.
  pub get_operation_by_idx-credits_both :
      (user : AuthenticatedUser) (i : ℕ) (voter : Cosigner) (f : OpFile) (w : World)
      {r : OperationResponse} {u : World}
      → ((k : ℕ) → count (op_file_has_idx k) w.db.op_files ≤ 1)
      → ((k : ℕ) → count (cosigner_has_idx k) w.db.cosigners ≤ 1)
      → IsResponseOf i voter f w.db
      → get_operation_by_idx env state user i w ≡ (ok (some r), u)
      → voter.xpub ≢ r.initiator_xpub
      → IsCredited voter.xpub f r.files × IsCredited r.initiator_xpub f r.files
  unfolding get_operation_by_idx get_operation_by_idx_with_files find_operation
  get_operation_by_idx-credits_both user i voter f w {r} {u} files cosigners is h other = (
    >>=-run _ _ w h λ found w1 q1 h1.
        let (seen, s1) = query-eq-ok env _ w q1 in
        let same : w.db ≡ w1.db = ap (λ (z : World). z.db) (sym s1) in
        response_of-credits_voter (cosigner_idx_of env state user) found i voter f w1
          (λ op is_op.
            (==_iff op.idx i).0
              (one-some env lawful w.tick (operation_has_idx i) w.db.operations op
                (seen ∙ is_op)).0)
          (subst Keyed same (files, cosigners)) (subst (IsResponseOf i voter f) same is) h1 other,
    get_operation_by_idx-IsCredited env lawful state user i w files h f is.in_op_files is.file_of,
  )

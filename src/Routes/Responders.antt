-- ===== src/Routes/Responders.antt =====
-- The PSBTs of the responses in the reply of src/routes.rs on an operation.
use rgb_multisig_hub.Base.{
  ℕ, ◌≤◌, ◌≡◌, refl, sym, ap, subst, ◌∙◌, inl, inr, String, str_eq, false, Option, none, some, List,
  [], ◌∷◌, arith, Elem, count, Bool-cases, eq_of_unique,
}
use rgb_multisig_hub.Errors.{ApiError_from_db_err}
use rgb_multisig_hub.Operations.{response_psbt}
use rgb_multisig_hub.World.{Env, IsLawful, World, ok, OpFile, Cosigner, CosignerOpStatus, Db}
use rgb_multisig_hub.World.Atomic.{ReadOnly-run}
use rgb_multisig_hub.World.Inversion.{>>=-run, pure-eq-ok, expect-eq-ok, query-eq-ok}
use rgb_multisig_hub.Database.Rows.{op_file_has_idx}
use rgb_multisig_hub.Database.{get_op_file_by_idx}
use rgb_multisig_hub.Database.Answers.{one-some}
use rgb_multisig_hub.State.{AppState}
use rgb_multisig_hub.Routes.Lookup.{FileMetadata, response_file, add_response_file, response_files}
use rgb_multisig_hub.Routes.Reads.{ReadOnly-response_file}
use rgb_multisig_hub.Routes.Credits.{IsCredited, IsCredited-later}

abbrev Pair : Type 0
Pair = CosignerOpStatus × Cosigner

module _ (env : Env) (lawful : IsLawful env) (state : AppState) where
  response_file-IsCredited :
      (c : Cosigner) (k : ℕ) (f : OpFile) (w : World) {m : FileMetadata} {u : World}
      → ((k : ℕ) → count (op_file_has_idx k) w.db.op_files ≤ 1)
      → Elem f w.db.op_files
      → f.type ≡ response_psbt
      → k ≡ f.idx
      → response_file env state c k w ≡ (ok m, u)
      → (rest : List FileMetadata) → IsCredited c.xpub f (m ∷ rest)
  unfolding response_file get_op_file_by_idx
  response_file-IsCredited c k f w {m} distinct there typed at h rest =
      >>=-run _ _ w h λ found w1 q1 h1. >>=-run _ _ w1 h1 λ g w2 q2 h2.
        >>=-run _ _ w2 h2 λ size w3 q3 h3.
          let (seen, _) = query-eq-ok env _ w q1 in
          let (is_g, _) = expect-eq-ok _ _ w1 q2 in
          let (e, _) = pure-eq-ok _ w3 h3 in
          let (passes, stands) =
            one-some env lawful w.tick (op_file_has_idx k) w.db.op_files g (seen ∙ is_g) in
          let one : g ≡ f =
            eq_of_unique (op_file_has_idx k) g f w.db.op_files stands there passes
              (ground (arith, at)) (distinct k) in
          record {
            listed = m;
            there = inl refl;
            same_id =
                ap (λ (z : FileMetadata). z.file_id) (sym e) ∙ ap (λ (z : OpFile). z.file_id) one;
            same_type = ap (λ (z : FileMetadata). z.type) (sym e) ∙ sym typed;
            posted_by = ap (λ (z : FileMetadata). z.posted_by_xpub) (sym e);
          }

  pub response_files-IsCredited :
      (initiator : String) (pairs : List Pair) (s : CosignerOpStatus) (c : Cosigner) (f : OpFile)
      (w : World) {files : List FileMetadata} {u : World}
      → ((k : ℕ) → count (op_file_has_idx k) w.db.op_files ≤ 1)
      → Elem f w.db.op_files
      → f.type ≡ response_psbt
      → Elem (s, c) pairs
      → str_eq c.xpub initiator ≡ false
      → s.psbt_op_file_idx ≡ some f.idx
      → response_files env state initiator pairs w ≡ (ok files, u)
      → IsCredited c.xpub f files
  unfolding response_files add_response_file
  response_files-IsCredited initiator [] s c f w distinct there typed among other at h =
      absurd among
  response_files-IsCredited initiator ((s0, c0) ∷ pairs) s c f w {files} {u} distinct there typed
        among other at h =
      let again : (v : World)
          → w.db ≡ v.db
          → Elem (s, c) pairs
          → (rest : List FileMetadata) (t : World)
          → response_files env state initiator pairs v ≡ (ok rest, t)
          → IsCredited c.xpub f rest =
        λ v kept p rest t g.
          response_files-IsCredited initiator pairs s c f v
            (subst (λ (d : Db). (j : ℕ) → count (op_file_has_idx j) d.op_files ≤ 1) kept distinct)
            (subst (λ (d : Db). Elem f d.op_files) kept there) typed p other at g in
      elim (Bool-cases (str_eq c0.xpub initiator)) [
        | inl same_xpub ↦ elim among [
          | inl eq ↦
              absurd
                (ground (arith, other, same_xpub, ap (λ (z : Pair). str_eq z.1.xpub initiator) eq))
          | inr p ↦ again w refl p files u (rw same_xpub at h)
        ]
        | inr differs ↦ added again s0.psbt_op_file_idx refl (rw differs at h)
      ]
    where
      added :
          ((v : World)
            → w.db ≡ v.db
            → Elem (s, c) pairs
            → (rest : List FileMetadata) (t : World)
            → response_files env state initiator pairs v ≡ (ok rest, t)
            → IsCredited c.xpub f rest)
          → (psbt : Option ℕ) → s0.psbt_op_file_idx ≡ psbt
          → add_response_file env state c0 psbt (response_files env state initiator pairs) w
            ≡ (ok files, u)
          → IsCredited c.xpub f files
      added again none e h = elim among [
        | inl eq ↦ absurd (ground (arith, sym (ap (λ (z : Pair). z.0.psbt_op_file_idx) eq) ∙ at, e))
        | inr p ↦ again w refl p files u h
      ]
      added again (some k) e h = >>=-run _ _ w h λ m w1 q1 h1. >>=-run _ _ w1 h1 λ rest w2 q2 h2.
          let (done, _) = pure-eq-ok (m ∷ rest) w2 h2 in
          let kept : w.db ≡ w1.db = sym (ReadOnly-run (ReadOnly-response_file env state c0 k) q1) in
          subst (IsCredited c.xpub f) done (elim among [
            | inl eq ↦
                let key : k ≡ f.idx =
                  ground (arith, sym (ap (λ (z : Pair). z.0.psbt_op_file_idx) eq) ∙ at, e) in
                subst (λ x. IsCredited x f (m ∷ rest)) (ap (λ (z : Pair). z.1.xpub) (sym eq))
                  (response_file-IsCredited c0 k f w distinct there typed key q1 rest)
            | inr p ↦ IsCredited-later c.xpub f m rest (again w1 kept p rest w2 q2)
          ])

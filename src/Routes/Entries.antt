-- ===== src/Routes/Entries.antt =====
-- The entries of an operation with their cosigners, as src/database/mod.rs reads them, and who has
-- voted by them.
use rgb_multisig_hub.Base.{
  ℕ, ◌≤◌, ◌<◌, ◌≡◌, sym, ap, subst, ◌∙◌, inl, inr, ◌↔◌, String, Bool, true, ◌&&◌, List, [], ◌∷◌,
  arith, Elem, count, ◌==◌, count_of_Elem, eq_of_unique, ==_iff, Elem-of_count, filter-Elem,
}
use rgb_multisig_hub.Errors.{ApiError_from_db_err}
use rgb_multisig_hub.World.{Env, IsLawful, World, ok, Cosigner, CosignerOpStatus, Db}
use rgb_multisig_hub.World.Inversion.{>>=-run, pure-eq-ok, ok_or-eq-ok, query-eq-ok}
use rgb_multisig_hub.Database.Rows.{cosigner_has_idx, status_is_of}
use rgb_multisig_hub.Database.{
  with_cosigners, get_cosigner_by_idx, get_cosigner_op_status_with_cosigners_by_operation_idx,
}
use rgb_multisig_hub.Database.Answers.{one-some}
use rgb_multisig_hub.Routes.Lookup.{same_vote, voters}
use rgb_multisig_hub.Routes.Voters.{Pair, Voted, voters-Elem, same_vote-some, some-same_vote}

module _ (env : Env) (lawful : IsLawful env) where
  -- The entries come each with a cosigner of its index, and none is left out.
  with_cosigners-eq-ok :
      (entries : List CosignerOpStatus) (w : World) {pairs : List Pair} {u : World}
      → with_cosigners env entries w ≡ (ok pairs, u)
      → ((s : CosignerOpStatus) (c : Cosigner)
          → Elem (s, c) pairs
          → Elem s entries × Elem c w.db.cosigners × (c.idx ≡ s.cosigner_idx))
        × ((s : CosignerOpStatus) → Elem s entries → (c : Cosigner) × Elem (s, c) pairs)
  unfolding with_cosigners get_cosigner_by_idx
  with_cosigners-eq-ok [] w h =
      let (e, _) = pure-eq-ok _ w h in
      (λ s c there. absurd (subst (λ l. Elem (s, c) l) (sym e) there), λ s there. absurd there)
  with_cosigners-eq-ok (s ∷ entries) w {pairs} h = >>=-run _ _ w h λ found w1 q1 h1.
      >>=-run _ _ w1 h1 λ c w2 q2 h2. >>=-run _ _ w2 h2 λ rest w3 q3 h3.
        let (seen, s1) = query-eq-ok env _ w q1 in
        let (is_c, s2) = ok_or-eq-ok _ _ w1 q2 in
        let (e, _) = pure-eq-ok _ w3 h3 in
        let (passes, stands) =
          one-some env lawful w.tick (cosigner_has_idx s.cosigner_idx) w.db.cosigners c
            (seen ∙ is_c) in
        let (into, back) = with_cosigners-eq-ok entries w2 q3 in
        let same : w2.db ≡ w.db = ap (λ (z : World). z.db) (s2 ∙ s1) in
        (
          λ s' c' there. elim (subst (λ l. Elem (s', c') l) (sym e) there) [
            | inl eq ↦ (
              inl (ap (λ (z : Pair). z.0) eq),
              subst (λ k. Elem k w.db.cosigners) (sym (ap (λ (z : Pair). z.1) eq)) stands,
              subst (λ (z : Pair). z.1.idx ≡ z.0.cosigner_idx) (sym eq) (ground arith),
            )
            | inr p ↦
                let (a, b, d) = into s' c' p in
                (inr a, subst (λ (d : Db). Elem c' d.cosigners) same b, d)
          ],
          λ s' there. elim there [
            | inl eq ↦ (c, subst (λ l. Elem (s', c) l) e (inl (λ i. (eq i, c))))
            | inr p ↦ let (c', q) = back s' p in (c', subst (λ l. Elem (s', c') l) e (inr q))
          ],
        )

  -- The answer of the query on the entries of an operation.
  pub record IsRead (i : ℕ) (db : Db) (pairs : List Pair) : Type 0 where
    pub sound :
        (s : CosignerOpStatus) (c : Cosigner)
        → Elem (s, c) pairs
        → Elem s db.statuses
          × (s.operation_idx ≡ i)
          × Elem c db.cosigners
          × (c.idx ≡ s.cosigner_idx)
    -- What some entry of the operation passes, an entry of the answer does.
    pub complete :
        (p : CosignerOpStatus → Bool) (s : CosignerOpStatus)
        → Elem s db.statuses
        → s.operation_idx ≡ i
        → p s ≡ true
        → (s' : CosignerOpStatus) × (c : Cosigner) × Elem (s', c) pairs × (p s' ≡ true)

  pub entries-IsRead :
      (i : ℕ) (w : World) {pairs : List Pair} {u : World}
      → get_cosigner_op_status_with_cosigners_by_operation_idx env i w ≡ (ok pairs, u)
      → IsRead i w.db pairs
  unfolding get_cosigner_op_status_with_cosigners_by_operation_idx
  entries-IsRead i w {pairs} h = >>=-run _ _ w h λ entries w1 q1 h1.
      let (seen, s1) = query-eq-ok env _ w q1 in
      let (into, back) = with_cosigners-eq-ok entries w1 h1 in
      let rows = env.scan CosignerOpStatus w.tick w.db.statuses in
      let same : w1.db ≡ w.db = ap (λ (z : World). z.db) s1 in
      record {
        sound = λ s c there.
            let (a, b, d) = into s c there in
            let (e, f) =
              (filter-Elem (status_is_of i) s rows).0 (subst (λ l. Elem s l) (sym seen) a) in
            (
              lawful.scan_Elem CosignerOpStatus w.tick s w.db.statuses e,
              (==_iff s.operation_idx i).0 f,
              subst (λ (k : Db). Elem c k.cosigners) same b,
              d,
            );
        complete = λ p s there of passes.
            let test : CosignerOpStatus → Bool = λ z. status_is_of i z && p z in
            let passed : test s ≡ true = ground (arith, of, passes) in
            let counted =
              subst (λ n. 0 < n)
                (sym (lawful.scan_count CosignerOpStatus w.tick test w.db.statuses))
                (count_of_Elem test s w.db.statuses there passed) in
            let (s', stands, holds) = Elem-of_count test rows counted in
            let is_of : status_is_of i s' ≡ true = ground (arith, holds) in
            let (c, q) = back s' (
              subst (λ l. Elem s' l) seen
                ((filter-Elem (status_is_of i) s' rows).1 (stands, is_of))) in
            (s', c, q, ground (arith, holds));
      }

  -- A vote is listed for exactly the xPubs of those who voted so, if no two cosigners share a key.
  pub voters-Voted :
      (v : Bool) (i : ℕ) (db : Db) (pairs : List Pair)
      → ((k : ℕ) → count (cosigner_has_idx k) db.cosigners ≤ 1)
      → IsRead i db pairs
      → (x : String) → Elem x (voters v pairs) ↔ Voted v i db x
  voters-Voted v i db pairs distinct read x =
      let (into, back) = voters-Elem v x pairs in
      (
        λ h.
            let (s, c, there, vote, same) = into h in
            let (a, b, d, e) = read.sound s c there in
            record {
              entry = s;
              voter = c;
              in_statuses = a;
              in_cosigners = d;
              of_operation = b;
              vote_is = vote;
              voter_idx = e;
              voter_xpub = sym same;
            },
        λ r.
            let test : CosignerOpStatus → Bool =
              λ z. (z.cosigner_idx == r.entry.cosigner_idx) && same_vote v z.ack in
            let passed : test r.entry ≡ true =
              ground (arith, some-same_vote v r.entry.ack r.vote_is) in
            let (s, c, there, holds) =
              read.complete test r.entry r.in_statuses r.of_operation passed in
            let (a, b, d, e) = read.sound s c there in
            let at : s.cosigner_idx ≡ r.entry.cosigner_idx = ground (arith, holds) in
            let voted : same_vote v s.ack ≡ true = ground (arith, holds) in
            let one : c ≡ r.voter =
              eq_of_unique (cosigner_has_idx r.entry.cosigner_idx) c r.voter db.cosigners d
                r.in_cosigners (ground (arith, e, at)) (ground (arith, r.voter_idx))
                (distinct r.entry.cosigner_idx) in
            back (
              s,
              c,
              there,
              same_vote-some v s.ack voted,
              sym r.voter_xpub ∙ ap (λ (z : Cosigner). z.xpub) (sym one),
            ),
      )

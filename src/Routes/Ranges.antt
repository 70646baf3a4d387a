-- ===== src/Routes/Ranges.antt =====
-- The ranges of addresses that `bump_address_indices` of src/routes.rs gives out.
use rgb_multisig_hub.Base.{
  ℕ, ◌+◌, ◌<◌, ◌≡◌, sym, ap, subst, ◌∙◌, true, some, [], ◌∷◌, ◌==◌, arith, update_where, Elem, inl,
  inr,
}
use rgb_multisig_hub.Errors.{ApiError_from_db_err}
use rgb_multisig_hub.World.{Env, IsLawful, World, ok, ticked, Db, NextAddressIndex}
use rgb_multisig_hub.World.Inversion.{
  >>=-run, pure-eq-ok, raise_if-eq-ok, ok_or-eq-ok, expect-eq-ok, query-eq-ok, exec-eq-ok,
  transaction-eq-ok,
}
use rgb_multisig_hub.Database.{get_next_address_index, update_next_address_index}
use rgb_multisig_hub.Database.Answers.{one-some}
use rgb_multisig_hub.Routes.Addresses.{
  BumpAddressIndicesRequest, side, set_side, checked_add, bump_index, bump_address_indices,
}

-- The one row of the table has moved on by the range that was given out.
pub record Reserved (req : BumpAddressIndicesRequest) (row : NextAddressIndex) (first : ℕ)
    (before after : Db) : Type 0 where
  pub count_pos : 0 < req.count
  pub first_is : first ≡ side req.internal row
  pub fits : first + req.count < 4294967296
  pub moved :
      after
      ≡ record before { next_address_indices = set_side req.internal (first + req.count) row ∷ [] }

checked_add-some : (a b : ℕ) {c : ℕ} → checked_add a b ≡ some c → (c ≡ a + b) × (a + b < 4294967296)
unfolding checked_add
checked_add-some a b h = ground arith

module _ (env : Env) (lawful : IsLawful env) where
  only_row :
      (row : NextAddressIndex) (w : World) {r : NextAddressIndex} {u : World}
      → w.db.next_address_indices ≡ row ∷ []
      → get_next_address_index env w ≡ (ok r, u)
      → (r ≡ row) × (u.db ≡ w.db)
  unfolding get_next_address_index
  only_row row w {r} {u} single h = >>=-run _ _ w h λ found w1 q1 h1.
      let (a, s1) = query-eq-ok env _ w q1 in
      let (e, s2) = expect-eq-ok _ _ w1 h1 in
      let (p, there) = one-some env lawful w.tick (λ x. true) w.db.next_address_indices r (a ∙ e) in
      (only r (subst (Elem r) single there), ap (λ (z : World). z.db) (s2 ∙ s1))
    where
      only : (x : NextAddressIndex) → Elem x (row ∷ []) → x ≡ row
      only x (inl e) = e
      only x (inr e) = absurd e

module _ (env : Env) where
  update_next_address_index-eq-ok :
      (k : ℕ) (change : NextAddressIndex → NextAddressIndex) (w : World) {a : Unit {0}} {u : World}
      → update_next_address_index env k change w ≡ (ok a, u)
      → u.db ≡ record w.db {
        next_address_indices = update_where (λ r. r.idx == k) change w.db.next_address_indices;
      }
  unfolding update_next_address_index
  update_next_address_index-eq-ok k change w h =
      let (e, f, t) = exec-eq-ok env _ w h in ground (arith, e)

update_only :
    (row : NextAddressIndex) (change : NextAddressIndex → NextAddressIndex)
    → update_where (λ r. r.idx == row.idx) change (row ∷ []) ≡ change row ∷ []
update_only row change = ground arith

module _ (env : Env) (lawful : IsLawful env) where
  -- With dependencies that do as documented and one row of next indices: a successful request returns
  -- the next index of its side; the range that starts there is not empty and ends below 2 ^ 32; the
  -- next index of that side is then the end of the range, and nothing else of the tables has changed.
  pub bump_address_indices-Reserved :
      (req : BumpAddressIndicesRequest) (row : NextAddressIndex) (w : World) {first : ℕ} {u : World}
      → w.db.next_address_indices ≡ row ∷ []
      → bump_address_indices env req w ≡ (ok first, u)
      → Reserved req row first w.db u.db
  unfolding bump_address_indices bump_index
  bump_address_indices-Reserved req row w {first} {u} single h = >>=-run _ _ w h λ _ w1 q1 h1.
      let (nonzero, s1) = raise_if-eq-ok _ _ w q1 in
      let (v, run, last) = transaction-eq-ok env (bump_index env req) w1 h1 in
      >>=-run _ _ (ticked w1) run λ index w2 q2 h2. >>=-run _ _ w2 h2 λ n w3 q3 h3.
        >>=-run _ _ w3 h3 λ _ w4 q4 h4.
          let same1 : w1.db ≡ w.db = ap (λ (z : World). z.db) s1 in
          let (is_row, same2) =
            only_row env lawful row (ticked w1)
              (ap (λ (d : Db). d.next_address_indices) same1 ∙ single) q2 in
          let (sum, s3) = ok_or-eq-ok _ _ w2 q3 in
          let (is_sum, small) = checked_add-some (side req.internal index) req.count sum in
          let put = update_next_address_index-eq-ok env index.idx _ w3 q4 in
          let (eq, s4) = pure-eq-ok (side req.internal index) w4 h4 in
          let same : w3.db ≡ w.db = ap (λ (z : World). z.db) s3 ∙ same2 ∙ same1 in
          let start : first ≡ side req.internal row = sym eq ∙ ap (side req.internal) is_row in
          let rows : update_where (λ r. r.idx == index.idx) (set_side req.internal n)
                w3.db.next_address_indices
              ≡ set_side req.internal (first + req.count) row ∷ [] =
            ap
              (λ (d : Db).
                update_where (λ r. r.idx == index.idx) (set_side req.internal n)
                  d.next_address_indices)
              same
            ∙ ap (λ l. update_where (λ r. r.idx == index.idx) (set_side req.internal n) l) single
            ∙ ap
                (λ (x : NextAddressIndex).
                  update_where (λ r. r.idx == x.idx) (set_side req.internal n) (row ∷ []))
                is_row
            ∙ update_only row (set_side req.internal n)
            ∙ ap (λ m. set_side req.internal m row ∷ []) (is_sum ∙ ap (λ m. m + req.count) eq) in
          record {
            count_pos = ground arith;
            first_is = start;
            fits = rw (← eq) small;
            moved =
                ap (λ (z : World). z.db) (last ∙ ap ticked s4)
                ∙ put
                ∙ ap (λ l. record w3.db { next_address_indices = l }) rows
                ∙ ap
                    (λ (d : Db). record d {
                      next_address_indices = set_side req.internal (first + req.count) row ∷ [];
                    })
                    same;
          }

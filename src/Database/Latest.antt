-- ===== src/Database/Latest.antt =====
-- What `get_last_cosigner_processed_op_idx` of src/database/mod.rs finds.
use mathlib.Core.Option
use rgb_multisig_hub.Base.{
  ℕ, ◌≤◌, ◌<◌, ◌≡◌, refl, sym, ap, subst, ◌∙◌, ◌⊎◌, inl, inr, Bool, true, ◌&&◌, some, List, [], ◌∷◌,
  ◌==◌, ltb, is_some, get_or, Elem, arith, Option-cases, Bool-cases, count_of_Elem, Elem-of_count,
  filter-Elem,
}
use rgb_multisig_hub.Errors.{ApiError_from_db_err}
use rgb_multisig_hub.World.{Env, IsLawful, World, ok, CosignerOpStatus}
use rgb_multisig_hub.World.Inversion.{query-eq-ok}
use rgb_multisig_hub.Database.Rows.{all, first_by_desc, status_is_processed_by}
use rgb_multisig_hub.Database.Find.{get_last_cosigner_processed_op_idx}

module _ {A : Type 0} (column : A → ℕ) where
  first_by_desc-Elem : (xs : List A) (y : A) → first_by_desc column xs ≡ some y → Elem y xs
  unfolding first_by_desc
  first_by_desc-Elem [] y h = cc
  first_by_desc-Elem (x ∷ xs) y h = elim (Option-cases (first_by_desc column xs)) [
    | inl e ↦ inl (ground (arith, h, e))
    | inr (z, e) ↦ elim (Bool-cases (ltb (column x) (column z))) [
      | inl l ↦ inr (first_by_desc-Elem xs y (e ∙ rw (e, l) at h))
      | inr l ↦ inl (ground (arith, h, e, l))
    ]
  ]

  first_by_desc-greatest :
      (xs : List A) (x : A)
      → Elem x xs
      → (y : A) × (first_by_desc column xs ≡ some y) × (column x ≤ column y)
  unfolding first_by_desc
  first_by_desc-greatest [] x h = absurd h
  first_by_desc-greatest (z ∷ xs) x h = elim (Option-cases (first_by_desc column xs)) [
    | inl e ↦ elim h [
      | inl same ↦ (z, rw e refl, rw same (omega arith))
      | inr there ↦
          let (y, f, _) = first_by_desc-greatest xs x there in absurd (ground (arith, e, f))
    ]
    | inr (y, e) ↦ elim (Bool-cases (ltb (column z) (column y))) [
      | inl l ↦ (
        y,
        rw (e, l) refl,
        elim h [
          | inl same ↦ rw same (ground (arith, l))
          | inr there ↦
              let (v, f, le) = first_by_desc-greatest xs x there in ground (arith, e, f, le)
        ],
      )
      | inr l ↦ (
        z,
        rw (e, l) refl,
        elim h [
          | inl same ↦ rw same (omega arith)
          | inr there ↦
              let (v, f, le) = first_by_desc-greatest xs x there in ground (arith, e, f, le, l)
        ],
      )
    ]
  ]

-- The operations that a cosigner has marked have no key above `last`, which is the key of one of them,
-- or zero.
pub record IsLast (c : ℕ) (statuses : List CosignerOpStatus) (last : ℕ) : Type 0 where
  pub bound :
      (s : CosignerOpStatus)
      → Elem s statuses
      → s.cosigner_idx ≡ c
      → is_some s.processed_at ≡ true
      → s.operation_idx ≤ last
  pub reached :
      (last ≡ 0)
      ⊎ ((s : CosignerOpStatus) × Elem s statuses
          × (s.cosigner_idx ≡ c)
          × (is_some s.processed_at ≡ true)
          × (s.operation_idx ≡ last))

module _ (env : Env) (lawful : IsLawful env) where
  pub get_last_cosigner_processed_op_idx-IsLast :
      (c : ℕ) (w : World) {last : ℕ} {u : World}
      → get_last_cosigner_processed_op_idx env c w ≡ (ok last, u)
      → IsLast c w.db.statuses last
  unfolding get_last_cosigner_processed_op_idx
  get_last_cosigner_processed_op_idx-IsLast c w {last} h =
      let (seen, _) = query-eq-ok env _ w h in
      let p = status_is_processed_by c in
      let scanned = env.scan CosignerOpStatus w.tick w.db.statuses in
      let rows = all env w.tick p w.db.statuses in
      let column : CosignerOpStatus → ℕ = λ r. r.operation_idx in
      record {
        bound = λ s there of marked.
            let test : CosignerOpStatus → Bool = λ z. p z && (z.operation_idx == s.operation_idx) in
            let counted =
              subst (λ n. 0 < n)
                (sym (lawful.scan_count CosignerOpStatus w.tick test w.db.statuses))
                (count_of_Elem test s w.db.statuses there (ground (arith, of, marked))) in
            let (s1, stands, holds) = Elem-of_count test scanned counted in
            let passes : p s1 ≡ true = ground (arith, holds) in
            let at : s1.operation_idx ≡ s.operation_idx = ground (arith, holds) in
            let (y, first, le) =
              first_by_desc-greatest column rows s1
                ((filter-Elem p s1 scanned).1 (stands, passes)) in
            let is_last : y.operation_idx ≡ last =
              sym (ap (λ o. get_or (Option.map column o) 0) {y = some y} first) ∙ seen in
            omega (arith, le, at, is_last);
        reached = elim (Option-cases (first_by_desc column rows)) [
          | inl none_found ↦ inl (sym seen ∙ ap (λ o. get_or (Option.map column o) 0) none_found)
          | inr (y, first) ↦
              let (stands, passes) =
                (filter-Elem p y scanned).0 (first_by_desc-Elem column rows y first) in
              inr (
                y,
                lawful.scan_Elem CosignerOpStatus w.tick y w.db.statuses stands,
                ground (arith, passes),
                ground (arith, passes),
                sym (ap (λ o. get_or (Option.map column o) 0) {y = some y} first) ∙ seen,
              )
        ];
      }

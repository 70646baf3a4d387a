-- ===== src/Database/Answers.antt =====
-- What the answers of the queries of src/database/mod.rs say of the tables.
use rgb_multisig_hub.Base.{
  ℕ, ◌≤◌, ◌≡◌, sym, ap, refl, ◌∙◌, inl, inr, Bool, true, false, Option, none, some, List, [], ◌∷◌,
  count, Elem, is_some, head?, filter, head?-filter-none, head?-filter_passes, head?-filter-Elem,
  arith, Option-cases, eq_of_unique, count_of_Elem,
}
use rgb_multisig_hub.World.{Env, IsLawful}
use rgb_multisig_hub.Database.Rows.{one}

module _ (env : Env) (lawful : IsLawful env) {A : Type 0} where
  -- A query that finds nothing says that no row passes its test.
  pub one-none :
      (tick : ℕ) (p : A → Bool) (rows : List A) → one env tick p rows ≡ none → count p rows ≡ 0
  one-none tick p rows h =
      sym (lawful.scan_count A tick p rows) ∙ head?-filter-none p (env.scan A tick rows) h

  pub is_some-one-false :
      (tick : ℕ) (p : A → Bool) (rows : List A)
      → is_some (one env tick p rows) ≡ false
      → count p rows ≡ 0
  is_some-one-false tick p rows h = elim (Option-cases (one env tick p rows)) [
    | inl e ↦ one-none tick p rows e
    | inr (x, e) ↦ ground arith
  ]

  -- A row that a query finds passes its test and stands in the table.
  pub one-some :
      (tick : ℕ) (p : A → Bool) (rows : List A) (x : A)
      → one env tick p rows ≡ some x
      → (p x ≡ true) × Elem x rows
  one-some tick p rows x h = (
    head?-filter_passes p x (env.scan A tick rows) h,
    lawful.scan_Elem A tick x rows (head?-filter-Elem p x (env.scan A tick rows) h),
  )

-- The row of a table that passes a test.
abbrev pub found : {A : Type 0} → (A → Bool) → List A → Option A
found p rows = head? (filter p rows)

found-count : {A : Type 0} (p : A → Bool) (rows : List A) → count p rows ≡ 0 → found p rows ≡ none
found-count p [] h = refl
found-count p (x ∷ rows) h = ground (arith, found-count p rows)

module _ (env : Env) (lawful : IsLawful env) {A : Type 0} where
  -- Where one row passes a test at most, a query finds it, in whatever order it sees the rows.
  pub one-found :
      (tick : ℕ) (p : A → Bool) (rows : List A)
      → count p rows ≤ 1
      → one env tick p rows ≡ found p rows
  one-found tick p rows single = elim (Option-cases (one env tick p rows)) [
    | inl e ↦ e ∙ sym (found-count p rows (one-none env lawful tick p rows e))
    | inr (x, e) ↦
        let (passes, there) = one-some env lawful tick p rows x e in
        elim (Option-cases (found p rows)) [
          | inl f ↦
              absurd
                (ground (arith, count_of_Elem p x rows there passes, head?-filter-none p rows f))
          | inr (y, f) ↦
              e
              ∙ ap some (
                  eq_of_unique p x y rows there (head?-filter-Elem p y rows f) passes
                    (head?-filter_passes p y rows f) single)
              ∙ sym f
        ]
  ]

-- ===== src/Routes/BumpAnswers.antt =====
-- What `bump_address_indices` of src/routes.rs answers in every case.
use rgb_multisig_hub.Base.{
  ℕ, ◌+◌, ◌≡◌, refl, ap, ◌∙◌, inl, inr, true, false, none, [], ◌∷◌, if◌then◌else◌, ◌==◌, ltb, arith,
  Bool-cases,
}
use rgb_multisig_hub.Errors.{ApiError, ApiError_from_db_err}
use rgb_multisig_hub.World.{Env, IsLawful, World, Outcome, ok, err, ticked, NextAddressIndex, Db}
use rgb_multisig_hub.World.Forward.{
  >>=-ok, >>=-err, raise_if-true, raise_if-false, ok_or-some, ok_or-none, expect-some, query-fine,
  exec-fine, transaction-ok, transaction-err,
}
use rgb_multisig_hub.Database.{get_next_address_index, update_next_address_index}
use rgb_multisig_hub.Database.Answers.{one-found}
use rgb_multisig_hub.Routes.Addresses.{
  BumpAddressIndicesRequest, side, set_side, checked_add, bump_index, bump_address_indices,
}

-- The answer, for the indices in the table.
abbrev pub bump_answer : BumpAddressIndicesRequest → NextAddressIndex → Outcome ApiError ℕ
bump_answer req index =
    if req.count == 0
    then err ApiError.invalid_count
    else if ltb (side req.internal index + req.count) 4294967296
    then ok (side req.internal index)
    else err (ApiError.unexpected "address index overflow")

module _ (env : Env) (lawful : IsLawful env) (quiet : (tick : ℕ) → env.db_error tick ≡ none)
    (index : NextAddressIndex) where
  get_index-fine :
      (w : World)
      → w.db.next_address_indices ≡ index ∷ []
      → get_next_address_index env w ≡ (ok index, ticked w)
  unfolding get_next_address_index
  get_index-fine w h =
      >>=-ok _ _ w (query-fine env _ w (quiet w.tick))
      ∙ expect-some _ _ (ticked w) (
          one-found env lawful w.tick (λ r. true) w.db.next_address_indices (rw h (omega arith))
          ∙ rw h refl)

  update_index-fine :
      (change : NextAddressIndex → NextAddressIndex) (w : World)
      → w.db.next_address_indices ≡ index ∷ []
      → (u : World) × (update_next_address_index env index.idx change w ≡ (ok tt, u))
  unfolding update_next_address_index
  update_index-fine change w h =
      let same : (index.idx == index.idx) ≡ true = ground arith in
      (
        _,
        exec-fine env _ w {db = record w.db { next_address_indices = change index ∷ [] }}
            (quiet w.tick) (rw (h, same) refl),
      )

  bump_index-overflow :
      (req : BumpAddressIndicesRequest) (w : World)
      → w.db.next_address_indices ≡ index ∷ []
      → ltb (side req.internal index + req.count) 4294967296 ≡ false
      → bump_index env req w ≡ (err (ApiError.unexpected "address index overflow"), ticked w)
  unfolding bump_index checked_add
  bump_index-overflow req w h over =
      >>=-ok _ _ w (get_index-fine w h)
      ∙ >>=-err _ _ (ticked w) (ok_or-none _ _ (ticked w) (rw over refl))

  bump_index-fine :
      (req : BumpAddressIndicesRequest) (w : World)
      → w.db.next_address_indices ≡ index ∷ []
      → ltb (side req.internal index + req.count) 4294967296 ≡ true
      → (u : World) × (bump_index env req w ≡ (ok (side req.internal index), u))
  unfolding bump_index checked_add rgb_multisig_hub.World.pure
  bump_index-fine req w h fits =
      let (u, written) =
        update_index-fine (set_side req.internal (side req.internal index + req.count)) (ticked w)
          h in
      (
        u,
        >>=-ok _ _ w (get_index-fine w h)
            ∙ >>=-ok _ _ (ticked w) (ok_or-some _ _ (ticked w) (rw fits refl))
            ∙ >>=-ok _ _ (ticked w) written,
      )

  -- With dependencies that do as documented, one row of indices and no failing call of the database:
  -- a reservation of no address is an error, one that ends above 2 ^ 32 - 1 is an error, and every
  -- other one returns the next index of its side.
  pub bump_address_indices_lem :
      (req : BumpAddressIndicesRequest) (w : World)
      → w.db.next_address_indices ≡ index ∷ []
      → (bump_address_indices env req w).0 ≡ bump_answer req index
  unfolding bump_address_indices
  bump_address_indices_lem req w h = elim (Bool-cases (req.count == 0)) [
    | inl zero ↦
        ap (λ (r : Outcome ApiError ℕ × World). r.0) (>>=-err _ _ w (raise_if-true _ _ w zero))
        ∙ rw zero refl
    | inr some_count ↦
        ap (λ (r : Outcome ApiError ℕ × World). r.0)
          (>>=-ok _ _ w (raise_if-false _ _ w some_count))
        ∙ elim (Bool-cases (ltb (side req.internal index + req.count) 4294967296)) [
          | inl fits ↦
              let (u, bumped) = bump_index-fine req (ticked w) h fits in
              ap (λ (r : Outcome ApiError ℕ × World). r.0)
                (transaction-ok env quiet (bump_index env req) w bumped)
              ∙ rw (some_count, fits) refl
          | inr over ↦
              transaction-err env quiet (bump_index env req) w
                (bump_index-overflow req (ticked w) h over)
              ∙ rw (some_count, over) refl
        ]
  ]

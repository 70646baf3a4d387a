-- ===== src/Routes/Refusals.antt =====
-- When `post_operation` of src/routes.rs is refused before its form is looked at.
use rgb_multisig_hub.Base.{
  ℕ, suc, ◌<◌, ◌≡◌, refl, ap, ◌∙◌, inl, inr, Bool, none, List, count, arith, ltb, if◌then◌else◌,
  Bool-cases, Option-cases, is_some, count_of_Elem,
}
use rgb_multisig_hub.Errors.{ApiError, ApiError_from_db_err}
use rgb_multisig_hub.World.{Env, IsLawful, World, Outcome, ok, err, ticked}
use rgb_multisig_hub.World.Forward.{>>=-ok, >>=-err, raise_if-true, raise_if-false, query-fine}
use rgb_multisig_hub.Database.Rows.{one, operation_is_pending, status_is_unprocessed_by}
use rgb_multisig_hub.Database.{has_pending_operation, has_unprocessed_operation}
use rgb_multisig_hub.Database.Answers.{one-none, one-some}
use rgb_multisig_hub.State.{AppState}
use rgb_multisig_hub.Multipart.{Multipart}
use rgb_multisig_hub.Routes.Post.Save.{check_post_allowed, post_operation}
use rgb_multisig_hub.Routes.FormReads.{ReadOnly-check_post_allowed}

-- What the guards answer, for the numbers of pending operations and of those that the initiator has
-- to process.
abbrev pub guard : ℕ → ℕ → Outcome ApiError (Unit {0})
guard pending unprocessed =
    if ltb 0 pending
    then err (ApiError.cannot_post_new_operation "another operation is still pending")
    else if ltb 0 unprocessed
    then err (ApiError.cannot_post_new_operation "initiator has unprocessed operations")
    else ok tt

module _ (env : Env) (lawful : IsLawful env) where
  is_some-one :
      {A : Type 0} (tick : ℕ) (p : A → Bool) (rows : List A)
      → is_some (one env tick p rows) ≡ ltb 0 (count p rows)
  is_some-one tick p rows = elim (Option-cases (one env tick p rows)) [
    | inl e ↦ ap is_some e ∙ ground (arith, one-none env lawful tick p rows e)
    | inr (x, e) ↦
        let (passes, there) = one-some env lawful tick p rows x e in
        ap is_some e ∙ ground (arith, count_of_Elem p x rows there passes)
  ]

  check_post_allowed_lem :
      (c : ℕ) (w : World)
      → env.db_error w.tick ≡ none
      → env.db_error (suc w.tick) ≡ none
      → (check_post_allowed env c w).0
        ≡ guard
            (count operation_is_pending w.db.operations)
            (count (status_is_unprocessed_by c) w.db.statuses)
  unfolding check_post_allowed has_pending_operation has_unprocessed_operation
  check_post_allowed_lem c w fine still =
      let pending = is_some-one w.tick operation_is_pending w.db.operations in
      let unprocessed = is_some-one (suc w.tick) (status_is_unprocessed_by c) w.db.statuses in
      let first = >>=-ok _ _ w (
        query-fine env (λ tick db. is_some (one env tick operation_is_pending db.operations)) w
          fine) in
      elim (Bool-cases (ltb 0 (count operation_is_pending w.db.operations))) [
        | inl p ↦
            ap (λ (o : Outcome ApiError (Unit {0}) × World). o.0)
              (first ∙ >>=-err _ _ (ticked w) (raise_if-true _ _ (ticked w) (pending ∙ p)))
            ∙ rw p refl
        | inr p ↦
            let second =
              first
              ∙ >>=-ok _ _ (ticked w) (raise_if-false _ _ (ticked w) (pending ∙ p))
              ∙ >>=-ok _ _ (ticked w) (
                  query-fine env
                    (λ tick db. is_some (one env tick (status_is_unprocessed_by c) db.statuses))
                    (ticked w) still) in
            elim (Bool-cases (ltb 0 (count (status_is_unprocessed_by c) w.db.statuses))) [
              | inl q ↦
                  ap (λ (o : Outcome ApiError (Unit {0}) × World). o.0)
                    (second ∙ raise_if-true _ _ (ticked (ticked w)) (unprocessed ∙ q))
                  ∙ rw (p, q) refl
              | inr q ↦
                  ap (λ (o : Outcome ApiError (Unit {0}) × World). o.0)
                    (second ∙ raise_if-false _ _ (ticked (ticked w)) (unprocessed ∙ q))
                  ∙ rw (p, q) refl
            ]
      ]

  refuse :
      (state : AppState) (c : ℕ) (form : Multipart) (w : World) (e : ApiError)
      → (check_post_allowed env c w).0 ≡ err e
      → ((post_operation env state c form w).0 ≡ err e)
        × ((post_operation env state c form w).1.db ≡ w.db)
  unfolding post_operation
  refuse state c form w e h =
      let run =
        >>=-err (check_post_allowed env c) _ w (λ i. (h i, (check_post_allowed env c w).1)) in
      (
        ap (λ (o : Outcome ApiError ℕ × World). o.0) run,
        ap (λ (o : Outcome ApiError ℕ × World). o.1.db) run
            ∙ (ReadOnly-check_post_allowed env c).same w,
      )

  -- With dependencies that do as documented, and where the two queries of the guards do not fail: if
  -- some operation is pending, a post by anyone with any form is answered with the error that another
  -- operation is still pending, and changes no table.
  pub post_operation-refused :
      (state : AppState) (c : ℕ) (form : Multipart) (w : World)
      → env.db_error w.tick ≡ none
      → env.db_error (suc w.tick) ≡ none
      → 0 < count operation_is_pending w.db.operations
      → ((post_operation env state c form w).0
          ≡ err (ApiError.cannot_post_new_operation "another operation is still pending"))
        × ((post_operation env state c form w).1.db ≡ w.db)
  post_operation-refused state c form w fine still busy =
      refuse state c form w _ (check_post_allowed_lem c w fine still ∙ ground arith)

  -- With dependencies that do as documented, and where the two queries of the guards do not fail: if
  -- no operation is pending and the initiator has one that it has not processed, a post by it with any
  -- form is answered with the error that says so, and changes no table.
  pub post_operation-behind :
      (state : AppState) (c : ℕ) (form : Multipart) (w : World)
      → env.db_error w.tick ≡ none
      → env.db_error (suc w.tick) ≡ none
      → count operation_is_pending w.db.operations ≡ 0
      → 0 < count (status_is_unprocessed_by c) w.db.statuses
      → ((post_operation env state c form w).0
          ≡ err (ApiError.cannot_post_new_operation "initiator has unprocessed operations"))
        × ((post_operation env state c form w).1.db ≡ w.db)
  post_operation-behind state c form w fine still idle behind =
      refuse state c form w _ (check_post_allowed_lem c w fine still ∙ ground arith)

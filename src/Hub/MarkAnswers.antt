-- ===== src/Hub/MarkAnswers.antt =====
-- What `mark_operation_processed` of src/routes.rs answers in every case.
use rgb_multisig_hub.Base.{
  ℕ, zero, suc, ◌*◌, ◌≤◌, ◌<◌, ◌≡◌, refl, ap, ◌∙◌, inl, inr, true, false, Option, none, some, arith,
  Elem, count, is_some, if◌then◌else◌, ◌==◌, Option-cases, Bool-cases, count_of_Elem,
  head?-filter-Elem,
}
use rgb_multisig_hub.Errors.{ApiError, ApiError_from_db_err}
use rgb_multisig_hub.Operations.{is_pending}
use rgb_multisig_hub.World.{
  Env, IsLawful, World, Outcome, ok, err, Operation, CosignerOpStatus, ticked, exec, now, pure,
  ◌>>=◌, ◌>>◌, ok_or, raise_if,
}
use rgb_multisig_hub.World.Forward.{
  >>=-ok, >>=-err, raise_if-true, raise_if-false, query-fine, ok_or-some, ok_or-none,
}
use rgb_multisig_hub.Database.Rows.{operation_has_idx, status_has_idx, status_is_entry}
use rgb_multisig_hub.Database.{
  get_operation_by_idx, get_cosigner_op_status_entry, update_cosigner_op_status,
}
use rgb_multisig_hub.Database.Answers.{found, one-found}
use rgb_multisig_hub.State.{AppState}
use rgb_multisig_hub.Routes.Processed.{
  check_mark_allowed, set_processed_at, mark_operation_processed,
}
use rgb_multisig_hub.Hub.Settled.{IsConfigured, Consistent}

abbrev entry_answer : Option CosignerOpStatus → Outcome ApiError (Unit {0})
entry_answer none = err ApiError.operation_not_found
entry_answer (some s) =
    if is_some s.processed_at
    then err (ApiError.cannot_mark_operation_processed "already marked this operation as processed")
    else ok tt

-- The answer, for the operation and the entry of the cosigner, if they are there.
abbrev pub mark_answer : Option Operation → Option CosignerOpStatus → Outcome ApiError (Unit {0})
mark_answer none entry = err ApiError.operation_not_found
mark_answer (some op) entry =
    if is_pending op.status
    then err (
        ApiError.cannot_mark_operation_processed
          "a pending operation cannot be marked as processed")
    else entry_answer entry

single : (n a b : ℕ) → n ≡ a * b → a ≤ 1 → b ≤ 1 → n ≤ 1
single n zero b e h k = omega arith
single n (suc zero) b e h k = omega arith
single n (suc (suc a)) b e h k = absurd (omega arith)

module _ (env : Env) (lawful : IsLawful env) (quiet : (tick : ℕ) → env.db_error tick ≡ none) where
  pub get_operation-found :
      (i : ℕ) (w : World)
      → count (operation_has_idx i) w.db.operations ≤ 1
      → get_operation_by_idx env i w ≡ (ok (found (operation_has_idx i) w.db.operations), ticked w)
  unfolding get_operation_by_idx
  get_operation-found i w single =
      query-fine env _ w (quiet w.tick)
      ∙ ap (λ o. (ok o, ticked w))
          (one-found env lawful w.tick (operation_has_idx i) w.db.operations single)

  pub get_entry-found :
      (c i : ℕ) (w : World)
      → count (status_is_entry c i) w.db.statuses ≤ 1
      → get_cosigner_op_status_entry env c i w
        ≡ (ok (found (status_is_entry c i) w.db.statuses), ticked w)
  unfolding get_cosigner_op_status_entry
  get_entry-found c i w single =
      query-fine env _ w (quiet w.tick)
      ∙ ap (λ o. (ok o, ticked w))
          (one-found env lawful w.tick (status_is_entry c i) w.db.statuses single)

  pub update_entry-fine :
      (s : CosignerOpStatus) (change : CosignerOpStatus → CosignerOpStatus) (w : World)
      → Elem s w.db.statuses
      → (u : World) × (update_cosigner_op_status env s.idx change w ≡ (ok tt, u))
  unfolding update_cosigner_op_status exec
  update_entry-fine s change w there =
      let pos : 0 < count (status_has_idx s.idx) w.db.statuses =
        count_of_Elem (status_has_idx s.idx) s w.db.statuses there (ground arith) in
      let some_row : (count (status_has_idx s.idx) w.db.statuses == 0) ≡ false =
        ground (arith, pos) in
      (
        (update_cosigner_op_status env s.idx change w).1,
        rw (update_cosigner_op_status, exec, quiet w.tick, some_row) refl,
      )

module _ (env : Env) (lawful : IsLawful env) (quiet : (tick : ℕ) → env.db_error tick ≡ none)
    (c i : ℕ) (w : World) (one_op : count (operation_has_idx i) w.db.operations ≤ 1)
    (one_entry : count (status_is_entry c i) w.db.statuses ≤ 1) where
  mark_missing :
      found (operation_has_idx i) w.db.operations ≡ none
      → (mark_operation_processed env c i w).0 ≡ err ApiError.operation_not_found
  unfolding mark_operation_processed check_mark_allowed
  mark_missing e =
      ap (λ (r : Outcome ApiError (Unit {0}) × World). r.0)
        (>>=-err _ _ w (
          >>=-ok _ _ w (get_operation-found env lawful quiet i w one_op)
          ∙ >>=-err _ _ (ticked w) (ok_or-none _ _ (ticked w) e)))

  mark_pending :
      (op : Operation)
      → found (operation_has_idx i) w.db.operations ≡ some op
      → is_pending op.status ≡ true
      → (mark_operation_processed env c i w).0
        ≡ err (
            ApiError.cannot_mark_operation_processed
              "a pending operation cannot be marked as processed")
  unfolding mark_operation_processed check_mark_allowed
  mark_pending op e p =
      ap (λ (r : Outcome ApiError (Unit {0}) × World). r.0)
        (>>=-err _ _ w (
          >>=-ok _ _ w (get_operation-found env lawful quiet i w one_op)
          ∙ >>=-ok _ _ (ticked w) (ok_or-some _ _ (ticked w) e)
          ∙ >>=-err _ _ (ticked w) (raise_if-true _ _ (ticked w) p)))

  module _ (op : Operation) (e : found (operation_has_idx i) w.db.operations ≡ some op)
      (p : is_pending op.status ≡ false) where
    -- The checks, once a decided operation is found, look at the entry.
    check_decided :
        check_mark_allowed env c i w
        ≡ (ok_or (found (status_is_entry c i) w.db.statuses) ApiError.operation_not_found
              >>= λ status.
                  raise_if (is_some status.processed_at) (
                    ApiError.cannot_mark_operation_processed
                      "already marked this operation as processed")
                  >> pure status)
            (ticked (ticked w))
    unfolding check_mark_allowed
    check_decided =
        >>=-ok _ _ w (get_operation-found env lawful quiet i w one_op)
        ∙ >>=-ok _ _ (ticked w) (ok_or-some _ _ (ticked w) e)
        ∙ >>=-ok _ _ (ticked w) (raise_if-false _ _ (ticked w) p)
        ∙ >>=-ok _ _ (ticked w) (get_entry-found env lawful quiet c i (ticked w) one_entry)

    mark_entry :
        (entry : Option CosignerOpStatus)
        → found (status_is_entry c i) w.db.statuses ≡ entry
        → (mark_operation_processed env c i w).0 ≡ entry_answer entry
    unfolding mark_operation_processed pure now
    mark_entry none f =
        ap (λ (r : Outcome ApiError (Unit {0}) × World). r.0)
          (>>=-err _ _ w (check_decided ∙ >>=-err _ _ _ (ok_or-none _ _ _ f)))
    mark_entry (some s) f = elim (Bool-cases (is_some s.processed_at)) [
      | inl t ↦
          ap (λ (r : Outcome ApiError (Unit {0}) × World). r.0)
            (>>=-err _ _ w (
              check_decided
              ∙ >>=-ok _ _ _ (ok_or-some _ _ _ f)
              ∙ >>=-err _ _ _ (raise_if-true _ _ _ t)))
          ∙ rw t refl
      | inr t ↦
          let (u, done) =
            update_entry-fine env lawful quiet s
              (set_processed_at (env.unix_timestamp (ticked (ticked w)).tick))
              (ticked (ticked (ticked w)))
              (head?-filter-Elem (status_is_entry c i) s w.db.statuses f) in
          ap (λ (r : Outcome ApiError (Unit {0}) × World). r.0)
            (>>=-ok _ _ w (
                check_decided
                ∙ >>=-ok _ _ _ (ok_or-some _ _ _ f)
                ∙ >>=-ok _ _ _ (raise_if-false _ _ _ t))
              ∙ >>=-ok _ _ _ refl
              ∙ done)
          ∙ rw t refl
    ]

module _ (env : Env) (lawful : IsLawful env) (state : AppState) (configured : IsConfigured state)
    (quiet : (tick : ℕ) → env.db_error tick ≡ none) where
  pub entry-single :
      (w : World) (c i : ℕ)
      → Consistent state w.db.operations w.db.statuses
      → count (status_is_entry c i) w.db.statuses ≤ 1
  entry-single w c i h = single _ _ _ (h.entry c i) (h.op_unique i) (configured.distinct c)

  -- With consistent tables of a configured hub, lawful dependencies and no failing call of the
  -- database: a mark answers that there is no such operation, that it is pending, that the caller
  -- has no entry of it, that the caller has marked it before, or, in all other cases, succeeds.
  pub mark_operation_processed_lem :
      (w : World)
      → Consistent state w.db.operations w.db.statuses
      → (c i : ℕ)
      → (mark_operation_processed env c i w).0
        ≡ mark_answer
            (found (operation_has_idx i) w.db.operations)
            (found (status_is_entry c i) w.db.statuses)
  mark_operation_processed_lem w h c i =
      let one_op = h.op_unique i in
      let one_entry = entry-single w c i h in
      elim (Option-cases (found (operation_has_idx i) w.db.operations)) [
        | inl e ↦ mark_missing env lawful quiet c i w one_op one_entry e ∙ rw e refl
        | inr (op, e) ↦ elim (Bool-cases (is_pending op.status)) [
          | inl p ↦ mark_pending env lawful quiet c i w one_op one_entry op e p ∙ rw (e, p) refl
          | inr p ↦
              mark_entry env lawful quiet c i w one_op one_entry op e p _ refl ∙ rw (e, p) refl
        ]
      ]

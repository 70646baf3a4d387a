-- ===== src/Routes/FirstAnswer.antt =====
-- What `transfer_status` of src/routes.rs keeps: the first answer on a transfer is the last one.
use rgb_multisig_hub.Base.{
  ℕ, ◌≡◌, refl, sym, ap, subst, ◌∙◌, ◌⊎◌, inl, inr, Bool, true, false, Option, none, some, ◌∷◌,
  count, filter, head?, Elem, Bool-cases, arith,
}
use rgb_multisig_hub.Errors.{ApiError, ApiError_from_db_err}
use rgb_multisig_hub.World.{Env, IsLawful, World, ok, raise, ticked, Db, TransferStatus}
use rgb_multisig_hub.World.Inversion.{
  >>=-run, pure-eq-ok, query-eq-ok, exec-eq-ok, transaction-eq-ok,
}
use rgb_multisig_hub.World.Atomic.{ReadOnly-run, ReadOnly-now}
use rgb_multisig_hub.Database.Rows.{transfer_is_of}
use rgb_multisig_hub.Database.{
  transfer_row, insert_transfer_status, new_transfer_status, set_or_keep, set_transfer_status,
  same_bool,
}
use rgb_multisig_hub.Database.Answers.{one-none, one-some}
use rgb_multisig_hub.State.{AppState}
use rgb_multisig_hub.Auth.{AuthenticatedCosigner, cosigner}
use rgb_multisig_hub.Routes.Transfers.{
  TransferStatusInfo, info_of, register_transfer_status, set_or_read, transfer_status,
}

-- The answer of cosigner `c` on a transfer: `row` is the transfer's row and has that answer. Either
-- it was there before and nothing has changed, or there was none and it is new.
pub record Answered (c batch : ℕ) (answer : Bool) (row : TransferStatus) (before after : Db)
    : Type 0 where
  pub there : Elem row after.transfers
  pub of_transfer : row.batch_transfer_idx ≡ batch
  pub has_answer : row.accepted ≡ answer
  pub kept_or_new :
      (after ≡ before)
      ⊎ ((count (transfer_is_of batch) before.transfers ≡ 0)
          × (row.cosigner_idx ≡ c)
          × (after ≡ record before { transfers = row ∷ before.transfers }))

same_bool_eq : (a b : Bool) → same_bool a b ≡ true → a ≡ b
same_bool_eq true b h = ground arith
same_bool_eq false b h = ground arith

raise_not_ok :
    {A : Type 0} (e : ApiError) (w : World) {a : A} {u : World} → raise e w ≡ (ok a, u) → ⊥
unfolding raise
raise_not_ok e w h = cc

module _ (env : Env) (lawful : IsLawful env) where
  new_transfer_status-Answered :
      (batch c time : ℕ) (answer : Bool) (w : World) {row : TransferStatus} {u : World}
      → count (transfer_is_of batch) w.db.transfers ≡ 0
      → new_transfer_status env batch c time answer w ≡ (ok row, u)
      → Answered c batch answer row w.db u.db
  unfolding new_transfer_status insert_transfer_status
  new_transfer_status-Answered batch c time answer w {row} {u} missing h =
      >>=-run _ _ w h λ k w1 q1 h1.
        let (e, f, t) = exec-eq-ok env _ w q1 in
        let (eq, last) = pure-eq-ok (transfer_row batch c time answer k) w1 h1 in
        let put : u.db
            ≡ record w.db { transfers = transfer_row batch c time answer k ∷ w.db.transfers } =
          ap (λ (z : World). z.db) last ∙ ground (arith, e) in
        subst (λ r. Answered c batch answer r w.db u.db) eq
          (record {
            there =
                subst (λ (d : Db). Elem (transfer_row batch c time answer k) d.transfers) (sym put)
                  (inl refl);
            of_transfer = refl;
            has_answer = refl;
            kept_or_new = inr (missing, refl, put);
          })

  set_or_keep-Answered :
      (batch c time : ℕ) (answer : Bool) (tick : ℕ) (found : Option TransferStatus) (w : World)
      {row : TransferStatus} {u : World}
      → head? (filter (transfer_is_of batch) (env.scan TransferStatus tick w.db.transfers)) ≡ found
      → set_or_keep env batch c time answer found w ≡ (ok row, u)
      → Answered c batch answer row w.db u.db
  unfolding set_or_keep
  set_or_keep-Answered batch c time answer tick none w answered_by h =
      new_transfer_status-Answered batch c time answer w (one-none env lawful tick _ _ answered_by)
        h
  set_or_keep-Answered batch c time answer tick (some old) w {row} {u} answered_by h =
      elim (Bool-cases (same_bool old.accepted answer)) [
        | inl same ↦
            let (p, there) =
              one-some env lawful tick (transfer_is_of batch) w.db.transfers old answered_by in
            let (eq, last) = pure-eq-ok old w (rw same at h) in
            let unchanged : u.db ≡ w.db = ap (λ (z : World). z.db) last in
            subst (λ r. Answered c batch answer r w.db u.db) eq
              (record {
                there = subst (λ (d : Db). Elem old d.transfers) (sym unchanged) there;
                of_transfer = ground arith;
                has_answer = same_bool_eq old.accepted answer same;
                kept_or_new = inl unchanged;
              })
        | inr other ↦ absurd (raise_not_ok ApiError.transfer_status_mismatch w (rw other at h))
      ]

  set_transfer_status-Answered :
      (batch c time : ℕ) (answer : Bool) (w : World) {row : TransferStatus} {u : World}
      → set_transfer_status env batch c time answer w ≡ (ok row, u)
      → Answered c batch answer row w.db u.db
  unfolding set_transfer_status
  set_transfer_status-Answered batch c time answer w {row} {u} h = >>=-run _ _ w h λ found w1 q1 h1.
      let (answered_by, s1) = query-eq-ok env _ w q1 in
      let same : w1.db ≡ w.db = ap (λ (z : World). z.db) s1 in
      subst (λ d. Answered c batch answer row d u.db) same
        (set_or_keep-Answered batch c time answer w.tick found w1
          (ap
              (λ (d : Db).
                head? (filter (transfer_is_of batch) (env.scan TransferStatus w.tick d.transfers)))
              same
            ∙ answered_by)
          h1)

module _ (env : Env) (lawful : IsLawful env) (state : AppState) where
  -- With dependencies that do as documented, a cosigner's successful request to set the status of a
  -- transfer returns a row of the transfer that has the answer that was asked for; either the row was
  -- there before and the tables are unchanged, or the transfer had no row and this one was added for
  -- the cosigner.
  pub transfer_status-Answered :
      (c : AuthenticatedCosigner) (batch : ℕ) (answer : Bool) (w : World)
      {info : Option TransferStatusInfo} {u : World}
      → transfer_status env state
          (cosigner c)
          (record { batch_transfer_idx = batch; accept = some answer })
          w
        ≡ (ok info, u)
      → (row : TransferStatus) × (info ≡ some (info_of state row))
        × Answered c.idx batch answer row w.db u.db
  unfolding transfer_status set_or_read register_transfer_status
  transfer_status-Answered c batch answer w {info} {u} h = >>=-run _ _ w h λ time w1 q1 h1.
      >>=-run _ _ w1 h1 λ row w2 q2 h2.
        let (v, run, last) = transaction-eq-ok env _ w1 q2 in
        let (eq, end) = pure-eq-ok (some (info_of state row)) w2 h2 in
        let before : w1.db ≡ w.db = ReadOnly-run (ReadOnly-now env) q1 in
        let after : u.db ≡ v.db = ap (λ (z : World). z.db) (end ∙ last) in
        let answered =
          set_transfer_status-Answered env lawful batch c.idx time answer (ticked w1) run in
        (
          row,
          sym eq,
          subst (λ d. Answered c.idx batch answer row w.db d) (sym after)
              (subst (λ d. Answered c.idx batch answer row d v.db) before answered),
        )

-- ===== src/Database/Effects.antt =====
-- What the writing methods of src/database/mod.rs have done to the tables when they succeed.
use rgb_multisig_hub.Base.{
  ℕ, zero, suc, ◌<◌, ◌≡◌, refl, ◌⊎◌, inl, inr, List, ◌∷◌, map, ◌==◌, count, count-map, update_where,
  arith,
}
use rgb_multisig_hub.Errors.{ApiError_from_db_err}
use rgb_multisig_hub.World.{Env, IsLawful, World, ok, Operation, CosignerOpStatus}
use rgb_multisig_hub.World.Inversion.{exec-eq-ok}
use rgb_multisig_hub.Database.Rows.{operation_has_idx, status_has_idx}
use rgb_multisig_hub.Database.Insert.{set_operation, set_cosigner_op_status}
use rgb_multisig_hub.Database.Update.{update_operation, update_cosigner_op_status}

pub zero_or_pos : (n : ℕ) → (n ≡ 0) ⊎ (0 < n)
zero_or_pos zero = inl refl
zero_or_pos (suc n) = inr (omega arith)

module _ (env : Env) (lawful : IsLawful env) where
  -- No row has the key that is given to a new one.
  pub fresh_unused :
      {A : Type 0} (key : A → ℕ) (tick : ℕ) (rows : List A)
      → count (λ r. key r == env.fresh tick (map key rows)) rows ≡ 0
  fresh_unused key tick rows =
      let k = env.fresh tick (map key rows) in
      elim (zero_or_pos (count (λ r. key r == k) rows)) [
        | inl none_has_it ↦ none_has_it
        | inr some_has_it ↦ absurd (
            omega (
              arith,
              lawful.fresh_above tick k (map key rows)
                  (rw (count-map (λ j. j == k) key rows) some_has_it),
            ))
      ]

  pub set_operation-eq-ok :
      (row : ℕ → Operation) (w : World) {i : ℕ} {u : World}
      → set_operation env row w ≡ (ok i, u)
      → (count (operation_has_idx i) w.db.operations ≡ 0)
        × (u.db ≡ record w.db { operations = row i ∷ w.db.operations })
  unfolding set_operation
  set_operation-eq-ok row w h =
      let (e, f, t) = exec-eq-ok env _ w h in
      ground (arith, e, fresh_unused (λ (r : Operation). r.idx) w.tick w.db.operations)

  pub set_cosigner_op_status-eq-ok :
      (row : ℕ → CosignerOpStatus) (w : World) {i : ℕ} {u : World}
      → set_cosigner_op_status env row w ≡ (ok i, u)
      → (count (status_has_idx i) w.db.statuses ≡ 0)
        × (u.db ≡ record w.db { statuses = row i ∷ w.db.statuses })
  unfolding set_cosigner_op_status
  set_cosigner_op_status-eq-ok row w h =
      let (e, f, t) = exec-eq-ok env _ w h in
      ground (arith, e, fresh_unused (λ (r : CosignerOpStatus). r.idx) w.tick w.db.statuses)

module _ (env : Env) where
  pub update_cosigner_op_status-eq-ok :
      (k : ℕ) (change : CosignerOpStatus → CosignerOpStatus) (w : World) {a : Unit {0}} {u : World}
      → update_cosigner_op_status env k change w ≡ (ok a, u)
      → u.db ≡ record w.db { statuses = update_where (status_has_idx k) change w.db.statuses }
  unfolding update_cosigner_op_status
  update_cosigner_op_status-eq-ok k change w h =
      let (e, f, t) = exec-eq-ok env _ w h in ground (arith, e)

  pub update_operation-eq-ok :
      (k : ℕ) (change : Operation → Operation) (w : World) {a : Unit {0}} {u : World}
      → update_operation env k change w ≡ (ok a, u)
      → u.db
        ≡ record w.db { operations = update_where (operation_has_idx k) change w.db.operations }
  unfolding update_operation
  update_operation-eq-ok k change w h = let (e, f, t) = exec-eq-ok env _ w h in ground (arith, e)

-- ===== src/World/Inversion.antt =====
-- What a run that returned a value has done, step by step.
use rgb_multisig_hub.Base.{
  ℕ, suc, ◌≡◌, refl, String, Bool, false, Option, some, List, arith, Option-cases, inl, inr,
}
use rgb_multisig_hub.Errors.{FromDbErr}
use rgb_multisig_hub.World.Tables.{Db, World}
use rgb_multisig_hub.World.Outside.{Env}
use rgb_multisig_hub.World.Monad.{
  Outcome, ok, err, panic, M, continue, ◌>>=◌, pure, ok_or, expect, raise_if, ticked, query, exec,
  close_transaction, transaction, io_step,
}

module _ {E A B : Type 0} where
  -- A value at the end of a continuation comes from a value at its start.
  continue-eq-ok :
      (r : Outcome E A) (f : A → M E B) (w : World) (b : B) (u : World)
      → continue r f w ≡ (ok b, u)
      → (a : A) × (r ≡ ok a) × (f a w ≡ (ok b, u))
  continue-eq-ok (ok a) f w b u h = (a, refl, h)
  continue-eq-ok (err e) f w b u h = cc
  continue-eq-ok (panic s) f w b u h = cc

  pub >>=-eq-ok :
      (m : M E A) (f : A → M E B) (w : World) {b : B} {u : World}
      → (m >>= f) w ≡ (ok b, u)
      → (a : A) × (v : World) × (m w ≡ (ok a, v)) × (f a v ≡ (ok b, u))
  unfolding ◌>>=◌
  >>=-eq-ok m f w {b} {u} h =
      let (a, e, g) = continue-eq-ok (m w).0 f (m w).1 b u h in (a, (m w).1, λ i. (e i, (m w).1), g)

module _ {E A B C : Type 0} where
  -- The same, for a proof that goes on with the value and the world after the first step.
  pub >>=-run :
      (m : M E A) (f : A → M E B) (w : World) {b : B} {u : World}
      → (m >>= f) w ≡ (ok b, u)
      → ((a : A) (v : World) → m w ≡ (ok a, v) → f a v ≡ (ok b, u) → C)
      → C
  >>=-run m f w h go = let (a, v, e, g) = >>=-eq-ok m f w h in go a v e g

module _ {E : Type 0} {A : Type 0} where
  pub pure-eq-ok :
      (a : A) (w : World) {b : A} {u : World} → pure {E = E} a w ≡ (ok b, u) → (a ≡ b) × (u ≡ w)
  unfolding pure
  pure-eq-ok a w h = ground arith

  pub ok_or-eq-ok :
      (o : Option A) (e : E) (w : World) {b : A} {u : World}
      → ok_or o e w ≡ (ok b, u)
      → (o ≡ some b) × (u ≡ w)
  unfolding ok_or
  ok_or-eq-ok o e w h = ground arith

  pub expect-eq-ok :
      (o : Option A) (s : String) (w : World) {b : A} {u : World}
      → expect {E = E} o s w ≡ (ok b, u)
      → (o ≡ some b) × (u ≡ w)
  unfolding expect
  expect-eq-ok o s w h = ground arith

module _ {E : Type 0} where
  pub raise_if-eq-ok :
      (c : Bool) (e : E) (w : World) {b : Unit {0}} {u : World}
      → raise_if c e w ≡ (ok b, u)
      → (c ≡ false) × (u ≡ w)
  unfolding raise_if
  raise_if-eq-ok c e w h = ground arith

module _ (env : Env) {E : Type 0} ⦃from : FromDbErr E⦄ {A : Type 0} where
  pub query-eq-ok :
      (f : ℕ → Db → A) (w : World) {a : A} {u : World}
      → query env ⦃from = from⦄ f w ≡ (ok a, u)
      → (f w.tick w.db ≡ a) × (u ≡ ticked w)
  unfolding query
  query-eq-ok f w h = ground arith

  pub exec-eq-ok :
      (f : ℕ → Db → Option (A × Db)) (w : World) {a : A} {u : World}
      → exec env ⦃from = from⦄ f w ≡ (ok a, u)
      → (f w.tick w.db ≡ some (a, u.db)) × (u.files ≡ w.files) × (u.tick ≡ suc w.tick)
  unfolding exec
  exec-eq-ok f w h = ground arith

  close_transaction-eq-ok :
      (before : Db) (r : Outcome E A) (v : World) {a : A} {u : World}
      → close_transaction env ⦃from = from⦄ before r v ≡ (ok a, u)
      → (r ≡ ok a) × (u ≡ ticked v)
  unfolding close_transaction
  close_transaction-eq-ok before (ok b) v h = ground arith
  close_transaction-eq-ok before (err e) v h = cc
  close_transaction-eq-ok before (panic s) v h = cc

  pub transaction-eq-ok :
      (body : M E A) (w : World) {a : A} {u : World}
      → transaction env ⦃from = from⦄ body w ≡ (ok a, u)
      → (v : World) × (body (ticked w) ≡ (ok a, v)) × (u ≡ ticked v)
  unfolding transaction
  transaction-eq-ok body w {a} {u} h = elim (Option-cases (env.db_error w.tick)) [
    | inl fine ↦
        let (r, v) = body (ticked w) in
        let (e, s) =
          close_transaction-eq-ok w.db (body (ticked w)).0 (body (ticked w)).1
            (rw (fine, transaction) at h) in
        ((body (ticked w)).1, λ i. (e i, (body (ticked w)).1), s)
    | inr (x, failed) ↦ absurd (ground arith)
  ]

module _ (env : Env) {E : Type 0} where
  pub io_step-eq-ok :
      (to_error : String → E) (f : List (String × List ℕ) → List (String × List ℕ)) (w : World)
      {a : Unit {0}} {u : World}
      → io_step env to_error f w ≡ (ok a, u)
      → (u.db ≡ w.db) × (u.files ≡ f w.files) × (u.tick ≡ suc w.tick)
  unfolding io_step
  io_step-eq-ok to_error f w h = ground arith

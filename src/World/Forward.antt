-- ===== src/World/Forward.antt =====
-- What a run does when its steps are known.
use rgb_multisig_hub.Base.{
  ℕ, suc, ◌≡◌, refl, ap, String, Bool, true, false, Option, none, some, List,
}
use rgb_multisig_hub.Errors.{FromDbErr}
use rgb_multisig_hub.World.Tables.{Db, World}
use rgb_multisig_hub.World.Outside.{Env}
use rgb_multisig_hub.World.Monad.{
  Outcome, ok, err, M, continue, ◌>>=◌, ok_or, raise_if, expect, ticked, query, exec,
  close_transaction, transaction, io_step,
}

module _ {E A B : Type 0} where
  -- One step of a run that is known.
  pub >>=-ok :
      (m : M E A) (f : A → M E B) (w : World) {a : A} {v : World}
      → m w ≡ (ok a, v)
      → (m >>= f) w ≡ f a v
  unfolding ◌>>=◌
  >>=-ok m f w h = ap (λ (o : Outcome E A × World). continue o.0 f o.1) h

  pub >>=-err :
      (m : M E A) (f : A → M E B) (w : World) {e : E} {v : World}
      → m w ≡ (err e, v)
      → (m >>= f) w ≡ (err e, v)
  unfolding ◌>>=◌
  >>=-err m f w h = ap (λ (o : Outcome E A × World). continue o.0 f o.1) h

module _ {E : Type 0} where
  pub raise_if-true : (b : Bool) (e : E) (w : World) → b ≡ true → raise_if b e w ≡ (err e, w)
  unfolding raise_if
  raise_if-true b e w h = rw h refl

  pub raise_if-false : (b : Bool) (e : E) (w : World) → b ≡ false → raise_if b e w ≡ (ok tt, w)
  unfolding raise_if
  raise_if-false b e w h = rw h refl

module _ {E A : Type 0} where
  pub ok_or-some : (o : Option A) (e : E) (w : World) {a : A} → o ≡ some a → ok_or o e w ≡ (ok a, w)
  unfolding ok_or
  ok_or-some o e w h = rw h refl

  pub ok_or-none : (o : Option A) (e : E) (w : World) → o ≡ none → ok_or o e w ≡ (err e, w)
  unfolding ok_or
  ok_or-none o e w h = rw h refl

module _ {E A : Type 0} where
  pub expect-some :
      (o : Option A) (s : String) (w : World) {a : A}
      → o ≡ some a
      → expect {E = E} o s w ≡ (ok a, w)
  unfolding expect
  expect-some o s w h = rw h refl

module _ (env : Env) {E : Type 0} ⦃from : FromDbErr E⦄ {A : Type 0} where
  pub exec-fine :
      (f : ℕ → Db → Option (A × Db)) (w : World) {a : A} {db : Db}
      → env.db_error w.tick ≡ none
      → f w.tick w.db ≡ some (a, db)
      → exec env ⦃from = from⦄ f w ≡ (ok a, record w { db = db; tick = suc w.tick })
  unfolding exec
  exec-fine f w h e = rw (exec, h, e) refl

  -- A transaction commits what its body returns, and passes its error on.
  pub transaction-ok :
      (quiet : (tick : ℕ) → env.db_error tick ≡ none) (body : M E A) (w : World) {a : A} {v : World}
      → body (ticked w) ≡ (ok a, v)
      → transaction env ⦃from = from⦄ body w ≡ (ok a, ticked v)
  unfolding transaction close_transaction
  transaction-ok quiet body w {a} {v} e =
      rw (transaction, quiet w.tick, e, close_transaction, quiet v.tick) refl

  pub transaction-err :
      (quiet : (tick : ℕ) → env.db_error tick ≡ none) (body : M E A) (w : World) {e : E} {v : World}
      → body (ticked w) ≡ (err e, v)
      → (transaction env ⦃from = from⦄ body w).0 ≡ err e
  unfolding transaction close_transaction
  transaction-err quiet body w e = rw (transaction, quiet w.tick, e) refl

module _ (env : Env) {E : Type 0} ⦃from : FromDbErr E⦄ {A : Type 0} where
  pub query-fine :
      (f : ℕ → Db → A) (w : World)
      → env.db_error w.tick ≡ none
      → query env ⦃from = from⦄ f w ≡ (ok (f w.tick w.db), ticked w)
  unfolding query
  query-fine f w h = rw (query, h) refl

module _ (env : Env) {E : Type 0} where
  pub io_step-fine :
      (to_error : String → E) (f : List (String × List ℕ) → List (String × List ℕ)) (w : World)
      → env.io_error w.tick ≡ none
      → io_step env to_error f w ≡ (ok tt, record w { files = f w.files; tick = suc w.tick })
  unfolding io_step
  io_step-fine to_error f w h = rw (io_step, h) refl

-- ===== src/World/Panics.antt =====
-- Actions that end with a value or an error, never with a panic.
use rgb_multisig_hub.Base.{
  ℕ, ◌≡◌, refl, String, Bool, true, false, Option, none, some, List, if◌then◌else◌,
}
use rgb_multisig_hub.Errors.{FromDbErr}
use rgb_multisig_hub.World.Tables.{Db, World}
use rgb_multisig_hub.World.Outside.{Env}
use rgb_multisig_hub.World.Monad.{
  Outcome, ok, err, panic, M, continue, ◌>>=◌, pure, raise, ok_or, raise_if, ticked, query, exec,
  close_transaction, transaction, io_step, now,
}

abbrev pub NoPanic : {E A : Type 0} → Outcome E A → Type 0
NoPanic (ok _) = Unit {0}
NoPanic (err _) = Unit {0}
NoPanic (panic _) = ⊥

-- From every world.
pub record Calm {E A : Type 0} (m : M E A) : Type 0 where
  pub calm : (w : World) → NoPanic (m w).0

module _ {E A : Type 0} where
  pub Calm-pure : (a : A) → Calm (pure {E = E} a)
  unfolding pure
  Calm-pure a = record { calm = λ w. tt }

  pub Calm-raise : (e : E) → Calm (raise {A = A} e)
  unfolding raise
  Calm-raise e = record { calm = λ w. tt }

  pub Calm-ok_or : (o : Option A) (e : E) → Calm (ok_or o e)
  unfolding ok_or
  Calm-ok_or none e = record { calm = λ w. tt }
  Calm-ok_or (some a) e = record { calm = λ w. tt }

  pub Calm-if : (b : Bool) {m n : M E A} → Calm m → Calm n → Calm (if b then m else n)
  Calm-if true cm cn = cm
  Calm-if false cm cn = cn

module _ {E A B : Type 0} where
  NoPanic-continue :
      (o : Outcome E A × World) (f : A → M E B)
      → NoPanic o.0
      → ((a : A) (u : World) → o ≡ (ok a, u) → NoPanic (f a u).0)
      → NoPanic (continue o.0 f o.1).0
  NoPanic-continue (ok a, u) f h next = next a u refl
  NoPanic-continue (err e, u) f h next = tt
  NoPanic-continue (panic s, u) f h next = h

  -- One step at a given world, and then the rest after what it has done.
  pub NoPanic-bind :
      (m : M E A) (f : A → M E B) (w : World)
      → NoPanic (m w).0
      → ((a : A) (u : World) → m w ≡ (ok a, u) → NoPanic (f a u).0)
      → NoPanic ((m >>= f) w).0
  unfolding ◌>>=◌
  NoPanic-bind m f w h next = NoPanic-continue (m w) f h next

  pub Calm-bind : {m : M E A} {f : A → M E B} → Calm m → ((a : A) → Calm (f a)) → Calm (m >>= f)
  Calm-bind {m} {f} cm cf = record {
    calm = λ w. NoPanic-bind m f w (cm.calm w) (λ a u h. (cf a).calm u);
  }

module _ {E : Type 0} where
  pub Calm-raise_if : (b : Bool) (e : E) → Calm (raise_if b e)
  unfolding raise_if
  Calm-raise_if true e = record { calm = λ w. tt }
  Calm-raise_if false e = record { calm = λ w. tt }

module _ (env : Env) {E : Type 0} ⦃from : FromDbErr E⦄ {A : Type 0} where
  pub Calm-query : (f : ℕ → Db → A) → Calm (query env ⦃from = from⦄ f)
  unfolding query
  Calm-query f = record { calm = λ w. go w (env.db_error w.tick) refl }
    where
      go :
          (w : World) (o : Option String)
          → env.db_error w.tick ≡ o
          → NoPanic (query env ⦃from = from⦄ f w).0
      go w none e = rw (query, e) tt
      go w (some x) e = rw (query, e) tt

  pub Calm-exec : (f : ℕ → Db → Option (A × Db)) → Calm (exec env ⦃from = from⦄ f)
  unfolding exec
  Calm-exec f = record { calm = λ w. go w (env.db_error w.tick) refl (f w.tick w.db) refl }
    where
      go :
          (w : World) (o : Option String)
          → env.db_error w.tick ≡ o
          → (r : Option (A × Db)) → f w.tick w.db ≡ r
          → NoPanic (exec env ⦃from = from⦄ f w).0
      go w none e none h = rw (exec, e, h) tt
      go w none e (some r) h = rw (exec, e, h) tt
      go w (some x) e r h = rw (exec, e) tt

  NoPanic-close :
      (before : Db) (r : Outcome E A) (v : World)
      → NoPanic r
      → NoPanic (close_transaction env ⦃from = from⦄ before r v).0
  unfolding close_transaction
  NoPanic-close before (ok a) v h = go (env.db_error v.tick) refl
    where
      go :
          (o : Option String)
          → env.db_error v.tick ≡ o
          → NoPanic (close_transaction env ⦃from = from⦄ before (ok a) v).0
      go none e = rw (close_transaction, e) tt
      go (some x) e = rw (close_transaction, e) tt
  NoPanic-close before (err e) v h = tt
  NoPanic-close before (panic s) v h = h

  pub NoPanic-transaction :
      (body : M E A) (w : World)
      → NoPanic (body (ticked w)).0
      → NoPanic (transaction env ⦃from = from⦄ body w).0
  unfolding transaction
  NoPanic-transaction body w h = go (env.db_error w.tick) refl
    where
      go :
          (o : Option String)
          → env.db_error w.tick ≡ o
          → NoPanic (transaction env ⦃from = from⦄ body w).0
      go none e = rw (transaction, e) (NoPanic-close w.db (body (ticked w)).0 (body (ticked w)).1 h)
      go (some x) e = rw (transaction, e) tt

module _ (env : Env) {E : Type 0} where
  pub Calm-io_step :
      (to_error : String → E) (f : List (String × List ℕ) → List (String × List ℕ))
      → Calm (io_step env to_error f)
  unfolding io_step
  Calm-io_step to_error f = record { calm = λ w. go w (env.io_error w.tick) refl }
    where
      go :
          (w : World) (o : Option String)
          → env.io_error w.tick ≡ o
          → NoPanic (io_step env to_error f w).0
      go w none e = rw (io_step, e) tt
      go w (some x) e = rw (io_step, e) tt

  pub Calm-now : Calm (now env {E = E})
  unfolding now
  Calm-now = record { calm = λ w. tt }

pub ruleset calm_rules = (
  Calm-pure, Calm-raise, Calm-ok_or, Calm-if, Calm-bind, Calm-raise_if, Calm-query, Calm-exec,
  Calm-io_step, Calm-now,
)

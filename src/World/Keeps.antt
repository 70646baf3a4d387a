-- ===== src/World/Keeps.antt =====
-- Actions that leave a part of the tables alone, however they end.
use rgb_multisig_hub.Base.{ℕ, ◌≡◌, refl, sym, ap, ◌∙◌, String, Option, none, some}
use rgb_multisig_hub.Errors.{FromDbErr}
use rgb_multisig_hub.World.Tables.{Db, World}
use rgb_multisig_hub.World.Outside.{Env}
use rgb_multisig_hub.World.Monad.{
  Outcome, ok, err, panic, M, continue, ◌>>=◌, ticked, exec, close_transaction, transaction,
}
use rgb_multisig_hub.World.Atomic.{ReadOnly}

pub record Keeps {X E A : Type 0} (part : Db → X) (m : M E A) : Type 0 where
  pub kept : (w : World) → part (m w).1.db ≡ part w.db

module _ {X E A : Type 0} (part : Db → X) where
  pub Keeps-ReadOnly : {m : M E A} → ReadOnly m → Keeps part m
  Keeps-ReadOnly r = record { kept = λ w. ap part (r.same w) }

  pub Keeps-run :
      {m : M E A}
      → Keeps part m
      → {w : World} {r : Outcome E A} {u : World} → m w ≡ (r, u)
      → part u.db ≡ part w.db
  Keeps-run {m} k {w} h = ap (λ (o : Outcome E A × World). part o.1.db) (sym h) ∙ k.kept w

module _ {X E A B : Type 0} {part : Db → X} where
  Keeps-continue :
      (r : Outcome E A) (f : A → M E B)
      → ((a : A) → Keeps part (f a))
      → (w : World) → part (continue r f w).1.db ≡ part w.db
  Keeps-continue (ok a) f kf w = (kf a).kept w
  Keeps-continue (err e) f kf w = refl
  Keeps-continue (panic s) f kf w = refl

  pub Keeps-bind :
      {m : M E A} {f : A → M E B}
      → Keeps part m
      → ((a : A) → Keeps part (f a))
      → Keeps part (m >>= f)
  unfolding ◌>>=◌
  Keeps-bind {m} {f} km kf = record { kept = λ w. Keeps-continue (m w).0 f kf (m w).1 ∙ km.kept w }

module _ (env : Env) {X E A : Type 0} ⦃from : FromDbErr E⦄ (part : Db → X) where
  pub Keeps-exec :
      (f : ℕ → Db → Option (A × Db))
      → ((tick : ℕ) (db : Db) (a : A) (after : Db)
          → f tick db ≡ some (a, after)
          → part after ≡ part db)
      → Keeps part (exec env ⦃from = from⦄ f)
  unfolding exec
  Keeps-exec f k = record { kept = λ w. by_error w (env.db_error w.tick) refl (f w.tick w.db) refl }
    where
      by_error :
          (w : World) (e : Option String)
          → env.db_error w.tick ≡ e
          → (r : Option (A × Db)) → f w.tick w.db ≡ r
          → part (exec env ⦃from = from⦄ f w).1.db ≡ part w.db
      by_error w (some e) p r q = rw (p, exec) refl
      by_error w none p none q = rw (p, q, exec) refl
      by_error w none p (some (a, db)) q = rw (p, q, exec) (k w.tick w.db a db q)

  Keeps-close :
      (before : Db) (r : Outcome E A) (v : World)
      → part v.db ≡ part before
      → part (close_transaction env ⦃from = from⦄ before r v).1.db ≡ part before
  unfolding close_transaction
  Keeps-close before (ok a) v h = by_error (env.db_error v.tick) refl
    where
      by_error :
          (e : Option String)
          → env.db_error v.tick ≡ e
          → part (close_transaction env ⦃from = from⦄ before (ok a) v).1.db ≡ part before
      by_error (some e) p = rw (p, close_transaction) refl
      by_error none p = rw (p, close_transaction) h
  Keeps-close before (err e) v h = refl
  Keeps-close before (panic s) v h = refl

  pub Keeps-transaction :
      (body : M E A) → Keeps part body → Keeps part (transaction env ⦃from = from⦄ body)
  unfolding transaction
  Keeps-transaction body k = record { kept = λ w. by_error w (env.db_error w.tick) refl }
    where
      by_error :
          (w : World) (e : Option String)
          → env.db_error w.tick ≡ e
          → part (transaction env ⦃from = from⦄ body w).1.db ≡ part w.db
      by_error w (some e) p = rw (p, transaction) refl
      by_error w none p =
          rw (p, transaction)
            (Keeps-close w.db (body (ticked w)).0 (body (ticked w)).1 (k.kept (ticked w)))

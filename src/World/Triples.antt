-- ===== src/World/Triples.antt =====
-- What an action makes of a property of the tables: a property of them and of its value if it returns
-- one, and an invariant if it ends otherwise.
use rgb_multisig_hub.Base.{ℕ, ◌≡◌, refl, sym, subst, String, Option, none, some}
use rgb_multisig_hub.Errors.{FromDbErr}
use rgb_multisig_hub.World.Tables.{Db, World}
use rgb_multisig_hub.World.Outside.{Env}
use rgb_multisig_hub.World.Monad.{
  Outcome, ok, err, panic, M, continue, ◌>>=◌, pure, ticked, exec, close_transaction, transaction,
}
use rgb_multisig_hub.World.Atomic.{ReadOnly}

-- How a run may end: with the invariant, or with a value of which `after` holds.
abbrev pub Ends : {E A : Type 0} → (Db → Type 0) → (A → Db → Type 0) → Outcome E A → Db → Type 0
Ends I after (ok a) db = after a db
Ends I after (err e) db = I db
Ends I after (panic s) db = I db

pub record Triple {E A : Type 0} (I : Db → Type 0) (before : Db → Type 0) (m : M E A)
    (after : A → Db → Type 0) : Type 0 where
  pub run : (w : World) → before w.db → Ends I after (m w).0 (m w).1.db

module _ {E A : Type 0} (I before : Db → Type 0) (weak : (db : Db) → before db → I db) where
  Ends-same : (o : Outcome E A) (db : Db) → before db → Ends I (λ a. before) o db
  Ends-same (ok a) db h = h
  Ends-same (err e) db h = weak db h
  Ends-same (panic s) db h = weak db h

  -- What only reads leaves a property as it was.
  pub Triple-ReadOnly : {m : M E A} → ReadOnly m → Triple I before m (λ a. before)
  Triple-ReadOnly {m} r = record {
    run = λ w h. Ends-same (m w).0 (m w).1.db (subst before (sym (r.same w)) h);
  }

module _ {E A B : Type 0} (I : Db → Type 0) (mid : A → Db → Type 0) (after : B → Db → Type 0) where
  Ends-continue :
      (r : Outcome E A) (f : A → M E B) (w : World)
      → ((a : A) → Triple I (mid a) (f a) after)
      → Ends I mid r w.db
      → Ends I after (continue r f w).0 (continue r f w).1.db
  Ends-continue (ok a) f w tf h = (tf a).run w h
  Ends-continue (err e) f w tf h = h
  Ends-continue (panic s) f w tf h = h

module _ {E A B : Type 0} {I before : Db → Type 0} {mid : A → Db → Type 0}
    {after : B → Db → Type 0} where
  pub Triple-bind :
      {m : M E A} {f : A → M E B}
      → Triple I before m mid
      → ((a : A) → Triple I (mid a) (f a) after)
      → Triple I before (m >>= f) after
  unfolding ◌>>=◌
  Triple-bind {m} {f} tm tf = record {
    run = λ w h. Ends-continue I mid after (m w).0 f (m w).1 tf (tm.run w h);
  }

module _ {E A : Type 0} {I before : Db → Type 0} {after : A → Db → Type 0} where
  pub Triple-pure :
      (a : A) → ((db : Db) → before db → after a db) → Triple I before (pure {E = E} a) after
  unfolding pure
  Triple-pure a h = record { run = λ w b. h w.db b }

  pub Triple-imp :
      {stronger : Db → Type 0} {m : M E A}
      → ((db : Db) → stronger db → before db)
      → Triple I before m after
      → Triple I stronger m after
  Triple-imp h t = record { run = λ w b. t.run w (h w.db b) }

module _ (env : Env) {E A : Type 0} ⦃from : FromDbErr E⦄ (I : Db → Type 0)
    (after : A → Db → Type 0) where
  Ends-close :
      (old : Db) (r : Outcome E A) (v : World)
      → I old
      → Ends I after r v.db
      → Ends I after
          (close_transaction env ⦃from = from⦄ old r v).0
          (close_transaction env ⦃from = from⦄ old r v).1.db
  unfolding close_transaction
  Ends-close old (ok a) v i h = go (env.db_error v.tick) refl
    where
      go :
          (e : Option String)
          → env.db_error v.tick ≡ e
          → Ends I after
              (close_transaction env ⦃from = from⦄ old (ok a) v).0
              (close_transaction env ⦃from = from⦄ old (ok a) v).1.db
      go (some e) p = rw (p, close_transaction) i
      go none p = rw (p, close_transaction) h
  Ends-close old (err e) v i h = i
  Ends-close old (panic s) v i h = i

module _ (env : Env) {E A : Type 0} ⦃from : FromDbErr E⦄ {I before : Db → Type 0}
    {after : A → Db → Type 0} (weak : (db : Db) → before db → I db) where
  pub Triple-exec :
      (f : ℕ → Db → Option (A × Db))
      → ((tick : ℕ) (db : Db) (a : A) (new : Db)
          → before db
          → f tick db ≡ some (a, new)
          → after a new)
      → Triple I before (exec env ⦃from = from⦄ f) after
  unfolding exec
  Triple-exec f k = record { run = λ w h. go w h (env.db_error w.tick) refl (f w.tick w.db) refl }
    where
      go :
          (w : World)
          → before w.db
          → (e : Option String) → env.db_error w.tick ≡ e
          → (r : Option (A × Db)) → f w.tick w.db ≡ r
          → Ends I after (exec env ⦃from = from⦄ f w).0 (exec env ⦃from = from⦄ f w).1.db
      go w h (some e) p r q = rw (p, exec) (weak w.db h)
      go w h none p none q = rw (p, q, exec) (weak w.db h)
      go w h none p (some (a, db)) q = rw (p, q, exec) (k w.tick w.db a db h q)

  -- A transaction that does not commit goes back to where the property held.
  pub Triple-transaction :
      (body : M E A)
      → Triple I before body after
      → Triple I before (transaction env ⦃from = from⦄ body) after
  unfolding transaction
  Triple-transaction body t = record { run = λ w h. go w h (env.db_error w.tick) refl }
    where
      go :
          (w : World)
          → before w.db
          → (e : Option String) → env.db_error w.tick ≡ e
          → Ends I after
              (transaction env ⦃from = from⦄ body w).0
              (transaction env ⦃from = from⦄ body w).1.db
      go w h (some e) p = rw (p, transaction) (weak w.db h)
      go w h none p =
          rw (p, transaction)
            (Ends-close env I after w.db (body (ticked w)).0 (body (ticked w)).1 (weak w.db h)
              (t.run (ticked w) h))

-- ===== src/World/Monad.antt =====
-- A handler reads and changes the world, and ends with a value, an error or a panic.
use rgb_multisig_hub.Base.{ℕ, suc, String, Bool, Option, none, some, List, if◌then◌else◌}
use rgb_multisig_hub.Errors.{FromDbErr}
use rgb_multisig_hub.World.Tables.{Db, World}
use rgb_multisig_hub.World.Outside.{Env}

pub data Outcome (E A : Type 0) : Type 0 where
  ok : A → Outcome E A
  err : E → Outcome E A
  panic : String → Outcome E A

abbrev pub M : Type 0 → Type 0 → Type 0
M E A = World → Outcome E A × World

module _ {E A B : Type 0} where
  abbrev pub continue : Outcome E A → (A → M E B) → M E B
  continue (ok a) f w = f a w
  continue (err e) f w = (err e, w)
  continue (panic s) f w = (panic s, w)

  infixl 5 ◌>>=◌ ◌>>◌
  unfoldable pub ◌>>=◌ : M E A → (A → M E B) → M E B
  ◌>>=◌ m f w = let (r, w') = m w in continue r f w'

  abbrev pub ◌>>◌ : M E A → M E B → M E B
  m >> k = m >>= λ _. k

module _ {E A : Type 0} where
  unfoldable pub pure : A → M E A
  pure a w = (ok a, w)

  unfoldable pub raise : E → M E A
  raise e w = (err e, w)

  -- `.ok_or(e)?`
  unfoldable pub ok_or : Option A → E → M E A
  ok_or none e w = (err e, w)
  ok_or (some a) e w = (ok a, w)

  -- `.expect(message)`
  unfoldable pub expect : Option A → String → M E A
  expect none message w = (panic message, w)
  expect (some a) message w = (ok a, w)

module _ {E : Type 0} where
  -- `if c { return Err(e) }`
  unfoldable pub raise_if : Bool → E → M E (Unit {0})
  raise_if c e w = (if c then err e else ok tt, w)

-- One call of another library has been made.
abbrev pub ticked : World → World
ticked w = record w { tick = suc w.tick }

module _ (env : Env) {E : Type 0} ⦃from : FromDbErr E⦄ where
  -- A database call that reads: the tick and the tables give its answer.
  unfoldable pub query : {A : Type 0} → (ℕ → Db → A) → M E A
  query f w = elim (env.db_error w.tick) [
    | none ↦ (ok (f w.tick w.db), ticked w)
    | some e ↦ (err (from.from_db_err e), ticked w)
  ]

  -- A database call that writes; `none` where it finds no row to write.
  unfoldable pub exec : {A : Type 0} → (ℕ → Db → Option (A × Db)) → M E A
  exec f w = elim (env.db_error w.tick) [
    | none ↦ elim (f w.tick w.db) [
      | none ↦ (err (from.from_db_err "None of the records are updated"), ticked w)
      | some (a, db) ↦ (ok a, record w { db = db; tick = suc w.tick })
    ]
    | some e ↦ (err (from.from_db_err e), ticked w)
  ]

  -- The end of a transaction that began at the tables `before`: a value commits, and whatever else
  -- happens rolls back, since a transaction that is dropped does.
  unfoldable pub close_transaction : {A : Type 0} → Db → Outcome E A → M E A
  close_transaction before (ok a) w = elim (env.db_error w.tick) [
    | none ↦ (ok a, ticked w)
    | some e ↦ (err (from.from_db_err e), record w { db = before; tick = suc w.tick })
  ]
  close_transaction before (err e) w = (err e, record w { db = before })
  close_transaction before (panic s) w = (panic s, record w { db = before })

  -- `let txn = begin_transaction().await?; ...; txn.commit().await?;`
  unfoldable pub transaction : {A : Type 0} → M E A → M E A
  unfolding close_transaction
  transaction body w = elim (env.db_error w.tick) [
    | none ↦ let (r, w') = body (ticked w) in close_transaction w.db r w'
    | some e ↦ (err (from.from_db_err e), ticked w)
  ]

module _ (env : Env) {E : Type 0} where
  -- A call of the file system, and what it does to the files if it succeeds.
  unfoldable pub io_step :
      (String → E) → (List (String × List ℕ) → List (String × List ℕ)) → M E (Unit {0})
  io_step to_error f w = elim (env.io_error w.tick) [
    | none ↦ (ok tt, record w { files = f w.files; tick = suc w.tick })
    | some e ↦ (err (to_error e), ticked w)
  ]

  unfoldable pub now : M E ℕ
  now w = (ok (env.unix_timestamp w.tick), ticked w)

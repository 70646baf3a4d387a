-- ===== src/World/Atomic.antt =====
-- Which handlers leave the tables alone, and when.
use rgb_multisig_hub.Base.{
  sym, ap, ℕ, ◌≡◌, refl, ◌⊎◌, inl, inr, String, Bool, true, false, Option, none, some, List, arith,
  ◌∙◌, if◌then◌else◌,
}
use rgb_multisig_hub.Errors.{FromDbErr}
use rgb_multisig_hub.World.Tables.{Db, World}
use rgb_multisig_hub.World.Outside.{Env}
use rgb_multisig_hub.World.Monad.{
  Outcome, ok, err, panic, M, continue, ◌>>=◌, pure, raise, ok_or, expect, raise_if, ticked, query,
  exec, close_transaction, transaction, io_step, now,
}

-- `m` never changes the tables.
pub record ReadOnly {E A : Type 0} (m : M E A) : Type 0 where
  pub same : (w : World) → (m w).1.db ≡ w.db

module _ {E A : Type 0} where
  pub ReadOnly-run :
      {m : M E A}
      → ReadOnly m
      → {w : World} {r : Outcome E A} {u : World} → m w ≡ (r, u)
      → u.db ≡ w.db
  ReadOnly-run {m} k {w} h = ap (λ (o : Outcome E A × World). o.1.db) (sym h) ∙ k.same w

abbrev pub is_ok : {E A : Type 0} → Outcome E A → Bool
is_ok (ok _) = true
is_ok _ = false

-- `m` changes the tables only if it returns a value.
pub record Atomic {E A : Type 0} (m : M E A) : Type 0 where
  pub all_or_nothing : (w : World) → (is_ok (m w).0 ≡ true) ⊎ ((m w).1.db ≡ w.db)

module _ {E A : Type 0} where
  pub Atomic-ReadOnly : {m : M E A} → ReadOnly m → Atomic m
  Atomic-ReadOnly r = record { all_or_nothing = λ w. inr (r.same w) }

  pub ReadOnly-pure : (a : A) → ReadOnly (pure {E = E} a)
  unfolding pure
  ReadOnly-pure a = record { same = λ w. refl }

  pub ReadOnly-raise : (e : E) → ReadOnly (raise {A = A} e)
  unfolding raise
  ReadOnly-raise e = record { same = λ w. refl }

  pub ReadOnly-ok_or : (o : Option A) (e : E) → ReadOnly (ok_or o e)
  unfolding ok_or
  ReadOnly-ok_or none e = record { same = λ w. refl }
  ReadOnly-ok_or (some a) e = record { same = λ w. refl }

  pub ReadOnly-expect : (o : Option A) (s : String) → ReadOnly (expect {E = E} o s)
  unfolding expect
  ReadOnly-expect none s = record { same = λ w. refl }
  ReadOnly-expect (some a) s = record { same = λ w. refl }

  pub ReadOnly-if :
      (b : Bool) {m n : M E A} → ReadOnly m → ReadOnly n → ReadOnly (if b then m else n)
  ReadOnly-if true rm rn = rm
  ReadOnly-if false rm rn = rn

  pub Atomic-if : (b : Bool) {m n : M E A} → Atomic m → Atomic n → Atomic (if b then m else n)
  Atomic-if true am an = am
  Atomic-if false am an = an

module _ {E A B : Type 0} where
  ReadOnly-continue :
      (r : Outcome E A) (f : A → M E B)
      → ((a : A) → ReadOnly (f a))
      → (w : World) → (continue r f w).1.db ≡ w.db
  ReadOnly-continue (ok a) f rf w = (rf a).same w
  ReadOnly-continue (err e) f rf w = refl
  ReadOnly-continue (panic s) f rf w = refl

  pub ReadOnly-bind :
      {m : M E A} {f : A → M E B} → ReadOnly m → ((a : A) → ReadOnly (f a)) → ReadOnly (m >>= f)
  unfolding ◌>>=◌
  ReadOnly-bind {m} {f} rm rf = record {
    same = λ w. ReadOnly-continue (m w).0 f rf (m w).1 ∙ rm.same w;
  }

  Atomic-continue :
      (r : Outcome E A) (f : A → M E B)
      → ((a : A) → Atomic (f a))
      → (w : World) → (is_ok (continue r f w).0 ≡ true) ⊎ ((continue r f w).1.db ≡ w.db)
  Atomic-continue (ok a) f af w = (af a).all_or_nothing w
  Atomic-continue (err e) f af w = inr refl
  Atomic-continue (panic s) f af w = inr refl

  -- What only reads may stand before what is atomic.
  pub Atomic-bind :
      {m : M E A} {f : A → M E B} → ReadOnly m → ((a : A) → Atomic (f a)) → Atomic (m >>= f)
  unfolding ◌>>=◌
  Atomic-bind {m} {f} rm af = record {
    all_or_nothing = λ w. elim (Atomic-continue (m w).0 f af (m w).1) [
      | inl done ↦ inl done
      | inr same ↦ inr (same ∙ rm.same w)
    ];
  }

  Atomic-then_continue :
      (r : Outcome E A) (g : A → B) (w v : World)
      → (is_ok r ≡ true) ⊎ (v.db ≡ w.db)
      → (is_ok (continue r (λ a. pure {E = E} (g a)) v).0 ≡ true)
        ⊎ ((continue r (λ a. pure {E = E} (g a)) v).1.db ≡ w.db)
  unfolding pure
  Atomic-then_continue (ok a) g w v h = inl refl
  Atomic-then_continue (err e) g w v h = ground arith
  Atomic-then_continue (panic s) g w v h = ground arith

  -- What is atomic may be followed by a step that cannot fail.
  pub Atomic-bind_pure : {m : M E A} (g : A → B) → Atomic m → Atomic (m >>= λ a. pure (g a))
  unfolding ◌>>=◌
  Atomic-bind_pure {m} g am = record {
    all_or_nothing = λ w. Atomic-then_continue (m w).0 g w (m w).1 (am.all_or_nothing w);
  }

module _ {E : Type 0} where
  pub ReadOnly-raise_if : (b : Bool) (e : E) → ReadOnly (raise_if b e)
  unfolding raise_if
  ReadOnly-raise_if b e = record { same = λ w. refl }

module _ (env : Env) {E : Type 0} ⦃from : FromDbErr E⦄ {A : Type 0} where
  pub ReadOnly-query : (f : ℕ → Db → A) → ReadOnly (query env ⦃from = from⦄ f)
  unfolding query
  ReadOnly-query f = record { same = λ w. ground arith }

  -- A single write is atomic.
  pub Atomic-exec : (f : ℕ → Db → Option (A × Db)) → Atomic (exec env ⦃from = from⦄ f)
  unfolding exec
  Atomic-exec f = record { all_or_nothing = λ w. ground arith }

  Atomic-close :
      (before : Db) (r : Outcome E A) (v : World)
      → (is_ok (close_transaction env ⦃from = from⦄ before r v).0 ≡ true)
        ⊎ ((close_transaction env ⦃from = from⦄ before r v).1.db ≡ before)
  unfolding close_transaction
  Atomic-close before (ok a) v = ground arith
  Atomic-close before (err e) v = inr refl
  Atomic-close before (panic s) v = inr refl

  -- A transaction is atomic, whatever its body does.
  pub Atomic-transaction : (body : M E A) → Atomic (transaction env ⦃from = from⦄ body)
  unfolding transaction
  Atomic-transaction body = record {
    all_or_nothing = λ w. ground (arith, Atomic-close w.db (body (ticked w)).0 (body (ticked w)).1);
  }

module _ (env : Env) {E : Type 0} where
  pub ReadOnly-io_step :
      (to_error : String → E) (f : List (String × List ℕ) → List (String × List ℕ))
      → ReadOnly (io_step env to_error f)
  unfolding io_step
  ReadOnly-io_step to_error f = record { same = λ w. ground arith }

  pub ReadOnly-now : ReadOnly (now env {E = E})
  unfolding now
  ReadOnly-now = record { same = λ w. refl }

pub ruleset read_only_rules = (
  ReadOnly-pure, ReadOnly-raise, ReadOnly-ok_or, ReadOnly-expect, ReadOnly-if, ReadOnly-bind,
  ReadOnly-raise_if, ReadOnly-query, ReadOnly-io_step, ReadOnly-now,
)

pub ruleset atomic_rules = (
  read_only_rules, Atomic-ReadOnly, Atomic-if, Atomic-bind, Atomic-bind_pure, Atomic-exec,
  Atomic-transaction,
)

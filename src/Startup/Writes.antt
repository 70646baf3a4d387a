-- ===== src/Startup/Writes.antt =====
-- What the two branches of `start_daemon` in src/startup.rs have done to the tables when they succeed.
use rgb_multisig_hub.Base.{
  ℕ, ◌≡◌, sym, ap, subst, ◌∙◌, String, Bool, true, some, List, ◌∷◌, count, length, arith, Elem,
}
use rgb_multisig_hub.Errors.{AppError_from_db_err}
use rgb_multisig_hub.World.{Env, IsLawful, World, ok, Db, Config, Cosigner, NextAddressIndex}
use rgb_multisig_hub.World.Inversion.{>>=-run, pure-eq-ok, raise_if-eq-ok, query-eq-ok, exec-eq-ok}
use rgb_multisig_hub.Database.{
  iter_cosigners, set_config, set_cosigners, insert_cosigners, set_next_address_index,
}
use rgb_multisig_hub.Startup.{
  AppParams, same_xpubs, xpubs_of, new_config, new_index, check_restart, first_start,
}
use rgb_multisig_hub.Startup.Outcomes.{Restarted, FirstStarted}

module _ (env : Env) (lawful : IsLawful env) where
  iter_cosigners-eq-ok :
      (w : World) {rows : List Cosigner} {u : World}
      → iter_cosigners env ⦃from = AppError_from_db_err⦄ w ≡ (ok rows, u)
      → ((p : Cosigner → Bool) → count p rows ≡ count p w.db.cosigners) × (u.db ≡ w.db)
  unfolding iter_cosigners
  iter_cosigners-eq-ok w h =
      let (a, s) = query-eq-ok env _ w h in
      (
        λ p. ap (count p) (sym a) ∙ lawful.scan_count Cosigner w.tick p w.db.cosigners,
        ap (λ (z : World). z.db) s,
      )

  pub check_restart-Restarted :
      (params : AppParams) (config : Config) (w : World) {rows : List Cosigner} {u : World}
      → Elem config w.db.configs
      → check_restart env params config w ≡ (ok rows, u)
      → ((p : Cosigner → Bool) → count p rows ≡ count p u.db.cosigners)
        × Restarted params rows w.db u.db
  unfolding check_restart
  check_restart-Restarted params config w {rows} {u} there h = >>=-run _ _ w h λ _ w1 q1 h1.
      >>=-run _ _ w1 h1 λ found w2 q2 h2. >>=-run _ _ w2 h2 λ _ w3 q3 h3.
        let (e1, s1) = raise_if-eq-ok _ _ w q1 in
        let (counts, s2) = iter_cosigners-eq-ok w1 q2 in
        let (e3, s3) = raise_if-eq-ok _ _ w2 q3 in
        let (eq, s4) = pure-eq-ok found w3 h3 in
        let late : u.db ≡ w1.db = ap (λ (z : World). z.db) (s4 ∙ s3) ∙ s2 in
        let same : u.db ≡ w.db = late ∙ ap (λ (z : World). z.db) s1 in
        (
          λ p. ap (count p) (sym eq) ∙ counts p ∙ ap (λ (d : Db). count p d.cosigners) (sym late),
          record {
            config = config;
            configured = there;
            colored = ground arith;
            vanilla = ground arith;
            xpubs =
                subst (λ r. same_xpubs (xpubs_of r) params.cosigner_xpubs ≡ true) eq (ground arith);
            unchanged = same;
          },
        )

module _ (env : Env) where
  set_config-eq-ok :
      (config : ℕ → Config) (w : World) {i : ℕ} {u : World}
      → set_config env config w ≡ (ok i, u)
      → u.db ≡ record w.db { configs = config i ∷ w.db.configs }
  unfolding set_config
  set_config-eq-ok config w h = let (e, f, t) = exec-eq-ok env _ w h in ground (arith, e)

  set_next_address_index-eq-ok :
      (index : ℕ → NextAddressIndex) (w : World) {i : ℕ} {u : World}
      → set_next_address_index env index w ≡ (ok i, u)
      → u.db ≡ record w.db { next_address_indices = index i ∷ w.db.next_address_indices }
  unfolding set_next_address_index
  set_next_address_index-eq-ok index w h = let (e, f, t) = exec-eq-ok env _ w h in ground (arith, e)

  set_cosigners-eq-ok :
      (xpubs : List String) (w : World) {i : ℕ} {u : World}
      → set_cosigners env xpubs w ≡ (ok i, u)
      → (u.db ≡ record w.db { cosigners = u.db.cosigners })
        × (insert_cosigners env w.tick xpubs 0 w.db.cosigners ≡ some (i, u.db.cosigners))
  unfolding set_cosigners
  set_cosigners-eq-ok xpubs w h =
      let (e, f, t) = exec-eq-ok env _ w h in (ground (arith, e), ground (arith, e))

-- The tables after a first start, with the rows of the cosigners.
abbrev with_rows : AppParams → Db → List Cosigner → Db
with_rows params before rows = record before {
  configs = new_config params 1 ∷ before.configs;
  cosigners = rows;
  next_address_indices = new_index 1 ∷ before.next_address_indices;
}

-- The three writes together.
collect :
    (env : Env) (params : AppParams) (d0 d2 d3 d5 : Db) (i k : ℕ)
    → d2 ≡ record d0 { configs = new_config params i ∷ d0.configs }
    → d3 ≡ record d2 { cosigners = d3.cosigners }
    → d5 ≡ d3
    → i ≡ 1
    → k ≡ 1
    → record d5 { next_address_indices = new_index k ∷ d5.next_address_indices }
      ≡ with_rows params d0 d3.cosigners
collect env params d0 d2 d3 d5 i k e2 e3 e5 one first =
    ap (λ (d : Db). record d { next_address_indices = new_index k ∷ d.next_address_indices })
      (e5 ∙ e3)
    ∙ ap
        (λ (d : Db). record d {
          cosigners = d3.cosigners;
          next_address_indices = new_index k ∷ d.next_address_indices;
        })
        e2
    ∙ ap
        (λ n. record d0 {
          configs = new_config params n ∷ d0.configs;
          cosigners = d3.cosigners;
          next_address_indices = new_index k ∷ d0.next_address_indices;
        })
        one
    ∙ ap
        (λ n. record (with_rows params d0 d3.cosigners) {
          next_address_indices = new_index n ∷ d0.next_address_indices;
        })
        first

module _ (env : Env) (lawful : IsLawful env) where
  pub first_start-FirstStarted :
      (params : AppParams) (w : World) {rows : List Cosigner} {u : World}
      → count (λ c. true) w.db.configs ≡ 0
      → first_start env params w ≡ (ok rows, u)
      → ((p : Cosigner → Bool) → count p rows ≡ count p u.db.cosigners)
        × FirstStarted env params w.db u.db
  unfolding first_start
  first_start-FirstStarted params w {rows} {u} unconfigured h = >>=-run _ _ w h λ i w1 q1 h1.
      >>=-run _ _ w1 h1 λ _ w2 q2 h2. >>=-run _ _ w2 h2 λ j w3 q3 h3.
        >>=-run _ _ w3 h3 λ _ w4 q4 h4. >>=-run _ _ w4 h4 λ found w5 q5 h5.
          >>=-run _ _ w5 h5 λ k w6 q6 h6. >>=-run _ _ w6 h6 λ _ w7 q7 h7.
            let d1 = set_config-eq-ok env (new_config params) w q1 in
            let (e2, s2) = raise_if-eq-ok _ _ w1 q2 in
            let (d3, made) = set_cosigners-eq-ok env params.cosigner_xpubs w2 q3 in
            let (e4, s4) = raise_if-eq-ok _ _ w3 q4 in
            let (counts, d5) = iter_cosigners-eq-ok env lawful w4 q5 in
            let d6 = set_next_address_index-eq-ok env new_index w5 q6 in
            let (e7, s7) = raise_if-eq-ok _ _ w6 q7 in
            let (eq, s8) = pure-eq-ok found w7 h7 in
            let last = ap (λ (z : World). z.db) (s8 ∙ s7) ∙ d6 in
            let third = ap (λ (z : World). z.db) s2 ∙ d1 in
            let fifth = d5 ∙ ap (λ (z : World). z.db) s4 in
            let one : i ≡ 1 = ground arith in
            let first : k ≡ 1 = ground arith in
            let all_of : j ≡ length params.cosigner_xpubs = ground arith in
            let rows : u.db.cosigners ≡ w3.db.cosigners =
              ap (λ (d : Db). d.cosigners) last ∙ ap (λ (d : Db). d.cosigners) fifth in
            (
              λ p.
                  ap (count p) (sym eq)
                  ∙ counts p
                  ∙ ap (λ (d : Db). count p d.cosigners) (sym d5)
                  ∙ ap (λ (d : Db). count p d.cosigners) (sym last),
              record {
                no_config = unconfigured;
                tick = w2.tick;
                made =
                    sym (
                      ap
                        (λ (d : Db).
                          insert_cosigners env w2.tick params.cosigner_xpubs 0 d.cosigners)
                        third)
                    ∙ made
                    ∙ ap some (λ x. (all_of x, sym rows x));
                written =
                    last
                    ∙ collect env params w.db w2.db w3.db w5.db i k third d3 fifth one first
                    ∙ ap (λ l. with_rows params w.db l) (sym rows);
              },
            )

-- ===== src/Startup/Starting.antt =====
-- What a start of the hub that succeeds has found and done.
use rgb_multisig_hub.Base.{
  ℕ, ◌≡◌, ◌≢◌, refl, sym, ap, subst, ◌∙◌, ◌⊎◌, inl, inr, String, Bool, true, Option, none, some,
  List, [], ◌∷◌, count, arith, head?, filter,
}
use rgb_multisig_hub.Errors.{AppError_from_db_err}
use rgb_multisig_hub.World.{Env, IsLawful, World, ok, Db, Config, Cosigner}
use rgb_multisig_hub.World.Inversion.{>>=-run, pure-eq-ok, query-eq-ok}
use rgb_multisig_hub.World.Atomic.{ReadOnly, ReadOnly-run, read_only_rules}
use rgb_multisig_hub.Database.{get_config}
use rgb_multisig_hub.Database.Answers.{one-none, one-some}
use rgb_multisig_hub.State.{AppState}
use rgb_multisig_hub.Startup.{
  AppParams, same_xpubs, xpubs_of, load_cosigners, prepare, state_of, start_daemon,
}
use rgb_multisig_hub.Startup.Outcomes.{Restarted, FirstStarted, Started}
use rgb_multisig_hub.Startup.Writes.{check_restart-Restarted, first_start-FirstStarted}

module _ (env : Env) (lawful : IsLawful env) where
  load_cosigners-how :
      (params : AppParams) (tick : ℕ) (found : Option Config) (w : World) {rows : List Cosigner}
      {u : World}
      → head? (filter (λ c. true) (env.scan Config tick w.db.configs)) ≡ found
      → load_cosigners env params found w ≡ (ok rows, u)
      → ((p : Cosigner → Bool) → count p rows ≡ count p u.db.cosigners)
        × (Restarted params rows w.db u.db ⊎ FirstStarted env params w.db u.db)
  unfolding load_cosigners
  load_cosigners-how params tick none w answer h =
      let (counts, first) =
        first_start-FirstStarted env lawful params w
          (one-none env lawful tick (λ c. true) w.db.configs answer) h in
      (counts, inr first)
  load_cosigners-how params tick (some config) w answer h =
      let (p, there) = one-some env lawful tick (λ c. true) w.db.configs config answer in
      let (counts, again) = check_restart-Restarted env lawful params config w there h in
      (counts, inl again)

  ReadOnly-prepare : ReadOnly (prepare env)
  unfolding prepare
  ReadOnly-prepare = search read_only_rules

  -- With dependencies that do as documented, a start that succeeds makes a state that has the given
  -- thresholds and, in both maps, the cosigners of the database. Either the database had a
  -- configuration with the same thresholds and the same xPubs, and the tables are unchanged; or it
  -- had none, and has now the given one and address indices at zero, with the operations and their
  -- entries as they were.
  pub start_daemon-Started :
      (params : AppParams) (w : World) {state : AppState} {u : World}
      → start_daemon env params w ≡ (ok state, u)
      → Started env params state w.db u.db
  unfolding start_daemon get_config
  start_daemon-Started params w {state} {u} h = >>=-run _ _ w h λ _ w1 q1 h1.
      >>=-run _ _ w1 h1 λ found w2 q2 h2. >>=-run _ _ w2 h2 λ rows w3 q3 h3.
        let d1 = ReadOnly-run ReadOnly-prepare q1 in
        let (answer, s2) = query-eq-ok env _ w1 q2 in
        let d2 : w2.db ≡ w1.db = ap (λ (z : World). z.db) s2 in
        let (counts, how) =
          load_cosigners-how params w1.tick found w2
            (ap (λ (d : Db). head? (filter (λ c. true) (env.scan Config w1.tick d.configs))) d2
              ∙ answer)
            q3 in
        let (eq, s4) = pure-eq-ok _ w3 h3 in
        let last : w3.db ≡ u.db = sym (ap (λ (z : World). z.db) s4) in
        subst (λ s. Started env params s w.db u.db) eq
          (subst (λ d. Started env params (state_of params rows) d u.db) (d2 ∙ d1)
            (subst (λ d. Started env params (state_of params rows) w2.db d) last
              (record {
                rows = rows;
                all_rows = counts;
                by_xpub = refl;
                by_idx = refl;
                colored = refl;
                vanilla = refl;
                how = how;
              })))

no_rows : {A : Type 0} (rows : List A) → count (λ c. true) rows ≡ 0 → rows ≡ []
no_rows [] h = refl
no_rows (x ∷ rows) h = absurd (omega arith)

module _ (env : Env) (lawful : IsLawful env) where
  -- With dependencies that do as documented: where the database has a configuration and no cosigners,
  -- as after a first start that failed between its two writes, no start for some cosigners succeeds.
  pub start_daemon-stuck :
      (params : AppParams) (w : World) (config : Config) (xpub : String) (xpubs : List String)
      → w.db.configs ≡ config ∷ []
      → w.db.cosigners ≡ []
      → params.cosigner_xpubs ≡ xpub ∷ xpubs
      → (state : AppState) (u : World) → start_daemon env params w ≢ (ok state, u)
  start_daemon-stuck params w config xpub xpubs configured empty some_xpubs state u h =
      elim started.how [
        | inl again ↦
            let none_left : started.rows ≡ [] = no_rows started.rows (
              started.all_rows (λ c. true)
              ∙ ap (λ (d : Db). count (λ c. true) d.cosigners) again.unchanged
              ∙ ap (count (λ c. true)) empty) in
            let same : same_xpubs [] (xpub ∷ xpubs) ≡ true =
              sym (ap (λ r. same_xpubs (xpubs_of r) (xpub ∷ xpubs)) none_left)
              ∙ sym (ap (same_xpubs (xpubs_of started.rows)) some_xpubs)
              ∙ again.xpubs in
            cc
        | inr first ↦
            absurd (omega (arith, sym (ap (count (λ c. true)) configured) ∙ first.no_config))
      ]
    where
      started : Started env params state w.db u.db
      started = start_daemon-Started env lawful params w h

-- ===== src/Startup/Configured.antt =====
-- A first start of src/startup.rs makes a hub of which Hub/Reach tells what any requests lead to.
use rgb_multisig_hub.Base.{
  ℕ, ◌+◌, ◌≤◌, ◌<◌, ◌≡◌, refl, sym, ap, subst, ◌∙◌, inl, inr, String, true, some, List, [], ◌∷◌,
  map, ◌==◌, count, count-map, length, Elem, arith, Bool-cases,
}
use rgb_multisig_hub.World.{Env, IsLawful, World, ok, Db, Cosigner}
use rgb_multisig_hub.Database.{insert_cosigners, has_xpub}
use rgb_multisig_hub.Database.Rows.{cosigner_has_idx}
use rgb_multisig_hub.Database.Effects.{fresh_unused}
use rgb_multisig_hub.State.{AppState}
use rgb_multisig_hub.Startup.{AppParams, start_daemon}
use rgb_multisig_hub.Startup.Outcomes.{Started, FirstStarted}
use rgb_multisig_hub.Startup.Starting.{start_daemon-Started}
use rgb_multisig_hub.Hub.Settled.{IsConfigured, IsConsistent}
use rgb_multisig_hub.Hub.Requests.{Reach}
use rgb_multisig_hub.Hub.Reach.{Reach-IsConsistent}

-- What the startup checks of the parameters, and that there are at most 255 cosigners.
pub record IsValid (params : AppParams) : Type 0 where
  pub few : length params.cosigner_xpubs ≤ 255
  pub vanilla_pos : 0 < params.threshold_vanilla
  pub vanilla_reachable : params.threshold_vanilla ≤ length params.cosigner_xpubs
  pub colored_pos : 0 < params.threshold_colored
  pub colored_reachable : params.threshold_colored ≤ length params.cosigner_xpubs

length_count : {A : Type 0} (xs : List A) → length xs ≡ count (λ x. true) xs
length_count [] = refl
length_count (x ∷ xs) = omega (arith, length_count xs)

length-map : {A B : Type 0} (f : A → B) (xs : List A) → length (map f xs) ≡ length xs
length-map f [] = refl
length-map f (x ∷ xs) = omega (arith, length-map f xs)

module _ (env : Env) (lawful : IsLawful env) where
  -- Every xPub gets a row, under a key of its own.
  insert_cosigners_lem :
      (tick : ℕ) (xpubs : List String) (last : ℕ) (rows : List Cosigner) {i : ℕ}
      {after : List Cosigner}
      → insert_cosigners env tick xpubs last rows ≡ some (i, after)
      → ((k : ℕ) → count (cosigner_has_idx k) rows ≤ 1)
      → (length after ≡ length xpubs + length rows)
        × ((k : ℕ) → count (cosigner_has_idx k) after ≤ 1)
  unfolding insert_cosigners
  insert_cosigners_lem tick [] last rows {i} {after} h unique =
      let same : rows ≡ after = ground arith in
      (
        rw (← same) (omega arith),
        subst (λ l. (k : ℕ) → count (cosigner_has_idx k) l ≤ 1) same unique,
      )
  insert_cosigners_lem tick (xpub ∷ xpubs) last rows {i} {after} h unique =
      elim (Bool-cases (has_xpub xpub rows)) [
        | inl taken ↦ absurd (ground arith)
        | inr free ↦
            let idx = env.fresh tick (map (λ (r : Cosigner). r.idx) rows) in
            let new = fresh_unused env lawful (λ (r : Cosigner). r.idx) tick rows in
            let (size, keys) =
              insert_cosigners_lem tick xpubs idx (record { idx = idx; xpub = xpub } ∷ rows)
                (rw free at h) (λ k. ground (arith, unique k)) in
            (omega (arith, size), keys)
      ]

  -- The state that is made of the rows of a first start.
  first_start-rows :
      (params : AppParams) (state : AppState) (before after : Db)
      → before.cosigners ≡ []
      → (s : Started env params state before after) → FirstStarted env params before after
      → (length s.rows ≡ length params.cosigner_xpubs)
        × ((k : ℕ) → count (cosigner_has_idx k) s.rows ≤ 1)
  first_start-rows params state before after empty s first =
      let made =
        sym (ap (insert_cosigners env first.tick params.cosigner_xpubs 0) empty) ∙ first.made in
      let (size, keys) =
        insert_cosigners_lem first.tick params.cosigner_xpubs 0 [] made (λ k. omega arith) in
      (
        length_count s.rows
            ∙ s.all_rows (λ c. true)
            ∙ sym (length_count after.cosigners)
            ∙ size
            ∙ omega arith,
        λ k. rw (s.all_rows (cosigner_has_idx k)) (keys k),
      )

  Started-IsConfigured :
      (params : AppParams) (state : AppState) (before after : Db)
      → IsValid params
      → before.cosigners ≡ []
      → Started env params state before after
      → FirstStarted env params before after
      → IsConfigured state
  Started-IsConfigured params state before after valid empty s first =
      let (size, keys) = first_start-rows params state before after empty s first in
      let n : length state.cosigners_by_idx ≡ length params.cosigner_xpubs =
        ap length s.by_idx ∙ length-map _ s.rows ∙ size in
      let m : length state.cosigners_by_xpub ≡ length params.cosigner_xpubs =
        ap length s.by_xpub ∙ length-map _ s.rows ∙ size in
      record {
        same_size = m ∙ sym n;
        few = omega (arith, valid.few);
        vanilla_pos = omega (arith, valid.vanilla_pos, s.vanilla);
        vanilla_reachable = omega (arith, valid.vanilla_reachable, s.vanilla);
        colored_pos = omega (arith, valid.colored_pos, s.colored);
        colored_reachable = omega (arith, valid.colored_reachable, s.colored);
        distinct = λ c.
            rw
              (
                s.by_idx,
                count-map (λ (p : ℕ × String). p.0 == c) (λ (r : Cosigner). (r.idx, r.xpub)) s.rows,
              )
              (keys c);
      }

  -- With dependencies that do as documented: let the parameters have thresholds that are positive and
  -- at most the number of cosigners, which is at most 255, and let the hub start successfully on a
  -- database without configuration, cosigners, operations or entries. Then, after any sequence of
  -- requests, whatever their outcomes, its tables are consistent.
  pub first_start-IsConsistent :
      (params : AppParams) (w : World) (state : AppState) (u v : World)
      → IsValid params
      → w.db.configs ≡ []
      → w.db.cosigners ≡ []
      → w.db.operations ≡ []
      → w.db.statuses ≡ []
      → start_daemon env params w ≡ (ok state, u)
      → Reach env state u v
      → IsConsistent state v.db
  first_start-IsConsistent params w state u v valid no_configs no_cosigners no_operations
        no_statuses h reached =
      elim started.how [
        | inl again ↦ absurd (subst (Elem again.config) no_configs again.configured)
        | inr first ↦
            Reach-IsConsistent env lawful state
              (Started-IsConfigured params state w.db u.db valid no_cosigners started first) u
              (ap (λ (d : Db). d.operations) first.written ∙ no_operations)
              (ap (λ (d : Db). d.statuses) first.written ∙ no_statuses) v reached
      ]
    where
      started : Started env params state w.db u.db
      started = start_daemon-Started env lawful params w h

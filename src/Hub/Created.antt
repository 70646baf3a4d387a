-- ===== src/Hub/Created.antt =====
-- The entries that `post_operation` of src/routes.rs creates.
use rgb_multisig_hub.Base.{
  ℕ, ◌+◌, ◌≤◌, ◌≡◌, refl, sym, ap, subst, ◌∙◌, String, Bool, List, [], ◌∷◌, count, arith,
}
use rgb_multisig_hub.World.{Env, IsLawful, World, ok, CosignerOpStatus, Db}
use rgb_multisig_hub.World.Inversion.{>>=-eq-ok, pure-eq-ok}
use rgb_multisig_hub.Database.Rows.{status_has_idx}
use rgb_multisig_hub.Database.{set_cosigner_op_status}
use rgb_multisig_hub.Database.Effects.{set_cosigner_op_status-eq-ok}
use rgb_multisig_hub.State.{AppState}
use rgb_multisig_hub.Routes.Post.Save.{new_cosigner_op_status, create_statuses}

-- The second table is the first with an entry of operation `i` for each cosigner, under new keys.
pub data Created (i : ℕ)
    : List (ℕ × String) → List CosignerOpStatus → List CosignerOpStatus → Type 0 where
  done : {s : List CosignerOpStatus} → Created i [] s s
  next :
      (k c : ℕ) (x : String) {cs : List (ℕ × String)} {s t : List CosignerOpStatus}
      → count (status_has_idx k) s ≡ 0
      → Created i cs (new_cosigner_op_status i c k ∷ s) t
      → Created i ((c, x) ∷ cs) s t

-- A test that sees of a new entry only its cosigner.
pub count-Created :
    {i : ℕ} (q : CosignerOpStatus → Bool) (g : ℕ → Bool)
    → ((c k : ℕ) → q (new_cosigner_op_status i c k) ≡ g c)
    → {cs : List (ℕ × String)} {s t : List CosignerOpStatus} → Created i cs s t
    → count q t ≡ count (λ p. g p.0) cs + count q s
count-Created q g h done = omega arith
count-Created {i} q g h (next k c x {cs} {s} {t} unused rest) =
    let ih = count-Created q g h rest in let e = h c k in rw ih (rw e (omega arith))

pub unique-Created :
    {i : ℕ} {cs : List (ℕ × String)} {s t : List CosignerOpStatus}
    → Created i cs s t
    → ((k : ℕ) → count (status_has_idx k) s ≤ 1)
    → (k : ℕ) → count (status_has_idx k) t ≤ 1
unique-Created done u k = u k
unique-Created (next j c x {cs} {s} {t} unused rest) u k =
    unique-Created rest (λ m. ground (arith, u m)) k

module _ (env : Env) (lawful : IsLawful env) (state : AppState) where
  pub create_statuses-Created :
      (i : ℕ) (cs : List (ℕ × String)) (w : World) {a : Unit {0}} {u : World}
      → create_statuses env state i cs w ≡ (ok a, u)
      → (u.db ≡ record w.db { statuses = u.db.statuses }) × Created i cs w.db.statuses u.db.statuses
  unfolding create_statuses
  create_statuses-Created i [] w {a} {u} h =
      subst
        (λ z.
          (z.db ≡ record w.db { statuses = z.db.statuses })
          × Created i [] w.db.statuses z.db.statuses)
        (sym (pure-eq-ok tt w h).1) (refl, done)
  create_statuses-Created i ((c, x) ∷ cs) w {a} {u} h =
      let (k, v, saved, rest) =
        >>=-eq-ok (set_cosigner_op_status env (new_cosigner_op_status i c))
          (λ _. create_statuses env state i cs) w h in
      let (unused, e) =
        set_cosigner_op_status-eq-ok env lawful (new_cosigner_op_status i c) w saved in
      let (same, created) = create_statuses-Created i cs v rest in
      (
        same ∙ ap (λ (d : Db). record d { statuses = u.db.statuses }) e,
        next k c x unused
            (subst (λ s. Created i cs s u.db.statuses) (ap (λ (d : Db). d.statuses) e) created),
      )

-- ===== src/Auth/Tokens.antt =====
-- Whom the middleware of src/auth.rs lets through.
use rgb_multisig_hub.Base.{
  ℕ, ◌≡◌, refl, sym, ap, subst, ◌∙◌, inl, inr, String, str_eq, Bool, true, false, not, ◌&&◌, Option,
  none, some, arith, Bool-cases, eq_iff,
}
use mathlib.Core.Option
use rgb_multisig_hub.World.{World, ok}
use rgb_multisig_hub.World.Inversion.{>>=-run, pure-eq-ok, ok_or-eq-ok, raise_if-eq-ok}
use rgb_multisig_hub.State.{AppState, get_idx}
use rgb_multisig_hub.Auth.{
  AuthenticatedCosigner, AuthenticatedUser, cosigner, watch_only, Biscuit, is_watch_only_allowed,
  bearer, first_of, user_of, is_watch_only, is_token_expired, authenticate,
}

-- What a token with this role and this xPub makes of its bearer: a cosigner of the configuration, whose
-- xPub and role it states, under the index of the configuration; or a watch-only user, whose role it
-- states, without an xPub, on a path that is open to them.
abbrev pub Known : AppState → String → String → Option String → AuthenticatedUser → Type 0
Known state path role xpub (cosigner c) =
    (role ≡ "cosigner")
    × (xpub ≡ some c.xpub)
    × (get_idx c.xpub state.cosigners_by_xpub ≡ some c.idx)
Known state path role xpub watch_only =
    (role ≡ "watch-only") × (xpub ≡ none) × (is_watch_only_allowed path ≡ true)

-- The header carries a token that the root key verifies and that is allowed now, and the user is the
-- one that the role and the xPub of this token call for.
pub record Authenticated (biscuit : Biscuit) (state : AppState) (key : biscuit.PublicKey)
    (header : Option String) (path : String) (user : AuthenticatedUser) (w : World) : Type 0 where
  pub text : String
  pub token : biscuit.Token
  pub role : String
  pub carried : bearer header ≡ some text
  pub verified : biscuit.from_base64 text key ≡ some token
  pub allowed : biscuit.allows_now w.tick token ≡ true
  pub stated_role : first_of (biscuit.query_role token) ≡ some role
  pub known : Known state path role (first_of (biscuit.query_xpub token)) user

cosigner_of :
    (c : AuthenticatedCosigner) (xpub : String) (found : Option ℕ)
    → Option.map (λ idx. cosigner (record { xpub = xpub; idx = idx })) found ≡ some (cosigner c)
    → (c.xpub ≡ xpub) × (found ≡ some c.idx)
cosigner_of c xpub none h = cc
cosigner_of c xpub (some idx) h = ground arith

no_watch_only :
    (xpub : String) (found : Option ℕ)
    → Option.map (λ idx. cosigner (record { xpub = xpub; idx = idx })) found ≡ some watch_only
    → ⊥
no_watch_only xpub none h = cc
no_watch_only xpub (some idx) h = cc

user_of-Known :
    (state : AppState) (path role : String) (xpub : Option String) (user : AuthenticatedUser)
    → user_of state role xpub ≡ some user
    → (is_watch_only user && not (is_watch_only_allowed path)) ≡ false
    → Known state path role xpub user
unfolding user_of
user_of-Known state path role (some xpub) (cosigner c) h open_to =
    elim (Bool-cases (str_eq role "cosigner")) [
      | inl r ↦
          let (e, f) = cosigner_of c xpub (get_idx xpub state.cosigners_by_xpub) (rw r at h) in
          (
            (eq_iff role "cosigner").0 r,
            ap some (sym e),
            ap (λ x. get_idx x state.cosigners_by_xpub) e ∙ f,
          )
      | inr r ↦ absurd (ground arith)
    ]
user_of-Known state path role (some xpub) watch_only h open_to =
    elim (Bool-cases (str_eq role "cosigner")) [
      | inl r ↦ absurd (no_watch_only xpub (get_idx xpub state.cosigners_by_xpub) (rw r at h))
      | inr r ↦ absurd (ground arith)
    ]
user_of-Known state path role none (cosigner c) h open_to = absurd (ground arith)
user_of-Known state path role none watch_only h open_to =
    elim (Bool-cases (str_eq role "watch-only")) [
      | inl r ↦ ((eq_iff role "watch-only").0 r, refl, ground arith)
      | inr r ↦ absurd (ground arith)
    ]

module _ (biscuit : Biscuit) (state : AppState) (key : biscuit.PublicKey) where
  -- Whoever is let through has sent a token that the root key verifies and that has not expired. The
  -- user is the cosigner whose xPub the token states, with the role of a cosigner, under the index that
  -- the configuration has for this xPub; or a watch-only user, if the token states this role and no
  -- xPub, and the path is open to them. The world is as it was.
  pub authenticate-Authenticated :
      (header : Option String) (path : String) (w : World) {user : AuthenticatedUser} {u : World}
      → authenticate biscuit state key header path w ≡ (ok user, u)
      → Authenticated biscuit state key header path user w × (u ≡ w)
  unfolding authenticate is_token_expired
  authenticate-Authenticated header path w {user} {u} h = >>=-run _ _ w h λ text w1 q1 h1.
      >>=-run _ _ w1 h1 λ token w2 q2 h2. >>=-run _ _ w2 h2 λ expired w3 q3 h3.
        >>=-run _ _ w3 h3 λ _ w4 q4 h4. >>=-run _ _ w4 h4 λ _ w5 q5 h5.
          >>=-run _ _ w5 h5 λ role w6 q6 h6. >>=-run _ _ w6 h6 λ found w7 q7 h7.
            >>=-run _ _ w7 h7 λ _ w8 q8 h8.
              let (e1, s1) = ok_or-eq-ok _ _ w q1 in
              let (e2, s2) = ok_or-eq-ok _ _ w1 q2 in
              let (e4, s4) = raise_if-eq-ok _ _ w3 q4 in
              let (e5, s5) = raise_if-eq-ok _ _ w4 q5 in
              let (e6, s6) = ok_or-eq-ok _ _ w5 q6 in
              let (e7, s7) = ok_or-eq-ok _ _ w6 q7 in
              let (e8, s8) = raise_if-eq-ok _ _ w7 q8 in
              let (e9, s9) = pure-eq-ok found w8 h8 in
              let at_start : w2 ≡ w = s2 ∙ s1 in
              let asked : (not (biscuit.allows_now w2.tick token) ≡ expired) × (w3 ≡ w2) =
                ground arith in
              (
                record {
                  text = text;
                  token = token;
                  role = role;
                  carried = e1;
                  verified = e2;
                  allowed =
                      ap (λ (z : World). biscuit.allows_now z.tick token) (sym at_start)
                      ∙ not_false _ (asked.0 ∙ e4);
                  stated_role = e6;
                  known =
                      subst (Known state path role (first_of (biscuit.query_xpub token))) e9
                        (user_of-Known state path role _ found e7 e8);
                },
                s9 ∙ s8 ∙ s7 ∙ s6 ∙ s5 ∙ s4 ∙ asked.1 ∙ at_start,
              )
    where
      not_false : (b : Bool) → not b ≡ false → b ≡ true
      not_false true e = refl
      not_false false e = cc

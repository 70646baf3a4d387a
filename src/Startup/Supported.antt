-- ===== src/Startup/Supported.antt =====
-- Which versions of rgb-lib src/startup.rs accepts.
use Prim.Native.String.{◌++◌ as append}
use text.Mathlib.TextLemmas.{nil-append, cons-append}
use rgb_multisig_hub.Base.{
  ℕ, ◌<◌, ◌≤◌, ◌^◌, ◌≡◌, refl, sym, ap, subst, ◌∙◌, ◌↔◌, ◌⊎◌, inl, inr, String, Bool, false, Option,
  none, some, List, [], ◌∷◌, ◌==◌, ltb, arith, ◌&&◌, ◌||◌, Bool-cases,
}
use rgb_multisig_hub.Text.{split, parse_u32, decimal, scan_digits, digit_value}
use rgb_multisig_hub.Text.Decimal.{
  Lacks, split-append, split_whole, Lacks-decimal, parse_u32-decimal,
}
use rgb_multisig_hub.World.{World, ok, ok_or, pure, raise, ◌>>=◌}
use rgb_multisig_hub.World.Forward.{>>=-ok, raise_if-false}
use rgb_multisig_hub.World.Inversion.{>>=-run, pure-eq-ok, ok_or-eq-ok, raise_if-eq-ok}
use rgb_multisig_hub.Startup.Version.{
  min_rgb_lib_version, max_rgb_lib_version, parse_parts, parse_version, validate_rgb_lib_version,
}

some_inj : {A : Type 0} {a b : A} → some a ≡ some b → a ≡ b
some_inj h = cc

abbrev pub both : Option ℕ → Option ℕ → Option (ℕ × ℕ)
both (some a) (some b) = some (a, b)
both _ _ = none

abbrev pub numbers : List String → Option (ℕ × ℕ)
numbers (first ∷ second ∷ []) = both (parse_u32 first) (parse_u32 second)
numbers _ = none

-- The version that a text stands for: two numbers with a dot between them.
abbrev pub version_of : String → Option (ℕ × ℕ)
version_of text = numbers (split 46 text)

-- The order of versions: by the major number, and then by the minor one.
abbrev pub Precedes : ℕ × ℕ → ℕ × ℕ → Type 0
Precedes v w = (v.0 < w.0) ⊎ ((v.0 ≡ w.0) × (v.1 ≤ w.1))

both-eq-some : (a b : Option ℕ) {v : ℕ × ℕ} → both a b ≡ some v → (a ≡ some v.0) × (b ≡ some v.1)
both-eq-some (some a) (some b) h = ground arith
both-eq-some (some a) none h = cc
both-eq-some none (some b) h = cc
both-eq-some none none h = cc

parse_parts-numbers :
    (text : String) (parts : List String) {v : ℕ × ℕ} (w : World)
    → numbers parts ≡ some v
    → parse_parts text parts w ≡ (ok v, w)
unfolding parse_parts ok_or pure ◌>>=◌
parse_parts-numbers text [] w h = cc
parse_parts-numbers text (a ∷ []) w h = cc
parse_parts-numbers text (a ∷ b ∷ c ∷ cs) w h = cc
parse_parts-numbers text (a ∷ b ∷ []) w h =
    let (p, q) = both-eq-some (parse_u32 a) (parse_u32 b) h in
    rw (p, q, parse_parts, ok_or, pure, ◌>>=◌) refl

parse_parts-eq-ok :
    (text : String) (parts : List String) {v : ℕ × ℕ} (w : World) {u : World}
    → parse_parts text parts w ≡ (ok v, u)
    → numbers parts ≡ some v
unfolding parse_parts raise
parse_parts-eq-ok text [] w h = cc
parse_parts-eq-ok text (a ∷ []) w h = cc
parse_parts-eq-ok text (a ∷ b ∷ c ∷ cs) w h = cc
parse_parts-eq-ok text (a ∷ b ∷ []) w h = >>=-run _ _ w h λ major w1 q1 h1.
    >>=-run _ _ w1 h1 λ minor w2 q2 h2.
      let (p, s) = ok_or-eq-ok (parse_u32 a) _ w q1 in
      let (q, t) = ok_or-eq-ok (parse_u32 b) _ w1 q2 in
      let (e, r) = pure-eq-ok (major, minor) w2 h2 in rw (p, q) (ap some e)

parse_version-version_of :
    (text : String) {v : ℕ × ℕ} (w : World)
    → version_of text ≡ some v
    → parse_version text w ≡ (ok v, w)
unfolding parse_version
parse_version-version_of text w h = parse_parts-numbers text (split 46 text) w h

parse_version-eq-ok :
    (text : String) {v : ℕ × ℕ} (w : World) {u : World}
    → parse_version text w ≡ (ok v, u)
    → version_of text ≡ some v
unfolding parse_version
parse_version-eq-ok text w h = parse_parts-eq-ok text (split 46 text) w h

split_dotted :
    (a b : String) → Lacks 46 a → Lacks 46 b → split 46 (append a (append "." b)) ≡ a ∷ b ∷ []
split_dotted a b la lb =
    ap (λ t. split 46 (append a t))
      (cons-append "." String.[] b ∙ ap (λ t. String.◌∷◌ "." t) (nil-append b))
    ∙ split-append "." a b la
    ∙ ap (λ l. a ∷ l) (split_whole 46 b lb)

-- Two numbers below 2 ^ 32, printed in decimal with a dot between them, are read back as that version.
pub parse_version-append :
    (major minor : ℕ) (w : World)
    → major < 2 ^ 32
    → minor < 2 ^ 32
    → parse_version (append (decimal major) (append "." (decimal minor))) w ≡ (ok (major, minor), w)
parse_version-append major minor w h k = parse_version-version_of _ w (
    rw
      (
        split_dotted (decimal major) (decimal minor) (Lacks-decimal 46 major (omega arith))
            (Lacks-decimal 46 minor (omega arith)),
        parse_u32-decimal major h,
        parse_u32-decimal minor k,
      )
      refl)

abbrev below : ℕ × ℕ → ℕ × ℕ → Bool
below v l = ltb v.0 l.0 || v.0 == l.0 && ltb v.1 l.1

below-false : (v l : ℕ × ℕ) → below v l ≡ false → Precedes l v
below-false (a, b) (c, d) h = elim (Bool-cases (c == a)) [
  | inl e ↦ inr (ground arith)
  | inr e ↦ inl (ground arith)
]

below-Precedes : (v l : ℕ × ℕ) → Precedes l v → below v l ≡ false
below-Precedes (a, b) (c, d) (inl h) = ground arith
below-Precedes (a, b) (c, d) (inr h) = ground arith

abbrev above : ℕ × ℕ → ℕ × ℕ → Bool
above v h = ltb h.0 v.0 || v.0 == h.0 && ltb h.1 v.1

above-false : (v h : ℕ × ℕ) → above v h ≡ false → Precedes v h
above-false (a, b) (c, d) k = elim (Bool-cases (a == c)) [
  | inl e ↦ inr (ground arith)
  | inr e ↦ inl (ground arith)
]

above-Precedes : (v h : ℕ × ℕ) → Precedes v h → above v h ≡ false
above-Precedes (a, b) (c, d) (inl k) = ground arith
above-Precedes (a, b) (c, d) (inr k) = ground arith

-- A version between two others.
abbrev pub IsBetween : String → ℕ × ℕ → ℕ × ℕ → Type 0
IsBetween version l h = (v : ℕ × ℕ) × (version_of version ≡ some v) × Precedes l v × Precedes v h

module _ (version lo hi : String) {l h : ℕ × ℕ} (w : World) where
  validate-IsBetween :
      version_of lo ≡ some l
      → version_of hi ≡ some h
      → IsBetween version l h
      → validate_rgb_lib_version version lo hi w ≡ (ok tt, w)
  unfolding validate_rgb_lib_version
  validate-IsBetween el eh (v, ev, low, high) =
      >>=-ok _ _ w (parse_version-version_of version w ev)
      ∙ >>=-ok _ _ w (parse_version-version_of lo w el)
      ∙ >>=-ok _ _ w (parse_version-version_of hi w eh)
      ∙ >>=-ok _ _ w (raise_if-false (below v l) _ w (below-Precedes v l low))
      ∙ raise_if-false (above v h) _ w (above-Precedes v h high)

  validate-eq-ok :
      {u : World}
      → version_of lo ≡ some l
      → version_of hi ≡ some h
      → validate_rgb_lib_version version lo hi w ≡ (ok tt, u)
      → IsBetween version l h
  unfolding validate_rgb_lib_version
  validate-eq-ok el eh k = >>=-run _ _ w k λ v w1 q1 h1. >>=-run _ _ w1 h1 λ l' w2 q2 h2.
      >>=-run _ _ w2 h2 λ h' w3 q3 h3. >>=-run _ _ w3 h3 λ _ w4 q4 h4.
        let low : Precedes l' v = below-false v l' (raise_if-eq-ok _ _ w3 q4).0 in
        let high : Precedes v h' = above-false v h' (raise_if-eq-ok _ _ w4 h4).0 in
        let sl : l' ≡ l = some_inj (sym (parse_version-eq-ok lo w1 q2) ∙ el) in
        let sh : h' ≡ h = some_inj (sym (parse_version-eq-ok hi w2 q3) ∙ eh) in
        (
          v,
          parse_version-eq-ok version w q1,
          subst (λ z. Precedes z v) sl low,
          subst (λ z. Precedes v z) sh high,
        )

-- Let the two limits be versions. Then, and only then, is a text accepted, and the world left as it was,
-- if it is a version that is neither before the first nor after the second.
pub validate_rgb_lib_version_lem :
    (version lo hi : String) {l h : ℕ × ℕ} (w : World)
    → version_of lo ≡ some l
    → version_of hi ≡ some h
    → (validate_rgb_lib_version version lo hi w ≡ (ok tt, w)) ↔ IsBetween version l h
validate_rgb_lib_version_lem version lo hi w el eh =
    (validate-eq-ok version lo hi w el eh, validate-IsBetween version lo hi w el eh)

limit-version_of : version_of min_rgb_lib_version ≡ some (0, 3)
unfolding split parse_u32 scan_digits digit_value
limit-version_of = refl

-- Between the hub's own limits there is one version.
pub validate-hub :
    (version : String) (w : World) {u : World}
    → validate_rgb_lib_version version min_rgb_lib_version max_rgb_lib_version w ≡ (ok tt, u)
    → version_of version ≡ some (0, 3)
validate-hub version w k =
    let (v, e, low, high) = validate-eq-ok version _ _ w limit-version_of limit-version_of k in
    e ∙ ap some (only v low high)
  where
    only : (v : ℕ × ℕ) → Precedes (0, 3) v → Precedes v (0, 3) → v ≡ (0, 3)
    only (a, b) (inl p) (inl q) = absurd (omega arith)
    only (a, b) (inl p) (inr q) = absurd (omega arith)
    only (a, b) (inr p) (inl q) = absurd (omega arith)
    only (a, b) (inr p) (inr q) = ground arith

pub hub-validate :
    (version : String) (w : World)
    → version_of version ≡ some (0, 3)
    → validate_rgb_lib_version version min_rgb_lib_version max_rgb_lib_version w ≡ (ok tt, w)
hub-validate version w e =
    validate-IsBetween version _ _ w limit-version_of limit-version_of
      ((0, 3), e, inr (refl, omega arith), inr (refl, omega arith))

-- ===== src/Base/Lists.antt =====
-- Lists over the native numbers, under Boolean tests.
use Prim.Native.Nat.{ℕ, zero, suc, ◌+◌, ◌-◌, ◌≤◌, ◌<◌}
use mathlib.Core.Path.{◌≡◌, refl, ap}
use mathlib.Core.Bool.{Bool, true, false, ◌&&◌}
use mathlib.Core.List.{List, [], ◌∷◌, ◌++◌}
use mathlib.Core.Option.{Option, none, some}
use native.Mathlib.Omega.{arith}
use rgb_multisig_hub.Base.Tests.{if◌then◌else◌}

abbrev pub indicator : Bool → ℕ
indicator true = 1
indicator false = 0

module _ {ℓ} {A : Type ℓ} where
  abbrev pub length : List A → ℕ
  length [] = 0
  length (_ ∷ xs) = suc (length xs)

  -- How many elements pass a test.
  abbrev pub count : (A → Bool) → List A → ℕ
  count p [] = 0
  count p (x ∷ xs) = indicator (p x) + count p xs

  abbrev pub filter : (A → Bool) → List A → List A
  filter p [] = []
  filter p (x ∷ xs) = if p x then x ∷ filter p xs else filter p xs

  abbrev pub head? : List A → Option A
  head? [] = none
  head? (x ∷ _) = some x

  abbrev pub is_empty : List A → Bool
  is_empty [] = true
  is_empty (_ ∷ _) = false

  abbrev pub take : ℕ → List A → List A
  take zero xs = []
  take (suc n) [] = []
  take (suc n) (x ∷ xs) = x ∷ take n xs

  abbrev pub drop : ℕ → List A → List A
  drop zero xs = xs
  drop (suc n) [] = []
  drop (suc n) (x ∷ xs) = drop n xs

  -- Every element that passes the test is replaced.
  abbrev pub update_where : (A → Bool) → (A → A) → List A → List A
  update_where p f [] = []
  update_where p f (x ∷ xs) = (if p x then f x else x) ∷ update_where p f xs

  abbrev pub All {κ} : (A → Type κ) → List A → Type κ
  All P [] = Unit
  All P (x ∷ xs) = P x × All P xs

module _ {ℓ} {A : Type ℓ} where
  pub count-filter :
      (p q : A → Bool) (xs : List A) → count q (filter p xs) ≡ count (λ x. p x && q x) xs
  count-filter p q [] = refl
  count-filter p q (x ∷ xs) = ground (arith, count-filter p q xs)

  pub count-le-length : (p : A → Bool) (xs : List A) → count p xs ≤ length xs
  count-le-length p [] = omega arith
  count-le-length p (x ∷ xs) = ground (arith, count-le-length p xs)

  -- Two tests that never hold together.
  pub count_disjoint :
      (p q : A → Bool) (xs : List A)
      → ((x : A) → (p x && q x) ≡ false)
      → count p xs + count q xs ≤ length xs
  count_disjoint p q [] h = omega arith
  count_disjoint p q (x ∷ xs) h = ground (arith, h x, count_disjoint p q xs h)

  pub head?-filter_passes :
      (p : A → Bool) (x : A) (xs : List A) → head? (filter p xs) ≡ some x → p x ≡ true
  head?-filter_passes p x [] h = cc
  head?-filter_passes p x (y ∷ xs) h = ground (arith, head?-filter_passes p x xs)

  pub head?-filter-none : (p : A → Bool) (xs : List A) → head? (filter p xs) ≡ none → count p xs ≡ 0
  head?-filter-none p [] h = refl
  head?-filter-none p (y ∷ xs) h = ground (arith, head?-filter-none p xs)

  pub head?-filter_counted :
      (p q : A → Bool) (x : A) (xs : List A)
      → head? (filter p xs) ≡ some x
      → q x ≡ true
      → 0 < count (λ y. p y && q y) xs
  head?-filter_counted p q x [] h t = cc
  head?-filter_counted p q x (y ∷ xs) h t = ground (arith, head?-filter_counted p q x xs)

  pub take-append-drop : (n : ℕ) (xs : List A) → take n xs ++ drop n xs ≡ xs
  take-append-drop zero xs = refl
  take-append-drop (suc n) [] = refl
  take-append-drop (suc n) (x ∷ xs) = ap (λ r. x ∷ r) (take-append-drop n xs)

  pub length-drop : (n : ℕ) (xs : List A) → length (drop n xs) ≡ length xs - n
  length-drop zero xs = omega arith
  length-drop (suc n) [] = omega arith
  length-drop (suc n) (x ∷ xs) = omega (arith, length-drop n xs)

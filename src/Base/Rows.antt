-- ===== src/Base/Rows.antt =====
-- Lists as tables: membership, unique keys, and the update of a row.
use Prim.Native.Nat.{◌+◌, ◌≤◌, ◌<◌}
use mathlib.Core.Path.{◌≡◌, refl, sym, ap, subst, ◌∙◌}
use mathlib.Core.Bool.{Bool, true, false}
use mathlib.Core.Logic.{◌⊎◌, ◌↔◌, inl, inr}
use mathlib.Core.List.{List, [], ◌∷◌, map}
use mathlib.Core.Option.{some}
use native.Mathlib.Omega.{arith}
use rgb_multisig_hub.Base.Tests.{if◌then◌else◌, Bool-cases}
use rgb_multisig_hub.Base.Lists.{indicator, count, filter, head?, update_where, All}

-- Types of rows are small, so tables and their predicates are too.
module _ {A : Type 0} where
  abbrev pub Elem : A → List A → Type 0
  Elem x [] = ⊥
  Elem x (y ∷ ys) = (x ≡ y) ⊎ Elem x ys

module _ {A : Type 0} where
  pub count_of_Elem : (p : A → Bool) (x : A) (xs : List A) → Elem x xs → p x ≡ true → 0 < count p xs
  count_of_Elem p x [] e h = absurd e
  count_of_Elem p x (y ∷ xs) (inl e) h = rw (← e, h) (omega arith)
  count_of_Elem p x (y ∷ xs) (inr e) h = omega (arith, count_of_Elem p x xs e h)

  pub head?-filter-Elem :
      (p : A → Bool) (x : A) (xs : List A) → head? (filter p xs) ≡ some x → Elem x xs
  head?-filter-Elem p x [] h = cc
  head?-filter-Elem p x (y ∷ xs) h = elim (Bool-cases (p y)) [
    | inl e ↦ inl (ground arith)
    | inr e ↦ inr (head?-filter-Elem p x xs (ground arith))
  ]

  -- A test that one row passes at most tells rows apart.
  pub eq_of_unique :
      (p : A → Bool) (x y : A) (xs : List A)
      → Elem x xs
      → Elem y xs
      → p x ≡ true
      → p y ≡ true
      → count p xs ≤ 1
      → x ≡ y
  eq_of_unique p x y [] ex ey px py u = absurd ex
  eq_of_unique p x y (z ∷ xs) (inl ex) (inl ey) px py u = ex ∙ sym ey
  eq_of_unique p x y (z ∷ xs) (inl ex) (inr ey) px py u =
      absurd (let pz : p z ≡ true = rw (← ex) px in ground (arith, count_of_Elem p y xs ey py))
  eq_of_unique p x y (z ∷ xs) (inr ex) (inl ey) px py u =
      absurd (let pz : p z ≡ true = rw (← ey) py in ground (arith, count_of_Elem p x xs ex px))
  eq_of_unique p x y (z ∷ xs) (inr ex) (inr ey) px py u =
      eq_of_unique p x y xs ex ey px py (ground arith)

  pub update_where_none :
      (p : A → Bool) (f : A → A) (xs : List A) → count p xs ≡ 0 → update_where p f xs ≡ xs
  update_where_none p f [] h = refl
  update_where_none p f (x ∷ xs) h = ground (arith, update_where_none p f xs)

  -- An update of the one row with a key moves the count of any test by what that row changes.
  pub count-update_where :
      (p q : A → Bool) (f : A → A) (x : A) (xs : List A)
      → Elem x xs
      → p x ≡ true
      → count p xs ≤ 1
      → count q (update_where p f xs) + indicator (q x) ≡ count q xs + indicator (q (f x))
  count-update_where p q f x [] e px u = absurd e
  count-update_where p q f x (y ∷ xs) (inl e) px u =
      subst
        (λ z.
          count q (update_where p f (z ∷ xs)) + indicator (q x)
          ≡ count q (z ∷ xs) + indicator (q (f x)))
        e (rw (px, update_where_none p f xs (ground arith)) (omega arith))
  count-update_where p q f x (y ∷ xs) (inr e) px u = elim (Bool-cases (p y)) [
    | inl py ↦ absurd (ground (arith, count_of_Elem p x xs e px))
    | inr py ↦ rw py (omega (arith, count-update_where p q f x xs e px (ground arith)))
  ]

  pub All_of_Elem : (P : A → Type 0) (x : A) (xs : List A) → All P xs → Elem x xs → P x
  All_of_Elem P x [] h e = absurd e
  All_of_Elem P x (y ∷ xs) h (inl e) = subst P (sym e) h.0
  All_of_Elem P x (y ∷ xs) h (inr e) = All_of_Elem P x xs h.1 e

  pub All-imp :
      (P Q : A → Type 0) (xs : List A) → ((x : A) → Elem x xs → P x → Q x) → All P xs → All Q xs
  All-imp P Q [] imp h = tt
  All-imp P Q (x ∷ xs) imp h = (imp x (inl refl) h.0, All-imp P Q xs (λ y e. imp y (inr e)) h.1)

  pub All-update_where :
      (P Q : A → Type 0) (p : A → Bool) (f : A → A) (xs : List A)
      → ((x : A) → Elem x xs → P x → p x ≡ true → Q (f x))
      → ((x : A) → Elem x xs → P x → p x ≡ false → Q x)
      → All P xs
      → All Q (update_where p f xs)
  All-update_where P Q p f [] hit miss h = tt
  All-update_where P Q p f (x ∷ xs) hit miss h = (
    branch (p x) refl,
    All-update_where P Q p f xs (λ y e. hit y (inr e)) (λ y e. miss y (inr e)) h.1,
  )
    where
      branch : (b : Bool) → p x ≡ b → Q (if p x then f x else x)
      branch true e = rw e (hit x (inl refl) h.0 e)
      branch false e = rw e (miss x (inl refl) h.0 e)

  pub count_ext : (p q : A → Bool) (xs : List A) → ((x : A) → p x ≡ q x) → count p xs ≡ count q xs
  count_ext p q [] h = refl
  count_ext p q (x ∷ xs) h = rw (h x, count_ext p q xs h)

  pub count_mono :
      (p q : A → Bool) (xs : List A) → ((x : A) → p x ≡ true → q x ≡ true) → count p xs ≤ count q xs
  count_mono p q [] h = omega arith
  count_mono p q (x ∷ xs) h = ground (arith, h x, count_mono p q xs h)

module _ {A B : Type 0} where
  pub count-map :
      (p : B → Bool) (f : A → B) (xs : List A) → count p (map f xs) ≡ count (λ x. p (f x)) xs
  count-map p f [] = refl
  count-map p f (x ∷ xs) = rw (count-map p f xs)

module _ {A : Type 0} where
  -- An update that a test does not see leaves its count alone.
  pub count-update_where_same :
      (p q : A → Bool) (f : A → A) (xs : List A)
      → ((x : A) → q (f x) ≡ q x)
      → count q (update_where p f xs) ≡ count q xs
  count-update_where_same p q f [] h = refl
  count-update_where_same p q f (x ∷ xs) h = ground (arith, h x, count-update_where_same p q f xs h)

  -- A row that an update does not mean stays.
  pub Elem-update_where :
      (p : A → Bool) (f : A → A) (x : A) (xs : List A)
      → p x ≡ false
      → Elem x xs
      → Elem x (update_where p f xs)
  Elem-update_where p f x [] away e = absurd e
  Elem-update_where p f x (y ∷ xs) away (inl e) = inl (rw (← e, away) refl)
  Elem-update_where p f x (y ∷ xs) away (inr e) = inr (Elem-update_where p f x xs away e)

-- A row that a test counts.
pub Elem-of_count :
    {A : Type 0} (p : A → Bool) (xs : List A) → 0 < count p xs → (x : A) × Elem x xs × (p x ≡ true)
Elem-of_count p [] h = absurd (omega arith)
Elem-of_count p (x ∷ xs) h = elim (Bool-cases (p x)) [
  | inl e ↦ (x, inl refl, e)
  | inr e ↦ let (y, there, passes) = Elem-of_count p xs (ground arith) in (y, inr there, passes)
]

-- What a filter leaves.
pub filter-Elem :
    {A : Type 0} (p : A → Bool) (x : A) (xs : List A)
    → Elem x (filter p xs) ↔ (Elem x xs × (p x ≡ true))
filter-Elem p x [] = (λ h. absurd h, λ h. h.0)
filter-Elem p x (y ∷ xs) =
    let (into, back) = filter-Elem p x xs in
    elim (Bool-cases (p y)) [
      | inl e ↦ rw e (
        λ h. elim h [
          | inl same ↦ (inl same, ap p same ∙ e)
          | inr there ↦ let (a, b) = into there in (inr a, b)
        ],
        λ h. elim (h.0) [ inl same ↦ inl same | inr there ↦ inr (back (there, h.1)) ],
      )
      | inr e ↦ rw e (
        λ h. let (a, b) = into h in (inr a, b),
        λ h. elim (h.0) [
          | inl same ↦ absurd (ground (arith, e, sym (ap p same) ∙ h.1))
          | inr there ↦ back (there, h.1)
        ],
      )
    ]

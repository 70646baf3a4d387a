-- ===== src/Routes/Voters.antt =====
-- Who has voted, as `get_operation_by_idx_with_files` of src/routes.rs lists it.
use rgb_multisig_hub.Base.{
  ℕ, ◌≡◌, refl, sym, ap, subst, ◌∙◌, ◌⊎◌, inl, inr, ◌↔◌, String, str_eq, eq_iff, Bool, true, false,
  Option, none, some, List, [], ◌∷◌, arith, Elem, Bool-cases,
}
use rgb_multisig_hub.Errors.{ApiError_from_db_err}
use rgb_multisig_hub.World.{Cosigner, CosignerOpStatus, Db}
use rgb_multisig_hub.Routes.Lookup.{contains, set_insert, same_vote, voters}

-- A cosigner under this xPub has an entry of the operation with this vote.
pub record Voted (vote : Bool) (i : ℕ) (db : Db) (xpub : String) : Type 0 where
  pub entry : CosignerOpStatus
  pub voter : Cosigner
  pub in_statuses : Elem entry db.statuses
  pub in_cosigners : Elem voter db.cosigners
  pub of_operation : entry.operation_idx ≡ i
  pub vote_is : entry.ack ≡ some vote
  pub voter_idx : voter.idx ≡ entry.cosigner_idx
  pub voter_xpub : voter.xpub ≡ xpub

abbrev pub Pair : Type 0
Pair = CosignerOpStatus × Cosigner

contains-Elem : (x : String) (xs : List String) → contains x xs ≡ true → Elem x xs
contains-Elem x [] h = cc
contains-Elem x (y ∷ xs) h = elim (Bool-cases (str_eq y x)) [
  | inl e ↦ inl (sym ((eq_iff y x).0 e))
  | inr e ↦ inr (contains-Elem x xs (ground arith))
]

set_insert-Elem :
    (x y : String) (xs : List String) → Elem x (set_insert y xs) ↔ ((x ≡ y) ⊎ Elem x xs)
set_insert-Elem x y xs = elim (Bool-cases (contains y xs)) [
  | inl e ↦ rw e (
    (λ h. inr h),
    λ h. elim h [
      | inl same ↦ subst (λ z. Elem z xs) (sym same) (contains-Elem y xs e)
      | inr there ↦ there
    ],
  )
  | inr e ↦ rw e ((λ h. h), λ h. h)
]

pub same_vote-some : (v : Bool) (o : Option Bool) → same_vote v o ≡ true → o ≡ some v
same_vote-some v none h = cc
same_vote-some true (some true) h = refl
same_vote-some true (some false) h = cc
same_vote-some false (some true) h = cc
same_vote-some false (some false) h = refl

pub some-same_vote : (v : Bool) (o : Option Bool) → o ≡ some v → same_vote v o ≡ true
some-same_vote true o h = rw h refl
some-same_vote false o h = rw h refl

-- The pairs that a vote is read from.
abbrev pub Reads : Bool → String → List Pair → Type 0
Reads v x pairs =
    (s : CosignerOpStatus) × (c : Cosigner) × (Elem (s, c) pairs) × (s.ack ≡ some v) × (x ≡ c.xpub)

pub voters-Elem :
    (v : Bool) (x : String) (pairs : List Pair) → Elem x (voters v pairs) ↔ Reads v x pairs
unfolding voters
voters-Elem v x [] = (λ h. absurd h, λ r. let (s, c, p, q, same) = r in absurd p)
voters-Elem v x ((s, c) ∷ pairs) =
    let (into, back) = voters-Elem v x pairs in
    elim (Bool-cases (same_vote v s.ack)) [
      | inl e ↦
          let (there, here) = set_insert-Elem x c.xpub (voters v pairs) in
          rw e (
            λ h. elim (there h) [
              | inl same ↦ (s, c, inl refl, same_vote-some v s.ack e, same)
              | inr h ↦ let (s', c', p, q, r) = into h in (s', c', inr p, q, r)
            ],
            λ r.
                let (s', c', p, q, r) = r in
                elim p [
                  | inl same ↦ here (inl (r ∙ ap (λ (z : Pair). z.1.xpub) same))
                  | inr p ↦ here (inr (back (s', c', p, q, r)))
                ],
          )
      | inr e ↦ rw e (
        λ h. let (s', c', p, q, r) = into h in (s', c', inr p, q, r),
        λ r.
            let (s', c', p, q, r) = r in
            elim p [
              | inl same ↦ absurd (
                  ground
                    (arith, e, some-same_vote v s.ack (ap (λ (z : Pair). z.0.ack) (sym same) ∙ q)))
              | inr p ↦ back (s', c', p, q, r)
            ],
      )
    ]

-- ===== src/Hub/Reservations.antt =====
-- No address is given out twice, whatever requests come between two reservations.
use rgb_multisig_hub.Base.{
  ℕ, ◌+◌, ◌≤◌, ◌≡◌, refl, ap, subst, ◌∙◌, Bool, true, false, List, [], ◌∷◌, arith,
}
use rgb_multisig_hub.Errors.{ApiError_from_db_err}
use rgb_multisig_hub.World.{Env, IsLawful, World, ok, Db, NextAddressIndex}
use rgb_multisig_hub.World.Keeps.{Keeps, Keeps-exec}
use rgb_multisig_hub.Database.{insert_transfer_status}
use rgb_multisig_hub.State.{AppState}
use rgb_multisig_hub.Auth.{AuthenticatedUser}
use rgb_multisig_hub.Routes.Addresses.{
  BumpAddressIndicesRequest, side, set_side, bump_address_indices,
}
use rgb_multisig_hub.Routes.Ranges.{Reserved, bump_address_indices-Reserved}
use rgb_multisig_hub.Routes.Atomicity.{bump_address_indices-Atomic}
use rgb_multisig_hub.Routes.Transfers.{TransferStatusRequest, transfer_status}
use rgb_multisig_hub.Hub.SideTables.{transfer_status-kept_part}
use rgb_multisig_hub.Hub.Induction.{Reach-aside}
use rgb_multisig_hub.Hub.Aside.{Rest}
use rgb_multisig_hub.Hub.Requests.{Reach, Atomic-elim}

abbrev indices : Db → List NextAddressIndex
indices db = db.next_address_indices

-- There is one row of next indices, and none of its two is below that of `row`.
pub record Advanced (row : NextAddressIndex) (db : Db) : Type 0 where
  pub now : NextAddressIndex
  pub single : db.next_address_indices ≡ now ∷ []
  pub grown : (s : Bool) → side s row ≤ side s now

Advanced-same :
    (row : NextAddressIndex) (db after : Db)
    → indices after ≡ indices db
    → Advanced row db
    → Advanced row after
Advanced-same row db after e a = record { now = a.now; single = e ∙ a.single; grown = a.grown }

side-set_side :
    (s i : Bool) (m : ℕ) (row : NextAddressIndex)
    → side i row ≤ m
    → side s row ≤ side s (set_side i m row)
side-set_side true true m row h = h
side-set_side true false m row h = omega arith
side-set_side false true m row h = omega arith
side-set_side false false m row h = h

side-same : (i : Bool) (m : ℕ) (row : NextAddressIndex) → side i (set_side i m row) ≡ m
side-same true m row = refl
side-same false m row = refl

Reserved-Advanced :
    (row : NextAddressIndex) (req : BumpAddressIndicesRequest) (before after : Db) {first : ℕ}
    (a : Advanced row before)
    → Reserved req a.now first before after
    → Advanced row after
Reserved-Advanced row req before after {first} a r = record {
  now = set_side req.internal (first + req.count) a.now;
  single = ap indices r.moved;
  grown = λ s.
      let up = side-set_side s req.internal (first + req.count) a.now (omega (arith, r.first_is)) in
      omega (arith, a.grown s, up);
}

module _ (env : Env) where
  transfer_status-indices :
      (state : AppState) (user : AuthenticatedUser) (req : TransferStatusRequest)
      → Keeps indices (transfer_status env state user req)
  unfolding insert_transfer_status
  transfer_status-indices state user req =
      transfer_status-kept_part indices env
        (λ row.
          Keeps-exec env ⦃from = ApiError_from_db_err⦄ indices _
            (λ tick db a after e. ground arith))
        state user req

module _ (env : Env) (lawful : IsLawful env) (state : AppState) (row : NextAddressIndex) where
  Reach-Advanced : (w u : World) → Reach env state w u → Advanced row w.db → Advanced row u.db
  Reach-Advanced =
      Reach-aside env state (Advanced row)
        (λ before after e. Advanced-same row before after (ap (λ (p : Rest). p.0) e))
        (λ req w a.
          Atomic-elim (bump_address_indices-Atomic env req) (Advanced row) w a λ first u e.
            Reserved-Advanced row req w.db u.db a
              (bump_address_indices-Reserved env lawful req a.now w a.single e))
        λ user req w. Advanced-same row w.db _ ((transfer_status-indices env state user req).kept w)

module _ (env : Env) (lawful : IsLawful env) (state : AppState) where
  -- With dependencies that do as documented: let one side's addresses be reserved twice successfully in
  -- tables with one row of next indices, whatever requests come between, with whatever outcomes. Then
  -- the second range starts at the end of the first or after it.
  pub reservations_disjoint :
      (row : NextAddressIndex) (req later : BumpAddressIndicesRequest) (w u v z : World)
      {first next : ℕ}
      → w.db.next_address_indices ≡ row ∷ []
      → bump_address_indices env req w ≡ (ok first, u)
      → Reach env state u v
      → bump_address_indices env later v ≡ (ok next, z)
      → req.internal ≡ later.internal
      → first + req.count ≤ next
  reservations_disjoint row req later w u v z {first} {next} single h between k same =
      let r = bump_address_indices-Reserved env lawful req row w single h in
      let end = set_side req.internal (first + req.count) row in
      let from : Advanced end u.db = record {
        now = end;
        single = ap indices r.moved;
        grown = λ s. omega arith;
      } in
      let a = Reach-Advanced env lawful state end u v between from in
      let q = bump_address_indices-Reserved env lawful later a.now v a.single k in
      let start : side req.internal end ≡ first + req.count = side-same req.internal _ row in
      let up = subst (λ s. side req.internal end ≤ side s a.now) same (a.grown req.internal) in
      omega (arith, start, up, q.first_is)

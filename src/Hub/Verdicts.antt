-- ===== src/Hub/Verdicts.antt =====
-- No operation stays pending once every cosigner has responded to it.
use rgb_multisig_hub.Base.{
  ℕ, ◌+◌, ◌≤◌, ◌<◌, ◌≡◌, ◌⊎◌, inl, inr, true, false, Option, none, some, [], length, arith, Elem,
}
use rgb_multisig_hub.Operations.{OperationStatus, pending, approved, discarded}
use rgb_multisig_hub.World.{Env, IsLawful, World, Operation}
use rgb_multisig_hub.State.{AppState}
use rgb_multisig_hub.Hub.Settled.{IsConfigured, votes, threshold_of}
use rgb_multisig_hub.Hub.Requests.{Reach}
use rgb_multisig_hub.Hub.Reach.{Decided, Reach-status}

-- A verdict, by the threshold and the positive votes.
abbrev pub Concluded : OperationStatus → Option ℕ → ℕ → Type 0
Concluded status (some t) acks =
    ((status ≡ approved) × (t ≤ acks)) ⊎ ((status ≡ discarded) × (acks < t))
Concluded status none acks = status ≡ approved

Decided-Concluded :
    (status : OperationStatus) (threshold : Option ℕ) (acks nacks total : ℕ)
    → Decided status threshold acks nacks total
    → acks + nacks ≡ total
    → Concluded status threshold acks
Decided-Concluded pending (some t) acks nacks total (a, d, p) all = absurd (ground (arith, p.0))
Decided-Concluded approved (some t) acks nacks total (a, d, p) all = inl (ground (arith, a.0))
Decided-Concluded discarded (some t) acks nacks total (a, d, p) all = inr (ground (arith, d.0))
Decided-Concluded status none acks nacks total h all = h

module _ (env : Env) (lawful : IsLawful env) (state : AppState) (configured : IsConfigured state)
    (w : World) (no_operations : w.db.operations ≡ []) (no_statuses : w.db.statuses ≡ []) where
  -- With dependencies that do as documented, at most 255 cosigners with reachable thresholds, and a
  -- start without operations: in any world that the hub has reached, an operation to which as many
  -- cosigners have responded as there are is approved, if its type has no threshold or its positive
  -- votes reach it, and discarded otherwise.
  pub Reach-Concluded :
      (u : World)
      → Reach env state w u
      → (op : Operation) → Elem op u.db.operations
      → votes true op.idx u.db.statuses + votes false op.idx u.db.statuses
        ≡ length state.cosigners_by_idx
      → Concluded op.status (threshold_of state op.type) (votes true op.idx u.db.statuses)
  Reach-Concluded u reached op there all =
      Decided-Concluded op.status (threshold_of state op.type) _ _ _
        (Reach-status env lawful state configured w no_operations no_statuses u reached op there)
        all

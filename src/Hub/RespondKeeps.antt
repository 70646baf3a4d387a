-- ===== src/Hub/RespondKeeps.antt =====
-- A response keeps the tables consistent.
use rgb_multisig_hub.Base.{
  ℕ, ◌+◌, ◌%◌, ◌≤◌, ◌<◌, ◌≡◌, ◌≢◌, refl, ap, subst, ◌∙◌, Bool, true, false, not, ◌&&◌, Option, none,
  some, List, count, length, indicator, arith, All_of_Elem, count_mono, count-update_where,
  count-update_where_same,
}
use rgb_multisig_hub.Operations.{
  OperationStatus, pending, approved, discarded, OperationType, get_threshold_for_operation,
  create_utxos, issuance, send_rgb, send_btc, inflation, blind_receive, witness_receive, burn,
}
use rgb_multisig_hub.World.{Operation, CosignerOpStatus, Db}
use rgb_multisig_hub.Database.Rows.{status_has_idx, status_is_of}
use rgb_multisig_hub.State.{AppState, total_cosigners}
use rgb_multisig_hub.Votes.{new_status}
use rgb_multisig_hub.Votes.Decision.{is_vote, voted}
use rgb_multisig_hub.Routes.Respond.{set_response}
use rgb_multisig_hub.Hub.Settled.{
  IsConfigured, Consistent, Settled, Verdict, threshold_of, votes, processed,
}
use rgb_multisig_hub.Hub.Responding.{Responded}

-- What a response changes in an entry.
pub response_facts :
    (ack : Bool) (time : ℕ) (file : Option ℕ) (r : CosignerOpStatus)
    → let s = set_response ack time file r in
      (s.idx ≡ r.idx)
      × (s.cosigner_idx ≡ r.cosigner_idx)
      × (s.operation_idx ≡ r.operation_idx)
      × (s.processed_at ≡ r.processed_at)
      × (s.ack ≡ some ack)
response_facts ack time none r = (refl, refl, refl, refl, refl)
response_facts ack time (some file) r = (refl, refl, refl, refl, refl)

pub threshold_bounds :
    (state : AppState) (type : OperationType) {t : ℕ}
    → IsConfigured state
    → threshold_of state type ≡ some t
    → (0 < t) × (t ≤ length state.cosigners_by_idx)
unfolding get_threshold_for_operation
threshold_bounds state create_utxos c e = ground arith
threshold_bounds state issuance c e = cc
threshold_bounds state send_rgb c e = ground arith
threshold_bounds state send_btc c e = ground arith
threshold_bounds state inflation c e = ground arith
threshold_bounds state blind_receive c e = cc
threshold_bounds state witness_receive c e = cc
threshold_bounds state burn c e = ground arith

abbrev pub status_after : Option OperationStatus → OperationStatus
status_after none = pending
status_after (some s) = s

-- One more vote on a pending operation: the decision fits the votes.
conclude :
    (a n t total : ℕ) (ack : Bool) (d : Option OperationStatus)
    → Verdict pending (some t) a n 0 total
    → 0 < t
    → total ≤ 255
    → new_status ((a + indicator ack) % 256) ((n + indicator (not ack)) % 256) t total ≡ d
    → Verdict (status_after d) (some t) (a + indicator ack) (n + indicator (not ack)) 0 total
unfolding new_status
conclude a n t total ack none v pos few e = ground arith
conclude a n t total ack (some pending) v pos few e = ground arith
conclude a n t total ack (some approved) v pos few e = ground arith
conclude a n t total ack (some discarded) v pos few e = ground arith

-- The entries of an operation bound its votes.
votes-le :
    (v : Bool) (state : AppState) (i : ℕ) (ops : List Operation) (rows : List CosignerOpStatus)
    → Consistent state ops rows
    → votes v i rows ≤ length state.cosigners_by_idx
votes-le v state i ops rows h =
    let le =
      count_mono (λ r. status_is_of i r && is_vote v r) (status_is_of i) rows
        (λ r e. ground arith) in
    grind (arith, h.entries_of i, h.op_unique i)

voted-false : (b : Bool) → voted false (some b) ≡ not b
voted-false true = refl
voted-false false = refl

module _ (state : AppState) (c i : ℕ) (before after : Db) (configured : IsConfigured state)
    (r : Responded state c i before after)
    (h : Consistent state before.operations before.statuses) where
  -- The counts of a test over the entries after the response.
  moved :
      (q : CosignerOpStatus → Bool)
      → count q after.statuses + indicator (q r.entry)
        ≡ count q before.statuses + indicator (q (set_response r.ack r.time r.file r.entry))
  moved q = rw r.recorded (
      count-update_where (status_has_idx r.entry.idx) q (set_response r.ack r.time r.file) r.entry
        before.statuses r.allowed.entry_there (ground arith) (h.status_unique r.entry.idx))

  pub unmoved :
      (q : CosignerOpStatus → Bool)
      → ((x : CosignerOpStatus) → q (set_response r.ack r.time r.file x) ≡ q x)
      → count q after.statuses ≡ count q before.statuses
  unmoved q same =
      ap (count q) r.recorded
      ∙ count-update_where_same (status_has_idx r.entry.idx) q _ before.statuses same

  pub processed_after : (j : ℕ) → processed j after.statuses ≡ processed j before.statuses
  processed_after j =
      unmoved _ λ x. let (_, _, o, p, _) = response_facts r.ack r.time r.file x in rw (o, p) refl

  pub votes_other :
      (v : Bool) (j : ℕ) → j ≢ i → votes v j after.statuses ≡ votes v j before.statuses
  votes_other v j ne =
      let m = moved (λ s. status_is_of j s && is_vote v s) in
      let (_, _, o, _, _) = response_facts r.ack r.time r.file r.entry in
      ground (arith, r.allowed.entry_operation)

  pub votes_here :
      (v : Bool)
      → votes v i after.statuses ≡ votes v i before.statuses + indicator (voted v (some r.ack))
  votes_here v =
      let m = moved (λ s. status_is_of i s && is_vote v s) in
      let (_, _, o, _, k) = response_facts r.ack r.time r.file r.entry in
      ground (arith, r.allowed.entry_operation, r.allowed.unvoted)

  total_is : total_cosigners state ≡ length state.cosigners_by_idx
  unfolding total_cosigners
  total_is = omega (arith, configured.same_size, configured.few)

  old-Verdict :
      Verdict pending
        (some r.threshold)
        (votes true i before.statuses)
        (votes false i before.statuses)
        (processed i before.statuses)
        (length state.cosigners_by_idx)
  old-Verdict =
      let rows = before.statuses in
      let total = length state.cosigners_by_idx in
      subst
        (λ k.
          Verdict pending (some r.threshold) (votes true k rows) (votes false k rows)
            (processed k rows) total)
        r.allowed.op_idx
        (subst
          (λ t.
            Verdict pending t (votes true r.op.idx rows) (votes false r.op.idx rows)
              (processed r.op.idx rows) total)
          r.threshold_is
          (subst
            (λ s.
              Verdict s (threshold_of state r.op.type) (votes true r.op.idx rows)
                (votes false r.op.idx rows) (processed r.op.idx rows) total)
            r.allowed.op_pending
            (All_of_Elem (Settled state rows) r.op before.operations h.settled r.allowed.op_there)))

  refused : votes false i after.statuses ≡ votes false i before.statuses + indicator (not r.ack)
  refused =
      votes_here false ∙ ap (λ b. votes false i before.statuses + indicator b) (voted-false r.ack)

  none_done : processed i after.statuses ≡ 0
  none_done = processed_after i ∙ old-Verdict.2

  -- The operation's new status is the one that its votes call for.
  pub decision_is :
      (d : Option OperationStatus)
      → new_status
          (votes true i after.statuses % 256)
          (votes false i after.statuses % 256)
          r.threshold
          (total_cosigners state)
        ≡ d
      → Verdict
          (status_after d)
          (some r.threshold)
          (votes true i after.statuses)
          (votes false i after.statuses)
          (processed i after.statuses)
          (length state.cosigners_by_idx)
  decision_is d e =
      let total = length state.cosigners_by_idx in
      let a = votes true i before.statuses in
      let n = votes false i before.statuses in
      let pos = threshold_bounds state r.op.type configured r.threshold_is in
      let e' : new_status ((a + indicator r.ack) % 256) ((n + indicator (not r.ack)) % 256)
            r.threshold total
          ≡ d =
        rw (← votes_here true, ← refused, ← total_is) e in
      rw (votes_here true, refused, none_done)
        (conclude a n r.threshold total r.ack d (old-Verdict.0, old-Verdict.1, refl) pos.0
          configured.few e')
